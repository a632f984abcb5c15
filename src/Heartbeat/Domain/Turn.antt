-- ===== src/Heartbeat/Domain/Turn.antt =====
-- What one turn of update_hbdomain's loop, of daemon/heartbeat.c, does to one host.
use xha.Prelude.{
  ℕ, ◌≡◌, refl, Bool, true, false, not, ◌&&◌, ◌||◌, ◌==◌, ℕ_discrete, if◌then◌else◌, arith, if-elim,
  ◌∙◌, sym, ap, ==_self,
}
use xha.Prelude.Hosts.{update}
use xha.Prelude.Int.{ℤ}
use xha.HostMap.{HostMap, is_on, set, reset}
use xha.HostMap.Laws.{is_on-set, is_on-reset}
use xha.Config.{Config}
use xha.Data.{SmPhase, ComHb}
use xha.Sm.Domain.Update.{bool_eq}
use xha.Heartbeat.Domain.{Beat, is_heard, is_deaf, beat_heard, beat_silent, beat_step}

at_one {ℓ} :
    {A : Type ℓ} (f : ℕ → A) (k j : ℕ) {v : A} → v ≡ f k → f j ≡ (if k == j then v else f j)
at_one f k j e = elim (ℕ_discrete k j) [
  | yes same ↦ rw same (rw (==_self j) (sym (e ∙ ap f same)))
  | no apart ↦ let off : (k == j) ≡ false = ground arith in rw off refl
]

taken : (a b : Bool) → (not a && b) ≡ (if a then false else b)
taken true b = refl
taken false b = refl

put : (a b : Bool) → (a || b) ≡ (if a then true else b)
put true b = refl
put false b = refl

or_false : (a : Bool) → a ≡ (a || false)
or_false true = refl
or_false false = refl

eq_false_of_not : (a : Bool) → not a ≡ true → a ≡ false
eq_false_of_not a h = ground (arith, h)

eq_true_of_not : (a : Bool) → not a ≡ false → a ≡ true
eq_true_of_not a h = ground (arith, h)

if_not {ℓ} : {A : Type ℓ} (a : Bool) (x y : A) → (if not a && false then x else y) ≡ y
if_not true x y = refl
if_not false x y = refl

settled_stays : (changed own b : Bool) → changed ≡ (changed || not (own || bool_eq b b))
settled_stays changed own b = ground arith

settled_moves : (changed v : Bool) → true ≡ (changed || not (bool_eq v (not v)))
settled_moves changed v = ground arith

module _ (cfg : Config) (now : ℤ) (phase : SmPhase) (join_block : Bool) where
  -- This host is in its own domain. Another that was heard within the timeout stays unless it is
  -- deaf, and enters while joining is not blocked; one that was not heard is out.
  abbrev pub due : ComHb → ℕ → Bool
  due phb j =
      (j == cfg.my_index)
      || is_heard cfg now phase phb j
        && (if is_on phb.hbdomain j then not (is_deaf cfg now phase phb j) else not join_block)

  abbrev pub is_settled : ComHb → ℕ → Bool
  is_settled phb j = (j == cfg.my_index) || bool_eq (due phb j) (is_on phb.hbdomain j)

  abbrev pub is_silent : ComHb → ℕ → Bool
  is_silent phb j = not (j == cfg.my_index) && not (is_heard cfg now phase phb j)

  abbrev pub renumber : ComHb → (ℕ → ℕ) → ℕ → ℕ
  renumber phb sequence j = if is_silent phb j then 0 else sequence j

  -- What one turn of the loop does.
  pub record Turn (k : ℕ) (s t : Beat) : Type 0 where
    pub timed : t.phb.time_last_hb ≡ s.phb.time_last_hb
    pub phased : t.phb.sm_phase ≡ s.phb.sm_phase
    pub seen : t.phb.raw ≡ s.phb.raw
    pub domain :
        (j : ℕ) → is_on t.phb.hbdomain j ≡ (if k == j then due s.phb k else is_on s.phb.hbdomain j)
    pub reported : t.changed ≡ (s.changed || not (is_settled s.phb k))
    pub numbered :
        (j : ℕ) → t.sequence j ≡ (if k == j then renumber s.phb s.sequence k else s.sequence j)

  -- A turn that leaves the domain alone.
  stay-Turn :
      (k : ℕ) (s : Beat) (hostmap sequence : ℕ → ℕ)
      → due s.phb k ≡ is_on s.phb.hbdomain k
      → ((j : ℕ) → sequence j ≡ (if k == j then renumber s.phb s.sequence k else s.sequence j))
      → Turn k s (record s { hostmap = hostmap; sequence = sequence })
  stay-Turn k s hostmap sequence same numbers = record {
    timed = refl;
    phased = refl;
    seen = refl;
    domain = λ j. at_one (is_on s.phb.hbdomain) k j same;
    reported = rw same (settled_stays s.changed (k == cfg.my_index) (is_on s.phb.hbdomain k));
    numbered = numbers;
  }

  -- A turn that changes the place of another host.
  move-Turn :
      (k : ℕ) (s : Beat) (hostmap sequence : ℕ → ℕ) (domain : HostMap) (v : Bool)
      → (k == cfg.my_index) ≡ false
      → due s.phb k ≡ v
      → is_on s.phb.hbdomain k ≡ not v
      → ((j : ℕ) → is_on domain j ≡ (if k == j then v else is_on s.phb.hbdomain j))
      → ((j : ℕ) → sequence j ≡ (if k == j then renumber s.phb s.sequence k else s.sequence j))
      → Turn k s (record {
        phb = record (s.phb) { hbdomain = domain };
        sequence = sequence;
        hostmap = hostmap;
        changed = true;
      })
  move-Turn k s hostmap sequence domain v other expected was moves numbers = record {
    timed = refl;
    phased = refl;
    seen = refl;
    domain = λ j. rw expected (moves j);
    reported = rw (expected, other, was) (settled_moves s.changed v);
    numbered = numbers;
  }

  -- The number of a host that was heard stays.
  heard_number :
      (k : ℕ) (s : Beat)
      → is_heard cfg now phase s.phb k ≡ true
      → (j : ℕ) → s.sequence j ≡ (if k == j then renumber s.phb s.sequence k else s.sequence j)
  heard_number k s heard j =
      at_one s.sequence k j (rw heard (if_not (k == cfg.my_index) 0 (s.sequence k)))

  beat_heard-Turn :
      (k : ℕ) (s : Beat)
      → (k == cfg.my_index) ≡ false
      → is_heard cfg now phase s.phb k ≡ true
      → Turn k s (beat_heard cfg now phase join_block k s)
  unfolding beat_heard
  beat_heard-Turn k s other heard =
      let numbers = heard_number k s heard in
      if-elim (Turn k s) (is_on s.phb.hbdomain k)
        (λ on.
          if-elim (Turn k s) (is_deaf cfg now phase s.phb k)
            (λ deaf.
              move-Turn k s _ s.sequence (reset s.phb.hbdomain k) false other
                (rw (other, heard, on, deaf) refl) on
                (λ j. is_on-reset s.phb.hbdomain k j ∙ taken (k == j) _) numbers)
            (λ hears. stay-Turn k s _ s.sequence (rw (other, heard, on, hears) refl) numbers))
        (λ out.
          if-elim (Turn k s) (not join_block)
            (λ open_.
              move-Turn k s _ s.sequence (set s.phb.hbdomain k) true other
                (rw (other, heard, out, open_) refl) out
                (λ j. is_on-set s.phb.hbdomain k j ∙ put (k == j) _) numbers)
            (λ blocked. stay-Turn k s _ s.sequence (rw (other, heard, out, blocked) refl) numbers))

  -- The number of another host that was not heard is forgotten.
  silent_number :
      (k : ℕ) (s : Beat)
      → (k == cfg.my_index) ≡ false
      → is_heard cfg now phase s.phb k ≡ false
      → (j : ℕ)
      → update s.sequence k 0 j ≡ (if k == j then renumber s.phb s.sequence k else s.sequence j)
  silent_number k s other silent j = rw (other, silent) refl

  beat_silent-Turn :
      (k : ℕ) (s : Beat)
      → (k == cfg.my_index) ≡ false
      → is_heard cfg now phase s.phb k ≡ false
      → Turn k s (beat_silent cfg now phase k s)
  unfolding beat_silent
  beat_silent-Turn k s other silent =
      let numbers = silent_number k s other silent in
      let gone : due s.phb k ≡ false = rw (other, silent) refl in
      if-elim (Turn k s) (not (is_on s.phb.hbdomain k))
        (λ out.
          stay-Turn k s _ (update s.sequence k 0) (gone ∙ sym (eq_false_of_not _ out)) numbers)
        (λ on.
          move-Turn k s _ (update s.sequence k 0) (reset s.phb.hbdomain k) false other gone
            (eq_true_of_not _ on) (λ j. is_on-reset s.phb.hbdomain k j ∙ taken (k == j) _) numbers)

  own-Turn :
      (k : ℕ) (s : Beat) (hostmap : ℕ → ℕ)
      → (k == cfg.my_index) ≡ true
      → Turn k s
          (record s { phb = record (s.phb) { hbdomain = set s.phb.hbdomain k }; hostmap = hostmap })
  own-Turn k s hostmap own = record {
    timed = refl;
    phased = refl;
    seen = refl;
    domain = λ j. rw own (is_on-set s.phb.hbdomain k j ∙ put (k == j) _);
    reported = rw own (or_false s.changed);
    numbered = λ j. at_one s.sequence k j (rw own refl);
  }

  pub beat_step-Turn : (k : ℕ) (s : Beat) → Turn k s (beat_step cfg now phase join_block k s)
  unfolding beat_step
  beat_step-Turn k s =
      if-elim (Turn k s) (k == cfg.my_index) (λ own. own-Turn k s _ own)
        (λ other.
          if-elim (Turn k s) (is_heard cfg now phase s.phb k)
            (λ heard. beat_heard-Turn k s other heard)
            (λ silent. beat_silent-Turn k s other silent))
