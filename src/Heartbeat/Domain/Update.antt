-- ===== src/Heartbeat/Domain/Update.antt =====
-- What update_hbdomain of daemon/heartbeat.c leaves in the heartbeat domain.
use xha.Prelude.{
  ℕ, suc, ◌≡◌, refl, Bool, false, not, ◌&&◌, ◌||◌, ◌==◌, ltb, ℕ_discrete, if◌then◌else◌, arith, ◌∙◌,
}
use xha.Prelude.Hosts.{for_hosts, for_hosts_inv, all_hosts}
use xha.Prelude.Int.{ℤ}
use xha.HostMap.{is_on}
use xha.Config.{Config}
use xha.Data.{SmPhase, ComHb}
use xha.Sm.Signals.{sm_hb_updated}
use xha.Heartbeat.{HbState}
use xha.Heartbeat.Domain.{Beat, is_heard, is_deaf, beat_step, update_hbdomain}
use xha.Heartbeat.Domain.Turn.{Turn, due, is_settled, renumber, beat_step-Turn}

not_all : (a b : Bool) → (not a || not b) ≡ not (a && b)
not_all a b = ground arith

-- The hosts below `suc k` are those below `k` and `k`.
below_suc {ℓ} :
    {A : Type ℓ} (f g : ℕ → A) (k j : ℕ)
    → (if k == j then f k else if ltb j k then f j else g j) ≡ (if ltb j (suc k) then f j else g j)
below_suc f g k j = elim (ℕ_discrete k j) [ yes e ↦ rw e (ground arith) | no ne ↦ ground arith ]

module _ (cfg : Config) (now : ℤ) (phase : SmPhase) (join_block : Bool) (phb : ComHb) where
  record Beaten (sequence : ℕ → ℕ) (k : ℕ) (s : Beat) : Type 0 where
    timed : s.phb.time_last_hb ≡ phb.time_last_hb
    phased : s.phb.sm_phase ≡ phb.sm_phase
    seen : s.phb.raw ≡ phb.raw
    domain :
        (j : ℕ)
        → is_on s.phb.hbdomain j
          ≡ (if ltb j k then due cfg now phase join_block phb j else is_on phb.hbdomain j)
    reported : s.changed ≡ not (all_hosts k (is_settled cfg now phase join_block phb))
    numbered :
        (j : ℕ)
        → s.sequence j
          ≡ (if ltb j k then renumber cfg now phase join_block phb sequence j else sequence j)

  is_heard-Beaten :
      {sequence : ℕ → ℕ} {k : ℕ} {s : Beat}
      → Beaten sequence k s
      → is_heard cfg now phase s.phb k ≡ is_heard cfg now phase phb k
  unfolding is_heard
  is_heard-Beaten h = rw h.timed

  is_deaf-Beaten :
      {sequence : ℕ → ℕ} {k : ℕ} {s : Beat}
      → Beaten sequence k s
      → is_deaf cfg now phase s.phb k ≡ is_deaf cfg now phase phb k
  unfolding is_deaf
  is_deaf-Beaten h = rw (h.phased, h.seen)

  due-Beaten :
      {sequence : ℕ → ℕ} {k : ℕ} {s : Beat}
      → Beaten sequence k s
      → due cfg now phase join_block s.phb k ≡ due cfg now phase join_block phb k
  due-Beaten {k = k} h =
      let same = h.domain k in rw (is_heard-Beaten h, is_deaf-Beaten h) (ground (arith, same))

  is_settled-Beaten :
      {sequence : ℕ → ℕ} {k : ℕ} {s : Beat}
      → Beaten sequence k s
      → is_settled cfg now phase join_block s.phb k ≡ is_settled cfg now phase join_block phb k
  is_settled-Beaten {k = k} {s = s} h =
      let same : is_on s.phb.hbdomain k ≡ is_on phb.hbdomain k = ground (arith, h.domain k) in
      rw (due-Beaten h, same) refl

  renumber-Beaten :
      {sequence : ℕ → ℕ} {k : ℕ} {s : Beat}
      → Beaten sequence k s
      → renumber cfg now phase join_block s.phb s.sequence k
        ≡ renumber cfg now phase join_block phb sequence k
  renumber-Beaten {sequence = sequence} {k = k} {s = s} h =
      let same : s.sequence k ≡ sequence k = ground (arith, h.numbered k) in
      rw (is_heard-Beaten h, same) refl

  Turn-Beaten :
      (sequence : ℕ → ℕ) (k : ℕ) (s t : Beat)
      → Beaten sequence k s
      → Turn cfg now phase join_block k s t
      → Beaten sequence (suc k) t
  unfolding all_hosts
  Turn-Beaten sequence k s t h turn = record {
    timed = turn.timed ∙ h.timed;
    phased = turn.phased ∙ h.phased;
    seen = turn.seen ∙ h.seen;
    domain = λ j.
        turn.domain j
        ∙ rw (due-Beaten h, h.domain j)
            (below_suc (due cfg now phase join_block phb) (is_on phb.hbdomain) k j);
    reported = turn.reported ∙ rw (is_settled-Beaten h, h.reported) (not_all _ _);
    numbered = λ j.
        turn.numbered j
        ∙ rw (renumber-Beaten h, h.numbered j)
            (below_suc (renumber cfg now phase join_block phb sequence) sequence k j);
  }

  loop-Beaten :
      (sequence : ℕ → ℕ) (n : ℕ)
      → Beaten sequence n (
          for_hosts n
            (beat_step cfg now phase join_block)
            (record { phb = phb; sequence = sequence; hostmap = λ i. 0; changed = false }))
  unfolding all_hosts
  loop-Beaten sequence n =
      for_hosts_inv (Beaten sequence) n (beat_step cfg now phase join_block) _
        (record {
          timed = refl;
          phased = refl;
          seen = refl;
          domain = λ j. ground arith;
          reported = refl;
          numbered = λ j. ground arith;
        })
        (λ k s lt h. Turn-Beaten sequence k s _ h (beat_step-Turn cfg now phase join_block k s))

-- update_hbdomain makes the domain of the configured hosts what their last packets call for: this
-- host is in; another that was heard within T1, in milliseconds of 32 bits, stays unless both are
-- handling a fault and it does not hear this host, and enters unless joining is blocked; one that
-- was not heard is out, and its sequence number is forgotten. Other hosts are left alone. TRUE is
-- returned exactly when the place of a configured host other than this one had to be changed.
pub update_hbdomain_lem :
    (cfg : Config) (now : ℤ) (h : HbState)
    → let (changed, t) = update_hbdomain cfg now h in
      let d = h.daemon in
      (changed ≡ not (all_hosts cfg.hostnum (is_settled cfg now d.sm.phase d.var.join_block d.hb)))
      × ((j : ℕ)
          → (is_on t.daemon.hb.hbdomain j ≡ (
              if ltb j cfg.hostnum
              then due cfg now d.sm.phase d.var.join_block d.hb j
              else is_on d.hb.hbdomain j))
            × (t.sequence j ≡ (
                if ltb j cfg.hostnum
                then renumber cfg now d.sm.phase d.var.join_block d.hb h.sequence j
                else h.sequence j)))
unfolding update_hbdomain sm_hb_updated
update_hbdomain_lem cfg now h =
    let d = h.daemon in
    let done = loop-Beaten cfg now d.sm.phase d.var.join_block d.hb h.sequence cfg.hostnum in
    (done.reported, λ j. (done.domain j, done.numbered j))
