-- ===== src/StateFile/Share.antt =====
-- What a host learns of the others when its read of the state file comes through at once.
pub mod Copy
use xha.Prelude.{
  ℕ, zero, suc, ◌≤◌, ◌<◌, ◌≡◌, ◌≢◌, refl, sym, ap, subst, ◌∙◌, Bool, true, false, not, ◌&&◌, ◌||◌,
  ◌==◌, if◌then◌else◌, Option, none, some, arith, Option-cases, inl, inr, ==_self, ==_iff,
  ℕ_discrete, if-elim,
}
use xha.Prelude.Hosts.{update, for_hosts, for_hosts_inv, find_host, find_host-some}
use xha.Prelude.Int.{ℤ}
use xha.HostWeight.{Str}
use xha.Config.{Config}
use xha.Data.{Status, success, error_undefined, Daemon}
use xha.Sm.Start.{is_success}
use xha.StateFile.{GlobalSection, HostSection, Layout, SfState}
use xha.StateFile.Io.{check_global, check_host, sf_readglobal, sf_readhostspecific}
use xha.StateFile.Read.{
  Attempt, IoStatus, no_io, update_hoststat, store_host, read_host, read_global, read_attempt,
  read_attempts, io_result, sf_ioattempts,
}

pub no_failure : {status : Status} → status ≡ success → is_success status ≡ false → ⊥
no_failure good failed = ground (arith, failed, ap is_success good)

module _ (cfg : Config) (lay : Layout) (uuid : Str) (g : GlobalSection) (h : ℕ → HostSection) where
  -- Every access of an attempt succeeds, and the sections are sound.
  pub record IsSound (attempt : Attempt) : Type 0 where
    pub global : attempt.global ≡ some g
    pub host : (i : ℕ) → i < cfg.hostnum → attempt.host i ≡ some (h i)
    pub global_sound : check_global lay (some uuid) g ≡ success
    pub host_sound : (i : ℕ) → i < cfg.hostnum → check_host lay (h i) ≡ success

  -- After the first `k` hosts.
  pub record IsRead (s : SfState) (k : ℕ) (st : IoStatus × SfState) : Type 0 where
    pub global : st.0.global_section ≡ success
    pub done : (j : ℕ) → j < k → (st.0.host_section j ≡ success) × (st.1.buffer.host j ≡ h j)
    pub left : (j : ℕ) → k ≤ j → st.0.host_section j ≡ error_undefined
    pub buffer : st.1.buffer.global ≡ g
    pub daemon : st.1.daemon ≡ s.daemon
    pub masks :
        (st.1.modified_pool_state ≡ s.modified_pool_state)
        × (st.1.modified_master ≡ s.modified_master)
        × (st.1.modified_excluded ≡ s.modified_excluded)
        × (st.1.master ≡ s.master)

  -- The statistics of a host are all that their update changes, and the next number to write.
  update_hoststat-IsRead :
      (s : SfState) (k : ℕ) (clock : ℤ) (i : ℕ) (io : IoStatus) (t : SfState)
      → IsRead s k (io, t)
      → IsRead s k (io, update_hoststat cfg lay uuid clock i t)
  unfolding update_hoststat
  update_hoststat-IsRead s k clock i io t r =
      if-elim (λ u. IsRead s k (io, u)) (not (t.hoststat i).readonce)
        (λ first. record {
          global = r.global;
          done = r.done;
          left = r.left;
          buffer = r.buffer;
          daemon = r.daemon;
          masks = r.masks;
        })
        (λ again.
          if-elim (λ u. IsRead s k (io, u))
            (not ((t.hoststat i).sequence == (t.buffer.host i).contents.sequence))
            (λ changed. record {
              global = r.global;
              done = r.done;
              left = r.left;
              buffer = r.buffer;
              daemon = r.daemon;
              masks = r.masks;
            })
            (λ same. record {
              global = r.global;
              done = r.done;
              left = r.left;
              buffer = r.buffer;
              daemon = r.daemon;
              masks = r.masks;
            }))

  store_host-IsRead :
      (s : SfState) (k : ℕ) (clock : ℤ) (st : IoStatus × SfState)
      → IsRead s k st
      → IsRead s (suc k) (store_host cfg lay uuid clock k (success, h k) st)
  unfolding store_host
  store_host-IsRead s k clock (io, t) r =
      let io' : IoStatus = record io { host_section = update io.host_section k success } in
      let filled : SfState = record t {
        buffer = record (t.buffer) { host = update t.buffer.host k (h k) };
      } in
      let r' : IsRead s (suc k) (io', filled) = record {
        global = r.global;
        done = λ j lt. elim (ℕ_discrete k j) [
          | yes e ↦ rw e (rw (==_self j) (refl, refl))
          | no ne ↦ let off : (k == j) ≡ false = ground arith in rw off (r.done j (omega arith))
        ];
        left = λ j le. let off : (k == j) ≡ false = ground arith in rw off (r.left j (omega arith));
        buffer = r.buffer;
        daemon = r.daemon;
        masks = r.masks;
      } in
      update_hoststat-IsRead s (suc k) clock k io' filled r'

  read_host-IsRead :
      (s : SfState) (attempt : Attempt)
      → IsSound attempt
      → (k : ℕ) (st : IoStatus × SfState) → k < cfg.hostnum
      → IsRead s k st
      → IsRead s (suc k) (read_host cfg lay uuid attempt k st)
  unfolding read_host sf_readhostspecific
  read_host-IsRead s attempt sound k (io, t) lt r =
      let fresh : is_success (io.host_section k) ≡ false = ap is_success (r.left k (omega arith)) in
      rw (fresh, sound.host k lt, sound.host_sound k lt)
        (store_host-IsRead s k (attempt.clock k) (io, t) r)

  read_global-IsRead :
      (s : SfState) (attempt : Attempt)
      → IsSound attempt
      → IsRead s 0 (read_global cfg lay uuid attempt (no_io cfg lay uuid, s))
  unfolding read_global sf_readglobal
  read_global-IsRead s attempt sound =
      rw (sound.global, sound.global_sound)
        (record {
          global = refl;
          done = λ j lt. absurd (omega arith);
          left = λ j le. refl;
          buffer = refl;
          daemon = refl;
          masks = (refl, refl, refl, refl);
        })

  read_attempt-IsRead :
      (s : SfState) (attempt : Attempt)
      → IsSound attempt
      → IsRead s cfg.hostnum (read_attempt cfg lay uuid attempt (no_io cfg lay uuid, s))
  unfolding read_attempt
  read_attempt-IsRead s attempt sound =
      for_hosts_inv (IsRead s) cfg.hostnum (read_host cfg lay uuid attempt) _
        (read_global-IsRead s attempt sound)
        (λ k st lt r. read_host-IsRead s attempt sound k st lt r)

  io_result-IsRead :
      (s : SfState) (st : IoStatus × SfState)
      → IsRead s cfg.hostnum st
      → io_result cfg lay uuid st.0 ≡ success
  unfolding io_result
  io_result-IsRead s (io, t) r =
      elim (Option-cases (find_host cfg.hostnum (λ i. not (is_success (io.host_section i))))) [
        | inl none_bad ↦ rw (r.global, none_bad) refl
        | inr (i, bad) ↦
            let (lt, fails, first) =
              find_host-some cfg.hostnum (λ i. not (is_success (io.host_section i))) bad in
            let fine : is_success (io.host_section i) ≡ true = ap is_success (r.done i lt).0 in
            absurd (ground (arith, fine, fails))
      ]

  -- When the first attempt is sound, the loop of readsf ends with it.
  pub read_attempts-IsRead :
      (s : SfState) (attempts : ℕ → Attempt)
      → IsSound (attempts 2)
      → let st = read_attempts cfg lay uuid attempts sf_ioattempts (no_io cfg lay uuid, s) in
        (io_result cfg lay uuid st.0 ≡ success) × IsRead s cfg.hostnum st
  unfolding read_attempts
  read_attempts-IsRead s attempts sound =
      let r = read_attempt-IsRead s (attempts 2) sound in
      let tried = read_attempt cfg lay uuid (attempts 2) (no_io cfg lay uuid, s) in
      let good = io_result-IsRead s tried r in
      if-elim
        (λ (st : IoStatus × SfState).
          (io_result cfg lay uuid st.0 ≡ success) × IsRead s cfg.hostnum st)
        (is_success (io_result cfg lay uuid tried.0)) (λ came. (good, r))
        (λ failed. absurd (no_failure good failed))
