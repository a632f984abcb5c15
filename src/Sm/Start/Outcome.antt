-- ===== src/Sm/Start/Outcome.antt =====
-- What test_Start_Criteria of daemon/sm.c leaves behind.
use xha.Prelude.{
  ◌≡◌, refl, subst, Bool, true, false, not, ◌&&◌, if◌then◌else◌, ◌⊎◌, inl, inr, arith, none, some,
  List, [], ◌∷◌, if-elim,
}
use xha.HostMap.{HostMap, subset_equal, mask_unconfig}
use xha.Config.{Config}
use xha.Data.{
  Status, success, error_sm_join_failed, error_sm_nostatefile, error_sm_invalid_pool_state,
  PoolState, state_init, state_active, state_none, state_invalid, state_other, sf_set_pool_state,
  Call, ComHb, ComSf, Daemon,
}
use xha.Sm.Control.{call, get_pool_state, get_excluded_flag}
use xha.Sm.Membership.{form_new_liveset, is_all_hosts_up, am_i_in_new_liveset}
use xha.Sm.Partition.{am_i_in_largest_partition}
use xha.Sm.Signals.{sm_sm_updated}
use xha.Sm.Survival.Rule.{sm_sm_updated-livesets}
use xha.Sm.Waits.{Wakes, wait_until_all_hosts_booted}
use xha.Sm.Start.{
  StartFlags, StartRound, returned, undecided, accepted, sfdomain_nonstarting, existing_liveset,
  start_flags, form_with_all, enter_existing, start_round, start_timeout, start_rounds,
  test_start_criteria,
}

-- A start that succeeds has set the liveset to the proposed one, and if the pool was in its initial
-- state, has asked to make it active.
pub record IsStarted (init : Bool) (d : Daemon) : Type 0 where
  pub agreed : d.sm.current_liveset ≡ d.sm.proposed_liveset
  pub activated :
      init ≡ true → (rest : List Call) × (d.calls ≡ sf_set_pool_state state_active ∷ rest)

abbrev IsFine : Bool → Status × Daemon → Type 0
IsFine init (status, d) = status ≡ success → IsStarted init d

abbrev RoundIsFine : Bool → StartRound → Type 0
RoundIsFine init (returned status d) = IsFine init (status, d)
RoundIsFine init (undecided flags hb sf d) = flags.init ≡ init

form_new_liveset-agreed :
    (cfg : Config) (liveset : HostMap) (d : Daemon)
    → (form_new_liveset cfg liveset d).sm.current_liveset
      ≡ (form_new_liveset cfg liveset d).sm.proposed_liveset
unfolding form_new_liveset
form_new_liveset-agreed cfg liveset d = ground arith

-- Where the pool is not in its initial state, the livesets decide.
fine_if_active :
    (init : Bool) (d : Daemon)
    → init ≡ false
    → d.sm.current_liveset ≡ d.sm.proposed_liveset
    → IsStarted init d
fine_if_active init d old same = record {
  agreed = same;
  activated = λ new. absurd (ground (arith, old, new));
}

fine_if_called :
    (init : Bool) (d : Daemon)
    → d.sm.current_liveset ≡ d.sm.proposed_liveset
    → IsStarted init (if init then call (sf_set_pool_state state_active) d else d)
fine_if_called true d same = record { agreed = same; activated = λ new. (d.calls, refl) }
fine_if_called false d same = fine_if_active false d refl same

module _ (cfg : Config) where
  form_with_all-RoundIsFine :
      (boot : Wakes) (flags : StartFlags) (d : Daemon)
      → RoundIsFine flags.init (form_with_all cfg boot flags d)
  unfolding form_with_all
  form_with_all-RoundIsFine boot flags d =
      if-elim (RoundIsFine flags.init)
        (is_all_hosts_up cfg d.hb.hbdomain && is_all_hosts_up cfg d.sf.sfdomain)
        (λ up.
          if-elim (RoundIsFine flags.init)
            (wait_until_all_hosts_booted cfg boot (
              sm_sm_updated true
                (record d { sm = record (d.sm) { proposed_liveset = d.hb.hbdomain } }))).0
            (λ booted ok. fine_if_called flags.init _ (form_new_liveset-agreed cfg _ _))
            (λ late. refl))
        (λ down. refl)

  enter_existing-RoundIsFine :
      (flags : StartFlags) (d : Daemon)
      → flags.init ≡ false
      → RoundIsFine flags.init (enter_existing cfg flags d)
  unfolding enter_existing
  enter_existing-RoundIsFine flags d old =
      elim (accepted (am_i_in_new_liveset cfg d.sf (sfdomain_nonstarting cfg d.sf)))
        as (λ o. RoundIsFine flags.init (elim o [
          | some liveset ↦ returned success (form_new_liveset cfg liveset d)
          | none ↦ enter_or_wait d
        ])) [
          | some liveset ↦
              λ ok. fine_if_active flags.init _ old (form_new_liveset-agreed cfg liveset d)
          | none ↦
              if-elim (RoundIsFine flags.init)
                (subset_equal (mask_unconfig cfg.hostnum d.sf.sfdomain)
                  (mask_unconfig cfg.hostnum d.hb.hbdomain))
                (λ within ok. fine_if_active flags.init _ old (enters d)) (λ beyond. refl)
        ]
    where
      entered : Daemon → Daemon
      entered e = record e {
        sm = record (e.sm) {
          proposed_liveset = existing_liveset cfg e.sf;
          current_liveset = existing_liveset cfg e.sf;
        };
      }

      enters :
          (e : Daemon)
          → (sm_sm_updated true (entered e)).sm.current_liveset
            ≡ (sm_sm_updated true (entered e)).sm.proposed_liveset
      enters e =
          let (current, proposed) = sm_sm_updated-livesets true (entered e) in
          cc (current, proposed)

      enter_or_wait : Daemon → StartRound
      enter_or_wait e =
          if subset_equal (mask_unconfig cfg.hostnum e.sf.sfdomain)
            (mask_unconfig cfg.hostnum e.hb.hbdomain)
          then returned success (sm_sm_updated true (entered e))
          else undecided flags e.hb e.sf e

  start_round-RoundIsFine :
      (init excluded : Bool) (boot : Wakes) (d : Daemon)
      → RoundIsFine init (start_round cfg init excluded boot d)
  unfolding start_round start_flags
  start_round-RoundIsFine init excluded boot d =
      if-elim (RoundIsFine init) (not d.sf.sf_access) (λ lost bad. absurd (ground (arith, bad)))
        (λ on.
          if-elim (RoundIsFine init) (start_flags cfg init excluded d).empty
            (λ empty. form_with_all-RoundIsFine boot (start_flags cfg init excluded d) d)
            (λ exists.
              if-elim (RoundIsFine init) init (λ new bad. absurd (ground (arith, bad)))
                (λ old. enter_existing-RoundIsFine (start_flags cfg init excluded d) d old)))

  start_timeout-IsFine :
      (flags : StartFlags) (hb : ComHb) (sf : ComSf) (d : Daemon)
      → IsFine flags.init (start_timeout cfg flags hb sf d)
  unfolding start_timeout
  start_timeout-IsFine flags hb sf d =
      if-elim (IsFine flags.init) flags.init (λ new bad. absurd (ground (arith, bad)))
        (λ old.
          if-elim (IsFine flags.init) (not flags.empty)
            (λ exists.
              elim (accepted (am_i_in_new_liveset cfg d.sf (sfdomain_nonstarting cfg sf)))
                as (λ o. IsFine flags.init (elim o [
                  | some liveset ↦ (success, form_new_liveset cfg liveset d)
                  | none ↦ (error_sm_join_failed, d)
                ])) [
                  | some liveset ↦
                      λ ok. fine_if_active flags.init _ old (form_new_liveset-agreed cfg liveset d)
                  | none ↦ λ bad. absurd (ground (arith, bad))
                ])
            (λ empty.
              if-elim (IsFine flags.init) (flags.excluded && not (is_all_hosts_up cfg sf.excluded))
                (λ blocked bad. absurd (ground (arith, bad)))
                (λ free.
                  if-elim (IsFine flags.init)
                    (am_i_in_largest_partition cfg d.hb d.sf (some d.sf.weight))
                    (λ won ok. fine_if_active flags.init _ old (form_new_liveset-agreed cfg _ d))
                    (λ lost bad. absurd (ground (arith, bad))))))

  start_rounds-IsFine :
      (init excluded : Bool) (rounds : List (Wakes × (Daemon → Daemon))) (last : Wakes) (d : Daemon)
      → IsFine init (start_rounds cfg init excluded rounds last d)
  unfolding start_rounds
  start_rounds-IsFine init excluded [] last d =
      decide_last (start_round cfg init excluded last d)
        (start_round-RoundIsFine init excluded last d)
    where
      decide_last :
          (r : StartRound)
          → RoundIsFine init r
          → IsFine init (elim r [
            | returned status e ↦ (status, e)
            | undecided flags hb sf e ↦ start_timeout cfg flags hb sf e
          ])
      decide_last (returned status e) fine = fine
      decide_last (undecided flags hb sf e) same =
          subst (λ i. IsFine i (start_timeout cfg flags hb sf e)) same
            (start_timeout-IsFine flags hb sf e)
  start_rounds-IsFine init excluded ((boot, wake) ∷ rounds) last d =
      decide_next (start_round cfg init excluded boot d)
        (start_round-RoundIsFine init excluded boot d)
        (λ e. start_rounds-IsFine init excluded rounds last (wake e))
    where
      decide_next :
          (r : StartRound)
          → RoundIsFine init r
          → ((e : Daemon) → IsFine init (start_rounds cfg init excluded rounds last (wake e)))
          → IsFine init (elim r [
            | returned status e ↦ (status, e)
            | undecided flags hb sf e ↦ start_rounds cfg init excluded rounds last (wake e)
          ])
      decide_next (returned status e) fine later = fine
      decide_next (undecided flags hb sf e) same later = later e

  -- Whatever the other hosts do, a start that succeeds began with the pool state INIT or ACTIVE and
  -- ends with the liveset equal to the proposed one; from INIT, its last act is to ask that the
  -- pool become ACTIVE.
  pub test_start_criteria_lem :
      (rounds : List (Wakes × (Daemon → Daemon))) (last : Wakes) (d : Daemon)
      → (test_start_criteria cfg rounds last d).0 ≡ success
      → ((d.sf.pool_state ≡ state_init) ⊎ (d.sf.pool_state ≡ state_active))
        × ((test_start_criteria cfg rounds last d).1.sm.current_liveset
            ≡ (test_start_criteria cfg rounds last d).1.sm.proposed_liveset)
        × (d.sf.pool_state ≡ state_init
            → (rest : List Call) × ((test_start_criteria cfg rounds last d).1.calls
                ≡ sf_set_pool_state state_active ∷ rest))
  unfolding test_start_criteria get_pool_state
  test_start_criteria_lem rounds last d = by_state d.sf.pool_state refl
    where
      run : PoolState → Status × Daemon
      run p = elim p [
        | state_init ↦ start_rounds cfg true (get_excluded_flag d cfg.my_index) rounds last d
        | state_active ↦ start_rounds cfg false (get_excluded_flag d cfg.my_index) rounds last d
        | state_none ↦ (error_sm_nostatefile, d)
        | _ ↦ (error_sm_invalid_pool_state, d)
      ]

      by_state :
          (p : PoolState)
          → d.sf.pool_state ≡ p
          → (run p).0 ≡ success
          → ((p ≡ state_init) ⊎ (p ≡ state_active))
            × ((run p).1.sm.current_liveset ≡ (run p).1.sm.proposed_liveset)
            × (p ≡ state_init
                → (rest : List Call) × ((run p).1.calls ≡ sf_set_pool_state state_active ∷ rest))
      by_state state_init e ok =
          let fine = start_rounds-IsFine true (get_excluded_flag d cfg.my_index) rounds last d ok in
          (inl refl, fine.agreed, λ new. fine.activated refl)
      by_state state_active e ok =
          let fine =
            start_rounds-IsFine false (get_excluded_flag d cfg.my_index) rounds last d ok in
          (inr refl, fine.agreed, λ new. absurd (ground (arith, new)))
      by_state state_none e bad = absurd (ground (arith, bad))
      by_state state_invalid e bad = absurd (ground (arith, bad))
      by_state state_other e bad = absurd (ground (arith, bad))
