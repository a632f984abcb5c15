-- ===== src/Sm/Start.antt =====
-- daemon/sm.c: test_Start_Criteria, by which a host that boots forms a liveset or joins one, and
-- the State Manager's thread up to its steady state.
pub mod Outcome
pub mod Settled
use xha.Prelude.{
  ℕ, ◌*◌, Bool, true, false, not, ◌&&◌, ◌||◌, if◌then◌else◌, Option, none, some, List, [], ◌∷◌,
}
use xha.Prelude.Int.{ℤ}
use xha.HostMap.{HostMap, is_on, difference, union, subset_equal, mask_unconfig, set_boolean}
use xha.Config.{Config}
use xha.Data.{
  Status, success, error_sm_nostatefile, error_sm_invalid_pool_state, error_sm_boot_timeout,
  error_sm_join_failed, error_sm_boot_blocked_by_excluded, error_sm_boot_failed, started, PoolState,
  state_none, state_init, state_active, ComSm, ComHb, ComSf, hb_send_hb_now, sf_set_pool_state,
  sf_set_excluded, main_steady_state, Daemon,
}
use xha.Sm.Control.{
  call, set_sm_phase, sm_abort, get_excluded_flag, get_pool_state, commit_weight, start_statefile,
  clear_statefile_starting, start_heartbeat, set_heartbeat_join, start_xapi_monitor, arm_fencing,
}
use xha.Sm.Join.{hb_acceleration_count_join}
use xha.Sm.Membership.{is_all_hosts_up, is_empty_liveset, am_i_in_new_liveset, form_new_liveset}
use xha.Sm.Partition.{am_i_in_largest_partition}
use xha.Sm.Signals.{sm_sm_updated}
use xha.Sm.Waits.{
  Wakes, wait_all_hosts_up_on_heartbeat, wait_all_hosts_up_on_statefile,
  wait_all_hosts_recognize_i_was_down, wait_until_all_hosts_booted, join,
}

-- `start_flags`: START_FLAGS_INIT, START_FLAGS_EXCLUDED and START_FLAGS_EMPTYLIVESET.
pub record StartFlags : Type 0 where
  pub init : Bool
  pub excluded : Bool
  pub empty : Bool

-- One round of the loop returns from the function, or leaves the flags and the copies that the code
-- after the loop reads.
pub data StartRound : Type 0 where
  returned : Status → Daemon → StartRound
  undecided : StartFlags → ComHb → ComSf → Daemon → StartRound

-- The new liveset, where the answer of am_I_in_new_liveset is TRUE.
abbrev pub accepted : Bool × Option HostMap → Option HostMap
accepted (answer, newliveset) = if answer then newliveset else none

-- What the other threads do in each wait of the State Manager's thread.
pub record SmRun : Type 0 where
  pub start_time : ℤ
  pub on_heartbeat : Wakes
  pub on_statefile : Wakes
  pub recognized : Wakes
  pub start : List (Wakes × (Daemon → Daemon))
  pub last_boot : Wakes
  pub joining : Wakes

abbrev pub is_success : Status → Bool
is_success success = true
is_success _ = false

module _ (cfg : Config) where
  -- The hosts on the state file that are not just starting.
  abbrev pub sfdomain_nonstarting : ComSf → HostMap
  sfdomain_nonstarting sf = mask_unconfig cfg.hostnum (difference sf.sfdomain sf.starting_hosts)

  -- The hosts of the liveset that this host joins.
  abbrev pub existing_liveset : ComSf → HostMap
  existing_liveset sf =
      mask_unconfig cfg.hostnum
        (difference (mask_unconfig cfg.hostnum sf.sfdomain) sf.starting_hosts)

  unfoldable pub start_flags : Bool → Bool → Daemon → StartFlags
  start_flags init excluded d = record {
    init = init;
    excluded = excluded;
    empty =
        is_empty_liveset cfg (sfdomain_nonstarting d.sf)
        && not (d.sm.sr2 && is_all_hosts_up cfg (union d.hb.hbdomain d.sf.excluded));
  }

  -- There is no liveset, and all hosts are up: they form one together.
  unfoldable pub form_with_all : Wakes → StartFlags → Daemon → StartRound
  form_with_all boot flags d =
      let proposing =
        sm_sm_updated true (record d { sm = record (d.sm) { proposed_liveset = d.hb.hbdomain } }) in
      let (booted, e) = wait_until_all_hosts_booted cfg boot proposing in
      let formed = form_new_liveset cfg e.sm.proposed_liveset e in
      if is_all_hosts_up cfg d.hb.hbdomain && is_all_hosts_up cfg d.sf.sfdomain
      then (if booted
          then returned success
              (if flags.init then call (sf_set_pool_state state_active) formed else formed)
          else undecided flags d.hb d.sf e)
      else undecided flags d.hb d.sf d

  -- There is a liveset: another host has formed a new one with this host, or this host joins it.
  unfoldable pub enter_existing : StartFlags → Daemon → StartRound
  enter_existing flags d =
      elim (accepted (am_i_in_new_liveset cfg d.sf (sfdomain_nonstarting d.sf))) [
        | some liveset ↦ returned success (form_new_liveset cfg liveset d)
        | none ↦
            if subset_equal (mask_unconfig cfg.hostnum d.sf.sfdomain)
              (mask_unconfig cfg.hostnum d.hb.hbdomain)
            then returned success (
                sm_sm_updated true (record d {
                  sm = record (d.sm) {
                    proposed_liveset = existing_liveset d.sf;
                    current_liveset = existing_liveset d.sf;
                  };
                }))
            else undecided flags d.hb d.sf d
      ]

  unfoldable pub start_round : Bool → Bool → Wakes → Daemon → StartRound
  unfolding start_flags form_with_all enter_existing
  start_round init excluded boot d =
      let flags = start_flags init excluded d in
      if not d.sf.sf_access
      then returned error_sm_nostatefile d
      else if flags.empty
      then form_with_all boot flags d
      else if flags.init
      then returned error_sm_invalid_pool_state d
      else enter_existing flags d

  -- After the loop: the copies of the last round, and the daemon.
  unfoldable pub start_timeout : StartFlags → ComHb → ComSf → Daemon → Status × Daemon
  start_timeout flags hb sf d =
      if flags.init
      then (error_sm_boot_timeout, d)
      else if not flags.empty
      then elim (accepted (am_i_in_new_liveset cfg d.sf (sfdomain_nonstarting sf))) [
        | some liveset ↦ (success, form_new_liveset cfg liveset d)
        | none ↦ (error_sm_join_failed, d)
      ]
      else if flags.excluded && not (is_all_hosts_up cfg sf.excluded)
      then (error_sm_boot_blocked_by_excluded, d)
      else if am_i_in_largest_partition cfg d.hb d.sf (some d.sf.weight)
      then (success, form_new_liveset cfg (difference hb.hbdomain hb.notjoining) d)
      else (error_sm_boot_failed, d)

  -- The rounds, each with the changes of other hosts during its wait for them to boot, and with the
  -- change that ends its wait for a signal; after the last one the time is up.
  unfoldable pub start_rounds :
      Bool → Bool → List (Wakes × (Daemon → Daemon)) → Wakes → Daemon → Status × Daemon
  unfolding start_round start_timeout
  start_rounds init excluded [] last d = elim (start_round init excluded last d) [
    | returned status e ↦ (status, e)
    | undecided flags hb sf e ↦ start_timeout flags hb sf e
  ]
  start_rounds init excluded ((boot, wake) ∷ rounds) last d =
      elim (start_round init excluded boot d) [
        | returned status e ↦ (status, e)
        | undecided flags hb sf e ↦ start_rounds init excluded rounds last (wake e)
      ]

  unfoldable pub test_start_criteria :
      List (Wakes × (Daemon → Daemon)) → Wakes → Daemon → Status × Daemon
  unfolding start_rounds
  test_start_criteria rounds last d =
      let excluded = get_excluded_flag d cfg.my_index in
      elim (get_pool_state d) [
        | state_init ↦ start_rounds true excluded rounds last d
        | state_active ↦ start_rounds false excluded rounds last d
        | state_none ↦ (error_sm_nostatefile, d)
        | _ ↦ (error_sm_invalid_pool_state, d)
      ]

  -- Up to the first two waits.
  unfoldable pub sm_begin : SmRun → Daemon → Daemon
  sm_begin run d =
      let started = start_heartbeat (start_statefile (commit_weight d).1) in
      wait_all_hosts_up_on_statefile cfg run.on_statefile (
        wait_all_hosts_up_on_heartbeat cfg run.on_heartbeat
          (record started { var = record (started.var) { start_time = run.start_time } }))

  -- sf_set_excluded(FALSE) of daemon/statefile.c, if the flag is set.
  unfoldable pub clear_excluded : Daemon → Daemon
  clear_excluded d =
      if get_excluded_flag d cfg.my_index
      then call (sf_set_excluded false) (record d {
        sf = record (d.sf) { excluded = set_boolean d.sf.excluded cfg.my_index false };
      })
      else d

  -- From the join on.
  unfoldable pub sm_finish : Daemon → Daemon
  sm_finish d = call main_steady_state (
      set_sm_phase started (
        arm_fencing (
          start_xapi_monitor
            (clear_statefile_starting (call (hb_send_hb_now hb_acceleration_count_join) d)))))

  -- The thread up to its steady state; what it does from there on is fault_handler.
  unfoldable pub sm : SmRun → Daemon → Status × Daemon
  unfolding sm_begin clear_excluded sm_finish
  sm run d =
      let (recognized, d1) =
        wait_all_hosts_recognize_i_was_down cfg run.recognized (sm_begin run d) in
      let (criteria, d2) = test_start_criteria run.start run.last_boot (set_heartbeat_join d1) in
      let (joined, d3) = join cfg run.joining (clear_excluded d2) in
      if not (is_success recognized)
      then (recognized, sm_abort true recognized d1)
      else if not (is_success criteria)
      then (criteria, sm_abort true criteria d2)
      else if not (is_success joined)
      then (joined, sm_abort true joined d3)
      else (success, sm_finish d3)
