-- ===== src/Sm/Handler.antt =====
-- fault_handler of daemon/sm.c and the two waits of its own: the rendezvous of the hosts at each
-- phase, and the wait until no host is close to its timeout.
-- A wait without timeout that its environment does not end gives `none`.
pub mod Quiet
pub mod Survivor
use xha.Prelude.{
  ℕ, ◌+◌, ◌-◌, ◌*◌, ◌%◌, ◌^◌, Bool, true, false, not, ◌&&◌, ◌||◌, if◌then◌else◌, Option, none, some,
  List, [], ◌∷◌,
}
use xha.Prelude.Int.{ℤ, pos, pos_part, ◌+ℤ◌, ◌-ℤ◌, ltb_ℤ, leb_ℤ}
use xha.Prelude.Hosts.{all_hosts}
use xha.HostMap.{is_on, intersection, subset_equal}
use xha.Config.{Config, one_sec, c_max, c_min}
use xha.Data.{
  SmPhase, phase_eq, started, fhready, fh1, fh1done, fh2, fh2done, fh3, fh3done, fh4, fh4done,
  error_sm_faulthandler_timeout, error_sm_survivalrule_failed, hb_send_hb_now, hb_sf_accelerate,
  hb_sf_cancel_accelerate, msleep, Daemon,
}
use xha.Sm.Control.{
  call, set_sm_phase, self_fence, commit_weight, fence_request, cancel_fence_request,
}
use xha.Sm.Signals.{sm_sm_updated}
use xha.Sm.Survival.{is_armed, test_survival_rule}
use xha.Sm.Waits.{Wakes}
use xha.Sm.Consistent.{Rounds, wait_until_all_hosts_have_consistent_view}

abbrev pub hb_acceleration_count_rendezvous : ℕ
hb_acceleration_count_rendezvous = 3

-- [%] of T1 or T2
abbrev pub approaching_timeout_factor : ℕ
approaching_timeout_factor = 25

-- in seconds
abbrev pub fh_minimum_sleep_before_fo : ℕ
fh_minimum_sleep_before_fo = 10

-- The next step, if the process has not ended.
unfoldable pub go_on : Option Daemon → (Daemon → Option Daemon) → Option Daemon
go_on none next = none
go_on (some d) next = elim (d.exited) [ none ↦ next d | some code ↦ some d ]

-- What the other threads do: in the n-th rendezvous wait; while the state settles, with the clock
-- of each test; while the views are compared, with the clock at the start and after each
-- comparison; and during the sleep. Then the clocks of phases 3 and 4.
pub record FhRun : Type 0 where
  pub wakes : ℕ → Wakes
  pub start_time : ℤ
  pub settle : List (ℤ × (Daemon → Daemon))
  pub compare_start : ℤ
  pub compare : Rounds
  pub sleep : Daemon → Daemon
  pub p3_start_time : ℤ
  pub p4_start_time : ℤ

unfoldable pub cut_liveset : Daemon → Daemon
cut_liveset d = cancel_fence_request (
    sm_sm_updated true (record d {
      sm = record (d.sm) {
        current_liveset = intersection d.sm.current_liveset d.sm.proposed_liveset;
      };
    }))

module _ (cfg : Config) where
  -- Every host of the liveset that is up is in one of the two phases.
  unfoldable pub is_rendezvous : SmPhase → SmPhase → Bool → Bool → Daemon → Bool
  is_rendezvous p1 p2 on_heartbeat on_statefile d = all_hosts cfg.hostnum (λ index. not (
      is_on d.sm.current_liveset index
      && (on_heartbeat
            && (is_on d.hb.hbdomain index
                && not (phase_eq (d.hb.sm_phase index) p1 || phase_eq (d.hb.sm_phase index) p2))
          || on_statefile
            && (is_on d.sf.sfdomain index
                && not (phase_eq (d.sf.sm_phase index) p1 || phase_eq (d.sf.sm_phase index) p2)))))

  -- The loop waits for a signal after every test, the last one included.
  unfoldable pub rendezvous_loop : (Daemon → Bool) → Wakes → Daemon → Option Daemon
  rendezvous_loop test [] d = none
  rendezvous_loop test (wake ∷ wakes) d =
      let rest = rendezvous_loop test wakes (wake d) in if test d then some (wake d) else rest

  unfoldable pub rendezvous_wait : SmPhase → SmPhase → Bool → Bool → Wakes → Daemon → Option Daemon
  unfolding rendezvous_loop is_rendezvous
  rendezvous_wait p1 p2 on_heartbeat on_statefile wakes d =
      let d1 =
        if on_heartbeat then call (hb_send_hb_now hb_acceleration_count_rendezvous) d else d in
      let d2 = if on_statefile then call hb_sf_accelerate d1 else d1 in
      elim (rendezvous_loop (is_rendezvous p1 p2 on_heartbeat on_statefile) wakes d2) [
        | none ↦ none
        | some d3 ↦ some (if on_statefile then call hb_sf_cancel_accelerate d3 else d3)
      ]

  unfoldable pub rendezvous :
      SmPhase → SmPhase → SmPhase → Bool → Bool → Wakes → Wakes → Daemon → Option Daemon
  unfolding rendezvous_wait go_on
  rendezvous phase1 phase2 phase3 on_heartbeat on_statefile first second d =
      go_on (rendezvous_wait phase1 phase2 on_heartbeat on_statefile first (set_sm_phase phase1 d))
        (λ e.
          rendezvous_wait phase2 phase3 on_heartbeat on_statefile second (set_sm_phase phase2 e))

  -- The last sign of a host is older than a share of its timeout, and older than the wait.
  abbrev pub is_late : ℤ → ℤ → ℕ → ℤ → Bool
  is_late start_time now timeout last =
      leb_ℤ (pos 0) last
      && ltb_ℤ (pos (timeout * 10 * approaching_timeout_factor % 2 ^ 32)) (now -ℤ last)
      && ltb_ℤ (now -ℤ start_time) (now -ℤ last)

  unfoldable pub is_stable : ℤ → ℤ → Daemon → Bool
  is_stable start_time now d = all_hosts cfg.hostnum (λ index. not (
      is_on d.hb.hbdomain index
        && is_late start_time now cfg.heartbeat_timeout (d.hb.time_last_hb index)
      || is_on d.sf.sfdomain index
        && is_late start_time now cfg.statefile_timeout (d.sf.time_last_sf index)))

  unfoldable pub wait_until_hbsf_state_stable :
      ℤ → List (ℤ × (Daemon → Daemon)) → Daemon → Option Daemon
  unfolding is_stable
  wait_until_hbsf_state_stable start_time [] d = none
  wait_until_hbsf_state_stable start_time ((now, wake) ∷ rounds) d =
      let rest = wait_until_hbsf_state_stable start_time rounds (wake d) in
      if is_stable start_time now d then some d else rest

  -- The limit is computed in MTC_U32.
  unfoldable pub check_view : ℤ → Rounds → Daemon → Option Daemon
  check_view start rounds d =
      elim (wait_until_all_hosts_have_consistent_view cfg
        (pos (c_max cfg.heartbeat_timeout cfg.statefile_timeout * one_sec % 2 ^ 32)) start rounds
        d) [
          | none ↦ none
          | some (consistent, e) ↦
              some (if consistent then e else self_fence error_sm_faulthandler_timeout e)
        ]

  -- Phase 3, after the rendezvous.
  unfoldable pub check_survival : Daemon → Daemon
  check_survival d =
      let (survives, e) = test_survival_rule cfg d in
      if survives then e else self_fence error_sm_survivalrule_failed e

  -- The configured times are MTC_U32 and the clocks MTC_S64.
  abbrev pub sleep_time : FhRun → Bool → ℤ
  sleep_time run extend =
      let grace =
        pos (
          (c_max cfg.heartbeat_watchdog_timeout cfg.statefile_watchdog_timeout
            + (2 ^ 32 - c_min cfg.heartbeat_timeout cfg.statefile_timeout)
            + c_max cfg.heartbeat_interval cfg.statefile_interval)
          * one_sec
          % 2 ^ 32)
        -ℤ (run.p4_start_time -ℤ run.p3_start_time)
        +ℤ pos (
            (if extend then c_min cfg.heartbeat_timeout cfg.statefile_timeout else 0)
            * one_sec
            % 2 ^ 32) in
      let least = pos (fh_minimum_sleep_before_fo * one_sec) in
      if ltb_ℤ least grace then grace else least

  unfoldable pub sleep_before_fo : FhRun → Daemon → Daemon
  sleep_before_fo run d =
      let requested = if is_armed d.var.fencing then fence_request d else d in
      run.sleep (call (msleep (pos_part (sleep_time run requested.var.fh_sleep_extend))) requested)

  -- Phase 4, after the rendezvous.
  unfoldable pub update_liveset : FhRun → Daemon → Daemon
  unfolding sleep_before_fo cut_liveset
  update_liveset run d =
      let slept = sleep_before_fo run d in
      if subset_equal d.sm.current_liveset d.sm.proposed_liveset
      then d
      else if is_armed slept.var.fencing
      then cut_liveset slept
      else slept

  unfoldable pub fault_handler : FhRun → Daemon → Option Daemon
  unfolding rendezvous wait_until_hbsf_state_stable check_view go_on
  fault_handler run d =
      go_on
        (rendezvous fhready fh1 fh1done true false (run.wakes 0) (run.wakes 1)
          (record d { var = record (d.var) { join_block = true } }))
        (λ d1. go_on (wait_until_hbsf_state_stable run.start_time run.settle d1) (λ d2.
          go_on
            (rendezvous fh1done fh2 fh2done true true (run.wakes 2) (run.wakes 3)
              (commit_weight d2).1)
            (λ d3. go_on (check_view run.compare_start run.compare d3) (λ d4.
              go_on (rendezvous fh2done fh3 fh3done true false (run.wakes 4) (run.wakes 5) d4)
                (λ d5. go_on (some (check_survival d5)) (λ d6.
                  go_on (rendezvous fh3done fh4 fh4done true false (run.wakes 6) (run.wakes 7) d6)
                    (λ d7.
                      go_on
                        (rendezvous fh4done started fhready true false (run.wakes 8) (run.wakes 9)
                          (update_liveset run d7))
                        (λ d8.
                          some (record d8 { var = record (d8.var) { join_block = false } })))))))))
