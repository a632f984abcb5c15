-- ===== src/Sm/Waits.antt =====
-- daemon/sm.c: the loops `do { test } while (sm_wait_signals_sm_hb_sf(...))` of the State Manager's
-- thread. What the other threads do while it waits is an argument: one change of the daemon for
-- each wait that ends with a signal. After the last of them the wait ends by its timeout.
pub mod Outcome
use xha.Prelude.{ℕ, Bool, true, false, not, ◌&&◌, ◌||◌, ◌==◌, if◌then◌else◌, List, [], ◌∷◌}
use xha.Prelude.Hosts.{all_hosts}
use xha.HostMap.{HostMap, set, reset, is_on}
use xha.Config.{Config}
use xha.Data.{Status, success, error_sm_join_failed, error_sm_boot_timeout, hb_send_hb_now, Daemon}
use xha.Sm.Control.{call}
use xha.Sm.Membership.{is_all_hosts_up}
use xha.Sm.Signals.{sm_sm_updated, sm_hb_updated}
use xha.Sm.Join.{hb_acceleration_count_join}

abbrev pub Wakes : Type 0
Wakes = List (Daemon → Daemon)

-- Whether the test passed, and the daemon at the last test.
unfoldable pub do_wait : (Daemon → Bool) → Wakes → Daemon → Bool × Daemon
do_wait test [] d = (test d, d)
do_wait test (wake ∷ wakes) d =
    let rest = do_wait test wakes (wake d) in if test d then (true, d) else rest

module _ (cfg : Config) where
  -- No other host that is up thinks that this host is in the liveset.
  unfoldable pub all_recognized : Daemon → Bool
  all_recognized d = all_hosts cfg.hostnum (λ index. not (
      not (index == cfg.my_index)
      && (is_on d.hb.hbdomain index && is_on (d.hb.raw index).current_liveset cfg.my_index
          || is_on d.sf.sfdomain index && is_on (d.sf.raw index).current_liveset cfg.my_index)))

  unfoldable pub wait_all_hosts_recognize_i_was_down : Wakes → Daemon → Status × Daemon
  wait_all_hosts_recognize_i_was_down wakes d =
      let (ok, d') = do_wait all_recognized wakes d in
      (if ok then success else error_sm_boot_timeout, d')

  unfoldable pub wait_all_hosts_up_on_heartbeat : Wakes → Daemon → Daemon
  wait_all_hosts_up_on_heartbeat wakes d =
      (do_wait (λ e. is_all_hosts_up cfg e.hb.hbdomain) wakes d).1

  unfoldable pub wait_all_hosts_up_on_statefile : Wakes → Daemon → Daemon
  wait_all_hosts_up_on_statefile wakes d =
      (do_wait (λ e. is_all_hosts_up cfg e.sf.sfdomain) wakes d).1

  -- Every other host on the heartbeat proposes a liveset that this host is in.
  unfoldable pub is_booted : Daemon → Bool
  is_booted d = all_hosts cfg.hostnum (λ index. not (
      not (index == cfg.my_index)
      && is_on d.hb.hbdomain index
      && not (is_on (d.hb.raw index).proposed_liveset cfg.my_index)))

  unfoldable pub wait_until_all_hosts_booted : Wakes → Daemon → Bool × Daemon
  wait_until_all_hosts_booted wakes d = do_wait is_booted wakes d

  -- Every other host of the liveset proposes a liveset that this host is in.
  unfoldable pub is_joined : Daemon → Bool
  is_joined d = all_hosts cfg.hostnum (λ index. not (
      not (index == cfg.my_index)
      && is_on d.sm.current_liveset index
      && not (is_on (d.hb.raw index).proposed_liveset cfg.my_index)))

  -- The request to join that the heartbeat carries.
  unfoldable pub send_join : Daemon → Daemon
  send_join d = call (hb_send_hb_now hb_acceleration_count_join) (
      sm_sm_updated true (record d {
        sm = record (d.sm) { proposed_liveset = set d.sm.proposed_liveset cfg.my_index };
      }))

  unfoldable pub finish_join : Bool → Daemon → Daemon
  finish_join joined d =
      let quiet = record d { hb = record (d.hb) { join = false } } in
      if joined
      then sm_sm_updated true (record quiet {
        sm = record (d.sm) { current_liveset = set d.sm.current_liveset cfg.my_index };
        var = record (d.var) { sr2 = d.sm.sr2 };
      })
      else sm_sm_updated true (record quiet {
        sm = record (d.sm) { proposed_liveset = reset d.sm.proposed_liveset cfg.my_index };
      })

  unfoldable pub join : Wakes → Daemon → Status × Daemon
  join wakes d =
      let (joined, d') = do_wait is_joined wakes (send_join d) in
      if not d.hb.join
      then (success, d)
      else (if joined then success else error_sm_join_failed, finish_join joined d')
