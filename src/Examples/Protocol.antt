-- ===== src/Examples/Protocol.antt =====
-- The theorems on the State Manager's protocol, at concrete daemons.
use xha.Prelude.{◌≡◌, refl, true, false, not, ◌&&◌, some, arith, inr, [], ◌∷◌}
use xha.Prelude.Hosts.{for_hosts, all_hosts}
use xha.Prelude.Int.{pos}
use xha.HostMap.{is_on, reset, union, intersection, difference, subset_equal, mask_unconfig}
use xha.Data.{Daemon, SmVar, fh4}
use xha.Sm.Control.{
  get_pool_state, get_excluded_flag, commit_weight, start_statefile, start_heartbeat,
  set_heartbeat_join, set_sm_phase,
}
use xha.Sm.Membership.{is_all_hosts_up, is_empty_liveset, form_new_liveset}
use xha.Sm.Signals.{Sigs, wait_signals, sm_sm_updated, sm_hb_updated, sm_sf_updated}
use xha.Sm.Signals.Waiting.{wait_signals_lem}
use xha.Sm.Partition.{
  am_i_in_largest_partition, find_winner, winner_step, partition_size, get_partition_size,
  size_step,
}
use xha.Sm.Domain.{update_sfdomain}
use xha.Sm.Domain.Update.{unchanged, update_sfdomain_lem}
use xha.Sm.Fault.{start_fh}
use xha.Sm.Fault.Requests.{start_fh_lem, start_fh_overlooks}
use xha.Sm.Join.{process_join_request}
use xha.Sm.Join.Admission.{process_join_request_admits}
use xha.Sm.Waits.{
  is_booted, wait_until_all_hosts_booted, all_recognized, wait_all_hosts_recognize_i_was_down,
  wait_all_hosts_up_on_heartbeat, wait_all_hosts_up_on_statefile, join, do_wait,
}
use xha.Sm.Waits.Outcome.{join_lem}
use xha.Sm.Survival.{
  decide_survival, judge, remove_hosts, remove_step, test_survival_rule, wins_by_statefile,
  wins_by_sr2, mask_stable,
}
use xha.Sm.Survival.Rule.{test_survival_rule_lem}
use xha.Sm.Handler.{
  FhRun, check_survival, update_liveset, rendezvous, rendezvous_wait, rendezvous_loop,
  is_rendezvous, go_on,
}
use xha.Sm.Handler.Quiet.{IsQuiet}
use xha.Sm.Handler.Survivor.{fault_handler-liveset}
use xha.Sm.Start.{
  SmRun, test_start_criteria, sm, start_rounds, start_round, start_flags, form_with_all, sm_begin,
  clear_excluded,
}
use xha.Sm.Start.Outcome.{test_start_criteria_lem}
use xha.Sm.Start.Settled.{IsOnline, sm_settles}
use xha.Examples.{hosts, cfg_of, raw_of, hb_of, sf_of, daemon_of}

-- Hosts 0 and 1 have lost host 2, and wait for one another at the end of phase 3.
abbrev larger_part : Daemon
larger_part =
    let d = daemon_of 7 3 false in
    record d {
      hb = record (d.hb) { sm_phase = λ i. fh4 };
      var = record (d.var) {
        stable_hb = hb_of 3 (λ i. raw_of 3);
        stable_sf = sf_of 3 (λ i. raw_of 3);
      };
    }

-- Host 2 leaves the proposed liveset.
test_survival_rule_example :
    is_on (test_survival_rule (cfg_of 3) larger_part).1.sm.proposed_liveset 2 ≡ false
unfolding is_on wins_by_statefile wins_by_sr2 mask_stable mask_unconfig subset_equal all_hosts
    is_empty_liveset am_i_in_largest_partition find_winner for_hosts winner_step partition_size
    get_partition_size size_step intersection reset test_survival_rule decide_survival judge
test_survival_rule_example =
    let (winner, live, cut, kept) = test_survival_rule_lem (cfg_of 3) larger_part in
    cut refl refl 2 (omega arith)

abbrev quiet_run : FhRun
quiet_run = record {
  wakes = λ n. (λ d. d) ∷ [];
  start_time = pos 0;
  settle = [];
  compare_start = pos 0;
  compare = [];
  sleep = λ d. d;
  p3_start_time = pos 0;
  p4_start_time = pos 0;
}

identity-IsQuiet : IsQuiet (λ d. d)
identity-IsQuiet = record { current = λ d. refl; proposed = λ d. refl; armed = λ d h. h }

fault_handler_example :
    (e : Daemon) × (is_on (update_liveset (cfg_of 3) quiet_run e).sm.current_liveset 2 ≡ false)
unfolding is_on wins_by_statefile wins_by_sr2 mask_stable mask_unconfig subset_equal all_hosts
    is_empty_liveset am_i_in_largest_partition find_winner for_hosts winner_step partition_size
    get_partition_size size_step intersection reset rendezvous rendezvous_wait rendezvous_loop
    is_rendezvous go_on check_survival test_survival_rule decide_survival judge remove_hosts
    remove_step set_sm_phase sm_sm_updated
fault_handler_example =
    let (loses, survives) =
      fault_handler-liveset (cfg_of 3) quiet_run larger_part (omega arith) identity-IsQuiet
        (identity-IsQuiet, tt) (identity-IsQuiet, tt) (refl, refl) in
    (_, survives refl _ refl 2 (omega arith))

process_join_request_admits_example :
    is_on (process_join_request (cfg_of 2) (daemon_of 1 3 false)).sm.current_liveset 0 ≡ true
unfolding is_on
process_join_request_admits_example =
    let (grows, admits) = process_join_request_admits (cfg_of 2) (daemon_of 1 3 false) 0 in
    grows refl

join_example : (join (cfg_of 2) [] (daemon_of 2 3 false)).1.hb.join ≡ false
join_example =
    let (withdrawn, joins, fails) = join_lem (cfg_of 2) [] (daemon_of 2 3 false) refl in withdrawn

abbrev overlooking : Daemon
overlooking =
    let d = daemon_of 3 1 false in
    record d { var = record (d.var) { last_hbdomain = hosts 7; last_sfdomain = hosts 1 } }

start_fh_example :
    ((start_fh (cfg_of 3) false overlooking).var.need_fh ≡ false)
    × (is_on (start_fh (cfg_of 3) false overlooking).var.last_hbdomain 1 && not (is_on (hosts 1) 1)
        ≡ false)
unfolding is_on
start_fh_example =
    start_fh_overlooks (cfg_of 3) false overlooking 1 2 (omega arith) refl refl
      (omega arith, refl, λ j kj jn. absurd (omega arith)) refl
      (λ j jn down. absurd (ground (arith, down))) refl

start_fh_asks_example : (start_fh (cfg_of 3) true (daemon_of 3 3 false)).var.need_fh ≡ true
start_fh_asks_example =
    let (asks, rests) = start_fh_lem (cfg_of 3) true (daemon_of 3 3 false) in
    asks refl (inr (inr (refl, refl)))

update_sfdomain_example :
    (update_sfdomain (cfg_of 3) (pos 10) (daemon_of 3 3 false)).0
    ≡ not (all_hosts 3 (unchanged (cfg_of 3) (pos 10) false (sf_of 3 (λ i. raw_of 3))))
update_sfdomain_example =
    let (changed, domain) = update_sfdomain_lem (cfg_of 3) (pos 10) (daemon_of 3 3 false) in changed

abbrev hb_only : Sigs
hb_only = record { sm_sig = false; hb_sig = true; sf_sig = false }

wait_signals_example :
    (v : SmVar) × (wait_signals hb_only
        (pos 1000)
        (pos 0)
        (record { arrived = hb_only; clock = pos 5 } ∷ [])
        (daemon_of 3 3 false).var
      ≡ some (true, v))
wait_signals_example =
    let (returns, consumed, wakes) =
      wait_signals_lem hb_only (pos 1000) (pos 0) (λ e. absurd (ground (arith, e))) in
    wakes (record { arrived = hb_only; clock = pos 5 }) [] (daemon_of 3 3 false).var refl

-- One host, in its initial state, forms a liveset by itself.
test_start_criteria_example :
    (test_start_criteria (cfg_of 1) [] [] (daemon_of 0 1 false)).1.sm.current_liveset
    ≡ (test_start_criteria (cfg_of 1) [] [] (daemon_of 0 1 false)).1.sm.proposed_liveset
unfolding is_on test_start_criteria start_rounds start_round start_flags form_with_all
    get_pool_state get_excluded_flag is_all_hosts_up is_empty_liveset all_hosts
    wait_until_all_hosts_booted do_wait is_booted sm_sm_updated form_new_liveset mask_unconfig
    for_hosts difference union reset
test_start_criteria_example =
    let (state, agreed, activated) =
      test_start_criteria_lem (cfg_of 1) [] [] (daemon_of 0 1 false) refl in
    agreed

abbrev alone : SmRun
alone = record {
  start_time = pos 0;
  on_heartbeat = [];
  on_statefile = [];
  recognized = [];
  start = [];
  last_boot = [];
  joining = [];
}

sm_example : IsOnline (sm (cfg_of 1) alone (daemon_of 0 1 false)).1
unfolding is_on test_start_criteria start_rounds start_round start_flags form_with_all
    get_pool_state get_excluded_flag is_all_hosts_up is_empty_liveset all_hosts
    wait_until_all_hosts_booted do_wait is_booted sm_sm_updated form_new_liveset mask_unconfig
    for_hosts difference union reset sm sm_begin clear_excluded wait_all_hosts_recognize_i_was_down
    all_recognized wait_all_hosts_up_on_heartbeat wait_all_hosts_up_on_statefile commit_weight
    start_statefile start_heartbeat set_heartbeat_join join sm_hb_updated sm_sf_updated
sm_example = let (online, aborts) = sm_settles (cfg_of 1) alone (daemon_of 0 1 false) in online refl
