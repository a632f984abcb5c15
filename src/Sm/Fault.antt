-- ===== src/Sm/Fault.antt =====
-- start_fh and wait_fh_event of daemon/sm.c: a host that drops out wakes the fault handler.
pub mod Requests
use xha.Prelude.{ℕ, Bool, true, false, not, ◌&&◌, ◌||◌, if◌then◌else◌}
use xha.Prelude.Hosts.{for_hosts}
use xha.HostMap.{HostMap, set, reset, is_on}
use xha.Config.{Config}
use xha.Data.{SmPhase, started, fhready, fh1, fh1done, fh2, fh2done, phase_eq, SmVar, Daemon}
use xha.Sm.Control.{set_sm_phase}
use xha.Sm.Signals.{sm_hb_updated, sm_sf_updated}

-- The variables of start_fh's loop, with `smvar.last_hbdomain` and `smvar.last_sfdomain`.
pub record Drops : Type 0 where
  pub last_hbdomain : HostMap
  pub last_sfdomain : HostMap
  pub hb_degraded : Bool
  pub sf_degraded : Bool

-- One medium of one round: a host that is up is noted, and one that was noted and is down is
-- dropped; `degraded` then says whether it is in the liveset.
unfoldable pub drop_step : HostMap → HostMap → ℕ → HostMap × Bool → HostMap × Bool
drop_step liveset domain index (last, degraded) =
    let noted = if is_on domain index && not (is_on last index) then set last index else last in
    if is_on noted index && not (is_on domain index)
    then (reset noted index, is_on liveset index)
    else (noted, degraded)

unfoldable pub fault_step : HostMap → HostMap → HostMap → ℕ → Drops → Drops
unfolding drop_step
fault_step liveset hbdomain sfdomain index s =
    let hb = drop_step liveset hbdomain index (s.last_hbdomain, s.hb_degraded) in
    let sf = drop_step liveset sfdomain index (s.last_sfdomain, s.sf_degraded) in
    record { last_hbdomain = hb.0; last_sfdomain = sf.0; hb_degraded = hb.1; sf_degraded = sf.1 }

-- The phases in which the fault handler has yet to look at the domains.
abbrev pub is_early : SmPhase → Bool
is_early fhready = true
is_early fh1 = true
is_early fh1done = true
is_early fh2 = true
is_early fh2done = true
is_early _ = false

module _ (cfg : Config) where
  unfoldable pub find_drops : Daemon → Drops
  find_drops d =
      for_hosts cfg.hostnum (fault_step d.sm.current_liveset d.hb.hbdomain d.sf.sfdomain) (record {
        last_hbdomain = d.var.last_hbdomain;
        last_sfdomain = d.var.last_sfdomain;
        hb_degraded = false;
        sf_degraded = false;
      })

  -- Called by other threads than the State Manager's; the two objects are released to them.
  unfoldable pub start_fh : Bool → Daemon → Daemon
  unfolding sm_hb_updated sm_sf_updated
  start_fh force d =
      let s = find_drops d in
      let force_requested = force && phase_eq d.var.phase started in
      let noted = sm_hb_updated false (
        sm_sf_updated false (record d {
          var = record (d.var) { last_hbdomain = s.last_hbdomain; last_sfdomain = s.last_sfdomain };
        })) in
      let sf_degraded = s.sf_degraded && not noted.var.sr2 in
      if (s.hb_degraded || sf_degraded || force_requested) && not (is_early noted.var.phase)
      then record noted { var = record (noted.var) { need_fh = true } }
      else noted

-- From the end of the wait on: the condition variable was signalled and `need_fh` is set.
unfoldable pub wait_fh_event : Daemon → Bool × Daemon
unfolding set_sm_phase
wait_fh_event d =
    let ready = record d { var = record (d.var) { need_fh = false; phase = fhready } } in
    let d' = set_sm_phase fhready ready in (d.var.need_fh && not d'.var.terminate, d')
