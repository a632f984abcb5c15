-- ===== src/Sm/Survival.antt =====
-- test_Survival_Rule and surviving_by_SR2 of daemon/sm.c: does this host survive a fault, and which
-- hosts does it propose to remove.
pub mod Rule
use xha.Prelude.{ℕ, Bool, true, false, not, ◌&&◌, ◌||◌, ◌==◌, if◌then◌else◌, some}
use xha.Prelude.Hosts.{for_hosts, all_hosts}
use xha.HostMap.{HostMap, reset, is_on, intersection, subset_equal, mask_unconfig}
use xha.Config.{Config}
use xha.Data.{FencingMode, fencing_armed, ComHb, ComSf, SmVar, sf_watchdog_set, Daemon}
use xha.Sm.Control.{call}
use xha.Sm.Membership.{is_empty_liveset}
use xha.Sm.Partition.{am_i_in_largest_partition}
use xha.Sm.Signals.{sm_sm_updated, sm_hb_updated, sm_sf_updated}

abbrev pub is_armed : FencingMode → Bool
is_armed fencing_armed = true
is_armed _ = false

-- What the last loop of test_Survival_Rule changes.
pub record Removal : Type 0 where
  pub proposed_liveset : HostMap
  pub hbdomain : HostMap
  pub sfdomain : HostMap
  pub fh_sleep_extend : Bool

-- What the test decides: the answer, and the values of Survival Rule-2 in the State Manager and in
-- the common object.
pub record Verdict : Type 0 where
  pub winner : Bool
  pub var_sr2 : Bool
  pub sm_sr2 : Bool

unfoldable pub remove_step : (ℕ → Bool) → ℕ → Removal → Removal
remove_step stays index s = if stays index then s else record {
  proposed_liveset = reset s.proposed_liveset index;
  hbdomain = if is_on s.hbdomain index then reset s.hbdomain index else s.hbdomain;
  sfdomain = if is_on s.sfdomain index then reset s.sfdomain index else s.sfdomain;
  fh_sleep_extend = is_on s.hbdomain index || is_on s.sfdomain index || s.fh_sleep_extend;
}

module _ (cfg : Config) where
  -- The two stable domains, cut down to the configured hosts.
  unfoldable pub mask_stable : SmVar → SmVar
  mask_stable v = record v {
    stable_hb = record (v.stable_hb) { hbdomain = mask_unconfig cfg.hostnum v.stable_hb.hbdomain };
    stable_sf = record (v.stable_sf) { sfdomain = mask_unconfig cfg.hostnum v.stable_sf.sfdomain };
    last_hbdomain = mask_unconfig cfg.hostnum v.stable_hb.hbdomain;
    last_sfdomain = mask_unconfig cfg.hostnum v.stable_sf.sfdomain;
  }

  -- The rule of the state file: all members on the state file are on the heartbeat, or this host is
  -- in the largest partition.
  unfoldable pub wins_by_statefile : ComHb → ComSf → HostMap → HostMap → Bool
  wins_by_statefile phb psf hbd sfd =
      if subset_equal sfd hbd && not (is_empty_liveset cfg sfd)
      then true
      else am_i_in_largest_partition cfg phb psf (some psf.weight)

  -- Survival Rule-2: no host on the heartbeat has access to the state file, and every other host
  -- is excluded.
  unfoldable pub wins_by_sr2 : ComHb → ComSf → HostMap → Bool
  wins_by_sr2 phb psf hbd = all_hosts cfg.hostnum (λ index.
      let sf_access =
        if index == cfg.my_index then psf.sf_access else is_on (phb.raw index).sfdomain index in
      not (is_on hbd index && sf_access || not (is_on hbd index) && not (is_on psf.excluded index)))

  unfoldable pub remove_hosts : (ℕ → Bool) → Daemon → Daemon
  unfolding remove_step
  remove_hosts stays d =
      let r = for_hosts cfg.hostnum (remove_step stays) (record {
        proposed_liveset = d.sm.proposed_liveset;
        hbdomain = d.hb.hbdomain;
        sfdomain = d.sf.sfdomain;
        fh_sleep_extend = d.var.fh_sleep_extend;
      }) in
      record d {
        sm = record (d.sm) { proposed_liveset = r.proposed_liveset };
        hb = record (d.hb) { hbdomain = r.hbdomain };
        sf = record (d.sf) { sfdomain = r.sfdomain };
        var = record (d.var) { fh_sleep_extend = r.fh_sleep_extend };
      }

  unfoldable pub judge : Daemon → HostMap → HostMap → Verdict
  judge d hbd sfd =
      if wins_by_statefile d.var.stable_hb d.var.stable_sf hbd sfd
      then record { winner = true; var_sr2 = d.var.sr2; sm_sr2 = d.sm.sr2 }
      else if wins_by_sr2 d.var.stable_hb d.var.stable_sf hbd
      then record { winner = true; var_sr2 = true; sm_sr2 = true }
      else record { winner = false; var_sr2 = false; sm_sr2 = d.sm.sr2 }

  -- The two domains that the test looks at.
  abbrev pub hbd : Daemon → HostMap
  hbd d = intersection (mask_unconfig cfg.hostnum d.var.stable_hb.hbdomain) d.sm.current_liveset

  abbrev pub sfd : Daemon → HostMap
  sfd d = intersection (mask_unconfig cfg.hostnum d.var.stable_sf.sfdomain) d.sm.current_liveset

  -- The first part of the test, which decides; `pSR2` is the address of `smvar.SR2`.
  unfoldable pub decide_survival : Daemon → Verdict × Daemon
  decide_survival d =
      let masked = record d { var = mask_stable d.var } in
      let v = judge masked (hbd d) (sfd d) in
      (
        v,
        record masked {
          sm = record (d.sm) { sr2 = v.sm_sr2 };
          var = record (masked.var) { sr2 = v.var_sr2; fh_sleep_extend = false };
        },
      )

  unfoldable pub test_survival_rule : Daemon → Bool × Daemon
  test_survival_rule d =
      let (v, decided) = decide_survival d in
      let removed =
        remove_hosts (λ index. is_on (hbd d) index && (v.var_sr2 || is_on (sfd d) index)) decided in
      (
        v.winner,
        sm_sm_updated true (if v.winner && is_armed d.var.fencing then removed else decided),
      )

  -- The pool has left Survival Rule-2.
  unfoldable pub is_recovered : Daemon → Bool
  is_recovered d = all_hosts cfg.hostnum (λ index.
      if index == cfg.my_index
      then d.sf.sf_access
      else if is_on d.hb.hbdomain index
      then is_on (d.hb.raw index).sfdomain index
      else is_on d.sf.excluded index)

  -- Run by the worker thread.
  unfoldable pub surviving_by_sr2 : Daemon → Daemon
  unfolding is_recovered sm_sm_updated
  surviving_by_sr2 d =
      let watched = call sf_watchdog_set d in
      if is_recovered d
      then sm_sm_updated false (record watched {
        sm = record (d.sm) { sr2 = false };
        var = record (d.var) { sr2 = false };
      })
      else watched
