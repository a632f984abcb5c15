-- ===== src/Sm/Survival/Rule.antt =====
-- What test_Survival_Rule of daemon/sm.c decides, and whom it removes from the proposed liveset.
use xha.Prelude.{
  ℕ, suc, ◌<◌, ◌≡◌, refl, Bool, true, false, not, ◌&&◌, ◌||◌, ltb, if◌then◌else◌, arith, ltb_iff,
}
use xha.Prelude.Hosts.{for_hosts_inv}
use xha.HostMap.{HostMap, is_on}
use xha.HostMap.Laws.{is_on-reset}
use xha.Config.{Config}
use xha.Data.{ComHb, ComSf, Daemon}
use xha.Sm.Signals.{sm_sm_updated}
use xha.Sm.Survival.{
  is_armed, Removal, remove_step, mask_stable, wins_by_statefile, wins_by_sr2, remove_hosts, judge,
  hbd, sfd, decide_survival, test_survival_rule,
}

module _ (stays : ℕ → Bool) where
  -- A map from which the hosts below `k` that do not stay have been removed.
  abbrev Removed : ℕ → HostMap → HostMap → Type 0
  Removed k before after = (j : ℕ) → is_on after j ≡ (is_on before j && (not (ltb j k) || stays j))

  abbrev RemovedAll : Removal → ℕ → Removal → Type 0
  RemovedAll before k r =
      Removed k before.proposed_liveset r.proposed_liveset
      × Removed k before.hbdomain r.hbdomain
      × Removed k before.sfdomain r.sfdomain

  remove_step_lem :
      (before : Removal) (k : ℕ) (r : Removal)
      → RemovedAll before k r
      → RemovedAll before (suc k) (remove_step stays k r)
  unfolding remove_step
  remove_step_lem before k r (p, h, s) = (
    λ j. ground (arith, p j, is_on-reset r.proposed_liveset k j),
    λ j. ground (arith, h j, h k, is_on-reset r.hbdomain k j),
    λ j. ground (arith, s j, s k, is_on-reset r.sfdomain k j),
  )

-- The release of the object changes no liveset.
pub sm_sm_updated-livesets :
    (own : Bool) (d : Daemon)
    → ((sm_sm_updated own d).sm.current_liveset ≡ d.sm.current_liveset)
      × ((sm_sm_updated own d).sm.proposed_liveset ≡ d.sm.proposed_liveset)
unfolding sm_sm_updated
sm_sm_updated-livesets own d = ground arith

module _ (cfg : Config) (d : Daemon) where
  remove_hosts-current_liveset :
      (stays : ℕ → Bool) → (remove_hosts cfg stays d).sm.current_liveset ≡ d.sm.current_liveset
  unfolding remove_hosts
  remove_hosts-current_liveset stays = refl

  -- Hosts that do not stay leave the proposed liveset and both domains.
  remove_hosts_lem :
      (stays : ℕ → Bool)
      → Removed stays cfg.hostnum d.sm.proposed_liveset
          (remove_hosts cfg stays d).sm.proposed_liveset
        × Removed stays cfg.hostnum d.hb.hbdomain (remove_hosts cfg stays d).hb.hbdomain
        × Removed stays cfg.hostnum d.sf.sfdomain (remove_hosts cfg stays d).sf.sfdomain
  unfolding remove_hosts
  remove_hosts_lem stays =
      for_hosts_inv (RemovedAll stays before) cfg.hostnum (remove_step stays) before
        (λ j. ground arith, λ j. ground arith, λ j. ground arith)
        (λ k r lt h. remove_step_lem stays before k r h)
    where
      before : Removal
      before = record {
        proposed_liveset = d.sm.proposed_liveset;
        hbdomain = d.hb.hbdomain;
        sfdomain = d.sf.sfdomain;
        fh_sleep_extend = d.var.fh_sleep_extend;
      }

module _ (cfg : Config) (d : Daemon) where
  abbrev masked_hb : ComHb
  masked_hb = (mask_stable cfg d.var).stable_hb

  abbrev masked_sf : ComSf
  masked_sf = (mask_stable cfg d.var).stable_sf

  abbrev pub wins_first : Bool
  wins_first = wins_by_statefile cfg masked_hb masked_sf (hbd cfg d) (sfd cfg d)

  abbrev pub wins_second : Bool
  wins_second = wins_by_sr2 cfg masked_hb masked_sf (hbd cfg d)

  mask_stable-sr2 : (mask_stable cfg d.var).sr2 ≡ d.var.sr2
  unfolding mask_stable
  mask_stable-sr2 = refl

  -- The verdict, which leaves the livesets alone.
  decide_survival_lem :
      ((decide_survival cfg d).0.winner ≡ (wins_first || wins_second))
      × ((wins_first || wins_second) ≡ true
          → (decide_survival cfg d).0.var_sr2 ≡ (if wins_first then d.var.sr2 else true))
      × ((decide_survival cfg d).1.sm.current_liveset ≡ d.sm.current_liveset)
      × ((decide_survival cfg d).1.sm.proposed_liveset ≡ d.sm.proposed_liveset)
  unfolding decide_survival judge
  decide_survival_lem = (ground arith, λ won. ground (arith, won, mask_stable-sr2), refl, refl)

  abbrev stays : ℕ → Bool
  stays index =
      is_on (hbd cfg d) index && ((decide_survival cfg d).0.var_sr2 || is_on (sfd cfg d) index)

  abbrev removed : Daemon
  removed = remove_hosts cfg stays (decide_survival cfg d).1

  abbrev released : Daemon
  released =
      if (decide_survival cfg d).0.winner && is_armed d.var.fencing
      then removed
      else (decide_survival cfg d).1

  -- The host survives if it wins on the state file or by Survival Rule-2. If it does and fencing is
  -- armed, exactly those hosts stay in its proposed liveset that are in the current liveset and in
  -- the stable heartbeat domain and, but for Survival Rule-2, in the stable state-file domain: a
  -- host that is not yet in the current liveset is removed. Otherwise the proposed liveset is left
  -- alone. The current liveset never changes.
  pub test_survival_rule_lem :
      ((test_survival_rule cfg d).0 ≡ (wins_first || wins_second))
      × ((test_survival_rule cfg d).1.sm.current_liveset ≡ d.sm.current_liveset)
      × ((test_survival_rule cfg d).0 ≡ true
          → is_armed d.var.fencing ≡ true
          → (j : ℕ) → j < cfg.hostnum
          → is_on (test_survival_rule cfg d).1.sm.proposed_liveset j ≡ (
              is_on d.sm.proposed_liveset j
              && is_on (hbd cfg d) j
              && ((if wins_first then d.var.sr2 else true) || is_on (sfd cfg d) j)))
      × (((test_survival_rule cfg d).0 && is_armed d.var.fencing) ≡ false
          → (test_survival_rule cfg d).1.sm.proposed_liveset ≡ d.sm.proposed_liveset)
  unfolding test_survival_rule
  test_survival_rule_lem =
      let (winner, sr2, current, proposed) = decide_survival_lem in
      let (live, prop) = sm_sm_updated-livesets true released in
      (
        winner,
        ground (
          arith,
          live,
          current,
          remove_hosts-current_liveset cfg (decide_survival cfg d).1 stays,
        ),
        λ win armed j lt. ground (
          arith,
          prop,
          sr2,
          winner,
          proposed,
          armed,
          win,
          (ltb_iff j cfg.hostnum).1 lt,
          (remove_hosts_lem cfg (decide_survival cfg d).1 stays).0 j,
        ),
        λ idle. ground (arith, prop, proposed, idle),
      )
