-- ===== src/Sm/Fault/Requests.antt =====
-- When start_fh of daemon/sm.c wakes the fault handler.
use xha.Prelude.{
  ℕ, zero, suc, ◌<◌, ◌≡◌, refl, Bool, true, false, not, ◌&&◌, ◌||◌, ltb, if◌then◌else◌, arith, inl,
  inr, ◌⊎◌, ℕ_discrete,
}
use xha.Prelude.Hosts.{for_hosts_inv}
use xha.HostMap.{HostMap, set, is_on}
use xha.HostMap.Laws.{is_on-set, is_on-reset}
use xha.Config.{Config}
use xha.Data.{Daemon, phase_eq, started}
use xha.Sm.Fault.{Drops, drop_step, fault_step, is_early, find_drops, start_fh}

-- A host that was noted as up and is down now.
abbrev pub is_dropped : HostMap → HostMap → ℕ → Bool
is_dropped last domain j = is_on last j && not (is_on domain j)

-- Whether the last of the dropped hosts below `n` is in the liveset.
last_dropped_live : HostMap → HostMap → HostMap → ℕ → Bool
last_dropped_live liveset last domain zero = false
last_dropped_live liveset last domain (suc n) =
    if is_dropped last domain n then is_on liveset n else last_dropped_live liveset last domain n

-- One medium, after the hosts below `k`.
abbrev Noted : HostMap → HostMap → HostMap → ℕ → HostMap → Bool → Type 0
Noted liveset last domain k last' degraded =
    ((j : ℕ) → is_on last' j ≡ (if ltb j k then is_on domain j else is_on last j))
    × (degraded ≡ last_dropped_live liveset last domain k)

drop_step-Noted :
    (liveset last domain : HostMap) (k : ℕ) (last' : HostMap) (degraded : Bool)
    → Noted liveset last domain k last' degraded
    → Noted liveset last domain
        (suc k)
        (drop_step liveset domain k (last', degraded)).0
        (drop_step liveset domain k (last', degraded)).1
unfolding drop_step last_dropped_live
drop_step-Noted liveset last domain k last' degraded (maps, deg) = (
  λ j. ground (
    arith,
    maps j,
    maps k,
    is_on-set last' k j,
    is_on-set last' k k,
    is_on-reset last' k j,
    is_on-reset (set last' k) k j,
  ),
  ground (arith, maps k, deg, is_on-set last' k k),
)

module _ (cfg : Config) (d : Daemon) where
  abbrev Both : ℕ → Drops → Type 0
  Both k s =
      Noted d.sm.current_liveset d.var.last_hbdomain d.hb.hbdomain k s.last_hbdomain s.hb_degraded
      × Noted d.sm.current_liveset d.var.last_sfdomain d.sf.sfdomain k s.last_sfdomain s.sf_degraded

  find_drops-Noted : Both cfg.hostnum (find_drops cfg d)
  unfolding find_drops fault_step last_dropped_live
  find_drops-Noted =
      for_hosts_inv Both cfg.hostnum (fault_step d.sm.current_liveset d.hb.hbdomain d.sf.sfdomain)
        (record {
          last_hbdomain = d.var.last_hbdomain;
          last_sfdomain = d.var.last_sfdomain;
          hb_degraded = false;
          sf_degraded = false;
        })
        ((λ j. ground arith, refl), (λ j. ground arith, refl))
        (λ k s lt h. (
          drop_step-Noted d.sm.current_liveset d.var.last_hbdomain d.hb.hbdomain k s.last_hbdomain
              s.hb_degraded (h.0),
          drop_step-Noted d.sm.current_liveset d.var.last_sfdomain d.sf.sfdomain k s.last_sfdomain
              s.sf_degraded (h.1),
        ))

-- The dropped host with the largest index.
abbrev pub IsLastDrop : HostMap → HostMap → ℕ → ℕ → Type 0
IsLastDrop last domain n i =
    (i < n)
    × (is_dropped last domain i ≡ true)
    × ((j : ℕ) → i < j → j < n → is_dropped last domain j ≡ false)

module _ (liveset last domain : HostMap) where
  last_dropped_live_lem :
      (n i : ℕ)
      → IsLastDrop last domain n i
      → last_dropped_live liveset last domain n ≡ is_on liveset i
  unfolding last_dropped_live
  last_dropped_live_lem zero i h = absurd (omega arith)
  last_dropped_live_lem (suc n) i (lt, down, after) = elim (ℕ_discrete i n) [
    | yes e ↦ ground (arith, e, down)
    | no ne ↦
        let later =
          last_dropped_live_lem n i (omega arith, down, λ j ij jn. after j ij (omega arith)) in
        ground (arith, later, after n)
  ]

  last_dropped_live_none :
      (n : ℕ)
      → ((j : ℕ) → j < n → is_dropped last domain j ≡ true → is_on liveset j ≡ false)
      → last_dropped_live liveset last domain n ≡ false
  unfolding last_dropped_live
  last_dropped_live_none zero h = refl
  last_dropped_live_none (suc n) h =
      ground (arith, h n, last_dropped_live_none n (λ j jl. h j (omega arith)))

module _ (cfg : Config) (force : Bool) (d : Daemon) where
  -- The last host that dropped out of a domain is in the liveset.
  abbrev pub LastIsLive : HostMap → HostMap → Type 0
  LastIsLive last domain =
      (i : ℕ) × IsLastDrop last domain cfg.hostnum i × (is_on d.sm.current_liveset i ≡ true)

  -- No host of the liveset dropped out of a domain.
  abbrev pub NoneIsLive : HostMap → HostMap → Type 0
  NoneIsLive last domain =
      (j : ℕ)
      → j < cfg.hostnum
      → is_dropped last domain j ≡ true
      → is_on d.sm.current_liveset j ≡ false

  -- The test of start_fh, by the hosts that were last to drop out.
  start_fh-need_fh : (start_fh cfg force d).var.need_fh ≡ (
      if (last_dropped_live d.sm.current_liveset d.var.last_hbdomain d.hb.hbdomain cfg.hostnum
          || last_dropped_live d.sm.current_liveset d.var.last_sfdomain d.sf.sfdomain cfg.hostnum
            && not d.var.sr2
          || force && phase_eq d.var.phase started)
        && not (is_early d.var.phase)
      then true
      else d.var.need_fh)
  unfolding start_fh
  start_fh-need_fh = let (hb, sf) = find_drops-Noted cfg d in ground (arith, hb.1, sf.1)

  -- Unless a fault handler is in a phase before it looks at the domains, start_fh asks for one when
  -- the last host to drop out of the heartbeat domain is in the liveset, when the last to drop out
  -- of the state-file domain is and Survival Rule-2 is not in force, or when it is forced to in the
  -- phase STARTED. It asks for nothing when no host of the liveset has dropped out and it is not
  -- forced.
  pub start_fh_lem :
      (is_early d.var.phase ≡ false
        → LastIsLive d.var.last_hbdomain d.hb.hbdomain
          ⊎ ((d.var.sr2 ≡ false) × LastIsLive d.var.last_sfdomain d.sf.sfdomain)
          ⊎ ((force ≡ true) × (d.var.phase ≡ started))
        → (start_fh cfg force d).var.need_fh ≡ true)
      × (NoneIsLive d.var.last_hbdomain d.hb.hbdomain
          → NoneIsLive d.var.last_sfdomain d.sf.sfdomain
          → force ≡ false
          → (start_fh cfg force d).var.need_fh ≡ d.var.need_fh)
  start_fh_lem = (
    λ ready cause. elim cause [
      | inl (i, last, live) ↦ ground (arith, start_fh-need_fh, ready, live, hb_at i last)
      | inr (inl (plain, (i, last, live))) ↦
          ground (arith, start_fh-need_fh, ready, plain, live, sf_at i last)
      | inr (inr (forced, phase)) ↦ ground (arith, start_fh-need_fh, ready, forced, phase)
    ],
    λ quiet_hb quiet_sf unforced.
        ground (arith, start_fh-need_fh, hb_none quiet_hb, sf_none quiet_sf, unforced),
  )
    where
      hb_at :
          (i : ℕ)
          → IsLastDrop d.var.last_hbdomain d.hb.hbdomain cfg.hostnum i
          → last_dropped_live d.sm.current_liveset d.var.last_hbdomain d.hb.hbdomain cfg.hostnum
            ≡ is_on d.sm.current_liveset i
      hb_at i =
          last_dropped_live_lem d.sm.current_liveset d.var.last_hbdomain d.hb.hbdomain cfg.hostnum i

      sf_at :
          (i : ℕ)
          → IsLastDrop d.var.last_sfdomain d.sf.sfdomain cfg.hostnum i
          → last_dropped_live d.sm.current_liveset d.var.last_sfdomain d.sf.sfdomain cfg.hostnum
            ≡ is_on d.sm.current_liveset i
      sf_at i =
          last_dropped_live_lem d.sm.current_liveset d.var.last_sfdomain d.sf.sfdomain cfg.hostnum i

      hb_none :
          NoneIsLive d.var.last_hbdomain d.hb.hbdomain
          → last_dropped_live d.sm.current_liveset d.var.last_hbdomain d.hb.hbdomain cfg.hostnum
            ≡ false
      hb_none =
          last_dropped_live_none d.sm.current_liveset d.var.last_hbdomain d.hb.hbdomain cfg.hostnum

      sf_none :
          NoneIsLive d.var.last_sfdomain d.sf.sfdomain
          → last_dropped_live d.sm.current_liveset d.var.last_sfdomain d.sf.sfdomain cfg.hostnum
            ≡ false
      sf_none =
          last_dropped_live_none d.sm.current_liveset d.var.last_sfdomain d.sf.sfdomain cfg.hostnum

  -- A host of the liveset that drops out of the heartbeat domain goes unnoticed when the last host
  -- to drop out of it is not in the liveset, no host of the liveset drops out of the state-file
  -- domain, and the call is not forced: start_fh asks for nothing, and at the next call the host no
  -- longer counts as dropped.
  pub start_fh_overlooks :
      (i k : ℕ)
      → i < cfg.hostnum
      → is_dropped d.var.last_hbdomain d.hb.hbdomain i ≡ true
      → is_on d.sm.current_liveset i ≡ true
      → IsLastDrop d.var.last_hbdomain d.hb.hbdomain cfg.hostnum k
      → is_on d.sm.current_liveset k ≡ false
      → NoneIsLive d.var.last_sfdomain d.sf.sfdomain
      → force ≡ false
      → ((start_fh cfg force d).var.need_fh ≡ d.var.need_fh)
        × (is_dropped (start_fh cfg force d).var.last_hbdomain d.hb.hbdomain i ≡ false)
  start_fh_overlooks i k lt down live last dead none_sf unforced =
      let (hb, sf) = find_drops-Noted cfg d in
      (
        ground (
          arith,
          start_fh-need_fh,
          dead,
          unforced,
          last_dropped_live_lem d.sm.current_liveset d.var.last_hbdomain d.hb.hbdomain cfg.hostnum k
              last,
          last_dropped_live_none d.sm.current_liveset d.var.last_sfdomain d.sf.sfdomain cfg.hostnum
              none_sf,
        ),
        unfold start_fh in ground (arith, hb.0 i, lt, down),
      )
