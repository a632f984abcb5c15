-- ===== src/Sm/Consistent.antt =====
-- wait_until_all_hosts_have_consistent_view of daemon/sm.c, round the loop of Sm.View.
pub mod Result
use xha.Prelude.{
  ℕ, suc, Bool, true, false, not, ◌&&◌, ◌||◌, ◌==◌, if◌then◌else◌, Option, none, some, List, [],
  ◌∷◌,
}
use xha.Prelude.Hosts.{update, for_hosts}
use xha.HostMap.{HostMap, reset, is_on, compare, intersection, mask_unconfig}
use xha.Config.{Config}
use xha.Data.{RawData, ComSm, ComHb, ComSf, SmVar, Daemon}
use xha.Sm.Membership.{is_empty_liveset}
use xha.Sm.View.{Rows, remove_without_sf, merge_loop}
use xha.Prelude.Int.{ℤ, ◌-ℤ◌, leb_ℤ}

-- The rounds of a wait: the clock that is read, and what the other threads do before the next one.
abbrev pub Rounds : Type 0
Rounds = List (ℤ × (Daemon → Daemon))

-- The loop over the hosts; it leaves at the first host that disagrees.
pub record Views : Type 0 where
  pub phb : ComHb
  pub psf : ComSf
  pub consistent : Bool

abbrev pub map_raw : (RawData → RawData) → ℕ → (ℕ → RawData) → ℕ → RawData
map_raw f index raw = update raw index (f (raw index))

-- Both domains of a host's data, cut down to the liveset.
abbrev pub cut_raw : HostMap → RawData → RawData
cut_raw liveset r = record r {
  hbdomain = intersection r.hbdomain liveset;
  sfdomain = intersection r.sfdomain liveset;
}

-- The rows that the search has left are the heartbeat domains of the state-file data.
abbrev pub put_rows : Rows → SmVar → ℕ → RawData
put_rows rows v i = record (v.stable_sf.raw i) { hbdomain = rows.row i }

module _ (cfg : Config) where
  abbrev pub mask : HostMap → HostMap
  mask = mask_unconfig cfg.hostnum

  abbrev mask_raw : RawData → RawData
  mask_raw r = record r { hbdomain = mask r.hbdomain; sfdomain = mask r.sfdomain }

  -- Host `index`, if this host sees it on a medium, sees the same domains on it.
  unfoldable pub agrees : HostMap → HostMap → HostMap → ComHb → ComSf → ℕ → Bool
  agrees liveset my_hbdomain my_sfdomain phb psf index = not (
      is_on my_hbdomain index && compare my_hbdomain (intersection (phb.raw index).hbdomain liveset)
      || is_on my_sfdomain index
        && compare my_sfdomain (intersection (psf.raw index).sfdomain liveset)
      || is_on my_sfdomain index
        && compare my_hbdomain (intersection (psf.raw index).hbdomain liveset)
      || is_on my_hbdomain index
        && compare my_sfdomain (intersection (phb.raw index).sfdomain liveset))

  unfoldable pub view_step : HostMap → HostMap → HostMap → ℕ → Views → Views
  unfolding agrees
  view_step liveset my_hbdomain my_sfdomain index s =
      let phb = record (s.phb) { raw = map_raw mask_raw index s.phb.raw } in
      let psf = record (s.psf) { raw = map_raw mask_raw index s.psf.raw } in
      if s.consistent && not (index == cfg.my_index) && is_on liveset index
      then record {
        phb = phb;
        psf = psf;
        consistent = agrees liveset my_hbdomain my_sfdomain phb psf index;
      }
      else s

  -- One comparison of the views; it cuts the domains that it reads down to the configured hosts.
  unfoldable pub compare_views : Daemon → Bool × Daemon
  unfolding view_step
  compare_views d =
      let phb = record (d.hb) { hbdomain = mask d.hb.hbdomain } in
      let psf = record (d.sf) { sfdomain = mask d.sf.sfdomain } in
      let s =
        for_hosts cfg.hostnum
          (view_step d.sm.current_liveset (intersection phb.hbdomain d.sm.current_liveset)
            (intersection psf.sfdomain d.sm.current_liveset))
          (record { phb = phb; psf = psf; consistent = true }) in
      (s.consistent, record d { hb = s.phb; sf = s.psf })

  -- The comparisons until the views agree or the time is up. After a comparison that disagrees the
  -- clock is read, and if the time is not up, the thread waits, without a limit, for a signal; what
  -- the other threads do until then is the second part of a round. `none` where it waits on.
  unfoldable pub compare_until : ℤ → ℤ → Rounds → Daemon → Option (Bool × Daemon)
  compare_until timeout start [] d =
      let (consistent, d') = compare_views d in if consistent then some (true, d') else none
  compare_until timeout start ((now, wake) ∷ rounds) d =
      let (consistent, d') = compare_views d in
      let rest = compare_until timeout start rounds (wake d') in
      if consistent
      then some (true, d')
      else if leb_ℤ timeout (now -ℤ start)
      then some (false, d')
      else rest

  -- The domains of the stable data are put in, and cut down to the liveset.
  unfoldable pub put_own_domains : HostMap → HostMap → HostMap → SmVar → SmVar
  put_own_domains liveset my_hbdomain my_sfdomain v =
      let own = λ (r : RawData). record r { hbdomain = my_hbdomain; sfdomain = my_sfdomain } in
      record v {
        stable_hb = record (v.stable_hb) {
          raw =
              for_hosts cfg.hostnum (map_raw (cut_raw liveset))
                (map_raw own cfg.my_index v.stable_hb.raw);
        };
        stable_sf = record (v.stable_sf) {
          raw =
              for_hosts cfg.hostnum (map_raw (cut_raw liveset))
                (map_raw own cfg.my_index v.stable_sf.raw);
        };
      }

  -- A host that reports an empty state-file domain has lost the state file.
  unfoldable pub lost_step : ℕ → HostMap × SmVar → HostMap × SmVar
  lost_step index (my_sfdomain, v) =
      let clear = λ (r : RawData). record r { sfdomain = reset r.sfdomain index } in
      if not (index == cfg.my_index)
        && (is_empty_liveset cfg (v.stable_sf.raw index).sfdomain
            || is_empty_liveset cfg (v.stable_hb.raw index).sfdomain)
      then (
        reset my_sfdomain index,
        record v {
          stable_hb = record (v.stable_hb) { raw = map_raw clear cfg.my_index v.stable_hb.raw };
          stable_sf = record (v.stable_sf) {
            raw = map_raw clear cfg.my_index v.stable_sf.raw;
            sfdomain = reset v.stable_sf.sfdomain index;
          };
        },
      )
      else (my_sfdomain, v)

  -- The domains of the merged view: this host's row, and its state-file domain.
  abbrev pub finish_view : HostMap → HostMap → Rows → SmVar → SmVar
  finish_view liveset sfdomain rows v =
      let raw = for_hosts cfg.hostnum (map_raw (cut_raw liveset)) (put_rows rows v) in
      record v {
        stable_hb = record (v.stable_hb) {
          raw = for_hosts cfg.hostnum (map_raw (cut_raw liveset)) v.stable_hb.raw;
          hbdomain = (raw cfg.my_index).hbdomain;
        };
        stable_sf = record (v.stable_sf) { raw = raw; sfdomain = sfdomain };
      }

  -- The hosts that have lost the state file are cleared from the domains of this host.
  unfoldable pub clear_lost : HostMap → HostMap → HostMap → SmVar → HostMap × SmVar
  unfolding put_own_domains lost_step
  clear_lost liveset my_hbdomain my_sfdomain v =
      for_hosts cfg.hostnum lost_step
        (my_sfdomain, put_own_domains liveset my_hbdomain my_sfdomain v)

  -- The view that this host computes by itself; `none` where the fuel of the search is used up.
  unfoldable pub merge_view : HostMap → HostMap × SmVar → Option SmVar
  merge_view liveset (sfdomain, v) =
      elim (merge_loop cfg (suc cfg.hostnum) v.stable_sf.weight
        (remove_without_sf cfg sfdomain (λ i. (v.stable_sf.raw i).hbdomain))) [
          | none ↦ none
          | some rows ↦ some (finish_view liveset sfdomain rows v)
        ]

  -- From the end of the comparisons on: the answer, and the daemon with its stable data.
  unfoldable pub after_comparison : Option (Bool × Daemon) → Option (Bool × Daemon)
  after_comparison none = none
  after_comparison (some (consistent, d')) =
      let stable = record (d'.var) { stable_hb = d'.hb; stable_sf = d'.sf } in
      let liveset = d'.sm.current_liveset in
      let merged = merge_view liveset (
        clear_lost liveset (intersection d'.hb.hbdomain liveset)
          (intersection d'.sf.sfdomain liveset) stable) in
      if consistent
      then some (true, record d' { var = stable })
      else elim merged [ none ↦ none | some v ↦ some (true, record d' { var = v }) ]

  unfoldable pub wait_until_all_hosts_have_consistent_view :
      ℤ → ℤ → Rounds → Daemon → Option (Bool × Daemon)
  unfolding compare_until after_comparison
  wait_until_all_hosts_have_consistent_view timeout start rounds d =
      after_comparison (compare_until timeout start rounds d)
