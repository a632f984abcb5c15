-- ===== src/Sm/View.antt =====
-- wait_until_all_hosts_have_consistent_view of daemon/sm.c: the hosts compare what they see, and a
-- host that gives up waiting computes a view of its own from what the others have published.
pub mod Merge
pub mod Clique
use xha.Prelude.{
  ℕ, zero, suc, ◌+◌, Bool, true, false, not, ◌&&◌, ◌||◌, ◌==◌, ltb, if◌then◌else◌, Option, none,
  some, List, [], ◌∷◌,
}
use xha.Prelude.Hosts.{update, for_hosts, for_hosts_down, all_hosts}
use xha.HostMap.{
  HostMap, set, reset, is_on, init_reset, compare, union, intersection, mask_unconfig,
}
use xha.Config.{Config}
use xha.Data.{RawData, ComSm, ComHb, ComSf, SmVar, Daemon}
use xha.Sm.Membership.{is_all_hosts_up, is_empty_liveset}
use xha.Sm.Partition.{get_partition_score}
use xha.Sm.Waits.{Wakes}

-- `raw[·].hbdomain` of the stable state-file data, and the hosts removed so far.
pub record Rows : Type 0 where
  pub row : ℕ → HostMap
  pub removedhost : HostMap

-- The variables `selected` (`none` for -1) and `minimum`.
pub record Selection : Type 0 where
  pub selected : Option ℕ
  pub minimum : ℕ

unfoldable pub select_step : (HostMap → ℕ) → Rows → ℕ → Selection → Selection
select_step score s index sel = if is_on s.removedhost index then sel else elim (sel.selected) [
  | none ↦ record { selected = some index; minimum = score (s.row index) }
  | some old ↦
      if ltb (score (s.row index)) sel.minimum
      then record { selected = some index; minimum = score (s.row index) }
      else sel
]

module _ (cfg : Config) where
  -- Host `host` is cleared from its own row and from the row of every host.
  unfoldable pub remove_host : ℕ → Rows → Rows
  remove_host host s = record {
    row =
        for_hosts cfg.hostnum (λ index r. update r index (reset (r index) host))
          (update s.row host init_reset);
    removedhost = set s.removedhost host;
  }

  -- First the hosts that have no access to the state file.
  unfoldable pub remove_without_sf : HostMap → (ℕ → HostMap) → Rows
  remove_without_sf my_sfdomain row =
      for_hosts cfg.hostnum (λ index s. if is_on my_sfdomain index then s else remove_host index s)
        (record { row = row; removedhost = init_reset })

  unfoldable pub select : (ℕ → ℕ) → Rows → Selection
  select weight s =
      for_hosts_down cfg.hostnum (select_step (λ hostmap. get_partition_score cfg hostmap weight) s)
        (record { selected = none; minimum = 0 })

  -- The hosts that the selected host reaches, and those removed.
  abbrev pub covered : Rows → Option ℕ → HostMap
  covered s none = s.removedhost
  covered s (some host) = union (s.row host) s.removedhost

  -- `while (TRUE)`; `none` where the fuel is used up.
  unfoldable pub merge_loop : ℕ → (ℕ → ℕ) → Rows → Option Rows
  merge_loop zero weight s = none
  merge_loop (suc fuel) weight s =
      elim (is_all_hosts_up cfg (covered s (select weight s).selected)) [
        | true ↦ some s
        | false ↦ elim ((select weight s).selected) [
          | none ↦ none
          | some host ↦ merge_loop fuel weight (remove_host host s)
        ]
      ]
