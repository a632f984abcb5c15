-- ===== src/Sm/Partition.antt =====
-- daemon/sm.c: the size of a partition, its score, and the choice of the partition that survives.
pub mod Order
pub mod Choice
pub mod Agreement
use xha.Prelude.{
  ℕ, ◌+◌, ◌-◌, ◌*◌, ◌%◌, ◌^◌, Bool, true, false, not, ◌&&◌, ◌||◌, ◌==◌, ltb, if◌then◌else◌, Option,
  none, some,
}
use xha.Prelude.Hosts.{for_hosts, for_hosts_down}
use xha.HostMap.{HostMap, is_on, max_host_num}
use xha.Config.{Config}
use xha.Data.{ComHb, ComSf}
use xha.Sm.Membership.{is_empty_liveset}

-- `a > b` for two MTC_S32 given by their bit patterns.
abbrev pub s32_gt : ℕ → ℕ → Bool
s32_gt a b = ltb ((b + 2 ^ 31) % 2 ^ 32) ((a + 2 ^ 31) % 2 ^ 32)

-- The counters of get_partition_score.
pub record Score : Type 0 where
  pub weight_score : ℕ
  pub size_score : ℕ
  pub index_score : ℕ

-- The loop's variables in am_I_in_largest_partition; `none` is a winner index of -1.
pub record Winner : Type 0 where
  pub winner_index : Option ℕ
  pub winner_size : ℕ

-- One round of the loop of get_partition_size; the sum is that of MTC_U32, stored as MTC_S32.
unfoldable pub size_step : HostMap → HostMap → Option (ℕ → ℕ) → ℕ → ℕ → ℕ
size_step sfdomain hbdomain weight index size =
    if is_on sfdomain index && is_on hbdomain index
    then elim weight [
      | none ↦ (size + 1) % 2 ^ 32
      | some w ↦ ((size + 1) % 2 ^ 32 + 0x100 * w index % 2 ^ 32) % 2 ^ 32
    ]
    else size

unfoldable pub score_step : HostMap → (ℕ → ℕ) → ℕ → Score → Score
score_step hostmap weight index s =
    if is_on hostmap index
    then record {
      weight_score = s.weight_score + weight index;
      size_score = s.size_score + 1;
      index_score = max_host_num - index;
    }
    else s

unfoldable pub winner_step : (ℕ → ℕ) → ℕ → Winner → Winner
winner_step sizes index w =
    if s32_gt (sizes index) w.winner_size
    then record { winner_index = some index; winner_size = sizes index }
    else w

module _ (cfg : Config) where
  unfoldable pub get_partition_size : HostMap → HostMap → Option (ℕ → ℕ) → ℕ
  unfolding size_step
  get_partition_size sfdomain hbdomain weight =
      if is_empty_liveset cfg sfdomain
      then 0
      else for_hosts cfg.hostnum (size_step sfdomain hbdomain weight) 0

  unfoldable pub get_partition_score : HostMap → (ℕ → ℕ) → ℕ
  unfolding score_step
  get_partition_score hostmap weight =
      let s =
        for_hosts_down cfg.hostnum (score_step hostmap weight)
          (record { weight_score = 0; size_score = 0; index_score = 0 }) in
      s.weight_score * 0x10000 + s.size_score * 0x100 + s.index_score

  -- partition_size[index]
  unfoldable pub partition_size : ComHb → ComSf → Option (ℕ → ℕ) → ℕ → ℕ
  partition_size phb psf weight index =
      if not (is_on psf.sfdomain index)
      then 0
      else if index == cfg.my_index
      then get_partition_size psf.sfdomain phb.hbdomain weight
      else get_partition_size (psf.raw index).sfdomain (psf.raw index).hbdomain weight

  unfoldable pub find_winner : (ℕ → ℕ) → Winner
  unfolding winner_step
  find_winner sizes =
      for_hosts cfg.hostnum (winner_step sizes) (record { winner_index = none; winner_size = 0 })

  unfoldable pub am_i_in_largest_partition : ComHb → ComSf → Option (ℕ → ℕ) → Bool
  unfolding find_winner partition_size
  am_i_in_largest_partition phb psf weight =
      elim ((find_winner (partition_size phb psf weight)).winner_index) [
        | none ↦ false
        | some winner ↦
            winner == cfg.my_index
            || is_on (psf.raw winner).sfdomain cfg.my_index
              && is_on (psf.raw winner).hbdomain cfg.my_index
              && is_on psf.sfdomain winner
              && is_on phb.hbdomain winner
      ]
