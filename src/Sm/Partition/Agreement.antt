-- ===== src/Sm/Partition/Agreement.antt =====
-- Hosts that see one state of the pool choose one winner in am_I_in_largest_partition of
-- daemon/sm.c.
use mathlib.Core.Path.{fun_ext}
use xha.Prelude.{
  ℕ, ◌<◌, ◌≡◌, ◌≢◌, ◌⊎◌, inl, inr, ap, sym, ◌∙◌, true, false, not, if◌then◌else◌, Option, some,
  arith, ◌==◌, ℕ_discrete, Bool-cases, Option-cases, ==_iff,
}
use xha.HostMap.{HostMap, is_on}
use xha.Config.{Config}
use xha.Sm.Membership.{is_empty_liveset}
use xha.Data.{ComHb, ComSf}
use xha.Sm.Partition.Choice.{find_winner_lem}
use xha.Sm.Partition.{
  s32_gt, Winner, get_partition_size, partition_size, find_winner, am_i_in_largest_partition,
}

-- The configuration file as host `i` has it.
abbrev pub at_host : Config → ℕ → Config
at_host cfg i = record cfg { my_index = i }

-- What the hosts have published: their state-file domains and their heartbeat domains.
pub record Pool : Type 0 where
  pub sfdomains : ℕ → HostMap
  pub hbdomains : ℕ → HostMap

-- Host `i` has published its own domains and has read those of the others.
pub record Sees (pool : Pool) (i : ℕ) (phb : ComHb) (psf : ComSf) : Type 0 where
  pub own_sf : psf.sfdomain ≡ pool.sfdomains i
  pub own_hb : phb.hbdomain ≡ pool.hbdomains i
  pub other_sf : (j : ℕ) → j ≢ i → (psf.raw j).sfdomain ≡ pool.sfdomains j
  pub other_hb : (j : ℕ) → j ≢ i → (psf.raw j).hbdomain ≡ pool.hbdomains j

-- Host `i` is the winner, or it and the winner see one another on both media.
abbrev pub Reaches : Pool → ℕ → ℕ → Type 0
Reaches pool winner i =
    (winner ≡ i)
    ⊎ ((is_on (pool.sfdomains winner) i ≡ true)
        × (is_on (pool.hbdomains winner) i ≡ true)
        × (is_on (pool.sfdomains i) winner ≡ true)
        × (is_on (pool.hbdomains i) winner ≡ true))

module _ (cfg : Config) (pool : Pool) (weight : Option (ℕ → ℕ)) where
  -- The sizes, from what is published, for a host whose state-file domain is `sfdomain`.
  abbrev pool_size : HostMap → ℕ → ℕ
  pool_size sfdomain j =
      if not (is_on sfdomain j)
      then 0
      else get_partition_size cfg (pool.sfdomains j) (pool.hbdomains j) weight

  partition_size-eq-pool_size :
      {i : ℕ} {phb : ComHb} {psf : ComSf}
      → Sees pool i phb psf
      → (j : ℕ) → partition_size (at_host cfg i) phb psf weight j ≡ pool_size (pool.sfdomains i) j
  unfolding partition_size get_partition_size is_empty_liveset
  partition_size-eq-pool_size {i} {phb} {psf} v j = elim (Bool-cases (j == i)) [
    | inl e ↦ let at : j ≡ i = (==_iff j i).0 e in rw (e, v.own_sf, v.own_hb, at)
    | inr ne ↦ rw (ne, v.own_sf, v.other_sf j (ground arith), v.other_hb j (ground arith))
  ]

  winner_of :
      {i : ℕ} {phb : ComHb} {psf : ComSf}
      → Sees pool i phb psf
      → am_i_in_largest_partition (at_host cfg i) phb psf weight ≡ true
      → (winner : ℕ) × ((find_winner cfg (pool_size (pool.sfdomains i))).winner_index ≡ some winner)
        × (find_winner (at_host cfg i) (partition_size (at_host cfg i) phb psf weight)
            ≡ find_winner cfg (pool_size (pool.sfdomains i)))
        × Reaches pool winner i
  unfolding am_i_in_largest_partition find_winner
  winner_of {i} {phb} {psf} v win =
      elim (Option-cases (find_winner cfg (pool_size (pool.sfdomains i))).winner_index) [
        | inl nobody ↦ absurd (ground (arith, same_winner, nobody))
        | inr (winner, e) ↦ (winner, e, same_winner, reaches winner e)
      ]
    where
      same_winner :
          find_winner (at_host cfg i) (partition_size (at_host cfg i) phb psf weight)
          ≡ find_winner cfg (pool_size (pool.sfdomains i))
      same_winner = ap (find_winner cfg) (fun_ext (partition_size-eq-pool_size v))

      reaches :
          (winner : ℕ)
          → (find_winner cfg (pool_size (pool.sfdomains i))).winner_index ≡ some winner
          → Reaches pool winner i
      reaches winner e = elim (ℕ_discrete winner i) [
        | yes at ↦ inl at
        | no ne ↦ ground (arith, same_winner, e, v.other_sf winner ne, v.other_hb winner ne)
      ]

  -- Two hosts that have read what all have published, that have one state-file domain, and that
  -- both find themselves in the largest partition have found one winner. It is a configured host
  -- whose partition is not empty and, as sizes are compared, at least as large as that of every
  -- configured host, and larger than that of each host before it. Each of the two hosts is that
  -- winner or is connected with it on both media.
  pub largest_partition_agreement :
      {a b : ℕ} {hb_a hb_b : ComHb} {sf_a sf_b : ComSf}
      → Sees pool a hb_a sf_a
      → Sees pool b hb_b sf_b
      → pool.sfdomains a ≡ pool.sfdomains b
      → am_i_in_largest_partition (at_host cfg a) hb_a sf_a weight ≡ true
      → am_i_in_largest_partition (at_host cfg b) hb_b sf_b weight ≡ true
      → let sizes = partition_size (at_host cfg a) hb_a sf_a weight in
        (winner : ℕ) × ((find_winner (at_host cfg a) sizes).winner_index ≡ some winner)
        × ((find_winner
              (at_host cfg b)
              (partition_size (at_host cfg b) hb_b sf_b weight)).winner_index
            ≡ some winner)
        × (winner < cfg.hostnum)
        × (s32_gt (sizes winner) 0 ≡ true)
        × ((j : ℕ) → j < cfg.hostnum → s32_gt (sizes j) (sizes winner) ≡ false)
        × ((j : ℕ) → j < winner → s32_gt (sizes winner) (sizes j) ≡ true)
        × Reaches pool winner a
        × Reaches pool winner b
  largest_partition_agreement {a} {b} {hb_a} {hb_b} {sf_a} {sf_b} va vb same win_a win_b =
      let (w, ew, at_a, ra) = winner_of va win_a in
      let (u, eu, at_b, rb) = winner_of vb win_b in
      let one : w ≡ u = ground (arith, ew, eu, ap choice same) in
      let found_a = ap (λ (x : Winner). x.winner_index) at_a ∙ ew in
      let found_b = ap (λ (x : Winner). x.winner_index) at_b ∙ eu ∙ ap some (sym one) in
      let (lt, some_size, most, first) =
        (find_winner_lem (at_host cfg a) (partition_size (at_host cfg a) hb_a sf_a weight)).0 w
          found_a in
      (w, found_a, found_b, lt, some_size, most, first, ra, rw one rb)
    where
      choice : HostMap → Option ℕ
      choice sfdomain = (find_winner cfg (pool_size sfdomain)).winner_index
