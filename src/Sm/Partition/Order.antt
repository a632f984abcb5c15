-- ===== src/Sm/Partition/Order.antt =====
-- get_partition_score of daemon/sm.c orders the sets of hosts by weight, then size, then first
-- host.

use xha.Prelude.{ℕ, zero, suc, ◌+◌, ◌-◌, ◌*◌, ◌<◌, ◌≤◌, ◌≡◌, if◌then◌else◌, none, some, arith}
use xha.Prelude.Hosts.{for_hosts_down, find_host, find_host-some, sum_hosts, sum_hosts_le_mul}
use xha.HostMap.{HostMap, is_on, max_host_num}
use xha.Config.{Config}
use xha.Sm.Partition.{Score, score_step, get_partition_score}

module _ (hostmap : HostMap) (weight : ℕ → ℕ) where
  -- The weight of the configured hosts of the set, and their number.
  abbrev pub total_weight : ℕ → ℕ
  total_weight n = sum_hosts n (λ i. if is_on hostmap i then weight i else 0)

  abbrev pub host_count : ℕ → ℕ
  host_count n = sum_hosts n (λ i. if is_on hostmap i then 1 else 0)

  abbrev pub rank_or : ℕ → ℕ → ℕ
  rank_or n d = elim (find_host n (is_on hostmap)) [ none ↦ d | some i ↦ max_host_num - i ]

  -- The loop adds up weight and number, and ends on the first host of the set.
  score_loop :
      (cfg : Config) (n : ℕ) (s : Score)
      → for_hosts_down n (score_step hostmap weight) s ≡ record {
        weight_score = total_weight n + s.weight_score;
        size_score = host_count n + s.size_score;
        index_score = rank_or n s.index_score;
      }
  unfolding for_hosts_down score_step sum_hosts find_host
  score_loop cfg zero s = ground arith
  score_loop cfg (suc n) s = ground (arith, score_loop cfg n (score_step hostmap weight n s))

  -- What get_partition_score computes.
  pub get_partition_score_lem :
      (cfg : Config)
      → get_partition_score cfg hostmap weight
        ≡ total_weight cfg.hostnum * 0x10000
          + host_count cfg.hostnum * 0x100
          + rank_or cfg.hostnum 0
  unfolding get_partition_score
  get_partition_score_lem cfg = ground (
    arith,
    score_loop cfg cfg.hostnum (record { weight_score = 0; size_score = 0; index_score = 0 }),
  )

  pub host_count-le : (n : ℕ) → host_count n ≤ n
  host_count-le n =
      grind
        (arith, sum_hosts_le_mul n 1 (λ i. if is_on hostmap i then 1 else 0) (λ i lt. ground arith))

  pub rank_or-le : (n : ℕ) → rank_or n 0 ≤ max_host_num
  rank_or-le n = ground arith

module _ (cfg : Config) (a b : HostMap) (weight : ℕ → ℕ) (few : cfg.hostnum ≤ max_host_num) where
  -- A set of more weight scores higher; of two sets of one weight the larger does, and of two sets
  -- of one weight and size the one whose first host has the smaller index.
  pub get_partition_score_lexicographic :
      (total_weight a weight cfg.hostnum < total_weight b weight cfg.hostnum
        → get_partition_score cfg a weight < get_partition_score cfg b weight)
      × (total_weight a weight cfg.hostnum ≡ total_weight b weight cfg.hostnum
          → host_count a weight cfg.hostnum < host_count b weight cfg.hostnum
          → get_partition_score cfg a weight < get_partition_score cfg b weight)
      × ((i j : ℕ)
          → total_weight a weight cfg.hostnum ≡ total_weight b weight cfg.hostnum
          → host_count a weight cfg.hostnum ≡ host_count b weight cfg.hostnum
          → find_host cfg.hostnum (is_on a) ≡ some i
          → find_host cfg.hostnum (is_on b) ≡ some j
          → j < i
          → get_partition_score cfg a weight < get_partition_score cfg b weight)
  get_partition_score_lexicographic = (
    λ h. omega (arith, score_a, score_b, size_a, size_b, rank_or-le a weight cfg.hostnum),
    λ e h. omega (arith, score_a, score_b, size_a, size_b, rank_or-le a weight cfg.hostnum),
    λ i j e f fi fj lt.
        ground (arith, score_a, score_b, (find_host-some cfg.hostnum (is_on a) fi).0),
  )
    where
      score_a :
          get_partition_score cfg a weight
          ≡ total_weight a weight cfg.hostnum * 0x10000
            + host_count a weight cfg.hostnum * 0x100
            + rank_or a weight cfg.hostnum 0
      score_a = get_partition_score_lem a weight cfg

      score_b :
          get_partition_score cfg b weight
          ≡ total_weight b weight cfg.hostnum * 0x10000
            + host_count b weight cfg.hostnum * 0x100
            + rank_or b weight cfg.hostnum 0
      score_b = get_partition_score_lem b weight cfg

      size_a : host_count a weight cfg.hostnum ≤ cfg.hostnum
      size_a = host_count-le a weight cfg.hostnum

      size_b : host_count b weight cfg.hostnum ≤ cfg.hostnum
      size_b = host_count-le b weight cfg.hostnum
