-- ===== src/Sm/View/Clique.antt =====
-- The partition that wait_until_all_hosts_have_consistent_view of daemon/sm.c ends with: each of
-- its hosts hears every other.
use xha.Prelude.{
  ℕ, zero, suc, ◌<◌, ◌≤◌, ◌≡◌, true, false, not, ◌&&◌, if◌then◌else◌, arith, Bool-cases,
  Option-cases, inl, inr, some,
}
use xha.Prelude.Hosts.{sum_hosts_mono, sum_hosts_rigid, for_hosts_inv}
use xha.HostMap.{HostMap, max_host_num, is_on, init_reset}
use xha.HostMap.Laws.{is_on-init_reset, is_on-set}
use xha.HostMap.Sets.{is_on-union}
use xha.Config.{Config}
use xha.Sm.Membership.{is_all_hosts_up}
use xha.Sm.Membership.Tests.{is_all_hosts_up_iff}
use xha.Sm.Partition.{get_partition_score}
use xha.Sm.Partition.Order.{
  total_weight, host_count, host_count-le, rank_or-le, get_partition_score_lem,
}
use xha.Sm.View.{Rows, remove_host, remove_without_sf, select, covered, merge_loop}
use xha.Sm.View.Merge.{
  IsCleared, remove_host-IsCleared, remove_host_lem, remove_host-removedhost, select-Selects,
  remaining-le, merge_loop_total, remaining-le,
}

module _ (cfg : Config) (weight : ℕ → ℕ) (few : cfg.hostnum ≤ max_host_num) where
  -- A set of hosts that scores as much as one that contains it is that set.
  score_rigid :
      (a b : HostMap)
      → ((j : ℕ) → j < cfg.hostnum → is_on a j ≡ true → is_on b j ≡ true)
      → get_partition_score cfg b weight ≤ get_partition_score cfg a weight
      → (j : ℕ) → j < cfg.hostnum
      → is_on a j ≡ is_on b j
  score_rigid a b sub le j lt = ground (arith, same)
    where
      weights : total_weight a weight cfg.hostnum ≤ total_weight b weight cfg.hostnum
      weights = sum_hosts_mono cfg.hostnum _ _ (λ i il. ground (arith, sub i il))

      counts : host_count a weight cfg.hostnum ≤ host_count b weight cfg.hostnum
      counts = sum_hosts_mono cfg.hostnum _ _ (λ i il. ground (arith, sub i il))

      back : host_count b weight cfg.hostnum ≤ host_count a weight cfg.hostnum
      back = omega (
        arith,
        le,
        weights,
        counts,
        get_partition_score_lem a weight cfg,
        get_partition_score_lem b weight cfg,
        host_count-le a weight cfg.hostnum,
        host_count-le b weight cfg.hostnum,
        rank_or-le a weight cfg.hostnum,
        rank_or-le b weight cfg.hostnum,
      )

      same : ◌≡◌ {A = ℕ} (if is_on a j then 1 else 0) (if is_on b j then 1 else 0)
      same = sum_hosts_rigid cfg.hostnum _ _ (λ i il. ground (arith, sub i il)) back j lt

  -- What the loop has kept since it began at `s`.
  record Narrows (s t : Rows) : Type 0 where
    cleared : IsCleared cfg t
    inside : (i j : ℕ) → i < cfg.hostnum → is_on (t.row i) j ≡ true → is_on (s.row i) j ≡ true
    grown : (j : ℕ) → is_on s.removedhost j ≡ true → is_on t.removedhost j ≡ true

  remove_host-Narrows : (host : ℕ) (s : Rows) → IsCleared cfg s → Narrows s (remove_host cfg host s)
  remove_host-Narrows host s c = record {
    cleared = remove_host-IsCleared cfg host s c;
    inside = λ i j lt on. ground (arith, remove_host_lem cfg host s i j lt, on);
    grown = λ j on. unfold remove_host in ground (arith, is_on-set s.removedhost host j, on);
  }

  Narrows-trans : {s t u : Rows} → Narrows s t → Narrows t u → Narrows s u
  Narrows-trans p q = record {
    cleared = q.cleared;
    inside = λ i j lt on. p.inside i j lt (q.inside i j lt on);
    grown = λ j on. q.grown j (p.grown j on);
  }

  merge_loop-Narrows :
      (fuel : ℕ) (s : Rows) {t : Rows}
      → IsCleared cfg s
      → merge_loop cfg fuel weight s ≡ some t
      → Narrows s t × (is_all_hosts_up cfg (covered cfg t (select cfg weight t).selected) ≡ true)
  unfolding merge_loop
  merge_loop-Narrows zero s c h = cc
  merge_loop-Narrows (suc fuel) s {t} c h =
      elim (Bool-cases (is_all_hosts_up cfg (covered cfg s (select cfg weight s).selected))) [
        | inl up ↦
            let same : s ≡ t = ground (arith, h, up) in
            (
              rw (← same) (record { cleared = c; inside = λ i j lt on. on; grown = λ j on. on }),
              rw (← same) up,
            )
        | inr down ↦ elim (Option-cases (select cfg weight s).selected) [
          | inl nobody ↦ absurd (ground (arith, h, down, nobody))
          | inr (host, chosen) ↦
              let (kept, up) =
                merge_loop-Narrows fuel (remove_host cfg host s) {t = t}
                  (remove_host-IsCleared cfg host s c) (ground (arith, h, down, chosen)) in
              (Narrows-trans (remove_host-Narrows host s c) kept, up)
        ]
      ]

  -- Where the selected host reaches all that are left, they all reach one another.
  covered_clique :
      (t : Rows)
      → IsCleared cfg t
      → is_all_hosts_up cfg (covered cfg t (select cfg weight t).selected) ≡ true
      → (i j : ℕ) → i < cfg.hostnum
      → j < cfg.hostnum
      → is_on t.removedhost i ≡ false
      → is_on t.removedhost j ≡ false
      → is_on (t.row i) j ≡ true
  covered_clique t c up i j il jl fi fj = elim (Option-cases (select cfg weight t).selected) [
    | inl nobody ↦
        absurd (ground (arith, (select-Selects cfg weight t).nobody nobody i (omega arith) il, fi))
    | inr (host, chosen) ↦
        let (hl, free, min, least) = (select-Selects cfg weight t).somebody host chosen in
        let full = full_row host chosen in
        ground (
          arith,
          full j jl fj,
          score_rigid (t.row i) (t.row host) (λ m ml on. full m ml (free_of i m il on))
              (least i (omega arith) il fi) j jl,
        )
  ]
    where
      free_of :
          (k m : ℕ) → k < cfg.hostnum → is_on (t.row k) m ≡ true → is_on t.removedhost m ≡ false
      free_of k m kl on = ground (arith, c.column k m kl, on)

      full_row :
          (host : ℕ)
          → (select cfg weight t).selected ≡ some host
          → (m : ℕ) → m < cfg.hostnum
          → is_on t.removedhost m ≡ false
          → is_on (t.row host) m ≡ true
      full_row host chosen m ml free = ground (
        arith,
        free,
        is_on-union (t.row host) t.removedhost m,
        (is_all_hosts_up_iff cfg (covered cfg t (some host))).0 (rw chosen at up) m ml,
      )

-- The hosts without access to the state file are removed first.
record WithoutSf (cfg : Config) (my_sfdomain : HostMap) (row : ℕ → HostMap) (k : ℕ) (s : Rows)
    : Type 0 where
  cleared : IsCleared cfg s
  gone : (j : ℕ) → j < k → is_on my_sfdomain j ≡ false → is_on s.removedhost j ≡ true
  inside : (i j : ℕ) → i < cfg.hostnum → is_on (s.row i) j ≡ true → is_on (row i) j ≡ true

remove_without_sf-WithoutSf :
    (cfg : Config) (my_sfdomain : HostMap) (row : ℕ → HostMap)
    → WithoutSf cfg my_sfdomain row cfg.hostnum (remove_without_sf cfg my_sfdomain row)
unfolding remove_without_sf
remove_without_sf-WithoutSf cfg my_sfdomain row =
    for_hosts_inv (WithoutSf cfg my_sfdomain row) cfg.hostnum
      (λ index s. if is_on my_sfdomain index then s else remove_host cfg index s)
      (record { row = row; removedhost = init_reset })
      (record {
        cleared = record {
          own_row = λ i j lt gone. absurd (ground (arith, is_on-init_reset i));
          column = λ i j lt gone. absurd (ground (arith, is_on-init_reset j));
        };
        gone = λ j jl. absurd (omega arith);
        inside = λ i j lt on. on;
      })
      (λ k s lt h. elim (Bool-cases (is_on my_sfdomain k)) [
        | inl on ↦ rw on (record {
          cleared = h.cleared;
          gone = λ j jl off. ground (arith, on, off, h.gone j);
          inside = h.inside;
        })
        | inr out ↦ rw out (record {
          cleared = remove_host-IsCleared cfg k s h.cleared;
          gone = λ j jl off. ground (arith, off, h.gone j, remove_host-removedhost cfg k s j);
          inside = λ i j il on. ground (arith, on, h.inside i j il, remove_host_lem cfg k s i j il);
        })
      ])

-- With at most 64 configured hosts, the computation of a view ends within one round more than there
-- are hosts. The row of a host that it keeps has exactly the hosts that it keeps, and the row of
-- another host is empty; every host that it keeps has access to the state file, and a host is in a
-- row only if it was there before.
pub merge_loop_clique :
    (cfg : Config) (weight : ℕ → ℕ) (my_sfdomain : HostMap) (row : ℕ → HostMap)
    → cfg.hostnum ≤ max_host_num
    → (t : Rows) × (merge_loop cfg (suc cfg.hostnum) weight (remove_without_sf cfg my_sfdomain row)
        ≡ some t)
      × ((i j : ℕ)
          → i < cfg.hostnum
          → j < cfg.hostnum
          → is_on (t.row i) j ≡ (not (is_on t.removedhost i) && not (is_on t.removedhost j)))
      × ((j : ℕ) → j < cfg.hostnum → is_on t.removedhost j ≡ false → is_on my_sfdomain j ≡ true)
      × ((i j : ℕ) → i < cfg.hostnum → is_on (t.row i) j ≡ true → is_on (row i) j ≡ true)
merge_loop_clique cfg weight my_sfdomain row few =
    let s = remove_without_sf cfg my_sfdomain row in
    let begun = remove_without_sf-WithoutSf cfg my_sfdomain row in
    let (t, e) =
      merge_loop_total cfg weight (suc cfg.hostnum) s (omega (arith, remaining-le cfg weight s)) in
    let (kept, up) =
      merge_loop-Narrows cfg weight few (suc cfg.hostnum) s {t = t} begun.cleared e in
    (
      t,
      e,
      λ i j il jl. elim (Bool-cases (is_on t.removedhost i)) [
        | inl own ↦ ground (arith, own, kept.cleared.own_row i j il own)
        | inr free ↦ elim (Bool-cases (is_on t.removedhost j)) [
          | inl out ↦ ground (arith, out, kept.cleared.column i j il)
          | inr left ↦
              ground
                (arith, free, left, covered_clique cfg weight few t kept.cleared up i j il jl free)
        ]
      ],
      λ j lt free. ground (arith, free, begun.gone j lt, kept.grown j),
      λ i j lt on. begun.inside i j lt (kept.inside i j lt on),
    )
