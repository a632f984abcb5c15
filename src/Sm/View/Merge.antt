-- ===== src/Sm/View/Merge.antt =====
-- The loop that looks for a partition in wait_until_all_hosts_have_consistent_view of daemon/sm.c:
-- its rounds, its end, and what it does to the rows.
use xha.Prelude.{
  ℕ, zero, suc, ◌<◌, ◌≤◌, ◌≡◌, true, false, not, ◌&&◌, ◌||◌, ◌==◌, ltb, if◌then◌else◌, arith,
  Bool-cases, Option-cases, inl, inr, none, some, ℕ_discrete,
}
use xha.Prelude.Hosts.{
  update, for_hosts_inv, for_hosts_down_inv, sum_hosts, sum_hosts_lt, sum_hosts_le_mul,
}
use xha.HostMap.{reset, is_on, init_reset}
use xha.HostMap.Laws.{is_on-set, is_on-reset, is_on-init_reset}
use xha.Config.{Config}
use xha.Sm.Membership.{is_all_hosts_up}
use xha.Sm.Membership.Tests.{is_all_hosts_up-false}
use xha.Sm.Partition.{get_partition_score}
use xha.Sm.View.{Rows, Selection, select_step, remove_host, select, covered, merge_loop}

module _ (cfg : Config) where
  -- Clearing a host clears its row and its column, of the configured hosts, and nothing else.
  pub remove_host_lem :
      (host : ℕ) (s : Rows) (i j : ℕ)
      → i < cfg.hostnum
      → is_on ((remove_host cfg host s).row i) j
        ≡ (is_on (s.row i) j && not (i == host) && not (j == host))
  unfolding remove_host
  remove_host_lem host s i j lt = ground (
    arith,
    is_on-init_reset j,
    for_hosts_inv
        (λ k r.
          (m : ℕ)
          → is_on (r m) j
            ≡ (is_on (update s.row host init_reset m) j && (not (ltb m k) || not (j == host))))
        cfg.hostnum (λ index r. update r index (reset (r index) host))
        (update s.row host init_reset) (λ m. ground arith)
        (λ k r il h m. ground (arith, h m, is_on-reset (r k) host j)) i,
  )

  -- The rows of configured hosts name no removed host, and a removed host has an empty row.
  pub record IsCleared (s : Rows) : Type 0 where
    pub own_row :
        (i j : ℕ) → i < cfg.hostnum → is_on s.removedhost i ≡ true → is_on (s.row i) j ≡ false
    pub column :
        (i j : ℕ) → i < cfg.hostnum → is_on s.removedhost j ≡ true → is_on (s.row i) j ≡ false

  pub remove_host-removedhost :
      (host : ℕ) (s : Rows) (m : ℕ)
      → is_on (remove_host cfg host s).removedhost m ≡ ((host == m) || is_on s.removedhost m)
  unfolding remove_host
  remove_host-removedhost host s m = is_on-set s.removedhost host m

  pub remove_host-IsCleared :
      (host : ℕ) (s : Rows) → IsCleared s → IsCleared (remove_host cfg host s)
  remove_host-IsCleared host s c = record {
    own_row = λ i j lt gone. ground (
      arith,
      remove_host_lem host s i j lt,
      c.own_row i j lt,
      remove_host-removedhost host s i,
      gone,
    );
    column = λ i j lt gone. ground (
      arith,
      remove_host_lem host s i j lt,
      c.column i j lt,
      remove_host-removedhost host s j,
      gone,
    );
  }

module _ (cfg : Config) (weight : ℕ → ℕ) where
  abbrev pub score_of : Rows → ℕ → ℕ
  score_of s i = get_partition_score cfg (s.row i) weight

  -- What the selection knows after the hosts from `k` on.
  pub record Selects (s : Rows) (k : ℕ) (sel : Selection) : Type 0 where
    pub nobody :
        sel.selected ≡ none → (j : ℕ) → k ≤ j → j < cfg.hostnum → is_on s.removedhost j ≡ true
    pub somebody :
        (i : ℕ)
        → sel.selected ≡ some i
        → (i < cfg.hostnum)
          × (is_on s.removedhost i ≡ false)
          × (sel.minimum ≡ score_of s i)
          × ((j : ℕ)
              → k ≤ j
              → j < cfg.hostnum
              → is_on s.removedhost j ≡ false
              → score_of s i ≤ score_of s j)

  select_step-Selects :
      (s : Rows) (k : ℕ) (sel : Selection)
      → k < cfg.hostnum
      → Selects s (suc k) sel
      → Selects s k (select_step (λ hostmap. get_partition_score cfg hostmap weight) s k sel)
  unfolding select_step
  select_step-Selects s k sel lt h = record {
    nobody = λ e j kj jn. elim (ℕ_discrete j k) [
      | yes at ↦ ground (arith, at)
      | no ne ↦ h.nobody (ground arith) j (omega arith) jn
    ];
    somebody = λ i e. elim (Bool-cases (is_on s.removedhost k)) [
      | inl gone ↦
          let (il, free, min, least) = h.somebody i (ground arith) in
          (il, free, ground arith, λ j kj jn fj. least j (ground arith) jn fj)
      | inr free ↦ elim (Option-cases sel.selected) [
        | inl nobody ↦
            let at : k ≡ i = ground arith in
            (
              omega arith,
              ground (arith, at),
              ground (arith, at),
              λ j kj jn fj. elim (ℕ_discrete j k) [
                | yes same ↦ ground (arith, at, same)
                | no ne ↦ absurd (ground (arith, h.nobody nobody j))
              ],
            )
        | inr (old, was) ↦
            let (ol, ofree, omin, oleast) = h.somebody old was in
            elim (Bool-cases (ltb (score_of s k) sel.minimum)) [
              | inl lower ↦
                  let at : k ≡ i = ground arith in
                  (
                    omega arith,
                    ground (arith, at),
                    ground (arith, at),
                    λ j kj jn fj. elim (ℕ_discrete j k) [
                      | yes same ↦ ground (arith, at, same)
                      | no ne ↦ ground (arith, at, oleast j (ground arith) jn fj)
                    ],
                  )
              | inr higher ↦
                  let at : old ≡ i = ground arith in
                  (
                    omega arith,
                    ground (arith, at),
                    ground (arith, at),
                    λ j kj jn fj. elim (ℕ_discrete j k) [
                      | yes same ↦ ground (arith, at, same)
                      | no ne ↦ ground (arith, at, oleast j (ground arith) jn fj)
                    ],
                  )
            ]
      ]
    ];
  }

  pub select-Selects : (s : Rows) → Selects s 0 (select cfg weight s)
  unfolding select
  select-Selects s =
      for_hosts_down_inv (Selects s) cfg.hostnum
        (select_step (λ hostmap. get_partition_score cfg hostmap weight) s)
        (record { selected = none; minimum = 0 })
        (record {
          nobody = λ e j kj jn. absurd (omega arith);
          somebody = λ i e. absurd (ground arith);
        })
        (select_step-Selects s)

  -- The number of hosts that have not been removed.
  abbrev pub remaining : Rows → ℕ
  remaining s = sum_hosts cfg.hostnum (λ i. if is_on s.removedhost i then 0 else 1)

  remaining-remove_host :
      (host : ℕ) (s : Rows)
      → host < cfg.hostnum
      → is_on s.removedhost host ≡ false
      → remaining (remove_host cfg host s) < remaining s
  unfolding remove_host
  remaining-remove_host host s lt free =
      sum_hosts_lt cfg.hostnum _ _ host (λ i il. ground (arith, is_on-set s.removedhost host i)) lt
        (ground (arith, free, is_on-set s.removedhost host host))

  pub remaining-le : (s : Rows) → remaining s ≤ cfg.hostnum
  remaining-le s = grind (
    arith,
    sum_hosts_le_mul cfg.hostnum 1 (λ i. if is_on s.removedhost i then 0 else 1)
        (λ i lt. ground arith),
  )

  -- With more rounds than hosts that have not been removed, the loop ends.
  pub merge_loop_total :
      (fuel : ℕ) (s : Rows)
      → remaining s < fuel
      → (t : Rows) × (merge_loop cfg fuel weight s ≡ some t)
  unfolding merge_loop
  merge_loop_total zero s h = absurd (omega arith)
  merge_loop_total (suc fuel) s h =
      elim (Bool-cases (is_all_hosts_up cfg (covered cfg s (select cfg weight s).selected))) [
        | inl up ↦ (s, ground (arith, up))
        | inr down ↦ elim (Option-cases (select cfg weight s).selected) [
          | inl nobody ↦ absurd (all_gone nobody down)
          | inr (host, chosen) ↦
              let (lt, free, min, least) = (select-Selects s).somebody host chosen in
              let (t, e) =
                merge_loop_total fuel (remove_host cfg host s)
                  (omega (arith, remaining-remove_host host s lt free)) in
              (t, ground (arith, down, chosen, e))
        ]
      ]
    where
      all_gone :
          (select cfg weight s).selected ≡ none
          → is_all_hosts_up cfg (covered cfg s (select cfg weight s).selected) ≡ false
          → ⊥
      all_gone nobody down =
          let (j, lt, off) = is_all_hosts_up-false cfg s.removedhost (rw nobody at down) in
          cc (off, (select-Selects s).nobody nobody j (omega arith) lt)
