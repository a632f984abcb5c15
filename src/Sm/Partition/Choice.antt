-- ===== src/Sm/Partition/Choice.antt =====
-- The choice of the winner in am_I_in_largest_partition of daemon/sm.c.

use xha.Prelude.{ℕ, suc, ◌<◌, ◌≡◌, refl, true, false, none, some, arith, Bool-cases, inl, inr}
use xha.Prelude.Hosts.{for_hosts_inv}
use xha.Config.{Config}
use xha.Sm.Partition.{s32_gt, Winner, winner_step, find_winner}

-- What the loop knows after the hosts below `k`.
record Leads (sizes : ℕ → ℕ) (k : ℕ) (w : Winner) : Type 0 where
  most : (j : ℕ) → j < k → s32_gt (sizes j) w.winner_size ≡ false
  floor : s32_gt 0 w.winner_size ≡ false
  nobody : w.winner_index ≡ none → w.winner_size ≡ 0
  somebody :
      (i : ℕ)
      → w.winner_index ≡ some i
      → (i < k)
        × (w.winner_size ≡ sizes i)
        × (s32_gt (sizes i) 0 ≡ true)
        × ((j : ℕ) → j < i → s32_gt (sizes i) (sizes j) ≡ true)

module _ (cfg : Config) (sizes : ℕ → ℕ) where
  winner_step-Leads :
      (k : ℕ) (w : Winner)
      → k < cfg.hostnum
      → Leads sizes k w
      → Leads sizes (suc k) (winner_step sizes k w)
  unfolding winner_step
  winner_step-Leads k w lt h = record {
    most = λ j jl. ground (arith, h.most j);
    floor = ground (arith, h.floor);
    nobody = λ e. ground (arith, h.nobody);
    somebody = λ i e. elim (Bool-cases (s32_gt (sizes k) w.winner_size)) [
      | inl better ↦
          let at : k ≡ i = ground arith in
          (
            omega arith,
            ground arith,
            rw (← at) (ground (arith, h.floor)),
            λ j jl. rw (← at) (ground (arith, h.most j)),
          )
      | inr same ↦
          let (il, size, big, first) = h.somebody i (ground arith) in
          (omega arith, ground arith, big, first)
    ];
  }

  find_winner-Leads : Leads sizes cfg.hostnum (find_winner cfg sizes)
  unfolding find_winner
  find_winner-Leads =
      for_hosts_inv (Leads sizes) cfg.hostnum (winner_step sizes)
        (record { winner_index = none; winner_size = 0 })
        (record {
          most = λ j jl. absurd (omega arith);
          floor = refl;
          nobody = λ e. refl;
          somebody = λ i e. absurd (ground arith);
        })
        winner_step-Leads

  -- The winner is a configured host whose partition is not empty, is as large as any other, and is
  -- larger than that of each host before it; without a winner every partition is empty.
  pub find_winner_lem :
      ((i : ℕ)
        → (find_winner cfg sizes).winner_index ≡ some i
        → (i < cfg.hostnum)
          × (s32_gt (sizes i) 0 ≡ true)
          × ((j : ℕ) → j < cfg.hostnum → s32_gt (sizes j) (sizes i) ≡ false)
          × ((j : ℕ) → j < i → s32_gt (sizes i) (sizes j) ≡ true))
      × ((find_winner cfg sizes).winner_index ≡ none
          → (j : ℕ) → j < cfg.hostnum
          → s32_gt (sizes j) 0 ≡ false)
  find_winner_lem = (
    λ i e.
        let (lt, size, big, first) = somebody i e in
        (lt, big, λ j jl. rw (← size) (most j jl), first),
    λ e j jl. ground (arith, nobody e, most j jl),
  )
    where
      open find_winner-Leads use {most, nobody, somebody}
