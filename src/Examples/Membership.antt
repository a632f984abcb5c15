-- ===== src/Examples/Membership.antt =====
-- The theorems on hosts' maps, partitions and views, at concrete pools.
use xha.Prelude.{ℕ, ◌<◌, ◌≡◌, refl, true, false, none, some, arith, ◌==◌, if◌then◌else◌, [], ◌∷◌}
use xha.Prelude.Hosts.{for_hosts, all_hosts}
use xha.HostMap.{HostMap, is_on}
use xha.Sm.Membership.{is_empty_liveset}
use xha.Sm.Partition.{
  get_partition_size, size_step, partition_size, winner_step, find_winner,
  am_i_in_largest_partition,
}
use xha.Sm.Partition.Agreement.{Pool, Sees, Reaches, largest_partition_agreement}
use xha.Sm.View.{Rows, merge_loop, remove_without_sf}
use xha.Sm.View.Clique.{merge_loop_clique}
use xha.Prelude.Int.{pos, ◌-ℤ◌}
use xha.Sm.Consistent.{Rounds, wait_until_all_hosts_have_consistent_view}
use xha.Sm.Consistent.Result.{wait_until_all_hosts_have_consistent_view_lem}
use xha.Data.{Daemon}
use xha.Examples.{hosts, cfg_of, raw_of, hb_of, sf_of, daemon_of}

abbrev pool : Pool
pool = record { sfdomains = λ i. hosts 3; hbdomains = λ i. hosts 3 }

sees : (i : ℕ) → Sees pool i (hb_of 3 (λ j. raw_of 3)) (sf_of 3 (λ j. raw_of 3))
sees i = record { own_sf = refl; own_hb = refl; other_sf = λ j ne. refl; other_hb = λ j ne. refl }

largest_partition_agreement_example :
    (winner : ℕ) × (winner < 2) × Reaches pool winner 0 × Reaches pool winner 1
unfolding am_i_in_largest_partition find_winner for_hosts winner_step partition_size
    get_partition_size size_step is_on is_empty_liveset all_hosts
largest_partition_agreement_example =
    let (w, found_a, found_b, lt, some_size, most, first, ra, rb) =
      largest_partition_agreement (cfg_of 2) pool none (sees 0) (sees 1) refl refl refl in
    (w, lt, ra, rb)

-- Host 2 does not hear host 1.
abbrev rows : ℕ → HostMap
rows i = if i == 2 then hosts 5 else hosts 7

merge_loop_clique_example :
    (t : Rows) × (merge_loop (cfg_of 3) 4 (λ i. 1) (remove_without_sf (cfg_of 3) (hosts 7) rows)
      ≡ some t)
merge_loop_clique_example =
    let (t, e, clique, kept, inside) =
      merge_loop_clique (cfg_of 3) (λ i. 1) (hosts 7) rows (omega arith) in
    (t, e)

-- The clock passes the limit at the second comparison.
abbrev late_rounds : Rounds
late_rounds = (pos 200, λ d. d) ∷ (pos 40200, λ d. d) ∷ []

wait_until_all_hosts_have_consistent_view_example :
    (e : Daemon) × (wait_until_all_hosts_have_consistent_view
        (cfg_of 3)
        (pos 40000)
        (pos 100)
        late_rounds
        (daemon_of 7 5 false)
      ≡ some (true, e))
unfolding ◌-ℤ◌
wait_until_all_hosts_have_consistent_view_example =
    let (consistent, d, e, seen, answer, kept, agreed, merged) =
      wait_until_all_hosts_have_consistent_view_lem (cfg_of 3) (omega arith) (omega arith)
        (pos 40000) (pos 100) (pos 40200) (λ d. d) ((pos 200, λ d. d) ∷ []) (daemon_of 7 5 false)
        refl in
    (e, answer)
