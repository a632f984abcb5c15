-- ===== src/Sm/Consistent/Result.antt =====
-- What wait_until_all_hosts_have_consistent_view of daemon/sm.c hands to the fault handler.
use xha.Prelude.{
  ℕ, ◌<◌, ◌≤◌, ◌≡◌, refl, ap, ◌∙◌, Bool, true, false, [], ◌∷◌, ◌++◌, ltb, if◌then◌else◌, arith,
  Bool-cases, inl, inr, Option, some, none, ltb_iff,
}
use xha.Prelude.Hosts.{for_hosts, for_hosts_inv}
use xha.HostMap.{HostMap, is_on, intersection, max_host_num}
use xha.HostMap.Sets.{is_on-intersection}
use xha.Config.{Config}
use xha.Data.{RawData, SmVar, Daemon}
use xha.Sm.View.{Rows}
use xha.Sm.View.Clique.{merge_loop_clique}
use xha.Prelude.Int.{ℤ, ◌-ℤ◌, leb_ℤ}
use xha.Sm.Consistent.{
  map_raw, cut_raw, put_rows, clear_lost, finish_view, merge_view, compare_views, compare_until,
  Rounds, after_comparison, wait_until_all_hosts_have_consistent_view,
}

-- A loop that maps each host's data.
for_hosts-map_raw :
    (n : ℕ) (f : RawData → RawData) (raw : ℕ → RawData) (i : ℕ)
    → for_hosts n (map_raw f) raw i ≡ (if ltb i n then f (raw i) else raw i)
for_hosts-map_raw n f raw i =
    for_hosts_inv (λ k (r : ℕ → RawData). (i : ℕ) → r i ≡ (if ltb i k then f (raw i) else raw i)) n
      (map_raw f) raw (λ j. ground arith) (λ k r lt h j. ground (arith, h j)) i

module _ (cfg : Config) (few : cfg.hostnum ≤ max_host_num) (mine : cfg.my_index < cfg.hostnum) where
  -- The hosts of the heartbeat domain of a merged view are in its state-file domain and in the
  -- liveset.
  abbrev Merged : HostMap → SmVar → Type 0
  Merged liveset v =
      (j : ℕ)
      → j < cfg.hostnum
      → is_on v.stable_hb.hbdomain j ≡ true
      → (is_on v.stable_sf.sfdomain j ≡ true) × (is_on liveset j ≡ true)

  finish_view-hbdomain :
      (liveset sfdomain : HostMap) (t : Rows) (v : SmVar)
      → (finish_view cfg liveset sfdomain t v).stable_hb.hbdomain
        ≡ intersection (t.row cfg.my_index) liveset
  finish_view-hbdomain liveset sfdomain t v = simp (
    for_hosts-map_raw cfg.hostnum (cut_raw liveset) (put_rows t v) cfg.my_index,
    (ltb_iff cfg.my_index cfg.hostnum).1 mine,
  )

  merge_view-Merged :
      (liveset sfdomain : HostMap) (v : SmVar)
      → (w : SmVar) × (merge_view cfg liveset (sfdomain, v) ≡ some w) × Merged liveset w
  unfolding merge_view
  merge_view-Merged liveset sfdomain v =
      let (t, e, clique, kept, inside) =
        merge_loop_clique cfg v.stable_sf.weight sfdomain (λ i. (v.stable_sf.raw i).hbdomain) few in
      (
        finish_view cfg liveset sfdomain t v,
        ap
            (λ (r : Option Rows). elim r [
              | none ↦ none
              | some rows ↦ some (finish_view cfg liveset sfdomain rows v)
            ])
            e,
        λ j jl on.
            let both : is_on (intersection (t.row cfg.my_index) liveset) j ≡ true =
              ground (arith, on, finish_view-hbdomain liveset sfdomain t v) in
            (
              ground (
                arith,
                both,
                is_on-intersection (t.row cfg.my_index) liveset j,
                clique cfg.my_index j mine jl,
                kept j jl,
              ),
              ground (arith, both, is_on-intersection (t.row cfg.my_index) liveset j),
            ),
      )

  -- The comparisons end if the clock is found past the limit after one of them.
  compare_until_ends :
      (timeout start now : ℤ) (wake : Daemon → Daemon) (rounds : Rounds) (d : Daemon)
      → leb_ℤ timeout (now -ℤ start) ≡ true
      → (r : Bool × Daemon) × (compare_until cfg timeout start (rounds ++ (now, wake) ∷ []) d
          ≡ some r)
  unfolding compare_until
  compare_until_ends timeout start now wake [] d late = elim (Bool-cases (compare_views cfg d).0) [
    | inl ok ↦ ((true, (compare_views cfg d).1), rw ok refl)
    | inr bad ↦ ((false, (compare_views cfg d).1), rw (bad, late) refl)
  ]
  compare_until_ends timeout start now wake ((at, w) ∷ rounds) d late =
      let d' = (compare_views cfg d).1 in
      let (r, e) = compare_until_ends timeout start now wake rounds (w d') late in
      elim (Bool-cases (compare_views cfg d).0) [
        | inl ok ↦ ((true, d'), rw ok refl)
        | inr bad ↦ elim (Bool-cases (leb_ℤ timeout (at -ℤ start))) [
          | inl up ↦ ((false, d'), rw (bad, up) refl)
          | inr more ↦ (r, rw (bad, more) e)
        ]
      ]

  -- What follows the comparisons answers TRUE.
  abbrev Answers : Bool × Daemon → Daemon → Type 0
  Answers (consistent, d') e =
      (after_comparison cfg (some (consistent, d')) ≡ some (true, e))
      × (e.sm.current_liveset ≡ d'.sm.current_liveset)
      × (consistent ≡ true
          → (e.var.stable_hb.hbdomain ≡ d'.hb.hbdomain)
            × (e.var.stable_sf.sfdomain ≡ d'.sf.sfdomain))
      × (consistent ≡ false
          → (j : ℕ) → j < cfg.hostnum
          → is_on e.var.stable_hb.hbdomain j ≡ true
          → (is_on e.var.stable_sf.sfdomain j ≡ true) × (is_on e.sm.current_liveset j ≡ true))

  after_comparison-Answers : (r : Bool × Daemon) → (e : Daemon) × Answers r e
  unfolding after_comparison
  after_comparison-Answers (consistent, d') =
      let stable : SmVar = record (d'.var) { stable_hb = d'.hb; stable_sf = d'.sf } in
      let liveset = d'.sm.current_liveset in
      let lost =
        clear_lost cfg liveset (intersection d'.hb.hbdomain liveset)
          (intersection d'.sf.sfdomain liveset) stable in
      let (w, e, merged) = merge_view-Merged liveset lost.0 lost.1 in
      elim (Bool-cases consistent) [
        | inl ok ↦ (
          record d' { var = stable },
          (simp ok, refl, λ good. (refl, refl), λ bad. absurd (ground (arith, ok, bad))),
        )
        | inr gave_up ↦ (
          record d' { var = w },
          (simp (gave_up, e), refl, λ good. absurd (ground (arith, gave_up, good)), λ bad. merged),
        )
      ]

  -- On a configured host of a pool of at most 64 hosts, when the signals that the wait without a
  -- limit needs keep coming until the clock, read after a comparison, is past the limit, the wait
  -- for a consistent view ends, and it answers TRUE whether the views have come to agree or not.
  -- The liveset is the one that was compared last. If the views agree, the stable domains are the
  -- domains that were compared; if not, the merged heartbeat domain is within the merged state-file
  -- domain and within the liveset, on the configured hosts.
  pub wait_until_all_hosts_have_consistent_view_lem :
      (timeout start now : ℤ) (wake : Daemon → Daemon) (rounds : Rounds) (d : Daemon)
      → leb_ℤ timeout (now -ℤ start) ≡ true
      → (consistent : Bool) × (d' : Daemon) × (e : Daemon) × (compare_until cfg timeout start
            (rounds ++ (now, wake) ∷ [])
            d
          ≡ some (consistent, d'))
        × (wait_until_all_hosts_have_consistent_view cfg timeout start
              (rounds ++ (now, wake) ∷ [])
              d
            ≡ some (true, e))
        × (e.sm.current_liveset ≡ d'.sm.current_liveset)
        × (consistent ≡ true
            → (e.var.stable_hb.hbdomain ≡ d'.hb.hbdomain)
              × (e.var.stable_sf.sfdomain ≡ d'.sf.sfdomain))
        × (consistent ≡ false
            → (j : ℕ) → j < cfg.hostnum
            → is_on e.var.stable_hb.hbdomain j ≡ true
            → (is_on e.var.stable_sf.sfdomain j ≡ true) × (is_on e.sm.current_liveset j ≡ true))
  unfolding wait_until_all_hosts_have_consistent_view
  wait_until_all_hosts_have_consistent_view_lem timeout start now wake rounds d late =
      let ((consistent, d'), seen) = compare_until_ends timeout start now wake rounds d late in
      let (e, (answer, kept, agreed, merged)) = after_comparison-Answers (consistent, d') in
      (consistent, d', e, seen, ap (after_comparison cfg) seen ∙ answer, kept, agreed, merged)
