-- ===== src/HostWeight/Refine.antt =====
-- set_hostweight_table as an operation on the finite map from names to weights.
use xha.Prelude.{
  ℕ, ◌≡◌, ◌≢◌, ◌⊎◌, inl, inr, refl, sym, subst, [], some, ◌==◌, if◌then◌else◌, arith, Option-cases,
  if-elim, ==_iff,
}
use xha.Data.{Status, success, error_weight_table_full}
use xha.HostWeight.{
  Str, str_eq, Table, overwrite, fill, add_class, set_hostweight_table, hostweight_get_weight,
}
use xha.HostWeight.Table.{
  IsFresh, IsUnique, IsFull, str_eq_iff, overwrite-none, hostweight_get_weight-IsFresh, fill-none,
  hostweight_get_weight-overwrite, hostweight_get_weight-fill, overwrite-IsUnique, fill-IsUnique,
}

add_class-IsUnique :
    (t : Table) (n : Str) (w : ℕ) → IsFresh n t → IsUnique t → IsUnique (add_class t n w).1
unfolding add_class
add_class-IsUnique t n w new h = elim (Option-cases (fill t n w)) [
  | inr (u, hit) ↦ rw hit (
      if-elim (λ (r : Status × Table). IsUnique r.1) (w == 0) (λ z. h)
        (λ z. fill-IsUnique t u n w hit new h))
  | inl full ↦ rw full (if-elim (λ (r : Status × Table). IsUnique r.1) (w == 0) (λ z. h) (λ z. h))
]

-- What holds of both ways through set_hostweight_table.
set_hostweight_table_cases {κ} :
    (P : Status × Table → Type κ) (t : Table) (n : Str) (w : ℕ)
    → ((u : Table) → overwrite t n w ≡ some u → P (success, u))
    → (IsFresh n t → P (add_class t n w))
    → P (set_hostweight_table t n w)
unfolding set_hostweight_table
set_hostweight_table_cases P t n w found new = elim (Option-cases (overwrite t n w)) [
  | inr (u, hit) ↦
      let step : set_hostweight_table t n w ≡ (success, u) = ground arith in
      subst P (sym step) (found u hit)
  | inl miss ↦
      let step : set_hostweight_table t n w ≡ add_class t n w = ground arith in
      subst P (sym step) (new (overwrite-none t n w miss))
]

-- set_hostweight_table keeps the names of the table apart.
pub set_hostweight_table-IsUnique :
    (t : Table) (n : Str) (w : ℕ) → IsUnique t → IsUnique (set_hostweight_table t n w).1
set_hostweight_table-IsUnique t n w h =
    set_hostweight_table_cases (λ r. IsUnique r.1) t n w (λ u hit. overwrite-IsUnique t u n w hit h)
      (λ new. add_class-IsUnique t n w new h)

-- The finite map that differs from `f` at one name.
abbrev pub update_map : (Str → ℕ) → Str → ℕ → Str → ℕ
update_map f n w m = if str_eq n m then w else f m

-- The table stands for a finite map that is changed at one name, or is full.
abbrev pub IsRefined : Table → Str → ℕ → Status × Table → Type 0
IsRefined t n w (rs, u) =
    ((rs ≡ success)
      × ((m : Str)
          → m ≢ []
          → hostweight_get_weight u m ≡ update_map (hostweight_get_weight t) n w m))
    ⊎ ((rs ≡ error_weight_table_full) × (u ≡ t) × (w ≢ 0) × IsFresh n t × IsFull t)

add_class-IsRefined :
    (t : Table) (n : Str) (w : ℕ) → IsFresh n t → IsRefined t n w (add_class t n w)
unfolding add_class
add_class-IsRefined t n w new =
    if-elim (IsRefined t n w) (w == 0)
      (λ z. inl (
        refl,
        λ m asked. ground (arith, ==_iff w 0, str_eq_iff n m, hostweight_get_weight-IsFresh t n),
      ))
      (λ nz. elim (Option-cases (fill t n w)) [
        | inr (u, hit) ↦ rw hit (inl (refl, λ m. hostweight_get_weight-fill t u n m w new hit))
        | inl full ↦
            rw full (inr (refl, refl, ground (arith, ==_iff w 0), new, (fill-none t n w).0 full))
      ])

-- In a table whose names are apart, set_hostweight_table with a name refines the update of the map
-- from names to weights that hostweight_get_weight reads: it succeeds, and then every name has the
-- weight of the updated map; or it answers that the table is full and leaves it, and then the
-- weight is not 0, the name was not in the table, and every entry of it is taken.
pub set_hostweight_table_refines :
    (t : Table) (n : Str) (w : ℕ)
    → IsUnique t
    → n ≢ []
    → IsRefined t n w (set_hostweight_table t n w)
set_hostweight_table_refines t n w h named =
    set_hostweight_table_cases (IsRefined t n w) t n w
      (λ u hit. inl (refl, λ m. hostweight_get_weight-overwrite t u n m w h hit named))
      (add_class-IsRefined t n w)
