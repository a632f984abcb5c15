-- ===== src/HostWeight/Persist.antt =====
-- What a table means, its weights by name and their sum, outlives a write and a read of the file.
use xha.Prelude.{
  ℕ, zero, suc, ◌+◌, ◌%◌, ◌^◌, ◌≤◌, ◌≡◌, ◌≢◌, refl, [], ◌∷◌, Option, arith, Bool-cases, inl, inr,
}
use xha.HostWeight.{
  Str, str_eq, Table, hostweight_get_weight, add_weights, calc_hostweight,
  max_host_weight_class_num,
}
use xha.HostWeight.Text.{read_hostweight_file, write_hostweight_file}
use xha.HostWeight.Table.{str_eq_iff}
use xha.HostWeight.Weight.{table_size}
use xha.HostWeight.RoundTrip.{IsWritable, IsFormat, named, fill_up, read-write}

hostweight_get_weight-nothing :
    (m : Str) (size : ℕ) → m ≢ [] → hostweight_get_weight (fill_up size []) m ≡ 0
unfolding hostweight_get_weight fill_up
hostweight_get_weight-nothing m zero asked = refl
hostweight_get_weight-nothing m (suc size) asked =
    ground (arith, str_eq_iff [] m, hostweight_get_weight-nothing m size asked)

hostweight_get_weight-fill_up :
    (t : Table) (m : Str) (size : ℕ)
    → m ≢ []
    → table_size t ≤ size
    → hostweight_get_weight (fill_up size (named t)) m ≡ hostweight_get_weight t m
unfolding hostweight_get_weight fill_up named table_size
hostweight_get_weight-fill_up [] m size asked fits = hostweight_get_weight-nothing m size asked
hostweight_get_weight-fill_up (e ∷ t) m zero asked fits = absurd (omega arith)
hostweight_get_weight-fill_up (e ∷ t) m (suc size) asked fits =
    elim (Bool-cases (str_eq e.classname [])) [
      | inl nameless ↦ rw nameless (
          ground (
            arith,
            str_eq_iff e.classname [],
            str_eq_iff e.classname m,
            hostweight_get_weight-fill_up t m (suc size) asked (omega arith),
          ))
      | inr given ↦
          rw given (ground (arith, hostweight_get_weight-fill_up t m size asked (omega arith)))
    ]

add_weights-nothing : (acc size : ℕ) → add_weights acc (fill_up size []) ≡ acc
unfolding add_weights fill_up str_eq
add_weights-nothing acc zero = refl
add_weights-nothing acc (suc size) = add_weights-nothing acc size

add_weights-fill_up :
    (t : Table) (acc size : ℕ)
    → table_size t ≤ size
    → add_weights acc (fill_up size (named t)) ≡ add_weights acc t
unfolding add_weights fill_up named table_size
add_weights-fill_up [] acc size fits = add_weights-nothing acc size
add_weights-fill_up (e ∷ t) acc zero fits = absurd (omega arith)
add_weights-fill_up (e ∷ t) acc (suc size) fits = elim (Bool-cases (str_eq e.classname [])) [
  | inl nameless ↦ rw nameless (add_weights-fill_up t acc (suc size) (omega arith))
  | inr given ↦
      rw given (rw given (add_weights-fill_up t ((acc + e.weight) % 2 ^ 32) size (omega arith)))
]

-- When sprintf and sscanf treat a class and its weight as C promises and BUFSIZ is at least 6, a
-- table of at most MAX_HOST_WEIGHT_CLASS_NUM entries whose names and weights weightctl takes comes
-- back from the file that write_hostweight_file writes: read_hostweight_file gives every name its
-- weight, and the weight of the host is the same.
pub read-write_hostweight_file :
    (bufsiz : ℕ) (sprintf : Str → ℕ → Str) (sscanf : Str → Option (Str × ℕ))
    → 6 ≤ bufsiz
    → IsFormat sprintf sscanf
    → (t : Table) → IsWritable t
    → table_size t ≤ max_host_weight_class_num
    → let back =
        read_hostweight_file bufsiz sprintf sscanf
          (write_hostweight_file bufsiz sprintf sscanf t)
          (table_size t) in
      ((m : Str) → m ≢ [] → hostweight_get_weight back m ≡ hostweight_get_weight t m)
      × (calc_hostweight back ≡ calc_hostweight t)
unfolding calc_hostweight
read-write_hostweight_file bufsiz sprintf sscanf room format t h small =
    rw (read-write bufsiz room sprintf sscanf format t h small) (
      λ m asked. hostweight_get_weight-fill_up t m (table_size t) asked (omega arith),
      add_weights-fill_up t _ (table_size t) (omega arith),
    )
