-- ===== src/HostWeight/Weight.antt =====
-- The weight of this host, the sum that calc_hostweight makes of the table.
use xha.Prelude.{ℕ, ◌+◌, ◌*◌, ◌^◌, ◌≤◌, ◌<◌, ◌≡◌, [], ◌∷◌, if◌then◌else◌, arith, suc}
use xha.Data.{ComSm}
use xha.HostWeight.{
  str_eq, Table, add_weights, calc_hostweight, hostweight_set_sm, max_host_weight_class_num,
  max_host_weight_value,
}

unfoldable pub table_size : Table → ℕ
table_size [] = 0
table_size (e ∷ t) = suc (table_size t)

-- No weight exceeds MAX_HOST_WEIGHT_VALUE, as weightctl sees to.
unfoldable pub IsBounded : Table → Type 0
IsBounded [] = Unit
IsBounded (e ∷ t) = (e.weight ≤ max_host_weight_value) × IsBounded t

-- The sum of the weights of the classes, without a word's wrap.
unfoldable pub total_weight : Table → ℕ
total_weight [] = 0
total_weight (e ∷ t) = (if str_eq e.classname [] then 0 else e.weight) + total_weight t

total_weight-IsBounded :
    (t : Table) → IsBounded t → total_weight t ≤ table_size t * max_host_weight_value
unfolding total_weight IsBounded table_size
total_weight-IsBounded [] h = omega arith
total_weight-IsBounded (e ∷ t) h = ground (arith, total_weight-IsBounded t h.1)

add_weights_exact :
    (t : Table) (acc : ℕ) → acc + total_weight t < 2 ^ 32 → add_weights acc t ≡ acc + total_weight t
unfolding add_weights total_weight
add_weights_exact [] acc h = omega arith
add_weights_exact (e ∷ t) acc h =
    ground (arith, add_weights_exact t acc, add_weights_exact t (acc + e.weight))

-- With no weight over MAX_HOST_WEIGHT_VALUE, in a table of MAX_HOST_WEIGHT_CLASS_NUM entries the
-- sum that hostweight_set_sm puts into the State Manager's object is exact: one more than the
-- weights of the classes together, from 1 to 1048561.
pub hostweight_set_sm-IsBounded :
    (t : Table) (sm : ComSm)
    → table_size t ≡ max_host_weight_class_num
    → IsBounded t
    → let w = (hostweight_set_sm t sm).weight in (w ≡ 1 + total_weight t) × (1 ≤ w) × (w ≤ 1048561)
unfolding hostweight_set_sm calc_hostweight
hostweight_set_sm-IsBounded t sm size h =
    let exact : add_weights 1 t ≡ 1 + total_weight t =
      add_weights_exact t 1 (omega (arith, total_weight-IsBounded t h)) in
    let small : total_weight t ≤ 16 * 65535 = omega (arith, total_weight-IsBounded t h) in
    let w : (hostweight_set_sm t sm).weight ≡ add_weights 1 t = ground arith in
    (omega arith, omega arith, omega arith)
