-- ===== src/Examples/Weight.antt =====
-- The theorems on host weights at a concrete table and a concrete format.
use xha.Prelude.{
  ℕ, suc, ◌+◌, ◌-◌, ◌≤◌, ◌≡◌, refl, inl, inr, [], ◌∷◌, ◌++◌, false, Option, some, none, ◌==◌,
  if◌then◌else◌, arith,
}
use xha.HostWeight.{
  Str, str_eq, Entry, Table, empty_entry, zero_table, set_hostweight_table, hostweight_get_weight,
  hostweight_set_sm,
}
use xha.HostWeight.Text.{length, read_hostweight_file, write_hostweight_file}
use xha.HostWeight.Table.{IsUnique, IsFresh}
use xha.HostWeight.Refine.{set_hostweight_table_refines, IsRefined}
use xha.HostWeight.Weight.{table_size, IsBounded, hostweight_set_sm-IsBounded}
use xha.HostWeight.RoundTrip.{IsLine, IsGraph, IsWritable, IsFormat}
use xha.HostWeight.Persist.{read-write_hostweight_file}
use xha.Examples.{daemon_of}

abbrev db_name : Str
db_name = 100 ∷ 98 ∷ []

abbrev vm_name : Str
vm_name = 118 ∷ 109 ∷ []

abbrev entry_of : Str → ℕ → Entry
entry_of n w = record { classname = n; weight = w }

abbrev two_classes : Table
two_classes = entry_of db_name 7 ∷ empty_entry ∷ entry_of vm_name 3 ∷ []

two_classes-IsUnique : IsUnique two_classes
unfolding IsUnique IsFresh
two_classes-IsUnique =
    (inr (λ e. absurd (ground arith), (λ e. absurd (ground arith), tt)), (inl refl, (inr tt, tt)))

set_hostweight_table_refines_example :
    IsRefined two_classes vm_name 0 (set_hostweight_table two_classes vm_name 0)
set_hostweight_table_refines_example =
    set_hostweight_table_refines two_classes vm_name 0 two_classes-IsUnique
      (λ e. absurd (ground arith))

abbrev print_line : Str → ℕ → Str
print_line n w = n ++ 32 ∷ (w + 48) ∷ []

scan_from : Str → Option (Str × ℕ)
scan_from [] = none
scan_from (c ∷ []) = none
scan_from (c ∷ d ∷ s) =
    if c == 32
    then some ([], d - 48)
    else elim (scan_from (d ∷ s)) [ some (n, w) ↦ some (c ∷ n, w) | none ↦ none ]

length-print_line : (n : Str) (w : ℕ) → length (print_line n w) ≡ length n + 2
unfolding length
length-print_line [] w = refl
length-print_line (c ∷ n) w = omega (arith, length-print_line n w)

print_line-IsLine : (n : Str) (w : ℕ) → IsGraph n → IsLine (print_line n w)
unfolding IsGraph IsLine
print_line-IsLine [] w h = (ground arith, ground arith, (ground arith, ground arith, tt))
print_line-IsLine (c ∷ n) w h =
    (ground (arith, h.0), ground (arith, h.0), print_line-IsLine n w h.2)

scan_from-print_line : (n : Str) (w : ℕ) → IsGraph n → scan_from (print_line n w) ≡ some (n, w)
unfolding IsGraph scan_from
scan_from-print_line [] w h = ground arith
scan_from-print_line (c ∷ []) w h = ground (arith, h.0)
scan_from-print_line (c ∷ d ∷ n) w h = ground (arith, h.0, scan_from-print_line (d ∷ n) w h.2)

abbrev print_entry : Str → ℕ → Str
print_entry n w = print_line n w ++ 10 ∷ []

print_entry-IsFormat : IsFormat print_entry scan_from
unfolding scan_from
print_entry-IsFormat = record {
  body = print_line;
  prints = λ n w. refl;
  line = print_line-IsLine;
  short = λ n w low. omega (arith, length-print_line n w);
  scans = λ n w given graph low. scan_from-print_line n w graph;
  scans_nothing = refl;
}

two_classes-IsWritable : IsWritable two_classes
unfolding IsWritable IsGraph length
two_classes-IsWritable = (
  omega arith,
  (omega arith, omega arith, (omega arith, omega arith, tt)),
  omega arith,
  (
    omega arith,
    tt,
    omega arith,
    (omega arith, (omega arith, omega arith, (omega arith, omega arith, tt)), omega arith, tt),
  ),
)

read-write_hostweight_file_example :
    hostweight_get_weight
      (read_hostweight_file 8192 print_entry scan_from
        (write_hostweight_file 8192 print_entry scan_from two_classes)
        3)
      vm_name
    ≡ 3
unfolding hostweight_get_weight str_eq table_size
read-write_hostweight_file_example =
    (read-write_hostweight_file 8192 print_entry scan_from (omega arith) print_entry-IsFormat
        two_classes two_classes-IsWritable (omega arith)).0
      vm_name (λ e. absurd (ground arith))

zero_table-IsBounded : (size : ℕ) → IsBounded (zero_table size)
unfolding IsBounded zero_table
zero_table-IsBounded ℕ.zero = tt
zero_table-IsBounded (suc size) = (omega arith, zero_table-IsBounded size)

sixteen_classes : Table
sixteen_classes = entry_of db_name 65535 ∷ entry_of vm_name 3 ∷ zero_table 14

hostweight_set_sm-IsBounded_example :
    (hostweight_set_sm sixteen_classes (daemon_of 3 3 false).sm).weight ≤ 1048561
unfolding sixteen_classes zero_table IsBounded table_size
hostweight_set_sm-IsBounded_example =
    (hostweight_set_sm-IsBounded sixteen_classes (daemon_of 3 3 false).sm refl
      (omega arith, (omega arith, zero_table-IsBounded 14))).2
