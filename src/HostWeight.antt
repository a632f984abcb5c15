-- ===== src/HostWeight.antt =====
-- The table of host weights: set_hostweight_table of lib/weightio.c, and calc_hostweight,
-- hostweight_get_weight, hostweight_update, hostweight_set_sm, hostweight_reload and
-- hostweight_initialize of daemon/hostweight.c. A string is the list of its bytes, without the
-- final NUL; a table of `size` entries is a list. Only logging is left out.
pub mod Text
pub mod Table
pub mod Refine
pub mod Weight
pub mod RoundTrip
pub mod Persist
pub mod Command
use xha.Prelude.{
  ℕ, zero, suc, ◌+◌, ◌%◌, ◌^◌, Bool, true, false, ◌&&◌, List, [], ◌∷◌, Option, none, some, ◌==◌,
  if◌then◌else◌,
}
use xha.Prelude.Int.{ℤ, pos}
use xha.Data.{Status, success, error_weight_table_full, ComSm}

abbrev pub Str : Type 0
Str = List ℕ

-- strcmp finds no difference.
unfoldable pub str_eq : Str → Str → Bool
str_eq [] [] = true
str_eq [] (c ∷ t) = false
str_eq (b ∷ s) [] = false
str_eq (b ∷ s) (c ∷ t) = b == c && str_eq s t

abbrev pub max_host_weight_value : ℕ
max_host_weight_value = 65535

abbrev pub max_host_weight_classname_len : ℕ
max_host_weight_classname_len = 65

abbrev pub max_host_weight_class_num : ℕ
max_host_weight_class_num = 16

abbrev pub builtin_host_weight_value : ℕ
builtin_host_weight_value = 1

-- HOST_WEIGHT_TABLE, one entry of the table.
pub record Entry : Type 0 where
  pub classname : Str
  pub weight : ℕ

abbrev pub Table : Type 0
Table = List Entry

-- An entry after memset.
abbrev pub empty_entry : Entry
empty_entry = record { classname = []; weight = 0 }

unfoldable pub zero_table : ℕ → Table
zero_table zero = []
zero_table (suc n) = empty_entry ∷ zero_table n

-- The first loop of set_hostweight_table: the entry of the name, if there is one.
unfoldable pub overwrite : Table → Str → ℕ → Option Table
overwrite [] n w = none
overwrite (e ∷ t) n w =
    let rest = overwrite t n w in
    if str_eq e.classname n
    then some (record { classname = if w == 0 then [] else e.classname; weight = w } ∷ t)
    else elim rest [ some u ↦ some (e ∷ u) | none ↦ none ]

-- Its second loop: the first entry without a name.
unfoldable pub fill : Table → Str → ℕ → Option Table
fill [] n w = none
fill (e ∷ t) n w =
    let rest = fill t n w in
    if str_eq e.classname []
    then some (record { classname = n; weight = w } ∷ t)
    else elim rest [ some u ↦ some (e ∷ u) | none ↦ none ]

-- What set_hostweight_table does with a name that is not in the table.
unfoldable pub add_class : Table → Str → ℕ → Status × Table
add_class t n w =
    if w == 0
    then (success, t)
    else elim (fill t n w) [ some u ↦ (success, u) | none ↦ (error_weight_table_full, t) ]

unfoldable pub set_hostweight_table : Table → Str → ℕ → Status × Table
set_hostweight_table t n w = elim (overwrite t n w) [
  | some u ↦ (success, u)
  | none ↦ add_class t n w
]

unfoldable pub hostweight_get_weight : Table → Str → ℕ
hostweight_get_weight [] n = 0
hostweight_get_weight (e ∷ t) n =
    if str_eq e.classname n then e.weight else hostweight_get_weight t n

-- The loop of calc_hostweight, which adds to a 32-bit word.
unfoldable pub add_weights : ℕ → Table → ℕ
add_weights acc [] = acc
add_weights acc (e ∷ t) =
    add_weights (if str_eq e.classname [] then acc else (acc + e.weight) % 2 ^ 32) t

unfoldable pub calc_hostweight : Table → ℕ
calc_hostweight t = add_weights builtin_host_weight_value t

-- The copy of the new table over the old one, entry by entry.
unfoldable pub hostweight_update : Table → Table → Table
hostweight_update (e ∷ t) (f ∷ u) =
    record { classname = f.classname; weight = f.weight } ∷ hostweight_update t u
hostweight_update [] u = []
hostweight_update (e ∷ t) [] = e ∷ t

unfoldable pub hostweight_set_sm : Table → ComSm → ComSm
hostweight_set_sm t sm =
    if sm.weight == calc_hostweight t then sm else record sm { weight = calc_hostweight t }

-- hostweight_reload, for the results of open_hostweight_file and read_hostweight_file.
unfoldable pub hostweight_reload :
    Status → Status × Table → Table × ComSm → Status × (Table × ComSm)
hostweight_reload success (success, new) (t, sm) =
    let updated = hostweight_update t new in (success, (updated, hostweight_set_sm updated sm))
hostweight_reload success (rs, new) (t, sm) = (rs, (t, sm))
hostweight_reload rs (rs_read, new) (t, sm) = (rs, (t, sm))

-- The phases 0 and 1 of hostweight_initialize; in any other nothing is to do.
unfoldable pub hostweight_initialize :
    ℤ → Status → Status × Table → Table × ComSm → Status × (Table × ComSm)
hostweight_initialize (pos zero) rs_open rs_read (t, sm) =
    (success, (zero_table max_host_weight_class_num, sm))
hostweight_initialize (pos (suc zero)) rs_open rs_read (t, sm) =
    hostweight_reload rs_open rs_read (t, sm)
hostweight_initialize phase rs_open rs_read (t, sm) = (success, (t, sm))
