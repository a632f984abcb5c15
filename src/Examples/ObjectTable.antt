-- ===== src/Examples/ObjectTable.antt =====
-- A table of common objects with one object and two handles, and a name that is new.
use xha.Prelude.{
  ℕ, ◌≡◌, refl, sym, ◌∙◌, true, false, [], ◌∷◌, none, some, ◌==◌, if◌then◌else◌, inl, inr,
  Bool-cases, ==_iff, arith,
}
use xha.HostWeight.{Str}
use xha.Com.{Object, done, fresh_object}
use xha.Com.Table.{
  ObjectTable, CreateEnv, hash_from, calc_hash, handle_object, find_in_chain, find_common_object,
  com_create, com_close,
}
use xha.Com.Table.Valid.{count, count_handles, IsValid}
use xha.Com.Table.Close.{com_close_lem, IsClosed}
use xha.Com.Table.RoundTrip.{IsGranted, created, com_close-com_create}

-- The name "AB" and the value of an unsigned character.
abbrev ab : Str
ab = 65 ∷ 66 ∷ []

abbrev as_is : ℕ → ℕ
as_is c = c

abbrev shared_object : Object
shared_object = record (fresh_object ab (some (1 ∷ []))) { ref_count = 2 }

abbrev one_table : ObjectTable
one_table = record {
  heap = λ a. if a == 5 then some shared_object else none;
  chain = λ k. if k == calc_hash as_is ab then 5 ∷ [] else [];
  handles = (10, 5) ∷ (11, 5) ∷ [];
}

the_object : (a : ℕ) (o : Object) → one_table.heap a ≡ some o → (a ≡ 5) × (shared_object ≡ o)
the_object a o e = elim (Bool-cases (a == 5)) [
  | inl same ↦ let e' : some shared_object ≡ some o = rw same at e in ((==_iff a 5).0 same, cc)
  | inr other ↦ absurd (ground (arith, rw other at e))
]

one_table-IsValid : IsValid as_is one_table
unfolding count count_handles
one_table-IsValid = record {
  chained = λ a o e. let (at, same) = the_object a o e in rw (at, ← same) (ground arith);
  live = λ k a mem. elim (Bool-cases (k == calc_hash as_is ab)) [
    | inl hit ↦ (shared_object, ground (arith, rw hit at mem), sym ((==_iff _ _).0 hit))
    | inr miss ↦ absurd (omega (arith, rw miss at mem))
  ];
  apart = λ a b o p e f ids. (the_object a o e).0 ∙ sym ((the_object b p f).0);
  counted = λ a o e. let (at, same) = the_object a o e in rw (at, ← same) refl;
  held = λ a e. ground (arith, e);
}

com_close_lem_example :
    (o : Object) × (one_table.heap 5 ≡ some o)
    × (s' : ObjectTable) × IsClosed as_is one_table 11 5 o s'
unfolding handle_object count_handles
com_close_lem_example = com_close_lem as_is one_table 11 5 one_table-IsValid refl (omega arith)

abbrev new_name : Str
new_name = 67 ∷ []

abbrev plain_env : CreateEnv
plain_env = record {
  self = 1;
  now = 7;
  new_address = 6;
  got_object = true;
  got_id = true;
  got_buffer = true;
  new_handle = some 12;
  init_ret = 0;
  lock_ret = 0;
  unlock_ret = 0;
  between = λ s. s;
}

plain_env-IsGranted : IsGranted plain_env one_table 12
plain_env-IsGranted = record {
  object = refl;
  id = refl;
  buffer = refl;
  init = refl;
  handle = refl;
  free = refl;
}

new_name_missing : find_common_object as_is one_table new_name ≡ none
unfolding find_common_object hash_from find_in_chain
new_name_missing = refl

abbrev two_table : ObjectTable
two_table = created as_is plain_env one_table 12 new_name (some (3 ∷ []))

com_close-com_create_example :
    (com_create as_is plain_env new_name (some (3 ∷ [])) one_table ≡ done (two_table, 12, []))
    × (handle_object 12 two_table.handles ≡ some 6)
    × (find_common_object as_is two_table new_name ≡ some 6)
    × (s' : ObjectTable) × (com_close as_is 12 two_table ≡ done (s', true))
    × IsValid as_is s'
    × (s'.heap 6 ≡ none)
    × ((b : ℕ) → (6 == b) ≡ false → s'.heap b ≡ one_table.heap b)
    × (s'.handles ≡ one_table.handles)
com_close-com_create_example =
    com_close-com_create as_is plain_env one_table 12 new_name (some (3 ∷ [])) one_table-IsValid
      plain_env-IsGranted new_name_missing
