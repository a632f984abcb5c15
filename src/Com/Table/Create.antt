-- ===== src/Com/Table/Create.antt =====
-- com_create of daemon/com.c for a name that has no object yet.
use xha.Prelude.{
  ℕ, ◌+◌, ◌<◌, ◌≡◌, ◌≢◌, dec_lt, refl, sym, ap, ◌∙◌, true, false, ◌∷◌, none, some, ◌==◌,
  if◌then◌else◌, inl, inr, Bool-cases, ==_iff, ==_self, arith,
}
use xha.Prelude.Hosts.{update}
use xha.HostWeight.{Str}
use xha.HostWeight.Table.{str_eq_self}
use xha.Com.{Object}
use xha.Com.Table.{ObjectTable, has_id, calc_hash, find_common_object}
use xha.Com.Table.Valid.{count, count_handles, IsValid, find_common_object_iff}

pub no_name :
    (char_word : ℕ → ℕ) (s : ObjectTable) (object_id : Str)
    → IsValid char_word s
    → find_common_object char_word s object_id ≡ none
    → (b : ℕ) → has_id (s.heap b) object_id ≡ false
no_name char_word s object_id v miss b = elim (Bool-cases (has_id (s.heap b) object_id)) [
  | inl hit ↦ absurd (ground (arith, (find_common_object_iff char_word s object_id b v).1 hit))
  | inr other ↦ other
]

-- An object with its first handle, put into the table.
abbrev pub inserted : (ℕ → ℕ) → ℕ → Object → ℕ → ObjectTable → ObjectTable
inserted char_word a o h s = record s {
  heap = update s.heap a (some o);
  chain =
      update s.chain (calc_hash char_word o.object_id)
        (a ∷ s.chain (calc_hash char_word o.object_id));
  handles = (h, a) ∷ s.handles;
}

module _ (char_word : ℕ → ℕ) (s : ObjectTable) (a h : ℕ) (o : Object) (v : IsValid char_word s)
    (free : s.heap a ≡ none) (one : o.ref_count ≡ 1)
    (new_name : (b : ℕ) → has_id (s.heap b) o.object_id ≡ false) where
  abbrev hash_value : ℕ
  hash_value = calc_hash char_word o.object_id

  -- The chains hold one more address.
  chain_count :
      (b k : ℕ)
      → count b (update s.chain hash_value (a ∷ s.chain hash_value) k)
        ≡ (if hash_value == k then if a == b then 1 else 0 else 0) + count b (s.chain k)
  unfolding count
  chain_count b k = elim (Bool-cases (hash_value == k)) [
    | inl hit ↦ rw ((==_iff hash_value k).0 hit, ==_self k) refl
    | inr miss ↦ rw miss (omega arith)
  ]

  chain_count_other :
      (b k : ℕ)
      → (a == b) ≡ false
      → count b (update s.chain hash_value (a ∷ s.chain hash_value) k) ≡ count b (s.chain k)
  chain_count_other b k ne = chain_count b k ∙ ground (arith, ne)

  chain_count_miss :
      (b k : ℕ)
      → (hash_value == k) ≡ false
      → count b (update s.chain hash_value (a ∷ s.chain hash_value) k) ≡ count b (s.chain k)
  chain_count_miss b k ne = chain_count b k ∙ rw ne (omega arith)

  -- An address that is free stands in no chain.
  absent : (k : ℕ) → count a (s.chain k) ≡ 0
  absent k = elim (dec_lt 0 (count a (s.chain k))) [
    | yes mem ↦ let (q, eq, hq) = v.live k a mem in absurd (ground (arith, free, eq))
    | no out ↦ omega arith
  ]

  before :
      (b : ℕ) (p : Object)
      → (a == b) ≡ false
      → update s.heap a (some o) b ≡ some p
      → s.heap b ≡ some p
  before b p other e = rw other at e

  at_self : (b : ℕ) (p : Object) → (a == b) ≡ true → update s.heap a (some o) b ≡ some p → o ≡ p
  at_self b p same e = let e' : some o ≡ some p = rw same at e in cc

  distinct : (b : ℕ) (p : Object) → s.heap b ≡ some p → o.object_id ≢ p.object_id
  distinct b p e ids =
      let hit : has_id (s.heap b) o.object_id ≡ true = rw (e, ids) (str_eq_self p.object_id) in
      ground (arith, new_name b)

  pub inserted-IsValid : IsValid char_word (inserted char_word a o h s)
  unfolding count_handles
  inserted-IsValid = record {
    chained = λ b p e. elim (Bool-cases (a == b)) [
      | inl same ↦
          let ids : hash_value ≡ calc_hash char_word p.object_id =
            ap (λ (x : Object). calc_hash char_word x.object_id) (at_self b p same e) in
          chain_count b (calc_hash char_word p.object_id)
          ∙ rw (same, (==_iff hash_value _).1 ids)
              (omega
                (arith, rw ((==_iff a b).0 same) at (absent (calc_hash char_word p.object_id))))
      | inr other ↦
          chain_count_other b (calc_hash char_word p.object_id) other
          ∙ v.chained b p (before b p other e)
    ];
    live = λ k b mem. elim (Bool-cases (a == b)) [
      | inl same ↦ (
        o,
        rw same refl,
        elim (Bool-cases (hash_value == k)) [
          | inl hit ↦ (==_iff _ _).0 hit
          | inr miss ↦ absurd (
              omega (arith, mem, chain_count_miss b k miss, rw ((==_iff a b).0 same) at (absent k)))
        ],
      )
      | inr other ↦
          let inside : 0 < count b (s.chain k) = omega (arith, mem, chain_count_other b k other) in
          let (q, eq, hq) = v.live k b inside in (q, rw other eq, hq)
    ];
    apart = λ b c p q ep eq ids. elim (Bool-cases (a == b)) [
      | inl same ↦ elim (Bool-cases (a == c)) [
        | inl same' ↦ sym ((==_iff a b).0 same) ∙ (==_iff a c).0 same'
        | inr other' ↦ absurd (
            distinct c q (before c q other' eq)
              (ap (λ (x : Object). x.object_id) (at_self b p same ep) ∙ ids))
      ]
      | inr other ↦ elim (Bool-cases (a == c)) [
        | inl same' ↦ absurd (
            distinct b p (before b p other ep)
              (ap (λ (x : Object). x.object_id) (at_self c q same' eq) ∙ sym ids))
        | inr other' ↦ v.apart b c p q (before b p other ep) (before c q other' eq) ids
      ]
    ];
    counted = λ b p e. elim (Bool-cases (a == b)) [
      | inl same ↦
          rw (← at_self b p same e, same, one)
            (omega (arith, rw ((==_iff a b).0 same) at (v.held a free)))
      | inr other ↦ rw other (omega (arith, v.counted b p (before b p other e)))
    ];
    held = λ b e. elim (Bool-cases (a == b)) [
      | inl same ↦ absurd (ground (arith, rw same at e))
      | inr other ↦ rw other (omega (arith, v.held b (rw other at e)))
    ];
  }
