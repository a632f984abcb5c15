-- ===== src/Com/Table/Put.antt =====
-- An object of the table of daemon/com.c that changes, or that leaves the table.
use xha.Prelude.{
  ℕ, ◌+◌, ◌<◌, ◌≡◌, refl, sym, ap, ◌∙◌, false, List, Option, none, some, ◌==◌, if◌then◌else◌, inl,
  inr, Bool-cases, ==_iff, ==_self, arith,
}
use xha.Prelude.Hosts.{update}
use xha.Com.{Object}
use xha.Com.Table.{ObjectTable, calc_hash}
use xha.Com.Table.Valid.{count, count_handles, IsValid}

pub update_hit {ℓ} : {A : Type ℓ} (f : ℕ → A) (a : ℕ) (x : A) → update f a x a ≡ x
update_hit f a x = rw (==_self a)

none-some {ℓ κ} : {A : Type ℓ} {B : Type κ} {a : A} → none ≡ some a → B
none-some e = absurd (ground arith)

-- An object changes, but for its name, and the handles with it.
pub put-IsValid :
    (char_word : ℕ → ℕ) (s : ObjectTable) (a : ℕ) (o o' : Object) (hs : List (ℕ × ℕ))
    → IsValid char_word s
    → s.heap a ≡ some o
    → o'.object_id ≡ o.object_id
    → o'.ref_count ≡ count_handles a hs
    → ((b : ℕ) → (a == b) ≡ false → count_handles b hs ≡ count_handles b s.handles)
    → IsValid char_word (record s { heap = update s.heap a (some o'); handles = hs })
put-IsValid char_word s a o o' hs v eo id refs others = record {
  chained = λ b p e.
      let (q, eq, iq) = before b p e in
      ap (λ i. count b (s.chain (calc_hash char_word i))) (sym iq) ∙ v.chained b q eq;
  live = λ k b mem.
      let (q, eq, hq) = v.live k b mem in
      elim (Bool-cases (a == b)) [
        | inl same ↦ (
          o',
          rw same refl,
          ap (calc_hash char_word) (
                id
                ∙ ap (λ (x : Object). x.object_id)
                    (some_inj (sym eo ∙ ap s.heap ((==_iff a b).0 same) ∙ eq)))
              ∙ hq,
        )
        | inr other ↦ (q, rw other eq, hq)
      ];
  apart = λ b c p q ep eq ids.
      let (p', ep', ip) = before b p ep in
      let (q', eq', iq) = before c q eq in v.apart b c p' q' ep' eq' (ip ∙ ids ∙ sym iq);
  counted = λ b p e. elim (Bool-cases (a == b)) [
    | inl same ↦
        ap (λ (x : Object). x.ref_count) (some_inj (sym (rw same at e)))
        ∙ refs
        ∙ ap (λ x. count_handles x hs) ((==_iff a b).0 same)
    | inr other ↦ v.counted b p (rw other at e) ∙ sym (others b other)
  ];
  held = λ b e. elim (Bool-cases (a == b)) [
    | inl same ↦ none-some (sym (rw same at e))
    | inr other ↦ others b other ∙ v.held b (rw other at e)
  ];
}
  where
    some_inj : {x y : Object} → some x ≡ some y → x ≡ y
    some_inj e = cc

    before :
        (b : ℕ) (p : Object)
        → update s.heap a (some o') b ≡ some p
        → (q : Object) × (s.heap b ≡ some q) × (q.object_id ≡ p.object_id)
    before b p e = elim (Bool-cases (a == b)) [
      | inl same ↦ (
        o,
        ap s.heap (sym ((==_iff a b).0 same)) ∙ eo,
        sym id ∙ ap (λ (x : Object). x.object_id) (some_inj (rw same at e)),
      )
      | inr other ↦ (p, rw other at e, refl)
    ]

-- An object leaves the table with its last handle.
pub remove-IsValid :
    (char_word : ℕ → ℕ) (s : ObjectTable) (a : ℕ) (o : Object) (rest : List ℕ) (hs : List (ℕ × ℕ))
    → IsValid char_word s
    → s.heap a ≡ some o
    → ((b : ℕ)
        → count b rest + (if a == b then 1 else 0)
          ≡ count b (s.chain (calc_hash char_word o.object_id)))
    → count_handles a hs ≡ 0
    → ((b : ℕ) → (a == b) ≡ false → count_handles b hs ≡ count_handles b s.handles)
    → IsValid char_word (record s {
      heap = update s.heap a none;
      chain = update s.chain (calc_hash char_word o.object_id) rest;
      handles = hs;
    })
remove-IsValid char_word s a o rest hs v eo left no_handle others = record {
  chained = λ b p e.
      let (other, e') = before b p e in
      elim (Bool-cases (hash_value == calc_hash char_word p.object_id)) [
        | inl same ↦ rw same (
            omega (
              arith,
              rw other at (left b),
              ap (λ k. count b (s.chain k)) ((==_iff _ _).0 same),
              v.chained b p e',
            ))
        | inr apart ↦ rw apart (v.chained b p e')
      ];
  live = λ k b mem. elim (Bool-cases (hash_value == k)) [
    | inl same ↦
        let inside : 0 < count b rest = rw same at mem in
        let other : (a == b) ≡ false = not_self b inside in
        let (q, eq, hq) = v.live hash_value b (omega (arith, left b, inside)) in
        (q, rw other eq, hq ∙ (==_iff _ _).0 same)
    | inr apart ↦
        let inside : 0 < count b (s.chain k) = rw apart at mem in
        let (q, eq, hq) = v.live k b inside in
        elim (Bool-cases (a == b)) [
          | inl same ↦ absurd (
              ground (
                arith,
                apart,
                (==_iff a b).0 same,
                eo,
                eq,
                hq,
                ap (λ (x : Option Object). hash_of x)
                    (sym eo ∙ ap s.heap ((==_iff a b).0 same) ∙ eq),
              ))
          | inr other ↦ (q, rw other eq, hq)
        ]
  ];
  apart = λ b c p q ep eq ids. v.apart b c p q ((before b p ep).1) ((before c q eq).1) ids;
  counted = λ b p e. let (other, e') = before b p e in v.counted b p e' ∙ sym (others b other);
  held = λ b e. elim (Bool-cases (a == b)) [
    | inl same ↦ rw (← (==_iff a b).0 same) no_handle
    | inr other ↦ others b other ∙ v.held b (rw other at e)
  ];
}
  where
    hash_value : ℕ
    hash_value = calc_hash char_word o.object_id

    hash_of : Option Object → ℕ
    hash_of none = 0
    hash_of (some x) = calc_hash char_word x.object_id

    before :
        (b : ℕ) (p : Object)
        → update s.heap a none b ≡ some p
        → ((a == b) ≡ false) × (s.heap b ≡ some p)
    before b p e = elim (Bool-cases (a == b)) [
      | inl same ↦ none-some (rw same at e)
      | inr other ↦ (other, rw other at e)
    ]

    not_self : (b : ℕ) → 0 < count b rest → (a == b) ≡ false
    not_self b inside = elim (Bool-cases (a == b)) [
      | inl same ↦ absurd (
          omega (
            arith,
            rw (==_self a) at (left a),
            v.chained a o eo,
            rw (← (==_iff a b).0 same) at inside,
          ))
      | inr other ↦ other
    ]
