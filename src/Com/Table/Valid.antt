-- ===== src/Com/Table/Valid.antt =====
-- When the table of common objects of daemon/com.c is in order, and its walks in such a table.
use xha.Prelude.{
  ℕ, ◌+◌, ◌<◌, ◌≡◌, refl, sym, ap, ◌∙◌, true, false, List, [], ◌∷◌, Option, none, some, ◌==◌,
  if◌then◌else◌, inl, inr, Bool-cases, Option-cases, ==_iff, ==_self, ◌↔◌, arith,
}
use xha.HostWeight.{Str}
use xha.HostWeight.Table.{str_eq_iff}
use xha.Com.{Object}
use xha.Com.Table.{
  ObjectTable, has_id, find_in_chain, delete_from_chain, handle_object, free_handle, calc_hash,
  find_common_object,
}

-- How often an address stands in a chain, and how many open handles an object has.
unfoldable pub count : ℕ → List ℕ → ℕ
count a [] = 0
count a (b ∷ bs) = (if b == a then 1 else 0) + count a bs

unfoldable pub count_handles : ℕ → List (ℕ × ℕ) → ℕ
count_handles a [] = 0
count_handles a ((h, b) ∷ hs) = (if b == a then 1 else 0) + count_handles a hs

-- An object stands once in the chain of its name's hash, no two have one name, and ref_count is the
-- number of its open handles.
pub record IsValid (char_word : ℕ → ℕ) (s : ObjectTable) : Type 0 where
  pub chained :
      (a : ℕ) (o : Object)
      → s.heap a ≡ some o
      → count a (s.chain (calc_hash char_word o.object_id)) ≡ 1
  pub live :
      (k a : ℕ)
      → 0 < count a (s.chain k)
      → (o : Object) × (s.heap a ≡ some o) × (calc_hash char_word o.object_id ≡ k)
  pub apart :
      (a b : ℕ) (o p : Object)
      → s.heap a ≡ some o
      → s.heap b ≡ some p
      → o.object_id ≡ p.object_id
      → a ≡ b
  pub counted : (a : ℕ) (o : Object) → s.heap a ≡ some o → o.ref_count ≡ count_handles a s.handles
  pub held : (a : ℕ) → s.heap a ≡ none → count_handles a s.handles ≡ 0

find_in_chain-some :
    (heap : ℕ → Option Object) (object_id : Str) (c : List ℕ) {a : ℕ}
    → find_in_chain heap object_id c ≡ some a
    → (has_id (heap a) object_id ≡ true) × (0 < count a c)
unfolding find_in_chain count
find_in_chain-some heap object_id [] h = absurd (ground arith)
find_in_chain-some heap object_id (b ∷ bs) {a} h = elim (Bool-cases (has_id (heap b) object_id)) [
  | inl hit ↦ let e : b ≡ a = ground arith in (rw (← e) hit, ground (arith, ==_self a))
  | inr miss ↦
      let (id, mem) = find_in_chain-some heap object_id bs {a = a} (rw miss at h) in
      (id, omega arith)
]

find_in_chain-none :
    (heap : ℕ → Option Object) (object_id : Str) (c : List ℕ)
    → find_in_chain heap object_id c ≡ none
    → (a : ℕ) → 0 < count a c
    → has_id (heap a) object_id ≡ false
unfolding find_in_chain count
find_in_chain-none heap object_id [] h a mem = absurd (omega arith)
find_in_chain-none heap object_id (b ∷ bs) h a mem = elim (Bool-cases (has_id (heap b) object_id)) [
  | inl hit ↦ absurd (ground arith)
  | inr miss ↦ elim (Bool-cases (b == a)) [
    | inl e ↦ rw (← (==_iff b a).0 e) miss
    | inr ne ↦ find_in_chain-none heap object_id bs (rw miss at h) a (ground arith)
  ]
]

pub has_id-some :
    (o : Option Object) (object_id : Str)
    → has_id o object_id ≡ true
    → (p : Object) × (o ≡ some p) × (p.object_id ≡ object_id)
has_id-some none object_id h = cc
has_id-some (some p) object_id h = (p, refl, (str_eq_iff p.object_id object_id).0 h)

-- find_common_object gives the object of a name exactly when there is one.
pub find_common_object_iff :
    (char_word : ℕ → ℕ) (s : ObjectTable) (object_id : Str) (a : ℕ)
    → IsValid char_word s
    → (find_common_object char_word s object_id ≡ some a) ↔ (has_id (s.heap a) object_id ≡ true)
unfolding find_common_object
find_common_object_iff char_word s object_id a v = (
  λ h. (find_in_chain-some s.heap object_id (s.chain (calc_hash char_word object_id)) h).0,
  λ h.
      let (o, eo, io) = has_id-some (s.heap a) object_id h in
      let chained : count a (s.chain (calc_hash char_word object_id)) ≡ 1 =
        ap (λ i. count a (s.chain (calc_hash char_word i))) (sym io) ∙ v.chained a o eo in
      elim (Option-cases
        (find_in_chain s.heap object_id (s.chain (calc_hash char_word object_id)))) [
          | inl miss ↦ absurd (
              ground (
                arith,
                find_in_chain-none s.heap object_id (s.chain (calc_hash char_word object_id)) miss a
                    (omega arith),
              ))
          | inr (b, hit) ↦
              let (p, ep, ip) = has_id-some (s.heap b) object_id (
                (find_in_chain-some s.heap object_id (s.chain (calc_hash char_word object_id))
                  hit).0) in
              hit ∙ ap some (v.apart b a p o ep eo (ip ∙ sym io))
        ],
)

-- The walk takes the one object of the name out.
pub delete_from_chain_lem :
    (heap : ℕ → Option Object) (object_id : Str) (c : List ℕ) (a : ℕ)
    → has_id (heap a) object_id ≡ true
    → ((b : ℕ) → has_id (heap b) object_id ≡ true → b ≡ a)
    → 0 < count a c
    → (rest : List ℕ) × (delete_from_chain heap object_id c ≡ some (a, rest))
      × ((b : ℕ) → count b rest + (if a == b then 1 else 0) ≡ count b c)
unfolding delete_from_chain count
delete_from_chain_lem heap object_id [] a h one mem = absurd (omega arith)
delete_from_chain_lem heap object_id (b ∷ bs) a h one mem =
    elim (Bool-cases (has_id (heap b) object_id)) [
      | inl hit ↦ (bs, rw (hit, one b hit), λ x. rw (one b hit) (omega arith))
      | inr miss ↦
          let other : (b == a) ≡ false = elim (Bool-cases (b == a)) [
            | inl e ↦
                absurd (ground (arith, ap (λ x. has_id (heap x) object_id) ((==_iff b a).0 e)))
            | inr ne ↦ ne
          ] in
          let (rest, e, left) = delete_from_chain_lem heap object_id bs a h one (ground arith) in
          (b ∷ rest, rw (miss, e), λ x. omega (arith, left x))
    ]

pub free_handle_lem :
    (h a : ℕ) (hs : List (ℕ × ℕ))
    → handle_object h hs ≡ some a
    → (b : ℕ) → count_handles b (free_handle h hs) + (if a == b then 1 else 0) ≡ count_handles b hs
unfolding handle_object free_handle count_handles
free_handle_lem h a [] e b = absurd (ground arith)
free_handle_lem h a ((k, c) ∷ hs) e b = elim (Bool-cases (k == h)) [
  | inl same ↦ ground arith
  | inr other ↦ ground (arith, free_handle_lem h a hs (rw other at e) b)
]
