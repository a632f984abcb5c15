-- ===== src/HostWeight/Table.antt =====
-- The table of weights as a finite map from the names of classes to their weights.
use xha.Prelude.{
  ℕ, ◌≡◌, ◌≢◌, ◌↔◌, ◌⊎◌, inl, inr, refl, sym, subst, true, [], ◌∷◌, none, some, ◌==◌, if◌then◌else◌,
  arith, Option-cases, Bool-cases, if-elim,
}
use xha.HostWeight.{Str, str_eq, Table, overwrite, fill, hostweight_get_weight}

pub str_eq_self : (s : Str) → str_eq s s ≡ true
unfolding str_eq
str_eq_self [] = refl
str_eq_self (c ∷ s) = ground (arith, str_eq_self s)

str_eq-eq : (s t : Str) → str_eq s t ≡ true → s ≡ t
unfolding str_eq
str_eq-eq [] [] h = refl
str_eq-eq [] (c ∷ t) h = absurd (ground arith)
str_eq-eq (b ∷ s) [] h = absurd (ground arith)
str_eq-eq (b ∷ s) (c ∷ t) h =
    let head : b ≡ c = ground arith in
    let tail : s ≡ t = str_eq-eq s t (ground arith) in cc (head, tail)

pub str_eq_iff : (s t : Str) → (str_eq s t ≡ true) ↔ (s ≡ t)
str_eq_iff s t = (str_eq-eq s t, λ e. subst (λ r. str_eq s r ≡ true) e (str_eq_self s))

-- A name that no entry of the table has.
unfoldable pub IsFresh : Str → Table → Type 0
IsFresh n [] = Unit
IsFresh n (e ∷ t) = (e.classname ≢ n) × IsFresh n t

-- No name stands twice in the table.
unfoldable pub IsUnique : Table → Type 0
IsUnique [] = Unit
IsUnique (e ∷ t) = ((e.classname ≡ []) ⊎ IsFresh e.classname t) × IsUnique t

pub overwrite-none : (t : Table) (n : Str) (w : ℕ) → overwrite t n w ≡ none → IsFresh n t
unfolding overwrite IsFresh
overwrite-none [] n w h = tt
overwrite-none (e ∷ t) n w h = ground (arith, str_eq_iff e.classname n, overwrite-none t n w)

-- A name that no entry has weighs nothing.
pub hostweight_get_weight-IsFresh :
    (t : Table) (n : Str) → IsFresh n t → hostweight_get_weight t n ≡ 0
unfolding hostweight_get_weight IsFresh
hostweight_get_weight-IsFresh [] n h = refl
hostweight_get_weight-IsFresh (e ∷ t) n h =
    ground (arith, str_eq_iff e.classname n, hostweight_get_weight-IsFresh t n)

pub hostweight_get_weight-overwrite :
    (t u : Table) (n m : Str) (w : ℕ)
    → IsUnique t
    → overwrite t n w ≡ some u
    → n ≢ []
    → m ≢ []
    → hostweight_get_weight u m ≡ (if str_eq n m then w else hostweight_get_weight t m)
unfolding hostweight_get_weight overwrite IsUnique
hostweight_get_weight-overwrite [] u n m w h step named asked = absurd (ground arith)
hostweight_get_weight-overwrite (e ∷ t) u n m w h step named asked =
    elim (Bool-cases (str_eq e.classname n)) [
      | inl same ↦
          let e_u : u ≡ record { classname = if w == 0 then [] else e.classname; weight = w } ∷ t =
            ground arith in
          rw e_u (
            ground (
              arith,
              str_eq_iff e.classname n,
              str_eq_iff e.classname m,
              str_eq_iff n m,
              str_eq_iff [] m,
              hostweight_get_weight-IsFresh t n,
            ))
      | inr other ↦ elim (Option-cases (overwrite t n w)) [
        | inl miss ↦ absurd (ground arith)
        | inr (v, hit) ↦
            let e_u : u ≡ e ∷ v = ground arith in
            rw e_u (
              ground (
                arith,
                str_eq_iff e.classname n,
                str_eq_iff e.classname m,
                str_eq_iff n m,
                hostweight_get_weight-overwrite t v n m w h.1 hit named asked,
              ))
      ]
    ]

pub hostweight_get_weight-fill :
    (t u : Table) (n m : Str) (w : ℕ)
    → IsFresh n t
    → fill t n w ≡ some u
    → m ≢ []
    → hostweight_get_weight u m ≡ (if str_eq n m then w else hostweight_get_weight t m)
unfolding hostweight_get_weight fill IsFresh
hostweight_get_weight-fill [] u n m w h step asked = absurd (ground arith)
hostweight_get_weight-fill (e ∷ t) u n m w h step asked =
    elim (Bool-cases (str_eq e.classname [])) [
      | inl same ↦
          let e_u : u ≡ record { classname = n; weight = w } ∷ t = ground arith in
          rw e_u
            (ground (arith, str_eq_iff e.classname [], str_eq_iff e.classname m, str_eq_iff n m))
      | inr other ↦ elim (Option-cases (fill t n w)) [
        | inl miss ↦ absurd (ground arith)
        | inr (v, hit) ↦
            let e_u : u ≡ e ∷ v = ground arith in
            rw e_u (
              ground (
                arith,
                str_eq_iff e.classname m,
                str_eq_iff n m,
                hostweight_get_weight-fill t v n m w h.1 hit asked,
              ))
      ]
    ]

overwrite-IsFresh :
    (t u : Table) (n m : Str) (w : ℕ)
    → m ≢ []
    → overwrite t n w ≡ some u
    → IsFresh m t
    → IsFresh m u
unfolding overwrite IsFresh
overwrite-IsFresh [] u n m w named step h = absurd (ground arith)
overwrite-IsFresh (e ∷ t) u n m w named step h = elim (Bool-cases (str_eq e.classname n)) [
  | inl same ↦
      let e_u : u ≡ record { classname = if w == 0 then [] else e.classname; weight = w } ∷ t =
        ground arith in
      rw e_u (ground arith)
  | inr other ↦ elim (Option-cases (overwrite t n w)) [
    | inl miss ↦ absurd (ground arith)
    | inr (v, hit) ↦
        let e_u : u ≡ e ∷ v = ground arith in
        rw e_u (h.0, overwrite-IsFresh t v n m w named hit h.1)
  ]
]

fill-IsFresh :
    (t u : Table) (n m : Str) (w : ℕ) → m ≢ n → fill t n w ≡ some u → IsFresh m t → IsFresh m u
unfolding fill IsFresh
fill-IsFresh [] u n m w other step h = absurd (ground arith)
fill-IsFresh (e ∷ t) u n m w other step h = elim (Bool-cases (str_eq e.classname [])) [
  | inl same ↦
      let e_u : u ≡ record { classname = n; weight = w } ∷ t = ground arith in
      rw e_u (λ q. other (sym q), h.1)
  | inr named ↦ elim (Option-cases (fill t n w)) [
    | inl miss ↦ absurd (ground arith)
    | inr (v, hit) ↦
        let e_u : u ≡ e ∷ v = ground arith in rw e_u (h.0, fill-IsFresh t v n m w other hit h.1)
  ]
]

pub overwrite-IsUnique :
    (t u : Table) (n : Str) (w : ℕ) → overwrite t n w ≡ some u → IsUnique t → IsUnique u
unfolding overwrite IsUnique
overwrite-IsUnique [] u n w step h = absurd (ground arith)
overwrite-IsUnique (e ∷ t) u n w step h = elim (Bool-cases (str_eq e.classname n)) [
  | inl same ↦
      let e_u : u ≡ record { classname = if w == 0 then [] else e.classname; weight = w } ∷ t =
        ground arith in
      rw e_u (if-elim (λ r. (r ≡ []) ⊎ IsFresh r t) (w == 0) (λ z. inl refl) (λ z. h.0), h.1)
  | inr other ↦ elim (Option-cases (overwrite t n w)) [
    | inl miss ↦ absurd (ground arith)
    | inr (v, hit) ↦
        let e_u : u ≡ e ∷ v = ground arith in
        rw e_u (
          elim (Bool-cases (str_eq e.classname [])) [
            | inl nameless ↦ inl (str_eq-eq e.classname [] nameless)
            | inr named ↦ elim h.0 [
              | inl nameless ↦ inl nameless
              | inr new ↦ inr (
                  overwrite-IsFresh t v n e.classname w (ground (arith, str_eq_iff e.classname []))
                    hit new)
            ]
          ],
          overwrite-IsUnique t v n w hit h.1,
        )
  ]
]

pub fill-IsUnique :
    (t u : Table) (n : Str) (w : ℕ) → fill t n w ≡ some u → IsFresh n t → IsUnique t → IsUnique u
unfolding fill IsFresh IsUnique
fill-IsUnique [] u n w step new h = absurd (ground arith)
fill-IsUnique (e ∷ t) u n w step new h = elim (Bool-cases (str_eq e.classname [])) [
  | inl same ↦
      let e_u : u ≡ record { classname = n; weight = w } ∷ t = ground arith in
      rw e_u (inr new.1, h.1)
  | inr named ↦ elim (Option-cases (fill t n w)) [
    | inl miss ↦ absurd (ground arith)
    | inr (v, hit) ↦
        let e_u : u ≡ e ∷ v = ground arith in
        rw e_u (
          elim h.0 [
            | inl nameless ↦ inl nameless
            | inr once ↦ inr (fill-IsFresh t v n e.classname w new.0 hit once)
          ],
          fill-IsUnique t v n w hit new.1 h.1,
        )
  ]
]

-- A table that has no room left.
unfoldable pub IsFull : Table → Type 0
IsFull [] = Unit
IsFull (e ∷ t) = (e.classname ≢ []) × IsFull t

pub fill-none : (t : Table) (n : Str) (w : ℕ) → (fill t n w ≡ none) ↔ IsFull t
unfolding fill IsFull
fill-none [] n w = ground arith
fill-none (e ∷ t) n w = ground (arith, str_eq_iff e.classname [], fill-none t n w)
