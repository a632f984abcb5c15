-- ===== src/ConfigFile/Walk.antt =====
-- What the loops over elements of lib/config.c give, when it holds at each element.
use xha.Prelude.{ℕ, List, [], ◌∷◌, Option, none, some}
use xha.ConfigFile.{and_then, walk, or_here}

-- A predicate on what a walk gives, if it gives anything.
abbrev pub Gives : {C : Type 0} → (C → Type 0) → Option C → Type 0
Gives P none = Unit
Gives P (some c) = P c

pub and_then-Gives :
    {A B : Type 0} (P : A → Type 0) (R : B → Type 0) (f : A → Option B) (o : Option A)
    → Gives P o
    → ((x : A) → P x → Gives R (f x))
    → Gives R (and_then f o)
and_then-Gives P R f none h keeps = tt
and_then-Gives P R f (some x) h keeps = keeps x h

pub walk-Gives :
    {A C : Type 0} (P : C → Type 0) (step : A → C → Option C)
    → ((e : A) (c : C) → P c → Gives P (step e c))
    → (es : List A) (c : C) → P c
    → Gives P (walk step es c)
unfolding walk
walk-Gives P step keeps [] c h = h
walk-Gives P step keeps (e ∷ es) c h =
    and_then-Gives P P (walk step es) (step e c) (keeps e c h)
      (λ c' h'. walk-Gives P step keeps es c' h')

pub any-Gives : {C : Type 0} (o : Option C) → Gives (λ c. ℕ) o
any-Gives none = tt
any-Gives (some c) = 0

pub or_here-Gives :
    (P : ℕ → Type 0) (a b : Option ℕ) → Gives P a → Gives P b → Gives P (or_here a b)
or_here-Gives P none b ha hb = hb
or_here-Gives P (some i) b ha hb = ha

pub Gives-weaken :
    {C : Type 0} (P R : C → Type 0) (o : Option C) → ((c : C) → P c → R c) → Gives P o → Gives R o
Gives-weaken P R none f h = tt
Gives-weaken P R (some c) f h = f c h
