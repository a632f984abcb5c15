-- ===== src/Prelude/Hosts.antt =====
-- The loops over the configured hosts, `for (index = 0; _is_configured_host(index); index++)`.
use Prim.Native.Nat.{ℕ, zero, suc, ◌+◌, ◌*◌, ◌≤◌, ◌<◌}
use mathlib.Core.Path.{◌≡◌, refl}
use mathlib.Core.Logic.{inl, inr}
use mathlib.Core.Bool.{Bool, true, false, ◌&&◌}
use mathlib.Core.Option.{Option, none, some}
use native.Mathlib.Decide.{dec_lt, ℕ_discrete}
use native.Mathlib.Omega.{arith}
use xha.Prelude.Tests.{Bool-cases, Option-cases, ◌==◌, if◌then◌else◌}

-- `array[i] = a` for a C array indexed by host.
abbrev pub update {ℓ} : {A : Type ℓ} → (ℕ → A) → ℕ → A → ℕ → A
update f i a j = if i == j then a else f j

-- The body runs at 0, 1, ..., n - 1, in this order.
unfoldable pub for_hosts {ℓ} : {S : Type ℓ} → ℕ → (ℕ → S → S) → S → S
for_hosts zero body s = s
for_hosts (suc n) body s = body n (for_hosts n body s)

-- A loop that leaves with FALSE at the first index that fails the test.
unfoldable pub all_hosts : ℕ → (ℕ → Bool) → Bool
all_hosts zero p = true
all_hosts (suc n) p = all_hosts n p && p n

-- A loop that leaves at the first index that passes the test.
unfoldable pub find_host : ℕ → (ℕ → Bool) → Option ℕ
find_host zero p = none
find_host (suc n) p = elim (find_host n p) [ some i ↦ some i | none ↦ if p n then some n else none ]

pub for_hosts_inv {ℓ κ} :
    {S : Type ℓ} (P : ℕ → S → Type κ) (n : ℕ) (body : ℕ → S → S) (s : S)
    → P 0 s
    → ((i : ℕ) (t : S) → i < n → P i t → P (suc i) (body i t))
    → P n (for_hosts n body s)
unfolding for_hosts
for_hosts_inv P zero body s h keep = h
for_hosts_inv P (suc n) body s h keep =
    keep n _ (omega arith) (for_hosts_inv P n body s h (λ i t lt. keep i t (omega arith)))

pub all_hosts_elim : (n : ℕ) (p : ℕ → Bool) → all_hosts n p ≡ true → (i : ℕ) → i < n → p i ≡ true
unfolding all_hosts
all_hosts_elim zero p h i lt = absurd (omega arith)
all_hosts_elim (suc n) p h i lt = elim (ℕ_discrete i n) [
  | yes e ↦ rw e (ground arith)
  | no ne ↦ all_hosts_elim n p (ground arith) i (omega arith)
]

pub all_hosts_intro : (n : ℕ) (p : ℕ → Bool) → ((i : ℕ) → i < n → p i ≡ true) → all_hosts n p ≡ true
unfolding all_hosts
all_hosts_intro zero p h = refl
all_hosts_intro (suc n) p h =
    rw (all_hosts_intro n p (λ i lt. h i (omega arith)), h n (omega arith))

-- A loop that did not pass met an index that fails.
pub all_hosts-false :
    (n : ℕ) (p : ℕ → Bool) → all_hosts n p ≡ false → (i : ℕ) × (i < n) × (p i ≡ false)
unfolding all_hosts
all_hosts-false zero p h = absurd (ground arith)
all_hosts-false (suc n) p h = elim (Bool-cases (p n)) [
  | inr bad ↦ (n, omega arith, bad)
  | inl good ↦ let (i, lt, bad) = all_hosts-false n p (ground arith) in (i, omega arith, bad)
]

pub find_host-none : (n : ℕ) (p : ℕ → Bool) → find_host n p ≡ none → (i : ℕ) → i < n → p i ≡ false
unfolding find_host
find_host-none zero p h i lt = absurd (omega arith)
find_host-none (suc n) p h i lt = elim (ℕ_discrete i n) [
  | yes e ↦ rw e (ground arith)
  | no ne ↦ find_host-none n p (ground arith) i (omega arith)
]

pub find_host-some :
    (n : ℕ) (p : ℕ → Bool) {i : ℕ}
    → find_host n p ≡ some i
    → (i < n) × (p i ≡ true) × ((j : ℕ) → j < i → p j ≡ false)
unfolding find_host
find_host-some zero p h = absurd (ground arith)
find_host-some (suc n) p {i} h = elim (Option-cases (find_host n p)) [
  | inl miss ↦ (ground arith, ground arith, λ j lt. find_host-none n p miss j (ground arith))
  | inr (k, hit) ↦
      let e : k ≡ i = ground arith in
      let (lt, pass, before) = find_host-some n p {i = i} (ground arith) in
      (omega arith, pass, before)
]

-- The body runs at n - 1, ..., 1, 0, in this order.
unfoldable pub for_hosts_down {ℓ} : {S : Type ℓ} → ℕ → (ℕ → S → S) → S → S
for_hosts_down zero body s = s
for_hosts_down (suc n) body s = for_hosts_down n body (body n s)

-- The sum of `f` over the hosts below `n`.
unfoldable pub sum_hosts : ℕ → (ℕ → ℕ) → ℕ
sum_hosts zero f = 0
sum_hosts (suc n) f = sum_hosts n f + f n

pub sum_hosts_mono :
    (n : ℕ) (f g : ℕ → ℕ) → ((i : ℕ) → i < n → f i ≤ g i) → sum_hosts n f ≤ sum_hosts n g
unfolding sum_hosts
sum_hosts_mono zero f g h = omega arith
sum_hosts_mono (suc n) f g h =
    omega (arith, sum_hosts_mono n f g (λ i lt. h i (omega arith)), h n (omega arith))

-- Terms that are no greater and add up to as much are the same.
pub sum_hosts_rigid :
    (n : ℕ) (f g : ℕ → ℕ)
    → ((i : ℕ) → i < n → f i ≤ g i)
    → sum_hosts n g ≤ sum_hosts n f
    → (i : ℕ) → i < n
    → f i ≡ g i
unfolding sum_hosts
sum_hosts_rigid zero f g h k i lt = absurd (omega arith)
sum_hosts_rigid (suc n) f g h k i lt = elim (ℕ_discrete i n) [
  | yes e ↦ rw e (omega (arith, below, h n (omega arith)))
  | no ne ↦
      sum_hosts_rigid n f g (λ j jl. h j (omega arith)) (omega (arith, below, h n (omega arith))) i
        (omega arith)
]
  where
    below : sum_hosts n f ≤ sum_hosts n g
    below = sum_hosts_mono n f g (λ j jl. h j (omega arith))

pub sum_hosts_le_mul : (n c : ℕ) (f : ℕ → ℕ) → ((i : ℕ) → i < n → f i ≤ c) → sum_hosts n f ≤ n * c
unfolding sum_hosts
sum_hosts_le_mul zero c f h = omega arith
sum_hosts_le_mul (suc n) c f h =
    grind (arith, sum_hosts_le_mul n c f (λ i lt. h i (omega arith)), h n (omega arith))

pub for_hosts_down_inv {ℓ κ} :
    {S : Type ℓ} (P : ℕ → S → Type κ) (n : ℕ) (body : ℕ → S → S) (s : S)
    → P n s
    → ((i : ℕ) (t : S) → i < n → P (suc i) t → P i (body i t))
    → P 0 (for_hosts_down n body s)
unfolding for_hosts_down
for_hosts_down_inv P zero body s h keep = h
for_hosts_down_inv P (suc n) body s h keep =
    for_hosts_down_inv P n body (body n s) (keep n s (omega arith) h)
      (λ i t lt. keep i t (omega arith))

-- A sum falls when no term grows and one falls.
pub sum_hosts_lt :
    (n : ℕ) (f g : ℕ → ℕ) (k : ℕ)
    → ((i : ℕ) → i < n → f i ≤ g i)
    → k < n
    → f k < g k
    → sum_hosts n f < sum_hosts n g
sum_hosts_lt n f g k h lt less = elim (dec_lt (sum_hosts n f) (sum_hosts n g)) [
  | yes below ↦ below
  | no ge ↦ absurd (omega (arith, sum_hosts_rigid n f g h (omega arith) k lt))
]
