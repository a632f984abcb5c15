-- ===== src/Prelude/Bits.antt =====
-- Binary digits of native numbers: what `&`, `|` and `~` of C do to a single digit.
use Prim.Native.Nat.{
  ℕ, zero, suc, ◌+◌, ◌-◌, ◌*◌, ◌/◌, ◌%◌, ◌^◌, ◌≤◌, ◌<◌, min, max, bit_and, bit_or, digits,
  bit_and-bitwise, bit_or-bitwise,
}
use mathlib.Core.Path.{◌≡◌, refl, ap}
use native.Mathlib.Omega.{arith}
use native.Mathlib.Nat.{pow-suc}
use xha.Prelude.Tests.{◌==◌, if◌then◌else◌}

-- The digit of `a` of weight `2 ^ k`.
abbrev pub bit : ℕ → ℕ → ℕ
bit zero a = a % 2
bit (suc k) a = bit k (a / 2)

-- A digit-wise operation does not depend on its fuel, once there is enough.
module _ (last : ℕ → ℕ) (op : ℕ → ℕ → ℕ) where
  enough_fuel : (a b k l : ℕ) → a ≤ k → a ≤ l → digits last op k a b ≡ digits last op l a b
  enough_fuel zero b zero zero less more = refl
  enough_fuel zero b zero (suc l) less more = refl
  enough_fuel zero b (suc k) zero less more = refl
  enough_fuel zero b (suc k) (suc l) less more = refl
  enough_fuel (suc a) b zero l less more = absurd (omega arith)
  enough_fuel (suc a) b (suc k) zero less more = absurd (omega arith)
  enough_fuel (suc a) b (suc k) (suc l) less more =
      let halves = enough_fuel (suc a / 2) (b / 2) k l (omega arith) (omega arith) in
      ap (λ (t : ℕ). t * 2 + op (suc a % 2) (b % 2)) halves

  digits_step :
      (a b : ℕ)
      → digits last op (suc a) (suc a) b
        ≡ digits last op (suc a / 2) (suc a / 2) (b / 2) * 2 + op (suc a % 2) (b % 2)
  digits_step a b =
      let enough = enough_fuel (suc a / 2) (b / 2) a (suc a / 2) (omega arith) (omega arith) in
      ap (λ (t : ℕ). t * 2 + op (suc a % 2) (b % 2)) enough

-- `&` and `|` on the halves and on the lowest digits.
and_halves : (a b : ℕ) → bit_and a b ≡ bit_and (a / 2) (b / 2) * 2 + min (a % 2) (b % 2)
and_halves zero b = omega (bit_and-bitwise 0 (b / 2), bit_and-bitwise 0 b, arith)
and_halves (suc a) b =
    let step = digits_step (λ b. zero) min a b in
    omega (step, bit_and-bitwise (suc a / 2) (b / 2), bit_and-bitwise (suc a) b, arith)

or_halves : (a b : ℕ) → bit_or a b ≡ bit_or (a / 2) (b / 2) * 2 + max (a % 2) (b % 2)
or_halves zero b = omega (bit_or-bitwise 0 (b / 2), bit_or-bitwise 0 b, arith)
or_halves (suc a) b =
    let step = digits_step (λ b. b) max a b in
    omega (step, bit_or-bitwise (suc a / 2) (b / 2), bit_or-bitwise (suc a) b, arith)

pub bit-lt_two : (k a : ℕ) → bit k a < 2
bit-lt_two zero a = omega arith
bit-lt_two (suc k) a = bit-lt_two k (a / 2)

pub bit-bit_and : (k a b : ℕ) → bit k (bit_and a b) ≡ min (bit k a) (bit k b)
bit-bit_and zero a b = omega (arith, and_halves a b)
bit-bit_and (suc k) a b = rw half (bit-bit_and k (a / 2) (b / 2))
  where
    half : bit_and a b / 2 ≡ bit_and (a / 2) (b / 2)
    half = omega (arith, and_halves a b)

pub bit-bit_or : (k a b : ℕ) → bit k (bit_or a b) ≡ max (bit k a) (bit k b)
bit-bit_or zero a b = omega (arith, or_halves a b)
bit-bit_or (suc k) a b = rw half (bit-bit_or k (a / 2) (b / 2))
  where
    half : bit_or a b / 2 ≡ bit_or (a / 2) (b / 2)
    half = omega (arith, or_halves a b)

pub bit-zero : (k : ℕ) → bit k 0 ≡ 0
bit-zero zero = refl
bit-zero (suc k) = bit-zero k

half-pow : (k : ℕ) → 2 ^ suc k / 2 ≡ 2 ^ k
half-pow k = omega (arith, pow-suc 2 k)

-- `1 << j` has one digit.
pub bit-pow : (k j : ℕ) → bit k (2 ^ j) ≡ (if k == j then 1 else 0)
bit-pow zero zero = refl
bit-pow zero (suc j) = ground (arith, pow-suc 2 j)
bit-pow (suc k) zero = ground (arith, bit-zero k)
bit-pow (suc k) (suc j) = rw (half-pow j) (ground (arith, bit-pow k j))

bit_and_zero : (n a : ℕ) → a ≤ n → bit_and a 0 ≡ 0
bit_and_zero n zero h = refl
bit_and_zero zero (suc a) h = absurd (omega arith)
bit_and_zero (suc n) (suc a) h =
    omega (arith, and_halves (suc a) 0, bit_and_zero n (suc a / 2) (omega arith))

-- Masking by one digit leaves that digit at its weight.
pub bit_and-pow : (k a : ℕ) → bit_and a (2 ^ k) ≡ bit k a * 2 ^ k
bit_and-pow zero a = omega (arith, and_halves a 1, bit_and_zero (a / 2) (a / 2) (omega arith))
bit_and-pow (suc k) a = omega (
  arith,
  and_halves a (2 ^ suc k),
  half-pow k,
  pow-suc 2 k,
  bit_and-pow k (a / 2),
  ap (bit_and (a / 2)) (half-pow k),
  ap (λ (t : ℕ). bit k (a / 2) * t) (pow-suc 2 k),
)

pub pow-pos : (w : ℕ) → 0 < 2 ^ w
pow-pos zero = omega arith
pow-pos (suc w) = omega (arith, pow-suc 2 w, pow-pos w)

-- The low digits of a number: its lowest digit, and the low digits of its half.
mod-pow-suc : (w a : ℕ) → a % 2 ^ suc w ≡ a / 2 % 2 ^ w * 2 + a % 2
mod-pow-suc w a = rw (pow-suc 2 w) (grind (arith, pow-pos w))

half_mod : (w a : ℕ) → a % 2 ^ suc w / 2 ≡ a / 2 % 2 ^ w
half_mod w a = omega (arith, mod-pow-suc w a)

mod_parity : (w a : ℕ) → a % 2 ^ suc w % 2 ≡ a % 2
mod_parity w a = omega (arith, mod-pow-suc w a)

half_complement : (w a : ℕ) → (2 ^ suc w - 1 - a % 2 ^ suc w) / 2 ≡ 2 ^ w - 1 - a / 2 % 2 ^ w
half_complement w a = omega (arith, mod-pow-suc w a, pow-suc 2 w, pow-pos w)

-- The complement within a word of `w` digits, `~a` in C.
pub bit-complement : (w k a : ℕ) → k < w → bit k (2 ^ w - 1 - a % 2 ^ w) ≡ 1 - bit k a
bit-complement zero k a h = absurd (omega arith)
bit-complement (suc w) zero a h = omega (arith, pow-suc 2 w, pow-pos w, mod_parity w a)
bit-complement (suc w) (suc k) a h =
    rw (half_complement w a) (bit-complement w k (a / 2) (omega arith))

-- Two words with the same digits are one.
pub mod_eq_of_bits : (w a b : ℕ) → ((k : ℕ) → k < w → bit k a ≡ bit k b) → a % 2 ^ w ≡ b % 2 ^ w
mod_eq_of_bits zero a b h = omega arith
mod_eq_of_bits (suc w) a b h = omega (
  arith,
  mod-pow-suc w a,
  mod-pow-suc w b,
  h 0 (omega arith),
  mod_eq_of_bits w (a / 2) (b / 2) (λ k lt. h (suc k) (omega arith)),
)

pub bit-mod : (w k a : ℕ) → k < w → bit k (a % 2 ^ w) ≡ bit k a
bit-mod zero k a h = absurd (omega arith)
bit-mod (suc w) zero a h = omega (arith, mod-pow-suc w a)
bit-mod (suc w) (suc k) a h = rw (half_mod w a) (bit-mod w k (a / 2) (omega arith))
