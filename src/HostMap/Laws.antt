-- ===== src/HostMap/Laws.antt =====
-- The macros of include/sm.h that read and write one host's bit.
use xha.Prelude.{ℕ, ◌/◌, ◌%◌, ◌≡◌, Bool, true, false, not, ◌&&◌, ◌||◌, ◌==◌, if◌then◌else◌, arith}
use xha.Prelude.Bits.{
  bit, bit-lt_two, bit-bit_and, bit-bit_or, bit-pow, bit_and-pow, bit-complement, pow-pos, bit-zero,
}
use xha.HostMap.{HostMap, u32_not, bitloc, set, reset, is_on, set_boolean, init_reset, init_set}

-- A bit is on where the digit of its word is 1.
pub is_on-bit : (b : HostMap) (n : ℕ) → is_on b n ≡ (bit (n % 32) (b.words (n / 32)) == 1)
unfolding is_on
is_on-bit b n = ground (
  arith,
  bit_and-pow (n % 32) (b.words (n / 32)),
  bit-lt_two (n % 32) (b.words (n / 32)),
  pow-pos (n % 32),
)

same_host : (n m : ℕ) → n / 32 ≡ m / 32 → n % 32 ≡ m % 32 → n ≡ m
same_host n m p q = omega arith

-- MTC_HOSTMAP_SET turns on the bit of one host, and no other.
pub is_on-set : (b : HostMap) (n m : ℕ) → is_on (set b n) m ≡ ((n == m) || is_on b m)
unfolding set
is_on-set b n m = ground (
  arith,
  is_on-bit (set b n) m,
  is_on-bit b m,
  bit-bit_or (m % 32) (b.words (n / 32)) (bitloc n),
  bit-pow (m % 32) (n % 32),
  bit-lt_two (m % 32) (b.words (m / 32)),
  same_host n m,
)

-- MTC_HOSTMAP_RESET turns off the bit of one host, and no other.
pub is_on-reset : (b : HostMap) (n m : ℕ) → is_on (reset b n) m ≡ (not (n == m) && is_on b m)
unfolding reset
is_on-reset b n m = ground (
  arith,
  is_on-bit (reset b n) m,
  is_on-bit b m,
  bit-bit_and (m % 32) (b.words (n / 32)) (u32_not (bitloc n)),
  bit-complement 32 (m % 32) (bitloc n),
  bit-pow (m % 32) (n % 32),
  bit-lt_two (m % 32) (b.words (m / 32)),
  same_host n m,
)

pub is_on-set_boolean :
    (b : HostMap) (n : ℕ) (v : Bool) (m : ℕ)
    → is_on (set_boolean b n v) m ≡ (if n == m then v else is_on b m)
unfolding set_boolean
is_on-set_boolean b n true m = ground (arith, is_on-set b n m)
is_on-set_boolean b n false m = ground (arith, is_on-reset b n m)

pub is_on-init_reset : (m : ℕ) → is_on init_reset m ≡ false
unfolding init_reset
is_on-init_reset m = ground (arith, is_on-bit init_reset m, bit-zero (m % 32))

pub is_on-init_set : (m : ℕ) → is_on init_set m ≡ true
unfolding init_set
is_on-init_set m =
    ground (arith, is_on-bit init_set m, bit-complement 32 (m % 32) 0, bit-zero (m % 32))
