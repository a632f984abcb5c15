-- ===== src/HostMap/Sets.antt =====
-- The macros of include/sm.h that combine and compare whole maps.
use xha.Prelude.{
  ℕ, ◌+◌, ◌-◌, ◌*◌, ◌/◌, ◌%◌, ◌^◌, ◌<◌, ◌≡◌, ap, ◌↔◌, Bool, true, false, not, ◌&&◌, ◌||◌, ◌==◌, ltb,
  if◌then◌else◌, arith,
}
use xha.Prelude.Bits.{
  bit, bit-lt_two, bit-bit_and, bit-bit_or, bit-complement, bit-mod, mod_eq_of_bits,
}
use xha.Prelude.Hosts.{for_hosts_inv, all_hosts_elim, all_hosts_intro}
use xha.HostMap.{
  HostMap, u32_not, max_host_num, elem_num, is_on, reset, compare, subset_equal, difference, union,
  intersection, complement, mask_unconfig,
}
use xha.HostMap.Laws.{is_on-bit, is_on-reset}

module _ (b c : HostMap) (m : ℕ) where
  pub is_on-union : is_on (union b c) m ≡ (is_on b m || is_on c m)
  unfolding union
  is_on-union = ground (
    arith,
    is_on-bit (union b c) m,
    is_on-bit b m,
    is_on-bit c m,
    bit-bit_or (m % 32) (b.words (m / 32)) (c.words (m / 32)),
    bit-lt_two (m % 32) (b.words (m / 32)),
    bit-lt_two (m % 32) (c.words (m / 32)),
  )

  pub is_on-intersection : is_on (intersection b c) m ≡ (is_on b m && is_on c m)
  unfolding intersection
  is_on-intersection = ground (
    arith,
    is_on-bit (intersection b c) m,
    is_on-bit b m,
    is_on-bit c m,
    bit-bit_and (m % 32) (b.words (m / 32)) (c.words (m / 32)),
    bit-lt_two (m % 32) (b.words (m / 32)),
    bit-lt_two (m % 32) (c.words (m / 32)),
  )

  pub is_on-difference : is_on (difference b c) m ≡ (is_on b m && not (is_on c m))
  unfolding difference
  is_on-difference = ground (
    arith,
    is_on-bit (difference b c) m,
    is_on-bit b m,
    is_on-bit c m,
    bit-bit_and (m % 32) (b.words (m / 32)) (u32_not (c.words (m / 32))),
    bit-complement 32 (m % 32) (c.words (m / 32)),
    bit-lt_two (m % 32) (b.words (m / 32)),
    bit-lt_two (m % 32) (c.words (m / 32)),
  )

pub is_on-complement : (b : HostMap) (m : ℕ) → is_on (complement b) m ≡ not (is_on b m)
unfolding complement
is_on-complement b m = ground (
  arith,
  is_on-bit (complement b) m,
  is_on-bit b m,
  bit-complement 32 (m % 32) (b.words (m / 32)),
  bit-lt_two (m % 32) (b.words (m / 32)),
)

-- The four set operations of include/sm.h, host by host.
pub set_operations :
    (b c : HostMap) (m : ℕ)
    → (is_on (union b c) m ≡ (is_on b m || is_on c m))
      × (is_on (intersection b c) m ≡ (is_on b m && is_on c m))
      × (is_on (difference b c) m ≡ (is_on b m && not (is_on c m)))
      × (is_on (complement b) m ≡ not (is_on b m))
set_operations b c m =
    (is_on-union b c m, is_on-intersection b c m, is_on-difference b c m, is_on-complement b m)

-- MTC_HOSTMAP_SUBSETEQUAL holds exactly when each host of the first map is in the second.
pub subset_equal_iff :
    (b c : HostMap)
    → (subset_equal b c ≡ true) ↔ ((m : ℕ) → m < max_host_num → is_on b m ≡ true → is_on c m ≡ true)
unfolding subset_equal
subset_equal_iff b c = (
  λ h m lt on. ground (arith, all_hosts_elim max_host_num member h m lt),
  λ h. all_hosts_intro max_host_num member (λ m lt. ground (arith, h m lt)),
)
  where
    member : ℕ → Bool
    member i = not (is_on b i && not (is_on c i))

-- On the 64 possible hosts, masking a map keeps the bits of the configured hosts and clears the
-- others.
pub is_on-mask_unconfig :
    (hostnum : ℕ) (b : HostMap) (m : ℕ)
    → m < max_host_num
    → is_on (mask_unconfig hostnum b) m ≡ (is_on b m && ltb m hostnum)
unfolding mask_unconfig
is_on-mask_unconfig hostnum b m lt = ground (
  arith,
  for_hosts_inv (λ k c. is_on c m ≡ (is_on b m && (ltb m hostnum || not (ltb m k)))) max_host_num
      (λ i c. if not (ltb i hostnum) then reset c i else c) b (ground arith)
      (λ i c il h. ground (arith, is_on-reset c i m)),
)

module _ (b c : HostMap) where
  abbrev same_word : ℕ → Bool
  same_word i = (b.words i % 2 ^ 32 + 2 ^ 32 - c.words i % 2 ^ 32) % 2 ^ 32 == 0

  same_word-bit : (m : ℕ) → same_word (m / 32) ≡ true → is_on b m ≡ is_on c m
  same_word-bit m h = ground (
    arith,
    is_on-bit b m,
    is_on-bit c m,
    ap (bit (m % 32)) (words_eq (m / 32) h),
    bit-mod 32 (m % 32) (b.words (m / 32)),
    bit-mod 32 (m % 32) (c.words (m / 32)),
  )
    where
      words_eq : (i : ℕ) → same_word i ≡ true → b.words i % 2 ^ 32 ≡ c.words i % 2 ^ 32
      words_eq i e = ground arith

  bits_same_word :
      (i : ℕ)
      → ((k : ℕ) → k < 32 → is_on b (i * 32 + k) ≡ is_on c (i * 32 + k))
      → same_word i ≡ true
  bits_same_word i h = ground (arith, mod_eq_of_bits 32 (b.words i) (c.words i) digit)
    where
      digit : (k : ℕ) → k < 32 → bit k (b.words i) ≡ bit k (c.words i)
      digit k lt =
          let at : (i * 32 + k) / 32 ≡ i = omega arith in
          let low : (i * 32 + k) % 32 ≡ k = omega arith in
          ground (
            arith,
            h k lt,
            is_on-bit b (i * 32 + k),
            is_on-bit c (i * 32 + k),
            bit-lt_two k (b.words i),
            bit-lt_two k (c.words i),
          )

  -- MTC_HOSTMAP_COMPARE finds no difference exactly when the maps agree on every host.
  pub compare_iff : (compare b c ≡ false) ↔ ((m : ℕ) → m < max_host_num → is_on b m ≡ is_on c m)
  unfolding compare
  compare_iff = (
    λ h m lt.
        same_word-bit m (all_hosts_elim elem_num same_word (ground arith) (m / 32) (omega arith)),
    λ h. rw (
        all_hosts_intro elem_num same_word
          (λ i lt. bits_same_word i (λ k kl. h (i * 32 + k) (omega arith)))),
  )
