-- ===== src/HostMap.antt =====
-- include/sm.h: the per-host bitmaps MTC_HOSTMAP and the macros on them.
-- A map is an array of 32-bit words; here it is indexed by any number, and the code reaches
-- `elem_num` of its words. A host is found in word `host / 32`, at digit `host % 32`.
pub mod Laws
pub mod Sets
use Prim.Native.Nat.{bit_and, bit_or}
use xha.Prelude.{
  ℕ, ◌+◌, ◌-◌, ◌/◌, ◌%◌, ◌^◌, Bool, true, false, not, ◌&&◌, ◌||◌, ◌==◌, ltb, if◌then◌else◌,
}
use xha.Prelude.Hosts.{update, for_hosts, all_hosts}

-- MAX_HOST_NUM of include/xha.h
abbrev pub max_host_num : ℕ
max_host_num = 64

-- MTC_HOSTMAP_UNIT
abbrev pub hostmap_unit : ℕ
hostmap_unit = 32

-- `_rounddiv(MAX_HOST_NUM, MTC_HOSTMAP_UNIT)`
abbrev pub elem_num : ℕ
elem_num = (max_host_num + hostmap_unit - 1) / hostmap_unit

pub record HostMap : Type 0 where
  pub words : ℕ → ℕ

-- `~x` on MTC_U32
abbrev pub u32_not : ℕ → ℕ
u32_not x = 2 ^ 32 - 1 - x % 2 ^ 32

abbrev pub element : ℕ → ℕ
element hostnum = hostnum / hostmap_unit

abbrev pub bitloc : ℕ → ℕ
bitloc hostnum = 2 ^ (hostnum % hostmap_unit)

unfoldable pub set : HostMap → ℕ → HostMap
set b hostnum = record {
  words = update b.words (element hostnum) (bit_or (b.words (element hostnum)) (bitloc hostnum));
}

unfoldable pub reset : HostMap → ℕ → HostMap
reset b hostnum = record {
  words =
      update b.words (element hostnum)
        (bit_and (b.words (element hostnum)) (u32_not (bitloc hostnum)));
}

unfoldable pub is_on : HostMap → ℕ → Bool
is_on b hostnum = not (bit_and (b.words (element hostnum)) (bitloc hostnum) == 0)

unfoldable pub set_boolean : HostMap → ℕ → Bool → HostMap
set_boolean b hostnum boolean = if boolean then set b hostnum else reset b hostnum

unfoldable pub init_reset : HostMap
init_reset = record { words = λ i. 0 }

unfoldable pub init_set : HostMap
init_set = record { words = λ i. u32_not 0 }

-- TRUE where the two maps differ: `(b1)[i] - (b2)[i]` in 32 bits is not 0 for some word.
unfoldable pub compare : HostMap → HostMap → Bool
compare b1 b2 =
    not
      (all_hosts elem_num (λ i. (b1.words i % 2 ^ 32 + 2 ^ 32 - b2.words i % 2 ^ 32) % 2 ^ 32 == 0))

unfoldable pub subset_equal : HostMap → HostMap → Bool
subset_equal b1 b2 = all_hosts max_host_num (λ i. not (is_on b1 i && not (is_on b2 i)))

unfoldable pub difference : HostMap → HostMap → HostMap
difference b2 b3 = record { words = λ i. bit_and (b2.words i) (u32_not (b3.words i)) }

unfoldable pub union : HostMap → HostMap → HostMap
union b2 b3 = record { words = λ i. bit_or (b2.words i) (b3.words i) }

unfoldable pub intersection : HostMap → HostMap → HostMap
intersection b2 b3 = record { words = λ i. bit_and (b2.words i) (b3.words i) }

unfoldable pub complement : HostMap → HostMap
complement b2 = record { words = λ i. u32_not (b2.words i) }

-- `hostnum` is `ha_config.common.hostnum`, of `_is_configured_host`.
unfoldable pub mask_unconfig : ℕ → HostMap → HostMap
mask_unconfig hostnum b1 =
    for_hosts max_host_num (λ i b. if not (ltb i hostnum) then reset b i else b) b1
