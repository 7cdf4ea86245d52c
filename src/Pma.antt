-- ===== src/Pma.antt =====
-- mem/pma.c and mem/pma.h: the allocator of physical pages, two zones of free blocks in size classes.
-- A circular list of blocks is the list of their physical addresses, a word of bits is a function from
-- the bit, and the header that a free block has in its own memory is the word at its address. The
-- spinlocks are left out: every operation runs under the lock of its zone.
pub mod Lists
pub mod Alloc
pub mod Release
pub mod Init
pub mod Words
mod Count
pub mod Sound
pub mod Change
pub mod Place
pub mod Allocates
mod Tests
use cuore_os.Vmm.{page_size}
use cuore_os.Base.{
  ℕ, zero, suc, ◌+◌, ◌-◌, ◌*◌, ◌/◌, ◌^◌, bit_xor, Bool, true, false, not, ◌&&◌, ◌||◌, Option, none,
  some, List, [], ◌∷◌, ltb, leb, ◌==◌, if◌then◌else◌,
}

-- PMA_ZONE_32BIT, in pages.
abbrev pub zone_32bit : ℕ
zone_32bit = 0x100000000 / page_size

-- `sizeof(pma_free_block_t)`: two pointers and a size.
abbrev pub block_header_size : ℕ
block_header_size = 24

abbrev pub fl_index_count : ℕ
fl_index_count = 32

-- PMA_SMALL_BLOCK_SIZE
abbrev pub small_block_size : ℕ
small_block_size = 2 ^ 17

-- `pma_fls` of a number above 0, on fuel for the 64 bits.
unfoldable pub fls : (fuel : ℕ) → ℕ → ℕ
fls zero word = 0
fls (suc fuel) word = let rest = fls fuel (word / 2) in if ltb word 2 then 0 else suc rest

-- The class of a size, by `tlsf_mapping_insert`.
unfoldable pub mapping_insert : (size : ℕ) → ℕ × ℕ
unfolding fls
mapping_insert size =
    let fl = fls 64 size in
    if ltb size small_block_size
    then (0, size / 2 ^ 12)
    else (fl - 16, bit_xor (size / 2 ^ (fl - 5)) (2 ^ 5))

-- `pma_ffs` of a word without its bits below `from`: the first bit that is set, of `count` ones.
unfoldable pub ffs : (count from : ℕ) → (ℕ → Bool) → Option ℕ
ffs zero from word = none
ffs (suc count) from word =
    let rest = ffs count (from + 1) word in if word from then some from else rest

-- A word is 0 when none of its bits is set.
unfoldable pub is_zero : (ℕ → Bool) → Bool
unfolding ffs
is_zero word = elim (ffs 64 0 word) [ none ↦ true | some _ ↦ false ]

-- `pma_zone_t`: what is its own. `block_null` is the address of the sentinel that ends the lists.
pub record Zone : Type 0 where
  pub block_null : ℕ
  pub total_pages : ℕ
  pub fl_bitmap : ℕ → Bool
  pub sl_bitmap : ℕ → ℕ → Bool
  pub blocks : ℕ → ℕ → List ℕ

-- A zone with what it shares with the other: the bitmap of the used pages and the memory that holds
-- the sizes of the blocks, without the bit that marks them free.
pub record Memory : Type 0 where
  pub bitmap : ℕ → Bool
  pub header : ℕ → ℕ
  pub zone : Zone

abbrev pub set_bit : (ℕ → Bool) → ℕ → Bool → ℕ → Bool
set_bit word i b j = if j == i then b else word j

abbrev pub set_class {ℓ} : {A : Type ℓ} → (ℕ → ℕ → A) → (fl sl : ℕ) → A → ℕ → ℕ → A
set_class f fl sl a i j = if (i == fl) && (j == sl) then a else f i j
