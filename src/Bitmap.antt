-- ===== src/Bitmap.antt =====
-- datatype/bitmap.c and datatype/bitmap.h: bits in an array of bytes.
pub mod Search
mod Tests
use cuore_os.Base.{
  ℕ, zero, suc, ◌+◌, ◌-◌, ◌*◌, ◌/◌, ◌%◌, ◌^◌, bit_and, bit_or, Bool, true, false, not, ltb, ◌==◌,
  if◌then◌else◌, store, u32, u8,
}

unfoldable pub bitmap_set : (map : ℕ → ℕ) → (bit : ℕ) → ℕ → ℕ
bitmap_set map bit = store map (bit / 8) (u8 (bit_or (map (bit / 8)) (2 ^ (bit % 8))))

unfoldable pub bitmap_clear : (map : ℕ → ℕ) → (bit : ℕ) → ℕ → ℕ
bitmap_clear map bit =
    store map (bit / 8) (u8 (bit_and (map (bit / 8)) (2 ^ 32 - 1 - 2 ^ (bit % 8))))

unfoldable pub bitmap_test : (map : ℕ → ℕ) → (bit : ℕ) → Bool
bitmap_test map bit = bit_and (map (bit / 8) / 2 ^ (bit % 8)) 1 == 1

-- The loop from `i` on, for the bits that are left; `(size_t)-1` for none.
unfoldable pub find_clear : (count : ℕ) → (map : ℕ → ℕ) → (i : ℕ) → ℕ
unfolding bitmap_test
find_clear zero map i = 2 ^ 64 - 1
find_clear (suc count) map i =
    let rest = find_clear count map (i + 1) in if bitmap_test map i then rest else i

unfoldable pub bitmap_find_next_free : (map : ℕ → ℕ) → (bit_offset total_bits : ℕ) → ℕ
unfolding find_clear
bitmap_find_next_free map bit_offset total_bits =
    find_clear (total_bits - bit_offset) map bit_offset
