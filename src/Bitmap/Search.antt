-- ===== src/Bitmap/Search.antt =====
-- `bitmap_find_next_free` of datatype/bitmap.c finds the first bit that is clear.
use cuore_os.Base.{ℕ, ◌+◌, ◌-◌, ◌^◌, ◌≤◌, ◌<◌, ◌≡◌, true, false}
use cuore_os.Bitmap.{bitmap_test}

-- The first clear bit from `i` up to `n`, or `(size_t)-1`.
pub data IsNextFree : (map : ℕ → ℕ) → (i n : ℕ) → ℕ → Type 0 where
  all_set : {map : ℕ → ℕ} (i n : ℕ) → n ≤ i → IsNextFree map i n (2 ^ 64 - 1)
  clear_here : {map : ℕ → ℕ} (i n : ℕ) → i < n → bitmap_test map i ≡ false → IsNextFree map i n i
  set_here :
      {map : ℕ → ℕ} {result : ℕ} (i n : ℕ)
      → i < n
      → bitmap_test map i ≡ true
      → IsNextFree map (i + 1) n result
      → IsNextFree map i n result
