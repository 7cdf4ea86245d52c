-- ===== src/Bitmap/Tests.antt =====
-- Tests of the bitmap.
use cuore_os.Base.{ℕ, ◌≡◌, refl, true, false}
use cuore_os.Bitmap.{bitmap_set, bitmap_clear, bitmap_test, find_clear, bitmap_find_next_free}

abbrev no_bits : ℕ → ℕ
no_bits i = 0

set_and_clear :
    (bitmap_test (bitmap_set no_bits 11) 11 ≡ true)
    × (bitmap_test (bitmap_clear (bitmap_set no_bits 11) 11) 11 ≡ false)
unfolding bitmap_test bitmap_set bitmap_clear
set_and_clear = (refl, refl)

second_bit : bitmap_find_next_free (bitmap_set no_bits 8) 8 16 ≡ 9
unfolding bitmap_find_next_free find_clear bitmap_test bitmap_set
second_bit = refl
