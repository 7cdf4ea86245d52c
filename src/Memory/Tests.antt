-- ===== src/Memory/Tests.antt =====
-- Tests of the routines on memory and strings.
use cuore_os.Base.{ℕ, ◌-◌, ◌%◌, ◌^◌, ◌≡◌, ◌↔◌, refl, List, [], ◌∷◌, bytes, ok, panic, arith}
use cuore_os.Memory.{
  ptr_is_canonical, range_is_safe, copy_down, memset, memmove, strcmp, strncmp, strncpy,
}
use cuore_os.Memory.Move.{moved, memmove-moved}
use cuore_os.Memory.Compare.{strcmp-zero_iff}

abbrev own_address : ℕ → ℕ
own_address a = a % 256

null_is_refused : memset 0 1 1 own_address ≡ panic
unfolding memset range_is_safe ptr_is_canonical
null_is_refused = refl

overlap : copy_down 4 0x1002 0x1000 own_address 0x1005 ≡ 3
unfolding copy_down
overlap = refl

prefixes :
    (strcmp (bytes "ab") (bytes "abc") ≡ 2 ^ 32 - 99) × (strncmp 2 (bytes "ab") (bytes "abc") ≡ 0)
unfolding strcmp strncmp
prefixes = (refl, refl)

padded : strncpy 4 (bytes "ab") 0 own_address 3 ≡ 0
unfolding strncpy
padded = refl

memmove-moved_example : memmove 0x1002 0x1000 4 own_address ≡ ok (moved 0x1002 0x1000 4 own_address)
unfolding range_is_safe ptr_is_canonical
memmove-moved_example = memmove-moved 0x1002 0x1000 4 own_address refl refl

abbrev one : List ℕ
one = 98 ∷ []

abbrev two : List ℕ
two = 99 ∷ []

strcmp-zero_iff_example : (strcmp one two ≡ 0) ↔ (one ≡ two)
strcmp-zero_iff_example =
    strcmp-zero_iff one two ((omega arith, omega arith), tt) ((omega arith, omega arith), tt)
