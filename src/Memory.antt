-- ===== src/Memory.antt =====
-- mem/mem.h: the routines on memory and strings. Memory is a function from the address; a string is the
-- list of its bytes without the terminator, so that reading past it does not arise.
pub mod Move
pub mod Compare
mod Tests
use cuore_os.Base.{
  ℕ, zero, suc, ◌+◌, ◌-◌, ◌*◌, ◌%◌, ◌^◌, Bool, true, false, not, ◌&&◌, ◌||◌, List, [], ◌∷◌, u8, u32,
  u64, ltb, leb, ◌==◌, if◌then◌else◌, store, Run, ok, panic,
}

-- Sign extension of the low 57 bits.
unfoldable pub ptr_is_canonical : (p : ℕ) → Bool
ptr_is_canonical p =
    let low = p % 2 ^ 57 in p == (if ltb low (2 ^ 56) then low else low + 2 ^ 64 - 2 ^ 57)

unfoldable pub range_is_safe : (p n : ℕ) → Bool
unfolding ptr_is_canonical
range_is_safe p n =
    let end = u64 (p + n + (2 ^ 64 - 1)) in
    if n == 0 then true else if ltb end p then false else ptr_is_canonical p && ptr_is_canonical end

abbrev pub is_bad : (p n : ℕ) → Bool
is_bad p n = p == 0 || not (range_is_safe p n)

-- The loops that go up from `i`, and the one that goes down from `n`.
unfoldable pub fill_from : (count i : ℕ) → (s c : ℕ) → (ℕ → ℕ) → ℕ → ℕ
fill_from zero i s c mem = mem
fill_from (suc count) i s c mem = fill_from count (i + 1) s c (store mem (s + i) (u8 c))

unfoldable pub copy_from : (count i : ℕ) → (d s : ℕ) → (ℕ → ℕ) → ℕ → ℕ
copy_from zero i d s mem = mem
copy_from (suc count) i d s mem = copy_from count (i + 1) d s (store mem (d + i) (mem (s + i)))

unfoldable pub copy_down : (i : ℕ) → (d s : ℕ) → (ℕ → ℕ) → ℕ → ℕ
copy_down zero d s mem = mem
copy_down (suc i) d s mem = copy_down i d s (store mem (d + i) (mem (s + i)))

unfoldable pub memset : (s c n : ℕ) → (ℕ → ℕ) → Run (ℕ → ℕ)
unfolding fill_from
memset s c n mem = if is_bad s n then panic else ok (fill_from n 0 s c mem)

unfoldable pub memcpy : (dest src n : ℕ) → (ℕ → ℕ) → Run (ℕ → ℕ)
unfolding copy_from
memcpy dest src n mem =
    if is_bad dest n || is_bad src n then panic else ok (copy_from n 0 dest src mem)

unfoldable pub memmove : (dest src n : ℕ) → (ℕ → ℕ) → Run (ℕ → ℕ)
unfolding copy_from copy_down
memmove dest src n mem =
    if is_bad dest n || is_bad src n
    then panic
    else if dest == src
    then ok mem
    else if ltb dest src
    then ok (copy_from n 0 dest src mem)
    else ok (copy_down n dest src mem)

-- The bits of an `int` that is a difference of two bytes.
abbrev pub byte_difference : ℕ → ℕ → ℕ
byte_difference c d = u32 (c + 2 ^ 32 - d)

unfoldable pub compare_from : (count : ℕ) → (p q : ℕ) → (ℕ → ℕ) → ℕ
compare_from zero p q mem = 0
compare_from (suc count) p q mem =
    let rest = compare_from count (p + 1) (q + 1) mem in
    if mem p == mem q then rest else byte_difference (mem p) (mem q)

unfoldable pub memcmp : (p q n : ℕ) → (ℕ → ℕ) → Run ℕ
unfolding compare_from
memcmp p q n mem = if is_bad p n || is_bad q n then panic else ok (compare_from n p q mem)

unfoldable pub strcmp : List ℕ → List ℕ → ℕ
strcmp [] [] = 0
strcmp [] (d ∷ t) = byte_difference 0 d
strcmp (c ∷ s) [] = byte_difference c 0
strcmp (c ∷ s) (d ∷ t) = let rest = strcmp s t in if c == d then rest else byte_difference c d

unfoldable pub strncmp : (n : ℕ) → List ℕ → List ℕ → ℕ
strncmp zero s t = 0
strncmp (suc n) [] [] = 0
strncmp (suc n) [] (d ∷ t) = byte_difference 0 d
strncmp (suc n) (c ∷ s) [] = byte_difference c 0
strncmp (suc n) (c ∷ s) (d ∷ t) =
    let rest = strncmp n s t in if c == d then rest else byte_difference c d

-- `strncpy`, to an array: the string, and zeros up to `n`.
unfoldable pub strncpy : (n : ℕ) → List ℕ → (i : ℕ) → (ℕ → ℕ) → ℕ → ℕ
strncpy zero src i dest = dest
strncpy (suc n) [] i dest = strncpy n [] (i + 1) (store dest i 0)
strncpy (suc n) (c ∷ src) i dest = strncpy n src (i + 1) (store dest i c)
