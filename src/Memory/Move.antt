-- ===== src/Memory/Move.antt =====
-- `memmove` of mem/mem.h, with ranges that may overlap.
use cuore_os.Base.{
  ℕ, zero, suc, ◌+◌, ◌-◌, ◌<◌, ◌≡◌, refl, ◌∙◌, true, false, ◌&&◌, ltb, leb, ◌==◌, if◌then◌else◌,
  if_cases, store, Run, ok, arith,
}
use cuore_os.Memory.{is_bad, copy_from, copy_down, memmove}

-- The memory after `n` bytes at `src` have come to `dest` at once.
abbrev pub moved : (dest src n : ℕ) → (ℕ → ℕ) → ℕ → ℕ
moved dest src n mem a = if leb dest a && ltb a (dest + n) then mem (src + (a - dest)) else mem a

copy_from-moved :
    (count i d s : ℕ) (mem : ℕ → ℕ) (a : ℕ)
    → d < s
    → copy_from count i d s mem a ≡ moved (d + i) (s + i) count mem a
unfolding copy_from
copy_from-moved zero i d s mem a h = rw (nothing (d + i)) refl
  where
    nothing : (k : ℕ) → (leb k a && ltb a (k + 0)) ≡ false
    nothing k = ground arith
copy_from-moved (suc count) i d s mem a h =
    copy_from-moved count (i + 1) d s (store mem (d + i) (mem (s + i))) a h ∙ grind arith

copy_down-moved :
    (n d s : ℕ) (mem : ℕ → ℕ) (a : ℕ) → s < d → copy_down n d s mem a ≡ moved d s n mem a
unfolding copy_down
copy_down-moved zero d s mem a h = rw nothing refl
  where
    nothing : (leb d a && ltb a (d + 0)) ≡ false
    nothing = ground arith
copy_down-moved (suc n) d s mem a h =
    copy_down-moved n d s (store mem (d + n) (mem (s + n))) a h ∙ grind arith

-- For ranges that pass the tests, whether they overlap or not, `memmove` returns the memory in
-- which all bytes of the source have come to the destination at once.
pub memmove-moved :
    (dest src n : ℕ) (mem : ℕ → ℕ)
    → is_bad dest n ≡ false
    → is_bad src n ≡ false
    → memmove dest src n mem ≡ ok (moved dest src n mem)
unfolding memmove
memmove-moved dest src n mem h k =
    rw (h, k)
      (if_cases (λ (r : Run (ℕ → ℕ)). r ≡ ok (moved dest src n mem)) (dest == src) _ _
        (λ e. λ i. ok (λ a. in_place e a i))
        (λ e.
          if_cases (λ (r : Run (ℕ → ℕ)). r ≡ ok (moved dest src n mem)) (ltb dest src) _ _
            (λ f. λ i.
              ok (λ a. (copy_from-moved n 0 dest src mem a (ground (arith, f)) ∙ from_zero a) i))
            (λ f. λ i. ok (λ a. copy_down-moved n dest src mem a (ground (arith, e, f)) i))))
  where
    in_place : (dest == src) ≡ true → (a : ℕ) → mem a ≡ moved dest src n mem a
    in_place e a = grind (arith, e)

    from_zero : (a : ℕ) → moved (dest + 0) (src + 0) n mem a ≡ moved dest src n mem a
    from_zero a = grind arith
