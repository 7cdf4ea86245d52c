-- ===== src/Pma/Words.antt =====
-- The words of bits of mem/pma.c, and the bounds of the class of a size.
use cuore_os.Base.{
  ℕ, zero, suc, ◌+◌, ◌-◌, ◌*◌, ◌/◌, ◌^◌, ◌≤◌, ◌<◌, ◌≡◌, ◌≢◌, refl, sym, ap, ◌∙◌, subst, inl, inr,
  Bool, true, false, Option, none, some, bit_xor, ltb, ltb→lt, all_below-test, Bool-cases, OnSome,
  if_cases, arith,
}
use native.Mathlib.Nat.{pow-suc, pow-le-pow_right, div-lt_iff_lt-mul, one-le-pow}
use cuore_os.Pma.{fls, ffs, is_zero, mapping_insert, small_block_size}

xor_32 : (x : ℕ) → x < 64 → bit_xor x 32 < 64
xor_32 x h = ltb→lt _ _ (all_below-test 64 (λ x. ltb (bit_xor x 32) 64) refl x h)

twice : (a b : ℕ) → b ≡ suc a → 2 ^ b ≡ 2 * 2 ^ a
twice a b e = ap (λ k. 2 ^ k) e ∙ omega (arith, pow-suc 2 a)

fls-below : (fuel n : ℕ) → n < 2 ^ fuel → n < 2 ^ (fls fuel n + 1)
unfolding fls
fls-below zero n h = omega (arith, h)
fls-below (suc fuel) n h = elim (Bool-cases (ltb n 2)) [
  | inl e ↦ rw e (ground (arith, e))
  | inr e ↦ rw e (
      omega (
        arith,
        fls-below fuel (n / 2) (omega (arith, h, pow-suc 2 fuel)),
        twice (fls fuel (n / 2) + 1) (suc (fls fuel (n / 2)) + 1) (omega arith),
      ))
]

large : (size fl : ℕ) → small_block_size ≤ size → size < 2 ^ (fl + 1) → 17 ≤ fl
large size fl low high = elim (Bool-cases (ltb fl 17)) [
  | inl e ↦ absurd (
      omega (
        arith,
        low,
        high,
        pow-le-pow_right {n = 2} (omega arith) {i = fl + 1} {j = 17} (ground (arith, e)),
      ))
  | inr e ↦ ground (arith, e)
]

shifted : (size k : ℕ) → size < 2 ^ (k + 6) → size / 2 ^ k < 64
shifted size k h = (div-lt_iff_lt-mul (one-le-pow k 2 (omega arith))).1 (
    omega (
      arith,
      h,
      twice k (k + 1) (omega arith),
      twice (k + 1) (k + 2) (omega arith),
      twice (k + 2) (k + 3) (omega arith),
      twice (k + 3) (k + 4) (omega arith),
      twice (k + 4) (k + 5) (omega arith),
      twice (k + 5) (k + 6) (omega arith),
    ))

-- The second index of the class of a size of 64 bits is that of a bit.
pub mapping_insert-below : (size : ℕ) → size < 2 ^ 64 → (mapping_insert size).1 < 64
unfolding mapping_insert
mapping_insert-below size h =
    if_cases (λ (r : ℕ × ℕ). r.1 < 64) (ltb size small_block_size) _ _ (λ e. ground (arith, e))
      (λ e.
        let top : size < 2 ^ (fls 64 size + 1) = fls-below 64 size h in
        let enough : 17 ≤ fls 64 size = large size (fls 64 size) (ground (arith, e)) top in
        xor_32 _
          (shifted size (fls 64 size - 5) (subst (λ k. size < 2 ^ k) (omega (arith, enough)) top)))

pub ffs-set : (count from : ℕ) (word : ℕ → Bool) → OnSome (λ i. word i ≡ true) (ffs count from word)
unfolding ffs
ffs-set zero from word = tt
ffs-set (suc count) from word =
    if_cases (OnSome (λ i. word i ≡ true)) (word from) _ _ (λ e. e)
      (λ e. ffs-set count (from + 1) word)

pub ffs-finds :
    (count from : ℕ) (word : ℕ → Bool) (i : ℕ)
    → from ≤ i
    → i < from + count
    → word i ≡ true
    → ffs count from word ≢ none
unfolding ffs
ffs-finds zero from word i low high h = absurd (omega (arith, low, high))
ffs-finds (suc count) from word i low high h =
    if_cases (λ (r : Option ℕ). r ≢ none) (word from) _ _ (λ e q. some-not_none q)
      (λ e. ffs-finds count (from + 1) word i (behind e) (omega (arith, high)) h)
  where
    some-not_none : ¬ (some from ≡ none)
    some-not_none q = ground (arith, q)

    behind : word from ≡ false → from + 1 ≤ i
    behind e = elim (Bool-cases (ltb from i)) [
      | inl t ↦ ground (arith, t)
      | inr t ↦
          let same : from ≡ i = ground (arith, t, low) in
          absurd (different (sym h ∙ sym (ap word same) ∙ e))
    ]
      where
        different : ¬ (true ≡ false)
        different q = ground (arith, q)

pub is_zero-set : (word : ℕ → Bool) (i : ℕ) → i < 64 → word i ≡ true → is_zero word ≡ false
unfolding is_zero
is_zero-set word i k h =
    go (ffs 64 0 word) (ffs-finds 64 0 word i (omega arith) (omega (arith, k)) h)
  where
    go :
        (o : Option ℕ) → o ≢ none → (elim o as (λ _. Bool) [ none ↦ true | some _ ↦ false ]) ≡ false
    go none ne = absurd (ne refl)
    go (some j) ne = refl

-- A word that is not zero has a first bit.
pub ffs-some : (word : ℕ → Bool) → is_zero word ≡ false → ffs 64 0 word ≢ none
unfolding is_zero
ffs-some word h q =
    different
      (sym (ap (λ (o : Option ℕ). elim o as (λ _. Bool) [ none ↦ true | some _ ↦ false ]) q) ∙ h)
  where
    different : ¬ (true ≡ false)
    different q = ground (arith, q)
