-- ===== src/Memory/Compare.antt =====
-- `strcmp` of mem/mem.h.
use cuore_os.Base.{
  ℕ, ◌<◌, ◌≡◌, ◌↔◌, refl, ◌∙◌, ap, subst, Bool-cases, inl, inr, List, [], ◌∷◌, ◌==◌, ==_iff, All,
  if_cases, arith,
}
use cuore_os.Memory.{strcmp}

-- A byte of a string, which is not the terminator.
abbrev pub IsByte : ℕ → Type 0
IsByte c = (0 < c) × (c < 256)

strcmp_same : (s : List ℕ) → strcmp s s ≡ 0
unfolding strcmp
strcmp_same [] = refl
strcmp_same (c ∷ s) =
    if_cases (λ r. r ≡ 0) (c == c) _ _ (λ e. strcmp_same s) (λ e. ground (arith, e))

strcmp_equal : (s t : List ℕ) → All IsByte s → All IsByte t → strcmp s t ≡ 0 → s ≡ t
unfolding strcmp
strcmp_equal [] [] h k e = refl
strcmp_equal [] (d ∷ t) h k e = ground (arith, k.0, e)
strcmp_equal (c ∷ s) [] h k e = ground (arith, h.0, e)
strcmp_equal (c ∷ s) (d ∷ t) h k e = elim (Bool-cases (c == d)) [
  | inl f ↦
      ap (λ x. x ∷ s) ((==_iff c d).0 f) ∙ ap (λ r. d ∷ r) (strcmp_equal s t h.1 k.1 (rw f at e))
  | inr f ↦ ground (arith, f, h.0, k.0, rw f at e)
]

-- For strings of bytes other than the terminator, `strcmp` is 0 just when they are equal.
pub strcmp-zero_iff : (s t : List ℕ) → All IsByte s → All IsByte t → (strcmp s t ≡ 0) ↔ (s ≡ t)
strcmp-zero_iff s t h k = (strcmp_equal s t h k, λ e. subst (λ r. strcmp s r ≡ 0) e (strcmp_same s))
