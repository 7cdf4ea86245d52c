-- ===== src/Stdio/Fuel.antt =====
-- The main loop of `vsnprintf` ends: every turn consumes some of the format.
use cuore_os.Base.{
  ℕ, zero, suc, ◌+◌, ◌-◌, ◌*◌, ◌^◌, ◌||◌, Bool, Bool-cases, inl, inr, Option, none, ap, ◌≤◌, ◌≡◌,
  refl, false, List, [], ◌∷◌, leb, ◌==◌, if◌then◌else◌, if_cases, length, is_digit, arith,
}
use cuore_os.Stdio.{Output}
use cuore_os.Stdio.Format.{Flags, Arg, no_flags, len_h, len_hh, len_l, len_ll, Length}
use cuore_os.Stdio.Spec.{
  Spec, is_flag, add_flag, flags_of, digits_of, star_width, read_width, skip_precision,
  read_precision, twice, length_of, read_length, read_sizes, read_spec,
}
use cuore_os.Stdio.Print.{literal, behind_literal, behind_char, write_literal, format_from}

flags_of-length : (p : List ℕ) (flags : Flags) → length (flags_of p flags).1 ≤ length p
unfolding flags_of
flags_of-length [] flags = omega arith
flags_of-length (c ∷ p) flags =
    if_cases (λ (r : Flags × List ℕ). length r.1 ≤ suc (length p)) (is_flag c) _ _
      (λ e. omega (arith, flags_of-length p (add_flag c flags))) (λ e. omega arith)

digits_of-length : (p : List ℕ) (n : ℕ) → length (digits_of p n).1 ≤ length p
unfolding digits_of
digits_of-length [] n = omega arith
digits_of-length (c ∷ p) n =
    if_cases (λ (r : ℕ × List ℕ). length r.1 ≤ suc (length p)) (is_digit c) _ _
      (λ e. omega (arith, digits_of-length p (n * 10 + (c - b'0')))) (λ e. omega arith)

star_width-rest : (spec : Spec) (p : List ℕ) → (star_width spec p).rest ≡ p
unfolding star_width
star_width-rest spec p = if_cases (λ (r : Spec). r.rest ≡ p) (leb _ _) _ _ (λ e. refl) (λ e. refl)

read_width-length :
    (spec : Spec) (p : List ℕ)
    → length spec.rest ≤ length p
    → length (read_width spec p).rest ≤ length p
unfolding read_width
read_width-length spec [] h = h
read_width-length spec (c ∷ p) h =
    if_cases (λ (r : Spec). length r.rest ≤ suc (length p)) (c == b'*') _ _
      (λ e. rw (star_width-rest spec p) (omega arith)) (λ e. digits_of-length (c ∷ p) 0)

skip_precision-length : (spec : Spec) (p : List ℕ) → length (skip_precision spec p).rest ≤ length p
unfolding skip_precision
skip_precision-length spec [] = omega arith
skip_precision-length spec (c ∷ p) =
    if_cases (λ (r : Spec). length r.rest ≤ suc (length p)) (c == b'*') _ _ (λ e. omega arith)
      (λ e. digits_of-length (c ∷ p) 0)

read_precision-length :
    (spec : Spec) (p : List ℕ)
    → length spec.rest ≤ length p
    → length (read_precision spec p).rest ≤ length p
unfolding read_precision
read_precision-length spec [] h = h
read_precision-length spec (c ∷ p) h =
    if_cases (λ (r : Spec). length r.rest ≤ suc (length p)) (c == b'.') _ _
      (λ e. omega (arith, skip_precision-length spec p)) (λ e. h)

twice-length : (c : ℕ) (one two : Length) (p : List ℕ) → length (twice c one two p).1 ≤ length p
unfolding twice
twice-length c one two [] = omega arith
twice-length c one two (d ∷ p) =
    if_cases (λ (r : Length × List ℕ). length r.1 ≤ suc (length p)) (d == c) _ _ (λ e. omega arith)
      (λ e. omega arith)

length_of-length : (p : List ℕ) → length (length_of p).1 ≤ length p
unfolding length_of
length_of-length [] = omega arith
length_of-length (c ∷ p) =
    if_cases bound (c == b'h') _ _ (λ e. omega (arith, twice-length b'h' len_h len_hh p))
      (λ e.
        if_cases bound (c == b'l') _ _ (λ e. omega (arith, twice-length b'l' len_l len_ll p))
          (λ e.
            if_cases bound (c == b'z') _ _ (λ e. omega arith)
              (λ e.
                if_cases bound (c == b'j') _ _ (λ e. omega arith)
                  (λ e. if_cases bound (c == b't') _ _ (λ e. omega arith) (λ e. omega arith)))))
  where
    bound : Length × List ℕ → Type 0
    bound r = length r.1 ≤ suc (length p)

read_sizes-length : (spec : Spec) → length (read_sizes spec).rest ≤ length spec.rest
unfolding read_sizes read_length
read_sizes-length spec = omega (arith, first, second, length_of-length precise.rest)
  where
    sized : Spec
    sized = read_width spec spec.rest

    precise : Spec
    precise = read_precision sized sized.rest

    first : length sized.rest ≤ length spec.rest
    first = read_width-length spec spec.rest (omega arith)

    second : length precise.rest ≤ length sized.rest
    second = read_precision-length sized sized.rest (omega arith)

read_spec-length : (p : List ℕ) (args : List Arg) → length (read_spec p args).rest ≤ length p
unfolding read_spec
read_spec-length p args = omega (arith, flags_of-length p no_flags, read_sizes-length _)

behind_literal-length : (p : List ℕ) → length (behind_literal p) ≤ length p
unfolding behind_literal
behind_literal-length [] = omega arith
behind_literal-length (c ∷ p) =
    if_cases (λ (r : List ℕ). length r ≤ suc (length p)) (c == b'%') _ _ (λ e. omega arith)
      (λ e. omega (arith, behind_literal-length p))

behind_char-length : (p : List ℕ) → length (behind_char p) ≡ length p - 1
behind_char-length [] = omega arith
behind_char-length (c ∷ p) = omega arith

module _ {ℓ} {C : Type ℓ} (out : Output C) where
  -- The main loop of `vsnprintf`, over any output, comes to its end, or to a place where it has
  -- no result, in as many turns as the format has bytes: with fuel for at least those, any more
  -- makes no difference.
  pub format_from-fuel :
      (fuel more : ℕ) (p : List ℕ) (args : List Arg) (ctx : C)
      → length p ≤ fuel
      → fuel ≤ more
      → format_from out more p args ctx ≡ format_from out fuel p args ctx
  unfolding format_from write_literal behind_literal literal
  format_from-fuel zero zero p args ctx h k = refl
  format_from-fuel zero (suc more) [] args ctx h k = refl
  format_from-fuel zero (suc more) (c ∷ p) args ctx h k = ground (arith, h)
  format_from-fuel (suc fuel) zero p args ctx h k = ground (arith, k)
  format_from-fuel (suc fuel) (suc more) p args ctx h k = elim (Bool-cases (leb (length from) 1)) [
    | inl e ↦ rw e refl
    | inr e ↦ rw e (
        ap (λ (r : Option C). if stops then none else r)
          (format_from-fuel fuel more (behind_char spec.rest) _ _ (bound e) (omega (arith, k))))
  ]
    where
      from : List ℕ
      from = behind_literal p

      spec : Spec
      spec = read_spec (behind_char from) args

      stops : Bool
      stops = length spec.rest == 0 || leb (2 ^ 31) spec.width

      bound : leb (length from) 1 ≡ false → length (behind_char spec.rest) ≤ fuel
      bound e = ground (
        arith,
        h,
        e,
        behind_char-length spec.rest,
        read_spec-length (behind_char from) args,
        behind_char-length from,
        behind_literal-length p,
      )
