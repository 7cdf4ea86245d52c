-- ===== src/Stdio/Digits.antt =====
-- The digits that `_internal_printf_fmt_uint` of stdio.c writes, read by `strtoull`.
use cuore_os.Base.{
  ℕ, zero, suc, ◌+◌, ◌-◌, ◌*◌, ◌/◌, ◌%◌, ◌^◌, ◌<◌, ◌≡◌, refl, sym, ap, ◌∙◌, Bool, true, false, ◌⊎◌,
  inl, inr, Bool-cases, ◌&&◌, ◌||◌, Option, none, some, List, [], ◌∷◌, leb, ◌==◌, ==_iff, if_cases,
  get_or, length, u64, bytes, is_digit, all_below, all_below-test, and-parts, bit_and, bit_and_low,
  arith,
}
use native.Mathlib.Nat.{pow-suc}
use cuore_os.Stdio.Number.{map100, digits_lower, dec_digits, hex_digits, uint_digits}
use cuore_os.Stdio.Parse.{is_hex, hex_value, hex_loop, dec_loop, strtoull}
use cuore_os.Stdio.Format.{word, fmt_uint, unsigned_arg}
use cuore_os.Stdio.Spec.{
  read_spec, read_sizes, read_width, read_precision, read_length, length_of, digits_of, flags_of,
  left_over_zero,
}
use cuore_os.Stdio.Print.{
  formatted, format_from, convert, unsigned_conversion, write_literal, literal, behind_literal,
  base_of, prefix_of,
}

abbrev two_digits : ℕ → Bool
two_digits r =
    get_or map100 (2 * r) 0 == b'0' + r / 10 && get_or map100 (2 * r + 1) 0 == b'0' + r % 10

pub map100-digits :
    (r : ℕ)
    → r < 100
    → (get_or map100 (2 * r) 0 ≡ b'0' + r / 10) × (get_or map100 (2 * r + 1) 0 ≡ b'0' + r % 10)
map100-digits r h =
    let both = and-parts _ _ (all_below-test 100 two_digits refl r h) in
    ((==_iff _ _).0 both.0, (==_iff _ _).0 both.1)

-- One digit of the loop.
dec_loop-digit :
    (n val : ℕ) (nptr : List ℕ)
    → n < 10
    → dec_loop ((b'0' + n) ∷ nptr) val ≡ dec_loop nptr (u64 (val * 10 + n))
unfolding dec_loop
dec_loop-digit n val nptr h = rw (digit, back) refl
  where
    digit : is_digit (b'0' + n) ≡ true
    digit = ground (arith, h)

    back : b'0' + n - b'0' ≡ n
    back = omega arith

dec_loop-pair :
    (q r : ℕ) (tmp : List ℕ)
    → r < 100
    → q * 100 + r < 2 ^ 64
    → dec_loop (get_or map100 (2 * r) 0 ∷ get_or map100 (2 * r + 1) 0 ∷ tmp) q
      ≡ dec_loop tmp (q * 100 + r)
dec_loop-pair q r tmp h k =
    rw ((map100-digits r h).0, (map100-digits r h).1)
      (dec_loop-digit (r / 10) q ((b'0' + r % 10) ∷ tmp) (omega arith)
        ∙ dec_loop-digit (r % 10) (u64 (q * 10 + r / 10)) tmp (omega arith)
        ∙ ap (dec_loop tmp) (omega arith))

-- The digits of a number in front of others.
dec_loop-dec_digits :
    (fuel val : ℕ) (tmp : List ℕ)
    → val < 2 ^ fuel
    → val < 2 ^ 64
    → dec_loop (dec_digits fuel val tmp) 0 ≡ dec_loop tmp val
unfolding dec_digits
dec_loop-dec_digits zero val tmp h k = ap (dec_loop tmp) (omega (arith, h))
dec_loop-dec_digits (suc fuel) val tmp h k =
    if_cases (λ (r : List ℕ). dec_loop r 0 ≡ dec_loop tmp val) (leb 100 val) _ _
      (λ e.
        dec_loop-dec_digits fuel (val / 100) _ (omega (arith, h, pow-suc 2 fuel)) (omega (arith, k))
        ∙ dec_loop-pair (val / 100) (val % 100) tmp (omega arith) (omega (arith, k))
        ∙ ap (dec_loop tmp) (omega arith))
      (λ e.
        if_cases (λ (r : List ℕ). dec_loop r 0 ≡ dec_loop tmp val) (leb 10 val) _ _
          (λ f.
            dec_loop-pair 0 val tmp (ground (arith, e)) (omega (arith, k))
            ∙ ap (dec_loop tmp) (omega arith))
          (λ f.
            dec_loop-digit val 0 tmp (ground (arith, f)) ∙ ap (dec_loop tmp) (omega (arith, k))))

-- A digit of either table.
abbrev is_value : List ℕ → ℕ → Bool
is_value digits r = is_hex (get_or digits r 0) && hex_value (get_or digits r 0) == r

hex_loop-digit :
    (digits : List ℕ)
    → all_below 16 (is_value digits) ≡ true
    → (r val : ℕ) (nptr : List ℕ) → r < 16
    → hex_loop (get_or digits r 0 ∷ nptr) val ≡ hex_loop nptr (u64 (u64 (val * 16) + r))
unfolding hex_loop
hex_loop-digit digits e r val nptr h =
    let c = get_or digits r 0 in
    let both =
      and-parts (is_hex c) (hex_value c == r) (all_below-test 16 (is_value digits) e r h) in
    rw (both.0, (==_iff (hex_value c) r).0 both.1) refl

hex_loop-low :
    (digits : List ℕ)
    → all_below 16 (is_value digits) ≡ true
    → (val : ℕ) (tmp : List ℕ) → val < 2 ^ 64
    → hex_loop (get_or digits (bit_and val 0xF) 0 ∷ tmp) (val / 16) ≡ hex_loop tmp val
hex_loop-low digits e val tmp h = rw low (
    hex_loop-digit digits e (val % 16) (val / 16) tmp (omega arith)
    ∙ ap (hex_loop tmp) (omega (arith, h)))
  where
    low : bit_and val 0xF ≡ val % 16
    low = bit_and_low 4 val

hex_loop-hex_digits :
    (digits : List ℕ)
    → all_below 16 (is_value digits) ≡ true
    → (fuel val : ℕ) (tmp : List ℕ) → val < 2 ^ fuel
    → val < 2 ^ 64
    → hex_loop (hex_digits fuel digits val tmp) 0 ≡ hex_loop tmp val
unfolding hex_digits
hex_loop-hex_digits digits e zero val tmp h k = ap (hex_loop tmp) (omega (arith, h))
hex_loop-hex_digits digits e (suc fuel) val tmp h k =
    if_cases (λ (r : List ℕ). hex_loop r 0 ≡ hex_loop tmp val) (val == 0) _ _
      (λ z. ap (hex_loop tmp) (ground (arith, z)))
      (λ z.
        hex_loop-hex_digits digits e fuel (val / 16) _ (omega (arith, h, pow-suc 2 fuel))
          (omega (arith, k))
        ∙ hex_loop-low digits e val tmp k)

-- A string that starts like a hexadecimal number is the decimal 0.
strtoull-cases : (s : List ℕ) → (strtoull s ≡ dec_loop s 0) ⊎ (dec_loop s 0 ≡ 0)
unfolding strtoull
strtoull-cases [] = inl refl
strtoull-cases (c ∷ []) = inl refl
strtoull-cases (c ∷ d ∷ nptr) = elim (Bool-cases (c == b'0' && (d == b'x' || d == b'X'))) [
  | inl e ↦ inr (zero_only e)
  | inr e ↦ rw e (inl refl)
]
  where
    zero_only : (c == b'0' && (d == b'x' || d == b'X')) ≡ true → dec_loop (c ∷ d ∷ nptr) 0 ≡ 0
    zero_only e = rw (digit, letter) (omega (arith, nul))
      where
        both : (c == b'0' ≡ true) × ((d == b'x' || d == b'X') ≡ true)
        both = and-parts (c == b'0') (d == b'x' || d == b'X') e

        nul : c ≡ b'0'
        nul = (==_iff c b'0').0 both.0

        digit : is_digit c ≡ true
        digit = ground (arith, nul)

        letter : is_digit d ≡ false
        letter = ground (arith, both.1)

strtoull-uint_digits : (v : ℕ) → v < 2 ^ 64 → strtoull (uint_digits v 10 false) ≡ v
unfolding uint_digits strtoull
strtoull-uint_digits v h =
    if_cases (λ (s : List ℕ). strtoull s ≡ v) (v == 0) _ _ (λ e. sym ((==_iff v 0).0 e))
      (λ e. elim (strtoull-cases (dec_digits 64 v [])) [
        | inl same ↦ same ∙ dec_loop-dec_digits 64 v [] h h
        | inr nul ↦ ground (arith, e, nul, dec_loop-dec_digits 64 v [] h h)
      ])

strtoull-hex_digits : (v : ℕ) → v < 2 ^ 64 → strtoull (b'0' ∷ b'x' ∷ uint_digits v 16 false) ≡ v
unfolding uint_digits strtoull
strtoull-hex_digits v h =
    if_cases (λ (s : List ℕ). hex_loop s 0 ≡ v) (v == 0) _ _ (λ e. sym ((==_iff v 0).0 e))
      (λ e. hex_loop-hex_digits digits_lower refl 64 v [] h h)

no_padding : (n : ℕ) → 0 - n ≡ 0
no_padding n = omega arith

format_decimal :
    (v : ℕ) → v < 2 ^ 64 → formatted (bytes "%lu") (word v ∷ []) ≡ some (uint_digits v 10 false)
unfolding formatted format_from convert unsigned_conversion fmt_uint write_literal literal
    behind_literal read_spec read_sizes left_over_zero read_width read_precision read_length
    length_of digits_of flags_of unsigned_arg base_of prefix_of
format_decimal v h = rw (no_padding (length (uint_digits (u64 v) 10 false) + 0), whole) refl
  where
    whole : u64 v ≡ v
    whole = omega (arith, h)

format_hex :
    (v : ℕ)
    → v < 2 ^ 64
    → formatted (bytes "%#lx") (word v ∷ []) ≡ some (b'0' ∷ b'x' ∷ uint_digits v 16 false)
unfolding formatted format_from convert unsigned_conversion fmt_uint write_literal literal
    behind_literal read_spec read_sizes left_over_zero read_width read_precision read_length
    length_of digits_of flags_of unsigned_arg base_of prefix_of
format_hex v h = rw (no_padding (length (uint_digits (u64 v) 16 false) + 2), whole) refl
  where
    whole : u64 v ≡ v
    whole = omega (arith, h)

-- `strtoull` of a text, where there is one.
abbrev pub read_back : Option (List ℕ) → Option ℕ
read_back none = none
read_back (some text) = some (strtoull text)

-- `vsnprintf` has a text for `%lu` and a number below 2^64, and `strtoull` of it is the number.
pub strtoull-decimal :
    (v : ℕ) → v < 2 ^ 64 → read_back (formatted (bytes "%lu") (word v ∷ [])) ≡ some v
strtoull-decimal v h = ap read_back (format_decimal v h) ∙ ap some (strtoull-uint_digits v h)

-- `vsnprintf` has a text for `%#lx` and a number below 2^64, and `strtoull` of it is the number.
pub strtoull-hex :
    (v : ℕ) → v < 2 ^ 64 → read_back (formatted (bytes "%#lx") (word v ∷ [])) ≡ some v
strtoull-hex v h = ap read_back (format_hex v h) ∙ ap some (strtoull-hex_digits v h)
