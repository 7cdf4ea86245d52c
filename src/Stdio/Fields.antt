-- ===== src/Stdio/Fields.antt =====
-- What the conversions of numbers of stdio.c print: a numeral, laid out in a field.
use cuore_os.Base.{
  ℕ, ◌+◌, ◌-◌, ◌%◌, ◌^◌, ◌<◌, ◌≡◌, refl, ap, ◌∙◌, ◌⊎◌, inl, inr, Bool, true, false, not, ◌&&◌, ◌||◌,
  Bool-cases, List, [], ◌∷◌, ◌++◌, append_assoc, ltb, leb, ◌==◌, if◌then◌else◌, length,
  length-append, replicate, bytes, arith,
}
use cuore_os.Stdio.{to_text}
use cuore_os.Stdio.Number.{uint_digits}
use cuore_os.Stdio.Numerals.{numeral, radix, uint_digits-numeral, uint_digits-decimal}
use cuore_os.Stdio.Format.{
  Flags, Length, len_default, len_hh, len_h, len_l, len_ll, len_z, len_j, len_t, next_word,
  signed_arg, unsigned_arg, fmt_uint, fmt_signed,
}
use cuore_os.Stdio.Spec.{Spec}
use cuore_os.Stdio.Print.{is_signed, is_unsigned, base_of, prefix_of, unsigned_conversion, convert}

-- A numeral in a field: with the sign or prefix in front, and filled up to the width.
unfoldable pub laid_out : (width : ℕ) → Flags → (prefix digits : List ℕ) → List ℕ
laid_out width flags prefix digits =
    let missing = width - length (prefix ++ digits) in
    if flags.left
    then prefix ++ digits ++ replicate missing b' '
    else if flags.zero_pad
    then prefix ++ replicate missing b'0' ++ digits
    else replicate missing b' ' ++ prefix ++ digits

-- The mark of a base, for the flag `#`.
unfoldable pub base_mark : (conv n : ℕ) → List ℕ
base_mark conv n =
    if conv == b'u'
    then []
    else if conv == b'o'
    then (if n == 0 then [] else bytes "0")
    else b'0' ∷ conv ∷ []

-- The text of the conversions of numbers: a sign and the absolute value, or the mark of the base and
-- the number.
unfoldable pub number_text : Spec → (conv : ℕ) → List ℕ
number_text spec conv =
    let word = (next_word spec.args).0 in
    let signed = signed_arg spec.len word in
    let unsigned = unsigned_arg spec.len word in
    let plus = if spec.flags.sign then bytes "+" else if spec.flags.space then bytes " " else [] in
    if conv == b'd' || conv == b'i'
    then (if ltb signed (2 ^ 63)
        then laid_out spec.width spec.flags plus (numeral 10 false signed)
        else laid_out spec.width spec.flags (bytes "-") (numeral 10 false (2 ^ 64 - signed)))
    else laid_out spec.width spec.flags (if spec.flags.alt then base_mark conv unsigned else [])
        (numeral (radix conv) (conv == b'X') unsigned)

append_three : (text a b c : List ℕ) → ((text ++ a) ++ b) ++ c ≡ text ++ ((a ++ b) ++ c)
append_three text a b c =
    ap (λ (l : List ℕ). l ++ c) (append_assoc text a b) ∙ append_assoc text (a ++ b) c

fmt_uint-laid_out :
    (n base width : ℕ) (flags : Flags) (upper : Bool) (prefix text : List ℕ)
    → fmt_uint to_text n base width flags upper prefix text
      ≡ text ++ laid_out width flags prefix (uint_digits n base upper)
unfolding fmt_uint laid_out
fmt_uint-laid_out n base width flags upper prefix text =
    go flags.left flags.zero_pad (uint_digits n base upper)
  where
    same : (digits : List ℕ) → length (prefix ++ digits) ≡ length digits + length prefix
    same digits = omega (arith, length-append prefix digits)

    go :
        (left zero_pad : Bool) (digits : List ℕ)
        → (let padding = width - (length digits + length prefix) in
            let before =
              if left
              then text ++ prefix
              else if zero_pad
              then (text ++ prefix) ++ replicate padding b'0'
              else (text ++ replicate padding b' ') ++ prefix in
            if left then (before ++ digits) ++ replicate padding b' ' else before ++ digits)
          ≡ text
            ++ (let missing = width - length (prefix ++ digits) in
                if left
                then prefix ++ digits ++ replicate missing b' '
                else if zero_pad
                then prefix ++ replicate missing b'0' ++ digits
                else replicate missing b' ' ++ prefix ++ digits)
    go true zero_pad digits = rw (same digits) (append_three text prefix digits _)
    go false true digits = rw (same digits) (append_three text prefix _ digits)
    go false false digits = rw (same digits) (append_three text _ prefix digits)

unsigned_arg-below : (len : Length) (w : ℕ) → unsigned_arg len w < 2 ^ 64
unfolding unsigned_arg
unsigned_arg-below len_default w = omega arith
unsigned_arg-below len_hh w = omega arith
unsigned_arg-below len_h w = omega arith
unsigned_arg-below len_l w = omega arith
unsigned_arg-below len_ll w = omega arith
unsigned_arg-below len_z w = omega arith
unsigned_arg-below len_j w = omega arith
unsigned_arg-below len_t w = omega arith

signed_arg-below : (len : Length) (w : ℕ) → signed_arg len w < 2 ^ 64
unfolding signed_arg
signed_arg-below len_default w = ground arith
signed_arg-below len_hh w = ground arith
signed_arg-below len_h w = ground arith
signed_arg-below len_l w = omega arith
signed_arg-below len_ll w = omega arith
signed_arg-below len_z w = omega arith
signed_arg-below len_j w = omega arith
signed_arg-below len_t w = omega arith

base_of-radix : (conv : ℕ) → is_unsigned conv ≡ true → base_of conv ≡ radix conv
unfolding base_of
base_of-radix conv h = ground (arith, h)

unsigned_cases :
    (conv : ℕ)
    → is_unsigned conv ≡ true
    → (conv ≡ b'u') ⊎ ((conv ≡ b'x') ⊎ ((conv ≡ b'X') ⊎ ((conv ≡ b'o') ⊎ (conv ≡ b'b'))))
unsigned_cases conv h = ground (arith, h)

prefix_of-base_mark :
    (conv n : ℕ) (flags : Flags)
    → is_unsigned conv ≡ true
    → prefix_of conv flags n ≡ (if flags.alt then base_mark conv n else [])
unfolding prefix_of base_mark
prefix_of-base_mark conv n flags h = elim (unsigned_cases conv h) [
  | inl e ↦ rw e (no_mark flags.alt)
  | inr (inl e) ↦ rw e refl
  | inr (inr (inl e)) ↦ rw e refl
  | inr (inr (inr (inl e))) ↦ rw e (octal flags.alt (n == 0))
  | inr (inr (inr (inr e))) ↦ rw e refl
]
  where
    no_mark : (alt : Bool) → ◌≡◌ {A = List ℕ} [] (if alt then [] else [])
    no_mark true = refl
    no_mark false = refl

    octal :
        (alt no_value : Bool)
        → (if alt && not no_value then bytes "0" else [])
          ≡ (if alt then (if no_value then [] else bytes "0") else [])
    octal true true = refl
    octal true false = refl
    octal false no_value = refl

unsigned_lem :
    (spec : Spec) (conv : ℕ) (text : List ℕ)
    → is_unsigned conv ≡ true
    → unsigned_conversion to_text spec conv text
      ≡ text
        ++ laid_out spec.width spec.flags
            (if spec.flags.alt
              then base_mark conv (unsigned_arg spec.len (next_word spec.args).0)
              else [])
            (numeral (radix conv) (conv == b'X') (unsigned_arg spec.len (next_word spec.args).0))
unfolding unsigned_conversion
unsigned_lem spec conv text h =
    let n = unsigned_arg spec.len (next_word spec.args).0 in
    fmt_uint-laid_out n (base_of conv) spec.width spec.flags (conv == b'X')
      (prefix_of conv spec.flags n) text
    ∙ ap
        (λ b.
          text
          ++ laid_out spec.width spec.flags (prefix_of conv spec.flags n)
              (uint_digits n b (conv == b'X')))
        (base_of-radix conv h)
    ∙ ap (λ d. text ++ laid_out spec.width spec.flags (prefix_of conv spec.flags n) d)
        (uint_digits-numeral n (conv == b'X') (unsigned_arg-below spec.len (next_word spec.args).0)
          conv)
    ∙ ap (λ p. text ++ laid_out spec.width spec.flags p (numeral (radix conv) (conv == b'X') n))
        (prefix_of-base_mark conv n spec.flags h)

signed_lem :
    (v width : ℕ) (flags : Flags) (text : List ℕ)
    → v < 2 ^ 64
    → fmt_signed to_text v width flags text
      ≡ text
        ++ (if ltb v (2 ^ 63)
            then laid_out width flags
                (if flags.sign then bytes "+" else if flags.space then bytes " " else [])
                (numeral 10 false v)
            else laid_out width flags (bytes "-") (numeral 10 false (2 ^ 64 - v)))
unfolding fmt_signed
signed_lem v width flags text h = elim (Bool-cases (leb (2 ^ 63) v)) [
  | inl e ↦
      let high : ltb v (2 ^ 63) ≡ false = ground (arith, e) in
      let magnitude : (2 ^ 64 - 1 - v + 1) % 2 ^ 64 ≡ 2 ^ 64 - v = ground (arith, e, h) in
      rw (e, high, magnitude)
        (fmt_uint-laid_out (2 ^ 64 - v) 10 width flags false (bytes "-") text
          ∙ ap (λ d. text ++ laid_out width flags (bytes "-") d)
              (uint_digits-decimal (2 ^ 64 - v) false (ground (arith, e, h))))
  | inr e ↦
      let low : ltb v (2 ^ 63) ≡ true = ground (arith, e) in
      rw (e, low)
        (fmt_uint-laid_out v 10 width flags false
            (if flags.sign then bytes "+" else if flags.space then bytes " " else []) text
          ∙ ap
              (λ d.
                text
                ++ laid_out width flags
                    (if flags.sign then bytes "+" else if flags.space then bytes " " else []) d)
              (uint_digits-decimal v false h))
]

-- For the conversions `d`, `i`, `u`, `x`, `X`, `o` and `b`, whatever the flags, the width and the
-- length are, what `vsnprintf` appends to a text is the numeral of the argument in the base of
-- the conversion, by repeated division, with its sign or, for the flag `#`, the mark of its base
-- in front, filled up to the width on the side that the flags say.
pub convert-number_text :
    (spec : Spec) (conv : ℕ) (text : List ℕ)
    → (is_signed conv || is_unsigned conv) ≡ true
    → convert to_text spec conv text ≡ text ++ number_text spec conv
unfolding convert number_text
convert-number_text spec conv text h = elim (Bool-cases (is_signed conv)) [
  | inl e ↦ rw e (
      signed_lem (signed_arg spec.len (next_word spec.args).0) spec.width spec.flags text
        (signed_arg-below spec.len (next_word spec.args).0))
  | inr e ↦
      let other : is_unsigned conv ≡ true = ground (arith, e, h) in
      rw (e, other) (unsigned_lem spec conv text other)
]
