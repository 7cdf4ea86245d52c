-- ===== src/Stdio/Numerals.antt =====
-- The digits of stdio.c against numerals by repeated division.
use cuore_os.Base.{
  ℕ, zero, suc, ◌+◌, ◌-◌, ◌*◌, ◌/◌, ◌%◌, ◌^◌, ◌<◌, ◌≤◌, ◌≡◌, refl, sym, ap, ◌∙◌, Bool, true, false,
  List, [], ◌∷◌, ltb, leb, ◌==◌, ==_iff, if◌then◌else◌, if_cases, get_or, all_below-test, bit_and,
  bit_and_low, arith,
}
use native.Mathlib.Nat.{pow-suc}
use cuore_os.Stdio.Number.{
  map100, digits_lower, digits_upper, hex_digits, bin_digits, dec_digits, base_digits, uint_digits,
}
use cuore_os.Stdio.Digits.{map100-digits}

-- The character of a digit.
abbrev pub digit_char : (upper : Bool) → ℕ → ℕ
digit_char upper d = if ltb d 10 then b'0' + d else (if upper then b'A' else b'a') + (d - 10)

-- The numeral of a number above 0 in front of a text; as many turns as a number has bits are enough.
unfoldable pub numeral_before : (turns base : ℕ) → (upper : Bool) → ℕ → List ℕ → List ℕ
numeral_before zero base upper n text = text
numeral_before (suc turns) base upper n text =
    let longer = numeral_before turns base upper (n / base) (digit_char upper (n % base) ∷ text) in
    if n == 0 then text else longer

unfoldable pub numeral : (base : ℕ) → (upper : Bool) → ℕ → List ℕ
unfolding numeral_before
numeral base upper n = if n == 0 then b'0' ∷ [] else numeral_before 64 base upper n []

abbrev table_of : Bool → List ℕ
table_of upper = if upper then digits_upper else digits_lower

table-digit_char :
    (upper : Bool) (d : ℕ) → d < 16 → get_or (table_of upper) d 0 ≡ digit_char upper d
table-digit_char true d h =
    (==_iff _ _).0 (all_below-test 16 (λ d. get_or digits_upper d 0 == digit_char true d) refl d h)
table-digit_char false d h =
    (==_iff _ _).0 (all_below-test 16 (λ d. get_or digits_lower d 0 == digit_char false d) refl d h)

hex_digits-numeral :
    (turns : ℕ) (upper : Bool) (n : ℕ) (text : List ℕ)
    → hex_digits turns (table_of upper) n text ≡ numeral_before turns 16 upper n text
unfolding hex_digits numeral_before
hex_digits-numeral zero upper n text = refl
hex_digits-numeral (suc turns) upper n text =
    ap (λ (r : List ℕ). if n == 0 then text else r)
      (ap (λ c. hex_digits turns (table_of upper) (n / 16) (c ∷ text)) low
        ∙ hex_digits-numeral turns upper (n / 16) (digit_char upper (n % 16) ∷ text))
  where
    low : get_or (table_of upper) (bit_and n 0xF) 0 ≡ digit_char upper (n % 16)
    low =
        ap (λ d. get_or (table_of upper) d 0) (bit_and_low 4 n)
        ∙ table-digit_char upper (n % 16) (omega arith)

base_digits-numeral :
    (turns : ℕ) (upper : Bool) (n : ℕ) (text : List ℕ)
    → base_digits turns 8 (table_of upper) n text ≡ numeral_before turns 8 upper n text
unfolding base_digits numeral_before
base_digits-numeral zero upper n text = refl
base_digits-numeral (suc turns) upper n text =
    ap (λ (r : List ℕ). if n == 0 then text else r)
      (ap (λ c. base_digits turns 8 (table_of upper) (n / 8) (c ∷ text))
          (table-digit_char upper (n % 8) (omega arith))
        ∙ base_digits-numeral turns upper (n / 8) (digit_char upper (n % 8) ∷ text))

bin_digits-numeral :
    (turns : ℕ) (upper : Bool) (n : ℕ) (text : List ℕ)
    → bin_digits turns n text ≡ numeral_before turns 2 upper n text
unfolding bin_digits numeral_before
bin_digits-numeral zero upper n text = refl
bin_digits-numeral (suc turns) upper n text =
    ap (λ (r : List ℕ). if n == 0 then text else r)
      (ap (λ c. bin_digits turns (n / 2) (c ∷ text)) low
        ∙ bin_digits-numeral turns upper (n / 2) (digit_char upper (n % 2) ∷ text))
  where
    low : b'0' + bit_and n 1 ≡ digit_char upper (n % 2)
    low = ap (λ d. b'0' + d) (bit_and_low 1 n) ∙ ground arith

numeral_before-nothing :
    (turns base : ℕ) (upper : Bool) (n : ℕ) (text : List ℕ)
    → n ≡ 0
    → numeral_before turns base upper n text ≡ text
unfolding numeral_before
numeral_before-nothing zero base upper n text e = refl
numeral_before-nothing (suc turns) base upper n text e =
    let nothing : (n == 0) ≡ true = ground (arith, e) in rw nothing refl

digit_char-decimal : (upper : Bool) (d : ℕ) → d < 10 → digit_char upper d ≡ b'0' + d
digit_char-decimal upper d h = let small : ltb d 10 ≡ true = ground (arith, h) in rw small refl

-- One digit, and two.
one_turn :
    (turns : ℕ) (upper : Bool) (n : ℕ) (text : List ℕ)
    → 0 < n
    → numeral_before (suc turns) 10 upper n text
      ≡ numeral_before turns 10 upper (n / 10) ((b'0' + n % 10) ∷ text)
unfolding numeral_before
one_turn turns upper n text h =
    let some_left : (n == 0) ≡ false = ground (arith, h) in
    rw some_left (
      ap (λ c. numeral_before turns 10 upper (n / 10) (c ∷ text))
        (digit_char-decimal upper (n % 10) (omega arith)))

two_turns :
    (turns : ℕ) (upper : Bool) (n : ℕ) (text : List ℕ)
    → 10 ≤ n
    → numeral_before (suc (suc turns)) 10 upper n text
      ≡ numeral_before turns 10 upper
          (n / 100)
          (get_or map100 (2 * (n % 100)) 0 ∷ get_or map100 (2 * (n % 100) + 1) 0 ∷ text)
two_turns turns upper n text h =
    one_turn (suc turns) upper n text (omega (arith, h))
    ∙ one_turn turns upper (n / 10) ((b'0' + n % 10) ∷ text) (omega (arith, h))
    ∙ rw ((map100-digits (n % 100) (omega arith)).0, (map100-digits (n % 100) (omega arith)).1)
        (ap (λ q. numeral_before turns 10 upper q ((b'0' + n / 10 % 10) ∷ (b'0' + n % 10) ∷ text))
            hundreds
          ∙ ap (λ c. numeral_before turns 10 upper (n / 100) (c ∷ (b'0' + n % 10) ∷ text)) tens
          ∙ ap (λ c. numeral_before turns 10 upper (n / 100) ((b'0' + n % 100 / 10) ∷ c ∷ text))
              ones)
  where
    hundreds : n / 10 / 10 ≡ n / 100
    hundreds = omega arith

    tens : b'0' + n / 10 % 10 ≡ b'0' + n % 100 / 10
    tens = omega arith

    ones : b'0' + n % 10 ≡ b'0' + n % 100 % 10
    ones = omega arith

-- The last two digits, or the last one.
last_two :
    (turns : ℕ) (upper : Bool) (n : ℕ) (text : List ℕ)
    → 10 ≤ n
    → n < 100
    → get_or map100 (2 * n) 0 ∷ get_or map100 (2 * n + 1) 0 ∷ text
      ≡ numeral_before (suc (suc turns)) 10 upper n text
last_two turns upper n text h k = sym (
    two_turns turns upper n text h
    ∙ numeral_before-nothing turns 10 upper (n / 100) _ (omega (arith, k))
    ∙ ap (λ r. get_or map100 (2 * r) 0 ∷ get_or map100 (2 * r + 1) 0 ∷ text) whole)
  where
    whole : n % 100 ≡ n
    whole = omega (arith, k)

last_one :
    (turns : ℕ) (upper : Bool) (n : ℕ) (text : List ℕ)
    → 0 < n
    → n < 10
    → (b'0' + n) ∷ text ≡ numeral_before (suc turns) 10 upper n text
last_one turns upper n text h k = sym (
    one_turn turns upper n text h
    ∙ numeral_before-nothing turns 10 upper (n / 10) _ (omega (arith, k))
    ∙ ap (λ r. (b'0' + r) ∷ text) whole)
  where
    whole : n % 10 ≡ n
    whole = omega (arith, k)

dec_digits-numeral :
    (fuel turns : ℕ) (upper : Bool) (n : ℕ) (text : List ℕ)
    → 0 < n
    → n < 2 ^ fuel
    → n < 2 ^ turns
    → dec_digits fuel n text ≡ numeral_before turns 10 upper n text
unfolding dec_digits
dec_digits-numeral zero turns upper n text room h k = absurd (omega (arith, room, h))
dec_digits-numeral (suc fuel) zero upper n text room h k = absurd (omega (arith, room, k))
dec_digits-numeral (suc fuel) (suc zero) upper n text room h k =
    let low : leb 100 n ≡ false = ground (arith, k) in
    let lower : leb 10 n ≡ false = ground (arith, k) in
    rw (low, lower) (last_one 0 upper n text room (omega (arith, k)))
dec_digits-numeral (suc fuel) (suc (suc turns)) upper n text room h k =
    if_cases (λ (r : List ℕ). r ≡ numeral_before (suc (suc turns)) 10 upper n text) (leb 100 n) _ _
      (λ e.
        dec_digits-numeral fuel turns upper (n / 100) _ (ground (arith, e))
          (omega (arith, h, pow-suc 2 fuel))
          (omega (arith, k, pow-suc 2 turns, pow-suc 2 (suc turns)))
        ∙ sym (two_turns turns upper n text (ground (arith, e))))
      (λ e.
        if_cases (λ (r : List ℕ). r ≡ numeral_before (suc (suc turns)) 10 upper n text) (leb 10 n) _
          _ (λ f. last_two turns upper n text (ground (arith, f)) (ground (arith, e)))
          (λ f. last_one (suc turns) upper n text room (ground (arith, f))))

-- The base of a conversion without a sign.
abbrev pub radix : (conv : ℕ) → ℕ
radix conv = if conv == b'u' then 10 else if conv == b'o' then 8 else if conv == b'b' then 2 else 16

if_nonzero :
    (t : Bool) (z : List ℕ) {x y : List ℕ}
    → (t ≡ false → x ≡ y)
    → (if t then z else x) ≡ (if t then z else y)
if_nonzero true z f = refl
if_nonzero false z f = f refl

module _ (n : ℕ) (upper : Bool) (h : n < 2 ^ 64) where
  pub uint_digits-decimal : uint_digits n 10 upper ≡ numeral 10 upper n
  unfolding uint_digits numeral
  uint_digits-decimal =
      if_nonzero (n == 0) (b'0' ∷ [])
        (λ e. dec_digits-numeral 64 64 upper n [] (ground (arith, e)) h h)

  uint_digits-octal : uint_digits n 8 upper ≡ numeral 8 upper n
  unfolding uint_digits numeral
  uint_digits-octal = if_nonzero (n == 0) (b'0' ∷ []) (λ e. base_digits-numeral 64 upper n [])

  uint_digits-binary : uint_digits n 2 upper ≡ numeral 2 upper n
  unfolding uint_digits numeral
  uint_digits-binary = if_nonzero (n == 0) (b'0' ∷ []) (λ e. bin_digits-numeral 64 upper n [])

  uint_digits-hex : uint_digits n 16 upper ≡ numeral 16 upper n
  unfolding uint_digits numeral
  uint_digits-hex = if_nonzero (n == 0) (b'0' ∷ []) (λ e. hex_digits-numeral 64 upper n [])

  pub uint_digits-numeral :
      (conv : ℕ) → uint_digits n (radix conv) upper ≡ numeral (radix conv) upper n
  uint_digits-numeral conv =
      if_cases reads (conv == b'u') _ _ (λ e. uint_digits-decimal)
        (λ e.
          if_cases reads (conv == b'o') _ _ (λ e. uint_digits-octal)
            (λ e.
              if_cases reads (conv == b'b') _ _ (λ e. uint_digits-binary) (λ e. uint_digits-hex)))
    where
      reads : ℕ → Type 0
      reads base = uint_digits n base upper ≡ numeral base upper n
