-- ===== src/Stdio/Number.antt =====
-- The digits of `_internal_printf_fmt_uint` of stdio.c. The array `tmp` is filled from its end, so
-- that a list grows at its front.
use cuore_os.Base.{
  ℕ, zero, suc, ◌+◌, ◌*◌, ◌/◌, ◌%◌, Bool, List, [], ◌∷◌, leb, ◌==◌, if◌then◌else◌, get_or, bit_and,
  bytes,
}

abbrev pub map100 : List ℕ
map100 =
    bytes
      "00010203040506070809101112131415161718192021222324252627282930313233343536373839404142434445464748495051525354555657585960616263646566676869707172737475767778798081828384858687888990919293949596979899"

abbrev pub digits_lower : List ℕ
digits_lower = bytes "0123456789abcdef"

abbrev pub digits_upper : List ℕ
digits_upper = bytes "0123456789ABCDEF"

-- `while (val) { tmp[--i] = digits[val & 0xF]; val >>= 4; }`, on fuel.
unfoldable pub hex_digits : (fuel : ℕ) → (digits : List ℕ) → ℕ → List ℕ → List ℕ
hex_digits zero digits val tmp = tmp
hex_digits (suc fuel) digits val tmp =
    let rest = hex_digits fuel digits (val / 16) (get_or digits (bit_and val 0xF) 0 ∷ tmp) in
    if val == 0 then tmp else rest

unfoldable pub bin_digits : (fuel : ℕ) → ℕ → List ℕ → List ℕ
bin_digits zero val tmp = tmp
bin_digits (suc fuel) val tmp =
    let rest = bin_digits fuel (val / 2) ((b'0' + bit_and val 1) ∷ tmp) in
    if val == 0 then tmp else rest

-- Two digits at a time, and the one or two that are left.
unfoldable pub dec_digits : (fuel : ℕ) → ℕ → List ℕ → List ℕ
dec_digits zero val tmp = tmp
dec_digits (suc fuel) val tmp =
    let rem = val % 100 in
    let rest =
      dec_digits fuel (val / 100)
        (get_or map100 (2 * rem) 0 ∷ get_or map100 (2 * rem + 1) 0 ∷ tmp) in
    if leb 100 val
    then rest
    else if leb 10 val
    then get_or map100 (2 * val) 0 ∷ get_or map100 (2 * val + 1) 0 ∷ tmp
    else (b'0' + val) ∷ tmp

unfoldable pub base_digits : (fuel : ℕ) → (base : ℕ) → (digits : List ℕ) → ℕ → List ℕ → List ℕ
base_digits zero base digits val tmp = tmp
base_digits (suc fuel) base digits val tmp =
    let rest = base_digits fuel base digits (val / base) (get_or digits (val % base) 0 ∷ tmp) in
    if val == 0 then tmp else rest

-- What stands in `tmp` after the loops; 64 turns are enough for 64 bits.
unfoldable pub uint_digits : (val base : ℕ) → (upper : Bool) → List ℕ
unfolding hex_digits bin_digits dec_digits base_digits
uint_digits val base upper =
    let digits = if upper then digits_upper else digits_lower in
    if val == 0
    then b'0' ∷ []
    else if base == 16
    then hex_digits 64 digits val []
    else if base == 2
    then bin_digits 64 val []
    else if base == 10
    then dec_digits 64 val []
    else base_digits 64 base digits val []
