-- ===== src/Stdio/Tests.antt =====
-- Tests of the formatting, the parsing and the line input.
use cuore_os.Base.{
  ℕ, false, ◌-◌, ◌^◌, ◌≡◌, refl, true, none, some, [], ◌∷◌, ◌++◌, copy_at, bytes, arith,
}
use cuore_os.Stdio.{to_text}
use cuore_os.Stdio.Number.{uint_digits, hex_digits, bin_digits, dec_digits, base_digits}
use cuore_os.Stdio.Format.{
  len_l, word, text, octets, signed_arg, unsigned_arg, fmt_uint, fmt_signed, fmt_string, fmt_u8_dec,
  fmt_u8_hex2, fmt_octets,
}
use cuore_os.Stdio.Spec.{
  Spec, is_flag, add_flag, flags_of, left_over_zero, digits_of, star_width, read_width,
  skip_precision, read_precision, twice, length_of, read_length, read_sizes, read_spec,
}
use cuore_os.Stdio.Print.{
  base_of, prefix_of, unsigned_conversion, pointer_conversion, mac_conversion, ip_conversion,
  convert, args_behind, literal, behind_literal, write_literal, format_from, formatted,
}
use cuore_os.Stdio.Parse.{hex_loop, dec_loop, strtoull, hex_from, ptrthex, readline}
use cuore_os.Stdio.Fuel.{format_from-fuel}
use cuore_os.Stdio.Fields.{number_text, laid_out, base_mark, convert-number_text}
use cuore_os.Stdio.Numerals.{numeral, numeral_before}
use cuore_os.Stdio.Digits.{read_back, strtoull-decimal, strtoull-hex}
use cuore_os.Stdio.Readline.{Returned, readline-Returned}

numbers :
    formatted
      (bytes "<%5d|%-5u|%05x|%#X>")
      (word (2 ^ 64 - 12) ∷ word 1234 ∷ word 0xBEEF ∷ word 255 ∷ [])
    ≡ some (bytes "<  -12|1234 |0beef|0XFF>")
unfolding formatted format_from convert unsigned_conversion pointer_conversion mac_conversion
    ip_conversion fmt_uint fmt_signed fmt_string fmt_u8_dec fmt_u8_hex2 fmt_octets write_literal
    literal behind_literal read_spec read_sizes left_over_zero read_width star_width read_precision
    skip_precision read_length length_of twice digits_of flags_of is_flag add_flag signed_arg
    unsigned_arg base_of prefix_of args_behind uint_digits hex_digits bin_digits dec_digits
    base_digits
numbers = refl

texts :
    formatted (bytes "%s %6s.%c%%%q") (text (some (bytes "ok")) ∷ text none ∷ word b'!' ∷ [])
    ≡ some (bytes "ok (null).!%%q")
unfolding formatted format_from convert unsigned_conversion pointer_conversion mac_conversion
    ip_conversion fmt_uint fmt_signed fmt_string fmt_u8_dec fmt_u8_hex2 fmt_octets write_literal
    literal behind_literal read_spec read_sizes left_over_zero read_width star_width read_precision
    skip_precision read_length length_of twice digits_of flags_of is_flag add_flag signed_arg
    unsigned_arg base_of prefix_of args_behind uint_digits hex_digits bin_digits dec_digits
    base_digits
texts = refl

addresses :
    formatted (bytes "%I %M") (
      octets (some (10 ∷ 0 ∷ 2 ∷ 115 ∷ []))
      ∷ octets (some (0x52 ∷ 0x54 ∷ 0 ∷ 0x12 ∷ 0x34 ∷ 0xAB ∷ []))
      ∷ [])
    ≡ some (bytes "10.0.2.115 52:54:00:12:34:AB")
unfolding formatted format_from convert unsigned_conversion pointer_conversion mac_conversion
    ip_conversion fmt_uint fmt_signed fmt_string fmt_u8_dec fmt_u8_hex2 fmt_octets write_literal
    literal behind_literal read_spec read_sizes left_over_zero read_width star_width read_precision
    skip_precision read_length length_of twice digits_of flags_of is_flag add_flag signed_arg
    unsigned_arg base_of prefix_of args_behind uint_digits hex_digits bin_digits dec_digits
    base_digits
addresses = refl

widths :
    formatted (bytes "%*d|%.3llo|%p") (word (2 ^ 32 - 4) ∷ word 7 ∷ word 64 ∷ word 0x1000 ∷ [])
    ≡ some (bytes "7   |100|0x0000000000001000")
unfolding formatted format_from convert unsigned_conversion pointer_conversion mac_conversion
    ip_conversion fmt_uint fmt_signed fmt_string fmt_u8_dec fmt_u8_hex2 fmt_octets write_literal
    literal behind_literal read_spec read_sizes left_over_zero read_width star_width read_precision
    skip_precision read_length length_of twice digits_of flags_of is_flag add_flag signed_arg
    unsigned_arg base_of prefix_of args_behind uint_digits hex_digits bin_digits dec_digits
    base_digits
widths = refl

abbrev zeros : ℕ → ℕ
zeros i = 0

hexadecimal : strtoull (bytes "0xFfz") ≡ 255
unfolding strtoull hex_loop dec_loop
hexadecimal = refl

pointer : ptrthex zeros 0xBEEF 12 ≡ b'B'
unfolding ptrthex hex_from copy_at
pointer = refl

format_from-fuel_example :
    format_from to_text 9 (bytes "%d") (word 5 ∷ []) []
    ≡ format_from to_text 2 (bytes "%d") (word 5 ∷ []) []
format_from-fuel_example =
    format_from-fuel to_text 2 9 (bytes "%d") (word 5 ∷ []) [] (omega arith) (omega arith)

strtoull-decimal_example :
    read_back (formatted (bytes "%lu") (word 18446744073709551615 ∷ [])) ≡ some 18446744073709551615
strtoull-decimal_example = strtoull-decimal 18446744073709551615 (omega arith)

strtoull-hex_example :
    read_back (formatted (bytes "%#lx") (word 0xFFFF800000000000 ∷ [])) ≡ some 0xFFFF800000000000
strtoull-hex_example = strtoull-hex 0xFFFF800000000000 (omega arith)

-- A format that ends inside a directive, and a width of 2^31.
unfinished : formatted (bytes "a%5") [] ≡ none
unfolding formatted format_from write_literal literal behind_literal read_spec read_sizes
    left_over_zero read_width read_precision read_length length_of digits_of flags_of is_flag
unfinished = refl

too_wide : formatted (bytes "%2147483648d") (word 1 ∷ []) ≡ none
unfolding formatted format_from write_literal literal behind_literal read_spec read_sizes
    left_over_zero read_width read_precision read_length length_of digits_of flags_of is_flag
too_wide = refl

readline-Returned_example :
    Returned 4 zeros (readline true zeros 4 (bytes "echo" ++ 10 ∷ bytes "x"))
readline-Returned_example =
    readline-Returned true zeros 4 (bytes "echo") (bytes "x") (omega arith) (omega arith)

abbrev in_ten : Spec
in_ten = record {
  flags = record { alt = true; zero_pad = true; left = false; space = false; sign = false };
  width = 10;
  len = len_l;
  rest = b'X' ∷ [];
  args = word 0xBEEF ∷ [];
}

convert-number_text_example :
    convert to_text in_ten b'X' (bytes "at ") ≡ bytes "at " ++ number_text in_ten b'X'
convert-number_text_example = convert-number_text in_ten b'X' (bytes "at ") refl

its_text : number_text in_ten b'X' ≡ bytes "0X0000BEEF"
unfolding number_text laid_out base_mark numeral numeral_before unsigned_arg
its_text = refl
