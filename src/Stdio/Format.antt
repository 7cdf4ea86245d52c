-- ===== src/Stdio/Format.antt =====
-- `vsnprintf` of stdio.c and the functions it calls, over an output of any kind.
use cuore_os.Base.{
  ℕ, zero, suc, ◌+◌, ◌-◌, ◌*◌, ◌/◌, ◌%◌, ◌^◌, Bool, false, Option, none, some, List, [], ◌∷◌, ltb,
  leb, if◌then◌else◌, get_or, length, u8, u32, u64, bytes, bit_and,
}
use cuore_os.Stdio.{Output}
use cuore_os.Stdio.Number.{map100, digits_upper, uint_digits}

-- FLAG_ALT, FLAG_ZERO, FLAG_LEFT, FLAG_SPACE and FLAG_SIGN.
pub record Flags : Type 0 where
  pub alt : Bool
  pub zero_pad : Bool
  pub left : Bool
  pub space : Bool
  pub sign : Bool

abbrev pub no_flags : Flags
no_flags = record { alt = false; zero_pad = false; left = false; space = false; sign = false }

pub data Length : Type 0 where
  len_default : Length
  len_hh : Length
  len_h : Length
  len_l : Length
  len_ll : Length
  len_z : Length
  len_j : Length
  len_t : Length

-- An argument: 64 bits, a string or NULL, or the bytes of an address or NULL.
pub data Arg : Type 0 where
  word : ℕ → Arg
  text : Option (List ℕ) → Arg
  octets : Option (List ℕ) → Arg

-- `va_arg`. An argument of another kind, or none at all, is read as 0 or NULL; in C that is undefined.
abbrev pub next_word : List Arg → ℕ × List Arg
next_word (word w ∷ args) = (w, args)
next_word (_ ∷ args) = (0, args)
next_word [] = (0, [])

abbrev pub next_text : List Arg → Option (List ℕ) × List Arg
next_text (text s ∷ args) = (s, args)
next_text (_ ∷ args) = (none, args)
next_text [] = (none, [])

abbrev pub next_octets : List Arg → Option (List ℕ) × List Arg
next_octets (octets s ∷ args) = (s, args)
next_octets (_ ∷ args) = (none, args)
next_octets [] = (none, [])

-- A signed number of `2 ^ w` values, as the 64 bits of an `int64_t`.
abbrev pub sign_extend : (w : ℕ) → ℕ → ℕ
sign_extend w v = if ltb (v % 2 ^ w) (2 ^ (w - 1)) then v % 2 ^ w else v % 2 ^ w + 2 ^ 64 - 2 ^ w

unfoldable pub signed_arg : Length → ℕ → ℕ
signed_arg len_default w = sign_extend 32 w
signed_arg len_hh w = sign_extend 8 w
signed_arg len_h w = sign_extend 16 w
signed_arg _ w = u64 w

unfoldable pub unsigned_arg : Length → ℕ → ℕ
unsigned_arg len_default w = u32 w
unsigned_arg len_hh w = u8 w
unsigned_arg len_h w = w % 2 ^ 16
unsigned_arg _ w = u64 w

module _ {ℓ} {C : Type ℓ} (out : Output C) where
  unfoldable pub fmt_uint :
      (val base width : ℕ) → Flags → (upper : Bool) → (prefix : List ℕ) → C → C
  unfolding uint_digits
  fmt_uint val base width flags upper prefix ctx =
      let digits = uint_digits val base upper in
      let padding = width - (length digits + length prefix) in
      let before =
        if flags.left
        then out.write ctx prefix
        else if flags.zero_pad
        then out.pad (out.write ctx prefix) b'0' padding
        else out.write (out.pad ctx b' ' padding) prefix in
      let number = out.write before digits in
      if flags.left then out.pad number b' ' padding else number

  -- `val` has the bits of an `int64_t`.
  unfoldable pub fmt_signed : (val width : ℕ) → Flags → C → C
  unfolding fmt_uint
  fmt_signed val width flags ctx =
      if leb (2 ^ 63) val
      then fmt_uint (u64 (2 ^ 64 - 1 - val + 1)) 10 width flags false (b'-' ∷ []) ctx
      else fmt_uint val 10 width flags false
          (if flags.sign then b'+' ∷ [] else if flags.space then b' ' ∷ [] else []) ctx

  unfoldable pub fmt_string : Option (List ℕ) → (width : ℕ) → Flags → C → C
  fmt_string none width flags ctx =
      let padding = width - 6 in
      if flags.left
      then out.pad (out.write ctx (bytes "(null)")) b' ' padding
      else out.write (out.pad ctx b' ' padding) (bytes "(null)")
  fmt_string (some s) width flags ctx =
      let padding = width - length s in
      if flags.left
      then out.pad (out.write ctx s) b' ' padding
      else out.write (out.pad ctx b' ' padding) s

  unfoldable pub fmt_u8_dec : ℕ → C → C
  fmt_u8_dec v ctx =
      let rem = v % 100 in
      if leb 100 v
      then out.write ctx
          ((b'0' + v / 100) ∷ get_or map100 (2 * rem) 0 ∷ get_or map100 (2 * rem + 1) 0 ∷ [])
      else if leb 10 v
      then out.write ctx (get_or map100 (2 * v) 0 ∷ get_or map100 (2 * v + 1) 0 ∷ [])
      else out.putc ctx (b'0' + v)

  unfoldable pub fmt_u8_hex2 : ℕ → C → C
  fmt_u8_hex2 v ctx =
      out.write ctx (get_or digits_upper (v / 16) 0 ∷ get_or digits_upper (bit_and v 0xF) 0 ∷ [])

  -- The bytes of an address with a separator between them: the conversions `I` and `M`.
  unfoldable pub fmt_octets : (ℕ → C → C) → (separator count : ℕ) → List ℕ → C → C
  fmt_octets one separator zero octs ctx = ctx
  fmt_octets one separator (suc zero) octs ctx = one (get_or octs 0 0) ctx
  fmt_octets one separator (suc (suc n)) [] ctx =
      fmt_octets one separator (suc n) [] (out.putc (one 0 ctx) separator)
  fmt_octets one separator (suc (suc n)) (o ∷ octs) ctx =
      fmt_octets one separator (suc n) octs (out.putc (one o ctx) separator)
