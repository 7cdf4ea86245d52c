-- ===== src/Stdio/Print.antt =====
-- The conversions and the main loop of `vsnprintf` of stdio.c, over an output of any kind.
use cuore_os.Base.{
  ℕ, zero, suc, ◌-◌, ◌^◌, Bool, true, false, not, ◌&&◌, ◌||◌, Option, none, some, List, [], ◌∷◌,
  ltb, leb, ◌==◌, if◌then◌else◌, length, u8, u32, u64, bytes, store,
}
use cuore_os.Stdio.{Context, Output, to_buffer, to_text}
use cuore_os.Stdio.Format.{
  Flags, Arg, no_flags, next_word, next_text, next_octets, signed_arg, unsigned_arg, fmt_uint,
  fmt_signed, fmt_string, fmt_u8_dec, fmt_u8_hex2, fmt_octets,
}
use cuore_os.Stdio.Spec.{Spec, read_spec}

-- `case 'd': case 'i':`
abbrev pub is_signed : ℕ → Bool
is_signed c = c == b'd' || c == b'i'

-- `case 'u': case 'x': case 'X': case 'o': case 'b':`
abbrev pub is_unsigned : ℕ → Bool
is_unsigned c = c == b'u' || c == b'x' || c == b'X' || c == b'o' || c == b'b'

unfoldable pub base_of : ℕ → ℕ
base_of c =
    if c == b'x'
    then 16
    else if c == b'X'
    then 16
    else if c == b'o'
    then 8
    else if c == b'b'
    then 2
    else 10

unfoldable pub prefix_of : ℕ → Flags → (val : ℕ) → List ℕ
prefix_of c flags val =
    if c == b'x'
    then (if flags.alt then bytes "0x" else [])
    else if c == b'X'
    then (if flags.alt then bytes "0X" else [])
    else if c == b'o'
    then (if flags.alt && not (val == 0) then bytes "0" else [])
    else if c == b'b'
    then (if flags.alt then bytes "0b" else [])
    else []

module _ {ℓ} {C : Type ℓ} (out : Output C) where
  unfoldable pub unsigned_conversion : Spec → (conv : ℕ) → C → C
  unfolding base_of prefix_of
  unsigned_conversion spec conv ctx =
      let val = unsigned_arg spec.len (next_word spec.args).0 in
      fmt_uint out val (base_of conv) spec.width spec.flags (conv == b'X')
        (prefix_of conv spec.flags val) ctx

  unfoldable pub pointer_conversion : Spec → C → C
  pointer_conversion spec ctx =
      fmt_uint out (u64 (next_word spec.args).0) 16 (if ltb 0 spec.width then spec.width else 18)
        (record no_flags { zero_pad = true }) false (bytes "0x") ctx

  unfoldable pub mac_conversion : Option (List ℕ) → Spec → C → C
  mac_conversion none spec ctx = fmt_string out (some (bytes "(null)")) spec.width spec.flags ctx
  mac_conversion (some mac) spec ctx = fmt_octets out (fmt_u8_hex2 out) b':' 6 mac ctx

  -- The address of the conversion `I` is not tested; in place of NULL, which C reads, stand zeros.
  unfoldable pub ip_conversion : Option (List ℕ) → C → C
  ip_conversion none ctx = fmt_octets out (fmt_u8_dec out) b'.' 4 [] ctx
  ip_conversion (some ip) ctx = fmt_octets out (fmt_u8_dec out) b'.' 4 ip ctx

  -- The `switch` over the conversion.
  unfoldable pub convert : Spec → (conv : ℕ) → C → C
  unfolding unsigned_conversion pointer_conversion mac_conversion ip_conversion
  convert spec conv ctx =
      if is_signed conv
      then fmt_signed out (signed_arg spec.len (next_word spec.args).0) spec.width spec.flags ctx
      else if is_unsigned conv
      then unsigned_conversion spec conv ctx
      else if conv == b'p'
      then pointer_conversion spec ctx
      else if conv == b's'
      then fmt_string out (next_text spec.args).0 spec.width spec.flags ctx
      else if conv == b'c'
      then out.putc ctx (u8 (next_word spec.args).0)
      else if conv == b'I'
      then ip_conversion (next_octets spec.args).0 ctx
      else if conv == b'M'
      then mac_conversion (next_octets spec.args).0 spec ctx
      else if conv == b'%'
      then out.putc ctx b'%'
      else out.putc (out.putc ctx b'%') conv

-- The arguments that the conversion leaves.
unfoldable pub args_behind : (conv : ℕ) → List Arg → List Arg
args_behind conv args =
    if is_signed conv || is_unsigned conv || conv == b'p' || conv == b'c'
    then (next_word args).1
    else if conv == b's'
    then (next_text args).1
    else if conv == b'I' || conv == b'M'
    then (next_octets args).1
    else args

-- `while (*p && *p != '%') p++`: what is passed, and what is left.
unfoldable pub literal : List ℕ → List ℕ
literal [] = []
literal (c ∷ p) = let more = literal p in if c == b'%' then [] else c ∷ more

unfoldable pub behind_literal : List ℕ → List ℕ
behind_literal [] = []
behind_literal (c ∷ p) = let more = behind_literal p in if c == b'%' then c ∷ p else more

-- `*p`, which at the end is the terminator, and what stands behind it.
abbrev pub head_or_nul : List ℕ → ℕ
head_or_nul [] = 0
head_or_nul (c ∷ p) = c

abbrev pub behind_char : List ℕ → List ℕ
behind_char [] = []
behind_char (c ∷ p) = p

module _ {ℓ} {C : Type ℓ} (out : Output C) where
  unfoldable pub write_literal : List ℕ → C → C
  unfolding literal
  write_literal p ctx = if length (literal p) == 0 then ctx else out.write ctx (literal p)

  -- The main loop, on fuel; none where C reads behind the terminator, as the format ends inside a
  -- directive, or where the width does not fit an `int`.
  unfoldable pub format_from : (fuel : ℕ) → List ℕ → List Arg → C → Option C
  unfolding write_literal behind_literal read_spec args_behind convert
  format_from zero p args ctx = some ctx
  format_from (suc fuel) p args ctx =
      let from = behind_literal p in
      let spec = read_spec (behind_char from) args in
      let conv = head_or_nul spec.rest in
      let written = write_literal p ctx in
      let more =
        format_from fuel (behind_char spec.rest) (args_behind conv spec.args)
          (convert out spec conv written) in
      if leb (length from) 1
      then some written
      else if length spec.rest == 0 || leb (2 ^ 31) spec.width
      then none
      else more

-- The terminator, at the end of the text or of the buffer, and the bits of the result.
unfoldable pub end_print : (bufsz : ℕ) → Option Context → Option ((ℕ → ℕ) × ℕ)
end_print bufsz none = none
end_print bufsz (some ctx) =
    let ended =
      if ltb 0 bufsz
      then store ctx.buf (if ltb ctx.pos ctx.cap then ctx.pos else ctx.cap) 0
      else ctx.buf in
    some (ended, u32 ctx.pos)

-- `vsnprintf`: the buffer after it and the bits of the result.
unfoldable pub vsnprintf :
    (buf : ℕ → ℕ) → (bufsz : ℕ) → (fmt : List ℕ) → List Arg → Option ((ℕ → ℕ) × ℕ)
unfolding format_from end_print
vsnprintf buf bufsz fmt args =
    let cap = if ltb 0 bufsz then bufsz - 1 else 0 in
    end_print bufsz
      (format_from to_buffer (length fmt) fmt args (record { buf = buf; cap = cap; pos = 0 }))

-- The same loop over an output without a limit.
unfoldable pub formatted : (fmt : List ℕ) → List Arg → Option (List ℕ)
unfolding format_from
formatted fmt args = format_from to_text (length fmt) fmt args []
