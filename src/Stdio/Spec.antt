-- ===== src/Stdio/Spec.antt =====
-- The directives of `vsnprintf` of stdio.c, from behind the `%` on: flags, width, precision, length and
-- the conversion. A format is a list of bytes; its end stands for the terminator.
use cuore_os.Base.{
  ℕ, ◌+◌, ◌-◌, ◌*◌, ◌^◌, Bool, true, false, List, [], ◌∷◌, leb, ◌==◌, if◌then◌else◌, u32, is_digit,
}
use cuore_os.Stdio.Format.{
  Flags, Length, Arg, len_default, len_hh, len_h, len_l, len_ll, len_z, len_j, len_t, next_word,
  no_flags,
}

-- One turn of the loop over the flags; `none` of them ends it.
unfoldable pub is_flag : ℕ → Bool
is_flag c =
    if c == b'#'
    then true
    else if c == b'0'
    then true
    else if c == b'-'
    then true
    else if c == b' '
    then true
    else c == b'+'

unfoldable pub add_flag : ℕ → Flags → Flags
add_flag c flags =
    if c == b'#'
    then record flags { alt = true }
    else if c == b'0'
    then record flags { zero_pad = true }
    else if c == b'-'
    then record flags { left = true }
    else if c == b' '
    then record flags { space = true }
    else record flags { sign = true }

unfoldable pub flags_of : List ℕ → Flags → Flags × List ℕ
unfolding is_flag add_flag
flags_of [] flags = (flags, [])
flags_of (c ∷ p) flags =
    let more = flags_of p (add_flag c flags) in if is_flag c then more else (flags, c ∷ p)

-- `if (flags & FLAG_LEFT) flags &= ~FLAG_ZERO`
unfoldable pub left_over_zero : Flags → Flags
left_over_zero flags = if flags.left then record flags { zero_pad = false } else flags

-- The digits from `p` on, and the number that they continue.
unfoldable pub digits_of : List ℕ → ℕ → ℕ × List ℕ
digits_of [] n = (n, [])
digits_of (c ∷ p) n =
    let more = digits_of p (n * 10 + (c - b'0')) in if is_digit c then more else (n, c ∷ p)

-- A directive as far as it is read, with the format and the arguments behind it.
pub record Spec : Type 0 where
  pub flags : Flags
  pub width : ℕ
  pub len : Length
  pub rest : List ℕ
  pub args : List Arg

-- `*`: the argument is an `int`; a negative one stands for the flag and its absolute value.
unfoldable pub star_width : Spec → List ℕ → Spec
star_width spec p =
    let w = u32 (next_word spec.args).0 in
    let behind = (next_word spec.args).1 in
    if leb (2 ^ 31) w
    then record spec {
      flags = record (spec.flags) { left = true };
      width = 2 ^ 32 - w;
      rest = p;
      args = behind;
    }
    else record spec { width = w; rest = p; args = behind }

unfoldable pub read_width : Spec → List ℕ → Spec
unfolding star_width digits_of
read_width spec [] = spec
read_width spec (c ∷ p) =
    if c == b'*'
    then star_width spec p
    else record spec { width = (digits_of (c ∷ p) 0).0; rest = (digits_of (c ∷ p) 0).1 }

-- The precision is read and not used.
unfoldable pub skip_precision : Spec → List ℕ → Spec
unfolding digits_of
skip_precision spec [] = record spec { rest = [] }
skip_precision spec (c ∷ p) =
    if c == b'*'
    then record spec { rest = p; args = (next_word spec.args).1 }
    else record spec { rest = (digits_of (c ∷ p) 0).1 }

unfoldable pub read_precision : Spec → List ℕ → Spec
unfolding skip_precision
read_precision spec [] = spec
read_precision spec (c ∷ p) = if c == b'.' then skip_precision spec p else spec

-- `h` or `hh`, `l` or `ll`.
unfoldable pub twice : (c : ℕ) → (one two : Length) → List ℕ → Length × List ℕ
twice c one two [] = (one, [])
twice c one two (d ∷ p) = if d == c then (two, p) else (one, d ∷ p)

unfoldable pub length_of : List ℕ → Length × List ℕ
unfolding twice
length_of [] = (len_default, [])
length_of (c ∷ p) =
    if c == b'h'
    then twice b'h' len_h len_hh p
    else if c == b'l'
    then twice b'l' len_l len_ll p
    else if c == b'z'
    then (len_z, p)
    else if c == b'j'
    then (len_j, p)
    else if c == b't'
    then (len_t, p)
    else (len_default, c ∷ p)

unfoldable pub read_length : Spec → List ℕ → Spec
unfolding length_of
read_length spec p = record spec { len = (length_of p).0; rest = (length_of p).1 }

-- Width, precision and length.
unfoldable pub read_sizes : Spec → Spec
unfolding read_width read_precision read_length
read_sizes spec =
    let sized = read_width spec spec.rest in
    let precise = read_precision sized sized.rest in read_length precise precise.rest

-- The directive from behind its `%` up to the conversion.
unfoldable pub read_spec : List ℕ → List Arg → Spec
unfolding flags_of left_over_zero read_sizes
read_spec p args =
    let start : Spec = record {
      flags = left_over_zero (flags_of p no_flags).0;
      width = 0;
      len = len_default;
      rest = (flags_of p no_flags).1;
      args = args;
    } in
    read_sizes start
