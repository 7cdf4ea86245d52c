-- ===== src/Stdio/Parse.antt =====
-- `strtoull`, `ptrthex` and `readline` of stdio.c. A string is the list of its bytes; its end is the
-- terminator, which is no digit.
use cuore_os.Base.{
  ℕ, zero, suc, ◌+◌, ◌-◌, ◌*◌, ◌/◌, ◌^◌, Bool, ◌&&◌, ◌||◌, Option, none, some, List, [], ◌∷◌, ◌++◌,
  ltb, leb, ◌==◌, if◌then◌else◌, get_or, store, bit_and, u64, is_digit, copy_at,
}
use cuore_os.Stdio.Number.{digits_upper}

abbrev pub is_hex : ℕ → Bool
is_hex c = is_digit c || (leb b'a' c && leb c b'f') || (leb b'A' c && leb c b'F')

abbrev pub hex_value : ℕ → ℕ
hex_value c =
    if is_digit c
    then c - b'0'
    else if leb b'a' c && leb c b'f'
    then c - b'a' + 10
    else c - b'A' + 10

unfoldable pub hex_loop : List ℕ → (val : ℕ) → ℕ
hex_loop [] val = val
hex_loop (c ∷ nptr) val =
    let more = hex_loop nptr (u64 (u64 (val * 16) + hex_value c)) in if is_hex c then more else val

unfoldable pub dec_loop : List ℕ → (val : ℕ) → ℕ
dec_loop [] val = val
dec_loop (c ∷ nptr) val =
    let more = dec_loop nptr (u64 (val * 10 + (c - b'0'))) in if is_digit c then more else val

unfoldable pub strtoull : List ℕ → ℕ
unfolding hex_loop dec_loop
strtoull [] = 0
strtoull (c ∷ []) = dec_loop (c ∷ []) 0
strtoull (c ∷ d ∷ nptr) =
    if c == b'0' && (d == b'x' || d == b'X') then hex_loop nptr 0 else dec_loop (c ∷ d ∷ nptr) 0

-- The sixteen digits, written from the last one on.
unfoldable pub hex_from : (count : ℕ) → (val : ℕ) → List ℕ → List ℕ
hex_from zero val buf = buf
hex_from (suc i) val buf = hex_from i (val / 16) (get_or digits_upper (bit_and val 0xF) 0 ∷ buf)

unfoldable pub ptrthex : (ℕ → ℕ) → (val : ℕ) → ℕ → ℕ
unfolding hex_from copy_at
ptrthex buf val = copy_at (hex_from 16 val (0 ∷ [])) 0 buf

-- The line read so far, and what was echoed.
pub record Line : Type 0 where
  pub buffer : ℕ → ℕ
  pub index : ℕ
  pub echoed : List ℕ

-- `if (putc_func) putc_func(c)`, for some characters.
abbrev pub echo : Bool → List ℕ → Line → Line
echo on cs line = record line { echoed = if on then line.echoed ++ cs else line.echoed }

-- One character that does not end the line.
unfoldable pub take_char : Bool → (c : ℕ) → Line → Line
take_char on c line =
    let erased = record line { index = u64 (line.index + (2 ^ 64 - 1)) } in
    let typed = record line {
      buffer = store line.buffer line.index c;
      index = u64 (line.index + 1);
    } in
    if c == 8 || c == 0x7F
    then (if ltb 0 line.index then echo on (8 ∷ b' ' ∷ 8 ∷ []) erased else line)
    else if leb 32 c && leb c 126
    then echo on (c ∷ []) typed
    else line

-- The loop, on the characters that come; with none left it waits.
unfoldable pub read_chars : Bool → (last : ℕ) → List ℕ → Line → Option (Line × List ℕ)
unfolding take_char
read_chars on last [] line = if ltb line.index last then none else some (line, [])
read_chars on last (c ∷ cs) line =
    let more = read_chars on last cs (take_char on c line) in
    if ltb line.index last
    then (if c == b'\n' || c == b'\r' then some (echo on (b'\n' ∷ []) line, cs) else more)
    else some (line, c ∷ cs)

-- What follows the loop: the line feed of a full buffer, and the terminator.
unfoldable pub end_line : Bool → (last : ℕ) → Line → Line
end_line on last line =
    let fed = echo (line.index == last && on) (b'\n' ∷ []) line in
    record fed { buffer = store line.buffer line.index 0 }

unfoldable pub finish : Bool → (last : ℕ) → Option (Line × List ℕ) → Option (Line × List ℕ)
unfolding end_line
finish on last none = none
finish on last (some (line, left)) = some (end_line on last line, left)

-- `readline`; `limit - 1` wraps.
unfoldable pub readline : Bool → (buffer : ℕ → ℕ) → (limit : ℕ) → List ℕ → Option (Line × List ℕ)
unfolding read_chars finish
readline on buffer limit input =
    let last = u64 (limit + (2 ^ 64 - 1)) in
    let start : Line = record { buffer = buffer; index = 0; echoed = [] } in
    finish on last (read_chars on last input start)
