-- ===== src/Stdio.antt =====
-- stdio.c and stdio.h: number and string formatting, parsing of numbers, and line input. Characters
-- are bytes, and a string is the list of its bytes without the terminator.
pub mod Number
pub mod Format
pub mod Spec
pub mod Print
pub mod Fuel
pub mod Homomorphism
pub mod Refine
pub mod Parse
pub mod Digits
pub mod Numerals
pub mod Fields
pub mod Readline
pub mod Tests
use cuore_os.Base.{
  ℕ, ◌+◌, ◌-◌, Bool, List, [], ◌∷◌, ◌++◌, replicate, length, take, ltb, ◌==◌, if◌then◌else◌, store,
  copy_at,
}

-- What the formatting code needs of its output: one character, a string, and a character repeated.
pub record Output {ℓ} (C : Type ℓ) : Type ℓ where
  pub putc : C → ℕ → C
  pub write : C → List ℕ → C
  pub pad : C → (ch n : ℕ) → C

-- `_internal_printf_ctx_t`, with the buffer as an array.
pub record Context : Type 0 where
  pub buf : ℕ → ℕ
  pub cap : ℕ
  pub pos : ℕ

unfoldable pub available : Context → ℕ
available ctx = if ltb ctx.pos ctx.cap then ctx.cap - ctx.pos else 0

unfoldable pub ctx_putc : Context → ℕ → Context
ctx_putc ctx c = record ctx {
  buf = if ltb ctx.pos ctx.cap then store ctx.buf ctx.pos c else ctx.buf;
  pos = ctx.pos + 1;
}

unfoldable pub ctx_write : Context → List ℕ → Context
unfolding copy_at available
ctx_write ctx s =
    let avail = available ctx in
    let copy = if ltb (length s) avail then length s else avail in
    if length s == 0
    then ctx
    else record ctx { buf = copy_at (take copy s) ctx.pos ctx.buf; pos = ctx.pos + length s }

unfoldable pub ctx_pad : Context → (ch n : ℕ) → Context
unfolding copy_at available
ctx_pad ctx ch n =
    let avail = available ctx in
    let fill = if ltb n avail then n else avail in
    if n == 0
    then ctx
    else record ctx { buf = copy_at (replicate fill ch) ctx.pos ctx.buf; pos = ctx.pos + n }

abbrev pub to_buffer : Output Context
to_buffer = record { putc = ctx_putc; write = ctx_write; pad = ctx_pad }

-- The output as one text without a limit, to which the buffer is compared.
abbrev pub to_text : Output (List ℕ)
to_text = record {
  putc = λ text c. text ++ c ∷ [];
  write = λ text s. text ++ s;
  pad = λ text ch n. text ++ replicate n ch;
}
