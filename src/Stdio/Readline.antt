-- ===== src/Stdio/Readline.antt =====
-- What `readline` of stdio.c leaves in its buffer.
use cuore_os.Base.{
  ℕ, ◌+◌, ◌-◌, ◌≤◌, ◌<◌, ◌^◌, ◌≡◌, refl, subst, Bool, false, Bool-cases, inl, inr, ◌||◌, ◌&&◌,
  Option, some, List, [], ◌∷◌, ◌++◌, ltb, leb, ◌==◌, if_cases, store, u64, arith, tests,
}
use cuore_os.Stdio.Parse.{Line, echo, take_char, read_chars, end_line, finish, readline}

-- Nothing from the last byte on is written, and the index does not pass it.
abbrev pub IsWithin : (last : ℕ) → (old : ℕ → ℕ) → Line → Type 0
IsWithin last old line = (line.index ≤ last) × ((i : ℕ) → last ≤ i → line.buffer i ≡ old i)

-- `readline` returned: the line ends below the limit, and no byte from the limit on is changed.
pub data Returned : (limit : ℕ) → (old : ℕ → ℕ) → Option (Line × List ℕ) → Type 0 where
  returned :
      {limit : ℕ} {old : ℕ → ℕ} (result : Line × List ℕ)
      → result.0.index < limit
      → result.0.buffer result.0.index ≡ 0
      → ((i : ℕ) → limit ≤ i → result.0.buffer i ≡ old i)
      → Returned limit old (some result)

module _ (on : Bool) (last : ℕ) (old : ℕ → ℕ) (fits_word : last < 2 ^ 64) where
  take_char-IsWithin :
      (c : ℕ) (line : Line)
      → line.index < last
      → IsWithin last old line
      → IsWithin last old (take_char on c line)
  unfolding take_char
  take_char-IsWithin c line below h =
      if_cases (λ (r : Line). IsWithin last old r) (c == 8 || c == 0x7F) _ _
        (λ e.
          if_cases (λ (r : Line). IsWithin last old r) (ltb 0 line.index) _ _
            (λ f. (omega (arith, tests, below, f, fits_word), h.1)) (λ f. h))
        (λ e.
          if_cases (λ (r : Line). IsWithin last old r) (leb 32 c && leb c 126) _ _
            (λ f. (omega (arith, below, fits_word), outside)) (λ f. h))
    where
      outside : (i : ℕ) → last ≤ i → store line.buffer line.index c i ≡ old i
      outside i k = ground (arith, below, k, h.1 i k)

  end_line-Returned :
      (left : List ℕ) (line : Line)
      → IsWithin last old line
      → Returned (last + 1) old (finish on last (some (line, left)))
  unfolding finish end_line
  end_line-Returned left line h =
      returned (end_line on last line, left) (omega (arith, h.0)) (ground arith) outside
    where
      outside : (i : ℕ) → last + 1 ≤ i → store line.buffer line.index 0 i ≡ old i
      outside i k = ground (arith, h.0, k, h.1 i (omega (arith, k)))

  full-Returned :
      (input : List ℕ) (line : Line)
      → ltb line.index last ≡ false
      → IsWithin last old line
      → Returned (last + 1) old (finish on last (read_chars on last input line))
  unfolding read_chars
  full-Returned [] line e h = rw e (end_line-Returned [] line h)
  full-Returned (c ∷ cs) line e h = rw e (end_line-Returned (c ∷ cs) line h)

  -- Characters with a line feed among them end the loop.
  read_chars-Returned :
      (before after : List ℕ) (line : Line)
      → IsWithin last old line
      → Returned (last + 1) old (finish on last (read_chars on last (before ++ b'\n' ∷ after) line))
  unfolding read_chars
  read_chars-Returned [] after line h = elim (Bool-cases (ltb line.index last)) [
    | inl e ↦ rw e (end_line-Returned after (echo on (b'\n' ∷ []) line) h)
    | inr e ↦ full-Returned (b'\n' ∷ after) line e h
  ]
  read_chars-Returned (c ∷ before) after line h = elim (Bool-cases (ltb line.index last)) [
    | inl e ↦ rw e (
        if_cases (λ (r : Option (Line × List ℕ)). Returned (last + 1) old (finish on last r))
          (c == b'\n' || c == b'\r') _ _
          (λ f. end_line-Returned (before ++ b'\n' ∷ after) (echo on (b'\n' ∷ []) line) h)
          (λ f.
            read_chars-Returned before after (take_char on c line)
              (take_char-IsWithin c line (omega (tests, e)) h)))
    | inr e ↦ full-Returned (c ∷ before ++ b'\n' ∷ after) line e h
  ]

-- With a limit from 1 to below 2^64, and a line feed among the characters that come, `readline`
-- returns a line that ends with its terminator below the limit, and leaves every byte from the
-- limit on as it was.
pub readline-Returned :
    (on : Bool) (buffer : ℕ → ℕ) (limit : ℕ) (before after : List ℕ)
    → 0 < limit
    → limit < 2 ^ 64
    → Returned limit buffer (readline on buffer limit (before ++ b'\n' ∷ after))
unfolding readline
readline-Returned on buffer limit before after h k = rw last_lem (
    subst
      (λ n.
        Returned n buffer
          (finish on (limit - 1) (read_chars on (limit - 1) (before ++ b'\n' ∷ after) start)))
      whole
      (read_chars-Returned on (limit - 1) buffer (omega (arith, h, k)) before after start
        (omega arith, λ i e. refl)))
  where
    start : Line
    start = record { buffer = buffer; index = 0; echoed = [] }

    last_lem : u64 (limit + (2 ^ 64 - 1)) ≡ limit - 1
    last_lem = omega (arith, h, k)

    whole : limit - 1 + 1 ≡ limit
    whole = omega (arith, h)
