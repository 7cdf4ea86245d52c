-- ===== src/Logbuf/Queue.antt =====
-- The log buffer as a queue of at most `logbuf_size - 1` characters.
use cuore_os.Base.{
  ℕ, ◌+◌, ◌<◌, ◌≡◌, sym, ap, ◌∙◌, Bool, true, false, List, [], ◌∷◌, ◌++◌, drop, ◌==◌, if◌then◌else◌,
  arith, if_cases, ==_iff, next_in, store, distance, ring_read, ring_read-store, ring_read-next,
}
use cuore_os.Logbuf.{Logbuf, logbuf_size, logbuf_putc, logbuf_flush}

abbrev pub IsRing : Logbuf → Type 0
IsRing l = (l.write_pos < logbuf_size) × (l.read_pos < logbuf_size)

-- A queue that drops its oldest element to make room.
abbrev pub enqueue : (is_full : Bool) → ℕ → List ℕ → List ℕ
enqueue is_full c cs = (if is_full then drop 1 cs else cs) ++ c ∷ []

abbrev pub is_full : Logbuf → Bool
is_full l = distance logbuf_size l.read_pos l.write_pos + 1 == logbuf_size

module _ (c : ℕ) (l : Logbuf) (ring : IsRing l) where
  full-enqueue :
      next_in logbuf_size l.write_pos ≡ l.read_pos
      → ring_read logbuf_size logbuf_size
          (store l.buffer l.write_pos c)
          (next_in logbuf_size l.read_pos)
          (next_in logbuf_size l.write_pos)
        ≡ enqueue true c (logbuf_flush l)
  unfolding logbuf_flush
  full-enqueue e =
      ring_read-store logbuf_size logbuf_size l.buffer (next_in logbuf_size l.read_pos) l.write_pos
        c (omega (arith, ring)) ring.0 (ground (arith, e, ring)) (omega arith)
      ∙ ap (λ cs. drop 1 cs ++ c ∷ [])
          (sym (
            ring_read-next logbuf_size logbuf_size l.buffer l.read_pos l.write_pos ring.1 ring.0
              (ground (arith, e, ring)) (omega arith)))

  room-enqueue :
      (next_in logbuf_size l.write_pos == l.read_pos) ≡ false
      → ring_read logbuf_size logbuf_size
          (store l.buffer l.write_pos c)
          l.read_pos
          (next_in logbuf_size l.write_pos)
        ≡ enqueue false c (logbuf_flush l)
  unfolding logbuf_flush
  room-enqueue e =
      ring_read-store logbuf_size logbuf_size l.buffer l.read_pos l.write_pos c ring.1 ring.0
        (ground (arith, e, ring)) (omega arith)

  full_true : next_in logbuf_size l.write_pos ≡ l.read_pos → is_full l ≡ true
  full_true e = ground (arith, e, ring)

  full_false : (next_in logbuf_size l.write_pos == l.read_pos) ≡ false → is_full l ≡ false
  full_false e = ground (arith, e, ring)

  -- With both positions in the ring, after `logbuf_putc` they are in the ring, and what
  -- `logbuf_flush` outputs is what it would have output before, less the oldest character if
  -- 16383 were held, and then the new character.
  pub logbuf_putc-enqueue :
      IsRing (logbuf_putc c l)
      × (logbuf_flush (logbuf_putc c l) ≡ enqueue (is_full l) c (logbuf_flush l))
  unfolding logbuf_putc logbuf_flush
  logbuf_putc-enqueue =
      if_cases after (next_in logbuf_size l.write_pos == l.read_pos) _ _
        (λ e. (
          (omega (arith, ring), omega (arith, ring)),
          full-enqueue ((==_iff _ _).0 e)
              ∙ ap (λ f. enqueue f c (logbuf_flush l)) (sym (full_true ((==_iff _ _).0 e))),
        ))
        (λ e. (
          (omega (arith, ring), ring.1),
          room-enqueue e ∙ ap (λ f. enqueue f c (logbuf_flush l)) (sym (full_false e)),
        ))
    where
      after : Logbuf → Type 0
      after l' = IsRing l' × (logbuf_flush l' ≡ enqueue (is_full l) c (logbuf_flush l))
