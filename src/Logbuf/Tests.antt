-- ===== src/Logbuf/Tests.antt =====
-- Tests of the log buffer, and its theorem at one with two characters.
use cuore_os.Base.{◌≡◌, refl, false, [], ◌∷◌, arith, ring_read, store, copy_at}
use cuore_os.Logbuf.{Logbuf, logbuf_putc, logbuf_flush, logbuf_write}
use cuore_os.Logbuf.Queue.{IsRing, enqueue, logbuf_putc-enqueue}

-- The characters 65 and 66, at the end of the array and at its start.
abbrev two_chars : Logbuf
two_chars = record {
  buffer = store (store (λ i. 0) 16383 65) 0 66;
  write_pos = 1;
  read_pos = 16383;
  wrapped = false;
}

first_flush : logbuf_flush two_chars ≡ 65 ∷ 66 ∷ []
unfolding logbuf_flush ring_read
first_flush = refl

write_two : logbuf_flush (logbuf_write (67 ∷ 68 ∷ []) two_chars) ≡ 65 ∷ 66 ∷ 67 ∷ 68 ∷ []
unfolding logbuf_flush ring_read logbuf_write copy_at
write_two = refl

logbuf_putc-enqueue_example :
    IsRing (logbuf_putc 67 two_chars)
    × (logbuf_flush (logbuf_putc 67 two_chars) ≡ enqueue false 67 (logbuf_flush two_chars))
logbuf_putc-enqueue_example = logbuf_putc-enqueue 67 two_chars (omega arith, omega arith)
