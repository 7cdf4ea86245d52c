-- ===== src/Logbuf.antt =====
-- logbuf.c and logbuf.h: the ring of log characters, in which old ones make room for new ones.
pub mod Queue
mod Tests
use cuore_os.Base.{
  ℕ, ◌+◌, ◌-◌, ◌%◌, Bool, true, false, ◌&&◌, List, [], ◌∷◌, u64, sub64, ltb, leb, ◌==◌,
  if◌then◌else◌, store, copy_at, next_in, ring_read, length, take, drop,
}

abbrev pub logbuf_size : ℕ
logbuf_size = 16384

-- The file's variables.
pub record Logbuf : Type 0 where
  pub buffer : ℕ → ℕ
  pub write_pos : ℕ
  pub read_pos : ℕ
  pub wrapped : Bool

unfoldable pub logbuf_putc : ℕ → Logbuf → Logbuf
logbuf_putc c l =
    let write_pos = next_in logbuf_size l.write_pos in
    let written : Logbuf = record l {
      buffer = store l.buffer l.write_pos c;
      write_pos = write_pos;
    } in
    if write_pos == l.read_pos
    then record written { read_pos = next_in logbuf_size l.read_pos; wrapped = true }
    else written

unfoldable pub logbuf_write : List ℕ → Logbuf → Logbuf
unfolding copy_at
logbuf_write str l =
    let len = length str in
    let space_until_end = logbuf_size - l.write_pos in
    let first_chunk = if ltb len space_until_end then len else space_until_end in
    let w = u64 (l.write_pos + len) % logbuf_size in
    let written : Logbuf = record l {
      buffer =
          copy_at (drop first_chunk str) 0 (copy_at (take first_chunk str) l.write_pos l.buffer);
      write_pos = w;
    } in
    let overrun : Logbuf = record written { read_pos = w; wrapped = true } in
    if leb logbuf_size len
    then overrun
    else if ltb l.read_pos w && ltb (sub64 w len) l.read_pos
    then overrun
    else if ltb w l.read_pos && ltb (sub64 (w + logbuf_size) len) l.read_pos
    then overrun
    else written

-- The characters that `logbuf_flush` gives to its target. The loop ends within `logbuf_size` turns.
unfoldable pub logbuf_flush : Logbuf → List ℕ
logbuf_flush l = ring_read logbuf_size logbuf_size l.buffer l.read_pos l.write_pos

unfoldable pub logbuf_clear : Logbuf → Logbuf
logbuf_clear l = record l { read_pos = l.write_pos }
