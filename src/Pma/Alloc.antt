-- ===== src/Pma/Alloc.antt =====
-- `pma_alloc_from_zone` of mem/pma.c and the functions that call it.
use cuore_os.Base.{
  ℕ, ◌+◌, ◌-◌, ◌*◌, ◌/◌, Bool, true, Option, none, some, bit_and, u64, not64, sub64, ltb, leb, ◌==◌,
  if◌then◌else◌, store,
}
use cuore_os.Vmm.{page_size, page_size_2mb}
use cuore_os.Pma.{Zone, Memory, block_header_size}
use cuore_os.Pma.Lists.{locate_free, block_insert, add_block, pages_set}

-- `(x + align - 1) & ~(align - 1)`
unfoldable pub round_up : (align x : ℕ) → ℕ
round_up align x = bit_and (u64 (x + align - 1)) (not64 (align - 1))

-- The gap in front of the aligned address goes back; none when it is too small for that.
unfoldable pub free_gap : (b gap : ℕ) → Memory → Option Memory
unfolding add_block
free_gap b gap m =
    let total = m.header b in
    let split =
      add_block b gap (record m { header = store m.header (b + gap) (sub64 total gap) }) in
    if leb block_header_size gap then some split else if ltb 0 gap then none else some m

-- `size` bytes of the block at `b` are taken and the rest goes back; none when the block is smaller.
unfoldable pub cut_block : (b size : ℕ) → Memory → Option Memory
unfolding add_block
cut_block b size m =
    let total = m.header b in
    let split = add_block (b + size) (total - size) (record m { header = store m.header b size }) in
    if ltb (size + block_header_size) total
    then some split
    else if ltb total size
    then none
    else some m

-- The end of the allocation, with the block at its address and what `cut_block` said.
unfoldable pub finish_alloc : (addr size : ℕ) → Memory → Option Memory → ℕ × Memory
unfolding block_insert pages_set
finish_alloc addr size m none = (0, block_insert addr m)
finish_alloc addr size m (some cut) =
    (addr, pages_set true (size / page_size) (addr / page_size) cut)

-- The same with the block at `b` and what `free_gap` said.
unfoldable pub alloc_behind_gap : (b addr size : ℕ) → Memory → Option Memory → ℕ × Memory
unfolding finish_alloc cut_block block_insert
alloc_behind_gap b addr size m none = (0, block_insert b m)
alloc_behind_gap b addr size m (some spaced) =
    finish_alloc addr size spaced (cut_block addr size spaced)

-- The block at `b`, out of its list: the address, 0 for none.
unfoldable pub place : (b size align : ℕ) → Memory → ℕ × Memory
unfolding round_up free_gap alloc_behind_gap
place b size align m =
    let addr = round_up align b in alloc_behind_gap b addr size m (free_gap b (addr - b) m)

unfoldable pub alloc_size : (size : ℕ) → ℕ
unfolding round_up
alloc_size size =
    let whole = round_up page_size size in
    if ltb whole block_header_size then block_header_size else whole

unfoldable pub alloc_located : (size align : ℕ) → Memory → Option (ℕ × Memory) → ℕ × Memory
unfolding place
alloc_located size align m none = (0, m)
alloc_located size align m (some (b, taken)) = place b size align taken

-- `pma_alloc_from_zone`
unfoldable pub alloc_from_zone : (size align : ℕ) → Memory → ℕ × Memory
unfolding alloc_size locate_free alloc_located
alloc_from_zone size align m =
    let whole = alloc_size size in
    let search_size = if ltb page_size align then u64 (whole + (align - page_size)) else whole in
    alloc_located whole align m (locate_free search_size m)

-- The two zones over one bitmap and one memory.
pub record Pma : Type 0 where
  pub bitmap : ℕ → Bool
  pub header : ℕ → ℕ
  pub normal : Zone
  pub low : Zone

abbrev pub of_normal : Pma → Memory
of_normal p = record { bitmap = p.bitmap; header = p.header; zone = p.normal }

abbrev pub of_low : Pma → Memory
of_low p = record { bitmap = p.bitmap; header = p.header; zone = p.low }

abbrev pub with_normal : Pma → Memory → Pma
with_normal p m = record p { bitmap = m.bitmap; header = m.header; normal = m.zone }

abbrev pub with_low : Pma → Memory → Pma
with_low p m = record p { bitmap = m.bitmap; header = m.header; low = m.zone }

unfoldable pub alloc_low : (size align : ℕ) → Pma → ℕ × Pma
unfolding alloc_from_zone
alloc_low size align p =
    let result = alloc_from_zone size align (of_low p) in (result.0, with_low p result.1)

-- The normal zone, then the low one.
unfoldable pub alloc_either : (size align : ℕ) → Pma → ℕ × Pma
unfolding alloc_low
alloc_either size align p =
    let result = alloc_from_zone size align (of_normal p) in
    let next = with_normal p result.1 in
    if result.0 == 0 then alloc_low size align next else (result.0, next)

unfoldable pub pma_alloc_pages : (count : ℕ) → Pma → ℕ × Pma
unfolding alloc_either
pma_alloc_pages count p = alloc_either (u64 (count * page_size)) page_size p

unfoldable pub pma_alloc_pages_2mb : (count : ℕ) → Pma → ℕ × Pma
unfolding alloc_either
pma_alloc_pages_2mb count p = alloc_either (u64 (count * page_size_2mb)) page_size_2mb p

unfoldable pub pma_alloc_pages_low : (count : ℕ) → Pma → ℕ × Pma
unfolding alloc_low
pma_alloc_pages_low count p = alloc_low (u64 (count * page_size)) page_size p
