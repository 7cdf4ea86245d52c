-- ===== src/Pma/Init.antt =====
-- `pma_init` of mem/pma.c, on the regions of the memory map.
use cuore_os.Base.{
  ℕ, ◌+◌, ◌-◌, ◌*◌, ◌/◌, true, false, not, ◌&&◌, List, [], ◌∷◌, Option, none, some, bit_and, u64,
  not64, smin, smax, ltb, leb, ◌==◌, if◌then◌else◌, Run, ok, panic,
}
use cuore_os.Cmm.{CmmRegion, is_usable}
use cuore_os.Vmm.{page_size}
use cuore_os.Pma.{Zone, Memory, block_header_size, zone_32bit}
use cuore_os.Pma.Lists.{add_block, pages_set}
use cuore_os.Pma.Alloc.{Pma, of_low, of_normal, with_low, with_normal, round_up}

-- `pma_zone_init`
abbrev pub zone_init : (block_null total_pages : ℕ) → Zone
zone_init block_null total_pages = record {
  block_null = block_null;
  total_pages = total_pages;
  fl_bitmap = λ fl. false;
  sl_bitmap = λ fl sl. false;
  blocks = λ fl sl. [];
}

-- `pma_zone_add_region`
unfoldable pub zone_add_region : (phys_base length : ℕ) → Memory → Memory
unfolding round_up pages_set add_block
zone_add_region phys_base length m =
    let start = round_up page_size phys_base in
    let end = bit_and (u64 (phys_base + length)) (not64 (page_size - 1)) in
    let from = if start == 0 then start + page_size else start in
    let freed = pages_set false ((end - from) / page_size) (from / page_size) m in
    if ltb length block_header_size
    then m
    else if leb end from
    then m
    else add_block from (end - from) freed

unfoldable pub add_low : (from to : ℕ) → Pma → Pma
unfolding zone_add_region
add_low from to p =
    if ltb from to then with_low p (zone_add_region from (to - from) (of_low p)) else p

unfoldable pub add_normal : (from to : ℕ) → Pma → Pma
unfolding zone_add_region
add_normal from to p =
    if ltb from to then with_normal p (zone_add_region from (to - from) (of_normal p)) else p

-- A range of free memory, to the zones that it lies in.
unfoldable pub add_range : (from to : ℕ) → Pma → Pma
unfolding add_low add_normal
add_range from to p =
    let limit = zone_32bit * page_size in
    add_normal (smax from limit) to (add_low from (smin to limit) p)

-- The pages of the bitmap are used.
unfoldable pub mark_bitmap : (total_pages bitmap_phys reserved : ℕ) → Pma → Pma
mark_bitmap total_pages bitmap_phys reserved p = record p {
  bitmap = λ pfn.
      if leb (bitmap_phys / page_size) pfn
        && ltb pfn ((bitmap_phys + reserved) / page_size)
        && ltb pfn total_pages
      then true
      else p.bitmap pfn;
}

-- One turn of the walk over the map.
unfoldable pub add_region : (total_pages bitmap_phys reserved : ℕ) → CmmRegion → Pma → Pma
unfolding add_range mark_bitmap
add_region total_pages bitmap_phys reserved r p =
    let end = u64 (r.base + r.extent) in
    let before = if ltb r.base bitmap_phys then add_range r.base bitmap_phys p else p in
    let marked = mark_bitmap total_pages bitmap_phys reserved before in
    let after = bitmap_phys + reserved in
    if not (is_usable r.type)
    then p
    else if leb r.base bitmap_phys && ltb bitmap_phys end
    then (if ltb after end then add_range after end marked else marked)
    else add_range r.base end p

unfoldable pub add_regions : (total_pages bitmap_phys reserved : ℕ) → List CmmRegion → Pma → Pma
unfolding add_region
add_regions total_pages bitmap_phys reserved [] p = p
add_regions total_pages bitmap_phys reserved (r ∷ rs) p =
    add_regions total_pages bitmap_phys reserved rs
      (add_region total_pages bitmap_phys reserved r p)

-- The first usable region that the bitmap fits.
unfoldable pub find_bitmap : (reserved : ℕ) → List CmmRegion → Option ℕ
find_bitmap reserved [] = none
find_bitmap reserved (r ∷ rs) =
    let rest = find_bitmap reserved rs in
    if is_usable r.type && leb reserved r.extent then some r.base else rest

-- `pma_init`, on a memory whose contents are `header` and what stood in the bitmap behind its end; the
-- sentinels of the zones lie in the kernel.
unfoldable pub pma_init :
    (normal_null low_null ram_top : ℕ) → List CmmRegion → (header : ℕ → ℕ) → Run Pma
unfolding find_bitmap add_regions
pma_init normal_null low_null ram_top regions header =
    let total_pages = ram_top / page_size in
    let bitmap_bytes = (total_pages + 7) / 8 in
    let reserved = (bitmap_bytes + page_size - 1) / page_size * page_size in
    let start : Pma = record {
      bitmap = λ pfn. true;
      header = header;
      normal = zone_init normal_null total_pages;
      low = zone_init low_null (smin total_pages zone_32bit);
    } in
    elim (find_bitmap reserved regions) [
      | none ↦ panic
      | some bitmap_phys ↦ ok (add_regions total_pages bitmap_phys reserved regions start)
    ]
