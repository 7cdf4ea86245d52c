-- ===== src/Pma/Release.antt =====
-- `pma_zone_free_range` and `pma_free_pages` of mem/pma.c.
use cuore_os.Base.{
  ℕ, ◌+◌, ◌-◌, ◌*◌, ◌/◌, false, ◌&&◌, u64, smin, smax, ltb, leb, ◌==◌, if◌then◌else◌,
}
use cuore_os.Vmm.{page_size}
use cuore_os.Pma.{Memory, block_header_size, zone_32bit}
use cuore_os.Pma.Lists.{
  block_remove, add_block, page_is_free, pages_set, find_free_start, find_free_end,
}
use cuore_os.Pma.Alloc.{Pma, of_low, of_normal, with_low, with_normal}

-- The first page of the free block in front, which leaves its list.
unfoldable pub merge_back : (start_pfn : ℕ) → Memory → ℕ × Memory
unfolding page_is_free find_free_start block_remove
merge_back start_pfn m =
    let prev_start = find_free_start m (start_pfn - 1) in
    if ltb 0 start_pfn && page_is_free m (start_pfn - 1)
    then (prev_start, block_remove (prev_start * page_size) m)
    else (start_pfn, m)

-- The end of the free block behind, which leaves its list.
unfoldable pub merge_forward : (merge_end : ℕ) → Memory → ℕ × Memory
unfolding page_is_free find_free_end block_remove
merge_forward merge_end m =
    if ltb merge_end m.zone.total_pages && page_is_free m merge_end
    then (find_free_end m.zone.total_pages m merge_end, block_remove (merge_end * page_size) m)
    else (merge_end, m)

-- `pma_zone_free_range`
unfoldable pub zone_free_range : (phys count : ℕ) → Memory → Memory
unfolding pages_set merge_back merge_forward add_block
zone_free_range phys count m =
    let start_pfn = phys / page_size in
    let freed = pages_set false count start_pfn m in
    let back = merge_back start_pfn freed in
    let both = merge_forward (start_pfn + count) back.1 in
    let merged_size = u64 ((both.0 - back.0) * page_size) in
    if count == 0
    then m
    else if ltb (u64 (m.zone.total_pages * page_size)) (u64 (phys + count * page_size))
    then m
    else if leb block_header_size merged_size
    then add_block (back.0 * page_size) merged_size both.1
    else both.1

unfoldable pub free_low : (from to : ℕ) → Pma → Pma
unfolding zone_free_range
free_low from to p =
    if ltb from to
    then with_low p (zone_free_range from ((to - from) / page_size) (of_low p))
    else p

unfoldable pub free_normal : (from to : ℕ) → Pma → Pma
unfolding zone_free_range
free_normal from to p =
    if ltb from to
    then with_normal p (zone_free_range from ((to - from) / page_size) (of_normal p))
    else p

unfoldable pub pma_free_pages : (phys count : ℕ) → Pma → Pma
unfolding free_low free_normal
pma_free_pages phys count p =
    let low_limit = zone_32bit * page_size in
    let end = u64 (phys + count * page_size) in
    if phys == 0
    then p
    else free_normal (smax phys low_limit) end (free_low phys (smin end low_limit) p)

unfoldable pub free_page : (phys : ℕ) → Pma → Pma
unfolding pma_free_pages
free_page phys p = pma_free_pages phys 1 p
