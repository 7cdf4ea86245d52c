-- ===== src/Paging.antt =====
-- mem/paging.c: the tables of pages. Memory is a function from the address of a word of 64 bits; a table
-- has 512 words. New tables come from the page allocator. The flush of the TLB is hardware.
mod Tests
use cuore_os.Base.{
  ℕ, zero, suc, ◌+◌, ◌-◌, ◌*◌, ◌/◌, ◌%◌, ◌^◌, bit_and, bit_or, Bool, true, false, not, ◌&&◌, Option,
  none, some, u64, not64, ltb, leb, ◌==◌, if◌then◌else◌, store, Run, ok, panic,
}
use cuore_os.Vmm.{page_size, page_size_2mb}
use cuore_os.Memory.{range_is_safe}
use cuore_os.Pma.Alloc.{Pma, pma_alloc_pages}

abbrev pub pte_present : ℕ
pte_present = 1

abbrev pub pte_writable : ℕ
pte_writable = 2

abbrev pub pte_user : ℕ
pte_user = 4

abbrev pub pte_huge_page : ℕ
pte_huge_page = 2 ^ 7

abbrev pub pte_global : ℕ
pte_global = 2 ^ 8

abbrev pub pte_nx : ℕ
pte_nx = 2 ^ 63

abbrev pub pte_addr_mask : ℕ
pte_addr_mask = 0x000FFFFFFFFFF000

abbrev pub page_size_1gb : ℕ
page_size_1gb = 0x40000000

-- The words of memory by their virtual addresses, and the page allocator.
pub record Paging : Type 0 where
  pub words : ℕ → ℕ
  pub pma : Pma

-- `paging_init`, from the bits of cr4.
unfoldable pub paging_init : (cr4 : ℕ) → ℕ
paging_init cr4 = if bit_and cr4 (2 ^ 12) == 0 then 4 else 5

abbrev pub has : (entry flag : ℕ) → Bool
has entry flag = not (bit_and entry flag == 0)

-- The place of the entry of an address in a table of a level.
abbrev pub slot : (table virt level : ℕ) → ℕ
slot table virt level = table + 8 * (virt / 2 ^ (12 + level * 9) % 512)

-- The words of a table at `at`.
abbrev pub fill_table : (at : ℕ) → (ℕ → ℕ) → (ℕ → ℕ) → ℕ → ℕ
fill_table at entries words a =
    if leb at a && ltb a (at + page_size) then entries ((a - at) / 8) else words a

-- An entry of the table that a huge page is split into.
unfoldable pub sub_entry : (level entry i : ℕ) → ℕ
sub_entry level entry i =
    let base_phys = bit_and entry (not64 (2 ^ (12 + level * 9) - 1)) in
    let flags = bit_or (bit_and entry 0xFFF) (bit_and entry pte_nx) in
    let sub_flags = bit_and (bit_and flags (not64 pte_huge_page)) (not64 pte_global) in
    let size = 2 ^ (12 + (level - 1) * 9) in
    let page = bit_or (u64 (base_phys + i * size)) sub_flags in
    if ltb 1 level then bit_or page pte_huge_page else page

module _ (hhdm_offset : ℕ) where
  -- A new table with the entries given, linked at `place` with flags; none without memory.
  unfoldable pub link_table : (place flags : ℕ) → (ℕ → ℕ) → Paging → Option ℕ × Paging
  link_table place flags entries s =
      let allocated = pma_alloc_pages 1 s.pma in
      let table = u64 (allocated.0 + hhdm_offset) in
      let linked = store (fill_table table entries s.words) place (bit_or allocated.0 flags) in
      if allocated.0 == 0
      then (none, record s { pma = allocated.1 })
      else (some table, record { words = linked; pma = allocated.1 })

  -- One turn of the loop of `walk_to_level`: the next table, or none.
  unfoldable pub walk_step :
      (level table virt : ℕ) → (allocate : Bool) → Paging → Run (Option ℕ × Paging)
  unfolding link_table sub_entry
  walk_step level table virt allocate s =
      let place = slot table virt level in
      let entry = s.words place in
      let present_flags = pte_present + pte_writable in
      let kept = bit_and entry (pte_present + pte_writable + pte_user + pte_nx) in
      if not (range_is_safe table page_size)
      then panic
      else if not (has entry pte_present)
      then (if allocate then ok (link_table place present_flags (λ i. 0) s) else ok (none, s))
      else if has entry pte_huge_page
      then (if allocate then ok (link_table place kept (sub_entry level entry) s) else ok (none, s))
      else ok (some (u64 (bit_and entry pte_addr_mask + hhdm_offset)), s)

  -- The loop, for the levels that are left above the target.
  unfoldable pub walk_from :
      (count target : ℕ)
      → (virt : ℕ) → (allocate : Bool) → Run (Option ℕ × Paging)
      → Run (Option ℕ × Paging)
  unfolding walk_step
  walk_from zero target virt allocate r = r
  walk_from (suc count) target virt allocate panic = panic
  walk_from (suc count) target virt allocate (ok (none, s)) = ok (none, s)
  walk_from (suc count) target virt allocate (ok (some table, s)) =
      walk_from count target virt allocate (walk_step (target + suc count) table virt allocate s)

  -- `walk_to_level`, for the number of levels in use.
  unfoldable pub walk_to_level :
      (levels top_table virt target_level : ℕ)
      → (allocate : Bool) → Paging
      → Run (Option ℕ × Paging)
  unfolding walk_from
  walk_to_level levels top_table virt target_level allocate s =
      walk_from (levels - 1 - target_level) target_level virt allocate (ok (some top_table, s))

  -- The place of the entry in the table that was reached.
  unfoldable pub place_in : (level virt : ℕ) → Run (Option ℕ × Paging) → Run (Option ℕ × Paging)
  place_in level virt panic = panic
  place_in level virt (ok (none, s)) = ok (none, s)
  place_in level virt (ok (some table, s)) = ok (some (slot table virt level), s)

  -- `paging_get_pte` for the level 0, and what the functions for huge pages do for theirs.
  unfoldable pub find_place :
      (levels level top_table virt : ℕ) → (allocate : Bool) → Paging → Run (Option ℕ × Paging)
  unfolding walk_to_level place_in
  find_place levels level top_table virt allocate s =
      place_in level virt (walk_to_level levels top_table virt level allocate s)

  unfoldable pub write_at : (entry : ℕ) → Run (Option ℕ × Paging) → Run Paging
  write_at entry panic = panic
  write_at entry (ok (none, s)) = ok s
  write_at entry (ok (some place, s)) = ok (record s { words = store s.words place entry })

  unfoldable pub clear_at : Run (Option ℕ × Paging) → Run Paging
  clear_at panic = panic
  clear_at (ok (none, s)) = ok s
  clear_at (ok (some place, s)) =
      if has (s.words place) pte_present
      then ok (record s { words = store s.words place 0 })
      else ok s

  unfoldable pub map_page : (levels pml4 virt phys flags : ℕ) → Paging → Run Paging
  unfolding find_place write_at
  map_page levels pml4 virt phys flags s =
      write_at (bit_or (bit_and phys (not64 0xFFF)) flags) (find_place levels 0 pml4 virt true s)

  unfoldable pub unmap_page : (levels pml4 virt : ℕ) → Paging → Run Paging
  unfolding find_place clear_at
  unmap_page levels pml4 virt s = clear_at (find_place levels 0 pml4 virt false s)

  unfoldable pub map_2mb : (levels pml4 virt phys flags : ℕ) → Paging → Run Paging
  unfolding find_place write_at
  map_2mb levels pml4 virt phys flags s =
      write_at (bit_or (bit_or (bit_and phys (not64 (page_size_2mb - 1))) flags) pte_huge_page)
        (find_place levels 1 pml4 virt true s)

  unfoldable pub unmap_2mb : (levels pml4 virt : ℕ) → Paging → Run Paging
  unfolding find_place clear_at
  unmap_2mb levels pml4 virt s = clear_at (find_place levels 1 pml4 virt false s)

  unfoldable pub map_1gb : (levels pml4 virt phys flags : ℕ) → Paging → Run Paging
  unfolding find_place write_at
  map_1gb levels pml4 virt phys flags s =
      write_at (bit_or (bit_or (bit_and phys (not64 (page_size_1gb - 1))) flags) pte_huge_page)
        (find_place levels 2 pml4 virt true s)

  unfoldable pub unmap_1gb : (levels pml4 virt : ℕ) → Paging → Run Paging
  unfolding find_place clear_at
  unmap_1gb levels pml4 virt s = clear_at (find_place levels 2 pml4 virt false s)

  -- The loop of `paging_get_phys` from a level down.
  unfoldable pub phys_from : (level table vaddr : ℕ) → (ℕ → ℕ) → ℕ
  phys_from zero table vaddr words =
      let entry = words (slot table vaddr 0) in
      if has entry pte_present then u64 (bit_and entry pte_addr_mask + bit_and vaddr 0xFFF) else 0
  phys_from (suc level) table vaddr words =
      let entry = words (slot table vaddr (suc level)) in
      let mask = 2 ^ (12 + suc level * 9) - 1 in
      let below = phys_from level (u64 (bit_and entry pte_addr_mask + hhdm_offset)) vaddr words in
      if not (has entry pte_present)
      then 0
      else if has entry pte_huge_page
      then u64 (bit_and entry (not64 mask) + bit_and vaddr mask)
      else below

  unfoldable pub paging_get_phys : (levels top_table vaddr : ℕ) → Paging → ℕ
  unfolding phys_from
  paging_get_phys levels top_table vaddr s = phys_from (levels - 1) top_table vaddr s.words

  -- The loop of `get_page_entry` from a level down: the place of the entry.
  unfoldable pub page_entry_from : (level table vaddr : ℕ) → (ℕ → ℕ) → Option ℕ
  page_entry_from zero table vaddr words =
      let place = slot table vaddr 0 in if has (words place) pte_present then some place else none
  page_entry_from (suc level) table vaddr words =
      let place = slot table vaddr (suc level) in
      let entry = words place in
      let below =
        page_entry_from level (u64 (bit_and entry pte_addr_mask + hhdm_offset)) vaddr words in
      if not (has entry pte_present)
      then none
      else if has entry pte_huge_page
      then some place
      else below

  unfoldable pub get_page_entry : (levels top_table vaddr : ℕ) → Paging → Option ℕ
  unfolding page_entry_from
  get_page_entry levels top_table vaddr s = page_entry_from (levels - 1) top_table vaddr s.words
