-- ===== src/Paging/Tests.antt =====
-- Tests of the tables of pages.
use cuore_os.Base.{◌+◌, ◌^◌, ◌≡◌, refl, true, some, if◌then◌else◌, ◌==◌}
use cuore_os.Pma.Alloc.{Pma}
use cuore_os.Pma.Init.{zone_init}
use cuore_os.Paging.{Paging, phys_from, paging_get_phys, page_entry_from, get_page_entry}

abbrev no_pages : Pma
no_pages = record {
  bitmap = λ pfn. true;
  header = λ a. 0;
  normal = zone_init 0 0;
  low = zone_init 0 0;
}

-- Four levels of tables, one after the other, whose first entries lead to the page 0x9000.
abbrev four_levels : Paging
four_levels = record {
  words = λ a.
      if a == 0x1000
      then 0x2003
      else if a == 0x2000
      then 0x3003
      else if a == 0x3000
      then 0x4003
      else if a == 0x4000
      then 0x9003
      else 0;
  pma = no_pages;
}

one_page : paging_get_phys 0 4 0x1000 0x123 four_levels ≡ 0x9123
unfolding paging_get_phys phys_from
one_page = refl

its_entry : get_page_entry 0 4 0x1000 0x123 four_levels ≡ some 0x4000
unfolding get_page_entry page_entry_from
its_entry = refl

-- Addresses in the next page have no entry.
unmapped : paging_get_phys 0 4 0x1000 0x1123 four_levels ≡ 0
unfolding paging_get_phys phys_from
unmapped = refl

-- A huge page that is not executable: the bit 63 of its entry comes back as a part of the address.
abbrev not_executable : Paging
not_executable = record {
  words = λ a. if a == 0x1000 then 0x8000000000200083 else 0;
  pma = no_pages;
}

with_bit_63 : phys_from 0 1 0x1000 0x456 not_executable.words ≡ 2 ^ 63 + 0x200456
unfolding phys_from
with_bit_63 = refl
