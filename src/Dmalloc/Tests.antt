-- ===== src/Dmalloc/Tests.antt =====
-- Tests of the memory for devices.
use cuore_os.Base.{◌≡◌, refl, true, [], arith}
use cuore_os.Pma.{fls, mapping_insert, ffs, is_zero}
use cuore_os.Pma.Lists.{
  erase, is_only, remove_free_block, insert_free_block, block_insert, add_block, search_class,
  head_of, head_in, search_suitable, take_found, locate_free, page_set, pages_set,
}
use cuore_os.Pma.Alloc.{
  Pma, round_up, free_gap, cut_block, finish_alloc, alloc_behind_gap, place, alloc_size,
  alloc_located, alloc_from_zone, alloc_low, alloc_either, pma_alloc_pages,
}
use cuore_os.Pma.Release.{pma_free_pages}
use cuore_os.Pma.Init.{zone_init, zone_add_region, add_low}
use cuore_os.Dmalloc.{Dmalloc, dmalloc, dmfree}
use cuore_os.Dmalloc.Free.{dmfree-dmalloc}

abbrev memory : Pma
unfolding add_low
memory = add_low 0x2000 0x8000 (record {
  bitmap = λ pfn. true;
  header = λ a. 0;
  normal = zone_init 0 32;
  low = zone_init 0 32;
})

abbrev start : Dmalloc
start = record { registry = []; pma = memory }

one_page : (pma_alloc_pages 1 memory).0 ≡ 0x2000
unfolding mapping_insert fls ffs is_zero erase is_only remove_free_block insert_free_block
    block_insert add_block search_class head_of head_in search_suitable take_found locate_free
    page_set pages_set round_up free_gap cut_block finish_alloc alloc_behind_gap place alloc_size
    alloc_located alloc_from_zone alloc_low alloc_either pma_alloc_pages zone_add_region add_low
one_page = refl

dmfree-dmalloc_example :
    dmfree 0x100000 (dmalloc 0x100000 512 start).0.virt (dmalloc 0x100000 512 start).1
    ≡ record start {
      pma = pma_free_pages (pma_alloc_pages 1 memory).0 1 (pma_alloc_pages 1 memory).1;
    }
unfolding mapping_insert fls ffs is_zero erase is_only remove_free_block insert_free_block
    block_insert add_block search_class head_of head_in search_suitable take_found locate_free
    page_set pages_set round_up free_gap cut_block finish_alloc alloc_behind_gap place alloc_size
    alloc_located alloc_from_zone alloc_low alloc_either pma_alloc_pages zone_add_region add_low
dmfree-dmalloc_example = dmfree-dmalloc 0x100000 512 start refl (omega arith)
