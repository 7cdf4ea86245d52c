-- ===== src/Vmm/Tests.antt =====
-- Tests of the virtual page allocator, and its theorems at a small pool.
use cuore_os.Base.{◌≡◌, refl, true, false, [], arith, ok}
use cuore_os.Avl.{leaf, node, insert, delete, update_node, rebalance}
use cuore_os.Vmm.{
  Vmm, VmmNode, page_size, page_size_2mb, vmm_node_update, vmm_node_cmp, alloc_pages, alloc_aligned,
  free_pages, find_gap, align_up,
}
use cuore_os.Vmm.Regions.{regions}
use cuore_os.Vmm.Gap.{align_up_page, align_up_2mb, Found, find_gap-Found}
use cuore_os.Vmm.Alloc.{IsValid, Allocates, alloc_aligned-Allocates}
use cuore_os.Vmm.Free.{Frees, free_pages-Frees, free_pages-alloc_aligned}

abbrev empty : Vmm
empty = record {
  pool_base = 0x100000;
  pool_end = 0x200000;
  root = leaf;
  early_pool_count = 0;
  heap_available = false;
  heap_nodes = 0;
}

-- After `vmm_alloc_pages(2)` on the empty pool.
abbrev first : VmmNode
first = record {
  start = 0x100000;
  page_count = 2;
  max_gap = 0;
  subtree_start = 0x100000;
  subtree_end = 0x102000;
  heap_allocated = false;
}

abbrev one_region : Vmm
one_region = record empty { root = node leaf first 1 leaf; early_pool_count = 1 }

abbrev second : VmmNode
second = record {
  start = 0x102000;
  page_count = 3;
  max_gap = 0;
  subtree_start = 0x102000;
  subtree_end = 0x105000;
  heap_allocated = false;
}

abbrev two_regions : Vmm
two_regions = record empty {
  root = node leaf (record first { subtree_end = 0x105000 }) 2 (node leaf second 1 leaf);
  early_pool_count = 2;
}

first_aligned_alloc : alloc_aligned true empty 2 page_size ≡ ok (one_region, 0x100000)
unfolding alloc_aligned insert update_node vmm_node_update
first_aligned_alloc = refl

first_alloc : alloc_pages true empty 2 ≡ ok (one_region, 0x100000)
unfolding alloc_pages insert update_node vmm_node_update
first_alloc = refl

empty-IsValid : IsValid empty
empty-IsValid = record {
  base_pos = omega arith;
  pool_fits = omega arith;
  pool_order = omega arith;
  mapped = record { updated = tt; spaced = tt; inside = tt };
  balanced = tt;
  none_from_heap = tt;
}

alloc_aligned-Allocates_example :
    Allocates empty empty-IsValid 2 page_size
      (omega arith)
      (omega arith)
      true
      (alloc_aligned true empty 2 page_size)
alloc_aligned-Allocates_example =
    alloc_aligned-Allocates empty empty-IsValid 2 page_size (omega arith) (omega arith) true
      (omega arith)

one_region-IsValid : IsValid one_region
unfolding alloc_aligned insert update_node vmm_node_update
one_region-IsValid =
    (alloc_aligned-Allocates empty empty-IsValid 2 page_size (omega arith) (omega arith) true
      (omega arith)).0

-- The three pages fit no gap, so they go behind the region.
second_alloc : alloc_pages true one_region 3 ≡ ok (two_regions, 0x102000)
unfolding alloc_pages insert update_node rebalance vmm_node_update vmm_node_cmp
second_alloc = refl

find_gap-Found_example :
    Found 0x100000 0x200000 one_region-IsValid.pool_fits 1 page_size
      (omega arith)
      (omega arith)
      one_region.root
      0x100000
      0x200000
      (find_gap 0x200000 one_region.root 0x100000 1 page_size)
find_gap-Found_example =
    find_gap-Found 0x100000 0x200000 one_region-IsValid.pool_fits 1 page_size (omega arith)
      (omega arith) one_region.root 0x100000 0x200000 one_region-IsValid.mapped (omega arith)
      (omega arith)

align_up_page_example : align_up 0x102001 page_size ≡ 0x103000
align_up_page_example = align_up_page 0x102001 (omega arith)

align_up_2mb_example : align_up 0x102001 page_size_2mb ≡ 0x200000
align_up_2mb_example = align_up_2mb 0x102001 (omega arith)

free_pages-Frees_example :
    Frees one_region one_region-IsValid 0x100000 3 (free_pages one_region 0x100000 3)
free_pages-Frees_example = free_pages-Frees one_region one_region-IsValid 0x100000 3

-- With a wrong count the call returns 0, and the region is gone.
free_wrong_count : (free_pages one_region 0x100000 3).1 ≡ 0
unfolding free_pages delete vmm_node_cmp
free_wrong_count = refl

free_pages-alloc_aligned_example :
    ((free_pages one_region 0x100000 2).1 ≡ 0x100000)
    × (regions (free_pages one_region 0x100000 2).0.root ≡ [])
free_pages-alloc_aligned_example =
    free_pages-alloc_aligned empty empty-IsValid 2 page_size (omega arith) (omega arith) true
      one_region 0x100000 (omega arith) first_aligned_alloc
