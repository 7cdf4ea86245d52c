-- ===== src/Heap/Tests.antt =====
-- Tests of the heap, and its theorems at a small one.
use cuore_os.Base.{ℕ, ◌≡◌, refl, true, false, Option, none, some, [], ◌∷◌, arith, inl, inr, ok}
use cuore_os.Heap.{
  Block, Heap, heap_magic, update, find_block, take_block, split_of, first_fit, fits, search_order,
  growth_pages, new_area, malloc_block,
}
use cuore_os.Heap.Free.{free_block, merge_next, set_free, can_absorb, absorb, redirect}
use cuore_os.Heap.Layout.{IsTiled}
use cuore_os.Heap.Malloc.{Taken, malloc_block-Taken}
use cuore_os.Heap.Merge.{IsCoarser, free_block-IsCoarser}

abbrev area : Block
area = record {
  address = 0x100000;
  magic = heap_magic;
  is_free = true;
  is_pool = false;
  is_boundary = true;
  size = 4048;
  bin_size = 0;
  used_slots = 0;
}

abbrev small : Heap
small = record { blocks = area ∷ []; last_fit = none; pools = []; pool_page_registry = [] }

abbrev pages_at : ℕ → Option ℕ
pages_at n = some 0x200000

-- The first block is taken, and the tail behind it is free.
abbrev first : Block
first = record area { is_free = false; size = 112 }

abbrev behind : Block
behind = record area { address = 0x1000A0; is_boundary = false; size = 3888 }

abbrev used : Heap
used = record small { blocks = first ∷ behind ∷ []; last_fit = some 0x100000 }

first_malloc : malloc_block 2 pages_at 112 small ≡ ok (used, 0x100030)
unfolding malloc_block take_block update first_fit fits search_order split_of
first_malloc = refl

small-IsTiled : IsTiled small.blocks
small-IsTiled = record {
  sound = ((refl, omega arith), tt);
  chained = (tt, tt);
  disjoint = (tt, tt);
}

used-IsTiled : IsTiled used.blocks
used-IsTiled = record {
  sound = ((refl, omega arith), ((refl, omega arith), tt));
  chained = (inr (inr (refl, refl)), (tt, tt));
  disjoint = ((inl (omega arith), tt), (tt, tt));
}

malloc_block-Taken_example : Taken pages_at 112 small (malloc_block 2 pages_at 112 small)
unfolding growth_pages new_area
malloc_block-Taken_example =
    malloc_block-Taken pages_at 112 (omega arith) small small-IsTiled
      ((refl, omega arith), (inl (omega arith), tt))

-- The block and the tail behind it are one again.
first_free : free_block 0x100000 (some 0x100000) used.blocks ≡ (some 0x100000, area ∷ [])
unfolding free_block merge_next set_free can_absorb absorb redirect
first_free = refl

free_block-IsCoarser_example :
    IsCoarser 0x100000 used.blocks (free_block 0x100000 (some 0x100000) used.blocks).1
unfolding find_block
free_block-IsCoarser_example = free_block-IsCoarser 0x100000 (some 0x100000) used.blocks refl
