-- ===== src/Pma/Tests.antt =====
-- Tests of the allocator of physical pages.
use cuore_os.Base.{◌<◌, ◌≡◌, refl, not, ◌&&◌, leb, ltb, ◌==◌, if◌then◌else◌, true, [], ◌∷◌, arith}
use cuore_os.Vmm.{page_size}
use cuore_os.Pma.{Memory, fls, mapping_insert, ffs, is_zero}
use cuore_os.Pma.Lists.{
  erase, is_only, remove_free_block, insert_free_block, block_insert, block_remove, add_block,
  search_class, head_of, head_in, search_suitable, take_found, locate_free, page_is_free, page_set,
  pages_set, find_free_start, find_free_end,
}
use cuore_os.Pma.Alloc.{
  round_up, free_gap, cut_block, finish_alloc, alloc_behind_gap, place, alloc_size, alloc_located,
  alloc_from_zone,
}
use cuore_os.Pma.Release.{merge_back, merge_forward, zone_free_range}
use cuore_os.Pma.Init.{zone_init, zone_add_region}
use cuore_os.Pma.Sound.{IsSound, IsLoose, block_insert-IsSound}
use cuore_os.Pma.Place.{Allocates}
use cuore_os.Pma.Allocates.{alloc_from_zone-Allocates}

classes :
    (mapping_insert 0x3000 ≡ (0, 3))
    × (mapping_insert 0x40000 ≡ (2, 0))
    × (mapping_insert 0x41000 ≡ (2, 0))
unfolding mapping_insert fls
classes = (refl, refl, refl)

-- A zone of 32 pages without a block.
abbrev empty : Memory
empty = record { bitmap = λ pfn. true; header = λ a. 0; zone = zone_init 0 32 }

abbrev six : Memory
unfolding zone_add_region
six = zone_add_region 0x2000 0x6000 empty

two_pages : (alloc_from_zone 0x1800 page_size six).0 ≡ 0x2000
unfolding mapping_insert fls ffs is_zero erase is_only remove_free_block insert_free_block
    block_insert block_remove add_block search_class head_of head_in search_suitable take_found
    locate_free page_is_free page_set pages_set find_free_start find_free_end round_up free_gap
    cut_block finish_alloc alloc_behind_gap place alloc_size alloc_located alloc_from_zone
    merge_back merge_forward zone_free_range zone_add_region
two_pages = refl

then_one : (alloc_from_zone 0x1000 page_size (alloc_from_zone 0x1800 page_size six).1).0 ≡ 0x4000
unfolding mapping_insert fls ffs is_zero erase is_only remove_free_block insert_free_block
    block_insert block_remove add_block search_class head_of head_in search_suitable take_found
    locate_free page_is_free page_set pages_set find_free_start find_free_end round_up free_gap
    cut_block finish_alloc alloc_behind_gap place alloc_size alloc_located alloc_from_zone
    merge_back merge_forward zone_free_range zone_add_region
then_one = refl

-- A page that goes back joins its neighbours.
back_again :
    ((zone_free_range 0x2000 2 (alloc_from_zone 0x1800 page_size six).1).zone.blocks 0 6)
    ≡ 0x2000 ∷ []
unfolding mapping_insert fls ffs is_zero erase is_only remove_free_block insert_free_block
    block_insert block_remove add_block search_class head_of head_in search_suitable take_found
    locate_free page_is_free page_set pages_set find_free_start find_free_end round_up free_gap
    cut_block finish_alloc alloc_behind_gap place alloc_size alloc_located alloc_from_zone
    merge_back merge_forward zone_free_range zone_add_region
back_again = refl

-- A block of 64 pages is found for 65 pages, as they are of one class, and is too small: nothing is
-- allocated, although a block of 256 pages is there.
abbrev large : Memory
unfolding add_block
large = add_block 0x100000 0x40000 (add_block 0x200000 0x100000 empty)

too_small : (alloc_from_zone 0x41000 page_size large).0 ≡ 0
unfolding mapping_insert fls ffs is_zero erase is_only remove_free_block insert_free_block
    block_insert block_remove add_block search_class head_of head_in search_suitable take_found
    locate_free page_is_free page_set pages_set find_free_start find_free_end round_up free_gap
    cut_block finish_alloc alloc_behind_gap place alloc_size alloc_located alloc_from_zone
    merge_back merge_forward zone_free_range zone_add_region
too_small = refl

-- The zone before and after its one block joins the lists.
abbrev before : Memory
before = record {
  bitmap = λ pfn. not (leb 2 pfn && ltb pfn 8);
  header = λ a. if a == 0x2000 then 0x6000 else 0;
  zone = zone_init 0 32;
}

before-IsSound : IsSound before
unfolding is_zero ffs
before-IsSound = record {
  once = λ b fl sl. omega arith;
  class = λ b fl sl h. ground (arith, h);
  free = λ b fl sl h. absurd (none_listed h);
  apart = λ b fl sl c i j h k ne. absurd (none_listed h);
  filled = λ fl sl h. ground (arith, h);
  marked = λ fl sl h. absurd (none_listed h);
  rows = λ fl. refl;
}
  where
    none_listed : ¬ (0 < 0)
    none_listed h = omega (arith, h)

before-IsLoose : IsLoose before 0x2000 0x6000
before-IsLoose = record {
  free = record {
    nonzero = omega arith;
    start = refl;
    whole = refl;
    some_room = omega arith;
    inside = omega arith;
    of_word = omega arith;
    unused = λ pfn h k. ground (arith, h, k);
  };
  apart = λ c fl sl h. ground (arith, h);
}

abbrev one_block : Memory
unfolding block_insert
one_block = block_insert 0x2000 before

alloc_from_zone-Allocates_example :
    Allocates one_block.bitmap 32 (alloc_size 0x1800) (alloc_from_zone 0x1800 page_size one_block)
unfolding block_insert insert_free_block
alloc_from_zone-Allocates_example =
    alloc_from_zone-Allocates one_block 0x1800
      (block_insert-IsSound before 0x2000 before-IsSound before-IsLoose) (omega arith) (omega arith)
      (omega arith)
