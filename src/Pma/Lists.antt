-- ===== src/Pma/Lists.antt =====
-- The free lists and the bitmap of a zone of mem/pma.c.
use cuore_os.Base.{
  ℕ, zero, suc, ◌+◌, ◌-◌, ◌^◌, Bool, true, false, not, ◌&&◌, Option, none, some, List, [], ◌∷◌, ltb,
  leb, ◌==◌, if◌then◌else◌, store,
}
use cuore_os.Pma.{Zone, Memory, fl_index_count, mapping_insert, ffs, is_zero, set_bit, set_class}

unfoldable pub erase : (b : ℕ) → List ℕ → List ℕ
erase b [] = []
erase b (c ∷ cs) = let rest = erase b cs in if c == b then cs else c ∷ rest

-- `z->blocks[fl][sl] == b` and `next == &z->block_null`.
unfoldable pub is_only : (b : ℕ) → List ℕ → Bool
is_only b [] = false
is_only b (c ∷ []) = c == b
is_only b (c ∷ d ∷ cs) = false

-- `tlsf_remove_free_block`
unfoldable pub remove_free_block : Zone → (b fl sl : ℕ) → Zone
unfolding erase is_only is_zero
remove_free_block z b fl sl =
    let rest = set_class z.blocks fl sl (erase b (z.blocks fl sl)) in
    let sl_map = set_class z.sl_bitmap fl sl false in
    if is_only b (z.blocks fl sl)
    then record z {
      blocks = rest;
      sl_bitmap = sl_map;
      fl_bitmap = if is_zero (sl_map fl) then set_bit z.fl_bitmap fl false else z.fl_bitmap;
    }
    else record z { blocks = rest }

-- `tlsf_insert_free_block`
unfoldable pub insert_free_block : Zone → (b fl sl : ℕ) → Zone
insert_free_block z b fl sl = record z {
  blocks = set_class z.blocks fl sl (b ∷ z.blocks fl sl);
  fl_bitmap = set_bit z.fl_bitmap fl true;
  sl_bitmap = set_class z.sl_bitmap fl sl true;
}

-- `tlsf_block_remove`
unfoldable pub block_remove : (b : ℕ) → Memory → Memory
unfolding remove_free_block
block_remove b m =
    let class = mapping_insert (m.header b) in
    record m { zone = remove_free_block m.zone b class.0 class.1 }

-- `tlsf_block_insert`
unfoldable pub block_insert : (b : ℕ) → Memory → Memory
unfolding insert_free_block
block_insert b m =
    let class = mapping_insert (m.header b) in
    record m { zone = insert_free_block m.zone b class.0 class.1 }

-- `b->size = size | 1`, then `tlsf_block_insert`.
unfoldable pub add_block : (b size : ℕ) → Memory → Memory
unfolding block_insert
add_block b size m = block_insert b (record m { header = store m.header b size })

-- The first class that the words mark, from a class on. For a row that is marked and whose word is 0,
-- `pma_ffs` gives -1, which is then the index.
unfoldable pub search_class : Zone → (fl sl : ℕ) → Option (ℕ × ℕ)
unfolding ffs
search_class z fl sl = elim (ffs (64 - sl) sl (z.sl_bitmap fl)) [
  | some found ↦ some (fl, found)
  | none ↦ elim (ffs (64 - (fl + 1)) (fl + 1) z.fl_bitmap) [
    | none ↦ none
    | some above ↦ elim (ffs 64 0 (z.sl_bitmap above)) [
      | none ↦ some (above, 2 ^ 32 - 1)
      | some found ↦ some (above, found)
    ]
  ]
]

-- The head of a list, with its class; that of an empty list is `&z->block_null`, and not NULL.
unfoldable pub head_of : (block_null fl sl : ℕ) → List ℕ → ℕ × ℕ × ℕ
head_of block_null fl sl [] = (block_null, fl, sl)
head_of block_null fl sl (b ∷ bs) = (b, fl, sl)

unfoldable pub head_in : Zone → Option (ℕ × ℕ) → Option (ℕ × ℕ × ℕ)
unfolding head_of
head_in z none = none
head_in z (some class) = some (head_of z.block_null class.0 class.1 (z.blocks class.0 class.1))

-- `tlsf_search_suitable`: a block with its class.
unfoldable pub search_suitable : Zone → (fl sl : ℕ) → Option (ℕ × ℕ × ℕ)
unfolding search_class head_in
search_suitable z fl sl = head_in z (search_class z fl sl)

unfoldable pub take_found : Memory → Option (ℕ × ℕ × ℕ) → Option (ℕ × Memory)
unfolding remove_free_block
take_found m none = none
take_found m (some found) =
    some (found.0, record m { zone = remove_free_block m.zone found.0 found.1 found.2 })

-- `tlsf_locate_free`: the block, and the memory without it.
unfoldable pub locate_free : (size : ℕ) → Memory → Option (ℕ × Memory)
unfolding search_suitable take_found
locate_free size m =
    let class = mapping_insert size in
    if size == 0
    then none
    else if not (ltb class.0 fl_index_count)
    then none
    else take_found m (search_suitable m.zone class.0 class.1)

unfoldable pub page_is_free : Memory → (pfn : ℕ) → Bool
page_is_free m pfn = if leb m.zone.total_pages pfn then false else not (m.bitmap pfn)

unfoldable pub page_set : Bool → (pfn : ℕ) → Memory → Memory
page_set used pfn m =
    if leb m.zone.total_pages pfn then m else record m { bitmap = set_bit m.bitmap pfn used }

-- The loops over pages from `pfn` on.
unfoldable pub pages_set : Bool → (count pfn : ℕ) → Memory → Memory
unfolding page_set
pages_set used zero pfn m = m
pages_set used (suc count) pfn m = pages_set used count (pfn + 1) (page_set used pfn m)

-- `pma_find_free_start`
unfoldable pub find_free_start : Memory → (pfn : ℕ) → ℕ
unfolding page_is_free
find_free_start m zero = zero
find_free_start m (suc pfn) =
    let rest = find_free_start m pfn in if page_is_free m pfn then rest else suc pfn

-- `pma_find_free_end`, on fuel for the pages up to the end of the zone.
unfoldable pub find_free_end : (fuel : ℕ) → Memory → (pfn : ℕ) → ℕ
unfolding page_is_free
find_free_end zero m pfn = pfn
find_free_end (suc fuel) m pfn =
    let rest = find_free_end fuel m (pfn + 1) in
    if ltb pfn m.zone.total_pages && page_is_free m pfn then rest else pfn
