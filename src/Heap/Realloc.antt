-- ===== src/Heap/Realloc.antt =====
-- `realloc` and `heap_init` of mem/heap.c.
use cuore_os.Base.{
  ℕ, zero, suc, ◌+◌, ◌-◌, ◌*◌, ◌/◌, true, false, ◌&&◌, Option, none, some, List, [], ◌∷◌, ◌++◌, u64,
  leb, ◌==◌, if◌then◌else◌, Run, ok, panic, ◌>>=◌,
}
use cuore_os.Heap.{
  Block, Heap, header_size, heap_magic, min_split_size, page_size, align_size, page_of, find_block,
  split_of, new_area, malloc,
}
use cuore_os.Heap.Free.{
  PtrType, heap_pool, heap_block, no_info, redirect, can_absorb, absorb, get_ptr_type, free_typed,
}

-- The block `b` grown into the free block `c` behind it.
unfoldable pub expand : ℕ → Option ℕ → Block → Block → Option ℕ × List Block
unfolding split_of absorb redirect
expand new_size last_fit b c =
    let whole = absorb b c in
    let split = split_of new_size whole in
    if leb (u64 (new_size + header_size + min_split_size)) whole.size
    then (redirect c.address split.address last_fit, (record b { size = new_size }) ∷ split ∷ [])
    else (redirect c.address b.address last_fit, whole ∷ [])

-- The attempt to grow the block at `a` in place; nothing, where that fails.
unfoldable pub grow_in_place :
    (a new_size : ℕ) → Option ℕ → List Block → Option (Option ℕ × List Block)
unfolding expand can_absorb absorb
grow_in_place a new_size last_fit [] = none
grow_in_place a new_size last_fit (b ∷ []) = none
grow_in_place a new_size last_fit (b ∷ c ∷ cs) =
    let rest = grow_in_place a new_size last_fit (c ∷ cs) in
    let (last_fit', grown) = expand new_size last_fit b c in
    if b.address == a
    then (if can_absorb c && leb new_size (absorb b c).size
        then some (last_fit', grown ++ cs)
        else none)
    else elim rest [ none ↦ none | some (last_fit'', bs) ↦ some (last_fit'', b ∷ bs) ]

-- Another block, to which the payload is copied.
unfoldable pub move : (ℕ → Option ℕ) → PtrType → (ptr new_size : ℕ) → Heap → Run (Heap × ℕ)
unfolding malloc free_typed
move get_pages type ptr new_size h = do
  (h', new_ptr) ← malloc get_pages new_size h
  if new_ptr == 0 then ok (h', 0) else do h'' ← free_typed type ptr h'; ok (h'', new_ptr)

unfoldable pub realloc_typed : (ℕ → Option ℕ) → PtrType → (ptr new_size : ℕ) → Heap → Run (Heap × ℕ)
unfolding page_of find_block grow_in_place move
realloc_typed get_pages heap_pool ptr new_size h = elim (find_block (page_of ptr) h.blocks) [
  | none ↦ panic
  | some bh ↦
      if leb new_size bh.bin_size then ok (h, ptr) else move get_pages heap_pool ptr new_size h
]
realloc_typed get_pages heap_block ptr new_size h = elim (find_block (ptr - header_size) h.blocks) [
  | none ↦ panic
  | some b ↦
      if leb new_size b.size
      then ok (h, ptr)
      else elim (grow_in_place (ptr - header_size) new_size h.last_fit h.blocks) [
        | none ↦ move get_pages heap_block ptr new_size h
        | some (last_fit, blocks) ↦ ok (record h { blocks = blocks; last_fit = last_fit }, ptr)
      ]
]
realloc_typed get_pages no_info ptr new_size h = panic

-- With the type of the pointer: a size of 0 frees it.
unfoldable pub realloc_known : (ℕ → Option ℕ) → PtrType → (ptr new_size : ℕ) → Heap → Run (Heap × ℕ)
unfolding free_typed align_size realloc_typed
realloc_known get_pages t ptr new_size h =
    if new_size == 0
    then (do h' ← free_typed t ptr h; ok (h', 0))
    else realloc_typed get_pages t ptr (align_size new_size) h

-- None where `get_ptr_type` has no answer.
unfoldable pub realloc : (ℕ → Option ℕ) → (ptr new_size : ℕ) → Heap → Option (Run (Heap × ℕ))
unfolding malloc get_ptr_type realloc_known
realloc get_pages ptr new_size h =
    let known : Option (Run (Heap × ℕ)) = elim (get_ptr_type h ptr) [
      | none ↦ none
      | some t ↦ some (realloc_known get_pages t ptr new_size h)
    ] in
    if ptr == 0 then some (malloc get_pages new_size h) else known

-- The slots of a page, the last one first, as the loop links them.
unfoldable pub slots : (count first block_size : ℕ) → List ℕ
slots zero first block_size = []
slots (suc j) first block_size = (first + j * block_size) ∷ slots j first block_size

-- One turn of the loop of `heap_init_pools`, on the page that was mapped for it.
unfoldable pub init_pool : (block_size virt : ℕ) → Heap → Heap
unfolding slots
init_pool block_size virt h =
    let page : Block = record {
      address = virt;
      magic = heap_magic;
      is_free = false;
      is_pool = true;
      is_boundary = false;
      size = page_size - header_size;
      bin_size = block_size;
      used_slots = 0;
    } in
    record h {
      blocks = h.blocks ++ page ∷ [];
      pools =
          h.pools
          ++ record {
            block_size = block_size;
            free_list =
                slots ((page_size - header_size) / block_size) (virt + header_size) block_size;
          }
            ∷ [];
      pool_page_registry = h.pool_page_registry ++ virt ∷ [];
    }

-- The first area at `virt`, and the pages of the three pools.
unfoldable pub heap_init : (size virt page_32 page_64 page_128 : ℕ) → Heap
unfolding init_pool new_area
heap_init size virt page_32 page_64 page_128 =
    let pages = u64 (size + page_size - 1) / page_size in
    let area : Heap = record {
      blocks = new_area virt pages ∷ [];
      last_fit = none;
      pools = [];
      pool_page_registry = [];
    } in
    init_pool 128 page_128 (init_pool 64 page_64 (init_pool 32 page_32 area))
