-- ===== src/Heap/Free.antt =====
-- `free` and `realloc` of mem/heap.c, on blocks: the merging of free neighbours.
use cuore_os.Base.{
  ℕ, ◌+◌, ◌-◌, Bool, true, false, not, ◌&&◌, Option, none, some, List, [], ◌∷◌, ◌==◌, if◌then◌else◌,
  Run, ok, panic,
}
use cuore_os.Heap.{Block, FixedPool, Heap, header_size, heap_magic, page_of, update, find_block}

-- `last_fit`, where a block at `from` became a part of the one at `to`.
unfoldable pub redirect : (from to : ℕ) → Option ℕ → Option ℕ
redirect from to none = none
redirect from to (some a) = some (if a == from then to else a)

-- Whether a free block may take the next one in.
unfoldable pub can_absorb : Block → Bool
can_absorb c = c.is_free && (not c.is_pool && not c.is_boundary)

unfoldable pub absorb : Block → Block → Block
absorb b c = record b { size = b.size + (header_size + c.size) }

-- Forward: `last_fit`, the block, and those behind it.
unfoldable pub merge_next : Option ℕ → Block → List Block → Option ℕ × Block × List Block
unfolding can_absorb absorb redirect
merge_next last_fit b [] = (last_fit, b, [])
merge_next last_fit b (c ∷ cs) =
    if can_absorb c
    then (redirect c.address b.address last_fit, absorb b c, cs)
    else (last_fit, b, c ∷ cs)

-- Backward, into `p`.
unfoldable pub merge_prev : Option ℕ → Block → Block → List Block → Option ℕ × List Block
unfolding absorb redirect
merge_prev last_fit p b rest =
    if p.is_free && (not p.is_pool && not b.is_boundary)
    then (redirect b.address p.address last_fit, absorb p b ∷ rest)
    else (last_fit, p ∷ b ∷ rest)

unfoldable pub set_free : Block → Block
set_free b = record b { is_free = true }

-- The block at `a` is behind `p`.
unfoldable pub free_behind : Block → ℕ → Option ℕ → List Block → Option ℕ × List Block
unfolding merge_next merge_prev set_free
free_behind p a last_fit [] = (last_fit, p ∷ [])
free_behind p a last_fit (b ∷ bs) =
    let (last_fit', b', rest) = merge_next last_fit (set_free b) bs in
    let (last_fit'', behind) = free_behind b a last_fit bs in
    if b.address == a then merge_prev last_fit' p b' rest else (last_fit'', p ∷ behind)

unfoldable pub free_block : ℕ → Option ℕ → List Block → Option ℕ × List Block
unfolding merge_next set_free free_behind
free_block a last_fit [] = (last_fit, [])
free_block a last_fit (b ∷ bs) =
    let (last_fit', b', rest) = merge_next last_fit (set_free b) bs in
    if b.address == a then (last_fit', b' ∷ rest) else free_behind b a last_fit bs

unfoldable pub is_pool_page : ℕ → List ℕ → Bool
is_pool_page page [] = false
is_pool_page page (p ∷ ps) = if p == page then true else is_pool_page page ps

pub data PtrType : Type 0 where
  heap_pool : PtrType
  heap_block : PtrType
  no_info : PtrType

-- None when no listed block ends before the pointer: what C then reads as a header is memory that the
-- model does not hold, such as the header of a block that was absorbed.
unfoldable pub get_ptr_type : Heap → ℕ → Option PtrType
unfolding is_pool_page page_of find_block
get_ptr_type h ptr =
    if is_pool_page (page_of ptr) h.pool_page_registry
    then some heap_pool
    else elim (find_block (ptr - header_size) h.blocks) [
      | none ↦ none
      | some b ↦ some (if b.magic == heap_magic then heap_block else no_info)
    ]

-- The slot goes back to the first pool of its size; nothing, where there is no such pool.
unfoldable pub push_slot : (bin slot : ℕ) → List FixedPool → Option (List FixedPool)
push_slot bin slot [] = none
push_slot bin slot (p ∷ ps) =
    let rest = push_slot bin slot ps in
    if p.block_size == bin
    then some ((record p { free_list = slot ∷ p.free_list }) ∷ ps)
    else elim rest [ none ↦ none | some ps' ↦ some (p ∷ ps') ]

unfoldable pub outside_page : ℕ → List ℕ → List ℕ
unfolding page_of
outside_page page [] = []
outside_page page (slot ∷ slots) =
    if page_of slot == page then outside_page page slots else slot ∷ outside_page page slots

unfoldable pub drop_page : (bin page : ℕ) → List FixedPool → List FixedPool
unfolding outside_page
drop_page bin page [] = []
drop_page bin page (p ∷ ps) =
    if p.block_size == bin
    then (record p { free_list = outside_page page p.free_list }) ∷ ps
    else p ∷ drop_page bin page ps

-- The last element moved to the front.
unfoldable pub move_last : List ℕ → List ℕ
move_last [] = []
move_last (x ∷ xs) = elim (move_last xs) [ [] ↦ x ∷ [] | y ∷ ys ↦ y ∷ x ∷ ys ]

-- `pool_page_registry[i] = pool_page_registry[--registered_pool_pages]` at the first place `i` that
-- holds the page.
unfoldable pub unregister : ℕ → List ℕ → List ℕ
unfolding move_last
unregister page [] = []
unregister page (p ∷ ps) = if p == page then move_last ps else p ∷ unregister page ps

-- `list_unlink`: `last_fit` is reset where it is the block.
unfoldable pub unlink : ℕ → Heap → Heap
unfolding update
unlink a h = record h {
  blocks = update a (λ b. []) h.blocks;
  last_fit = elim h.last_fit [ none ↦ none | some f ↦ if f == a then none else some f ];
}

unfoldable pub set_used : ℕ → Block → List Block
set_used n b = (record b { used_slots = n }) ∷ []

-- `_free` on a slot. A page with no slot in use leaves the pool, and goes back to vmm.c and pma.c.
unfoldable pub free_slot : ℕ → Heap → Run Heap
unfolding page_of find_block update push_slot drop_page unregister unlink set_used
free_slot ptr h = elim (find_block (page_of ptr) h.blocks) [
  | none ↦ panic
  | some bh ↦ elim (push_slot bh.bin_size ptr h.pools) [
    | none ↦ panic
    | some pools ↦
        let used = bh.used_slots - 1 in
        let counted : Heap = record h {
          pools = pools;
          blocks = update (page_of ptr) (set_used used) h.blocks;
        } in
        if used == 0
        then ok (
            unlink (page_of ptr) (record counted {
              pools = drop_page bh.bin_size (page_of ptr) pools;
              pool_page_registry = unregister (page_of ptr) h.pool_page_registry;
            }))
        else ok counted
  ]
]

unfoldable pub free_typed : PtrType → ℕ → Heap → Run Heap
unfolding free_slot free_block
free_typed heap_pool ptr h = free_slot ptr h
free_typed heap_block ptr h =
    let (last_fit, blocks) = free_block (ptr - header_size) h.last_fit h.blocks in
    ok (record h { blocks = blocks; last_fit = last_fit })
free_typed no_info ptr h = panic

-- `free(NULL)` does nothing. `zfree` is the same but for the bytes of the payload.
unfoldable pub free : ℕ → Heap → Option (Run Heap)
unfolding get_ptr_type free_typed
free ptr h =
    let freed : Option (Run Heap) = elim (get_ptr_type h ptr) [
      | none ↦ none
      | some t ↦ some (free_typed t ptr h)
    ] in
    if ptr == 0 then some (ok h) else freed
