-- ===== src/Heap.antt =====
-- mem/heap.c and mem/heap.h: the kernel heap. The list of block headers from `head` to `tail` is a
-- list, its links the neighbours in it; a header carries its address. What the payloads hold is
-- not modelled, and `get_pages` stands for the calls of pma.c, vmm.c and paging.c that obtain and
-- map pages: it gives their virtual address, or nothing.
pub mod Free
pub mod Layout
pub mod Used
pub mod Search
pub mod Malloc
pub mod Merge
pub mod Realloc
mod Tests
use cuore_os.Base.{
  ℕ, zero, suc, ◌+◌, ◌-◌, ◌*◌, ◌/◌, bit_and, Bool, true, false, not, ◌&&◌, Option, none, some, List,
  [], ◌∷◌, ◌++◌, u64, not64, ltb, leb, ◌==◌, if◌then◌else◌, Run, ok, panic, ◌>>=◌,
}

abbrev pub header_size : ℕ
header_size = 48

abbrev pub heap_magic : ℕ
heap_magic = 0x1E160E06

abbrev pub min_split_size : ℕ
min_split_size = 16

abbrev pub pages_per_growth : ℕ
pages_per_growth = 4

abbrev pub page_size : ℕ
page_size = 4096

-- BlockHeader; the three flags are fields.
pub record Block : Type 0 where
  pub address : ℕ
  pub magic : ℕ
  pub is_free : Bool
  pub is_pool : Bool
  pub is_boundary : Bool
  pub size : ℕ
  pub bin_size : ℕ
  pub used_slots : ℕ

-- The addresses of the free slots, the first one first.
pub record FixedPool : Type 0 where
  pub block_size : ℕ
  pub free_list : List ℕ

pub record Heap : Type 0 where
  pub blocks : List Block
  pub last_fit : Option ℕ
  pub pools : List FixedPool
  pub pool_page_registry : List ℕ

-- `(size + 15) & ~15` on 64 bits.
unfoldable pub align_size : ℕ → ℕ
align_size size = bit_and (u64 (size + 15)) (not64 15)

unfoldable pub page_of : ℕ → ℕ
page_of ptr = bit_and ptr (not64 4095)

-- The block whose header is at an address, replaced by the blocks that a change makes of it.
unfoldable pub update : ℕ → (Block → List Block) → List Block → List Block
update a f [] = []
update a f (b ∷ bs) = if b.address == a then f b ++ bs else b ∷ update a f bs

unfoldable pub find_block : ℕ → List Block → Option Block
find_block a [] = none
find_block a (b ∷ bs) = if b.address == a then some b else find_block a bs

-- `BH_IS_FREE(curr) && !BH_IS_POOL(curr) && curr->size >= size`
unfoldable pub fits : ℕ → Block → Bool
fits size b = b.is_free && (not b.is_pool && leb size b.size)

-- The tail of a block of which `size` bytes are taken.
unfoldable pub split_of : ℕ → Block → Block
split_of size b = record {
  address = u64 (b.address + header_size + size);
  magic = heap_magic;
  is_free = true;
  is_pool = false;
  is_boundary = false;
  size = b.size - size - header_size;
  bin_size = 0;
  used_slots = 0;
}

unfoldable pub take_block : ℕ → Block → List Block
unfolding split_of
take_block size b =
    if leb (u64 (size + header_size + min_split_size)) b.size
    then (record b { size = size; is_free = false }) ∷ split_of size b ∷ []
    else (record b { is_free = false }) ∷ []

-- The blocks from an address on, and those before it.
unfoldable pub blocks_from : ℕ → List Block → List Block
blocks_from a [] = []
blocks_from a (b ∷ bs) = if b.address == a then b ∷ bs else blocks_from a bs

unfoldable pub blocks_before : ℕ → List Block → List Block
blocks_before a [] = []
blocks_before a (b ∷ bs) = if b.address == a then [] else b ∷ blocks_before a bs

-- The blocks in the order in which the loop of `malloc` comes to them.
unfoldable pub search_order : Option ℕ → List Block → List Block
unfolding blocks_from blocks_before
search_order none bs = bs
search_order (some a) bs = blocks_from a bs ++ blocks_before a bs

unfoldable pub first_fit : ℕ → List Block → Run (Option ℕ)
unfolding fits
first_fit size [] = ok none
first_fit size (b ∷ bs) =
    if not (b.magic == heap_magic)
    then panic
    else if fits size b
    then ok (some b.address)
    else first_fit size bs

-- How many pages `heap_grow` asks for.
unfoldable pub growth_pages : ℕ → ℕ
growth_pages size =
    let pages = u64 (size + header_size + page_size - 1) / page_size in
    if ltb pages pages_per_growth then pages_per_growth else pages

unfoldable pub new_area : (virt pages : ℕ) → Block
new_area virt pages = record {
  address = virt;
  magic = heap_magic;
  is_free = true;
  is_pool = false;
  is_boundary = true;
  size = pages * page_size - header_size;
  bin_size = 0;
  used_slots = 0;
}

unfoldable pub heap_grow : (ℕ → Option ℕ) → ℕ → Heap → Option Heap
unfolding growth_pages new_area
heap_grow get_pages size h = elim (get_pages (growth_pages size)) [
  | none ↦ none
  | some virt ↦ some (record h { blocks = h.blocks ++ new_area virt (growth_pages size) ∷ [] })
]

-- `if (heap_grow(size)) { goto retry; } return NULL;`
unfoldable pub if_grown : Option Heap → Heap → (Heap → Run (Heap × ℕ)) → Run (Heap × ℕ)
if_grown none h retry = ok (h, 0)
if_grown (some h') h retry = retry h'

-- The search from `retry` on, with as many tries as are given; 0 is NULL.
unfoldable pub malloc_block : (tries : ℕ) → (ℕ → Option ℕ) → ℕ → Heap → Run (Heap × ℕ)
unfolding first_fit search_order take_block update heap_grow if_grown
malloc_block zero get_pages size h = ok (h, 0)
malloc_block (suc tries) get_pages size h = do
  found ← first_fit size (search_order h.last_fit h.blocks)
  elim found [
    | some a ↦ ok (
      record h { blocks = update a (take_block size) h.blocks; last_fit = some a },
      u64 (a + header_size),
    )
    | none ↦ if_grown (heap_grow get_pages size h) h (malloc_block tries get_pages size)
  ]

-- The first pool whose slots are large enough and that has one left.
unfoldable pub take_slot : ℕ → List FixedPool → Option (ℕ × List FixedPool)
take_slot size [] = none
take_slot size (p ∷ ps) =
    let rest = take_slot size ps in
    if leb size p.block_size
    then (elim p.free_list [
      | slot ∷ slots ↦ some (slot, (record p { free_list = slots }) ∷ ps)
      | [] ↦ elim rest [ none ↦ none | some (slot, ps') ↦ some (slot, p ∷ ps') ]
    ])
    else elim rest [ none ↦ none | some (slot, ps') ↦ some (slot, p ∷ ps') ]

unfoldable pub use_slot : Block → List Block
use_slot b = (record b { used_slots = b.used_slots + 1 }) ∷ []

unfoldable pub malloc : (ℕ → Option ℕ) → ℕ → Heap → Run (Heap × ℕ)
unfolding take_slot use_slot update page_of malloc_block align_size
malloc get_pages size h = if size == 0 then ok (h, 0) else elim (take_slot size h.pools) [
  | some (slot, pools) ↦
      ok (record h { pools = pools; blocks = update (page_of slot) use_slot h.blocks }, slot)
  | none ↦ malloc_block 2 get_pages (align_size size) h
]
