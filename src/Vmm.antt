-- ===== src/Vmm.antt =====
-- mem/vmm.c and mem/vmm.h: the allocator of kernel virtual pages, over the AVL tree of
-- datatype/avl.c. Numbers are `uint64_t`, and the wrap of each sum and product is written out.

pub mod Regions
pub mod Summary
pub mod Gap
pub mod Alloc
pub mod Free
mod Tests
use cuore_os.Base.{
  ℕ, ◌+◌, ◌-◌, ◌*◌, ◌/◌, ◌^◌, Bool, true, false, Option, none, some, bit_and, Ordering, u64, not64,
  smax, ltb, leb, ◌==◌, if◌then◌else◌, Run, ok, ◌>>=◌, ◌>>◌, panic_if,
}
use cuore_os.Avl.{Tree, leaf, node, Callbacks, insert, delete}

abbrev pub page_size : ℕ
page_size = 4096

abbrev pub page_size_2mb : ℕ
page_size_2mb = 0x200000

abbrev pub early_pool_size : ℕ
early_pool_size = 64

-- VMMNode, less its links, which are those of the tree.
pub record VmmNode : Type 0 where
  pub start : ℕ
  pub page_count : ℕ
  pub max_gap : ℕ
  pub subtree_start : ℕ
  pub subtree_end : ℕ
  pub heap_allocated : Bool

abbrev pub zero_node : VmmNode
zero_node = record {
  start = 0;
  page_count = 0;
  max_gap = 0;
  subtree_start = 0;
  subtree_end = 0;
  heap_allocated = false;
}

unfoldable pub align_up : ℕ → ℕ → ℕ
align_up addr align =
    let aligned = bit_and (u64 (addr + align + (2 ^ 64 - 1))) (not64 (align - 1)) in
    if ltb aligned addr then addr else aligned

-- `start + page_count * PAGE_SIZE`.
unfoldable pub node_end : VmmNode → ℕ
node_end n = u64 (n.start + u64 (n.page_count * page_size))

unfoldable pub vmm_node_cmp : VmmNode → VmmNode → Ordering
vmm_node_cmp va vb =
    if ltb va.start vb.start
    then Ordering.lt
    else if ltb vb.start va.start
    then Ordering.gt
    else Ordering.eq

unfoldable pub max_gap_of : Tree VmmNode → ℕ
max_gap_of leaf = 0
max_gap_of (node l n h r) = n.max_gap

unfoldable pub start_from : Tree VmmNode → VmmNode → ℕ
start_from leaf n = n.start
start_from (node _ left _ _) n = left.subtree_start

unfoldable pub end_from : Tree VmmNode → VmmNode → ℕ
unfolding node_end
end_from leaf n = node_end n
end_from (node _ right _ _) n =
    if ltb (node_end n) right.subtree_end then right.subtree_end else node_end n

unfoldable pub gap_left : Tree VmmNode → VmmNode → ℕ
gap_left leaf n = 0
gap_left (node _ left _ _) n =
    if leb left.subtree_end n.start then (n.start - left.subtree_end) / page_size else 0

unfoldable pub gap_right : Tree VmmNode → VmmNode → ℕ
unfolding node_end
gap_right leaf n = 0
gap_right (node _ right _ _) n =
    if leb (node_end n) right.subtree_start
    then (right.subtree_start - node_end n) / page_size
    else 0

unfoldable pub vmm_node_update : Tree VmmNode → VmmNode → Tree VmmNode → VmmNode
unfolding max_gap_of start_from end_from gap_left gap_right
vmm_node_update l n r = record n {
  subtree_start = start_from l n;
  subtree_end = end_from r n;
  max_gap = smax (smax (max_gap_of l) (max_gap_of r)) (smax (gap_left l n) (gap_right r n));
}

abbrev pub vmm_avl_cb : Callbacks VmmNode
vmm_avl_cb = record { compare = vmm_node_cmp; update = some vmm_node_update }

-- The base behind the left child: the larger of `base` and the child's end.
unfoldable pub base_behind : Tree VmmNode → ℕ → ℕ
base_behind leaf base = base
base_behind (node _ l _ _) base = if ltb base l.subtree_end then l.subtree_end else base

-- The base behind the node itself: the larger of `base` and the node's end.
unfoldable pub base_after : VmmNode → ℕ → ℕ
unfolding node_end
base_after n base = if ltb base (node_end n) then node_end n else base

-- `aligned_base`, if its span ends within the pool, and 0 if not.
unfoldable pub within_pool : (pool_end span aligned_base : ℕ) → ℕ
within_pool pool_end span aligned_base =
    if leb (u64 (aligned_base + span)) pool_end then aligned_base else 0

-- 0 is "no gap".
unfoldable pub find_gap : (pool_end : ℕ) → Tree VmmNode → (base pages align : ℕ) → ℕ
unfolding align_up base_behind base_after within_pool
find_gap pool_end leaf base pages align = 0
find_gap pool_end (node l n h r) base pages align =
    let span = u64 (pages * page_size) in
    let aligned = align_up base align in
    let in_left = find_gap pool_end l base pages align in
    let base' = base_behind l base in
    let aligned' = align_up base' align in
    let in_right = find_gap pool_end r (base_after n base') pages align in
    if leb (u64 (aligned + span)) n.subtree_start
    then within_pool pool_end span aligned
    else if ltb n.max_gap pages
    then 0
    else if in_left == 0
    then (if leb (u64 (aligned' + span)) n.start
        then within_pool pool_end span aligned'
        else in_right)
    else in_left

-- The file's static variables; `heap_nodes` counts the nodes that `malloc` gave out and `free` has
-- not taken back.
pub record Vmm : Type 0 where
  pub pool_base : ℕ
  pub pool_end : ℕ
  pub root : Tree VmmNode
  pub early_pool_count : ℕ
  pub heap_available : Bool
  pub heap_nodes : ℕ

-- `*n = (VMMNode){0}`
clear : VmmNode → VmmNode
clear n = zero_node

-- `malloc_works` is whether `malloc` succeeds. The node is cleared after its flag is set.
unfoldable pub pool_alloc_node : (malloc_works : Bool) → Vmm → Run (Vmm × VmmNode)
unfolding clear
pool_alloc_node malloc_works s =
    if s.heap_available
    then (do
      panic_if (if malloc_works then false else true)
      let n : VmmNode = record zero_node { heap_allocated = true }
      ok (record s { heap_nodes = s.heap_nodes + 1 }, clear n))
    else do
      panic_if (leb early_pool_size s.early_pool_count)
      let n : VmmNode = record zero_node { heap_allocated = false }
      ok (record s { early_pool_count = s.early_pool_count + 1 }, clear n)

unfoldable pub pool_free_node : VmmNode → Vmm → Vmm
pool_free_node n s = if n.heap_allocated then record s { heap_nodes = s.heap_nodes - 1 } else s

unfoldable pub switch_to_heap : Vmm → Vmm
switch_to_heap s = record s { heap_available = true }

-- `max_ram` is `cmm_get_ram_top_2mb_aligned()` and `level` is `paging_get_level()`.
unfoldable pub init : (hhdm_offset max_ram level heap_nodes : ℕ) → Vmm
init hhdm_offset max_ram level heap_nodes = record {
  pool_base = u64 (hhdm_offset + max_ram);
  pool_end = if level == 5 then 0xFFFFFFFFFFE00000 else 0xFFFFF00000000000;
  root = leaf;
  early_pool_count = 0;
  heap_available = false;
  heap_nodes = heap_nodes;
}

-- The end of the tree, or the pool's base where there is no tree.
unfoldable pub tail_of : Vmm → Tree VmmNode → ℕ
tail_of s leaf = s.pool_base
tail_of s (node _ n _ _) = n.subtree_end

-- The address for `count` pages, before the check against the pool's end.
unfoldable pub choose_address : Vmm → (count align : ℕ) → ℕ
unfolding find_gap tail_of
choose_address s count align =
    let addr = find_gap s.pool_end s.root s.pool_base count align in
    let tail = align_up (tail_of s s.root) align in
    if addr == 0 then (if ltb tail s.pool_base then s.pool_base else tail) else addr

unfoldable pub alloc_aligned : (malloc_works : Bool) → Vmm → (count align : ℕ) → Run (Vmm × ℕ)
unfolding choose_address pool_alloc_node
alloc_aligned malloc_works s count align = if count == 0 then ok (s, 0) else do
  let addr = choose_address s count align
  panic_if (ltb s.pool_end (u64 (addr + u64 (count * page_size))))
  (s', n) ← pool_alloc_node malloc_works s
  let n' : VmmNode = record n { start = addr; page_count = count }
  ok (record s' { root = insert vmm_avl_cb s'.root n' }, addr)

unfoldable pub alloc_pages : Bool → Vmm → ℕ → Run (Vmm × ℕ)
unfolding alloc_aligned
alloc_pages malloc_works s count = alloc_aligned malloc_works s count page_size

unfoldable pub alloc_pages_2mb : Bool → Vmm → ℕ → Run (Vmm × ℕ)
unfolding alloc_aligned
alloc_pages_2mb malloc_works s count = alloc_aligned malloc_works s count page_size_2mb

-- What follows `avl_delete`: `out` is the node that it unlinked.
unfoldable pub release : Option VmmNode → ℕ → Vmm → Vmm × ℕ
unfolding pool_free_node
release none count s = (s, 0)
release (some n) count s =
    if n.page_count == count then (pool_free_node n s, n.start) else (pool_free_node n s, 0)

-- The rest of `vmm_free_pages` with the tree at `vmm_root`.
unfoldable pub free_from : Tree VmmNode → Vmm → (virt count : ℕ) → Vmm × ℕ
unfolding release
free_from leaf s virt count = (s, 0)
free_from (node l n h r) s virt count =
    let (root, out) = delete vmm_avl_cb (node l n h r) (record zero_node { start = virt }) in
    release out count (record s { root = root })

unfoldable pub free_pages : Vmm → (virt count : ℕ) → Vmm × ℕ
unfolding free_from
free_pages s virt count = if virt == 0 then (s, 0) else free_from s.root s virt count
