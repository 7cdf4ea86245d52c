-- ===== src/Vmm/Alloc.antt =====
-- `vmm_alloc_aligned` of mem/vmm.c: the chosen pages are free, and the state stays valid.
use cuore_os.Base.{
  ℕ, ◌+◌, ◌*◌, ◌^◌, ◌≤◌, ◌<◌, ◌≡◌, refl, ◌⊎◌, inl, inr, Bool, true, false, List, [], ◌∷◌, arith,
  tests, All, All-map, All-insert_by, insert_by, ltb, leb, ltb→lt, le→not_ltb, not_ltb→le, u64,
  ◌==◌, Bool-cases, Run, ok, panic, ◌>>=◌, leb→le,
}
use cuore_os.Avl.{Tree, leaf, node, insert}
use cuore_os.Avl.Balance.{IsBalanced, insert-IsBalanced}
use cuore_os.Avl.Refine.{inorder-insert}
use cuore_os.Avl.Updated.{insert-IsUpdated}
use cuore_os.Vmm.{
  VmmNode, Vmm, page_size, vmm_avl_cb, zero_node, early_pool_size, align_up, find_gap, tail_of,
  choose_address, pool_alloc_node, alloc_aligned,
}
use cuore_os.Vmm.Regions.{
  Region, region_of, region_end, start_of, regions, vmm-IsKeyed, IsSpaced, IsSpaced-IsSorted,
}
use cuore_os.Vmm.Summary.{IsMapped, subtree_end-ge, subtree_end-le, own}
use cuore_os.Vmm.Gap.{IsClear, Found, find_gap-Found, le-align_up, align_up-lt}

-- The tree is a balanced, augmented search tree of disjoint, non-empty regions of the pool.
pub record IsValid (s : Vmm) : Type 0 where
  pub base_pos : 0 < s.pool_base
  pub pool_fits : s.pool_end < 2 ^ 64
  pub pool_order : s.pool_base ≤ s.pool_end
  pub mapped : IsMapped s.pool_base s.pool_end pool_fits s.root
  pub balanced : IsBalanced s.root
  pub none_from_heap : All (λ v. v.from_heap ≡ false) (regions s.root)

IsSpaced-insert_by :
    (v : Region) (vs : List Region)
    → 0 < v.pages
    → All (λ w. 0 < w.pages) vs
    → All (IsClear v.start (region_end v)) vs
    → IsSpaced vs
    → IsSpaced (insert_by start_of v vs)
IsSpaced-insert_by v [] p q c s = (tt, tt)
IsSpaced-insert_by v (w ∷ ws) p q c s = ground (
  arith,
  IsSpaced-insert_by v ws p q.1 c.1 s.1,
  All-insert_by start_of (λ u. region_end w ≤ u.start) v ws,
  behind,
)
  where
    behind : region_end v ≤ w.start → All (λ u. region_end v ≤ u.start) ws
    behind h = All-map _ _ ws (λ u g. omega (arith, g, h)) s.0

-- The node that `alloc_aligned` inserts.
abbrev new_node : ℕ → ℕ → VmmNode
new_node addr count = record zero_node { start = addr; page_count = count }

-- A node is taken from the heap or the early pool, or there is none.
pool_alloc_node-cases :
    (malloc_works : Bool) (s : Vmm)
    → ((early : ℕ) × (nodes : ℕ) × (pool_alloc_node malloc_works s
          ≡ ok (record s { early_pool_count = early; heap_nodes = nodes }, zero_node)))
      ⊎ (((pool_alloc_node malloc_works s ≡ panic)
            × (s.heap_available ≡ true)
            × (malloc_works ≡ false))
          ⊎ ((pool_alloc_node malloc_works s ≡ panic)
              × (s.heap_available ≡ false)
              × (early_pool_size ≤ s.early_pool_count)))
unfolding pool_alloc_node
pool_alloc_node-cases malloc_works s = elim (Bool-cases s.heap_available) [
  | inl late ↦ elim (Bool-cases malloc_works) [
    | inl works ↦ inl (s.early_pool_count, s.heap_nodes + 1, ground arith)
    | inr fails ↦ inr (inl (ground arith, late, fails))
  ]
  | inr early ↦ elim (Bool-cases (leb early_pool_size s.early_pool_count)) [
    | inl full ↦ inr (inr (ground arith, early, leb→le _ _ full))
    | inr free ↦ inl (s.early_pool_count + 1, s.heap_nodes, ground arith)
  ]
]

module _ (s : Vmm) (valid : IsValid s) (count align : ℕ) (align_pos : 0 < align)
    (fits : s.pool_end + align + count * page_size ≤ 2 ^ 64) where
  abbrev pub span : ℕ
  span = count * page_size

  tail_of-bounds :
      (t : Tree VmmNode)
      → IsMapped s.pool_base s.pool_end valid.pool_fits t
      → (s.pool_base ≤ tail_of s t)
        × (tail_of s t ≤ s.pool_end)
        × All (λ v. region_end v ≤ tail_of s t) (regions t)
  unfolding tail_of
  tail_of-bounds leaf m = (omega arith, valid.pool_order, tt)
  tail_of-bounds (node l n h r) m =
      let behind = subtree_end-ge _ _ _ l n h r m in
      (
        omega (arith, own _ l n h r behind, own _ l n h r m.inside),
        subtree_end-le _ _ _ l n h r m,
        behind,
      )

  -- The address that is chosen lies in the pool behind its base, is rounded up from one of the
  -- pool, and the pages from there on meet no region.
  abbrev Chosen : ℕ → Type 0
  Chosen a =
      (s.pool_base ≤ a)
      × All (IsClear a (a + span)) (regions s.root)
      × ((b : ℕ) × (b ≤ s.pool_end) × (a ≡ align_up b align))
      × ((a + span ≤ s.pool_end) ⊎ (a < tail_of s s.root + align))

  tail-Chosen : Chosen (align_up (tail_of s s.root) align)
  tail-Chosen =
      let t = tail_of-bounds s.root valid.mapped in
      let low = le-align_up (tail_of s s.root) align in
      (
        omega (arith, low, t.0),
        All-map _ _ (regions s.root) (λ v g. inl (omega (arith, g, low))) t.2,
        (tail_of s s.root, t.1, refl),
        inr (align_up-lt (tail_of s s.root) align align_pos (omega (arith, t.1))),
      )

  Found-Chosen :
      (a : ℕ)
      → (a == 0) ≡ false
      → Found s.pool_base s.pool_end valid.pool_fits count align align_pos fits s.root s.pool_base
          s.pool_end a
      → Chosen a
  Found-Chosen a hit (inl z) = absurd (ground arith)
  Found-Chosen a hit (inr (low, high, _, clear, aligned)) = (low, clear, aligned, inl high)

  choose_address-Chosen : Chosen (choose_address s count align)
  unfolding choose_address
  choose_address-Chosen =
      elim (Bool-cases (find_gap s.pool_end s.root s.pool_base count align == 0)) [
        | inl missing ↦ rw (missing, le→not_ltb _ _ (tail-Chosen).0) tail-Chosen
        | inr hit ↦ rw hit (
            Found-Chosen _ hit (
              find_gap-Found _ _ _ count align align_pos fits s.root s.pool_base s.pool_end
                valid.mapped valid.pool_order
                (All-map _ _ (regions s.root) (λ v g. omega (arith, g)) valid.mapped.inside)))
      ]

  abbrev pub new_region : ℕ → Region
  new_region a = record { start = a; pages = count; from_heap = false }

  -- The tree with the new region.
  record Grown (a : ℕ) (t : Tree VmmNode) : Type 0 where
    order : regions t ≡ insert_by start_of (new_region a) (regions s.root)
    mapped : IsMapped s.pool_base s.pool_end valid.pool_fits t
    balanced : IsBalanced t
    none_from_heap : All (λ v. v.from_heap ≡ false) (regions t)

  insert-Grown :
      (a : ℕ)
      → 0 < count
      → Chosen a
      → a + span ≤ s.pool_end
      → Grown a (insert vmm_avl_cb s.root (new_node a count))
  insert-Grown a pos chosen room = record {
    order = order;
    mapped = record {
      updated = insert-IsUpdated vmm_avl_cb s.root (new_node a count) valid.mapped.updated;
      spaced = rw order (
          IsSpaced-insert_by (new_region a) (regions s.root) pos
            (All-map _ _ (regions s.root) (λ v g. g.2) valid.mapped.inside) chosen.1
            valid.mapped.spaced);
      inside = rw order (
          All-insert_by start_of _ (new_region a) (regions s.root) (chosen.0, room, pos)
            valid.mapped.inside);
    };
    balanced = (insert-IsBalanced vmm_avl_cb s.root (new_node a count) valid.balanced).0;
    none_from_heap =
        rw order
          (All-insert_by start_of _ (new_region a) (regions s.root) refl valid.none_from_heap);
  }
    where
      order :
          regions (insert vmm_avl_cb s.root (new_node a count))
          ≡ insert_by start_of (new_region a) (regions s.root)
      order =
          inorder-insert vmm_avl_cb region_of start_of vmm-IsKeyed s.root (new_node a count)
            (IsSpaced-IsSorted _ _ (regions s.root) valid.mapped.spaced valid.mapped.inside)

  -- A call that returns has found `count` free pages of the pool, has added exactly their region,
  -- and has left a valid state. One that panics had no node to allocate, or no room for the pages
  -- behind the last region.
  abbrev pub Allocates : Bool → Run (Vmm × ℕ) → Type 0
  Allocates malloc_works (ok (s', a)) =
      IsValid s'
      × (regions s'.root ≡ insert_by start_of (new_region a) (regions s.root))
      × (s.pool_base ≤ a)
      × (a + span ≤ s.pool_end)
      × All (IsClear a (a + span)) (regions s.root)
      × ((b : ℕ) × (b ≤ s.pool_end) × (a ≡ align_up b align))
  Allocates malloc_works panic =
      ((s.heap_available ≡ true) × (malloc_works ≡ false))
      ⊎ (((s.heap_available ≡ false) × (early_pool_size ≤ s.early_pool_count))
          ⊎ (s.pool_end < tail_of s s.root + align + span))

  -- The state with another tree and other counters.
  Grown-Allocates :
      (malloc_works : Bool) (a early nodes : ℕ) (t : Tree VmmNode)
      → Chosen a
      → a + span ≤ s.pool_end
      → Grown a t
      → Allocates malloc_works
          (ok (record s { root = t; early_pool_count = early; heap_nodes = nodes }, a))
  Grown-Allocates malloc_works a early nodes t chosen room grown = (
    record {
      base_pos = valid.base_pos;
      pool_fits = valid.pool_fits;
      pool_order = valid.pool_order;
      mapped = grown.mapped;
      balanced = grown.balanced;
      none_from_heap = grown.none_from_heap;
    },
    grown.order,
    chosen.0,
    room,
    chosen.1,
    chosen.2,
  )

  take_node-Allocates :
      (malloc_works : Bool) (a : ℕ)
      → 0 < count
      → Chosen a
      → a + span ≤ s.pool_end
      → Allocates malloc_works (do
        (s', n) ← pool_alloc_node malloc_works s
        ok (
          record s' {
            root = insert vmm_avl_cb s'.root (record n { start = a; page_count = count });
          },
          a,
        ))
  take_node-Allocates malloc_works a pos chosen room = elim (pool_alloc_node-cases malloc_works s) [
    | inl (early, nodes, e) ↦
        rw e (
          Grown-Allocates malloc_works a early nodes _ chosen room (insert-Grown a pos chosen room))
    | inr (inl (e, late, fails)) ↦ rw e (inl (late, fails))
    | inr (inr (e, early, full)) ↦ rw e (inr (inl (early, full)))
  ]

  in_word : (a : ℕ) → Chosen a → u64 (a + u64 span) ≡ a + span
  in_word a chosen = omega (arith, chosen.3, tail_of-bounds s.root valid.mapped)

  -- On a valid state, with the pool's end, the alignment and the span within 2^64 together,
  -- `vmm_alloc_aligned` for at least one page either returns an address inside the pool, rounded
  -- up from an address of the pool, whose pages meet no allocated region, leaving a valid state
  -- whose regions are the old ones and this one in order; or it panics because malloc failed, the
  -- early pool is full, or there is no room for the pages behind the last region.
  pub alloc_aligned-Allocates :
      (malloc_works : Bool)
      → 0 < count
      → Allocates malloc_works (alloc_aligned malloc_works s count align)
  unfolding alloc_aligned
  alloc_aligned-Allocates malloc_works pos =
      rw nonzero
        (elim (Bool-cases (ltb s.pool_end (u64 (choose_address s count align + u64 span)))) [
          | inl over ↦ rw over (inr (inr (omega (tests, chosen.3, exact, ltb→lt _ _ over))))
          | inr room ↦ rw room (
              take_node-Allocates malloc_works (choose_address s count align) pos chosen
                (omega (tests, exact, not_ltb→le _ _ room)))
        ])
    where
      chosen : Chosen (choose_address s count align)
      chosen = choose_address-Chosen

      exact : u64 (choose_address s count align + u64 span) ≡ choose_address s count align + span
      exact = in_word (choose_address s count align) chosen

      nonzero : (count == 0) ≡ false
      nonzero = ground arith
