-- ===== src/Vmm/Gap.antt =====
-- `align_up` and `vmm_find_gap` of mem/vmm.c.
use cuore_os.Base.{
  ℕ, ◌+◌, ◌-◌, ◌*◌, ◌/◌, ◌^◌, ◌≤◌, ◌<◌, ◌≡◌, refl, ◌⊎◌, inl, inr, arith, All, All-append, All-map,
  bit_and-le, bit_and_high, if_cases, Bool-cases, leb, leb→le, ltb, ltb→lt, not_ltb→le,
  if◌then◌else◌, ◌==◌, u64, tests,
}
use cuore_os.Avl.{Tree, leaf, node}
use cuore_os.Vmm.{
  VmmNode, page_size, page_size_2mb, align_up, base_behind, base_after, within_pool, find_gap,
}
use cuore_os.Vmm.Regions.{Region, region_of, region_end, regions}
use cuore_os.Vmm.Summary.{
  IsMapped, IsMapped-left, IsMapped-right, left_before, right_behind, node_end_exact,
  subtree_start-le, subtree_end-ge, subtree_end-le, own, of_right,
}

pub le-align_up : (addr align : ℕ) → addr ≤ align_up addr align
unfolding align_up
le-align_up addr align = ground arith

pub align_up-lt :
    (addr align : ℕ) → 0 < align → addr + align ≤ 2 ^ 64 → align_up addr align < addr + align
unfolding align_up
align_up-lt addr align p fits =
    ground (arith, bit_and-le (u64 (addr + align + (2 ^ 64 - 1))) (2 ^ 64 - 1 - (align - 1)))

-- On the two alignments of the kernel `align_up` rounds up to a multiple, unless that passes 2^64.
pub align_up_page :
    (addr : ℕ) → addr + page_size ≤ 2 ^ 64 → align_up addr page_size ≡ (addr + 4095) / 4096 * 4096
unfolding align_up
align_up_page addr fits =
    ground (arith, bit_and_high 52 12 (u64 (addr + page_size + (2 ^ 64 - 1))) (omega arith))

-- `align_up` to 2 MiB of an address at least 2 MiB below 2^64 is the next multiple of 2 MiB,
-- computed by the mask.
pub align_up_2mb :
    (addr : ℕ)
    → addr + page_size_2mb ≤ 2 ^ 64
    → align_up addr page_size_2mb ≡ (addr + (2 ^ 21 - 1)) / 2 ^ 21 * 2 ^ 21
unfolding align_up
align_up_2mb addr fits =
    ground (arith, bit_and_high 43 21 (u64 (addr + page_size_2mb + (2 ^ 64 - 1))) (omega arith))

-- The span from `a` to `e` meets no page of the region.
abbrev pub IsClear : ℕ → ℕ → Region → Type 0
IsClear a e v = (region_end v ≤ a) ⊎ (e ≤ v.start)

module _ (lo hi : ℕ) (hi_fits : hi < 2 ^ 64) (pages align : ℕ) (align_pos : 0 < align)
    (fits : hi + align + pages * page_size ≤ 2 ^ 64) where
  -- What a result of the search promises: it is 0, or the pages from there on lie behind `base`,
  -- in the pool, before `m`, meet no region of the tree, and begin at an address rounded up.
  abbrev pub Found : Tree VmmNode → (base m : ℕ) → ℕ → Type 0
  Found t base m a =
      (a ≡ 0)
      ⊎ ((base ≤ a)
          × (a + pages * page_size ≤ hi)
          × (a + pages * page_size ≤ m)
          × All (IsClear a (a + pages * page_size)) (regions t)
          × ((b : ℕ) × (b ≤ hi) × (a ≡ align_up b align)))

  span_exact : (a : ℕ) → a < hi + align → u64 (a + u64 (pages * page_size)) ≡ a + pages * page_size
  span_exact a h = omega arith

  within_pool-Found :
      (t : Tree VmmNode) (base m b : ℕ)
      → b ≤ hi
      → base ≤ align_up b align
      → align_up b align + pages * page_size ≤ m
      → All (IsClear (align_up b align) (align_up b align + pages * page_size)) (regions t)
      → Found t base m (within_pool hi (u64 (pages * page_size)) (align_up b align))
  unfolding within_pool
  within_pool-Found t base m b h p q c =
      if_cases (Found t base m) (leb (u64 (align_up b align + u64 (pages * page_size))) hi)
        (align_up b align) 0
        (λ e. inr (
          p,
          omega (
            tests,
            align_up-lt b align align_pos (omega arith),
            span_exact (align_up b align),
            leb→le _ _ e,
          ),
          q,
          c,
          (b, h, refl),
        ))
        (λ e. inl refl)

  base_behind-bounds :
      (l : Tree VmmNode) (base : ℕ)
      → IsMapped lo hi hi_fits l
      → base ≤ hi
      → (base ≤ base_behind l base)
        × (base_behind l base ≤ hi)
        × All (λ v. region_end v ≤ base_behind l base) (regions l)
  unfolding base_behind
  base_behind-bounds leaf base m h = (omega arith, h, tt)
  base_behind-bounds (node ll n k lr) base m h =
      let high = subtree_end-le lo hi hi_fits ll n k lr m in
      if_cases (λ b. (base ≤ b) × (b ≤ hi) × All (λ v. region_end v ≤ b) (regions (node ll n k lr)))
        (ltb base n.subtree_end) n.subtree_end base
        (λ e. (omega (tests, ltb→lt _ _ e), high, subtree_end-ge lo hi hi_fits ll n k lr m))
        (λ e. (
          omega arith,
          h,
          All-map _ _ (regions (node ll n k lr)) (λ v p. omega (arith, p, not_ltb→le _ _ e))
              (subtree_end-ge lo hi hi_fits ll n k lr m),
        ))

  -- The four places where the search stops at a node: before its subtree, in its left subtree,
  -- between that and the node, and in its right subtree.
  module _ (l : Tree VmmNode) (n : VmmNode) (k : ℕ) (r : Tree VmmNode) (base m : ℕ)
      (mapped : IsMapped lo hi hi_fits (node l n k r)) (base_in : base ≤ hi)
      (starts : All (λ v. v.start ≤ m) (regions (node l n k r))) where
    before_tree :
        u64 (align_up base align + u64 (pages * page_size)) ≤ n.subtree_start
        → Found
            (node l n k r)
            base
            m
            (within_pool hi (u64 (pages * page_size)) (align_up base align))
    before_tree e =
        let high = align_up-lt base align align_pos (omega arith) in
        let exact = span_exact (align_up base align) (omega (arith, high)) in
        let low = subtree_start-le lo hi hi_fits l n k r mapped in
        within_pool-Found (node l n k r) base m base base_in (le-align_up base align)
          (omega (arith, e, exact, own _ l n k r low, own _ l n k r starts))
          (All-map _ _ (regions (node l n k r)) (λ v p. inr (omega (arith, p, e, exact))) low)

    in_left : (a : ℕ) → Found l base n.start a → Found (node l n k r) base m a
    in_left a (inl z) = inl z
    in_left a (inr (p, q, before, clear, aligned)) = inr (
      p,
      q,
      omega (arith, before, own _ l n k r starts),
      All-append _ (regions l) _ clear (
        inr before,
        All-map _ _ (regions r) (λ v g. inr (omega (arith, g, before)))
            (right_behind lo hi hi_fits l n k r mapped),
      ),
      aligned,
    )

    between :
        u64 (align_up (base_behind l base) align + u64 (pages * page_size)) ≤ n.start
        → Found
            (node l n k r)
            base
            m
            (within_pool hi (u64 (pages * page_size)) (align_up (base_behind l base) align))
    between e =
        let b = base_behind-bounds l base (IsMapped-left lo hi hi_fits l n k r mapped) base_in in
        let high = align_up-lt (base_behind l base) align align_pos (omega (arith, b.1)) in
        let low = le-align_up (base_behind l base) align in
        let exact = span_exact (align_up (base_behind l base) align) (omega (arith, high, b.1)) in
        within_pool-Found (node l n k r) base m (base_behind l base) b.1 (omega (arith, low, b.0))
          (omega (arith, e, exact, own _ l n k r starts))
          (All-append _ (regions l) _
            (All-map _ _ (regions l) (λ v g. inl (omega (arith, g, low))) b.2)
            (
              inr (omega (arith, e, exact)),
              All-map _ _ (regions r) (λ v g. inr (omega (arith, g, e, exact)))
                  (right_behind lo hi hi_fits l n k r mapped),
            ))

    in_right :
        (base' a : ℕ)
        → base ≤ base'
        → region_end (region_of n) ≤ base'
        → Found r base' m a
        → Found (node l n k r) base m a
    in_right base' a p e (inl z) = inl z
    in_right base' a p e (inr (f, g, before, clear, aligned)) = inr (
      omega (arith, p, f),
      g,
      before,
      All-append _ (regions l) _
          (All-map _ _ (regions l) (λ v h. inl (omega (arith, h, e, f)))
            (left_before lo hi hi_fits l n k r mapped))
          (inl (omega (arith, e, f)), clear),
      aligned,
    )

    base_after-bounds :
        (b : ℕ)
        → b ≤ hi
        → (b ≤ base_after n b) × (region_end (region_of n) ≤ base_after n b) × (base_after n b ≤ hi)
    unfolding base_after
    base_after-bounds b h =
        ground (arith, node_end_exact lo hi hi_fits l n k r mapped, own _ l n k r mapped.inside)

    on_left_missing :
        Found r
          (base_after n (base_behind l base))
          m
          (find_gap hi r (base_after n (base_behind l base)) pages align)
        → Found (node l n k r) base m (
            if leb (u64 (align_up (base_behind l base) align + u64 (pages * page_size))) n.start
            then within_pool hi (u64 (pages * page_size)) (align_up (base_behind l base) align)
            else find_gap hi r (base_after n (base_behind l base)) pages align)
    on_left_missing ih =
        let b = base_behind-bounds l base (IsMapped-left lo hi hi_fits l n k r mapped) base_in in
        let c = base_after-bounds (base_behind l base) b.1 in
        elim (Bool-cases
          (leb (u64 (align_up (base_behind l base) align + u64 (pages * page_size))) n.start)) [
            | inl e ↦ rw e (between (leb→le _ _ e))
            | inr late ↦ rw late (in_right _ _ (omega (arith, b.0, c.0)) c.1 ih)
          ]

    at_node :
        Found l base n.start (find_gap hi l base pages align)
        → Found r
            (base_after n (base_behind l base))
            m
            (find_gap hi r (base_after n (base_behind l base)) pages align)
        → Found (node l n k r) base m (find_gap hi (node l n k r) base pages align)
    unfolding find_gap
    at_node on_left on_right =
        elim (Bool-cases
          (leb (u64 (align_up base align + u64 (pages * page_size))) n.subtree_start)) [
            | inl e ↦ rw e (before_tree (leb→le _ _ e))
            | inr late ↦ rw late (elim (Bool-cases (ltb n.max_gap pages)) [
              | inl small ↦ rw small (inl refl)
              | inr wide ↦ rw wide (elim (Bool-cases (find_gap hi l base pages align == 0)) [
                | inl missing ↦ rw missing (on_left_missing on_right)
                | inr found ↦ rw found (in_left _ on_left)
              ])
            ])
          ]

  -- In an augmented tree of disjoint regions of the pool, with the pool's end, the alignment and
  -- the span within 2^64 together, `vmm_find_gap` from a base of the pool returns 0 or an address
  -- not below the base, rounded up from an address of the pool, whose pages end in the pool and
  -- not behind a bound on the starts of the regions, and meet no region of the tree.
  pub find_gap-Found :
      (t : Tree VmmNode) (base m : ℕ)
      → IsMapped lo hi hi_fits t
      → base ≤ hi
      → All (λ v. v.start ≤ m) (regions t)
      → Found t base m (find_gap hi t base pages align)
  unfolding find_gap
  find_gap-Found leaf base m mapped h q = inl refl
  find_gap-Found (node l n k r) base m mapped h q =
      let left_mapped = IsMapped-left lo hi hi_fits l n k r mapped in
      let b = base_behind-bounds l base left_mapped h in
      let c = base_after-bounds l n k r base m mapped h q (base_behind l base) b.1 in
      at_node l n k r base m mapped h q
        (find_gap-Found l base n.start left_mapped h (
          All-map _ _ (regions l) (λ v g. omega (arith, g))
            (left_before lo hi hi_fits l n k r mapped)))
        (find_gap-Found r (base_after n (base_behind l base)) m
          (IsMapped-right lo hi hi_fits l n k r mapped) c.2 (of_right _ l n k r q))
