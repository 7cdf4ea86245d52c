-- ===== src/Vmm/Summary.antt =====
-- What `subtree_start` and `subtree_end` of mem/vmm.c stand for in an augmented tree.
use cuore_os.Base.{
  ℕ, ◌^◌, ◌≤◌, ◌<◌, ◌≡◌, arith, All, All-append, All-append_left, All-append_right, All-map,
}
use cuore_os.Avl.{Tree, leaf, node, run_update}
use cuore_os.Avl.Updated.{IsUpdated}
use cuore_os.Vmm.{VmmNode, vmm_node_update, vmm_avl_cb, node_end, start_from, end_from}
use cuore_os.Vmm.Regions.{
  Region, region_of, region_end, regions, IsSpaced, Inside, IsSpaced-left, IsSpaced-right,
  IsSpaced-before, node_end-region_end,
}

pub subtree_start-start_from :
    (l : Tree VmmNode) (n : VmmNode) (r : Tree VmmNode)
    → (b : VmmNode) × (n ≡ run_update vmm_avl_cb l b r)
    → n.subtree_start ≡ start_from l n
unfolding run_update vmm_node_update start_from
subtree_start-start_from leaf n r (b, e) = rw e
subtree_start-start_from (node _ m _ _) n r (b, e) = rw e

pub subtree_end-end_from :
    (l : Tree VmmNode) (n : VmmNode) (r : Tree VmmNode)
    → (b : VmmNode) × (n ≡ run_update vmm_avl_cb l b r)
    → n.subtree_end ≡ end_from r n
unfolding run_update vmm_node_update end_from
subtree_end-end_from l n leaf (b, e) = rw e
subtree_end-end_from l n (node _ m _ _) (b, e) = rw e

-- The parts of what holds of a node's regions.
pub own :
    (P : Region → Type 0) (l : Tree VmmNode) (n : VmmNode) (h : ℕ) (r : Tree VmmNode)
    → All P (regions (node l n h r))
    → P (region_of n)
own P l n h r p = (All-append_right P (regions l) _ p).0

pub of_left :
    (P : Region → Type 0) (l : Tree VmmNode) (n : VmmNode) (h : ℕ) (r : Tree VmmNode)
    → All P (regions (node l n h r))
    → All P (regions l)
of_left P l n h r p = All-append_left P (regions l) _ p

pub of_right :
    (P : Region → Type 0) (l : Tree VmmNode) (n : VmmNode) (h : ℕ) (r : Tree VmmNode)
    → All P (regions (node l n h r))
    → All P (regions r)
of_right P l n h r p = (All-append_right P (regions l) _ p).1

module _ (lo hi : ℕ) (hi_fits : hi < 2 ^ 64) where
  -- An augmented tree whose regions are in order within [lo, hi).
  pub record IsMapped (t : Tree VmmNode) : Type 0 where
    pub updated : IsUpdated vmm_avl_cb t
    pub spaced : IsSpaced (regions t)
    pub inside : All (Inside lo hi) (regions t)

  module _ (l : Tree VmmNode) (n : VmmNode) (h : ℕ) (r : Tree VmmNode)
      (m : IsMapped (node l n h r)) where
    pub IsMapped-left : IsMapped l
    IsMapped-left = record {
      updated = m.updated.0;
      spaced = IsSpaced-left (regions l) _ m.spaced;
      inside = of_left (Inside lo hi) l n h r m.inside;
    }

    pub IsMapped-right : IsMapped r
    IsMapped-right = record {
      updated = m.updated.1;
      spaced = (IsSpaced-right (regions l) _ m.spaced).1;
      inside = of_right (Inside lo hi) l n h r m.inside;
    }

    pub left_before : All (λ v. region_end v ≤ n.start) (regions l)
    left_before = IsSpaced-before (regions l) (region_of n) _ m.spaced

    pub right_behind : All (λ v. region_end (region_of n) ≤ v.start) (regions r)
    right_behind = (IsSpaced-right (regions l) _ m.spaced).0

    pub node_end_exact : node_end n ≡ region_end (region_of n)
    node_end_exact = node_end-region_end n (omega (arith, own (Inside lo hi) l n h r m.inside))

  pub subtree_start-le :
      (l : Tree VmmNode) (n : VmmNode) (h : ℕ) (r : Tree VmmNode)
      → IsMapped (node l n h r)
      → All (λ v. n.subtree_start ≤ v.start) (regions (node l n h r))
  unfolding start_from
  subtree_start-le leaf n h r m =
      let e = subtree_start-start_from leaf n r m.updated.2 in
      (
        omega (arith, e),
        All-map _ _ (regions r) (λ v p. omega (arith, e, p)) (right_behind leaf n h r m),
      )
  subtree_start-le (node ll k i lr) n h r m =
      let e = subtree_start-start_from (node ll k i lr) n r m.updated.2 in
      let ih = subtree_start-le ll k i lr (IsMapped-left (node ll k i lr) n h r m) in
      let first : n.subtree_start ≤ n.start =
        omega
          (arith, e, own _ ll k i lr ih, own _ ll k i lr (left_before (node ll k i lr) n h r m)) in
      All-append _ (regions (node ll k i lr)) _
        (All-map _ _ (regions (node ll k i lr)) (λ v p. omega (arith, e, p)) ih)
        (
          first,
          All-map _ _ (regions r) (λ v p. omega (arith, first, p))
              (right_behind (node ll k i lr) n h r m),
        )

  subtree_end-bounds :
      (l : Tree VmmNode) (n : VmmNode) (h : ℕ) (r : Tree VmmNode)
      → IsMapped (node l n h r)
      → All (λ v. region_end v ≤ n.subtree_end) (regions (node l n h r)) × (n.subtree_end ≤ hi)
  unfolding end_from
  subtree_end-bounds l n h leaf m =
      let e = subtree_end-end_from l n leaf m.updated.2 in
      let x = node_end_exact l n h leaf m in
      (
        All-append _ (regions l) _
            (All-map _ _ (regions l) (λ v p. omega (arith, e, x, p)) (left_before l n h leaf m))
            (omega (arith, e, x), tt),
        omega (arith, e, x, own (Inside lo hi) l n h leaf m.inside),
      )
  subtree_end-bounds l n h (node rl k i rr) m =
      let e = subtree_end-end_from l n (node rl k i rr) m.updated.2 in
      let x = node_end_exact l n h (node rl k i rr) m in
      let ih = subtree_end-bounds rl k i rr (IsMapped-right l n h (node rl k i rr) m) in
      let own_end : region_end (region_of n) ≤ n.subtree_end = ground (arith, e, x) in
      let right_end : k.subtree_end ≤ n.subtree_end = ground (arith, e, x) in
      (
        All-append _ (regions l) _
            (All-map _ _ (regions l) (λ v p. omega (arith, own_end, p))
              (left_before l n h (node rl k i rr) m))
            (
              own_end,
              All-map _ _ (regions (node rl k i rr)) (λ v p. omega (arith, right_end, p)) ih.0,
            ),
        ground (arith, e, x, ih.1, own (Inside lo hi) l n h (node rl k i rr) m.inside),
      )

  pub subtree_end-ge :
      (l : Tree VmmNode) (n : VmmNode) (h : ℕ) (r : Tree VmmNode)
      → IsMapped (node l n h r)
      → All (λ v. region_end v ≤ n.subtree_end) (regions (node l n h r))
  subtree_end-ge l n h r m = (subtree_end-bounds l n h r m).0

  pub subtree_end-le :
      (l : Tree VmmNode) (n : VmmNode) (h : ℕ) (r : Tree VmmNode)
      → IsMapped (node l n h r)
      → n.subtree_end ≤ hi
  subtree_end-le l n h r m = (subtree_end-bounds l n h r m).1
