-- ===== src/Vmm/Regions.antt =====
-- The regions that a tree of mem/vmm.c stands for, and what the augmented fields say of them.
use cuore_os.Base.{
  ℕ, ◌+◌, ◌*◌, ◌^◌, ◌≤◌, ◌<◌, ◌≡◌, refl, Bool, List, [], ◌∷◌, ◌++◌, arith, All, All-append_left,
  All-append_right, All-map, IsSorted,
}
use cuore_os.Avl.{Tree, run_update}
use cuore_os.Avl.Keys.{IsKeyed, inorder}
use cuore_os.Vmm.{VmmNode, page_size, vmm_node_cmp, vmm_node_update, vmm_avl_cb, node_end}

-- What `vmm_node_update` leaves alone in a node.
pub record Region : Type 0 where
  pub start : ℕ
  pub pages : ℕ
  pub from_heap : Bool

-- The first address behind the region, with no wrap.
abbrev pub region_end : Region → ℕ
region_end v = v.start + v.pages * page_size

abbrev pub region_of : VmmNode → Region
region_of n = record { start = n.start; pages = n.page_count; from_heap = n.heap_allocated }

abbrev pub start_of : Region → ℕ
start_of v = v.start

abbrev pub regions : Tree VmmNode → List Region
regions = inorder region_of

pub vmm-IsKeyed : IsKeyed vmm_avl_cb region_of start_of
vmm-IsKeyed = record {
  compare_key = λ a b. unfold vmm_node_cmp in ground arith;
  view_kept = λ l a r. unfold vmm_node_update run_update in refl;
}

-- In the order of the list each region ends before the next begins.
abbrev pub IsSpaced : List Region → Type 0
IsSpaced [] = Unit
IsSpaced (v ∷ vs) = All (λ w. region_end v ≤ w.start) vs × IsSpaced vs

-- A region of at least one page that lies within [lo, hi).
abbrev pub Inside : ℕ → ℕ → Region → Type 0
Inside lo hi v = (lo ≤ v.start) × (region_end v ≤ hi) × (0 < v.pages)

pub IsSpaced-left : (xs ys : List Region) → IsSpaced (xs ++ ys) → IsSpaced xs
IsSpaced-left [] ys s = tt
IsSpaced-left (x ∷ xs) ys s = (All-append_left _ xs ys s.0, IsSpaced-left xs ys s.1)

pub IsSpaced-right : (xs ys : List Region) → IsSpaced (xs ++ ys) → IsSpaced ys
IsSpaced-right [] ys s = s
IsSpaced-right (x ∷ xs) ys s = IsSpaced-right xs ys s.1

pub IsSpaced-before :
    (xs : List Region) (y : Region) (ys : List Region)
    → IsSpaced (xs ++ y ∷ ys)
    → All (λ x. region_end x ≤ y.start) xs
IsSpaced-before [] y ys s = tt
IsSpaced-before (x ∷ xs) y ys s =
    ((All-append_right _ xs (y ∷ ys) s.0).0, IsSpaced-before xs y ys s.1)

pub IsSpaced-IsSorted :
    (lo hi : ℕ) (vs : List Region) → IsSpaced vs → All (Inside lo hi) vs → IsSorted start_of vs
IsSpaced-IsSorted lo hi [] s p = tt
IsSpaced-IsSorted lo hi (v ∷ vs) s p = (
  All-map _ (λ w. v.start < w.start) vs (λ w h. omega (arith, p.0)) s.0,
  IsSpaced-IsSorted lo hi vs s.1 p.1,
)

pub node_end-region_end :
    (n : VmmNode) → region_end (region_of n) < 2 ^ 64 → node_end n ≡ region_end (region_of n)
unfolding node_end
node_end-region_end n h = omega arith
