-- ===== src/Vmm/Free.antt =====
-- `vmm_free_pages` of mem/vmm.c.
use mathlib.Core.Option
use cuore_os.Base.{
  ℕ, ◌+◌, ◌*◌, ◌^◌, ◌≤◌, ◌<◌, ◌≡◌, ◌≢◌, refl, sym, ap, ◌∙◌, inl, inr, Bool, false, Option, none,
  some, List, [], ◌∷◌, arith, All, All-map, All-zip, All-erase_by, insert_by, erase_by, find_by,
  find_by-All, OnSome, IsSorted, erase_by-insert_by, find_by-insert_by, ◌==◌, if◌then◌else◌,
  Bool-cases, ok, ==_iff, subst,
}
use cuore_os.Avl.{Tree, leaf, node, delete}
use cuore_os.Avl.Balance.{delete-IsBalanced}
use cuore_os.Avl.Refine.{inorder-delete, find-inorder, delete-find}
use cuore_os.Avl.Updated.{delete-IsUpdated}
use cuore_os.Vmm.{
  VmmNode, Vmm, page_size, vmm_avl_cb, zero_node, release, free_from, free_pages, alloc_aligned,
}
use cuore_os.Vmm.Regions.{
  Region, region_of, region_end, start_of, regions, vmm-IsKeyed, IsSpaced, IsSpaced-IsSorted,
}
use cuore_os.Vmm.Alloc.{IsValid, Allocates, new_region, alloc_aligned-Allocates}

-- What `vmm_free_pages` returns for what it finds at the address.
abbrev pub freed : Option Region → ℕ → ℕ
freed none count = 0
freed (some v) count = if v.pages == count then v.start else 0

IsSpaced-erase_by : (k : ℕ) (vs : List Region) → IsSpaced vs → IsSpaced (erase_by start_of k vs)
IsSpaced-erase_by k [] s = tt
IsSpaced-erase_by k (v ∷ vs) s =
    ground
      (arith, IsSpaced-erase_by k vs s.1, All-erase_by start_of (λ w. region_end v ≤ w.start) k vs)

erase_by-zero : (vs : List Region) → All (λ v. 0 < v.start) vs → erase_by start_of 0 vs ≡ vs
erase_by-zero [] p = refl
erase_by-zero (v ∷ vs) p = ground (arith, p.0)

find_by-zero : (vs : List Region) → All (λ v. 0 < v.start) vs → find_by start_of 0 vs ≡ none
find_by-zero [] p = refl
find_by-zero (v ∷ vs) p = ground (arith, p.0)

release-same :
    (out : Option VmmNode) (count : ℕ) (s : Vmm)
    → OnSome (λ v. v.from_heap ≡ false) (Option.map region_of out)
    → release out count s ≡ (s, freed (Option.map region_of out) count)
unfolding release
release-same none count s h = refl
release-same (some n) count s h = ground (arith, h)

module _ (s : Vmm) (valid : IsValid s) (virt count : ℕ) where
  -- The state after the call, what it returns, and that no node goes back to the heap.
  abbrev pub Frees : Vmm × ℕ → Type 0
  Frees done =
      IsValid done.0
      × (regions done.0.root ≡ erase_by start_of virt (regions s.root))
      × (done.1 ≡ freed (find_by start_of virt (regions s.root)) count)
      × (done.0.heap_nodes ≡ s.heap_nodes)

  sorted : IsSorted start_of (regions s.root)
  sorted = IsSpaced-IsSorted _ _ (regions s.root) valid.mapped.spaced valid.mapped.inside

  positive : All (λ v. 0 < v.start) (regions s.root)
  positive =
      All-map _ _ (regions s.root) (λ v g. omega (arith, g, valid.base_pos)) valid.mapped.inside

  -- Removing the node with the key `virt`, if there is one.
  delete-Frees :
      (out : Tree VmmNode × Option VmmNode)
      → delete vmm_avl_cb s.root (record zero_node { start = virt }) ≡ out
      → Frees (release out.1 count (record s { root = out.0 }))
  delete-Frees out e = rw same (
    record {
      base_pos = valid.base_pos;
      pool_fits = valid.pool_fits;
      pool_order = valid.pool_order;
      mapped = record {
        updated = rw (← e) (delete-IsUpdated vmm_avl_cb s.root key_node valid.mapped.updated);
        spaced = rw order (IsSpaced-erase_by virt (regions s.root) valid.mapped.spaced);
        inside = rw order (All-erase_by start_of _ virt (regions s.root) valid.mapped.inside);
      };
      balanced = rw (← e) (delete-IsBalanced vmm_avl_cb s.root key_node valid.balanced).0;
      none_from_heap =
          rw order (All-erase_by start_of _ virt (regions s.root) valid.none_from_heap);
    },
    order,
    ap (λ o. freed o count) found,
    refl,
  )
    where
      key_node : VmmNode
      key_node = record zero_node { start = virt }

      order : regions out.0 ≡ erase_by start_of virt (regions s.root)
      order =
          rw (← e) (inorder-delete vmm_avl_cb region_of start_of vmm-IsKeyed s.root key_node sorted)

      found : Option.map region_of out.1 ≡ find_by start_of virt (regions s.root)
      found =
          rw (← e, delete-find vmm_avl_cb region_of start_of vmm-IsKeyed)
            (find-inorder vmm_avl_cb region_of start_of vmm-IsKeyed s.root key_node sorted)

      same :
          release out.1 count (record s { root = out.0 })
          ≡ (record s { root = out.0 }, freed (Option.map region_of out.1) count)
      same =
          release-same out.1 count (record s { root = out.0 })
            (rw found (find_by-All start_of _ virt (regions s.root) valid.none_from_heap))

  free_from-Frees : (t : Tree VmmNode) → s.root ≡ t → Frees (free_from t s virt count)
  unfolding free_from
  free_from-Frees leaf e = (valid, rw e, rw e, refl)
  free_from-Frees (node l n h r) e =
      delete-Frees (delete vmm_avl_cb (node l n h r) (record zero_node { start = virt })) (rw e)

  null-Frees : virt ≡ 0 → Frees (s, 0)
  null-Frees zero = (
    valid,
    sym (rw zero (erase_by-zero (regions s.root) positive)),
    sym (rw (zero, find_by-zero (regions s.root) positive)),
    refl,
  )

  -- On a valid state `vmm_free_pages` leaves a valid state on every branch; the region that
  -- begins at the address is removed whatever its page count, its start is returned if the count
  -- is right and 0 if it is wrong or there is no such region, and the number of nodes held from
  -- the heap is unchanged.
  pub free_pages-Frees : Frees (free_pages s virt count)
  unfolding free_pages
  free_pages-Frees = elim (Bool-cases (virt == 0)) [
    | inl null ↦ rw null (null-Frees ((==_iff _ _).0 null))
    | inr given ↦ rw given (free_from-Frees s.root refl)
  ]

module _ (s : Vmm) (valid : IsValid s) (count align : ℕ) (align_pos : 0 < align)
    (fits : s.pool_end + align + count * page_size ≤ 2 ^ 64) where
  -- On a valid state, under the bounds of the allocation, pages that `vmm_alloc_aligned` returned
  -- can be freed with `vmm_free_pages`: that returns their address, and the regions are those
  -- from before the allocation.
  pub free_pages-alloc_aligned :
      (malloc_works : Bool) (s' : Vmm) (a : ℕ)
      → 0 < count
      → alloc_aligned malloc_works s count align ≡ ok (s', a)
      → ((free_pages s' a count).1 ≡ a) × (regions (free_pages s' a count).0.root ≡ regions s.root)
  free_pages-alloc_aligned malloc_works s' a pos e = (
    back.2 ∙ (ap (λ o. freed o count) found ∙ ground arith),
    back.1 ∙ rw order (erase_by-insert_by start_of v (regions s.root) apart),
  )
    where
      v : Region
      v = new_region s valid count align align_pos fits a

      done : Allocates s valid count align align_pos fits malloc_works (ok (s', a))
      done =
          subst (Allocates s valid count align align_pos fits malloc_works) e
            (alloc_aligned-Allocates s valid count align align_pos fits malloc_works pos)

      back : Frees s' (done).0 a count (free_pages s' a count)
      back = free_pages-Frees s' (done).0 a count

      order : regions s'.root ≡ insert_by start_of v (regions s.root)
      order = (done).1

      pages_pos : All (λ w. 0 < w.pages) (regions s.root)
      pages_pos = All-map _ _ (regions s.root) (λ w g. g.2) valid.mapped.inside

      apart : All (λ w. w.start ≢ a) (regions s.root)
      apart =
          All-zip _ _ (λ w. w.start ≢ a) (regions s.root) (λ w g c. omega (arith, g, c, pos))
            pages_pos (done).4

      found : find_by start_of a (regions s'.root) ≡ some v
      found = rw order (find_by-insert_by start_of v (regions s.root) apart)
