-- ===== src/Heap/Malloc.antt =====
-- `malloc` of mem/heap.c, on blocks.
use cuore_os.Base.{
  ℕ, Bool, if◌then◌else◌, ◌==◌, ◌+◌, ◌*◌, ◌^◌, ◌≤◌, ◌≡◌, refl, sym, subst, inl, inr, true, false,
  Option, none, some, List, [], ◌∷◌, ◌++◌, u64, Run, ok, arith, All, All-zip, All-map, All-append,
  All-append_left, All-append_right, OnSome, Option-cases, ◌≢◌,
}
use cuore_os.Heap.{
  Block, Heap, header_size, heap_magic, page_size, update, find_block, fits, take_block,
  search_order, first_fit, growth_pages, new_area, heap_grow, if_grown, malloc_block,
}
use cuore_os.Heap.Layout.{IsSound, IsApart, IsChained, IsDisjoint, IsTiled, update-IsTiled}
use cuore_os.Heap.Used.{IsKept, IsDisjoint-found, update-IsKept}
use cuore_os.Heap.Search.{
  fits-size, take_block-IsRefined, Searched, nothing, found, first_fit-Searched, search_order-All,
  All-search_order, update-found, take_block-found,
}

-- The block at an address, where there was one, was free and no pool.
abbrev pub WasFree : List Block → (address : ℕ) → Type 0
WasFree bs address = OnSome (λ b. (b.is_free ≡ true) × (b.is_pool ≡ false)) (find_block address bs)

-- What `malloc` does on blocks. In `taken` the block `b` is the one that was taken. Its address is that
-- of a block that was free, or of none, and the blocks that were in use before are kept, so `b`
-- meets none of them.
pub data Taken (get_pages : ℕ → Option ℕ) (size : ℕ) (h : Heap) : Run (Heap × ℕ) → Type 0 where
  no_pages :
      get_pages (growth_pages size) ≡ none
      → All (λ b. fits size b ≡ false) h.blocks
      → Taken get_pages size h (ok (h, 0))
  taken :
      (h' : Heap) (b : Block)
      → IsTiled h'.blocks × All (IsKept h'.blocks) h.blocks
      → (find_block b.address h'.blocks ≡ some b) × (b.is_free ≡ false) × (size ≤ b.size)
      → WasFree h.blocks b.address
      → h'.last_fit ≡ some b.address
      → Taken get_pages size h (ok (h', b.address + header_size))

module _ (get_pages : ℕ → Option ℕ) (size : ℕ) (fits_word : size + 2 ^ 13 ≤ 2 ^ 64) where
  growth_pages-enough : size + header_size ≤ growth_pages size * page_size
  unfolding growth_pages
  growth_pages-enough = ground arith

  -- The pages that `get_pages` gives lie apart from the blocks.
  abbrev pub IsFresh : List Block → Type 0
  IsFresh bs =
      OnSome
        (λ virt.
          IsSound (new_area virt (growth_pages size))
          × All (λ b. IsApart b (new_area virt (growth_pages size))) bs)
        (get_pages (growth_pages size))

  abbrev IsPresent : Heap → Block → Type 0
  IsPresent h b = (find_block b.address h.blocks ≡ some b) × IsSound b

  fits-free : (b : Block) → fits size b ≡ true → (b.is_free ≡ true) × (b.is_pool ≡ false)
  unfolding fits
  fits-free b e = (ground (arith, e), ground (arith, e))

  free_head :
      (here : Bool) (b : Block) (longer shorter : Option Block)
      → (OnSome (λ b. (b.is_free ≡ true) × (b.is_pool ≡ false)) longer
          → OnSome (λ b. (b.is_free ≡ true) × (b.is_pool ≡ false)) shorter)
      → OnSome (λ b. (b.is_free ≡ true) × (b.is_pool ≡ false)) (if here then some b else longer)
      → OnSome (λ b. (b.is_free ≡ true) × (b.is_pool ≡ false)) (if here then some b else shorter)
  free_head true b longer shorter f h = h
  free_head false b longer shorter f h = f h

  WasFree-left : (bs cs : List Block) (a : ℕ) → WasFree (bs ++ cs) a → WasFree bs a
  unfolding find_block
  WasFree-left [] cs a h = tt
  WasFree-left (b ∷ bs) cs a h =
      free_head (b.address == a) b (find_block a (bs ++ cs)) (find_block a bs)
        (WasFree-left bs cs a) h

  take-Taken :
      (h : Heap) (b : Block)
      → IsTiled h.blocks
      → IsPresent h b
      → fits size b ≡ true
      → IsTiled (update b.address (take_block size) h.blocks)
        × All (IsKept (update b.address (take_block size) h.blocks)) h.blocks
        × (find_block b.address (update b.address (take_block size) h.blocks)
            ≡ some (take_block-found size b).0)
  take-Taken h b t p e = (
    update-IsTiled b.address (take_block size) h.blocks (rw p.0 (take_block-IsRefined size b p.1 e))
        t,
    update-IsKept b.address (take_block size) h.blocks t.disjoint
        (rw p.0 (take_block-IsRefined size b p.1 e)) (rw p.0 (fits-size size b e).0),
    update-found b.address (take_block size) (take_block-found size b).0 h.blocks
        (λ q. ground (arith, p.0, q)) (rw p.0 (take_block-found size b).1),
  )

  searched :
      (h : Heap)
      → IsTiled h.blocks
      → Searched
          (IsPresent h)
          size
          (search_order h.last_fit h.blocks)
          (first_fit size (search_order h.last_fit h.blocks))
  searched h t =
      first_fit-Searched (IsPresent h) size _
        (search_order-All (IsPresent h) h.last_fit h.blocks (
          All-zip (λ b. find_block b.address h.blocks ≡ some b) IsSound (IsPresent h) h.blocks
            (λ b p q. (p, q)) (IsDisjoint-found h.blocks t.disjoint) t.sound))
        (search_order-All (λ b. b.magic ≡ heap_magic) h.last_fit h.blocks
          (All-map IsSound (λ b. b.magic ≡ heap_magic) h.blocks (λ b s. s.0) t.sound))

  -- The block is taken in `h`, which has the blocks of `old` and perhaps more.
  take-Taken_block :
      (old h : Heap) (b : Block)
      → ((new : List Block) → All (IsKept new) h.blocks → All (IsKept new) old.blocks)
      → ((a : ℕ) → WasFree h.blocks a → WasFree old.blocks a)
      → IsTiled h.blocks
      → IsPresent h b
      → fits size b ≡ true
      → Taken get_pages size old (
          ok (
            record h {
              blocks = update b.address (take_block size) h.blocks;
              last_fit = some b.address;
            },
            u64 (b.address + header_size),
          ))
  take-Taken_block old h b restrict earlier t p e =
      subst (λ q. Taken get_pages size old (ok (h', q))) (sym exact)
        (taken h' (part).0 ((done).0, restrict h'.blocks (done).1)
          (rw same (done).2, (part).3, (part).4 (fits-size size b e).2)
          (earlier (part).0.address (rw same free_before)) (rw same refl))
    where
      h' : Heap
      h' = record h {
        blocks = update b.address (take_block size) h.blocks;
        last_fit = some b.address;
      }

      part :
          (c : Block) × ((rest : List Block)
            → find_block b.address (take_block size b ++ rest) ≡ some c)
          × (c.address ≡ b.address)
          × (c.is_free ≡ false)
          × ((size ≤ b.size) → size ≤ c.size)
      part = take_block-found size b

      free_before : WasFree h.blocks b.address
      free_before = rw p.0 (fits-free b e)

      same : (part).0.address ≡ b.address
      same = (part).2

      done :
          IsTiled (update b.address (take_block size) h.blocks)
          × All (IsKept (update b.address (take_block size) h.blocks)) h.blocks
          × (find_block b.address (update b.address (take_block size) h.blocks)
              ≡ some (take_block-found size b).0)
      done = take-Taken h b t p e

      exact : u64 (b.address + header_size) ≡ (part).0.address + header_size
      exact = omega (arith, same, p.1)

  last-IsChained :
      (bs : List Block) (n : Block) → n.is_boundary ≡ true → IsChained bs → IsChained (bs ++ n ∷ [])
  last-IsChained [] n e t = (tt, tt)
  last-IsChained (b ∷ []) n e t = (inr (inl e), (tt, tt))
  last-IsChained (b ∷ c ∷ bs) n e t = (t.0, last-IsChained (c ∷ bs) n e t.1)

  last-IsDisjoint :
      (bs : List Block) (n : Block)
      → All (λ b. IsApart b n) bs
      → IsDisjoint bs
      → IsDisjoint (bs ++ n ∷ [])
  last-IsDisjoint [] n p d = (tt, tt)
  last-IsDisjoint (b ∷ bs) n p d =
      (All-append (IsApart b) bs _ d.0 (p.0, tt), last-IsDisjoint bs n p.1 d.1)

  grown-IsTiled :
      (bs : List Block) (virt : ℕ)
      → IsTiled bs
      → IsSound (new_area virt (growth_pages size))
      → All (λ b. IsApart b (new_area virt (growth_pages size))) bs
      → IsTiled (bs ++ new_area virt (growth_pages size) ∷ [])
  unfolding new_area
  grown-IsTiled bs virt t s p = record {
    sound = All-append IsSound bs _ t.sound (s, tt);
    chained = last-IsChained bs _ refl t.chained;
    disjoint = last-IsDisjoint bs _ p t.disjoint;
  }

  new_area-fits : (virt : ℕ) → fits size (new_area virt (growth_pages size)) ≢ false
  unfolding fits new_area
  new_area-fits virt h = ground (arith, growth_pages-enough)

  heap_grow-none :
      (h : Heap) → get_pages (growth_pages size) ≡ none → heap_grow get_pages size h ≡ none
  unfolding heap_grow
  heap_grow-none h e = rw (e, heap_grow) refl

  heap_grow-some :
      (h : Heap) (virt : ℕ)
      → get_pages (growth_pages size) ≡ some virt
      → heap_grow get_pages size h
        ≡ some (record h { blocks = h.blocks ++ new_area virt (growth_pages size) ∷ [] })
  unfolding heap_grow
  heap_grow-some h virt e = rw (e, heap_grow) refl

  -- The heap after a growth: the search there succeeds.
  second_try :
      (h : Heap) (virt : ℕ)
      → IsTiled h.blocks
      → IsSound (new_area virt (growth_pages size))
      → All (λ b. IsApart b (new_area virt (growth_pages size))) h.blocks
      → Taken get_pages size h (
          malloc_block 1 get_pages size
            (record h { blocks = h.blocks ++ new_area virt (growth_pages size) ∷ [] }))
  unfolding malloc_block
  second_try h virt t s p = finish (searched h' tiled) refl
    where
      n : Block
      n = new_area virt (growth_pages size)

      h' : Heap
      h' = record h { blocks = h.blocks ++ new_area virt (growth_pages size) ∷ [] }

      tiled : IsTiled h'.blocks
      tiled = grown-IsTiled h.blocks virt t s p

      finish :
          {r : Run (Option ℕ)}
          → Searched (IsPresent h') size (search_order h'.last_fit h'.blocks) r
          → first_fit size (search_order h'.last_fit h'.blocks) ≡ r
          → Taken get_pages size h (malloc_block 1 get_pages size h')
      finish (nothing unfit) e = absurd (
          new_area-fits virt
            (All-append_right (λ b. fits size b ≡ false) h.blocks (n ∷ [])
              (All-search_order (λ b. fits size b ≡ false) h'.last_fit h'.blocks unfit)).0)
      finish (found b q f) e = rw e (
          take-Taken_block h h' b (λ new k. All-append_left (IsKept new) h.blocks _ k)
            (WasFree-left h.blocks (n ∷ [])) tiled q f)

  -- On blocks that tile their areas, for a size at least 8 KiB below 2^64 and pages that lie
  -- apart from the blocks, two tries of the search of `malloc` either take a block of at least
  -- that size, at an address where a block that was free and no pool stood, or none, leave the
  -- blocks tiling, keep every block in use and set `last_fit`, or return NULL where no block fits
  -- and there are no pages.
  pub malloc_block-Taken :
      (h : Heap)
      → IsTiled h.blocks
      → IsFresh h.blocks
      → Taken get_pages size h (malloc_block 2 get_pages size h)
  unfolding malloc_block if_grown
  malloc_block-Taken h t fresh = finish (searched h t) refl
    where
      grown : Option Heap → Type 0
      grown o = Taken get_pages size h (if_grown o h (malloc_block 1 get_pages size))

      fresh_at :
          (virt : ℕ)
          → get_pages (growth_pages size) ≡ some virt
          → IsSound (new_area virt (growth_pages size))
            × All (λ b. IsApart b (new_area virt (growth_pages size))) h.blocks
      fresh_at virt given =
          subst
            (OnSome (λ virt.
              IsSound (new_area virt (growth_pages size))
              × All (λ b. IsApart b (new_area virt (growth_pages size))) h.blocks))
            given fresh

      finish :
          {r : Run (Option ℕ)}
          → Searched (IsPresent h) size (search_order h.last_fit h.blocks) r
          → first_fit size (search_order h.last_fit h.blocks) ≡ r
          → Taken get_pages size h (malloc_block 2 get_pages size h)
      finish (found b q f) e = rw e (take-Taken_block h h b (λ new k. k) (λ a w. w) t q f)
      finish (nothing unfit) e = elim (Option-cases (get_pages (growth_pages size))) [
        | inl none_left ↦ rw e (
            subst grown (sym (heap_grow-none h none_left)) (
              no_pages none_left
                (All-search_order (λ b. fits size b ≡ false) h.last_fit h.blocks unfit)))
        | inr (virt, given) ↦ rw e (
            subst grown (sym (heap_grow-some h virt given))
              (second_try h virt t (fresh_at virt given).0 (fresh_at virt given).1))
      ]
