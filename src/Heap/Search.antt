-- ===== src/Heap/Search.antt =====
-- The search of `malloc` of mem/heap.c, and the block that it takes.
use cuore_os.Base.{
  ℕ, ◌+◌, ◌≤◌, ◌≡◌, refl, inl, inr, true, false, Option, none, some, List, [], ◌∷◌, ◌++◌, u64, leb,
  ◌==◌, if◌then◌else◌, Run, ok, arith, All, All-append, All-append_left, All-append_right, OnSome,
  Bool-cases, tests, leb→le, ◌≢◌, if_cases,
}
use cuore_os.Heap.{
  Block, header_size, heap_magic, min_split_size, update, find_block, fits, split_of, take_block,
  blocks_from, blocks_before, search_order, first_fit,
}
use cuore_os.Heap.Layout.{IsSound, IsRefined, one, two, found_here, found_later}

pub fits-size :
    (size : ℕ) (b : Block)
    → fits size b ≡ true
    → (b.is_free ≡ true) × (b.is_pool ≡ false) × (size ≤ b.size)
unfolding fits
fits-size size b e = ground arith

pub take_block-IsRefined :
    (size : ℕ) (b : Block) → IsSound b → fits size b ≡ true → IsRefined b (take_block size b)
unfolding take_block split_of fits
take_block-IsRefined size b s e =
    elim (Bool-cases (leb (u64 (size + header_size + min_split_size)) b.size)) [
      | inl h ↦ rw h (
          two _ _ (refl, refl, (fits-size size b e).1, (fits-size size b e).1, refl)
            (
              refl,
              omega (arith, s, fits-size size b e),
              omega (tests, leb→le _ _ h, s, fits-size size b e),
              refl,
            ))
      | inr h ↦ rw h (one _ (refl, refl, refl, refl, refl))
    ]

-- The loop of `malloc` over blocks whose magic is right, each of which has `P`.
pub data Searched (P : Block → Type 0) (size : ℕ) (bs : List Block) : Run (Option ℕ) → Type 0 where
  nothing : All (λ b. fits size b ≡ false) bs → Searched P size bs (ok none)
  found : (b : Block) → P b → fits size b ≡ true → Searched P size bs (ok (some b.address))

pub first_fit-Searched :
    (P : Block → Type 0) (size : ℕ) (bs : List Block)
    → All P bs
    → All (λ b. b.magic ≡ heap_magic) bs
    → Searched P size bs (first_fit size bs)
unfolding first_fit
first_fit-Searched P size [] p m = nothing tt
first_fit-Searched P size (b ∷ bs) p m = elim (Bool-cases (fits size b)) [
  | inl e ↦ rw (magic_ok, e) (found b p.0 e)
  | inr e ↦ rw (magic_ok, e) (more e (first_fit-Searched P size bs p.1 m.1))
]
  where
    magic_ok : (b.magic == heap_magic) ≡ true
    magic_ok = ground (arith, m.0)

    more :
        {r : Run (Option ℕ)}
        → fits size b ≡ false
        → Searched P size bs r
        → Searched P size (b ∷ bs) r
    more e (nothing h) = nothing (e, h)
    more e (found b' q e') = found b' q e'

module _ (P : Block → Type 0) where
  blocks_from-All : (a : ℕ) (bs : List Block) → All P bs → All P (blocks_from a bs)
  unfolding blocks_from
  blocks_from-All a [] p = tt
  blocks_from-All a (b ∷ bs) p =
      if_cases (All P) (b.address == a) _ _ (λ _. p) (λ _. blocks_from-All a bs p.1)

  blocks_before-All : (a : ℕ) (bs : List Block) → All P bs → All P (blocks_before a bs)
  unfolding blocks_before
  blocks_before-All a [] p = tt
  blocks_before-All a (b ∷ bs) p =
      if_cases (All P) (b.address == a) _ _ (λ _. tt) (λ _. (p.0, blocks_before-All a bs p.1))

  from_before-All :
      (a : ℕ) (bs : List Block) → All P (blocks_from a bs) → All P (blocks_before a bs) → All P bs
  unfolding blocks_from blocks_before
  from_before-All a [] p q = tt
  from_before-All a (b ∷ bs) p q =
      elim (b.address == a)
          as (λ t.
            All P (if t then b ∷ bs else blocks_from a bs)
            → All P (if t then [] else b ∷ blocks_before a bs)
            → All P (b ∷ bs)) [ true ↦ λ p q. p | false ↦ λ p q. (q.0, from_before-All a bs p q.1) ]
        p q

  pub search_order-All :
      (last_fit : Option ℕ) (bs : List Block) → All P bs → All P (search_order last_fit bs)
  unfolding search_order
  search_order-All none bs p = p
  search_order-All (some a) bs p =
      All-append P _ _ (blocks_from-All a bs p) (blocks_before-All a bs p)

  -- The loop leaves no block out.
  pub All-search_order :
      (last_fit : Option ℕ) (bs : List Block) → All P (search_order last_fit bs) → All P bs
  unfolding search_order
  All-search_order none bs p = p
  All-search_order (some a) bs p =
      from_before-All a bs (All-append_left P _ _ p) (All-append_right P (blocks_from a bs) _ p)

module _ (a : ℕ) (f : Block → List Block) (c : Block) where
  pub update-found :
      (bs : List Block)
      → find_block a bs ≢ none
      → OnSome (λ b. (rest : List Block) → find_block a (f b ++ rest) ≡ some c) (find_block a bs)
      → find_block a (update a f bs) ≡ some c
  unfolding update find_block
  update-found [] present h = absurd (present refl)
  update-found (b ∷ bs) present h = elim (Bool-cases (b.address == a)) [
    | inl e ↦ rw e (found_here _ _ b _ e h bs)
    | inr e ↦
        rw e (rw e (update-found bs (λ q. present (rw (e, q) refl)) (found_later _ _ b _ e h)))
  ]

pub take_block-found :
    (size : ℕ) (b : Block)
    → (c : Block) × ((rest : List Block)
        → find_block b.address (take_block size b ++ rest) ≡ some c)
      × (c.address ≡ b.address)
      × (c.is_free ≡ false)
      × ((size ≤ b.size) → size ≤ c.size)
unfolding take_block find_block
take_block-found size b =
    elim (Bool-cases (leb (u64 (size + header_size + min_split_size)) b.size)) [
      | inl e ↦ rw e (
        record b { size = size; is_free = false },
        (λ rest. ground arith),
        refl,
        refl,
        λ _. omega arith,
      )
      | inr e ↦ rw e (record b { is_free = false }, (λ rest. ground arith), refl, refl, λ h. h)
    ]
