-- ===== src/Heap/Layout.antt =====
-- How the blocks of the heap lie in memory, and that a change of one block in place keeps it so.
use cuore_os.Base.{
  ℕ, ◌+◌, ◌^◌, ◌≤◌, ◌<◌, ◌≡◌, ◌⊎◌, inl, inr, Bool, true, false, Option, some, List, [], ◌∷◌, ◌++◌,
  ◌==◌, if◌then◌else◌, arith, All, All-map, All-append, OnSome, Bool-cases,
}
use cuore_os.Heap.{Block, header_size, heap_magic, update, find_block}

abbrev pub block_end : Block → ℕ
block_end b = b.address + header_size + b.size

-- The last bytes of the address space, 64 of them here, lie behind the end of the pool of pages.
abbrev pub IsSound : Block → Type 0
IsSound b = (b.magic ≡ heap_magic) × (block_end b + 64 < 2 ^ 64)

abbrev pub IsApart : Block → Block → Type 0
IsApart b c = (block_end b ≤ c.address) ⊎ (block_end c ≤ b.address)

-- What `c` may be behind `b`: the first block of an area, a page of slots, or what lies behind `b`
-- in memory, where `b` is no page of slots.
abbrev pub IsNext : Block → Block → Type 0
IsNext b c =
    (c.is_pool ≡ true)
    ⊎ ((c.is_boundary ≡ true) ⊎ ((b.is_pool ≡ false) × (c.address ≡ block_end b)))

abbrev pub IsFollowed : Block → List Block → Type 0
IsFollowed b [] = Unit
IsFollowed b (c ∷ cs) = IsNext b c

abbrev pub IsChained : List Block → Type 0
IsChained [] = Unit
IsChained (b ∷ bs) = IsFollowed b bs × IsChained bs

abbrev pub IsDisjoint : List Block → Type 0
IsDisjoint [] = Unit
IsDisjoint (b ∷ bs) = All (IsApart b) bs × IsDisjoint bs

pub record IsTiled (bs : List Block) : Type 0 where
  pub sound : All IsSound bs
  pub chained : IsChained bs
  pub disjoint : IsDisjoint bs

-- A block replaced by one or two that fill it.
pub data IsRefined (b : Block) : List Block → Type 0 where
  one :
      (c : Block)
      → (c.magic ≡ b.magic)
        × (c.address ≡ b.address)
        × (c.size ≡ b.size)
        × (c.is_pool ≡ b.is_pool)
        × (c.is_boundary ≡ b.is_boundary)
      → IsRefined b (c ∷ [])
  two :
      (c d : Block)
      → (c.magic ≡ b.magic)
        × (c.address ≡ b.address)
        × (c.is_pool ≡ false)
        × (b.is_pool ≡ false)
        × (c.is_boundary ≡ b.is_boundary)
      → (d.magic ≡ heap_magic)
        × (d.address ≡ block_end c)
        × (block_end d ≡ block_end b)
        × (d.is_pool ≡ false)
      → IsRefined b (c ∷ d ∷ [])

-- Two blocks that are apart have two addresses.
pub IsApart-address : (b c : Block) → IsApart b c → (b.address == c.address) ≡ false
IsApart-address b c h = ground arith

IsRefined-IsSound : (b : Block) {cs : List Block} → IsRefined b cs → IsSound b → All IsSound cs
IsRefined-IsSound b (one c e) s = ground arith
IsRefined-IsSound b (two c d e f) s = ground arith

IsRefined-IsApart :
    (b : Block) {cs : List Block} → IsRefined b cs → (x : Block) → IsApart x b → All (IsApart x) cs
IsRefined-IsApart b (one c e) x s = ground arith
IsRefined-IsApart b (two c d e f) x s = ground arith

IsRefined-IsFollowed :
    (b : Block) {cs : List Block}
    → IsRefined b cs
    → (x : Block) (bs : List Block) → IsNext x b
    → IsFollowed x (cs ++ bs)
IsRefined-IsFollowed b (one c e) x bs s = ground arith
IsRefined-IsFollowed b (two c d e f) x bs s = ground arith

IsRefined-IsChained :
    (b : Block) {cs : List Block}
    → IsRefined b cs
    → (bs : List Block) → IsFollowed b bs
    → IsChained bs
    → IsChained (cs ++ bs)
IsRefined-IsChained b (one c e) [] s t = (tt, tt)
IsRefined-IsChained b (one c e) (x ∷ bs) s t = (ground arith, t)
IsRefined-IsChained b (two c d e f) [] s t = (ground arith, (tt, tt))
IsRefined-IsChained b (two c d e f) (x ∷ bs) s t = (ground arith, (ground arith, t))

IsRefined-IsDisjoint :
    (b : Block) {cs : List Block}
    → IsRefined b cs
    → (bs : List Block) → All (IsApart b) bs
    → IsDisjoint bs
    → IsDisjoint (cs ++ bs)
IsRefined-IsDisjoint b (one c e) bs s t =
    (All-map (IsApart b) (IsApart c) bs (λ x h. ground arith) s, t)
IsRefined-IsDisjoint b (two c d e f) bs s t = (
  (inl (omega (arith, f)), All-map (IsApart b) (IsApart c) bs (λ x h. ground arith) s),
  (All-map (IsApart b) (IsApart d) bs (λ x h. ground arith) s, t),
)

-- What holds of the result of a search holds of the head, where the test succeeds, and of what the
-- rest yields, where it fails.
pub found_here :
    (P : Block → Type 0) (test : Bool) (b : Block) (o : Option Block)
    → test ≡ true
    → OnSome P (if test then some b else o)
    → P b
found_here P true b o e r = r
found_here P false b o e r = ground arith

pub found_later :
    (P : Block → Type 0) (test : Bool) (b : Block) (o : Option Block)
    → test ≡ false
    → OnSome P (if test then some b else o)
    → OnSome P o
found_later P true b o e r = ground arith
found_later P false b o e r = r

module _ (a : ℕ) (f : Block → List Block) where
  pub update-All :
      (P : Block → Type 0)
      → ((b : Block) → IsRefined b (f b) → P b → All P (f b))
      → (bs : List Block) → OnSome (λ b. IsRefined b (f b)) (find_block a bs)
      → All P bs
      → All P (update a f bs)
  unfolding update find_block
  update-All P step [] r p = tt
  update-All P step (b ∷ bs) r p = elim (Bool-cases (b.address == a)) [
    | inl e ↦ rw e (All-append P (f b) bs (step b (found_here _ _ b _ e r) p.0) p.1)
    | inr e ↦ rw e (p.0, update-All P step bs (found_later _ _ b _ e r) p.1)
  ]

  update-IsFollowed :
      (x : Block) (bs : List Block)
      → OnSome (λ b. IsRefined b (f b)) (find_block a bs)
      → IsFollowed x bs
      → IsFollowed x (update a f bs)
  unfolding update find_block
  update-IsFollowed x [] r p = tt
  update-IsFollowed x (b ∷ bs) r p = elim (Bool-cases (b.address == a)) [
    | inl e ↦ rw e (IsRefined-IsFollowed b (found_here _ _ b _ e r) x bs p)
    | inr e ↦ rw e p
  ]

  update-IsChained :
      (bs : List Block)
      → OnSome (λ b. IsRefined b (f b)) (find_block a bs)
      → IsChained bs
      → IsChained (update a f bs)
  unfolding update find_block
  update-IsChained [] r p = tt
  update-IsChained (b ∷ bs) r p = elim (Bool-cases (b.address == a)) [
    | inl e ↦ rw e (IsRefined-IsChained b (found_here _ _ b _ e r) bs p.0 p.1)
    | inr e ↦ rw e (
      update-IsFollowed b bs (found_later _ _ b _ e r) p.0,
      update-IsChained bs (found_later _ _ b _ e r) p.1,
    )
  ]

  update-IsDisjoint :
      (bs : List Block)
      → OnSome (λ b. IsRefined b (f b)) (find_block a bs)
      → IsDisjoint bs
      → IsDisjoint (update a f bs)
  unfolding update find_block
  update-IsDisjoint [] r p = tt
  update-IsDisjoint (b ∷ bs) r p = elim (Bool-cases (b.address == a)) [
    | inl e ↦ rw e (IsRefined-IsDisjoint b (found_here _ _ b _ e r) bs p.0 p.1)
    | inr e ↦ rw e (
      update-All (IsApart b) (λ c q s. IsRefined-IsApart c q b s) bs (found_later _ _ b _ e r) p.0,
      update-IsDisjoint bs (found_later _ _ b _ e r) p.1,
    )
  ]

  pub update-IsTiled :
      (bs : List Block)
      → OnSome (λ b. IsRefined b (f b)) (find_block a bs)
      → IsTiled bs
      → IsTiled (update a f bs)
  update-IsTiled bs r t = record {
    sound = update-All IsSound (λ b q s. IsRefined-IsSound b q s) bs r t.sound;
    chained = update-IsChained bs r t.chained;
    disjoint = update-IsDisjoint bs r t.disjoint;
  }
