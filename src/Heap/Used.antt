-- ===== src/Heap/Used.antt =====
-- What a change of the heap keeps: the blocks that are in use.
use cuore_os.Base.{
  ℕ, ◌≡◌, refl, subst, ◌∙◌, ◌⊎◌, inl, inr, true, false, some, List, [], ◌∷◌, ◌++◌, ◌==◌, arith, All,
  All-zip, OnSome, Bool-cases,
}
use cuore_os.Heap.{Block, update, find_block}
use cuore_os.Heap.Layout.{
  IsApart, IsDisjoint, IsRefined, one, two, IsApart-address, found_here, found_later,
}

-- A block of the old list that is in use stands unchanged in the new one.
abbrev pub IsKept : List Block → Block → Type 0
IsKept new b = (b.is_free ≡ true) ⊎ (find_block b.address new ≡ some b)

pub find_block-later :
    (x b : Block) (bs : List Block)
    → IsApart b x
    → find_block x.address (b ∷ bs) ≡ find_block x.address bs
unfolding find_block
find_block-later x b bs h = rw (IsApart-address b x h) refl

-- In disjoint blocks each one is found at its address.
pub IsDisjoint-found :
    (bs : List Block) → IsDisjoint bs → All (λ x. find_block x.address bs ≡ some x) bs
unfolding find_block
IsDisjoint-found [] d = tt
IsDisjoint-found (b ∷ bs) d = (
  ground arith,
  All-zip (IsApart b) (λ x. find_block x.address bs ≡ some x)
      (λ x. find_block x.address (b ∷ bs) ≡ some x) bs (λ x h e. find_block-later x b bs h ∙ e) d.0
      (IsDisjoint-found bs d.1),
)

IsKept-later :
    (b : Block) (new : List Block) (x : Block) → IsApart b x → IsKept new x → IsKept (b ∷ new) x
IsKept-later b new x h (inl e) = inl e
IsKept-later b new x h (inr e) = inr (find_block-later x b new h ∙ e)

IsRefined-found :
    (b : Block) {cs : List Block}
    → IsRefined b cs
    → (bs : List Block) (x : Block) → IsApart b x
    → find_block x.address (cs ++ bs) ≡ find_block x.address bs
IsRefined-found b (one c e) bs x h = find_block-later x c bs (ground arith)
IsRefined-found b (two c d e f) bs x h =
    find_block-later x c (d ∷ bs) (ground arith) ∙ find_block-later x d bs (ground arith)

module _ (a : ℕ) (f : Block → List Block) where
  update-here :
      (b : Block) (bs : List Block) → (b.address == a) ≡ true → f b ++ bs ≡ update a f (b ∷ bs)
  unfolding update
  update-here b bs e = rw e refl

  update-later :
      (b : Block) (bs : List Block)
      → (b.address == a) ≡ false
      → b ∷ update a f bs ≡ update a f (b ∷ bs)
  unfolding update
  update-later b bs e = rw e refl

  -- A change of a free block in place keeps the blocks in use.
  pub update-IsKept :
      (bs : List Block)
      → IsDisjoint bs
      → OnSome (λ b. IsRefined b (f b)) (find_block a bs)
      → OnSome (λ b. b.is_free ≡ true) (find_block a bs)
      → All (IsKept (update a f bs)) bs
  unfolding find_block
  update-IsKept [] d r free = tt
  update-IsKept (b ∷ bs) d r free = elim (Bool-cases (b.address == a)) [
    | inl e ↦
        subst (λ new. All (IsKept new) (b ∷ bs)) (update-here b bs e)
          (
            inl (found_here _ _ b _ e free),
            All-zip (IsApart b) (λ x. find_block x.address bs ≡ some x) (IsKept (f b ++ bs)) bs
                (λ x h q. inr (IsRefined-found b (found_here _ _ b _ e r) bs x h ∙ q)) d.0
                (IsDisjoint-found bs d.1),
          )
    | inr e ↦
        subst (λ new. All (IsKept new) (b ∷ bs)) (update-later b bs e)
          (
            inr (ground arith),
            All-zip (IsApart b) (IsKept (update a f bs)) (IsKept (b ∷ update a f bs)) bs
                (IsKept-later b (update a f bs)) d.0
                (update-IsKept bs d.1 (found_later _ _ b _ e r) (found_later _ _ b _ e free)),
          )
  ]
