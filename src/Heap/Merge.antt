-- ===== src/Heap/Merge.antt =====
-- `free` of mem/heap.c keeps the layout of the blocks and every other block in use.
use cuore_os.Base.{
  ℕ, ◌≡◌, ◌≢◌, refl, ◌∙◌, inl, inr, Bool, true, false, not, ◌&&◌, Option, some, List, [], ◌∷◌, ◌==◌,
  if◌then◌else◌, arith, All, All-zip, OnSome, Bool-cases, ==_iff,
}
use cuore_os.Heap.{Block, find_block}
use cuore_os.Heap.Free.{
  can_absorb, absorb, merge_next, merge_prev, set_free, free_behind, free_block,
}
use cuore_os.Heap.Layout.{block_end, IsApart, IsFollowed, IsTiled, found_here, found_later}

-- Behind a block that is not changed.
found_behind :
    (p x : Block) (o o' : Option Block) (test : Bool)
    → (o ≡ some x → o' ≡ some x)
    → (if test then some p else o) ≡ some x
    → (if test then some p else o') ≡ some x
found_behind p x o o' true f h = h
found_behind p x o o' false f h = f h

set_free-IsFollowed : (b : Block) (bs : List Block) → IsFollowed b bs → IsFollowed (set_free b) bs
unfolding set_free
set_free-IsFollowed b [] h = tt
set_free-IsFollowed b (c ∷ cs) h = h

absorb-IsFollowed :
    (b c : Block) (cs : List Block)
    → (b.is_pool ≡ false) × (c.address ≡ block_end b)
    → c.is_pool ≡ false
    → IsFollowed c cs
    → IsFollowed (absorb b c) cs
unfolding absorb
absorb-IsFollowed b c [] next np h = tt
absorb-IsFollowed b c (d ∷ ds) next np h = ground (arith, next, h)

module _ (a : ℕ) where
  -- The blocks `xs` cover what `ys` covered, and have every block of `ys` that is in use, but for the
  -- one at `a`.
  pub record IsCoarser (ys xs : List Block) : Type 0 where
    pub tiled : IsTiled ys → IsTiled xs
    pub apart : IsTiled ys → (p : Block) → All (IsApart p) ys → All (IsApart p) xs
    pub followed : (p : Block) → IsFollowed p ys → IsFollowed p xs
    pub kept :
        (x : Block)
        → x.is_free ≡ false
        → x.address ≢ a
        → find_block x.address ys ≡ some x
        → find_block x.address xs ≡ some x

  IsCoarser-refl : (ys : List Block) → IsCoarser ys ys
  IsCoarser-refl ys = record {
    tiled = λ t. t;
    apart = λ t p h. h;
    followed = λ p h. h;
    kept = λ x u n h. h;
  }

  IsCoarser-trans : {zs ys xs : List Block} → IsCoarser zs ys → IsCoarser ys xs → IsCoarser zs xs
  IsCoarser-trans f g = record {
    tiled = λ t. g.tiled (f.tiled t);
    apart = λ t p h. g.apart (f.tiled t) p (f.apart t p h);
    followed = λ p h. g.followed p (f.followed p h);
    kept = λ x u n h. g.kept x u n (f.kept x u n h);
  }

  rest-IsTiled : (p : Block) (ys : List Block) → IsTiled (p ∷ ys) → IsTiled ys
  rest-IsTiled p ys t = record { sound = t.sound.1; chained = t.chained.1; disjoint = t.disjoint.1 }

  IsCoarser-cons : (p : Block) {ys xs : List Block} → IsCoarser ys xs → IsCoarser (p ∷ ys) (p ∷ xs)
  unfolding find_block
  IsCoarser-cons p {ys} {xs} f = record {
    tiled = λ t. record {
      sound = (t.sound.0, (f.tiled (rest-IsTiled p ys t)).sound);
      chained = (f.followed p t.chained.0, (f.tiled (rest-IsTiled p ys t)).chained);
      disjoint =
          (f.apart (rest-IsTiled p ys t) p t.disjoint.0, (f.tiled (rest-IsTiled p ys t)).disjoint);
    };
    apart = λ t q h. (h.0, f.apart (rest-IsTiled p ys t) q h.1);
    followed = λ q h. h;
    kept = λ x u n h. found_behind p x _ _ (p.address == x.address) (f.kept x u n) h;
  }

  set_free-IsCoarser :
      (b : Block) (bs : List Block) → b.address ≡ a → IsCoarser (b ∷ bs) (set_free b ∷ bs)
  unfolding find_block set_free
  set_free-IsCoarser b bs e = record {
    tiled = λ t. record {
      sound = t.sound;
      chained = (set_free-IsFollowed b bs t.chained.0, t.chained.1);
      disjoint = t.disjoint;
    };
    apart = λ t q h. h;
    followed = λ q h. h;
    kept = λ x u n h. ground (arith, h, n, e);
  }

  absorb-IsCoarser :
      (b c : Block) (cs : List Block)
      → b.is_free ≡ true
      → c.is_free ≡ true
      → c.is_pool ≡ false
      → c.is_boundary ≡ false
      → IsCoarser (b ∷ c ∷ cs) (absorb b c ∷ cs)
  unfolding find_block absorb
  absorb-IsCoarser b c cs fb fc np nb = record {
    tiled = λ t. record {
      sound = ((t.sound.0.0, ground (arith, t.sound.1.0, next t)), t.sound.1.1);
      chained = (absorb-IsFollowed b c cs (next t) np t.chained.1.0, t.chained.1.1);
      disjoint = (
        All-zip (IsApart b) (IsApart c) (IsApart (absorb b c)) cs
            (λ x h k. ground (arith, h, k, next t)) t.disjoint.0.1 t.disjoint.1.0,
        t.disjoint.1.1,
      );
    };
    apart = λ t q h. (ground (arith, h.0, h.1.0, next t), h.1.1);
    followed = λ q h. h;
    kept = λ x u n h. ground (arith, h, u, fb, fc);
  }
    where
      next : IsTiled (b ∷ c ∷ cs) → (b.is_pool ≡ false) × (c.address ≡ block_end b)
      next t = ground (arith, t.chained.0, np, nb)

  merge_prev-IsCoarser :
      (last_fit : Option ℕ) (p b : Block) (rest : List Block)
      → b.is_free ≡ true
      → b.is_pool ≡ false
      → IsCoarser (p ∷ b ∷ rest) (merge_prev last_fit p b rest).1
  unfolding merge_prev
  merge_prev-IsCoarser last_fit p b rest f np =
      elim (Bool-cases (p.is_free && (not p.is_pool && not b.is_boundary))) [
        | inl e ↦ rw e (absorb-IsCoarser p b rest (ground (arith, e)) f np (ground (arith, e)))
        | inr e ↦ rw e (IsCoarser-refl _)
      ]

  module _ (last_fit : Option ℕ) where
    merge_next-IsCoarser :
        (b : Block) (bs : List Block)
        → b.is_free ≡ true
        → IsCoarser (b ∷ bs) ((merge_next last_fit b bs).1 ∷ (merge_next last_fit b bs).2)
    unfolding merge_next can_absorb
    merge_next-IsCoarser b [] f = IsCoarser-refl _
    merge_next-IsCoarser b (c ∷ cs) f = elim (Bool-cases (can_absorb c)) [
      | inl e ↦
          rw e
            (absorb-IsCoarser b c cs f (ground (arith, e)) (ground (arith, e)) (ground (arith, e)))
      | inr e ↦ rw e (IsCoarser-refl _)
    ]

    -- What `merge_next` leaves of the flags of the block.
    merge_next-flags :
        (b : Block) (bs : List Block)
        → ((merge_next last_fit b bs).1.is_free ≡ b.is_free)
          × ((merge_next last_fit b bs).1.is_pool ≡ b.is_pool)
    unfolding merge_next absorb
    merge_next-flags b [] = (refl, refl)
    merge_next-flags b (c ∷ cs) = elim (Bool-cases (can_absorb c)) [
      | inl e ↦ rw e (refl, refl)
      | inr e ↦ rw e (refl, refl)
    ]

    freed :
        (b : Block) (bs : List Block)
        → b.address ≡ a
        → IsCoarser
            (b ∷ bs)
            ((merge_next last_fit (set_free b) bs).1 ∷ (merge_next last_fit (set_free b) bs).2)
    unfolding set_free
    freed b bs e =
        IsCoarser-trans (set_free-IsCoarser b bs e) (merge_next-IsCoarser (set_free b) bs refl)

    free_behind-IsCoarser :
        (p : Block) (bs : List Block)
        → OnSome (λ b. b.is_pool ≡ false) (find_block a bs)
        → IsCoarser (p ∷ bs) (free_behind p a last_fit bs).1
    unfolding free_behind find_block set_free
    free_behind-IsCoarser p [] np = IsCoarser-refl _
    free_behind-IsCoarser p (b ∷ bs) np = elim (Bool-cases (b.address == a)) [
      | inl e ↦ rw e (
          IsCoarser-trans (IsCoarser-cons p (freed b bs ((==_iff _ _).0 e))) (
            merge_prev-IsCoarser _ p _ _ (merge_next-flags (set_free b) bs).0
              ((merge_next-flags (set_free b) bs).1 ∙ found_here _ _ b _ e np)))
      | inr e ↦ rw e (IsCoarser-cons p (free_behind-IsCoarser b bs (found_later _ _ b _ e np)))
    ]

    -- `free` of a block that is no page of slots, with its merging forward and backward, keeps
    -- the blocks tiling their areas and disjoint, and keeps every block in use but the one at the
    -- freed address.
    pub free_block-IsCoarser :
        (bs : List Block)
        → OnSome (λ b. b.is_pool ≡ false) (find_block a bs)
        → IsCoarser bs (free_block a last_fit bs).1
    unfolding free_block find_block
    free_block-IsCoarser [] np = IsCoarser-refl _
    free_block-IsCoarser (b ∷ bs) np = elim (Bool-cases (b.address == a)) [
      | inl e ↦ rw e (freed b bs ((==_iff _ _).0 e))
      | inr e ↦ rw e (free_behind-IsCoarser b bs (found_later _ _ b _ e np))
    ]
