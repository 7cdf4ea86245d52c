-- ===== src/Avl/Shape.antt =====
-- The four rotations of datatype/avl.c, read off as the shapes that `rebalance` can return, each
-- with the heights at which it does.
use cuore_os.Base.{
  ℕ, ◌+◌, ◌≤◌, ◌<◌, Bool-cases, inl, inr, arith, dec_lt, ltb, ltb→lt, lt→ltb, le→not_ltb,
  not_ltb→le, ltb-zero,
}
use cuore_os.Avl.{Tree, leaf, node, Callbacks, height, run_update, update_node, rebalance}

module _ {ℓ} {A : Type ℓ} (cb : Callbacks A) where
  -- `Shape l a r t`: the node of `a` over `l` and `r` is turned into `t`.
  pub data Shape : Tree A → A → Tree A → Tree A → Type ℓ where
    level :
        {l r : Tree A} {a : A}
        → height l ≤ height r + 1
        → height r ≤ height l + 1
        → Shape l a r (update_node cb l a r)
    right_once :
        {x c r : Tree A} {a b : A} {k : ℕ}
        → height r + 1 < k
        → height c ≤ height x
        → Shape
            (node x b k c)
            a
            r
            (update_node cb x b (update_node cb c (run_update cb (node x b k c) a r) r))
    right_twice :
        {x p q r : Tree A} {a b c : A} {j k : ℕ}
        → height r + 1 < k
        → height x < j
        → Shape (node x b k (node p c j q)) a r (
            update_node cb
              (update_node cb x b p)
              (run_update cb (update_node cb x b p) c q)
              (update_node cb q (run_update cb (node x b k (node p c j q)) a r) r))
    left_once :
        {l c x : Tree A} {a b : A} {k : ℕ}
        → height l + 1 < k
        → height c ≤ height x
        → Shape l a
            (node c b k x)
            (update_node cb (update_node cb l (run_update cb l a (node c b k x)) c) b x)
    left_twice :
        {l p q x : Tree A} {a b c : A} {j k : ℕ}
        → height l + 1 < k
        → height x < j
        → Shape l a (node (node p c j q) b k x) (
            update_node cb
              (update_node cb l (run_update cb l a (node (node p c j q) b k x)) p)
              (run_update cb p c (update_node cb q b x))
              (update_node cb q b x))

  -- The left side is too high: its root exists, and so does its right child where that is higher.
  high_left :
      (x c r : Tree A) (a b : A) (k : ℕ)
      → height r + 1 < k
      → Shape (node x b k c) a r (rebalance cb (node x b k c) a r)
  unfolding rebalance
  high_left x leaf r a b k h = rw (lt→ltb _ _ h, ltb-zero (height x)) (right_once h (omega arith))
  high_left x (node p c j q) r a b k h = elim (Bool-cases (ltb (height x) j)) [
    | inl lower ↦ rw (lt→ltb _ _ h, lower) (right_twice h (ltb→lt _ _ lower))
    | inr higher ↦ rw (lt→ltb _ _ h, higher) (right_once h (not_ltb→le _ _ higher))
  ]

  high_right :
      (l c x : Tree A) (a b : A) (k : ℕ)
      → height l + 1 < k
      → Shape l a (node c b k x) (rebalance cb l a (node c b k x))
  unfolding rebalance
  high_right l leaf x a b k h =
      rw (le→not_ltb (k + 1) (height l) (omega arith), lt→ltb _ _ h, ltb-zero (height x))
        (left_once h (omega arith))
  high_right l (node p c j q) x a b k h = elim (Bool-cases (ltb (height x) j)) [
    | inl lower ↦
        rw (le→not_ltb (k + 1) (height l) (omega arith), lt→ltb _ _ h, lower)
          (left_twice h (ltb→lt _ _ lower))
    | inr higher ↦
        rw (le→not_ltb (k + 1) (height l) (omega arith), lt→ltb _ _ h, higher)
          (left_once h (not_ltb→le _ _ higher))
  ]

  even :
      (l r : Tree A) (a : A)
      → height l ≤ height r + 1
      → height r ≤ height l + 1
      → Shape l a r (rebalance cb l a r)
  unfolding rebalance
  even l r a p q = rw (le→not_ltb _ _ p, le→not_ltb _ _ q) (level p q)

  right_lower : (l r : Tree A) (a : A) → height r + 1 < height l → Shape l a r (rebalance cb l a r)
  unfolding height
  right_lower leaf r a h = absurd (omega arith)
  right_lower (node x b k c) r a h = high_left x c r a b k h

  left_lower : (l r : Tree A) (a : A) → height l + 1 < height r → Shape l a r (rebalance cb l a r)
  unfolding height
  left_lower l leaf a h = absurd (omega arith)
  left_lower l (node c b k x) a h = high_right l c x a b k h

  pub rebalance-Shape : (l r : Tree A) (a : A) → Shape l a r (rebalance cb l a r)
  rebalance-Shape l r a = elim (dec_lt (height r + 1) (height l)) [
    | yes h ↦ right_lower l r a h
    | no left_ok ↦ elim (dec_lt (height l + 1) (height r)) [
      | yes h ↦ left_lower l r a h
      | no right_ok ↦ even l r a (omega arith) (omega arith)
    ]
  ]
