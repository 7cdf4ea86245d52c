-- ===== src/Avl/Balance.antt =====
-- The height invariant of the AVL tree.
use cuore_os.Base.{ℕ, ◌+◌, ◌≤◌, ◌≡◌, max, arith, ◌⊎◌, inl, inr, Ordering-cases, less, same, more}
use cuore_os.Avl.{
  Tree, leaf, node, Callbacks, height, new_height, run_update, update_node, rebalance, insert,
  unlink_leftmost, delete_root, delete,
}
use cuore_os.Avl.Shape.{
  Shape, level, right_once, right_twice, left_once, left_twice, rebalance-Shape,
}

module _ {ℓ} {A : Type ℓ} where
  -- Every stored height is right, and the heights of two siblings differ by at most one.
  abbrev pub IsBalanced : Tree A → Type 0
  IsBalanced leaf = Unit
  IsBalanced (node l a h r) =
      IsBalanced l
      × IsBalanced r
      × (h ≡ 1 + max (height l) (height r))
      × (height l ≤ height r + 1)
      × (height r ≤ height l + 1)

  pub new_height-max : (l r : Tree A) → new_height l r ≡ 1 + max (height l) (height r)
  unfolding new_height
  new_height-max l r = ground arith

module _ {ℓ} {A : Type ℓ} (cb : Callbacks A) where
  -- What `rebalance` makes of two balanced trees whose heights differ by at most two.
  abbrev Leveled : Tree A → Tree A → Tree A → Type 0
  Leveled l r t =
      IsBalanced t
      × (height t ≤ 1 + max (height l) (height r))
      × (max (height l) (height r) ≤ height t)
      × ((height t ≡ 1 + max (height l) (height r))
          ⊎ ((height l ≡ height r + 2) ⊎ (height r ≡ height l + 2)))

  join :
      (l r : Tree A) (a : A)
      → IsBalanced l
      → IsBalanced r
      → height l ≤ height r + 1
      → height r ≤ height l + 1
      → IsBalanced (update_node cb l a r)
        × (height (update_node cb l a r) ≡ 1 + max (height l) (height r))
  unfolding update_node height
  join l r a bl br p q = ((bl, br, new_height-max l r, p, q), new_height-max l r)

  Shape-Leveled :
      {l r : Tree A} {a : A} {t : Tree A}
      → Shape cb l a r t
      → IsBalanced l
      → IsBalanced r
      → height l ≤ height r + 2
      → height r ≤ height l + 2
      → Leveled l r t
  unfolding height
  Shape-Leveled (level {l} {r} {a} p q) bl br h k =
      let t = join l r a bl br p q in (t.0, omega (arith, t.1), omega (arith, t.1), inl t.1)
  Shape-Leveled (right_once {x} {c} {r} {a} {b} {k = k'} p q) bl br h k =
      let u = join c r (run_update cb (node x b k' c) a r) bl.1 br (omega arith) (omega arith) in
      let t = join x (update_node cb c _ r) b bl.0 u.0 (omega (arith, u.1)) (omega (arith, u.1)) in
      (t.0, omega (arith, t.1, u.1), omega (arith, t.1, u.1), inr (inl (omega arith)))
  Shape-Leveled (right_twice {x} {p} {q} {r} {a} {b} {c} {j} {k = k'} f g) bl br h k =
      let u = join x p b bl.0 bl.1.0 (omega arith) (omega arith) in
      let v =
        join q r (run_update cb (node x b k' (node p c j q)) a r) bl.1.1 br (omega arith)
          (omega arith) in
      let t =
        join (update_node cb x b p) (update_node cb q _ r)
          (run_update cb (update_node cb x b p) c q) u.0 v.0 (omega (arith, u.1, v.1))
          (omega (arith, u.1, v.1)) in
      (t.0, omega (arith, t.1, u.1, v.1), omega (arith, t.1, u.1, v.1), inr (inl (omega arith)))
  Shape-Leveled (left_once {l} {c} {x} {a} {b} {k = k'} p q) bl br h k =
      let u = join l c (run_update cb l a (node c b k' x)) bl br.0 (omega arith) (omega arith) in
      let t = join (update_node cb l _ c) x b u.0 br.1 (omega (arith, u.1)) (omega (arith, u.1)) in
      (t.0, omega (arith, t.1, u.1), omega (arith, t.1, u.1), inr (inr (omega arith)))
  Shape-Leveled (left_twice {l} {p} {q} {x} {a} {b} {c} {j} {k = k'} f g) bl br h k =
      let u = join q x b br.0.1 br.1 (omega arith) (omega arith) in
      let v =
        join l p (run_update cb l a (node (node p c j q) b k' x)) bl br.0.0 (omega arith)
          (omega arith) in
      let t =
        join (update_node cb l _ p) (update_node cb q b x)
          (run_update cb p c (update_node cb q b x)) v.0 u.0 (omega (arith, u.1, v.1))
          (omega (arith, u.1, v.1)) in
      (t.0, omega (arith, t.1, u.1, v.1), omega (arith, t.1, u.1, v.1), inr (inr (omega arith)))

  pub rebalance-Leveled :
      (l r : Tree A) (a : A)
      → IsBalanced l
      → IsBalanced r
      → height l ≤ height r + 2
      → height r ≤ height l + 2
      → Leveled l r (rebalance cb l a r)
  rebalance-Leveled l r a = Shape-Leveled (rebalance-Shape cb l r a)

  -- `avl_insert` keeps the stored heights right and the heights of siblings within one of each
  -- other, and the height of the tree does not fall and rises by one at most.
  pub insert-IsBalanced :
      (t : Tree A) (a : A)
      → IsBalanced t
      → IsBalanced (insert cb t a)
        × (height t ≤ height (insert cb t a))
        × (height (insert cb t a) ≤ height t + 1)
  unfolding insert height
  insert-IsBalanced leaf a bt =
      let t = join leaf leaf a tt tt (omega arith) (omega arith) in
      (t.0, omega (arith, t.1), omega (arith, t.1))
  insert-IsBalanced (node l b h r) a bt = elim (Ordering-cases (cb.compare a b)) [
    | less e ↦
        let l' = insert-IsBalanced l a bt.0 in
        let t =
          rebalance-Leveled (insert cb l a) r b l'.0 bt.1 (omega (arith, l')) (omega (arith, l')) in
        rw (e, insert) (t.0, omega (arith, t, l'), omega (arith, t, l'))
    | same e ↦ rw (e, insert) (bt, omega arith, omega arith)
    | more e ↦
        let r' = insert-IsBalanced r a bt.1 in
        let t =
          rebalance-Leveled l (insert cb r a) b bt.0 r'.0 (omega (arith, r')) (omega (arith, r')) in
        rw (e, insert) (t.0, omega (arith, t, r'), omega (arith, t, r'))
  ]

  unlink_leftmost-IsBalanced :
      (l : Tree A) (a : A) (h : ℕ) (r : Tree A)
      → IsBalanced (node l a h r)
      → IsBalanced (unlink_leftmost cb l a r).1
        × (height (unlink_leftmost cb l a r).1 ≤ h)
        × (h ≤ height (unlink_leftmost cb l a r).1 + 1)
  unfolding unlink_leftmost height
  unlink_leftmost-IsBalanced leaf a h r bt = (bt.1, omega arith, omega arith)
  unlink_leftmost-IsBalanced (node ll b k lr) a h r bt =
      let rest = unlink_leftmost-IsBalanced ll b k lr bt.0 in
      let t =
        rebalance-Leveled (unlink_leftmost cb ll b lr).1 r a rest.0 bt.1 (omega (arith, rest.1))
          (omega (arith, rest.1)) in
      (t.0, omega (arith, t, rest), omega (arith, t, rest))

  delete_root-IsBalanced :
      (l r : Tree A) (a : A) (h : ℕ)
      → IsBalanced (node l a h r)
      → IsBalanced (delete_root cb l r)
        × (height (delete_root cb l r) ≤ h)
        × (h ≤ height (delete_root cb l r) + 1)
  unfolding delete_root height
  delete_root-IsBalanced leaf r a h bt = (bt.1, omega arith, omega arith)
  delete_root-IsBalanced (node ll b k lr) leaf a h bt = (bt.0, omega arith, omega arith)
  delete_root-IsBalanced (node ll b k lr) (node rl c j rr) a h bt =
      let rest = unlink_leftmost-IsBalanced rl c j rr bt.1 in
      let out = unlink_leftmost cb rl c rr in
      let t =
        rebalance-Leveled (node ll b k lr) out.1 out.0 bt.0 rest.0 (omega (arith, rest.1))
          (omega (arith, rest.1)) in
      (t.0, omega (arith, t, rest), omega (arith, t, rest))

  -- `avl_delete` keeps the stored heights right and the heights of siblings within one of each
  -- other, and the height of the tree does not rise and falls by one at most.
  pub delete-IsBalanced :
      (t : Tree A) (key : A)
      → IsBalanced t
      → IsBalanced (delete cb t key).0
        × (height (delete cb t key).0 ≤ height t)
        × (height t ≤ height (delete cb t key).0 + 1)
  unfolding delete height
  delete-IsBalanced leaf key bt = (tt, omega arith, omega arith)
  delete-IsBalanced (node l b h r) key bt = elim (Ordering-cases (cb.compare key b)) [
    | less e ↦
        let l' = delete-IsBalanced l key bt.0 in
        let t =
          rebalance-Leveled (delete cb l key).0 r b l'.0 bt.1 (omega (arith, l'))
            (omega (arith, l')) in
        rw (e, delete) (t.0, omega (arith, t, l'), omega (arith, t, l'))
    | same e ↦ rw (e, delete) (delete_root-IsBalanced l r b h bt)
    | more e ↦
        let r' = delete-IsBalanced r key bt.1 in
        let t =
          rebalance-Leveled l (delete cb r key).0 b bt.0 r'.0 (omega (arith, r'))
            (omega (arith, r')) in
        rw (e, delete) (t.0, omega (arith, t, r'), omega (arith, t, r'))
  ]
