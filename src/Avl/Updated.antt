-- ===== src/Avl/Updated.antt =====
-- After any of its operations the tree is augmented as the `update` callback says: the payload of
-- each node was last written by `update` from the two children that the node has now.
use cuore_os.Base.{◌≡◌, refl, Ordering-cases, less, same, more}
use cuore_os.Avl.{
  Tree, leaf, node, Callbacks, run_update, update_node, rebalance, insert, unlink_leftmost,
  delete_root, delete,
}
use cuore_os.Avl.Shape.{
  Shape, level, right_once, right_twice, left_once, left_twice, rebalance-Shape,
}

module _ {A : Type 0} (cb : Callbacks A) where
  abbrev pub IsUpdated : Tree A → Type 0
  IsUpdated leaf = Unit
  IsUpdated (node l a h r) = IsUpdated l × IsUpdated r × ((b : A) × (a ≡ run_update cb l b r))

  update_node-IsUpdated :
      (l : Tree A) (a : A) (r : Tree A)
      → IsUpdated l
      → IsUpdated r
      → IsUpdated (update_node cb l a r)
  unfolding update_node
  update_node-IsUpdated l a r ul ur = (ul, ur, (a, refl))

  Shape-IsUpdated :
      {l : Tree A} {a : A} {r t : Tree A}
      → Shape cb l a r t
      → IsUpdated l
      → IsUpdated r
      → IsUpdated t
  Shape-IsUpdated (level {l} {r} {a} p q) ul ur = update_node-IsUpdated l a r ul ur
  Shape-IsUpdated (right_once p q) ul ur =
      update_node-IsUpdated _ _ _ ul.0 (update_node-IsUpdated _ _ _ ul.1 ur)
  Shape-IsUpdated (right_twice p q) ul ur =
      update_node-IsUpdated _ _ _ (update_node-IsUpdated _ _ _ ul.0 ul.1.0)
        (update_node-IsUpdated _ _ _ ul.1.1 ur)
  Shape-IsUpdated (left_once p q) ul ur =
      update_node-IsUpdated _ _ _ (update_node-IsUpdated _ _ _ ul ur.0) ur.1
  Shape-IsUpdated (left_twice p q) ul ur =
      update_node-IsUpdated _ _ _ (update_node-IsUpdated _ _ _ ul ur.0.0)
        (update_node-IsUpdated _ _ _ ur.0.1 ur.1)

  rebalance-IsUpdated :
      (l : Tree A) (a : A) (r : Tree A) → IsUpdated l → IsUpdated r → IsUpdated (rebalance cb l a r)
  rebalance-IsUpdated l a r = Shape-IsUpdated (rebalance-Shape cb l r a)

  pub insert-IsUpdated : (t : Tree A) (a : A) → IsUpdated t → IsUpdated (insert cb t a)
  unfolding insert
  insert-IsUpdated leaf a u = update_node-IsUpdated leaf a leaf tt tt
  insert-IsUpdated (node l b h r) a u = elim (Ordering-cases (cb.compare a b)) [
    | less e ↦
        rw (e, insert) (rebalance-IsUpdated (insert cb l a) b r (insert-IsUpdated l a u.0) u.1)
    | same e ↦ rw (e, insert) u
    | more e ↦
        rw (e, insert) (rebalance-IsUpdated l b (insert cb r a) u.0 (insert-IsUpdated r a u.1))
  ]

  unlink_leftmost-IsUpdated :
      (l : Tree A) (a : A) (r : Tree A)
      → IsUpdated l
      → IsUpdated r
      → IsUpdated (unlink_leftmost cb l a r).1
  unfolding unlink_leftmost
  unlink_leftmost-IsUpdated leaf a r ul ur = ur
  unlink_leftmost-IsUpdated (node ll b h lr) a r ul ur =
      rebalance-IsUpdated _ a r (unlink_leftmost-IsUpdated ll b lr ul.0 ul.1) ur

  delete_root-IsUpdated :
      (l r : Tree A) → IsUpdated l → IsUpdated r → IsUpdated (delete_root cb l r)
  unfolding delete_root
  delete_root-IsUpdated leaf r ul ur = ur
  delete_root-IsUpdated (node ll b h lr) leaf ul ur = ul
  delete_root-IsUpdated (node ll b h lr) (node rl c k rr) ul ur =
      rebalance-IsUpdated (node ll b h lr) _ _ ul (unlink_leftmost-IsUpdated rl c rr ur.0 ur.1)

  -- If the payload of each node was last written by the update callback from the node's two
  -- children, then so it is after `avl_delete`.
  pub delete-IsUpdated : (t : Tree A) (key : A) → IsUpdated t → IsUpdated (delete cb t key).0
  unfolding delete
  delete-IsUpdated leaf key u = tt
  delete-IsUpdated (node l b h r) key u = elim (Ordering-cases (cb.compare key b)) [
    | less e ↦ rw (e, delete) (rebalance-IsUpdated _ b r (delete-IsUpdated l key u.0) u.1)
    | same e ↦ rw (e, delete) (delete_root-IsUpdated l r u.0 u.1)
    | more e ↦ rw (e, delete) (rebalance-IsUpdated l b _ u.0 (delete-IsUpdated r key u.1))
  ]
