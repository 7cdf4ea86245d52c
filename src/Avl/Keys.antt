-- ===== src/Avl/Keys.antt =====
-- The abstract view of the AVL tree: the list, in order, of what the callbacks leave alone.
use cuore_os.Base.{ℕ, ◌≡◌, List, [], ◌∷◌, ◌++◌, append_assoc, compare}
use cuore_os.Avl.{Tree, leaf, node, Callbacks, run_update, update_node, rebalance}
use cuore_os.Avl.Shape.{
  Shape, level, right_once, right_twice, left_once, left_twice, rebalance-Shape,
}

-- What a caller promises of its callbacks: `compare` goes by a number of the payload's view, and
-- `update` leaves the view as it is.
pub record IsKeyed {A V : Type 0} (cb : Callbacks A) (view : A → V) (key : V → ℕ) : Type 0 where
  pub compare_key : (a b : A) → cb.compare a b ≡ compare (key (view a)) (key (view b))
  pub view_kept : (l : Tree A) (a : A) (r : Tree A) → view (run_update cb l a r) ≡ view a

module _ {A V : Type 0} (view : A → V) where
  abbrev pub inorder : Tree A → List V
  inorder leaf = []
  inorder (node l a h r) = inorder l ++ view a ∷ inorder r

module _ {A V : Type 0} (cb : Callbacks A) (view : A → V) (key : V → ℕ)
    (keyed : IsKeyed cb view key) where
  pub inorder-update_node :
      (l : Tree A) (a : A) (r : Tree A)
      → inorder view (update_node cb l a r) ≡ inorder view l ++ view a ∷ inorder view r
  unfolding update_node
  inorder-update_node l a r = rw (keyed.view_kept l a r)

  inorder-Shape :
      {l : Tree A} {a : A} {r t : Tree A}
      → Shape cb l a r t
      → inorder view t ≡ inorder view l ++ view a ∷ inorder view r
  inorder-Shape (level p q) = inorder-update_node _ _ _
  inorder-Shape (right_once p q) = simp (inorder-update_node, keyed.view_kept, append_assoc)
  inorder-Shape (right_twice p q) = simp (inorder-update_node, keyed.view_kept, append_assoc)
  inorder-Shape (left_once p q) = simp (inorder-update_node, keyed.view_kept, append_assoc)
  inorder-Shape (left_twice p q) = simp (inorder-update_node, keyed.view_kept, append_assoc)

  -- Rotations keep the order.
  pub inorder-rebalance :
      (l : Tree A) (a : A) (r : Tree A)
      → inorder view (rebalance cb l a r) ≡ inorder view l ++ view a ∷ inorder view r
  inorder-rebalance l a r = inorder-Shape (rebalance-Shape cb l r a)
