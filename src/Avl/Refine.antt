-- ===== src/Avl/Refine.antt =====
-- `avl_insert`, `avl_delete` and `avl_find` against the sorted list that the tree stands for.
use mathlib.Core.Option
use cuore_os.Base.{
  ℕ, ◌<◌, ◌≡◌, refl, sym, ap, ◌∙◌, ◌∷◌, ◌++◌, append-nil, Ordering, Ordering-cases, less, same,
  more, compare-lt, compare-eq, compare-gt, IsSorted, insert_by, insert_by-left, insert_by-right,
  insert_by-same, erase_by, erase_by-left, erase_by-right, erase_by-same, find_by, find_by-left,
  find_by-right, find_by-same, IsSorted-left, IsSorted-right, IsSorted-below,
}
use cuore_os.Avl.{Tree, leaf, node, Callbacks, insert, unlink_leftmost, delete_root, delete, find}
use cuore_os.Avl.Keys.{IsKeyed, inorder, inorder-update_node, inorder-rebalance}

module _ {A V : Type 0} (cb : Callbacks A) (view : A → V) (key : V → ℕ)
    (keyed : IsKeyed cb view key) where
  -- What the sortedness of a node's list says of its parts, and what a comparison says of the keys.
  left-IsSorted :
      (l : Tree A) (b : A) (h : ℕ) (r : Tree A)
      → IsSorted key (inorder view (node l b h r))
      → IsSorted key (inorder view l)
  left-IsSorted l b h r s = IsSorted-left key (inorder view l) _ s

  right-IsSorted :
      (l : Tree A) (b : A) (h : ℕ) (r : Tree A)
      → IsSorted key (inorder view (node l b h r))
      → IsSorted key (inorder view r)
  right-IsSorted l b h r s = (IsSorted-right key (inorder view l) _ s).1

  lt_of_compare : (a b : A) → cb.compare a b ≡ Ordering.lt → key (view a) < key (view b)
  lt_of_compare a b e = compare-lt _ _ (sym (keyed.compare_key a b) ∙ e)

  eq_of_compare : (a b : A) → cb.compare a b ≡ Ordering.eq → key (view a) ≡ key (view b)
  eq_of_compare a b e = compare-eq _ _ (sym (keyed.compare_key a b) ∙ e)

  gt_of_compare : (a b : A) → cb.compare a b ≡ Ordering.gt → key (view b) < key (view a)
  gt_of_compare a b e = compare-gt _ _ (sym (keyed.compare_key a b) ∙ e)

  -- For callbacks that compare by a key and an update that keeps the view, `avl_insert` into a
  -- tree whose list is sorted is insertion into that sorted list, where an element whose key is
  -- there already is not added.
  pub inorder-insert :
      (t : Tree A) (a : A)
      → IsSorted key (inorder view t)
      → inorder view (insert cb t a) ≡ insert_by key (view a) (inorder view t)
  unfolding insert
  inorder-insert leaf a s = inorder-update_node cb view key keyed leaf a leaf
  inorder-insert (node l b h r) a s = elim (Ordering-cases (cb.compare a b)) [
    | less e ↦ rw (
      e,
      insert,
      inorder-rebalance cb view key keyed,
      inorder-insert l a (left-IsSorted l b h r s),
      insert_by-left key (view a) (view b) (inorder view l) (inorder view r) (lt_of_compare a b e),
    )
    | same e ↦ rw (
      e,
      insert,
      insert_by-same key (view a) (view b) (inorder view l) (inorder view r)
          (IsSorted-below key (inorder view l) (view b) _ s) (eq_of_compare a b e),
    )
    | more e ↦ rw (
      e,
      insert,
      inorder-rebalance cb view key keyed,
      inorder-insert r a (right-IsSorted l b h r s),
      insert_by-right key (view a) (view b) (inorder view l) (inorder view r)
          (IsSorted-below key (inorder view l) (view b) _ s) (gt_of_compare a b e),
    )
  ]

  inorder-unlink_leftmost :
      (l : Tree A) (a : A) (r : Tree A)
      → view (unlink_leftmost cb l a r).0 ∷ inorder view (unlink_leftmost cb l a r).1
        ≡ inorder view l ++ view a ∷ inorder view r
  unfolding unlink_leftmost
  inorder-unlink_leftmost leaf a r = refl
  inorder-unlink_leftmost (node ll b h lr) a r =
      rw (inorder-rebalance cb view key keyed)
        (ap (λ xs. xs ++ view a ∷ inorder view r) (inorder-unlink_leftmost ll b lr))

  inorder-delete_root :
      (l r : Tree A) → inorder view (delete_root cb l r) ≡ inorder view l ++ inorder view r
  unfolding delete_root
  inorder-delete_root leaf r = refl
  inorder-delete_root (node ll b h lr) leaf = sym (append-nil _)
  inorder-delete_root (node ll b h lr) (node rl c k rr) =
      rw (inorder-rebalance cb view key keyed)
        (ap (λ xs. inorder view (node ll b h lr) ++ xs) (inorder-unlink_leftmost rl c rr))

  -- For callbacks that compare by a key and an update that keeps the view, `avl_delete` from a
  -- tree whose list is sorted removes from that list the element with the key's value, and
  -- nothing if there is none.
  pub inorder-delete :
      (t : Tree A) (a : A)
      → IsSorted key (inorder view t)
      → inorder view (delete cb t a).0 ≡ erase_by key (key (view a)) (inorder view t)
  unfolding delete
  inorder-delete leaf a s = refl
  inorder-delete (node l b h r) a s = elim (Ordering-cases (cb.compare a b)) [
    | less e ↦ rw (
      e,
      delete,
      inorder-rebalance cb view key keyed,
      inorder-delete l a (left-IsSorted l b h r s),
      erase_by-left key (key (view a)) (view b) (inorder view l) (inorder view r)
          (lt_of_compare a b e),
    )
    | same e ↦ rw (
      e,
      delete,
      inorder-delete_root l r,
      erase_by-same key (key (view a)) (view b) (inorder view l) (inorder view r)
          (IsSorted-below key (inorder view l) (view b) _ s) (eq_of_compare a b e),
    )
    | more e ↦ rw (
      e,
      delete,
      inorder-rebalance cb view key keyed,
      inorder-delete r a (right-IsSorted l b h r s),
      erase_by-right key (key (view a)) (view b) (inorder view l) (inorder view r)
          (IsSorted-below key (inorder view l) (view b) _ s) (gt_of_compare a b e),
    )
  ]

  -- For callbacks that compare by a key and an update that keeps the view, `avl_find` in a tree
  -- whose list is sorted yields what a search of that list by the key yields, and NULL exactly
  -- where that finds nothing.
  pub find-inorder :
      (t : Tree A) (a : A)
      → IsSorted key (inorder view t)
      → Option.map view (find cb t a) ≡ find_by key (key (view a)) (inorder view t)
  unfolding find
  find-inorder leaf a s = refl
  find-inorder (node l b h r) a s = elim (Ordering-cases (cb.compare a b)) [
    | less e ↦
        rw
          (
            e,
            find,
            find_by-left key (key (view a)) (view b) (inorder view l) (inorder view r)
                (lt_of_compare a b e),
          )
          (find-inorder l a (left-IsSorted l b h r s))
    | same e ↦ rw (
      e,
      find,
      find_by-same key (key (view a)) (view b) (inorder view l) (inorder view r)
          (IsSorted-below key (inorder view l) (view b) _ s) (eq_of_compare a b e),
    )
    | more e ↦
        rw
          (
            e,
            find,
            find_by-right key (key (view a)) (view b) (inorder view l) (inorder view r)
                (IsSorted-below key (inorder view l) (view b) _ s) (gt_of_compare a b e),
          )
          (find-inorder r a (right-IsSorted l b h r s))
  ]

  -- What `avl_delete` hands back is what `avl_find` finds.
  pub delete-find : (t : Tree A) (a : A) → (delete cb t a).1 ≡ find cb t a
  unfolding delete find
  delete-find leaf a = refl
  delete-find (node l b h r) a = elim (Ordering-cases (cb.compare a b)) [
    | less e ↦ rw (e, delete, find) (delete-find l a)
    | same e ↦ rw (e, delete, find)
    | more e ↦ rw (e, delete, find) (delete-find r a)
  ]
