-- ===== src/Avl.antt =====
-- datatype/avl.c and datatype/avl.h: the intrusive AVL tree. A node carries the structure that
-- contains it (the payload `A`, what `GET_CONTAINER` yields) and the stored height; the links are
-- the subtrees, since the code never shares a node. The callbacks of the caller are a parameter.
pub mod Shape
pub mod Balance
pub mod Keys
pub mod Refine
pub mod Updated
mod Tests
use cuore_os.Base.{ℕ, ◌+◌, Bool, Option, none, some, Ordering, ltb, if◌then◌else◌}

pub data Tree {ℓ} (A : Type ℓ) : Type ℓ where
  leaf : Tree A
  node : Tree A → A → ℕ → Tree A → Tree A

-- `update` is NULL or recomputes the payload of a node from its two children; the negative, zero
-- and positive results of `compare` are an `Ordering`.
pub record Callbacks {ℓ} (A : Type ℓ) : Type ℓ where
  pub compare : A → A → Ordering
  pub update : Option (Tree A → A → Tree A → A)

module _ {ℓ} {A : Type ℓ} where
  -- AVL_GET_HEIGHT
  unfoldable pub height : Tree A → ℕ
  height leaf = 0
  height (node l a h r) = h

  -- AVL_GET_BALANCE is a signed difference of heights. These are its comparisons with 1, -1 and 0.
  unfoldable pub balance_above_one : Tree A → Bool
  unfolding height
  balance_above_one leaf = Bool.false
  balance_above_one (node l a h r) = ltb (height r + 1) (height l)

  unfoldable pub balance_below_minus_one : Tree A → Bool
  unfolding height
  balance_below_minus_one leaf = Bool.false
  balance_below_minus_one (node l a h r) = ltb (height l + 1) (height r)

  unfoldable pub balance_negative : Tree A → Bool
  unfolding height
  balance_negative leaf = Bool.false
  balance_negative (node l a h r) = ltb (height l) (height r)

  unfoldable pub balance_positive : Tree A → Bool
  unfolding height
  balance_positive leaf = Bool.false
  balance_positive (node l a h r) = ltb (height r) (height l)

  unfoldable pub run_update : Callbacks A → Tree A → A → Tree A → A
  run_update cb l a r = elim cb.update [ none ↦ a | some update ↦ update l a r ]

  unfoldable pub new_height : Tree A → Tree A → ℕ
  unfolding height
  new_height l r = 1 + (if ltb (height r) (height l) then height l else height r)

  -- `update_node(n, cb)` for a node with these children and this payload.
  unfoldable pub update_node : Callbacks A → Tree A → A → Tree A → Tree A
  unfolding run_update new_height
  update_node cb l a r = node l (run_update cb l a r) (new_height l r) r

  -- Where the child that moves up is NULL the code would fault. `rebalance` rotates only towards a
  -- lower side, so that its child is there (see Avl/Shape); here the node is then kept.
  unfoldable pub rotate_right : Callbacks A → Tree A → Tree A
  unfolding update_node
  rotate_right cb leaf = leaf
  rotate_right cb (node leaf b k c) = node leaf b k c
  rotate_right cb (node (node x a h t) b k c) = update_node cb x a (update_node cb t b c)

  unfoldable pub rotate_left : Callbacks A → Tree A → Tree A
  unfolding update_node
  rotate_left cb leaf = leaf
  rotate_left cb (node x a h leaf) = node x a h leaf
  rotate_left cb (node x a h (node t b k c)) = update_node cb (update_node cb x a t) b c

  set_left : Tree A → Tree A → Tree A
  set_left leaf l = leaf
  set_left (node _ a h r) l = node l a h r

  set_right : Tree A → Tree A → Tree A
  set_right leaf r = leaf
  set_right (node l a h _) r = node l a h r

  left_of : Tree A → Tree A
  left_of leaf = leaf
  left_of (node l a h r) = l

  right_of : Tree A → Tree A
  right_of leaf = leaf
  right_of (node l a h r) = r

  unfoldable pub rebalance : Callbacks A → Tree A → A → Tree A → Tree A
  unfolding update_node balance_above_one balance_below_minus_one balance_negative balance_positive
      rotate_left rotate_right set_left set_right left_of right_of
  rebalance cb l a r =
      let n = update_node cb l a r in
      if balance_above_one n
      then rotate_right cb
          (if balance_negative (left_of n) then set_left n (rotate_left cb (left_of n)) else n)
      else if balance_below_minus_one n
      then rotate_left cb
          (if balance_positive (right_of n) then set_right n (rotate_right cb (right_of n)) else n)
      else n

  -- On the node with left child `l`, payload `a` and right child `r`: the payload of the leftmost
  -- node, and what is left.
  unfoldable pub unlink_leftmost : Callbacks A → Tree A → A → Tree A → A × Tree A
  unlink_leftmost cb leaf a r = (a, r)
  unlink_leftmost cb (node ll b h lr) a r =
      let (out, l) = unlink_leftmost cb ll b lr in (out, rebalance cb l a r)

  -- The new node `a` comes with NULL links.
  unfoldable pub insert : Callbacks A → Tree A → A → Tree A
  insert cb leaf a = update_node cb leaf a leaf
  insert cb (node l b h r) a = elim (cb.compare a b) [
    | Ordering.lt ↦ rebalance cb (insert cb l a) b r
    | Ordering.gt ↦ rebalance cb l b (insert cb r a)
    | Ordering.eq ↦ node l b h r
  ]

  -- The branch of `avl_delete` at the node that is found.
  unfoldable pub delete_root : Callbacks A → Tree A → Tree A → Tree A
  unfolding unlink_leftmost
  delete_root cb leaf r = r
  delete_root cb (node ll b h lr) leaf = node ll b h lr
  delete_root cb (node ll b h lr) (node rl c k rr) =
      let (succ, new_right) = unlink_leftmost cb rl c rr in
      rebalance cb (node ll b h lr) succ new_right

  -- The new root, and `*out` if it was written.
  unfoldable pub delete : Callbacks A → Tree A → A → Tree A × Option A
  unfolding delete_root
  delete cb leaf key = (leaf, none)
  delete cb (node l b h r) key = elim (cb.compare key b) [
    | Ordering.lt ↦ let (l', out) = delete cb l key in (rebalance cb l' b r, out)
    | Ordering.gt ↦ let (r', out) = delete cb r key in (rebalance cb l b r', out)
    | Ordering.eq ↦ (delete_root cb l r, some b)
  ]

  unfoldable pub find : Callbacks A → Tree A → A → Option A
  find cb leaf key = none
  find cb (node l b h r) key = elim (cb.compare key b) [
    | Ordering.lt ↦ find cb l key
    | Ordering.gt ↦ find cb r key
    | Ordering.eq ↦ some b
  ]

  unfoldable pub get_min : Tree A → Option A
  get_min leaf = none
  get_min (node leaf a h r) = some a
  get_min (node (node ll b k lr) a h r) = get_min (node ll b k lr)

  unfoldable pub get_max : Tree A → Option A
  get_max leaf = none
  get_max (node l a h leaf) = some a
  get_max (node l a h (node rl b k rr)) = get_max (node rl b k rr)
