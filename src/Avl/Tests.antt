-- ===== src/Avl/Tests.antt =====
-- Tests of the AVL tree, and its theorems at concrete trees of numbers.
use mathlib.Core.Option
use cuore_os.Base.{ℕ, ◌+◌, ◌≤◌, ◌≡◌, refl, some, [], ◌∷◌, compare, arith}
use cuore_os.Avl.{
  Tree, leaf, node, Callbacks, height, run_update, update_node, rebalance, insert, delete, find,
  get_min, get_max,
}
use cuore_os.Avl.Balance.{IsBalanced, insert-IsBalanced, delete-IsBalanced}
use cuore_os.Avl.Keys.{IsKeyed, inorder}
use cuore_os.Avl.Refine.{inorder-insert, inorder-delete, find-inorder}
use cuore_os.Avl.Updated.{IsUpdated, insert-IsUpdated, delete-IsUpdated}

-- Numbers with their sum over the subtree.
record Item : Type 0 where
  name : ℕ
  total : ℕ

abbrev item : ℕ → ℕ → Item
item n t = record { name = n; total = t }

abbrev total_of : Tree Item → ℕ
total_of leaf = 0
total_of (node l a h r) = a.total

abbrev callbacks : Callbacks Item
callbacks = record {
  compare = λ a b. compare a.name b.name;
  update = some (λ l a r. record a { total = total_of l + a.name + total_of r });
}

abbrev name_of : Item → ℕ
name_of a = a.name

abbrev id_ℕ : ℕ → ℕ
id_ℕ n = n

keyed : IsKeyed callbacks name_of id_ℕ
unfolding run_update
keyed = record { compare_key = λ a b. refl; view_kept = λ l a r. refl }

abbrev three : Tree Item
three = node (node leaf (item 1 1) 1 leaf) (item 3 9) 2 (node leaf (item 5 5) 1 leaf)

-- 1, 2, 3, ... in order make every kind of left rotation, and 3, 1, 2 a double one.
rising :
    inorder name_of
      (insert callbacks (insert callbacks (insert callbacks leaf (item 1 0)) (item 2 0)) (item 3 0))
    ≡ 1 ∷ 2 ∷ 3 ∷ []
unfolding insert update_node rebalance
rising = refl

double_rotation :
    insert callbacks (insert callbacks (insert callbacks leaf (item 3 0)) (item 1 0)) (item 2 0)
    ≡ node (node leaf (item 1 1) 1 leaf) (item 2 6) 2 (node leaf (item 3 3) 1 leaf)
unfolding insert update_node rebalance
double_rotation = refl

delete_root_of_three :
    delete callbacks three (item 3 0)
    ≡ (node (node leaf (item 1 1) 1 leaf) (item 5 6) 2 leaf, some (item 3 9))
unfolding delete update_node rebalance
delete_root_of_three = refl

ends : (get_min three ≡ some (item 1 1)) × (get_max three ≡ some (item 5 5))
unfolding get_min get_max
ends = (refl, refl)

three-IsBalanced : IsBalanced three
unfolding height
three-IsBalanced = omega arith

three-IsUpdated : IsUpdated callbacks three
unfolding run_update
three-IsUpdated = ((tt, tt, (item 1 0, refl)), (tt, tt, (item 5 0, refl)), (item 3 0, refl))

insert-IsBalanced_example :
    IsBalanced (insert callbacks three (item 4 0))
    × (height three ≤ height (insert callbacks three (item 4 0)))
    × (height (insert callbacks three (item 4 0)) ≤ height three + 1)
insert-IsBalanced_example = insert-IsBalanced callbacks three (item 4 0) three-IsBalanced

delete-IsBalanced_example :
    IsBalanced (delete callbacks three (item 3 0)).0
    × (height (delete callbacks three (item 3 0)).0 ≤ height three)
    × (height three ≤ height (delete callbacks three (item 3 0)).0 + 1)
delete-IsBalanced_example = delete-IsBalanced callbacks three (item 3 0) three-IsBalanced

inorder-insert_example : inorder name_of (insert callbacks three (item 4 0)) ≡ 1 ∷ 3 ∷ 4 ∷ 5 ∷ []
inorder-insert_example = inorder-insert callbacks name_of id_ℕ keyed three (item 4 0) (omega arith)

inorder-delete_example : inorder name_of (delete callbacks three (item 3 0)).0 ≡ 1 ∷ 5 ∷ []
inorder-delete_example = inorder-delete callbacks name_of id_ℕ keyed three (item 3 0) (omega arith)

find-inorder_example : Option.map name_of (find callbacks three (item 5 0)) ≡ some 5
find-inorder_example = find-inorder callbacks name_of id_ℕ keyed three (item 5 0) (omega arith)

insert-IsUpdated_example : IsUpdated callbacks (insert callbacks three (item 4 0))
insert-IsUpdated_example = insert-IsUpdated callbacks three (item 4 0) three-IsUpdated

delete-IsUpdated_example : IsUpdated callbacks (delete callbacks three (item 3 0)).0
delete-IsUpdated_example = delete-IsUpdated callbacks three (item 3 0) three-IsUpdated
