-- ===== src/Clab/Tree.antt =====
-- clab/mini/part7.c: the sorted binary tree. `none` stands for a null pointer that is followed and for
-- a write out of bounds. del_tree only frees memory.
pub mod Strcmp
pub mod Insert
pub mod Visit
mod Tests
use Prim.Native.Nat.{compare, Ordering}
use cso_fall.Common.{
  ℕ, zero, suc, ◌+◌, Bool, true, false, Option, none, some, ◌>>=◌, List, [], ◌∷◌, ◌++◌, leb, ltb,
  if◌then◌else◌, length, set,
}

-- A string's characters, read as `unsigned char` the way strcmp does.
abbrev pub Bytes : Type 0
Bytes = List ℕ

-- The sign of `strcmp(s, t)`.
unfoldable pub strcmp : Bytes → Bytes → Ordering
strcmp [] [] = Ordering.eq
strcmp [] (d ∷ t) = Ordering.lt
strcmp (c ∷ s) [] = Ordering.gt
strcmp (c ∷ s) (d ∷ t) = elim (compare c d) [
  | Ordering.lt ↦ Ordering.lt
  | Ordering.eq ↦ strcmp s t
  | Ordering.gt ↦ Ordering.gt
]

-- `null`, or a node with its string, which the root may not have, and its two children.
pub data Tree : Type 0 where
  null : Tree
  node : Option Bytes → Tree → Tree → Tree

unfoldable pub alloc_node : Bytes → Tree
alloc_node s = node (some s) null null

-- `malloc` leaves the children of the root as it finds them.
unfoldable pub init_tree : (left right : Tree) → Tree
init_tree left right = node none left right

abbrev pub is_null : Tree → Bool
is_null null = true
is_null (node t left right) = false

-- The result and the tree as the call leaves it.
unfoldable pub insert : Tree → Bytes → Option (ℕ × Tree)
unfolding alloc_node
insert null s = none
insert (node none left right) s = some (0, node (some s) left right)
insert (node (some t) left right) s =
    let go_left = insert left s >>= λ r. some (r.0, node (some t) r.1 right) in
    let go_right = insert right s >>= λ r. some (r.0, node (some t) left r.1) in
    elim (strcmp t s) [
      | Ordering.gt ↦ if is_null left then some (0, node (some t) (alloc_node s) right) else go_left
      | Ordering.lt ↦
          if is_null right then some (0, node (some t) left (alloc_node s)) else go_right
      | Ordering.eq ↦ some (1, node (some t) left right)
    ]

-- The array of results, and the position behind the last one.
abbrev pub Results : Type 0
Results = List (Option Bytes) × ℕ

-- `result[cur_position] = node->string; cur_position++;`
unfoldable pub store : Option Bytes → Results → Option Results
store t (result, cur_position) =
    if ltb cur_position (length result)
    then some (set result cur_position t, cur_position + 1)
    else none

unfoldable pub preorder_do : Tree → Results → ℕ → Option Results
preorder_do null r result_max = none
preorder_do (node t left right) r result_max =
    let into_left =
      λ (r : Results). if is_null left then some r else preorder_do left r result_max in
    let into_right =
      λ (r : Results). if is_null right then some r else preorder_do right r result_max in
    if leb result_max r.1 then some r else (store t r >>= into_left >>= into_right)

unfoldable pub preorder : Tree → List (Option Bytes) → ℕ → Option Results
preorder tree result result_max = preorder_do tree (result, 0) result_max

unfoldable pub inorder_do : Tree → Results → ℕ → Option Results
inorder_do null r max_result = none
inorder_do (node t left right) r max_result =
    let into_left =
      λ (r : Results). if is_null left then some r else inorder_do left r max_result in
    let into_right =
      λ (r : Results). if is_null right then some r else inorder_do right r max_result in
    if leb max_result r.1 then some r else (into_left r >>= store t >>= into_right)

unfoldable pub inorder : Tree → List (Option Bytes) → ℕ → Option Results
inorder tree result max_result = inorder_do tree (result, 0) max_result
