-- ===== src/Clab/Tree/Tests.antt =====
-- The tree of "b", "a" and "d", and the theorems at it.
use cso_fall.Common.{ℕ, ◌+◌, ◌≤◌, ◌≡◌, refl, arith, Option, some, none, List, [], ◌∷◌, length}
use cso_fall.Clab.Tree.{
  Bytes, Tree, null, node, alloc_node, insert, strcmp, inorder, inorder_do, store,
}
use cso_fall.Clab.Tree.Insert.{strings, Filled, Increasing, insert_sorted, insert_lem}
use cso_fall.Clab.Tree.Visit.{inorder_list, Stored, inorder-Stored, inorder_list-strings}

abbrev a : Bytes
a = 97 ∷ []

abbrev b : Bytes
b = 98 ∷ []

abbrev d : Bytes
d = 100 ∷ []

abbrev leaf : Bytes → Tree
leaf s = node (some s) null null

abbrev bad : Tree
bad = node (some b) (leaf a) (leaf d)

inserts_d : insert (node (some b) (leaf a) null) d ≡ some (0, bad)
unfolding insert alloc_node strcmp
inserts_d = refl

bad-Increasing : Increasing (strings bad)
unfolding strings strcmp
bad-Increasing = ((refl, (refl, tt)), ((refl, tt), (tt, tt)))

abbrev bad-Filled : Filled bad
bad-Filled = ((tt, tt), (tt, tt))

insert_lem_example :
    (c : ℕ) × (t' : Tree) × (insert bad d ≡ some (c, t'))
    × Filled t'
    × (strings t' ≡ insert_sorted d (strings bad))
    × Increasing (strings t')
    × (c + length (strings t') ≡ length (strings bad) + 1)
    × (c ≤ 1)
insert_lem_example = insert_lem b (leaf a) (leaf d) d bad-Filled bad-Increasing

abbrev four : List (Option Bytes)
four = none ∷ none ∷ none ∷ none ∷ []

inorder-Stored_example :
    (result' : List (Option Bytes)) × (inorder bad four 4
      ≡ some (result', length (inorder_list bad)))
    × Stored four result' (inorder_list bad)
unfolding inorder_list
inorder-Stored_example =
    inorder-Stored (some b) (leaf a) (leaf d) four 4 (omega arith) (omega arith)

-- `inorder` writes behind an array that has room for one string.
inorder_overflow : inorder (node (some b) (leaf a) null) (none ∷ []) 1 ≡ none
unfolding inorder inorder_do store
inorder_overflow = refl

inorder_list-strings_example : inorder_list bad ≡ some a ∷ some b ∷ some d ∷ []
unfolding strings
inorder_list-strings_example = inorder_list-strings bad bad-Filled
