-- ===== src/Clab/Nodes/Tests.antt =====
-- A list of two nodes, and the theorems at it.
use cso_fall.Common.{ℕ, ◌+◌, ◌≡◌, refl, arith, Option, some, none, [], ◌∷◌, pos, length}
use cso_fall.Clab.Nodes.{Heap, write, list_remove, list_size, size_loop, list_end, end_loop}
use cso_fall.Clab.Nodes.Laws.{Fresh, IsList}
use cso_fall.Clab.Nodes.Remove.{remove_first, list_remove-IsList}

abbrev heap : Heap
heap =
    write (write (λ _. none) 10 (some (record { value = pos 0; next = some 20 }))) 20
      (some (record { value = pos 2; next = none }))

heap-IsList : IsList heap (some 10) ((10, pos 0) ∷ (20, pos 2) ∷ [])
heap-IsList = (refl, (some 20, refl, ((omega arith), tt), (refl, (none, refl, tt, refl))))

sizes : list_size 2 heap 10 ≡ some 2
unfolding list_size size_loop
sizes = refl

ends : list_end 2 heap 10 ≡ some 20
unfolding list_end end_loop
ends = refl

list_remove-IsList_example :
    (c : ℕ) × (heap' : Heap) × (headp : Option ℕ) × (list_remove 3 heap 10 (pos 2)
      ≡ some (c, heap', headp))
    × IsList heap' headp (remove_first (pos 2) ((10, pos 0) ∷ (20, pos 2) ∷ []))
    × (c + length (remove_first (pos 2) ((10, pos 0) ∷ (20, pos 2) ∷ [])) ≡ 2)
    × ((x : ℕ) → Fresh x ((10, pos 0) ∷ (20, pos 2) ∷ []) → heap' x ≡ heap x)
list_remove-IsList_example =
    list_remove-IsList heap 10 (pos 0) (pos 2) ((20, pos 2) ∷ []) heap-IsList
