-- ===== src/Clab/Nodes.antt =====
-- clab/mini/part5.c: a linked list in a heap of nodes. A pointer is an address or NULL, `none`. What
-- alloc_node returns is an argument, an address that is not in use. The results are `none` where the
-- code follows a pointer to no node, and where a loop runs out of fuel.
pub mod Laws
pub mod Remove
mod Tests
use cso_fall.Common.{
  ℕ, zero, suc, ◌+◌, Bool, true, false, Option, none, some, ◌>>=◌, List, [], ◌∷◌, ◌==◌,
  if◌then◌else◌, ℤ,
}
use cso_fall.Common.Int.{eqb_ℤ}

-- struct list_node
pub record Cell : Type 0 where
  pub value : ℤ
  pub next : Option ℕ

abbrev pub Heap : Type 0
Heap = ℕ → Option Cell

abbrev pub write : Heap → ℕ → Option Cell → Heap
write heap a c b = if a == b then c else heap b

abbrev pub free_node : Heap → ℕ → Heap
free_node heap a = write heap a none

unfoldable pub list_insert : (add : ℕ) → Heap → ℕ → ℤ → Option Heap
list_insert add heap head value = heap head >>= λ h. some (
    write (write heap add (some (record { value = value; next = h.next }))) head
      (some (record h { next = some add })))

-- `while (temp->next != NULL)`
unfoldable pub end_loop : ℕ → Heap → ℕ → Option ℕ
end_loop zero heap temp = none
end_loop (suc fuel) heap temp =
    heap temp >>= λ c. elim c.next [ none ↦ some temp | some p ↦ end_loop fuel heap p ]

unfoldable pub list_end : ℕ → Heap → ℕ → Option ℕ
list_end fuel heap head = end_loop fuel heap head

unfoldable pub size_loop : ℕ → Heap → ℕ → ℕ → Option ℕ
size_loop zero heap temp count = none
size_loop (suc fuel) heap temp count = heap temp >>= λ c. elim c.next [
  | none ↦ some count
  | some p ↦ size_loop fuel heap p (count + 1)
]

unfoldable pub list_size : ℕ → Heap → ℕ → Option ℕ
list_size fuel heap head = size_loop fuel heap head 1

-- `while (temp != NULL)`. The node and what is stored at `predp`.
unfoldable pub find_loop : ℕ → Heap → ℤ → (temp prev : Option ℕ) → Option (Option ℕ × Option ℕ)
find_loop fuel heap value none prev = some (none, none)
find_loop zero heap value (some temp) prev = none
find_loop (suc fuel) heap value (some temp) prev = heap temp >>= λ c.
    let rest = find_loop fuel heap value c.next (some temp) in
    if eqb_ℤ c.value value then some (some temp, prev) else rest

unfoldable pub list_find : ℕ → Heap → ℕ → ℤ → Option (Option ℕ × Option ℕ)
list_find fuel heap head value = heap head >>= λ c.
    let rest = find_loop fuel heap value (some head) none in
    if eqb_ℤ c.value value then some (some head, none) else rest

-- The end of `list_remove`: `remove` and `prev` are what `list_find` gave.
unfoldable pub unlink : Heap → ℕ → Option ℕ × Option ℕ → Option (ℕ × Heap × Option ℕ)
unlink heap head (none, prev) = some (0, heap, some head)
unlink heap head (some remove, none) = none
unlink heap head (some remove, some prev) = heap prev >>= λ p. heap remove >>= λ r.
    some (1, free_node (write heap prev (some (record p { next = r.next }))) remove, some head)

-- The result, the heap and `*headp`.
unfoldable pub list_remove : ℕ → Heap → ℕ → ℤ → Option (ℕ × Heap × Option ℕ)
list_remove fuel heap head value = heap head >>= λ c.
    let rest = list_find fuel heap head value >>= unlink heap head in
    if eqb_ℤ c.value value then some (1, free_node heap head, c.next) else rest
