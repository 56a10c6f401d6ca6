-- ===== src/Clab/Nodes/Laws.antt =====
-- The functions of clab/mini/part5.c on the lists that stand in the heap.
use cso_fall.Common.{
  ℕ, suc, ◌+◌, ◌≡◌, ◌≢◌, refl, sym, ap, ◌∙◌, Option, none, some, List, [], ◌∷◌, ℤ, All, length,
  arith,
}
use cso_fall.Clab.Nodes.{Cell, Heap, write, list_insert, size_loop, list_size}

-- An address and the value there.
abbrev pub Cells : Type 0
Cells = List (ℕ × ℤ)

abbrev pub Fresh : ℕ → Cells → Type 0
Fresh a = All (λ c. c.0 ≢ a)

-- From the pointer `p` on the heap holds the list `cells`, of different nodes.
abbrev pub IsList : Heap → Option ℕ → Cells → Type 0
IsList heap p [] = p ≡ none
IsList heap p (c ∷ cells) =
    (p ≡ some c.0)
    × ((next : Option ℕ) × (heap c.0 ≡ some (record { value = c.1; next = next }))
        × Fresh c.0 cells
        × IsList heap next cells)

pub write-same : (heap : Heap) (a : ℕ) (c : Option Cell) → write heap a c a ≡ c
write-same heap a c = ground arith

pub write-other : (heap : Heap) (a b : ℕ) (c : Option Cell) → a ≢ b → write heap a c b ≡ heap b
write-other heap a b c ne = ground arith

-- Two heaps that agree on the nodes of a list.
pub IsList-frame :
    (heap heap' : Heap) (p : Option ℕ) (cells : Cells)
    → All (λ c. heap' c.0 ≡ heap c.0) cells
    → IsList heap p cells
    → IsList heap' p cells
IsList-frame heap heap' p [] same l = l
IsList-frame heap heap' p (c ∷ cells) same (at, (next, e, fresh, rest)) =
    (at, (next, same.0 ∙ e, fresh, IsList-frame heap heap' next cells same.1 rest))

pub Fresh-same :
    (heap : Heap) (a : ℕ) (c : Option Cell) (cells : Cells)
    → Fresh a cells
    → All (λ d. write heap a c d.0 ≡ heap d.0) cells
Fresh-same heap a c [] fresh = tt
Fresh-same heap a c (d ∷ cells) fresh =
    (write-other heap a d.0 c (λ e. fresh.0 (sym e)), Fresh-same heap a c cells fresh.1)

-- `list_size` returns the length of the list.
pub list_size-length :
    (heap : Heap) (head : ℕ) (v : ℤ) (cells : Cells)
    → IsList heap (some head) ((head, v) ∷ cells)
    → list_size (suc (length cells)) heap head ≡ some (suc (length cells))
unfolding list_size size_loop
list_size-length heap head v cells l = go head v cells 1 l ∙ ap some (omega arith)
  where
    go :
        (head : ℕ) (v : ℤ) (cells : Cells) (count : ℕ)
        → IsList heap (some head) ((head, v) ∷ cells)
        → size_loop (suc (length cells)) heap head count ≡ some (count + length cells)
    go head v [] count (at, (next, e, fresh, rest)) = rw (e, rest) (ap some (omega arith))
    go head v (c ∷ cells) count (at, (next, e, fresh, (at', more))) =
        rw (e, at') (go c.0 c.1 cells (count + 1) (refl, more) ∙ ap some (omega arith))

-- `list_insert` puts a new node with the value behind the head.
pub list_insert-IsList :
    (add : ℕ) (heap : Heap) (head : ℕ) (v value : ℤ) (cells : Cells)
    → IsList heap (some head) ((head, v) ∷ cells)
    → Fresh add ((head, v) ∷ cells)
    → (heap' : Heap) × (list_insert add heap head value ≡ some heap')
      × IsList heap' (some head) ((head, v) ∷ (add, value) ∷ cells)
unfolding list_insert
list_insert-IsList add heap head v value cells (at, (next, e, fresh, rest)) new =
    let new_cell : Cell = record { value = value; next = next } in
    let old_cell : Cell = record { value = v; next = some add } in
    let first = write heap add (some new_cell) in
    let heap' = write first head (some old_cell) in
    (
      heap',
      rw (e) refl,
      (
        refl,
        (
          some add,
          write-same first head (some old_cell),
          ((λ x. new.0 (sym x)), fresh),
          (
            refl,
            (
              next,
              write-other first head add (some old_cell) new.0
                  ∙ write-same heap add (some new_cell),
              new.1,
              IsList-frame first heap' next cells
                  (Fresh-same first head (some old_cell) cells fresh)
                  (IsList-frame heap first next cells
                    (Fresh-same heap add (some new_cell) cells new.1) rest),
            ),
          ),
        ),
      ),
    )
