-- ===== src/Threadlab/Htable/Resize.antt =====
-- htable_resize of threadlab/htable.c: the nodes in the slots of the new size.
use mathlib.Core.List.{append-nil}
use mathlib.Core.Option.{none-ne-some}
use cso_fall.Common.{
  ℕ, ◌+◌, ◌*◌, ◌%◌, ◌≤◌, ◌<◌, ◌≡◌, refl, sym, ap, ◌∙◌, subst, false, Option, some, List, [], ◌∷◌,
  ◌++◌, ℤ, pos, negsuc, set, length, length-set, length-replicate, get_elem?-total, arith, All,
  replicate,
}
use cso_fall.Common.Text.{CString}
use cso_fall.Threadlab.Primes.{get_prime}
use cso_fall.Threadlab.Hash.{hashcode}
use cso_fall.Threadlab.Rwlock.{rwl_init}
use cso_fall.Threadlab.Primes.Search.{get_prime-IsFirst}
use cso_fall.Threadlab.Htable.{
  Node, Chain, World, find, slot_of, move_node, move_chain, move_all, htable_resize, num_locks,
  unlock_all,
}
use cso_fall.Threadlab.Htable.Locks.{AllAre, lock_all_lem, unlock_all_lem}
use cso_fall.Threadlab.Htable.Chain.{
  count, or_else, find-append, count-append, or_else_assoc, or_else_comm,
}
use cso_fall.Threadlab.Htable.Buckets.{
  flatten, InSlot, Placed, get-Placed, set-Placed, replicate-Placed, flatten-replicate, add-flatten,
}

-- A hash code that has a slot in one table has one in any other.
pub slot_of-total :
    (h : ℤ) (old i size : ℕ)
    → slot_of h old ≡ some i
    → 0 < size
    → (slot : ℕ) × (slot_of h size ≡ some slot) × (slot < size)
unfolding slot_of
slot_of-total (pos h) old i size e some_size = (h % size, ground arith, omega arith)
slot_of-total (negsuc h) old i size e some_size = absurd (none-ne-some i e)

module _ {ℓ} {V : Type ℓ} where
  -- The new table `to` holds what `xs` and `from` held.
  abbrev pub Holds : Chain V → List (Chain V) → List (Chain V) → Type ℓ
  Holds xs from to =
      (h : ℤ) (k : CString)
      → count h k (xs ++ flatten from) ≤ 1
      → (find h k (flatten to) ≡ find h k (xs ++ flatten from))
        × (count h k (flatten to) ≡ count h k (xs ++ flatten from))

  Holds-append :
      (xs ys : Chain V) (from mid to : List (Chain V))
      → Holds xs from mid
      → Holds ys mid to
      → Holds (xs ++ ys) from to
  Holds-append xs ys from mid to first second h k one =
      let whole = count-append h k (xs ++ ys) (flatten from) in
      let both = count-append h k xs ys in
      let start = count-append h k xs (flatten from) in
      let (found, counted) = first h k (omega (arith, one, whole, both, start)) in
      let end = count-append h k ys (flatten mid) in
      let (found', counted') = second h k (omega (arith, one, whole, both, start, end, counted)) in
      (
        found'
            ∙ find-append h k ys (flatten mid)
            ∙ ap (or_else (find h k ys)) (found ∙ find-append h k xs (flatten from))
            ∙ or_else_assoc (find h k ys) (find h k xs) (find h k (flatten from))
            ∙ ap (λ o. or_else o (find h k (flatten from)))
                (or_else_comm h k ys xs (omega (arith, one, whole, both))
                  ∙ sym (find-append h k xs ys))
            ∙ sym (find-append h k (xs ++ ys) (flatten from)),
        omega (arith, counted, counted', whole, both, start, end),
      )

  abbrev pub Moved : ℕ → Chain V → List (Chain V) → Option (List (Chain V)) → Type ℓ
  Moved size xs from r =
      (to : List (Chain V)) × (r ≡ some to)
      × Placed size 0 to
      × (length to ≡ length from)
      × Holds xs from to

  move_node_lem :
      (size old i : ℕ) (n : Node V) (from : List (Chain V))
      → InSlot old i n
      → 0 < size
      → Placed size 0 from
      → length from ≡ size
      → Moved size (n ∷ []) from (move_node size n from)
  unfolding move_node
  move_node_lem size old i n from here some_size placed len =
      let (slot, at, small) = slot_of-total n.hashcode old i size here some_size in
      let (chain, get) = get_elem?-total from slot (omega arith) in
      (
        set from slot (n ∷ chain),
        rw (at, get) refl,
        set-Placed size 0 slot from (n ∷ chain) placed
            (at ∙ ap some (omega arith), get-Placed size 0 slot from chain placed get),
        length-set from slot (n ∷ chain),
        λ h k one. add-flatten h k n from slot chain (n ∷ chain) get refl refl one,
      )

  move_chain_lem :
      (size old i : ℕ) (xs : Chain V) (from : List (Chain V))
      → All (InSlot old i) xs
      → 0 < size
      → Placed size 0 from
      → length from ≡ size
      → Moved size xs from (move_chain size xs from)
  unfolding move_chain
  move_chain_lem size old i [] from here some_size placed len =
      (from, refl, placed, refl, λ h k one. (refl, refl))
  move_chain_lem size old i (n ∷ xs) from here some_size placed len =
      let (mid, step, mid_placed, mid_len, mid_holds) =
        move_node_lem size old i n from here.0 some_size placed len in
      let (to, run, to_placed, to_len, to_holds) =
        move_chain_lem size old i xs mid here.1 some_size mid_placed (mid_len ∙ len) in
      (
        to,
        rw (step) run,
        to_placed,
        to_len ∙ mid_len,
        Holds-append (n ∷ []) xs from mid to mid_holds to_holds,
      )

  move_all_lem :
      (size old i : ℕ) (store from : List (Chain V))
      → Placed old i store
      → 0 < size
      → Placed size 0 from
      → length from ≡ size
      → Moved size (flatten store) from (move_all size store from)
  unfolding move_all
  move_all_lem size old i [] from here some_size placed len =
      (from, refl, placed, refl, λ h k one. (refl, refl))
  move_all_lem size old i (c ∷ store) from here some_size placed len =
      let (mid, step, mid_placed, mid_len, mid_holds) =
        move_chain_lem size old i c from here.0 some_size placed len in
      let (to, run, to_placed, to_len, to_holds) =
        move_all_lem size old (i + 1) store mid here.1 some_size mid_placed (mid_len ∙ len) in
      (
        to,
        rw (step) run,
        to_placed,
        to_len ∙ mid_len,
        Holds-append c (flatten store) from mid to mid_holds to_holds,
      )

  -- No thread is in the table: it is as big as `size` says, every node stands in its slot, no key is
  -- there twice, and no lock is held.
  pub record Valid (w : World V) : Type ℓ where
    pub some_size : 0 < w.table.size
    pub sized : length w.table.store ≡ w.table.size
    pub placed : Placed w.table.size 0 w.table.store
    pub once : (h : ℤ) (k : CString) → count h k (flatten w.table.store) ≤ 1
    pub idle : AllAre rwl_init 0 num_locks w.rwl_slot
    pub mu_free : w.mu_locked ≡ false
    pub settled : w.undergoing_resize ≡ false

  -- What the table holds under a key.
  abbrev pub view : World V → CString → Option V
  view w k = find (hashcode k) k (flatten w.table.store)

  -- What the empty new table makes of it.
  Holds-fresh :
      (store to : List (Chain V)) (size : ℕ)
      → Holds (flatten store) (replicate size []) to
      → (h : ℤ) (k : CString) → count h k (flatten store) ≤ 1
      → (find h k (flatten to) ≡ find h k (flatten store))
        × (count h k (flatten to) ≡ count h k (flatten store))
  Holds-fresh store to size holds h k one =
      let all =
        ap (λ x. flatten store ++ x) (flatten-replicate V size) ∙ append-nil (flatten store) in
      let (found, counted) = holds h k (subst (λ x. count h k x ≤ 1) (sym all) one) in
      (found ∙ ap (find h k) all, counted ∙ ap (count h k) all)

  -- In a valid table a resize ends, without a wait. The new size is what `get_prime` gives for twice
  -- the old one, the new table is valid, with every lock free, and holds under each key what the old
  -- one held.
  pub htable_resize-total :
      (w : World V)
      → Valid w
      → (w' : World V) × (htable_resize w ≡ some w')
        × Valid w'
        × (get_prime (2 * w.table.size) ≡ some w'.table.size)
        × ((k : CString) → view w' k ≡ view w k)
  unfolding htable_resize
  htable_resize-total w valid =
      let (size, prime, first, _) = get_prime-IsFirst (2 * w.table.size) in
      let some_size : 0 < size = omega (arith, first.from_n, valid.some_size) in
      let (locked, taken, held, _) = lock_all_lem num_locks 0 w.rwl_slot valid.idle in
      let (to, run, placed, len, holds) =
        move_all_lem size w.table.size 0 w.table.store (replicate size []) valid.placed some_size
          (replicate-Placed V size 0 size) (length-replicate size []) in
      let fresh = Holds-fresh w.table.store to size holds in
      (
        record {
          table = record w.table { store = to; size = size };
          rwl_slot = unlock_all num_locks 0 locked;
          mu_locked = false;
          undergoing_resize = false;
        },
        rw (valid.mu_free, prime, taken, run) refl,
        record {
          some_size = some_size;
          sized = len ∙ length-replicate size [];
          placed = placed;
          once = λ h k. omega (arith, valid.once h k, (fresh h k (valid.once h k)).1);
          idle = (unlock_all_lem num_locks 0 locked held).0;
          mu_free = refl;
          settled = refl;
        },
        prime,
        λ k. (fresh (hashcode k) k (valid.once (hashcode k) k)).0,
      )
