-- ===== src/Threadlab/Htable.antt =====
-- threadlab/htable.c as one thread runs it: the table, the lock of each slot, the global mutex `mu`
-- and the flag `undergoing_resize`. `none` stands for a wait that would not end, an index out of
-- bounds, a division by 0 or a failed `assert`.
pub mod Locks
pub mod Chain
pub mod Buckets
pub mod Resize
pub mod Methods
pub mod Insert
mod Tests
use cso_fall.Common.{
  ℕ, zero, suc, ◌+◌, ◌*◌, ◌%◌, Bool, true, false, ◌&&◌, Option, none, some, ◌>>=◌, List, [], ◌∷◌,
  ◌++◌, ℤ, pos, negsuc, leb, ltb, ◌==◌, if◌then◌else◌, length, get_elem?, set, replicate,
}
use cso_fall.Common.Int.{eqb_ℤ}
use cso_fall.Common.Text.{CString}
use cso_fall.Threadlab.Rwlock.{Rwl, rwl_init, rlock_enter, rwl_runlock, wlock_enter, rwl_wunlock}
use cso_fall.Threadlab.Primes.{get_prime}
use cso_fall.Threadlab.Hash.{hashcode}

abbrev pub max_collision : ℕ
max_collision = 10

abbrev pub num_locks : ℕ
num_locks = 10000

pub record Node {ℓ} (V : Type ℓ) : Type ℓ where
  pub hashcode : ℤ
  pub key : CString
  pub val : V

-- A chain is the list of its nodes; `store` holds `size` chains.
pub record HTable {ℓ} (V : Type ℓ) : Type ℓ where
  pub allow_resize : Bool
  pub store : List (List (Node V))
  pub size : ℕ

-- The table and the file's global variables.
pub record World {ℓ} (V : Type ℓ) : Type ℓ where
  pub table : HTable V
  pub rwl_slot : ℕ → Rwl
  pub mu_locked : Bool
  pub undergoing_resize : Bool

-- `strcmp(s, t) == 0`
unfoldable pub str_eq : CString → CString → Bool
str_eq [] [] = true
str_eq [] (d ∷ t) = false
str_eq (c ∷ s) [] = false
str_eq (c ∷ s) (d ∷ t) = eqb_ℤ c d && str_eq s t

-- `hashcode % size`, as an index
unfoldable pub slot_of : ℤ → ℕ → Option ℕ
slot_of (pos h) size = if size == 0 then none else some (h % size)
slot_of (negsuc h) size = none

abbrev pub update {ℓ} : {A : Type ℓ} → (ℕ → A) → ℕ → A → ℕ → A
update f i a j = if i == j then a else f j

-- The lock functions without a time limit, with no other thread about: a wait would not end.
unfoldable pub acquire_write : (ℕ → Rwl) → ℕ → Option (ℕ → Rwl)
acquire_write locks i =
    let (l, taken) = wlock_enter (locks i) in if taken then some (update locks i l) else none

unfoldable pub release_write : (ℕ → Rwl) → ℕ → ℕ → Rwl
release_write locks i = update locks i (rwl_wunlock (locks i)).0

unfoldable pub acquire_read : (ℕ → Rwl) → ℕ → Option (ℕ → Rwl)
acquire_read locks i =
    let (l, taken) = rlock_enter (locks i) in if taken then some (update locks i l) else none

unfoldable pub release_read : (ℕ → Rwl) → ℕ → ℕ → Rwl
release_read locks i = update locks i (rwl_runlock (locks i)).0

-- `for (i = 0; i < NUM_LOCKS; ++i)`, on the number of rounds left
unfoldable pub lock_all : ℕ → ℕ → (ℕ → Rwl) → Option (ℕ → Rwl)
lock_all zero i locks = some locks
lock_all (suc rounds) i locks = acquire_write locks i >>= lock_all rounds (i + 1)

unfoldable pub unlock_all : ℕ → ℕ → (ℕ → Rwl) → ℕ → Rwl
unlock_all zero i locks = locks
unlock_all (suc rounds) i locks = unlock_all rounds (i + 1) (release_write locks i)

abbrev pub Chain {ℓ} : Type ℓ → Type ℓ
Chain V = List (Node V)

module _ {ℓ} {V : Type ℓ} where
  -- `allocated` says whether the array's `malloc` succeeds.
  unfoldable pub htable_init : (allocated : Bool) → ℕ → Bool → Option (World V)
  htable_init allocated sz allow_resize = get_prime (sz + 1) >>= λ size.
      if allocated
      then some (record {
        table = record { allow_resize = allow_resize; store = replicate size []; size = size };
        rwl_slot = λ _. rwl_init;
        mu_locked = false;
        undergoing_resize = false;
      })
      else none

  unfoldable pub htable_size : HTable V → ℕ
  htable_size ht = ht.size

  -- A node's place in the new table is in front of its slot's chain.
  unfoldable pub move_node : ℕ → Node V → List (Chain V) → Option (List (Chain V))
  move_node new_size n new_store = do
    slot ← slot_of n.hashcode new_size
    chain ← get_elem? new_store slot
    some (set new_store slot (n ∷ chain))

  unfoldable pub move_chain : ℕ → Chain V → List (Chain V) → Option (List (Chain V))
  move_chain new_size [] new_store = some new_store
  move_chain new_size (n ∷ curr) new_store =
      move_node new_size n new_store >>= move_chain new_size curr

  unfoldable pub move_all : ℕ → List (Chain V) → List (Chain V) → Option (List (Chain V))
  move_all new_size [] new_store = some new_store
  move_all new_size (c ∷ store) new_store =
      move_chain new_size c new_store >>= move_all new_size store

  unfoldable pub htable_resize : World V → Option (World V)
  htable_resize w =
      let ht = w.table in
      let body = (do
        new_size ← get_prime (2 * ht.size)
        locked ← lock_all num_locks 0 w.rwl_slot
        store ← move_all new_size ht.store (replicate new_size [])
        some (record {
          table = record ht { store = store; size = new_size };
          rwl_slot = unlock_all num_locks 0 locked;
          mu_locked = false;
          undergoing_resize = false;
        })) in
      if w.mu_locked then none else body

  -- `curr->hashcode == hcode && strcmp(curr->key, key) == 0`
  abbrev pub is_match : ℤ → CString → Node V → Bool
  is_match hcode key n = eqb_ℤ n.hashcode hcode && str_eq n.key key

  unfoldable pub find : ℤ → CString → Chain V → Option V
  find hcode key [] = none
  find hcode key (n ∷ curr) = if is_match hcode key n then some n.val else find hcode key curr

  -- The two places at which a thread takes the global mutex while another resizes.
  unfoldable pub blocked : World V → Bool
  blocked w = w.undergoing_resize && w.mu_locked

  -- What follows the search of the chain in `htable_insert`, if it ended without a match: the new
  -- node goes to the end of the chain.
  unfoldable pub insert_new : World V → ℤ → CString → V → ℕ → Chain V → Option (ℕ × World V)
  insert_new w hcode key val slot chain =
      let n : Node V = record { hashcode = hcode; key = key; val = val } in
      let ht = record w.table { store = set w.table.store slot (chain ++ n ∷ []) } in
      let w' = record w { table = ht; rwl_slot = release_write w.rwl_slot (slot % num_locks) } in
      let resized = htable_resize w' >>= λ w''. some (0, w'') in
      if w.table.allow_resize && leb max_collision (length chain) then resized else some (0, w')

  -- The slot's lock is held; the last argument is what the search of the chain found.
  unfoldable pub insert_found :
      World V → ℤ → CString → V → ℕ → Chain V → Option V → Option (ℕ × World V)
  insert_found w hcode key val slot chain (some old) =
      some (1, record w { rwl_slot = release_write w.rwl_slot (slot % num_locks) })
  insert_found w hcode key val slot chain none = insert_new w hcode key val slot chain

  unfoldable pub htable_insert : World V → CString → V → Option (ℕ × World V)
  unfolding blocked
  htable_insert w key val =
      let hcode = hashcode key in
      let body = (do
        slot ← slot_of hcode w.table.size
        locks ← acquire_write w.rwl_slot (slot % num_locks)
        chain ← get_elem? w.table.store slot
        insert_found (record w { rwl_slot = locks }) hcode key val slot chain
            (find hcode key chain)) in
      if blocked w then none else body

  unfoldable pub htable_lookup : World V → CString → Option (Option V × World V)
  unfolding blocked
  htable_lookup w key =
      let hcode = hashcode key in
      let body = (do
        slot ← slot_of hcode w.table.size
        locks ← acquire_read w.rwl_slot (slot % num_locks)
        chain ← get_elem? w.table.store slot
        some (
          find hcode key chain,
          record w { rwl_slot = release_read locks (slot % num_locks) },
        )) in
      if blocked w then none else body
