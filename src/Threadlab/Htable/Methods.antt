-- ===== src/Threadlab/Htable/Methods.antt =====
-- htable_init, htable_lookup and htable_insert of threadlab/htable.c, on keys whose hash code is not
-- negative, as ASCII keys' are.
use cso_fall.Common.{
  ℕ, ◌+◌, ◌%◌, ◌<◌, ◌≡◌, refl, ap, ◌∙◌, Bool, true, false, none, some, [], pos, length-replicate,
  get_elem?-total, arith, replicate,
}
use cso_fall.Common.Text.{CString}
use cso_fall.Threadlab.Primes.{get_prime}
use cso_fall.Threadlab.Hash.{hashcode}
use cso_fall.Threadlab.Rwlock.{Rwl, rwl_init}
use cso_fall.Threadlab.Primes.Search.{get_prime-IsFirst}
use cso_fall.Threadlab.Htable.{
  World, find, slot_of, num_locks, update, release_read, htable_init, htable_lookup, blocked,
}
use cso_fall.Threadlab.Htable.Locks.{AllAre, read, acquire_read-idle, read-released}
use cso_fall.Threadlab.Htable.Chain.{count}
use cso_fall.Threadlab.Htable.Buckets.{replicate-Placed, flatten-replicate, find-flatten}
use cso_fall.Threadlab.Htable.Resize.{Valid, view}

-- A key with a slot in every table.
abbrev pub HasSlot : CString → Type 0
HasSlot k = (h : ℕ) × (hashcode k ≡ pos h)

pub slot_of-HasSlot :
    (k : CString) (size : ℕ)
    → HasSlot k
    → 0 < size
    → (slot : ℕ) × (slot_of (hashcode k) size ≡ some slot) × (slot < size)
unfolding slot_of
slot_of-HasSlot k size (h, e) some_size = (h % size, rw (e) (ground arith), omega arith)

module _ {ℓ} {V : Type ℓ} where
  -- Locks that are free again.
  pub with_locks :
      (w : World V) (locks : ℕ → Rwl)
      → Valid w
      → AllAre rwl_init 0 num_locks locks
      → Valid (record w { rwl_slot = locks })
  with_locks w locks valid idle = record {
    some_size = valid.some_size;
    sized = valid.sized;
    placed = valid.placed;
    once = valid.once;
    idle = idle;
    mu_free = valid.mu_free;
    settled = valid.settled;
  }

  -- A fresh table is valid and empty, and its size is what `get_prime` gives for `sz + 1`.
  pub htable_init-Valid :
      (sz : ℕ) (allow : Bool)
      → (w : World V) × (htable_init true sz allow ≡ some w)
        × Valid w
        × (get_prime (sz + 1) ≡ some w.table.size)
        × ((k : CString) → view w k ≡ none)
  unfolding htable_init find count
  htable_init-Valid sz allow =
      let (size, prime, first, _) = get_prime-IsFirst (sz + 1) in
      (
        record {
          table = record { allow_resize = allow; store = replicate size []; size = size };
          rwl_slot = λ _. rwl_init;
          mu_locked = false;
          undergoing_resize = false;
        },
        rw (prime) refl,
        record {
          some_size = omega (arith, first.from_n);
          sized = length-replicate size [];
          placed = replicate-Placed V size 0 size;
          once = λ h k. rw (flatten-replicate V size) (omega arith);
          idle = λ j low high. refl;
          mu_free = refl;
          settled = refl;
        },
        prime,
        λ k. rw (flatten-replicate V size) refl,
      )

  -- A lookup in a valid table, of a key whose hash code is not negative, waits for nothing, returns
  -- what the table holds under the key, and leaves the table as it was and every lock free.
  pub htable_lookup-view :
      (w : World V) (k : CString)
      → Valid w
      → HasSlot k
      → (w' : World V) × (htable_lookup w k ≡ some (view w k, w')) × Valid w' × (w'.table ≡ w.table)
  unfolding htable_lookup blocked
  htable_lookup-view w k valid has =
      let (slot, at, small) = slot_of-HasSlot k w.table.size has valid.some_size in
      let (chain, get) = get_elem?-total w.table.store slot (omega (arith, small, valid.sized)) in
      let i = slot % num_locks in
      let found =
        find-flatten w.table.size 0 slot (hashcode k) k w.table.store chain valid.placed
          (at ∙ ap some (omega arith)) get in
      (
        record w { rwl_slot = release_read (update w.rwl_slot i read) i },
        rw
            (
              valid.settled,
              at,
              acquire_read-idle w.rwl_slot i (valid.idle i (omega arith) (omega arith)),
              get,
              found,
            )
            refl,
        with_locks w (release_read (update w.rwl_slot i read) i) valid
            (read-released w.rwl_slot i num_locks valid.idle),
        refl,
      )
