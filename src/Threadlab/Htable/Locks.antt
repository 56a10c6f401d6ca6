-- ===== src/Threadlab/Htable/Locks.antt =====
-- The slot locks of threadlab/htable.c: idle, taken and given back.
use cso_fall.Common.{
  ℕ, zero, suc, ◌+◌, ◌≤◌, ◌<◌, ◌≡◌, ◌≢◌, ◌⊎◌, inl, inr, refl, sym, ap, ◌∙◌, some, pos, arith,
}
use cso_fall.Threadlab.Rwlock.{
  Rwl, rwl_init, rlock_enter, rwl_runlock, wlock_enter, rwl_wunlock, rlock_test, wlock_test,
}
use cso_fall.Threadlab.Htable.{
  update, acquire_write, release_write, acquire_read, release_read, lock_all, unlock_all,
}

-- Every lock from `i` to `i + rounds` is in state `l`.
abbrev pub AllAre : Rwl → (i rounds : ℕ) → (ℕ → Rwl) → Type 0
AllAre l i rounds locks = (j : ℕ) → i ≤ j → j < i + rounds → locks j ≡ l

-- A lock held by one writer, and by one reader.
abbrev pub written : Rwl
written = record rwl_init { n_writers = pos 1 }

abbrev pub read : Rwl
read = record rwl_init { n_readers = pos 1 }

pub update_self {ℓ} : {A : Type ℓ} (f : ℕ → A) (i : ℕ) (a : A) → update f i a i ≡ a
update_self f i a = ground arith

pub update_ne {ℓ} : {A : Type ℓ} (f : ℕ → A) (i j : ℕ) (a : A) → i ≢ j → update f i a j ≡ f j
update_ne f i j a h = ground arith

pub acquire_write-idle :
    (locks : ℕ → Rwl) (i : ℕ)
    → locks i ≡ rwl_init
    → acquire_write locks i ≡ some (update locks i written)
unfolding acquire_write wlock_enter wlock_test rwl_init
acquire_write-idle locks i idle = rw (idle) refl

pub acquire_read-idle :
    (locks : ℕ → Rwl) (i : ℕ)
    → locks i ≡ rwl_init
    → acquire_read locks i ≡ some (update locks i read)
unfolding acquire_read rlock_enter rlock_test rwl_init
acquire_read-idle locks i idle = rw (idle) refl

pub release_write-idle :
    (locks : ℕ → Rwl) (i : ℕ) → locks i ≡ written → release_write locks i ≡ update locks i rwl_init
unfolding release_write rwl_wunlock rwl_init
release_write-idle locks i held = rw (held) refl

pub release_read-idle :
    (locks : ℕ → Rwl) (i : ℕ) → locks i ≡ read → release_read locks i ≡ update locks i rwl_init
unfolding release_read rwl_runlock rwl_init
release_read-idle locks i held = rw (held) refl

update-cases :
    (f : ℕ → Rwl) (i j : ℕ) (a : Rwl)
    → ((i ≡ j) × (update f i a j ≡ a)) ⊎ ((i ≢ j) × (update f i a j ≡ f j))
update-cases f i j a = ground arith

le_split : (i j : ℕ) → i ≤ j → (i ≡ j) ⊎ (i + 1 ≤ j)
le_split i j h = ground arith

-- A lock taken and given back is idle, and the others are what they were.
reset :
    (locks : ℕ → Rwl) (l : Rwl) (i num : ℕ)
    → AllAre rwl_init 0 num locks
    → AllAre rwl_init 0 num (update (update locks i l) i rwl_init)
reset locks l i num idle j low high = elim (update-cases (update locks i l) i j rwl_init) [
  | inl (_, e) ↦ e
  | inr (ne, e) ↦ e ∙ update_ne locks i j l ne ∙ idle j low high
]

pub written-released :
    (locks : ℕ → Rwl) (i num : ℕ)
    → AllAre rwl_init 0 num locks
    → AllAre rwl_init 0 num (release_write (update locks i written) i)
written-released locks i num idle =
    rw (release_write-idle (update locks i written) i (update_self locks i written))
      (reset locks written i num idle)

pub read-released :
    (locks : ℕ → Rwl) (i num : ℕ)
    → AllAre rwl_init 0 num locks
    → AllAre rwl_init 0 num (release_read (update locks i read) i)
read-released locks i num idle =
    rw (release_read-idle (update locks i read) i (update_self locks i read))
      (reset locks read i num idle)

-- What is left of a range after its first lock was changed.
AllAre-update :
    (l l' : Rwl) (i rounds : ℕ) (locks : ℕ → Rwl)
    → AllAre l i (suc rounds) locks
    → AllAre l (i + 1) rounds (update locks i l')
AllAre-update l l' i rounds locks all j low high =
    update_ne locks i j l' (omega arith) ∙ all j (omega arith) (omega arith)

AllAre-suc :
    (l : Rwl) (i rounds : ℕ) (locks : ℕ → Rwl)
    → locks i ≡ l
    → AllAre l (i + 1) rounds locks
    → AllAre l i (suc rounds) locks
AllAre-suc l i rounds locks first rest j low high = elim (le_split i j low) [
  | inl e ↦ ap locks (sym e) ∙ first
  | inr lt ↦ rest j (omega (arith, lt)) (omega arith)
]

-- The resize takes every lock without a wait, if all are idle.
pub lock_all_lem :
    (rounds i : ℕ) (locks : ℕ → Rwl)
    → AllAre rwl_init i rounds locks
    → (locks' : ℕ → Rwl) × (lock_all rounds i locks ≡ some locks')
      × AllAre written i rounds locks'
      × ((j : ℕ) → j < i → locks' j ≡ locks j)
unfolding lock_all
lock_all_lem zero i locks idle = (locks, refl, (λ j low high. absurd (omega arith)), λ j h. refl)
lock_all_lem (suc rounds) i locks idle =
    let (locks', run, held, kept) =
      lock_all_lem rounds (i + 1) (update locks i written)
        (AllAre-update rwl_init written i rounds locks idle) in
    (
      locks',
      rw (acquire_write-idle locks i (idle i (omega arith) (omega arith))) run,
      AllAre-suc written i rounds locks' (kept i (omega arith) ∙ update_self locks i written) held,
      λ j h. kept j (omega arith) ∙ update_ne locks i j written (omega arith),
    )

-- And gives them back.
pub unlock_all_lem :
    (rounds i : ℕ) (locks : ℕ → Rwl)
    → AllAre written i rounds locks
    → AllAre rwl_init i rounds (unlock_all rounds i locks)
      × ((j : ℕ) → j < i → unlock_all rounds i locks j ≡ locks j)
unfolding unlock_all
unlock_all_lem zero i locks held = ((λ j low high. absurd (omega arith)), λ j h. refl)
unlock_all_lem (suc rounds) i locks held =
    let free = release_write-idle locks i (held i (omega arith) (omega arith)) in
    let (idle, kept) =
      unlock_all_lem rounds (i + 1) (update locks i rwl_init)
        (AllAre-update written rwl_init i rounds locks held) in
    rw (free) (
      AllAre-suc rwl_init i rounds (unlock_all rounds (i + 1) (update locks i rwl_init))
          (kept i (omega arith) ∙ update_self locks i rwl_init) idle,
      λ j h. kept j (omega arith) ∙ update_ne locks i j rwl_init (omega arith),
    )
