-- ===== src/Threadlab/Rwlock/Threads.antt =====
-- Threads over one lock, in any interleaving. A wait on a condition variable ends by a signal, by a
-- broadcast, by its time running out, or, as POSIX allows, for no reason.
use cso_fall.Common.{ℕ, ◌<◌, ◌≡◌, ◌≢◌, Bool, true, false, if◌then◌else◌, ◌==◌}
use cso_fall.Threadlab.Rwlock.{
  Rwl, Wake, nothing, signal_writer, broadcast_readers, rwl_init, rlock_test, rlock_enter,
  rlock_timeout, rwl_runlock, wlock_test, wlock_enter, wlock_timeout, rwl_wunlock,
}

-- Where a thread stands. A woken thread has left the condition variable and wants the mutex.
pub data Pc : Type 0 where
  outside : Pc
  reader_asleep : Pc
  reader_woken : Pc
  writer_asleep : Pc
  writer_woken : Pc
  reading : Pc
  writing : Pc

pub record System : Type 0 where
  pub lock : Rwl
  pub pc : ℕ → Pc

abbrev pub move : (ℕ → Pc) → ℕ → Pc → ℕ → Pc
move pc i p j = if i == j then p else pc j

-- `pthread_cond_broadcast(&reader_cond)`
abbrev pub wake_reader : Pc → Pc
wake_reader outside = outside
wake_reader reader_asleep = reader_woken
wake_reader reader_woken = reader_woken
wake_reader writer_asleep = writer_asleep
wake_reader writer_woken = writer_woken
wake_reader reading = reading
wake_reader writing = writing

-- Where the loops of the lock functions leave a reader and a writer.
abbrev pub reader_goes : Bool → Pc
reader_goes true = reading
reader_goes false = reader_asleep

abbrev pub writer_goes : Bool → Pc
writer_goes true = writing
writer_goes false = writer_asleep

abbrev pub system : Rwl → (ℕ → Pc) → System
system l pc = record { lock = l; pc = pc }

-- What a wake-up does to the threads: a signal wakes one writer that sleeps, if there is one.
pub data Wakes (n : ℕ) (pc : ℕ → Pc) : Wake → (ℕ → Pc) → Type 0 where
  wakes_none : Wakes n pc nothing pc
  wakes_writer :
      (j : ℕ) → j < n → pc j ≡ writer_asleep → Wakes n pc signal_writer (move pc j writer_woken)
  wakes_no_writer : ((j : ℕ) → j < n → pc j ≢ writer_asleep) → Wakes n pc signal_writer pc
  wakes_readers : Wakes n pc broadcast_readers (λ j. wake_reader (pc j))

-- One stretch of thread `i` under the mutex, or the end of its sleep.
pub data Act (n i : ℕ) (l : Rwl) (pc : ℕ → Pc) : Pc → Rwl → (ℕ → Pc) → Type 0 where
  rlock : Act n i l pc outside (rlock_enter l).0 (move pc i (reader_goes (rlock_enter l).1))
  rretry : Act n i l pc reader_woken (rlock_test l).0 (move pc i (reader_goes (rlock_test l).1))
  rtimeout : Act n i l pc reader_asleep (rlock_timeout l) (move pc i outside)
  rspurious : Act n i l pc reader_asleep l (move pc i reader_woken)
  runlock :
      {pc' : ℕ → Pc}
      → Wakes n (move pc i outside) (rwl_runlock l).1 pc'
      → Act n i l pc reading (rwl_runlock l).0 pc'
  wlock : Act n i l pc outside (wlock_enter l).0 (move pc i (writer_goes (wlock_enter l).1))
  wretry : Act n i l pc writer_woken (wlock_test l).0 (move pc i (writer_goes (wlock_test l).1))
  wtimeout : Act n i l pc writer_asleep (wlock_timeout l) (move pc i outside)
  wspurious : Act n i l pc writer_asleep l (move pc i writer_woken)
  wunlock :
      {pc' : ℕ → Pc}
      → Wakes n (move pc i outside) (rwl_wunlock l).1 pc'
      → Act n i l pc writing (rwl_wunlock l).0 pc'

pub data Step (n : ℕ) (s : System) : System → Type 0 where
  act :
      (i : ℕ) {l : Rwl} {pc : ℕ → Pc}
      → i < n
      → Act n i s.lock s.pc (s.pc i) l pc
      → Step n s (system l pc)

abbrev pub start : System
start = system rwl_init (λ _. outside)

pub data Reach (n : ℕ) : System → Type 0 where
  initial : Reach n start
  later : {s t : System} → Reach n s → Step n s t → Reach n t
