-- ===== src/Threadlab/Rwlock.antt =====
-- threadlab/rwlock.c: the lock's counters, and what each function does to them between two points at
-- which the thread gives the mutex `mu` away. The mutex makes these stretches atomic.
pub mod Threads
pub mod Count
pub mod Safety
pub mod Yields
pub mod Stranded
mod Tests
use cso_fall.Common.{Bool, true, false, not, ◌||◌, ℤ, pos, if◌then◌else◌}
use cso_fall.Common.Int.{◌+ℤ◌, ◌-ℤ◌, eqb_ℤ}

pub record Rwl : Type 0 where
  pub n_waiting_readers : ℤ
  pub n_waiting_writers : ℤ
  pub n_writers : ℤ
  pub n_readers : ℤ

-- What an unlocking function asks of the condition variables.
pub data Wake : Type 0 where
  nothing : Wake
  signal_writer : Wake
  broadcast_readers : Wake

-- C's truth value of an `int`.
abbrev pub holds : ℤ → Bool
holds n = not (eqb_ℤ n (pos 0))

unfoldable pub rwl_init : Rwl
rwl_init = record {
  n_waiting_readers = pos 0;
  n_waiting_writers = pos 0;
  n_writers = pos 0;
  n_readers = pos 0;
}

unfoldable pub rwl_nwaiters : Rwl → ℤ
rwl_nwaiters l = l.n_waiting_readers +ℤ l.n_waiting_writers

-- The test of the loop in `rwl_rlock`, and what follows where it fails. The second part says
-- whether the lock was taken; if not, the thread waits on `reader_cond`.
unfoldable pub rlock_test : Rwl → Rwl × Bool
rlock_test l = if holds l.n_writers || holds l.n_waiting_writers then (l, false) else (
  record l { n_waiting_readers = l.n_waiting_readers -ℤ pos 1; n_readers = l.n_readers +ℤ pos 1 },
  true,
)

unfoldable pub rlock_enter : Rwl → Rwl × Bool
unfolding rlock_test
rlock_enter l = rlock_test (record l { n_waiting_readers = l.n_waiting_readers +ℤ pos 1 })

-- `rc == ETIMEDOUT`
unfoldable pub rlock_timeout : Rwl → Rwl
rlock_timeout l = record l { n_waiting_readers = l.n_waiting_readers -ℤ pos 1 }

unfoldable pub rwl_runlock : Rwl → Rwl × Wake
rwl_runlock l = (
  record l { n_readers = l.n_readers -ℤ pos 1 },
  if holds l.n_waiting_writers then signal_writer else nothing,
)

-- The same for `rwl_wlock`.
unfoldable pub wlock_test : Rwl → Rwl × Bool
wlock_test l = if holds l.n_writers || holds l.n_readers then (l, false) else (
  record l { n_waiting_writers = l.n_waiting_writers -ℤ pos 1; n_writers = l.n_writers +ℤ pos 1 },
  true,
)

unfoldable pub wlock_enter : Rwl → Rwl × Bool
unfolding wlock_test
wlock_enter l = wlock_test (record l { n_waiting_writers = l.n_waiting_writers +ℤ pos 1 })

unfoldable pub wlock_timeout : Rwl → Rwl
wlock_timeout l = record l { n_waiting_writers = l.n_waiting_writers -ℤ pos 1 }

unfoldable pub rwl_wunlock : Rwl → Rwl × Wake
rwl_wunlock l = (
  record l { n_writers = l.n_writers -ℤ pos 1 },
  if holds l.n_waiting_writers
      then signal_writer
      else (if holds l.n_waiting_readers then broadcast_readers else nothing),
)
