-- ===== src/Threadlab/Rwlock/Tests.antt =====
-- Three threads on one lock, and the theorems at the states that they reach.
use cso_fall.Common.{◌≡◌, ◌≢◌, refl, true, arith}
use cso_fall.Threadlab.Rwlock.{
  rwl_init, rlock_test, rlock_enter, rlock_timeout, rwl_runlock, wlock_test, wlock_enter,
  wlock_timeout, rwl_wunlock,
}
use cso_fall.Threadlab.Rwlock.Threads
use cso_fall.Threadlab.Rwlock.Threads.{
  Pc, outside, reader_asleep, writer_asleep, reading, writing, move, System, system, Wakes, Step,
  act, start, Reach, initial, later,
}
use cso_fall.Threadlab.Rwlock.Count.{waits_to_write, tally}
use cso_fall.Threadlab.Rwlock.Safety.{Inv, Reach-Inv, writer_excludes}
use cso_fall.Threadlab.Rwlock.Yields.{reader_yields}
use cso_fall.Threadlab.Rwlock.Stranded.{runlock_strands}

lock_program : Unit {0}
unfolding rwl_init rlock_test rlock_enter rlock_timeout rwl_runlock wlock_test wlock_enter
    wlock_timeout rwl_wunlock
lock_program = tt

-- Thread 0 reads.
abbrev one_reader : System
one_reader =
    system (rlock_enter rwl_init).0
      (move (λ _. outside) 0 (Threads.reader_goes (rlock_enter rwl_init).1))

one_reader-Reach : Reach 3 one_reader
one_reader-Reach = later initial (act 0 (omega arith) Threads.rlock)

-- Thread 1 waits to write, and then thread 2 to read.
abbrev two_wait : System
two_wait =
    let l = (wlock_enter one_reader.lock).0 in
    let pc = move one_reader.pc 1 (Threads.writer_goes (wlock_enter one_reader.lock).1) in
    system (rlock_enter l).0 (move pc 2 (Threads.reader_goes (rlock_enter l).1))

two_wait-Reach : Reach 3 two_wait
two_wait-Reach =
    later (later one_reader-Reach (act 1 (omega arith) Threads.wlock))
      (act 2 (omega arith) Threads.rlock)

-- The time of thread 1 runs out.
abbrev timed_out : System
timed_out = system (wlock_timeout two_wait.lock) (move two_wait.pc 1 outside)

two_wait_writer : two_wait.pc 1 ≡ writer_asleep
unfolding lock_program
two_wait_writer = refl

timed_out-Reach : Reach 3 timed_out
unfolding lock_program
timed_out-Reach = later two_wait-Reach (act 1 (omega arith) Threads.wtimeout)

-- Thread 1 writes.
abbrev one_writer : System
one_writer =
    system (wlock_enter rwl_init).0
      (move (λ _. outside) 1 (Threads.writer_goes (wlock_enter rwl_init).1))

one_writer-Reach : Reach 3 one_writer
one_writer-Reach = later initial (act 1 (omega arith) Threads.wlock)

Reach-Inv_example : Inv 3 timed_out.lock timed_out.pc
Reach-Inv_example = Reach-Inv timed_out-Reach

writer_excludes_example : (one_writer.pc 0 ≢ writing) × (one_writer.pc 0 ≢ reading)
unfolding lock_program
writer_excludes_example =
    writer_excludes one_writer-Reach 1 0 (omega arith) (omega arith) (omega arith) refl

reader_yields_example : (waits_to_write (start.pc 1) ≡ 0) × (start.pc 1 ≢ writing)
unfolding lock_program
reader_yields_example =
    reader_yields {n = 3} initial (act 0 (omega arith) Threads.rlock) 0 (λ e. ground (arith, e))
      refl 1 (omega arith)

runlock_strands_example :
    (move timed_out.pc 0 outside 2 ≡ reader_asleep)
    × ((rlock_test (rwl_runlock timed_out.lock).0).1 ≡ true)
unfolding lock_program tally
runlock_strands_example =
    runlock_strands timed_out-Reach 0 2 (omega arith) refl refl refl refl
      (move timed_out.pc 0 outside) Threads.wakes_none
