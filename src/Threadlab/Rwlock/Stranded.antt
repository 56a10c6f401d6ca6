-- ===== src/Threadlab/Rwlock/Stranded.antt =====
-- A reader that a waiting writer held up, when that writer's time has run out.
use cso_fall.Common.{ℕ, ◌+◌, ◌<◌, ◌≡◌, refl, true, arith, pos}
use cso_fall.Threadlab.Rwlock.{Wake, nothing, rlock_test, rwl_runlock, rwl_nwaiters}
use cso_fall.Threadlab.Rwlock.Threads.{
  Pc, outside, reader_asleep, reading, move, System, Wakes, wakes_none, wakes_writer,
  wakes_no_writer, wakes_readers, Reach,
}
use cso_fall.Threadlab.Rwlock.Count.{waits_to_read, waits_to_write, reads, tally}
use cso_fall.Threadlab.Rwlock.Safety.{Reach-Inv}

-- `rwl_nwaiters` counts the threads that wait for the lock, and none that holds it.
pub rwl_nwaiters_lem :
    {n : ℕ} {s : System}
    → Reach n s
    → rwl_nwaiters s.lock ≡ pos (tally waits_to_read n s.pc + tally waits_to_write n s.pc)
unfolding rwl_nwaiters
rwl_nwaiters_lem r = let v = Reach-Inv r in ground arith

Wakes-nothing :
    {n : ℕ} {pc pc' : ℕ → Pc} {w : Wake} → Wakes n pc w pc' → w ≡ nothing → (j : ℕ) → pc' j ≡ pc j
Wakes-nothing wakes_none e j = refl
Wakes-nothing (wakes_writer i lt s) e j = cc
Wakes-nothing (wakes_no_writer h) e j = cc
Wakes-nothing wakes_readers e j = cc

-- When the last reader leaves and no thread waits to write, a reader that sleeps is not woken, though
-- the test that it waits for would now pass.
pub runlock_strands :
    {n : ℕ} {s : System}
    → Reach n s
    → (i j : ℕ) → i < n
    → s.pc i ≡ reading
    → s.pc j ≡ reader_asleep
    → tally reads n s.pc ≡ 1
    → tally waits_to_write n s.pc ≡ 0
    → (pc' : ℕ → Pc) → Wakes n (move s.pc i outside) (rwl_runlock s.lock).1 pc'
    → (pc' j ≡ reader_asleep) × ((rlock_test (rwl_runlock s.lock).0).1 ≡ true)
unfolding rwl_runlock rlock_test
runlock_strands {n} {s} r i j hi ei ej one none_wait pc' w =
    let v = Reach-Inv r in
    let quiet : (rwl_runlock s.lock).1 ≡ nothing = ground arith in
    let still = Wakes-nothing w quiet j in (ground arith, ground arith)
