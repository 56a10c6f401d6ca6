-- ===== src/Threadlab/Rwlock/Safety.antt =====
-- What the counters count, and whom the lock excludes.
use cso_fall.Common.{ℕ, ◌+◌, ◌≤◌, ◌<◌, ◌≡◌, ◌≢◌, refl, ap, sym, arith, pos}
use cso_fall.Threadlab.Rwlock.{
  Rwl, Wake, rwl_init, rlock_test, rlock_enter, rlock_timeout, rwl_runlock, wlock_test, wlock_enter,
  wlock_timeout, rwl_wunlock,
}
use cso_fall.Threadlab.Rwlock.Threads
use cso_fall.Threadlab.Rwlock.Threads.{
  Pc, outside, reader_asleep, reader_woken, writer_asleep, writer_woken, reading, writing, move,
  wake_reader, reader_goes, writer_goes, System, system, Wakes, wakes_none, wakes_writer,
  wakes_no_writer, wakes_readers, Act, Step, act, start, Reach, initial, later,
}
use cso_fall.Threadlab.Rwlock.Count.{
  waits_to_read, waits_to_write, reads, writes, tally, tally-move, tally_same, le-tally,
  two-le-tally, tally-eq-zero,
}

pub record Inv (n : ℕ) (l : Rwl) (pc : ℕ → Pc) : Type 0 where
  pub waiting_readers : l.n_waiting_readers ≡ pos (tally waits_to_read n pc)
  pub waiting_writers : l.n_waiting_writers ≡ pos (tally waits_to_write n pc)
  pub readers : l.n_readers ≡ pos (tally reads n pc)
  pub writers : l.n_writers ≡ pos (tally writes n pc)
  pub one_writer : tally writes n pc ≤ 1
  pub apart : 0 < tally writes n pc → tally reads n pc ≡ 0

-- A wake-up changes no count.
record Same (n : ℕ) (pc pc' : ℕ → Pc) : Type 0 where
  waiting_readers : tally waits_to_read n pc' ≡ tally waits_to_read n pc
  waiting_writers : tally waits_to_write n pc' ≡ tally waits_to_write n pc
  readers : tally reads n pc' ≡ tally reads n pc
  writers : tally writes n pc' ≡ tally writes n pc

Wakes-Same : {n : ℕ} {pc pc' : ℕ → Pc} {w : Wake} → Wakes n pc w pc' → Same n pc pc'
Wakes-Same wakes_none = record {
  waiting_readers = refl;
  waiting_writers = refl;
  readers = refl;
  writers = refl;
}
Wakes-Same (wakes_no_writer h) = record {
  waiting_readers = refl;
  waiting_writers = refl;
  readers = refl;
  writers = refl;
}
Wakes-Same {n} {pc} (wakes_writer j lt e) = record {
  waiting_readers = ground (arith, tally-move waits_to_read n pc j writer_woken lt);
  waiting_writers = ground (arith, tally-move waits_to_write n pc j writer_woken lt);
  readers = ground (arith, tally-move reads n pc j writer_woken lt);
  writers = ground (arith, tally-move writes n pc j writer_woken lt);
}
Wakes-Same {n} {pc} wakes_readers = record {
  waiting_readers = tally_same waits_to_read n pc _ (λ i. ground arith);
  waiting_writers = tally_same waits_to_write n pc _ (λ i. ground arith);
  readers = tally_same reads n pc _ (λ i. ground arith);
  writers = tally_same writes n pc _ (λ i. ground arith);
}

-- Thread `i` goes from `p` to `p'`.
record Moves (n : ℕ) (pc : ℕ → Pc) (i : ℕ) (p p' : Pc) : Type 0 where
  waiting_readers :
      tally waits_to_read n (move pc i p') + waits_to_read p
      ≡ tally waits_to_read n pc + waits_to_read p'
  waiting_writers :
      tally waits_to_write n (move pc i p') + waits_to_write p
      ≡ tally waits_to_write n pc + waits_to_write p'
  readers : tally reads n (move pc i p') + reads p ≡ tally reads n pc + reads p'
  writers : tally writes n (move pc i p') + writes p ≡ tally writes n pc + writes p'

moves : {n : ℕ} (pc : ℕ → Pc) (i : ℕ) (p' : Pc) → i < n → Moves n pc i (pc i) p'
moves {n} pc i p' lt = record {
  waiting_readers = tally-move waits_to_read n pc i p' lt;
  waiting_writers = tally-move waits_to_write n pc i p' lt;
  readers = tally-move reads n pc i p' lt;
  writers = tally-move writes n pc i p' lt;
}

Inv-Same : {n : ℕ} {l : Rwl} {pc pc' : ℕ → Pc} → Same n pc pc' → Inv n l pc → Inv n l pc'
Inv-Same s v = ground arith

module _ {n : ℕ} {l : Rwl} {pc : ℕ → Pc} (v : Inv n l pc) (i : ℕ) where
  abbrev Moved : Pc → Type 0
  Moved p = (p' : Pc) → Moves n pc i p p'

  rlock-Inv : Moved outside → Inv n (rlock_enter l).0 (move pc i (reader_goes (rlock_enter l).1))
  unfolding rlock_enter
  rlock-Inv m = ground (arith, m reading, m reader_asleep)

  rretry-Inv :
      Moved reader_woken → Inv n (rlock_test l).0 (move pc i (reader_goes (rlock_test l).1))
  unfolding rlock_test
  rretry-Inv m = ground (arith, m reading, m reader_asleep)

  wlock-Inv : Moved outside → Inv n (wlock_enter l).0 (move pc i (writer_goes (wlock_enter l).1))
  unfolding wlock_enter
  wlock-Inv m = ground (arith, m writing, m writer_asleep)

  wretry-Inv :
      Moved writer_woken → Inv n (wlock_test l).0 (move pc i (writer_goes (wlock_test l).1))
  unfolding wlock_test
  wretry-Inv m = ground (arith, m writing, m writer_asleep)

  rtimeout-Inv : Moved reader_asleep → Inv n (rlock_timeout l) (move pc i outside)
  unfolding rlock_timeout
  rtimeout-Inv m = ground (arith, m outside)

  wtimeout-Inv : Moved writer_asleep → Inv n (wlock_timeout l) (move pc i outside)
  unfolding wlock_timeout
  wtimeout-Inv m = ground (arith, m outside)

  rspurious-Inv : Moved reader_asleep → Inv n l (move pc i reader_woken)
  rspurious-Inv m = ground (arith, m reader_woken)

  wspurious-Inv : Moved writer_asleep → Inv n l (move pc i writer_woken)
  wspurious-Inv m = ground (arith, m writer_woken)

  runlock-Inv : Moved reading → Inv n (rwl_runlock l).0 (move pc i outside)
  unfolding rwl_runlock
  runlock-Inv m = ground (arith, m outside)

  wunlock-Inv : Moved writing → Inv n (rwl_wunlock l).0 (move pc i outside)
  unfolding rwl_wunlock
  wunlock-Inv m = ground (arith, m outside)

  Act-Inv : {p : Pc} {l' : Rwl} {pc' : ℕ → Pc} → Act n i l pc p l' pc' → Moved p → Inv n l' pc'
  Act-Inv Threads.rlock m = rlock-Inv m
  Act-Inv Threads.rretry m = rretry-Inv m
  Act-Inv Threads.rtimeout m = rtimeout-Inv m
  Act-Inv Threads.rspurious m = rspurious-Inv m
  Act-Inv (Threads.runlock w) m = Inv-Same (Wakes-Same w) (runlock-Inv m)
  Act-Inv Threads.wlock m = wlock-Inv m
  Act-Inv Threads.wretry m = wretry-Inv m
  Act-Inv Threads.wtimeout m = wtimeout-Inv m
  Act-Inv Threads.wspurious m = wspurious-Inv m
  Act-Inv (Threads.wunlock w) m = Inv-Same (Wakes-Same w) (wunlock-Inv m)

-- Every step keeps the counters equal to the numbers of threads, and the lock exclusive.
pub Step-Inv : {n : ℕ} {s t : System} → Step n s t → Inv n s.lock s.pc → Inv n t.lock t.pc
Step-Inv {s} (act i lt a) v = Act-Inv v i a (λ p'. moves s.pc i p' lt)

start-Inv : (n : ℕ) → Inv n start.lock start.pc
unfolding rwl_init
start-Inv n = record {
  waiting_readers = ap pos (sym (tally-eq-zero waits_to_read n _ (λ i. refl)));
  waiting_writers = ap pos (sym (tally-eq-zero waits_to_write n _ (λ i. refl)));
  readers = ap pos (sym (tally-eq-zero reads n _ (λ i. refl)));
  writers = ap pos (sym (tally-eq-zero writes n _ (λ i. refl)));
  one_writer = omega (arith, tally-eq-zero writes n (λ _. outside) (λ i. refl));
  apart = λ h. tally-eq-zero reads n _ (λ i. refl);
}

-- In every reachable state the four counters are the numbers of threads that wait to read, wait to
-- write, write and read; at most one thread writes, and while one does, none reads.
pub Reach-Inv : {n : ℕ} {s : System} → Reach n s → Inv n s.lock s.pc
Reach-Inv {n} initial = start-Inv n
Reach-Inv (later r step) = Step-Inv step (Reach-Inv r)

-- While a thread writes, no other thread writes or reads, whatever the interleaving, the wake-ups and
-- the time limits were.
pub writer_excludes :
    {n : ℕ} {s : System}
    → Reach n s
    → (i j : ℕ) → i < n
    → j < n
    → i ≢ j
    → s.pc i ≡ writing
    → (s.pc j ≢ writing) × (s.pc j ≢ reading)
writer_excludes {n} {s} r i j hi hj ne w =
    let v = Reach-Inv r in
    let two = two-le-tally writes n s.pc i j hi hj ne in
    let one = le-tally writes n s.pc i hi in
    let other = le-tally reads n s.pc j hj in
    ((λ e. ground (arith, two)), (λ e. ground (arith, one, other)))
