-- ===== src/Threadlab/Rwlock/Yields.antt =====
-- When a thread takes the lock for reading.
use cso_fall.Common.{ℕ, ◌<◌, ◌≡◌, ◌≢◌, refl, ap, ◌∙◌, arith, Bool, true, false, ◌||◌}
use cso_fall.Threadlab.Rwlock.{Rwl, Wake, holds, rlock_test, rlock_enter, wlock_test, wlock_enter}
use cso_fall.Threadlab.Rwlock.Threads
use cso_fall.Threadlab.Rwlock.Threads.{
  Pc, outside, reader_asleep, reader_woken, writer_asleep, writer_woken, reading, writing, move,
  wake_reader, reader_goes, writer_goes, System, system, Wakes, wakes_none, wakes_writer,
  wakes_no_writer, wakes_readers, Act, Step, act, Reach,
}
use cso_fall.Threadlab.Rwlock.Count.{waits_to_write, reads, writes, le-tally}
use cso_fall.Threadlab.Rwlock.Safety.{Reach-Inv}

-- No thread writes or waits to write, by the counters.
abbrev Free : Rwl → Type 0
Free l = holds l.n_writers || holds l.n_waiting_writers ≡ false

rlock_test-Free : (l : Rwl) → reads (reader_goes (rlock_test l).1) ≡ 1 → Free l
unfolding rlock_test
rlock_test-Free l e = ground (arith, e)

rlock_enter-Free : (l : Rwl) → reads (reader_goes (rlock_enter l).1) ≡ 1 → Free l
unfolding rlock_enter
rlock_enter-Free l e = ground (arith, e)

-- A thread that moves reads afterwards where the move is to `reading`, or where it read.
move-reads :
    (pc : ℕ → Pc) (i : ℕ) (p : Pc) (k : ℕ)
    → reads (pc k) ≡ 0
    → reads (move pc i p k) ≡ 1
    → reads p ≡ 1
move-reads pc i p k old new = ground (arith, old, new)

outside-reads : (pc : ℕ → Pc) (i k : ℕ) → reads (pc k) ≡ 0 → reads (move pc i outside k) ≡ 0
outside-reads pc i k old = ground (arith, old)

writer_goes-reads : (b : Bool) → reads (writer_goes b) ≡ 0
writer_goes-reads true = refl
writer_goes-reads false = refl

wake_reader-reads : (p : Pc) → reads (wake_reader p) ≡ reads p
wake_reader-reads p = ground arith

Wakes-reads :
    {n : ℕ} {pc pc' : ℕ → Pc} {w : Wake}
    → Wakes n pc w pc'
    → (k : ℕ) → reads (pc k) ≡ 0
    → reads (pc' k) ≡ 0
Wakes-reads wakes_none k e = e
Wakes-reads (wakes_no_writer h) k e = e
Wakes-reads {n} {pc} (wakes_writer j lt at) k e = ground (arith, e)
Wakes-reads {n} {pc} wakes_readers k e = wake_reader-reads (pc k) ∙ e

-- A thread that begins to read does so by `rwl_rlock`, entered or woken.
Act-yields :
    {n i : ℕ} {l l' : Rwl} {pc pc' : ℕ → Pc} {p : Pc}
    → Act n i l pc p l' pc'
    → (k : ℕ) → reads (pc k) ≡ 0
    → reads (pc' k) ≡ 1
    → Free l
Act-yields {i} {l} {pc} Threads.rlock k old new = rlock_enter-Free l (move-reads pc i _ k old new)
Act-yields {i} {l} {pc} Threads.rretry k old new = rlock_test-Free l (move-reads pc i _ k old new)
Act-yields {i} {pc} Threads.rtimeout k old new =
    absurd (omega (arith, move-reads pc i outside k old new))
Act-yields {i} {pc} Threads.rspurious k old new =
    absurd (omega (arith, move-reads pc i reader_woken k old new))
Act-yields {i} {pc} (Threads.runlock w) k old new =
    absurd (omega (arith, Wakes-reads w k (outside-reads pc i k old)))
Act-yields {i} {l} {pc} Threads.wlock k old new =
    let b = (wlock_enter l).1 in
    absurd (omega (arith, writer_goes-reads b, move-reads pc i (writer_goes b) k old new))
Act-yields {i} {l} {pc} Threads.wretry k old new =
    let b = (wlock_test l).1 in
    absurd (omega (arith, writer_goes-reads b, move-reads pc i (writer_goes b) k old new))
Act-yields {i} {pc} Threads.wtimeout k old new =
    absurd (omega (arith, move-reads pc i outside k old new))
Act-yields {i} {pc} Threads.wspurious k old new =
    absurd (omega (arith, move-reads pc i writer_woken k old new))
Act-yields {i} {pc} (Threads.wunlock w) k old new =
    absurd (omega (arith, Wakes-reads w k (outside-reads pc i k old)))

Step-yields :
    {n : ℕ} {s t : System}
    → Step n s t
    → (k : ℕ) → reads (s.pc k) ≡ 0
    → reads (t.pc k) ≡ 1
    → Free s.lock
Step-yields (act i lt a) = Act-yields a

not_reading : (p : Pc) → p ≢ reading → reads p ≡ 0
not_reading p h = ground arith

-- In every step from a reachable state in which a thread that did not read takes the lock for
-- reading, no thread writes and none waits to write before the step.
pub reader_yields :
    {n : ℕ} {s t : System}
    → Reach n s
    → Step n s t
    → (i : ℕ) → s.pc i ≢ reading
    → t.pc i ≡ reading
    → (j : ℕ) → j < n
    → (waits_to_write (s.pc j) ≡ 0) × (s.pc j ≢ writing)
reader_yields {n} {s} r step i before after j lt =
    let v = Reach-Inv r in
    let free = Step-yields step i (not_reading (s.pc i) before) (ap reads after) in
    let waits = le-tally waits_to_write n s.pc j lt in
    let writes = le-tally writes n s.pc j lt in
    (ground (arith, v, free, waits), (λ e. ground (arith, v, free, writes)))
