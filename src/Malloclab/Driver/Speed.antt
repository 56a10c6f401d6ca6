-- ===== src/Malloclab/Driver/Speed.antt =====
-- malloclab/mdriver.c: `eval_mm_util` and `eval_mm_speed` on an allocator that keeps its contract.
use cso_fall.Common.{
  ℕ, ◌≤◌, ◌<◌, ◌≡◌, inl, inr, refl, ap, ◌∙◌, Option, none, some, List, [], ◌∷◌, if◌then◌else◌, All,
  Option-cases, ◌>>=◌, ℤ, pos,
}
use cso_fall.Malloclab.Memlib.{mem_reset_brk, mem_heapsize}
use cso_fall.Malloclab.Allocator.{Allocator, Contract, Usable}
use cso_fall.Malloclab.Driver.{
  RequestType, alloc, free, realloc, Traceop, Trial, Usage, util_op, util_loop, eval_mm_util,
  replay_op, replay, eval_mm_speed, reset, is_negative,
}
use cso_fall.Malloclab.Driver.Trace.{no_ids, Legal, needs}
use cso_fall.Malloclab.Driver.Totals.{peak}
use cso_fall.Malloclab.Driver.Verdict.{Room}
use cso_fall.Malloclab.Driver.Counting.{usage}
use cso_fall.Malloclab.Driver.Util.{util_loop-runs}

module _ (a : Allocator) where
  -- The part of the run that `eval_mm_speed` keeps.
  abbrev speed_part : Option (Trial a.State × Usage) → Option (a.State × (ℕ → Option ℕ))
  speed_part o = o >>= λ (t, u). some (t.state, t.blocks)

  -- The part of it that `eval_mm_util` gives.
  abbrev util_part : Option (Trial a.State × Usage) → Option (ℤ × ℕ)
  util_part o = o >>= λ (t, u). some (u.max_total_size, mem_heapsize (a.heap t.state))

  replay_op-util_op :
      (type : RequestType) (op : Traceop) (t : Trial a.State) (u : Usage)
      → replay_op a type op (t.state, t.blocks) ≡ speed_part (util_op a type op t u)
  unfolding replay_op util_op
  replay_op-util_op alloc op t u = elim (Option-cases (a.mm_malloc op.size t.state)) [
    | inl e ↦ rw (e) refl
    | inr ((none, s), e) ↦ rw (e) refl
    | inr ((some p, s), e) ↦ rw (e) refl
  ]
  replay_op-util_op realloc op t u =
      elim (Option-cases (a.mm_realloc (t.blocks op.index) op.size t.state)) [
        | inl e ↦ rw (e) refl
        | inr ((none, s), e) ↦ rw (e) refl
        | inr ((some p, s), e) ↦ rw (e) refl
      ]
  replay_op-util_op free op t u = elim (Option-cases (t.blocks op.index)) [
    | inl e ↦ rw (e) refl
    | inr (p, e) ↦ elim (Option-cases (a.mm_free p t.state)) [
      | inl e' ↦ rw (e, e') refl
      | inr (s, e') ↦ rw (e, e') refl
    ]
  ]

  -- The loop of eval_mm_speed makes the calls of the loop of eval_mm_util, on any allocator: from the same
  -- state and the same blocks, it ends where that one ends, with the same state and the same blocks.
  pub replay-util_loop :
      (ops : List Traceop) (t : Trial a.State) (u : Usage)
      → replay a ops (t.state, t.blocks)
        ≡ (util_loop a ops t u >>= λ (t', u'). some (t'.state, t'.blocks))
  unfolding replay util_loop
  replay-util_loop [] t u = refl
  replay-util_loop (op ∷ ops) t u =
      let first = replay_op-util_op op.type op t u in
      elim (Option-cases (util_op a op.type op t u)) [
        | inl e ↦ rw (first, e) refl
        | inr ((t', u'), e) ↦ rw (first, e) (replay-util_loop ops t' u')
      ]

module _ (a : Allocator) (c : Contract a) (n : ℕ) where
  -- On an allocator that keeps its contract, eval_mm_util of a legal trace with indices below n, for which
  -- the heap has room, gives the largest total of the sizes of its payloads and the size of the heap; the
  -- total is at most that size, and the size is at most what the requests need.
  pub eval_mm_util-peak :
      (ops : List Traceop) (t : Trial a.State)
      → Usable (a.heap t.state)
      → Legal no_ids ops
      → All (λ op. op.index < n) ops
      → Room (mem_reset_brk (a.heap t.state)) (needs ops)
      → (size : ℕ) × ((eval_mm_util a ops t ≡ some (pos (peak n no_ids ops), size))
          × (peak n no_ids ops ≤ size)
          × (size ≤ needs ops))
  unfolding eval_mm_util
  eval_mm_util-peak ops t usable legal listed room =
      let (started, (t', total, (e, fits, most))) =
        util_loop-runs a c n ops t usable legal listed room in
      let start : Trial a.State = record t { state = (reset a t.state).1 } in
      (
        mem_heapsize (a.heap t'.state),
        (
          ap (λ r. if is_negative r then none else util_part a (util_loop a ops start (usage 0 0)))
                started
              ∙ ap (util_part a) e,
          fits,
          most,
        ),
      )

  -- On an allocator that keeps its contract, eval_mm_speed runs a legal trace to its end, where the heap
  -- has room for the requests and the indices are below n.
  pub eval_mm_speed-ends :
      (ops : List Traceop) (t : Trial a.State)
      → Usable (a.heap t.state)
      → Legal no_ids ops
      → All (λ op. op.index < n) ops
      → Room (mem_reset_brk (a.heap t.state)) (needs ops)
      → (t' : Trial a.State) × (eval_mm_speed a ops (t.state, t.blocks)
          ≡ some (t'.state, t'.blocks))
  unfolding eval_mm_speed
  eval_mm_speed-ends ops t usable legal listed room =
      let (started, (t', total, (e, fits, most))) =
        util_loop-runs a c n ops t usable legal listed room in
      let start : Trial a.State = record t { state = (reset a t.state).1 } in
      let run = replay-util_loop a ops start (usage 0 0) ∙ ap (speed_part a) e in
      (
        t',
        ap (λ r. if is_negative r then none else replay a ops (start.state, start.blocks)) started
            ∙ run,
      )
