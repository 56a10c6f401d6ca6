-- ===== src/Malloclab/Driver/OnMm.antt =====
-- malloclab/mm.c under malloclab/mdriver.c: the contract of an allocator, and the runs of a trace.
pub mod Payloads
pub mod Calls
use mathlib.Core.Option.{none-ne-some, some-injective}
use cso_fall.Common.{
  ℕ, zero, suc, ◌+◌, ◌-◌, ◌%◌, ◌^◌, ◌≤◌, ◌<◌, ◌≡◌, ◌≢◌, ◌⊎◌, inl, inr, refl, sym, ap, subst, ◌∙◌,
  Bool, true, false, Option, none, some, List, [], ◌∷◌, ◌==◌, if◌then◌else◌, arith, All, to_nat,
  Bool-cases, ==_iff, pos, ℤ,
}
use cso_fall.Malloclab.Memlib.{Heap, mem_reset_brk, mem_heapsize, align}
use cso_fall.Malloclab.Headers.{header_to_payload}
use cso_fall.Malloclab.Mm.{Mm, mm_init, mm_malloc, mm_free, mm_realloc}
use cso_fall.Malloclab.Mm.Chunks.{
  Chunk, rev_append, starts, covers, within, IsChunk, starts-rev_append, covers-rev_append,
  All-rev_append, All-rev_append_parts,
}
use cso_fall.Malloclab.Mm.Valid.{Bounds, Valid, Tiled-starts, in_heap}
use cso_fall.Malloclab.Mm.Free.{mm_init-Valid, mm_free-Valid}
use cso_fall.Malloclab.Mm.Requests.{Source, mm_malloc-Valid}
use cso_fall.Malloclab.Mm.Realloc.{mm_realloc-Valid, Valid-bytes}
use cso_fall.Malloclab.Allocator.{
  Allocator, Contract, Live, no_payloads, with_payload, Usable, Grown, Request,
}
use cso_fall.Malloclab.Driver.OnMm.Payloads.{
  live_of, live_of-position, live_of-none, live_of-take, live_of-without, live_of-IsChunk,
  live_of-apart,
}
use cso_fall.Malloclab.Driver.{Traceop, Trial, eval_mm_valid, eval_mm_util, eval_mm_speed}
use cso_fall.Malloclab.Driver.Trace.{no_ids, Legal, low_bytes, needs}
use cso_fall.Malloclab.Driver.Totals.{peak}
use cso_fall.Malloclab.Driver.Verdict.{Room, eval_mm_valid_verdict}
use cso_fall.Malloclab.Driver.Speed.{eval_mm_util-peak, eval_mm_speed-ends}
use cso_fall.Malloclab.Driver.OnMm.Calls.{
  Carved, mm_malloc-Carved, mm_free-Carved, mm_realloc-Carved,
}

abbrev pub mm : Allocator
mm = record {
  State = Mm;
  heap = λ m. m.heap;
  bytes = λ m. m.bytes;
  with_heap = λ m h. record m { heap = h };
  with_bytes = λ m f. record m { bytes = f };
  mm_init = λ m. (pos (mm_init m).0, (mm_init m).1);
  mm_malloc = mm_malloc;
  mm_realloc = mm_realloc;
  mm_free = mm_free;
}

mm_init-Carved :
    (m : Mm)
    → Usable m.heap
    → let r = mm.mm_init (record m { heap = mem_reset_brk m.heap }) in
      (r.0 ≡ pos 0) × Carved r.1 no_payloads × (r.1.heap ≡ mem_reset_brk m.heap)
unfolding mm_init mem_reset_brk mem_heapsize
mm_init-Carved m u =
    let bounds : Bounds (mem_reset_brk m.heap) = record {
      above = u.above;
      grown = omega arith;
      limit = u.limit;
      wide = u.wide;
      aligned = u.aligned;
    } in
    let (zero_result, v) =
      mm_init-Valid (record m { heap = mem_reset_brk m.heap }) bounds (omega arith) in
    (refl, ([], [], (v, λ p. refl)), refl)

Carved-inside :
    (m : Mm) (live : Live) (p n : ℕ)
    → Carved m live
    → live p ≡ some n
    → (p % 16 ≡ 0) × (m.heap.mem_start_brk ≤ p) × (p + n ≤ m.heap.mem_brk)
Carved-inside m live p n (free, held, (v, same)) alive =
    let (ls, c, rs, (whole, at, sized, chunk, others)) =
      live_of-IsChunk m.heap.mem_start_brk m.heap.mem_brk held p n v.held_chunks
        (sym (same p) ∙ alive) in
    (
      omega (arith, at, chunk.aligned),
      omega (arith, at, chunk.low),
      omega (arith, at, sized, chunk.high),
    )

Carved-disjoint :
    (m : Mm) (live : Live) (p q n k : ℕ)
    → Carved m live
    → live p ≡ some n
    → live q ≡ some k
    → p ≢ q
    → (p + n ≤ q) ⊎ (q + k ≤ p)
Carved-disjoint m live p q n k (free, held, (v, same)) alive alive' other =
    let lo = m.heap.mem_start_brk in
    let hi = m.heap.mem_brk in
    let (ls, c, rs, (whole, at, sized, chunk, others)) =
      live_of-IsChunk lo hi held p n v.held_chunks (sym (same p) ∙ alive) in
    let v' = subst (Valid m free) whole v in
    let same' : (x : ℕ) → live x ≡ live_of (rev_append ls (c ∷ rs)) x =
      λ x. same x ∙ ap (λ h. live_of h x) whole in
    let test : (header_to_payload c.0 == q) ≡ false = ground (arith, other, at) in
    let found : live_of (rev_append ls rs) q ≡ some k =
      sym (live_of-without m live ls c rs free v' same' q) ∙ rw (test) alive' in
    let (xs, d, ys, (whole', at', sized', chunk', others')) =
      live_of-IsChunk lo hi (rev_append ls rs) q k others found in
    let apart =
      live_of-apart m ls c d rs xs ys free v' whole' (omega (arith, sized))
        (omega (arith, sized')) in
    ground (arith, apart, at, at', sized, sized')

-- mm.c keeps the contract of an allocator.
pub mm-Contract : Contract mm
mm-Contract = record {
  Holds = Carved;
  init = mm_init-Carved;
  malloc = mm_malloc-Carved;
  realloc = λ m live p n size h alive positive. mm_realloc-Carved m live p n size h alive;
  free = λ m live p n h alive positive. mm_free-Carved m live p n h alive;
  inside = Carved-inside;
  disjoint = Carved-disjoint;
  write = λ m live f (free, held, (v, same)).
      ((free, held, (Valid-bytes m f free held v, same)), refl, refl);
}

-- malloclab/mm.c under the three evaluations: for a legal trace with indices below n, for which the heap
-- has room, eval_mm_valid returns 1 where each index whose payload is resized has a low byte below 128,
-- and 0 otherwise; eval_mm_util gives the largest total of the sizes of the payloads, which is at most the
-- size of the heap, which is at most what the requests need; eval_mm_speed ends. The
-- heap starts at an aligned address above 0 and ends below 2^64.
pub mm_runs :
    (n : ℕ) (ops : List Traceop) (t : Trial Mm)
    → Usable t.state.heap
    → Legal no_ids ops
    → All (λ op. op.index < n) ops
    → Room (mem_reset_brk t.state.heap) (needs ops)
    → (eval_mm_valid mm ops t ≡ some (to_nat (low_bytes ops)))
      × ((size : ℕ) × ((eval_mm_util mm ops t ≡ some (pos (peak n no_ids ops), size))
            × (peak n no_ids ops ≤ size)
            × (size ≤ needs ops)))
      × ((t' : Trial Mm) × (eval_mm_speed mm ops (t.state, t.blocks) ≡ some (t'.state, t'.blocks)))
mm_runs n ops t usable legal listed room = (
  eval_mm_valid_verdict mm mm-Contract ops t usable legal room,
  eval_mm_util-peak mm mm-Contract n ops t usable legal listed room,
  eval_mm_speed-ends mm mm-Contract n ops t usable legal listed room,
)
