-- ===== src/Malloclab/Driver/OnNaive.antt =====
-- malloclab/mm-naive.c under malloclab/mdriver.c: the contract of an allocator, and the runs of a trace.
pub mod Payloads
pub mod Calls
use mathlib.Core.Option.{none-ne-some, some-injective}
use cso_fall.Common.{
  ℕ, zero, suc, ◌+◌, ◌-◌, ◌%◌, ◌^◌, ◌≤◌, ◌<◌, ◌≡◌, ◌≢◌, ◌⊎◌, inl, inr, refl, sym, ap, subst, ◌∙◌,
  Bool, true, false, ◌&&◌, Option, none, some, List, [], ◌∷◌, ◌++◌, ◌==◌, if◌then◌else◌, arith, All,
  to_nat, Bool-cases, ==_iff, pos, ℤ,
}
use cso_fall.Malloclab.Memlib.{Heap, mem_reset_brk, mem_heapsize, align}
use cso_fall.Malloclab.Naive.{
  Naive, set_word, header_to_payload, mm_init, mm_malloc, mm_free, mm_realloc,
}
use cso_fall.Malloclab.Naive.Chain.{Item, Chain, span, Chain-span, Chain-within}
use cso_fall.Malloclab.Naive.Laws.{Laid, Grows, mm_malloc-Laid, mm_free-Laid}
use cso_fall.Malloclab.Naive.Realloc.{append_assoc, Laid-bytes, mm_realloc-Laid}
use cso_fall.Malloclab.Allocator.{
  Allocator, Contract, Live, no_payloads, with_payload, Usable, Grown, Request,
}
use cso_fall.Malloclab.Driver.OnNaive.Payloads.{
  used_of, used_of-position, used_of-outside, used_of-append, used_of-free, used_of-inside,
  used_of-disjoint,
}
use cso_fall.Malloclab.Driver.{Traceop, Trial, eval_mm_valid, eval_mm_util, eval_mm_speed}
use cso_fall.Malloclab.Driver.Trace.{no_ids, Legal, low_bytes, needs}
use cso_fall.Malloclab.Driver.Totals.{peak}
use cso_fall.Malloclab.Driver.Verdict.{Room, eval_mm_valid_verdict}
use cso_fall.Malloclab.Driver.Speed.{eval_mm_util-peak, eval_mm_speed-ends}
use cso_fall.Malloclab.Driver.OnNaive.Calls.{
  InUse, mm_malloc-InUse, mm_free-InUse, mm_realloc-InUse,
}

abbrev pub naive : Allocator
naive = record {
  State = Naive;
  heap = λ m. m.heap;
  bytes = λ m. m.bytes;
  with_heap = λ m h. record m { heap = h };
  with_bytes = λ m f. record m { bytes = f };
  mm_init = λ m. (pos (mm_init m).0, (mm_init m).1);
  mm_malloc = mm_malloc;
  mm_realloc = mm_realloc;
  mm_free = mm_free;
}

mm_init-InUse :
    (m : Naive)
    → Usable m.heap
    → let r = naive.mm_init (record m { heap = mem_reset_brk m.heap }) in
      (r.0 ≡ pos 0) × InUse r.1 no_payloads × (r.1.heap ≡ mem_reset_brk m.heap)
unfolding mem_reset_brk
mm_init-InUse m u = (
  refl,
  ([], (record { chain = refl; aligned = u.aligned; limit = u.limit; wide = u.wide }, λ p. refl)),
  refl,
)

-- mm-naive.c keeps the contract of an allocator.
pub naive-Contract : Contract naive
naive-Contract = record {
  Holds = InUse;
  init = mm_init-InUse;
  malloc = mm_malloc-InUse;
  realloc = mm_realloc-InUse;
  free = mm_free-InUse;
  inside = λ m live p n (cs, (laid, same)) alive.
      (let (aligned, low, high) =
          used_of-inside m.size_n_status m.heap.mem_start_brk m.heap.mem_brk p n cs laid.chain
            laid.aligned (sym (same p) ∙ alive) in
        (aligned, omega (arith, low), high));
  disjoint = λ m live p q n k (cs, (laid, same)) alive alive' other.
      used_of-disjoint m.size_n_status m.heap.mem_start_brk m.heap.mem_brk p q n k cs laid.chain
        laid.aligned (sym (same p) ∙ alive) (sym (same q) ∙ alive') other;
  write = λ m live f (cs, (laid, same)). ((cs, (Laid-bytes m f cs laid, same)), refl, refl);
}

-- malloclab/mm-naive.c under the three evaluations: for a legal trace with indices below n, for which the heap
-- has room, eval_mm_valid returns 1 where each index whose payload is resized has a low byte below 128,
-- and 0 otherwise; eval_mm_util gives the largest total of the sizes of the payloads, which is at most the
-- size of the heap, which is at most what the requests need; eval_mm_speed ends. The
-- heap starts at an aligned address above 0 and ends below 2^64.
pub naive_runs :
    (n : ℕ) (ops : List Traceop) (t : Trial Naive)
    → Usable t.state.heap
    → Legal no_ids ops
    → All (λ op. op.index < n) ops
    → Room (mem_reset_brk t.state.heap) (needs ops)
    → (eval_mm_valid naive ops t ≡ some (to_nat (low_bytes ops)))
      × ((size : ℕ) × ((eval_mm_util naive ops t ≡ some (pos (peak n no_ids ops), size))
            × (peak n no_ids ops ≤ size)
            × (size ≤ needs ops)))
      × ((t' : Trial Naive) × (eval_mm_speed naive ops (t.state, t.blocks)
            ≡ some (t'.state, t'.blocks)))
naive_runs n ops t usable legal listed room = (
  eval_mm_valid_verdict naive naive-Contract ops t usable legal room,
  eval_mm_util-peak naive naive-Contract n ops t usable legal listed room,
  eval_mm_speed-ends naive naive-Contract n ops t usable legal listed room,
)
