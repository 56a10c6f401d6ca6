-- ===== src/Malloclab/Driver/Tests.antt =====
-- Runs of a trace, and uses of the theorems on it, over the two allocators.
use cso_fall.Common.{ℕ, ◌≤◌, ◌≡◌, refl, true, false, none, some, List, [], ◌∷◌, arith, pos, ◌>>=◌}
use cso_fall.Common.Sums.{sum_below}
use cso_fall.Malloclab.Memlib.{
  Heap, mem_reset_brk, is_aligned, mem_heapsize, mem_heap_lo, mem_heap_hi,
}
use cso_fall.Malloclab.Ranges.{add_range, remove_range, finds_overlap, clear_ranges}
use cso_fall.Malloclab.Mm.{Mm}
use cso_fall.Malloclab.Naive.{Naive}
use cso_fall.Malloclab.Allocator.{Allocator, Usable}
use cso_fall.Malloclab.Driver.{
  set_entry, memset, alloc, free, realloc, Traceop, Trial, preserved, placed, remember, allocated,
  reallocated, valid_op, valid_loop, eval_mm_valid, util_op, util_loop, eval_mm_util, replay,
  eval_mm_speed,
}
use cso_fall.Malloclab.Driver.Checked.{Checked, Reached, start, request, Reached-Checked}
use cso_fall.Malloclab.Driver.Trace.{no_ids, Legal, needs}
use cso_fall.Malloclab.Driver.Totals.{peak}
use cso_fall.Malloclab.Driver.Verdict.{Room, eval_mm_valid_verdict}
use cso_fall.Malloclab.Driver.Speed.{replay-util_loop}
use cso_fall.Malloclab.Driver.OnMm.{mm, mm-Contract, mm_runs}
use cso_fall.Malloclab.Driver.OnNaive.{naive, naive_runs}

abbrev small_heap : Heap
small_heap = record { mem_start_brk = 16; mem_brk = 16; mem_max_addr = 4112 }

abbrev an_mm : Trial Mm
an_mm = record {
  state = record {
    mem = λ a. record { size = 0; next = none; prev = none; status = false };
    bytes = λ a. 0;
    global_allocated_list_head = none;
    global_free_list = none;
    heap = small_heap;
  };
  ranges = [];
  blocks = λ i. none;
  block_sizes = λ i. 0;
}

abbrev a_naive : Trial Naive
a_naive = record {
  state = record { size_n_status = λ a. 0; bytes = λ a. 0; heap = small_heap };
  ranges = [];
  blocks = λ i. none;
  block_sizes = λ i. 0;
}

-- Two payloads, of which the second one is resized after the first is freed.
abbrev a_trace : List Traceop
a_trace =
    record { type = alloc; index = 0; size = 100 }
    ∷ record { type = alloc; index = 1; size = 50 }
    ∷ record { type = free; index = 0; size = 0 }
    ∷ record { type = realloc; index = 1; size = 20 }
    ∷ []

-- The resized payload has the index 128.
abbrev high_trace : List Traceop
high_trace =
    record { type = alloc; index = 128; size = 10 }
    ∷ record { type = realloc; index = 128; size = 20 }
    ∷ []

a_trace-Legal : Legal no_ids a_trace
a_trace-Legal = (
  (refl, (omega arith, omega arith)),
  (
    (refl, (omega arith, omega arith)),
    ((100, refl), (((50, refl), (omega arith, omega arith)), tt)),
  ),
)

high_trace-Legal : Legal no_ids high_trace
high_trace-Legal =
    ((refl, (omega arith, omega arith)), (((10, refl), (omega arith, omega arith)), tt))

small_heap-Usable : Usable small_heap
small_heap-Usable = record {
  above = omega arith;
  aligned = refl;
  limit = omega arith;
  wide = omega arith;
}

a_trace-Room : Room (mem_reset_brk small_heap) (needs a_trace)
unfolding mem_reset_brk needs
a_trace-Room = omega arith

high_trace-Room : Room (mem_reset_brk small_heap) (needs high_trace)
unfolding mem_reset_brk needs
high_trace-Room = omega arith

eval_mm_valid_verdict_example : eval_mm_valid mm high_trace an_mm ≡ some 0
eval_mm_valid_verdict_example =
    eval_mm_valid_verdict mm mm-Contract high_trace an_mm small_heap-Usable high_trace-Legal
      high_trace-Room

mm_runs_example :
    (eval_mm_valid mm a_trace an_mm ≡ some 1)
    × ((size : ℕ) × ((eval_mm_util mm a_trace an_mm ≡ some (pos (peak 2 no_ids a_trace), size))
          × (peak 2 no_ids a_trace ≤ size)
          × (size ≤ needs a_trace)))
    × ((t' : Trial Mm) × (eval_mm_speed mm a_trace (an_mm.state, an_mm.blocks)
          ≡ some (t'.state, t'.blocks)))
mm_runs_example =
    mm_runs 2 a_trace an_mm small_heap-Usable a_trace-Legal
      (omega arith, (omega arith, (omega arith, (omega arith, tt)))) a_trace-Room

naive_runs_example :
    (eval_mm_valid naive a_trace a_naive ≡ some 1)
    × ((size : ℕ) × ((eval_mm_util naive a_trace a_naive ≡ some (pos (peak 2 no_ids a_trace), size))
          × (peak 2 no_ids a_trace ≤ size)
          × (size ≤ needs a_trace)))
    × ((t' : Trial Naive) × (eval_mm_speed naive a_trace (a_naive.state, a_naive.blocks)
          ≡ some (t'.state, t'.blocks)))
naive_runs_example =
    naive_runs 2 a_trace a_naive small_heap-Usable a_trace-Legal
      (omega arith, (omega arith, (omega arith, (omega arith, tt)))) a_trace-Room

-- The largest total is reached before the first payload is freed.
a_trace-peak : peak 2 no_ids a_trace ≡ 150
unfolding sum_below
a_trace-peak = refl

replay-util_loop_example : replay naive a_trace (a_naive.state, a_naive.blocks) ≡ (
    util_loop naive a_trace a_naive (record { total_size = pos 0; max_total_size = pos 0 })
    >>= λ (t', u'). some (t'.state, t'.blocks))
replay-util_loop_example =
    replay-util_loop naive a_trace a_naive (record { total_size = pos 0; max_total_size = pos 0 })

-- An allocator that hands out one address only.
abbrev stuck : Allocator
stuck = record {
  State = Heap × (ℕ → ℕ);
  heap = λ s. record s.0 { mem_brk = 4112 };
  bytes = λ s. s.1;
  with_heap = λ s h. (h, s.1);
  with_bytes = λ s f. (s.0, f);
  mm_init = λ s. (pos 0, s);
  mm_malloc = λ size s. some (some 32, s);
  mm_realloc = λ p size s. some (some 32, s);
  mm_free = λ p s. some s;
}

abbrev a_stuck : Trial (Heap × (ℕ → ℕ))
a_stuck = record {
  state = (small_heap, λ x. 0);
  ranges = [];
  blocks = λ i. none;
  block_sizes = λ i. 0;
}

-- It fails where two payloads overlap, and passes where there is one only.
stuck_verdicts :
    (eval_mm_valid stuck a_trace a_stuck ≡ some 0)
    × (eval_mm_valid stuck
          (record { type = alloc; index = 3; size = 9 }
            ∷ record { type = realloc; index = 3; size = 5 }
            ∷ record { type = free; index = 3; size = 0 }
            ∷ [])
          a_stuck
        ≡ some 1)
    × (eval_mm_util stuck a_trace a_stuck ≡ some (pos 150, 4096))
unfolding eval_mm_valid valid_loop valid_op allocated reallocated placed remember preserved
    add_range remove_range finds_overlap clear_ranges mem_reset_brk mem_heapsize mem_heap_lo
    mem_heap_hi is_aligned eval_mm_util util_loop util_op
stuck_verdicts = (refl, refl, refl)

-- One payload of 9 bytes.
abbrev one_payload : Trial (Heap × (ℕ → ℕ))
one_payload = record {
  state = (small_heap, memset (λ x. 0) 32 3 9);
  ranges = record { lo = 32; hi = 40 } ∷ [];
  blocks = set_entry (λ i. none) 3 (some 32);
  block_sizes = set_entry (λ i. 0) 3 9;
}

-- The second request fails, and its payload is not in the list.
one_payload-Reached : Reached stuck one_payload
unfolding valid_op allocated placed remember add_range finds_overlap clear_ranges mem_reset_brk
    mem_heap_lo mem_heap_hi is_aligned
one_payload-Reached =
    let op : Traceop = record { type = alloc; index = 3; size = 9 } in
    request op one_payload one_payload false
      (request op (record a_stuck { ranges = [] }) one_payload true (start a_stuck) refl) refl

Reached-Checked_example : Checked (record { lo = 32; hi = 40 } ∷ [])
Reached-Checked_example = Reached-Checked stuck one_payload one_payload-Reached
