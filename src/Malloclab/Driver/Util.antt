-- ===== src/Malloclab/Driver/Util.antt =====
-- malloclab/mdriver.c: the statistics that `eval_mm_util` keeps, on an allocator that keeps its contract.
use mathlib.Core.Option.{none-ne-some}
use cso_fall.Common.{
  ℕ, ◌+◌, ◌≤◌, ◌<◌, ◌≡◌, ◌≢◌, refl, sym, ap, subst, ◌∙◌, none, some, List, [], ◌∷◌, arith, All, pos,
}
use cso_fall.Common.Sums.{sum_below_zero}
use cso_fall.Malloclab.Memlib.{Heap, mem_reset_brk, mem_heapsize}
use cso_fall.Malloclab.Allocator.{Allocator, Contract, Live, no_payloads, with_payload, Usable}
use cso_fall.Malloclab.Driver.{
  RequestType, alloc, free, realloc, Traceop, Trial, set_entry, util_op, util_loop, reset,
}
use cso_fall.Malloclab.Driver.Trace.{Ids, no_ids, after, LegalOp, Legal, need, needs}
use cso_fall.Malloclab.Driver.Bookkeeping.{
  Owned, Owned-drop, Owned-take, set_entry_there, set_entry_twice,
}
use cso_fall.Malloclab.Driver.Totals.{
  size_of, live_total, larger, peak, live_total-le-peak, live_total-set_entry, live_total-le-heap,
}
use cso_fall.Malloclab.Driver.Verdict.{Room}
use cso_fall.Malloclab.Driver.Counting.{usage, util_alloc_goes, util_realloc_goes, util_free_goes}

-- The statistics are those of the payloads, which fit the heap.
record Counts (a : Allocator) (c : Contract a) (t : Trial a.State) (n : ℕ) (ids : Ids) (live : Live)
    (max_total : ℕ) : Type 0 where
  holds : c.Holds t.state live
  owned : Owned ids t.blocks t.block_sizes live
  below : live_total n ids ≤ max_total
  fits : max_total ≤ mem_heapsize (a.heap t.state)

-- The heap has room for what is left to do, and has grown by `k` bytes at most.
abbrev Onward : Heap → Heap → (k rest : ℕ) → Type 0
Onward h h' k rest =
    Room h' rest
    × (h'.mem_start_brk ≡ h.mem_start_brk)
    × (h.mem_brk ≤ h'.mem_brk)
    × (h'.mem_brk ≤ h.mem_brk + k)

module _ (a : Allocator) (c : Contract a) (n : ℕ) where
  counted :
      (t t' : Trial a.State) (ids ids' : Ids) (live live' : Live) (max_total grown rest : ℕ)
      → Counts a c t n ids live max_total
      → c.Holds t'.state live'
      → Owned ids' t'.blocks t'.block_sizes live'
      → Onward (a.heap t.state) (a.heap t'.state) grown rest
      → Counts a c t' n ids' live' (larger max_total (live_total n ids'))
  unfolding mem_heapsize
  counted t t' ids ids' live live' max_total grown rest k holds owned onward =
      let all = live_total-le-heap a c t'.state live' ids' t'.blocks t'.block_sizes holds owned n in
      let old = k.fits in
      record {
        holds = holds;
        owned = owned;
        below = ground arith;
        fits = ground (arith, all, old, onward);
      }

  -- One request, and what it does to the statistics.
  abbrev Steps : RequestType → Traceop → Trial a.State → Ids → ℕ → ℕ → Type 0
  Steps type op t ids max_total rest =
      let ids' = after type op ids in
      let max' = larger max_total (live_total n ids') in
      (t' : Trial a.State) × (live' : Live) × ((util_op a type op t
            (usage (live_total n ids) max_total)
          ≡ some (t', usage (live_total n ids') max'))
        × Counts a c t' n ids' live' max'
        × Onward (a.heap t.state) (a.heap t'.state) (need type op.size) rest)

  util_alloc :
      (op : Traceop) (t : Trial a.State) (ids : Ids) (live : Live) (max_total rest : ℕ)
      → Counts a c t n ids live max_total
      → LegalOp alloc op ids
      → op.index < n
      → Room (a.heap t.state) (need alloc op.size + rest)
      → Steps alloc op t ids max_total rest
  util_alloc op t ids live max_total rest k (none_yet, (positive, small)) lt room =
      let i = op.index in
      let total = live_total n ids in
      let (p, m, s, (served, fresh, holds, fits, grown, bytes)) =
        c.malloc t.state live op.size k.holds (positive, small, omega (arith, room)) in
      let t' : Trial a.State = record t {
        state = s;
        blocks = set_entry t.blocks i (some p);
        block_sizes = set_entry t.block_sizes i op.size;
      } in
      let total' : live_total n (set_entry ids i (some op.size)) ≡ total + op.size =
        omega (arith, live_total-set_entry n i ids (some op.size) lt, ap size_of none_yet) in
      let onward : Onward (a.heap t.state) (a.heap s) (op.size + 47) rest =
        (omega (arith, room, grown), grown.0, grown.2, omega (arith, grown.3)) in
      (
        t',
        with_payload live p (some m),
        (
          util_alloc_goes a op t s p total (live_total n (set_entry ids i (some op.size))) max_total
              served total',
          counted t t' ids (set_entry ids i (some op.size)) live (with_payload live p (some m))
              max_total (op.size + 47) rest k holds
              (Owned-take ids t.blocks t.block_sizes live i op.size p m k.owned fresh fits positive)
              onward,
          onward,
        ),
      )

  util_realloc :
      (op : Traceop) (t : Trial a.State) (ids : Ids) (live : Live) (max_total rest : ℕ)
      → Counts a c t n ids live max_total
      → LegalOp realloc op ids
      → op.index < n
      → Room (a.heap t.state) (need realloc op.size + rest)
      → Steps realloc op t ids max_total rest
  util_realloc op t ids live max_total rest k ((old, h), (positive, small)) lt room =
      let i = op.index in
      let total = live_total n ids in
      let ids' = set_entry ids i (some op.size) in
      let (p, m, (at, sized, alive, fits, pos_old)) = k.owned.known i old h in
      let (q, r, s, (served, fresh, holds, fits', grown, copied, kept)) =
        c.realloc t.state live p m op.size k.holds alive (omega (arith, fits, pos_old))
          (positive, small, omega (arith, room)) in
      let t' : Trial a.State = record t {
        state = s;
        blocks = set_entry t.blocks i (some q);
        block_sizes = set_entry t.block_sizes i op.size;
      } in
      let ids1 = set_entry ids i none in
      let live1 = with_payload live p none in
      let other : p ≢ q = λ e. none-ne-some m (sym fresh ∙ ap live (sym e) ∙ alive) in
      let owned1 = Owned-drop ids t.blocks t.block_sizes live i old p k.owned h at in
      let owned2 =
        Owned-take ids1 t.blocks t.block_sizes live1 i op.size q r owned1
          (set_entry_there live p q none other ∙ fresh) fits' positive in
      let owned' =
        subst (λ d. Owned d t'.blocks t'.block_sizes (with_payload live1 q (some r)))
          (set_entry_twice ids i none (some op.size)) owned2 in
      let sum : live_total n ids' + old ≡ total + op.size =
        omega (arith, live_total-set_entry n i ids (some op.size) lt, ap size_of h) in
      let onward : Onward (a.heap t.state) (a.heap s) (op.size + 47) rest =
        (omega (arith, room, grown), grown.0, grown.2, omega (arith, grown.3)) in
      (
        t',
        with_payload live1 q (some r),
        (
          util_realloc_goes a op t s p q old total (live_total n ids') max_total at sized served
              sum,
          counted t t' ids ids' live (with_payload live1 q (some r)) max_total (op.size + 47) rest k
              holds owned' onward,
          onward,
        ),
      )

  util_free :
      (op : Traceop) (t : Trial a.State) (ids : Ids) (live : Live) (max_total rest : ℕ)
      → Counts a c t n ids live max_total
      → LegalOp free op ids
      → op.index < n
      → Room (a.heap t.state) (need free op.size + rest)
      → Steps free op t ids max_total rest
  util_free op t ids live max_total rest k (old, h) lt room =
      let i = op.index in
      let total = live_total n ids in
      let ids' = set_entry ids i none in
      let (p, m, (at, sized, alive, fits, pos_old)) = k.owned.known i old h in
      let (s, (freed, holds, heap, bytes)) =
        c.free t.state live p m k.holds alive (omega (arith, fits, pos_old)) in
      let t' : Trial a.State = record t { state = s } in
      let sum : live_total n ids' + old ≡ total =
        omega (arith, live_total-set_entry n i ids none lt, ap size_of h) in
      let onward : Onward (a.heap t.state) (a.heap s) 0 rest =
        subst (λ g. Onward (a.heap t.state) g 0 rest) (sym heap)
          (omega (arith, room), refl, omega arith, omega arith) in
      (
        t',
        with_payload live p none,
        (
          util_free_goes a op t s p old total (live_total n ids') max_total at sized freed sum
              k.below,
          counted t t' ids ids' live (with_payload live p none) max_total 0 rest k holds
              (Owned-drop ids t.blocks t.block_sizes live i old p k.owned h at) onward,
          onward,
        ),
      )

  util_op-Counts :
      (type : RequestType) (op : Traceop) (t : Trial a.State) (ids : Ids) (live : Live)
      (max_total rest : ℕ)
      → Counts a c t n ids live max_total
      → LegalOp type op ids
      → op.index < n
      → Room (a.heap t.state) (need type op.size + rest)
      → Steps type op t ids max_total rest
  util_op-Counts alloc = util_alloc
  util_op-Counts realloc = util_realloc
  util_op-Counts free = util_free

  util_loop-peak :
      (ops : List Traceop) (t : Trial a.State) (ids : Ids) (live : Live) (max_total : ℕ)
      → Counts a c t n ids live max_total
      → Legal ids ops
      → All (λ op. op.index < n) ops
      → Room (a.heap t.state) (needs ops)
      → (t' : Trial a.State) × (total : ℕ) × ((util_loop a ops t
              (usage (live_total n ids) max_total)
            ≡ some (t', usage total (larger max_total (peak n ids ops))))
          × (larger max_total (peak n ids ops) ≤ mem_heapsize (a.heap t'.state))
          × (mem_heapsize (a.heap t'.state) ≤ mem_heapsize (a.heap t.state) + needs ops))
  unfolding util_loop needs mem_heapsize
  util_loop-peak [] t ids live max_total k legal listed room =
      let le = k.below in
      let same : larger max_total (live_total n ids) ≡ max_total = ground (arith, le) in
      (
        t,
        live_total n ids,
        (
          ap (λ z. some (t, usage (live_total n ids) z)) (sym same),
          omega (arith, same, k.fits),
          omega arith,
        ),
      )
  util_loop-peak (op ∷ ops) t ids live max_total k legal listed room =
      let ids' = after op.type op ids in
      let (t1, live1, (e, k1, onward)) =
        util_op-Counts op.type op t ids live max_total (needs ops) k legal.0 listed.0 room in
      let (t', total, (e', fits, grown)) =
        util_loop-peak ops t1 ids' live1 (larger max_total (live_total n ids')) k1 legal.1 listed.1
          onward.0 in
      let low = live_total-le-peak n ids' ops in
      let le = k.below in
      let same : larger (larger max_total (live_total n ids')) (peak n ids' ops)
          ≡ larger max_total (larger (live_total n ids) (peak n ids' ops)) =
        ground (arith, low, le) in
      (
        t',
        total,
        (
          rw (e) (e' ∙ ap (λ z. some (t', usage total z)) same),
          omega (arith, fits, same),
          omega (arith, grown, onward),
        ),
      )

  -- The loop of `eval_mm_util`, from the state after the reset on.
  pub util_loop-runs :
      (ops : List Traceop) (t : Trial a.State)
      → Usable (a.heap t.state)
      → Legal no_ids ops
      → All (λ op. op.index < n) ops
      → Room (mem_reset_brk (a.heap t.state)) (needs ops)
      → ((reset a t.state).0 ≡ pos 0)
        × ((t' : Trial a.State) × (total : ℕ) × ((util_loop a ops
                  (record t { state = (reset a t.state).1 })
                  (usage 0 0)
                ≡ some (t', usage total (peak n no_ids ops)))
              × (peak n no_ids ops ≤ mem_heapsize (a.heap t'.state))
              × (mem_heapsize (a.heap t'.state) ≤ needs ops)))
  unfolding mem_heapsize mem_reset_brk
  util_loop-runs ops t usable legal listed room =
      let (started, holds, heap) = c.init t.state usable in
      let s = (reset a t.state).1 in
      let start : Trial a.State = record t { state = s } in
      let none_yet : live_total n no_ids ≡ 0 = sum_below_zero n (λ i. 0) (λ i lt. refl) in
      let k : Counts a c start n no_ids no_payloads 0 = record {
        holds = holds;
        owned = record { known = λ i m e. cc; single = λ i j m k p e. cc };
        below = omega (arith, none_yet);
        fits = omega arith;
      } in
      let (t', total, (e, fits, grown)) =
        util_loop-peak ops start no_ids no_payloads 0 k legal listed
          (subst (λ h. Room h (needs ops)) (sym heap) room) in
      let same : larger 0 (peak n no_ids ops) ≡ peak n no_ids ops = ground arith in
      let e' =
        subst (λ z. util_loop a ops start (usage z 0) ≡ some (t', usage total (peak n no_ids ops)))
          none_yet (e ∙ ap (λ z. some (t', usage total z)) same) in
      let empty : mem_heapsize (a.heap s) ≡ 0 = ap mem_heapsize heap ∙ omega arith in
      (started, (t', total, (e', omega (arith, fits, same), omega (arith, grown, empty))))
