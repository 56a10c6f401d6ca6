-- ===== src/Malloclab/Driver/Verdict.antt =====
-- malloclab/mdriver.c: `eval_mm_valid` on an allocator that keeps its contract.
use cso_fall.Common.{
  ℕ, ◌+◌, ◌≤◌, ◌≡◌, refl, sym, ap, subst, ◌∙◌, true, false, some, List, [], ◌∷◌, if◌then◌else◌,
  arith, Bool-cases, inl, inr, to_nat,
}
use cso_fall.Malloclab.Memlib.{Heap, mem_reset_brk}
use cso_fall.Malloclab.Ranges.{clear_ranges}
use cso_fall.Malloclab.Allocator.{Allocator, Contract, Live, no_payloads, Usable}
use cso_fall.Malloclab.Driver.{
  RequestType, alloc, free, realloc, Traceop, Trial, valid_op, valid_loop, eval_mm_valid, reset,
  is_negative,
}
use cso_fall.Malloclab.Driver.Trace.{
  Ids, no_ids, after, LegalOp, Legal, low_byte, low_bytes, need, needs,
}
use cso_fall.Malloclab.Driver.Requests.{Follows, alloc-Follows, free-Follows}
use cso_fall.Malloclab.Driver.Resize.{realloc-Follows}

-- The heap has room for what the requests need.
abbrev pub Room : Heap → ℕ → Type 0
Room h n = h.mem_brk + n ≤ h.mem_max_addr

module _ (a : Allocator) (c : Contract a) where
  -- One request of a legal trace.
  valid_op-Follows :
      (type : RequestType) (op : Traceop) (t : Trial a.State) (ids : Ids) (live : Live) (rest : ℕ)
      → Follows a c t ids live
      → LegalOp type op ids
      → Room (a.heap t.state) (need type op.size + rest)
      → (t' t'' : Trial a.State) × (live' : Live) × ((valid_op a type op t
            ≡ some (if low_byte type op.index then (true, t') else (false, t'')))
          × Follows a c t' (after type op ids) live'
          × Room (a.heap t'.state) rest)
  valid_op-Follows alloc op t ids live rest f legal room =
      let (t', live', (e, f', grown)) =
        alloc-Follows a c op t ids live f legal.0 (legal.1.0, legal.1.1, omega (arith, room)) in
      (t', t', live', (e, f', omega (arith, room, grown.0, grown.1, grown.3)))
  valid_op-Follows realloc op t ids live rest f legal room =
      let (m, h) = legal.0 in
      let (t', t'', live', (e, f', grown)) =
        realloc-Follows a c op t ids live m f h (legal.1.0, legal.1.1, omega (arith, room)) in
      (t', t'', live', (e, f', omega (arith, room, grown.0, grown.1, grown.3)))
  valid_op-Follows free op t ids live rest f legal room =
      let (m, h) = legal in
      let (t', live', (e, f', same)) = free-Follows a c op t ids live m f h in
      (t', t', live', (e, f', subst (λ g. Room g rest) (sym same) (omega (arith, room))))

  valid_loop_lem :
      (ops : List Traceop) (t : Trial a.State) (ids : Ids) (live : Live)
      → Follows a c t ids live
      → Legal ids ops
      → Room (a.heap t.state) (needs ops)
      → valid_loop a ops t ≡ some (to_nat (low_bytes ops))
  unfolding valid_loop needs
  valid_loop_lem [] t ids live f legal room = refl
  valid_loop_lem (op ∷ ops) t ids live f legal room =
      let (t', t'', live', (e, f', room')) =
        valid_op-Follows op.type op t ids live (needs ops) f legal.0 room in
      let rest = valid_loop_lem ops t' (after op.type op ids) live' f' legal.1 room' in
      elim (Bool-cases (low_byte op.type op.index)) [
        | inl low ↦ rw (e, low) rest
        | inr high ↦ rw (e, high) refl
      ]

  -- On an allocator that keeps its contract, eval_mm_valid of a legal trace, for which the heap has room,
  -- returns 1 where each index whose payload is resized has a low byte below 128, and 0 otherwise. The heap
  -- starts at an aligned address above 0 and ends below 2^64.
  pub eval_mm_valid_verdict :
      (ops : List Traceop) (t : Trial a.State)
      → Usable (a.heap t.state)
      → Legal no_ids ops
      → Room (mem_reset_brk (a.heap t.state)) (needs ops)
      → eval_mm_valid a ops t ≡ some (to_nat (low_bytes ops))
  unfolding eval_mm_valid clear_ranges
  eval_mm_valid_verdict ops t usable legal room =
      let (started, holds, heap) = c.init t.state usable in
      let s = (reset a t.state).1 in
      let start : Trial a.State = record t { state = s; ranges = [] } in
      let f : Follows a c start no_ids no_payloads = record {
        holds = holds;
        owned = record { known = λ i m e. cc; single = λ i j m k p e. cc };
        listed = record { own = tt; distinct = tt };
        filled = λ i m p j e. cc;
      } in
      let run =
        valid_loop_lem ops start no_ids no_payloads f legal
          (subst (λ h. Room h (needs ops)) (sym heap) room) in
      ap (λ r. if is_negative r then some 0 else valid_loop a ops start) started ∙ run
