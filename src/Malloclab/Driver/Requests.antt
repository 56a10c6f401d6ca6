-- ===== src/Malloclab/Driver/Requests.antt =====
-- malloclab/mdriver.c, `eval_mm_valid`: one request, over an allocator that keeps its contract.
use mathlib.Core.Option.{none-ne-some}
use cso_fall.Common.{
  ℕ, ◌+◌, ◌%◌, ◌≤◌, ◌<◌, ◌≡◌, ◌≢◌, ◌⊎◌, inl, inr, refl, sym, ap, subst, ◌∙◌, true, none, some, List,
  arith,
}
use cso_fall.Malloclab.Ranges.{Range, remove_range}
use cso_fall.Malloclab.Allocator.{Allocator, Contract, Live, with_payload, Grown, Request}
use cso_fall.Malloclab.Driver.{
  alloc, free, Traceop, Trial, set_entry, memset, placed, remember, allocated, valid_op,
}
use cso_fall.Malloclab.Driver.Trace.{Ids}
use cso_fall.Malloclab.Driver.Bookkeeping.{
  Owned, Owned-drop, Owned-take, Filled, Filled-drop, Filled-take, Clear, set_entry-here,
  set_entry_there,
}
use cso_fall.Malloclab.Driver.Listed.{Listed, Listed-drop, add_range-Listed}

-- The run has kept its arrays, its range list and the bytes in step with the allocator.
pub record Follows (a : Allocator) (c : Contract a) (t : Trial a.State) (ids : Ids) (live : Live)
    : Type 0 where
  pub holds : c.Holds t.state live
  pub owned : Owned ids t.blocks t.block_sizes live
  pub listed : Listed ids t.blocks t.ranges
  pub filled : Filled ids t.blocks (a.bytes t.state)

module _ (a : Allocator) (c : Contract a) where
  -- The bytes of a new payload are apart from the old ones.
  pub Clear-new :
      (s : a.State) (live : Live) (q k m : ℕ)
      → c.Holds s (with_payload live q (some k))
      → live q ≡ none
      → m ≤ k
      → Clear live q m
  Clear-new s live q k m holds fresh le p n alive =
      let other : q ≢ p = λ e. none-ne-some n (sym fresh ∙ ap live e ∙ alive) in
      let apart =
        c.disjoint s (with_payload live q (some k)) q p k n holds (set_entry-here live q (some k))
          (set_entry_there live q p (some k) other ∙ alive) other in
      turn apart
    where
      turn : (q + k ≤ p) ⊎ (p + n ≤ q) → (p + n ≤ q) ⊎ (q + m ≤ p)
      turn (inl h) = inr (omega (arith, h, le))
      turn (inr h) = inl h

  -- A new payload of an index that has none is listed, filled and remembered.
  pub placed-Follows :
      (op : Traceop) (t : Trial a.State) (ids : Ids) (live : Live) (q k : ℕ)
      → c.Holds t.state (with_payload live q (some k))
      → live q ≡ none
      → op.size ≤ k
      → 0 < op.size
      → ids op.index ≡ none
      → Owned ids t.blocks t.block_sizes live
      → Listed ids t.blocks t.ranges
      → Filled ids t.blocks (a.bytes t.state)
      → (rs : List Range) × ((placed a op q t ≡ some (true, record t { ranges = rs }))
          × Follows a c
              (remember a op q (record t { ranges = rs }))
              (set_entry ids op.index (some op.size))
              (with_payload live q (some k))
          × (a.heap (remember a op q (record t { ranges = rs })).state ≡ a.heap t.state))
  unfolding placed remember
  placed-Follows op t ids live q k holds fresh fits pos none_yet owned listed filled =
      let i = op.index in
      let m = op.size in
      let clear = Clear-new t.state live q k m holds fresh fits in
      let (aligned, low, high) =
        c.inside t.state (with_payload live q (some k)) q k holds
          (set_entry-here live q (some k)) in
      let (rs, (e, listed')) =
        add_range-Listed (a.heap t.state) ids t.blocks t.block_sizes live t.ranges i q m owned
          listed none_yet fresh pos clear aligned low (omega (arith, high, fits)) in
      let (holds', heap, bytes) =
        c.write t.state (with_payload live q (some k)) (memset (a.bytes t.state) q (i % 256) m)
          holds in
      (
        rs,
        (
          rw (e) refl,
          record {
            holds = holds';
            owned = Owned-take ids t.blocks t.block_sizes live i m q k owned fresh fits pos;
            listed = listed';
            filled =
                subst (λ f. Filled (set_entry ids i (some m)) (set_entry t.blocks i (some q)) f)
                  (sym bytes)
                  (Filled-take ids t.blocks t.block_sizes live (a.bytes t.state) i m q owned clear
                    filled);
          },
          heap,
        ),
      )

  pub alloc-Follows :
      (op : Traceop) (t : Trial a.State) (ids : Ids) (live : Live)
      → Follows a c t ids live
      → ids op.index ≡ none
      → Request (a.heap t.state) op.size
      → (t' : Trial a.State) × (live' : Live) × ((valid_op a alloc op t ≡ some (true, t'))
          × Follows a c t' (set_entry ids op.index (some op.size)) live'
          × Grown (a.heap t.state) (a.heap t'.state) op.size)
  unfolding valid_op allocated
  alloc-Follows op t ids live f none_yet request =
      let (p, n, s, (served, fresh, holds, fits, grown, bytes)) =
        c.malloc t.state live op.size f.holds request in
      let t1 : Trial a.State = record t { state = s } in
      let (rs, (listed, follows, heap)) =
        placed-Follows op t1 ids live p n holds fresh fits request.0 none_yet f.owned f.listed
          (subst (λ g. Filled ids t.blocks g) (sym bytes) f.filled) in
      let t2 = remember a op p (record t1 { ranges = rs }) in
      (
        t2,
        with_payload live p (some n),
        (
          rw (served, listed) refl,
          follows,
          subst (λ h. Grown (a.heap t.state) h op.size) (sym heap) grown,
        ),
      )

  pub free-Follows :
      (op : Traceop) (t : Trial a.State) (ids : Ids) (live : Live) (m : ℕ)
      → Follows a c t ids live
      → ids op.index ≡ some m
      → (t' : Trial a.State) × (live' : Live) × ((valid_op a free op t ≡ some (true, t'))
          × Follows a c t' (set_entry ids op.index none) live'
          × (a.heap t'.state ≡ a.heap t.state))
  unfolding valid_op
  free-Follows op t ids live m f h =
      let (p, n, (at, sized, alive, fits, pos)) = f.owned.known op.index m h in
      let (s, (freed, holds, heap, bytes)) =
        c.free t.state live p n f.holds alive (omega (arith, fits, pos)) in
      (
        record t { state = s; ranges = remove_range t.ranges p },
        with_payload live p none,
        (
          rw (at, freed) refl,
          record {
            holds = holds;
            owned = Owned-drop ids t.blocks t.block_sizes live op.index m p f.owned h at;
            listed = Listed-drop ids t.blocks t.ranges op.index p f.listed at;
            filled =
                subst (λ g. Filled (set_entry ids op.index none) t.blocks g) (sym bytes)
                  (Filled-drop ids t.blocks (a.bytes t.state) op.index f.filled);
          },
          heap,
        ),
      )
