-- ===== src/Malloclab/Driver/Resize.antt =====
-- malloclab/mdriver.c, `eval_mm_valid`: a request for another size, and the bytes it has to keep.
use mathlib.Core.Option.{none-ne-some}
use cso_fall.Common.{
  ℕ, zero, suc, ◌+◌, ◌%◌, ◌≤◌, ◌<◌, ◌≡◌, ◌≢◌, inl, inr, refl, sym, ap, subst, ◌∙◌, Bool, true,
  false, none, some, List, if◌then◌else◌, arith, ltb, Bool-cases,
}
use cso_fall.Malloclab.Ranges.{Range, remove_range}
use cso_fall.Malloclab.Allocator.{Allocator, Contract, Live, with_payload, Grown, Request}
use cso_fall.Malloclab.Driver.{
  realloc, Traceop, Trial, set_entry, char_is, preserved, placed, remember, reallocated, valid_op,
}
use cso_fall.Malloclab.Driver.Trace.{Ids}
use cso_fall.Malloclab.Driver.Bookkeeping.{
  Owned-drop, Filled-drop, Filled-outside, set_entry-here, set_entry_there, set_entry_twice,
}
use cso_fall.Malloclab.Driver.Listed.{Listed-drop}
use cso_fall.Malloclab.Driver.Requests.{Follows, Clear-new, placed-Follows}

-- The bytes that `mm_realloc` has kept are found, where a `char` can have their value.
preserved_all :
    (n newp value : ℕ) (bytes : ℕ → ℕ)
    → ltb value 128 ≡ true
    → ((j : ℕ) → j < n → bytes (newp + j) ≡ value)
    → preserved n newp value bytes ≡ true
unfolding preserved
preserved_all zero newp value bytes low same = refl
preserved_all (suc n) newp value bytes low same =
    let first : bytes newp ≡ value = ap bytes (omega arith) ∙ same 0 (omega arith) in
    let is_char : char_is (bytes newp) value ≡ true = ground (arith, first, low) in
    let rest =
      preserved_all n (newp + 1) value bytes low
        (λ j lt. ap bytes (omega arith) ∙ same (j + 1) (omega (arith, lt))) in
    rw (is_char) rest

preserved_none :
    (n newp value : ℕ) (bytes : ℕ → ℕ)
    → ltb value 128 ≡ false
    → 0 < n
    → preserved n newp value bytes ≡ false
unfolding preserved
preserved_none zero newp value bytes high pos = absurd (omega (arith, pos))
preserved_none (suc n) newp value bytes high pos =
    let no_char : char_is (bytes newp) value ≡ false = ground (arith, high) in rw (no_char) refl

preserved_char :
    (n newp value : ℕ) (bytes : ℕ → ℕ)
    → 0 < n
    → ((j : ℕ) → j < n → bytes (newp + j) ≡ value)
    → preserved n newp value bytes ≡ ltb value 128
preserved_char n newp value bytes pos same = elim (Bool-cases (ltb value 128)) [
  | inl low ↦ preserved_all n newp value bytes low same ∙ sym low
  | inr high ↦ preserved_none n newp value bytes high pos ∙ sym high
]

module _ (a : Allocator) (c : Contract a) where
  -- The calls of a request for another size, where each succeeds, and the verdict on the bytes.
  realloc_goes :
      (op : Traceop) (t : Trial a.State) (p q m : ℕ) (s : a.State) (rs : List Range) (kept : Bool)
      → t.blocks op.index ≡ some p
      → a.mm_realloc (some p) op.size t.state ≡ some (some q, s)
      → t.block_sizes op.index ≡ m
      → placed a op q (record t { state = s; ranges = remove_range t.ranges p })
        ≡ some (true, record t { state = s; ranges = rs })
      → preserved (if ltb op.size m then op.size else m) q (op.index % 256) (a.bytes s) ≡ kept
      → valid_op a realloc op t
        ≡ some (
            if kept
            then (true, remember a op q (record t { state = s; ranges = rs }))
            else (false, record t { state = s; ranges = rs }))
  unfolding valid_op reallocated
  realloc_goes op t p q m s rs kept at served sized listed same =
      rw (at, served, sized, listed, same) refl

  pub realloc-Follows :
      (op : Traceop) (t : Trial a.State) (ids : Ids) (live : Live) (m : ℕ)
      → Follows a c t ids live
      → ids op.index ≡ some m
      → Request (a.heap t.state) op.size
      → (t' t'' : Trial a.State) × (live' : Live) × ((valid_op a realloc op t
            ≡ some (if ltb (op.index % 256) 128 then (true, t') else (false, t'')))
          × Follows a c t' (set_entry ids op.index (some op.size)) live'
          × Grown (a.heap t.state) (a.heap t'.state) op.size)
  realloc-Follows op t ids live m f h request =
      let i = op.index in
      let size = op.size in
      let (p, n, (at, sized, alive, room, pos)) = f.owned.known i m h in
      let (q, k, s, (served, fresh, holds, fits, grown, copied, kept)) =
        c.realloc t.state live p n size f.holds alive (omega (arith, room, pos)) request in
      let ids1 = set_entry ids i none in
      let live1 = with_payload live p none in
      let other : p ≢ q = λ e. none-ne-some n (sym fresh ∙ ap live (sym e) ∙ alive) in
      let fresh1 = set_entry_there live p q none other ∙ fresh in
      let owned1 = Owned-drop ids t.blocks t.block_sizes live i m p f.owned h at in
      let filled1 =
        Filled-outside ids1 t.blocks t.block_sizes live1 (a.bytes t.state) (a.bytes s) q k owned1
          (Clear-new a c s live1 q k k holds fresh1 (omega arith)) kept
          (Filled-drop ids t.blocks (a.bytes t.state) i f.filled) in
      let t1 : Trial a.State = record t { state = s; ranges = remove_range t.ranges p } in
      let (rs, (listed, follows, heap)) =
        placed-Follows a c op t1 ids1 live1 q k holds fresh1 fits request.0
          (set_entry-here ids i none) owned1 (Listed-drop ids t.blocks t.ranges i p f.listed at)
          filled1 in
      let t2 : Trial a.State = record t { state = s; ranges = rs } in
      let asked = request.0 in
      let oldsize = if ltb size m then size else m in
      let below_size : oldsize ≤ size = ground arith in
      let below_old : oldsize ≤ m = ground arith in
      let some_bytes : 0 < oldsize = ground (arith, asked, pos) in
      let same = preserved_char oldsize q (i % 256) (a.bytes s) some_bytes (λ j lt.
        copied j (omega (arith, lt, below_size)) (omega (arith, lt, below_old, room))
        ∙ f.filled i m p j h at (omega (arith, lt, below_old))) in
      (
        remember a op q t2,
        t2,
        with_payload live1 q (some k),
        (
          realloc_goes op t p q m s rs (ltb (i % 256) 128) at served sized listed same,
          subst (λ d. Follows a c (remember a op q t2) d (with_payload live1 q (some k)))
              (set_entry_twice ids i none (some size)) follows,
          subst (λ g. Grown (a.heap t.state) g size) (sym heap) grown,
        ),
      )
