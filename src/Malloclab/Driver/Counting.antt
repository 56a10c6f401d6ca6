-- ===== src/Malloclab/Driver/Counting.antt =====
-- malloclab/mdriver.c, `eval_mm_util`: the statistics after one request.
use cso_fall.Common.{
  ℕ, suc, ◌+◌, ◌-◌, ◌≤◌, ◌≡◌, inl, inr, refl, sym, ap, true, some, arith, Bool-cases, ltb, leb, pos,
}
use cso_fall.Common.Int.{◌+ℤ◌, ◌-ℤ◌}
use cso_fall.Malloclab.Allocator.{Allocator}
use cso_fall.Malloclab.Driver.{
  alloc, free, realloc, Traceop, Trial, Usage, max_of, set_entry, util_op,
}
use cso_fall.Malloclab.Driver.Totals.{larger}

max_of_pos : (a b : ℕ) → max_of (pos a) (pos b) ≡ pos (larger b a)
max_of_pos a b = elim (Bool-cases (ltb b a)) [ inl e ↦ rw (e) refl | inr e ↦ rw (e) refl ]

resized_total :
    (total size old total' : ℕ)
    → total' + old ≡ total + size
    → pos total +ℤ (pos size -ℤ pos old) ≡ pos total'
resized_total total size old total' e = elim (Bool-cases (leb old size)) [
  | inl le ↦ rw (le) (ap pos (ground (arith, e, le)))
  | inr gt ↦
      (let fits : leb (suc (old - size - 1)) total ≡ true = ground (arith, e, gt) in
        rw (gt, fits) (ap pos (ground (arith, e, gt))))
]

freed_total : (total old total' : ℕ) → total' + old ≡ total → pos total -ℤ pos old ≡ pos total'
freed_total total old total' e =
    let le : leb old total ≡ true = ground (arith, e) in rw (le) (ap pos (omega (arith, e)))

abbrev pub usage : (total max_total : ℕ) → Usage
usage total max_total = record { total_size = pos total; max_total_size = pos max_total }

module _ (a : Allocator) where
  -- The calls of a request, where each succeeds, and its statistics.
  pub util_alloc_goes :
      (op : Traceop) (t : Trial a.State) (s : a.State) (p total total' max_total : ℕ)
      → a.mm_malloc op.size t.state ≡ some (some p, s)
      → total' ≡ total + op.size
      → util_op a alloc op t (usage total max_total)
        ≡ some (
          record t {
            state = s;
            blocks = set_entry t.blocks op.index (some p);
            block_sizes = set_entry t.block_sizes op.index op.size;
          },
          usage total' (larger max_total total'),
        )
  unfolding util_op
  util_alloc_goes op t s p total total' max_total served e =
      rw (served, sym e, max_of_pos total' max_total) refl

  pub util_realloc_goes :
      (op : Traceop) (t : Trial a.State) (s : a.State) (p q old total total' max_total : ℕ)
      → t.blocks op.index ≡ some p
      → t.block_sizes op.index ≡ old
      → a.mm_realloc (some p) op.size t.state ≡ some (some q, s)
      → total' + old ≡ total + op.size
      → util_op a realloc op t (usage total max_total)
        ≡ some (
          record t {
            state = s;
            blocks = set_entry t.blocks op.index (some q);
            block_sizes = set_entry t.block_sizes op.index op.size;
          },
          usage total' (larger max_total total'),
        )
  unfolding util_op
  util_realloc_goes op t s p q old total total' max_total at sized served e =
      rw (at, served, sized, resized_total total op.size old total' e, max_of_pos total' max_total)
        refl

  pub util_free_goes :
      (op : Traceop) (t : Trial a.State) (s : a.State) (p old total total' max_total : ℕ)
      → t.blocks op.index ≡ some p
      → t.block_sizes op.index ≡ old
      → a.mm_free p t.state ≡ some s
      → total' + old ≡ total
      → total ≤ max_total
      → util_op a free op t (usage total max_total)
        ≡ some (record t { state = s }, usage total' (larger max_total total'))
  unfolding util_op
  util_free_goes op t s p old total total' max_total at sized freed e le =
      let same : larger max_total total' ≡ max_total = ground (arith, e, le) in
      rw (at, freed, sized, freed_total total old total' e, same) refl
