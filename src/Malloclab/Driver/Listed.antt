-- ===== src/Malloclab/Driver/Listed.antt =====
-- malloclab/mdriver.c: the range list, against the arrays of the trace.
use mathlib.Core.Option.{none-ne-some, some-injective}
use cso_fall.Common.{
  ℕ, ◌+◌, ◌-◌, ◌%◌, ◌≤◌, ◌<◌, ◌≡◌, ◌≢◌, ◌⊎◌, inl, inr, sym, ap, subst, ◌∙◌, true, Option, none,
  some, List, [], ◌∷◌, ◌==◌, arith, All, Bool-cases,
}
use cso_fall.Malloclab.Memlib.{Heap, is_aligned, mem_heap_lo, mem_heap_hi}
use cso_fall.Malloclab.Ranges.{Range, add_range, remove_range}
use cso_fall.Malloclab.Ranges.Checks.{
  Apart, Within, IsRange, Distinct, without, remove_range-without, add_range_iff,
}
use cso_fall.Malloclab.Allocator.{Live}
use cso_fall.Malloclab.Driver.{set_entry}
use cso_fall.Malloclab.Driver.Trace.{Ids}
use cso_fall.Malloclab.Driver.Bookkeeping.{Owned, Clear, set_entry-here, set_entry_there}

-- The range is the payload of an index.
abbrev pub Own : Ids → (ℕ → Option ℕ) → Range → Type 0
Own ids blocks r =
    (i m : ℕ) × ((ids i ≡ some m) × (blocks i ≡ some r.lo) × (r.hi + 1 ≡ r.lo + m) × (0 < m))

-- The list holds payloads of the trace, each once.
pub record Listed (ids : Ids) (blocks : ℕ → Option ℕ) (ranges : List Range) : Type 0 where
  pub own : All (Own ids blocks) ranges
  pub distinct : Distinct ranges

All-map :
    (P Q : Range → Type 0) → ((r : Range) → P r → Q r) → (rs : List Range) → All P rs → All Q rs
All-map P Q f [] h = tt
All-map P Q f (r ∷ rs) h = (f r h.0, All-map P Q f rs h.1)

-- What is left without `lo`.
without-All :
    (P : Range → Type 0) (lo : ℕ) (rs : List Range)
    → All P rs
    → All (λ r. P r × (lo ≢ r.lo)) (without lo rs)
unfolding without
without-All P lo [] h = tt
without-All P lo (r ∷ rs) h = elim (Bool-cases (r.lo == lo)) [
  | inl e ↦ rw (e) (without-All P lo rs h.1)
  | inr e ↦ rw (e) ((h.0, (λ same. ground (arith, e, same))), without-All P lo rs h.1)
]

without-Distinct : (lo : ℕ) (rs : List Range) → Distinct rs → Distinct (without lo rs)
unfolding without
without-Distinct lo [] d = tt
without-Distinct lo (r ∷ rs) d = elim (Bool-cases (r.lo == lo)) [
  | inl e ↦ rw (e) (without-Distinct lo rs d.1)
  | inr e ↦
      (let rest =
          All-map (λ q. (q.lo ≢ r.lo) × (lo ≢ q.lo)) (λ q. q.lo ≢ r.lo) (λ q h. h.0) (without lo rs)
            (without-All (λ q. q.lo ≢ r.lo) lo rs d.0) in
        rw (e) (rest, without-Distinct lo rs d.1))
]

-- The payload of one index leaves the list.
pub Listed-drop :
    (ids : Ids) (blocks : ℕ → Option ℕ) (ranges : List Range) (i p : ℕ)
    → Listed ids blocks ranges
    → blocks i ≡ some p
    → Listed (set_entry ids i none) blocks (remove_range ranges p)
Listed-drop ids blocks ranges i p l at =
    let own =
      All-map (λ r. Own ids blocks r × (p ≢ r.lo)) (Own (set_entry ids i none) blocks) still_own
        (without p ranges) (without-All (Own ids blocks) p ranges l.own) in
    subst (λ rs. Listed (set_entry ids i none) blocks rs)
      (sym (remove_range-without ranges p l.distinct))
      (record { own = own; distinct = without-Distinct p ranges l.distinct })
  where
    still_own : (r : Range) → Own ids blocks r × (p ≢ r.lo) → Own (set_entry ids i none) blocks r
    still_own r ((j, m, (h, b, e, pos)), ne) =
        (let other : i ≢ j = λ same. ne (some-injective p r.lo (sym at ∙ ap blocks same ∙ b)) in
          (j, m, (set_entry_there ids i j none other ∙ h, b, e, pos)))

-- A range of the list, against a new payload.
old_range :
    (ids : Ids) (blocks : ℕ → Option ℕ) (sizes : ℕ → ℕ) (live : Live) (q m : ℕ) (r : Range)
    → Owned ids blocks sizes live
    → live q ≡ none
    → 0 < m
    → Clear live q m
    → Own ids blocks r
    → (Apart q (q + m - 1) r ⊎ Within q (q + m - 1) r) × (r.lo ≢ q) × IsRange r
old_range ids blocks sizes live q m r o fresh pos clear (j, n, (h, at, e, some_size)) =
    let (p, k, (at', sized, alive, fits, pos')) = o.known j n h in
    let same = some-injective r.lo p (sym at ∙ at') in
    let apart = clear p k alive in
    (
      inl (beside (omega (arith, e)) p k same fits apart),
      (λ eq. none-ne-some k (sym fresh ∙ ap live (sym eq ∙ same) ∙ alive)),
      omega (arith, e, some_size),
    )
  where
    beside :
        r.hi + 1 ≡ r.lo + n
        → (p k : ℕ) → r.lo ≡ p
        → n ≤ k
        → (p + k ≤ q) ⊎ (q + m ≤ p)
        → Apart q (q + m - 1) r
    beside e p k same fits (inl le) = inr (omega (arith, e, same, fits, le))
    beside e p k same fits (inr le) = inl (omega (arith, same, le, pos))

-- A new payload passes the checks of `add_range` and joins the list.
pub add_range-Listed :
    (h : Heap) (ids : Ids) (blocks : ℕ → Option ℕ) (sizes : ℕ → ℕ) (live : Live)
    (ranges : List Range) (i q m : ℕ)
    → Owned ids blocks sizes live
    → Listed ids blocks ranges
    → ids i ≡ none
    → live q ≡ none
    → 0 < m
    → Clear live q m
    → q % 16 ≡ 0
    → h.mem_start_brk ≤ q
    → q + m ≤ h.mem_brk
    → (ranges' : List Range) × ((add_range h ranges q m ≡ some (1, ranges'))
        × Listed (set_entry ids i (some m)) (set_entry blocks i (some q)) ranges')
unfolding is_aligned mem_heap_lo mem_heap_hi
add_range-Listed h ids blocks sizes live ranges i q m o l none_yet fresh pos clear aligned low
      high =
    let old =
      All-map (Own ids blocks)
        (λ r. (Apart q (q + m - 1) r ⊎ Within q (q + m - 1) r) × (r.lo ≢ q) × IsRange r)
        (λ r own. old_range ids blocks sizes live q m r o fresh pos clear own) ranges l.own in
    let good =
      All-map (λ r. (Apart q (q + m - 1) r ⊎ Within q (q + m - 1) r) × (r.lo ≢ q) × IsRange r)
        IsRange (λ r h. h.2) ranges old in
    let ne =
      All-map (λ r. (Apart q (q + m - 1) r ⊎ Within q (q + m - 1) r) × (r.lo ≢ q) × IsRange r)
        (λ r. r.lo ≢ q) (λ r h. h.1) ranges old in
    let free =
      All-map (λ r. (Apart q (q + m - 1) r ⊎ Within q (q + m - 1) r) × (r.lo ≢ q) × IsRange r)
        (λ r. Apart q (q + m - 1) r ⊎ Within q (q + m - 1) r) (λ r h. h.0) ranges old in
    let ok : is_aligned q ≡ true = ground (arith, aligned) in
    let new : Range = record { lo = q; hi = q + m - 1 } in
    let own : Own (set_entry ids i (some m)) (set_entry blocks i (some q)) new = (
      i,
      m,
      (set_entry-here ids i (some m), set_entry-here blocks i (some q), omega (arith, pos), pos),
    ) in
    elim (add_range_iff h ranges q m pos good) [
      | inl (e, checks) ↦ (
        new ∷ ranges,
        (
          e,
          record {
            own = (
              own,
              All-map (Own ids blocks)
                  (Own (set_entry ids i (some m)) (set_entry blocks i (some q))) still_own ranges
                  l.own,
            );
            distinct = (ne, l.distinct);
          },
        ),
      )
      | inr (e, refused) ↦ absurd (refused (ok, (low, omega (arith, high, pos)), free))
    ]
  where
    still_own :
        (r : Range)
        → Own ids blocks r
        → Own (set_entry ids i (some m)) (set_entry blocks i (some q)) r
    still_own r (j, n, (h', at, e, some_size)) =
        (let other : i ≢ j = λ same. none-ne-some n (sym none_yet ∙ ap ids same ∙ h') in
          (
            j,
            n,
            (
              set_entry_there ids i j (some m) other ∙ h',
              set_entry_there blocks i j (some q) other ∙ at,
              e,
              some_size,
            ),
          ))
