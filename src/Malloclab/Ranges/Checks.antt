-- ===== src/Malloclab/Ranges/Checks.antt =====
-- Which payloads add_range lets pass.
use mathlib.Core.Bool.{true≢false}
use cso_fall.Common.{
  ℕ, ◌+◌, ◌-◌, ◌≤◌, ◌<◌, ◌≡◌, ◌≢◌, ◌⊎◌, inl, inr, refl, sym, ap, subst, ◌∙◌, true, false, ◌||◌,
  some, List, [], ◌∷◌, ltb, ◌==◌, if◌then◌else◌, All, arith, Bool-cases, ==_iff,
}
use cso_fall.Malloclab.Memlib.{Heap, is_aligned, mem_heap_lo, mem_heap_hi}
use cso_fall.Malloclab.Ranges.{Range, overlaps, finds_overlap, outside, add_range, remove_range}

-- The payload lies in the heap.
abbrev pub Inside : Heap → ℕ → ℕ → Type 0
Inside h lo hi = (mem_heap_lo h ≤ lo) × (hi ≤ mem_heap_hi h)

-- No byte in common.
abbrev pub Apart : ℕ → ℕ → Range → Type 0
Apart lo hi p = (hi < p.lo) ⊎ (p.hi < lo)

-- The old payload lies strictly within the new one.
abbrev pub Within : ℕ → ℕ → Range → Type 0
Within lo hi p = (lo < p.lo) × (p.hi < hi)

-- A payload has bytes.
abbrev pub IsRange : Range → Type 0
IsRange p = p.lo ≤ p.hi

overlaps-false :
    (lo hi : ℕ) (p : Range)
    → lo ≤ hi
    → p.lo ≤ p.hi
    → overlaps lo hi p ≡ false
    → Apart lo hi p ⊎ Within lo hi p
overlaps-false lo hi p le ple e = ground arith

Apart-overlaps :
    (lo hi : ℕ) (p : Range) → lo ≤ hi → Apart lo hi p ⊎ Within lo hi p → overlaps lo hi p ≡ false
Apart-overlaps lo hi p le (inl (inl a)) = ground arith
Apart-overlaps lo hi p le (inl (inr a)) = ground arith
Apart-overlaps lo hi p le (inr w) = ground arith

finds_overlap-false :
    (lo hi : ℕ) (ranges : List Range)
    → lo ≤ hi
    → All IsRange ranges
    → finds_overlap lo hi ranges ≡ false
    → All (λ p. Apart lo hi p ⊎ Within lo hi p) ranges
unfolding finds_overlap
finds_overlap-false lo hi [] le good e = tt
finds_overlap-false lo hi (p ∷ ranges) le good e = elim (Bool-cases (overlaps lo hi p)) [
  | inl y ↦ absurd (true≢false (rw (y) at e))
  | inr y ↦
      (overlaps-false lo hi p le good.0 y, finds_overlap-false lo hi ranges le good.1 (rw (y) at e))
]

finds_overlap-none :
    (lo hi : ℕ) (ranges : List Range)
    → lo ≤ hi
    → All (λ p. Apart lo hi p ⊎ Within lo hi p) ranges
    → finds_overlap lo hi ranges ≡ false
unfolding finds_overlap
finds_overlap-none lo hi [] le a = refl
finds_overlap-none lo hi (p ∷ ranges) le a =
    rw (Apart-overlaps lo hi p le a.0) (finds_overlap-none lo hi ranges le a.1)

-- `add_range` puts a payload into the list exactly where it is aligned, lies in the heap, and each
-- older payload has no byte in common with it or lies strictly within it; else it returns 0 and leaves
-- the list as it was.
pub add_range_iff :
    (h : Heap) (ranges : List Range) (lo size : ℕ)
    → 0 < size
    → All IsRange ranges
    → let hi = lo + size - 1 in
      let ok =
        (is_aligned lo ≡ true)
        × Inside h lo hi
        × All (λ p. Apart lo hi p ⊎ Within lo hi p) ranges in
      ((add_range h ranges lo size ≡ some (1, record { lo = lo; hi = hi } ∷ ranges)) × ok)
      ⊎ ((add_range h ranges lo size ≡ some (0, ranges)) × ¬ ok)
unfolding add_range
add_range_iff h ranges lo size some_size good =
    let hi = lo + size - 1 in
    let le : lo ≤ hi = omega arith in
    let sized : (size == 0) ≡ false = ground arith in
    elim (Bool-cases (is_aligned lo)) [
      | inr no_a ↦ inr (rw (sized, no_a) refl, λ ok. true≢false (sym ok.0 ∙ no_a))
      | inl a ↦ elim (Bool-cases (outside h lo hi)) [
        | inl out ↦ inr (
          rw (sized, a, out) refl,
          λ ok. not_inside (mem_heap_lo h) (mem_heap_hi h) lo hi le out ok.1,
        )
        | inr in_heap ↦ elim (Bool-cases (finds_overlap lo hi ranges)) [
          | inl hit ↦ inr (
            rw (sized, a, in_heap, hit) refl,
            λ ok. true≢false (sym hit ∙ finds_overlap-none lo hi ranges le ok.2),
          )
          | inr free ↦ inl (
            rw (sized, a, in_heap, free) refl,
            (
              a,
              inside (mem_heap_lo h) (mem_heap_hi h) lo hi in_heap,
              finds_overlap-false lo hi ranges le good free,
            ),
          )
        ]
      ]
    ]
  where
    inside :
        (a b lo hi : ℕ)
        → ((ltb lo a || ltb b lo) || (ltb hi a || ltb b hi)) ≡ false
        → (a ≤ lo) × (hi ≤ b)
    inside a b lo hi e = ground arith

    not_inside :
        (a b lo hi : ℕ)
        → lo ≤ hi
        → ((ltb lo a || ltb b lo) || (ltb hi a || ltb b hi)) ≡ true
        → (a ≤ lo) × (hi ≤ b)
        → ⊥
    not_inside a b lo hi le e i = ground arith

-- The ranges but those that start at `lo`.
unfoldable pub without : ℕ → List Range → List Range
without lo [] = []
without lo (p ∷ ranges) = if p.lo == lo then without lo ranges else p ∷ without lo ranges

-- No two payloads start at one address.
abbrev pub Distinct : List Range → Type 0
Distinct [] = Unit
Distinct (p ∷ ranges) = All (λ q. q.lo ≢ p.lo) ranges × Distinct ranges

without-All :
    (lo : ℕ) (ranges : List Range) → All (λ q. q.lo ≢ lo) ranges → without lo ranges ≡ ranges
unfolding without
without-All lo [] a = refl
without-All lo (p ∷ ranges) a =
    let ne : (p.lo == lo) ≡ false = ground (arith, a.0) in
    rw (ne) (ap (λ rs. p ∷ rs) (without-All lo ranges a.1))

-- Where no two payloads start at one address, `remove_range` takes the one that starts at `lo` from the
-- list, if there is one, and keeps the others in their order.
pub remove_range-without :
    (ranges : List Range) (lo : ℕ) → Distinct ranges → remove_range ranges lo ≡ without lo ranges
unfolding remove_range without
remove_range-without [] lo d = refl
remove_range-without (p ∷ ranges) lo d = elim (Bool-cases (p.lo == lo)) [
  | inl e ↦ rw (e) (
      sym (
        without-All lo ranges (subst (λ x. All (λ q. q.lo ≢ x) ranges) ((==_iff p.lo lo).0 e) d.0)))
  | inr e ↦ rw (e) (ap (λ rs. p ∷ rs) (remove_range-without ranges lo d.1))
]
