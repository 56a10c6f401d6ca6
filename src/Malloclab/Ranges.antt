-- ===== src/Malloclab/Ranges.antt =====
-- The range list of malloclab/mdriver.c: the payloads that the allocator under test has handed out.
-- Printing the error is left out.
pub mod Checks
use cso_fall.Common.{
  ℕ, zero, suc, ◌+◌, ◌-◌, Bool, true, false, not, ◌&&◌, ◌||◌, Option, none, some, List, [], ◌∷◌,
  leb, ltb, ◌==◌, if◌then◌else◌,
}
use cso_fall.Malloclab.Memlib.{Heap, is_aligned, mem_heap_lo, mem_heap_hi}

pub record Range : Type 0 where
  pub lo : ℕ
  pub hi : ℕ

-- The test of the loop.
abbrev pub overlaps : ℕ → ℕ → Range → Bool
overlaps lo hi p = (leb p.lo lo && leb lo p.hi) || (leb p.lo hi && leb hi p.hi)

-- Whether the loop returns 0.
unfoldable pub finds_overlap : ℕ → ℕ → List Range → Bool
finds_overlap lo hi [] = false
finds_overlap lo hi (p ∷ ranges) = if overlaps lo hi p then true else finds_overlap lo hi ranges

abbrev pub outside : Heap → ℕ → ℕ → Bool
outside h lo hi =
    (ltb lo (mem_heap_lo h) || ltb (mem_heap_hi h) lo)
    || (ltb hi (mem_heap_lo h) || ltb (mem_heap_hi h) hi)

-- The result and the list; `none` where the size is 0 and the assertion fails.
unfoldable pub add_range : Heap → List Range → (lo size : ℕ) → Option (ℕ × List Range)
add_range h ranges lo size =
    let hi = lo + size - 1 in
    let checked =
      if not (is_aligned lo)
      then (0, ranges)
      else (if outside h lo hi
          then (0, ranges)
          else (if finds_overlap lo hi ranges
              then (0, ranges)
              else (1, record { lo = lo; hi = hi } ∷ ranges))) in
    if size == 0 then none else some checked

unfoldable pub remove_range : List Range → ℕ → List Range
remove_range [] lo = []
remove_range (p ∷ ranges) lo =
    let rest = remove_range ranges lo in if p.lo == lo then ranges else p ∷ rest

unfoldable pub clear_ranges : List Range → List Range
clear_ranges ranges = []
