-- ===== src/Malloclab/Tests.antt =====
-- A heap of 64 bytes in use, two payloads, and the theorems at them.
use cso_fall.Common.{◌≡◌, ◌⊎◌, refl, arith, true, some, [], ◌∷◌, All}
use cso_fall.Malloclab.Memlib.{Heap, align, is_aligned, mem_heap_lo, mem_heap_hi}
use cso_fall.Malloclab.Ranges.{Range, add_range, finds_overlap}
use cso_fall.Malloclab.Ranges.Checks.{Inside, Apart, Within, add_range_iff}

abbrev heap : Heap
heap = record { mem_start_brk = 160; mem_brk = 224; mem_max_addr = 1000 }

aligns : align 17 ≡ 32
unfolding align
aligns = refl

abbrev first : Range
first = record { lo = 176; hi = 183 }

abbrev second : Range
second = record { lo = 192; hi = 199 }

-- A payload around an older one passes.
passes : add_range heap (first ∷ []) 160 48 ≡ some (1, record { lo = 160; hi = 207 } ∷ first ∷ [])
unfolding add_range finds_overlap is_aligned mem_heap_lo mem_heap_hi
passes = refl

add_range_iff_example :
    ((add_range heap (first ∷ []) 192 8 ≡ some (1, record { lo = 192; hi = 199 } ∷ first ∷ []))
      × ((is_aligned 192 ≡ true)
          × Inside heap 192 199
          × All (λ p. Apart 192 199 p ⊎ Within 192 199 p) (first ∷ [])))
    ⊎ ((add_range heap (first ∷ []) 192 8 ≡ some (0, first ∷ []))
        × ¬ (
            (is_aligned 192 ≡ true)
            × Inside heap 192 199
            × All (λ p. Apart 192 199 p ⊎ Within 192 199 p) (first ∷ [])))
add_range_iff_example = add_range_iff heap (first ∷ []) 192 8 (omega arith) (omega arith, tt)
