-- ===== src/Malloclab/Naive/Tests.antt =====
-- Runs and uses of the naive allocator on a small heap of two chunks.
use cso_fall.Common.{
  ℕ, ◌+◌, ◌<◌, ◌≡◌, ◌⊎◌, refl, true, none, some, List, [], ◌∷◌, arith, ◌==◌, if◌then◌else◌, ◌>>=◌,
}
use cso_fall.Malloclab.Memlib.{align, is_aligned, mem_sbrk, mem_heapsize, mem_heap_lo, mem_heap_hi}
use cso_fall.Malloclab.Naive.{
  Naive, mm_malloc, mm_free, mm_realloc, copy_payload, mm_checkheap, check_loop, header_to_payload,
}
use cso_fall.Malloclab.Naive.Chain.{Item, span}
use cso_fall.Malloclab.Naive.Laws.{Laid, mm_free-mm_malloc_empty}
use cso_fall.Malloclab.Naive.Realloc.{Moved, mm_realloc-Laid}

-- Used chunks of 32 and 48 bytes at 16 and 48.
abbrev two : Naive
two = record {
  size_n_status = λ a. if a == 16 then 33 else if a == 48 then 49 else 0;
  bytes = λ a. a;
  heap = record { mem_start_brk = 16; mem_brk = 96; mem_max_addr = 1000 };
}

abbrev items : List Item
items = (32, true) ∷ (48, true) ∷ []

two-Laid : Laid two items
two-Laid = record {
  chain = (refl, omega arith, refl, (refl, omega arith, refl, refl));
  aligned = refl;
  limit = omega arith;
  wide = omega arith;
}

walk :
    mm_checkheap two
    ≡ some
        (record { total_allocated = 2; total_allocated_sz = 80; total_free = 0; total_free_sz = 0 })
unfolding mm_checkheap check_loop mem_heapsize mem_heap_lo mem_heap_hi
walk = refl

-- The bytes at 32 to 47 are copied to 112, and the old chunk is free.
copies : (mm_realloc (some 32) 100 two >>= λ (p, m). some (m.bytes 127)) ≡ some 47
unfolding mm_realloc copy_payload mm_malloc mm_free mm_checkheap check_loop mem_heapsize mem_heap_lo
    mem_heap_hi mem_sbrk align is_aligned
copies = refl

mm_realloc-Laid_example :
    Moved two 100 32 [] ((48, true) ∷ [])
    ⊎ ((1000 < 96 + (align 100 + 16))
        × (mm_realloc (some (header_to_payload (16 + span []))) 100 two ≡ some (none, two)))
mm_realloc-Laid_example =
    mm_realloc-Laid two 100 32 true [] ((48, true) ∷ []) two-Laid (omega arith) (omega arith)
      (omega arith)

mm_free-mm_malloc_empty_example :
    (p : ℕ) × (m' : Naive) × ((mm_malloc 0 two ≡ some (some p, m')) × (mm_free p m' ≡ none))
mm_free-mm_malloc_empty_example = mm_free-mm_malloc_empty two items two-Laid (omega arith)
