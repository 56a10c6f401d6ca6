-- ===== src/Malloclab/Memlib/Laws.antt =====
-- What memlib.c promises of alignment and of the break.
use cso_fall.Common.{
  ℕ, ◌+◌, ◌^◌, ◌≤◌, ◌<◌, ◌≡◌, ◌⊎◌, inl, inr, refl, true, Option, none, some, ltb, ℤ, pos, negsuc,
  arith, Bool-cases, ltb→lt,
}
use cso_fall.Malloclab.Memlib.{
  align, is_aligned, Heap, mem_init, mem_reset_brk, mem_sbrk, mem_heapsize, max_heap,
}

-- `align` rounds up to the next multiple of the alignment: it gives the smallest multiple that is not
-- below the size, as long as the sum fits 64 bits.
align-least :
    (size : ℕ)
    → size + 15 < 2 ^ 64
    → (is_aligned (align size) ≡ true)
      × (size ≤ align size)
      × ((m : ℕ) → is_aligned m ≡ true → size ≤ m → align size ≤ m)
unfolding align is_aligned
align-least size fits = (ground arith, omega arith, λ m e le. ground arith)

-- The break lies between the start of the heap and its end.
record IsHeap (h : Heap) : Type 0 where
  above : h.mem_start_brk ≤ h.mem_brk
  below : h.mem_brk ≤ h.mem_max_addr

-- A fresh heap is empty, its break lies between start and end, and so does the break after
-- `mem_reset_brk`.
mem_init-IsHeap :
    (start : ℕ)
    → (h : Heap) × (mem_init (some start) ≡ some h)
      × IsHeap h
      × (mem_heapsize h ≡ 0)
      × IsHeap (mem_reset_brk h)
unfolding mem_init mem_heapsize mem_reset_brk
mem_init-IsHeap start = (
  record { mem_start_brk = start; mem_brk = start; mem_max_addr = start + max_heap },
  refl,
  record { above = omega arith; below = omega arith },
  omega arith,
  record { above = omega arith; below = omega arith },
)

-- The two outcomes of `mem_sbrk`.
abbrev Grows : Heap → ℤ → Option ℕ × Heap → Type 0
Grows h incr (r, h') =
    (n : ℕ) × (incr ≡ pos n)
    × (h.mem_brk + n ≤ h.mem_max_addr)
    × (r ≡ some h.mem_brk)
    × (h'.mem_start_brk ≡ h.mem_start_brk)
    × (h'.mem_max_addr ≡ h.mem_max_addr)
    × (mem_heapsize h' ≡ mem_heapsize h + n)

abbrev Fails : Heap → ℤ → Option ℕ × Heap → Type 0
Fails h incr (r, h') =
    (((n : ℕ) × (incr ≡ negsuc n)) ⊎ ((n : ℕ) × (incr ≡ pos n) × (h.mem_max_addr < h.mem_brk + n)))
    × (r ≡ none)
    × (h' ≡ h)

-- `mem_sbrk` returns the first address behind the old heap, and the heap grows by the increment, where
-- that is not negative and there is room for it; else it fails and leaves the heap as it was. The
-- break stays between the start and the end.
mem_sbrk-IsHeap :
    (h : Heap) (incr : ℤ)
    → IsHeap h
    → IsHeap (mem_sbrk h incr).1 × (Grows h incr (mem_sbrk h incr) ⊎ Fails h incr (mem_sbrk h incr))
unfolding mem_sbrk mem_heapsize
mem_sbrk-IsHeap h (negsuc k) good = (good, inr (inl (k, refl), refl, refl))
mem_sbrk-IsHeap h (pos k) good = elim (Bool-cases (ltb h.mem_max_addr (h.mem_brk + k))) [
  | inl full ↦
      rw (full) (good, inr (inr (k, refl, ltb→lt h.mem_max_addr (h.mem_brk + k) full), refl, refl))
  | inr fits ↦
      let room : h.mem_brk + k ≤ h.mem_max_addr = ground arith in
      rw (fits) (
        record { above = omega (arith, good.above); below = room },
        inl (k, refl, room, refl, refl, refl, omega (arith, good.above)),
      )
]
