-- ===== src/Malloclab/Memlib.antt =====
-- malloclab/memlib.c. Sizes are of 64 bits.
pub mod Laws
use cso_fall.Common.{
  ℕ, zero, suc, ◌+◌, ◌-◌, ◌*◌, ◌/◌, ◌%◌, ◌^◌, Bool, true, false, ◌||◌, Option, none, some, ltb,
  ◌==◌, if◌then◌else◌, ℤ, pos, negsuc,
}

abbrev alignment : ℕ
alignment = 16

abbrev pub max_heap : ℕ
max_heap = 200 * 2 ^ 20

-- `x & ~(ALIGNMENT-1)`: the lowest bits of `x` cleared.
abbrev clear_low : ℕ → ℕ
clear_low x = x - x % alignment

unfoldable pub align : ℕ → ℕ
align size = clear_low ((size + (alignment - 1)) % 2 ^ 64)

unfoldable pub is_aligned : ℕ → Bool
is_aligned p = p % alignment == 0

pub record Heap : Type 0 where
  pub mem_start_brk : ℕ
  pub mem_brk : ℕ
  pub mem_max_addr : ℕ

-- `start` is the address that malloc gives, if it gives one.
pub mem_init : (start : Option ℕ) → Option Heap
mem_init none = none
mem_init (some start) =
    some (record { mem_start_brk = start; mem_brk = start; mem_max_addr = start + max_heap })

unfoldable pub mem_reset_brk : Heap → Heap
mem_reset_brk h = record h { mem_brk = h.mem_start_brk }

-- The result, where `none` is the address -1, and the heap.
unfoldable pub mem_sbrk : Heap → ℤ → Option ℕ × Heap
mem_sbrk h (negsuc n) = (none, h)
mem_sbrk h (pos incr) =
    if ltb h.mem_max_addr (h.mem_brk + incr)
    then (none, h)
    else (some h.mem_brk, record h { mem_brk = h.mem_brk + incr })

unfoldable pub mem_heap_lo : Heap → ℕ
mem_heap_lo h = h.mem_start_brk

unfoldable pub mem_heap_hi : Heap → ℕ
mem_heap_hi h = h.mem_brk - 1

unfoldable pub mem_heapsize : Heap → ℕ
mem_heapsize h = h.mem_brk - h.mem_start_brk
