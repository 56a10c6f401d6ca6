-- ===== src/Malloclab/Mm/Requests.antt =====
-- malloclab/mm.c, `mm_malloc`: what a request gives, and when none is served.
use mathlib.Core.Option.{some-injective, none-ne-some}
use cso_fall.Common.{
  ℕ, ◌+◌, ◌-◌, ◌%◌, ◌^◌, ◌≤◌, ◌<◌, ◌≡◌, ◌⊎◌, inl, inr, refl, sym, ap, subst, ◌∙◌, Bool, true, false,
  Option, none, some, List, [], ◌∷◌, arith, All, if◌then◌else◌, ◌==◌, ltb, pos, negsuc, length,
  Bool-cases, ltb→lt,
}
use cso_fall.Malloclab.Memlib.{mem_sbrk, mem_heapsize, align}
use cso_fall.Malloclab.Headers.{header_to_payload}
use cso_fall.Malloclab.Mm.{
  Mm, find_memory, or_new, mm_malloc, get_newsize, take_new, fit_loop, fits, second_round,
}
use cso_fall.Malloclab.Mm.Chunks.{Chunk, All-rev_append_parts}
use cso_fall.Malloclab.Mm.Valid.{Valid}
use cso_fall.Malloclab.Mm.Take.{take_new-Valid}
use cso_fall.Malloclab.Mm.Malloc.{Serves, get_newsize_small, find_memory-cases, enough_fuel}
use cso_fall.Malloclab.Mm.Links.{Fwd}
use cso_fall.Malloclab.Mm.Search.{fit_loop-cases, fits_first, fits_second}

-- The memory comes from the free list, or every free chunk is too small and the heap has grown.
abbrev pub Source : Mm → ℕ → List Chunk → Mm → Type 0
Source m k free m' =
    (m'.heap ≡ m.heap)
    ⊎ ((m'.heap ≡ record m.heap { mem_brk = m.heap.mem_brk + k }) × All (λ c. c.1 < k) free)

malloc_found :
    (m m' : Mm) (size p : ℕ)
    → 0 < size
    → find_memory size m ≡ some (some p, m')
    → mm_malloc size m ≡ some (some p, m')
unfolding mm_malloc or_new
malloc_found m m' size p positive found =
    let sized : (size == 0) ≡ false = ground (arith, positive) in rw (sized, found) refl

malloc_new :
    (m : Mm) (size k : ℕ)
    → 0 < size
    → get_newsize size ≡ pos k
    → find_memory size m ≡ some (none, m)
    → mm_malloc size m ≡ take_new (pos k) m
unfolding mm_malloc or_new
malloc_new m size k positive e found =
    let sized : (size == 0) ≡ false = ground (arith, positive) in rw (sized, found, e) refl

-- In a valid state whose heap has room for one more chunk, mm_malloc of a size above 0 and below
-- 2^31 - 47 gives the payload of a chunk that becomes the first allocated one; the other allocated
-- chunks stay and the state is valid again. The chunk has room for the payload and its header, and
-- less than 1024 bytes more than that, aligned. The heap grows only where each free chunk is too
-- small.
pub mm_malloc-Valid :
    (m : Mm) (size : ℕ) (free held : List Chunk)
    → Valid m free held
    → 0 < size
    → size + 47 < 2 ^ 31
    → m.heap.mem_brk + (align size + 32) ≤ m.heap.mem_max_addr
    → (m' : Mm) × (c : Chunk) × ((mm_malloc size m ≡ some (some (header_to_payload c.0), m'))
        × Serves m (align size + 32) held m' c
        × (size + 32 ≤ c.1)
        × Source m (align size + 32) free m')
mm_malloc-Valid m size free held v positive small room =
    let (k, (e, k_is, fits, round, k_small)) = get_newsize_small size small in
    elim (find_memory-cases m size k free held v positive e (omega (arith, fits)) round k_small) [
      | inl found ↦
          (let (m', c, (r, serves, heap)) = found in
            let low = serves.enough in
            (
              m',
              c,
              (
                malloc_found m m' size (header_to_payload c.0) positive r,
                subst (λ q. Serves m q held m' c) k_is serves,
                omega (arith, low, fits),
                inl heap,
              ),
            ))
      | inr (r, all) ↦
          (let (m', (taken, valid, heap, bytes)) =
              take_new-Valid m k free held v (omega (arith, fits)) round
                (omega (arith, k_is, room)) in
            let serves : Serves m k held m' (m.heap.mem_brk, k) = record {
              free = free;
              valid = valid;
              enough = omega arith;
              waste = omega arith;
              bytes = bytes;
            } in
            (
              m',
              (m.heap.mem_brk, k),
              (
                malloc_new m size k positive e r ∙ taken,
                subst (λ q. Serves m q held m' (m.heap.mem_brk, k)) k_is serves,
                fits,
                subst (λ q. Source m q free m') k_is (inr (heap, all)),
              ),
            ))
    ]

-- No free chunk of the size is found where all are smaller.
fit_loop_small :
    (fuel : ℕ) (second : Bool) (m : Mm) (k : ℕ) (free : List Chunk)
    → Fwd m.mem false none m.global_free_list free
    → length free < fuel
    → k < 2 ^ 31
    → All (λ c. c.1 < k) free
    → fit_loop fuel second (pos k) m.global_free_list m ≡ some (none, m)
fit_loop_small fuel second m k free list enough small all =
    elim (fit_loop-cases fuel second (pos k) m none m.global_free_list [] free list enough) [
      | inl fit ↦
          (let parts =
              All-rev_append_parts (λ c. c.1 < k) fit.ls (fit.chunk ∷ fit.rs)
                (subst (λ q. All (λ c. c.1 < k) q) fit.whole all) in
            absurd (too_small second k fit.chunk.1 small parts.1.0 fit.fitting))
      | inr (r, rest) ↦ r
    ]
  where
    too_small : (b : Bool) (n s : ℕ) → n < 2 ^ 31 → s < n → fits b (pos n) s ≡ true → ⊥
    too_small false n s lt lt' fit = (let i = (fits_first n s fit).0 in omega (arith, i, lt'))
    too_small true n s lt lt' fit =
        (let i = fits_second n s (omega (arith, lt)) fit in omega (arith, i, lt'))

take_new_full :
    (m : Mm) (k : ℕ) → m.heap.mem_max_addr < m.heap.mem_brk + k → take_new (pos k) m ≡ none
unfolding take_new mem_sbrk
take_new_full m k full =
    let e : ltb m.heap.mem_max_addr (m.heap.mem_brk + k) ≡ true = ground (arith, full) in
    rw (e) refl

-- In a valid state in which the heap has no room for the chunk and each free chunk is too small for
-- a size below 2^31 - 47, mm_malloc of that size follows the address -1 that mem_sbrk gives, where
-- the size is above 0; for size 0 it gives NULL and changes nothing.
pub mm_malloc_full :
    (m : Mm) (size : ℕ) (free held : List Chunk)
    → Valid m free held
    → size + 47 < 2 ^ 31
    → m.heap.mem_max_addr < m.heap.mem_brk + (align size + 32)
    → All (λ c. c.1 < align size + 32) free
    → mm_malloc size m ≡ (if size == 0 then some (none, m) else none)
unfolding mm_malloc find_memory second_round or_new
mm_malloc_full m size free held v small full all =
    let (k, (e, k_is, fits_k, round, k_small)) = get_newsize_small size small in
    let fuel = mem_heapsize m.heap + 1 in
    let enough = enough_fuel m free held v in
    let all_k = subst (λ q. All (λ c. c.1 < q) free) (sym k_is) all in
    let first = fit_loop_small fuel false m k free v.lists.free_list enough k_small all_k in
    let second = fit_loop_small fuel true m k free v.lists.free_list enough k_small all_k in
    let stuck = take_new_full m k (omega (arith, full, k_is)) in
    elim (Bool-cases (size == 0)) [
      | inl zero_size ↦ rw (zero_size) refl
      | inr sized ↦ rw (sized, e, first, second, stuck) refl
    ]

get_newsize_wide :
    (size : ℕ) → size + 2 ^ 32 + 47 < 2 ^ 64 → get_newsize (size + 2 ^ 32) ≡ get_newsize size
unfolding get_newsize align
get_newsize_wide size fits =
    let wide = (align (size + 2 ^ 32) + 32) % 2 ^ 64 in
    let low : wide % 2 ^ 32 ≡ ((align size + 32) % 2 ^ 64) % 2 ^ 32 = omega (arith, fits) in
    ap (λ r. if ltb r (2 ^ 31) then pos r else negsuc (2 ^ 32 - r - 1)) low

-- The int of get_newsize keeps 32 bits of the size: mm_malloc of 2^32 bytes more than a size above 0
-- has the same result and leaves the same state, as long as the sum and 47 fit 64 bits.
pub mm_malloc_wide :
    (m : Mm) (size : ℕ)
    → 0 < size
    → size + 2 ^ 32 + 47 < 2 ^ 64
    → mm_malloc (size + 2 ^ 32) m ≡ mm_malloc size m
unfolding mm_malloc find_memory
mm_malloc_wide m size positive fits =
    let same = get_newsize_wide size fits in
    let sized : (size + 2 ^ 32 == 0) ≡ false = ground arith in
    let sized' : (size == 0) ≡ false = ground (arith, positive) in rw (sized, sized', same) refl

-- A request that gives a result, in a valid state, serves it.
pub mm_malloc-Serves :
    (m m' : Mm) (p : Option ℕ) (size : ℕ) (free held : List Chunk)
    → Valid m free held
    → 0 < size
    → size + 47 < 2 ^ 31
    → mm_malloc size m ≡ some (p, m')
    → (c : Chunk) × ((p ≡ some (header_to_payload c.0))
        × Serves m (align size + 32) held m' c
        × (size + 32 ≤ c.1))
mm_malloc-Serves m m' p size free held v positive small result =
    let (k, (e, k_is, fits, round, k_small)) = get_newsize_small size small in
    elim (find_memory-cases m size k free held v positive e (omega (arith, fits)) round k_small) [
      | inl found ↦
          (let (m1, c, (r, serves, heap)) = found in
            let same =
              some-injective (p, m') (some (header_to_payload c.0), m1)
                (sym result ∙ malloc_found m m1 size (header_to_payload c.0) positive r) in
            let low = serves.enough in
            (
              c,
              (
                ap (λ q. q.0) same,
                subst (λ q. Serves m (align size + 32) held q c) (sym (ap (λ q. q.1) same))
                    (subst (λ q. Serves m q held m1 c) k_is serves),
                omega (arith, low, fits),
              ),
            ))
      | inr (r, all) ↦ elim (Bool-cases (ltb m.heap.mem_max_addr (m.heap.mem_brk + k))) [
        | inl full ↦ absurd (
            none-ne-some (p, m')
              (sym (take_new_full m k (ltb→lt m.heap.mem_max_addr (m.heap.mem_brk + k) full))
                ∙ sym (malloc_new m size k positive e r)
                ∙ result))
        | inr room ↦
            (let room' : m.heap.mem_brk + (align size + 32) ≤ m.heap.mem_max_addr =
                ground (arith, room, k_is) in
              let (m1, c, (r', serves, low, source)) =
                mm_malloc-Valid m size free held v positive small room' in
              let same =
                some-injective (p, m') (some (header_to_payload c.0), m1) (sym result ∙ r') in
              (
                c,
                (
                  ap (λ q. q.0) same,
                  subst (λ q. Serves m (align size + 32) held q c) (sym (ap (λ q. q.1) same))
                      serves,
                  low,
                ),
              ))
      ]
    ]
