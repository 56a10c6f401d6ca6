-- ===== src/Malloclab/Mm/Malloc.antt =====
-- malloclab/mm.c, `find_memory` and `mm_malloc`.
use cso_fall.Common.{
  ℕ, ◌+◌, ◌%◌, ◌^◌, ◌≤◌, ◌<◌, ◌≡◌, ◌⊎◌, inl, inr, refl, subst, ◌∙◌, true, false, Option, none, some,
  List, [], ◌∷◌, arith, All, ◌==◌, pos, length,
}
use cso_fall.Malloclab.Memlib.{mem_heapsize, align}
use cso_fall.Malloclab.Headers.{header_to_payload}
use cso_fall.Malloclab.Mm.{Mm, find_memory, fit_loop, fits, second_round, get_newsize, min_guard}
use cso_fall.Malloclab.Mm.Chunks.{Chunk, rev_append, total, length-le-total}
use cso_fall.Malloclab.Mm.Valid.{Valid}
use cso_fall.Malloclab.Mm.Search.{Fit, fit_loop-cases, fits_first, fits_second, fits_neither}
use cso_fall.Malloclab.Mm.Take.{take_whole-Valid}
use cso_fall.Malloclab.Mm.Part.{take_part-Valid}

-- A result with a chunk for a request of `k` bytes, header included.
pub record Serves (m : Mm) (k : ℕ) (held : List Chunk) (m' : Mm) (c : Chunk) : Type 0 where
  pub free : List Chunk
  pub valid : Valid m' free (c ∷ held)
  pub enough : k ≤ c.1
  pub waste : c.1 < k + min_guard
  pub bytes : m'.bytes ≡ m.bytes

-- The size of the chunk for a payload of `size` bytes.
pub get_newsize_small :
    (size : ℕ)
    → size + 47 < 2 ^ 31
    → (k : ℕ) × ((get_newsize size ≡ pos k)
        × (k ≡ align size + 32)
        × (size + 32 ≤ k)
        × (k % 16 ≡ 0)
        × (k < 2 ^ 31))
unfolding get_newsize align
get_newsize_small size small = (
  align size + 32,
  (ground (arith, small), refl, omega (arith, small), omega (arith, small), omega (arith, small)),
)

pub enough_fuel :
    (m : Mm) (free held : List Chunk) → Valid m free held → length free < mem_heapsize m.heap + 1
unfolding mem_heapsize total
enough_fuel m free held v =
    let i = length-le-total m.heap.mem_start_brk m.heap.mem_brk free v.free_chunks in
    omega (arith, i, v.sizes)

-- A chunk that the first round takes serves the request.
first-Serves :
    (m : Mm) (k : ℕ) (free held : List Chunk) (r : Option (Option ℕ × Mm))
    → Valid m free held
    → Fit false (pos k) m free r
    → (m' : Mm) × (c : Chunk) × ((r ≡ some (some (header_to_payload c.0), m'))
        × Serves m k held m' c
        × (m'.heap ≡ m.heap))
first-Serves m k free held r v f =
    let (m', (e, valid, heap, bytes)) =
      take_whole-Valid m f.chunk f.ls f.rs held (subst (λ q. Valid m q held) f.whole v) in
    let (low, high) = fits_first k f.chunk.1 f.fitting in
    (
      m',
      f.chunk,
      (
        f.taken ∙ e,
        record {
          free = rev_append f.ls f.rs;
          valid = valid;
          enough = low;
          waste = high;
          bytes = bytes;
        },
        heap,
      ),
    )

second-Serves :
    (m : Mm) (k : ℕ) (free held : List Chunk) (r : Option (Option ℕ × Mm))
    → 32 ≤ k
    → k % 16 ≡ 0
    → k < 2 ^ 31
    → Valid m free held
    → Fit true (pos k) m free r
    → (m' : Mm) × (c : Chunk) × ((r ≡ some (some (header_to_payload c.0), m'))
        × Serves m k held m' c
        × (m'.heap ≡ m.heap))
second-Serves m k free held r min round small v f =
    let room = fits_second k f.chunk.1 (omega (arith, small)) f.fitting in
    let (m', free', (e, valid, heap, bytes)) =
      take_part-Valid m f.chunk k f.ls f.rs held (subst (λ q. Valid m q held) f.whole v) min round
        room in
    (
      m',
      (f.chunk.0, k),
      (
        f.taken ∙ e,
        record {
          free = free';
          valid = valid;
          enough = omega arith;
          waste = omega arith;
          bytes = bytes;
        },
        heap,
      ),
    )

All-zip :
    (P Q R : Chunk → Type 0)
    → ((c : Chunk) → P c → Q c → R c)
    → (cs : List Chunk) → All P cs
    → All Q cs
    → All R cs
All-zip P Q R f [] p q = tt
All-zip P Q R f (c ∷ cs) p q = (f c p.0 q.0, All-zip P Q R f cs p.1 q.1)

-- The search gives a chunk of the free list, or every free chunk is too small.
pub find_memory-cases :
    (m : Mm) (size k : ℕ) (free held : List Chunk)
    → Valid m free held
    → 0 < size
    → get_newsize size ≡ pos k
    → 32 ≤ k
    → k % 16 ≡ 0
    → k < 2 ^ 31
    → ((m' : Mm) × (c : Chunk) × ((find_memory size m ≡ some (some (header_to_payload c.0), m'))
          × Serves m k held m' c
          × (m'.heap ≡ m.heap)))
      ⊎ ((find_memory size m ≡ some (none, m)) × All (λ c. c.1 < k) free)
unfolding find_memory second_round
find_memory-cases m size k free held v positive e min round small =
    let fuel = mem_heapsize m.heap + 1 in
    let enough = enough_fuel m free held v in
    let list = v.lists.free_list in
    let sized : (size == 0) ≡ false = ground (arith, positive) in
    elim (fit_loop-cases fuel false (pos k) m none m.global_free_list [] free list enough) [
      | inl fit ↦
          (let (m', c, (found, serves, heap)) =
              first-Serves m k free held (fit_loop fuel false (pos k) m.global_free_list m) v fit in
            inl (m', c, (rw (sized, e, found) refl, serves, heap)))
      | inr first ↦
          elim (fit_loop-cases fuel true (pos k) m none m.global_free_list [] free list enough) [
            | inl fit ↦
                (let (m', c, (found, serves, heap)) =
                    second-Serves m k free held (fit_loop fuel true (pos k) m.global_free_list m)
                      min round small v fit in
                  inl (m', c, (rw (sized, e, first.0, found) refl, serves, heap)))
            | inr second ↦ inr (
              rw (sized, e, first.0, second.0) refl,
              All-zip (λ c. fits false (pos k) c.1 ≡ false) (λ c. fits true (pos k) c.1 ≡ false)
                  (λ c. c.1 < k) (λ c p q. fits_neither k c.1 (omega (arith, small)) p q) free
                  first.1 second.1,
            )
          ]
    ]
