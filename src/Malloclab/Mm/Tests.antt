-- ===== src/Malloclab/Mm/Tests.antt =====
-- Runs and uses of the allocator on a small heap: an allocated chunk at 16, a free one at 160 and an
-- allocated one at 304, of 144 bytes each.
use cso_fall.Common.{
  ℕ, ◌+◌, ◌^◌, ◌≤◌, ◌<◌, ◌≡◌, ◌⊎◌, refl, true, false, Option, none, some, List, [], ◌∷◌, arith,
  ◌==◌, if◌then◌else◌, ◌>>=◌,
}
use cso_fall.Malloclab.Memlib.{align, mem_heapsize, mem_sbrk}
use cso_fall.Malloclab.Headers.{Header, header_to_payload}
use cso_fall.Malloclab.Mm.{
  Mm, mm_init, mm_malloc, mm_free, mm_realloc, find_memory, fit_loop, second_round, or_new,
  get_newsize, take_whole, take_new, insert_allocated_list, insert_free_list, insert_into,
  place_loop, merge_both, merge_regions, remove_from_list, unlink,
}
use cso_fall.Malloclab.Mm.Chunks.{Chunk, starts, covers, within, total}
use cso_fall.Malloclab.Mm.Valid.{Bounds, Valid}
use cso_fall.Malloclab.Mm.Malloc.{Serves}
use cso_fall.Malloclab.Mm.Requests.{Source, mm_malloc-Valid, mm_malloc_full, mm_malloc_wide}
use cso_fall.Malloclab.Mm.Free.{mm_free-Valid}
use cso_fall.Malloclab.Mm.Realloc.{mm_realloc-Valid}
use cso_fall.Malloclab.Mm.RoundTrip.{mm_free-mm_malloc}
use cso_fall.Malloclab.Mm.Sessions.{Session, start, malloc, Session-Valid}

abbrev blank : Header
blank = record { size = 0; next = none; prev = none; status = false }

abbrev empty : Mm
empty = record {
  mem = λ a. blank;
  bytes = λ a. 0;
  global_allocated_list_head = some 7;
  global_free_list = none;
  heap = record { mem_start_brk = 16; mem_brk = 16; mem_max_addr = 4112 };
}

-- The three chunks, in a heap whose end is at `limit`.
abbrev busy : (limit : ℕ) → Mm
busy limit = record {
  mem = λ a.
      if a == 16
      then record { size = 144; next = none; prev = some 304; status = true }
      else if a == 160
      then record { size = 144; next = none; prev = none; status = false }
      else if a == 304
      then record { size = 144; next = some 16; prev = none; status = true }
      else blank;
  bytes = λ a. a;
  global_allocated_list_head = some 304;
  global_free_list = some 160;
  heap = record { mem_start_brk = 16; mem_brk = 448; mem_max_addr = limit };
}

abbrev free_chunks : List Chunk
free_chunks = (160, 144) ∷ []

abbrev held_chunks : List Chunk
held_chunks = (304, 144) ∷ (16, 144) ∷ []

busy-Valid : (limit : ℕ) → 448 ≤ limit → limit < 2 ^ 64 → Valid (busy limit) free_chunks held_chunks
unfolding starts covers total
busy-Valid limit room wide = record {
  lists = record {
    free_list = (refl, record { size = refl; status = refl }, refl, refl);
    allocated_list = (
      refl,
      record { size = refl; status = refl },
      refl,
      (refl, record { size = refl; status = refl }, refl, refl),
    );
    apart = λ x. ground arith;
  };
  up = (omega arith, tt);
  free_chunks = (
    record {
      header_fits = omega arith;
      low = omega arith;
      high = omega arith;
      aligned = refl;
      rounded = refl;
    },
    tt,
  );
  held_chunks = (
    record {
      header_fits = omega arith;
      low = omega arith;
      high = omega arith;
      aligned = refl;
      rounded = refl;
    },
    (
      record {
        header_fits = omega arith;
        low = omega arith;
        high = omega arith;
        aligned = refl;
        rounded = refl;
      },
      tt,
    ),
  );
  other_chunks = tt;
  tiles = λ x. ground arith;
  sizes = refl;
  bounds = record {
    above = omega arith;
    grown = omega arith;
    limit = room;
    wide = wide;
    aligned = refl;
  };
}

abbrev address : Option (Option ℕ × Mm) → Option ℕ
address none = none
address (some (p, m)) = p

-- The free chunk serves 100 bytes; 200 bytes need a new one.
serves_free : address (mm_malloc 100 (busy 4112)) ≡ some 192
unfolding mm_malloc find_memory fit_loop second_round or_new get_newsize take_whole
    insert_allocated_list remove_from_list unlink align mem_heapsize
serves_free = refl

serves_new : address (mm_malloc 200 (busy 4112)) ≡ some 480
unfolding mm_malloc find_memory fit_loop second_round or_new get_newsize take_whole take_new
    mem_sbrk insert_allocated_list remove_from_list unlink align mem_heapsize
serves_new = refl

-- The lowest chunk is freed, and the free chunk behind it becomes part of it.
freed : (mm_free 48 (busy 4112) >>= λ m. some (m.mem 16).size) ≡ some 288
unfolding mm_free remove_from_list unlink insert_free_list insert_into place_loop merge_both
    merge_regions mem_heapsize
freed = refl

mm_malloc-Valid_example :
    (m' : Mm) × (c : Chunk) × ((mm_malloc 100 (busy 4112) ≡ some (some (header_to_payload c.0), m'))
      × Serves (busy 4112) (align 100 + 32) held_chunks m' c
      × (100 + 32 ≤ c.1)
      × Source (busy 4112) (align 100 + 32) free_chunks m')
unfolding align
mm_malloc-Valid_example =
    mm_malloc-Valid (busy 4112) 100 free_chunks held_chunks
      (busy-Valid 4112 (omega arith) (omega arith)) (omega arith) (omega arith) (omega arith)

mm_free-Valid_example :
    (m' : Mm) × (free' : List Chunk) × ((mm_free (header_to_payload 16) (busy 4112) ≡ some m')
      × Valid m' free' ((304, 144) ∷ [])
      × ((x : ℕ) → covers x free' ≡ covers x free_chunks + within x (16, 144))
      × (m'.heap ≡ (busy 4112).heap)
      × (m'.bytes ≡ (busy 4112).bytes))
mm_free-Valid_example =
    mm_free-Valid (busy 4112) (16, 144) ((304, 144) ∷ []) [] free_chunks
      (busy-Valid 4112 (omega arith) (omega arith))

mm_realloc-Valid_example :
    (m' : Mm) × (d : Chunk) × (free' : List Chunk) × ((mm_realloc
          (some (header_to_payload 16))
          300
          (busy 4112)
        ≡ some (some (header_to_payload d.0), m'))
      × Valid m' free' (d ∷ (304, 144) ∷ [])
      × (300 + 32 ≤ d.1)
      × ((i : ℕ)
          → i < 300
          → i + 32 < 144
          → m'.bytes (header_to_payload d.0 + i) ≡ (busy 4112).bytes (header_to_payload 16 + i))
      × ((x : ℕ) → (x < header_to_payload d.0) ⊎ (d.0 + d.1 ≤ x) → m'.bytes x ≡ (busy 4112).bytes x)
      × Source (busy 4112) (align 300 + 32) free_chunks m'
      × (starts d.0 held_chunks ≡ 0))
unfolding align
mm_realloc-Valid_example =
    mm_realloc-Valid (busy 4112) 300 (16, 144) ((304, 144) ∷ []) [] free_chunks
      (busy-Valid 4112 (omega arith) (omega arith)) (omega arith) (omega arith) (omega arith)

mm_malloc_full_example :
    mm_malloc 1000 (busy 448) ≡ (if 1000 == 0 then some (none, busy 448) else none)
unfolding align
mm_malloc_full_example =
    mm_malloc_full (busy 448) 1000 free_chunks held_chunks
      (busy-Valid 448 (omega arith) (omega arith)) (omega arith) (omega arith) (omega arith, tt)

mm_malloc_wide_example : mm_malloc (100 + 2 ^ 32) (busy 4112) ≡ mm_malloc 100 (busy 4112)
mm_malloc_wide_example = mm_malloc_wide (busy 4112) 100 (omega arith) (omega arith)

empty-Bounds : Bounds empty.heap
empty-Bounds = record {
  above = omega arith;
  grown = omega arith;
  limit = omega arith;
  wide = omega arith;
  aligned = refl;
}

mm_free-mm_malloc_example :
    (m1 : Mm) × (p : ℕ) × (m2 : Mm) × (free' : List Chunk) × ((mm_malloc 100 (busy 4112)
        ≡ some (some p, m1))
      × (mm_free p m1 ≡ some m2)
      × Valid m2 free' held_chunks
      × (((free' ≡ free_chunks) × (m2.global_free_list ≡ some 160) × (m2.heap ≡ (busy 4112).heap))
          ⊎ (m2.heap ≡ record {
            mem_start_brk = 16;
            mem_brk = 448 + (align 100 + 32);
            mem_max_addr = 4112;
          })))
unfolding align
mm_free-mm_malloc_example =
    mm_free-mm_malloc (busy 4112) 100 free_chunks held_chunks
      (busy-Valid 4112 (omega arith) (omega arith)) (omega arith) (omega arith) (omega arith)

-- A client that has asked for 100 bytes.
abbrev state_after : Option (Option ℕ × Mm) → Mm
state_after none = empty
state_after (some (p, m)) = m

abbrev one_call : Mm
one_call = state_after (mm_malloc 100 (mm_init empty).1)

one_call_lem : mm_malloc 100 (mm_init empty).1 ≡ some (some 48, one_call)
unfolding mm_init mm_malloc find_memory fit_loop second_round or_new get_newsize take_new mem_sbrk
    insert_allocated_list align mem_heapsize
one_call_lem = refl

session : Session one_call ((16, 144) ∷ [])
unfolding mm_init mm_malloc find_memory fit_loop second_round or_new get_newsize take_new mem_sbrk
    insert_allocated_list align mem_heapsize
session =
    malloc (mm_init empty).1 one_call 100 48 [] (start empty empty-Bounds refl) (omega arith)
      (omega arith) one_call_lem

Session-Valid_example : (f : List Chunk) × Valid one_call f ((16, 144) ∷ [])
Session-Valid_example = Session-Valid one_call ((16, 144) ∷ []) session
