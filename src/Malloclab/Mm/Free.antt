-- ===== src/Malloclab/Mm/Free.antt =====
-- malloclab/mm.c, `mm_init` and `mm_free`.
use cso_fall.Common.{ℕ, ◌+◌, ◌≡◌, refl, ap, ◌∙◌, true, some, List, [], ◌∷◌, arith}
use cso_fall.Malloclab.Memlib.{mem_heapsize}
use cso_fall.Malloclab.Headers.{header_to_payload, payload_to_header}
use cso_fall.Malloclab.Mm.{Mm, unlink, remove_from_list, mm_free, mm_init}
use cso_fall.Malloclab.Mm.Chunks.{Chunk, rev_append, starts, covers, within, total}
use cso_fall.Malloclab.Mm.Lists.{remove_from_list-held}
use cso_fall.Malloclab.Mm.Valid.{Bounds, Valid, insert_free_list-Valid}
use cso_fall.Malloclab.Mm.Removal.{Tiled-held, Fwd-Stands, removed-header}

-- `mm_init` on an empty heap gives a valid state of no chunks.
pub mm_init-Valid :
    (m : Mm)
    → Bounds m.heap
    → mem_heapsize m.heap ≡ 0
    → ((mm_init m).0 ≡ 0) × Valid (mm_init m).1 [] []
unfolding mm_init mem_heapsize starts covers total
mm_init-Valid m b empty = (
  refl,
  record {
    lists = record { free_list = refl; allocated_list = refl; apart = λ x. omega arith };
    up = tt;
    free_chunks = tt;
    held_chunks = tt;
    other_chunks = tt;
    tiles = λ x. ground (arith, empty);
    sizes = omega (arith, empty);
    bounds = b;
  },
)

-- mm_free of an allocated chunk ends and gives a valid state without that chunk, whose free chunks,
-- in order and with gaps between them, cover what they covered and the chunk; the bounds of the heap
-- and the payload bytes are as before.
pub mm_free-Valid :
    (m : Mm) (c : Chunk) (ls rs free : List Chunk)
    → Valid m free (rev_append ls (c ∷ rs))
    → (m' : Mm) × (free' : List Chunk) × ((mm_free (header_to_payload c.0) m ≡ some m')
        × Valid m' free' (rev_append ls rs)
        × ((x : ℕ) → covers x free' ≡ covers x free + within x c)
        × (m'.heap ≡ m.heap)
        × (m'.bytes ≡ m.bytes))
unfolding mm_free remove_from_list unlink
mm_free-Valid m c ls rs free v =
    let t = Tiled-held m c ls rs free v in
    let cell = Fwd-Stands m.mem true m.global_allocated_list_head c ls rs v.lists.allocated_list in
    let same = (remove_from_list-held m c ls rs free v.lists).1 in
    let size = ap (λ h. h.size) (removed-header m c free (rev_append ls rs) t same) ∙ cell.size in
    let (m', free', (e, valid, covered, only)) =
      insert_free_list-Valid (remove_from_list c.0 m) c free (rev_append ls rs) t size in
    let at : payload_to_header (header_to_payload c.0) ≡ c.0 = omega arith in
    (m', free', (rw (at) e, valid, covered, ap (λ q. q.heap) only, ap (λ q. q.bytes) only))
