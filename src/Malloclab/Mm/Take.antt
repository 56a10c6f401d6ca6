-- ===== src/Malloclab/Mm/Take.antt =====
-- malloclab/mm.c: a free chunk, a part of one, or a new chunk becomes an allocated one.
use cso_fall.Common.{
  ℕ, ◌+◌, ◌-◌, ◌%◌, ◌≤◌, ◌≡◌, refl, ap, ◌∙◌, true, false, some, List, [], ◌∷◌, arith, ltb, pos,
}
use cso_fall.Malloclab.Memlib.{mem_sbrk}
use cso_fall.Malloclab.Headers.{Header, put, header_to_payload}
use cso_fall.Malloclab.Mm.{
  Mm, unlink, remove_from_list, insert_allocated_list, take_whole, take_new,
}
use cso_fall.Malloclab.Mm.Chunks.{
  Chunk, rev_append, starts, covers, within, total, IsChunk, All-mono, starts-le-covers,
}
use cso_fall.Malloclab.Mm.Links.{put_self}
use cso_fall.Malloclab.Mm.Relink.{Apart}
use cso_fall.Malloclab.Mm.Lists.{insert_allocated_list-Lists, remove_from_list-free}
use cso_fall.Malloclab.Mm.Valid.{Tiled, Valid, Tiled-starts, Lists-put, in_heap}
use cso_fall.Malloclab.Mm.Removal.{Tiled-free, Fwd-Stands}

-- A chunk that is in no list, put into the allocated list.
pub insert_allocated_list-Tiled :
    (m : Mm) (c : Chunk) (free held other : List Chunk)
    → Tiled m free held (c ∷ other)
    → (m.mem c.0).size ≡ c.1
    → Tiled (insert_allocated_list c.0 m) free (c ∷ held) other
unfolding insert_allocated_list starts covers total
insert_allocated_list-Tiled m c free held other t size =
    let apart : Apart free (c ∷ held) =
      λ x. omega (arith, Tiled-starts m free held (c ∷ other) t x) in
    record {
      lists = (insert_allocated_list-Lists m c free held t.lists apart size).0;
      up = t.up;
      free_chunks = t.free_chunks;
      held_chunks = (t.other_chunks.0, t.held_chunks);
      other_chunks = t.other_chunks.1;
      tiles = λ x. omega (arith, t.tiles x);
      sizes = omega (arith, t.sizes);
      bounds = t.bounds;
    }

-- The header of a free chunk that is taken out.
taken-header :
    (m : Mm) (c : Chunk) (ls rs held : List Chunk)
    → Valid m (rev_append ls (c ∷ rs)) held
    → unlink m.mem c.0 c.0 ≡ m.mem c.0
unfolding starts
taken-header m c ls rs held v =
    let t = Tiled-free m c ls rs held v in
    let s = Tiled-starts (remove_from_list c.0 m) (rev_append ls rs) held (c ∷ []) t c.0 in
    (remove_from_list-free m c ls rs held v.lists).1 c.0 (ground (arith, s))

-- The first round's chunk.
pub take_whole-Valid :
    (m : Mm) (c : Chunk) (ls rs held : List Chunk)
    → Valid m (rev_append ls (c ∷ rs)) held
    → (m' : Mm) × ((take_whole c.0 m ≡ some (some (header_to_payload c.0), m'))
        × Valid m' (rev_append ls rs) (c ∷ held)
        × (m'.heap ≡ m.heap)
        × (m'.bytes ≡ m.bytes))
unfolding take_whole insert_allocated_list remove_from_list
take_whole-Valid m c ls rs held v =
    let m1 = remove_from_list c.0 m in
    let cell = Fwd-Stands m.mem false m.global_free_list c ls rs v.lists.free_list in
    let size = ap (λ h. h.size) (taken-header m c ls rs held v) ∙ cell.size in
    (
      insert_allocated_list c.0 m1,
      (
        refl,
        insert_allocated_list-Tiled m1 c (rev_append ls rs) held [] (Tiled-free m c ls rs held v)
            size,
        refl,
        refl,
      ),
    )

-- A write to a header of a chunk that is in no list.
pub Tiled-put :
    (m : Mm) (a : ℕ) (h : Header) (free held other : List Chunk)
    → starts a free + starts a held ≡ 0
    → Tiled m free held other
    → Tiled (record m { mem = put m.mem a h }) free held other
Tiled-put m a h free held other out t = record {
  lists = Lists-put m free held a h out t.lists;
  up = t.up;
  free_chunks = t.free_chunks;
  held_chunks = t.held_chunks;
  other_chunks = t.other_chunks;
  tiles = t.tiles;
  sizes = t.sizes;
  bounds = t.bounds;
}

-- The heap with a new chunk at its end, which is in no list.
Tiled-grown :
    (m : Mm) (k : ℕ) (h : Header) (free held : List Chunk)
    → Valid m free held
    → 32 ≤ k
    → k % 16 ≡ 0
    → m.heap.mem_brk + k ≤ m.heap.mem_max_addr
    → let heap = record m.heap { mem_brk = m.heap.mem_brk + k } in
      Tiled
        (record m { mem = put m.mem m.heap.mem_brk h; heap = heap })
        free
        held
        ((m.heap.mem_brk, k) ∷ [])
unfolding covers total
Tiled-grown m k h free held v min round room =
    let a = m.heap.mem_brk in
    let lo = m.heap.mem_start_brk in
    let b = v.bounds in
    let align = b.aligned in
    let grown = b.grown in
    let end : in_heap a m.heap ≡ 0 = ground arith in
    let f = starts-le-covers lo a a free v.free_chunks in
    let g = starts-le-covers lo a a held v.held_chunks in
    let out : starts a free + starts a held ≡ 0 = omega (arith, v.tiles a, f, g, end) in
    let l = Lists-put m free held a h out v.lists in
    let wider = λ (c : Chunk) (p : IsChunk lo a c).
      (let high = p.high in
        let q : IsChunk lo (a + k) c = record {
          header_fits = p.header_fits;
          low = p.low;
          high = omega (arith, high);
          aligned = p.aligned;
          rounded = p.rounded;
        } in
        q) in
    record {
      lists = record {
        free_list = l.free_list;
        allocated_list = l.allocated_list;
        apart = l.apart;
      };
      up = v.up;
      free_chunks = All-mono (IsChunk lo a) (IsChunk lo (a + k)) wider free v.free_chunks;
      held_chunks = All-mono (IsChunk lo a) (IsChunk lo (a + k)) wider held v.held_chunks;
      other_chunks = (
        record {
          header_fits = min;
          low = grown;
          high = omega arith;
          aligned = align;
          rounded = round;
        },
        tt,
      );
      tiles = λ x.
          (let i = v.tiles x in
            let j : in_heap x m.heap + within x (a, k) ≡ within x (lo, a + k - lo) =
              ground (arith, grown) in
            omega (arith, i, j));
      sizes = omega (arith, v.sizes, grown);
      bounds = record {
        above = b.above;
        grown = omega (arith, grown);
        limit = room;
        wide = b.wide;
        aligned = omega (arith, align, round);
      };
    }

-- The chunk that `mem_sbrk` gives.
pub take_new-Valid :
    (m : Mm) (k : ℕ) (free held : List Chunk)
    → Valid m free held
    → 32 ≤ k
    → k % 16 ≡ 0
    → m.heap.mem_brk + k ≤ m.heap.mem_max_addr
    → (m' : Mm) × ((take_new (pos k) m ≡ some (some (header_to_payload m.heap.mem_brk), m'))
        × Valid m' free ((m.heap.mem_brk, k) ∷ held)
        × (m'.heap ≡ record m.heap { mem_brk = m.heap.mem_brk + k })
        × (m'.bytes ≡ m.bytes))
unfolding take_new mem_sbrk insert_allocated_list
take_new-Valid m k free held v min round room =
    let a = m.heap.mem_brk in
    let h = record (m.mem a) { size = k; status = true } in
    let heap = record m.heap { mem_brk = a + k } in
    let m1 = record m { mem = put m.mem a h; heap = heap } in
    let t = Tiled-grown m k h free held v min round room in
    let size = ap (λ q. q.size) (put_self m.mem a h) in
    let fits : ltb m.heap.mem_max_addr (a + k) ≡ false = ground (arith, room) in
    (
      insert_allocated_list a m1,
      (rw (fits) refl, insert_allocated_list-Tiled m1 (a, k) free held [] t size, refl, refl),
    )
