-- ===== src/Malloclab/Mm/Valid.antt =====
-- malloclab/mm.c: the state of the allocator between two calls, and a chunk given to the free list.
use cso_fall.Common.{
  ℕ, ◌+◌, ◌-◌, ◌%◌, ◌^◌, ◌≤◌, ◌<◌, ◌≡◌, refl, ap, ◌∙◌, true, false, none, some, List, [], ◌∷◌,
  arith, All, length,
}
use cso_fall.Malloclab.Memlib.{Heap, mem_heapsize}
use cso_fall.Malloclab.Headers.{Header, put}
use cso_fall.Malloclab.Mm.{Mm, insert_free_list}
use cso_fall.Malloclab.Mm.Chunks.{
  Chunk, starts, covers, within, total, IsChunk, Up, starts-le-covers, length-le-total,
}
use cso_fall.Malloclab.Mm.Links.{Fwd-Agree, Agree-put}
use cso_fall.Malloclab.Mm.Relink.{Apart, SameBut-Agree}
use cso_fall.Malloclab.Mm.Lists.{Lists}
use cso_fall.Malloclab.Mm.Insertion.{insert_free_list-Settled}
use cso_fall.Malloclab.Mm.Given.{Given}

-- The heap of memlib.c, from an address above 0, below the end of the addresses.
pub record Bounds (h : Heap) : Type 0 where
  pub above : 0 < h.mem_start_brk
  pub grown : h.mem_start_brk ≤ h.mem_brk
  pub limit : h.mem_brk ≤ h.mem_max_addr
  pub wide : h.mem_max_addr < 2 ^ 64
  pub aligned : h.mem_brk % 16 ≡ 0

-- Where the address `x` is one of the heap.
abbrev pub in_heap : ℕ → Heap → ℕ
in_heap x h = within x (h.mem_start_brk, h.mem_brk - h.mem_start_brk)

-- The chunks of the two lists; the free ones in order with gaps between them, and every address of the
-- heap in one chunk of the two lists. The chunks `other` are in neither list.
pub record Tiled (m : Mm) (free held other : List Chunk) : Type 0 where
  pub lists : Lists m free held
  pub up : Up 0 free
  pub free_chunks : All (IsChunk m.heap.mem_start_brk m.heap.mem_brk) free
  pub held_chunks : All (IsChunk m.heap.mem_start_brk m.heap.mem_brk) held
  pub other_chunks : All (IsChunk m.heap.mem_start_brk m.heap.mem_brk) other
  pub tiles : (x : ℕ) → covers x free + covers x held + covers x other ≡ in_heap x m.heap
  pub sizes : total free + total held + total other ≡ m.heap.mem_brk - m.heap.mem_start_brk
  pub bounds : Bounds m.heap

-- Between two calls every chunk is in one of the lists.
abbrev pub Valid : Mm → (free held : List Chunk) → Type 0
Valid m free held = Tiled m free held []

in_heap-le : (x : ℕ) (h : Heap) → in_heap x h ≤ 1
in_heap-le x h = ground arith

-- No two chunks start at one address.
pub Tiled-starts :
    (m : Mm) (free held other : List Chunk)
    → Tiled m free held other
    → (x : ℕ) → starts x free + starts x held + starts x other ≤ 1
Tiled-starts m free held other t x =
    let lo = m.heap.mem_start_brk in
    let hi = m.heap.mem_brk in
    let f = starts-le-covers lo hi x free t.free_chunks in
    let h = starts-le-covers lo hi x held t.held_chunks in
    let o = starts-le-covers lo hi x other t.other_chunks in
    omega (arith, t.tiles x, f, h, o, in_heap-le x m.heap)

-- A write to a header of neither list.
pub Lists-put :
    (m : Mm) (free held : List Chunk) (a : ℕ) (h : Header)
    → starts a free + starts a held ≡ 0
    → Lists m free held
    → Lists (record m { mem = put m.mem a h }) free held
Lists-put m free held a h out l =
    let mem' = put m.mem a h in
    record {
      free_list =
          Fwd-Agree m.mem mem' false none m.global_free_list free
            (Agree-put m.mem a h free (omega (arith, out))) l.free_list;
      allocated_list =
          Fwd-Agree m.mem mem' true none m.global_allocated_list_head held
            (Agree-put m.mem a h held (omega (arith, out))) l.allocated_list;
      apart = l.apart;
    }

-- The chunk that is in no list, given to the free list: then the state is valid.
pub insert_free_list-Valid :
    (m : Mm) (c : Chunk) (free held : List Chunk)
    → Tiled m free held (c ∷ [])
    → (m.mem c.0).size ≡ c.1
    → (m' : Mm) × (free' : List Chunk) × ((insert_free_list c.0 m ≡ some m')
        × Valid m' free' held
        × ((x : ℕ) → covers x free' ≡ covers x free + within x c)
        × (m' ≡ record m { mem = m'.mem; global_free_list = m'.global_free_list }))
unfolding starts covers total mem_heapsize
insert_free_list-Valid m c free held t size =
    let lo = m.heap.mem_start_brk in
    let hi = m.heap.mem_brk in
    let b = t.bounds in
    let g : Given lo hi m.mem m.global_free_list c free = record {
      list = t.lists.free_list;
      up = t.up;
      chunks = t.free_chunks;
      chunk = t.other_chunks.0;
      size = size;
      once = λ x. omega (arith, t.tiles x, in_heap-le x m.heap);
      low = b.above;
      high = omega (arith, b.limit, b.wide);
    } in
    let enough : length free ≤ mem_heapsize m.heap =
      omega (arith, length-le-total lo hi free t.free_chunks, t.sizes) in
    let (m', (e, s, same)) = insert_free_list-Settled lo hi m c free g enough in
    let apart : Apart (c ∷ free) held = λ x. omega (arith, Tiled-starts m free held (c ∷ []) t x) in
    let next = record m { mem = m'.mem; global_free_list = m'.global_free_list } in
    let valid : Valid next s.list held = record {
      lists = record {
        free_list = s.linked;
        allocated_list =
            Fwd-Agree m.mem m'.mem true none m.global_allocated_list_head held
              (SameBut-Agree m.mem m'.mem (c ∷ free) held apart s.same) t.lists.allocated_list;
        apart = λ x. omega (arith, s.fewer x, apart x);
      };
      up = s.up;
      free_chunks = s.chunks;
      held_chunks = t.held_chunks;
      other_chunks = tt;
      tiles = λ x. omega (arith, s.covered x, t.tiles x);
      sizes = omega (arith, s.sizes, t.sizes);
      bounds = b;
    } in
    (next, s.list, (e ∙ ap some same, valid, (λ x. omega (arith, s.covered x)), refl))
