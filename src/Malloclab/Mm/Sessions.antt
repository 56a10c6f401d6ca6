-- ===== src/Malloclab/Mm/Sessions.antt =====
-- malloclab/mm.c: the calls of a client, in any order, on one heap.
use mathlib.Core.Option.{some-injective}
use cso_fall.Common.{
  ℕ, ◌+◌, ◌^◌, ◌≤◌, ◌<◌, ◌≡◌, sym, ap, subst, ◌∙◌, some, List, [], ◌∷◌, arith, ◌==◌, if◌then◌else◌,
}
use cso_fall.Malloclab.Memlib.{mem_heapsize, align}
use cso_fall.Malloclab.Headers.{header_to_payload, payload_to_header, get_chunk_size}
use cso_fall.Malloclab.Mm.{Mm, mm_init, mm_malloc, mm_free, mm_realloc}
use cso_fall.Malloclab.Mm.Chunks.{Chunk, rev_append}
use cso_fall.Malloclab.Mm.Valid.{Bounds, Valid}
use cso_fall.Malloclab.Mm.Free.{mm_init-Valid, mm_free-Valid}
use cso_fall.Malloclab.Mm.Requests.{mm_malloc-Serves}
use cso_fall.Malloclab.Mm.Realloc.{mm_realloc-Valid, Valid-bytes}

-- The states that a client reaches, with the chunks it holds: it frees what it holds and writes to the
-- payloads it holds.
pub data Session : Mm → List Chunk → Type 0 where
  start : (m : Mm) → Bounds m.heap → mem_heapsize m.heap ≡ 0 → Session (mm_init m).1 []
  malloc :
      (m m' : Mm) (size p : ℕ) (held : List Chunk)
      → Session m held
      → 0 < size
      → size + 47 < 2 ^ 31
      → mm_malloc size m ≡ some (some p, m')
      → Session m' ((payload_to_header p, get_chunk_size m'.mem (payload_to_header p)) ∷ held)
  free :
      (m m' : Mm) (c : Chunk) (ls rs : List Chunk)
      → Session m (rev_append ls (c ∷ rs))
      → mm_free (header_to_payload c.0) m ≡ some m'
      → Session m' (rev_append ls rs)
  realloc :
      (m m' : Mm) (size p : ℕ) (c : Chunk) (ls rs : List Chunk)
      → Session m (rev_append ls (c ∷ rs))
      → 0 < size
      → size + 47 < 2 ^ 31
      → m.heap.mem_brk + (align size + 32) ≤ m.heap.mem_max_addr
      → mm_realloc (some (header_to_payload c.0)) size m ≡ some (some p, m')
      → Session m'
          ((payload_to_header p, get_chunk_size m'.mem (payload_to_header p)) ∷ rev_append ls rs)
  write :
      (m : Mm) (c : Chunk) (ls rs : List Chunk) (x v : ℕ)
      → Session m (rev_append ls (c ∷ rs))
      → header_to_payload c.0 ≤ x
      → x < c.0 + c.1
      → Session (record m { bytes = λ y. if x == y then v else m.bytes y }) (rev_append ls (c ∷ rs))

-- The chunk of a payload, read from its header.
held-chunk :
    (m : Mm) (p : ℕ) (c : Chunk) (f held : List Chunk)
    → some p ≡ some (header_to_payload c.0)
    → Valid m f (c ∷ held)
    → Valid m f ((payload_to_header p, get_chunk_size m.mem (payload_to_header p)) ∷ held)
held-chunk m p c f held e v =
    let at = some-injective p (header_to_payload c.0) e in
    let header : payload_to_header p ≡ c.0 = omega (arith, at) in
    let goal = λ (a : ℕ). Valid m f ((a, get_chunk_size m.mem a) ∷ held) in
    subst goal (sym header)
      (subst (λ s. Valid m f ((c.0, s) ∷ held)) (sym v.lists.allocated_list.1.size) v)

-- After any calls of a client that asks for sizes above 0 and below 2^31 - 47, frees what it holds,
-- writes to the payloads it holds and calls mm_realloc where the heap has room for one more chunk,
-- the state is valid: the free chunks and the held ones cover each address of the heap once, and the
-- free ones are in order with gaps between them.
pub Session-Valid :
    (m : Mm) (held : List Chunk) → Session m held → (f : List Chunk) × Valid m f held
Session-Valid _ _ (start m b empty) = ([], (mm_init-Valid m b empty).1)
Session-Valid _ _ (malloc m m' size p held s positive small e) =
    let (f, v) = Session-Valid m held s in
    let (c, (at, serves, fits)) = mm_malloc-Serves m m' (some p) size f held v positive small e in
    (serves.free, held-chunk m' p c serves.free held at serves.valid)
Session-Valid _ _ (free m m' c ls rs s e) =
    let (f, v) = Session-Valid m (rev_append ls (c ∷ rs)) s in
    let (m1, f', (r, v', covered, heap, bytes)) = mm_free-Valid m c ls rs f v in
    (f', subst (λ q. Valid q f' (rev_append ls rs)) (some-injective m1 m' (sym r ∙ e)) v')
Session-Valid _ _ (realloc m m' size p c ls rs s positive small room e) =
    let (f, v) = Session-Valid m (rev_append ls (c ∷ rs)) s in
    let (m1, d, f', (r, v', fits, copied, kept, source, fresh)) =
      mm_realloc-Valid m size c ls rs f v positive small room in
    let same = some-injective (some p, m') (some (header_to_payload d.0), m1) (sym e ∙ r) in
    (
      f',
      held-chunk m' p d f' (rev_append ls rs) (ap (λ q. q.0) same)
          (subst (λ q. Valid q f' (d ∷ rev_append ls rs)) (sym (ap (λ q. q.1) same)) v'),
    )
Session-Valid _ _ (write m c ls rs x w s low high) =
    let (f, v) = Session-Valid m (rev_append ls (c ∷ rs)) s in
    (f, Valid-bytes m (λ y. if x == y then w else m.bytes y) f (rev_append ls (c ∷ rs)) v)
