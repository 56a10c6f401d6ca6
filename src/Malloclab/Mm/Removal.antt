-- ===== src/Malloclab/Mm/Removal.antt =====
-- malloclab/mm.c, `remove_from_list`: the state with one chunk taken out of its list.
use cso_fall.Common.{ℕ, ◌+◌, ◌≡◌, Bool, Option, none, List, [], ◌∷◌, arith}
use cso_fall.Malloclab.Headers.{Memory}
use cso_fall.Malloclab.Mm.{Mm, unlink, remove_from_list}
use cso_fall.Malloclab.Mm.Chunks.{
  Chunk, rev_append, starts, covers, total, IsChunk, Up, Down, Up-removed, covers-rev_append,
  total-rev_append, All-rev_append, All-rev_append_parts,
}
use cso_fall.Malloclab.Mm.Links.{Fwd, Fwd-At, Stands, SameBut}
use cso_fall.Malloclab.Mm.Lists.{remove_from_list-free, remove_from_list-held}
use cso_fall.Malloclab.Mm.Valid.{Tiled, Valid, Tiled-starts}

Up-parts :
    (ls : List Chunk) (c : Chunk) (rs : List Chunk)
    → Up 0 (rev_append ls (c ∷ rs))
    → Down c.0 ls × Up (c.0 + c.1) rs
Up-parts [] c rs up = up
Up-parts (d ∷ ls) c rs up = let (down, up') = Up-parts ls d (c ∷ rs) up in ((up'.0, down), up'.1)

-- The header of a chunk of a list.
pub Fwd-Stands :
    (mem : Memory) (st : Bool) (p : Option ℕ) (c : Chunk) (ls rs : List Chunk)
    → Fwd mem st none p (rev_append ls (c ∷ rs))
    → Stands mem st c
Fwd-Stands mem st p c ls rs h = let (l, r, at, e) = Fwd-At mem st p ls (c ∷ rs) h in at.1.1

-- A free chunk that is taken out.
pub Tiled-free :
    (m : Mm) (c : Chunk) (ls rs held : List Chunk)
    → Valid m (rev_append ls (c ∷ rs)) held
    → Tiled (remove_from_list c.0 m) (rev_append ls rs) held (c ∷ [])
unfolding remove_from_list covers total
Tiled-free m c ls rs held v =
    let P = IsChunk m.heap.mem_start_brk m.heap.mem_brk in
    let (down, up) = Up-parts ls c rs v.up in
    let (l, r) = All-rev_append_parts P ls (c ∷ rs) v.free_chunks in
    record {
      lists = (remove_from_list-free m c ls rs held v.lists).0;
      up = Up-removed ls c rs down up;
      free_chunks = All-rev_append P ls rs l r.1;
      held_chunks = v.held_chunks;
      other_chunks = (r.0, tt);
      tiles =
          λ x. omega (arith, v.tiles x, covers-rev_append x ls (c ∷ rs), covers-rev_append x ls rs);
      sizes = omega (arith, v.sizes, total-rev_append ls (c ∷ rs), total-rev_append ls rs);
      bounds = v.bounds;
    }

-- An allocated one.
pub Tiled-held :
    (m : Mm) (c : Chunk) (ls rs free : List Chunk)
    → Valid m free (rev_append ls (c ∷ rs))
    → Tiled (remove_from_list c.0 m) free (rev_append ls rs) (c ∷ [])
unfolding remove_from_list covers total
Tiled-held m c ls rs free v =
    let P = IsChunk m.heap.mem_start_brk m.heap.mem_brk in
    let (l, r) = All-rev_append_parts P ls (c ∷ rs) v.held_chunks in
    record {
      lists = (remove_from_list-held m c ls rs free v.lists).0;
      up = v.up;
      free_chunks = v.free_chunks;
      held_chunks = All-rev_append P ls rs l r.1;
      other_chunks = (r.0, tt);
      tiles =
          λ x. omega (arith, v.tiles x, covers-rev_append x ls (c ∷ rs), covers-rev_append x ls rs);
      sizes = omega (arith, v.sizes, total-rev_append ls (c ∷ rs), total-rev_append ls rs);
      bounds = v.bounds;
    }

-- The header of the chunk taken out is as it was.
pub removed-header :
    (m : Mm) (c : Chunk) (free held : List Chunk)
    → Tiled (remove_from_list c.0 m) free held (c ∷ [])
    → SameBut held m.mem (unlink m.mem c.0)
    → unlink m.mem c.0 c.0 ≡ m.mem c.0
unfolding starts
removed-header m c free held t same =
    let s = Tiled-starts (remove_from_list c.0 m) free held (c ∷ []) t c.0 in
    same c.0 (ground (arith, s))
