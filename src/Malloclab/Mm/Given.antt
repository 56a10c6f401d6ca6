-- ===== src/Malloclab/Mm/Given.antt =====
-- malloclab/mm.c, `insert_free_list`: the state in which a chunk is given to the free list.
use cso_fall.Common.{
  ℕ, ◌+◌, ◌^◌, ◌≤◌, ◌<◌, ◌≡◌, ap, ◌∙◌, false, Option, none, List, [], ◌∷◌, arith, All,
}
use cso_fall.Malloclab.Headers.{Memory, set_chunk_status}
use cso_fall.Malloclab.Mm.Chunks.{Chunk, starts, covers, within, IsChunk, Up, starts-le-covers}
use cso_fall.Malloclab.Mm.Links.{Stands, Fwd, put_other, put_self, Agree-put, Fwd-Agree}
use cso_fall.Malloclab.Mm.Relink.{Apart, outside_head}
use cso_fall.Malloclab.Mm.Coalesce.{Settled}

-- What holds where the chunk `c` is given to the free list of the chunks `free`.
pub record Given (lo hi : ℕ) (mem : Memory) (p : Option ℕ) (c : Chunk) (free : List Chunk)
    : Type 0 where
  pub list : Fwd mem false none p free
  pub up : Up 0 free
  pub chunks : All (IsChunk lo hi) free
  pub chunk : IsChunk lo hi c
  pub size : (mem c.0).size ≡ c.1
  pub once : (x : ℕ) → covers x free + within x c ≤ 1
  pub low : 0 < lo
  pub high : hi < 2 ^ 64

pub Given-Apart :
    (lo hi : ℕ) (mem : Memory) (p : Option ℕ) (c : Chunk) (free : List Chunk)
    → Given lo hi mem p c free
    → Apart [] (c ∷ free)
unfolding starts covers
Given-Apart lo hi mem p c free g x =
    let i = starts-le-covers lo hi x free g.chunks in
    let o = g.once x in let s = g.chunk.header_fits in ground arith

-- The status that `insert_free_list` writes first.
pub Given-status :
    (lo hi : ℕ) (mem : Memory) (p : Option ℕ) (c : Chunk) (free : List Chunk)
    → Given lo hi mem p c free
    → Given lo hi (set_chunk_status mem c.0 false) p c free
      × Stands (set_chunk_status mem c.0 false) false c
unfolding starts
Given-status lo hi mem p c free g =
    let own = Given-Apart lo hi mem p c free g in
    let out : starts c.0 free ≡ 0 = ground (arith, own c.0) in
    let new = record (mem c.0) { status = false } in
    let mem1 = set_chunk_status mem c.0 false in
    let e = put_self mem c.0 new in
    let size : (mem1 c.0).size ≡ c.1 = ap (λ h. h.size) e ∙ g.size in
    (
      record {
        list = Fwd-Agree mem mem1 false none p free (Agree-put mem c.0 new free out) g.list;
        up = g.up;
        chunks = g.chunks;
        chunk = g.chunk;
        size = size;
        once = g.once;
        low = g.low;
        high = g.high;
      },
      record { size = size; status = ap (λ h. h.status) e },
    )

pub Settled-status :
    (lo hi : ℕ) (mem mem' : Memory) (p : Option ℕ) (c : Chunk) (free : List Chunk)
    → Settled lo hi (set_chunk_status mem c.0 false) mem' p (c ∷ free)
    → Settled lo hi mem mem' p (c ∷ free)
Settled-status lo hi mem mem' p c free s =
    let new = record (mem c.0) { status = false } in
    record {
      list = s.list;
      linked = s.linked;
      up = s.up;
      same = λ x o. s.same x o ∙ put_other mem c.0 x new (outside_head x c free o).0;
      covered = s.covered;
      sizes = s.sizes;
      chunks = s.chunks;
      fewer = s.fewer;
    }
