-- ===== src/Malloclab/Mm/Insertion.antt =====
-- malloclab/mm.c, `insert_free_list`: a chunk is put into the free list and merged with its neighbours.
use cso_fall.Common.{
  ℕ, ◌+◌, ◌≤◌, ◌<◌, ◌≡◌, ◌≢◌, refl, sym, ap, subst, ◌∙◌, false, Option, none, some, List, [], ◌∷◌,
  arith, All, Bool-cases, inl, inr, length, ltb, ltb→lt,
}
use cso_fall.Malloclab.Memlib.{mem_heapsize}
use cso_fall.Malloclab.Headers.{Memory, set_next, set_prev, set_chunk_status}
use cso_fall.Malloclab.Mm.{Mm, insert_free_list, insert_into, merge_both}
use cso_fall.Malloclab.Mm.Chunks.{
  Chunk, starts, covers, total, IsChunk, starts-rev_append, covers-rev_append, total-rev_append,
  All-rev_append_parts, All-mono,
}
use cso_fall.Malloclab.Mm.Links.{Stands, Fwd, At}
use cso_fall.Malloclab.Mm.Relink.{Apart}
use cso_fall.Malloclab.Mm.Places.{between, insert-At}
use cso_fall.Malloclab.Mm.Coalesce.{Settled, merge_both-Settled}
use cso_fall.Malloclab.Mm.Placing.{Place, place_loop-Place, before_chunk}
use cso_fall.Malloclab.Mm.Given.{Given, Given-Apart, Given-status, Settled-status}

-- A chunk that has been put in its place.
Place-Settled :
    (lo hi : ℕ) (mem mem' : Memory) (p q : Option ℕ) (c : Chunk) (free : List Chunk)
    → Given lo hi mem q c free
    → Stands mem false c
    → Place mem mem' p c free
    → Settled lo hi mem (merge_both mem' c.0) p (c ∷ free)
unfolding starts covers total
Place-Settled lo hi mem mem' p q c free g cell place =
    let ls = place.ls in
    let rs = place.rs in
    let whole = place.whole in
    let own = Given-Apart lo hi mem q c free g in
    let same_starts = λ (x : ℕ). ap (starts x) whole in
    let apart : Apart ls (c ∷ rs) =
      λ x. omega (arith, own x, starts-rev_append x ls rs, same_starts x) in
    let (at, same, next) =
      insert-At mem mem' false place.l place.l place.r place.r c ls rs apart place.at.0 place.at.1
        cell place.written in
    let chunks =
      All-rev_append_parts (IsChunk lo hi) ls rs
        (subst (λ cs. All (IsChunk lo hi) cs) (sym whole) g.chunks) in
    let s =
      merge_both-Settled lo hi mem' place.l c ls rs apart at place.low place.near chunks.0
        (g.chunk, chunks.1) g.high in
    record {
      list = s.list;
      linked = subst (λ r. Fwd (merge_both mem' c.0) false none r s.list) (sym place.head) s.linked;
      up = s.up;
      same = λ x o.
          s.same x (
            omega
              (arith, o, starts-rev_append x ls (c ∷ rs), starts-rev_append x ls rs, same_starts x))
          ∙ same x (omega (arith, o, starts-rev_append x ls rs, same_starts x))
              (omega (arith, o, starts-rev_append x ls rs, same_starts x));
      covered = λ x. omega (
        arith,
        s.covered x,
        covers-rev_append x ls (c ∷ rs),
        covers-rev_append x ls rs,
        ap (covers x) whole,
      );
      sizes =
          omega
            (arith, s.sizes, total-rev_append ls (c ∷ rs), total-rev_append ls rs, ap total whole);
      chunks = s.chunks;
      fewer = λ x. omega (
        arith,
        s.fewer x,
        starts-rev_append x ls (c ∷ rs),
        starts-rev_append x ls rs,
        same_starts x,
      );
    }

write_front :
    (mem : Memory) (a b : ℕ)
    → a ≢ b
    → (x : ℕ)
    → set_prev (set_prev (set_next mem a (some b)) a none) b (some a) x
      ≡ between mem a none (some b) x
write_front mem a b ne x = ground arith

write_first :
    (mem : Memory) (a : ℕ)
    → (x : ℕ) → set_next (set_prev mem a none) a none x ≡ between mem a none none x
write_first mem a x = ground arith

-- The place of a chunk in a list that is not empty.
insert_into-Place :
    (lo hi fuel : ℕ) (mem : Memory) (p : Option ℕ) (c e : Chunk) (rs : List Chunk)
    → Given lo hi mem p c (e ∷ rs)
    → length (e ∷ rs) < fuel
    → (p' : Option ℕ) × (mem' : Memory) × ((insert_into fuel mem c.0 e.0 ≡ some (p', mem'))
        × Place mem mem' p' c (e ∷ rs))
unfolding insert_into starts covers
insert_into-Place lo hi fuel mem p c e rs g enough =
    let own = Given-Apart lo hi mem p c (e ∷ rs) g in
    let pos : 0 < c.1 = omega (arith, g.chunk.header_fits) in
    let pos_e : 0 < e.1 = omega (arith, g.chunks.0.header_fits) in
    let min : 0 < c.0 = omega (arith, g.low, g.chunk.low) in
    let e_min : 0 < e.0 = omega (arith, g.low, g.chunks.0.low) in
    let ne : c.0 ≢ e.0 = λ i. ground (arith, own c.0, i) in
    elim (Bool-cases (ltb c.0 e.0)) [
      | inl lt ↦ (
        some c.0,
        set_prev (set_prev (set_next mem c.0 (some e.0)) c.0 none) e.0 (some c.0),
        (
          rw (lt) refl,
          record {
            l = none;
            r = some e.0;
            ls = [];
            rs = e ∷ rs;
            whole = refl;
            at = (refl, (refl, g.list.1, g.list.2, g.list.3));
            low = min;
            near = (before_chunk c e rs g.once pos pos_e (ltb→lt c.0 e.0 lt), g.up.1);
            head = refl;
            written = write_front mem c.0 e.0 ne;
          },
        ),
      )
      | inr past ↦
          (let le : e.0 ≤ c.0 = ground (arith, past) in
            let all =
              All-mono (IsChunk lo hi) (λ d. 0 < d.1) (λ d h. omega (arith, h.header_fits)) (e ∷ rs)
                g.chunks in
            let at : At mem false none (some e.0) [] (e ∷ rs) =
              (refl, (refl, g.list.1, g.list.2, g.list.3)) in
            let (mem', (found, place)) =
              place_loop-Place fuel mem none (some e.0) c [] (e ∷ rs) enough own at min
                (e_min, g.up.1) le g.once pos all in
            (some e.0, mem', (rw (past, found) refl, place)))
    ]

-- The chunk alone.
first-Settled :
    (lo hi : ℕ) (mem : Memory) (p : Option ℕ) (c : Chunk)
    → Given lo hi mem p c []
    → Stands mem false c
    → Settled lo hi mem (set_next (set_prev mem c.0 none) c.0 none) (some c.0) (c ∷ [])
unfolding starts
first-Settled lo hi mem p c g cell =
    let mem' = set_next (set_prev mem c.0 none) c.0 none in
    let own = Given-Apart lo hi mem p c [] g in
    let (at, same, next) =
      insert-At mem mem' false none none none none c [] [] own refl refl cell
        (write_first mem c.0) in
    record {
      list = c ∷ [];
      linked = at.1;
      up = (omega (arith, g.low, g.chunk.low), tt);
      same = λ x o. same x refl o;
      covered = λ x. refl;
      sizes = refl;
      chunks = (g.chunk, tt);
      fewer = λ x. omega arith;
    }

-- The free list with the chunk given to it.
pub insert_free_list-Settled :
    (lo hi : ℕ) (m : Mm) (c : Chunk) (free : List Chunk)
    → Given lo hi m.mem m.global_free_list c free
    → length free ≤ mem_heapsize m.heap
    → (m' : Mm) × ((insert_free_list c.0 m ≡ some m')
        × Settled lo hi m.mem m'.mem m'.global_free_list (c ∷ free)
        × (m' ≡ record m { mem = m'.mem; global_free_list = m'.global_free_list }))
unfolding insert_free_list
insert_free_list-Settled lo hi m c [] g enough =
    let (g1, cell) = Given-status lo hi m.mem m.global_free_list c [] g in
    let mem = set_chunk_status m.mem c.0 false in
    let mem' = set_next (set_prev mem c.0 none) c.0 none in
    let s = first-Settled lo hi mem m.global_free_list c g1 cell in
    (
      record m { mem = mem'; global_free_list = some c.0 },
      (rw (g.list) refl, Settled-status lo hi m.mem mem' (some c.0) c [] s, refl),
    )
insert_free_list-Settled lo hi m c (e ∷ rs) g enough =
    let free = e ∷ rs in
    let (g1, cell) = Given-status lo hi m.mem m.global_free_list c free g in
    let mem = set_chunk_status m.mem c.0 false in
    let fuel = mem_heapsize m.heap + 1 in
    let (p', mem', (found, place)) =
      insert_into-Place lo hi fuel mem m.global_free_list c e rs g1 (omega (arith, enough)) in
    let s = Place-Settled lo hi mem mem' p' m.global_free_list c free g1 cell place in
    (
      record m { mem = merge_both mem' c.0; global_free_list = p' },
      (
        rw (g.list.0, found) refl,
        Settled-status lo hi m.mem (merge_both mem' c.0) p' c free s,
        refl,
      ),
    )
