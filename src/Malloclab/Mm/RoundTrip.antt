-- ===== src/Malloclab/Mm/RoundTrip.antt =====
-- malloclab/mm.c: a request that is freed at once.
use cso_fall.Common.{
  ℕ, ◌+◌, ◌^◌, ◌≤◌, ◌<◌, ◌≡◌, ◌⊎◌, inl, inr, refl, sym, ap, subst, ◌∙◌, Option, none, some, List,
  [], ◌∷◌, arith, All, ltb, Bool-cases, ltb→lt, Bool, false,
}
use cso_fall.Malloclab.Memlib.{align}
use cso_fall.Malloclab.Headers.{Memory, header_to_payload}
use cso_fall.Malloclab.Mm.{Mm, mm_malloc, mm_free}
use cso_fall.Malloclab.Mm.Chunks.{Chunk, covers, within, IsChunk, Up, All-mono}
use cso_fall.Malloclab.Mm.Links.{Fwd}
use cso_fall.Malloclab.Mm.Valid.{Valid, in_heap}
use cso_fall.Malloclab.Mm.Free.{mm_free-Valid}
use cso_fall.Malloclab.Mm.Requests.{mm_malloc-Valid}

-- Below its first chunk a list in order covers nothing.
covers-low : (low x : ℕ) (cs : List Chunk) → Up low cs → x ≤ low → covers x cs ≡ 0
unfolding covers
covers-low low x [] up le = refl
covers-low low x (c ∷ cs) up le =
    let rest = covers-low (c.0 + c.1) x cs up.1 (omega (arith, up.0, le)) in
    let first = up.0 in ground arith

-- Of two lists in order that cover the same, none begins before the other, and the first chunk of none
-- ends behind the other's.
first_start :
    (low : ℕ) (c d : Chunk) (cs ds : List Chunk)
    → Up low (d ∷ ds)
    → 0 < c.1
    → ((x : ℕ) → covers x (c ∷ cs) ≡ covers x (d ∷ ds))
    → d.0 ≤ c.0
unfolding covers
first_start low c d cs ds up pos same =
    let e = same c.0 in
    elim (Bool-cases (ltb c.0 d.0)) [
      | inl lt ↦
          (let z = covers-low c.0 c.0 (d ∷ ds) (ltb→lt c.0 d.0 lt, up.1) (omega arith) in
            ground (arith, e, z, pos))
      | inr ge ↦ ground (arith, ge)
    ]

first_end :
    (a s t : ℕ) (cs ds : List Chunk)
    → Up (a + t) ds
    → ((x : ℕ) → covers x ((a, s) ∷ cs) ≡ covers x ((a, t) ∷ ds))
    → s ≤ t
unfolding covers
first_end a s t cs ds up same =
    let e = same (a + t) in
    let z = covers-low (a + t) (a + t) ds up (omega arith) in ground (arith, e, z)

-- A list in order with gaps is given by the addresses that it covers.
Up-unique :
    (low : ℕ) (cs ds : List Chunk)
    → Up low cs
    → Up low ds
    → All (λ c. 0 < c.1) cs
    → All (λ c. 0 < c.1) ds
    → ((x : ℕ) → covers x cs ≡ covers x ds)
    → cs ≡ ds
unfolding covers
Up-unique low [] [] up up' pos pos' same = refl
Up-unique low [] (d ∷ ds) up up' pos pos' same =
    let e = same d.0 in let p = pos'.0 in absurd (ground arith)
Up-unique low (c ∷ cs) [] up up' pos pos' same =
    let e = same c.0 in let p = pos.0 in absurd (ground arith)
Up-unique low ((a, s) ∷ cs) ((b, t) ∷ ds) up up' pos pos' same =
    let le = first_start low (a, s) (b, t) cs ds up' pos.0 same in
    let ge = first_start low (b, t) (a, s) ds cs up pos'.0 (λ x. sym (same x)) in
    let start : a ≡ b = omega (arith, le, ge) in
    let upb = subst (λ q. Up (q + s) cs) start up.1 in
    let sameb = subst (λ q. (x : ℕ) → covers x ((q, s) ∷ cs) ≡ covers x ((b, t) ∷ ds)) start same in
    let le' = first_end b s t cs ds up'.1 sameb in
    let ge' = first_end b t s ds cs upb (λ x. sym (sameb x)) in
    let end : s ≡ t = omega (arith, le', ge') in
    let rest =
      Up-unique (b + t) cs ds (subst (λ q. Up (b + q) cs) end upb) up'.1 pos.1 pos'.1
        (λ x. (let i = sameb x in let j = ap (λ q. within x (b, q)) end in omega (arith, i, j))) in
    λ i. (start i, end i) ∷ rest i

positive_sizes : (lo hi : ℕ) (cs : List Chunk) → All (IsChunk lo hi) cs → All (λ c. 0 < c.1) cs
positive_sizes lo hi cs all =
    All-mono (IsChunk lo hi) (λ c. 0 < c.1) (λ c h. omega (arith, h.header_fits)) cs all

-- Where a list of these chunks starts.
abbrev first_of : List Chunk → Option ℕ
first_of [] = none
first_of (c ∷ cs) = some c.0

Fwd-first_of :
    (mem : Memory) (st : Bool) (l p : Option ℕ) (cs : List Chunk)
    → Fwd mem st l p cs
    → p ≡ first_of cs
Fwd-first_of mem st l p [] f = f
Fwd-first_of mem st l p (c ∷ cs) f = f.0

-- In a valid state whose heap has room for one more chunk, mm_malloc of a size above 0 and below
-- 2^31 - 47 and then mm_free of its result give a valid state with the same allocated chunks. Where
-- mm_malloc left the heap as it was, the free chunks are the same as before and the list starts at
-- the same one; else the heap has grown by one chunk.
pub mm_free-mm_malloc :
    (m : Mm) (size : ℕ) (free held : List Chunk)
    → Valid m free held
    → 0 < size
    → size + 47 < 2 ^ 31
    → m.heap.mem_brk + (align size + 32) ≤ m.heap.mem_max_addr
    → (m1 : Mm) × (p : ℕ) × (m2 : Mm) × (free' : List Chunk) × ((mm_malloc size m
          ≡ some (some p, m1))
        × (mm_free p m1 ≡ some m2)
        × Valid m2 free' held
        × (((free' ≡ free) × (m2.global_free_list ≡ m.global_free_list) × (m2.heap ≡ m.heap))
            ⊎ (m2.heap ≡ record m.heap { mem_brk = m.heap.mem_brk + (align size + 32) })))
unfolding covers
mm_free-mm_malloc m size free held v positive small room =
    let (m1, c, (served, serves, fits, source)) =
      mm_malloc-Valid m size free held v positive small room in
    let (m2, free', (freed, v2, covered, heap, bytes)) =
      mm_free-Valid m1 c [] held serves.free serves.valid in
    let head = Fwd-first_of m2.mem false none m2.global_free_list free' v2.lists.free_list in
    let head_before = Fwd-first_of m.mem false none m.global_free_list free v.lists.free_list in
    let lo = m.heap.mem_start_brk in
    let hi = m.heap.mem_brk in
    (
      m1,
      header_to_payload c.0,
      m2,
      free',
      (
        served,
        freed,
        v2,
        elim source [
          | inl same ↦
              (let whole = heap ∙ same in
                let equal : free' ≡ free =
                  Up-unique 0 free' free v2.up v.up
                    (positive_sizes m2.heap.mem_start_brk m2.heap.mem_brk free' v2.free_chunks)
                    (positive_sizes lo hi free v.free_chunks)
                    (λ x.
                      (let i = v2.tiles x in
                        let j = v.tiles x in
                        let h = ap (in_heap x) whole in omega (arith, i, j, h))) in
                inl (equal, head ∙ ap first_of equal ∙ sym head_before, whole))
          | inr (grown, all) ↦ inr (heap ∙ grown)
        ],
      ),
    )
