-- ===== src/Malloclab/Mm/Realloc.antt =====
-- malloclab/mm.c, `mm_realloc`.
use cso_fall.Common.{
  ℕ, ◌+◌, ◌-◌, ◌%◌, ◌^◌, ◌≤◌, ◌<◌, ◌≡◌, ◌⊎◌, inl, inr, refl, sym, ap, subst, ◌∙◌, true, Option,
  none, some, List, [], ◌∷◌, arith, if◌then◌else◌, ◌==◌, ◌>>=◌, ltb, leb, Bool-cases,
}
use cso_fall.Malloclab.Memlib.{align}
use cso_fall.Malloclab.Headers.{header_to_payload, payload_to_header}
use cso_fall.Malloclab.Mm.{Mm, mm_malloc, mm_free, mm_realloc, copy_old, memcpy}
use cso_fall.Malloclab.Mm.Chunks.{starts, Chunk, rev_append, IsChunk, All-rev_append_parts}
use cso_fall.Malloclab.Mm.Valid.{Tiled-starts, Valid}
use cso_fall.Malloclab.Mm.Removal.{Fwd-Stands}
use cso_fall.Malloclab.Mm.Free.{mm_free-Valid}
use cso_fall.Malloclab.Mm.Requests.{Source, mm_malloc-Valid}

again : (o : Option (Option ℕ × Mm)) → (o >>= λ (newptr, m). some (newptr, m)) ≡ o
again none = refl
again (some r) = refl

-- `mm_realloc` of NULL is `mm_malloc`, for every size, and `mm_realloc` of an address to size 0 is `mm_free`
-- with the result NULL.
mm_realloc_ends :
    (m : Mm)
    → ((size : ℕ) → mm_realloc none size m ≡ mm_malloc size m)
      × ((ptr : ℕ) → mm_realloc (some ptr) 0 m ≡ (mm_free ptr m >>= λ m'. some (none, m')))
unfolding mm_realloc copy_old mm_malloc
mm_realloc_ends m = ((λ size. null size), λ ptr. refl)
  where
    null : (size : ℕ) → mm_realloc none size m ≡ mm_malloc size m
    null size = elim (Bool-cases (ltb 0 size)) [
      | inl e ↦ rw (e) (
          again (mm_malloc size m >>= λ (newptr, m'). some (newptr, m')) ∙ again (mm_malloc size m))
      | inr e ↦ (let z : (size == 0) ≡ true = ground (arith, e) in rw (e, z) refl)
    ]

-- The chunk at the other end.
snoc : List Chunk → Chunk → List Chunk
snoc [] d = d ∷ []
snoc (c ∷ ls) d = c ∷ snoc ls d

rev_append-snoc :
    (ls : List Chunk) (d : Chunk) (rs : List Chunk)
    → rev_append (snoc ls d) rs ≡ d ∷ rev_append ls rs
unfolding snoc
rev_append-snoc [] d rs = refl
rev_append-snoc (c ∷ ls) d rs = rev_append-snoc ls d (c ∷ rs)

-- The payload bytes are no part of the state's shape.
pub Valid-bytes :
    (m : Mm) (bytes : ℕ → ℕ) (free held : List Chunk)
    → Valid m free held
    → Valid (record m { bytes = bytes }) free held
Valid-bytes m bytes free held v = record {
  lists = record {
    free_list = v.lists.free_list;
    allocated_list = v.lists.allocated_list;
    apart = v.lists.apart;
  };
  up = v.up;
  free_chunks = v.free_chunks;
  held_chunks = v.held_chunks;
  other_chunks = v.other_chunks;
  tiles = v.tiles;
  sizes = v.sizes;
  bounds = v.bounds;
}

memcpy-inside :
    (bytes : ℕ → ℕ) (to from n i : ℕ) → i < n → memcpy bytes to from n (to + i) ≡ bytes (from + i)
memcpy-inside bytes to from n i lt =
    let a : leb to (to + i) ≡ true = ground arith in
    let b : ltb (to + i) (to + n) ≡ true = ground (arith, lt) in
    let c : to + i - to ≡ i = omega arith in rw (a, b, c) refl

memcpy-outside :
    (bytes : ℕ → ℕ) (to from n x : ℕ) → (x < to) ⊎ (to + n ≤ x) → memcpy bytes to from n x ≡ bytes x
memcpy-outside bytes to from n x out = ground (arith, out)

-- The bytes that `copy_old` copies.
abbrev copied : (size s : ℕ) → ℕ
copied size s = if ltb size (s - 32) then size else s - 32

copy_old-bytes :
    (m : Mm) (c : Chunk) (size newptr : ℕ)
    → (m.mem c.0).size ≡ c.1
    → 32 ≤ c.1
    → c.1 < 2 ^ 64
    → copy_old (some (header_to_payload c.0)) size (some newptr, m)
      ≡ some (
        some newptr,
        record m { bytes = memcpy m.bytes newptr (header_to_payload c.0) (copied size c.1) },
      )
unfolding copy_old
copy_old-bytes m c size newptr e min max =
    let at : payload_to_header (header_to_payload c.0) ≡ c.0 = omega arith in
    let payload : (c.1 + 2 ^ 64 - 32) % 2 ^ 64 ≡ c.1 - 32 = omega (arith, min, max) in
    rw (at, e, payload) refl

-- mm_realloc of an allocated chunk to a size above 0 and below 2^31 - 47, in a valid state whose
-- heap has room for one more chunk, frees the chunk and allocates another one, at an address where
-- no allocated chunk started; the bytes of the old payload, as far as they are below the new size,
-- stand in the new payload, the bytes outside the new chunk are as before, and the state is valid
-- again. The heap grows only where each free chunk is too small.
pub mm_realloc-Valid :
    (m : Mm) (size : ℕ) (c : Chunk) (ls rs free : List Chunk)
    → Valid m free (rev_append ls (c ∷ rs))
    → 0 < size
    → size + 47 < 2 ^ 31
    → m.heap.mem_brk + (align size + 32) ≤ m.heap.mem_max_addr
    → (m' : Mm) × (d : Chunk) × (free' : List Chunk) × ((mm_realloc
            (some (header_to_payload c.0))
            size
            m
          ≡ some (some (header_to_payload d.0), m'))
        × Valid m' free' (d ∷ rev_append ls rs)
        × (size + 32 ≤ d.1)
        × ((i : ℕ)
            → i < size
            → i + 32 < c.1
            → m'.bytes (header_to_payload d.0 + i) ≡ m.bytes (header_to_payload c.0 + i))
        × ((x : ℕ) → (x < header_to_payload d.0) ⊎ (d.0 + d.1 ≤ x) → m'.bytes x ≡ m.bytes x)
        × Source m (align size + 32) free m'
        × (starts d.0 (rev_append ls (c ∷ rs)) ≡ 0))
unfolding mm_realloc starts
mm_realloc-Valid m size c ls rs free v positive small room =
    let (m1, d, (served, serves, fits, source)) =
      mm_malloc-Valid m size free (rev_append ls (c ∷ rs)) v positive small room in
    let held = snoc ls d in
    let v1 =
      subst (λ q. Valid m1 serves.free q) (sym (rev_append-snoc ls d (c ∷ rs))) serves.valid in
    let chunk =
      (All-rev_append_parts (IsChunk m1.heap.mem_start_brk m1.heap.mem_brk) held (c ∷ rs)
        v1.held_chunks).1.0 in
    let min = chunk.header_fits in
    let max : c.1 < 2 ^ 64 = omega (arith, chunk.high, v1.bounds.limit, v1.bounds.wide) in
    let cell =
      Fwd-Stands m1.mem true m1.global_allocated_list_head c held rs v1.lists.allocated_list in
    let to = header_to_payload d.0 in
    let n = copied size c.1 in
    let copy = copy_old-bytes m1 c size to cell.size min max in
    let bytes = memcpy m1.bytes to (header_to_payload c.0) n in
    let m2 = record m1 { bytes = bytes } in
    let (m', free', (freed, valid, covered, heap, same)) =
      mm_free-Valid m2 c held rs serves.free
        (Valid-bytes m1 bytes serves.free (rev_append held (c ∷ rs)) v1) in
    let positive' : ltb 0 size ≡ true = ground (arith, positive) in
    let n_size : n ≤ size = ground arith in
    let old = rev_append ls (c ∷ rs) in
    let once = Tiled-starts m1 serves.free (d ∷ old) [] serves.valid d.0 in
    let fresh : starts d.0 old ≡ 0 = ground (arith, once) in
    (
      m',
      d,
      free',
      (
        rw (positive', served, copy, freed) refl,
        subst (λ q. Valid m' free' q) (rev_append-snoc ls d rs) valid,
        fits,
        (λ i lt lt'.
            ap (λ f. f (to + i)) same
            ∙ memcpy-inside m1.bytes to (header_to_payload c.0) n i (below size c.1 i lt lt')
            ∙ ap (λ f. f (header_to_payload c.0 + i)) serves.bytes),
        (λ x out.
            ap (λ f. f x) same
            ∙ memcpy-outside m1.bytes to (header_to_payload c.0) n x
                (outside d n x (omega (arith, n_size, fits)) out)
            ∙ ap (λ f. f x) serves.bytes),
        from m1 m' heap source,
        fresh,
      ),
    )
  where
    from :
        (q r : Mm)
        → r.heap ≡ q.heap
        → Source m (align size + 32) free q
        → Source m (align size + 32) free r
    from q r heap (inl e) = inl (heap ∙ e)
    from q r heap (inr (e, all)) = inr (heap ∙ e, all)

    below : (a s i : ℕ) → i < a → i + 32 < s → i < copied a s
    below a s i lt lt' = ground (arith, lt, lt')

    outside :
        (e : Chunk) (a x : ℕ)
        → a + 32 ≤ e.1
        → (x < header_to_payload e.0) ⊎ (e.0 + e.1 ≤ x)
        → (x < header_to_payload e.0) ⊎ (header_to_payload e.0 + a ≤ x)
    outside e a x le out = ground (arith, le, out)
