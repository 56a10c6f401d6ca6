-- ===== src/Malloclab/Naive/Realloc.antt =====
-- malloclab/mm-naive.c, `mm_realloc`.
use cso_fall.Common.{
  ℕ, ◌+◌, ◌-◌, ◌%◌, ◌^◌, ◌≤◌, ◌<◌, ◌≡◌, ◌⊎◌, inl, inr, refl, ap, subst, ◌∙◌, Bool, true, false,
  none, some, List, [], ◌∷◌, ◌++◌, if◌then◌else◌, ltb, leb, arith,
}
use cso_fall.Malloclab.Memlib.{align}
use cso_fall.Malloclab.Naive.{
  Naive, mm_malloc, mm_free, mm_realloc, copy_payload, memcpy, header_to_payload, payload_to_header,
  get_chunk_size,
}
use cso_fall.Malloclab.Naive.Chain.{Item, span, Chain-at, size-item}
use cso_fall.Malloclab.Naive.Laws.{Laid, Grows, mm_malloc-Laid, mm_free-Laid}

pub append_assoc :
    (xs : List Item) (c d : Item) (ys : List Item)
    → (xs ++ (c ∷ ys)) ++ (d ∷ []) ≡ xs ++ (c ∷ (ys ++ (d ∷ [])))
append_assoc [] c d ys = refl
append_assoc (x ∷ xs) c d ys = ap (λ q. x ∷ q) (append_assoc xs c d ys)

pub Laid-bytes :
    (m : Naive) (bytes : ℕ → ℕ) (cs : List Item) → Laid m cs → Laid (record m { bytes = bytes }) cs
Laid-bytes m bytes cs l = record {
  chain = l.chain;
  aligned = l.aligned;
  limit = l.limit;
  wide = l.wide;
}

-- The bytes that are copied.
abbrev copied : (size s : ℕ) → ℕ
copied size s = if ltb size (s - 16) then size else s - 16

copy_payload-frees :
    (m m' : Naive) (a s size newptr : ℕ)
    → get_chunk_size m.size_n_status a ≡ s
    → 16 ≤ s
    → s < 2 ^ 64
    → mm_free
        (header_to_payload a)
        (record m { bytes = memcpy m.bytes newptr (header_to_payload a) (copied size s) })
      ≡ some m'
    → copy_payload (some (header_to_payload a)) size (some newptr, m) ≡ some (some newptr, m')
unfolding copy_payload
copy_payload-frees m m' a s size newptr e min max freed =
    let at : payload_to_header (header_to_payload a) ≡ a = omega arith in
    let payload : (s + 2 ^ 64 - 16) % 2 ^ 64 ≡ s - 16 = omega (arith, min, max) in
    rw (at, e, payload, freed) refl

memcpy-copied :
    (bytes : ℕ → ℕ) (to from size s i : ℕ)
    → i < size
    → i + 16 < s
    → memcpy bytes to from (copied size s) (to + i) ≡ bytes (from + i)
memcpy-copied bytes to from size s i lt lt' =
    let a : leb to (to + i) ≡ true = ground arith in
    let b : ltb (to + i) (to + copied size s) ≡ true = ground (arith, lt, lt') in
    let c : to + i - to ≡ i = omega arith in rw (a, b, c) refl

memcpy-outside :
    (bytes : ℕ → ℕ) (to from size s x : ℕ)
    → (x < to) ⊎ (to + size ≤ x)
    → memcpy bytes to from (copied size s) x ≡ bytes x
memcpy-outside bytes to from size s x out = ground (arith, out)

realloc_full :
    (m : Naive) (size ptr : ℕ)
    → 0 < size
    → mm_malloc size m ≡ some (none, m)
    → mm_realloc (some ptr) size m ≡ some (none, m)
unfolding mm_realloc copy_payload
realloc_full m size ptr positive e =
    let go : ltb 0 size ≡ true = ground (arith, positive) in rw (go, e) refl

-- The chunk behind `before` is marked free, and its payload, as far as it is below the new size, stands in
-- a chunk at the end of the heap.
abbrev pub Moved : Naive → (size s : ℕ) → (before behind : List Item) → Type 0
Moved m size s before behind =
    let old = header_to_payload (m.heap.mem_start_brk + span before) in
    let new = header_to_payload m.heap.mem_brk in
    (m' : Naive) × (k : ℕ) × ((mm_realloc (some old) size m ≡ some (some new, m'))
      × Laid m' (before ++ ((s, false) ∷ (behind ++ ((k, true) ∷ []))))
      × (size + 16 ≤ k)
      × ((i : ℕ) → i < size → i + 16 < s → m'.bytes (new + i) ≡ m.bytes (old + i))
      × ((x : ℕ) → (x < new) ⊎ (m.heap.mem_brk + k ≤ x) → m'.bytes x ≡ m.bytes x)
      × Grows m size k m')

-- The size in the header of a chunk.
Laid-size :
    (m : Naive) (s : ℕ) (b : Bool) (before behind : List Item)
    → Laid m (before ++ ((s, b) ∷ behind))
    → (get_chunk_size m.size_n_status (m.heap.mem_start_brk + span before) ≡ s) × (s < 2 ^ 64)
Laid-size m s b before behind l =
    let (word, round, le) =
      Chain-at m.size_n_status m.heap.mem_start_brk m.heap.mem_brk s b before behind l.chain in
    (
      size-item m.size_n_status (m.heap.mem_start_brk + span before) s b word round,
      omega (arith, le, l.limit, l.wide),
    )

behind_chunk :
    (brk x k size : ℕ)
    → size + 16 ≤ k
    → (x < header_to_payload brk) ⊎ (brk + k ≤ x)
    → (x < header_to_payload brk) ⊎ (header_to_payload brk + size ≤ x)
behind_chunk brk x k size fits (inl h) = inl h
behind_chunk brk x k size fits (inr h) = inr (omega (arith, h, fits))

-- What follows a request that is served.
served-Moved :
    (m m1 : Naive) (size s k : ℕ) (b : Bool) (before behind : List Item)
    → mm_malloc size m ≡ some (some (header_to_payload m.heap.mem_brk), m1)
    → Laid m1 (before ++ ((s, b) ∷ (behind ++ ((k, true) ∷ []))))
    → 16 < s
    → 0 < size
    → size + 16 ≤ k
    → m1.bytes ≡ m.bytes
    → Grows m size k m1
    → Moved m size s before behind
unfolding mm_realloc
served-Moved m m1 size s k b before behind served laid payload positive fits same (grown, most) =
    let from = ap (λ h. h.mem_start_brk) grown in
    let old = header_to_payload (m.heap.mem_start_brk + span before) in
    let new = header_to_payload m.heap.mem_brk in
    let go : ltb 0 size ≡ true = ground (arith, positive) in
    let rest = behind ++ ((k, true) ∷ []) in
    let bytes = memcpy m1.bytes new old (copied size s) in
    let m2 = record m1 { bytes = bytes } in
    let (m', (freed, laid', kept, heap)) =
      mm_free-Laid m2 s b before rest (Laid-bytes m1 bytes (before ++ ((s, b) ∷ rest)) laid)
        payload in
    let freed' =
      subst (λ q. mm_free (header_to_payload (q + span before)) m2 ≡ some m') from freed in
    let (size_there, small) = Laid-size m1 s b before rest laid in
    let sized =
      subst (λ q. get_chunk_size m1.size_n_status (q + span before) ≡ s) from size_there in
    let copy =
      copy_payload-frees m1 m' (m.heap.mem_start_brk + span before) s size new sized
        (omega (arith, payload)) small freed' in
    (
      m',
      k,
      (
        rw (go, served, copy) refl,
        laid',
        fits,
        (λ i lt lt'.
            ap (λ f. f (new + i)) kept
            ∙ memcpy-copied m1.bytes new old size s i lt lt'
            ∙ ap (λ f. f (old + i)) same),
        (λ x out.
            ap (λ f. f x) kept
            ∙ memcpy-outside m1.bytes new old size s x
                (behind_chunk m.heap.mem_brk x k size fits out)
            ∙ ap (λ f. f x) same),
        (heap ∙ grown, most),
      ),
    )

-- In the naive allocator mm_realloc of a chunk with a payload to a size above 0 and below 2^31 - 31
-- grows the heap by a chunk whose payload has room for the size and less than 16 bytes more, copies
-- the old payload, as far as it is below the new size, leaves the bytes outside the new payload as
-- they are, and marks the old chunk free; where the heap has no room, it gives NULL and changes
-- nothing.
pub mm_realloc-Laid :
    (m : Naive) (size s : ℕ) (b : Bool) (before behind : List Item)
    → Laid m (before ++ ((s, b) ∷ behind))
    → 16 < s
    → 0 < size
    → size + 31 < 2 ^ 31
    → Moved m size s before behind
      ⊎ ((m.heap.mem_max_addr < m.heap.mem_brk + (align size + 16))
          × (mm_realloc (some (header_to_payload (m.heap.mem_start_brk + span before))) size m
              ≡ some (none, m)))
mm_realloc-Laid m size s b before behind l payload positive small =
    elim (mm_malloc-Laid m size (before ++ ((s, b) ∷ behind)) l small) [
      | inl (m1, k, (served, laid, fits, aligned, same, grows)) ↦
          (let laid1 = subst (λ q. Laid m1 q) (append_assoc before (s, b) (k, true) behind) laid in
            inl (
              served-Moved m m1 size s k b before behind served laid1 payload positive fits same
                grows))
      | inr (full, e) ↦ inr (
        full,
        realloc_full m size (header_to_payload (m.heap.mem_start_brk + span before)) positive e,
      )
    ]
