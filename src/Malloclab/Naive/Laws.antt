-- ===== src/Malloclab/Naive/Laws.antt =====
-- malloclab/mm-naive.c: what `mm_malloc` and `mm_free` do to the chunks of the heap.
use cso_fall.Common.{
  ℕ, ◌+◌, ◌-◌, ◌%◌, ◌^◌, ◌≤◌, ◌<◌, ◌≡◌, ◌⊎◌, inl, inr, refl, subst, Bool, true, false, none, some,
  List, [], ◌∷◌, ◌++◌, ◌==◌, ltb, leb, ltb→lt, arith, Bool-cases, pos,
}
use cso_fall.Malloclab.Memlib.{align, is_aligned, mem_sbrk, mem_heap_lo, mem_heap_hi}
use cso_fall.Malloclab.Naive.{
  Naive, Totals, mm_malloc, mm_free, mm_checkheap, header_to_payload, set_word, set_chunk_status,
  to_int,
}
use cso_fall.Malloclab.Naive.Chain.{
  Item, Chain, span, Chain-behind, Chain-within, Chain-at, mm_checkheap-totals, size-item, count,
  sum,
}

-- The heap, an aligned one below the end of the addresses, is the chunks one behind the other.
pub record Laid (m : Naive) (cs : List Item) : Type 0 where
  pub chain : Chain m.size_n_status m.heap.mem_start_brk m.heap.mem_brk cs
  pub aligned : m.heap.mem_start_brk % 16 ≡ 0
  pub limit : m.heap.mem_brk ≤ m.heap.mem_max_addr
  pub wide : m.heap.mem_max_addr < 2 ^ 64

Chain-aligned :
    (mem : ℕ → ℕ) (h hi : ℕ) (cs : List Item) → Chain mem h hi cs → h % 16 ≡ 0 → hi % 16 ≡ 0
Chain-aligned mem h hi [] c e = omega (arith, c, e)
Chain-aligned mem h hi ((s, b) ∷ cs) c e =
    let r = c.2 in Chain-aligned mem (h + s) hi cs c.3 (omega (arith, e, r))

newsize_of :
    (size : ℕ)
    → size + 31 < 2 ^ 31
    → (to_int ((align size + 16) % 2 ^ 64) ≡ pos (align size + 16))
      × (size ≤ align size)
      × (align size % 16 ≡ 0)
      × (align size ≤ size + 15)
unfolding align
newsize_of size small =
    (ground (arith, small), omega (arith, small), omega (arith, small), omega (arith, small))

-- The state with one more chunk at the end of the heap.
abbrev with_chunk : Naive → ℕ → Naive
with_chunk m k = record m {
  size_n_status = set_word m.size_n_status m.heap.mem_brk (k + 1);
  heap = record m.heap { mem_brk = m.heap.mem_brk + k };
}

malloc_room :
    (m : Naive) (size : ℕ) (cs : List Item)
    → Laid m cs
    → size + 31 < 2 ^ 31
    → m.heap.mem_brk + (align size + 16) ≤ m.heap.mem_max_addr
    → mm_malloc size m
      ≡ some (some (header_to_payload m.heap.mem_brk), with_chunk m (align size + 16))
unfolding mm_malloc mem_sbrk is_aligned
malloc_room m size cs l small room =
    let (newsize, low, round, high) = newsize_of size small in
    let brk =
      Chain-aligned m.size_n_status m.heap.mem_start_brk m.heap.mem_brk cs l.chain l.aligned in
    let fits : ltb m.heap.mem_max_addr (m.heap.mem_brk + (align size + 16)) ≡ false =
      ground (arith, room) in
    let k = align size + 16 in
    let word : k - k % 2 + 1 ≡ k + 1 = omega (arith, round) in
    let at : (m.heap.mem_brk % 16 == 0) ≡ true = ground (arith, brk) in
    let status : ((k + 1) % 2 == 1) ≡ true = ground (arith, round) in
    let sized : (k + 1 - (k + 1) % 2 == k) ≡ true = ground (arith, round) in
    let here : (m.heap.mem_brk == m.heap.mem_brk) ≡ true = ground arith in
    rw (newsize, fits, word, at, here, status, sized) refl

malloc_full :
    (m : Naive) (size : ℕ)
    → size + 31 < 2 ^ 31
    → m.heap.mem_max_addr < m.heap.mem_brk + (align size + 16)
    → mm_malloc size m ≡ some (none, m)
unfolding mm_malloc mem_sbrk
malloc_full m size small full =
    let newsize = (newsize_of size small).0 in
    let e : ltb m.heap.mem_max_addr (m.heap.mem_brk + (align size + 16)) ≡ true =
      ground (arith, full) in
    rw (newsize, e) refl

with_chunk-Laid :
    (m : Naive) (k : ℕ) (cs : List Item)
    → Laid m cs
    → 16 ≤ k
    → k % 16 ≡ 0
    → m.heap.mem_brk + k ≤ m.heap.mem_max_addr
    → Laid (with_chunk m k) (cs ++ ((k, true) ∷ []))
with_chunk-Laid m k cs l min round room = record {
  chain =
      Chain-behind m.size_n_status k m.heap.mem_start_brk m.heap.mem_brk true cs l.chain min round;
  aligned = l.aligned;
  limit = room;
  wide = l.wide;
}

-- The heap has grown by the chunk, which has less than two headers more than the request.
abbrev pub Grows : Naive → (size k : ℕ) → Naive → Type 0
Grows m size k m' = (m'.heap ≡ record m.heap { mem_brk = m.heap.mem_brk + k }) × (k ≤ size + 31)

-- `mm_malloc` puts a chunk, used, behind the others, with room for the size and the header, or, where the
-- heap has no room for it, gives NULL and changes nothing; it never fails an assert. The result is
-- aligned, and the payload bytes stay.
pub mm_malloc-Laid :
    (m : Naive) (size : ℕ) (cs : List Item)
    → Laid m cs
    → size + 31 < 2 ^ 31
    → ((m' : Naive) × (k : ℕ) × ((mm_malloc size m
            ≡ some (some (header_to_payload m.heap.mem_brk), m'))
          × Laid m' (cs ++ ((k, true) ∷ []))
          × (size + 16 ≤ k)
          × (is_aligned (header_to_payload m.heap.mem_brk) ≡ true)
          × (m'.bytes ≡ m.bytes)
          × Grows m size k m'))
      ⊎ ((m.heap.mem_max_addr < m.heap.mem_brk + (align size + 16))
          × (mm_malloc size m ≡ some (none, m)))
unfolding is_aligned
mm_malloc-Laid m size cs l small =
    let (newsize, low, round, high) = newsize_of size small in
    let brk =
      Chain-aligned m.size_n_status m.heap.mem_start_brk m.heap.mem_brk cs l.chain l.aligned in
    elim (Bool-cases (ltb m.heap.mem_max_addr (m.heap.mem_brk + (align size + 16)))) [
      | inl full ↦
          (let lt = ltb→lt m.heap.mem_max_addr (m.heap.mem_brk + (align size + 16)) full in
            inr (lt, malloc_full m size small lt))
      | inr e ↦
          (let room : m.heap.mem_brk + (align size + 16) ≤ m.heap.mem_max_addr =
              ground (arith, e) in
            inl (
              with_chunk m (align size + 16),
              align size + 16,
              (
                malloc_room m size cs l small room,
                with_chunk-Laid m (align size + 16) cs l (omega arith) (omega (arith, round)) room,
                omega (arith, low),
                ground (arith, brk),
                refl,
                (refl, omega (arith, high)),
              ),
            ))
    ]

free_outside : (m : Naive) (p : ℕ) → m.heap.mem_brk - 1 < p → mm_free p m ≡ none
unfolding mm_free mem_heap_lo mem_heap_hi
free_outside m p out =
    let e : leb p (m.heap.mem_brk - 1) ≡ false = ground (arith, out) in
    elim (Bool-cases (leb m.heap.mem_start_brk p)) [ inl i ↦ rw (i, e) refl | inr i ↦ rw (i) refl ]

-- The asserts of `mm_free`, where the walk ends.
free_runs :
    (m : Naive) (a : ℕ) (t : Totals)
    → m.heap.mem_start_brk ≤ a
    → a + 16 < m.heap.mem_brk
    → mm_checkheap (record m { size_n_status = set_chunk_status m.size_n_status a false }) ≡ some t
    → mm_free (header_to_payload a) m
      ≡ some (record m { size_n_status = set_chunk_status m.size_n_status a false })
unfolding mm_free mem_heap_lo mem_heap_hi
free_runs m a t low high walk =
    let at : a + 16 - 16 ≡ a = omega arith in
    let lo : leb m.heap.mem_start_brk (a + 16) ≡ true = ground (arith, low) in
    let hi : leb (a + 16) (m.heap.mem_brk - 1) ≡ true = ground (arith, high) in
    let here : (a == a) ≡ true = ground arith in
    let w = m.size_n_status a in
    let even : ((w - w % 2) % 2 == 1) ≡ false = ground arith in
    rw (at, lo, hi, here, even, walk) refl

-- In the naive allocator mm_free of a chunk with a payload marks it free and leaves the other chunks
-- and the payload bytes as they are; no assert fails, and the walk of mm_checkheap ends.
pub mm_free-Laid :
    (m : Naive) (s : ℕ) (b : Bool) (before behind : List Item)
    → Laid m (before ++ ((s, b) ∷ behind))
    → 16 < s
    → (m' : Naive) × ((mm_free (header_to_payload (m.heap.mem_start_brk + span before)) m ≡ some m')
        × Laid m' (before ++ ((s, false) ∷ behind))
        × (m'.bytes ≡ m.bytes)
        × (m'.heap ≡ m.heap))
mm_free-Laid m s b before behind l payload =
    let start = m.heap.mem_start_brk in
    let a = start + span before in
    let (word, round, le) =
      Chain-at m.size_n_status start m.heap.mem_brk s b before behind l.chain in
    let mem = set_chunk_status m.size_n_status a false in
    let size = size-item m.size_n_status a s b word round in
    let chain = Chain-within m.size_n_status start m.heap.mem_brk s b false before behind l.chain in
    let same : s + 0 ≡ m.size_n_status a - m.size_n_status a % 2 = omega (arith, size) in
    let chain' =
      subst
        (λ w.
          Chain (set_word m.size_n_status a w) start m.heap.mem_brk
            (before ++ ((s, false) ∷ behind)))
        same chain in
    let m' = record m { size_n_status = mem } in
    let walk = mm_checkheap-totals m' (before ++ ((s, false) ∷ behind)) chain' in
    let items = before ++ ((s, false) ∷ behind) in
    let totals : Totals = record {
      total_allocated = count true items;
      total_allocated_sz = sum true items;
      total_free = count false items;
      total_free_sz = sum false items;
    } in
    (
      m',
      (
        free_runs m a totals (omega arith) (omega (arith, le, payload)) walk,
        record { chain = chain'; aligned = l.aligned; limit = l.limit; wide = l.wide },
        refl,
        refl,
      ),
    )

-- In the naive allocator, where the heap has room for a chunk without a payload, mm_malloc of size 0
-- gives an address for which mm_free fails an assert.
pub mm_free-mm_malloc_empty :
    (m : Naive) (cs : List Item)
    → Laid m cs
    → m.heap.mem_brk + 16 ≤ m.heap.mem_max_addr
    → (p : ℕ) × (m' : Naive) × ((mm_malloc 0 m ≡ some (some p, m')) × (mm_free p m' ≡ none))
unfolding align
mm_free-mm_malloc_empty m cs l room =
    let p = header_to_payload m.heap.mem_brk in
    let m' = with_chunk m (align 0 + 16) in
    (
      p,
      m',
      (malloc_room m 0 cs l (omega arith) (omega (arith, room)), free_outside m' p (omega arith)),
    )
