-- ===== src/Malloclab/Naive/Chain.antt =====
-- malloclab/mm-naive.c: the chunks of the heap, from its start to its end, and the walk of `mm_checkheap`.
use cso_fall.Common.{
  ℕ, zero, suc, ◌+◌, ◌-◌, ◌%◌, ◌≤◌, ◌<◌, ◌≡◌, refl, ap, subst, ◌∙◌, Bool, true, false, some, List,
  [], ◌∷◌, ◌++◌, ltb, to_nat, length, arith,
}
use cso_fall.Malloclab.Memlib.{mem_heap_lo, mem_heap_hi, mem_heapsize}
use cso_fall.Malloclab.Naive.{
  Naive, set_word, get_chunk_status, get_chunk_size, Totals, tally, check_loop, mm_checkheap,
}

-- A chunk's size and status.
abbrev pub Item : Type 0
Item = ℕ × Bool

-- From the address `h` to the address `hi` stand the chunks, one behind the other.
abbrev pub Chain : (ℕ → ℕ) → (h hi : ℕ) → List Item → Type 0
Chain mem h hi [] = h ≡ hi
Chain mem h hi ((s, b) ∷ cs) =
    (mem h ≡ s + to_nat b) × (16 ≤ s) × (s % 16 ≡ 0) × Chain mem (h + s) hi cs

unfoldable pub span : List Item → ℕ
span [] = 0
span (c ∷ cs) = c.0 + span cs

-- How many chunks have the status, and their sizes together.
pub count : Bool → List Item → ℕ
count b [] = 0
count true ((s, true) ∷ cs) = 1 + count true cs
count true ((s, false) ∷ cs) = count true cs
count false ((s, true) ∷ cs) = count false cs
count false ((s, false) ∷ cs) = 1 + count false cs

pub sum : Bool → List Item → ℕ
sum b [] = 0
sum true ((s, true) ∷ cs) = s + sum true cs
sum true ((s, false) ∷ cs) = sum true cs
sum false ((s, true) ∷ cs) = sum false cs
sum false ((s, false) ∷ cs) = s + sum false cs

pub Chain-span : (mem : ℕ → ℕ) (h hi : ℕ) (cs : List Item) → Chain mem h hi cs → h + span cs ≡ hi
unfolding span
Chain-span mem h hi [] c = omega (arith, c)
Chain-span mem h hi ((s, b) ∷ cs) c = omega (arith, Chain-span mem (h + s) hi cs c.3)

Chain-length : (mem : ℕ → ℕ) (h hi : ℕ) (cs : List Item) → Chain mem h hi cs → h + length cs ≤ hi
Chain-length mem h hi [] c = omega (arith, c)
Chain-length mem h hi ((s, b) ∷ cs) c =
    let min = c.1 in omega (arith, Chain-length mem (h + s) hi cs c.3)

pub size-item :
    (mem : ℕ → ℕ) (h s : ℕ) (b : Bool)
    → mem h ≡ s + to_nat b
    → s % 16 ≡ 0
    → get_chunk_size mem h ≡ s
size-item mem h s true e m = omega (arith, e, m)
size-item mem h s false e m = omega (arith, e, m)

status-item :
    (mem : ℕ → ℕ) (h s : ℕ) (b : Bool)
    → mem h ≡ s + to_nat b
    → s % 16 ≡ 0
    → get_chunk_status mem h ≡ b
status-item mem h s true e m = ground (arith, e, m)
status-item mem h s false e m = ground (arith, e, m)

-- A write before the chunks, and one at their end.
Chain-before :
    (mem : ℕ → ℕ) (a w h hi : ℕ) (cs : List Item)
    → a < h
    → Chain mem h hi cs
    → Chain (set_word mem a w) h hi cs
Chain-before mem a w h hi [] lt c = c
Chain-before mem a w h hi ((s, b) ∷ cs) lt c =
    let e = c.0 in
    (ground (arith, e, lt), c.1, c.2, Chain-before mem a w (h + s) hi cs (omega (arith, lt)) c.3)

pub Chain-behind :
    (mem : ℕ → ℕ) (k h hi : ℕ) (b' : Bool) (cs : List Item)
    → Chain mem h hi cs
    → 16 ≤ k
    → k % 16 ≡ 0
    → Chain (set_word mem hi (k + to_nat b')) h (hi + k) (cs ++ ((k, b') ∷ []))
Chain-behind mem k h hi b' [] c min round = (ground (arith, c), min, round, omega (arith, c))
Chain-behind mem k h hi b' ((s, b) ∷ cs) c min round =
    let e = c.0 in
    let m = c.1 in
    let le = Chain-length mem (h + s) hi cs c.3 in
    (ground (arith, e, m, le), c.1, c.2, Chain-behind mem k (h + s) hi b' cs c.3 min round)

-- A chunk between others with another word.
pub Chain-within :
    (mem : ℕ → ℕ) (h hi s : ℕ) (b b' : Bool) (before behind : List Item)
    → Chain mem h hi (before ++ ((s, b) ∷ behind))
    → Chain (set_word mem (h + span before) (s + to_nat b')) h hi (before ++ ((s, b') ∷ behind))
unfolding span
Chain-within mem h hi s b b' [] behind c =
    let min = c.1 in
    (
      ground arith,
      c.1,
      c.2,
      Chain-before mem (h + 0) (s + to_nat b') (h + s) hi behind (omega (arith, min)) c.3,
    )
Chain-within mem h hi s b b' ((t, d) ∷ before) behind c =
    let e = c.0 in
    let min = c.1 in
    let at : h + t + span before ≡ h + (t + span before) = omega arith in
    let rest = Chain-within mem (h + t) hi s b b' before behind c.3 in
    (
      ground (arith, e, min),
      c.1,
      c.2,
      subst (λ a. Chain (set_word mem a (s + to_nat b')) (h + t) hi (before ++ ((s, b') ∷ behind)))
          at rest,
    )

-- The word of a chunk between others.
pub Chain-at :
    (mem : ℕ → ℕ) (h hi s : ℕ) (b : Bool) (before behind : List Item)
    → Chain mem h hi (before ++ ((s, b) ∷ behind))
    → (mem (h + span before) ≡ s + to_nat b) × (s % 16 ≡ 0) × (h + span before + s ≤ hi)
unfolding span
Chain-at mem h hi s b [] behind c =
    let at : h ≡ h + 0 = omega arith in
    (
      subst (λ a. mem a ≡ s + to_nat b) at c.0,
      c.2,
      omega (arith, Chain-length mem (h + s) hi behind c.3),
    )
Chain-at mem h hi s b ((t, d) ∷ before) behind c =
    let (word, round, le) = Chain-at mem (h + t) hi s b before behind c.3 in
    let at : h + t + span before ≡ h + (t + span before) = omega arith in
    (subst (λ a. mem a ≡ s + to_nat b) at word, round, omega (arith, le))

Totals-path :
    (t u : Totals)
    → t.total_allocated ≡ u.total_allocated
    → t.total_allocated_sz ≡ u.total_allocated_sz
    → t.total_free ≡ u.total_free
    → t.total_free_sz ≡ u.total_free_sz
    → t ≡ u
Totals-path t u a b c d = λ i. record {
  total_allocated = a i;
  total_allocated_sz = b i;
  total_free = c i;
  total_free_sz = d i;
}

-- The totals of the chunks, added to `t`.
abbrev add_totals : List Item → Totals → Totals
add_totals cs t = record {
  total_allocated = count true cs + t.total_allocated;
  total_allocated_sz = sum true cs + t.total_allocated_sz;
  total_free = count false cs + t.total_free;
  total_free_sz = sum false cs + t.total_free_sz;
}

add_totals-tally :
    (s : ℕ) (b : Bool) (cs : List Item) (t : Totals)
    → add_totals cs (tally b s t) ≡ add_totals ((s, b) ∷ cs) t
unfolding count sum
add_totals-tally s true cs t =
    Totals-path (add_totals cs (tally true s t)) (add_totals ((s, true) ∷ cs) t) (omega arith)
      (omega arith) refl refl
add_totals-tally s false cs t =
    Totals-path (add_totals cs (tally false s t)) (add_totals ((s, false) ∷ cs) t) refl refl
      (omega arith) (omega arith)

check_loop-totals :
    (fuel : ℕ) (m : Naive) (h : ℕ) (t : Totals) (cs : List Item)
    → Chain m.size_n_status h m.heap.mem_brk cs
    → length cs < fuel
    → check_loop fuel m h t ≡ some (add_totals cs t)
unfolding check_loop count sum mem_heap_hi
check_loop-totals zero m h t cs c enough = absurd (omega (arith, enough))
check_loop-totals (suc fuel) m h t [] c enough =
    let stop : ltb h (m.heap.mem_brk - 1) ≡ false = ground (arith, c) in
    rw (stop) (
      ap some
        (Totals-path t (add_totals [] t) (omega arith) (omega arith) (omega arith) (omega arith)))
check_loop-totals (suc fuel) m h t ((s, b) ∷ cs) c enough =
    let min = c.1 in
    let le = Chain-length m.size_n_status (h + s) m.heap.mem_brk cs c.3 in
    let go : ltb h (m.heap.mem_brk - 1) ≡ true = ground (arith, le, min) in
    let size = size-item m.size_n_status h s b c.0 c.2 in
    let status = status-item m.size_n_status h s b c.0 c.2 in
    let ih = check_loop-totals fuel m (h + s) (tally b s t) cs c.3 (omega (arith, enough)) in
    rw (go, size, status) (ih ∙ ap some (add_totals-tally s b cs t))

-- The walk over the chunks of the heap ends, and its totals are those of the chunks.
pub mm_checkheap-totals :
    (m : Naive) (cs : List Item)
    → Chain m.size_n_status m.heap.mem_start_brk m.heap.mem_brk cs
    → mm_checkheap m
      ≡ some (record {
        total_allocated = count true cs;
        total_allocated_sz = sum true cs;
        total_free = count false cs;
        total_free_sz = sum false cs;
      })
unfolding mm_checkheap mem_heapsize mem_heap_lo
mm_checkheap-totals m cs c =
    let enough : length cs < m.heap.mem_brk - m.heap.mem_start_brk + 1 =
      omega (arith, Chain-length m.size_n_status m.heap.mem_start_brk m.heap.mem_brk cs c) in
    let zero_totals : Totals = record {
      total_allocated = 0;
      total_allocated_sz = 0;
      total_free = 0;
      total_free_sz = 0;
    } in
    check_loop-totals (m.heap.mem_brk - m.heap.mem_start_brk + 1) m m.heap.mem_start_brk zero_totals
      cs c enough
    ∙ ap some (no_totals cs)
  where
    no_totals :
        (ds : List Item)
        → add_totals ds (record {
          total_allocated = 0;
          total_allocated_sz = 0;
          total_free = 0;
          total_free_sz = 0;
        })
          ≡ record {
            total_allocated = count true ds;
            total_allocated_sz = sum true ds;
            total_free = count false ds;
            total_free_sz = sum false ds;
          }
    no_totals ds =
        Totals-path
          (add_totals ds (record {
            total_allocated = 0;
            total_allocated_sz = 0;
            total_free = 0;
            total_free_sz = 0;
          }))
          (record {
            total_allocated = count true ds;
            total_allocated_sz = sum true ds;
            total_free = count false ds;
            total_free_sz = sum false ds;
          })
          (omega arith) (omega arith) (omega arith) (omega arith)
