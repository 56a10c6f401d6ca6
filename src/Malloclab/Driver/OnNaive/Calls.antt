-- ===== src/Malloclab/Driver/OnNaive/Calls.antt =====
-- malloclab/mm-naive.c: what its calls do to the payloads of a client.
use cso_fall.Common.{
  ℕ, ◌+◌, ◌-◌, ◌^◌, ◌≤◌, ◌<◌, ◌≡◌, ◌⊎◌, inl, inr, sym, ap, subst, ◌∙◌, true, false, none, some,
  List, [], ◌∷◌, ◌++◌, ◌==◌, if◌then◌else◌, arith,
}
use cso_fall.Malloclab.Memlib.{align}
use cso_fall.Malloclab.Naive.{Naive, set_word, header_to_payload, mm_malloc, mm_free, mm_realloc}
use cso_fall.Malloclab.Naive.Chain.{Item, span, Chain-within}
use cso_fall.Malloclab.Naive.Laws.{Laid, Grows, mm_malloc-Laid, mm_free-Laid}
use cso_fall.Malloclab.Naive.Realloc.{append_assoc, mm_realloc-Laid}
use cso_fall.Malloclab.Allocator.{Live, with_payload, Grown, Request}
use cso_fall.Malloclab.Driver.OnNaive.Payloads.{
  used_of, used_of-position, used_of-outside, used_of-append, used_of-free,
}

-- The live payloads are those of the used chunks of the heap.
abbrev pub InUse : Naive → Live → Type 0
InUse m live =
    (cs : List Item) × (Laid m cs × ((p : ℕ) → live p ≡ used_of m.heap.mem_start_brk cs p))

naive_align : (size : ℕ) → size + 63 < 2 ^ 31 → align size ≤ size + 15
unfolding align
naive_align size small = omega (arith, small)

Grows-Grown : (m m' : Naive) (size k : ℕ) → Grows m size k m' → Grown m.heap m'.heap size
Grows-Grown m m' size k (e, most) = (
  ap (λ h. h.mem_start_brk) e,
  ap (λ h. h.mem_max_addr) e,
  omega (arith, ap (λ h. h.mem_brk) e),
  omega (arith, ap (λ h. h.mem_brk) e, most),
)

pub mm_malloc-InUse :
    (m : Naive) (live : Live) (size : ℕ)
    → InUse m live
    → Request m.heap size
    → (p n : ℕ) × (m' : Naive) × ((mm_malloc size m ≡ some (some p, m'))
        × (live p ≡ none)
        × InUse m' (with_payload live p (some n))
        × (size ≤ n)
        × Grown m.heap m'.heap size
        × (m'.bytes ≡ m.bytes))
mm_malloc-InUse m live size (cs, (laid, same)) (positive, small, room) =
    elim (mm_malloc-Laid m size cs laid (omega (arith, small))) [
      | inl (m', k, (served, laid', fits, aligned, bytes, grows)) ↦
          (let brk = m.heap.mem_brk in
            let start = m.heap.mem_start_brk in
            let p = header_to_payload brk in
            let from = ap (λ h. h.mem_start_brk) grows.0 in
            let same' : (x : ℕ)
                → with_payload live p (some (k - 16)) x
                  ≡ used_of m'.heap.mem_start_brk (cs ++ ((k, true) ∷ [])) x =
              λ x.
                ap (λ r. if p == x then some (k - 16) else r) (same x)
                ∙ used_of-append m.size_n_status start brk k x cs laid.chain
                ∙ ap (λ a. used_of a (cs ++ ((k, true) ∷ [])) x) (sym from) in
            (
              p,
              k - 16,
              m',
              (
                served,
                same p
                    ∙ used_of-outside m.size_n_status start brk cs brk laid.chain
                        (inr (omega arith)),
                (cs ++ ((k, true) ∷ []), (laid', same')),
                omega (arith, fits),
                Grows-Grown m m' size k grows,
                bytes,
              ),
            ))
      | inr (full, e) ↦ absurd (omega (arith, full, room, naive_align size small))
    ]

-- A live payload is that of a used chunk.
InUse-position :
    (m : Naive) (live : Live) (p n : ℕ)
    → InUse m live
    → live p ≡ some n
    → (before behind : List Item) × (s : ℕ) × (Laid m (before ++ ((s, true) ∷ behind))
        × (p ≡ header_to_payload (m.heap.mem_start_brk + span before))
        × (n ≡ s - 16)
        × ((x : ℕ) → live x ≡ used_of m.heap.mem_start_brk (before ++ ((s, true) ∷ behind)) x))
InUse-position m live p n (cs, (laid, same)) alive =
    let (before, behind, s, (whole, at, sized)) =
      used_of-position m.heap.mem_start_brk cs p n (sym (same p) ∙ alive) in
    (
      before,
      behind,
      s,
      (
        subst (Laid m) whole laid,
        at,
        sized,
        λ x. same x ∙ ap (λ q. used_of m.heap.mem_start_brk q x) whole,
      ),
    )

-- The other payloads, where one chunk is marked free.
live-free :
    (m : Naive) (live : Live) (s : ℕ) (before behind : List Item)
    → Laid m (before ++ ((s, true) ∷ behind))
    → ((x : ℕ) → live x ≡ used_of m.heap.mem_start_brk (before ++ ((s, true) ∷ behind)) x)
    → (x : ℕ)
    → with_payload live (header_to_payload (m.heap.mem_start_brk + span before)) none x
      ≡ used_of m.heap.mem_start_brk (before ++ ((s, false) ∷ behind)) x
live-free m live s before behind laid same x =
    let start = m.heap.mem_start_brk in
    ap (λ r. if header_to_payload (start + span before) == x then none else r) (same x)
    ∙ used_of-free m.size_n_status start m.heap.mem_brk s x before behind laid.chain

pub mm_free-InUse :
    (m : Naive) (live : Live) (p n : ℕ)
    → InUse m live
    → live p ≡ some n
    → 0 < n
    → (m' : Naive) × ((mm_free p m ≡ some m')
        × InUse m' (with_payload live p none)
        × (m'.heap ≡ m.heap)
        × (m'.bytes ≡ m.bytes))
mm_free-InUse m live p n h alive positive =
    let (before, behind, s, (laid, at, sized, same)) = InUse-position m live p n h alive in
    let (m', (freed, laid', bytes, heap)) =
      mm_free-Laid m s true before behind laid (omega (arith, sized, positive)) in
    let items = before ++ ((s, false) ∷ behind) in
    let same' = λ (x : ℕ).
      live-free m live s before behind laid same x
      ∙ ap (λ q. used_of q.mem_start_brk items x) (sym heap) in
    let goal = λ (a : ℕ).
      (m' : Naive) × ((mm_free a m ≡ some m')
        × InUse m' (with_payload live a none)
        × (m'.heap ≡ m.heap)
        × (m'.bytes ≡ m.bytes)) in
    let result : goal p = subst goal (sym at) (m', (freed, (items, (laid', same')), heap, bytes)) in
    result

-- The payloads, where one chunk is marked free and one more stands at the end.
live-moved :
    (m : Naive) (live : Live) (s k : ℕ) (before behind : List Item)
    → Laid m (before ++ ((s, true) ∷ behind))
    → ((x : ℕ) → live x ≡ used_of m.heap.mem_start_brk (before ++ ((s, true) ∷ behind)) x)
    → (x : ℕ)
    → with_payload
        (with_payload live (header_to_payload (m.heap.mem_start_brk + span before)) none)
        (header_to_payload m.heap.mem_brk)
        (some (k - 16))
        x
      ≡ used_of m.heap.mem_start_brk (before ++ ((s, false) ∷ (behind ++ ((k, true) ∷ [])))) x
live-moved m live s k before behind laid same x =
    let start = m.heap.mem_start_brk in
    let brk = m.heap.mem_brk in
    let chain = Chain-within m.size_n_status start brk s true false before behind laid.chain in
    ap (λ r. if header_to_payload brk == x then some (k - 16) else r)
      (live-free m live s before behind laid same x)
    ∙ used_of-append (set_word m.size_n_status (start + span before) (s + 0)) start brk k x
        (before ++ ((s, false) ∷ behind)) chain
    ∙ ap (λ q. used_of start q x) (append_assoc before (s, false) (k, true) behind)

pub mm_realloc-InUse :
    (m : Naive) (live : Live) (p n size : ℕ)
    → InUse m live
    → live p ≡ some n
    → 0 < n
    → Request m.heap size
    → (q k : ℕ) × (m' : Naive) × ((mm_realloc (some p) size m ≡ some (some q, m'))
        × (live q ≡ none)
        × InUse m' (with_payload (with_payload live p none) q (some k))
        × (size ≤ k)
        × Grown m.heap m'.heap size
        × ((i : ℕ) → i < size → i < n → m'.bytes (q + i) ≡ m.bytes (p + i))
        × ((x : ℕ) → (x < q) ⊎ (q + k ≤ x) → m'.bytes x ≡ m.bytes x))
mm_realloc-InUse m live p n size h alive positive (asked, small, room) =
    let (before, behind, s, (laid, at, sized, same)) = InUse-position m live p n h alive in
    let start = m.heap.mem_start_brk in
    let brk = m.heap.mem_brk in
    let q = header_to_payload brk in
    let items = before ++ ((s, true) ∷ behind) in
    elim (mm_realloc-Laid m size s true before behind laid (omega (arith, sized, positive)) asked
      (omega (arith, small))) [
        | inl (m', k, (served, laid', fits, copied, kept, grows)) ↦
            (let goal = λ (a : ℕ).
                (m' : Naive) × ((mm_realloc (some a) size m ≡ some (some q, m'))
                  × (live q ≡ none)
                  × InUse m' (with_payload (with_payload live a none) q (some (k - 16)))
                  × (size ≤ k - 16)
                  × Grown m.heap m'.heap size
                  × ((i : ℕ) → i < size → i < n → m'.bytes (q + i) ≡ m.bytes (a + i))
                  × ((x : ℕ) → (x < q) ⊎ (q + (k - 16) ≤ x) → m'.bytes x ≡ m.bytes x)) in
              let moved = before ++ ((s, false) ∷ (behind ++ ((k, true) ∷ []))) in
              let same' = λ (x : ℕ).
                live-moved m live s k before behind laid same x
                ∙ ap (λ a. used_of a moved x) (sym (ap (λ h. h.mem_start_brk) grows.0)) in
              let result : goal p = subst goal (sym at) (
                m',
                (
                  served,
                  same q
                      ∙ used_of-outside m.size_n_status start brk items brk laid.chain
                          (inr (omega arith)),
                  (moved, (laid', same')),
                  omega (arith, fits),
                  Grows-Grown m m' size k grows,
                  (λ i lt lt'. copied i lt (omega (arith, lt', sized))),
                  (λ x out. kept x (behind_chunk brk k size x fits out)),
                ),
              ) in
              (q, k - 16, result.0, result.1))
        | inr (full, e) ↦ absurd (omega (arith, full, room, naive_align size small))
      ]
  where
    behind_chunk :
        (brk k size x : ℕ)
        → size + 16 ≤ k
        → (x < header_to_payload brk) ⊎ (header_to_payload brk + (k - 16) ≤ x)
        → (x < header_to_payload brk) ⊎ (brk + k ≤ x)
    behind_chunk brk k size x fits (inl h) = inl h
    behind_chunk brk k size x fits (inr h) = inr (omega (arith, h, fits))
