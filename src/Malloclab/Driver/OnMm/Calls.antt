-- ===== src/Malloclab/Driver/OnMm/Calls.antt =====
-- malloclab/mm.c: what its calls do to the payloads of a client.
use cso_fall.Common.{
  ℕ, ◌+◌, ◌-◌, ◌^◌, ◌≤◌, ◌<◌, ◌≡◌, ◌⊎◌, inl, inr, sym, ap, subst, ◌∙◌, none, some, List, [], ◌∷◌,
  arith,
}
use cso_fall.Malloclab.Memlib.{align}
use cso_fall.Malloclab.Headers.{header_to_payload}
use cso_fall.Malloclab.Mm.{Mm, mm_malloc, mm_free, mm_realloc}
use cso_fall.Malloclab.Mm.Chunks.{Chunk, rev_append, starts}
use cso_fall.Malloclab.Mm.Valid.{Valid, Tiled-starts}
use cso_fall.Malloclab.Mm.Free.{mm_free-Valid}
use cso_fall.Malloclab.Mm.Requests.{Source, mm_malloc-Valid}
use cso_fall.Malloclab.Mm.Realloc.{mm_realloc-Valid}
use cso_fall.Malloclab.Allocator.{Live, with_payload, Grown, Request}
use cso_fall.Malloclab.Driver.OnMm.Payloads.{
  live_of, live_of-position, live_of-none, live_of-take, live_of-without,
}

-- The live payloads are those of the allocated chunks of a valid state.
abbrev pub Carved : Mm → Live → Type 0
Carved m live = (free held : List Chunk) × (Valid m free held × ((p : ℕ) → live p ≡ live_of held p))

mm_align : (size : ℕ) → size + 63 < 2 ^ 31 → align size ≤ size + 15
unfolding align
mm_align size small = omega (arith, small)

Source-Grown :
    (m m' : Mm) (free : List Chunk) (size : ℕ)
    → size + 63 < 2 ^ 31
    → Source m (align size + 32) free m'
    → Grown m.heap m'.heap size
Source-Grown m m' free size small (inl e) = (
  ap (λ h. h.mem_start_brk) e,
  ap (λ h. h.mem_max_addr) e,
  omega (arith, ap (λ h. h.mem_brk) e),
  omega (arith, ap (λ h. h.mem_brk) e),
)
Source-Grown m m' free size small (inr (e, all)) = (
  ap (λ h. h.mem_start_brk) e,
  ap (λ h. h.mem_max_addr) e,
  omega (arith, ap (λ h. h.mem_brk) e),
  omega (arith, ap (λ h. h.mem_brk) e, mm_align size small),
)

pub mm_malloc-Carved :
    (m : Mm) (live : Live) (size : ℕ)
    → Carved m live
    → Request m.heap size
    → (p n : ℕ) × (m' : Mm) × ((mm_malloc size m ≡ some (some p, m'))
        × (live p ≡ none)
        × Carved m' (with_payload live p (some n))
        × (size ≤ n)
        × Grown m.heap m'.heap size
        × (m'.bytes ≡ m.bytes))
unfolding starts
mm_malloc-Carved m live size (free, held, (v, same)) (positive, small, room) =
    let (m', c, (served, serves, fits, source)) =
      mm_malloc-Valid m size free held v positive (omega (arith, small))
        (omega (arith, room, mm_align size small)) in
    let once = Tiled-starts m' serves.free (c ∷ held) [] serves.valid c.0 in
    let fresh : starts c.0 held ≡ 0 = ground (arith, once) in
    (
      header_to_payload c.0,
      c.1 - 32,
      m',
      (
        served,
        same (header_to_payload c.0) ∙ live_of-none held c.0 fresh,
        (serves.free, c ∷ held, (serves.valid, live_of-take live held c same)),
        omega (arith, fits),
        Source-Grown m m' free size small source,
        serves.bytes,
      ),
    )

pub mm_free-Carved :
    (m : Mm) (live : Live) (p n : ℕ)
    → Carved m live
    → live p ≡ some n
    → (m' : Mm) × ((mm_free p m ≡ some m')
        × Carved m' (with_payload live p none)
        × (m'.heap ≡ m.heap)
        × (m'.bytes ≡ m.bytes))
mm_free-Carved m live p n (free, held, (v, same)) alive =
    let (ls, c, rs, (whole, at, sized)) = live_of-position held p n (sym (same p) ∙ alive) in
    let v' = subst (Valid m free) whole v in
    let same' : (q : ℕ) → live q ≡ live_of (rev_append ls (c ∷ rs)) q =
      λ q. same q ∙ ap (λ h. live_of h q) whole in
    let (m', free', (freed, valid, covered, heap, bytes)) = mm_free-Valid m c ls rs free v' in
    subst
      (λ a.
        (m' : Mm) × ((mm_free a m ≡ some m')
          × Carved m' (with_payload live a none)
          × (m'.heap ≡ m.heap)
          × (m'.bytes ≡ m.bytes)))
      (sym at)
      (
        m',
        (
          freed,
          (free', rev_append ls rs, (valid, live_of-without m live ls c rs free v' same')),
          heap,
          bytes,
        ),
      )

pub mm_realloc-Carved :
    (m : Mm) (live : Live) (p n size : ℕ)
    → Carved m live
    → live p ≡ some n
    → Request m.heap size
    → (q k : ℕ) × (m' : Mm) × ((mm_realloc (some p) size m ≡ some (some q, m'))
        × (live q ≡ none)
        × Carved m' (with_payload (with_payload live p none) q (some k))
        × (size ≤ k)
        × Grown m.heap m'.heap size
        × ((i : ℕ) → i < size → i < n → m'.bytes (q + i) ≡ m.bytes (p + i))
        × ((x : ℕ) → (x < q) ⊎ (q + k ≤ x) → m'.bytes x ≡ m.bytes x))
mm_realloc-Carved m live p n size (free, held, (v, same)) alive (positive, small, room) =
    let (ls, c, rs, (whole, at, sized)) = live_of-position held p n (sym (same p) ∙ alive) in
    let v' = subst (Valid m free) whole v in
    let same' : (q : ℕ) → live q ≡ live_of (rev_append ls (c ∷ rs)) q =
      λ q. same q ∙ ap (λ h. live_of h q) whole in
    let (m', d, free', (served, valid, fits, copied, kept, source, fresh)) =
      mm_realloc-Valid m size c ls rs free v' positive (omega (arith, small))
        (omega (arith, room, mm_align size small)) in
    let q = header_to_payload d.0 in
    let goal = λ (a : ℕ).
      (m' : Mm) × ((mm_realloc (some a) size m ≡ some (some q, m'))
        × (live q ≡ none)
        × Carved m' (with_payload (with_payload live a none) q (some (d.1 - 32)))
        × (size ≤ d.1 - 32)
        × Grown m.heap m'.heap size
        × ((i : ℕ) → i < size → i < n → m'.bytes (q + i) ≡ m.bytes (a + i))
        × ((x : ℕ) → (x < q) ⊎ (q + (d.1 - 32) ≤ x) → m'.bytes x ≡ m.bytes x)) in
    let result : goal p = subst goal (sym at) (
      m',
      (
        served,
        same' q ∙ live_of-none (rev_append ls (c ∷ rs)) d.0 fresh,
        (
          free',
          d ∷ rev_append ls rs,
          (
            valid,
            live_of-take (with_payload live (header_to_payload c.0) none) (rev_append ls rs) d
                (live_of-without m live ls c rs free v' same'),
          ),
        ),
        omega (arith, fits),
        Source-Grown m m' free size small source,
        (λ i lt lt'. copied i lt (omega (arith, lt', sized))),
        (λ x out. kept x (behind d x size fits out)),
      ),
    ) in
    (q, d.1 - 32, result.0, result.1)
  where
    behind :
        (d : Chunk) (x size : ℕ)
        → size + 32 ≤ d.1
        → (x < header_to_payload d.0) ⊎ (header_to_payload d.0 + (d.1 - 32) ≤ x)
        → (x < header_to_payload d.0) ⊎ (d.0 + d.1 ≤ x)
    behind d x size fits (inl h) = inl h
    behind d x size fits (inr h) = inr (omega (arith, h, fits))
