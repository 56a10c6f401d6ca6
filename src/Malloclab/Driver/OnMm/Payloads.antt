-- ===== src/Malloclab/Driver/OnMm/Payloads.antt =====
-- malloclab/mm.c: the payloads of the chunks that the allocator has handed out.
use mathlib.Core.Option.{none-ne-some, some-injective}
use cso_fall.Common.{
  ℕ, ◌+◌, ◌-◌, ◌≤◌, ◌<◌, ◌≡◌, ◌⊎◌, inl, inr, refl, sym, ap, subst, ◌∙◌, false, none, some, List, [],
  ◌∷◌, ◌==◌, if◌then◌else◌, arith, All, Bool-cases, ==_iff,
}
use cso_fall.Malloclab.Headers.{header_to_payload}
use cso_fall.Malloclab.Mm.{Mm}
use cso_fall.Malloclab.Mm.Chunks.{
  Chunk, rev_append, starts, covers, within, IsChunk, starts-rev_append, covers-rev_append,
  All-rev_append, All-rev_append_parts,
}
use cso_fall.Malloclab.Mm.Valid.{Valid, Tiled-starts, in_heap}
use cso_fall.Malloclab.Allocator.{Live, with_payload}

-- The payloads of allocated chunks.
abbrev pub live_of : List Chunk → Live
live_of [] p = none
live_of ((a, s) ∷ cs) p = if header_to_payload a == p then some (s - 32) else live_of cs p

-- A live payload is that of a chunk at some position.
pub live_of-position :
    (held : List Chunk) (p n : ℕ)
    → live_of held p ≡ some n
    → (ls : List Chunk) × (c : Chunk) × (rs : List Chunk) × ((held ≡ rev_append ls (c ∷ rs))
        × (p ≡ header_to_payload c.0)
        × (n ≡ c.1 - 32))
live_of-position held p n e = go [] held e
  where
    go :
        (before cs : List Chunk)
        → live_of cs p ≡ some n
        → (ls : List Chunk) × (c : Chunk) × (rs : List Chunk) × ((rev_append before cs
              ≡ rev_append ls (c ∷ rs))
            × (p ≡ header_to_payload c.0)
            × (n ≡ c.1 - 32))
    go before [] h = absurd (none-ne-some n h)
    go before (c ∷ cs) h = elim (Bool-cases (header_to_payload c.0 == p)) [
      | inl same ↦ (
        before,
        c,
        cs,
        (
          refl,
          sym ((==_iff (header_to_payload c.0) p).0 same),
          sym (some-injective (c.1 - 32) n (rw (same) at h)),
        ),
      )
      | inr other ↦ go (c ∷ before) cs (rw (other) at h)
    ]

pub live_of-none :
    (cs : List Chunk) (a : ℕ) → starts a cs ≡ 0 → live_of cs (header_to_payload a) ≡ none
unfolding starts
live_of-none [] a out = refl
live_of-none ((b, s) ∷ cs) a out =
    let other : (header_to_payload b == header_to_payload a) ≡ false = ground (arith, out) in
    rw (other) (live_of-none cs a (omega (arith, out)))

live_of-rev_append :
    (ls xs ys : List Chunk) (p : ℕ)
    → live_of xs p ≡ live_of ys p
    → live_of (rev_append ls xs) p ≡ live_of (rev_append ls ys) p
live_of-rev_append [] xs ys p e = e
live_of-rev_append ((b, s) ∷ ls) xs ys p e =
    live_of-rev_append ls ((b, s) ∷ xs) ((b, s) ∷ ys) p
      (ap (λ r. if header_to_payload b == p then some (s - 32) else r) e)

-- The payloads without one of the chunks.
live_of-drop :
    (ls : List Chunk) (c : Chunk) (rs : List Chunk) (p : ℕ)
    → starts c.0 (rev_append ls rs) ≡ 0
    → with_payload (live_of (rev_append ls (c ∷ rs))) (header_to_payload c.0) none p
      ≡ live_of (rev_append ls rs) p
live_of-drop ls c rs p alone = elim (Bool-cases (header_to_payload c.0 == p)) [
  | inl same ↦
      (let at = (==_iff (header_to_payload c.0) p).0 same in
        rw (same)
          (sym (live_of-none (rev_append ls rs) c.0 alone) ∙ ap (live_of (rev_append ls rs)) at))
  | inr other ↦ rw (other) (live_of-rev_append ls (c ∷ rs) rs p (rw (other) refl))
]

-- The chunk of a live payload is found at its header only.
live_of-alone :
    (m : Mm) (ls : List Chunk) (c : Chunk) (rs free : List Chunk)
    → Valid m free (rev_append ls (c ∷ rs))
    → starts c.0 (rev_append ls rs) ≡ 0
unfolding starts
live_of-alone m ls c rs free v =
    let once = Tiled-starts m free (rev_append ls (c ∷ rs)) [] v c.0 in
    let whole = starts-rev_append c.0 ls (c ∷ rs) in
    let rest = starts-rev_append c.0 ls rs in ground (arith, once, whole, rest)

-- Two chunks that are allocated have no address in common.
pub live_of-apart :
    (m : Mm) (ls : List Chunk) (c d : Chunk) (rs xs ys free : List Chunk)
    → Valid m free (rev_append ls (c ∷ rs))
    → rev_append ls rs ≡ rev_append xs (d ∷ ys)
    → 0 < c.1
    → 0 < d.1
    → (c.0 + c.1 ≤ d.0) ⊎ (d.0 + d.1 ≤ c.0)
unfolding covers
live_of-apart m ls c d rs xs ys free v e min min' =
    let once = λ (x : ℕ). split x (v.tiles x) in
    let first = once c.0 in let second = once d.0 in ground (arith, first, second, min, min')
  where
    split :
        (x : ℕ)
        → covers x free + covers x (rev_append ls (c ∷ rs)) + covers x [] ≡ in_heap x m.heap
        → within x c + within x d ≤ 1
    split x t =
        let whole = covers-rev_append x ls (c ∷ rs) in
        let rest = covers-rev_append x ls rs in
        let other = covers-rev_append x xs (d ∷ ys) in
        let same = ap (covers x) e in
        let one : in_heap x m.heap ≤ 1 = ground arith in
        omega (arith, t, whole, rest, other, same, one)

-- A new chunk is a new payload.
pub live_of-take :
    (live : Live) (held : List Chunk) (c : Chunk)
    → ((p : ℕ) → live p ≡ live_of held p)
    → (p : ℕ) → with_payload live (header_to_payload c.0) (some (c.1 - 32)) p ≡ live_of (c ∷ held) p
live_of-take live held (b, s) same p =
    ap (λ r. if header_to_payload b == p then some (s - 32) else r) (same p)

-- Without a payload the live ones are those of the other chunks.
pub live_of-without :
    (m : Mm) (live : Live) (ls : List Chunk) (c : Chunk) (rs free : List Chunk)
    → Valid m free (rev_append ls (c ∷ rs))
    → ((p : ℕ) → live p ≡ live_of (rev_append ls (c ∷ rs)) p)
    → (p : ℕ) → with_payload live (header_to_payload c.0) none p ≡ live_of (rev_append ls rs) p
live_of-without m live ls c rs free v same p =
    ap (λ r. if header_to_payload c.0 == p then none else r) (same p)
    ∙ live_of-drop ls c rs p (live_of-alone m ls c rs free v)

-- The chunk of a live payload is an allocated one.
pub live_of-IsChunk :
    (lo hi : ℕ) (held : List Chunk) (p n : ℕ)
    → All (IsChunk lo hi) held
    → live_of held p ≡ some n
    → (ls : List Chunk) × (c : Chunk) × (rs : List Chunk) × ((held ≡ rev_append ls (c ∷ rs))
        × (p ≡ header_to_payload c.0)
        × (n + 32 ≡ c.1)
        × IsChunk lo hi c
        × All (IsChunk lo hi) (rev_append ls rs))
live_of-IsChunk lo hi held p n all alive =
    let (ls, c, rs, (whole, at, sized)) = live_of-position held p n alive in
    let (before, (chunk, behind)) =
      All-rev_append_parts (IsChunk lo hi) ls (c ∷ rs) (subst (All (IsChunk lo hi)) whole all) in
    (
      ls,
      c,
      rs,
      (
        whole,
        at,
        omega (arith, sized, chunk.header_fits),
        chunk,
        All-rev_append (IsChunk lo hi) ls rs before behind,
      ),
    )
