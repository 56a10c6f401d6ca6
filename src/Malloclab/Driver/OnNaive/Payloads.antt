-- ===== src/Malloclab/Driver/OnNaive/Payloads.antt =====
-- malloclab/mm-naive.c: the payloads of the used chunks of the heap.
use mathlib.Core.Option.{none-ne-some, some-injective}
use cso_fall.Common.{
  ℕ, ◌+◌, ◌-◌, ◌%◌, ◌≤◌, ◌<◌, ◌≡◌, ◌≢◌, ◌⊎◌, inl, inr, refl, sym, ap, ◌∙◌, true, false, ◌&&◌, none,
  some, List, [], ◌∷◌, ◌++◌, ◌==◌, if◌then◌else◌, arith, Bool-cases, ==_iff,
}
use cso_fall.Malloclab.Naive.{header_to_payload}
use cso_fall.Malloclab.Naive.Chain.{Item, Chain, span, Chain-span}
use cso_fall.Malloclab.Allocator.{Live, with_payload}

-- The payloads of the used chunks from `h` on.
abbrev pub used_of : ℕ → List Item → Live
used_of h [] p = none
used_of h ((s, b) ∷ cs) p =
    if b && (header_to_payload h == p) then some (s - 16) else used_of (h + s) cs p

-- A payload is that of a used chunk at some position.
pub used_of-position :
    (h : ℕ) (cs : List Item) (p n : ℕ)
    → used_of h cs p ≡ some n
    → (before behind : List Item) × (s : ℕ) × ((cs ≡ before ++ ((s, true) ∷ behind))
        × (p ≡ header_to_payload (h + span before))
        × (n ≡ s - 16))
unfolding span
used_of-position h [] p n e = absurd (none-ne-some n e)
used_of-position h ((s, b) ∷ cs) p n e = elim (Bool-cases (b && (header_to_payload h == p))) [
  | inl same ↦
      (let used : b ≡ true = ground (arith, same) in
        let at : p ≡ header_to_payload (h + 0) = ground (arith, same) in
        (
          [],
          cs,
          s,
          (ap (λ q. (s, q) ∷ cs) used, at, sym (some-injective (s - 16) n (rw (same) at e))),
        ))
  | inr other ↦
      (let (before, behind, t, (whole, at, sized)) =
          used_of-position (h + s) cs p n (rw (other) at e) in
        ((s, b) ∷ before, behind, t, (ap (λ q. (s, b) ∷ q) whole, omega (arith, at), sized)))
]

-- No payload starts behind the heap, nor before a chunk.
pub used_of-outside :
    (mem : ℕ → ℕ) (h hi : ℕ) (cs : List Item) (a : ℕ)
    → Chain mem h hi cs
    → (a < h) ⊎ (hi ≤ a)
    → used_of h cs (header_to_payload a) ≡ none
used_of-outside mem h hi [] a c out = refl
used_of-outside mem h hi ((s, b) ∷ cs) a c out =
    let min = c.1 in
    let end = Chain-span mem (h + s) hi cs c.3 in
    let other : (header_to_payload h == header_to_payload a) ≡ false =
      ground (arith, out, min, end) in
    let rest = used_of-outside mem (h + s) hi cs a c.3 (ground (arith, out)) in
    let skip : (b && (header_to_payload h == header_to_payload a)) ≡ false =
      ground (arith, other) in
    rw (skip) rest

-- One more used chunk at the end.
pub used_of-append :
    (mem : ℕ → ℕ) (h hi k p : ℕ) (cs : List Item)
    → Chain mem h hi cs
    → with_payload (used_of h cs) (header_to_payload hi) (some (k - 16)) p
      ≡ used_of h (cs ++ ((k, true) ∷ [])) p
used_of-append mem h hi k p [] c =
    ap (λ a. if header_to_payload a == p then some (k - 16) else none) (sym c)
used_of-append mem h hi k p ((s, b) ∷ cs) c =
    let min = c.1 in
    let end = Chain-span mem (h + s) hi cs c.3 in
    let rest = used_of-append mem (h + s) hi k p cs c.3 in
    elim (Bool-cases (b && (header_to_payload h == p))) [
      | inl same ↦
          (let other : (header_to_payload hi == p) ≡ false = ground (arith, same, min, end) in
            rw (same, other) refl)
      | inr other ↦ rw (other) rest
    ]

-- A used chunk that is marked free.
pub used_of-free :
    (mem : ℕ → ℕ) (h hi s p : ℕ) (before behind : List Item)
    → Chain mem h hi (before ++ ((s, true) ∷ behind))
    → with_payload
        (used_of h (before ++ ((s, true) ∷ behind)))
        (header_to_payload (h + span before))
        none
        p
      ≡ used_of h (before ++ ((s, false) ∷ behind)) p
unfolding span
used_of-free mem h hi s p [] behind c =
    let min = c.1 in
    let at : h + 0 ≡ h = omega arith in
    elim (Bool-cases (header_to_payload h == p)) [
      | inl same ↦
          (let e = (==_iff (header_to_payload h) p).0 same in
            rw (at, same)
              (sym (used_of-outside mem (h + s) hi behind h c.3 (inl (omega (arith, min))))
                ∙ ap (used_of (h + s) behind) e))
      | inr other ↦ rw (at, other) refl
    ]
used_of-free mem h hi s p ((t, b) ∷ before) behind c =
    let min = c.1 in
    let rest = used_of-free mem (h + t) hi s p before behind c.3 in
    let at : h + (t + span before) ≡ h + t + span before = omega arith in
    elim (Bool-cases (b && (header_to_payload h == p))) [
      | inl same ↦
          (let other : (header_to_payload (h + t + span before) == p) ≡ false =
              ground (arith, same, min) in
            rw (at, same, other) refl)
      | inr other ↦ rw (at, other) rest
    ]

-- A payload is aligned and lies in the heap, behind a header.
pub used_of-inside :
    (mem : ℕ → ℕ) (h hi p n : ℕ) (cs : List Item)
    → Chain mem h hi cs
    → h % 16 ≡ 0
    → used_of h cs p ≡ some n
    → (p % 16 ≡ 0) × (h + 16 ≤ p) × (p + n ≤ hi)
used_of-inside mem h hi p n [] c round e = absurd (none-ne-some n e)
used_of-inside mem h hi p n ((s, b) ∷ cs) c round e =
    let min = c.1 in
    let round_s = c.2 in
    let end = Chain-span mem (h + s) hi cs c.3 in
    elim (Bool-cases (b && (header_to_payload h == p))) [
      | inl same ↦
          (let sized = some-injective (s - 16) n (rw (same) at e) in
            let at : p ≡ h + 16 = ground (arith, same) in
            (omega (arith, at, round), omega (arith, at), omega (arith, at, sized, min, end)))
      | inr other ↦
          (let (aligned, low, high) =
              used_of-inside mem (h + s) hi p n cs c.3 (omega (arith, round, round_s))
                (rw (other) at e) in
            (aligned, omega (arith, low), high))
    ]

pub used_of-disjoint :
    (mem : ℕ → ℕ) (h hi p q n k : ℕ) (cs : List Item)
    → Chain mem h hi cs
    → h % 16 ≡ 0
    → used_of h cs p ≡ some n
    → used_of h cs q ≡ some k
    → p ≢ q
    → (p + n ≤ q) ⊎ (q + k ≤ p)
used_of-disjoint mem h hi p q n k [] c round e e' other = absurd (none-ne-some n e)
used_of-disjoint mem h hi p q n k ((s, b) ∷ cs) c round e e' other =
    let min = c.1 in
    let round_s = c.2 in
    let round' : (h + s) % 16 ≡ 0 = omega (arith, round, round_s) in
    elim (Bool-cases (b && (header_to_payload h == p))) [
      | inl first ↦
          (let skip : (b && (header_to_payload h == q)) ≡ false = ground (arith, first, other) in
            let sized = some-injective (s - 16) n (rw (first) at e) in
            let at : p ≡ h + 16 = ground (arith, first) in
            let (aligned, low, high) =
              used_of-inside mem (h + s) hi q k cs c.3 round' (rw (skip) at e') in
            inl (omega (arith, at, sized, low, min)))
      | inr not_first ↦ elim (Bool-cases (b && (header_to_payload h == q))) [
        | inl first ↦
            (let sized = some-injective (s - 16) k (rw (first) at e') in
              let at : q ≡ h + 16 = ground (arith, first) in
              let (aligned, low, high) =
                used_of-inside mem (h + s) hi p n cs c.3 round' (rw (not_first) at e) in
              inr (omega (arith, at, sized, low, min)))
        | inr neither ↦
            used_of-disjoint mem (h + s) hi p q n k cs c.3 round' (rw (not_first) at e)
              (rw (neither) at e') other
      ]
    ]
