-- ===== src/Malloclab/Mm/Coalesce.antt =====
-- malloclab/mm.c, the end of `insert_free_list`: the two pairs of calls of `merge_regions`.
use cso_fall.Common.{
  ℕ, ◌+◌, ◌^◌, ◌≤◌, ◌<◌, ◌≡◌, ◌≢◌, refl, sym, ap, subst, ◌∙◌, Bool, false, Option, none, some, List,
  [], ◌∷◌, if◌then◌else◌, arith, All, Bool-cases, inl, inr,
}
use cso_fall.Malloclab.Headers.{Memory}
use cso_fall.Malloclab.Mm.{merge_regions, merge_both}
use cso_fall.Malloclab.Mm.Chunks.{
  Chunk, rev_append, starts, covers, total, IsChunk, Up, Down, Up-rev_append, starts-rev_append,
  covers-rev_append, total-rev_append, All-rev_append,
}
use cso_fall.Malloclab.Mm.Links.{Fwd, At, At-Fwd, At-back, SameBut, head_of}
use cso_fall.Malloclab.Mm.Relink.{Apart}
use cso_fall.Malloclab.Mm.Merging.{
  Merge, Near, merge_regions-Merge, merge_regions_gap, merge_regions-Up,
}

-- As `Down`, where the nearest chunk may touch `high`.
abbrev pub Low : ℕ → List Chunk → Type 0
Low high [] = 0 < high
Low high ((a, s) ∷ cs) = (a + s ≤ high) × Down a cs

-- A list whose chunks cover what those of `cs` cover, in order and with gaps between them.
pub record Settled (lo hi : ℕ) (mem mem' : Memory) (p : Option ℕ) (cs : List Chunk) : Type 0 where
  pub list : List Chunk
  pub linked : Fwd mem' false none p list
  pub up : Up 0 list
  pub same : SameBut cs mem mem'
  pub covered : (x : ℕ) → covers x list ≡ covers x cs
  pub sizes : total list ≡ total cs
  pub chunks : All (IsChunk lo hi) list
  pub fewer : (x : ℕ) → starts x list ≤ starts x cs

abbrev right_pair : Memory → ℕ → Memory
right_pair mem a =
    let (mem1, merged) = merge_regions mem (some a) (mem a).next in
    if merged then (merge_regions mem1 (some a) (mem1 a).next).0 else mem1

abbrev left_pair : Memory → ℕ → Memory
left_pair mem a =
    let (mem1, merged) = merge_regions mem (mem a).prev (some a) in
    if merged then (merge_regions mem1 (mem1 a).prev (some a)).0 else mem1

merge_both-pairs : (mem : Memory) (a : ℕ) → merge_both mem a ≡ left_pair (right_pair mem a) a
unfolding merge_both
merge_both-pairs mem a = refl

-- The second call with the header behind finds nothing to do.
right_pair_once :
    (lo hi : ℕ) (mem : Memory) (l : Option ℕ) (c : Chunk) (ls rs : List Chunk)
    → (let (mem', merged) = merge_regions mem (some c.0) (mem c.0).next in
        Merge lo hi mem mem' merged l c ls rs)
    → right_pair mem c.0 ≡ (merge_regions mem (some c.0) (mem c.0).next).0
right_pair_once lo hi mem l c ls rs m =
    let (mem', merged) = merge_regions mem (some c.0) (mem c.0).next in
    let again = ap (λ p. p.0) (merge_regions-Up mem' l (c.0, m.size) ls m.rest m.at m.up) in
    elim (Bool-cases merged) [
      | inl e ↦
          ap (λ b. if b then (merge_regions mem' (some c.0) (mem' c.0).next).0 else mem') e ∙ again
      | inr e ↦ ap (λ b. if b then (merge_regions mem' (some c.0) (mem' c.0).next).0 else mem') e
    ]

-- Nor does the one with the header before.
left_pair_once :
    (lo hi : ℕ) (mem : Memory) (l : Option ℕ) (a : ℕ) (d : Chunk) (ls rs : List Chunk)
    → (mem a).prev ≡ some d.0
    → (mem d.0).next ≡ some a
    → (let (mem', merged) = merge_regions mem (some d.0) (mem d.0).next in
        Merge lo hi mem mem' merged l d ls rs)
    → left_pair mem a ≡ (merge_regions mem (some d.0) (mem d.0).next).0
left_pair_once lo hi mem l a d ls rs before behind m =
    let (mem', merged) = merge_regions mem (some d.0) (mem d.0).next in
    let back = ap (λ h. h.prev) (m.stale a behind) ∙ before in
    let choice = λ (b : Bool). if b then (merge_regions mem' (mem' a).prev (some a)).0 else mem' in
    let start : left_pair mem a ≡ choice merged = rw (before, behind) refl in
    elim (Bool-cases merged) [
      | inl e ↦
          (let past = m.past a behind e in
            let size = m.at.1.1.size in
            let ne : d.0 + (mem' d.0).size ≢ a = λ q. omega (arith, past, size, q) in
            start
            ∙ ap choice e
            ∙ ap (λ p. (merge_regions mem' p (some a)).0) back
            ∙ ap (λ p. p.0) (merge_regions_gap mem' d.0 a ne))
      | inr e ↦ start ∙ ap choice e
    ]

left_pair-none : (mem : Memory) (a : ℕ) → (mem a).prev ≡ none → left_pair mem a ≡ mem
unfolding merge_regions
left_pair-none mem a e = rw (e) refl

-- A merge at a position whose chunks before it are behind a gap.
settle :
    (lo hi : ℕ) (mem0 mem mem' : Memory) (merged : Bool) (l : Option ℕ) (c : Chunk)
    (ls rs : List Chunk) (cs : List Chunk)
    → Down c.0 ls
    → All (IsChunk lo hi) ls
    → Merge lo hi mem mem' merged l c ls rs
    → SameBut cs mem0 mem'
    → ((x : ℕ) → covers x cs ≡ covers x ls + covers x (c ∷ rs))
    → total cs ≡ total ls + total (c ∷ rs)
    → ((x : ℕ) → starts x ls + starts x (c ∷ rs) ≤ starts x cs)
    → Settled lo hi mem0 mem' (head_of ls (some c.0)) cs
settle lo hi mem0 mem mem' merged l c ls rs cs down chunks m same covered sizes fewer =
    let grown : Chunk = (c.0, m.size) in
    record {
      list = rev_append ls (grown ∷ m.rest);
      linked = At-Fwd mem' false l (some c.0) ls (grown ∷ m.rest) m.at;
      up = Up-rev_append ls grown m.rest down m.up;
      same = same;
      covered = λ x. omega (arith, covers-rev_append x ls (grown ∷ m.rest), m.covered x, covered x);
      sizes = omega (arith, total-rev_append ls (grown ∷ m.rest), m.sizes, sizes);
      chunks = All-rev_append (IsChunk lo hi) ls (grown ∷ m.rest) chunks m.chunks;
      fewer = λ x. omega (arith, starts-rev_append x ls (grown ∷ m.rest), m.fewer x, fewer x);
    }

-- The two pairs of calls, where the chunk `c` has been put in its place.
pub merge_both-Settled :
    (lo hi : ℕ) (mem : Memory) (l : Option ℕ) (c : Chunk) (ls rs : List Chunk)
    → Apart ls (c ∷ rs)
    → At mem false l (some c.0) ls (c ∷ rs)
    → Low c.0 ls
    → Near (c.0 + c.1) rs
    → All (IsChunk lo hi) ls
    → All (IsChunk lo hi) (c ∷ rs)
    → hi < 2 ^ 64
    → Settled lo hi mem (merge_both mem c.0) (head_of ls (some c.0)) (rev_append ls (c ∷ rs))
unfolding starts covers total
merge_both-Settled lo hi mem l c [] rs apart at low near before chunks bound =
    let m = merge_regions-Merge lo hi mem l c [] rs apart at near chunks bound in
    let (mem1, merged) = merge_regions mem (some c.0) (mem c.0).next in
    let once = right_pair_once lo hi mem l c [] rs m in
    let none_before : left_pair mem1 c.0 ≡ mem1 = left_pair-none mem1 c.0 (m.at.1.2 ∙ m.at.0) in
    let e = merge_both-pairs mem c.0 ∙ ap (λ q. left_pair q c.0) once ∙ none_before in
    subst (λ q. Settled lo hi mem q (some c.0) (c ∷ rs)) (sym e)
      (settle lo hi mem mem mem1 merged l c [] rs (c ∷ rs) low tt m (λ x o. m.same x refl o)
        (λ x. omega arith) (omega arith) (λ x. omega arith))
merge_both-Settled lo hi mem l c (d ∷ ls) rs apart at low near before chunks bound =
    let m = merge_regions-Merge lo hi mem l c (d ∷ ls) rs apart at near chunks bound in
    let (mem1, merged) = merge_regions mem (some c.0) (mem c.0).next in
    let once = right_pair_once lo hi mem l c (d ∷ ls) rs m in
    let back = m.at.1.2 ∙ m.at.0.0 in
    let at1 = At-back mem1 false l (some c.0) d ls ((c.0, m.size) ∷ m.rest) m.at in
    let apart1 : Apart ls (d ∷ (c.0, m.size) ∷ m.rest) = λ x. omega (arith, apart x, m.fewer x) in
    let m' =
      merge_regions-Merge lo hi mem1 (mem1 d.0).prev d ls ((c.0, m.size) ∷ m.rest) apart1 at1
        (low.0, m.up) (before.0, m.chunks) bound in
    let (mem2, merged') = merge_regions mem1 (some d.0) (mem1 d.0).next in
    let once' =
      left_pair_once lo hi mem1 (mem1 d.0).prev c.0 d ls ((c.0, m.size) ∷ m.rest) back m.at.0.2
        m' in
    let e = merge_both-pairs mem c.0 ∙ ap (λ q. left_pair q c.0) once ∙ once' in
    let parts = λ (x : ℕ). starts-rev_append x ls (d ∷ c ∷ rs) in
    subst (λ q. Settled lo hi mem q (head_of ls (some d.0)) (rev_append ls (d ∷ c ∷ rs))) (sym e)
      (settle lo hi mem mem1 mem2 merged' (mem1 d.0).prev d ls ((c.0, m.size) ∷ m.rest)
        (rev_append ls (d ∷ c ∷ rs)) low.1 before.1 m'
        (λ x o.
          m'.same x (omega (arith, parts x, o)) (omega (arith, parts x, o, m.fewer x))
          ∙ m.same x (omega (arith, parts x, o)) (omega (arith, parts x, o)))
        (λ x. omega (arith, covers-rev_append x ls (d ∷ c ∷ rs), m.covered x))
        (omega (arith, total-rev_append ls (d ∷ c ∷ rs), m.sizes))
        (λ x. omega (arith, parts x, m.fewer x)))
