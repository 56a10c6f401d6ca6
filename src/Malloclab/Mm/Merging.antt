-- ===== src/Malloclab/Mm/Merging.antt =====
-- malloclab/mm.c, `merge_regions`: a free chunk takes in the chunk behind it where the two touch.
use mathlib.Core.Option.{some-injective}
use cso_fall.Common.{
  ℕ, ◌+◌, ◌%◌, ◌^◌, ◌≤◌, ◌<◌, ◌≡◌, ◌≢◌, refl, sym, ap, subst, ◌∙◌, Bool, true, false, Option, some,
  List, [], ◌∷◌, arith, All, ℕ_discrete,
}
use cso_fall.Malloclab.Headers.{Memory, put, set_next, set_prev_of, set_chunk_size_status}
use cso_fall.Malloclab.Mm.{merge_regions}
use cso_fall.Malloclab.Mm.Chunks.{Chunk, starts, covers, total, IsChunk, Up}
use cso_fall.Malloclab.Mm.Links.{
  Fwd, At, Agree, put_self, Agree-put, Fwd-Agree, Bwd-Agree, put_other,
}
use cso_fall.Malloclab.Mm.Relink.{Apart, Fwd-set_prev}

-- As `Up`, where the first chunk may touch the end of what is before it.
abbrev pub Near : ℕ → List Chunk → Type 0
Near low [] = Unit
Near low ((a, s) ∷ cs) = (low ≤ a) × Up (a + s) cs

-- What a call of `merge_regions` with the chunk `c` and the header behind it leaves.
pub record Merge (lo hi : ℕ) (mem mem' : Memory) (merged : Bool) (l : Option ℕ) (c : Chunk)
    (ls rs : List Chunk) : Type 0 where
  pub size : ℕ
  pub rest : List Chunk
  pub at : At mem' false l (some c.0) ls ((c.0, size) ∷ rest)
  pub up : Up (c.0 + size) rest
  pub same : (x : ℕ) → starts x ls ≡ 0 → starts x (c ∷ rs) ≡ 0 → mem' x ≡ mem x
  pub covered : (x : ℕ) → covers x ((c.0, size) ∷ rest) ≡ covers x (c ∷ rs)
  pub sizes : total ((c.0, size) ∷ rest) ≡ total (c ∷ rs)
  pub chunks : All (IsChunk lo hi) ((c.0, size) ∷ rest)
  pub fewer : (x : ℕ) → starts x ((c.0, size) ∷ rest) ≤ starts x (c ∷ rs)
  pub stale : (y : ℕ) → (mem c.0).next ≡ some y → mem' y ≡ mem y
  pub past : (y : ℕ) → (mem c.0).next ≡ some y → merged ≡ true → y < c.0 + size

-- Two headers that do not touch.
pub merge_regions_gap :
    (mem : Memory) (a b : ℕ)
    → a + (mem a).size ≢ b
    → merge_regions mem (some a) (some b) ≡ (mem, false)
unfolding merge_regions
merge_regions_gap mem a b ne = ground arith

-- Nothing is behind the chunk that it touches.
pub merge_regions-Up :
    (mem : Memory) (l : Option ℕ) (c : Chunk) (ls rs : List Chunk)
    → At mem false l (some c.0) ls (c ∷ rs)
    → Up (c.0 + c.1) rs
    → merge_regions mem (some c.0) (mem c.0).next ≡ (mem, false)
unfolding merge_regions
merge_regions-Up mem l c ls [] at up = rw (at.1.3) refl
merge_regions-Up mem l c ls (d ∷ rs) at up =
    let e = at.1.1.size in
    let ne : c.0 + (mem c.0).size ≢ d.0 = λ i. omega (arith, e, i, up.0) in
    rw (at.1.3.0) (merge_regions_gap mem c.0 d.0 ne)

unchanged :
    (lo hi : ℕ) (mem : Memory) (l : Option ℕ) (c : Chunk) (ls rs : List Chunk)
    → At mem false l (some c.0) ls (c ∷ rs)
    → Up (c.0 + c.1) rs
    → All (IsChunk lo hi) (c ∷ rs)
    → Merge lo hi mem mem false l c ls rs
unchanged lo hi mem l c ls rs at up chunks = record {
  size = c.1;
  rest = rs;
  at = at;
  up = up;
  same = λ x o i. refl;
  covered = λ x. refl;
  sizes = refl;
  chunks = chunks;
  fewer = λ x. omega arith;
  stale = λ y e. refl;
  past = λ y e i. cc;
}

-- The memory after the writes for the header at `a` and the one at `b` behind it.
abbrev joined : Memory → (a b : ℕ) → Memory
joined mem a b =
    let mem1 = set_next mem a (mem b).next in
    let mem2 = set_prev_of mem1 (mem1 b).next (some a) in
    set_chunk_size_status mem2 a (((mem2 a).size + (mem2 b).size) % 2 ^ 64) false

merge_regions_touch :
    (mem : Memory) (a b : ℕ)
    → a + (mem a).size ≡ b
    → merge_regions mem (some a) (some b) ≡ (joined mem a b, true)
unfolding merge_regions
merge_regions_touch mem a b e = ground arith

-- The header that takes in the one behind it, and what stands around the two.
joined-At :
    (mem : Memory) (l : Option ℕ) (c d : Chunk) (ls rs : List Chunk)
    → Apart ls (c ∷ d ∷ rs)
    → At mem false l (some c.0) ls (c ∷ d ∷ rs)
    → c.1 + d.1 < 2 ^ 64
    → At (joined mem c.0 d.0) false l (some c.0) ls ((c.0, c.1 + d.1) ∷ rs)
      × ((x : ℕ) → starts x rs ≡ 0 → c.0 ≢ x → joined mem c.0 d.0 x ≡ mem x)
unfolding starts
joined-At mem l c d ls rs apart (b, f) small =
    let n = (mem d.0).next in
    let new = record (mem c.0) { next = n } in
    let mem1 = set_next mem c.0 n in
    let ne : c.0 ≢ d.0 = ground (arith, apart c.0) in
    let out : starts c.0 rs ≡ 0 = ground (arith, apart c.0) in
    let out_d : starts d.0 rs ≡ 0 = ground (arith, apart d.0) in
    let e1 = put_other mem c.0 d.0 new ne in
    let mem2 = set_prev_of mem1 n (some c.0) in
    let own : Apart rs [] = λ x. omega (arith, apart x) in
    let f1 = Fwd-Agree mem mem1 false (some d.0) n rs (Agree-put mem c.0 new rs out) f.3.3 in
    let (f2, same2) = Fwd-set_prev mem1 false (some d.0) (some c.0) n rs [] own f1 in
    let at_c = same2 c.0 out ∙ put_self mem c.0 new in
    let at_d = same2 d.0 out_d ∙ e1 in
    let sum : ((mem2 c.0).size + (mem2 d.0).size) % 2 ^ 64 ≡ c.1 + d.1 =
      (let e3 = ap (λ h. h.size) at_c in
        let e4 = ap (λ h. h.size) at_d in
        rw (e3, e4, f.1.size, f.3.1.size) (ground (arith, small))) in
    let last = record (mem2 c.0) {
      size = ((mem2 c.0).size + (mem2 d.0).size) % 2 ^ 64;
      status = false;
    } in
    let mem3 = put mem2 c.0 last in
    let e : joined mem c.0 d.0 ≡ mem3 = rw (e1) refl in
    let here = put_self mem2 c.0 last in
    let same3 : (x : ℕ) → starts x rs ≡ 0 → c.0 ≢ x → mem3 x ≡ mem x =
      (λ x o ne'. put_other mem2 c.0 x last ne' ∙ same2 x o ∙ put_other mem c.0 x new ne') in
    let before : Agree ls mem mem3 =
      λ x i. same3 x (omega (arith, apart x, i)) (λ q. ground (arith, apart x, i)) in
    let f3 = Fwd-Agree mem2 mem3 false (some c.0) n rs (Agree-put mem2 c.0 last rs out) f2 in
    let next = ap (λ h. h.next) here ∙ ap (λ h. h.next) at_c in
    let goal = λ (mem' : Memory).
      At mem' false l (some c.0) ls ((c.0, c.1 + d.1) ∷ rs)
      × ((x : ℕ) → starts x rs ≡ 0 → c.0 ≢ x → mem' x ≡ mem x) in
    subst goal (sym e) (
      (
        Bwd-Agree mem mem3 false (some c.0) l ls before b,
        (
          refl,
          record { size = ap (λ h. h.size) here ∙ sum; status = ap (λ h. h.status) here },
          ap (λ h. h.prev) here ∙ ap (λ h. h.prev) at_c ∙ f.2,
          subst (λ q. Fwd mem3 false (some c.0) q rs) (sym next) f3,
        ),
      ),
      same3,
    )

touched :
    (lo hi : ℕ) (mem : Memory) (l : Option ℕ) (c d : Chunk) (ls rs : List Chunk)
    → Apart ls (c ∷ d ∷ rs)
    → At mem false l (some c.0) ls (c ∷ d ∷ rs)
    → Up (d.0 + d.1) rs
    → All (IsChunk lo hi) (c ∷ d ∷ rs)
    → hi < 2 ^ 64
    → c.0 + c.1 ≡ d.0
    → Merge lo hi mem (joined mem c.0 d.0) true l c ls (d ∷ rs)
unfolding starts covers total
touched lo hi mem l c d ls rs apart at up (ch, (dh, rest)) bound touch =
    let high = dh.high in
    let c_min = ch.header_fits in
    let d_min = dh.header_fits in
    let c_mod = ch.rounded in
    let d_mod = dh.rounded in
    let (at', same) = joined-At mem l c d ls rs apart at (omega (arith, touch, high, bound)) in
    let out : starts d.0 rs ≡ 0 = ground (arith, apart d.0) in
    let ne : c.0 ≢ d.0 = λ e. omega (arith, e, touch, c_min) in
    record {
      size = c.1 + d.1;
      rest = rs;
      at = at';
      up = subst (λ x. Up x rs) (omega (arith, touch)) up;
      same = λ x o i. same x (ground (arith, i)) (λ q. ground (arith, i, q));
      covered = λ x. ground (arith, touch);
      sizes = omega arith;
      chunks = (
        record {
          header_fits = omega (arith, c_min);
          low = ch.low;
          high = omega (arith, high, touch);
          aligned = ch.aligned;
          rounded = omega (arith, c_mod, d_mod);
        },
        rest,
      );
      fewer = λ x. omega arith;
      stale = λ y e.
          (let q = some-injective d.0 y (sym at.1.3.0 ∙ e) in
            subst (λ z. joined mem c.0 d.0 z ≡ mem z) q (same d.0 out ne));
      past = λ y e i.
          (let q = some-injective d.0 y (sym at.1.3.0 ∙ e) in omega (arith, q, touch, d_min));
    }

-- A call with a chunk and the header behind it.
pub merge_regions-Merge :
    (lo hi : ℕ) (mem : Memory) (l : Option ℕ) (c : Chunk) (ls rs : List Chunk)
    → Apart ls (c ∷ rs)
    → At mem false l (some c.0) ls (c ∷ rs)
    → Near (c.0 + c.1) rs
    → All (IsChunk lo hi) (c ∷ rs)
    → hi < 2 ^ 64
    → let (mem', merged) = merge_regions mem (some c.0) (mem c.0).next in
      Merge lo hi mem mem' merged l c ls rs
merge_regions-Merge lo hi mem l c ls [] apart at near chunks bound =
    rw (merge_regions-Up mem l c ls [] at tt) (unchanged lo hi mem l c ls [] at tt chunks)
merge_regions-Merge lo hi mem l c ls (d ∷ rs) apart at near chunks bound =
    let e = at.1.1.size in
    elim (ℕ_discrete (c.0 + c.1) d.0) [
      | yes touch ↦
          rw (at.1.3.0, merge_regions_touch mem c.0 d.0 (omega (arith, e, touch)))
            (touched lo hi mem l c d ls rs apart at near.1 chunks bound touch)
      | no ne ↦
          (let up : Up (c.0 + c.1) (d ∷ rs) = (omega (arith, ne, near.0), near.1) in
            rw (merge_regions-Up mem l c ls (d ∷ rs) at up)
              (unchanged lo hi mem l c ls (d ∷ rs) at up chunks))
    ]
