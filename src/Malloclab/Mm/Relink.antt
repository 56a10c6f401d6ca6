-- ===== src/Malloclab/Mm/Relink.antt =====
-- Doubly linked lists of headers: a pointer beside a position is written.
use cso_fall.Common.{
  ℕ, ◌+◌, ◌≤◌, ◌≡◌, ◌≢◌, refl, sym, ap, subst, ◌∙◌, Bool, Option, none, some, List, [], ◌∷◌, arith,
}
use cso_fall.Malloclab.Headers.{Memory, put, set_next_of, set_prev_of}
use cso_fall.Malloclab.Mm.Chunks.{Chunk, starts}
use cso_fall.Malloclab.Mm.Links.{
  Fwd, Bwd, Agree, SameBut, put_self, put_other, Fwd-Agree, Bwd-Agree, Agree-put, At,
}

-- No header stands at two places of the lists.
abbrev pub Apart : (ls rs : List Chunk) → Type 0
Apart ls rs = (x : ℕ) → starts x ls + starts x rs ≤ 1

Apart-head :
    (c : Chunk) (ls rs : List Chunk) → Apart (c ∷ ls) rs → (starts c.0 ls ≡ 0) × (starts c.0 rs ≡ 0)
unfolding starts
Apart-head c ls rs apart = ground (arith, apart c.0)

pub Apart-swap : (ls rs : List Chunk) → Apart ls rs → Apart rs ls
Apart-swap ls rs apart x = omega (arith, apart x)

pub outside_head :
    (x : ℕ) (c : Chunk) (cs : List Chunk) → starts x (c ∷ cs) ≡ 0 → (c.0 ≢ x) × (starts x cs ≡ 0)
unfolding starts
outside_head x c cs out = ground arith

-- The neighbour before the position is pointed elsewhere.
pub Bwd-set_next :
    (mem : Memory) (st : Bool) (r r' l : Option ℕ) (ls rs : List Chunk)
    → Apart ls rs
    → Bwd mem st r l ls
    → Bwd (set_next_of mem l r') st r' l ls × SameBut ls mem (set_next_of mem l r')
Bwd-set_next mem st r r' l [] rs apart h =
    subst (λ p. (p ≡ none) × SameBut [] mem (set_next_of mem p r')) (sym h) (refl, λ x out. refl)
Bwd-set_next mem st r r' l (c ∷ ls) rs apart h =
    let new = record (mem c.0) { next = r' } in
    let mem' = put mem c.0 new in
    let e = put_self mem c.0 new in
    let here = (Apart-head c ls rs apart).0 in
    let goal = λ (p : Option ℕ).
      Bwd (set_next_of mem p r') st r' p (c ∷ ls) × SameBut (c ∷ ls) mem (set_next_of mem p r') in
    subst goal (sym h.0) (
      (
        refl,
        record { size = ap (λ x. x.size) e ∙ h.1.size; status = ap (λ x. x.status) e ∙ h.1.status },
        ap (λ x. x.next) e,
        subst (λ n. Bwd mem' st (some c.0) n ls) (sym (ap (λ x. x.prev) e))
            (Bwd-Agree mem mem' st (some c.0) (mem c.0).prev ls (Agree-put mem c.0 new ls here)
              h.3),
      ),
      λ x out. put_other mem c.0 x new (outside_head x c ls out).0,
    )

pub Fwd-set_prev :
    (mem : Memory) (st : Bool) (l l' r : Option ℕ) (rs ls : List Chunk)
    → Apart rs ls
    → Fwd mem st l r rs
    → Fwd (set_prev_of mem r l') st l' r rs × SameBut rs mem (set_prev_of mem r l')
Fwd-set_prev mem st l l' r [] ls apart h =
    subst (λ p. (p ≡ none) × SameBut [] mem (set_prev_of mem p l')) (sym h) (refl, λ x out. refl)
Fwd-set_prev mem st l l' r (c ∷ rs) ls apart h =
    let new = record (mem c.0) { prev = l' } in
    let mem' = put mem c.0 new in
    let e = put_self mem c.0 new in
    let here = (Apart-head c rs ls apart).0 in
    let goal = λ (p : Option ℕ).
      Fwd (set_prev_of mem p l') st l' p (c ∷ rs) × SameBut (c ∷ rs) mem (set_prev_of mem p l') in
    subst goal (sym h.0) (
      (
        refl,
        record { size = ap (λ x. x.size) e ∙ h.1.size; status = ap (λ x. x.status) e ∙ h.1.status },
        ap (λ x. x.prev) e,
        subst (λ n. Fwd mem' st (some c.0) n rs) (sym (ap (λ x. x.next) e))
            (Fwd-Agree mem mem' st (some c.0) (mem c.0).next rs (Agree-put mem c.0 new rs here)
              h.3),
      ),
      λ x out. put_other mem c.0 x new (outside_head x c rs out).0,
    )

-- A write beside one list does not touch another that is apart from it.
pub SameBut-Agree :
    (mem mem' : Memory) (ls rs : List Chunk) → Apart ls rs → SameBut ls mem mem' → Agree rs mem mem'
SameBut-Agree mem mem' ls rs apart same x i = same x (omega (arith, apart x, i))

-- Two parts of which the second is put behind the first.
pub link :
    (mem : Memory) (st : Bool) (l l' r r' : Option ℕ) (ls rs : List Chunk)
    → Apart ls rs
    → Bwd mem st r' l ls
    → Fwd mem st l' r rs
    → let mem' = set_prev_of (set_next_of mem l r) r l in
      At mem' st l r ls rs × ((x : ℕ) → starts x ls ≡ 0 → starts x rs ≡ 0 → mem' x ≡ mem x)
link mem st l l' r r' ls rs apart b f =
    let mem1 = set_next_of mem l r in
    let mem' = set_prev_of mem1 r l in
    let (b1, same1) = Bwd-set_next mem st r' r l ls rs apart b in
    let f1 = Fwd-Agree mem mem1 st l' r rs (SameBut-Agree mem mem1 ls rs apart same1) f in
    let (f2, same2) = Fwd-set_prev mem1 st l' l r rs ls (Apart-swap ls rs apart) f1 in
    (
      (
        Bwd-Agree mem1 mem' st r l ls (SameBut-Agree mem1 mem' rs ls (Apart-swap ls rs apart) same2)
            b1,
        f2,
      ),
      λ x out out'. same2 x out' ∙ same1 x out,
    )
