-- ===== src/Malloclab/Mm/Places.antt =====
-- malloclab/mm.c: a header taken out of its list, and put into a list at a position.
use cso_fall.Common.{
  ℕ, ◌≡◌, ◌≢◌, refl, sym, ap, subst, ◌∙◌, Bool, false, Option, none, some, List, [], ◌∷◌, ◌==◌,
  if◌then◌else◌, arith,
}
use cso_fall.Malloclab.Headers.{Memory, put, set_next_of, set_prev_of, is_at}
use cso_fall.Malloclab.Mm.{unlink}
use cso_fall.Malloclab.Mm.Chunks.{Chunk, rev_append, starts, starts-rev_append}
use cso_fall.Malloclab.Mm.Links.{
  Stands, Fwd, Bwd, At, At-Fwd, Fwd-At, SameBut, put_self, Agree-put, Fwd-Agree, Bwd-Agree, head_of,
  put_other,
}
use cso_fall.Malloclab.Mm.Relink.{
  Apart, Apart-swap, Bwd-set_next, Fwd-set_prev, SameBut-Agree, link, outside_head,
}

-- The head of a list whose chunks do not start at `a` is not `a`.
head_of-other :
    (a b : ℕ) (ls : List Chunk) → b ≢ a → starts a ls ≡ 0 → is_at (head_of ls (some b)) a ≡ false
head_of-other a b [] ne out = ground arith
head_of-other a b (c ∷ ls) ne out =
    let (ne', out') = outside_head a c ls out in head_of-other a c.0 ls ne' out'

head_of-unlinked :
    (a : ℕ) (r : Option ℕ) (ls : List Chunk)
    → starts a ls ≡ 0
    → (if is_at (head_of ls (some a)) a then r else head_of ls (some a)) ≡ head_of ls r
head_of-unlinked a r [] out = ground arith
head_of-unlinked a r (c ∷ ls) out =
    let (ne, out') = outside_head a c ls out in rw (head_of-other a c.0 ls ne out') refl

pub is_at-other :
    (mem : Memory) (st : Bool) (l p : Option ℕ) (cs : List Chunk) (a : ℕ)
    → Fwd mem st l p cs
    → starts a cs ≡ 0
    → is_at p a ≡ false
is_at-other mem st l p [] a f out = ap (λ q. is_at q a) f
is_at-other mem st l p (c ∷ cs) a f out =
    let (ne, out') = outside_head a c cs out in
    let e : (a == c.0) ≡ false = ground arith in ap (λ q. is_at q a) f.0 ∙ e

-- The writes of `unlink`, where `l` and `r` stand beside the header.
unlink-link :
    (mem : Memory) (st : Bool) (l r : Option ℕ) (c : Chunk) (ls rs : List Chunk)
    → Apart ls (c ∷ rs)
    → At mem st l r ls (c ∷ rs)
    → unlink mem c.0 ≡ set_prev_of (set_next_of mem l (mem c.0).next) (mem c.0).next l
unfolding unlink starts
unlink-link mem st l r c ls rs apart (b, f) =
    let next = (mem c.0).next in
    let out : starts c.0 ls ≡ 0 = ground (arith, apart c.0) in
    let same = (Bwd-set_next mem st r next l ls (c ∷ rs) apart b).1 c.0 out in
    rw (f.2, same, f.2) refl

unlink-At :
    (mem : Memory) (st : Bool) (l r : Option ℕ) (c : Chunk) (ls rs : List Chunk)
    → Apart ls (c ∷ rs)
    → At mem st l r ls (c ∷ rs)
    → At (unlink mem c.0) st l (mem c.0).next ls rs
      × ((x : ℕ) → starts x ls ≡ 0 → starts x rs ≡ 0 → unlink mem c.0 x ≡ mem x)
unfolding starts
unlink-At mem st l r c ls rs apart at =
    let next = (mem c.0).next in
    let goal = λ (mem' : Memory).
      At mem' st l next ls rs × ((x : ℕ) → starts x ls ≡ 0 → starts x rs ≡ 0 → mem' x ≡ mem x) in
    let apart' : Apart ls rs = λ x. omega (arith, apart x) in
    subst goal (sym (unlink-link mem st l r c ls rs apart at))
      (link mem st l (some c.0) next r ls rs apart' at.0 at.1.3)

-- A list without one of its headers, and its new head.
pub unlink-Fwd :
    (mem : Memory) (st : Bool) (p : Option ℕ) (c : Chunk) (ls rs : List Chunk)
    → Apart ls (c ∷ rs)
    → Fwd mem st none p (rev_append ls (c ∷ rs))
    → Fwd (unlink mem c.0) st none (if is_at p c.0 then (mem c.0).next else p) (rev_append ls rs)
      × SameBut (rev_append ls rs) mem (unlink mem c.0)
unfolding starts
unlink-Fwd mem st p c ls rs apart h =
    let (l, r, at, e) = Fwd-At mem st p ls (c ∷ rs) h in
    let (at', same) = unlink-At mem st l r c ls rs apart at in
    let out : starts c.0 ls ≡ 0 = ground (arith, apart c.0) in
    let head : (if is_at p c.0 then (mem c.0).next else p) ≡ head_of ls (mem c.0).next =
      rw (e, at.1.0) (head_of-unlinked c.0 (mem c.0).next ls out) in
    (
      subst (λ q. Fwd (unlink mem c.0) st none q (rev_append ls rs)) (sym head)
          (At-Fwd (unlink mem c.0) st l (mem c.0).next ls rs at'),
      λ x out'.
          same x (omega (arith, starts-rev_append x ls rs, out'))
            (omega (arith, starts-rev_append x ls rs, out')),
    )

-- The memory in which the header at `a` stands between `l` and `r`.
abbrev pub between : Memory → ℕ → (l r : Option ℕ) → Memory
between mem a l r =
    set_prev_of (set_next_of (put mem a (record (mem a) { next = r; prev = l })) l (some a)) r
      (some a)

pub insert-At :
    (mem mem' : Memory) (st : Bool) (l l' r r' : Option ℕ) (c : Chunk) (ls rs : List Chunk)
    → Apart ls (c ∷ rs)
    → Bwd mem st r' l ls
    → Fwd mem st l' r rs
    → Stands mem st c
    → ((x : ℕ) → mem' x ≡ between mem c.0 l r x)
    → At mem' st l (some c.0) ls (c ∷ rs)
      × ((x : ℕ) → starts x ls ≡ 0 → starts x (c ∷ rs) ≡ 0 → mem' x ≡ mem x)
      × ((mem' c.0).next ≡ r)
unfolding starts
insert-At mem mem' st l l' r r' c ls rs apart b f cell e =
    let new = record (mem c.0) { next = r; prev = l } in
    let mem0 = put mem c.0 new in
    let mem1 = set_next_of mem0 l (some c.0) in
    let mem2 = set_prev_of mem1 r (some c.0) in
    let out : starts c.0 ls ≡ 0 = ground (arith, apart c.0) in
    let out' : starts c.0 rs ≡ 0 = ground (arith, apart c.0) in
    let apart' : Apart ls rs = λ x. omega (arith, apart x) in
    let swap = Apart-swap ls rs apart' in
    let (b1, same1) =
      Bwd-set_next mem0 st r' (some c.0) l ls rs apart'
        (Bwd-Agree mem mem0 st r' l ls (Agree-put mem c.0 new ls out) b) in
    let f1 =
      Fwd-Agree mem0 mem1 st l' r rs (SameBut-Agree mem0 mem1 ls rs apart' same1)
        (Fwd-Agree mem mem0 st l' r rs (Agree-put mem c.0 new rs out') f) in
    let (f2, same2) = Fwd-set_prev mem1 st l' (some c.0) r rs ls swap f1 in
    let b2 = Bwd-Agree mem1 mem2 st (some c.0) l ls (SameBut-Agree mem1 mem2 rs ls swap same2) b1 in
    let here : mem' c.0 ≡ new = e c.0 ∙ same2 c.0 out' ∙ same1 c.0 out ∙ put_self mem c.0 new in
    let f3 = Fwd-Agree mem2 mem' st (some c.0) r rs (λ x i. e x) f2 in
    let next = ap (λ h. h.next) here in
    (
      (
        Bwd-Agree mem2 mem' st (some c.0) l ls (λ x i. e x) b2,
        (
          refl,
          record {
            size = ap (λ h. h.size) here ∙ cell.size;
            status = ap (λ h. h.status) here ∙ cell.status;
          },
          ap (λ h. h.prev) here,
          subst (λ n. Fwd mem' st (some c.0) n rs) (sym next) f3,
        ),
      ),
      λ x o i.
          e x
          ∙ same2 x (outside_head x c rs i).1
          ∙ same1 x o
          ∙ put_other mem c.0 x new (outside_head x c rs i).0,
      next,
    )
