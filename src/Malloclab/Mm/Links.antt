-- ===== src/Malloclab/Mm/Links.antt =====
-- Doubly linked lists of headers, read forwards and backwards from a position, and what the writes of
-- malloclab/mm.c do to them.
use cso_fall.Common.{
  ℕ, ◌<◌, ◌≡◌, ◌≢◌, refl, sym, ap, subst, ◌∙◌, Bool, Option, none, some, List, [], ◌∷◌, arith,
}
use cso_fall.Malloclab.Headers.{Header, Memory, put}
use cso_fall.Malloclab.Mm.Chunks.{Chunk, rev_append, starts}

-- The header of a chunk.
pub record Stands (mem : Memory) (st : Bool) (c : Chunk) : Type 0 where
  pub size : (mem c.0).size ≡ c.1
  pub status : (mem c.0).status ≡ st

-- From the pointer `p` on stand the chunks, and the first one's `prev` is `l`.
abbrev pub Fwd : Memory → Bool → (l p : Option ℕ) → List Chunk → Type 0
Fwd mem st l p [] = p ≡ none
Fwd mem st l p (c ∷ cs) =
    (p ≡ some c.0)
    × Stands mem st c
    × ((mem c.0).prev ≡ l)
    × Fwd mem st (some c.0) (mem c.0).next cs

-- The same backwards.
abbrev pub Bwd : Memory → Bool → (r p : Option ℕ) → List Chunk → Type 0
Bwd mem st r p [] = p ≡ none
Bwd mem st r p (c ∷ cs) =
    (p ≡ some c.0)
    × Stands mem st c
    × ((mem c.0).next ≡ r)
    × Bwd mem st (some c.0) (mem c.0).prev cs

-- Two memories agree on the headers of the chunks; and elsewhere.
abbrev pub Agree : List Chunk → Memory → Memory → Type 0
Agree cs mem mem' = (x : ℕ) → 0 < starts x cs → mem' x ≡ mem x

abbrev pub SameBut : List Chunk → Memory → Memory → Type 0
SameBut cs mem mem' = (x : ℕ) → starts x cs ≡ 0 → mem' x ≡ mem x

pub put_self : (mem : Memory) (a : ℕ) (h : Header) → put mem a h a ≡ h
put_self mem a h = ground arith

pub put_other : (mem : Memory) (a b : ℕ) (h : Header) → a ≢ b → put mem a h b ≡ mem b
put_other mem a b h ne = ground arith

starts-head : (c : Chunk) (cs : List Chunk) → 0 < starts c.0 (c ∷ cs)
unfolding starts
starts-head c cs = ground arith

starts-tail : (x : ℕ) (c : Chunk) (cs : List Chunk) → 0 < starts x cs → 0 < starts x (c ∷ cs)
unfolding starts
starts-tail x c cs h = omega arith

Stands-Agree :
    (mem mem' : Memory) (st : Bool) (c : Chunk)
    → mem' c.0 ≡ mem c.0
    → Stands mem st c
    → Stands mem' st c
Stands-Agree mem mem' st c e h = record {
  size = ap (λ x. x.size) e ∙ h.size;
  status = ap (λ x. x.status) e ∙ h.status;
}

pub Fwd-Agree :
    (mem mem' : Memory) (st : Bool) (l p : Option ℕ) (cs : List Chunk)
    → Agree cs mem mem'
    → Fwd mem st l p cs
    → Fwd mem' st l p cs
Fwd-Agree mem mem' st l p [] same h = h
Fwd-Agree mem mem' st l p (c ∷ cs) same h =
    let e = same c.0 (starts-head c cs) in
    (
      h.0,
      Stands-Agree mem mem' st c e h.1,
      ap (λ x. x.prev) e ∙ h.2,
      subst (λ n. Fwd mem' st (some c.0) n cs) (sym (ap (λ x. x.next) e))
          (Fwd-Agree mem mem' st (some c.0) (mem c.0).next cs (λ x i. same x (starts-tail x c cs i))
            h.3),
    )

pub Bwd-Agree :
    (mem mem' : Memory) (st : Bool) (r p : Option ℕ) (cs : List Chunk)
    → Agree cs mem mem'
    → Bwd mem st r p cs
    → Bwd mem' st r p cs
Bwd-Agree mem mem' st r p [] same h = h
Bwd-Agree mem mem' st r p (c ∷ cs) same h =
    let e = same c.0 (starts-head c cs) in
    (
      h.0,
      Stands-Agree mem mem' st c e h.1,
      ap (λ x. x.next) e ∙ h.2,
      subst (λ n. Bwd mem' st (some c.0) n cs) (sym (ap (λ x. x.prev) e))
          (Bwd-Agree mem mem' st (some c.0) (mem c.0).prev cs (λ x i. same x (starts-tail x c cs i))
            h.3),
    )

-- A write elsewhere.
pub Agree-put :
    (mem : Memory) (a : ℕ) (h : Header) (cs : List Chunk)
    → starts a cs ≡ 0
    → Agree cs mem (put mem a h)
Agree-put mem a h cs out x i = put_other mem a x h (λ e. out_in e)
  where
    out_in : a ≡ x → ⊥
    out_in e = omega (arith, out, i, ap (λ y. starts y cs) e)

-- The head of the list whose chunks before the position are `ls`, where `r` stands at the position.
abbrev pub head_of : List Chunk → Option ℕ → Option ℕ
head_of [] r = r
head_of (c ∷ ls) r = head_of ls (some c.0)

-- A list read at a position.
abbrev pub At : Memory → Bool → (l r : Option ℕ) → (ls rs : List Chunk) → Type 0
At mem st l r ls rs = Bwd mem st r l ls × Fwd mem st l r rs

pub At-Fwd :
    (mem : Memory) (st : Bool) (l r : Option ℕ) (ls rs : List Chunk)
    → At mem st l r ls rs
    → Fwd mem st none (head_of ls r) (rev_append ls rs)
At-Fwd mem st l r [] rs (e, f) = subst (λ x. Fwd mem st x r rs) e f
At-Fwd mem st l r (c ∷ ls) rs (b, f) = At-Fwd mem st (mem c.0).prev (some c.0) ls (c ∷ rs) (
  b.3,
  (
    refl,
    b.1,
    refl,
    subst (λ x. Fwd mem st x (mem c.0).next rs) b.0 (subst (λ x. Fwd mem st l x rs) (sym b.2) f),
  ),
)

-- One chunk further.
pub At-step :
    (mem : Memory) (st : Bool) (l r : Option ℕ) (c : Chunk) (ls rs : List Chunk)
    → At mem st l r ls (c ∷ rs)
    → At mem st (some c.0) (mem c.0).next (c ∷ ls) rs
At-step mem st l r c ls rs (b, f) = (
  (
    refl,
    f.1,
    refl,
    subst (λ x. Bwd mem st (some c.0) x ls) (sym f.2) (subst (λ x. Bwd mem st x l ls) f.0 b),
  ),
  f.3,
)

-- And one back.
pub At-back :
    (mem : Memory) (st : Bool) (l r : Option ℕ) (c : Chunk) (ls rs : List Chunk)
    → At mem st l r (c ∷ ls) rs
    → At mem st (mem c.0).prev (some c.0) ls (c ∷ rs)
At-back mem st l r c ls rs (b, f) = (
  b.3,
  (
    refl,
    b.1,
    refl,
    subst (λ x. Fwd mem st x (mem c.0).next rs) b.0 (subst (λ x. Fwd mem st l x rs) (sym b.2) f),
  ),
)

pub Fwd-At :
    (mem : Memory) (st : Bool) (p : Option ℕ) (ls rs : List Chunk)
    → Fwd mem st none p (rev_append ls rs)
    → (l : Option ℕ) × (r : Option ℕ) × At mem st l r ls rs × (p ≡ head_of ls r)
Fwd-At mem st p [] rs h = (none, p, (refl, h), refl)
Fwd-At mem st p (c ∷ ls) rs h =
    let (l, r, at, e) = Fwd-At mem st p ls (c ∷ rs) h in
    (some c.0, (mem c.0).next, At-step mem st l r c ls rs at, e ∙ ap (head_of ls) at.1.0)
