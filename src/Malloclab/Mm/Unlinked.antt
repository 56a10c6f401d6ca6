-- ===== src/Malloclab/Mm/Unlinked.antt =====
-- malloclab/mm.c, `remove_from_list`: the writes, and the size and status of the header.
use cso_fall.Common.{
  ℕ, ◌≡◌, refl, sym, ap, ◌∙◌, Bool, false, Option, none, some, List, [], ◌∷◌, arith, ◌==◌,
}
use cso_fall.Malloclab.Headers.{Memory, Header, put, is_at, set_next_of, set_prev_of}
use cso_fall.Malloclab.Mm.{unlink}
use cso_fall.Malloclab.Mm.Chunks.{Chunk, starts}
use cso_fall.Malloclab.Mm.Links.{Bwd, put_self}
use cso_fall.Malloclab.Mm.Relink.{outside_head}

set_next_of_other :
    (mem : Memory) (l r : Option ℕ) (a : ℕ) → is_at l a ≡ false → set_next_of mem l r a ≡ mem a
set_next_of_other mem none r a ne = refl
set_next_of_other mem (some b) r a ne = ground arith

unlink-writes :
    (mem : Memory) (a : ℕ) (l r : Option ℕ)
    → is_at l a ≡ false
    → (mem a).prev ≡ l
    → (mem a).next ≡ r
    → unlink mem a ≡ set_prev_of (set_next_of mem l r) r l
unfolding unlink
unlink-writes mem a l r ne prev next =
    rw (prev, next, set_next_of_other mem l r a ne, next, prev) refl

writes-put :
    (mem : Memory) (a : ℕ) (h : Header) (l r : Option ℕ)
    → is_at l a ≡ false
    → is_at r a ≡ false
    → (x : ℕ)
    → set_prev_of (set_next_of (put mem a h) l r) r l x
      ≡ put (set_prev_of (set_next_of mem l r) r l) a h x
writes-put mem a h none none ne ne' x = refl
writes-put mem a h none (some c) ne ne' x = ground arith
writes-put mem a h (some b) none ne ne' x = ground arith
writes-put mem a h (some b) (some c) ne ne' x = ground arith

-- The writes of `unlink` pass over the header itself, which may have been written before.
pub unlink-put :
    (mem : Memory) (a : ℕ) (h : Header) (l r : Option ℕ)
    → is_at l a ≡ false
    → is_at r a ≡ false
    → (mem a).prev ≡ l
    → (mem a).next ≡ r
    → h.prev ≡ l
    → h.next ≡ r
    → unlink (put mem a h) a ≡ put (unlink mem a) a h
unlink-put mem a h l r ne ne' prev next prev' next' =
    let e = put_self mem a h in
    let first =
      unlink-writes (put mem a h) a l r ne (ap (λ q. q.prev) e ∙ prev')
        (ap (λ q. q.next) e ∙ next') in
    let between : set_prev_of (set_next_of (put mem a h) l r) r l
        ≡ put (set_prev_of (set_next_of mem l r) r l) a h =
      λ i x. writes-put mem a h l r ne ne' x i in
    first ∙ between ∙ ap (λ q. put q a h) (sym (unlink-writes mem a l r ne prev next))

pub is_at-before :
    (mem : Memory) (st : Bool) (r l : Option ℕ) (ls : List Chunk) (a : ℕ)
    → Bwd mem st r l ls
    → starts a ls ≡ 0
    → is_at l a ≡ false
is_at-before mem st r l [] a b out = ap (λ q. is_at q a) b
is_at-before mem st r l (c ∷ ls) a b out =
    let ne = (outside_head a c ls out).0 in
    let e : (a == c.0) ≡ false = ground arith in ap (λ q. is_at q a) b.0 ∙ e
