-- ===== src/Malloclab/Mm/Lists.antt =====
-- malloclab/mm.c: the two lists of an allocator, and `remove_from_list` and `insert_allocated_list`.
use cso_fall.Common.{
  ℕ, ◌≡◌, refl, sym, ap, subst, ◌∙◌, true, false, Option, none, some, List, [], ◌∷◌, if◌then◌else◌,
  arith,
}
use cso_fall.Malloclab.Headers.{Memory, set_next, set_prev, set_prev_of, is_at, set_chunk_status}
use cso_fall.Malloclab.Mm.{Mm, unlink, remove_from_list, insert_allocated_list}
use cso_fall.Malloclab.Mm.Chunks.{Chunk, rev_append, starts, starts-rev_append}
use cso_fall.Malloclab.Mm.Links.{Stands, Fwd, SameBut, put_self, Agree-put, Fwd-Agree, put_other}
use cso_fall.Malloclab.Mm.Relink.{Apart, Apart-swap, SameBut-Agree, outside_head}
use cso_fall.Malloclab.Mm.Places.{unlink-Fwd, insert-At, between, is_at-other}

-- The free list holds the chunks `free` and the other list the chunks `held`.
pub record Lists (m : Mm) (free held : List Chunk) : Type 0 where
  pub free_list : Fwd m.mem false none m.global_free_list free
  pub allocated_list : Fwd m.mem true none m.global_allocated_list_head held
  pub apart : Apart free held

Apart-parts : (ls rs ds : List Chunk) → Apart (rev_append ls rs) ds → Apart ls rs
Apart-parts ls rs ds apart x = omega (arith, apart x, starts-rev_append x ls rs)

starts-at :
    (c : Chunk) (ls rs ds : List Chunk) → Apart (rev_append ls (c ∷ rs)) ds → starts c.0 ds ≡ 0
unfolding starts
starts-at c ls rs ds apart =
    let e = starts-rev_append c.0 ls (c ∷ rs) in let i = apart c.0 in ground arith

Apart-removed :
    (c : Chunk) (ls rs ds : List Chunk)
    → Apart (rev_append ls (c ∷ rs)) ds
    → Apart (rev_append ls rs) ds
unfolding starts
Apart-removed c ls rs ds apart x =
    omega (arith, apart x, starts-rev_append x ls (c ∷ rs), starts-rev_append x ls rs)

keep_head : (a : ℕ) (p q : Option ℕ) → is_at p a ≡ false → (if is_at p a then q else p) ≡ p
keep_head a p q e = rw (e) refl

-- A chunk of the free list leaves it; the other list is as before.
pub remove_from_list-free :
    (m : Mm) (c : Chunk) (ls rs held : List Chunk)
    → Lists m (rev_append ls (c ∷ rs)) held
    → Lists (remove_from_list c.0 m) (rev_append ls rs) held
      × SameBut (rev_append ls rs) m.mem (unlink m.mem c.0)
unfolding remove_from_list
remove_from_list-free m c ls rs held h =
    let next = (m.mem c.0).next in
    let (free, same) =
      unlink-Fwd m.mem false m.global_free_list c ls rs (Apart-parts ls (c ∷ rs) held h.apart)
        h.free_list in
    let apart = Apart-removed c ls rs held h.apart in
    let out = starts-at c ls rs held h.apart in
    let kept =
      Fwd-Agree m.mem (unlink m.mem c.0) true none m.global_allocated_list_head held
        (SameBut-Agree m.mem (unlink m.mem c.0) (rev_append ls rs) held apart same)
        h.allocated_list in
    let head =
      keep_head c.0 m.global_allocated_list_head next
        (is_at-other m.mem true none m.global_allocated_list_head held c.0 h.allocated_list out) in
    (
      record {
        free_list = free;
        allocated_list = subst (λ q. Fwd (unlink m.mem c.0) true none q held) (sym head) kept;
        apart = apart;
      },
      same,
    )

-- And the same for the other list.
pub remove_from_list-held :
    (m : Mm) (c : Chunk) (ls rs free : List Chunk)
    → Lists m free (rev_append ls (c ∷ rs))
    → Lists (remove_from_list c.0 m) free (rev_append ls rs)
      × SameBut (rev_append ls rs) m.mem (unlink m.mem c.0)
      × ((remove_from_list c.0 m).global_free_list ≡ m.global_free_list)
unfolding remove_from_list
remove_from_list-held m c ls rs free h =
    let next = (m.mem c.0).next in
    let swap = Apart-swap free (rev_append ls (c ∷ rs)) h.apart in
    let (held, same) =
      unlink-Fwd m.mem true m.global_allocated_list_head c ls rs (Apart-parts ls (c ∷ rs) free swap)
        h.allocated_list in
    let apart = Apart-removed c ls rs free swap in
    let out = starts-at c ls rs free swap in
    let kept =
      Fwd-Agree m.mem (unlink m.mem c.0) false none m.global_free_list free
        (SameBut-Agree m.mem (unlink m.mem c.0) (rev_append ls rs) free apart same) h.free_list in
    let head =
      keep_head c.0 m.global_free_list next
        (is_at-other m.mem false none m.global_free_list free c.0 h.free_list out) in
    (
      record {
        free_list = subst (λ q. Fwd (unlink m.mem c.0) false none q free) (sym head) kept;
        allocated_list = held;
        apart = Apart-swap (rev_append ls rs) free apart;
      },
      same,
      head,
    )

-- The writes of `insert_allocated_list`, where the head is another header.
push-between :
    (mem : Memory) (a : ℕ) (head : Option ℕ)
    → is_at head a ≡ false
    → (x : ℕ)
    → set_prev (set_prev_of (set_next mem a head) head (some a)) a none x
      ≡ between mem a none head x
push-between mem a none ne x = ground arith
push-between mem a (some b) ne x = ground arith

-- A chunk that is in no list becomes the first allocated one.
pub insert_allocated_list-Lists :
    (m : Mm) (c : Chunk) (free held : List Chunk)
    → Lists m free held
    → Apart free (c ∷ held)
    → (m.mem c.0).size ≡ c.1
    → Lists (insert_allocated_list c.0 m) free (c ∷ held)
      × SameBut (c ∷ held) m.mem (insert_allocated_list c.0 m).mem
unfolding insert_allocated_list starts
insert_allocated_list-Lists m c free held h apart size =
    let new = record (m.mem c.0) { status = true } in
    let mem = set_chunk_status m.mem c.0 true in
    let head = m.global_allocated_list_head in
    let mem' = set_prev (set_prev_of (set_next mem c.0 head) head (some c.0)) c.0 none in
    let outside : starts c.0 held ≡ 0 = ground (arith, apart c.0) in
    let list =
      Fwd-Agree m.mem mem true none head held (Agree-put m.mem c.0 new held outside)
        h.allocated_list in
    let ne = is_at-other mem true none head held c.0 list outside in
    let e = put_self m.mem c.0 new in
    let cell : Stands mem true c = record {
      size = ap (λ x. x.size) e ∙ size;
      status = ap (λ x. x.status) e;
    } in
    let own : Apart [] (c ∷ held) = λ x. omega (arith, apart x) in
    let (at, same, next) =
      insert-At mem mem' true none none head none c [] held own refl list cell
        (push-between mem c.0 head ne) in
    let other : SameBut (c ∷ held) m.mem mem' =
      λ x out. same x refl out ∙ put_other m.mem c.0 x new (outside_head x c held out).0 in
    (
      record {
        free_list =
            Fwd-Agree m.mem mem' false none m.global_free_list free
              (SameBut-Agree m.mem mem' (c ∷ held) free (Apart-swap free (c ∷ held) apart) other)
              h.free_list;
        allocated_list = at.1;
        apart = apart;
      },
      other,
    )
