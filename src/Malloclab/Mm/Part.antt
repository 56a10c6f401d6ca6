-- ===== src/Malloclab/Mm/Part.antt =====
-- malloclab/mm.c, the second round of `find_memory`: a free chunk is cut, and its rest given back.
use cso_fall.Common.{
  ℕ, ◌+◌, ◌-◌, ◌%◌, ◌^◌, ◌≤◌, ◌<◌, ◌≡◌, refl, ap, ◌∙◌, Bool, true, false, Option, none, some, List,
  [], ◌∷◌, arith, ◌>>=◌,
}
use cso_fall.Malloclab.Headers.{
  put, set_chunk_size_status, get_chunk_size, init_header, header_to_payload, header_to_next_header,
}
use cso_fall.Malloclab.Mm.{
  Mm, unlink, remove_from_list, insert_allocated_list, insert_free_list, take_part,
}
use cso_fall.Malloclab.Mm.Chunks.{
  Chunk, rev_append, starts, covers, within, total, starts-rev_append,
}
use cso_fall.Malloclab.Mm.Links.{Fwd-At, put_self}
use cso_fall.Malloclab.Mm.Valid.{Tiled, Valid, Tiled-starts, insert_free_list-Valid}
use cso_fall.Malloclab.Mm.Take.{insert_allocated_list-Tiled, Tiled-put}
use cso_fall.Malloclab.Mm.Places.{is_at-other}
use cso_fall.Malloclab.Mm.Removal.{Tiled-free, Fwd-Stands}
use cso_fall.Malloclab.Mm.Unlinked.{unlink-put, is_at-before}

within-cut :
    (a s k x : ℕ) → k + 32 < s → within x (a, k) + within x (a + k, s - k) ≡ within x (a, s)
within-cut a s k x room = ground arith

-- The chunk in no list, read as two.
cut :
    (m : Mm) (a s k : ℕ) (free held : List Chunk)
    → Tiled m free held ((a, s) ∷ [])
    → 32 ≤ k
    → k % 16 ≡ 0
    → k + 32 < s
    → Tiled m free held ((a, k) ∷ (a + k, s - k) ∷ [])
unfolding covers total
cut m a s k free held t min round room =
    let c = t.other_chunks.0 in
    let c_mod = c.rounded in
    let c_align = c.aligned in
    let c_high = c.high in
    let c_low = c.low in
    record {
      lists = t.lists;
      up = t.up;
      free_chunks = t.free_chunks;
      held_chunks = t.held_chunks;
      other_chunks = (
        record {
          header_fits = min;
          low = c_low;
          high = omega (arith, c_high, room);
          aligned = c_align;
          rounded = round;
        },
        (
          record {
            header_fits = omega (arith, room);
            low = omega (arith, c_low);
            high = omega (arith, c_high, room);
            aligned = omega (arith, c_align, round);
            rounded = omega (arith, c_mod, round, room);
          },
          tt,
        ),
      );
      tiles = λ x. omega (arith, t.tiles x, within-cut a s k x room);
      sizes = omega (arith, t.sizes, room);
      bounds = t.bounds;
    }

-- A header that is written before it is taken out of its list.
remove_from_list-put :
    (m : Mm) (c : Chunk) (ls rs held : List Chunk) (k : ℕ) (st : Bool)
    → Valid m (rev_append ls (c ∷ rs)) held
    → remove_from_list c.0 (record m { mem = set_chunk_size_status m.mem c.0 k st })
      ≡ record (remove_from_list c.0 m) {
        mem = put (unlink m.mem c.0) c.0 (record (m.mem c.0) { size = k; status = st });
      }
unfolding remove_from_list starts
remove_from_list-put m c ls rs held k st v =
    let h = record (m.mem c.0) { size = k; status = st } in
    let (l, r, at, e) = Fwd-At m.mem false m.global_free_list ls (c ∷ rs) v.lists.free_list in
    let once = Tiled-starts m (rev_append ls (c ∷ rs)) held [] v c.0 in
    let parts = starts-rev_append c.0 ls (c ∷ rs) in
    let out : starts c.0 ls ≡ 0 = ground (arith, once, parts) in
    let out' : starts c.0 rs ≡ 0 = ground (arith, once, parts) in
    let next = (m.mem c.0).next in
    let writes =
      unlink-put m.mem c.0 h l next (is_at-before m.mem false r l ls c.0 at.0 out)
        (is_at-other m.mem false (some c.0) next rs c.0 at.1.3 out') at.1.2 refl at.1.2 refl in
    let same = ap (λ q. q.next) (put_self m.mem c.0 h) in rw (writes, same) refl

-- What follows `remove_from_list`.
abbrev finish : (k a rest : ℕ) → Mm → Option (Option ℕ × Mm)
finish k a rest m =
    let m2 = insert_allocated_list a m in
    let b = header_to_next_header a k in
    insert_free_list b
      (record m2 { mem = set_chunk_size_status (init_header m2.mem b) b rest false })
    >>= λ m3. some (some (header_to_payload a), m3)

take_part-finish :
    (k a : ℕ) (m : Mm)
    → take_part k a m
      ≡ finish k a
          ((get_chunk_size m.mem a + 2 ^ 64 - k) % 2 ^ 64)
          (remove_from_list a (record m { mem = set_chunk_size_status m.mem a k true }))
unfolding take_part
take_part-finish k a m = refl

finish-Valid :
    (m : Mm) (k a rest : ℕ) (free held : List Chunk)
    → Tiled m free held ((a, k) ∷ (a + k, rest) ∷ [])
    → (m.mem a).size ≡ k
    → (m' : Mm) × (free' : List Chunk) × ((finish k a rest m
          ≡ some (some (header_to_payload a), m'))
        × Valid m' free' ((a, k) ∷ held)
        × (m'.heap ≡ m.heap)
        × (m'.bytes ≡ m.bytes))
unfolding insert_allocated_list starts
finish-Valid m k a rest free held t size =
    let b = a + k in
    let m2 = insert_allocated_list a m in
    let t2 = insert_allocated_list-Tiled m (a, k) free held ((b, rest) ∷ []) t size in
    let once = Tiled-starts m2 free ((a, k) ∷ held) ((b, rest) ∷ []) t2 b in
    let out : starts b free + starts b ((a, k) ∷ held) ≡ 0 = ground (arith, once) in
    let h0 = record (m2.mem b) { next = none; prev = none; status = false } in
    let mem3 = put m2.mem b h0 in
    let h1 = record (mem3 b) { size = rest; status = false } in
    let t3 =
      Tiled-put (record m2 { mem = mem3 }) b h1 free ((a, k) ∷ held) ((b, rest) ∷ []) out
        (Tiled-put m2 b h0 free ((a, k) ∷ held) ((b, rest) ∷ []) out t2) in
    let m3 = record m2 { mem = put mem3 b h1 } in
    let (m', free', (e, valid, covered, only)) =
      insert_free_list-Valid m3 (b, rest) free ((a, k) ∷ held) t3
        (ap (λ q. q.size) (put_self mem3 b h1)) in
    (m', free', (rw (e) refl, valid, ap (λ q. q.heap) only, ap (λ q. q.bytes) only))

-- The second round's chunk: its first `k` bytes are taken, the rest is free.
pub take_part-Valid :
    (m : Mm) (c : Chunk) (k : ℕ) (ls rs held : List Chunk)
    → Valid m (rev_append ls (c ∷ rs)) held
    → 32 ≤ k
    → k % 16 ≡ 0
    → k + 32 < c.1
    → (m' : Mm) × (free' : List Chunk) × ((take_part k c.0 m
          ≡ some (some (header_to_payload c.0), m'))
        × Valid m' free' ((c.0, k) ∷ held)
        × (m'.heap ≡ m.heap)
        × (m'.bytes ≡ m.bytes))
unfolding remove_from_list starts
take_part-Valid m c k ls rs held v min round room =
    let a = c.0 in
    let free = rev_append ls rs in
    let h = record (m.mem a) { size = k; status = true } in
    let mr = remove_from_list a m in
    let t = Tiled-free m c ls rs held v in
    let t1 = cut mr a c.1 k free held t min round room in
    let parts : List Chunk = (a, k) ∷ (a + k, c.1 - k) ∷ [] in
    let once = Tiled-starts mr free held parts t1 a in
    let t2 = Tiled-put mr a h free held parts (ground (arith, once)) t1 in
    let m2 = record mr { mem = put mr.mem a h } in
    let cell = Fwd-Stands m.mem false m.global_free_list c ls rs v.lists.free_list in
    let high = t.other_chunks.0.high in
    let limit = v.bounds.limit in
    let wide = v.bounds.wide in
    let rest : (get_chunk_size m.mem a + 2 ^ 64 - k) % 2 ^ 64 ≡ c.1 - k =
      rw (cell.size) (omega (arith, room, high, limit, wide)) in
    let (m', free', (e, valid, heap, bytes)) =
      finish-Valid m2 k a (c.1 - k) free held t2 (ap (λ q. q.size) (put_self mr.mem a h)) in
    (
      m',
      free',
      (
        take_part-finish k a m
            ∙ ap (finish k a ((get_chunk_size m.mem a + 2 ^ 64 - k) % 2 ^ 64))
                (remove_from_list-put m c ls rs held k true v)
            ∙ ap (λ q. finish k a q m2) rest
            ∙ e,
        valid,
        heap,
        bytes,
      ),
    )
