-- ===== src/Malloclab/Mm/Placing.antt =====
-- malloclab/mm.c, `insert_free_list`: the loop that looks for the place of a chunk, and its writes.
use cso_fall.Common.{
  ℕ, zero, suc, ◌+◌, ◌≤◌, ◌<◌, ◌≡◌, ◌≢◌, refl, sym, ap, subst, ◌∙◌, true, false, Option, none, some,
  List, [], ◌∷◌, arith, All, Bool-cases, inl, inr, length, ltb, ltb→lt,
}
use cso_fall.Malloclab.Headers.{Memory, set_next, set_prev}
use cso_fall.Malloclab.Mm.{place_loop}
use cso_fall.Malloclab.Mm.Chunks.{Chunk, rev_append, starts, covers, within, Up, Down}
use cso_fall.Malloclab.Mm.Links.{At, At-step, head_of, put_other}
use cso_fall.Malloclab.Mm.Relink.{Apart}
use cso_fall.Malloclab.Mm.Places.{between}
use cso_fall.Malloclab.Mm.Merging.{Near}
use cso_fall.Malloclab.Mm.Coalesce.{Low}

-- The memory `mem'` has the header of `c` at its place in the list of the chunks `cs`.
pub record Place (mem mem' : Memory) (p : Option ℕ) (c : Chunk) (cs : List Chunk) : Type 0 where
  pub l : Option ℕ
  pub r : Option ℕ
  pub ls : List Chunk
  pub rs : List Chunk
  pub whole : rev_append ls rs ≡ cs
  pub at : At mem false l r ls rs
  pub low : Low c.0 ls
  pub near : Near (c.0 + c.1) rs
  pub head : p ≡ head_of ls (some c.0)
  pub written : (x : ℕ) → mem' x ≡ between mem c.0 l r x

-- The chunks before a position and those behind it are in order.
abbrev Sorted : (ls rs : List Chunk) → Type 0
Sorted ls [] = Unit
Sorted ls (e ∷ rs) = Down e.0 ls × Up (e.0 + e.1) rs

-- The loop has passed a chunk, or is to pass the first one.
abbrev Ready : ℕ → (ls rs : List Chunk) → Type 0
Ready a [] [] = ⊥
Ready a [] (e ∷ rs) = e.0 ≤ a
Ready a (d ∷ ls) rs = Unit

-- Two chunks that cover no address both, where the first starts before the second, or not.
pub before_chunk :
    (c e : Chunk) (rs : List Chunk)
    → ((x : ℕ) → covers x (e ∷ rs) + within x c ≤ 1)
    → 0 < c.1
    → 0 < e.1
    → c.0 < e.0
    → c.0 + c.1 ≤ e.0
unfolding covers
before_chunk c e rs free pos pos' lt = ground (arith, free e.0, pos, pos', lt)

behind_chunk :
    (c e : Chunk) (rs : List Chunk)
    → ((x : ℕ) → covers x (e ∷ rs) + within x c ≤ 1)
    → 0 < c.1
    → 0 < e.1
    → e.0 ≤ c.0
    → e.0 + e.1 ≤ c.0
unfolding covers
behind_chunk c e rs free pos pos' le = ground (arith, free c.0, pos, pos', le)

-- The writes behind the last chunk.
write_last :
    (mem : Memory) (a d : ℕ)
    → a ≢ d
    → (x : ℕ)
    → set_next (set_prev (set_next mem d (some a)) a (some d)) a none x
      ≡ between mem a (some d) none x
write_last mem a d ne x = ground arith

-- The writes between two chunks.
write_between :
    (mem : Memory) (a d e : ℕ)
    → a ≢ d
    → a ≢ e
    → d ≢ e
    → (mem e).prev ≡ some d
    → (x : ℕ)
    → (let mem2 = set_next (set_next mem a (some e)) d (some a) in
        set_prev (set_prev mem2 a (mem2 e).prev) e (some a) x)
      ≡ between mem a (some d) (some e) x
write_between mem a d e ad ae de prev x = ground arith

-- At the end of the list.
loop_end :
    (mem : Memory) (l r : Option ℕ) (c d : Chunk) (ls : List Chunk)
    → Apart (d ∷ ls) (c ∷ [])
    → At mem false l r (d ∷ ls) []
    → Low c.0 (d ∷ ls)
    → (mem' : Memory) × (((fuel : ℕ) → place_loop (suc fuel) mem c.0 l r ≡ some mem')
        × Place mem mem' (head_of ls (some d.0)) c (rev_append ls (d ∷ [])))
unfolding place_loop starts
loop_end mem l r c d ls apart at low =
    let ne : c.0 ≢ d.0 = λ e. ground (arith, apart c.0, e) in
    (
      set_next (set_prev (set_next mem d.0 (some c.0)) c.0 (some d.0)) c.0 none,
      (
        λ fuel. rw (at.0.0, at.1) refl,
        record {
          l = some d.0;
          r = none;
          ls = d ∷ ls;
          rs = [];
          whole = refl;
          at = ((refl, at.0.1, at.0.2 ∙ at.1, at.0.3), refl);
          low = low;
          near = tt;
          head = refl;
          written = write_last mem c.0 d.0 ne;
        },
      ),
    )

-- Before the chunk `e`.
loop_here :
    (mem : Memory) (l r : Option ℕ) (c d e : Chunk) (ls rs : List Chunk)
    → Apart (d ∷ ls) (c ∷ e ∷ rs)
    → At mem false l r (d ∷ ls) (e ∷ rs)
    → Low c.0 (d ∷ ls)
    → Near (c.0 + c.1) (e ∷ rs)
    → ltb c.0 e.0 ≡ true
    → (mem' : Memory) × (((fuel : ℕ) → place_loop (suc fuel) mem c.0 l r ≡ some mem')
        × Place mem mem' (head_of ls (some d.0)) c (rev_append ls (d ∷ e ∷ rs)))
unfolding place_loop starts
loop_here mem l r c d e ls rs apart at low near lt =
    let ad : c.0 ≢ d.0 = λ i. ground (arith, apart c.0, i) in
    let ae : c.0 ≢ e.0 = λ i. ground (arith, apart c.0, i) in
    let de : d.0 ≢ e.0 = λ i. ground (arith, apart d.0, i) in
    let prev = at.1.2 ∙ at.0.0 in
    let mem1 = set_next mem c.0 (some e.0) in
    let new = record (mem c.0) { next = some e.0 } in
    let prev1 : (mem1 e.0).prev ≡ some d.0 =
      ap (λ h. h.prev) (put_other mem c.0 e.0 new ae) ∙ prev in
    let mem2 = set_next mem1 d.0 (some c.0) in
    (
      set_prev (set_prev mem2 c.0 (mem2 e.0).prev) e.0 (some c.0),
      (
        λ fuel. rw (at.1.0, lt, prev1) refl,
        record {
          l = some d.0;
          r = some e.0;
          ls = d ∷ ls;
          rs = e ∷ rs;
          whole = refl;
          at = ((refl, at.0.1, at.0.2 ∙ at.1.0, at.0.3), (refl, at.1.1, prev, at.1.3));
          low = low;
          near = near;
          head = refl;
          written = write_between mem c.0 d.0 e.0 ad ae de prev;
        },
      ),
    )

Sorted-step : (e : Chunk) (ls rs : List Chunk) → Sorted ls (e ∷ rs) → Sorted (e ∷ ls) rs
Sorted-step e ls [] h = tt
Sorted-step e ls (f ∷ rs) h = ((h.1.0, h.0), h.1.1)

-- The loop passes the chunk `e`.
loop_skip :
    (fuel : ℕ) (mem : Memory) (l r : Option ℕ) (a e : ℕ)
    → r ≡ some e
    → ltb a e ≡ false
    → place_loop (suc fuel) mem a l r ≡ place_loop fuel mem a (some e) (mem e).next
unfolding place_loop
loop_skip fuel mem l r a e at past = rw (at, past) refl

-- With fuel for the chunks behind the position, the loop ends at the place of the chunk.
pub place_loop-Place :
    (fuel : ℕ) (mem : Memory) (l r : Option ℕ) (c : Chunk) (ls rs : List Chunk)
    → length rs < fuel
    → Apart ls (c ∷ rs)
    → At mem false l r ls rs
    → Low c.0 ls
    → Sorted ls rs
    → Ready c.0 ls rs
    → ((x : ℕ) → covers x rs + within x c ≤ 1)
    → 0 < c.1
    → All (λ e. 0 < e.1) rs
    → (mem' : Memory) × ((place_loop fuel mem c.0 l r ≡ some mem')
        × Place mem mem' (head_of ls r) c (rev_append ls rs))
unfolding place_loop starts covers
place_loop-Place zero mem l r c ls rs enough apart at low sorted ready free pos all =
    absurd (omega (arith, enough))
place_loop-Place (suc fuel) mem l r c [] [] enough apart at low sorted ready free pos all =
    absurd ready
place_loop-Place (suc fuel) mem l r c (d ∷ ls) [] enough apart at low sorted ready free pos all =
    let (mem', (e, place)) = loop_end mem l r c d ls apart at low in
    (
      mem',
      (
        e fuel,
        subst (λ q. Place mem mem' (head_of (d ∷ ls) q) c (rev_append (d ∷ ls) [])) (sym at.1)
            place,
      ),
    )
place_loop-Place (suc fuel) mem l r c [] (e ∷ rs) enough apart at low sorted ready free pos all =
    let past : ltb c.0 e.0 ≡ false = ground (arith, ready) in
    let at' = At-step mem false l r e [] rs at in
    let low' = behind_chunk c e rs free pos all.0 ready in
    let (mem', (found, place)) =
      place_loop-Place fuel mem (some e.0) (mem e.0).next c (e ∷ []) rs (omega (arith, enough))
        (λ x. omega (arith, apart x)) at' (low', sorted.0) (Sorted-step e [] rs sorted) tt
        (λ x. omega (arith, free x)) pos all.1 in
    (
      mem',
      (
        loop_skip fuel mem l r c.0 e.0 at.1.0 past ∙ found,
        subst (λ q. Place mem mem' q c (e ∷ rs)) (sym at.1.0) place,
      ),
    )
place_loop-Place (suc fuel) mem l r c (d ∷ ls) (e ∷ rs) enough apart at low sorted ready free pos
      all =
    let goal =
      (mem' : Memory) × ((place_loop (suc fuel) mem c.0 l r ≡ some mem')
        × Place mem mem' (head_of ls (some d.0)) c (rev_append ls (d ∷ e ∷ rs))) in
    let step = λ (past : ltb c.0 e.0 ≡ false).
      (let le : e.0 ≤ c.0 = ground (arith, past) in
        let at' = At-step mem false l r e (d ∷ ls) rs at in
        let low' = behind_chunk c e rs free pos all.0 le in
        let (mem', (found, place)) =
          place_loop-Place fuel mem (some e.0) (mem e.0).next c (e ∷ d ∷ ls) rs
            (omega (arith, enough)) (λ x. omega (arith, apart x)) at' (low', sorted.0)
            (Sorted-step e (d ∷ ls) rs sorted) tt (λ x. omega (arith, free x)) pos all.1 in
        let result : goal = (mem', (loop_skip fuel mem l r c.0 e.0 at.1.0 past ∙ found, place)) in
        result) in
    elim (Bool-cases (ltb c.0 e.0)) [
      | inl lt ↦
          (let near = before_chunk c e rs free pos all.0 (ltb→lt c.0 e.0 lt) in
            let (mem', (found, place)) =
              loop_here mem l r c d e ls rs apart at low (near, sorted.1) lt in
            (mem', (found fuel, place)))
      | inr past ↦ step past
    ]
