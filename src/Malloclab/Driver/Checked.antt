-- ===== src/Malloclab/Driver/Checked.antt =====
-- malloclab/mdriver.c, `eval_mm_valid`: the range list, over any allocator.
use mathlib.Core.Option.{none-ne-some, some-injective}
use cso_fall.Common.{
  ℕ, ◌+◌, ◌-◌, ◌%◌, ◌≡◌, ◌⊎◌, inl, inr, refl, sym, ap, subst, ◌∙◌, Bool, true, false, not, ◌&&◌,
  Option, none, some, List, [], ◌∷◌, ◌==◌, if◌then◌else◌, arith, All, Bool-cases, Option-cases,
  ℕ_discrete, ltb,
}
use cso_fall.Malloclab.Memlib.{Heap, is_aligned}
use cso_fall.Malloclab.Ranges.{Range, add_range, remove_range, clear_ranges}
use cso_fall.Malloclab.Ranges.Checks.{Apart, Within, IsRange, add_range_iff}
use cso_fall.Malloclab.Allocator.{Allocator}
use cso_fall.Malloclab.Driver.{
  RequestType, alloc, free, realloc, Traceop, Trial, preserved, placed, remember, allocated,
  reallocated, valid_op, reset, remove_old,
}

-- Each payload is aligned and has bytes, and each older one has no byte in common with it or lies
-- strictly within it.
abbrev pub Checked : List Range → Type 0
Checked [] = Unit
Checked (r ∷ rs) =
    (is_aligned r.lo ≡ true)
    × IsRange r
    × All (λ p. Apart r.lo r.hi p ⊎ Within r.lo r.hi p) rs
    × Checked rs

remove_range-All :
    (P : Range → Type 0) (lo : ℕ) (rs : List Range) → All P rs → All P (remove_range rs lo)
unfolding remove_range
remove_range-All P lo [] h = tt
remove_range-All P lo (r ∷ rs) h = elim (Bool-cases (r.lo == lo)) [
  | inl e ↦ rw (e) h.1
  | inr e ↦ rw (e) (h.0, remove_range-All P lo rs h.1)
]

remove_range-Checked : (lo : ℕ) (rs : List Range) → Checked rs → Checked (remove_range rs lo)
unfolding remove_range
remove_range-Checked lo [] h = tt
remove_range-Checked lo (r ∷ rs) h = elim (Bool-cases (r.lo == lo)) [
  | inl e ↦ rw (e) h.3
  | inr e ↦ rw (e) (
    h.0,
    h.1,
    remove_range-All (λ p. Apart r.lo r.hi p ⊎ Within r.lo r.hi p) lo rs h.2,
    remove_range-Checked lo rs h.3,
  )
]

remove_old-Checked : (old : Option ℕ) (rs : List Range) → Checked rs → Checked (remove_old rs old)
remove_old-Checked none rs c = c
remove_old-Checked (some p) rs c = remove_range-Checked p rs c

Checked-IsRange : (rs : List Range) → Checked rs → All IsRange rs
Checked-IsRange [] h = tt
Checked-IsRange (r ∷ rs) h = (h.1, Checked-IsRange rs h.3)

add_range_empty : (h : Heap) (rs : List Range) (lo : ℕ) → add_range h rs lo 0 ≡ none
unfolding add_range
add_range_empty h rs lo = refl

add_range-Checked :
    (h : Heap) (rs rs' : List Range) (lo size ok : ℕ)
    → Checked rs
    → add_range h rs lo size ≡ some (ok, rs')
    → Checked rs'
add_range-Checked h rs rs' lo size ok c e = elim (ℕ_discrete size 0) [
  | yes empty ↦ absurd (
      none-ne-some (ok, rs')
        (sym (add_range_empty h rs lo) ∙ ap (add_range h rs lo) (sym empty) ∙ e))
  | no some_bytes ↦
      elim (add_range_iff h rs lo size (omega (arith, some_bytes)) (Checked-IsRange rs c)) [
        | inl (added, (aligned, inside, apart)) ↦
            (let same =
                ap (λ q. q.1)
                  (some-injective (1, record { lo = lo; hi = lo + size - 1 } ∷ rs) (ok, rs')
                    (sym added ∙ e)) in
              subst Checked same (aligned, omega (arith, some_bytes), apart, c))
        | inr (refused, bad) ↦
            (let same = ap (λ q. q.1) (some-injective (0, rs) (ok, rs') (sym refused ∙ e)) in
              subst Checked same c)
      ]
]

module _ (a : Allocator) where
  placed-Checked :
      (op : Traceop) (p : ℕ) (t t' : Trial a.State) (go : Bool)
      → Checked t.ranges
      → placed a op p t ≡ some (go, t')
      → Checked t'.ranges
  unfolding placed
  placed-Checked op p t t' go c e =
      elim (Option-cases (add_range (a.heap t.state) t.ranges p op.size)) [
        | inl no_result ↦ absurd (none-ne-some (go, t') (rw (no_result) at e))
        | inr ((ok, rs), added) ↦
            (let same =
                some-injective (not (ok == 0), record t { ranges = rs }) (go, t')
                  (rw (added) at e) in
              subst (λ q. Checked q.1.ranges) same
                (add_range-Checked (a.heap t.state) t.ranges rs p op.size ok c added))
      ]

  allocated-Checked :
      (op : Traceop) (t t' : Trial a.State) (r : Option ℕ × a.State) (go : Bool)
      → Checked t.ranges
      → allocated a op t r ≡ some (go, t')
      → Checked t'.ranges
  unfolding allocated remember
  allocated-Checked op t t' (none, s) go c e =
      subst (λ q. Checked q.1.ranges) (some-injective (false, record t { state = s }) (go, t') e) c
  allocated-Checked op t t' (some p, s) go c e =
      elim (Option-cases (placed a op p (record t { state = s }))) [
        | inl no_result ↦ absurd (none-ne-some (go, t') (rw (no_result) at e))
        | inr ((ok, t1), put) ↦
            (let c1 = placed-Checked op p (record t { state = s }) t1 ok c put in
              elim (Bool-cases ok) [
                | inl yes_ok ↦
                    subst (λ q. Checked q.1.ranges)
                      (some-injective (true, remember a op p t1) (go, t') (rw (put, yes_ok) at e))
                      c1
                | inr not_ok ↦
                    subst (λ q. Checked q.1.ranges)
                      (some-injective (false, t1) (go, t') (rw (put, not_ok) at e)) c1
              ])
      ]

  reallocated-Checked :
      (op : Traceop) (old : Option ℕ) (t t' : Trial a.State) (r : Option ℕ × a.State) (go : Bool)
      → Checked t.ranges
      → reallocated a op old t r ≡ some (go, t')
      → Checked t'.ranges
  unfolding reallocated remember
  reallocated-Checked op old t t' (none, s) go c e =
      subst (λ q. Checked q.1.ranges) (some-injective (false, record t { state = s }) (go, t') e) c
  reallocated-Checked op old t t' (some p, s) go c e =
      let remaining = remove_old t.ranges old in
      let c0 = remove_old-Checked old t.ranges c in
      elim (Option-cases (placed a op p (record t { state = s; ranges = remaining }))) [
        | inl no_result ↦ absurd (none-ne-some (go, t') (rw (no_result) at e))
        | inr ((ok, t1), put) ↦
            (let c1 =
                placed-Checked op p (record t { state = s; ranges = remaining }) t1 ok c0 put in
              let size =
                if ltb op.size (t.block_sizes op.index) then op.size else t.block_sizes op.index in
              elim (Bool-cases (ok && preserved size p (op.index % 256) (a.bytes t1.state))) [
                | inl yes_ok ↦
                    subst (λ q. Checked q.1.ranges)
                      (some-injective (true, remember a op p t1) (go, t') (rw (put, yes_ok) at e))
                      c1
                | inr not_ok ↦
                    subst (λ q. Checked q.1.ranges)
                      (some-injective (false, t1) (go, t') (rw (put, not_ok) at e)) c1
              ])
      ]

  valid_op-Checked :
      (type : RequestType) (op : Traceop) (t t' : Trial a.State) (go : Bool)
      → Checked t.ranges
      → valid_op a type op t ≡ some (go, t')
      → Checked t'.ranges
  unfolding valid_op
  valid_op-Checked alloc op t t' go c e = elim (Option-cases (a.mm_malloc op.size t.state)) [
    | inl no_result ↦ absurd (none-ne-some (go, t') (rw (no_result) at e))
    | inr (r, given) ↦ allocated-Checked op t t' r go c (rw (given) at e)
  ]
  valid_op-Checked realloc op t t' go c e =
      elim (Option-cases (a.mm_realloc (t.blocks op.index) op.size t.state)) [
        | inl no_result ↦ absurd (none-ne-some (go, t') (rw (no_result) at e))
        | inr (r, given) ↦ reallocated-Checked op (t.blocks op.index) t t' r go c (rw (given) at e)
      ]
  valid_op-Checked free op t t' go c e = elim (Option-cases (t.blocks op.index)) [
    | inl no_block ↦ absurd (none-ne-some (go, t') (rw (no_block) at e))
    | inr (p, at) ↦ elim (Option-cases (a.mm_free p t.state)) [
      | inl no_result ↦ absurd (none-ne-some (go, t') (rw (at, no_result) at e))
      | inr (s, freed) ↦
          subst (λ q. Checked q.1.ranges)
            (some-injective (true, record t { state = s; ranges = remove_range t.ranges p })
              (go, t') (rw (at, freed) at e))
            (remove_range-Checked p t.ranges c)
    ]
  ]

  -- The states that the loop of `eval_mm_valid` reaches.
  pub data Reached : Trial a.State → Type 0 where
    start :
        (t : Trial a.State)
        → Reached (record t { state = (reset a t.state).1; ranges = clear_ranges t.ranges })
    request :
        (op : Traceop) (t t' : Trial a.State) (go : Bool)
        → Reached t
        → valid_op a op.type op t ≡ some (go, t')
        → Reached t'

  -- On any allocator and for any trace, in every state that the loop of eval_mm_valid reaches, each payload
  -- of the range list is aligned, and each older one has no byte in common with it or lies strictly within
  -- it.
  pub Reached-Checked : (t : Trial a.State) → Reached t → Checked t.ranges
  unfolding clear_ranges
  Reached-Checked _ (start t) = tt
  Reached-Checked _ (request op t t' go r e) =
      valid_op-Checked op.type op t t' go (Reached-Checked t r) e
