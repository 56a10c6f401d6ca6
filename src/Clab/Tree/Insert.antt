-- ===== src/Clab/Tree/Insert.antt =====
-- insert of clab/mini/part7.c against insertion into a sorted list without duplicates.
use Prim.Native.Nat.{Ordering}
use cso_fall.Common.{
  ℕ, ◌+◌, ◌≤◌, ◌≡◌, ◌⊎◌, inl, inr, refl, sym, ap, ◌∙◌, subst, Option, none, some, ◌>>=◌, List, [],
  ◌∷◌, ◌++◌, if◌then◌else◌, length, length-append, All, arith,
}
use cso_fall.Clab.Tree.{Bytes, Tree, null, node, insert, alloc_node, strcmp, is_null}
use cso_fall.Clab.Tree.Strcmp.{Before, Before-trans, strcmp-eq, strcmp-gt}

-- The strings from left to right, and the rule that every node has one.
unfoldable pub strings : Tree → List Bytes
strings null = []
strings (node none left right) = []
strings (node (some t) left right) = strings left ++ t ∷ strings right

abbrev pub Filled : Tree → Type 0
Filled null = Unit
Filled (node none left right) = ⊥
Filled (node (some t) left right) = Filled left × Filled right

abbrev pub Increasing : List Bytes → Type 0
Increasing [] = Unit
Increasing (x ∷ xs) = All (Before x) xs × Increasing xs

unfoldable pub insert_sorted : Bytes → List Bytes → List Bytes
insert_sorted s [] = s ∷ []
insert_sorted s (x ∷ xs) =
    let rest = insert_sorted s xs in
    elim (strcmp x s) [ Ordering.lt ↦ x ∷ rest | Ordering.eq ↦ x ∷ xs | Ordering.gt ↦ s ∷ x ∷ xs ]

-- The ways of a comparison.
strcmp-cases :
    (s t : Bytes)
    → (strcmp s t ≡ Ordering.lt) ⊎ (strcmp s t ≡ Ordering.eq) ⊎ (strcmp s t ≡ Ordering.gt)
strcmp-cases s t = cases (strcmp s t)
  where
    cases : (o : Ordering) → (o ≡ Ordering.lt) ⊎ (o ≡ Ordering.eq) ⊎ (o ≡ Ordering.gt)
    cases Ordering.lt = inl refl
    cases Ordering.eq = inr (inl refl)
    cases Ordering.gt = inr (inr refl)

-- The parts of an increasing list.
Increasing-append :
    (xs : List Bytes) (t : Bytes) (ys : List Bytes)
    → Increasing (xs ++ t ∷ ys)
    → All (λ x. Before x t) xs × Increasing xs × All (Before t) ys × Increasing ys
Increasing-append [] t ys h = (tt, tt, h.0, h.1)
Increasing-append (x ∷ xs) t ys h =
    let (before, left, after, right) = Increasing-append xs t ys h.1 in
    let (first, at_t) = front xs h.0 in ((at_t, before), (first, left), after, right)
  where
    front : (xs : List Bytes) → All (Before x) (xs ++ t ∷ ys) → All (Before x) xs × Before x t
    front [] a = (tt, a.0)
    front (y ∷ xs) a = ((a.0, (front xs a.1).0), (front xs a.1).1)

-- Into which part an insertion goes.
insert_sorted_left :
    (s t : Bytes) (xs ys : List Bytes)
    → strcmp t s ≡ Ordering.gt
    → insert_sorted s (xs ++ t ∷ ys) ≡ insert_sorted s xs ++ t ∷ ys
unfolding insert_sorted
insert_sorted_left s t [] ys e = rw (e, insert_sorted) refl
insert_sorted_left s t (x ∷ xs) ys e = elim (strcmp-cases x s) [
  | inl f ↦ rw (f, insert_sorted) (ap (λ zs. x ∷ zs) (insert_sorted_left s t xs ys e))
  | inr (inl f) ↦ rw (f, insert_sorted) refl
  | inr (inr f) ↦ rw (f, insert_sorted) refl
]

insert_sorted_right :
    (s t : Bytes) (xs ys : List Bytes)
    → strcmp t s ≡ Ordering.lt
    → All (λ x. Before x t) xs
    → insert_sorted s (xs ++ t ∷ ys) ≡ xs ++ t ∷ insert_sorted s ys
unfolding insert_sorted
insert_sorted_right s t [] ys e before = rw (e, insert_sorted) refl
insert_sorted_right s t (x ∷ xs) ys e before =
    rw (Before-trans x t s before.0 e, insert_sorted)
      (ap (λ zs. x ∷ zs) (insert_sorted_right s t xs ys e before.1))

insert_sorted_here :
    (s t : Bytes) (xs ys : List Bytes)
    → strcmp t s ≡ Ordering.eq
    → All (λ x. Before x t) xs
    → insert_sorted s (xs ++ t ∷ ys) ≡ xs ++ t ∷ ys
unfolding insert_sorted
insert_sorted_here s t [] ys e before = rw (e, insert_sorted) refl
insert_sorted_here s t (x ∷ xs) ys e before =
    let first : strcmp x s ≡ Ordering.lt = subst (Before x) (strcmp-eq t s e) before.0 in
    rw (first, insert_sorted) (ap (λ zs. x ∷ zs) (insert_sorted_here s t xs ys e before.1))

-- The specification keeps a list increasing.
All-insert_sorted :
    (x s : Bytes) (xs : List Bytes)
    → Before x s
    → All (Before x) xs
    → All (Before x) (insert_sorted s xs)
unfolding insert_sorted
All-insert_sorted x s [] b a = (b, tt)
All-insert_sorted x s (y ∷ xs) b a = elim (strcmp-cases y s) [
  | inl f ↦ rw (f, insert_sorted) (a.0, All-insert_sorted x s xs b a.1)
  | inr (inl f) ↦ rw (f, insert_sorted) a
  | inr (inr f) ↦ rw (f, insert_sorted) (b, a)
]

All-trans : (s y : Bytes) (xs : List Bytes) → Before s y → All (Before y) xs → All (Before s) xs
All-trans s y [] b a = tt
All-trans s y (x ∷ xs) b a = (Before-trans s y x b a.0, All-trans s y xs b a.1)

pub insert_sorted-Increasing :
    (s : Bytes) (xs : List Bytes) → Increasing xs → Increasing (insert_sorted s xs)
unfolding insert_sorted
insert_sorted-Increasing s [] h = (tt, tt)
insert_sorted-Increasing s (x ∷ xs) h = elim (strcmp-cases x s) [
  | inl f ↦
      rw (f, insert_sorted) (All-insert_sorted x s xs f h.0, insert_sorted-Increasing s xs h.1)
  | inr (inl f) ↦ rw (f, insert_sorted) h
  | inr (inr f) ↦
      rw (f, insert_sorted) ((strcmp-gt x s f, All-trans s x xs (strcmp-gt x s f) h.0), h)
]

length-insert_sorted : (s : Bytes) (xs : List Bytes) → length xs ≤ length (insert_sorted s xs)
unfolding insert_sorted
length-insert_sorted s [] = omega arith
length-insert_sorted s (x ∷ xs) = elim (strcmp-cases x s) [
  | inl f ↦ rw (f, insert_sorted) (omega (arith, length-insert_sorted s xs))
  | inr (inl f) ↦ rw (f, insert_sorted) (omega arith)
  | inr (inr f) ↦ rw (f, insert_sorted) (omega arith)
]

-- What a call of `insert` on the tree `t` is to give.
abbrev pub Inserts : Tree → Bytes → Option (ℕ × Tree) → Type 0
Inserts t s r =
    (c : ℕ) × (t' : Tree) × (r ≡ some (c, t'))
    × Filled t'
    × (strings t' ≡ insert_sorted s (strings t))
    × (c + length (strings t') ≡ length (strings t) + 1)

-- A call on a tree that may be empty, as the code makes it of a child.
abbrev child : Tree → Bytes → Option (ℕ × Tree)
child t s = if is_null t then some (0, alloc_node s) else insert t s

insert_left :
    (t s : Bytes) (left right : Tree)
    → strcmp t s ≡ Ordering.gt
    → insert (node (some t) left right) s
      ≡ (child left s >>= λ r. some (r.0, node (some t) r.1 right))
unfolding insert
insert_left t s null right e = rw (e, insert) refl
insert_left t s (node x l r) right e = rw (e, insert) refl

insert_right :
    (t s : Bytes) (left right : Tree)
    → strcmp t s ≡ Ordering.lt
    → insert (node (some t) left right) s
      ≡ (child right s >>= λ r. some (r.0, node (some t) left r.1))
unfolding insert
insert_right t s left null e = rw (e, insert) refl
insert_right t s left (node x l r) e = rw (e, insert) refl

insert_loop : (t : Tree) (s : Bytes) → Filled t → Increasing (strings t) → Inserts t s (child t s)
unfolding insert strings insert_sorted alloc_node
insert_loop null s filled inc = (0, alloc_node s, refl, (tt, tt), refl, refl)
insert_loop (node none left right) s filled inc = elim filled [ ]
insert_loop (node (some t) left right) s filled inc =
    let (before, inc_left, after, inc_right) =
      Increasing-append (strings left) t (strings right) inc in
    elim (strcmp-cases t s) [
      | inl e ↦
          let (c, new, run, filled', same, count) = insert_loop right s filled.1 inc_right in
          (
            c,
            node (some t) left new,
            insert_right t s left right e ∙ rw (run) refl,
            (filled.0, filled'),
            ap (λ zs. strings left ++ t ∷ zs) same
                ∙ sym (insert_sorted_right s t (strings left) (strings right) e before),
            omega (
              arith,
              count,
              length-append (strings left) (t ∷ strings new),
              length-append (strings left) (t ∷ strings right),
            ),
          )
      | inr (inl e) ↦ (
        1,
        node (some t) left right,
        rw (e, insert) refl,
        filled,
        sym (insert_sorted_here s t (strings left) (strings right) e before),
        omega arith,
      )
      | inr (inr e) ↦
          let (c, new, run, filled', same, count) = insert_loop left s filled.0 inc_left in
          (
            c,
            node (some t) new right,
            insert_left t s left right e ∙ rw (run) refl,
            (filled', filled.1),
            ap (λ zs. zs ++ t ∷ strings right) same
                ∙ sym (insert_sorted_left s t (strings left) (strings right) e),
            omega (
              arith,
              count,
              length-append (strings new) (t ∷ strings right),
              length-append (strings left) (t ∷ strings right),
            ),
          )
    ]

-- Into a tree whose nodes have strings in increasing order `insert` puts the string where a sorted
-- list without duplicates has it; the tree stays such a tree, and the result is 1 where the string
-- was there and 0 where it is new.
pub insert_lem :
    (t : Bytes) (left right : Tree) (s : Bytes)
    → Filled (node (some t) left right)
    → Increasing (strings (node (some t) left right))
    → (c : ℕ) × (t' : Tree) × (insert (node (some t) left right) s ≡ some (c, t'))
      × Filled t'
      × (strings t' ≡ insert_sorted s (strings (node (some t) left right)))
      × Increasing (strings t')
      × (c + length (strings t') ≡ length (strings (node (some t) left right)) + 1)
      × (c ≤ 1)
insert_lem t left right s filled inc =
    let (c, t', run, filled', same, count) = insert_loop (node (some t) left right) s filled inc in
    let grows = length-insert_sorted s (strings (node (some t) left right)) in
    (
      c,
      t',
      run,
      filled',
      same,
      subst Increasing (sym same)
          (insert_sorted-Increasing s (strings (node (some t) left right)) inc),
      count,
      omega (arith, count, grows, ap length same),
    )
