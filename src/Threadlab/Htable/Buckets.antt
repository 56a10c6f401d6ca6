-- ===== src/Threadlab/Htable/Buckets.antt =====
-- The whole table as one chain, and the rule that every node stands in its slot's chain.
use mathlib.Core.Option.{none-ne-some, some-injective}
use cso_fall.Common.{
  ℕ, zero, suc, ◌+◌, ◌≤◌, ◌<◌, ◌≡◌, ◌≢◌, inl, inr, refl, sym, ap, subst, ◌∙◌, some, List, [], ◌∷◌,
  ◌++◌, ℤ, get_elem?, set, arith, Bool-cases, All, replicate,
}
use cso_fall.Common.Int.{eqb_ℤ, eqb_ℤ_iff}
use cso_fall.Common.Text.{CString}
use cso_fall.Threadlab.Htable.{Node, Chain, find, slot_of}
use cso_fall.Threadlab.Htable.Chain.{
  count, or_else, find-append, count-append, count-zero, or_else-middle, or_else-none,
}

module _ {ℓ} {V : Type ℓ} where
  abbrev pub flatten : List (Chain V) → Chain V
  flatten [] = []
  flatten (c ∷ store) = c ++ flatten store

  -- The node's hash code belongs to slot `i` of a table of `size` slots.
  abbrev pub InSlot : ℕ → ℕ → Node V → Type 0
  InSlot size i n = slot_of n.hashcode size ≡ some i

  -- From slot `i` on, every node stands in its slot.
  abbrev pub Placed : ℕ → ℕ → List (Chain V) → Type ℓ
  Placed size i [] = Unit
  Placed size i (c ∷ store) = All (InSlot size i) c × Placed size (i + 1) store

  pub get-Placed :
      (size i j : ℕ) (store : List (Chain V)) (c : Chain V)
      → Placed size i store
      → get_elem? store j ≡ some c
      → All (InSlot size (i + j)) c
  get-Placed size i j [] c p e = absurd (none-ne-some c e)
  get-Placed size i zero (d ∷ store) c p e =
      subst (λ x. All (InSlot size x) c) (omega arith)
        (subst (All (InSlot size i)) (some-injective d c e) p.0)
  get-Placed size i (suc j) (d ∷ store) c p e =
      subst (λ x. All (InSlot size x) c) (omega arith) (get-Placed size (i + 1) j store c p.1 e)

  pub set-Placed :
      (size i j : ℕ) (store : List (Chain V)) (c : Chain V)
      → Placed size i store
      → All (InSlot size (i + j)) c
      → Placed size i (set store j c)
  set-Placed size i j [] c p a = p
  set-Placed size i zero (d ∷ store) c p a =
      (subst (λ x. All (InSlot size x) c) (omega arith) a, p.1)
  set-Placed size i (suc j) (d ∷ store) c p a = (
    p.0,
    set-Placed size (i + 1) j store c p.1 (subst (λ x. All (InSlot size x) c) (omega arith) a),
  )

  pub All-append :
      (size i : ℕ) (c d : Chain V)
      → All (InSlot size i) c
      → All (InSlot size i) d
      → All (InSlot size i) (c ++ d)
  All-append size i [] d p q = q
  All-append size i (n ∷ c) d p q = (p.0, All-append size i c d p.1 q)

  -- In a slot that is not the key's, nothing matches.
  count-other :
      (size i j : ℕ) (h : ℤ) (k : CString) (c : Chain V)
      → All (InSlot size i) c
      → slot_of h size ≡ some j
      → i ≢ j
      → count h k c ≡ 0
  unfolding count
  count-other size i j h k [] p e ne = refl
  count-other size i j h k (n ∷ c) p e ne = elim (Bool-cases (eqb_ℤ n.hashcode h)) [
    | inl y ↦ absurd (
        ne (
          some-injective i j
            (sym p.0 ∙ ap (λ x. slot_of x size) ((eqb_ℤ_iff n.hashcode h).0 y) ∙ e)))
    | inr y ↦ rw (y) (omega (arith, count-other size i j h k c p.1 e ne))
  ]

  count-flatten :
      (size i j : ℕ) (h : ℤ) (k : CString) (store : List (Chain V))
      → Placed size i store
      → slot_of h size ≡ some j
      → j < i
      → count h k (flatten store) ≡ 0
  unfolding count
  count-flatten size i j h k [] p e lt = refl
  count-flatten size i j h k (c ∷ store) p e lt = omega (
    arith,
    count-append h k c (flatten store),
    count-other size i j h k c p.0 e (omega arith),
    count-flatten size (i + 1) j h k store p.1 e (omega arith),
  )

  -- A search of the key's chain is a search of the whole table.
  pub find-flatten :
      (size i j : ℕ) (h : ℤ) (k : CString) (store : List (Chain V)) (c : Chain V)
      → Placed size i store
      → slot_of h size ≡ some (i + j)
      → get_elem? store j ≡ some c
      → find h k (flatten store) ≡ find h k c
  find-flatten size i j h k [] c p e get = absurd (none-ne-some c get)
  find-flatten size i zero h k (d ∷ store) c p e get =
      find-append h k d (flatten store)
      ∙ ap (or_else (find h k d)) (
          count-zero h k (flatten store)
            (count-flatten size (i + 1) i h k store p.1 (e ∙ ap some (omega arith)) (omega arith)))
      ∙ sym (or_else-none (find h k d))
      ∙ ap (find h k) (some-injective d c get)
  find-flatten size i (suc j) h k (d ∷ store) c p e get =
      find-append h k d (flatten store)
      ∙ ap (λ o. or_else o (find h k (flatten store)))
          (count-zero h k d (count-other size i (i + suc j) h k d p.0 e (omega arith)))
      ∙ find-flatten size (i + 1) j h k store c p.1 (e ∙ ap some (omega arith)) get

  -- A chain that gains a node is the table that gains it, if no key then occurs twice.
  pub add-flatten :
      (h : ℤ) (k : CString) (n : Node V) (store : List (Chain V)) (j : ℕ) (c c' : Chain V)
      → get_elem? store j ≡ some c
      → find h k c' ≡ find h k (n ∷ c)
      → count h k c' ≡ count h k (n ∷ c)
      → count h k (n ∷ flatten store) ≤ 1
      → (find h k (flatten (set store j c')) ≡ find h k (n ∷ flatten store))
        × (count h k (flatten (set store j c')) ≡ count h k (n ∷ flatten store))
  unfolding count find
  add-flatten h k n [] j c c' get f g one = absurd (none-ne-some c get)
  add-flatten h k n (d ∷ store) zero c c' get f g one = (
    find-append h k c' (flatten store)
        ∙ ap (λ o. or_else o (find h k (flatten store)))
            (f ∙ ap (λ x. find h k (n ∷ x)) (some-injective c d (sym get)))
        ∙ sym (find-append h k (n ∷ d) (flatten store)),
    count-append h k c' (flatten store)
        ∙ ap (λ m. m + count h k (flatten store))
            (g ∙ ap (λ x. count h k (n ∷ x)) (some-injective c d (sym get)))
        ∙ sym (count-append h k (n ∷ d) (flatten store)),
  )
  add-flatten h k n (d ∷ store) (suc j) c c' get f g one =
      let sum = count-append h k d (flatten store) in
      let (found, counted) = add-flatten h k n store j c c' get f g (omega (arith, one, sum)) in
      (
        find-append h k d (flatten (set store j c'))
            ∙ ap (or_else (find h k d)) found
            ∙ or_else-middle h k n d (flatten store) (omega (arith, one, sum)),
        omega (arith, count-append h k d (flatten (set store j c')), sum, counted),
      )

pub replicate-Placed {ℓ} : (V : Type ℓ) (size i n : ℕ) → Placed {V = V} size i (replicate n [])
replicate-Placed V size i zero = tt
replicate-Placed V size i (suc n) = (tt, replicate-Placed V size (i + 1) n)

pub flatten-replicate {ℓ} : (V : Type ℓ) (n : ℕ) → flatten {V = V} (replicate n []) ≡ []
flatten-replicate V zero = refl
flatten-replicate V (suc n) = flatten-replicate V n
