-- ===== src/Threadlab/Htable/Chain.antt =====
-- What a chain holds under a key, and how many of its nodes match.
use cso_fall.Common.{
  ℕ, ◌+◌, ◌≤◌, ◌≡◌, ◌⊎◌, ◌↔◌, inl, inr, refl, sym, ap, ◌∙◌, Bool, true, ◌&&◌, Option, none, some,
  [], ◌∷◌, ◌++◌, ℤ, arith, to_nat, Bool-cases,
}
use mathlib.Core.Option.{some-ne-none}
use cso_fall.Common.Int.{eqb_ℤ, eqb_ℤ_iff}
use cso_fall.Common.Text.{CString}
use cso_fall.Threadlab.Htable.{Node, Chain, is_match, find, str_eq}

-- `strcmp` finds no difference exactly between equal strings.
pub str_eq_iff : (s t : CString) → (str_eq s t ≡ true) ↔ (s ≡ t)
unfolding str_eq
str_eq_iff [] [] = (λ e. refl, λ e. refl)
str_eq_iff [] (d ∷ t) = ground arith
str_eq_iff (c ∷ s) [] = ground arith
str_eq_iff (c ∷ s) (d ∷ t) = grind (arith, str_eq_iff s t, eqb_ℤ_iff c d)

nat_cases : (n : ℕ) → (n ≡ 0) ⊎ (1 ≤ n)
nat_cases n = omega arith

and_parts : (a b : Bool) → a && b ≡ true → (a ≡ true) × (b ≡ true)
and_parts a b e = ground arith

module _ {ℓ} {V : Type ℓ} where
  abbrev pub or_else : Option V → Option V → Option V
  or_else none o = o
  or_else (some v) o = some v

  unfoldable pub count : ℤ → CString → Chain V → ℕ
  count h k [] = 0
  count h k (n ∷ c) = to_nat (is_match h k n) + count h k c

  pub find-append :
      (h : ℤ) (k : CString) (c d : Chain V) → find h k (c ++ d) ≡ or_else (find h k c) (find h k d)
  unfolding find
  find-append h k [] d = refl
  find-append h k (n ∷ c) d = elim (Bool-cases (is_match h k n)) [
    | inl e ↦ rw (e) refl
    | inr e ↦ rw (e) (find-append h k c d)
  ]

  pub count-append :
      (h : ℤ) (k : CString) (c d : Chain V) → count h k (c ++ d) ≡ count h k c + count h k d
  unfolding count
  count-append h k [] d = omega arith
  count-append h k (n ∷ c) d = omega (arith, count-append h k c d)

  -- No match is found exactly where none is counted.
  pub count-zero : (h : ℤ) (k : CString) (c : Chain V) → count h k c ≡ 0 → find h k c ≡ none
  unfolding find count
  count-zero h k [] e = refl
  count-zero h k (n ∷ c) e = elim (Bool-cases (is_match h k n)) [
    | inl y ↦ absurd (omega (arith, e, ap to_nat y))
    | inr y ↦ rw (y) (count-zero h k c (omega (arith, e)))
  ]

  pub find-none : (h : ℤ) (k : CString) (c : Chain V) → find h k c ≡ none → count h k c ≡ 0
  unfolding find count
  find-none h k [] e = refl
  find-none h k (n ∷ c) e = elim (Bool-cases (is_match h k n)) [
    | inl y ↦ absurd (some-ne-none n.val (rw (y) at e))
    | inr y ↦ rw (y) (omega (arith, find-none h k c (rw (y) at e)))
  ]

  pub or_else-none : (o : Option V) → o ≡ or_else o none
  or_else-none none = refl
  or_else-none (some v) = refl

  pub or_else_assoc : (a b c : Option V) → or_else a (or_else b c) ≡ or_else (or_else a b) c
  or_else_assoc none b c = refl
  or_else_assoc (some v) b c = refl

  -- At most one match: the order of the parts does not matter.
  pub or_else_comm :
      (h : ℤ) (k : CString) (c d : Chain V)
      → count h k c + count h k d ≤ 1
      → or_else (find h k c) (find h k d) ≡ or_else (find h k d) (find h k c)
  or_else_comm h k c d one = elim (nat_cases (count h k c)) [
    | inl e ↦ rw (count-zero h k c e) (or_else-none (find h k d))
    | inr e ↦ rw (count-zero h k d (omega arith)) (sym (or_else-none (find h k c)))
  ]

  pub or_else-middle :
      (h : ℤ) (k : CString) (n : Node V) (c d : Chain V)
      → count h k (n ∷ c) ≤ 1
      → or_else (find h k c) (find h k (n ∷ d)) ≡ find h k (n ∷ c ++ d)
  unfolding find count
  or_else-middle h k n c d one = elim (Bool-cases (is_match h k n)) [
    | inl y ↦ rw (y, count-zero h k c (omega (arith, one, ap to_nat y))) refl
    | inr y ↦ rw (y) (sym (find-append h k c d))
  ]

  -- A key that a node matches.
  pub is_match-eq :
      (h : ℤ) (k : CString) (n : Node V) → is_match h k n ≡ true → (n.hashcode ≡ h) × (n.key ≡ k)
  is_match-eq h k n e =
      let (same, equal) = and_parts (eqb_ℤ n.hashcode h) (str_eq n.key k) e in
      ((eqb_ℤ_iff n.hashcode h).0 same, (str_eq_iff n.key k).0 equal)

  pub is_match_refl :
      (h : ℤ) (k : CString) (v : V)
      → is_match h k (record { hashcode = h; key = k; val = v }) ≡ true
  is_match_refl h k v = rw ((eqb_ℤ_iff h h).1 refl, (str_eq_iff k k).1 refl) refl

  -- At the end of a chain or at its front: the same search, if the new key was not there.
  pub append-front :
      (h : ℤ) (k : CString) (n : Node V) (c : Chain V)
      → (is_match h k n ≡ true → find h k c ≡ none)
      → (find h k (c ++ n ∷ []) ≡ find h k (n ∷ c)) × (count h k (c ++ n ∷ []) ≡ count h k (n ∷ c))
  unfolding find count
  append-front h k n c absent = (
    find-append h k c (n ∷ []) ∙ elim (Bool-cases (is_match h k n)) [
      | inl y ↦ rw (absent y, y) refl
      | inr y ↦ rw (y) (sym (or_else-none (find h k c)))
    ],
    omega (arith, count-append h k c (n ∷ [])),
  )
