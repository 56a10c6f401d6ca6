-- ===== src/Binarylab/Laws.antt =====
-- What ex1 to ex5 of binarylab compute.
use mathlib.Core.Option.{none-ne-some, some-injective}
use mathlib.Core.Bool.{true≢false}
use cso_fall.Common.{
  ℕ, zero, suc, ◌+◌, ◌≤◌, ◌≡◌, ◌↔◌, inl, inr, refl, sym, ap, ◌∙◌, false, some, ◌>>=◌, List, [], ◌∷◌,
  ◌++◌, ℤ, pos, get_elem?, set, length, take, drop, arith, Bool-cases, Option-cases,
}
use cso_fall.Common.Int.{ltb_ℤ}
use cso_fall.Binarylab.{ex3, ex3_loop, ex4, ex4_nat, ex5}

-- The Fibonacci numbers, from two neighbours on.
unfoldable pub fibonacci_from : ℕ → ℕ → ℕ → ℕ
fibonacci_from zero a b = a
fibonacci_from (suc n) a b = fibonacci_from n b (a + b)

fibonacci_from-ex4_nat :
    (n k : ℕ) → fibonacci_from n (ex4_nat k) (ex4_nat (suc k)) ≡ ex4_nat (n + k)
unfolding fibonacci_from ex4_nat
fibonacci_from-ex4_nat zero k = ap ex4_nat (omega arith)
fibonacci_from-ex4_nat (suc n) k = fibonacci_from-ex4_nat n (suc k) ∙ ap ex4_nat (omega arith)

-- `ex4` gives the Fibonacci number, as the loop over two neighbours computes it.
pub ex4-fibonacci_from : (n : ℕ) → ex4 (pos n) ≡ pos (fibonacci_from n 0 1)
unfolding ex4 ex4_nat
ex4-fibonacci_from n = ap pos (ap ex4_nat (omega arith) ∙ sym (fibonacci_from-ex4_nat n 0))

-- Every element is at most the next.
pub NonDecreasing : List ℤ → Type 0
NonDecreasing xs =
    (i : ℕ) (x y : ℤ) → get_elem? xs i ≡ some x → get_elem? xs (suc i) ≡ some y → ltb_ℤ y x ≡ false

-- `ex5` is 1 exactly for a list in which no element is smaller than the one before it.
pub ex5_iff : (xs : List ℤ) → (ex5 xs ≡ 1) ↔ NonDecreasing xs
unfolding ex5 NonDecreasing
ex5_iff [] = ((λ e i x y a b. absurd (none-ne-some x a)), λ h. refl)
ex5_iff (v ∷ []) = ((λ e i x y a b. absurd (none-ne-some y b)), λ h. refl)
ex5_iff (v ∷ w ∷ xs) = elim (Bool-cases (ltb_ℤ w v)) [
  | inl less ↦ (
    (λ e. absurd (zero_one (rw (less) at e))),
    λ h. absurd (true≢false (sym less ∙ h 0 v w refl refl)),
  )
  | inr le ↦ (
    (λ e. later le ((ex5_iff (w ∷ xs)).0 (rw (le) at e))),
    λ h. rw (le) ((ex5_iff (w ∷ xs)).1 (λ i x y a b. h (suc i) x y a b)),
  )
]
  where
    zero_one : ◌≡◌ {A = ℕ} 0 1 → ⊥
    zero_one e = omega arith

    later : ltb_ℤ w v ≡ false → NonDecreasing (w ∷ xs) → NonDecreasing (v ∷ w ∷ xs)
    later le h zero x y a b = rw (some-injective v x a, some-injective w y b) at le
    later le h (suc i) x y a b = h i x y a b

-- The rounds do not look at the first bytes.
ex3_loop-tail :
    (b i : ℕ) (x y : ℤ) (rd rs : List ℤ)
    → ex3_loop b (suc i) (x ∷ rd) (y ∷ rs) ≡ (ex3_loop b i rd rs >>= λ r. some (x ∷ r.0, y ∷ r.1))
unfolding ex3_loop
ex3_loop-tail zero i x y rd rs = refl
ex3_loop-tail (suc b) i x y rd rs = elim (Option-cases (get_elem? rd i)) [
  | inl e ↦ rw (e) refl
  | inr (c, e) ↦ elim (Option-cases (get_elem? rs i)) [
    | inl f ↦ rw (e, f) refl
    | inr (d, f) ↦ rw (e, f) (ex3_loop-tail b (suc i) x y (set rd i d) (set rs i c))
  ]
]

-- Where both arrays have at least `b` bytes, `ex3` swaps their first `b` bytes and touches no other.
ex3_lem :
    (b : ℕ) (rd rs : List ℤ)
    → b ≤ length rd
    → b ≤ length rs
    → ex3 rd rs (pos b) ≡ some (take b rs ++ drop b rd, take b rd ++ drop b rs)
unfolding ex3 ex3_loop
ex3_lem zero rd rs d s = refl
ex3_lem (suc b) [] rs d s = absurd (omega arith)
ex3_lem (suc b) (x ∷ rd) [] d s = absurd (omega arith)
ex3_lem (suc b) (x ∷ rd) (y ∷ rs) d s =
    ex3_loop-tail b 0 y x rd rs
    ∙ ap (λ o. o >>= λ r. some (y ∷ r.0, x ∷ r.1)) (ex3_lem b rd rs (omega arith) (omega arith))
