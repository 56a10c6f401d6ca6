-- ===== src/Common/Sums.antt =====
-- Sums of the numbers of a function below a bound. The module models no code.
use Prim.Native.Nat.{ℕ, zero, suc, ◌+◌, ◌-◌, ◌≤◌, ◌<◌}
use mathlib.Core.Path.{◌≡◌, refl, sym, ap, ◌∙◌}
use native.Mathlib.Omega.{arith}
use native.Mathlib.Decide.{ℕ_discrete}
use mathlib.Core.Bool.{◌&&◌}
use cso_fall.Common.Tests.{to_nat, leb, ltb}

unfoldable pub sum_below : ℕ → (ℕ → ℕ) → ℕ
sum_below zero f = 0
sum_below (suc n) f = f n + sum_below n f

pub sum_below_mono :
    (n : ℕ) (f g : ℕ → ℕ) → ((i : ℕ) → i < n → f i ≤ g i) → sum_below n f ≤ sum_below n g
unfolding sum_below
sum_below_mono zero f g le = omega arith
sum_below_mono (suc n) f g le =
    let rest = sum_below_mono n f g (λ i lt. le i (omega (arith, lt))) in
    omega (arith, rest, le n (omega arith))

pub sum_below_eq :
    (n : ℕ) (f g : ℕ → ℕ) → ((i : ℕ) → i < n → f i ≡ g i) → sum_below n f ≡ sum_below n g
unfolding sum_below
sum_below_eq zero f g e = refl
sum_below_eq (suc n) f g e =
    let rest = sum_below_eq n f g (λ i lt. e i (omega (arith, lt))) in
    omega (arith, rest, e n (omega arith))

pub sum_below_zero : (n : ℕ) (f : ℕ → ℕ) → ((i : ℕ) → i < n → f i ≡ 0) → sum_below n f ≡ 0
unfolding sum_below
sum_below_zero zero f e = refl
sum_below_zero (suc n) f e =
    let rest = sum_below_zero n f (λ i lt. e i (omega (arith, lt))) in
    omega (arith, rest, e n (omega arith))

sum_below_add : (n : ℕ) (f g : ℕ → ℕ) → sum_below n (λ i. f i + g i) ≡ sum_below n f + sum_below n g
unfolding sum_below
sum_below_add zero f g = refl
sum_below_add (suc n) f g = omega (arith, sum_below_add n f g)

-- The order of two sums.
pub sum_below_swap :
    (n k : ℕ) (f : ℕ → ℕ → ℕ)
    → sum_below n (λ i. sum_below k (λ x. f i x)) ≡ sum_below k (λ x. sum_below n (λ i. f i x))
unfolding sum_below
sum_below_swap zero k f = sym (sum_below_zero k (λ x. 0) (λ x lt. refl))
sum_below_swap (suc n) k f =
    ap (λ s. sum_below k (f n) + s) (sum_below_swap n k f)
    ∙ sym (sum_below_add k (f n) (λ x. sum_below n (λ i. f i x)))

-- At most one of the numbers is above 0.
pub sum_below_single :
    (n : ℕ) (f : ℕ → ℕ)
    → ((i : ℕ) → i < n → f i ≤ 1)
    → ((i j : ℕ) → i < n → j < n → 0 < f i → 0 < f j → i ≡ j)
    → sum_below n f ≤ 1
unfolding sum_below
sum_below_single zero f le one = omega arith
sum_below_single (suc n) f le one = elim (ℕ_discrete (f n) 0) [
  | yes e ↦
      (let rest =
          sum_below_single n f (λ i lt. le i (omega (arith, lt)))
            (λ i j lt lt'. one i j (omega (arith, lt)) (omega (arith, lt'))) in
        omega (arith, rest, e))
  | no ne ↦
      (let others = sum_below_zero n f (λ i lt. elim (ℕ_discrete (f i) 0) [
        | yes e ↦ e
        | no ne' ↦ absurd (
            clash i lt
              (one n i (omega arith) (omega (arith, lt)) (omega (arith, ne)) (omega (arith, ne'))))
      ]) in
        omega (arith, others, le n (omega arith)))
]
  where
    clash : (i : ℕ) → i < n → n ≡ i → ⊥
    clash i lt e = omega (arith, lt, e)

-- One number of the function is another one.
pub sum_below_set :
    (n i x : ℕ) (f g : ℕ → ℕ)
    → i < n
    → g i ≡ x
    → ((j : ℕ) → (i ≡ j → ⊥) → g j ≡ f j)
    → sum_below n g + f i ≡ sum_below n f + x
unfolding sum_below
sum_below_set zero i x f g lt here there = absurd (omega (arith, lt))
sum_below_set (suc n) i x f g lt here there = elim (ℕ_discrete i n) [
  | yes e ↦
      (let rest = sum_below_eq n g f (λ j lt'. there j (λ e'. omega (arith, e, e', lt'))) in
        let old = ap f e in let new = ap g e in omega (arith, rest, old, new, here))
  | no ne ↦
      (let rest = sum_below_set n i x f g (omega (arith, lt, ne)) here there in
        omega (arith, rest, there n ne))
]

-- Whether `x` is one of the `m` numbers from `p` on.
abbrev pub interval : (p m x : ℕ) → ℕ
interval p m x = to_nat (leb p x && ltb x (p + m))

interval-length_lem : (n p m : ℕ) → sum_below n (interval p m) ≡ (n - p) - (n - (p + m))
unfolding sum_below
interval-length_lem zero p m = omega arith
interval-length_lem (suc n) p m = let rest = interval-length_lem n p m in ground (arith, rest)

pub sum_below-interval : (n p m : ℕ) → p + m ≤ n → sum_below n (interval p m) ≡ m
sum_below-interval n p m le = omega (arith, interval-length_lem n p m, le)

pub sum_below-interval-le : (n p m : ℕ) → sum_below n (interval p m) ≤ m
sum_below-interval-le n p m = omega (arith, interval-length_lem n p m)
