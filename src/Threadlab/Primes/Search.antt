-- ===== src/Threadlab/Primes/Search.antt =====
-- get_prime of threadlab/htable.c: its end, and the number that it finds.
use Prim.Native.Nat.{◌∣◌}
use cso_fall.Common.{
  ℕ, zero, suc, ◌+◌, ◌-◌, ◌*◌, ◌≤◌, ◌<◌, ◌≡◌, true, false, some, arith, Bool-cases, dec_lt,
  ℕ_discrete, inl, inr, subst,
}
use native.Mathlib.Nat.{
  dvd_refl, dvd_trans, dvd-add_iff_right, dvd-one, dvd-mul_right, dvd-mul_left_of_dvd, le_of_dvd,
}
use native.Mathlib.Decide.{dec_dvd}
use cso_fall.Threadlab.Primes.{is_prime, factorial, get_prime_loop, get_prime}
use cso_fall.Threadlab.Primes.Divisors.{IsPrime, is_prime-IsPrime}

smallest_divisor :
    (rounds k n : ℕ)
    → k + rounds ≡ n
    → 2 ≤ k
    → ((d : ℕ) → 2 ≤ d → d < k → ¬ (d ∣ n))
    → (p : ℕ) × IsPrime p × (p ∣ n)
smallest_divisor zero k n e lo none_below =
    let z : k ≡ n = omega arith in
    (n, (omega arith, λ d lo' hi. none_below d lo' (omega arith)), dvd_refl n)
smallest_divisor (suc rounds) k n e lo none_below = elim (dec_dvd k n) [
  | yes here ↦ (k, (lo, λ d lo' hi h. none_below d lo' hi (dvd_trans d h here)), here)
  | no not_here ↦ smallest_divisor rounds (k + 1) n (omega arith) (omega arith) (λ d lo' hi h.
      elim (dec_lt d k) [
        | yes below ↦ none_below d lo' below h
        | no above ↦ let z : d ≡ k = omega arith in not_here (subst (λ x. x ∣ n) z h)
      ])
]

pub IsPrime-divides : (n : ℕ) → 2 ≤ n → (p : ℕ) × IsPrime p × (p ∣ n)
IsPrime-divides n h =
    smallest_divisor (n - 2) 2 n (omega arith) (omega arith) (λ d lo hi _. absurd (omega arith))

divides-factorial : (d n : ℕ) → 1 ≤ d → d ≤ n → d ∣ factorial n
unfolding factorial
divides-factorial d zero lo hi = absurd (omega arith)
divides-factorial d (suc n) lo hi = elim (ℕ_discrete d (suc n)) [
  | yes last ↦
      subst (λ x. x ∣ suc n * factorial n) (omega arith) (dvd-mul_right (suc n) (factorial n))
  | no below ↦ dvd-mul_left_of_dvd d (divides-factorial d n lo (omega arith)) (suc n)
]

factorial_pos : (n : ℕ) → 0 < factorial n
unfolding factorial
factorial_pos zero = omega arith
factorial_pos (suc n) = let h = factorial_pos n in grind arith

-- Above every number there is a prime, and no further than its factorial and one.
IsPrime-above : (n : ℕ) → (p : ℕ) × IsPrime p × (n < p) × (p ≤ factorial n + 1)
IsPrime-above n =
    let f = factorial n in
    let f_pos = factorial_pos n in
    let (p, prime, h) =
      smallest_divisor (factorial n + 1 - 2) 2 (factorial n + 1) (omega arith) (omega arith)
        (λ d lo hi _. absurd (omega arith)) in
    (
      p,
      prime,
      elim (dec_lt n p) [
        | yes above ↦ above
        | no below ↦
            let one =
              (dvd-add_iff_right p (divides-factorial p n (omega (arith, prime.0)) (omega arith))).1
                h in
            let e = dvd-one.0 one in absurd (omega (arith, prime.0))
      ],
      le_of_dvd (omega arith) h,
    )

-- The first number from `n` on that `is_prime` accepts.
pub record IsFirst (n q : ℕ) : Type 0 where
  pub from_n : n ≤ q
  pub accepted : is_prime q ≡ true
  pub first : (d : ℕ) → n ≤ d → d < q → is_prime d ≡ false

get_prime_loop-IsFirst :
    (fuel n p : ℕ)
    → is_prime p ≡ true
    → n ≤ p
    → p < n + fuel
    → (q : ℕ) × (get_prime_loop fuel n ≡ some q) × IsFirst n q
unfolding get_prime_loop
get_prime_loop-IsFirst zero n p e lo hi = absurd (omega arith)
get_prime_loop-IsFirst (suc fuel) n p e lo hi = elim (Bool-cases (is_prime n)) [
  | inl here ↦ (
    n,
    rw (here, get_prime_loop),
    record { from_n = omega arith; accepted = here; first = λ d a b. absurd (omega arith) },
  )
  | inr not_here ↦
      let (q, run, found) =
        get_prime_loop-IsFirst fuel (n + 1) p e (apart n p e not_here lo) (omega arith) in
      (
        q,
        rw (not_here, get_prime_loop) run,
        record {
          from_n = omega (arith, found.from_n);
          accepted = found.accepted;
          first = λ d a b. elim (ℕ_discrete d n) [
            | yes same ↦ rw same not_here
            | no later ↦ found.first d (omega arith) b
          ];
        },
      )
]
  where
    apart : (n p : ℕ) → is_prime p ≡ true → is_prime n ≡ false → n ≤ p → n + 1 ≤ p
    apart n p a b lo = ground arith

-- `get_prime` returns, whatever it is given, and its result is the first number from there on that
-- `is_prime` accepts; from 2 on that is the first prime.
pub get_prime-IsFirst :
    (min : ℕ) → (q : ℕ) × (get_prime min ≡ some q) × IsFirst min q × (2 ≤ min → IsPrime q)
unfolding get_prime
get_prime-IsFirst min =
    let (p, prime, above, bound) = IsPrime-above min in
    let accepted = (is_prime-IsPrime p (omega (arith, prime.0))).1 prime in
    let (q, run, found) =
      get_prime_loop-IsFirst (factorial min + 2) min p accepted (omega arith) (omega arith) in
    (q, run, found, λ h. (is_prime-IsPrime q (omega (arith, found.from_n))).0 found.accepted)
