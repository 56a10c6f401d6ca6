-- ===== src/Threadlab/Primes/Divisors.antt =====
-- is_prime of threadlab/htable.c: divisors and primes.
use Prim.Native.Nat.{◌∣◌}
use cso_fall.Common.{
  ℕ, zero, suc, ◌+◌, ◌-◌, ◌*◌, ◌/◌, ◌%◌, ◌≤◌, ◌<◌, ◌≡◌, ◌↔◌, ◌⊎◌, true, false, ◌==◌, arith,
  Bool-cases, dec_le, ℕ_discrete, ==_iff, inl, inr, gt→leb, subst,
}
use native.Mathlib.Nat.{dvd_of_mod-eq-zero, mod-eq-zero_of_dvd, dvd_trans}
use cso_fall.Threadlab.Primes.{prime_loop, is_prime}

-- No number from 2 up to, and without, `n` divides it.
abbrev pub IsPrime : ℕ → Type 0
IsPrime n = (2 ≤ n) × ((d : ℕ) → 2 ≤ d → d < n → ¬ (d ∣ n))

divides : (d n : ℕ) → (n % d == 0) ≡ true → d ∣ n
divides d n e = dvd_of_mod-eq-zero d ((==_iff (n % d) 0).0 e)

divides_not : (d n : ℕ) → (n % d == 0) ≡ false → ¬ (d ∣ n)
divides_not d n e h = let z = mod-eq-zero_of_dvd d h in ground arith

-- The loop tests `i`, `i + 2`, `i + 4`, ….
loop-true : (rounds i n k : ℕ) → prime_loop rounds i n ≡ true → k < rounds → ¬ (i + 2 * k ∣ n)
unfolding prime_loop
loop-true zero i n k e lt h = absurd (omega arith)
loop-true (suc rounds) i n zero e lt h =
    let z : i + 2 * 0 ≡ i = omega arith in divides_not i n (ground arith) (subst (λ d. d ∣ n) z h)
loop-true (suc rounds) i n (suc k) e lt h =
    let z : i + 2 * suc k ≡ i + 2 + 2 * k = omega arith in
    loop-true rounds (i + 2) n k (ground arith) (omega arith) (subst (λ d. d ∣ n) z h)

loop-false :
    (rounds i n : ℕ) → prime_loop rounds i n ≡ false → (k : ℕ) × (k < rounds) × (i + 2 * k ∣ n)
unfolding prime_loop
loop-false zero i n e = cc
loop-false (suc rounds) i n e = elim (Bool-cases (n % i == 0)) [
  | inl hit ↦
      let z : i ≡ i + 2 * 0 = omega arith in
      (0, omega arith, subst (λ d. d ∣ n) z (divides i n hit))
  | inr miss ↦
      let (k, lt, h) = loop-false rounds (i + 2) n (ground arith) in
      let z : i + 2 + 2 * k ≡ i + 2 * suc k = omega arith in
      (suc k, omega arith, subst (λ d. d ∣ n) z h)
]

no_divisor : (n d : ℕ) → is_prime n ≡ true → 2 ≤ d → d < n → ¬ (d ∣ n)
unfolding is_prime
no_divisor n d e lo hi h = elim (dec_le n 3) [
  | yes small ↦
      let two : d ≡ 2 = omega arith in
      let three : n ≡ 3 = omega arith in
      let z : n % 2 ≡ 0 = mod-eq-zero_of_dvd 2 (subst (λ x. x ∣ n) two h) in absurd (omega arith)
  | no large ↦ elim (ℕ_discrete (d % 2) 0) [
    | yes even ↦
        let z = mod-eq-zero_of_dvd 2 (dvd_trans 2 (dvd_of_mod-eq-zero 2 even) h) in
        ground (arith, gt→leb n 3)
    | no odd ↦
        let k = (d - 3) / 2 in
        let z : d ≡ 3 + 2 * k = omega arith in
        loop-true ((n - 2) / 2) 3 n k (ground (arith, gt→leb n 3)) (omega arith)
          (subst (λ x. x ∣ n) z h)
  ]
]

some_divisor : (n : ℕ) → is_prime n ≡ false → (d : ℕ) × (2 ≤ d) × (d < n) × (d ∣ n)
unfolding is_prime
some_divisor n e = elim (Bool-cases (n % 2 == 0)) [
  | inl even ↦ (2, omega arith, ground arith, divides 2 n even)
  | inr odd ↦
      let (k, lt, h) = loop-false ((n - 2) / 2) 3 n (ground arith) in
      (3 + 2 * k, omega arith, ground arith, h)
]

-- `is_prime` says of a number from 2 on whether it is prime.
pub is_prime-IsPrime : (n : ℕ) → 2 ≤ n → (is_prime n ≡ true) ↔ IsPrime n
is_prime-IsPrime n h = (
  (λ e. (h, λ d lo hi. no_divisor n d e lo hi)),
  λ p. elim (Bool-cases (is_prime n)) [
    | inl e ↦ e
    | inr e ↦ let (d, lo, hi, v) = some_divisor n e in absurd (p.1 d lo hi v)
  ],
)

pub prime_or_divisor : (n : ℕ) → 2 ≤ n → IsPrime n ⊎ ((d : ℕ) × (2 ≤ d) × (d < n) × (d ∣ n))
prime_or_divisor n h = elim (Bool-cases (is_prime n)) [
  | inl e ↦ inl ((is_prime-IsPrime n h).0 e)
  | inr e ↦ inr (some_divisor n e)
]
