-- ===== src/Clab/Sieve/Divisor.antt =====
-- find_smallest_divisor of clab/mini/part3.c.
use Prim.Native.Nat.{◌∣◌}
use native.Mathlib.Nat.{dvd_of_mod-eq-zero, mod-eq-zero_of_dvd, le_of_dvd, dvd_trans}
use mathlib.Core.Bool.{true≢false}
use cso_fall.Common.{
  ℕ, zero, suc, ◌+◌, ◌-◌, ◌%◌, ◌≤◌, ◌<◌, ◌≡◌, ◌⊎◌, inl, inr, refl, sym, ◌∙◌, Bool, true, false,
  ◌&&◌, some, List, get_elem?, length, arith, Bool-cases, ◌==◌, ==_iff, ℕ_discrete, dec_lt,
}
use cso_fall.Threadlab.Primes.Divisors.{IsPrime}
use cso_fall.Threadlab.Primes.Search.{IsPrime-divides}
use cso_fall.Clab.Sieve.{divisor_loop, find_smallest_divisor}
use cso_fall.Clab.Sieve.Marks.{Sieved, prime_number_sieves-IsPrime}

-- The test of the loop: `i` is a prime divisor of `n`.
test_iff :
    (sieve : List ℕ) (n i : ℕ)
    → Sieved (n + 1) sieve
    → 2 ≤ i
    → i < n
    → (v : ℕ) × ((get_elem? sieve i ≡ some v)
        × ((((v == 1) && (n % i == 0) ≡ true) × IsPrime i × (i ∣ n))
            ⊎ (((v == 1) && (n % i == 0) ≡ false) × ¬ (IsPrime i × (i ∣ n)))))
test_iff sieve n i sieved low high = elim (sieved i low (omega (arith, high))) [
  | inl (prime, e) ↦ (
    1,
    (
      e,
      elim (Bool-cases (n % i == 0)) [
        | inl y ↦ inl (rw (y) refl, prime, dvd_of_mod-eq-zero i ((==_iff (n % i) 0).0 y))
        | inr y ↦ inr (
          rw (y) refl,
          λ h. true≢false (sym ((==_iff (n % i) 0).1 (mod-eq-zero_of_dvd i h.1)) ∙ y),
        )
      ],
    ),
  )
  | inr ((d, d_low, d_high, v), e) ↦ (0, (e, inr (refl, λ h. h.0.1 d d_low d_high v)))
]

-- The smallest prime divisor of `n` that is less than `n`.
pub record IsSmallest (n d : ℕ) : Type 0 where
  pub prime : IsPrime d
  pub divides : d ∣ n
  pub smallest : (e : ℕ) → IsPrime e → e ∣ n → d ≤ e

divisor_loop-IsSmallest :
    (rounds i n divisor : ℕ) (sieve : List ℕ)
    → Sieved (n + 1) sieve
    → 2 ≤ i
    → i + rounds ≡ n
    → ((e : ℕ) → e < i → ¬ (IsPrime e × (e ∣ n)))
    → (d : ℕ) × ((divisor_loop rounds i n sieve divisor ≡ some d)
        × ((IsSmallest n d × (d < n))
            ⊎ ((d ≡ divisor) × ((e : ℕ) → e < n → ¬ (IsPrime e × (e ∣ n))))))
unfolding divisor_loop
divisor_loop-IsSmallest zero i n divisor sieve sieved low fits below =
    (divisor, (refl, inr (refl, λ e lt. below e (omega arith))))
divisor_loop-IsSmallest (suc rounds) i n divisor sieve sieved low fits below =
    let (v, (read, test)) = test_iff sieve n i sieved low (omega (arith, fits)) in
    elim test [
      | inl (y, prime, h) ↦ (
        i,
        (
          rw (read, y) refl,
          inl (
            record { prime = prime; divides = h; smallest = λ e p v. not_below e (below e) (p, v) },
            omega (arith, fits),
          ),
        ),
      )
      | inr (y, h) ↦
          (let (d, (run, found)) =
              divisor_loop-IsSmallest rounds (i + 1) n divisor sieve sieved (omega (arith, low))
                (omega (arith, fits))
                (λ e lt. elim (ℕ_discrete e i) [
                  | yes same ↦ rw same h
                  | no other ↦ below e (omega (arith, lt, other))
                ]) in
            (d, (rw (read, y) run, found)))
    ]
  where
    not_below : (e : ℕ) → (e < i → ¬ (IsPrime e × (e ∣ n))) → IsPrime e × (e ∣ n) → i ≤ e
    not_below e h p = elim (dec_lt e i) [ yes lt ↦ absurd (h lt p) | no le ↦ omega arith ]

-- A number is a prime for which nothing is stored, or composite with its smallest prime divisor.
abbrev pub Told : (n divisor : ℕ) → Bool → ℕ → Type 0
Told n divisor composite d =
    (IsPrime n × (composite ≡ false) × (d ≡ divisor))
    ⊎ (¬ IsPrime n × (composite ≡ true) × (d < n) × IsSmallest n d)

-- Of a number from 2 on, and a new array with more elements than the number, find_smallest_divisor reads and
-- writes inside the array and returns whether the number is composite. For a composite number it stores the
-- smallest prime divisor, for a prime nothing.
pub find_smallest_divisor-IsSmallest :
    (memory : List ℕ) (n divisor : ℕ)
    → n < length memory
    → 2 ≤ n
    → (composite : Bool) × (d : ℕ) × ((find_smallest_divisor memory n divisor ≡ some (composite, d))
        × Told n divisor composite d)
unfolding find_smallest_divisor
find_smallest_divisor-IsSmallest memory n divisor room low =
    let (sieve, (made, sieved, size, kept)) =
      prime_number_sieves-IsPrime memory (n + 1) (omega (arith, room)) in
    let (d, (run, found)) =
      divisor_loop-IsSmallest (n - 2) 2 n divisor sieve sieved (omega arith) (omega (arith, low))
        (λ e lt p. absurd (omega (arith, lt, p.0.0))) in
    elim (sieved n low (omega arith)) [
      | inl (prime, e) ↦ (
        false,
        d,
        (
          rw (made, run, e) refl,
          elim found [
            | inl (least, lt) ↦ absurd (prime.1 d least.prime.0 lt least.divides)
            | inr (same, none_below) ↦ inl (prime, refl, same)
          ],
        ),
      )
      | inr ((c, c_low, c_high, v), e) ↦ (
        true,
        d,
        (
          rw (made, run, e) refl,
          elim found [
            | inl (least, lt) ↦ inr ((λ p. p.1 c c_low c_high v), refl, lt, least)
            | inr (same, none_below) ↦
                (let (p, prime, h) = IsPrime-divides c c_low in
                  absurd (
                    none_below p (omega (arith, c_high, le_of_dvd (omega (arith, c_low)) h))
                      (prime, dvd_trans p h v)))
          ],
        ),
      )
    ]
