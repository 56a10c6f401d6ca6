-- ===== src/Threadlab/Primes.antt =====
-- is_prime and get_prime of threadlab/htable.c. An `int` that stays in range is a natural number.
pub mod Divisors
pub mod Search
use cso_fall.Common.{
  ℕ, zero, suc, ◌+◌, ◌-◌, ◌*◌, ◌/◌, ◌%◌, Bool, true, false, Option, none, some, leb, ◌==◌,
  if◌then◌else◌,
}

-- `for (i = 3; i < n; i += 2)`, on the number of rounds left: `(n - 2) / 2` of them.
prime_loop : ℕ → (i n : ℕ) → Bool
prime_loop zero i n = true
prime_loop (suc rounds) i n =
    let rest = prime_loop rounds (i + 2) n in if n % i == 0 then false else rest

unfoldable pub is_prime : ℕ → Bool
unfolding prime_loop
is_prime n = if leb n 3 then true else if n % 2 == 0 then false else prime_loop ((n - 2) / 2) 3 n

unfoldable pub factorial : ℕ → ℕ
factorial zero = 1
factorial (suc n) = suc n * factorial n

-- `while (1)`, on fuel.
get_prime_loop : ℕ → ℕ → Option ℕ
get_prime_loop zero n = none
get_prime_loop (suc fuel) n = elim (is_prime n) [
  | true ↦ some n
  | false ↦ get_prime_loop fuel (n + 1)
]

-- By Euclid's argument a prime lies above `min` and at most at `factorial min + 1`.
unfoldable pub get_prime : ℕ → Option ℕ
unfolding get_prime_loop
get_prime min = get_prime_loop (factorial min + 2) min
