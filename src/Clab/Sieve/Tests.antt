-- ===== src/Clab/Sieve/Tests.antt =====
-- The sieve below 10, and the theorems at one input.
use cso_fall.Common.{
  ℕ, ◌≤◌, ◌≡◌, refl, arith, Bool, true, none, some, length, List, [], ◌∷◌, get_elem?, replicate,
}
use cso_fall.Clab.Sieve.{
  init_loop, initialize_array, mark_loop, mark_multiples, sieve_loop, prime_number_sieves,
  divisor_loop, find_smallest_divisor,
}
use cso_fall.Clab.Sieve.Marks.{Sieved, prime_number_sieves-IsPrime}
use cso_fall.Clab.Sieve.Divisor.{Told, find_smallest_divisor-IsSmallest}

sieve_10 :
    prime_number_sieves (replicate 10 7) 10 ≡ some (1 ∷ 1 ∷ 1 ∷ 1 ∷ 0 ∷ 1 ∷ 0 ∷ 1 ∷ 0 ∷ 0 ∷ [])
unfolding prime_number_sieves sieve_loop mark_multiples mark_loop initialize_array init_loop
sieve_10 = refl

-- An array that is too short is written past its end.
sieve_short : prime_number_sieves (replicate 9 7) 10 ≡ none
unfolding prime_number_sieves initialize_array init_loop
sieve_short = refl

prime_number_sieves-IsPrime_example :
    (sieve : List ℕ) × ((prime_number_sieves (replicate 10 7) 10 ≡ some sieve)
      × Sieved 10 sieve
      × (length sieve ≡ 10)
      × ((k : ℕ) → 10 ≤ k → get_elem? sieve k ≡ get_elem? (replicate 10 7) k))
prime_number_sieves-IsPrime_example = prime_number_sieves-IsPrime (replicate 10 7) 10 (omega arith)

abbrev memory : List ℕ
memory = replicate 22 7

find_21 : find_smallest_divisor memory 21 0 ≡ some (true, 3)
unfolding find_smallest_divisor divisor_loop prime_number_sieves sieve_loop mark_multiples mark_loop
    initialize_array init_loop
find_21 = refl

find_smallest_divisor-IsSmallest_example :
    (composite : Bool) × (d : ℕ) × ((find_smallest_divisor memory 21 0 ≡ some (composite, d))
      × Told 21 0 composite d)
find_smallest_divisor-IsSmallest_example =
    find_smallest_divisor-IsSmallest memory 21 0 (omega arith) (omega arith)
