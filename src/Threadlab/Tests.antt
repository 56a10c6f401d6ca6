-- ===== src/Threadlab/Tests.antt =====
-- Runs of the primes and the hash code of threadlab/htable.c, and their theorems at one input.
use cso_fall.Common.{ℕ, ◌≤◌, ◌≡◌, ◌↔◌, refl, arith, some, List, [], ◌∷◌, pos, true}
use cso_fall.Common.Text.{chars}
use cso_fall.Threadlab.Primes.{is_prime, get_prime, factorial}
use cso_fall.Threadlab.Primes.Divisors.{IsPrime, is_prime-IsPrime}
use cso_fall.Threadlab.Primes.Search.{IsFirst, get_prime-IsFirst}
use cso_fall.Threadlab.Hash.{hashcode, madd, mmul}

-- "ab"
abbrev ab : List ℕ
ab = 97 ∷ 98 ∷ []

hashcode_ab : hashcode (chars ab) ≡ pos 24930
unfolding hashcode madd mmul
hashcode_ab = refl

get_prime_4 : get_prime 4 ≡ some 5
unfolding get_prime is_prime factorial
get_prime_4 = refl

is_prime-IsPrime_example : (is_prime 9 ≡ true) ↔ IsPrime 9
is_prime-IsPrime_example = is_prime-IsPrime 9 (omega arith)

get_prime-IsFirst_example : (q : ℕ) × (get_prime 8 ≡ some q) × IsFirst 8 q × (2 ≤ 8 → IsPrime q)
get_prime-IsFirst_example = get_prime-IsFirst 8
