-- ===== src/Clab/Sieve.antt =====
-- clab/mini/part3.c: the sieve of Eratosthenes and the smallest divisor. The result is `none` where the code
-- reads or writes outside of the array.
pub mod Marks
pub mod Divisor
mod Tests
use cso_fall.Common.{
  ℕ, zero, suc, ◌+◌, ◌-◌, ◌*◌, ◌%◌, Bool, true, false, ◌&&◌, Option, none, some, ◌>>=◌, List, [],
  ◌∷◌, ltb, ◌==◌, if◌then◌else◌, set, get_elem?, length,
}

-- `*(arr + i) = v`
abbrev pub write_element : List ℕ → (i v : ℕ) → Option (List ℕ)
write_element arr i v = if ltb i (length arr) then some (set arr i v) else none

-- `for (i = 0; i < n; i++)`, on the number of rounds left
unfoldable pub init_loop : ℕ → ℕ → List ℕ → Option (List ℕ)
init_loop zero i arr = some arr
init_loop (suc rounds) i arr = write_element arr i 1 >>= init_loop rounds (i + 1)

unfoldable pub initialize_array : List ℕ → ℕ → Option (List ℕ)
initialize_array arr n = init_loop n 0 arr

-- `for (i = 2; i < n; i++)`
unfoldable pub mark_loop : ℕ → (i n p : ℕ) → List ℕ → Option (List ℕ)
mark_loop zero i n p arr = some arr
mark_loop (suc rounds) i n p arr =
    let rest = write_element arr (i * p) 0 >>= mark_loop rounds (i + 1) n p in
    if ltb (i * p) n then rest else some arr

unfoldable pub mark_multiples : List ℕ → ℕ → ℕ → Option (List ℕ)
mark_multiples arr n p = mark_loop (n - 2) 2 n p arr

unfoldable pub sieve_loop : ℕ → (i n : ℕ) → List ℕ → Option (List ℕ)
sieve_loop zero i n arr = some arr
sieve_loop (suc rounds) i n arr = mark_multiples arr n i >>= sieve_loop rounds (i + 1) n

unfoldable pub prime_number_sieves : List ℕ → ℕ → Option (List ℕ)
prime_number_sieves arr n = initialize_array arr n >>= sieve_loop (n - 2) 2 n

-- The last loop of `find_smallest_divisor`: the variable behind `divisor`, as the loop leaves it.
unfoldable pub divisor_loop : ℕ → (i n : ℕ) → List ℕ → ℕ → Option ℕ
divisor_loop zero i n sieve divisor = some divisor
divisor_loop (suc rounds) i n sieve divisor =
    let rest = divisor_loop rounds (i + 1) n sieve divisor in
    get_elem? sieve i >>= λ v. if (v == 1) && (n % i == 0) then some i else rest

-- `memory` is the new array with its content. The result and `*divisor`.
unfoldable pub find_smallest_divisor : (memory : List ℕ) → ℕ → ℕ → Option (Bool × ℕ)
find_smallest_divisor memory n divisor = prime_number_sieves memory (n + 1) >>= λ sieve.
    divisor_loop (n - 2) 2 n sieve divisor >>= λ d. get_elem? sieve n >>= λ v. some (v == 0, d)
