-- ===== src/Binarylab.antt =====
-- binarylab: the C functions that replace ex1 to ex5. An `int` that stays in range is an integer.
pub mod Laws
mod Tests
use cso_fall.Common.{
  ℕ, zero, suc, ◌+◌, ◌-◌, Bool, true, false, Option, none, some, ◌>>=◌, List, [], ◌∷◌, ℤ, pos,
  negsuc, ltb, if◌then◌else◌, get_elem?, set,
}
use cso_fall.Common.Int.{◌+ℤ◌, eqb_ℤ, ltb_ℤ}
use cso_fall.Common.Text.{CString}

unfoldable pub ex1 : ℤ → ℤ → ℤ → ℕ
ex1 a b c = if eqb_ℤ c (b +ℤ a) then 1 else 0

-- `while (*tmp != '\0')`
unfoldable pub ex2_loop : CString → ℕ → ℕ
ex2_loop [] count = count
ex2_loop (c ∷ tmp) count = ex2_loop tmp (if eqb_ℤ c (pos 97) then count + 1 else count)

unfoldable pub ex2 : CString → ℕ
ex2 ptr = ex2_loop ptr 0

-- `while (index < b)`, on the number of rounds left, over the bytes of both arrays; `none` where an
-- index is out of bounds.
unfoldable pub ex3_loop : ℕ → ℕ → List ℤ → List ℤ → Option (List ℤ × List ℤ)
ex3_loop zero index rd rs = some (rd, rs)
ex3_loop (suc rounds) index rd rs = get_elem? rd index >>= λ tmp.
    get_elem? rs index >>= λ c. ex3_loop rounds (suc index) (set rd index c) (set rs index tmp)

-- A negative `b` is no round.
unfoldable pub ex3 : List ℤ → List ℤ → ℤ → Option (List ℤ × List ℤ)
ex3 rd rs (pos b) = ex3_loop b 0 rd rs
ex3 rd rs (negsuc b) = some (rd, rs)

unfoldable pub ex4_nat : ℕ → ℕ
ex4_nat zero = 0
ex4_nat (suc zero) = 1
ex4_nat (suc (suc rd)) = ex4_nat rd + ex4_nat (suc rd)

unfoldable pub ex4 : ℤ → ℤ
ex4 (pos rd) = pos (ex4_nat rd)
ex4 (negsuc rd) = negsuc rd

-- `while (temp->next != NULL)`, on the list that starts at `temp`
unfoldable pub ex5 : List ℤ → ℕ
ex5 [] = 1
ex5 (value ∷ []) = 1
ex5 (value ∷ next ∷ list) = let rest = ex5 (next ∷ list) in if ltb_ℤ next value then 0 else rest
