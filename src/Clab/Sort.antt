-- ===== src/Clab/Sort.antt =====
-- clab/mini/part2.c: swap and bubble_sort. A pointer `arr + i` is the list of the elements from there
-- on, so `n` is the length of the list.
pub mod Laws
use cso_fall.Common.{
  ℕ, zero, suc, ◌+◌, Bool, Option, none, some, List, [], ◌∷◌, ℤ, if◌then◌else◌, ◌==◌, to_nat,
}
use cso_fall.Common.Int.{ltb_ℤ}

-- The two variables behind the pointers, as the call leaves them.
abbrev pub swap : ℤ → ℤ → ℤ × ℤ
swap p1 p2 = (p2, p1)

-- The first loop.
unfoldable pub pass : List ℤ → List ℤ
pass [] = []
pass (x ∷ []) = x ∷ []
pass (x ∷ y ∷ arr) = let (x', y') = if ltb_ℤ y x then swap x y else (x, y) in x' ∷ pass (y' ∷ arr)

-- The second loop.
unfoldable pub mistakes : List ℤ → ℕ
mistakes [] = 0
mistakes (x ∷ []) = 0
mistakes (x ∷ y ∷ arr) = to_nat (ltb_ℤ y x) + mistakes (y ∷ arr)

-- `while (inorder != 1)`, on fuel.
unfoldable pub sort_loop : ℕ → List ℤ → Option (List ℤ)
sort_loop zero arr = none
sort_loop (suc fuel) arr =
    let arr' = pass arr in
    let rest = sort_loop fuel arr' in if mistakes arr' == 0 then some arr' else rest

-- Every pass but the last removes an inversion.
unfoldable pub less : ℤ → List ℤ → ℕ
less x [] = 0
less x (y ∷ arr) = to_nat (ltb_ℤ y x) + less x arr

unfoldable pub inversions : List ℤ → ℕ
inversions [] = 0
inversions (x ∷ arr) = less x arr + inversions arr

unfoldable pub bubble_sort : List ℤ → Option (List ℤ)
bubble_sort arr = sort_loop (inversions arr + 1) arr
