-- ===== src/Binarylab/Tests.antt =====
-- ex1, ex2 and ex4 at one input.
use cso_fall.Common.{◌≡◌, refl, [], ◌∷◌, pos, negsuc}
use cso_fall.Binarylab.{ex1, ex2, ex2_loop, ex4, ex4_nat}

ex1_3 : ex1 (pos 5) (negsuc 1) (pos 3) ≡ 1
unfolding ex1
ex1_3 = refl

-- "aba"
ex2_2 : ex2 (pos 97 ∷ pos 98 ∷ pos 97 ∷ []) ≡ 2
unfolding ex2 ex2_loop
ex2_2 = refl

ex4_13 : ex4 (pos 7) ≡ pos 13
unfolding ex4 ex4_nat
ex4_13 = refl
