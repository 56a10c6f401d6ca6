-- ===== src/Clab/Tree/Strcmp.antt =====
-- The order that strcmp gives to strings.
use Prim.Native.Nat.{Ordering}
use cso_fall.Common.{◌≡◌, refl, [], ◌∷◌, arith}
use cso_fall.Clab.Tree.{Bytes, strcmp}

abbrev pub Before : Bytes → Bytes → Type 0
Before s t = strcmp s t ≡ Ordering.lt

pub strcmp_refl : (s : Bytes) → strcmp s s ≡ Ordering.eq
unfolding strcmp
strcmp_refl [] = refl
strcmp_refl (c ∷ s) = ground (arith, strcmp_refl s)

pub strcmp-eq : (s t : Bytes) → strcmp s t ≡ Ordering.eq → s ≡ t
unfolding strcmp
strcmp-eq [] [] e = refl
strcmp-eq [] (d ∷ t) e = ground arith
strcmp-eq (c ∷ s) [] e = ground arith
strcmp-eq (c ∷ s) (d ∷ t) e = grind (arith, strcmp-eq s t)

pub strcmp-gt : (s t : Bytes) → strcmp s t ≡ Ordering.gt → Before t s
unfolding strcmp
strcmp-gt [] [] e = ground arith
strcmp-gt [] (d ∷ t) e = ground arith
strcmp-gt (c ∷ s) [] e = refl
strcmp-gt (c ∷ s) (d ∷ t) e = grind (arith, strcmp-gt s t)

pub Before-trans : (s t u : Bytes) → Before s t → Before t u → Before s u
unfolding strcmp
Before-trans [] [] u e f = f
Before-trans [] (d ∷ t) [] e f = ground arith
Before-trans [] (d ∷ t) (x ∷ u) e f = refl
Before-trans (c ∷ s) [] u e f = ground arith
Before-trans (c ∷ s) (d ∷ t) [] e f = ground arith
Before-trans (c ∷ s) (d ∷ t) (x ∷ u) e f = grind (arith, Before-trans s t u)
