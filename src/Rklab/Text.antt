-- ===== src/Rklab/Text.antt =====
-- The length of a string in rklab/rkgrep.c, and what it means for a pattern to stand in a document.
pub use cso_fall.Common.Text.{CString, at_end, chars}
unfoldable pub use cso_fall.Common.Text.{char_at}
use cso_fall.Common.{
  ℕ, ltb, ◌==◌, length, arith, ◌+◌, ◌<◌, ◌≤◌, ◌||◌, ◌≡◌, refl, Bool, true, false, ◌&&◌, [], ◌∷◌, ℤ,
  pos, negsuc, to_nat, if◌then◌else◌,
}
use cso_fall.Common.Int.{eqb_ℤ}

strlength_loop : CString → ℕ → ℕ
strlength_loop [] count = count
strlength_loop (c ∷ tmp) count = strlength_loop tmp (count + 1)

unfoldable pub strlength : CString → ℕ
unfolding strlength_loop
strlength pattern = strlength_loop pattern 0

-- The document, from here on, begins with the pattern.
unfoldable pub is_prefix : CString → CString → Bool
is_prefix [] d = true
is_prefix (p ∷ ps) [] = false
is_prefix (p ∷ ps) (d ∷ ds) = eqb_ℤ p d && is_prefix ps ds

-- The pattern stands here. The empty pattern stands nowhere.
abbrev pub stands : CString → CString → Bool
stands [] d = false
stands (p ∷ ps) d = is_prefix (p ∷ ps) d

-- The pattern stands here, and the document goes on behind it.
abbrev pub stands_inside : CString → CString → Bool
stands_inside p d = stands p d && ltb (length p) (length d)

-- The document, from here on, is the pattern.
abbrev pub stands_last : CString → CString → Bool
stands_last p d = stands p d && length p == length d

-- At how many positions of the document the test holds of what follows.
unfoldable pub count_at : (CString → Bool) → CString → ℕ
count_at q [] = 0
count_at q (d ∷ ds) = to_nat (q (d ∷ ds)) + count_at q ds

-- The first of those positions, counted from `i`, or -1.
unfoldable pub first_at : (CString → Bool) → ℕ → CString → ℤ
first_at q i [] = negsuc 0
first_at q i (d ∷ ds) = if q (d ∷ ds) then pos i else first_at q (i + 1) ds

pub strlength_lem : (w : CString) → strlength w ≡ length w
unfolding strlength
strlength_lem w = omega (arith, loop w 0)
  where
    loop : (w : CString) (k : ℕ) → strlength_loop w k ≡ k + length w
    loop [] k = omega arith
    loop (c ∷ w) k = omega (arith, loop w (k + 1))

-- The document ends with the (nonempty) pattern.
unfoldable pub is_suffix : CString → CString → Bool
is_suffix p [] = false
is_suffix p (d ∷ ds) = stands_last p (d ∷ ds) || is_suffix p ds

pub length_of_prefix : (p d : CString) → is_prefix p d ≡ true → length p ≤ length d
unfolding is_prefix
length_of_prefix [] d h = omega arith
length_of_prefix (p ∷ ps) [] h = cc
length_of_prefix (p ∷ ps) (d ∷ ds) h = ground (arith, length_of_prefix ps ds)

pub length_of_stands : (p d : CString) → stands p d ≡ true → length p ≤ length d
length_of_stands [] d h = omega arith
length_of_stands (p ∷ ps) d h = length_of_prefix (p ∷ ps) d h

length_of_suffix : (p d : CString) → is_suffix p d ≡ true → length p ≤ length d
unfolding is_suffix
length_of_suffix p [] h = cc
length_of_suffix p (d ∷ ds) h = ground (arith, length_of_suffix p ds)

-- A position at which the pattern stands is inside the document, or it is the one at its end.
pub count_at-stands :
    (p d : CString) → count_at (stands p) d ≡ count_at (stands_inside p) d + to_nat (is_suffix p d)
unfolding count_at is_suffix
count_at-stands p [] = refl
count_at-stands p (d ∷ ds) =
    ground (arith, count_at-stands p ds, length_of_suffix p ds, length_of_stands p (d ∷ ds))

-- A text that is too short holds the pattern nowhere.
pub count_at_short : (p d : CString) → length d < length p → count_at (stands p) d ≡ 0
unfolding count_at
count_at_short p [] h = refl
count_at_short p (d ∷ ds) h = ground (arith, count_at_short p ds, length_of_stands p (d ∷ ds))

pub first_at_short :
    (p : CString) (i : ℕ) (d : CString) → length d < length p → first_at (stands p) i d ≡ negsuc 0
unfolding first_at
first_at_short p i [] h = refl
first_at_short p i (d ∷ ds) h =
    ground (arith, first_at_short p (i + 1) ds, length_of_stands p (d ∷ ds))
