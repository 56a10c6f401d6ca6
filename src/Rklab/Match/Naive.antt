-- ===== src/Rklab/Match/Naive.antt =====
-- What `naive_substring_match` counts.
use cso_fall.Common.{
  ℕ, suc, ◌+◌, ◌≡◌, refl, sym, ap, ◌∙◌, true, false, ◌&&◌, [], ◌∷◌, ℤ, negsuc, ltb, arith, length,
}
use cso_fall.Rklab.Text.{CString, is_prefix, stands_inside, count_at, first_at}
use cso_fall.Rklab.Match.Noted.{noted, noted-cons, noted-nil, noted_start}
use cso_fall.Rklab.Match.{
  MatchResult, result, note_match, naive_inner, naive_loop, naive_substring_match,
}

inner-inside :
    (p : CString) (d : ℤ) (ds : CString)
    → naive_inner p (d ∷ ds) true ≡ (is_prefix p (d ∷ ds) && ltb (length p) (suc (length ds)))
unfolding naive_inner is_prefix
inner-inside [] d ds = ground arith
inner-inside (p ∷ ps) d [] = ground arith
inner-inside (p ∷ ps) d (e ∷ ds) = ground (arith, inner-inside ps e ds)

inner-stands_inside :
    (p : CString) (d : ℤ) (ds : CString) → naive_inner p (d ∷ ds) false ≡ stands_inside p (d ∷ ds)
unfolding naive_inner is_prefix
inner-stands_inside [] d ds = refl
inner-stands_inside (p ∷ ps) d [] = ground arith
inner-stands_inside (p ∷ ps) d (e ∷ ds) = ground (arith, inner-inside ps e ds)

naive_loop-noted :
    (p doc : CString) (index : ℕ) (r : MatchResult)
    → naive_loop p doc index r ≡ noted (stands_inside p) index doc r
unfolding naive_loop
naive_loop-noted p [] index r = sym (noted-nil (stands_inside p) index r)
naive_loop-noted p (d ∷ ds) index r =
    naive_loop-noted p ds (index + 1) _
    ∙ ap (λ b. noted (stands_inside p) (index + 1) ds (note_match b index r))
        (inner-stands_inside p d ds)
    ∙ noted-cons (stands_inside p) index d ds r

-- `naive_substring_match` reports the positions at which the pattern stands inside the document:
-- how many they are, and the first (-1 if there is none).
pub naive_substring_match_lem :
    (pattern doc : CString)
    → naive_substring_match pattern doc
      ≡ result (count_at (stands_inside pattern) doc) (first_at (stands_inside pattern) 0 doc)
unfolding naive_substring_match
naive_substring_match_lem pattern doc =
    naive_loop-noted pattern doc 0 (result 0 (negsuc 0)) ∙ noted_start (stands_inside pattern) doc
