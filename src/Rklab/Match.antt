-- ===== src/Rklab/Match.antt =====
-- The two matchers of rklab/rkgrep.c. A match returns the number of positions and what it stores in
-- `*first_match_ind`. Counters and indices are plain numbers: documents are shorter than 2 ^ 31.
pub mod Noted
pub mod Naive
pub mod RabinKarp
pub mod Compare
pub mod Negative
use cso_fall.Common.{
  ℕ, zero, suc, ◌+◌, ◌-◌, ◌≤◌, Bool, true, false, ◌&&◌, Option, none, some, ◌>>=◌, List, [], ◌∷◌, ℤ,
  pos, negsuc, ltb, leb, if◌then◌else◌, drop,
}
use cso_fall.Common.Int.{eqb_ℤ}
use cso_fall.Rklab.Text.{CString, char_at, at_end, strlength}
use cso_fall.Rklab.Hash.{rkhash_init, rkhash_next}

pub record MatchResult : Type 0 where
  pub count : ℕ
  pub first_match_ind : ℤ

abbrev pub result : ℕ → ℤ → MatchResult
result count first = record { count = count; first_match_ind = first }

-- `if (found) { if (*first_match_ind == -1) *first_match_ind = index; count++; }`
abbrev pub note_match : Bool → ℕ → MatchResult → MatchResult
note_match found index r =
    if found
    then result (r.count + 1)
        (if eqb_ℤ r.first_match_ind (negsuc 0) then pos index else r.first_match_ind)
    else r

-- The inner loop of `naive_substring_match`, on `pattmp`, `docsub` and `found`. Where `docsub` is at
-- the terminator the characters differ. The second half of its inner test, `pattmp != '\0'`,
-- compares the pointer with a null pointer, so it always holds.
naive_inner : CString → CString → Bool → Bool
naive_inner [] docsub found = found
naive_inner (p ∷ pattmp) [] found = false
naive_inner (p ∷ pattmp) (d ∷ docsub) found =
    if eqb_ℤ p d
    then (if at_end docsub && true then false else naive_inner pattmp docsub true)
    else false

naive_loop : CString → CString → ℕ → MatchResult → MatchResult
naive_loop pattern [] index r = r
naive_loop pattern (d ∷ doctmp) index r =
    naive_loop pattern doctmp (index + 1)
      (note_match (naive_inner pattern (d ∷ doctmp) false) index r)

unfoldable pub naive_substring_match : CString → CString → MatchResult
unfolding naive_inner naive_loop
naive_substring_match pattern doc = naive_loop pattern doc 0 (result 0 (negsuc 0))

-- The inner loop of `rk_substring_match`, which has no test for the end of the document.
rk_inner : CString → CString → Bool → Bool
rk_inner [] docsub found = found
rk_inner (p ∷ pattmp) [] found = false
rk_inner (p ∷ pattmp) (d ∷ docsub) found = if eqb_ℤ p d then rk_inner pattmp docsub true else false

-- `while (index <= doc_length - pattern_length)`, on fuel. The last round reads `doctmp[m]` too.
rk_loop :
    CString
    → (m n : ℕ) (pattern_hash h : ℤ) → (fuel : ℕ) → CString
    → ℕ
    → ℤ
    → MatchResult
    → Option MatchResult
rk_loop pattern m n pattern_hash h zero doctmp index doc_hash r = none
rk_loop pattern m n pattern_hash h (suc fuel) doctmp index doc_hash r =
    let found = eqb_ℤ pattern_hash doc_hash && rk_inner pattern doctmp false in
    let next = λ (leftmost rightmost : ℤ).
      rk_loop pattern m n pattern_hash h fuel (drop 1 doctmp) (index + 1)
        (rkhash_next doc_hash h leftmost rightmost) (note_match found index r) in
    let rest = char_at doctmp 0 >>= λ leftmost. char_at doctmp m >>= next leftmost in
    if leb index (n - m) then rest else some r

-- `rk_substring_match` behind the two calls of `strlength`.
rk_search : CString → CString → (pattern_length doc_length : ℕ) → Option MatchResult
rk_search pattern doc m n =
    let start = result 0 (negsuc 0) in
    let run = rkhash_init pattern m >>= λ (pattern_hash, _). rkhash_init doc m >>= λ (doc_hash, h).
    rk_loop pattern m n pattern_hash h (n + 2) doc 0 doc_hash start in
    if ltb n m then some start else run

unfoldable pub rk_substring_match : CString → CString → Option MatchResult
unfolding rk_inner rk_loop rk_search
rk_substring_match pattern doc = rk_search pattern doc (strlength pattern) (strlength doc)
