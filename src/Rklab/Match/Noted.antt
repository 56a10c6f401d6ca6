-- ===== src/Rklab/Match/Noted.antt =====
-- What a loop of rklab/rkgrep.c stores that walks the document and notes each match.
use cso_fall.Common.{ℕ, ◌+◌, ◌<◌, ◌≡◌, ap, Bool, [], ◌∷◌, ℤ, negsuc, if◌then◌else◌, arith, length}
use cso_fall.Common.Int.{eqb_ℤ, eqb_ℤ_iff}
use cso_fall.Rklab.Text.{CString, stands, count_at, first_at, count_at_short, first_at_short}
use cso_fall.Rklab.Match.{MatchResult, result, note_match}

-- What a loop stores that notes the positions at which `q` holds.
abbrev pub noted : (CString → Bool) → ℕ → CString → MatchResult → MatchResult
noted q index doc r =
    result (r.count + count_at q doc)
      (if eqb_ℤ r.first_match_ind (negsuc 0) then first_at q index doc else r.first_match_ind)

pub noted-cons :
    (q : CString → Bool) (index : ℕ) (d : ℤ) (ds : CString) (r : MatchResult)
    → noted q (index + 1) ds (note_match (q (d ∷ ds)) index r) ≡ noted q index (d ∷ ds) r
unfolding count_at first_at
noted-cons q index d ds r = ground arith

pub noted-nil : (q : CString → Bool) (index : ℕ) (r : MatchResult) → noted q index [] r ≡ r
unfolding count_at first_at
noted-nil q index r = ground (arith, eqb_ℤ_iff r.first_match_ind (negsuc 0))

-- Where the document is too short, nothing more is noted.
pub noted_short :
    (p : CString) (index : ℕ) (doc : CString) (r : MatchResult)
    → length doc < length p
    → noted (stands p) index doc r ≡ r
noted_short p index doc r h = ground (
  arith,
  count_at_short p doc h,
  first_at_short p index doc h,
  eqb_ℤ_iff r.first_match_ind (negsuc 0),
)

-- From the start, those at which the test holds.
pub noted_start :
    (q : CString → Bool) (doc : CString)
    → noted q 0 doc (result 0 (negsuc 0)) ≡ result (count_at q doc) (first_at q 0 doc)
noted_start q doc = ap (λ n. result n (first_at q 0 doc)) (omega arith)

-- All positions at which a pattern stands in a document, and the first of them (-1 if none).
abbrev pub all_matches : CString → CString → MatchResult
all_matches pattern doc = result (count_at (stands pattern) doc) (first_at (stands pattern) 0 doc)
