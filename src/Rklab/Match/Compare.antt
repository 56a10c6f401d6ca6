-- ===== src/Rklab/Match/Compare.antt =====
-- Where the two matchers differ.
use cso_fall.Common.{ℕ, ◌+◌, ◌≡◌, some, List, ◌∙◌, sym, arith, to_nat}
use cso_fall.Rklab.Text.{chars, is_suffix, count_at-stands}
use cso_fall.Rklab.Match.{MatchResult, naive_substring_match, rk_substring_match}
use cso_fall.Rklab.Match.Naive.{naive_substring_match_lem}
use cso_fall.Rklab.Match.RabinKarp.{rk_substring_match_lem}

-- For a pattern and a document of nonnegative characters, where rk_substring_match returns a
-- result: its count is that of naive_substring_match, and one more where the document ends with the
-- pattern.
pub naive-rk_count :
    (pattern doc : List ℕ) {r : MatchResult}
    → rk_substring_match (chars pattern) (chars doc) ≡ some r
    → r.count
      ≡ (naive_substring_match (chars pattern) (chars doc)).count
        + to_nat (is_suffix (chars pattern) (chars doc))
naive-rk_count pattern doc e =
    let p = chars pattern in
    let d = chars doc in
    let known = sym (rk_substring_match_lem pattern doc) ∙ e in
    rw (naive_substring_match_lem p d) (ground (arith, known, count_at-stands p d))
