-- ===== src/Rklab/Match/Negative.antt =====
-- What rk_substring_match does with a character below 0.
use cso_fall.Common.{
  ℕ, zero, suc, ◌+◌, ◌-◌, ◌*◌, ◌%◌, ◌≤◌, ◌<◌, ◌≡◌, ◌∙◌, refl, Option, some, List, [], ◌∷◌, ◌++◌, ℤ,
  pos, negsuc, arith, length, ltb, false, drop, le→leb, gt→leb, length-append,
}
use cso_fall.Rklab.Text.{CString, chars, char_at, stands, is_prefix, count_at, strlength_lem}
use cso_fall.Rklab.Hash.{prime, madd, msub, mmul, rkhash_init, rkhash_next}
use cso_fall.Rklab.Hash.Rolling.{value, hash_of, weight, rkhash_init-value, rkhash_next-value}
use cso_fall.Rklab.Match.{MatchResult, result, rk_loop, rk_search, rk_substring_match}
use cso_fall.Rklab.Match.RabinKarp.{length-chars}

long : (size : ℕ) → 1 ≤ size → ltb size 1 ≡ false
long size h = ground arith

module _ (n : ℕ) where
  -- The pattern, and a document of nonnegative characters and the pattern.
  abbrev negative : CString
  negative = negsuc n ∷ []

  abbrev then_negative : List ℕ → CString
  then_negative w = chars w ++ negative

  abbrev run_loop : (size fuel : ℕ) → CString → ℕ → ℤ → MatchResult → Option MatchResult
  run_loop size fuel = rk_loop negative 1 size (negsuc n) (weight 1) fuel

  -- A window whose hash is not negative is passed over.
  rk_loop_miss :
      (size fuel : ℕ) (doc : CString) (index x : ℕ) (l c : ℤ) (r : MatchResult)
      → index ≤ size - 1
      → char_at doc 0 ≡ some l
      → char_at doc 1 ≡ some c
      → run_loop size (suc fuel) doc index (pos x) r
        ≡ run_loop size fuel (drop 1 doc) (index + 1) (rkhash_next (pos x) (weight 1) l c) r
  unfolding rk_loop
  rk_loop_miss size fuel doc index x l c r h left right =
      rw (le→leb index (size - 1) h, left, right) refl

  level : (a b : ℕ) → n < 128 → a ≡ b → madd (msub (pos a) (pos b)) (negsuc n) ≡ pos (prime - suc n)
  unfolding madd msub
  level a b h e = ground (arith, h, e)

  -- The character that leaves adds the prime before the negative one is added.
  rkhash_next_negative :
      (c : ℕ)
      → n < 128
      → rkhash_next (hash_of (c ∷ [])) (weight 1) (pos c) (negsuc n) ≡ pos (prime - suc n)
  unfolding rkhash_next value mmul
  rkhash_next_negative c h =
      level (256 * (value (c ∷ []) % prime) % prime) (c * 256 % prime) h (omega arith)

  -- At the character below 0, the last.
  rk_loop_ends :
      (size fuel : ℕ) (index : ℕ) (r : MatchResult)
      → 1 < fuel
      → index + 1 ≡ size
      → run_loop size fuel negative index (pos (prime - suc n)) r ≡ some r
  unfolding char_at rk_loop
  rk_loop_ends size zero index r few at = absurd (omega arith)
  rk_loop_ends size (suc zero) index r few at = absurd (omega arith)
  rk_loop_ends size (suc (suc fuel)) index r few at =
      rk_loop_miss size (suc fuel) negative index (prime - suc n) (negsuc n) (pos 0) r
        (omega (arith, at)) refl refl
      ∙ rw (gt→leb (size - 1) (index + 1) (omega (arith, at))) refl

  rk_loop_misses :
      (size fuel : ℕ) (c : ℕ) (w : List ℕ) (index : ℕ) (r : MatchResult)
      → n < 128
      → length w + 2 < fuel
      → index + length w + 2 ≡ size
      → run_loop size fuel (then_negative (c ∷ w)) index (hash_of (c ∷ [])) r ≡ some r
  unfolding char_at
  rk_loop_misses size zero c w index r h few at = absurd (omega arith)
  rk_loop_misses size (suc fuel) c (d ∷ w) index r h few at =
      rk_loop_miss size fuel _ index _ (pos c) (pos d) r (omega (arith, at)) refl refl
      ∙ rw (rkhash_next-value c d [])
          (rk_loop_misses size fuel d w (index + 1) r h (omega arith) (omega (arith, at)))
  rk_loop_misses size (suc fuel) c [] index r h few at =
      rk_loop_miss size fuel _ index _ (pos c) (negsuc n) r (omega (arith, at)) refl refl
      ∙ rw (rkhash_next_negative c h)
          (rk_loop_ends size fuel (index + 1) r (omega (arith, few)) (omega (arith, at)))

  count_at-then_negative : (w : List ℕ) → count_at (stands negative) (then_negative w) ≡ 1
  unfolding count_at is_prefix
  count_at-then_negative [] = ground arith
  count_at-then_negative (c ∷ w) = omega (arith, count_at-then_negative w)

  rkhash_init-negative : n < 128 → rkhash_init negative 1 ≡ some (negsuc n, weight 1)
  unfolding rkhash_init char_at mmul madd
  rkhash_init-negative h = ground (arith, h)

  rkhash_init-then_negative :
      (c : ℕ) (w : List ℕ)
      → rkhash_init (then_negative (c ∷ w)) 1 ≡ some (hash_of (c ∷ []), weight 1)
  unfolding rkhash_init char_at
  rkhash_init-then_negative c w = rkhash_init-value (c ∷ []) 1 (omega arith)

  rk_search-negative :
      (c : ℕ) (w : List ℕ) (size : ℕ)
      → n < 128
      → size ≡ length w + 2
      → rk_search negative (then_negative (c ∷ w)) 1 size ≡ some (result 0 (negsuc 0))
  unfolding rk_search
  rk_search-negative c w size h e =
      rw
        (
          rkhash_init-negative h,
          rkhash_init-then_negative c w,
          rk_loop_misses size (size + 2) c w 0 (result 0 (negsuc 0)) h (omega (arith, e))
              (omega (arith, e)),
          long size (omega (arith, e)),
        )
        refl

  length-then_negative : (w : List ℕ) → length (then_negative w) ≡ length w + 1
  length-then_negative w = omega (arith, length-append (chars w) negative, length-chars w)

-- In a document of nonnegative characters, one at least, and then a character from -128 to -1, the
-- pattern of this one character stands once, and rk_substring_match counts 0 and stores -1.
pub rk_negative_char :
    (c : ℕ) (w : List ℕ) (n : ℕ)
    → n < 128
    → let p : CString = negsuc n ∷ [] in
      let d : CString = chars (c ∷ w) ++ p in
      (rk_substring_match p d ≡ some (result 0 (negsuc 0))) × (count_at (stands p) d ≡ 1)
unfolding rk_substring_match
rk_negative_char c w n h = (
  rw (strlength_lem (negsuc n ∷ []), strlength_lem (then_negative n (c ∷ w)))
      (rk_search-negative n c w _ h (omega (arith, length-then_negative n (c ∷ w)))),
  count_at-then_negative n (c ∷ w),
)
