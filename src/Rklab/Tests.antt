-- ===== src/Rklab/Tests.antt =====
-- The matchers and the filter on concrete texts, and the theorems at inputs that meet their premises.
use cso_fall.Common.{
  ℕ, ◌+◌, ◌<◌, ◌≡◌, ◌↔◌, refl, Bool, true, some, List, [], ◌∷◌, pos, negsuc, arith, to_nat,
  replicate,
}
use cso_fall.Rklab.Text.{
  CString, chars, char_at, strlength, stands, stands_inside, is_suffix, count_at, first_at,
}
use cso_fall.Rklab.Hash.{rkhash_init, rkhash_next}
use cso_fall.Rklab.Hash.Rolling.{hash_of, weight, rkhash_next-value}
use cso_fall.Rklab.Bloom.Laws.{IsFilter, Adds, bloom_add-Adds, bloom_query_iff}
use cso_fall.Rklab.Bloom.Bits.{bit_at}
use cso_fall.Rklab.Bloom.Positions.{position}
use cso_fall.Rklab.Match.{MatchResult, result, naive_substring_match, rk_substring_match}
use cso_fall.Rklab.Match.Noted.{all_matches}
use cso_fall.Rklab.Match.Naive.{naive_substring_match_lem}
use cso_fall.Rklab.Match.RabinKarp.{rk_substring_match_lem}
use cso_fall.Rklab.Match.Compare.{naive-rk_count}
use cso_fall.Rklab.Match.Negative.{rk_negative_char}
use cso_fall.Rklab.Bloom.{
  BloomFilter, bloom_init, bloom_pos, set_bit, bloom_add, bloom_bit_at_pos, bloom_query,
}
use cso_fall.Rklab.Index.{rk_create_doc_bloom, rk_substring_match_using_bloom}
use cso_fall.Rklab.Index.Lookup.{Answers, rk_substring_match_using_bloom_lem}

-- "ab" and "cabxab"
abbrev ab : List ℕ
ab = b'a' ∷ b'b' ∷ []

abbrev cabxab : List ℕ
cabxab = b'c' ∷ b'a' ∷ b'b' ∷ b'x' ∷ b'a' ∷ b'b' ∷ []

program : Unit {0}
unfolding rkhash_init rkhash_next strlength char_at naive_substring_match rk_substring_match
    bloom_init bloom_pos set_bit bloom_add bloom_bit_at_pos bloom_query rk_create_doc_bloom
    rk_substring_match_using_bloom
program = tt

rk_finds_two : rk_substring_match (chars ab) (chars cabxab) ≡ some (result 2 (pos 1))
unfolding program
rk_finds_two = refl

naive_finds_one : naive_substring_match (chars ab) (chars cabxab) ≡ result 1 (pos 1)
unfolding program
naive_finds_one = refl

rk_substring_match_lem_example :
    rk_substring_match (chars ab) (chars cabxab) ≡ some (all_matches (chars ab) (chars cabxab))
rk_substring_match_lem_example = rk_substring_match_lem ab cabxab

naive_substring_match_lem_example :
    naive_substring_match (chars ab) (chars cabxab)
    ≡ result
        (count_at (stands_inside (chars ab)) (chars cabxab))
        (first_at (stands_inside (chars ab)) 0 (chars cabxab))
naive_substring_match_lem_example = naive_substring_match_lem (chars ab) (chars cabxab)

naive-rk_count_example :
    2
    ≡ (naive_substring_match (chars ab) (chars cabxab)).count
      + to_nat (is_suffix (chars ab) (chars cabxab))
naive-rk_count_example = naive-rk_count ab cabxab rk_finds_two

rk_substring_match_using_bloom_lem_example :
    (bf : BloomFilter) × (rk_create_doc_bloom true 2 (chars cabxab) 64 ≡ some bf)
    × (r : MatchResult) × (rk_substring_match_using_bloom (chars ab) (chars cabxab) bf (pos 7)
        ≡ some r)
    × Answers ab cabxab (pos 7) r
rk_substring_match_using_bloom_lem_example =
    rk_substring_match_using_bloom_lem ab cabxab 64 (pos 7) (omega arith) (omega arith) refl
      (omega arith)

rk_negative_char_example :
    let p : CString = negsuc 0 ∷ [] in
    let d : CString = pos b'a' ∷ pos b'b' ∷ negsuc 0 ∷ [] in
    (rk_substring_match p d ≡ some (result 0 (negsuc 0))) × (count_at (stands p) d ≡ 1)
rk_negative_char_example = rk_negative_char b'a' (b'b' ∷ []) 0 (omega arith)

rkhash_next-value_example :
    rkhash_next (hash_of (b'c' ∷ b'a' ∷ [])) (weight 2) (pos b'c') (pos b'b') ≡ hash_of ab
rkhash_next-value_example = rkhash_next-value b'c' b'b' (b'a' ∷ [])

-- A filter of eight bytes, and the hash of "ab".
abbrev empty : BloomFilter
empty = record { buf = replicate 8 0; bsz = 64 }

empty-IsFilter : IsFilter empty
empty-IsFilter = record { bytes = omega arith; size = refl; nonempty = omega arith }

bloom_add-Adds_example :
    (after : BloomFilter) × (bloom_add empty (pos 24930) ≡ some after) × Adds 24930 empty after
bloom_add-Adds_example = bloom_add-Adds empty 24930 empty-IsFilter

bloom_query_iff_example :
    (found : Bool) × ((bloom_query empty (pos 24930) ≡ some found)
      × ((found ≡ true) ↔ ((i : ℕ) → i < 10 → bit_at empty.buf (position 64 i 24930) ≡ true)))
bloom_query_iff_example = bloom_query_iff empty 24930 empty-IsFilter
