-- ===== src/Rklab/Index.antt =====
-- The matcher of rklab/rkgrep.c that asks a Bloom filter of the document's hashes first.
pub mod Build
pub mod Lookup
use cso_fall.Common.{
  ℕ, zero, suc, ◌+◌, ◌-◌, Bool, Option, none, some, ◌>>=◌, ℤ, leb, if◌then◌else◌, drop,
}
use cso_fall.Rklab.Text.{CString, char_at, strlength}
use cso_fall.Rklab.Hash.{rkhash_init, rkhash_next}
use cso_fall.Rklab.Bloom.{BloomFilter, bloom_init, bloom_add, bloom_query}
use cso_fall.Rklab.Match.{MatchResult, result, rk_substring_match}

-- `while (index <= doc_length - m)`, on fuel. The index starts at 1, so a difference that C has
-- below 0 may be 0 here.
create_loop : (m n : ℕ) (h : ℤ) → (fuel : ℕ) → CString → ℕ → ℤ → BloomFilter → Option BloomFilter
create_loop m n h zero doctmp index doc_hash bf = none
create_loop m n h (suc fuel) doctmp index doc_hash bf =
    let step = λ (leftmost rightmost : ℤ).
      let next = rkhash_next doc_hash h leftmost rightmost in
      bloom_add bf next >>= create_loop m n h fuel (drop 1 doctmp) (index + 1) next in
    let rest = char_at doctmp 0 >>= λ leftmost. char_at doctmp m >>= step leftmost in
    if leb index (n - m) then rest else some bf

-- `allocated` says whether the filter's `malloc` succeeds.
unfoldable pub rk_create_doc_bloom : (allocated : Bool) → ℕ → CString → ℕ → Option BloomFilter
unfolding create_loop
rk_create_doc_bloom allocated m doc bloom_size = bloom_init allocated bloom_size >>= λ empty.
    rkhash_init doc m >>= λ (doc_hash, h).
    bloom_add empty doc_hash >>= create_loop m (strlength doc) h (strlength doc + 2) doc 1 doc_hash

-- `first_before` is what `*first_match_ind` holds at the call: where the filter answers no, the
-- function leaves it alone.
unfoldable pub rk_substring_match_using_bloom :
    CString → CString → BloomFilter → (first_before : ℤ) → Option MatchResult
rk_substring_match_using_bloom pattern doc bf first_before =
    rkhash_init pattern (strlength pattern) >>= λ (pattern_hash, h).
    bloom_query bf pattern_hash >>= λ found.
    if found then rk_substring_match pattern doc else some (result 0 first_before)
