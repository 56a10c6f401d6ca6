-- ===== src/Rklab/Index/Lookup.antt =====
-- rk_substring_match_using_bloom of rklab/rkgrep.c, on text without negative characters.
use cso_fall.Common.{
  ℕ, suc, ◌+◌, ◌%◌, ◌≤◌, ◌<◌, ◌≡◌, ◌⊎◌, inl, inr, refl, sym, Bool, true, false, some, List, [], ◌∷◌,
  Bool-cases, ℤ, arith, length, drop, length-drop,
}
use cso_fall.Rklab.Text.{CString, chars, stands, count_at, strlength_lem, length_of_stands}
use cso_fall.Rklab.Hash.Rolling.{rkhash_init-value}
use cso_fall.Rklab.Match.{MatchResult, result}
use cso_fall.Rklab.Match.Noted.{all_matches}
use cso_fall.Rklab.Match.RabinKarp.{length-chars, take_all, window-stands, rk_substring_match_lem}
use cso_fall.Rklab.Bloom.{BloomFilter}
use cso_fall.Rklab.Bloom.Laws.{IsFilter, holds, bloom_query-holds}
use cso_fall.Rklab.Index.{rk_create_doc_bloom, rk_substring_match_using_bloom}
use cso_fall.Rklab.Index.Build.{residue, Covers, rk_create_doc_bloom-Covers}

count_at_nowhere :
    (q : CString → Bool) (w : List ℕ)
    → ((i : ℕ) → i < length w → q (chars (drop i w)) ≡ false)
    → count_at q (chars w) ≡ 0
unfolding count_at
count_at_nowhere q [] h = refl
count_at_nowhere q (c ∷ w) h =
    rw (h 0 (omega arith)) (omega (arith, count_at_nowhere q w (λ i lt. h (suc i) (omega arith))))

-- A pattern whose hash the filter does not hold stands nowhere in the document.
absent :
    (bf : BloomFilter) (p doc : List ℕ)
    → Covers bf (length p) doc
    → holds bf (residue p) ≡ false
    → count_at (stands (chars p)) (chars doc) ≡ 0
absent bf p doc covers miss = count_at_nowhere (stands (chars p)) doc λ i lt.
    elim (Bool-cases (stands (chars p) (chars (drop i doc)))) [
      | inr no_match ↦ no_match
      | inl here ↦
          let room = length_of_stands (chars p) (chars (drop i doc)) here in
          let fits : i + length p ≤ length doc =
            omega (arith, length-chars p, length-chars (drop i doc), length-drop i doc) in
          let held : holds bf (residue p) ≡ true =
            rw (window-stands p (drop i doc) here) at (covers i fits) in
          cc
    ]

-- What the matcher with a filter answers: all matches or, where there is none, perhaps a count of 0
-- with `*first_match_ind` as it was.
abbrev pub Answers : List ℕ → List ℕ → ℤ → MatchResult → Type 0
Answers p doc first_before r =
    (r.count ≡ count_at (stands (chars p)) (chars doc))
    × ((r ≡ all_matches (chars p) (chars doc)) ⊎ (r ≡ result 0 first_before))

query-Answers :
    (bf : BloomFilter) (p doc : List ℕ) (first_before : ℤ)
    → IsFilter bf
    → Covers bf (length p) doc
    → (r : MatchResult) × (rk_substring_match_using_bloom (chars p) (chars doc) bf first_before
        ≡ some r)
      × Answers p doc first_before r
unfolding rk_substring_match_using_bloom
query-Answers bf p doc first_before valid covers = elim (Bool-cases (holds bf (residue p))) [
  | inl hit ↦ (
    all_matches (chars p) (chars doc),
    rw (
      strlength_lem (chars p),
      length-chars p,
      rkhash_init-value p (length p) (omega arith),
      take_all p,
      bloom_query-holds bf (residue p) valid,
      hit,
      rk_substring_match_lem p doc,
    ),
    (refl, inl refl),
  )
  | inr miss ↦ (
    result 0 first_before,
    rw (
      strlength_lem (chars p),
      length-chars p,
      rkhash_init-value p (length p) (omega arith),
      take_all p,
      bloom_query-holds bf (residue p) valid,
      miss,
    ),
    (sym (absent bf p doc covers miss), inr refl),
  )
]

-- For a pattern and a document of nonnegative characters, the pattern not empty and not longer than
-- the document, and a filter size that is a multiple of 8 above 0, where malloc succeeds: over the
-- filter that rk_create_doc_bloom builds of the document for that length,
-- rk_substring_match_using_bloom returns the number of positions of the pattern. It returns what
-- rk_substring_match reports, or the count 0 with the first match as it was before.
pub rk_substring_match_using_bloom_lem :
    (p doc : List ℕ) (bloom_size : ℕ) (first_before : ℤ)
    → 0 < length p
    → length p ≤ length doc
    → bloom_size % 8 ≡ 0
    → 0 < bloom_size
    → (bf : BloomFilter) × (rk_create_doc_bloom true (length p) (chars doc) bloom_size ≡ some bf)
      × (r : MatchResult) × (rk_substring_match_using_bloom (chars p) (chars doc) bf first_before
          ≡ some r)
      × Answers p doc first_before r
rk_substring_match_using_bloom_lem [] doc bloom_size first_before nonempty long whole some_bits =
    absurd (omega arith)
rk_substring_match_using_bloom_lem (x ∷ p) doc bloom_size first_before nonempty long whole
      some_bits =
    let (bf, made, valid, covers) =
      rk_create_doc_bloom-Covers (length p) doc bloom_size long whole some_bits in
    let (r, run, answers) = query-Answers bf (x ∷ p) doc first_before valid covers in
    (bf, made, r, run, answers)
