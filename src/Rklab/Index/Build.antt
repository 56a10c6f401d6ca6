-- ===== src/Rklab/Index/Build.antt =====
-- rk_create_doc_bloom of rklab/rkgrep.c, on text without negative characters.
use cso_fall.Common.{
  ℕ, zero, suc, ◌+◌, ◌-◌, ◌%◌, ◌≤◌, ◌<◌, ◌≡◌, refl, true, some, List, [], ◌∷◌, le→leb, gt→leb,
  dec_le, arith, length, take, drop,
}
use cso_fall.Rklab.Text.{chars, char_at, strlength_lem}
use cso_fall.Rklab.Hash.{prime}
use cso_fall.Rklab.Hash.Rolling.{value, hash_of, weight, rkhash_init-value}
use cso_fall.Rklab.Match.RabinKarp.{length-chars, read_behind, next_window}
use cso_fall.Rklab.Bloom.{BloomFilter}
use cso_fall.Rklab.Bloom.Laws.{IsFilter, holds, bloom_add-Adds, bloom_init-empty}
use cso_fall.Rklab.Index.{create_loop, rk_create_doc_bloom}

-- The residue that stands for a window in the filter.
abbrev pub residue : List ℕ → ℕ
residue w = value w % prime

-- The filter holds every window of length `m`.
abbrev pub Covers : BloomFilter → ℕ → List ℕ → Type 0
Covers bf m w = (i : ℕ) → i + m ≤ length w → holds bf (residue (take m (drop i w))) ≡ true

-- The filter grew: it holds what it held.
record Grows (before after : BloomFilter) : Type 0 where
  valid : IsFilter after
  kept : (y : ℕ) → holds before y ≡ true → holds after y ≡ true

module _ (k n : ℕ) where
  create_loop-Covers :
      (fuel : ℕ) (w : List ℕ) (index : ℕ) (bf : BloomFilter)
      → length w < fuel
      → index + length w ≡ n + 1
      → 0 < index
      → suc k ≤ length w
      → IsFilter bf
      → holds bf (residue (take (suc k) w)) ≡ true
      → (after : BloomFilter) × (create_loop
            (suc k)
            n
            (weight (suc k))
            fuel
            (chars w)
            index
            (hash_of (take (suc k) w))
            bf
          ≡ some after)
        × Grows bf after
        × Covers after (suc k) w
  unfolding create_loop char_at
  create_loop-Covers zero w index bf few at started long v h = absurd (omega arith)
  create_loop-Covers (suc fuel) [] index bf few at started long v h = absurd (omega arith)
  create_loop-Covers (suc fuel) (c ∷ w) index bf few at started long v h =
      elim (dec_le (suc k) (length w)) [
        | no last ↦ (
          bf,
          rw (gt→leb (n - suc k) index (omega arith)),
          record { valid = v; kept = λ y e. e },
          λ i le. only_window i (omega arith),
        )
        | yes more ↦
            let (x, read) = read_behind (c ∷ w) (suc k) (omega arith) in
            let next = next_window k c x w (hash_of (take (suc k) (c ∷ w))) refl read more in
            let (bf', added, adds) = bloom_add-Adds bf (residue (take (suc k) w)) v in
            let (after, run, grows, covers) =
              create_loop-Covers fuel w (index + 1) bf' (omega arith) (omega arith) (omega arith)
                more adds.valid adds.added in
            (
              after,
              rw (le→leb index (n - suc k) (omega arith), read, next, added) run,
              record { valid = grows.valid; kept = λ y e. grows.kept y (adds.kept y e) },
              all_windows after covers (grows.kept _ (adds.kept _ h)),
            )
      ]
    where
      only_window : (i : ℕ) → i ≡ 0 → holds bf (residue (take (suc k) (drop i (c ∷ w)))) ≡ true
      only_window i e = rw e h

      all_windows :
          (after : BloomFilter)
          → Covers after (suc k) w
          → holds after (residue (take (suc k) (c ∷ w))) ≡ true
          → Covers after (suc k) (c ∷ w)
      all_windows after covers first zero le = first
      all_windows after covers first (suc i) le = covers i (omega arith)

-- `rk_create_doc_bloom` returns a filter that holds the hash of every window of the document.
pub rk_create_doc_bloom-Covers :
    (k : ℕ) (doc : List ℕ) (bloom_size : ℕ)
    → suc k ≤ length doc
    → bloom_size % 8 ≡ 0
    → 0 < bloom_size
    → (bf : BloomFilter) × (rk_create_doc_bloom true (suc k) (chars doc) bloom_size ≡ some bf)
      × IsFilter bf
      × Covers bf (suc k) doc
unfolding rk_create_doc_bloom
rk_create_doc_bloom-Covers k doc bloom_size long whole some_bits =
    let (empty, start, valid, size, clear) = bloom_init-empty bloom_size whole some_bits in
    let (first, added, adds) = bloom_add-Adds empty (residue (take (suc k) doc)) valid in
    let n = length doc in
    let (bf, run, grows, covers) =
      create_loop-Covers k n (n + 2) doc 1 first (omega arith) (omega arith) (omega arith) long
        adds.valid adds.added in
    (
      bf,
      rw
          (
            start,
            rkhash_init-value doc (suc k) long,
            added,
            strlength_lem (chars doc),
            length-chars doc,
          )
          run,
      grows.valid,
      covers,
    )
