-- ===== src/Rklab/Bloom/Laws.antt =====
-- rklab/bloom.c: what adding, querying and a new filter mean for the bits.
use cso_fall.Common.{
  ℕ, zero, suc, ◌+◌, ◌*◌, ◌/◌, ◌%◌, ◌<◌, ◌≡◌, refl, sym, ◌∙◌, Bool, true, false, ◌||◌, some, List,
  lt→ltb, ◌==◌, ◌↔◌, ◌⊎◌, inl, inr, pos, arith, length, get_or, replicate, length-replicate,
}
use cso_fall.Rklab.Bloom.{
  BloomFilter, bloom_hash_num, bloom_init, add_loop, bloom_add, bloom_bit_at_pos, query_loop,
  bloom_query,
}
use cso_fall.Rklab.Bloom.Bits.{AreBytes, zero_bit, bit_at, set_bit-SetsBit, get_elem?-or}
use cso_fall.Rklab.Bloom.Positions.{
  position, position-lt, bloom_pos-position, positions, listed, all_pass, all_pass-listed,
  all_pass_mono, all_pass-positions, listed-positions,
}

-- A bitmap of whole bytes, with the size that the filter states.
pub record IsFilter (bf : BloomFilter) : Type 0 where
  pub bytes : AreBytes bf.buf
  pub size : bf.bsz ≡ 8 * length bf.buf
  pub nonempty : 0 < bf.bsz

-- All bits that stand for the element are set.
unfoldable pub holds : BloomFilter → ℕ → Bool
holds bf x = all_pass (bit_at bf.buf) (positions bloom_hash_num 0 bf.bsz x)

pub bit_at_pos-bit_at :
    (bf : BloomFilter) (p : ℕ)
    → IsFilter bf
    → p < bf.bsz
    → bloom_bit_at_pos bf p ≡ some (bit_at bf.buf p)
unfolding bloom_bit_at_pos bit_at
bit_at_pos-bit_at bf p v h =
    rw (lt→ltb p bf.bsz h, get_elem?-or bf.buf (p / 8) (omega (arith, v.size)))

query_loop-all_pass :
    (rounds i : ℕ) (bf : BloomFilter) (x : ℕ)
    → IsFilter bf
    → query_loop rounds i bf (pos x) ≡ some (all_pass (bit_at bf.buf) (positions rounds i bf.bsz x))
unfolding query_loop positions all_pass
query_loop-all_pass zero i bf x v = refl
query_loop-all_pass (suc rounds) i bf x v =
    rw
      (
        bloom_pos-position bf.bsz i x v.nonempty,
        bit_at_pos-bit_at bf (position bf.bsz i x) v (position-lt bf.bsz i x v.nonempty),
        query_loop-all_pass rounds (i + 1) bf x v,
      )
      (ground arith)

pub bloom_query-holds :
    (bf : BloomFilter) (x : ℕ) → IsFilter bf → bloom_query bf (pos x) ≡ some (holds bf x)
unfolding bloom_query holds
bloom_query-holds bf x v = query_loop-all_pass bloom_hash_num 0 bf x v

-- bloom_query of an element from 0 on, on a bitmap of whole bytes that is not empty and has the size that the
-- filter states, returns whether the bit at the position of each of the ten hash functions is set.
pub bloom_query_iff :
    (bf : BloomFilter) (x : ℕ)
    → IsFilter bf
    → (found : Bool) × ((bloom_query bf (pos x) ≡ some found)
        × ((found ≡ true) ↔ ((i : ℕ) → i < 10 → bit_at bf.buf (position bf.bsz i x) ≡ true)))
unfolding holds
bloom_query_iff bf x v =
    let (there, back) = all_pass-positions (bit_at bf.buf) bloom_hash_num 0 bf.bsz x in
    (
      holds bf x,
      (
        bloom_query-holds bf x v,
        (
          (λ e i lt. there e i (omega arith) (omega (arith, lt))),
          λ h. back (λ i low lt. h i (omega (arith, lt))),
        ),
      ),
    )

-- The bitmap `after` is `before` with the listed positions set.
record SetsBits (ps before after : List ℕ) : Type 0 where
  bytes : AreBytes after
  size : length after ≡ length before
  bits : (q : ℕ) → bit_at after q ≡ (bit_at before q || listed ps q)

add_loop-SetsBits :
    (rounds i bsz x : ℕ) (buf : List ℕ)
    → AreBytes buf
    → bsz ≡ 8 * length buf
    → 0 < bsz
    → (after : List ℕ) × (add_loop rounds i bsz (pos x) buf ≡ some after)
      × SetsBits (positions rounds i bsz x) buf after
unfolding add_loop positions listed
add_loop-SetsBits zero i bsz x buf h size some_bits =
    (buf, refl, record { bytes = h; size = refl; bits = λ q. ground arith })
add_loop-SetsBits (suc rounds) i bsz x buf h size some_bits =
    let p = position bsz i x in
    let (middle, done, first) = set_bit-SetsBit buf p h (omega (arith, position-lt bsz i x)) in
    let (after, run, rest) =
      add_loop-SetsBits rounds (i + 1) bsz x middle first.bytes (omega (arith, first.size))
        some_bits in
    (
      after,
      rw (bloom_pos-position bsz i x some_bits, done) run,
      record {
        bytes = rest.bytes;
        size = rest.size ∙ first.size;
        bits = λ q. ground (arith, rest.bits q, first.bits q);
      },
    )

-- What `bloom_add` does to a filter.
pub record Adds (x : ℕ) (before after : BloomFilter) : Type 0 where
  pub valid : IsFilter after
  pub bsz : after.bsz ≡ before.bsz
  pub added : holds after x ≡ true
  pub kept : (y : ℕ) → holds before y ≡ true → holds after y ≡ true
  pub bits :
      (q : ℕ)
      → (bit_at after.buf q ≡ true)
        ↔ ((bit_at before.buf q ≡ true) ⊎ ((i : ℕ) × (i < 10) × (q ≡ position before.bsz i x)))

or_true : (a b : Bool) → a || b ≡ true → (a ≡ true) ⊎ (b ≡ true)
or_true true b e = inl refl
or_true false b e = inr e

-- The bits that are set behind the writes.
bits_set :
    (before after : List ℕ) (bsz x q : ℕ)
    → bit_at after q ≡ (bit_at before q || listed (positions bloom_hash_num 0 bsz x) q)
    → (bit_at after q ≡ true)
      ↔ ((bit_at before q ≡ true) ⊎ ((i : ℕ) × (i < 10) × (q ≡ position bsz i x)))
bits_set before after bsz x q e = (
  (λ set.
      elim (or_true (bit_at before q) (listed (positions bloom_hash_num 0 bsz x) q) (sym e ∙ set)) [
        | inl old ↦ inl old
        | inr new ↦
            (let (i, low, lt, at) = (listed-positions bloom_hash_num 0 bsz x q).0 new in
              inr (i, omega (arith, lt), at))
      ]),
  λ cases. elim cases [
    | inl old ↦ ground (arith, e, old)
    | inr (i, lt, at) ↦
        (let new =
            (listed-positions bloom_hash_num 0 bsz x q).1 (i, omega arith, omega (arith, lt), at) in
          ground (arith, e, new))
  ],
)

-- bloom_add of an element from 0 on to a filter, a bitmap of whole bytes that is not empty and has the size
-- that the filter states, returns such a filter of the same size. The bits that are set in it are those that
-- were set and those at the positions of the ten hash functions, so the element is found, and each element
-- that was found still is.
pub bloom_add-Adds :
    (bf : BloomFilter) (x : ℕ)
    → IsFilter bf
    → (after : BloomFilter) × (bloom_add bf (pos x) ≡ some after) × Adds x bf after
unfolding bloom_add holds
bloom_add-Adds bf x v =
    let ps = positions bloom_hash_num 0 bf.bsz x in
    let (buf, run, done) =
      add_loop-SetsBits bloom_hash_num 0 bf.bsz x bf.buf v.bytes v.size v.nonempty in
    (
      record bf { buf = buf },
      rw run,
      record {
        valid = record {
          bytes = done.bytes;
          size = omega (arith, v.size, done.size);
          nonempty = v.nonempty;
        };
        bsz = refl;
        added =
            all_pass_mono (λ q. bit_at bf.buf q || listed ps q) (bit_at buf) ps
              (λ q e. done.bits q ∙ e) (all_pass-listed (bit_at bf.buf) ps ps (λ q e. e));
        kept = λ y.
            all_pass_mono (bit_at bf.buf) (bit_at buf) (positions bloom_hash_num 0 bf.bsz y)
              (λ q e. ground (arith, done.bits q));
        bits = λ q. bits_set bf.buf buf bf.bsz x q (done.bits q);
      },
    )

replicate-AreBytes : (n : ℕ) → AreBytes (replicate n 0)
replicate-AreBytes zero = tt
replicate-AreBytes (suc n) = (omega arith, replicate-AreBytes n)

get-replicate : (n i : ℕ) → get_or {A = ℕ} (replicate n 0) i 0 ≡ 0
get-replicate zero i = refl
get-replicate (suc n) zero = refl
get-replicate (suc n) (suc i) = get-replicate n i

-- A size of whole bytes gives a filter in which no element is found.
pub bloom_init-empty :
    (bsz : ℕ)
    → bsz % 8 ≡ 0
    → 0 < bsz
    → (bf : BloomFilter) × (bloom_init true bsz ≡ some bf)
      × IsFilter bf
      × (bf.bsz ≡ bsz)
      × ((x : ℕ) → holds bf x ≡ false)
unfolding bloom_init holds bit_at positions all_pass
bloom_init-empty bsz h some_bits =
    let e : (bsz % 8 == 0) ≡ true = ground arith in
    let buf = replicate (bsz / 8) 0 in
    (
      record { buf = buf; bsz = bsz },
      rw e,
      record {
        bytes = replicate-AreBytes (bsz / 8);
        size = omega (arith, length-replicate {A = ℕ} (bsz / 8) 0);
        nonempty = some_bits;
      },
      refl,
      λ x.
          rw (get-replicate (bsz / 8) (position bsz 0 x / 8))
            (rw (zero_bit (position bsz 0 x % 8) (omega arith))),
    )
