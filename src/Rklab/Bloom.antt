-- ===== src/Rklab/Bloom.antt =====
-- rklab/bloom.c: a Bloom filter over a bitmap of `bsz` bits, eight to a byte, most significant first.
-- `none` stands for a failed `assert`, for `exit`, and for an access that C leaves undefined.
pub mod Bits
pub mod Positions
pub mod Laws
use Prim.Native.Nat.{bit_and, bit_or}
use cso_fall.Common.{
  ℕ, zero, suc, ◌+◌, ◌-◌, ◌*◌, ◌/◌, ◌%◌, ◌^◌, Bool, true, false, not, Option, none, some, ◌>>=◌,
  List, ℤ, pos, negsuc, ltb, ◌==◌, if◌then◌else◌, get_elem?, set, replicate,
}
use cso_fall.Common.Int.{◌+ℤ◌, ◌*ℤ◌, tmod, ltb_ℤ}

abbrev pub h1prime : ℕ
h1prime = 4189793

abbrev pub h2prime : ℕ
h2prime = 3296731

abbrev pub bloom_hash_num : ℕ
bloom_hash_num = 10

-- `buf` holds the bytes of the bitmap.
pub record BloomFilter : Type 0 where
  pub buf : List ℕ
  pub bsz : ℕ

unfoldable pub hash_i : ℕ → ℤ → ℤ
hash_i i x = tmod x h1prime +ℤ pos i *ℤ tmod x h2prime +ℤ pos 1 +ℤ pos (i * i)

-- `allocated` says whether the second `malloc` succeeds.
unfoldable pub bloom_init : (allocated : Bool) → ℕ → Option BloomFilter
bloom_init allocated bsz =
    if bsz % 8 == 0
    then (if allocated then some (record { buf = replicate (bsz / 8) 0; bsz = bsz }) else none)
    else none

-- `hash_i(i, elm) % bsz`, as a position of the bitmap; by no other value may it be indexed.
unfoldable pub bloom_pos : ℕ → ℕ → ℤ → Option ℕ
unfolding hash_i
bloom_pos bsz i elm =
    if bsz == 0 then none else elim (tmod (hash_i i elm) bsz) [ pos p ↦ some p | negsuc _ ↦ none ]

-- `buf[pos / 8] |= 0x80 >> pos % 8`
unfoldable pub set_bit : List ℕ → ℕ → Option (List ℕ)
set_bit buf p = do
  byte ← get_elem? buf (p / 8)
  some (set buf (p / 8) (bit_or byte (0x80 / 2 ^ (p % 8))))

-- The loop over `i`, on the number of rounds left.
add_loop : ℕ → ℕ → ℕ → ℤ → List ℕ → Option (List ℕ)
add_loop zero i bsz elm buf = some buf
add_loop (suc rounds) i bsz elm buf = do
  p ← bloom_pos bsz i elm
  buf' ← set_bit buf p
  add_loop rounds (i + 1) bsz elm buf'

unfoldable pub bloom_add : BloomFilter → ℤ → Option BloomFilter
unfolding add_loop
bloom_add bf elm = do
  buf ← add_loop bloom_hash_num 0 bf.bsz elm bf.buf
  some (record bf { buf = buf })

unfoldable pub bloom_bit_at_pos : BloomFilter → ℕ → Option Bool
bloom_bit_at_pos bf p =
    let read =
      get_elem? bf.buf (p / 8) >>= λ byte. some (not (bit_and byte (0x1 * 2 ^ (7 - p % 8)) == 0)) in
    if ltb p bf.bsz then read else none

query_loop : ℕ → ℕ → BloomFilter → ℤ → Option Bool
query_loop zero i f elm = some true
query_loop (suc rounds) i f elm =
    let rest = query_loop rounds (i + 1) f elm in
    bloom_pos f.bsz i elm >>= λ p.
    bloom_bit_at_pos f p >>= λ here. if here then rest else some false

unfoldable pub bloom_query : BloomFilter → ℤ → Option Bool
unfolding query_loop
bloom_query f elm = query_loop bloom_hash_num 0 f elm
