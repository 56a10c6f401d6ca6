-- ===== src/Rklab/Bloom/Bits.antt =====
-- rklab/bloom.c: one bit of the bitmap.
use Prim.Native.Nat.{bit_and, bit_or}
use cso_fall.Common.{
  ℕ, zero, suc, ◌+◌, ◌-◌, ◌*◌, ◌/◌, ◌%◌, ◌^◌, ◌<◌, ◌≡◌, refl, sym, Bool, true, false, not, ◌&&◌,
  ◌||◌, some, List, [], ◌∷◌, ltb, ltb→lt, ◌==◌, ==_iff, Bool-cases, inl, inr, if◌then◌else◌,
  get_elem?, get_or, set, length, length-set, All, arith,
}
use mathlib.Core.Path.{subst₃}
use cso_fall.Common.Tables.{passes_under, pass_at}
use cso_fall.Rklab.Bloom.{set_bit}

abbrev pub byte_bit : ℕ → ℕ → Bool
byte_bit byte b = not (bit_and byte (0x1 * 2 ^ (7 - b)) == 0)

same : Bool → Bool → Bool
same true b = b
same false b = not b

same-eq : (a b : Bool) → same a b ≡ true → a ≡ b
unfolding same
same-eq true b h = sym h
same-eq false true h = cc
same-eq false false h = refl

abbrev write_check : (byte b c : ℕ) → Bool
write_check byte b c =
    let written = bit_or byte (0x80 / 2 ^ b) in
    ltb written 256 && same (byte_bit written c) (byte_bit byte c || b == c)

write_table : passes_under (λ x. write_check (x / 64) (x / 8 % 8) (x % 8)) 16384 ≡ true
unfolding passes_under same
write_table = refl

write_checked : (byte b c : ℕ) → byte < 256 → b < 8 → c < 8 → write_check byte b c ≡ true
write_checked byte b c h hb hc =
    let x : ℕ = byte * 64 + b * 8 + c in
    subst₃ (λ a b c. write_check a b c ≡ true) (omega arith) (omega arith) (omega arith)
      (pass_at _ 16384 write_table x (omega arith))

-- Setting bit `b` of a byte keeps it a byte, sets that bit and no other.
or_bit :
    (byte b c : ℕ)
    → byte < 256
    → b < 8
    → c < 8
    → (bit_or byte (0x80 / 2 ^ b) < 256)
      × (byte_bit (bit_or byte (0x80 / 2 ^ b)) c ≡ (byte_bit byte c || b == c))
or_bit byte b c h hb hc =
    let e = write_checked byte b c h hb hc in
    let w = bit_or byte (0x80 / 2 ^ b) in
    let small : ltb w 256 ≡ true = ground arith in (ltb→lt w 256 small, same-eq _ _ (ground arith))

zero_table : passes_under (λ b. not (byte_bit 0 b)) 8 ≡ true
unfolding passes_under
zero_table = refl

pub zero_bit : (b : ℕ) → b < 8 → byte_bit 0 b ≡ false
zero_bit b h = ground (arith, pass_at (λ b. not (byte_bit 0 b)) 8 zero_table b h)

abbrev pub AreBytes : List ℕ → Type 0
AreBytes = All (λ byte. byte < 256)

-- The bit at a position of the bitmap; false where there is none.
unfoldable pub bit_at : List ℕ → ℕ → Bool
bit_at buf p = byte_bit (get_or buf (p / 8) 0) (p % 8)

get-AreBytes : (buf : List ℕ) (i : ℕ) → AreBytes buf → get_or buf i 0 < 256
get-AreBytes [] i h = omega arith
get-AreBytes (x ∷ buf) zero h = h.0
get-AreBytes (x ∷ buf) (suc i) h = get-AreBytes buf i h.1

set-AreBytes : (buf : List ℕ) (i v : ℕ) → AreBytes buf → v < 256 → AreBytes (set buf i v)
set-AreBytes [] i v h lt = tt
set-AreBytes (x ∷ buf) zero v h lt = (lt, h.1)
set-AreBytes (x ∷ buf) (suc i) v h lt = (h.0, set-AreBytes buf i v h.1 lt)

get_or-set :
    (buf : List ℕ) (i j v : ℕ)
    → i < length buf
    → get_or (set buf i v) j 0 ≡ (if i == j then v else get_or buf j 0)
get_or-set [] i j v h = absurd (omega arith)
get_or-set (x ∷ buf) zero zero v h = refl
get_or-set (x ∷ buf) zero (suc j) v h = ground arith
get_or-set (x ∷ buf) (suc i) zero v h = ground arith
get_or-set (x ∷ buf) (suc i) (suc j) v h = ground (arith, get_or-set buf i j v)

pub get_elem?-or : (buf : List ℕ) (i : ℕ) → i < length buf → get_elem? buf i ≡ some (get_or buf i 0)
get_elem?-or [] i h = absurd (omega arith)
get_elem?-or (x ∷ buf) zero h = refl
get_elem?-or (x ∷ buf) (suc i) h = get_elem?-or buf i (omega arith)

bits_of_byte : (p q : ℕ) → p / 8 ≡ q / 8 → p == q ≡ p % 8 == q % 8
bits_of_byte p q e = ground arith

bits_of_bytes : (p q : ℕ) → (p / 8 == q / 8) ≡ false → p == q ≡ false
bits_of_bytes p q e = ground arith

or_false : (b : Bool) → b ≡ (b || false)
or_false true = refl
or_false false = refl

-- The bitmap `after` is `before` with position `p` set.
pub record SetsBit (p : ℕ) (before after : List ℕ) : Type 0 where
  pub bytes : AreBytes after
  pub size : length after ≡ length before
  pub bits : (q : ℕ) → bit_at after q ≡ (bit_at before q || p == q)

pub set_bit-SetsBit :
    (buf : List ℕ) (p : ℕ)
    → AreBytes buf
    → p < 8 * length buf
    → (after : List ℕ) × (set_bit buf p ≡ some after) × SetsBit p buf after
unfolding set_bit bit_at
set_bit-SetsBit buf p h lt =
    let i = p / 8 in
    let byte = get_or buf i 0 in
    let inside : i < length buf = omega arith in
    let written = bit_or byte (0x80 / 2 ^ (p % 8)) in
    let known = or_bit byte (p % 8) in
    (
      set buf i written,
      rw (get_elem?-or buf i inside),
      record {
        bytes =
            set-AreBytes buf i written h
              (known 0 (get-AreBytes buf i h) (omega arith) (omega arith)).0;
        size = length-set buf i written;
        bits = λ q. rw (get_or-set buf i (q / 8) written inside) (elim (Bool-cases (i == q / 8)) [
          | inl same_byte ↦
              let e : i ≡ q / 8 = (==_iff i (q / 8)).0 same_byte in
              rw (
                same_byte,
                (known (q % 8) (get-AreBytes buf i h) (omega arith) (omega arith)).1,
                ← e,
                bits_of_byte p q e,
              )
          | inr other ↦ rw (other, bits_of_bytes p q other) (or_false _)
        ]);
      },
    )
