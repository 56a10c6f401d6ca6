-- ===== src/Clab/Bits/Laws.antt =====
-- clab/mini/part6.c: the bits that the functions give.
use Prim.Native.Nat.{bit_and, bit_and-bitwise, digits, min}
use mathlib.Core.Path.{subst₂}
use native.Mathlib.Nat.{
  div-add-mod, add-mul-mod_self_right, mul_comm, mul_assoc, mod-lt, mod-eq_of_lt, zero-mod, pow-suc,
  min-zero, min-eq_left,
}
use cso_fall.Common.{
  ℕ, zero, suc, ◌+◌, ◌-◌, ◌*◌, ◌/◌, ◌%◌, ◌^◌, ◌≤◌, ◌<◌, ◌≡◌, Bool-cases, inl, inr, refl, sym, ap,
  ◌∙◌, Bool, true, false, none, some, List, [], ◌∷◌, ◌>>=◌, get_elem?, length, ◌==◌, ltb, All,
  arith, pos, negsuc, ==_iff,
}
use cso_fall.Common.Tables.{passes_under, pass_at}
use cso_fall.Clab.Bits.{bit_mask, test_bit, bit_at_index, clear_msb, get_exponent_field}

-- The bits of the bytes, the most significant one of each first.
abbrev pub bitmap : List ℕ → List ℕ
bitmap [] = []
bitmap (b ∷ bs) =
    b / 128 % 2
    ∷ b / 64 % 2
    ∷ b / 32 % 2
    ∷ b / 16 % 2
    ∷ b / 8 % 2
    ∷ b / 4 % 2
    ∷ b / 2 % 2
    ∷ b % 2
    ∷ bitmap bs

abbrev bit_check : (byte b : ℕ) → Bool
bit_check byte b = test_bit byte (bit_mask (pos b)) == byte / 2 ^ (7 - b) % 2

bit_table : passes_under (λ x. bit_check (x / 8) (x % 8)) 2048 ≡ true
unfolding passes_under
bit_table = refl

bit_checked :
    (byte b : ℕ) → byte < 256 → b < 8 → test_bit byte (bit_mask (pos b)) ≡ byte / 2 ^ (7 - b) % 2
bit_checked byte b small position =
    let x = byte * 8 + b in
    let here =
      pass_at (λ x. bit_check (x / 8) (x % 8)) 2048 bit_table x (omega (arith, small, position)) in
    let test : bit_check byte b ≡ true =
      subst₂ (λ q r. bit_check q r ≡ true) (omega (arith, position)) (omega (arith, position))
        here in
    (==_iff (test_bit byte (bit_mask (pos b))) (byte / 2 ^ (7 - b) % 2)).0 test

-- A bit of the array, without the assert.
read_bit :
    (array : List ℕ) (i : ℕ)
    → All (λ b. b < 256) array
    → (get_elem? array (i / 8) >>= λ byte. some (test_bit byte (bit_mask (pos (i % 8)))))
      ≡ get_elem? (bitmap array) i
read_bit [] i small = refl
read_bit (b ∷ bs) zero small = ap some (bit_checked b 0 small.0 (omega arith))
read_bit (b ∷ bs) (suc zero) small = ap some (bit_checked b 1 small.0 (omega arith))
read_bit (b ∷ bs) (suc (suc zero)) small = ap some (bit_checked b 2 small.0 (omega arith))
read_bit (b ∷ bs) (suc (suc (suc zero))) small = ap some (bit_checked b 3 small.0 (omega arith))
read_bit (b ∷ bs) (suc (suc (suc (suc zero)))) small =
    ap some (bit_checked b 4 small.0 (omega arith))
read_bit (b ∷ bs) (suc (suc (suc (suc (suc zero))))) small =
    ap some (bit_checked b 5 small.0 (omega arith))
read_bit (b ∷ bs) (suc (suc (suc (suc (suc (suc zero)))))) small =
    ap some (bit_checked b 6 small.0 (omega arith))
read_bit (b ∷ bs) (suc (suc (suc (suc (suc (suc (suc zero))))))) small =
    ap some (bit_checked b 7 small.0 (omega arith) ∙ ap (λ q. q % 2) (omega arith))
read_bit (b ∷ bs) (suc (suc (suc (suc (suc (suc (suc (suc i)))))))) small =
    let j = suc (suc (suc (suc (suc (suc (suc (suc i))))))) in
    let quotient : j / 8 ≡ suc (i / 8) = omega arith in
    let rest : j % 8 ≡ i % 8 = omega arith in
    ap (λ q. get_elem? (b ∷ bs) q >>= λ byte. some (test_bit byte (bit_mask (pos (j % 8)))))
      quotient
    ∙ ap (λ r. get_elem? bs (i / 8) >>= λ byte. some (test_bit byte (bit_mask (pos r)))) rest
    ∙ read_bit bs i small.1

get_elem?_past : (array : List ℕ) (i : ℕ) → length array ≤ i → get_elem? array i ≡ none
get_elem?_past [] i past = refl
get_elem?_past (b ∷ bs) zero past = absurd (omega (arith, past))
get_elem?_past (b ∷ bs) (suc i) past = get_elem?_past bs i (omega (arith, past))

-- bit_at_index of an array of bytes and an index from 0 on gives the bit of that index of the bitmap, and
-- fails where the bitmap has no such bit.
pub bit_at_index_lem :
    (array : List ℕ) (i : ℕ)
    → All (λ b. b < 256) array
    → bit_at_index array (length array) (pos i) ≡ get_elem? (bitmap array) i
unfolding bit_at_index
bit_at_index_lem array i small = elim (Bool-cases (ltb i (length array * 8))) [
  | inl inside ↦ rw (inside) (read_bit array i small)
  | inr outside ↦
      (let past = get_elem?_past array (i / 8) (ground (arith, outside)) in
        let no_bit = ap (λ o. o >>= λ byte. some (test_bit byte (bit_mask (pos (i % 8))))) past in
        rw (outside) (sym no_bit ∙ read_bit array i small))
]

-- The index of a bit before the array, where it is above -8, passes the assert: bit_at_index of an array
-- with a byte gives its first bit.
pub bit_at_index_negative :
    (array : List ℕ) (n : ℕ)
    → n < 7
    → 0 < length array
    → bit_at_index array (length array) (negsuc n) ≡ bit_at_index array (length array) (pos 0)
unfolding bit_at_index
bit_at_index_negative array n near some_byte =
    let first : ltb 0 (length array * 8) ≡ true = ground (arith, some_byte) in
    let position : suc n / 8 ≡ 0 = omega (arith, near) in
    let bit : suc n % 8 ≡ suc n = omega (arith, near) in rw (first, position, bit) refl

-- The remainder by an even number.
double_mod : (a m : ℕ) → 0 < m → a % (m * 2) ≡ (a / 2) % m * 2 + a % 2
double_mod a m positive =
    let q = a / 2 in
    let low = q % m * 2 + a % 2 in
    let whole : a ≡ low + q / m * (m * 2) =
      let parts = div-add-mod q m in
      let product : q / m * (m * 2) ≡ m * (q / m) * 2 =
        sym (mul_assoc (q / m) m 2) ∙ ap (λ x. x * 2) (mul_comm (q / m) m) in
      omega (arith, parts, product) in
    let small : low < m * 2 = omega (arith, mod-lt q positive) in
    ap (λ x. x % (m * 2)) whole ∙ add-mul-mod_self_right low (q / m) (m * 2) ∙ mod-eq_of_lt small

pow_pos : (k : ℕ) → 0 < 2 ^ k
pow_pos zero = omega arith
pow_pos (suc k) = omega (arith, pow-suc 2 k, pow_pos k)

min_digit : (a : ℕ) → min (a % 2) 1 ≡ a % 2
min_digit a = min-eq_left (omega arith)

-- `&` with a number whose lowest `k` bits are set.
digits_mask : (n a k : ℕ) → a ≤ n → digits (λ b. zero) min n a (2 ^ k - 1) ≡ a % 2 ^ k
digits_mask zero a k le = sym (ap (λ x. x % 2 ^ k) (omega (arith, le)) ∙ zero-mod (2 ^ k))
digits_mask (suc n) zero k le = sym (zero-mod (2 ^ k))
digits_mask (suc n) (suc a) zero le =
    omega (arith, digits_mask n (suc a / 2) zero (omega (arith, le)), min-zero (suc a % 2))
digits_mask (suc n) (suc a) (suc k) le =
    let double : 2 ^ suc k ≡ 2 ^ k * 2 = pow-suc 2 k in
    let half : (2 ^ suc k - 1) / 2 ≡ 2 ^ k - 1 = omega (arith, double, pow_pos k) in
    let odd : (2 ^ suc k - 1) % 2 ≡ 1 = omega (arith, double, pow_pos k) in
    let shorter = digits_mask n (suc a / 2) k (omega (arith, le)) in
    let whole = ap (λ x. suc a % x) double ∙ double_mod (suc a) (2 ^ k) (pow_pos k) in
    ap (λ q. digits (λ b. zero) min n (suc a / 2) q * 2 + min (suc a % 2) ((2 ^ suc k - 1) % 2))
      half
    ∙ ap (λ q. digits (λ b. zero) min n (suc a / 2) (2 ^ k - 1) * 2 + min (suc a % 2) q) odd
    ∙ omega (arith, shorter, whole, min_digit (suc a))

bit_and-mask : (a k : ℕ) → bit_and a (2 ^ k - 1) ≡ a % 2 ^ k
bit_and-mask a k = (λ i. bit_and-bitwise a (2 ^ k - 1) i) ∙ digits_mask a a k (omega arith)

clear_table : passes_under (λ b. 0xffffffff / 2 ^ b == 2 ^ (32 - b) - 1) 32 ≡ true
unfolding passes_under
clear_table = refl

-- clear_msb of an unsigned int and a count b below 32 keeps the lowest 32 - b bits.
clear_msb_lem :
    (number b : ℕ)
    → number < 2 ^ 32
    → b < 32
    → clear_msb number (pos b) ≡ some (number % 2 ^ (32 - b))
unfolding clear_msb
clear_msb_lem number zero wide count = ap some (omega (arith, wide))
clear_msb_lem number (suc b) wide count =
    let here = pass_at (λ b. 0xffffffff / 2 ^ b == 2 ^ (32 - b) - 1) 32 clear_table (suc b) count in
    let mask = (==_iff (0xffffffff / 2 ^ suc b) (2 ^ (32 - suc b) - 1)).0 here in
    let in_range : ltb (suc b) 32 ≡ true = ground (arith, count) in
    let counted : (suc b == 0) ≡ false = ground arith in
    rw (counted, in_range, mask) (ap some (bit_and-mask number (32 - suc b)))

-- get_exponent_field gives the bits 23 to 30 of the float: the sign is bit 31.
get_exponent_field_lem :
    (mantissa exponent sign : ℕ)
    → mantissa < 2 ^ 23
    → exponent < 2 ^ 8
    → sign < 2
    → get_exponent_field (sign * 2 ^ 31 + exponent * 2 ^ 23 + mantissa) ≡ exponent
unfolding get_exponent_field
get_exponent_field_lem mantissa exponent sign m e s = omega (arith, m, e, s)
