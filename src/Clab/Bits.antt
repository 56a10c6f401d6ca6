-- ===== src/Clab/Bits.antt =====
-- clab/mini/part6.c: the bits of a number, of an array of bytes and of a float. A shift of 32 bits by a negative count or by 32 or more
-- has no defined result and is `none`, as are a read outside of the array and a failed assert.
-- A float is the number that its 32 bits are.
pub mod Laws
use Prim.Native.Nat.{bit_and, bit_and-bitwise, digits, min}
use mathlib.Core.Path.{subst₂}
use native.Mathlib.Nat.{
  div-add-mod, add-mul-mod_self_right, mul_comm, mul_assoc, mod-lt, mod-eq_of_lt, zero-mod, pow-suc,
  min-zero, min-eq_left,
}
use cso_fall.Common.{
  ℕ, zero, suc, ◌+◌, ◌-◌, ◌*◌, ◌/◌, ◌%◌, ◌^◌, ◌≤◌, ◌<◌, ◌≡◌, Bool-cases, inl, inr, refl, sym, ap,
  ◌∙◌, Bool, true, false, Option, none, some, List, [], ◌∷◌, ◌>>=◌, get_elem?, length, ◌==◌,
  if◌then◌else◌, ltb, All, arith, ℤ, pos, negsuc, ==_iff,
}
use cso_fall.Common.Int.{neg_of_nat, tmod, ltb_ℤ}
use cso_fall.Common.Tables.{passes_under, pass_at}

-- C's `/` by a positive number: it rounds towards zero.
abbrev pub tdiv : ℤ → ℕ → ℤ
tdiv (pos a) m = pos (a / m)
tdiv (negsuc a) m = neg_of_nat (suc a / m)

-- `array[position]`
abbrev pub byte_at : List ℕ → ℤ → Option ℕ
byte_at array (pos k) = get_elem? array k
byte_at array (negsuc k) = none

-- 0x80, shifted by a position above 0.
abbrev pub bit_mask : ℤ → ℕ
bit_mask (pos b) = if ltb 0 b then 0x80 / 2 ^ b else 0x80
bit_mask (negsuc b) = 0x80

abbrev pub test_bit : (byte mask : ℕ) → ℕ
test_bit byte mask = if bit_and byte mask == 0 then 0 else 1

unfoldable pub bit_at_index : List ℕ → (array_size : ℕ) → ℤ → Option ℕ
bit_at_index array array_size i =
    let bit = byte_at array (tdiv i 8) >>= λ byte. some (test_bit byte (bit_mask (tmod i 8))) in
    if ltb_ℤ i (pos (array_size * 8)) then bit else none

unfoldable pub clear_msb : (number : ℕ) → ℤ → Option ℕ
clear_msb number (negsuc b) = none
clear_msb number (pos b) =
    if b == 0
    then some number
    else (if ltb b 32 then some (bit_and number (0xffffffff / 2 ^ b)) else none)

-- On a machine that stores the lowest byte first.
unfoldable pub get_exponent_field : (f : ℕ) → ℕ
get_exponent_field f = f * 2 ^ 1 % 2 ^ 32 / 2 ^ 24 % 2 ^ 8
