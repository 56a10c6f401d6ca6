-- ===== src/Threadlab/Hash/Range.antt =====
-- The hash code of threadlab/htable.c on ASCII keys: its value and its range.
use cso_fall.Common.{
  ℕ, ◌+◌, ◌*◌, ◌%◌, ◌^◌, ◌≤◌, ◌<◌, ◌≡◌, refl, List, [], ◌∷◌, pos, All, arith, ltb, if◌then◌else◌,
  ◌-◌,
}
use cso_fall.Common.Text.{chars}
use cso_fall.Threadlab.Hash.{big_prime, madd, mmul, hashcode_loop, hashcode}

-- Characters of a key: ASCII, and not the terminator.
abbrev pub IsKey : List ℕ → Type 0
IsKey = All (λ c. (0 < c) × (c < 128))

-- The value in base 256 of the characters behind a value.
unfoldable pub value_from : ℕ → List ℕ → ℕ
value_from v [] = v
value_from v (c ∷ s) = value_from (v * 256 + c) s

step-value :
    (v p c : ℕ)
    → p ≤ big_prime
    → p % big_prime ≡ v % big_prime
    → c < 128
    → (q : ℕ) × (madd (mmul (pos p) (pos 256)) (pos c) ≡ pos q)
      × (q ≤ big_prime)
      × (q % big_prime ≡ (v * 256 + c) % big_prime)
unfolding madd mmul
step-value v p c small same ascii =
    let r = p * 256 % big_prime in
    (
      (if ltb big_prime (r + c) then r + c - big_prime else r + c),
      ground arith,
      ground arith,
      ground arith,
    )

hashcode_loop-value :
    (s : List ℕ) (v p : ℕ)
    → IsKey s
    → p ≤ big_prime
    → p % big_prime ≡ v % big_prime
    → (h : ℕ) × (hashcode_loop (chars s) (pos p) ≡ pos h)
      × (h ≤ big_prime)
      × (h % big_prime ≡ value_from v s % big_prime)
unfolding hashcode_loop value_from
hashcode_loop-value [] v p key small same = (p, refl, small, same)
hashcode_loop-value (c ∷ s) v p key small same =
    let (q, step, q_small, q_same) = step-value v p c small same key.0.1 in
    let (h, run, bound, value) = hashcode_loop-value s (v * 256 + c) q key.1 q_small q_same in
    (h, rw (step, hashcode_loop) run, bound, value)

-- The hash code of an ASCII key is between 0 and BIG_PRIME, congruent to the key's value in base 256,
-- and small enough that the next product by 256 fits an `int`.
hashcode-value :
    (s : List ℕ)
    → IsKey s
    → (h : ℕ) × (hashcode (chars s) ≡ pos h)
      × (h ≤ big_prime)
      × (h % big_prime ≡ value_from 0 s % big_prime)
      × (h * 256 + 127 < 2 ^ 31)
unfolding hashcode
hashcode-value s key =
    let (h, run, bound, value) = hashcode_loop-value s 0 0 key (omega arith) refl in
    (h, run, bound, value, omega arith)
