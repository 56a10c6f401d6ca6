-- ===== src/Rklab/Hash/Rolling.antt =====
-- The hashes of rklab/rkgrep.c on text without negative characters, as residues modulo `prime`.
use cso_fall.Common.{
  ℕ, zero, suc, ◌+◌, ◌*◌, ◌/◌, ◌%◌, ◌^◌, ◌≤◌, ◌≡◌, refl, sym, ap, ◌∙◌, Option, some, List, [], ◌∷◌,
  ◌++◌, ℤ, pos, arith, length, take, get_elem?, get_elem?-total, length-append,
}
use native.Mathlib.Nat.{pow-zero, pow-suc, mul_comm, div-add-mod, add-mul-mod_self_right}
use native.Mathlib.Numerals.{add-one}
use mathlib.Core.Path.{ap₂}
use cso_fall.Rklab.Text.{char_at, chars}
use cso_fall.Rklab.Hash.{prime, madd, msub, mmul, init_loop, rkhash_init, rkhash_next}

-- 256^(m-1) * w[0] + ... + w[m-1]
unfoldable pub value : List ℕ → ℕ
value [] = 0
value (c ∷ w) = c * 256 ^ length w + value w

-- The hash of a window and the weight of the character that leaves it, as naturals.
abbrev pub hash_of : List ℕ → ℤ
hash_of w = pos (value w % prime)

abbrev pub weight : ℕ → ℤ
weight m = pos (256 ^ m % prime)

madd_pos : (a b : ℕ) → madd (pos a) (pos b) ≡ pos ((a + b) % prime)
unfolding madd
madd_pos a b = refl

mmul_pos : (a b : ℕ) → mmul (pos a) (pos b) ≡ pos ((a * b) % prime)
unfolding mmul
mmul_pos a b = refl

mul_mod_left : (a b p : ℕ) → ((a % p) * b) % p ≡ (a * b) % p
mul_mod_left a b p = sym (ap (λ t. t % p) split ∙ add-mul-mod_self_right (a % p * b) (a / p * b) p)
  where
    split : a * b ≡ a % p * b + a / p * b * p
    split = omega (arith, ap (λ (t : ℕ). t * b) (div-add-mod a p))

mul_mod_right : (a b p : ℕ) → (a * (b % p)) % p ≡ (a * b) % p
mul_mod_right a b p =
    ap (λ t. t % p) (mul_comm a (b % p)) ∙ mul_mod_left b a p ∙ ap (λ t. t % p) (mul_comm b a)

-- Both operations may be made before the remainder is taken.
pub madd_mod : (a b : ℕ) → madd (pos (a % prime)) (pos (b % prime)) ≡ pos ((a + b) % prime)
madd_mod a b = madd_pos _ _ ∙ ap pos (omega arith)

pub mmul_mod : (a b : ℕ) → mmul (pos (a % prime)) (pos b) ≡ pos ((a * b) % prime)
mmul_mod a b = mmul_pos _ _ ∙ ap pos (mul_mod_left a b prime)

value-snoc : (w : List ℕ) (c : ℕ) → value (w ++ c ∷ []) ≡ value w * 256 + c
unfolding value
value-snoc [] c = omega arith
value-snoc (x ∷ w) c =
    rw (length-append w (c ∷ []), value-snoc w c, add-one)
      (omega (arith, ap (λ (t : ℕ). x * t) (pow-suc 256 (length w))))

-- The window of length `i + 1` is that of length `i` and the next character.
pub take-snoc :
    (w : List ℕ) (i : ℕ) {c : ℕ} → get_elem? w i ≡ some c → take (suc i) w ≡ take i w ++ c ∷ []
take-snoc [] i h = cc
take-snoc (x ∷ w) zero h = cc
take-snoc (x ∷ w) (suc i) h = ap (λ t. x ∷ t) (take-snoc w i h)

pub char_at-chars :
    (w : List ℕ) (i : ℕ) {c : ℕ} → get_elem? w i ≡ some c → char_at (chars w) i ≡ some (pos c)
unfolding char_at
char_at-chars [] i h = cc
char_at-chars (x ∷ w) zero h = cc
char_at-chars (x ∷ w) (suc i) h = char_at-chars w i h

abbrev residues : ℕ → ℕ → Option (ℤ × ℤ)
residues a b = some (pos (a % prime), pos (b % prime))

pair_mod : {a a' b b' : ℕ} → a ≡ a' → b ≡ b' → residues a b ≡ residues a' b'
pair_mod p q = ap₂ residues p q

module _ (w : List ℕ) where
  init_loop-value :
      (i s r : ℕ)
      → i ≤ length w
      → init_loop (chars w) i (pos (s % prime)) (pos (r % prime))
        ≡ some (pos ((value (take i w) * r + s) % prime), pos ((256 ^ i * r) % prime))
  unfolding init_loop value
  init_loop-value zero s r h =
      pair_mod (omega arith) (omega (arith, ap (λ (t : ℕ). t * r) (pow-zero 256)))
  init_loop-value (suc i) s r h =
      let (c, e) = get_elem?-total w i (omega arith) in
      let done = init_loop-value i (s + r * c) (r * 256) (omega arith) in
      rw
        (
          char_at-chars w i e,
          mmul_mod r c,
          madd_mod s (r * c),
          mmul_mod r 256,
          done,
          take-snoc w i e,
          value-snoc,
        )
        (pair_mod (omega arith) (omega (arith, ap (λ (t : ℕ). t * r) (pow-suc 256 i))))

-- `rkhash_init` hashes the first `m` characters of a text, and stores the weight of the `m`-th power.
pub rkhash_init-value :
    (w : List ℕ) (m : ℕ)
    → m ≤ length w
    → rkhash_init (chars w) m ≡ some (hash_of (take m w), weight m)
unfolding rkhash_init
rkhash_init-value w m h = init_loop-value w m 0 1 h ∙ pair_mod (omega arith) (omega arith)

-- Both sides of the subtraction share the term `n`, which cancels.
cancel :
    (t n r : ℕ)
    → madd (msub (pos ((n + t) % prime)) (pos (n % prime))) (pos r) ≡ pos ((t + r) % prime)
unfolding madd msub
cancel t n r = ground arith

-- For a window of nonnegative characters and a nonnegative character behind it, rkhash_next takes
-- the hash of the window, with the weight of its length, to the hash of the window one character
-- on.
pub rkhash_next-value :
    (c r : ℕ) (w : List ℕ)
    → rkhash_next (hash_of (c ∷ w)) (weight (suc (length w))) (pos c) (pos r)
      ≡ hash_of (w ++ r ∷ [])
unfolding rkhash_next value
rkhash_next-value c r w =
    ap₂ (λ x y. madd (msub x y) (pos r)) old out ∙ cancel (256 * value w) n r ∙ ap pos new
  where
    n : ℕ
    n = c * 256 ^ suc (length w)

    power : n ≡ c * 256 ^ length w * 256
    power = omega (arith, ap (λ (t : ℕ). c * t) (pow-suc 256 (length w)))

    old : mmul (pos 256) (hash_of (c ∷ w)) ≡ pos ((n + 256 * value w) % prime)
    old =
        ap pos
          (mul_mod_right 256 (value (c ∷ w)) prime ∙ ap (λ t. t % prime) (omega (arith, power)))

    out : mmul (pos c) (weight (suc (length w))) ≡ pos (n % prime)
    out = ap pos (mul_mod_right c (256 ^ suc (length w)) prime)

    new : (256 * value w + r) % prime ≡ value (w ++ r ∷ []) % prime
    new = rw value-snoc (omega arith)
