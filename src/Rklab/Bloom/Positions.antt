-- ===== src/Rklab/Bloom/Positions.antt =====
-- The positions that the hash functions of the filter give an element.
use cso_fall.Common.{
  ℕ, zero, suc, ◌+◌, ◌*◌, ◌%◌, ◌^◌, ◌≤◌, ◌<◌, ◌≡◌, refl, Bool, true, false, ◌&&◌, ◌||◌, some, List,
  [], ◌∷◌, ◌==◌, pos, arith, ◌↔◌, sym, ap, ◌∙◌, inl, inr, Bool-cases, ==_iff, ℕ_discrete,
}
use mathlib.Core.Bool.{true≢false}
use cso_fall.Rklab.Bloom.{h1prime, h2prime, bloom_hash_num, hash_i, bloom_pos}

-- The value of `hash_i` at a hash that is not negative.
unfoldable pub hash_value : ℕ → ℕ → ℕ
hash_value i x = x % h1prime + i * (x % h2prime) + 1 + i * i

hash_value_bound : (i x : ℕ) → i < bloom_hash_num → hash_value i x < 2 ^ 31
unfolding hash_value
hash_value_bound i x h =
    let r = x % h2prime in
    let small : i * r ≤ 9 * r = grind arith in
    let square : i * i ≤ 9 * 9 = grind arith in omega arith

pub hash_i-value : (i x : ℕ) → hash_i i (pos x) ≡ pos (hash_value i x)
unfolding hash_i hash_value
hash_i-value i x = refl

-- No hash function of the filter overflows an `int`.
pub hash_i_bound :
    (i x : ℕ) → i < bloom_hash_num → (n : ℕ) × (hash_i i (pos x) ≡ pos n) × (n < 2 ^ 31)
hash_i_bound i x h = (hash_value i x, hash_i-value i x, hash_value_bound i x h)

unfoldable pub position : ℕ → ℕ → ℕ → ℕ
position bsz i x = hash_value i x % bsz

pub position-lt : (bsz i x : ℕ) → 0 < bsz → position bsz i x < bsz
unfolding position
position-lt bsz i x h = omega arith

pub bloom_pos-position : (bsz i x : ℕ) → 0 < bsz → bloom_pos bsz i (pos x) ≡ some (position bsz i x)
unfolding bloom_pos position hash_value
bloom_pos-position bsz i x h = let e : (bsz == 0) ≡ false = ground arith in rw e

unfoldable pub positions : (rounds i bsz x : ℕ) → List ℕ
positions zero i bsz x = []
positions (suc rounds) i bsz x = position bsz i x ∷ positions rounds (i + 1) bsz x

-- Whether a position is listed, and whether all listed positions pass a test.
unfoldable pub listed : List ℕ → ℕ → Bool
listed [] q = false
listed (p ∷ ps) q = p == q || listed ps q

unfoldable pub all_pass : (ℕ → Bool) → List ℕ → Bool
all_pass test [] = true
all_pass test (p ∷ ps) = test p && all_pass test ps

pub all_pass-listed :
    (before : ℕ → Bool) (ps qs : List ℕ)
    → ((q : ℕ) → listed qs q ≡ true → listed ps q ≡ true)
    → all_pass (λ q. before q || listed ps q) qs ≡ true
unfolding listed all_pass
all_pass-listed before ps [] h = refl
all_pass-listed before ps (q ∷ qs) h =
    ground (arith, h q, all_pass-listed before ps qs (λ r e. h r (ground arith)))

pub all_pass_mono :
    (before after : ℕ → Bool) (qs : List ℕ)
    → ((q : ℕ) → before q ≡ true → after q ≡ true)
    → all_pass before qs ≡ true
    → all_pass after qs ≡ true
unfolding all_pass
all_pass_mono before after [] h e = refl
all_pass_mono before after (q ∷ qs) h e = ground (arith, h q, all_pass_mono before after qs h)

-- The listed positions are those of the hash functions.
pub listed-positions :
    (rounds i bsz x q : ℕ)
    → (listed (positions rounds i bsz x) q ≡ true)
      ↔ ((j : ℕ) × (i ≤ j) × (j < i + rounds) × (q ≡ position bsz j x))
unfolding listed positions
listed-positions zero i bsz x q =
    ((λ e. absurd (true≢false (sym e))), λ (j, low, high, e). absurd (omega (arith, low, high)))
listed-positions (suc rounds) i bsz x q =
    let rest = listed-positions rounds (i + 1) bsz x q in (there rest, back rest)
  where
    there :
        ((listed (positions rounds (i + 1) bsz x) q ≡ true)
          ↔ ((j : ℕ) × (i + 1 ≤ j) × (j < i + 1 + rounds) × (q ≡ position bsz j x)))
        → (position bsz i x == q) || listed (positions rounds (i + 1) bsz x) q ≡ true
        → (j : ℕ) × (i ≤ j) × (j < i + suc rounds) × (q ≡ position bsz j x)
    there rest e = elim (Bool-cases (position bsz i x == q)) [
      | inl same ↦ (i, omega arith, omega arith, sym ((==_iff (position bsz i x) q).0 same))
      | inr other ↦
          (let (j, low, high, at) = rest.0 (rw (other) at e) in
            (j, omega (arith, low), omega (arith, high), at))
    ]

    back :
        ((listed (positions rounds (i + 1) bsz x) q ≡ true)
          ↔ ((j : ℕ) × (i + 1 ≤ j) × (j < i + 1 + rounds) × (q ≡ position bsz j x)))
        → ((j : ℕ) × (i ≤ j) × (j < i + suc rounds) × (q ≡ position bsz j x))
        → (position bsz i x == q) || listed (positions rounds (i + 1) bsz x) q ≡ true
    back rest (j, low, high, at) = elim (ℕ_discrete i j) [
      | yes same ↦
          (let here : (position bsz i x == q) ≡ true =
              (==_iff (position bsz i x) q).1 (ap (λ k. position bsz k x) same ∙ sym at) in
            rw (here) refl)
      | no other ↦
          (let later = rest.1 (j, omega (arith, low, other), omega (arith, high), at) in
            ground (arith, later))
    ]

both : (a b : Bool) → a && b ≡ true → (a ≡ true) × (b ≡ true)
both true b e = (refl, e)
both false b e = absurd (true≢false (sym e))

-- All of them pass where each one does.
pub all_pass-positions :
    (test : ℕ → Bool) (rounds i bsz x : ℕ)
    → (all_pass test (positions rounds i bsz x) ≡ true)
      ↔ ((j : ℕ) → i ≤ j → j < i + rounds → test (position bsz j x) ≡ true)
unfolding all_pass positions
all_pass-positions test zero i bsz x =
    ((λ e j low high. absurd (omega (arith, low, high))), λ h. refl)
all_pass-positions test (suc rounds) i bsz x =
    let rest = all_pass-positions test rounds (i + 1) bsz x in (there rest, back rest)
  where
    there :
        ((all_pass test (positions rounds (i + 1) bsz x) ≡ true)
          ↔ ((j : ℕ) → i + 1 ≤ j → j < i + 1 + rounds → test (position bsz j x) ≡ true))
        → test (position bsz i x) && all_pass test (positions rounds (i + 1) bsz x) ≡ true
        → (j : ℕ) → i ≤ j
        → j < i + suc rounds
        → test (position bsz j x) ≡ true
    there rest e j low high =
        let (first, others) =
          both (test (position bsz i x)) (all_pass test (positions rounds (i + 1) bsz x)) e in
        elim (ℕ_discrete i j) [
          | yes same ↦ ap (λ k. test (position bsz k x)) (sym same) ∙ first
          | no other ↦ rest.0 others j (omega (arith, low, other)) (omega (arith, high))
        ]

    back :
        ((all_pass test (positions rounds (i + 1) bsz x) ≡ true)
          ↔ ((j : ℕ) → i + 1 ≤ j → j < i + 1 + rounds → test (position bsz j x) ≡ true))
        → ((j : ℕ) → i ≤ j → j < i + suc rounds → test (position bsz j x) ≡ true)
        → test (position bsz i x) && all_pass test (positions rounds (i + 1) bsz x) ≡ true
    back rest h =
        let first = h i (omega arith) (omega arith) in
        let others = rest.1 (λ j low high. h j (omega (arith, low)) (omega (arith, high))) in
        rw (first) others
