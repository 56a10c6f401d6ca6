-- ===== src/Clab/Sieve/Marks.antt =====
-- clab/mini/part3.c: which elements the sieve marks, and where it writes.
use cso_fall.Common.{
  ℕ, zero, suc, ◌+◌, ◌-◌, ◌*◌, ◌≤◌, ◌<◌, ◌≡◌, ◌≢◌, ◌⊎◌, inl, inr, refl, subst, ◌∙◌, some, List, ltb,
  if◌then◌else◌, set, get_elem?, get_elem?-set_self, get_elem?-set_ne, length, length-set,
  get_elem?_lt, arith, lt→ltb, ltb→lt, Bool-cases, ℕ_discrete,
}
use Prim.Native.Nat.{◌∣◌, ◌/◌}
use native.Mathlib.Nat.{dvd-mul_left, div-mul_cancel}
use cso_fall.Threadlab.Primes.Divisors.{IsPrime, prime_or_divisor}
use cso_fall.Clab.Sieve.{
  init_loop, initialize_array, mark_loop, mark_multiples, sieve_loop, prime_number_sieves,
}

-- The arrays that the loops leave where each write is inside.
init_written : ℕ → ℕ → List ℕ → List ℕ
init_written zero i arr = arr
init_written (suc rounds) i arr = init_written rounds (i + 1) (set arr i 1)

mark_written : ℕ → (i n p : ℕ) → List ℕ → List ℕ
mark_written zero i n p arr = arr
mark_written (suc rounds) i n p arr =
    let rest = mark_written rounds (i + 1) n p (set arr (i * p) 0) in
    if ltb (i * p) n then rest else arr

sieve_written : ℕ → (i n : ℕ) → List ℕ → List ℕ
sieve_written zero i n arr = arr
sieve_written (suc rounds) i n arr = sieve_written rounds (i + 1) n (mark_written (n - 2) 2 n i arr)

-- Every element below `n` is 1.
initialize_array-get :
    (rounds i : ℕ) (arr : List ℕ) (k : ℕ)
    → i + rounds ≤ length arr
    → k < i + rounds
    → (k < i → get_elem? arr k ≡ some 1)
    → get_elem? (init_written rounds i arr) k ≡ some 1
unfolding init_written
initialize_array-get zero i arr k room lt done = done (omega arith)
initialize_array-get (suc rounds) i arr k room lt done =
    initialize_array-get rounds (i + 1) (set arr i 1) k (omega (arith, length-set arr i 1))
      (omega arith)
      (λ small. elim (ℕ_discrete k i) [
        | yes same ↦ rw same (get_elem?-set_self arr i 1 (omega arith))
        | no other ↦ get_elem?-set_ne arr i k 1 (omega arith) ∙ done (omega arith)
      ])

length-mark_written :
    (rounds i n p : ℕ) (arr : List ℕ) → length (mark_written rounds i n p arr) ≡ length arr
unfolding mark_written
length-mark_written zero i n p arr = refl
length-mark_written (suc rounds) i n p arr = elim (Bool-cases (ltb (i * p) n)) [
  | inl e ↦
      rw (e) (length-mark_written rounds (i + 1) n p (set arr (i * p) 0) ∙ length-set arr (i * p) 0)
  | inr e ↦ rw (e) refl
]

-- What is marked stays marked.
mark_written-keeps :
    (rounds i n p : ℕ) (arr : List ℕ) (k : ℕ)
    → get_elem? arr k ≡ some 0
    → get_elem? (mark_written rounds i n p arr) k ≡ some 0
unfolding mark_written
mark_written-keeps zero i n p arr k e = e
mark_written-keeps (suc rounds) i n p arr k e = elim (Bool-cases (ltb (i * p) n)) [
  | inl y ↦ rw (y) (mark_written-keeps rounds (i + 1) n p (set arr (i * p) 0) k (set_zero (i * p)))
  | inr y ↦ rw (y) e
]
  where
    set_zero : (j : ℕ) → get_elem? (set arr j 0) k ≡ some 0
    set_zero j = elim (ℕ_discrete j k) [
      | yes same ↦ rw same (get_elem?-set_self arr k 0 (get_elem?_lt arr k 0 e))
      | no other ↦ get_elem?-set_ne arr j k 0 other ∙ e
    ]

-- The multiple `j * p` is marked, if it is in reach.
mark_written-marks :
    (rounds i n p : ℕ) (arr : List ℕ) (j : ℕ)
    → i ≤ j
    → j < i + rounds
    → j * p < n
    → n ≤ length arr
    → get_elem? (mark_written rounds i n p arr) (j * p) ≡ some 0
unfolding mark_written
mark_written-marks zero i n p arr j low high small room = absurd (omega arith)
mark_written-marks (suc rounds) i n p arr j low high small room =
    let reach : i * p < n = grind arith in
    rw (lt→ltb (i * p) n reach) (elim (ℕ_discrete i j) [
      | yes same ↦
          mark_written-keeps rounds (i + 1) n p (set arr (i * p) 0) (j * p)
            (rw same (get_elem?-set_self arr (j * p) 0 (omega arith)))
      | no other ↦
          mark_written-marks rounds (i + 1) n p (set arr (i * p) 0) j (omega arith) (omega arith)
            small (omega (arith, length-set arr (i * p) 0))
    ])

-- Nothing else is.
mark_written-others :
    (rounds i n p : ℕ) (arr : List ℕ) (k : ℕ)
    → ((j : ℕ) → i ≤ j → j * p ≢ k)
    → get_elem? (mark_written rounds i n p arr) k ≡ get_elem? arr k
unfolding mark_written
mark_written-others zero i n p arr k h = refl
mark_written-others (suc rounds) i n p arr k h = elim (Bool-cases (ltb (i * p) n)) [
  | inl y ↦ rw (y) (
      mark_written-others rounds (i + 1) n p (set arr (i * p) 0) k (λ j low. h j (omega arith))
      ∙ get_elem?-set_ne arr (i * p) k 0 (h i (omega arith)))
  | inr y ↦ rw (y) refl
]

length-init_written :
    (rounds i : ℕ) (arr : List ℕ) → length (init_written rounds i arr) ≡ length arr
unfolding init_written
length-init_written zero i arr = refl
length-init_written (suc rounds) i arr =
    length-init_written rounds (i + 1) (set arr i 1) ∙ length-set arr i 1

sieve_written-keeps :
    (rounds i n : ℕ) (arr : List ℕ) (k : ℕ)
    → get_elem? arr k ≡ some 0
    → get_elem? (sieve_written rounds i n arr) k ≡ some 0
unfolding sieve_written
sieve_written-keeps zero i n arr k e = e
sieve_written-keeps (suc rounds) i n arr k e =
    sieve_written-keeps rounds (i + 1) n (mark_written (n - 2) 2 n i arr) k
      (mark_written-keeps (n - 2) 2 n i arr k e)

sieve_written-marks :
    (rounds i n : ℕ) (arr : List ℕ) (j p : ℕ)
    → 2 ≤ i
    → i ≤ p
    → p < i + rounds
    → 2 ≤ j
    → j * p < n
    → n ≤ length arr
    → get_elem? (sieve_written rounds i n arr) (j * p) ≡ some 0
unfolding sieve_written
sieve_written-marks zero i n arr j p two low high j_two small room = absurd (omega arith)
sieve_written-marks (suc rounds) i n arr j p two low high j_two small room =
    let below : j < 2 + (n - 2) = grind arith in
    elim (ℕ_discrete i p) [
      | yes same ↦
          sieve_written-keeps rounds (i + 1) n (mark_written (n - 2) 2 n i arr) (j * p)
            (rw same (mark_written-marks (n - 2) 2 n p arr j j_two below small room))
      | no other ↦
          sieve_written-marks rounds (i + 1) n (mark_written (n - 2) 2 n i arr) j p (omega arith)
            (omega arith) (omega arith) j_two small
            (omega (arith, length-mark_written (n - 2) 2 n i arr))
    ]

sieve_written-others :
    (rounds i n : ℕ) (arr : List ℕ) (k : ℕ)
    → ((j p : ℕ) → 2 ≤ j → i ≤ p → j * p ≢ k)
    → get_elem? (sieve_written rounds i n arr) k ≡ get_elem? arr k
unfolding sieve_written
sieve_written-others zero i n arr k h = refl
sieve_written-others (suc rounds) i n arr k h =
    sieve_written-others rounds (i + 1) n (mark_written (n - 2) 2 n i arr) k
      (λ j p two low. h j p two (omega arith))
    ∙ mark_written-others (n - 2) 2 n i arr k (λ j two. h j i two (omega arith))

-- Each write is inside the array.
init_loop_inside :
    (rounds i : ℕ) (arr : List ℕ)
    → i + rounds ≤ length arr
    → init_loop rounds i arr ≡ some (init_written rounds i arr)
unfolding init_loop init_written
init_loop_inside zero i arr room = refl
init_loop_inside (suc rounds) i arr room =
    rw (lt→ltb i (length arr) (omega (arith, room)))
      (init_loop_inside rounds (i + 1) (set arr i 1) (omega (arith, room, length-set arr i 1)))

mark_loop_inside :
    (rounds i n p : ℕ) (arr : List ℕ)
    → n ≤ length arr
    → mark_loop rounds i n p arr ≡ some (mark_written rounds i n p arr)
unfolding mark_loop mark_written
mark_loop_inside zero i n p arr room = refl
mark_loop_inside (suc rounds) i n p arr room = elim (Bool-cases (ltb (i * p) n)) [
  | inl e ↦
      (let lt = ltb→lt (i * p) n e in
        let inside = lt→ltb (i * p) (length arr) (omega (arith, lt, room)) in
        rw (e, inside)
          (mark_loop_inside rounds (i + 1) n p (set arr (i * p) 0)
            (omega (arith, room, length-set arr (i * p) 0))))
  | inr e ↦ rw (e) refl
]

sieve_loop_inside :
    (rounds i n : ℕ) (arr : List ℕ)
    → n ≤ length arr
    → sieve_loop rounds i n arr ≡ some (sieve_written rounds i n arr)
unfolding sieve_loop sieve_written mark_multiples
sieve_loop_inside zero i n arr room = refl
sieve_loop_inside (suc rounds) i n arr room =
    let marked = mark_loop_inside (n - 2) 2 n i arr room in
    rw (marked) (
      sieve_loop_inside rounds (i + 1) n (mark_written (n - 2) 2 n i arr)
        (omega (arith, room, length-mark_written (n - 2) 2 n i arr)))

-- What lies behind the first `n` elements stays.
init_written_behind :
    (rounds i : ℕ) (arr : List ℕ) (k : ℕ)
    → i + rounds ≤ k
    → get_elem? (init_written rounds i arr) k ≡ get_elem? arr k
unfolding init_written
init_written_behind zero i arr k le = refl
init_written_behind (suc rounds) i arr k le =
    init_written_behind rounds (i + 1) (set arr i 1) k (omega (arith, le))
    ∙ get_elem?-set_ne arr i k 1 (omega (arith, le))

mark_written_behind :
    (rounds i n p : ℕ) (arr : List ℕ) (k : ℕ)
    → n ≤ k
    → get_elem? (mark_written rounds i n p arr) k ≡ get_elem? arr k
unfolding mark_written
mark_written_behind zero i n p arr k le = refl
mark_written_behind (suc rounds) i n p arr k le = elim (Bool-cases (ltb (i * p) n)) [
  | inl e ↦
      (let lt = ltb→lt (i * p) n e in
        rw (e) (
          mark_written_behind rounds (i + 1) n p (set arr (i * p) 0) k le
          ∙ get_elem?-set_ne arr (i * p) k 0 (omega (arith, lt, le))))
  | inr e ↦ rw (e) refl
]

sieve_written_behind :
    (rounds i n : ℕ) (arr : List ℕ) (k : ℕ)
    → n ≤ k
    → get_elem? (sieve_written rounds i n arr) k ≡ get_elem? arr k
unfolding sieve_written
sieve_written_behind zero i n arr k le = refl
sieve_written_behind (suc rounds) i n arr k le =
    sieve_written_behind rounds (i + 1) n (mark_written (n - 2) 2 n i arr) k le
    ∙ mark_written_behind (n - 2) 2 n i arr k le

length-sieve_written :
    (rounds i n : ℕ) (arr : List ℕ) → length (sieve_written rounds i n arr) ≡ length arr
unfolding sieve_written
length-sieve_written zero i n arr = refl
length-sieve_written (suc rounds) i n arr =
    length-sieve_written rounds (i + 1) n (mark_written (n - 2) 2 n i arr)
    ∙ length-mark_written (n - 2) 2 n i arr

-- From 2 on and below `n`, an element is 1 where its index is prime, and 0 where that has a divisor between 1
-- and itself.
abbrev pub Sieved : ℕ → List ℕ → Type 0
Sieved n sieve =
    (k : ℕ)
    → 2 ≤ k
    → k < n
    → (IsPrime k × (get_elem? sieve k ≡ some 1))
      ⊎ (((d : ℕ) × (2 ≤ d) × (d < k) × (d ∣ k)) × (get_elem? sieve k ≡ some 0))

sieve_written-Sieved :
    (arr : List ℕ) (n : ℕ)
    → n ≤ length arr
    → Sieved n (sieve_written (n - 2) 2 n (init_written n 0 arr))
sieve_written-Sieved arr n room k low high = elim (prime_or_divisor k low) [
  | inl prime ↦ inl (
    prime,
    sieve_written-others (n - 2) 2 n (init_written n 0 arr) k (λ j p two p_two e.
          prime.1 p p_two (grind arith) (subst (λ x. p ∣ x) e (dvd-mul_left p j)))
        ∙ initialize_array-get n 0 arr k (omega arith) (omega arith)
            (λ small. absurd (omega arith)),
  )
  | inr (d, d_low, d_high, h) ↦
      inr ((d, d_low, d_high, h), composite d (k / d) d_low d_high (div-mul_cancel d h))
]
  where
    composite :
        (d q : ℕ)
        → 2 ≤ d
        → d < k
        → q * d ≡ k
        → get_elem? (sieve_written (n - 2) 2 n (init_written n 0 arr)) k ≡ some 0
    composite d q d_low d_high e =
        let two : 2 ≤ q = grind arith in
        subst (λ x. get_elem? (sieve_written (n - 2) 2 n (init_written n 0 arr)) x ≡ some 0) e
          (sieve_written-marks (n - 2) 2 n (init_written n 0 arr) q d (omega arith) d_low
            (omega arith) two (omega (arith, high))
            (omega (arith, room, length-init_written n 0 arr)))

-- Of an array with n elements or more, prime_number_sieves writes to the first n only. From 2 on an element
-- of these is then 1 where its index is prime, and 0 where it is composite; the others stay.
pub prime_number_sieves-IsPrime :
    (arr : List ℕ) (n : ℕ)
    → n ≤ length arr
    → (sieve : List ℕ) × ((prime_number_sieves arr n ≡ some sieve)
        × Sieved n sieve
        × (length sieve ≡ length arr)
        × ((k : ℕ) → n ≤ k → get_elem? sieve k ≡ get_elem? arr k))
unfolding prime_number_sieves initialize_array
prime_number_sieves-IsPrime arr n room =
    let first = init_written n 0 arr in
    let same = length-init_written n 0 arr in
    let started = init_loop_inside n 0 arr (omega (arith, room)) in
    let run = sieve_loop_inside (n - 2) 2 n first (omega (arith, room, same)) in
    (
      sieve_written (n - 2) 2 n first,
      (
        rw (started) run,
        sieve_written-Sieved arr n room,
        length-sieve_written (n - 2) 2 n first ∙ same,
        λ k le.
            sieve_written_behind (n - 2) 2 n first k le
            ∙ init_written_behind n 0 arr k (omega (arith, le)),
      ),
    )
