-- ===== src/Threadlab/Rwlock/Count.antt =====
-- How many of the first `n` threads stand at a place.
use cso_fall.Common.{ℕ, zero, suc, ◌+◌, ◌≤◌, ◌<◌, ◌≡◌, ◌≢◌, refl, arith, dec_lt}
use cso_fall.Threadlab.Rwlock.Threads.{
  Pc, reader_asleep, reader_woken, writer_asleep, writer_woken, reading, writing, move,
}

abbrev pub waits_to_read : Pc → ℕ
waits_to_read reader_asleep = 1
waits_to_read reader_woken = 1
waits_to_read _ = 0

abbrev pub waits_to_write : Pc → ℕ
waits_to_write writer_asleep = 1
waits_to_write writer_woken = 1
waits_to_write _ = 0

abbrev pub reads : Pc → ℕ
reads reading = 1
reads _ = 0

abbrev pub writes : Pc → ℕ
writes writing = 1
writes _ = 0

module _ (w : Pc → ℕ) where
  unfoldable pub tally : ℕ → (ℕ → Pc) → ℕ
  tally zero pc = 0
  tally (suc n) pc = w (pc n) + tally n pc

  tally_above : (n : ℕ) (pc : ℕ → Pc) (i : ℕ) (p : Pc) → n ≤ i → tally n (move pc i p) ≡ tally n pc
  unfolding tally
  tally_above zero pc i p h = refl
  tally_above (suc n) pc i p h = ground (arith, tally_above n pc i p)

  -- A thread that moves is counted where it goes and no longer where it was.
  pub tally-move :
      (n : ℕ) (pc : ℕ → Pc) (i : ℕ) (p : Pc)
      → i < n
      → tally n (move pc i p) + w (pc i) ≡ tally n pc + w p
  unfolding tally
  tally-move zero pc i p h = absurd (omega arith)
  tally-move (suc n) pc i p h = elim (dec_lt i n) [
    | yes below ↦ ground (arith, tally-move n pc i p below)
    | no top ↦ ground (arith, tally_above n pc i p)
  ]

  pub tally_same :
      (n : ℕ) (pc pc' : ℕ → Pc) → ((i : ℕ) → w (pc' i) ≡ w (pc i)) → tally n pc' ≡ tally n pc
  unfolding tally
  tally_same zero pc pc' h = refl
  tally_same (suc n) pc pc' h = omega (arith, h n, tally_same n pc pc' h)

  pub le-tally : (n : ℕ) (pc : ℕ → Pc) (i : ℕ) → i < n → w (pc i) ≤ tally n pc
  unfolding tally
  le-tally zero pc i h = absurd (omega arith)
  le-tally (suc n) pc i h = elim (dec_lt i n) [
    | yes below ↦ omega (arith, le-tally n pc i below)
    | no top ↦ ground arith
  ]

  pub two-le-tally :
      (n : ℕ) (pc : ℕ → Pc) (i j : ℕ) → i < n → j < n → i ≢ j → w (pc i) + w (pc j) ≤ tally n pc
  unfolding tally
  two-le-tally zero pc i j hi hj ne = absurd (omega arith)
  two-le-tally (suc n) pc i j hi hj ne = elim (dec_lt i n) [
    | yes i_below ↦ elim (dec_lt j n) [
      | yes j_below ↦ omega (arith, two-le-tally n pc i j i_below j_below ne)
      | no top ↦ ground (arith, le-tally n pc i i_below)
    ]
    | no top ↦ ground (arith, le-tally n pc j (omega arith))
  ]

  pub tally-eq-zero : (n : ℕ) (pc : ℕ → Pc) → ((i : ℕ) → w (pc i) ≡ 0) → tally n pc ≡ 0
  unfolding tally
  tally-eq-zero zero pc h = refl
  tally-eq-zero (suc n) pc h = omega (arith, h n, tally-eq-zero n pc h)
