-- ===== src/Malloclab/Driver/Totals.antt =====
-- malloclab/mdriver.c: the sizes of the payloads of a trace, and the heap they need.
use cso_fall.Common.{
  ℕ, ◌+◌, ◌-◌, ◌≤◌, ◌<◌, ◌≡◌, inl, inr, refl, sym, ap, ◌∙◌, Option, none, some, List, [], ◌∷◌,
  if◌then◌else◌, arith, Bool-cases, Option-cases, ltb, leb, ◌&&◌, ℕ_discrete,
}
use cso_fall.Common.Sums.{
  sum_below, sum_below_mono, sum_below_eq, sum_below_swap, sum_below_zero, sum_below_single,
  sum_below_set, interval, sum_below-interval, sum_below-interval-le,
}
use cso_fall.Malloclab.Memlib.{mem_heapsize}
use cso_fall.Malloclab.Allocator.{Allocator, Contract, Live}
use cso_fall.Malloclab.Driver.{Traceop, set_entry}
use cso_fall.Malloclab.Driver.Trace.{Ids, after}
use cso_fall.Malloclab.Driver.Bookkeeping.{Owned, set_entry-here, set_entry_there}

abbrev pub size_of : Option ℕ → ℕ
size_of none = 0
size_of (some m) = m

-- The sizes of the payloads of the indices below `n`.
abbrev pub live_total : ℕ → Ids → ℕ
live_total n ids = sum_below n (λ i. size_of (ids i))

abbrev pub larger : ℕ → ℕ → ℕ
larger a b = if ltb a b then b else a

-- The largest of the totals, from a state on.
abbrev pub peak : ℕ → Ids → List Traceop → ℕ
peak n ids [] = live_total n ids
peak n ids (op ∷ ops) = larger (live_total n ids) (peak n (after op.type op ids) ops)

pub live_total-le-peak :
    (n : ℕ) (ids : Ids) (ops : List Traceop) → live_total n ids ≤ peak n ids ops
live_total-le-peak n ids [] = omega arith
live_total-le-peak n ids (op ∷ ops) = ground arith

pub live_total-set_entry :
    (n i : ℕ) (ids : Ids) (x : Option ℕ)
    → i < n
    → live_total n (set_entry ids i x) + size_of (ids i) ≡ live_total n ids + size_of x
live_total-set_entry n i ids x lt =
    sum_below_set n i (size_of x) (λ j. size_of (ids j)) (λ j. size_of (set_entry ids i x j)) lt
      (ap size_of (set_entry-here ids i x)) (λ j ne. ap size_of (set_entry_there ids i j x ne))

-- The addresses of the payload of an index.
abbrev covered : Option ℕ → Option ℕ → ℕ → ℕ
covered (some m) (some p) x = interval p m x
covered (some m) none x = 0
covered none b x = 0

covered-cases :
    (o b : Option ℕ) (x : ℕ)
    → 0 < covered o b x
    → (m p : ℕ) × ((o ≡ some m) × (b ≡ some p) × (p ≤ x) × (x < p + m))
covered-cases (some m) (some p) x pos =
    (m, p, (refl, refl, ground (arith, pos), ground (arith, pos)))
covered-cases (some m) none x pos = absurd (omega (arith, pos))
covered-cases none b x pos = absurd (omega (arith, pos))

covered-le : (o b : Option ℕ) (x : ℕ) → covered o b x ≤ 1
covered-le (some m) (some p) x = ground arith
covered-le (some m) none x = omega arith
covered-le none b x = omega arith

module _ (a : Allocator) (c : Contract a) (s : a.State) (live : Live) (ids : Ids)
    (blocks : ℕ → Option ℕ) (sizes : ℕ → ℕ) (holds : c.Holds s live)
    (owned : Owned ids blocks sizes live) where
  size_of-covered :
      (i : ℕ) → size_of (ids i) ≡ sum_below (a.heap s).mem_brk (covered (ids i) (blocks i))
  size_of-covered i = elim (Option-cases (ids i)) [
    | inl e ↦ rw (e) (sym (sum_below_zero (a.heap s).mem_brk (λ x. 0) (λ x lt. refl)))
    | inr (m, e) ↦
        (let (p, n, (at, sized, alive, fits, pos)) = owned.known i m e in
          let (aligned, low, high) = c.inside s live p n holds alive in
          rw (e, at) (sym (sum_below-interval (a.heap s).mem_brk p m (omega (arith, high, fits)))))
  ]

  covered_once :
      (x i j : ℕ) → 0 < covered (ids i) (blocks i) x → 0 < covered (ids j) (blocks j) x → i ≡ j
  covered_once x i j here there =
      let (m, p, (e, at, from, to)) = covered-cases (ids i) (blocks i) x here in
      let (k, q, (e', at', from', to')) = covered-cases (ids j) (blocks j) x there in
      let (p1, n, (at1, sized, alive, fits, pos)) = owned.known i m e in
      let (q1, n', (at1', sized', alive', fits', pos')) = owned.known j k e' in
      let pp : p ≡ p1 = cc in
      let qq : q ≡ q1 = cc in
      elim (ℕ_discrete p1 q1) [
        | yes same ↦ owned.single i j m k p1 e e' at1 (at1' ∙ ap some (sym same))
        | no other ↦
            (let apart = c.disjoint s live p1 q1 n n' holds alive alive' other in
              absurd (ground (arith, apart, pp, qq, from, to, from', to', fits, fits')))
      ]

  -- An address of a payload is one of the heap.
  covered_inside :
      (x i : ℕ)
      → 0 < covered (ids i) (blocks i) x
      → ((a.heap s).mem_start_brk ≤ x) × (x < (a.heap s).mem_brk)
  covered_inside x i here =
      let (m, p, (e, at, from, to)) = covered-cases (ids i) (blocks i) x here in
      let (p1, n, (at1, sized, alive, fits, pos)) = owned.known i m e in
      let (aligned, low, high) = c.inside s live p1 n holds alive in
      let pp : p ≡ p1 = cc in (omega (arith, pp, low, from), omega (arith, pp, high, to, fits))

  covered_together :
      (n x : ℕ)
      → sum_below n (λ i. covered (ids i) (blocks i) x)
        ≤ interval (a.heap s).mem_start_brk ((a.heap s).mem_brk - (a.heap s).mem_start_brk) x
  covered_together n x =
      let h = a.heap s in
      let once =
        sum_below_single n (λ i. covered (ids i) (blocks i) x)
          (λ i lt. covered-le (ids i) (blocks i) x) (λ i j lt lt'. covered_once x i j) in
      elim (Bool-cases (leb h.mem_start_brk x && ltb x h.mem_brk)) [
        | inl inside ↦ ground (arith, once, inside)
        | inr outside ↦
            (let none_here =
                sum_below_zero n (λ i. covered (ids i) (blocks i) x)
                  (λ i lt. elim (ℕ_discrete (covered (ids i) (blocks i) x) 0) [
                    | yes e ↦ e
                    | no ne ↦
                        (let (low, high) = covered_inside x i (omega (arith, ne)) in
                          absurd (ground (arith, outside, low, high)))
                  ]) in
              omega (arith, none_here))
      ]

  -- All payloads together are not larger than the heap.
  pub live_total-le-heap : (n : ℕ) → live_total n ids ≤ mem_heapsize (a.heap s)
  unfolding mem_heapsize
  live_total-le-heap n =
      let lo = (a.heap s).mem_start_brk in
      let brk = (a.heap s).mem_brk in
      let each =
        sum_below_eq n (λ i. size_of (ids i)) (λ i. sum_below brk (covered (ids i) (blocks i)))
          (λ i lt. size_of-covered i) in
      let swap = sum_below_swap n brk (λ i x. covered (ids i) (blocks i) x) in
      let most =
        sum_below_mono brk (λ x. sum_below n (λ i. covered (ids i) (blocks i) x))
          (interval lo (brk - lo)) (λ x lt. covered_together n x) in
      let all = sum_below-interval-le brk lo (brk - lo) in omega (arith, each, swap, most, all)
