-- ===== src/Malloclab/Mm/Search.antt =====
-- malloclab/mm.c, `find_memory`: the walk through the free list of one round.
use cso_fall.Common.{
  ℕ, zero, suc, ◌+◌, ◌^◌, ◌≤◌, ◌<◌, ◌≡◌, ◌⊎◌, inl, inr, refl, sym, subst, ◌∙◌, Bool, true, false,
  Option, none, some, List, [], ◌∷◌, arith, All, length, Bool-cases, ℤ, pos,
}
use cso_fall.Malloclab.Headers.{header_size}
use cso_fall.Malloclab.Mm.{Mm, fit_loop, fits, take_chunk, min_guard}
use cso_fall.Malloclab.Mm.Chunks.{Chunk, rev_append}
use cso_fall.Malloclab.Mm.Links.{Fwd}

-- A chunk of `cs` that the round takes, and the result `r` is what comes of it.
pub record Fit (second : Bool) (newsize : ℤ) (m : Mm) (cs : List Chunk) (r : Option (Option ℕ × Mm))
    : Type 0 where
  pub ls : List Chunk
  pub chunk : Chunk
  pub rs : List Chunk
  pub whole : cs ≡ rev_append ls (chunk ∷ rs)
  pub fitting : fits second newsize chunk.1 ≡ true
  pub taken : r ≡ take_chunk second newsize chunk.0 m

-- The chunk at the pointer is taken; or the walk goes on.
fit_here :
    (fuel : ℕ) (second : Bool) (newsize : ℤ) (m : Mm) (l p : Option ℕ) (c : Chunk) (cs : List Chunk)
    → Fwd m.mem false l p (c ∷ cs)
    → fits second newsize c.1 ≡ true
    → fit_loop (suc fuel) second newsize p m ≡ take_chunk second newsize c.0 m
unfolding fit_loop
fit_here fuel second newsize m l p c cs f fit = rw (f.0, f.1.status, f.1.size, fit) refl

fit_skip :
    (fuel : ℕ) (second : Bool) (newsize : ℤ) (m : Mm) (l p : Option ℕ) (c : Chunk) (cs : List Chunk)
    → Fwd m.mem false l p (c ∷ cs)
    → fits second newsize c.1 ≡ false
    → fit_loop (suc fuel) second newsize p m ≡ fit_loop fuel second newsize (m.mem c.0).next m
unfolding fit_loop
fit_skip fuel second newsize m l p c cs f fit = rw (f.0, f.1.status, f.1.size, fit) refl

-- With fuel for the list, the walk takes a chunk that fits, or none fits and it ends with NULL.
pub fit_loop-cases :
    (fuel : ℕ) (second : Bool) (newsize : ℤ) (m : Mm) (l p : Option ℕ) (before cs : List Chunk)
    → Fwd m.mem false l p cs
    → length cs < fuel
    → Fit second newsize m (rev_append before cs) (fit_loop fuel second newsize p m)
      ⊎ ((fit_loop fuel second newsize p m ≡ some (none, m))
          × All (λ c. fits second newsize c.1 ≡ false) cs)
unfolding fit_loop
fit_loop-cases zero second newsize m l p before cs f enough = absurd (omega (arith, enough))
fit_loop-cases (suc fuel) second newsize m l p before [] f enough = inr (rw (f) refl, tt)
fit_loop-cases (suc fuel) second newsize m l p before (c ∷ cs) f enough =
    elim (Bool-cases (fits second newsize c.1)) [
      | inl fit ↦ inl (record {
        ls = before;
        chunk = c;
        rs = cs;
        whole = refl;
        fitting = fit;
        taken = fit_here fuel second newsize m l p c cs f fit;
      })
      | inr unfit ↦
          (let skip = fit_skip fuel second newsize m l p c cs f unfit in
            elim (fit_loop-cases fuel second newsize m (some c.0) (m.mem c.0).next (c ∷ before) cs
              f.3 (omega (arith, enough))) [
                | inl found ↦ inl (
                    subst (λ r. Fit second newsize m (rev_append before (c ∷ cs)) r) (sym skip)
                      found)
                | inr none_fit ↦ inr (skip ∙ none_fit.0, (unfit, none_fit.1))
              ])
    ]

-- The tests of the rounds on a size that is no larger than an `int` with the guard.
pub fits_first : (k s : ℕ) → fits false (pos k) s ≡ true → (k ≤ s) × (s < k + min_guard)
fits_first k s h = ground arith

pub fits_second : (k s : ℕ) → k < 2 ^ 63 → fits true (pos k) s ≡ true → k + header_size < s
fits_second k s small h = ground (arith, small, h)

-- What neither round takes is too small.
pub fits_neither :
    (k s : ℕ) → k < 2 ^ 63 → fits false (pos k) s ≡ false → fits true (pos k) s ≡ false → s < k
fits_neither k s small h h' = ground (arith, small, h, h')
