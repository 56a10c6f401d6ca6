-- ===== src/Clab/Sort/Laws.antt =====
-- bubble_sort of clab/mini/part2.c: its end, the order and the elements.
use mathlib.Core.Bool.{true≢false}
use cso_fall.Common.{
  ℕ, zero, suc, ◌+◌, ◌≤◌, ◌<◌, ◌≡◌, ◌⊎◌, inl, inr, refl, sym, ap, ◌∙◌, true, false, some, List, [],
  ◌∷◌, ℤ, pos, negsuc, ◌==◌, ==_iff, to_nat, Bool-cases, All, arith,
}
use cso_fall.Common.Int.{ltb_ℤ, eqb_ℤ}
use cso_fall.Clab.Sort.{pass, mistakes, sort_loop, less, inversions, bubble_sort}

-- No element is greater than a later one.
abbrev pub Sorted : List ℤ → Type 0
Sorted [] = Unit
Sorted (x ∷ xs) = All (λ y. ltb_ℤ y x ≡ false) xs × Sorted xs

-- How often a value stands in a list.
unfoldable pub occurrences : ℤ → List ℤ → ℕ
occurrences v [] = 0
occurrences v (x ∷ xs) = to_nat (eqb_ℤ v x) + occurrences v xs

ltb_ℤ_asym : (x y : ℤ) → ltb_ℤ y x ≡ true → ltb_ℤ x y ≡ false
ltb_ℤ_asym (pos x) (pos y) = ground arith
ltb_ℤ_asym (pos x) (negsuc y) = ground arith
ltb_ℤ_asym (negsuc x) (pos y) = ground arith
ltb_ℤ_asym (negsuc x) (negsuc y) = ground arith

ltb_ℤ_trans : (x y z : ℤ) → ltb_ℤ y x ≡ false → ltb_ℤ z y ≡ false → ltb_ℤ z x ≡ false
ltb_ℤ_trans (pos x) (pos y) (pos z) = ground arith
ltb_ℤ_trans (pos x) (pos y) (negsuc z) = ground arith
ltb_ℤ_trans (pos x) (negsuc y) (pos z) = ground arith
ltb_ℤ_trans (pos x) (negsuc y) (negsuc z) = ground arith
ltb_ℤ_trans (negsuc x) (pos y) (pos z) = ground arith
ltb_ℤ_trans (negsuc x) (pos y) (negsuc z) = ground arith
ltb_ℤ_trans (negsuc x) (negsuc y) (pos z) = ground arith
ltb_ℤ_trans (negsuc x) (negsuc y) (negsuc z) = ground arith

-- A pass moves elements only.
pass-occurrences : (v : ℤ) (arr : List ℤ) → occurrences v (pass arr) ≡ occurrences v arr
unfolding pass occurrences
pass-occurrences v [] = refl
pass-occurrences v (x ∷ []) = refl
pass-occurrences v (x ∷ y ∷ arr) = elim (Bool-cases (ltb_ℤ y x)) [
  | inl e ↦ rw (e, pass) (omega (arith, pass-occurrences v (x ∷ arr)))
  | inr e ↦ rw (e, pass) (omega (arith, pass-occurrences v (y ∷ arr)))
]

pass-less : (v : ℤ) (arr : List ℤ) → less v (pass arr) ≡ less v arr
unfolding pass less
pass-less v [] = refl
pass-less v (x ∷ []) = refl
pass-less v (x ∷ y ∷ arr) = elim (Bool-cases (ltb_ℤ y x)) [
  | inl e ↦ rw (e, pass) (omega (arith, pass-less v (x ∷ arr)))
  | inr e ↦ rw (e, pass) (omega (arith, pass-less v (y ∷ arr)))
]

pass_swaps : (x y : ℤ) (arr : List ℤ) → ltb_ℤ y x ≡ true → pass (x ∷ y ∷ arr) ≡ y ∷ pass (x ∷ arr)
unfolding pass
pass_swaps x y arr e = rw (e, pass) refl

pass_keeps : (x y : ℤ) (arr : List ℤ) → ltb_ℤ y x ≡ false → pass (x ∷ y ∷ arr) ≡ x ∷ pass (y ∷ arr)
unfolding pass
pass_keeps x y arr e = rw (e, pass) refl

-- A pass finds no mistake and changes nothing, or it removes an inversion.
pass-inversions :
    (arr : List ℤ)
    → ((mistakes arr ≡ 0) × (pass arr ≡ arr)) ⊎ (inversions (pass arr) < inversions arr)
unfolding inversions less mistakes pass
pass-inversions [] = inl (refl, refl)
pass-inversions (x ∷ []) = inl (refl, refl)
pass-inversions (x ∷ y ∷ arr) = elim (Bool-cases (ltb_ℤ y x)) [
  | inl e ↦
      let fewer : inversions (pass (x ∷ arr)) ≤ inversions (x ∷ arr) =
        elim (pass-inversions (x ∷ arr)) [
          | inl (_, same) ↦ omega (arith, ap inversions same)
          | inr lt ↦ omega (arith, lt)
        ] in
      inr (
        omega (
          arith,
          fewer,
          ap inversions (pass_swaps x y arr e),
          pass-less y (x ∷ arr),
          ap to_nat e,
          ap to_nat (ltb_ℤ_asym x y e),
        ))
  | inr e ↦ elim (pass-inversions (y ∷ arr)) [
    | inl (none_wrong, same) ↦
        inl (omega (arith, none_wrong, ap to_nat e), pass_keeps x y arr e ∙ ap (λ zs. x ∷ zs) same)
    | inr lt ↦ inr (
        omega (arith, lt, ap inversions (pass_keeps x y arr e), pass-less x (y ∷ arr), ap to_nat e))
  ]
]

mistakes-Sorted : (arr : List ℤ) → mistakes arr ≡ 0 → Sorted arr
unfolding mistakes
mistakes-Sorted [] e = tt
mistakes-Sorted (x ∷ []) e = (tt, tt)
mistakes-Sorted (x ∷ y ∷ arr) e =
    let rest = mistakes-Sorted (y ∷ arr) (omega (arith, e)) in
    let first : ltb_ℤ y x ≡ false = ground (arith, e) in ((first, above x y arr first rest.0), rest)
  where
    above :
        (x y : ℤ) (zs : List ℤ)
        → ltb_ℤ y x ≡ false
        → All (λ z. ltb_ℤ z y ≡ false) zs
        → All (λ z. ltb_ℤ z x ≡ false) zs
    above x y [] f a = tt
    above x y (z ∷ zs) f a = (ltb_ℤ_trans x y z f a.0, above x y zs f a.1)

sort_loop-Sorted :
    (fuel : ℕ) (arr : List ℤ)
    → inversions arr < fuel
    → (out : List ℤ) × (sort_loop fuel arr ≡ some out)
      × Sorted out
      × ((v : ℤ) → occurrences v out ≡ occurrences v arr)
unfolding sort_loop
sort_loop-Sorted zero arr lt = absurd (omega arith)
sort_loop-Sorted (suc fuel) arr lt = elim (Bool-cases (mistakes (pass arr) == 0)) [
  | inl done ↦ (
    pass arr,
    rw (done) refl,
    mistakes-Sorted (pass arr) ((==_iff (mistakes (pass arr)) 0).0 done),
    λ v. pass-occurrences v arr,
  )
  | inr more ↦ elim (pass-inversions arr) [
    | inl (none_wrong, same) ↦ absurd (
        true≢false
          (sym ((==_iff (mistakes (pass arr)) 0).1 (ap mistakes same ∙ none_wrong)) ∙ more))
    | inr fewer ↦
        let (out, run, sorted, kept) = sort_loop-Sorted fuel (pass arr) (omega arith) in
        (out, rw (more) run, sorted, λ v. kept v ∙ pass-occurrences v arr)
  ]
]

-- `bubble_sort` returns, on every array, with its elements in increasing order: no element is greater
-- than a later one, and each value stands there as often as before.
pub bubble_sort-Sorted :
    (arr : List ℤ)
    → (out : List ℤ) × (bubble_sort arr ≡ some out)
      × Sorted out
      × ((v : ℤ) → occurrences v out ≡ occurrences v arr)
unfolding bubble_sort
bubble_sort-Sorted arr = sort_loop-Sorted (inversions arr + 1) arr (omega arith)
