-- ===== src/Clab/Token/Split.antt =====
-- How string_token cuts a string.
use cso_fall.Common.{
  ℕ, suc, ◌≡◌, ◌⊎◌, inl, inr, refl, sym, ap, subst, true, false, Option, none, some, [], ◌∷◌, ◌++◌,
  ℤ, All, replicate, Bool-cases,
}
use cso_fall.Common.Int.{eqb_ℤ, eqb_ℤ_iff}
use cso_fall.Common.Text.{CString}
use cso_fall.Clab.Token.{skip, scan, string_token}

abbrev pub Plain : ℤ → CString → Type 0
Plain delim = All (λ c. eqb_ℤ c delim ≡ false)

-- A string that is saved begins with a character that is no delimiter.
abbrev pub Begins : ℤ → CString → Type 0
Begins delim [] = ⊥
Begins delim (c ∷ s) = eqb_ℤ c delim ≡ false

-- `k` delimiters, and then nothing, or a string for the next call.
abbrev pub Rest : ℤ → CString → Option CString → Type 0
Rest delim s none = (k : ℕ) × (s ≡ replicate k delim)
Rest delim s (some next) = (k : ℕ) × (s ≡ replicate k delim ++ next) × Begins delim next

skip-Rest : (delim : ℤ) (s : CString) → Rest delim s (skip delim s)
unfolding skip
skip-Rest delim [] = (0, refl)
skip-Rest delim (c ∷ s) = elim (Bool-cases (eqb_ℤ c delim)) [
  | inl e ↦
      subst (Rest delim (c ∷ s)) (sym (if_true e))
        (one_more (skip delim s) ((eqb_ℤ_iff c delim).0 e) (skip-Rest delim s))
  | inr e ↦ subst (Rest delim (c ∷ s)) (sym (if_false e)) (0, refl, e)
]
  where
    if_true : eqb_ℤ c delim ≡ true → skip delim (c ∷ s) ≡ skip delim s
    if_true e = rw (e) refl

    if_false : eqb_ℤ c delim ≡ false → skip delim (c ∷ s) ≡ some (c ∷ s)
    if_false e = rw (e) refl

    one_more : (o : Option CString) → c ≡ delim → Rest delim s o → Rest delim (c ∷ s) o
    one_more none same (k, e) = (suc k, rw (same, e) refl)
    one_more (some next) same (k, e, b) = (suc k, rw (same, e) refl, b)

-- The parts of a cut string.
pub record Cut (delim : ℤ) (s : CString) (token : CString) (saved : Option CString) : Type 0 where
  pub plain : Plain delim token
  pub after : CString
  pub whole : s ≡ token ++ after
  pub rest : Rest delim after saved
  pub stops : (after ≡ []) ⊎ ((t : CString) × (after ≡ delim ∷ t))

scan-Cut : (delim : ℤ) (s : CString) → Cut delim s (scan delim s).0 (scan delim s).1
unfolding scan
scan-Cut delim [] = record {
  plain = tt;
  after = [];
  whole = refl;
  rest = (0, refl);
  stops = inl refl;
}
scan-Cut delim (c ∷ s) = elim (Bool-cases (eqb_ℤ c delim)) [
  | inl e ↦
      subst (λ r. Cut delim (c ∷ s) r.0 r.1) (sym (hit e))
        (record {
          plain = tt;
          after = c ∷ s;
          whole = refl;
          rest = skip-Rest delim (c ∷ s);
          stops = inr (s, ap (λ x. x ∷ s) ((eqb_ℤ_iff c delim).0 e));
        })
  | inr e ↦
      let cut = scan-Cut delim s in
      subst (λ r. Cut delim (c ∷ s) r.0 r.1) (sym (miss e))
        (record {
          plain = (e, cut.plain);
          after = cut.after;
          whole = ap (λ xs. c ∷ xs) cut.whole;
          rest = cut.rest;
          stops = cut.stops;
        })
]
  where
    hit : eqb_ℤ c delim ≡ true → scan delim (c ∷ s) ≡ ([], skip delim (c ∷ s))
    hit e = rw (e) refl

    miss : eqb_ℤ c delim ≡ false → scan delim (c ∷ s) ≡ (c ∷ (scan delim s).0, (scan delim s).1)
    miss e = rw (e) refl

-- A call on a string, or on what an earlier call saved, returns the characters up to the first
-- delimiter or the end. Behind them stand the delimiters that it overwrites, and what it saves is
-- what follows these: nothing, or a string that does not begin with a delimiter.
pub string_token-Cut :
    (s : CString) (delim : ℤ) (saveptr : Option CString)
    → (token : CString) × (saved : Option CString) × (string_token (some s) delim saveptr
        ≡ (some token, saved))
      × (string_token none delim (some s) ≡ (some token, saved))
      × Cut delim s token saved
unfolding string_token
string_token-Cut s delim saveptr =
    ((scan delim s).0, (scan delim s).1, refl, refl, scan-Cut delim s)
