-- ===== src/Rklab/Match/RabinKarp.antt =====
-- What `rk_substring_match` counts.
use cso_fall.Common.{
  ℕ, zero, suc, ◌+◌, ◌-◌, ◌≤◌, ◌<◌, ◌≡◌, refl, sym, ap, ◌∙◌, inl, inr, Bool, true, false, ◌&&◌,
  Option, some, List, [], ◌∷◌, Bool-cases, length-take, ℤ, pos, negsuc, ltb, take, arith, length,
  get_elem?, lt→ltb, le→leb, gt→leb, dec_le, dec_lt,
}
use cso_fall.Common.Int.{eqb_ℤ, eqb_ℤ_refl}
use cso_fall.Rklab.Text.{
  CString, chars, char_at, is_prefix, stands, count_at, first_at, strlength_lem,
}
use cso_fall.Rklab.Hash.{rkhash_next}
use cso_fall.Rklab.Hash.Rolling.{hash_of, weight, rkhash_init-value, rkhash_next-value, take-snoc}
use cso_fall.Rklab.Match.Noted.{noted, noted-cons, noted-nil, noted_short, noted_start, all_matches}
use cso_fall.Rklab.Match.{
  MatchResult, result, note_match, rk_inner, rk_loop, rk_search, rk_substring_match,
}
use mathlib.Core.Path.{ap₂}

inner-prefix : (p d : CString) → rk_inner p d true ≡ is_prefix p d
unfolding rk_inner is_prefix
inner-prefix [] d = refl
inner-prefix (p ∷ ps) [] = refl
inner-prefix (p ∷ ps) (d ∷ ds) = ground (arith, inner-prefix ps ds)

inner-stands : (p d : CString) → rk_inner p d false ≡ stands p d
unfolding rk_inner is_prefix
inner-stands [] d = refl
inner-stands (p ∷ ps) [] = refl
inner-stands (p ∷ ps) (d ∷ ds) = ground (arith, inner-prefix ps ds)

pub length-chars : (w : List ℕ) → length (chars w) ≡ length w
length-chars [] = refl
length-chars (c ∷ w) = ap suc (length-chars w)

-- The document begins with the pattern only if the window is the pattern.
window-eq : (p w : List ℕ) → is_prefix (chars p) (chars w) ≡ true → take (length p) w ≡ p
unfolding is_prefix
window-eq [] w h = refl
window-eq (x ∷ p) [] h = cc
window-eq (x ∷ p) (c ∷ w) h = ground (arith, window-eq p w)

pub window-stands : (p w : List ℕ) → stands (chars p) (chars w) ≡ true → take (length p) w ≡ p
window-stands [] w h = cc
window-stands (x ∷ p) w h = window-eq (x ∷ p) w h

-- So a match is missed neither by the hashes nor by the comparison behind them.
found-stands :
    (p w : List ℕ) (doc_hash : ℤ)
    → doc_hash ≡ hash_of (take (length p) w)
    → (eqb_ℤ (hash_of p) doc_hash && rk_inner (chars p) (chars w) false)
      ≡ stands (chars p) (chars w)
found-stands p w doc_hash e = elim (Bool-cases (stands (chars p) (chars w))) [
  | inl h ↦ rw (e, window-stands p w h, eqb_ℤ_refl (hash_of p), inner-stands, h)
  | inr h ↦ rw (inner-stands, h) (ground arith)
]

-- The character behind a window that lies in the text, or the terminator.
pub read_behind :
    (w : List ℕ) (m : ℕ) → m ≤ length w → (r : ℕ) × (char_at (chars w) m ≡ some (pos r))
unfolding char_at
read_behind [] zero h = (0, refl)
read_behind [] (suc m) h = absurd (omega arith)
read_behind (c ∷ w) zero h = (c, refl)
read_behind (c ∷ w) (suc m) h = read_behind w m (omega arith)

get-read_behind :
    (w : List ℕ) (m : ℕ) {r : ℕ}
    → char_at (chars w) m ≡ some (pos r)
    → m < length w
    → get_elem? w m ≡ some r
unfolding char_at
get-read_behind [] m h lt = absurd (omega arith)
get-read_behind (c ∷ w) zero h lt = ground arith
get-read_behind (c ∷ w) (suc m) h lt = get-read_behind w m h (omega arith)

-- The rolling hash follows the window.
pub next_window :
    (k c r : ℕ) (w : List ℕ) (doc_hash : ℤ)
    → doc_hash ≡ hash_of (take (suc k) (c ∷ w))
    → char_at (chars (c ∷ w)) (suc k) ≡ some (pos r)
    → suc k ≤ length w
    → rkhash_next doc_hash (weight (suc k)) (pos c) (pos r) ≡ hash_of (take (suc k) w)
unfolding char_at
next_window k c r w doc_hash e read h =
    let here = get-read_behind w k read (omega arith) in
    let width : length (take k w) ≡ k = omega (arith, length-take k w) in
    rw (e, take-snoc w k here) (rw width at (rkhash_next-value c r (take k w)))

pub take_all : (p : List ℕ) → take (length p) p ≡ p
take_all [] = refl
take_all (x ∷ p) = ap (λ t. x ∷ t) (take_all p)

module _ (k n : ℕ) (p : List ℕ) (size : length p ≡ suc k) where
  abbrev run_loop : ℕ → List ℕ → ℕ → ℤ → MatchResult → Option MatchResult
  run_loop fuel w = rk_loop (chars p) (suc k) n (hash_of p) (weight (suc k)) fuel (chars w)

  -- With fuel for the rest of the document the loop notes every position of the pattern.
  rk_loop-noted :
      (fuel : ℕ) (w : List ℕ) (index : ℕ) (doc_hash : ℤ) (r : MatchResult)
      → length w + 1 < fuel
      → index + length w ≡ n
      → suc k ≤ n
      → (suc k ≤ length w → doc_hash ≡ hash_of (take (suc k) w))
      → run_loop fuel w index doc_hash r ≡ some (noted (stands (chars p)) index (chars w) r)
  unfolding rk_loop char_at
  rk_loop-noted zero w index doc_hash r few at fits e = absurd (omega arith)
  rk_loop-noted (suc fuel) [] index doc_hash r few at fits e =
      rw (gt→leb (n - suc k) index (omega arith))
        (sym (ap some (noted-nil (stands (chars p)) index r)))
  rk_loop-noted (suc fuel) (c ∷ w) index doc_hash r few at fits e =
      elim (dec_le (suc k) (suc (length w))) [
        | no short ↦ rw (gt→leb (n - suc k) index (omega arith)) (
            sym (
              ap some (
                noted_short (chars p) index (chars (c ∷ w)) r
                  (omega (arith, length-chars p, length-chars (c ∷ w))))))
        | yes long ↦
            let (x, read) = read_behind (c ∷ w) (suc k) long in
            let window : doc_hash ≡ hash_of (take (length p) (c ∷ w)) = rw size (e long) in
            let rest =
              rk_loop-noted fuel w (index + 1)
                (rkhash_next doc_hash (weight (suc k)) (pos c) (pos x))
                (note_match (stands (chars p) (chars (c ∷ w))) index r) (omega arith) (omega arith)
                fits (λ h. next_window k c x w doc_hash (e long) read h) in
            rw
              (le→leb index (n - suc k) (omega arith), read, found-stands p (c ∷ w) doc_hash window)
              (rest ∙ ap some (noted-cons (stands (chars p)) index (pos c) (chars w) r))
      ]

note_none : (b : Bool) (index : ℕ) (r : MatchResult) → note_match (b && false) index r ≡ r
note_none true index r = refl
note_none false index r = refl

-- With an empty pattern the loop reads nothing out of bounds either, and finds nothing.
rk_loop_nil :
    (n fuel : ℕ) (pattern_hash h doc_hash : ℤ) (doc : CString) (index : ℕ) (r : MatchResult)
    → length doc + 1 < fuel
    → index + length doc ≡ n
    → rk_loop [] 0 n pattern_hash h fuel doc index doc_hash r ≡ some r
unfolding rk_loop rk_inner char_at
rk_loop_nil n zero ph h dh doc index r few at = absurd (omega arith)
rk_loop_nil n (suc zero) ph h dh [] index r few at = absurd (omega arith)
rk_loop_nil n (suc (suc fuel)) ph h dh [] index r few at =
    rw (le→leb index (n - 0) (omega arith), gt→leb (n - 0) (index + 1) (omega arith)) (ground arith)
rk_loop_nil n (suc fuel) ph h dh (c ∷ doc) index r few at =
    rw (le→leb index (n - 0) (omega arith), char_at)
      (rk_loop_nil n fuel ph h (rkhash_next dh h c c) doc (index + 1) _ (omega arith) (omega arith)
        ∙ ap some (note_none (eqb_ℤ ph dh) index r))

count_at_never :
    (q : CString → Bool) (d : CString) (i : ℕ)
    → ((d : CString) → q d ≡ false)
    → (count_at q d ≡ 0) × (first_at q i d ≡ negsuc 0)
unfolding count_at first_at
count_at_never q [] i h = (refl, refl)
count_at_never q (c ∷ d) i h =
    let (a, b) = count_at_never q d (i + 1) h in rw (h (c ∷ d)) (omega (arith, a), b)

rk_search-nil :
    (doc : List ℕ) → rk_search [] (chars doc) 0 (length doc) ≡ some (all_matches [] (chars doc))
unfolding rk_search
rk_search-nil doc =
    let (none_counted, none_first) = count_at_never (stands []) (chars doc) 0 (λ d. refl) in
    let n = length doc in
    let e : ltb n 0 ≡ false = ground arith in
    rw
      (
        none_counted,
        none_first,
        e,
        rkhash_init-value [] 0 (omega arith),
        rkhash_init-value doc 0 (omega arith),
      )
      (rk_loop_nil n (n + 2) (hash_of []) (weight 0) (hash_of []) (chars doc) 0
        (result 0 (negsuc 0)) (omega (arith, length-chars doc)) (omega (arith, length-chars doc)))

rk_search-cons :
    (x : ℕ) (p doc : List ℕ)
    → rk_search (chars (x ∷ p)) (chars doc) (suc (length p)) (length doc)
      ≡ some (all_matches (chars (x ∷ p)) (chars doc))
unfolding rk_search
rk_search-cons x p doc = elim (dec_lt (length doc) (suc (length p))) [
  | yes short ↦ rw (lt→ltb _ _ short) (
      ap some (
        sym (
          noted_short (chars (x ∷ p)) 0 (chars doc) (result 0 (negsuc 0))
            (omega (arith, length-chars doc, length-chars p)))
        ∙ noted_start (stands (chars (x ∷ p))) (chars doc)))
  | no fits ↦
      let n = length doc in
      let m = suc (length p) in
      let e : ltb n m ≡ false = ground arith in
      rw
        (
          e,
          rkhash_init-value (x ∷ p) m (omega arith),
          rkhash_init-value doc m (omega arith),
          take_all p,
        )
        (rk_loop-noted (length p) n (x ∷ p) refl (n + 2) doc 0 (hash_of (take m doc))
            (result 0 (negsuc 0)) (omega arith) (omega arith) (omega arith) (λ _. refl)
          ∙ ap some (noted_start (stands (chars (x ∷ p))) (chars doc)))
]

-- `rk_substring_match` returns, and reports all positions of the pattern. The characters are those
-- that a signed `char` holds as 0 to 127.
pub rk_substring_match_lem :
    (pattern doc : List ℕ)
    → rk_substring_match (chars pattern) (chars doc)
      ≡ some (all_matches (chars pattern) (chars doc))
unfolding rk_substring_match
rk_substring_match_lem pattern doc =
    ap₂ (rk_search (chars pattern) (chars doc))
      (strlength_lem (chars pattern) ∙ length-chars pattern)
      (strlength_lem (chars doc) ∙ length-chars doc)
    ∙ found pattern
  where
    found :
        (p : List ℕ)
        → rk_search (chars p) (chars doc) (length p) (length doc)
          ≡ some (all_matches (chars p) (chars doc))
    found [] = rk_search-nil doc
    found (x ∷ p) = rk_search-cons x p doc
