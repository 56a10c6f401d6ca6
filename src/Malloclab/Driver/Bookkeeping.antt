-- ===== src/Malloclab/Driver/Bookkeeping.antt =====
-- malloclab/mdriver.c: the arrays of a trace, against the payloads that the allocator has handed out.
use mathlib.Core.Option.{none-ne-some, some-injective}
use cso_fall.Common.{
  ℕ, ◌+◌, ◌%◌, ◌≤◌, ◌<◌, ◌≡◌, ◌≢◌, ◌⊎◌, inl, inr, sym, ap, ◌∙◌, Option, none, some, arith,
  ℕ_discrete,
}
use cso_fall.Malloclab.Allocator.{Live, with_payload}
use cso_fall.Malloclab.Driver.{set_entry, memset}
use cso_fall.Malloclab.Driver.Trace.{Ids}

-- Each index with a size has a live payload of its own, with room for the size.
pub record Owned (ids : Ids) (blocks : ℕ → Option ℕ) (sizes : ℕ → ℕ) (live : Live) : Type 0 where
  pub known :
      (i m : ℕ)
      → ids i ≡ some m
      → (p n : ℕ) × ((blocks i ≡ some p) × (sizes i ≡ m) × (live p ≡ some n) × (m ≤ n) × (0 < m))
  pub single :
      (i j m k p : ℕ)
      → ids i ≡ some m
      → ids j ≡ some k
      → blocks i ≡ some p
      → blocks j ≡ some p
      → i ≡ j

pub set_entry-here {ℓ} : {A : Type ℓ} (array : ℕ → A) (i : ℕ) (x : A) → set_entry array i x i ≡ x
set_entry-here array i x = ground arith

pub set_entry_there {ℓ} :
    {A : Type ℓ} (array : ℕ → A) (i j : ℕ) (x : A) → i ≢ j → set_entry array i x j ≡ array j
set_entry_there array i j x ne = ground arith

pub set_entry_twice {ℓ} :
    {A : Type ℓ} (array : ℕ → A) (i : ℕ) (x y : A)
    → set_entry (set_entry array i x) i y ≡ set_entry array i y
set_entry_twice array i x y = λ k j. pointwise j k
  where
    pointwise : (j : ℕ) → set_entry (set_entry array i x) i y j ≡ set_entry array i y j
    pointwise j = ground arith

-- An index that has no size after one is dropped is another index.
pub kept_index :
    (ids : Ids) (i j m : ℕ) → set_entry ids i none j ≡ some m → (i ≢ j) × (ids j ≡ some m)
kept_index ids i j m e = elim (ℕ_discrete i j) [
  | yes same ↦
      absurd (none-ne-some m (sym (set_entry-here ids i none) ∙ ap (set_entry ids i none) same ∙ e))
  | no ne ↦ (ne, sym (set_entry_there ids i j none ne) ∙ e)
]

-- The payload of one index is given back.
pub Owned-drop :
    (ids : Ids) (blocks : ℕ → Option ℕ) (sizes : ℕ → ℕ) (live : Live) (i m p : ℕ)
    → Owned ids blocks sizes live
    → ids i ≡ some m
    → blocks i ≡ some p
    → Owned (set_entry ids i none) blocks sizes (with_payload live p none)
Owned-drop ids blocks sizes live i m p o e b = record {
  known = λ j k h.
      (let (ne, h') = kept_index ids i j k h in
        let (q, n, (at, sized, alive, fits, pos)) = o.known j k h' in
        let other : p ≢ q = λ same. ne (o.single i j m k p e h' b (at ∙ ap some (sym same))) in
        (q, n, (at, sized, set_entry_there live p q none other ∙ alive, fits, pos)));
  single = λ j j' k k' q h h' at at'.
      o.single j j' k k' q (kept_index ids i j k h).1 (kept_index ids i j' k' h').1 at at';
}

-- An index after one is set.
set_index :
    (ids : Ids) (i j m k : ℕ)
    → set_entry ids i (some m) j ≡ some k
    → ((i ≡ j) × (m ≡ k)) ⊎ ((i ≢ j) × (ids j ≡ some k))
set_index ids i j m k e = elim (ℕ_discrete i j) [
  | yes same ↦ inl (
    same,
    some-injective m k
        (sym (set_entry-here ids i (some m)) ∙ ap (set_entry ids i (some m)) same ∙ e),
  )
  | no ne ↦ inr (ne, sym (set_entry_there ids i j (some m) ne) ∙ e)
]

-- An index that has a payload has not the fresh one.
Owned-fresh :
    (ids : Ids) (blocks : ℕ → Option ℕ) (sizes : ℕ → ℕ) (live : Live) (i q : ℕ)
    → Owned ids blocks sizes live
    → live q ≡ none
    → (j n : ℕ) → i ≢ j
    → ids j ≡ some n
    → set_entry blocks i (some q) j ≡ some q
    → ⊥
Owned-fresh ids blocks sizes live i q o fresh j n ne old at =
    let (p, room, (at', sized, alive, fits', pos')) = o.known j n old in
    let e = some-injective p q (sym at' ∙ sym (set_entry_there blocks i j (some q) ne) ∙ at) in
    none-ne-some room (sym fresh ∙ ap live (sym e) ∙ alive)

-- A new payload becomes that of an index.
pub Owned-take :
    (ids : Ids) (blocks : ℕ → Option ℕ) (sizes : ℕ → ℕ) (live : Live) (i m q k : ℕ)
    → Owned ids blocks sizes live
    → live q ≡ none
    → m ≤ k
    → 0 < m
    → Owned
        (set_entry ids i (some m))
        (set_entry blocks i (some q))
        (set_entry sizes i m)
        (with_payload live q (some k))
Owned-take ids blocks sizes live i m q k o fresh fits pos = record {
  known = λ j n h. elim (set_index ids i j m n h) [
    | inl (same, size) ↦ (
      q,
      k,
      (
        ap (set_entry blocks i (some q)) (sym same) ∙ set_entry-here blocks i (some q),
        ap (set_entry sizes i m) (sym same) ∙ set_entry-here sizes i m ∙ size,
        set_entry-here live q (some k),
        omega (arith, fits, size),
        omega (arith, pos, size),
      ),
    )
    | inr (ne, h') ↦
        (let (p, room, (at, sized, alive, fit, some_size)) = o.known j n h' in
          let other : q ≢ p = λ e. none-ne-some room (sym fresh ∙ ap live e ∙ alive) in
          (
            p,
            room,
            (
              set_entry_there blocks i j (some q) ne ∙ at,
              set_entry_there sizes i j m ne ∙ sized,
              set_entry_there live q p (some k) other ∙ alive,
              fit,
              some_size,
            ),
          ))
  ];
  single = λ j j' n n' p h h' at at'. elim (set_index ids i j m n h) [
    | inl (same, size) ↦ elim (set_index ids i j' m n' h') [
      | inl (same', size') ↦ sym same ∙ same'
      | inr (ne', old') ↦ absurd (
          Owned-fresh ids blocks sizes live i q o fresh j' n' ne' old' (
            at'
            ∙ sym at
            ∙ ap (set_entry blocks i (some q)) (sym same)
            ∙ set_entry-here blocks i (some q)))
    ]
    | inr (ne, old) ↦ elim (set_index ids i j' m n' h') [
      | inl (same', size') ↦ absurd (
          Owned-fresh ids blocks sizes live i q o fresh j n ne old (
            at
            ∙ sym at'
            ∙ ap (set_entry blocks i (some q)) (sym same')
            ∙ set_entry-here blocks i (some q)))
      | inr (ne', old') ↦
          o.single j j' n n' p old old' (sym (set_entry_there blocks i j (some q) ne) ∙ at)
            (sym (set_entry_there blocks i j' (some q) ne') ∙ at')
    ]
  ];
}

-- Every payload of the trace holds the low byte of its index.
abbrev pub Filled : Ids → (ℕ → Option ℕ) → (ℕ → ℕ) → Type 0
Filled ids blocks bytes =
    (i m p j : ℕ) → ids i ≡ some m → blocks i ≡ some p → j < m → bytes (p + j) ≡ i % 256

-- No live payload has a byte in common with the `k` bytes at `q`.
abbrev pub Clear : Live → (q k : ℕ) → Type 0
Clear live q k = (p n : ℕ) → live p ≡ some n → (p + n ≤ q) ⊎ (q + k ≤ p)

-- Writes to those bytes leave the payloads filled.
pub Filled-outside :
    (ids : Ids) (blocks : ℕ → Option ℕ) (sizes : ℕ → ℕ) (live : Live) (bytes bytes' : ℕ → ℕ)
    (q k : ℕ)
    → Owned ids blocks sizes live
    → Clear live q k
    → ((x : ℕ) → (x < q) ⊎ (q + k ≤ x) → bytes' x ≡ bytes x)
    → Filled ids blocks bytes
    → Filled ids blocks bytes'
Filled-outside ids blocks sizes live bytes bytes' q k o clear same filled i m p j h at lt =
    let (p', n, (at', sized, alive, fits, pos)) = o.known i m h in
    let e = some-injective p p' (sym at ∙ at') in
    let apart = clear p' n alive in
    same (p + j) (outside p' n e fits apart) ∙ filled i m p j h at lt
  where
    outside :
        (p' n : ℕ) → p ≡ p' → m ≤ n → (p' + n ≤ q) ⊎ (q + k ≤ p') → (p + j < q) ⊎ (q + k ≤ p + j)
    outside p' n e fits (inl le) = inl (omega (arith, e, fits, le, lt))
    outside p' n e fits (inr le) = inr (omega (arith, e, le))

pub Filled-drop :
    (ids : Ids) (blocks : ℕ → Option ℕ) (bytes : ℕ → ℕ) (i : ℕ)
    → Filled ids blocks bytes
    → Filled (set_entry ids i none) blocks bytes
Filled-drop ids blocks bytes i filled j m p x h at lt =
    filled j m p x (kept_index ids i j m h).1 at lt

-- The new payload is filled.
pub Filled-take :
    (ids : Ids) (blocks : ℕ → Option ℕ) (sizes : ℕ → ℕ) (live : Live) (bytes : ℕ → ℕ) (i m q : ℕ)
    → Owned ids blocks sizes live
    → Clear live q m
    → Filled ids blocks bytes
    → Filled (set_entry ids i (some m)) (set_entry blocks i (some q)) (memset bytes q (i % 256) m)
Filled-take ids blocks sizes live bytes i m q o clear filled j n p x h at lt =
    elim (set_index ids i j m n h) [
      | inl (same, size) ↦
          (let e = some-injective q p (
              sym (set_entry-here blocks i (some q))
              ∙ ap (set_entry blocks i (some q)) same
              ∙ at) in
            written (omega (arith, e)) (omega (arith, e, size, lt)) ∙ ap (λ y. y % 256) same)
      | inr (ne, old) ↦
          Filled-outside ids blocks sizes live bytes (memset bytes q (i % 256) m) q m o clear
            (λ y out. kept y out) filled j n p x old
            (sym (set_entry_there blocks i j (some q) ne) ∙ at) lt
    ]
  where
    written : q ≤ p + x → p + x < q + m → memset bytes q (i % 256) m (p + x) ≡ i % 256
    written le lt' = ground (arith, le, lt')

    kept : (y : ℕ) → (y < q) ⊎ (q + m ≤ y) → memset bytes q (i % 256) m y ≡ bytes y
    kept y out = ground (arith, out)
