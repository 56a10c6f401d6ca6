-- ===== src/Malloclab/Mm/Chunks.antt =====
-- Chunks as pairs of an address and a size: which addresses they cover, and a list of them read at a
-- position, as the chunks before it, the nearest first, and those behind it.
use cso_fall.Common.{
  ℕ, ◌+◌, ◌%◌, ◌≤◌, ◌<◌, ◌≡◌, ◌&&◌, List, [], ◌∷◌, leb, ltb, ◌==◌, to_nat, length, All, arith,
}

abbrev pub Chunk : Type 0
Chunk = ℕ × ℕ

abbrev pub rev_append : List Chunk → List Chunk → List Chunk
rev_append [] rs = rs
rev_append (c ∷ ls) rs = rev_append ls (c ∷ rs)

-- How many of the chunks start at `x`.
unfoldable pub starts : ℕ → List Chunk → ℕ
starts x [] = 0
starts x (c ∷ cs) = to_nat (c.0 == x) + starts x cs

-- Whether `x` is an address of the chunk, and of how many.
abbrev pub within : ℕ → Chunk → ℕ
within x (a, s) = to_nat (leb a x && ltb x (a + s))

unfoldable pub covers : ℕ → List Chunk → ℕ
covers x [] = 0
covers x (c ∷ cs) = within x c + covers x cs

unfoldable pub total : List Chunk → ℕ
total [] = 0
total (c ∷ cs) = c.1 + total cs

pub starts-rev_append :
    (x : ℕ) (ls rs : List Chunk) → starts x (rev_append ls rs) ≡ starts x ls + starts x rs
unfolding starts
starts-rev_append x [] rs = omega arith
starts-rev_append x (c ∷ ls) rs = omega (arith, starts-rev_append x ls (c ∷ rs))

pub covers-rev_append :
    (x : ℕ) (ls rs : List Chunk) → covers x (rev_append ls rs) ≡ covers x ls + covers x rs
unfolding covers
covers-rev_append x [] rs = omega arith
covers-rev_append x (c ∷ ls) rs = omega (arith, covers-rev_append x ls (c ∷ rs))

pub total-rev_append : (ls rs : List Chunk) → total (rev_append ls rs) ≡ total ls + total rs
unfolding total
total-rev_append [] rs = omega arith
total-rev_append (c ∷ ls) rs = omega (arith, total-rev_append ls (c ∷ rs))

-- A chunk of an allocator: its header and payload lie in the heap between `lo` and `hi`, aligned.
pub record IsChunk (lo hi : ℕ) (c : Chunk) : Type 0 where
  pub header_fits : 32 ≤ c.1
  pub low : lo ≤ c.0
  pub high : c.0 + c.1 ≤ hi
  pub aligned : c.0 % 16 ≡ 0
  pub rounded : c.1 % 16 ≡ 0

pub All-rev_append :
    (P : Chunk → Type 0) (ls rs : List Chunk) → All P ls → All P rs → All P (rev_append ls rs)
All-rev_append P [] rs l r = r
All-rev_append P (c ∷ ls) rs l r = All-rev_append P ls (c ∷ rs) l.1 (l.0, r)

pub All-rev_append_parts :
    (P : Chunk → Type 0) (ls rs : List Chunk) → All P (rev_append ls rs) → All P ls × All P rs
All-rev_append_parts P [] rs h = (tt, h)
All-rev_append_parts P (c ∷ ls) rs h =
    let (l, (first, r)) = All-rev_append_parts P ls (c ∷ rs) h in ((first, l), r)

pub All-mono :
    (P Q : Chunk → Type 0) → ((c : Chunk) → P c → Q c) → (cs : List Chunk) → All P cs → All Q cs
All-mono P Q f [] h = tt
All-mono P Q f (c ∷ cs) h = (f c h.0, All-mono P Q f cs h.1)

-- A chunk covers the address at which it starts.
pub starts-le-covers :
    (lo hi x : ℕ) (cs : List Chunk) → All (IsChunk lo hi) cs → starts x cs ≤ covers x cs
unfolding starts covers
starts-le-covers lo hi x [] h = omega arith
starts-le-covers lo hi x (c ∷ cs) h =
    let ih = starts-le-covers lo hi x cs h.1 in
    let fits = h.0.header_fits in
    let first : to_nat (c.0 == x) ≤ within x c = ground arith in omega (arith, ih, first)

pub length-le-total : (lo hi : ℕ) (cs : List Chunk) → All (IsChunk lo hi) cs → length cs ≤ total cs
unfolding total
length-le-total lo hi [] h = omega arith
length-le-total lo hi (c ∷ cs) h = omega (arith, length-le-total lo hi cs h.1, h.0.header_fits)

-- Behind `low`, in ascending order, with a gap before each.
abbrev pub Up : ℕ → List Chunk → Type 0
Up low [] = Unit
Up low ((a, s) ∷ cs) = (low < a) × Up (a + s) cs

-- The nearest first, with a gap behind each and above 0.
abbrev pub Down : ℕ → List Chunk → Type 0
Down high [] = 0 < high
Down high ((a, s) ∷ cs) = (a + s < high) × Down a cs

pub Up-rev_append :
    (ls : List Chunk) (c : Chunk) (rs : List Chunk)
    → Down c.0 ls
    → Up (c.0 + c.1) rs
    → Up 0 (rev_append ls (c ∷ rs))
Up-rev_append [] c rs down up = (down, up)
Up-rev_append (d ∷ ls) c rs down up = Up-rev_append ls d (c ∷ rs) down.1 (down.0, up)

Down-mono : (low high : ℕ) (ls : List Chunk) → low ≤ high → Down low ls → Down high ls
Down-mono low high [] le down = omega arith
Down-mono low high (c ∷ ls) le down = (omega (arith, down.0), down.1)

-- Without the chunk `c` the order is as before.
pub Up-removed :
    (ls : List Chunk) (c : Chunk) (rs : List Chunk)
    → Down c.0 ls
    → Up (c.0 + c.1) rs
    → Up 0 (rev_append ls rs)
Up-removed [] c [] down up = tt
Up-removed (d ∷ ls) c [] down up = Up-rev_append ls d [] down.1 tt
Up-removed ls c (d ∷ rs) down up =
    Up-rev_append ls d rs (Down-mono c.0 d.0 ls (omega (arith, up.0)) down) up.1
