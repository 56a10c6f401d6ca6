-- ===== src/Malloclab/Driver/Trace.antt =====
-- malloclab/mdriver.c: which traces make sense, and how much heap they need.
use cso_fall.Common.{
  ℕ, ◌+◌, ◌%◌, ◌^◌, ◌<◌, ◌≡◌, Option, none, some, List, [], ◌∷◌, Bool, true, ◌&&◌, ltb,
}
use cso_fall.Malloclab.Driver.{RequestType, alloc, free, realloc, Traceop, set_entry}

-- The size of the payload of each index that has one.
abbrev pub Ids : Type 0
Ids = ℕ → Option ℕ

abbrev pub no_ids : Ids
no_ids i = none

-- The payloads after a request.
abbrev pub after : RequestType → Traceop → Ids → Ids
after alloc op ids = set_entry ids op.index (some op.size)
after realloc op ids = set_entry ids op.index (some op.size)
after free op ids = set_entry ids op.index none

abbrev pub Sized : Traceop → Type 0
Sized op = (0 < op.size) × (op.size + 63 < 2 ^ 31)

-- A payload is asked for where the index has none, and resized and freed where it has one.
abbrev pub LegalOp : RequestType → Traceop → Ids → Type 0
LegalOp alloc op ids = (ids op.index ≡ none) × Sized op
LegalOp realloc op ids = ((m : ℕ) × (ids op.index ≡ some m)) × Sized op
LegalOp free op ids = (m : ℕ) × (ids op.index ≡ some m)

abbrev pub Legal : Ids → List Traceop → Type 0
Legal ids [] = Unit
Legal ids (op ∷ ops) = LegalOp op.type op ids × Legal (after op.type op ids) ops

-- Whether a `char` can have the low byte of each index whose payload is resized.
abbrev pub low_byte : RequestType → ℕ → Bool
low_byte alloc i = true
low_byte realloc i = ltb (i % 256) 128
low_byte free i = true

abbrev pub low_bytes : List Traceop → Bool
low_bytes [] = true
low_bytes (op ∷ ops) = low_byte op.type op.index && low_bytes ops

-- What the requests take from the heap at most.
abbrev pub need : RequestType → ℕ → ℕ
need alloc size = size + 47
need realloc size = size + 47
need free size = 0

unfoldable pub needs : List Traceop → ℕ
needs [] = 0
needs (op ∷ ops) = need op.type op.size + needs ops
