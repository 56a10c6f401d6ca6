-- ===== src/Malloclab/Allocator.antt =====
-- malloclab/mm.h: what malloclab/mdriver.c calls, with the heap of memlib.c below it, and what it relies on.
use cso_fall.Common.{
  ℕ, ◌+◌, ◌%◌, ◌^◌, ◌≤◌, ◌<◌, ◌≡◌, ◌≢◌, ◌⊎◌, Option, none, some, ◌==◌, if◌then◌else◌, ℤ, pos,
}
use cso_fall.Malloclab.Memlib.{Heap, mem_reset_brk}

-- An allocator and the memory it works on: the heap of memlib.c and the bytes of the payloads. A call is
-- `none` where the code has no defined result.
pub record Allocator : Type 1 where
  pub State : Type 0
  pub heap : State → Heap
  pub bytes : State → ℕ → ℕ
  pub with_heap : State → Heap → State
  pub with_bytes : State → (ℕ → ℕ) → State
  pub mm_init : State → ℤ × State
  pub mm_malloc : ℕ → State → Option (Option ℕ × State)
  pub mm_realloc : Option ℕ → ℕ → State → Option (Option ℕ × State)
  pub mm_free : ℕ → State → Option State

-- The room of the payload at each address, `none` where no payload starts.
abbrev pub Live : Type 0
Live = ℕ → Option ℕ

abbrev pub no_payloads : Live
no_payloads p = none

abbrev pub with_payload : Live → (p : ℕ) → Option ℕ → Live
with_payload live p n q = if p == q then n else live q

-- A heap on which an allocator can start.
pub record Usable (h : Heap) : Type 0 where
  pub above : 0 < h.mem_start_brk
  pub aligned : h.mem_start_brk % 16 ≡ 0
  pub limit : h.mem_start_brk ≤ h.mem_max_addr
  pub wide : h.mem_max_addr < 2 ^ 64

-- The heap `h'` is `h`, grown by no more than a chunk for `size` bytes.
abbrev pub Grown : (h h' : Heap) → ℕ → Type 0
Grown h h' size =
    (h'.mem_start_brk ≡ h.mem_start_brk)
    × (h'.mem_max_addr ≡ h.mem_max_addr)
    × (h.mem_brk ≤ h'.mem_brk)
    × (h'.mem_brk ≤ h.mem_brk + size + 47)

-- A request that is served: its size is above 0 and small, and the heap has room for it.
abbrev pub Request : Heap → ℕ → Type 0
Request h size = (0 < size) × (size + 63 < 2 ^ 31) × (h.mem_brk + size + 47 ≤ h.mem_max_addr)

-- What an allocator promises, over the payloads that a client holds.
pub record Contract (a : Allocator) : Type 1 where
  pub Holds : a.State → Live → Type 0
  pub init :
      (s : a.State)
      → Usable (a.heap s)
      → let r = a.mm_init (a.with_heap s (mem_reset_brk (a.heap s))) in
        (r.0 ≡ pos 0) × Holds r.1 no_payloads × (a.heap r.1 ≡ mem_reset_brk (a.heap s))
  pub malloc :
      (s : a.State) (live : Live) (size : ℕ)
      → Holds s live
      → Request (a.heap s) size
      → (p n : ℕ) × (s' : a.State) × ((a.mm_malloc size s ≡ some (some p, s'))
          × (live p ≡ none)
          × Holds s' (with_payload live p (some n))
          × (size ≤ n)
          × Grown (a.heap s) (a.heap s') size
          × (a.bytes s' ≡ a.bytes s))
  pub realloc :
      (s : a.State) (live : Live) (p n size : ℕ)
      → Holds s live
      → live p ≡ some n
      → 0 < n
      → Request (a.heap s) size
      → (q k : ℕ) × (s' : a.State) × ((a.mm_realloc (some p) size s ≡ some (some q, s'))
          × (live q ≡ none)
          × Holds s' (with_payload (with_payload live p none) q (some k))
          × (size ≤ k)
          × Grown (a.heap s) (a.heap s') size
          × ((i : ℕ) → i < size → i < n → a.bytes s' (q + i) ≡ a.bytes s (p + i))
          × ((x : ℕ) → (x < q) ⊎ (q + k ≤ x) → a.bytes s' x ≡ a.bytes s x))
  pub free :
      (s : a.State) (live : Live) (p n : ℕ)
      → Holds s live
      → live p ≡ some n
      → 0 < n
      → (s' : a.State) × ((a.mm_free p s ≡ some s')
          × Holds s' (with_payload live p none)
          × (a.heap s' ≡ a.heap s)
          × (a.bytes s' ≡ a.bytes s))
  -- A payload is aligned and lies in the heap, and no two have a byte in common.
  pub inside :
      (s : a.State) (live : Live) (p n : ℕ)
      → Holds s live
      → live p ≡ some n
      → (p % 16 ≡ 0) × ((a.heap s).mem_start_brk ≤ p) × (p + n ≤ (a.heap s).mem_brk)
  pub disjoint :
      (s : a.State) (live : Live) (p q n k : ℕ)
      → Holds s live
      → live p ≡ some n
      → live q ≡ some k
      → p ≢ q
      → (p + n ≤ q) ⊎ (q + k ≤ p)
  -- The client may write to the bytes.
  pub write :
      (s : a.State) (live : Live) (f : ℕ → ℕ)
      → Holds s live
      → Holds (a.with_bytes s f) live
        × (a.heap (a.with_bytes s f) ≡ a.heap s)
        × (a.bytes (a.with_bytes s f) ≡ f)
