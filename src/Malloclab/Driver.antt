-- ===== src/Malloclab/Driver.antt =====
-- malloclab/mdriver.c: the runs of a trace on an allocator. An array of the trace is a function on its
-- indices, with the pointers that it holds before the run; a size is below 2 ^ 31. The messages are left
-- out, and a call of `app_error` ends the program, which is `none`.
pub mod Trace
pub mod Bookkeeping
pub mod Listed
pub mod Requests
pub mod Resize
pub mod Verdict
pub mod Checked
pub mod Totals
pub mod Counting
pub mod Util
pub mod Speed
pub mod OnMm
pub mod OnNaive
mod Tests
use cso_fall.Common.{
  ℕ, zero, suc, ◌+◌, ◌-◌, ◌*◌, ◌%◌, ◌≤◌, ◌<◌, Bool, true, false, not, ◌&&◌, Option, none, some,
  ◌>>=◌, List, [], ◌∷◌, leb, ltb, ◌==◌, if◌then◌else◌, ℤ, pos, negsuc,
}
use cso_fall.Common.Int.{◌+ℤ◌, ◌-ℤ◌, ltb_ℤ}
use cso_fall.Malloclab.Memlib.{Heap, mem_reset_brk, mem_heapsize}
use cso_fall.Malloclab.Allocator.{Allocator}
use cso_fall.Malloclab.Ranges.{Range, add_range, remove_range, clear_ranges}

pub data RequestType : Type 0 where
  alloc free realloc : RequestType

pub record Traceop : Type 0 where
  pub type : RequestType
  pub index : ℕ
  pub size : ℕ

-- The allocator, the range list and the two arrays of the trace.
pub record Trial (State : Type 0) : Type 0 where
  pub state : State
  pub ranges : List Range
  pub blocks : ℕ → Option ℕ
  pub block_sizes : ℕ → ℕ

abbrev pub set_entry {ℓ} : {A : Type ℓ} → (ℕ → A) → ℕ → A → ℕ → A
set_entry array index x j = if index == j then x else array j

abbrev pub memset : (ℕ → ℕ) → (p c n : ℕ) → ℕ → ℕ
memset bytes p c n x = if leb p x && ltb x (p + n) then c else bytes x

-- `newp[j] == value`: a `char` is signed, so a byte of 128 or more is a negative number.
abbrev pub char_is : (byte value : ℕ) → Bool
char_is byte value = ltb byte 128 && (byte == value)

-- The loop over `j`, from `newp + j` on for `n` more rounds.
pub preserved : (n newp value : ℕ) → (ℕ → ℕ) → Bool
preserved zero newp value bytes = true
preserved (suc n) newp value bytes =
    let rest = preserved n (newp + 1) value bytes in
    if char_is (bytes newp) value then rest else false

abbrev pub is_negative : ℤ → Bool
is_negative (pos n) = false
is_negative (negsuc n) = true

-- `remove_range` of a pointer that may be NULL, which no range starts at.
abbrev pub remove_old : List Range → Option ℕ → List Range
remove_old ranges none = ranges
remove_old ranges (some p) = remove_range ranges p

-- The statistics of `eval_mm_util`.
pub record Usage : Type 0 where
  pub total_size : ℤ
  pub max_total_size : ℤ

abbrev pub max_of : ℤ → ℤ → ℤ
max_of total max = if ltb_ℤ max total then total else max

module _ (a : Allocator) where
  open a use {State, heap, bytes, with_heap, with_bytes, mm_init, mm_malloc, mm_realloc, mm_free}

  -- `mem_reset_brk()` and `mm_init()`.
  abbrev pub reset : State → ℤ × State
  reset s = mm_init (with_heap s (mem_reset_brk (heap s)))

  -- The range of a new payload: whether the run goes on.
  pub placed : Traceop → (p : ℕ) → Trial State → Option (Bool × Trial State)
  placed op p t = add_range (heap t.state) t.ranges p op.size >>= λ (ok, ranges).
      some (not (ok == 0), record t { ranges = ranges })

  -- The payload is filled with the low byte of the index and remembered.
  pub remember : Traceop → (p : ℕ) → Trial State → Trial State
  remember op p t = record {
    state = with_bytes t.state (memset (bytes t.state) p (op.index % 256) op.size);
    ranges = t.ranges;
    blocks = set_entry t.blocks op.index (some p);
    block_sizes = set_entry t.block_sizes op.index op.size;
  }

  -- What follows `mm_malloc`.
  pub allocated : Traceop → Trial State → Option ℕ × State → Option (Bool × Trial State)
  allocated op t (none, s) = some (false, record t { state = s })
  allocated op t (some p, s) = placed op p (record t { state = s }) >>= λ (ok, t').
      some (if ok then (true, remember op p t') else (false, t'))

  -- What follows `mm_realloc` of the payload at `oldp`.
  pub reallocated :
      Traceop → Option ℕ → Trial State → Option ℕ × State → Option (Bool × Trial State)
  reallocated op oldp t (none, s) = some (false, record t { state = s })
  reallocated op oldp t (some newp, s) =
      let remaining = remove_old t.ranges oldp in
      let old = t.block_sizes op.index in
      let oldsize = if ltb op.size old then op.size else old in
      placed op newp (record t { state = s; ranges = remaining }) >>= λ (ok, t'). some (
        if ok && preserved oldsize newp (op.index % 256) (bytes t'.state)
        then (true, remember op newp t')
        else (false, t'))

  -- One request: whether the run goes on.
  pub valid_op : RequestType → Traceop → Trial State → Option (Bool × Trial State)
  valid_op alloc op t = mm_malloc op.size t.state >>= allocated op t
  valid_op realloc op t =
      let oldp = t.blocks op.index in mm_realloc oldp op.size t.state >>= reallocated op oldp t
  valid_op free op t = t.blocks op.index >>= λ p. mm_free p t.state >>= λ s.
      some (true, record t { state = s; ranges = remove_range t.ranges p })

  -- The result of `eval_mm_valid`, from a request on.
  pub valid_loop : List Traceop → Trial State → Option ℕ
  valid_loop [] t = some 1
  valid_loop (op ∷ ops) t = valid_op op.type op t >>= λ (go, t').
      (let rest = valid_loop ops t' in if go then rest else some 0)

  pub eval_mm_valid : List Traceop → Trial State → Option ℕ
  eval_mm_valid ops t =
      let (r, s) = reset t.state in
      let start : Trial State = record t { state = s; ranges = clear_ranges t.ranges } in
      let run = valid_loop ops start in if is_negative r then some 0 else run

  -- One request of `eval_mm_util`.
  pub util_op : RequestType → Traceop → Trial State → Usage → Option (Trial State × Usage)
  util_op alloc op t u = mm_malloc op.size t.state >>= λ (r, s). r >>= λ p.
      (let total = u.total_size +ℤ pos op.size in
        some (
          record t {
            state = s;
            blocks = set_entry t.blocks op.index (some p);
            block_sizes = set_entry t.block_sizes op.index op.size;
          },
          record { total_size = total; max_total_size = max_of total u.max_total_size },
        ))
  util_op realloc op t u = mm_realloc (t.blocks op.index) op.size t.state >>= λ (r, s). r >>= λ p.
      (let total = u.total_size +ℤ (pos op.size -ℤ pos (t.block_sizes op.index)) in
        some (
          record t {
            state = s;
            blocks = set_entry t.blocks op.index (some p);
            block_sizes = set_entry t.block_sizes op.index op.size;
          },
          record { total_size = total; max_total_size = max_of total u.max_total_size },
        ))
  util_op free op t u = t.blocks op.index >>= λ p. mm_free p t.state >>= λ s. some (
    record t { state = s },
    record u { total_size = u.total_size -ℤ pos (t.block_sizes op.index) },
  )

  pub util_loop : List Traceop → Trial State → Usage → Option (Trial State × Usage)
  util_loop [] t u = some (t, u)
  util_loop (op ∷ ops) t u = util_op op.type op t u >>= λ (t', u'). util_loop ops t' u'

  -- The two numbers whose quotient is the result.
  pub eval_mm_util : List Traceop → Trial State → Option (ℤ × ℕ)
  eval_mm_util ops t =
      let (r, s) = reset t.state in
      let start : Trial State = record t { state = s } in
      let run =
        util_loop ops start (record { total_size = pos 0; max_total_size = pos 0 }) >>= λ (t', u).
        some (u.max_total_size, mem_heapsize (heap t'.state)) in
      if is_negative r then none else run

  -- The loop of `eval_mm_speed`.
  pub replay_op : RequestType → Traceop → State × (ℕ → Option ℕ) → Option (State × (ℕ → Option ℕ))
  replay_op alloc op (s, blocks) =
      mm_malloc op.size s >>= λ (r, s'). r >>= λ p. some (s', set_entry blocks op.index (some p))
  replay_op realloc op (s, blocks) = mm_realloc (blocks op.index) op.size s >>= λ (r, s').
      r >>= λ p. some (s', set_entry blocks op.index (some p))
  replay_op free op (s, blocks) = blocks op.index >>= λ p. mm_free p s >>= λ s'. some (s', blocks)

  pub replay : List Traceop → State × (ℕ → Option ℕ) → Option (State × (ℕ → Option ℕ))
  replay [] t = some t
  replay (op ∷ ops) t = replay_op op.type op t >>= λ t'. replay ops t'

  pub eval_mm_speed : List Traceop → State × (ℕ → Option ℕ) → Option (State × (ℕ → Option ℕ))
  eval_mm_speed ops (s, blocks) =
      let (r, s') = reset s in
      let run = replay ops (s', blocks) in if is_negative r then none else run
