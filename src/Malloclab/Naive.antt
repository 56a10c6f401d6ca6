-- ===== src/Malloclab/Naive.antt =====
-- malloclab/mm-naive.c: an allocator that takes each chunk from the end of the heap. The memory gives the
-- word of the header at each address; payload bytes have a map of their own. A result is `none` where an
-- assert fails and where the loop of `mm_checkheap` runs out of fuel.
pub mod Chain
pub mod Laws
pub mod Realloc
mod Tests
use cso_fall.Common.{
  ℕ, zero, suc, ◌+◌, ◌-◌, ◌%◌, ◌^◌, Bool, true, false, not, ◌&&◌, Option, none, some, ◌>>=◌, ◌==◌,
  leb, ltb, if◌then◌else◌, ℤ, pos, negsuc,
}
use cso_fall.Malloclab.Memlib.{
  align, is_aligned, Heap, mem_sbrk, mem_heap_lo, mem_heap_hi, mem_heapsize,
}

-- sizeof(header)
abbrev header_bytes : ℕ
header_bytes = 16

pub record Naive : Type 0 where
  pub size_n_status : ℕ → ℕ
  pub bytes : ℕ → ℕ
  pub heap : Heap

abbrev pub set_word : (ℕ → ℕ) → (hdr word : ℕ) → ℕ → ℕ
set_word mem hdr word x = if hdr == x then word else mem x

-- `size | status`
abbrev pub set_chunk_size_status : (ℕ → ℕ) → (hdr size : ℕ) → Bool → ℕ → ℕ
set_chunk_size_status mem hdr size status =
    set_word mem hdr (if status then size - size % 2 + 1 else size)

-- `&= ~(1 - status)`
abbrev pub set_chunk_status : (ℕ → ℕ) → (hdr : ℕ) → Bool → ℕ → ℕ
set_chunk_status mem hdr status =
    set_word mem hdr (if status then mem hdr else mem hdr - mem hdr % 2)

abbrev pub get_chunk_status : (ℕ → ℕ) → ℕ → Bool
get_chunk_status mem hdr = mem hdr % 2 == 1

abbrev pub get_chunk_size : (ℕ → ℕ) → ℕ → ℕ
get_chunk_size mem hdr = mem hdr - mem hdr % 2

abbrev pub payload_to_header : ℕ → ℕ
payload_to_header p = p - header_bytes

abbrev pub header_to_payload : ℕ → ℕ
header_to_payload hdr = hdr + header_bytes

abbrev get_next_chunk : (ℕ → ℕ) → ℕ → ℕ
get_next_chunk mem hdr = hdr + get_chunk_size mem hdr

abbrev pub mm_init : Naive → ℕ × Naive
mm_init m = (0, m)

-- The four totals of `mm_checkheap`.
pub record Totals : Type 0 where
  pub total_allocated : ℕ
  pub total_allocated_sz : ℕ
  pub total_free : ℕ
  pub total_free_sz : ℕ

abbrev pub tally : Bool → ℕ → Totals → Totals
tally true size t = record t {
  total_allocated_sz = t.total_allocated_sz + size;
  total_allocated = t.total_allocated + 1;
}
tally false size t = record t {
  total_free_sz = t.total_free_sz + size;
  total_free = t.total_free + 1;
}

-- `while (h < mem_heap_hi())`
pub check_loop : ℕ → Naive → ℕ → Totals → Option Totals
check_loop zero m h t = none
check_loop (suc fuel) m h t =
    let t' = tally (get_chunk_status m.size_n_status h) (get_chunk_size m.size_n_status h) t in
    let rest = check_loop fuel m (get_next_chunk m.size_n_status h) t' in
    if ltb h (mem_heap_hi m.heap) then rest else some t

-- On fuel: more than there are chunks.
pub mm_checkheap : Naive → Option Totals
mm_checkheap m =
    check_loop (mem_heapsize m.heap + 1) m (mem_heap_lo m.heap)
      (record { total_allocated = 0; total_allocated_sz = 0; total_free = 0; total_free_sz = 0 })

abbrev to_int : ℕ → ℤ
to_int n = if ltb (n % 2 ^ 32) (2 ^ 31) then pos (n % 2 ^ 32) else negsuc (2 ^ 32 - n % 2 ^ 32 - 1)

-- What follows `mem_sbrk`.
abbrev place_new : ℤ → Naive → Option ℕ → Option (Option ℕ × Naive)
place_new (negsuc n) m r = some (none, m)
place_new (pos newsize) m none = some (none, m)
place_new (pos newsize) m (some h) =
    let mem = set_chunk_size_status m.size_n_status h newsize true in
    if is_aligned h && get_chunk_status mem h && (get_chunk_size mem h == newsize)
    then some (some (header_to_payload h), record m { size_n_status = mem })
    else none

pub mm_malloc : ℕ → Naive → Option (Option ℕ × Naive)
mm_malloc size m =
    let newsize = to_int ((align size + header_bytes) % 2 ^ 64) in
    let (r, heap) = mem_sbrk m.heap newsize in place_new newsize (record m { heap = heap }) r

pub mm_free : ℕ → Naive → Option Naive
mm_free ptr m =
    let m' = record m {
      size_n_status = set_chunk_status m.size_n_status (payload_to_header ptr) false;
    } in
    if leb (mem_heap_lo m.heap) ptr
      && leb ptr (mem_heap_hi m.heap)
      && not (get_chunk_status m'.size_n_status (payload_to_header ptr))
    then (mm_checkheap m' >>= λ t. some m')
    else none

abbrev pub memcpy : (ℕ → ℕ) → (to from n : ℕ) → ℕ → ℕ
memcpy bytes to from n x = if leb to x && ltb x (to + n) then bytes (from + (x - to)) else bytes x

abbrev free_old : Option ℕ → Option ℕ × Naive → Option (Option ℕ × Naive)
free_old none (newptr, m) = some (newptr, m)
free_old (some ptr) (newptr, m) = mm_free ptr m >>= λ m'. some (newptr, m')

-- What follows `mm_malloc`.
pub copy_payload : Option ℕ → ℕ → Option ℕ × Naive → Option (Option ℕ × Naive)
copy_payload ptr size (none, m) = some (none, m)
copy_payload none size (some newptr, m) = some (some newptr, m)
copy_payload (some ptr) size (some newptr, m) =
    let payload =
      (get_chunk_size m.size_n_status (payload_to_header ptr) + 2 ^ 64 - header_bytes) % 2 ^ 64 in
    let copy_size = if ltb size payload then size else payload in
    free_old (some ptr) (some newptr, record m { bytes = memcpy m.bytes newptr ptr copy_size })

pub mm_realloc : Option ℕ → ℕ → Naive → Option (Option ℕ × Naive)
mm_realloc ptr size m =
    let fresh = mm_malloc size m >>= copy_payload ptr size in
    if ltb 0 size then fresh else free_old ptr (none, m)
