-- ===== src/Malloclab/Mm.antt =====
-- malloclab/mm.c: the allocator. The memory gives at each address the header that stands there, with
-- whatever it holds before the code writes it; a header is written as a whole at its first address,
-- and payload bytes stand in a map of their own. A pointer is an address, or `none` for NULL. The
-- results are `none` where NULL or the address -1 is followed, and where a loop runs out of fuel.
pub mod Chunks
pub mod Links
pub mod Relink
pub mod Places
pub mod Lists
pub mod Merging
pub mod Coalesce
pub mod Placing
pub mod Insertion
pub mod Given
pub mod Valid
pub mod Removal
pub mod Free
pub mod Search
pub mod Take
pub mod Part
pub mod Unlinked
pub mod Malloc
pub mod Requests
pub mod Realloc
pub mod Sessions
pub mod RoundTrip
mod Tests
use cso_fall.Common.{
  ℕ, zero, suc, ◌+◌, ◌-◌, ◌%◌, ◌^◌, Bool, true, false, not, ◌&&◌, Option, none, some, ◌>>=◌, leb,
  ltb, ◌==◌, if◌then◌else◌, ℤ, pos, negsuc,
}
use cso_fall.Common.Int.{◌+ℤ◌}
use cso_fall.Malloclab.Headers.{
  header_size, Header, Memory, put, set_chunk_size_status, set_chunk_status, get_chunk_status,
  get_chunk_size, payload_to_header, header_to_payload, header_to_next_header, init_header,
  set_next, set_prev, set_next_of, set_prev_of, is_at,
}
use cso_fall.Malloclab.Memlib.{align, Heap, mem_sbrk, mem_heapsize}

abbrev pub min_guard : ℕ
min_guard = 1024

-- The headers and payload bytes, the two global variables, and the heap of memlib.c.
pub record Mm : Type 0 where
  pub mem : Memory
  pub bytes : ℕ → ℕ
  pub global_allocated_list_head : Option ℕ
  pub global_free_list : Option ℕ
  pub heap : Heap

-- C's conversions from `size_t` to `int` and back.
abbrev to_int : ℕ → ℤ
to_int n = if ltb (n % 2 ^ 32) (2 ^ 31) then pos (n % 2 ^ 32) else negsuc (2 ^ 32 - n % 2 ^ 32 - 1)

abbrev to_size : ℤ → ℕ
to_size (pos n) = n
to_size (negsuc n) = 2 ^ 64 - n - 1

-- The writes of `remove_from_list` to the neighbours.
unfoldable pub unlink : Memory → ℕ → Memory
unlink mem hdr =
    let mem' = set_next_of mem (mem hdr).prev (mem hdr).next in
    set_prev_of mem' (mem' hdr).next (mem' hdr).prev

pub remove_from_list : ℕ → Mm → Mm
remove_from_list hdr m =
    let next = (m.mem hdr).next in
    record m {
      mem = unlink m.mem hdr;
      global_free_list = if is_at m.global_free_list hdr then next else m.global_free_list;
      global_allocated_list_head =
          if is_at m.global_allocated_list_head hdr then next else m.global_allocated_list_head;
    }

pub get_newsize : ℕ → ℤ
get_newsize size = to_int ((align size + header_size) % 2 ^ 64)

-- The memory and the result.
pub merge_regions : Memory → Option ℕ → Option ℕ → Memory × Bool
merge_regions mem none nxt = (mem, false)
merge_regions mem (some hdr) none = (mem, false)
merge_regions mem (some hdr) (some nxt) =
    let mem1 = set_next mem hdr (mem nxt).next in
    let mem2 = set_prev_of mem1 (mem1 nxt).next (some hdr) in
    let size = (get_chunk_size mem2 hdr + get_chunk_size mem2 nxt) % 2 ^ 64 in
    if hdr + get_chunk_size mem hdr == nxt
    then (set_chunk_size_status mem2 hdr size false, true)
    else (mem, false)

pub insert_allocated_list : ℕ → Mm → Mm
insert_allocated_list hdr m =
    let head = m.global_allocated_list_head in
    let mem = set_next (set_chunk_status m.mem hdr true) hdr head in
    record m {
      mem = set_prev (set_prev_of mem head (some hdr)) hdr none;
      global_allocated_list_head = some hdr;
    }

-- `while (temp)`, and the writes behind it.
pub place_loop : ℕ → Memory → ℕ → (last temp : Option ℕ) → Option Memory
place_loop zero mem hdr last temp = none
place_loop (suc fuel) mem hdr none none = some mem
place_loop (suc fuel) mem hdr (some last) none =
    some (set_next (set_prev (set_next mem last (some hdr)) hdr (some last)) hdr none)
place_loop (suc fuel) mem hdr last (some temp) =
    let rest = place_loop fuel mem hdr (some temp) (mem temp).next in
    let mem1 = set_next mem hdr (some temp) in
    let between = (mem1 temp).prev >>= λ p.
    (let mem2 = set_next mem1 p (some hdr) in
      some (set_prev (set_prev mem2 hdr (mem2 temp).prev) temp (some hdr))) in
    if ltb hdr temp then between else rest

-- The two pairs of calls of `merge_regions`.
pub merge_both : Memory → ℕ → Memory
unfolding merge_regions
merge_both mem hdr =
    let (mem1, merged) = merge_regions mem (some hdr) (mem hdr).next in
    let mem2 = if merged then (merge_regions mem1 (some hdr) (mem1 hdr).next).0 else mem1 in
    let (mem3, merged') = merge_regions mem2 (mem2 hdr).prev (some hdr) in
    if merged' then (merge_regions mem3 (mem3 hdr).prev (some hdr)).0 else mem3

-- The free list and the memory with `hdr` put into the list, where there is a list.
pub insert_into : ℕ → Memory → ℕ → ℕ → Option (Option ℕ × Memory)
insert_into fuel mem hdr temp =
    let front = set_prev (set_prev (set_next mem hdr (some temp)) hdr none) temp (some hdr) in
    let behind = place_loop fuel mem hdr none (some temp) >>= λ mem'. some (some temp, mem') in
    if ltb hdr temp then some (some hdr, front) else behind

-- On fuel: more than there are chunks.
pub insert_free_list : ℕ → Mm → Option Mm
insert_free_list hdr m =
    let mem = set_chunk_status m.mem hdr false in
    elim m.global_free_list [
      | none ↦ some (record m {
        mem = set_next (set_prev mem hdr none) hdr none;
        global_free_list = some hdr;
      })
      | some temp ↦ insert_into (mem_heapsize m.heap + 1) mem hdr temp >>= λ (list, mem').
          some (record m { mem = merge_both mem' hdr; global_free_list = list })
    ]

-- The first round: a chunk that is taken as it is.
pub take_whole : ℕ → Mm → Option (Option ℕ × Mm)
take_whole temp m =
    some (some (header_to_payload temp), insert_allocated_list temp (remove_from_list temp m))

-- The second: a chunk that is cut, and its rest given back.
pub take_part : ℕ → ℕ → Mm → Option (Option ℕ × Mm)
take_part newsize temp m =
    let orig_size = get_chunk_size m.mem temp in
    let m1 = record m { mem = set_chunk_size_status m.mem temp newsize true } in
    let m2 = insert_allocated_list temp (remove_from_list temp m1) in
    let next_header = header_to_next_header temp newsize in
    let mem =
      set_chunk_size_status (init_header m2.mem next_header) next_header
        ((orig_size + 2 ^ 64 - newsize) % 2 ^ 64) false in
    insert_free_list next_header (record m2 { mem = mem }) >>= λ m3.
    some (some (header_to_payload temp), m3)

-- The tests of the two rounds.
abbrev pub fits : Bool → ℤ → ℕ → Bool
fits false newsize chunk_size =
    leb (to_size newsize) chunk_size && ltb chunk_size (to_size (newsize +ℤ pos min_guard))
fits true newsize chunk_size = ltb ((to_size newsize + header_size) % 2 ^ 64) chunk_size

abbrev pub take_chunk : Bool → ℤ → ℕ → Mm → Option (Option ℕ × Mm)
take_chunk false newsize temp m = take_whole temp m
take_chunk true newsize temp m = take_part (to_size newsize) temp m

-- `while (temp)` in round `second`.
pub fit_loop : ℕ → Bool → ℤ → Option ℕ → Mm → Option (Option ℕ × Mm)
fit_loop zero second newsize temp m = none
fit_loop (suc fuel) second newsize none m = some (none, m)
fit_loop (suc fuel) second newsize (some temp) m =
    let rest = fit_loop fuel second newsize (m.mem temp).next m in
    let taken = take_chunk second newsize temp m in
    if not (get_chunk_status m.mem temp) && fits second newsize (get_chunk_size m.mem temp)
    then taken
    else rest

-- What follows the first round.
pub second_round : ℕ → ℤ → Option ℕ × Mm → Option (Option ℕ × Mm)
second_round fuel newsize (some p, m) = some (some p, m)
second_round fuel newsize (none, m) = fit_loop fuel true newsize m.global_free_list m

pub find_memory : ℕ → Mm → Option (Option ℕ × Mm)
find_memory size m =
    let fuel = mem_heapsize m.heap + 1 in
    let found =
      fit_loop fuel false (get_newsize size) m.global_free_list m
      >>= second_round fuel (get_newsize size) in
    if size == 0 then some (none, m) else found

-- The chunk that `mem_sbrk` gives.
pub take_new : ℤ → Mm → Option (Option ℕ × Mm)
take_new newsize m =
    let (r, heap) = mem_sbrk m.heap newsize in
    r >>= λ h.
    (let m' = record m {
      mem = set_chunk_size_status m.mem h (to_size newsize) true;
      heap = heap;
    } in
      some (some (header_to_payload h), insert_allocated_list h m'))

unfoldable pub mm_init : Mm → ℕ × Mm
mm_init m = (0, record m { global_free_list = none; global_allocated_list_head = none })

-- What follows `find_memory`.
pub or_new : ℤ → Option ℕ × Mm → Option (Option ℕ × Mm)
or_new newsize (some p, m) = some (some p, m)
or_new newsize (none, m) = take_new newsize m

pub mm_malloc : ℕ → Mm → Option (Option ℕ × Mm)
mm_malloc size m =
    let found = find_memory size m >>= or_new (get_newsize size) in
    if size == 0 then some (none, m) else found

pub mm_free : ℕ → Mm → Option Mm
mm_free ptr m = let h = payload_to_header ptr in insert_free_list h (remove_from_list h m)

-- `memcpy` between regions that do not overlap.
abbrev pub memcpy : (ℕ → ℕ) → (to from n : ℕ) → ℕ → ℕ
memcpy bytes to from n x = if leb to x && ltb x (to + n) then bytes (from + (x - to)) else bytes x

-- What follows `mm_malloc`.
pub copy_old : Option ℕ → ℕ → Option ℕ × Mm → Option (Option ℕ × Mm)
copy_old none size (newptr, m) = some (newptr, m)
copy_old (some ptr) size (none, m) = none
copy_old (some ptr) size (some newptr, m) =
    let payload = (get_chunk_size m.mem (payload_to_header ptr) + 2 ^ 64 - header_size) % 2 ^ 64 in
    let copy_size = if ltb size payload then size else payload in
    some (some newptr, record m { bytes = memcpy m.bytes newptr ptr copy_size })

abbrev free_old : Option ℕ → Option ℕ × Mm → Option (Option ℕ × Mm)
free_old none (newptr, m) = some (newptr, m)
free_old (some ptr) (newptr, m) = mm_free ptr m >>= λ m'. some (newptr, m')

pub mm_realloc : Option ℕ → ℕ → Mm → Option (Option ℕ × Mm)
mm_realloc ptr size m =
    let fresh = mm_malloc size m >>= copy_old ptr size in
    (if ltb 0 size then fresh else some (none, m)) >>= free_old ptr
