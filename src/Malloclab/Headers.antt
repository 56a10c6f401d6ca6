-- ===== src/Malloclab/Headers.antt =====
-- malloclab/mm.c: the headers of chunks. A header is read and written as a whole at its first address.
use cso_fall.Common.{ℕ, ◌+◌, ◌-◌, Bool, false, Option, none, some, ◌==◌, if◌then◌else◌}

-- sizeof(header)
abbrev pub header_size : ℕ
header_size = 32

pub record Header : Type 0 where
  pub size : ℕ
  pub next : Option ℕ
  pub prev : Option ℕ
  pub status : Bool

abbrev pub Memory : Type 0
Memory = ℕ → Header

abbrev pub put : Memory → ℕ → Header → Memory
put mem a h b = if a == b then h else mem b

abbrev pub set_chunk_size_status : Memory → ℕ → ℕ → Bool → Memory
set_chunk_size_status mem hdr size status =
    put mem hdr (record (mem hdr) { size = size; status = status })

abbrev pub set_chunk_status : Memory → ℕ → Bool → Memory
set_chunk_status mem hdr status = put mem hdr (record (mem hdr) { status = status })

abbrev pub get_chunk_status : Memory → ℕ → Bool
get_chunk_status mem hdr = (mem hdr).status

abbrev pub get_chunk_size : Memory → ℕ → ℕ
get_chunk_size mem hdr = (mem hdr).size

abbrev pub payload_to_header : ℕ → ℕ
payload_to_header p = p - header_size

abbrev pub header_to_payload : ℕ → ℕ
header_to_payload hdr = hdr + header_size

abbrev pub header_to_next_header : ℕ → ℕ → ℕ
header_to_next_header hdr size = hdr + size

abbrev pub init_header : Memory → ℕ → Memory
init_header mem hdr = put mem hdr (record (mem hdr) { next = none; prev = none; status = false })

-- `hdr->next = p` and `hdr->prev = p`, and the same where `hdr` is tested for NULL before.
abbrev pub set_next : Memory → ℕ → Option ℕ → Memory
set_next mem hdr p = put mem hdr (record (mem hdr) { next = p })

abbrev pub set_prev : Memory → ℕ → Option ℕ → Memory
set_prev mem hdr p = put mem hdr (record (mem hdr) { prev = p })

abbrev pub set_next_of : Memory → Option ℕ → Option ℕ → Memory
set_next_of mem none p = mem
set_next_of mem (some hdr) p = set_next mem hdr p

abbrev pub set_prev_of : Memory → Option ℕ → Option ℕ → Memory
set_prev_of mem none p = mem
set_prev_of mem (some hdr) p = set_prev mem hdr p

-- `hdr == p`
abbrev pub is_at : Option ℕ → ℕ → Bool
is_at none hdr = false
is_at (some p) hdr = hdr == p
