-- ===== src/Wal.antt =====
-- server/src/wal.c: the records of a transaction in the log, and rollback from them. `asserts` that
-- fail, and a page that cannot be pinned, are `none`, as is fuel that runs out.
pub mod RoundTrip
use npsql.Base.{
  ℕ, zero, suc, ◌+◌, ◌%◌, ◌^◌, Mem, from, of_bytes, copy, Bool, true, false, ◌==◌, if◌then◌else◌,
  Option, none, some, List, [], ◌∷◌, length,
}
use npsql.Bytes.{
  push_uint16, push_uint32, push_uint64, push_cpy, write_uint32, read_uint16, read_uint32,
  read_uint64,
}
use npsql.LogFile.{LogFile, append, flush_log, LogFileIterator, open_iterator, has_next, next}
use npsql.BufferManager.{BufferManager, invalid_lsn, pin, unpin, write_buffer, flush_buffers}
use npsql.ExprEval.{◌>>=◌}

abbrev pub record_header_length : ℕ
record_header_length = 5

-- `enum log_rec_type`
abbrev pub log_start : ℕ
log_start = 1

abbrev pub log_commit : ℕ
log_commit = 2

abbrev pub log_update : ℕ
log_update = 3

abbrev pub log_rollback : ℕ
log_rollback = 4

-- The array that `record_start`, `record_commit` and `record_rollback` fill in.
unfoldable pub header_record : ℕ → ℕ → Mem
header_record type tsx_id = write_uint32 (of_bytes (type ∷ 0 ∷ 0 ∷ 0 ∷ 0 ∷ [])) 1 tsx_id

-- The writer's log is the log of its buffer manager, so the state is the buffer manager.
abbrev pub append_log : BufferManager → Mem → ℕ → BufferManager × ℕ
append_log bm r s = let (lf, lsn) = append bm.log_file r s in (record bm { log_file = lf }, lsn)

unfoldable pub record_start : BufferManager → ℕ → BufferManager × ℕ
record_start bm tsx_id = append_log bm (header_record log_start tsx_id) record_header_length

unfoldable pub record_commit : BufferManager → ℕ → BufferManager × ℕ
record_commit bm tsx_id = append_log bm (header_record log_commit tsx_id) record_header_length

unfoldable pub record_rollback : BufferManager → ℕ → BufferManager × ℕ
record_rollback bm tsx_id = append_log bm (header_record log_rollback tsx_id) record_header_length

unfoldable pub new_wal : BufferManager → ℕ → BufferManager
new_wal bm tsx_id = (record_start bm tsx_id).0

unfoldable pub commit_wal : BufferManager → ℕ → BufferManager
commit_wal bm tsx_id =
    let (bm', lsn) = record_commit bm tsx_id in record bm' { log_file = flush_log bm'.log_file lsn }

-- WAL_UPDATE_REC_LEN
abbrev pub wal_update_rec_len : ℕ → ℕ
wal_update_rec_len s = record_header_length + 0 + 8 + 10 + s

-- The bytes that `wal_write` pushes. `push_uint16` keeps the low sixteen bits of the length.
unfoldable pub update_record : ℕ → ℕ → ℕ → Mem → ℕ → List ℕ
update_record tsx_id pnum offset old size =
    push_cpy
      (push_uint16 (push_uint16 (push_uint64 (push_uint32 (log_update ∷ []) tsx_id) pnum) offset)
        size)
      old size

-- The record is longer than what is pushed: `stale` is what the vector's memory holds after it. A record
-- that is longer than a page of the log is written past it (LogFile).
unfoldable pub wal_write : BufferManager → ℕ → ℕ → ℕ → Mem → ℕ → Mem → BufferManager × ℕ
wal_write bm tsx_id pnum offset old size stale =
    let r = update_record tsx_id pnum offset old size in
    append_log bm (copy stale 0 (of_bytes r) (length r)) (wal_update_rec_len size)

unfoldable pub undo_update : BufferManager → Mem → ℕ → ℕ → Option BufferManager
undo_update bm page offset tsx_id =
    let start = (offset + record_header_length) % 2 ^ 16 in
    let page_number = read_uint64 page start in
    let page_offset = read_uint16 page (start + 8) in
    let size = read_uint16 page (start + 10) in
    let entry = from page (start + 12) in
    pin bm page_number >>= λ (p : Option ℕ × BufferManager).
    p.0 >>= λ i. unpin (write_buffer p.1 i entry page_offset size tsx_id invalid_lsn) i

-- The loop on fuel.
unfoldable pub do_rollback : ℕ → LogFileIterator → BufferManager → ℕ → Option BufferManager
do_rollback zero i bm tsx_id = none
do_rollback (suc n) i bm tsx_id =
    let (i', at) = next i in
    let type = i'.current_page at in
    let rest = λ (b : BufferManager). do_rollback n i' b tsx_id in
    if has_next i
    then if read_uint32 i'.current_page (at + 1) == tsx_id
      then if type == log_update
        then undo_update bm i'.current_page at tsx_id >>= rest
        else if type == log_start
        then some bm
        else none
      else rest bm
    else some bm

-- `stale` is the memory of the iterator on the stack.
unfoldable pub rollback_wal : ℕ → BufferManager → Mem → ℕ → Option BufferManager
rollback_wal fuel bm stale tsx_id = do
  undone ← do_rollback fuel (open_iterator bm.log_file stale) bm tsx_id
  flushed ← flush_buffers undone tsx_id
  let (bm', lsn) = record_rollback flushed tsx_id in
      some (record bm' { log_file = flush_log bm'.log_file lsn })
