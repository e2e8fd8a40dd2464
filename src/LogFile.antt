-- ===== src/LogFile.antt =====
-- server/src/log_file.c: the write-ahead log as pages of records, each record followed by the
-- position of the trailer before it, and the backwards iterator. A file is its size and its bytes
-- (server/src/file.c: pread, pwrite and ftruncate of the kernel). The mutex is taken and given back
-- within each call and is left out here. A page in memory is a function on all addresses, so a write past
-- its end, as `append` makes for a record that is too long for its page, is not `none` here but shows at
-- the addresses from 512 on (LogFile/Bounds, LogFile/Faults).
pub mod Chain
pub mod Append
pub mod Iterate
pub mod Refine
pub mod Bounds
pub mod Durable
pub mod Faults
use npsql.Base.{
  ℕ, ◌+◌, ◌-◌, ◌*◌, ◌/◌, ◌%◌, ◌^◌, Mem, copy, from, Bool, ltb, leb, ◌==◌, ◌||◌, ◌&&◌, if◌then◌else◌,
}
use npsql.Bytes.{read_uint16, write_uint16}

abbrev pub page_size : ℕ
page_size = 512

pub record File : Type 0 where
  pub size : ℕ
  pub content : Mem

-- ftruncate: what lies past the new end is gone, and what is added reads as zero.
unfoldable pub file_expand : File → ℕ → File
file_expand f size = record {
  size = size;
  content = λ a. if ltb a f.size && ltb a size then f.content a else 0;
}

unfoldable pub file_read : File → Mem → ℕ → ℕ → Mem
file_read f buffer size offset = copy buffer 0 (from f.content offset) size

-- A write past the end makes the file longer.
unfoldable pub file_write : File → Mem → ℕ → ℕ → File
file_write f buffer size offset = record {
  size = if ltb f.size (offset + size) then offset + size else f.size;
  content = copy f.content offset buffer size;
}

pub record LogFile : Type 0 where
  pub file : File
  pub current_page_number : ℕ
  pub current_page_position : ℕ
  pub current_page : Mem

unfoldable pub get_last_record_position : Mem → ℕ
get_last_record_position page = read_uint16 page 0

unfoldable pub set_last_record_position : ℕ → Mem → Mem
set_last_record_position position page = write_uint16 page 0 position

unfoldable pub append_new_page : LogFile → LogFile
append_new_page lf =
    let number = lf.current_page_number in
    let file = file_expand lf.file (page_size + number * page_size) in
    let page = file_read file lf.current_page page_size (number * page_size) in
    record {
      file = file;
      current_page_number = number;
      current_page_position = 2;
      current_page = set_last_record_position 0 page;
    }

unfoldable pub flush_page : LogFile → LogFile
flush_page lf = record lf {
  file = file_write lf.file lf.current_page page_size (lf.current_page_number * page_size);
}

-- `stale` is what the uninitialised `current_page` and the fields of the caller's struct hold.
unfoldable pub open_log_file : File → Mem → LogFile
open_log_file f stale =
    let page = file_read f stale page_size (f.size - page_size) in
    if f.size == 0
    then append_new_page (record {
      file = f;
      current_page_number = 0;
      current_page_position = 0;
      current_page = stale;
    })
    else record {
      file = f;
      current_page_number = f.size / page_size - 1;
      current_page_position = get_last_record_position page;
      current_page = page;
    }

-- The part of `append` after the page is chosen: the record, the trailer that links back to the
-- record before, and the header that points to the trailer.
unfoldable pub append_here : LogFile → Mem → ℕ → LogFile
append_here lf r s =
    let page = copy lf.current_page lf.current_page_position r s in
    let position = (lf.current_page_position + s % 2 ^ 16) % 2 ^ 16 in
    let linked = write_uint16 page position (get_last_record_position page) in
    record lf {
      current_page = set_last_record_position position linked;
      current_page_position = (position + 2) % 2 ^ 16;
    }

unfoldable pub next_page : LogFile → LogFile
next_page lf =
    let flushed = flush_page lf in
    append_new_page (record flushed { current_page_number = flushed.current_page_number + 1 })

unfoldable pub append : LogFile → Mem → ℕ → LogFile × ℕ
append lf r s =
    let lf' =
      append_here (if ltb page_size (lf.current_page_position + s) then next_page lf else lf) r s in
    (lf', lf'.current_page_number)

unfoldable pub flush_log : LogFile → ℕ → LogFile
flush_log lf lsn = if leb lf.current_page_number lsn then flush_page lf else lf

pub record LogFileIterator : Type 0 where
  pub file : File
  pub current_page : Mem
  pub currect_position : ℕ
  pub current_page_number : ℕ

-- `stale` is the iterator's page before the call.
unfoldable pub open_iterator : LogFile → Mem → LogFileIterator
open_iterator lf stale =
    let page = copy stale 0 lf.current_page page_size in
    record {
      file = lf.file;
      current_page = page;
      currect_position = get_last_record_position page;
      current_page_number = lf.current_page_number;
    }

unfoldable pub has_next : LogFileIterator → Bool
has_next i = ltb 0 i.currect_position || ltb 0 i.current_page_number

unfoldable pub move_to_next_page : LogFileIterator → LogFileIterator
move_to_next_page i =
    let number = i.current_page_number - 1 in
    let page = file_read i.file i.current_page page_size (number * page_size) in
    record i {
      current_page_number = number;
      current_page = page;
      currect_position = get_last_record_position page;
    }

unfoldable pub next : LogFileIterator → LogFileIterator × ℕ
next i =
    let here = if i.currect_position == 0 then move_to_next_page i else i in
    let position = read_uint16 here.current_page here.currect_position in
    (record here { currect_position = position }, (position + 2) % 2 ^ 16)
