-- ===== src/HeapTable.antt =====
-- server/src/heap_table.c: a table as a chain of allocation maps, each a page with the numbers of the
-- table's data pages. The transaction under it is a store: what it reads and updates on the pages that
-- it has pinned, and the page that `transactional_append` adds at the end. A page that is new holds
-- whatever its frame held. The calls of transactional_pin and transactional_unpin are left out: the store
-- stands for a pool in which a page can always be pinned. The code pins every page that it looks at, and
-- `scan_am_for_insert` gives none of them back before the transaction ends, so that on a table with more
-- pages than the pool has frames (100) the pool runs out, which is not seen here.
pub mod Maps
pub mod Pages
pub mod Heap
pub mod Kept
pub mod Grow
pub mod Link
pub mod Round
pub mod Insert
pub mod Chained
pub mod Create
pub mod Cursor
pub mod Iterate
pub mod Fields
use npsql.Base.{
  ℕ, zero, suc, ◌+◌, ◌-◌, ◌*◌, ◌%◌, ◌^◌, Mem, Bool, true, false, Option, none, some, ltb, ◌==◌,
  if◌then◌else◌, put_at,
}
use npsql.Bytes.{read_uint16, read_uint64, write_uint16, write_uint64}
use npsql.Sql.{Str, TableInfo, Value}
use npsql.BufferManager.{invalid_pnum, dec16}
use npsql.DataPage.{
  DataPage, invalid_record_handle, new_data_page, open_data_page, data_page_insert,
  DataPageIterator, open_page_iterator, next_page_record, page_get_int, page_get_char,
  page_get_value, page_set_int, page_set_char,
}

abbrev pub am_page_type : ℕ
am_page_type = 0x1FF1

-- sizeof(struct allocation_map_header), four bytes of padding included
abbrev pub allocation_map_size : ℕ
allocation_map_size = 24

-- (PAGE_SIZE - ALLOCATION_MAP_SIZE) / sizeof(PNUM)
abbrev pub am_entry_limit : ℕ
am_entry_limit = 61

pub record Store : Type 0 where
  pub pages : ℕ → Mem
  pub page_count : ℕ

abbrev pub with_page : Store → ℕ → Mem → Store
with_page s pid m = record s { pages = put_at s.pages pid m }

pub record AllocationMapHeader : Type 0 where
  pub page_type : ℕ
  pub pages_count : ℕ
  pub me : ℕ
  pub next : ℕ

-- The read of the header; the padding is not looked at.
unfoldable pub read_am : Mem → AllocationMapHeader
read_am m = record {
  page_type = read_uint16 m 0;
  pages_count = read_uint16 m 2;
  me = read_uint64 m 8;
  next = read_uint64 m 16;
}

-- The update by the header in memory; the padding's bytes are left as they are.
unfoldable pub put_am : AllocationMapHeader → Mem → Mem
put_am h m =
    write_uint64 (write_uint64 (write_uint16 (write_uint16 m 0 h.page_type) 2 h.pages_count) 8 h.me)
      16 h.next

abbrev pub am_entry_offset : ℕ → ℕ
am_entry_offset i = allocation_map_size + 8 * i

-- `new_data_page` on the page that the transaction appends.
unfoldable pub append_data_page : Store → TableInfo → ℕ × Store
append_data_page s table = (
  s.page_count,
  record {
    pages = put_at s.pages s.page_count (new_data_page table (s.pages s.page_count)).frame;
    page_count = s.page_count + 1;
  },
)

-- `preceding->next = new_am_pid`, where there is a map before.
abbrev link_preceding : Store → ℕ → Option AllocationMapHeader → Store
link_preceding s pid none = s
link_preceding s pid (some h) = with_page s h.me (put_am (record h { next = pid }) (s.pages h.me))

unfoldable pub add_new_am : Store → Option AllocationMapHeader → ℕ × Store
add_new_am s preceding =
    let pid = s.page_count in
    let new_am : AllocationMapHeader = record {
      page_type = am_page_type;
      pages_count = 0;
      me = pid;
      next = invalid_pnum;
    } in
    (
      pid,
      link_preceding
          (record {
            pages = put_at s.pages pid (put_am new_am (s.pages pid));
            page_count = pid + 1;
          })
          pid preceding,
    )

unfoldable pub add_new_data_page : Store → TableInfo → ℕ → Bool × Store
add_new_data_page s table allocation_map_pid =
    let (pid, s') = append_data_page s table in
    let am = read_am (s'.pages allocation_map_pid) in
    if am.pages_count == am_entry_limit then (false, s') else (
      true,
      with_page s' am.me (
          put_am (record am { pages_count = (am.pages_count + 1) % 2 ^ 16 })
            (write_uint64 (s'.pages am.me) (am_entry_offset am.pages_count) pid)),
    )

pub record HeapTable : Type 0 where
  pub table_info : TableInfo
  pub am_entry_pid : ℕ

unfoldable pub create_heap_table : Store → TableInfo → HeapTable × Store
create_heap_table s table =
    let (pid, s') = add_new_am s none in
    (record { table_info = table; am_entry_pid = pid }, (add_new_data_page s' table pid).1)

abbrev pub open_heap_table : TableInfo → ℕ → HeapTable
open_heap_table table first_am = record { table_info = table; am_entry_pid = first_am }

pub record RecordId : Type 0 where
  pub pid : ℕ
  pub slot : ℕ

-- `struct data_page page = { 0 }` before a page is opened into it.
abbrev pub opened : TableInfo → Mem → DataPage
opened table m = open_data_page table m (record {
  header = record { page_type = 0; records_begin = 0; records_end = 0; slot_count = 0 };
  table = table;
  current_position = 0;
  frame = m;
})

-- `rid` is not set where `handle` is invalid.
pub record AmScanResult : Type 0 where
  pub handle : ℕ
  pub rid : RecordId
  pub am_entry_index : ℕ
  pub am : AllocationMapHeader

-- A turn of the loop over the entries: the page tried, or what the turns after it give.
abbrev pub scan_turn :
    Store → AllocationMapHeader → ℕ → ℕ → ℕ × DataPage → AmScanResult × Store → AmScanResult × Store
scan_turn s am i pid (handle, page) rest = if handle == invalid_record_handle then rest else (
  record {
    handle = handle;
    rid = record { pid = pid; slot = dec16 page.header.slot_count };
    am_entry_index = i;
    am = am;
  },
  with_page s pid page.frame,
)

-- The loop from entry `i` over `n` entries more.
unfoldable pub scan_entries : Store → TableInfo → AllocationMapHeader → ℕ → ℕ → AmScanResult × Store
scan_entries s table am i zero = (
  record {
    handle = invalid_record_handle;
    rid = record { pid = 0; slot = 0 };
    am_entry_index = i;
    am = am;
  },
  s,
)
scan_entries s table am i (suc n) =
    let pid = read_uint64 (s.pages am.me) (am_entry_offset i) in
    scan_turn s am i pid (data_page_insert (opened table (s.pages pid)))
      (scan_entries s table am (i + 1) n)

-- The pins of the map and of each page, which are not given back, are left out.
unfoldable pub scan_am_for_insert : Store → TableInfo → ℕ → ℕ → AmScanResult × Store
scan_am_for_insert s table am_pid start_at =
    let am = read_am (s.pages am_pid) in
    scan_entries s table am start_at (am.pages_count - start_at)

-- Where `heap_insert` goes on after a map without room: the map's number, the index, and the store.
unfoldable pub make_room : Store → TableInfo → ℕ → AmScanResult → ℕ × ℕ × Store
make_room s table am_pid r =
    let (new_am, s') = add_new_am s (some r.am) in
    if ltb r.am_entry_index am_entry_limit
    then (am_pid, r.am_entry_index, (add_new_data_page s table am_pid).1)
    else if r.am.next == invalid_pnum
    then (new_am, 0, (add_new_data_page s' table new_am).1)
    else (r.am.next, 0, s)

-- The `goto` as a loop on fuel.
unfoldable pub insert_from : ℕ → Store → TableInfo → ℕ → ℕ → Option (RecordId × Store)
insert_from zero s table am_pid start_at = none
insert_from (suc n) s table am_pid start_at =
    let (r, s') = scan_am_for_insert s table am_pid start_at in
    let (am_pid', start_at', s'') = make_room s' table am_pid r in
    let rest = insert_from n s'' table am_pid' start_at' in
    if r.handle == invalid_record_handle then rest else some (r.rid, s')

unfoldable pub heap_insert : ℕ → Store → HeapTable → Option (RecordId × Store)
heap_insert fuel s table = insert_from fuel s table.table_info table.am_entry_pid 0

pub record HeapIterator : Type 0 where
  pub table : HeapTable
  pub current_record : RecordId
  pub current_am_pid_index : ℕ
  pub current_am : AllocationMapHeader
  pub page_number : ℕ
  pub current_page_iterator : DataPageIterator

-- `open_data_page` and `open_page_iterator` on the page of the current entry.
abbrev pub open_entry : Store → HeapIterator → HeapIterator
open_entry s i =
    let pid = read_uint64 (s.pages i.current_am.me) (am_entry_offset i.current_am_pid_index) in
    record i {
      page_number = pid;
      current_page_iterator = open_page_iterator (opened i.table.table_info (s.pages pid));
    }

-- A table whose first map has no pages leaves the page and its iterator as they were.
unfoldable pub open_heap_iterator : Store → HeapTable → HeapIterator → Bool × HeapIterator
open_heap_iterator s table i =
    let am = read_am (s.pages table.am_entry_pid) in
    let i' : HeapIterator = record i { table = table; current_am_pid_index = 0; current_am = am } in
    if am.pages_count == 0 then (false, i') else (true, open_entry s i')

-- `pages_count - 1` is an `int`: with no pages it equals no index.
unfoldable pub next_entry : Store → HeapIterator → Option HeapIterator
next_entry s i =
    if i.current_am_pid_index + 1 == i.current_am.pages_count
    then if i.current_am.next == invalid_pnum
      then none
      else some (
          open_entry s (record i {
            current_am_pid_index = 0;
            current_am = read_am (s.pages i.current_am.next);
          }))
    else some
        (open_entry s (record i { current_am_pid_index = (i.current_am_pid_index + 1) % 2 ^ 16 }))

abbrev next_or_end :
    Option HeapIterator
    → HeapIterator
    → (HeapIterator → Option (Bool × HeapIterator))
    → Option (Bool × HeapIterator)
next_or_end none i rest = some (false, i)
next_or_end (some i') i rest = rest i'

-- The `goto` as a loop on fuel. The pins of the next map and page, and the unpins of those that are left,
-- are left out.
unfoldable pub next_record : ℕ → Store → HeapIterator → Option (Bool × HeapIterator)
next_record zero s i = none
next_record (suc n) s i =
    let (handle, pi) = next_page_record i.current_page_iterator in
    let i' : HeapIterator = record i { current_page_iterator = pi } in
    if handle == invalid_record_handle
    then next_or_end (next_entry s i') i' (next_record n s)
    else some (
      true,
      record i' { current_record = record { pid = i.page_number; slot = dec16 pi.current_slot } },
    )

-- The pages of records by number: `get_int` and its kin open the page for each call.
unfoldable pub get_int : Store → HeapTable → RecordId → Str → Option ℕ
get_int s table rid column =
    page_get_int (opened table.table_info (s.pages rid.pid)) rid.slot column

unfoldable pub get_char : Store → HeapTable → RecordId → Str → Option (Mem × ℕ)
get_char s table rid column =
    page_get_char (opened table.table_info (s.pages rid.pid)) rid.slot column

unfoldable pub set_int : Store → HeapTable → RecordId → Str → ℕ → Store
set_int s table rid column value =
    with_page s rid.pid
      (page_set_int (opened table.table_info (s.pages rid.pid)) rid.slot column value).frame

unfoldable pub set_char : Store → HeapTable → RecordId → Str → Str → Store
set_char s table rid column value =
    with_page s rid.pid
      (page_set_char (opened table.table_info (s.pages rid.pid)) rid.slot column value).frame

unfoldable pub get_value : Store → HeapTable → RecordId → ℕ → Value → Value
get_value s table rid ordinal value =
    page_get_value (opened table.table_info (s.pages rid.pid)) rid.slot ordinal value
