-- ===== src/DataPage.antt =====
-- server/src/data_page.c: a slotted page. Records grow down from the end of the page, the array of
-- their positions grows up behind the header. `transactional_read` and `transactional_update` of a
-- pinned page are memcpy from and to its frame, so the state is the frame with the header in memory.
-- Structs lie in memory as on a little-endian host.
pub mod Insert
pub mod Fields
use npsql.Base.{
  ℕ, zero, suc, ◌+◌, ◌-◌, ◌*◌, ◌%◌, ◌^◌, Mem, copy, from, of_bytes, Bool, Option, none, some, List,
  [], ◌∷◌, ◌++◌, length, ltb, ◌==◌, if◌then◌else◌,
}
use npsql.Bytes.{le16, le32, read_uint16, read_uint32, write_uint16}
use npsql.Sql.{Str, strn_eq, Column, TableInfo, type_unknown, Value}
use npsql.Values.{deserialize}

abbrev pub page_size : ℕ
page_size = 512

abbrev pub invalid_record_handle : ℕ
invalid_record_handle = 2 ^ 16 - 1

abbrev pub data_page_type : ℕ
data_page_type = 0x0FF0

abbrev pub max_column_name : ℕ
max_column_name = 25

-- sizeof(struct data_page_header)
abbrev pub slot_array_offset : ℕ
slot_array_offset = 8

pub record DataPageHeader : Type 0 where
  pub page_type : ℕ
  pub records_begin : ℕ
  pub records_end : ℕ
  pub slot_count : ℕ

pub record DataPage : Type 0 where
  pub header : DataPageHeader
  pub table : TableInfo
  pub current_position : ℕ
  pub frame : Mem

abbrev pub header_bytes : DataPageHeader → List ℕ
header_bytes h =
    le16 h.page_type ++ (le16 h.records_begin ++ (le16 h.records_end ++ le16 h.slot_count))

-- The update of the frame by the header in memory.
unfoldable pub put_header : DataPageHeader → Mem → Mem
put_header h frame = copy frame 0 (of_bytes (header_bytes h)) slot_array_offset

unfoldable pub read_header : Mem → DataPageHeader
read_header frame = record {
  page_type = read_uint16 frame 0;
  records_begin = read_uint16 frame 2;
  records_end = read_uint16 frame 4;
  slot_count = read_uint16 frame 6;
}

-- `frame` is the page that `transactional_append` gave.
unfoldable pub new_data_page : TableInfo → Mem → DataPage
new_data_page table frame =
    let h : DataPageHeader = record {
      page_type = data_page_type;
      records_begin = page_size;
      records_end = slot_array_offset;
      slot_count = 0;
    } in
    record {
      header = h;
      table = table;
      current_position = slot_array_offset;
      frame = put_header h frame;
    }

unfoldable pub open_data_page : TableInfo → Mem → DataPage → DataPage
open_data_page table frame page = record page {
  table = table;
  header = read_header frame;
  frame = frame;
}

abbrev pub slot_offset : ℕ → ℕ
slot_offset id = slot_array_offset + 2 * id

-- `records_begin - records_end` is an `int` and may be below zero.
unfoldable pub data_page_insert : DataPage → ℕ × DataPage
data_page_insert page =
    let h = page.header in
    let size = page.table.record_size in
    let h' : DataPageHeader = record h {
      records_end = (h.records_end + 2) % 2 ^ 16;
      slot_count = (h.slot_count + 1) % 2 ^ 16;
      records_begin = (h.records_begin + 2 ^ 16 - size) % 2 ^ 16;
    } in
    if ltb h.records_begin (h.records_end + size) then (invalid_record_handle, page) else (
      h.slot_count,
      record page {
        header = h';
        current_position = h.records_begin;
        frame =
            put_header h'
              (write_uint16 page.frame (slot_offset h.slot_count % 2 ^ 16) h.records_begin);
      },
    )

pub record DataPageIterator : Type 0 where
  pub page : DataPage
  pub current_slot : ℕ
  pub current_record : ℕ

unfoldable pub open_page_iterator : DataPage → DataPageIterator
open_page_iterator page = record { page = page; current_slot = 0; current_record = 0 }

unfoldable pub next_page_record : DataPageIterator → ℕ × DataPageIterator
next_page_record i =
    if i.current_slot == i.page.header.slot_count then (invalid_record_handle, i) else (
      i.current_slot,
      record i {
        current_record = read_uint16 i.page.frame (slot_offset i.current_slot % 2 ^ 16);
        current_slot = (i.current_slot + 1) % 2 ^ 16;
      },
    )

unfoldable pub get_info : List Column → Str → Option Column
get_info [] name = none
get_info (c ∷ cs) name = if strn_eq name c.name max_column_name then some c else get_info cs name

-- `handle - cinfo->offset - cinfo->size` in 32 bits, passed as a uint16_t.
abbrev pub field_offset : ℕ → Column → ℕ
field_offset handle c = (handle + 2 ^ 32 + 2 ^ 32 - c.offset - c.size) % 2 ^ 16

-- The `size` bytes that are copied to `value`; `none` is a NULL column that is dereferenced, since
-- the code tests the name instead of the column.
unfoldable pub page_get_generic : DataPage → ℕ → Str → Option (Mem × ℕ)
page_get_generic page id column = elim (get_info page.table.columns column) [
  | none ↦ none
  | some c ↦
      some (
        from page.frame (field_offset (read_uint16 page.frame (slot_offset id % 2 ^ 16)) c),
        c.size,
      )
]

unfoldable pub page_set_generic : DataPage → ℕ → Str → Mem → ℕ → DataPage
page_set_generic page id column value value_length = elim (get_info page.table.columns column) [
  | none ↦ page
  | some c ↦ record page {
    frame =
        copy page.frame (field_offset (read_uint16 page.frame (slot_offset id % 2 ^ 16)) c) value
          (if ltb value_length c.size then value_length else c.size);
  }
]

-- `value` as the four bytes of its bit pattern. The code writes from where the slot points to; a slot that
-- points past the page has it write into another frame, which is not in this state.
unfoldable pub page_set_int : DataPage → ℕ → Str → ℕ → DataPage
page_set_int page id column value = page_set_generic page id column (of_bytes (le32 value)) 4

-- The copy has the length of `strlen`: the terminator is not written.
unfoldable pub page_set_char : DataPage → ℕ → Str → Str → DataPage
page_set_char page id column value = page_set_generic page id column (of_bytes value) (length value)

abbrev int_of : Option (Mem × ℕ) → Option ℕ
int_of none = none
int_of (some (m, size)) = some (read_uint32 m 0)

-- The caller's `int32_t`, where the column has four bytes.
unfoldable pub page_get_int : DataPage → ℕ → Str → Option ℕ
page_get_int page id column = int_of (page_get_generic page id column)

unfoldable pub page_get_char : DataPage → ℕ → Str → Option (Mem × ℕ)
page_get_char page id column = page_get_generic page id column

-- The column at `ordinal` of the array, which is zeroed behind the table's columns.
abbrev pub column_at : List Column → ℕ → Column
column_at [] i = record { type = type_unknown; size = 0; name = []; offset = 0 }
column_at (c ∷ cs) zero = c
column_at (c ∷ cs) (suc i) = column_at cs i

-- A table of fewer than MAX_COLUMNS columns.
unfoldable pub page_get_value : DataPage → ℕ → ℕ → Value → Value
page_get_value page id ordinal value =
    let c = column_at page.table.columns ordinal in
    deserialize value c.type
      (from page.frame (field_offset (read_uint16 page.frame (slot_offset id % 2 ^ 16)) c)) c.size
