-- ===== src/Tests/Pages.antt =====
-- server/src/storage.c and data_page.c on a table with an int column `a` and a char column `b`.
use npsql.Base.{ℕ, ◌+◌, ◌≤◌, ◌<◌, ◌≡◌, arith, [], ◌∷◌, Mem}
use npsql.Sql.{type_int, type_char, Column, TableInfo}
use npsql.DataPage.{DataPage, new_data_page, data_page_insert}
use npsql.DataPage.Insert.{
  IsValid, new_data_page-IsValid, data_page_insert-IsValid, data_page_insert-overlap,
}

abbrev pub col_a : Column
col_a = record { type = type_int; size = 4; name = 97 ∷ []; offset = 0 }

abbrev col_b : Column
col_b = record { type = type_char; size = 10; name = 98 ∷ []; offset = 4 }

abbrev pub t_info : TableInfo
t_info = record { table_name = 116 ∷ []; record_size = 14; columns = col_a ∷ col_b ∷ [] }

abbrev pub zeros : Mem
zeros _ = 0

abbrev new_page : DataPage
new_page = new_data_page t_info zeros

new_page-type : new_page.header.page_type < 65536
unfolding new_data_page
new_page-type = omega arith

new_page-room :
    new_page.header.records_end + 2 + new_page.table.record_size ≤ new_page.header.records_begin
unfolding new_data_page
new_page-room = omega arith

data_page_insert-IsValid_example :
    let (id, p') = data_page_insert new_page in
    (id ≡ new_page.header.slot_count)
    × IsValid p'
    × ((k : ℕ) → p'.header.records_begin ≤ k → p'.frame k ≡ new_page.frame k)
data_page_insert-IsValid_example =
    data_page_insert-IsValid new_page (new_data_page-IsValid t_info zeros) new_page-type
      new_page-room

-- A table whose record fits an empty page without its slot, but not with it.
abbrev wide_page : DataPage
wide_page = new_data_page (record t_info { record_size = 503 }) zeros

wide_page-passes :
    wide_page.header.records_end + wide_page.table.record_size ≤ wide_page.header.records_begin
unfolding new_data_page
wide_page-passes = omega arith

wide_page-tight :
    wide_page.header.records_begin < wide_page.header.records_end + wide_page.table.record_size + 2
unfolding new_data_page
wide_page-tight = omega arith

data_page_insert-overlap_example :
    let (id, p') = data_page_insert wide_page in
    (id ≡ wide_page.header.slot_count) × (p'.header.records_begin < p'.header.records_end)
data_page_insert-overlap_example =
    data_page_insert-overlap wide_page
      (new_data_page-IsValid (record t_info { record_size = 503 }) zeros) wide_page-passes
      wide_page-tight
