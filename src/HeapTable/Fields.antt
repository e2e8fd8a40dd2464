-- ===== src/HeapTable/Fields.antt =====
-- The fields of a heap's records.
use npsql.Base.{ℕ, ◌≡◌, ◌≢◌, ◌<◌, ◌≤◌, ◌∙◌, refl, sym, ap, Mem, some, put_at_self, put_at-ne}
use npsql.Bytes.{read_uint16}
use npsql.Sql.{Str, Column}
use npsql.DataPage.{
  DataPage, get_info, open_data_page, page_get_int, page_set_int, page_set_generic,
  page_get_generic, page_size, slot_offset,
}
use npsql.DataPage.Fields.{Clear, page_get_int-page_set_int, page_set_int-inside}
use npsql.HeapTable.{Store, HeapTable, RecordId, opened, get_int, set_int}

-- A page's fields depend on its frame and its table's columns.
page_get_int-same :
    (p q : DataPage) (id : ℕ) (name : Str)
    → p.frame ≡ q.frame
    → p.table ≡ q.table
    → page_get_int p id name ≡ page_get_int q id name
unfolding page_get_int page_get_generic
page_get_int-same p q id name frame table = rw (frame, table) refl

page_set_int-table :
    (p : DataPage) (id : ℕ) (name : Str) (c : Column) (value : ℕ)
    → get_info p.table.columns name ≡ some c
    → (page_set_int p id name value).table ≡ p.table
unfolding page_set_int page_set_generic
page_set_int-table p id name c value found = rw (found, page_set_int, page_set_generic) refl

-- A column of four bytes that the table has, in a record whose slot points inside the page and lies before
-- the field: an int that is set is read back, and neither another page changes nor a byte past the page.
pub get_int-set_int :
    (s : Store) (table : HeapTable) (rid : RecordId) (name : Str) (c : Column) (value : ℕ)
    → get_info table.table_info.columns name ≡ some c
    → Clear (opened table.table_info (s.pages rid.pid)) rid.slot c
    → read_uint16 (s.pages rid.pid) (slot_offset rid.slot) ≤ page_size
    → c.size ≡ 4
    → value < 4294967296
    → let s' = set_int s table rid name value in
      (get_int s' table rid name ≡ some value)
      × ((k : ℕ) → k ≢ rid.pid → s'.pages k ≡ s.pages k)
      × ((k : ℕ) → page_size ≤ k → s'.pages rid.pid k ≡ s.pages rid.pid k)
unfolding get_int set_int open_data_page
get_int-set_int s table rid name c value found clear inside four small = (
  page_get_int-same (opened table.table_info ((set_int s table rid name value).pages rid.pid)) set
        rid.slot name (put_at_self s.pages rid.pid set.frame)
        (sym (page_set_int-table p rid.slot name c value found))
      ∙ page_get_int-page_set_int p rid.slot name c value found clear four small,
  λ k ne. put_at-ne s.pages rid.pid set.frame k ne,
  λ k past.
      ap (λ (m : Mem). m k) (put_at_self s.pages rid.pid set.frame)
      ∙ page_set_int-inside p rid.slot name c value k found clear inside four past,
)
  where
    p : DataPage
    p = opened table.table_info (s.pages rid.pid)

    set : DataPage
    set = page_set_int p rid.slot name value
