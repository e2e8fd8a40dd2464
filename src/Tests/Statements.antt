-- ===== src/Tests/Statements.antt =====
-- server/src/syscat.c, create_table.c, insert.c and npsql.c on small statements.
use npsql.Base.{
  ℕ, ◌+◌, ◌≤◌, ◌≡◌, ap, ◌≢◌, refl, arith, Bool, false, Option, none, some, List, [], ◌∷◌, copy,
}
use npsql.Catalog.{find_table, create_columns, fetch_columns}
use npsql.HeapTable.{
  next_record, open_heap_iterator, read_am, insert_from, scan_am_for_insert, scan_entries,
  create_heap_table, add_new_data_page, add_new_am, append_data_page, get_char, make_room,
  next_entry, put_am, set_char,
}
use npsql.DataPage.{
  next_page_record, data_page_insert, new_data_page, open_data_page, open_page_iterator,
  page_get_char, page_get_generic, page_get_int, page_set_char, page_set_generic, page_set_int,
  put_header, read_header,
}
use npsql.Bytes.{read_uint16, read_uint32, read_uint64, write_uint16, write_uint64}
use npsql.Storage.{add_char, add_int, init_table_info}
use npsql.ExprEval.{◌>>=◌}
use npsql.Sql.{Str, Column, type_int, type_char, TableInfo, strn_eq, PlanColumn}
use npsql.Storage.Layout.{Layout}
use npsql.DataPage.{get_info, slot_offset, page_size, DataPageHeader, data_page_type}
use npsql.HeapTable.{am_entry_offset}
use npsql.HeapTable.Pages.{Sized, PageOk}
use npsql.HeapTable.Heap.{Am, Heap, header_of}
use npsql.HeapTable.Chained.{Chained}
use npsql.HeapTable.Insert.{Placed}
use npsql.HeapTable.{
  Store, HeapTable, RecordId, heap_insert, get_int, set_int, open_heap_table, opened,
}
use npsql.HeapTable.Fields.{get_int-set_int}
use npsql.Catalog.{
  Syscat, intialize_system_catalogs, create_system_catalogs, create_table, fetch_table_info,
  object_catalog_am_pid, table_catalog_am_pid, column_catalog_am_pid,
}
use npsql.Catalog.Create.{OnePage, create_system_catalogs-OnePage}
use npsql.Statements.{
  ColumnDef, Insert, define_columns, zero_table, execute_insert_into, execute_create_table,
}
use npsql.Statements.Define.{total_size, column_names, def_names, define_columns-Layout}
use npsql.Statements.Faults.{execute_insert_into-Unmatched}
use npsql.Engine.{SqlStmt, stmt_select, stmt_create_table, Operations, submit_query}
use npsql.Engine.Sets.{all_sets, outcome, world_of, all_sets-outcome}
use npsql.Tests.Heap.{empty_store}
use npsql.Tests.Pages.{col_a}
use npsql.Tests.Select.{select_1}

abbrev blank : Syscat
blank = record {
  object_catalog_schema = zero_table;
  table_catalog_schema = zero_table;
  column_catalog_schema = zero_table;
}

create_system_catalogs-OnePage_example :
    let (cat, s') = create_system_catalogs empty_store blank in
    (cat ≡ intialize_system_catalogs blank)
    × OnePage s' cat.object_catalog_schema object_catalog_am_pid
    × OnePage s' cat.table_catalog_schema table_catalog_am_pid
    × OnePage s' cat.column_catalog_schema column_catalog_am_pid
create_system_catalogs-OnePage_example = create_system_catalogs-OnePage empty_store blank refl

-- a INT, b CHAR(10)
abbrev a_and_b : List ColumnDef
a_and_b =
    record { name = 97 ∷ []; type = type_int; size = 4 }
    ∷ record { name = 98 ∷ []; type = type_char; size = 10 }
    ∷ []

define_columns-Layout_example :
    (cs : List Column) × (define_columns 0 0 a_and_b ≡ some (some cs))
    × Layout cs 0 (total_size a_and_b)
    × (column_names cs ≡ def_names a_and_b)
define_columns-Layout_example =
    define_columns-Layout a_and_b (omega arith, (omega arith, tt)) (omega arith) (omega arith)

-- What create_plan and the rows of its plan do, by the tables of the SELECT.
abbrev planned_from : List ℕ → List Str → Option (List ℕ × Option (List PlanColumn × ℕ))
planned_from w [] = none
planned_from w (t ∷ ts) = some (5 ∷ w, some ([], 0))

abbrev rows_of : List ℕ → ℕ → Option (List ℕ × ℕ)
rows_of w scan = some (6 ∷ w, scan + 1)

-- A world that lists what was done, in which a SELECT without FROM does not return.
abbrev recorded : Operations (List ℕ) ℕ
recorded = record {
  commit = λ w. some (1 ∷ w);
  rollback = λ w. some (2 ∷ w);
  create_plan = λ w select. planned_from w select.table_refs;
  execute_create_table = λ w ct. some (3 ∷ w);
  execute_insert_into = λ w i. some (4 ∷ w);
}

-- CREATE TABLE t (a INT, b CHAR(10)); SELECT ... FROM t.
abbrev two_stmts : List SqlStmt
two_stmts =
    stmt_create_table (record { table_name = 116 ∷ []; column_defs = a_and_b })
    ∷ stmt_select select_1
    ∷ []

all_sets-outcome_example :
    world_of recorded rows_of (all_sets recorded rows_of 3 (submit_query two_stmts []))
    ≡ outcome recorded rows_of two_stmts []
all_sets-outcome_example = all_sets-outcome recorded rows_of two_stmts [] 3 (omega arith)

-- It is run to the commit.
two_stmts-outcome : outcome recorded rows_of two_stmts [] ≡ some (1 ∷ 6 ∷ 5 ∷ 3 ∷ [])
unfolding outcome
two_stmts-outcome = refl

-- Table t in a new database.
abbrev database : Option (Syscat × Store)
database =
    let (cat, s) = create_system_catalogs empty_store blank in
    execute_create_table 4 s cat (record { table_name = 116 ∷ []; column_defs = a_and_b })
    >>= λ (r : Bool × Store). some (cat, r.1)

abbrev cat : Syscat
cat = intialize_system_catalogs blank

abbrev db_store : Option Store
db_store = database >>= λ (d : Syscat × Store). some d.1

abbrev or_empty : Option Store → Store
or_empty none = empty_store
or_empty (some s) = s

abbrev db : Store
db = or_empty db_store

-- INSERT INTO t (c) VALUES (...), where t has no column c.
abbrev bad_insert : Insert
bad_insert = record { name = 116 ∷ []; columns = (99 ∷ []) ∷ []; values = [] }

abbrev t_fetched : TableInfo
t_fetched = record {
  table_name = 116 ∷ [];
  record_size = 14;
  columns =
      record { type = type_int; size = 4; name = 97 ∷ []; offset = 0 }
      ∷ record { type = type_char; size = 10; name = 98 ∷ []; offset = 4 }
      ∷ [];
}

fetched_t : fetch_table_info 4 db cat bad_insert.name zero_table ≡ some (some (t_fetched, 6))
unfolding fetch_table_info find_table next_record next_page_record open_heap_iterator read_am
    read_uint16 execute_create_table define_columns create_table heap_insert insert_from
    scan_am_for_insert scan_entries create_system_catalogs create_heap_table add_new_data_page copy
    read_uint32 read_uint64 write_uint16 write_uint64 create_columns fetch_columns
    intialize_system_catalogs data_page_insert get_info new_data_page open_data_page
    open_page_iterator page_get_char page_get_generic page_get_int page_set_char page_set_generic
    page_set_int put_header read_header add_new_am append_data_page get_char get_int make_room
    next_entry put_am set_char set_int strn_eq add_char add_int init_table_info
fetched_t = refl

abbrev placed : Option (RecordId × Store)
placed = heap_insert 4 db (open_heap_table t_fetched 6)

abbrev record_of : Option (RecordId × Store) → RecordId × Store
record_of none = (record { pid = 0; slot = 0 }, empty_store)
record_of (some r) = r

-- The allocation map of t, with one page.
abbrev t_am : Am
t_am = record { pid = 6; n = 1; entry = λ _. 7 }

-- Page 7 is a data page without a record.
abbrev no_records : DataPageHeader
no_records = record {
  page_type = data_page_type;
  records_begin = 512;
  records_end = 8;
  slot_count = 0;
}

-- What lies in the database.
db-laid_out :
    (db.page_count ≡ 8)
    × (read_am (db.pages 6) ≡ header_of t_am [])
    × (read_uint64 (db.pages 6) (am_entry_offset 0) ≡ 7)
    × (read_header (db.pages 7) ≡ no_records)
unfolding fetch_table_info find_table next_record next_page_record open_heap_iterator read_am
    read_uint16 execute_create_table define_columns create_table heap_insert insert_from
    scan_am_for_insert scan_entries create_system_catalogs create_heap_table add_new_data_page copy
    read_uint32 read_uint64 write_uint16 write_uint64 create_columns fetch_columns
    intialize_system_catalogs data_page_insert get_info new_data_page open_data_page
    open_page_iterator page_get_char page_get_generic page_get_int page_set_char page_set_generic
    page_set_int put_header read_header add_new_am append_data_page get_char get_int make_room
    next_entry put_am set_char set_int strn_eq add_char add_int init_table_info
db-laid_out = (refl, refl, refl, refl)

page_7-PageOk : PageOk t_fetched (db.pages 7)
unfolding open_data_page
page_7-PageOk = record {
  valid = record {
    stored = refl;
    slots_end = rw db-laid_out.3 refl;
    records = rw db-laid_out.3 refl;
    apart = rw db-laid_out.3 (omega arith);
    slots = rw db-laid_out.3 (λ i lt. absurd (omega arith));
  };
  type = ap (λ (h : DataPageHeader). h.page_type) db-laid_out.3;
}

t-Heap : Heap db t_fetched (t_am ∷ [])
t-Heap = (
  record {
    header = db-laid_out.1;
    entries = λ i lt. let first : i ≡ 0 = omega arith in rw first db-laid_out.2;
    after = λ i lt. omega arith;
    increasing = λ i j less lt. absurd (omega arith);
    before = λ i lt. omega (arith, db-laid_out.0);
    own_before = omega (arith, db-laid_out.0);
    known = omega arith;
    small = omega arith;
    full = tt;
    pages = λ i lt. page_7-PageOk;
  },
  omega arith,
  tt,
)

t-Sized : Sized 14
t-Sized c free all fits = omega arith

execute_insert_into-Unmatched_example :
    (rid : RecordId) × (s' : Store) × (execute_insert_into 4 db cat bad_insert ≡ some (false, s'))
    × Chained db t_fetched t_am rid s'
    × Placed db t_fetched rid s'
execute_insert_into-Unmatched_example =
    execute_insert_into-Unmatched 4 db cat bad_insert t_fetched t_am [] fetched_t
      (no_c, (no_c', tt)) t-Sized (omega arith) (omega (arith, db-laid_out.0)) t-Heap (omega arith)
  where
    no_c : strn_eq (99 ∷ []) (97 ∷ []) 1 ≡ false
    no_c = unfold strn_eq in refl

    no_c' : strn_eq (99 ∷ []) (98 ∷ []) 1 ≡ false
    no_c' = unfold strn_eq in refl

-- The new record's slot on its page.
abbrev t_rid : RecordId
t_rid = record { pid = 7; slot = 0 }

slot_t : read_uint16 (opened t_fetched ((record_of placed).1.pages 7)).frame (slot_offset 0) ≡ 512
unfolding fetch_table_info find_table next_record next_page_record open_heap_iterator read_am
    read_uint16 execute_create_table define_columns create_table heap_insert insert_from
    scan_am_for_insert scan_entries create_system_catalogs create_heap_table add_new_data_page copy
    read_uint32 read_uint64 write_uint16 write_uint64 create_columns fetch_columns
    intialize_system_catalogs data_page_insert get_info new_data_page open_data_page
    open_page_iterator page_get_char page_get_generic page_get_int page_set_char page_set_generic
    page_set_int put_header read_header add_new_am append_data_page get_char get_int make_room
    next_entry put_am set_char set_int strn_eq add_char add_int init_table_info
slot_t = refl

abbrev t_table : HeapTable
t_table = open_heap_table t_fetched 6

get_int-set_int_example :
    (get_int (set_int (record_of placed).1 t_table t_rid (97 ∷ []) 70000) t_table t_rid (97 ∷ [])
      ≡ some 70000)
    × ((k : ℕ)
        → k ≢ 7
        → (set_int (record_of placed).1 t_table t_rid (97 ∷ []) 70000).pages k
          ≡ (record_of placed).1.pages k)
    × ((k : ℕ)
        → page_size ≤ k
        → (set_int (record_of placed).1 t_table t_rid (97 ∷ []) 70000).pages 7 k
          ≡ (record_of placed).1.pages 7 k)
get_int-set_int_example =
    get_int-set_int (record_of placed).1 t_table t_rid (97 ∷ []) col_a 70000 found
      (omega (arith, slot_t), omega (arith, slot_t)) inside refl (omega arith)
  where
    found : get_info t_fetched.columns (97 ∷ []) ≡ some col_a
    found = unfold get_info strn_eq in refl

    inside : read_uint16 ((record_of placed).1.pages 7) (slot_offset 0) ≤ page_size
    inside = unfold open_data_page in omega (arith, slot_t)
