-- ===== src/Catalog.antt =====
-- server/src/syscat.c: the system catalog, three tables that say which tables there are, and where and
-- with which columns. `none` is what C leaves undefined, or that the fuel of a loop is out. A char
-- column is copied without a terminator; the array that it is copied to holds zeros behind it.
pub mod Create
use npsql.Base.{
  ℕ, zero, suc, ◌+◌, ◌-◌, ◌%◌, ◌^◌, Bool, true, false, Option, none, some, List, [], ◌∷◌, ◌++◌,
  ◌==◌, Mem, length, ltb, if◌then◌else◌,
}
use npsql.ExprEval.{◌>>=◌}
use npsql.Bytes.{read_uint32}
use npsql.Sql.{
  Str, strn_eq, NpsqlType, type_unknown, type_int, type_char, type_bool, Column, TableInfo,
}
use npsql.Storage.{init_table_info, add_int, add_char}
use npsql.DataPage.{max_column_name}
use npsql.HeapTable.{
  Store, RecordId, HeapTable, HeapIterator, create_heap_table, open_heap_table, heap_insert,
  open_heap_iterator, next_record, opened, get_int, get_char, set_int, set_char,
}

abbrev pub object_catalog_am_pid : ℕ
object_catalog_am_pid = 0

abbrev pub table_catalog_am_pid : ℕ
table_catalog_am_pid = 2

abbrev pub column_catalog_am_pid : ℕ
column_catalog_am_pid = 4

-- MAX_OBJECT_NAME, MAX_TABLE_NAME
abbrev pub max_object_name : ℕ
max_object_name = 15

abbrev pub max_columns : ℕ
max_columns = 16

-- OBJ_TABLE
abbrev obj_table : ℕ
obj_table = 1

-- "name", "object_type", "am_pid", "table_name", "type", "length", "offset"
abbrev name_col : Str
name_col = 110 ∷ 97 ∷ 109 ∷ 101 ∷ []

abbrev object_type : Str
object_type = 111 ∷ 98 ∷ 106 ∷ 101 ∷ 99 ∷ 116 ∷ 95 ∷ 116 ∷ 121 ∷ 112 ∷ 101 ∷ []

abbrev am_pid : Str
am_pid = 97 ∷ 109 ∷ 95 ∷ 112 ∷ 105 ∷ 100 ∷ []

abbrev table_name : Str
table_name = 116 ∷ 97 ∷ 98 ∷ 108 ∷ 101 ∷ 95 ∷ 110 ∷ 97 ∷ 109 ∷ 101 ∷ []

abbrev type : Str
type = 116 ∷ 121 ∷ 112 ∷ 101 ∷ []

abbrev length_col : Str
length_col = 108 ∷ 101 ∷ 110 ∷ 103 ∷ 116 ∷ 104 ∷ []

abbrev offset : Str
offset = 111 ∷ 102 ∷ 102 ∷ 115 ∷ 101 ∷ 116 ∷ []

-- The schemas; the page numbers of the struct are not used.
pub record Syscat : Type 0 where
  pub object_catalog_schema : TableInfo
  pub table_catalog_schema : TableInfo
  pub column_catalog_schema : TableInfo

unfoldable pub intialize_system_catalogs : Syscat → Syscat
intialize_system_catalogs syscat = record {
  object_catalog_schema =
      add_int (add_char (init_table_info syscat.object_catalog_schema) name_col max_object_name)
        object_type;
  table_catalog_schema =
      add_int (add_char (init_table_info syscat.table_catalog_schema) name_col max_object_name)
        am_pid;
  column_catalog_schema =
      add_int
        (add_int
          (add_int
            (add_char
              (add_char (init_table_info syscat.column_catalog_schema) name_col max_column_name)
              table_name max_object_name)
            type)
          length_col)
        offset;
}

unfoldable pub create_system_catalogs : Store → Syscat → Syscat × Store
create_system_catalogs s syscat =
    let cat = intialize_system_catalogs syscat in
    let s1 = (create_heap_table s cat.object_catalog_schema).1 in
    let s2 = (create_heap_table s1 cat.table_catalog_schema).1 in
    (cat, (create_heap_table s2 cat.column_catalog_schema).1)

-- The numbers of `enum npsql_type`.
abbrev pub type_code : NpsqlType → ℕ
type_code type_unknown = 0
type_code type_int = 1
type_code type_char = 2
type_code type_bool = 3

-- The loop over the columns of a new table.
unfoldable pub create_columns : ℕ → Store → HeapTable → Str → List Column → Option Store
create_columns fuel s column_catalog name [] = some s
create_columns fuel s column_catalog name (c ∷ cs) = do
  (rid, s1) ← heap_insert fuel s column_catalog
  let s2 = set_char s1 column_catalog rid name_col c.name
  let s3 = set_char s2 column_catalog rid table_name name
  let s4 = set_int s3 column_catalog rid type (type_code c.type)
  let s5 = set_int s4 column_catalog rid length_col c.size
  create_columns fuel (set_int s5 column_catalog rid offset c.offset) column_catalog name cs

-- `fuel` is that of each `heap_insert`.
unfoldable pub create_table : ℕ → Store → Syscat → TableInfo → Option Store
create_table fuel s syscat schema = do
  let object_catalog = open_heap_table syscat.object_catalog_schema object_catalog_am_pid
  let table_catalog = open_heap_table syscat.table_catalog_schema table_catalog_am_pid
  let column_catalog = open_heap_table syscat.column_catalog_schema column_catalog_am_pid
  (rid, s1) ← heap_insert fuel s object_catalog
  let s2 = set_char s1 object_catalog rid name_col schema.table_name
  let s3 = set_int s2 object_catalog rid object_type obj_table
  let (table, s4) = create_heap_table s3 schema
  (rid', s5) ← heap_insert fuel s4 table_catalog
  let s6 = set_char s5 table_catalog rid' name_col schema.table_name
  let s7 = set_int s6 table_catalog rid' am_pid (table.am_entry_pid % 2 ^ 32)
  create_columns fuel s7 column_catalog schema.table_name schema.columns

-- The string in an array of `n` bytes with a zero behind it.
abbrev c_string : Mem → ℕ → ℕ → Str
c_string m i zero = []
c_string m i (suc n) = let rest = c_string m (i + 1) n in if m i == 0 then [] else m i ∷ rest

abbrev string_of : Mem × ℕ → Str
string_of (m, size) = c_string m 0 size

-- What an int says as an `enum npsql_type`; another number is no type.
abbrev type_of_code : ℕ → Option NpsqlType
type_of_code n =
    if n == 0
    then some type_unknown
    else if n == 1
    then some type_int
    else if n == 2
    then some type_char
    else if n == 3
    then some type_bool
    else none

-- A turn of the loop over the table catalog: the table is the one of the record, or `rest` finds it.
abbrev find_turn :
    Str → Bool → Option (Mem × ℕ) → Option ℕ → Option (Option (Str × ℕ)) → Option (Option (Str × ℕ))
find_turn name false found fam rest = some none
find_turn name true found fam rest = found >>= λ m.
    if strn_eq name (string_of m) max_column_name
    then (fam >>= λ pid. some (some (string_of m, pid)))
    else rest

-- The loop over the table catalog: the table's name and its entry page.
unfoldable pub find_table :
    ℕ → ℕ → Store → HeapTable → Str → HeapIterator → Option (Option (Str × ℕ))
find_table zero fuel s table_catalog name i = none
find_table (suc n) fuel s table_catalog name i =
    next_record fuel s i >>= λ (r : Bool × HeapIterator).
    find_turn name r.0 (get_char s table_catalog r.1.current_record name_col)
      (get_int s table_catalog r.1.current_record am_pid)
      (find_table n fuel s table_catalog name r.1)

-- A column of the catalog's, as `fetch_table_info` reads it.
abbrev fetch_column : Store → HeapTable → RecordId → Option Column
fetch_column s column_catalog rid = do
  name ← get_char s column_catalog rid name_col
  code ← get_int s column_catalog rid type
  t ← type_of_code code
  size ← get_int s column_catalog rid length_col
  at_ ← get_int s column_catalog rid offset
  some (record { type = t; size = size; name = string_of name; offset = at_ })

-- The column at the end of the array, if there is room for it.
abbrev append_column : TableInfo → Column → Option TableInfo
append_column ti c =
    if ltb (length ti.columns) max_columns
    then some (record ti {
      columns = ti.columns ++ (c ∷ []);
      record_size = (ti.record_size + c.size) % 2 ^ 16;
    })
    else none

-- A turn of the loop over the column catalog: a column of the table's is appended.
abbrev fetch_turn :
    Str
    → TableInfo
    → Bool
    → Option (Mem × ℕ)
    → Option Column
    → (TableInfo → Option TableInfo)
    → Option TableInfo
fetch_turn name ti false cname column rest = some ti
fetch_turn name ti true cname column rest = cname >>= λ m.
    if strn_eq name (string_of m) max_column_name
    then (column >>= λ c. append_column ti c >>= rest)
    else rest ti

-- The loop over the column catalog.
unfoldable pub fetch_columns :
    ℕ → ℕ → Store → HeapTable → Str → TableInfo → HeapIterator → Option TableInfo
fetch_columns zero fuel s column_catalog name ti i = none
fetch_columns (suc n) fuel s column_catalog name ti i =
    next_record fuel s i >>= λ (r : Bool × HeapIterator).
    fetch_turn name ti r.0 (get_char s column_catalog r.1.current_record table_name)
      (fetch_column s column_catalog r.1.current_record)
      (λ ti'. fetch_columns n fuel s column_catalog name ti' r.1)

-- `struct heap_iterator iterator = { 0 }`
abbrev zero_iterator : HeapTable → HeapIterator
zero_iterator table = record {
  table = table;
  current_record = record { pid = 0; slot = 0 };
  current_am_pid_index = 0;
  current_am = record { page_type = 0; pages_count = 0; me = 0; next = 0 };
  page_number = 0;
  current_page_iterator = record {
    page = opened table.table_info (λ _. 0);
    current_slot = 0;
    current_record = 0;
  };
}

-- What is filled in for a table that there is. The name is copied by `get_char` for every record that
-- is passed; only the last is kept here, where there is a table.
abbrev fetch_found :
    ℕ → Store → Syscat → Str → TableInfo → Option (Str × ℕ) → Option (Option (TableInfo × ℕ))
fetch_found fuel s syscat name ti none = some none
fetch_found fuel s syscat name ti (some (found, fam)) =
    let column_catalog = open_heap_table syscat.column_catalog_schema column_catalog_am_pid in
    let i = (open_heap_iterator s column_catalog (zero_iterator column_catalog)).1 in
    fetch_columns fuel fuel s column_catalog name (record ti { table_name = found; columns = [] }) i
    >>= λ ti'. some (some (ti', if ltb fam (2 ^ 31) then fam else fam + 2 ^ 64 - 2 ^ 32))

-- The table's schema and its entry page, a negative int of which is sign-extended; `fuel` is that of
-- each loop. The second iterator is opened over the first, on which nothing depends.
unfoldable pub fetch_table_info :
    ℕ → Store → Syscat → Str → TableInfo → Option (Option (TableInfo × ℕ))
fetch_table_info fuel s syscat name ti =
    let table_catalog = open_heap_table syscat.table_catalog_schema table_catalog_am_pid in
    let i = (open_heap_iterator s table_catalog (zero_iterator table_catalog)).1 in
    find_table fuel fuel s table_catalog name i >>= fetch_found fuel s syscat name ti
