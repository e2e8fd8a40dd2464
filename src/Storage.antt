-- ===== src/Storage.antt =====
-- server/src/storage.c: how a table's columns are laid out in a record. `columns` has room for
-- MAX_COLUMNS entries, which the code does not test; the list is the part in use.
pub mod Layout
use npsql.Base.{ℕ, ◌+◌, ◌%◌, ◌^◌, List, [], ◌∷◌, ◌++◌}
use npsql.Sql.{Str, NpsqlType, type_int, type_char, Column, TableInfo}

unfoldable pub init_table_info : TableInfo → TableInfo
init_table_info table = record table { record_size = 0; columns = [] }

abbrev pub add_column : TableInfo → Column → TableInfo
add_column table c = record table {
  columns = table.columns ++ (c ∷ []);
  record_size = (table.record_size + c.size) % 2 ^ 16;
}

unfoldable pub add_int : TableInfo → Str → TableInfo
add_int table name =
    add_column table (record { type = type_int; size = 4; name = name; offset = table.record_size })

unfoldable pub add_char : TableInfo → Str → ℕ → TableInfo
add_char table name size =
    add_column table
      (record { type = type_char; size = size; name = name; offset = table.record_size })
