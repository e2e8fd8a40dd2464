-- ===== src/Statements.antt =====
-- server/src/create_table.c and insert.c: CREATE TABLE and INSERT over the catalog. The result is what
-- the function returns and the store; `none` is what C leaves undefined, or that the fuel of a loop is
-- out.
pub mod Define
pub mod Faults
use npsql.Base.{
  ℕ, zero, suc, ◌+◌, ◌-◌, ◌%◌, ◌^◌, Bool, true, false, not, ◌||◌, Option, none, some, List, [], ◌∷◌,
  ◌++◌, length, get_elem?, ltb, if◌then◌else◌,
}
use npsql.Base.Int.{ℤ, pos, negsuc}
use npsql.ExprEval.{◌>>=◌}
use npsql.Sql.{
  Str, strn_eq, NpsqlType, type_unknown, type_int, type_char, type_bool, Column, TableInfo, Expr,
  expr_integer, expr_string, expr_idenifier, infix_expr,
}
use npsql.DataPage.{max_column_name}
use npsql.HeapTable.{Store, RecordId, HeapTable, open_heap_table, heap_insert, set_int, set_char}
use npsql.Catalog.{Syscat, max_object_name, max_columns, create_table, fetch_table_info}

pub record ColumnDef : Type 0 where
  pub name : Str
  pub type : NpsqlType
  pub size : ℕ

pub record CreateTable : Type 0 where
  pub table_name : Str
  pub column_defs : List ColumnDef

-- `struct table_info ti = { 0 }`
abbrev pub zero_table : TableInfo
zero_table = record { table_name = []; record_size = 0; columns = [] }

-- The loop over the column definitions, the `i`th on. A name that is too long ends it with `some none`;
-- a column past MAX_COLUMNS is written past the array. `record_size` stays 0.
unfoldable pub define_columns : ℕ → ℕ → List ColumnDef → Option (Option (List Column))
define_columns i offset [] = some (some [])
define_columns i offset (d ∷ ds) =
    if ltb max_column_name (length d.name)
    then some none
    else if ltb i max_columns
    then (define_columns (i + 1) ((offset + d.size) % 2 ^ 16) ds >>= λ (cs : Option (List Column)).
        some (
          cs >>= λ cs'.
          some (record { type = d.type; size = d.size; name = d.name; offset = offset } ∷ cs')))
    else none

abbrev create_defined : ℕ → Store → Syscat → Str → Option (List Column) → Option (Bool × Store)
create_defined fuel s cat name none = some (false, s)
create_defined fuel s cat name (some cs) =
    create_table fuel s cat (record { table_name = name; record_size = 0; columns = cs }) >>= λ s'.
    some (true, s')

unfoldable pub execute_create_table : ℕ → Store → Syscat → CreateTable → Option (Bool × Store)
execute_create_table fuel s cat ct =
    if ltb max_object_name (length ct.table_name)
    then some (false, s)
    else (define_columns 0 0 ct.column_defs >>= create_defined fuel s cat ct.table_name)

pub record Insert : Type 0 where
  pub name : Str
  pub columns : List Str
  pub values : List Expr

-- The bits of an int.
abbrev pub bits : ℤ → ℕ
bits (pos n) = n % 2 ^ 32
bits (negsuc n) = 2 ^ 32 - 1 - n % 2 ^ 32

-- The value of a term as a member of its union; another term holds another member.
abbrev number_of : Option Expr → Option ℕ
number_of none = none
number_of (some (expr_integer n)) = some (bits n)
number_of (some (expr_string x)) = none
number_of (some (expr_idenifier x)) = none
number_of (some (infix_expr op l r)) = none

abbrev text_of : Option Expr → Option Str
text_of none = none
text_of (some (expr_integer n)) = none
text_of (some (expr_string x)) = some x
text_of (some (expr_idenifier x)) = none
text_of (some (infix_expr op l r)) = none

abbrev set_column : Store → HeapTable → RecordId → Column → Option Expr → NpsqlType → Option Store
set_column s t rid c value type_int = number_of value >>= λ n. some (set_int s t rid c.name n)
set_column s t rid c value type_char = text_of value >>= λ x. some (set_char s t rid c.name x)
set_column s t rid c value type_unknown = some s
set_column s t rid c value type_bool = some s

-- The loop over the table's columns for a column of the statement: whether one matched.
unfoldable pub set_matching :
    Store → HeapTable → RecordId → Str → Option Expr → List Column → Option (Bool × Store)
set_matching s t rid name value [] = some (false, s)
set_matching s t rid name value (c ∷ cs) =
    if strn_eq name c.name (length name)
    then (set_column s t rid c value c.type >>= λ s'.
        set_matching s' t rid name value cs >>= λ (r : Bool × Store). some (true, r.1))
    else set_matching s t rid name value cs

-- The loop over the statement's columns, from the `x`th on, which ends at the first that no column
-- of the table matches.
unfoldable pub set_columns :
    Store → HeapTable → RecordId → List Expr → ℕ → Bool → List Str → Option (Bool × Store)
set_columns s t rid values x column_match [] = some (column_match, s)
set_columns s t rid values x column_match (name ∷ names) =
    set_matching s t rid name (get_elem? values x) t.table_info.columns >>= λ (r : Bool × Store).
    if r.0 then set_columns r.1 t rid values (x + 1) true names else some (false, r.1)

abbrev insert_found : ℕ → Store → Insert → Option (TableInfo × ℕ) → Option (Bool × Store)
insert_found fuel s i none = some (false, s)
insert_found fuel s i (some (ti, first_am)) =
    let t = open_heap_table ti first_am in
    heap_insert fuel s t >>= λ (r : RecordId × Store).
    set_columns r.1 t r.0 i.values 0 false i.columns

unfoldable pub execute_insert_into : ℕ → Store → Syscat → Insert → Option (Bool × Store)
execute_insert_into fuel s cat i =
    fetch_table_info fuel s cat i.name zero_table >>= insert_found fuel s i
