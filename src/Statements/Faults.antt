-- ===== src/Statements/Faults.antt =====
-- An INSERT that fails after its record is there.
use npsql.Base.{ℕ, ◌+◌, ◌≤◌, ◌<◌, ◌≡◌, refl, false, Option, some, List, [], ◌∷◌, get_elem?, length}
use npsql.Sql.{Str, strn_eq, Column, TableInfo, Expr}
use npsql.HeapTable.{Store, RecordId, HeapTable, open_heap_table}
use npsql.BufferManager.{invalid_pnum}
use npsql.HeapTable.Pages.{Sized}
use npsql.HeapTable.Heap.{Am, Heap}
use npsql.HeapTable.Chained.{Chained}
use npsql.HeapTable.Insert.{Placed, heap_insert-Inserted}
use npsql.Catalog.{Syscat, fetch_table_info}
use npsql.Statements.{Insert, zero_table, set_matching, set_columns, execute_insert_into}

-- No column has a name that begins with `name`.
abbrev pub NoColumn : Str → List Column → Type 0
NoColumn name [] = Unit {0}
NoColumn name (c ∷ cs) = (strn_eq name c.name (length name) ≡ false) × NoColumn name cs

-- The list of columns is empty, or its first is no column of the table.
abbrev pub Unmatched : List Str → List Column → Type 0
Unmatched [] cs = Unit {0}
Unmatched (name ∷ names) cs = NoColumn name cs

set_matching-NoColumn :
    (s : Store) (t : HeapTable) (rid : RecordId) (name : Str) (value : Option Expr)
    (cs : List Column)
    → NoColumn name cs
    → set_matching s t rid name value cs ≡ some (false, s)
unfolding set_matching
set_matching-NoColumn s t rid name value [] h = refl
set_matching-NoColumn s t rid name value (c ∷ cs) (ne, h) =
    rw ne (set_matching-NoColumn s t rid name value cs h)

set_columns-Unmatched :
    (s : Store) (t : HeapTable) (rid : RecordId) (values : List Expr) (names : List Str)
    → Unmatched names t.table_info.columns
    → set_columns s t rid values 0 false names ≡ some (false, s)
unfolding set_columns
set_columns-Unmatched s t rid values [] h = refl
set_columns-Unmatched s t rid values (name ∷ names) h =
    rw (set_matching-NoColumn s t rid name (get_elem? values 0) t.table_info.columns h) refl

-- Over a store on which every page can be pinned, with two page numbers left: an INSERT into a table that
-- the catalog has, a well-formed heap of records of at most 502 bytes whose size is `Sized`, with fuel of
-- two more than the heap's maps after the first, and whose first column, if it names any, begins the name
-- of no column of the table. It returns false and leaves a new record in the table all the same: the heap
-- is well formed with a record more, in the next slot of a page that had room or the first of a new page,
-- and the heap lists that page.
pub execute_insert_into-Unmatched :
    (fuel : ℕ) (s : Store) (cat : Syscat) (i : Insert) (ti : TableInfo) (a : Am) (rest : List Am)
    → fetch_table_info fuel s cat i.name zero_table ≡ some (some (ti, a.pid))
    → Unmatched i.columns ti.columns
    → Sized ti.record_size
    → ti.record_size ≤ 502
    → s.page_count + 1 < invalid_pnum
    → Heap s ti (a ∷ rest)
    → length rest + 2 ≤ fuel
    → (rid : RecordId) × (s' : Store) × (execute_insert_into fuel s cat i ≡ some (false, s'))
      × Chained s ti a rid s'
      × Placed s ti rid s'
unfolding execute_insert_into
execute_insert_into-Unmatched fuel s cat i ti a rest found h sized fits numbers heap enough =
    let t = open_heap_table ti a.pid in
    let (rid, s', e, chained, placed, count) =
      heap_insert-Inserted fuel s t a rest sized fits numbers refl heap enough in
    (rid, s', rw (found, e) (set_columns-Unmatched s' t rid i.values i.columns h), chained, placed)
