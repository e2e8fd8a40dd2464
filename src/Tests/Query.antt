-- ===== src/Tests/Query.antt =====
-- server/src/plans.c and scans.c: a SELECT over a heap table with one record.
use npsql.Base.{none, ℕ, List, ◌∷◌}
use npsql.Plans.{Catalog, Select}
use npsql.Scans.{Row}
use npsql.Scans.Tables.{heap_rows}
use npsql.HeapTable.Heap.{Am}
use npsql.HeapTable.Iterate.{pages_in}
use npsql.Tests.Heap.{inserted, table}
use npsql.Tests.Pages.{t_info}
use npsql.Tests.Select.{select_1}

-- SELECT a, a + 2 FROM t, over the heap with its first record.
abbrev select_3 : Select
select_3 = record select_1 { where_clause = none }

abbrev chain : ℕ → List Am
chain first_am = inserted.3.head ∷ inserted.3.others

abbrev heap_cat : Catalog
heap_cat _ = (t_info, table.am_entry_pid)

abbrev records : List Row
records = heap_rows inserted.1 (pages_in (chain 0)) chain t_info table.am_entry_pid
