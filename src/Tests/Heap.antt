-- ===== src/Tests/Heap.antt =====
-- server/src/heap_table.c: a table that is created in an empty store, and its first record.
use npsql.Base.{◌≡◌, ◌∙◌, sym, arith, true, [], ◌∷◌}
use npsql.DataPage.{open_page_iterator}
use npsql.HeapTable.{
  Store, HeapTable, HeapIterator, opened, create_heap_table, heap_insert, open_heap_iterator,
}
use npsql.HeapTable.Pages.{Sized}
use npsql.HeapTable.Create.{Created, create_heap_table-Created}
use npsql.HeapTable.Insert.{Inserted, heap_insert-Inserted}
use npsql.HeapTable.Iterate.{Visits, heap_records, pages_in, open_heap_iterator-Visits}
use npsql.Tests.Pages.{t_info, zeros}

abbrev pub empty_store : Store
empty_store = record { pages = λ _. zeros; page_count = 0 }

abbrev pub table : HeapTable
table = (create_heap_table empty_store t_info).0

abbrev pub store : Store
store = (create_heap_table empty_store t_info).1

pub created : Created empty_store t_info (create_heap_table empty_store t_info)
created = create_heap_table-Created empty_store t_info (omega arith)

t_info-Sized : Sized t_info.record_size
t_info-Sized c free all fits = omega arith

heap_insert-Inserted_example :
    Inserted store table.table_info created.head (heap_insert 2 store table)
unfolding create_heap_table
heap_insert-Inserted_example =
    heap_insert-Inserted 2 store table created.head [] t_info-Sized (omega arith)
      (omega (arith, created.two_more)) created.first created.heap (omega arith)

-- The table with its first record.
pub inserted : Inserted store table.table_info created.head (heap_insert 2 store table)
unfolding create_heap_table
inserted =
    heap_insert-Inserted 2 store table created.head [] t_info-Sized (omega arith)
      (omega (arith, created.two_more)) created.first created.heap (omega arith)

abbrev blank : HeapIterator
blank = record {
  table = table;
  current_record = record { pid = 0; slot = 0 };
  current_am_pid_index = 0;
  current_am = record { page_type = 0; pages_count = 0; me = 0; next = 0 };
  page_number = 0;
  current_page_iterator = open_page_iterator (opened t_info zeros);
}

open_heap_iterator-Visits_example :
    ((open_heap_iterator inserted.1 table blank).0 ≡ true)
    × Visits inserted.1
        (pages_in (inserted.3.head ∷ inserted.3.others))
        (open_heap_iterator inserted.1 table blank).1
        (heap_records inserted.1 (inserted.3.head ∷ inserted.3.others))
unfolding create_heap_table
open_heap_iterator-Visits_example =
    open_heap_iterator-Visits inserted.1 table inserted.3.head inserted.3.others blank
      (omega (arith, inserted.5, created.two_more)) (created.first ∙ sym inserted.3.same_head)
      inserted.3.heap
