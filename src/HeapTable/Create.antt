-- ===== src/HeapTable/Create.antt =====
-- `create_heap_table`: one allocation map with one data page.
use npsql.Base.{ℕ, true, ◌+◌, ◌<◌, ◌≡◌, ◌∙◌, refl, ap, arith, [], ◌∷◌, put_at-ne}
use npsql.Sql.{TableInfo}
use npsql.BufferManager.{invalid_pnum}
use npsql.HeapTable.{Store, HeapTable, create_heap_table, add_new_am, add_new_data_page}
use npsql.HeapTable.Pages.{slots_of, new_data_page-PageOk}
use npsql.HeapTable.Heap.{Am, Map, Heap}
use npsql.HeapTable.Grow.{
  longer, longer_store, longer-Map, longer_store-other, longer_store-fresh,
  add_new_data_page-longer,
}
use npsql.HeapTable.Link.{new_map, with_map, with_map-Map}

-- A table as it is created in a store.
pub record Created (s : Store) (table : TableInfo) (result : HeapTable × Store) : Type 0 where
  pub info : result.0.table_info ≡ table
  pub head : Am
  pub first : result.0.am_entry_pid ≡ head.pid
  pub entry_pid : result.0.am_entry_pid ≡ s.page_count
  pub heap : Heap result.1 table (head ∷ [])
  pub one_page : head.n ≡ 1
  pub empty : slots_of (result.1.pages (head.entry 0)) ≡ 0
  pub two_more : result.1.page_count ≡ s.page_count + 2
  pub kept : (k : ℕ) → k < s.page_count → result.1.pages k ≡ s.pages k

-- In a store with page numbers left, a new table is a well-formed heap: one allocation map, which is
-- the table's entry page, with one data page, which holds no record; the pages before are left as they are.
pub create_heap_table-Created :
    (s : Store) (table : TableInfo)
    → s.page_count + 1 < invalid_pnum
    → Created s table (create_heap_table s table)
unfolding create_heap_table add_new_am
create_heap_table-Created s table numbers = rw made (record {
  info = refl;
  head = longer s1 (new_map s);
  first = refl;
  entry_pid = refl;
  heap = (longer-Map s1 table (new_map s) map (omega arith) numbers, omega arith, tt);
  one_page = refl;
  empty =
      ap slots_of (longer_store-fresh s1 table (new_map s) map (omega arith) numbers)
      ∙ (new_data_page-PageOk table _).1;
  two_more = omega arith;
  kept = λ k lt.
      longer_store-other s1 table (new_map s) map (omega arith) numbers k (omega arith)
        (omega arith)
      ∙ put_at-ne s.pages s.page_count _ k (omega arith);
})
  where
    s1 : Store
    s1 = with_map s

    map : Map s1 table (new_map s) []
    map = with_map-Map s table numbers

    made : add_new_data_page s1 table s.page_count ≡ (true, longer_store s1 table (new_map s))
    made = add_new_data_page-longer s1 table (new_map s) map (omega arith) numbers
