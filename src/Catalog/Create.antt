-- ===== src/Catalog/Create.antt =====
-- The catalog of a new database.
use npsql.Base.{ℕ, ◌+◌, ◌≤◌, ◌<◌, ◌≡◌, ◌∙◌, refl, sym, ap, arith, [], ◌∷◌}
use npsql.Sql.{TableInfo}
use npsql.BufferManager.{invalid_pnum}
use npsql.HeapTable.{Store, create_heap_table}
use npsql.HeapTable.Pages.{slots_of}
use npsql.HeapTable.Heap.{Am, Heap}
use npsql.HeapTable.Kept.{Heap-kept}
use npsql.HeapTable.Create.{Created, create_heap_table-Created}
use npsql.Catalog.{
  Syscat, intialize_system_catalogs, create_system_catalogs, object_catalog_am_pid,
  table_catalog_am_pid, column_catalog_am_pid,
}

-- A table that is a well-formed heap of one allocation map with one data page, which holds no record.
pub record OnePage (s : Store) (table : TableInfo) (first_am : ℕ) : Type 0 where
  pub head : Am
  pub first : head.pid ≡ first_am
  pub heap : Heap s table (head ∷ [])
  pub one_page : head.n ≡ 1
  pub empty : slots_of (s.pages (head.entry 0)) ≡ 0

-- A table that is created in a store, and stays as the store grows.
created-OnePage :
    (s s' : Store) (table : TableInfo) (first_am : ℕ)
    → s.page_count ≡ first_am
    → s.page_count + 1 < invalid_pnum
    → (create_heap_table s table).1.page_count ≤ s'.page_count
    → ((k : ℕ)
        → k < (create_heap_table s table).1.page_count
        → s'.pages k ≡ (create_heap_table s table).1.pages k)
    → OnePage s' table first_am
created-OnePage s s' table first_am e numbers more same =
    let c : Created s table (create_heap_table s table) =
      create_heap_table-Created s table numbers in
    record {
      head = c.head;
      first = sym c.first ∙ c.entry_pid ∙ e;
      heap =
          Heap-kept (create_heap_table s table).1 s' table 0 (c.head ∷ []) c.heap (omega arith) more
            (λ k lo lt. same k lt);
      one_page = c.one_page;
      empty =
          ap slots_of (same (c.head.entry 0) (c.heap.0.before 0 (omega (arith, c.one_page))))
          ∙ c.empty;
    }

-- In an empty store the catalogs that are created are three well-formed heaps without a record, at the
-- page numbers 0, 2 and 4 by which the other operations open them, each with the schema that
-- intialize_system_catalogs gives it.
pub create_system_catalogs-OnePage :
    (s : Store) (syscat : Syscat)
    → s.page_count ≡ 0
    → let (cat, s') = create_system_catalogs s syscat in
      (cat ≡ intialize_system_catalogs syscat)
      × OnePage s' cat.object_catalog_schema object_catalog_am_pid
      × OnePage s' cat.table_catalog_schema table_catalog_am_pid
      × OnePage s' cat.column_catalog_schema column_catalog_am_pid
unfolding create_system_catalogs
create_system_catalogs-OnePage s syscat empty = (
  refl,
  created-OnePage s s3 cat.object_catalog_schema 0 empty (omega arith)
      (omega (arith, c2.two_more, c3.two_more))
      (λ k lt. c3.kept k (omega (arith, c2.two_more)) ∙ c2.kept k lt),
  created-OnePage s1 s3 cat.table_catalog_schema 2 (omega (arith, c1.two_more))
      (omega (arith, c1.two_more)) (omega (arith, c3.two_more)) (λ k lt. c3.kept k lt),
  created-OnePage s2 s3 cat.column_catalog_schema 4 (omega (arith, c1.two_more, c2.two_more))
      (omega (arith, c1.two_more, c2.two_more)) (omega arith) (λ k lt. refl),
)
  where
    cat : Syscat
    cat = intialize_system_catalogs syscat

    c1 : Created s cat.object_catalog_schema (create_heap_table s cat.object_catalog_schema)
    c1 = create_heap_table-Created s cat.object_catalog_schema (omega arith)

    s1 : Store
    s1 = (create_heap_table s cat.object_catalog_schema).1

    c2 : Created s1 cat.table_catalog_schema (create_heap_table s1 cat.table_catalog_schema)
    c2 = create_heap_table-Created s1 cat.table_catalog_schema (omega (arith, c1.two_more))

    s2 : Store
    s2 = (create_heap_table s1 cat.table_catalog_schema).1

    c3 : Created s2 cat.column_catalog_schema (create_heap_table s2 cat.column_catalog_schema)
    c3 =
        create_heap_table-Created s2 cat.column_catalog_schema
          (omega (arith, c1.two_more, c2.two_more))

    s3 : Store
    s3 = (create_heap_table s2 cat.column_catalog_schema).1
