-- ===== src/Scans/Tables.antt =====
-- A SELECT over tables that are well-formed heaps in one store.
use npsql.Base.{ℕ, ◌≤◌, ◌≡◌, List, [], ◌∷◌, map}
use npsql.Sql.{Str, TableInfo}
use npsql.Plans.{Catalog}
use npsql.HeapTable.{Store}
use npsql.HeapTable.Heap.{Am, Heap}
use npsql.HeapTable.Iterate.{heap_records, pages_in}
use npsql.Scans.{Row, record_row}

module _ (s : Store) (fuel : ℕ) (ti : TableInfo) (first_am : ℕ) where
  -- The table is a well-formed heap behind `first_am`, for the pages of which the fuel is enough.
  abbrev pub IsTable : List Am → Type 0
  IsTable [] = ⊥
  IsTable (a ∷ rest) = (first_am ≡ a.pid) × Heap s ti (a ∷ rest) × (pages_in (a ∷ rest) ≤ fuel)

-- The rows of the table behind `first_am`, whose allocation maps are given by that number.
abbrev pub heap_rows : Store → ℕ → (ℕ → List Am) → TableInfo → ℕ → List Row
heap_rows s fuel chain ti first_am =
    map (record_row s fuel ti first_am) (heap_records s (chain first_am))

-- The tables of a FROM list are well-formed heaps.
abbrev pub AreTables : Store → ℕ → (ℕ → List Am) → Catalog → List Str → Type 0
AreTables s fuel chain cat [] = Unit {0}
AreTables s fuel chain cat (t ∷ ts) =
    IsTable s fuel (cat t).0 (cat t).1 (chain (cat t).1) × AreTables s fuel chain cat ts
