-- ===== src/HeapTable/Kept.antt =====
-- Updates of the store under a chain of allocation maps.
use npsql.Base.{ℕ, ◌≤◌, ◌<◌, ◌≡◌, refl, arith, List, [], ◌∷◌}
use npsql.Sql.{TableInfo}
use npsql.HeapTable.{Store}
use npsql.HeapTable.Pages.{PageOk}
use npsql.HeapTable.Heap.{Am, Map, Heap, Full, limit, next_of}

-- A map stays as it is when its own page does, and its data pages stay well formed.
pub Map-kept :
    (s s' : Store) (table : TableInfo) (a : Am) (rest rest' : List Am)
    → Map s table a rest
    → next_of rest' ≡ next_of rest
    → limit s.page_count rest ≤ limit s'.page_count rest'
    → limit s'.page_count rest' ≤ s'.page_count
    → Full rest' a.n
    → s'.pages a.pid ≡ s.pages a.pid
    → ((i : ℕ) → i < a.n → PageOk table (s'.pages (a.entry i)))
    → Map s' table a rest'
Map-kept s s' table a rest rest' map same more known full own ok = record {
  header = rw (own, same) map.header;
  entries = λ i lt. rw own (map.entries i lt);
  after = map.after;
  increasing = map.increasing;
  before = λ i lt. omega (arith, map.before i lt);
  own_before = omega (arith, map.own_before);
  known = known;
  small = map.small;
  full = full;
  pages = ok;
}

-- A chain stays as it is when its pages do: those from the first map's on.
pub Heap-kept :
    (s s' : Store) (table : TableInfo) (low : ℕ) (maps : List Am)
    → Heap s table maps
    → low ≤ limit s.page_count maps
    → s.page_count ≤ s'.page_count
    → ((k : ℕ) → low ≤ k → k < s.page_count → s'.pages k ≡ s.pages k)
    → Heap s' table maps
Heap-kept s s' table low [] heap lo more same = tt
Heap-kept s s' table low (a ∷ []) (map, some_pages, _) lo more same = (
  Map-kept s s' table a [] [] map refl more (omega arith) tt (same a.pid lo map.own_before) (λ i lt.
      rw (same (a.entry i) (omega (arith, map.after i lt)) (map.before i lt)) (map.pages i lt)),
  some_pages,
  tt,
)
Heap-kept s s' table low (a ∷ b ∷ bs) (map, some_pages, heap) lo more same = (
  Map-kept s s' table a (b ∷ bs) (b ∷ bs) map refl (omega arith) (omega (arith, map.known)) map.full
      (same a.pid lo (omega (arith, map.own_before, map.known)))
      (λ i lt.
        rw
          (same (a.entry i) (omega (arith, map.after i lt))
            (omega (arith, map.before i lt, map.known)))
          (map.pages i lt)),
  some_pages,
  Heap-kept s s' table low (b ∷ bs) heap (omega (arith, map.own_before)) more same,
)
