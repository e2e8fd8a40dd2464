-- ===== src/HeapTable/Iterate.antt =====
-- `open_heap_iterator` and `next_record` over a well-formed heap.
use npsql.Base.{
  ℕ, zero, suc, ◌+◌, ◌-◌, ◌≤◌, ◌<◌, ◌≡◌, ◌∙◌, refl, sym, ap, subst, arith, List, [], ◌∷◌, ◌++◌,
  Bool, true, false, Option, some, ◌==◌, ne→==-false,
}
use mathlib.Core.List.{append_assoc, append-nil}
use npsql.Sql.{TableInfo}
use npsql.BufferManager.{invalid_pnum}
use npsql.DataPage.{open_data_page, open_page_iterator}
use npsql.HeapTable.{
  Store, RecordId, HeapTable, HeapIterator, next_record, next_entry, open_heap_iterator,
}
use npsql.HeapTable.Pages.{slots_of}
use npsql.HeapTable.Heap.{Am, Map, Heap}
use npsql.HeapTable.Cursor.{
  At, slots-bound, after_record, next_record-slot, next_record-turn, next_entry-same,
  next_entry-next, next_entry-end,
}

-- The records of a page from slot `k` on, of the pages of a map from entry `e` on, and of a chain.
abbrev pub page_records : ℕ → ℕ → ℕ → List RecordId
page_records pid k zero = []
page_records pid k (suc n) = record { pid = pid; slot = k } ∷ page_records pid (k + 1) n

abbrev pub map_records : Store → (ℕ → ℕ) → ℕ → ℕ → List RecordId
map_records s entry e zero = []
map_records s entry e (suc n) =
    page_records (entry e) 0 (slots_of (s.pages (entry e))) ++ map_records s entry (e + 1) n

abbrev pub heap_records : Store → List Am → List RecordId
heap_records s [] = []
heap_records s (a ∷ rest) = map_records s a.entry 0 a.n ++ heap_records s rest

abbrev pub pages_in : List Am → ℕ
pages_in [] = 0
pages_in (a ∷ rest) = a.n + pages_in rest

-- With at least `bound` fuel at each call, the iterator moves to each of the records and then ends.
abbrev pub Visits : Store → ℕ → HeapIterator → List RecordId → Type 0
Visits s bound i [] =
    (i' : HeapIterator) × ((fuel : ℕ) → bound ≤ fuel → next_record fuel s i ≡ some (false, i'))
Visits s bound i (r ∷ rs) =
    (i' : HeapIterator) × ((fuel : ℕ) → bound ≤ fuel → next_record fuel s i ≡ some (true, i'))
    × (i'.current_record ≡ r)
    × Visits s bound i' rs

Visits-weaken :
    (s : Store) (bound : ℕ) (i : HeapIterator) (rs : List RecordId)
    → Visits s bound i rs
    → Visits s (suc bound) i rs
Visits-weaken s bound i [] (i', e) = (i', λ fuel le. e fuel (omega arith))
Visits-weaken s bound i (r ∷ rs) (i', e, at_record, rest) =
    (i', λ fuel le. e fuel (omega arith), at_record, Visits-weaken s bound i' rs rest)

on_suc :
    (s : Store) (bound : ℕ) (i : HeapIterator) (outcome : Option (Bool × HeapIterator))
    → ((n : ℕ) → next_record (suc n) s i ≡ outcome)
    → (fuel : ℕ) → suc bound ≤ fuel
    → next_record fuel s i ≡ outcome
on_suc s bound i outcome e zero le = absurd (omega arith)
on_suc s bound i outcome e (suc n) le = e n

-- A call that goes on as a call from another place does.
skipped :
    (s : Store) (bound : ℕ) (i i2 : HeapIterator) (outcome : Option (Bool × HeapIterator))
    → ((n : ℕ) → next_record (suc n) s i ≡ next_record n s i2)
    → ((fuel : ℕ) → bound ≤ fuel → next_record fuel s i2 ≡ outcome)
    → (fuel : ℕ) → suc bound ≤ fuel
    → next_record fuel s i ≡ outcome
skipped s bound i i2 outcome on e zero le = absurd (omega arith)
skipped s bound i i2 outcome on e (suc n) le = on n ∙ e n (omega arith)

Visits-skip :
    (s : Store) (bound : ℕ) (i i2 : HeapIterator) (rs : List RecordId)
    → ((n : ℕ) → next_record (suc n) s i ≡ next_record n s i2)
    → Visits s bound i2 rs
    → Visits s (suc bound) i rs
Visits-skip s bound i i2 [] on (i', e) = (i', skipped s bound i i2 _ on e)
Visits-skip s bound i i2 (r ∷ rs) on (i', e, at_record, rest) =
    (i', skipped s bound i i2 _ on e, at_record, Visits-weaken s bound i' rs rest)

module _ (s : Store) (table : TableInfo) (a : Am) where
  -- A page from slot `k` on.
  visit_page :
      (rest : List Am) (e k r bound : ℕ) (i : HeapIterator) (tail : List RecordId)
      → k + r ≡ slots_of (s.pages (a.entry e))
      → slots_of (s.pages (a.entry e)) ≤ 252
      → At s table a rest e k i
      → ((i' : HeapIterator)
          → At s table a rest e (slots_of (s.pages (a.entry e))) i'
          → Visits s (suc bound) i' tail)
      → Visits s (suc bound) i (page_records (a.entry e) k r ++ tail)
  unfolding open_data_page
  visit_page rest e k zero bound i tail all few at next =
      let e' : k ≡ slots_of (s.pages (a.entry e)) = omega arith in
      next i (subst (λ x. At s table a rest e x i) e' at)
  visit_page rest e k (suc r) bound i tail all few at next = (
    after_record i,
    on_suc s bound i _
        (λ n. next_record-slot s n i (rw (at.page, at.slot) (omega arith)) (rw at.page few)),
    rw (at.number, at.slot) refl,
    visit_page rest e (k + 1) r bound (after_record i) tail (omega arith) few
        (record {
          info = at.info;
          am = at.am;
          index = at.index;
          number = at.number;
          page = at.page;
          slot = ap (λ x. x + 1) at.slot;
        })
        next,
  )

  -- At the end of a page.
  turned :
      (rest : List Am) (e bound : ℕ) (i i2 : HeapIterator) (rs : List RecordId)
      → At s table a rest e (slots_of (s.pages (a.entry e))) i
      → next_entry s i ≡ some i2
      → Visits s bound i2 rs
      → Visits s (suc bound) i rs
  unfolding open_data_page
  turned rest e bound i i2 rs at e' visits =
      Visits-skip s bound i i2 rs
        (λ n. next_record-turn s n i (rw (at.page, at.slot) refl) ∙ rw e' refl) visits

  -- A map from entry `e` on, where the iterator goes on from the map's last page as it is told.
  visit_entries :
      (rest : List Am) (e m bound : ℕ) (i : HeapIterator) (tail : List RecordId)
      → e + suc m ≡ a.n
      → Map s table a rest
      → At s table a rest e 0 i
      → ((last : ℕ) (i' : HeapIterator)
          → last + 1 ≡ a.n
          → At s table a rest last (slots_of (s.pages (a.entry last))) i'
          → Visits s (suc bound) i' tail)
      → Visits s (suc (m + bound)) i (map_records s a.entry e (suc m) ++ tail)
  visit_entries rest e zero bound i tail all map at next =
      let few : slots_of (s.pages (a.entry e)) ≤ 252 =
        slots-bound table s (a.entry e) (map.pages e (omega arith)) in
      let page : Visits s (suc bound) i
          (page_records (a.entry e) 0 (slots_of (s.pages (a.entry e))) ++ tail) =
        visit_page rest e 0 (slots_of (s.pages (a.entry e))) bound i tail (omega arith) few at
          (λ i' at'. next e i' (omega arith) at') in
      let b : bound ≡ 0 + bound = omega arith in
      rw (append-nil (page_records (a.entry e) 0 (slots_of (s.pages (a.entry e)))), sym b) page
  visit_entries rest e (suc m) bound i tail all map at next =
      let few : slots_of (s.pages (a.entry e)) ≤ 252 =
        slots-bound table s (a.entry e) (map.pages e (omega arith)) in
      let more : (i2 : HeapIterator)
          → At s table a rest (e + 1) 0 i2
          → Visits s (suc (m + bound)) i2 (map_records s a.entry (e + 1) (suc m) ++ tail) =
        λ i2 at2. visit_entries rest (e + 1) m bound i2 tail (omega arith) map at2 next in
      let b : suc (m + bound) ≡ suc m + bound = omega arith in
      rw
        (
          append_assoc (page_records (a.entry e) 0 (slots_of (s.pages (a.entry e))))
              (map_records s a.entry (e + 1) (suc m)) tail,
          sym b,
        )
        (visit_page rest e 0 (slots_of (s.pages (a.entry e))) (suc (m + bound)) i _ (omega arith)
          few at
          (λ i' at'.
            let (i2, e', at2) = next_entry-same s table a rest e i' map (omega arith) at' in
            turned rest e (suc (m + bound)) i' i2 _ at' e' (more i2 at2)))

-- The pages of a map and what comes after them.
visit_maps :
    (s : Store) (table : TableInfo) (a : Am) (rest : List Am) (bound : ℕ) (i : HeapIterator)
    (tail : List RecordId)
    → Map s table a rest
    → 0 < a.n
    → At s table a rest 0 0 i
    → ((last : ℕ) (i' : HeapIterator)
        → last + 1 ≡ a.n
        → At s table a rest last (slots_of (s.pages (a.entry last))) i'
        → Visits s (suc bound) i' tail)
    → Visits s (a.n + bound) i (map_records s a.entry 0 a.n ++ tail)
visit_maps s table a rest bound i tail map some_pages at next =
    let n : suc (a.n - 1) ≡ a.n = omega arith in
    let total : suc (a.n - 1 + bound) ≡ a.n + bound = omega arith in
    subst (λ x. Visits s (a.n + bound) i (map_records s a.entry 0 x ++ tail)) n
      (subst (λ x. Visits s x i (map_records s a.entry 0 (suc (a.n - 1)) ++ tail)) total
        (visit_entries s table a rest 0 (a.n - 1) bound i tail (omega arith) map at next))

visit_heap :
    (s : Store) (table : TableInfo) (a : Am) (rest : List Am) (i : HeapIterator)
    → s.page_count < invalid_pnum
    → Heap s table (a ∷ rest)
    → At s table a rest 0 0 i
    → Visits s (pages_in (a ∷ rest)) i (heap_records s (a ∷ rest))
unfolding open_data_page
visit_heap s table a [] i numbers (map, some_pages, heap) at =
    visit_maps s table a [] 0 i [] map some_pages at (λ last i' e at'. (
      i',
      on_suc s 0 i' _ (λ n.
          next_record-turn s n i' (rw (at'.page, at'.slot) refl)
          ∙ rw (next_entry-end s table a last i' e at')),
    ))
visit_heap s table a (b ∷ bs) i numbers (map, some_pages, heap) at =
    let more : (i2 : HeapIterator)
        → At s table b bs 0 0 i2
        → Visits s (pages_in (b ∷ bs)) i2 (heap_records s (b ∷ bs)) =
      λ i2 at2. visit_heap s table b bs i2 numbers heap at2 in
    visit_maps s table a (b ∷ bs) (pages_in (b ∷ bs)) i _ map some_pages at (λ last i' e at'.
      let (i2, e', at2) =
        next_entry-next s table a b bs last i' heap.0 heap.1
          (omega (arith, heap.0.own_before, heap.0.known)) e at' in
      turned s table a (b ∷ bs) last (pages_in (b ∷ bs)) i' i2 _ at' e' (more i2 at2))

-- An iterator that is opened on a well-formed heap moves to each record of the heap once, page by page
-- and slot by slot in the order of the allocation maps, and then ends; fuel for the heap's data pages is
-- enough at each call.
pub open_heap_iterator-Visits :
    (s : Store) (table : HeapTable) (a : Am) (rest : List Am) (i : HeapIterator)
    → s.page_count < invalid_pnum
    → table.am_entry_pid ≡ a.pid
    → Heap s table.table_info (a ∷ rest)
    → ((open_heap_iterator s table i).0 ≡ true)
      × Visits s (pages_in (a ∷ rest)) (open_heap_iterator s table i).1 (heap_records s (a ∷ rest))
unfolding open_heap_iterator open_page_iterator
open_heap_iterator-Visits s table a rest i numbers first heap =
    rw (first, heap.0.header, other)
      (
        refl,
        visit_heap s table.table_info a rest _ numbers heap (record {
          info = refl;
          am = refl;
          index = refl;
          number = heap.0.entries 0 heap.1;
          page = rw (heap.0.entries 0 heap.1) refl;
          slot = refl;
        }),
      )
  where
    other : (a.n == 0) ≡ false
    other = ne→==-false a.n 0 (omega (arith, heap.1))
