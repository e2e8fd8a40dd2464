-- ===== src/HeapTable/Insert.antt =====
-- `heap_insert` over the whole chain of allocation maps.
use npsql.Base.{
  ℕ, suc, ◌+◌, ◌≤◌, ◌<◌, ◌≡◌, ◌∙◌, ◌⊎◌, inl, inr, refl, ap, Mem, arith, dec_lt, put_at_self, List,
  [], ◌∷◌, Option, some, true, false, ltb, ◌==◌, ne→==-false, length, ◌-◌,
}
use npsql.Sql.{TableInfo}
use npsql.BufferManager.{invalid_pnum}
use npsql.DataPage.{open_data_page}
use npsql.HeapTable.{Store, with_page, RecordId, HeapTable, make_room, insert_from, heap_insert}
use npsql.HeapTable.Pages.{Sized, PageOk, Grown, slots_of, new_data_page-PageOk}
use npsql.HeapTable.Heap.{Am, Map, Heap, header_of, Refused, not_found}
use npsql.HeapTable.Grow.{
  longer, longer_store, fresh, longer-Map, longer_store-other, longer_store-fresh,
  add_new_data_page-longer,
}
use npsql.HeapTable.Link.{
  new_map, linked_store, linked-Map, new-Map, linked_store-other, add_new_am-linked,
}
use npsql.HeapTable.Round.{insert_from-Turned}
use npsql.HeapTable.Chained.{Chained, found-Chained, behind, since}

-- A page that holds no record has room for the first.
new_data_page-room :
    (table : TableInfo) (m : Mem)
    → PageOk table m
    → slots_of m ≡ 0
    → table.record_size ≤ 502
    → ¬ Refused table m
unfolding open_data_page
new_data_page-room table m ok none fits refused =
    omega (arith, rw none at ok.valid.records, rw none at ok.valid.slots_end, refused)

-- The page that the chain has grown by takes the record.
abbrev OnNew : ℕ → Store → TableInfo → Am → Type 0
OnNew fuel s table a =
    (s' : Store) × (insert_from (suc fuel) (longer_store s table a) table a.pid a.n
      ≡ some (record { pid = s.page_count; slot = 0 }, s'))
    × Chained s table a (record { pid = s.page_count; slot = 0 }) s'
    × (slots_of (s'.pages s.page_count) ≡ 1)
    × (s'.page_count ≡ s.page_count + 1)

insert_from-OnNew :
    (fuel : ℕ) (s : Store) (table : TableInfo) (a : Am)
    → Sized table.record_size
    → table.record_size ≤ 502
    → s.page_count < invalid_pnum
    → Map s table a []
    → a.n < 61
    → OnNew fuel s table a
insert_from-OnNew fuel s table a sized fits numbers map space =
    elim (insert_from-Turned fuel s1 table (longer s a) [] a.n sized map1 (omega arith)) [
      | inl (refused, e) ↦ absurd (
          new_data_page-room table (fresh s table) ok none fits
            (rw last at (refused a.n (omega arith) (omega arith))))
      | inr (j, m, lo, hi, e, grown) ↦
          let at_page : (longer s a).entry j ≡ s.page_count =
            ap (longer s a).entry (omega (arith, lo, hi)) ∙ put_at_self a.entry a.n s.page_count in
          let empty : slots_of (s1.pages s.page_count) ≡ 0 =
            ap slots_of (longer_store-fresh s table a map space numbers) ∙ none in
          (
            with_page s1 s.page_count m,
            rw (at_page, empty) at e,
            since s s1 table a (longer s a) _ _ refl map (omega arith)
                (λ k ne lt. longer_store-other s table a map space numbers k ne (omega arith))
                (rw at_page at
                  (found-Chained s1 table (longer s a) [] j 0 m (map1, omega arith, tt) hi grown)),
            ap slots_of (put_at_self s1.pages s.page_count m)
                ∙ (rw (at_page, empty) at grown.one_more),
            refl,
          )
    ]
  where
    s1 : Store
    s1 = longer_store s table a

    map1 : Map s1 table (longer s a) []
    map1 = longer-Map s table a map space numbers

    ok : PageOk table (fresh s table)
    ok = (new_data_page-PageOk table _).0

    none : slots_of (fresh s table) ≡ 0
    none = (new_data_page-PageOk table _).1

    last : s1.pages ((longer s a).entry a.n) ≡ fresh s table
    last =
        ap s1.pages (put_at_self a.entry a.n s.page_count)
        ∙ longer_store-fresh s table a map space numbers

-- The record takes the next slot of a page of the table that had room, or the first slot of a new page.
abbrev pub Placed : Store → TableInfo → RecordId → Store → Type 0
Placed s table rid s' =
    ((rid.pid < s.page_count)
      × (rid.slot ≡ slots_of (s.pages rid.pid))
      × Grown table (s.pages rid.pid) (s'.pages rid.pid))
    ⊎ ((s.page_count ≤ rid.pid) × (rid.slot ≡ 0) × (slots_of (s'.pages rid.pid) ≡ 1))

abbrev pub Inserted : Store → TableInfo → Am → Option (RecordId × Store) → Type 0
Inserted s table a outcome =
    (rid : RecordId) × (s' : Store) × (outcome ≡ some (rid, s'))
    × Chained s table a rid s'
    × Placed s table rid s'
    × (s'.page_count ≤ s.page_count + 2)

-- The turns that are enough: one for each map and two for what the chain grows by.
abbrev turns : List Am → ℕ → ℕ
turns [] extra = suc (suc extra)
turns (b ∷ bs) extra = suc (turns bs extra)

module _ (table : TableInfo) (sized : Sized table.record_size)
    (fits : table.record_size ≤ 502) where
  -- Case A: the last map has an entry left.
  insert_from-room :
      (extra : ℕ) (s : Store) (a : Am)
      → Map s table a []
      → s.page_count < invalid_pnum
      → a.n < 61
      → insert_from (suc (suc extra)) s table a.pid 0 ≡ (
          let (pid, start', s') = make_room s table a.pid (not_found (header_of a []) a.n) in
          insert_from (suc extra) s' table pid start')
      → Inserted s table a (insert_from (suc (suc extra)) s table a.pid 0)
  unfolding make_room
  insert_from-room extra s a map numbers space e =
      let (s', e', chained, one, count) =
        insert_from-OnNew extra s table a sized fits numbers map space in
      (
        _,
        s',
        rw (e, not_full, add_new_data_page-longer s table a map space numbers) e',
        chained,
        inr (omega arith, refl, one),
        omega (arith, count),
      )
    where
      not_full : ltb a.n 61 ≡ true
      not_full = ground arith

  -- Case C: the last map is full.
  insert_from-full :
      (extra : ℕ) (s : Store) (a : Am)
      → Map s table a []
      → 0 < a.n
      → s.page_count + 1 < invalid_pnum
      → a.n ≡ 61
      → insert_from (suc (suc extra)) s table a.pid 0 ≡ (
          let (pid, start', s') = make_room s table a.pid (not_found (header_of a []) a.n) in
          insert_from (suc extra) s' table pid start')
      → Inserted s table a (insert_from (suc (suc extra)) s table a.pid 0)
  unfolding make_room
  insert_from-full extra s a map some_pages numbers full e =
      let new : Map s1 table (new_map s) [] = new-Map s table a map numbers in
      let (s', e', chained, one, count) =
        insert_from-OnNew extra s1 table (new_map s) sized fits numbers new (omega arith) in
      (
        _,
        s',
        rw
            (
              e,
              is_full,
              add_new_am-linked s table a map numbers,
              add_new_data_page-longer s1 table (new_map s) new (omega arith) numbers,
            )
            e',
        since s s1 table a a _ s' refl map (omega arith)
            (λ k ne lt. linked_store-other s table a map numbers k ne (omega arith))
            (behind s1 table a (new_map s) [] _ s' (linked-Map s table a map numbers full)
              some_pages chained),
        inr (omega arith, refl, one),
        omega (arith, count),
      )
    where
      s1 : Store
      s1 = linked_store s a

      is_full : ltb a.n 61 ≡ false
      is_full = ground arith

  found-Inserted :
      (s : Store) (a : Am) (rest : List Am) (j : ℕ) (m : Mem) (outcome : Option (RecordId × Store))
      → Heap s table (a ∷ rest)
      → j < a.n
      → outcome
        ≡ some (
          record { pid = a.entry j; slot = slots_of (s.pages (a.entry j)) },
          with_page s (a.entry j) m,
        )
      → Grown table (s.pages (a.entry j)) m
      → Inserted s table a outcome
  found-Inserted s a rest j m outcome heap lt e grown = (
    _,
    _,
    e,
    found-Chained s table a rest j _ m heap lt grown,
    inl (
      omega (arith, heap.0.before j lt, heap.0.known),
      refl,
      rw (put_at_self s.pages (a.entry j) m) grown,
    ),
    omega arith,
  )

  -- Case B: a map that is not the last one has no room left.
  insert_from-next :
      (n : ℕ) (s : Store) (a b : Am) (bs : List Am)
      → Heap s table (a ∷ b ∷ bs)
      → s.page_count + 1 < invalid_pnum
      → insert_from (suc n) s table a.pid 0 ≡ (
          let (pid, start', s') = make_room s table a.pid (not_found (header_of a (b ∷ bs)) a.n) in
          insert_from n s' table pid start')
      → Inserted s table b (insert_from n s table b.pid 0)
      → Inserted s table a (insert_from (suc n) s table a.pid 0)
  unfolding make_room
  insert_from-next n s a b bs (map, some_pages, heap) numbers e
        (rid, s', e', chained, placed, count) =
      (
        rid,
        s',
        rw (e, is_full, linked) e',
        behind s table a b bs rid s' map some_pages chained,
        placed,
        count,
      )
    where
      is_full : ltb a.n 61 ≡ false
      is_full = rw map.full refl

      linked : (b.pid == invalid_pnum) ≡ false
      linked = ne→==-false b.pid invalid_pnum (omega (arith, heap.0.own_before, heap.0.known))

  insert_from-Inserted :
      (extra : ℕ) (s : Store) (a : Am) (rest : List Am)
      → s.page_count + 1 < invalid_pnum
      → Heap s table (a ∷ rest)
      → Inserted s table a (insert_from (turns rest extra) s table a.pid 0)
  insert_from-Inserted extra s a [] numbers (map, some_pages, heap) =
      elim (insert_from-Turned (suc extra) s table a [] 0 sized map (omega arith)) [
        | inl (refused, e) ↦ elim (dec_lt a.n 61) [
          | yes space ↦ insert_from-room extra s a map (omega arith) space e
          | no full ↦ insert_from-full extra s a map some_pages numbers (omega (arith, map.small)) e
        ]
        | inr (j, m, lo, hi, e, grown) ↦
            found-Inserted s a [] j m _ (map, some_pages, heap) hi e grown
      ]
  insert_from-Inserted extra s a (b ∷ bs) numbers (map, some_pages, heap) =
      let rest : Inserted s table b (insert_from (turns bs extra) s table b.pid 0) =
        insert_from-Inserted extra s b bs numbers heap in
      elim (insert_from-Turned (turns bs extra) s table a (b ∷ bs) 0 sized map (omega arith)) [
        | inl (refused, e) ↦
            insert_from-next (turns bs extra) s a b bs (map, some_pages, heap) numbers e rest
        | inr (j, m, lo, hi, e, grown) ↦
            found-Inserted s a (b ∷ bs) j m _ (map, some_pages, heap) hi e grown
      ]

turns-length : (rest : List Am) (extra : ℕ) → turns rest extra ≡ length rest + 2 + extra
turns-length [] extra = omega arith
turns-length (b ∷ bs) extra = omega (arith, turns-length bs extra)

-- Over a store on which every page can be pinned, with two page numbers left: an insert into a
-- well-formed heap of records of at most 502 bytes, whose size is `Sized` (a page that has room for a
-- record has room for its slot too), on fuel of two more than the heap's maps after the first, returns.
-- It gives the record the next slot of a page that had room, or the first slot of a page that it adds,
-- and the heap lists that page; the heap stays well formed with the same first map and at most two pages
-- more, and of the other pages only those of allocation maps change.
pub heap_insert-Inserted :
    (fuel : ℕ) (s : Store) (table : HeapTable) (a : Am) (rest : List Am)
    → Sized table.table_info.record_size
    → table.table_info.record_size ≤ 502
    → s.page_count + 1 < invalid_pnum
    → table.am_entry_pid ≡ a.pid
    → Heap s table.table_info (a ∷ rest)
    → length rest + 2 ≤ fuel
    → Inserted s table.table_info a (heap_insert fuel s table)
unfolding heap_insert
heap_insert-Inserted fuel s table a rest sized fits numbers first heap enough =
    let e : turns rest (fuel - (length rest + 2)) ≡ fuel =
      omega (arith, turns-length rest (fuel - (length rest + 2))) in
    rw first (
      rw e at (
        insert_from-Inserted table.table_info sized fits (fuel - (length rest + 2)) s a rest numbers
          heap))
