-- ===== src/HeapTable/Cursor.antt =====
-- The moves of a heap iterator: to the next slot, the next page and the next allocation map.
use npsql.Base.{
  ℕ, suc, ◌+◌, ◌%◌, ◌^◌, ◌≤◌, ◌<◌, ◌≡◌, refl, ap, arith, List, [], ◌∷◌, true, false, none, some,
  ◌==◌, ne→==-false, ==_iff,
}
use npsql.Bytes.{read_uint16, read_uint64}
use npsql.Sql.{TableInfo}
use npsql.BufferManager.{invalid_pnum, dec16}
use npsql.DataPage.{
  DataPageIterator, slot_offset, next_page_record, open_data_page, open_page_iterator,
  invalid_record_handle,
}
use npsql.HeapTable.{
  Store, HeapIterator, opened, next_record, next_entry, open_entry, next_or_end, am_entry_offset,
}
use npsql.HeapTable.Pages.{PageOk, slots_of}
use npsql.HeapTable.Heap.{Am, Map, header_of}

-- The iterator stands on entry `e` of a map, before slot `k`.
pub record At (s : Store) (table : TableInfo) (a : Am) (rest : List Am) (e k : ℕ) (i : HeapIterator)
    : Type 0 where
  pub info : i.table.table_info ≡ table
  pub am : i.current_am ≡ header_of a rest
  pub index : i.current_am_pid_index ≡ e
  pub number : i.page_number ≡ a.entry e
  pub page : i.current_page_iterator.page ≡ opened table (s.pages (a.entry e))
  pub slot : i.current_page_iterator.current_slot ≡ k

pub slots-bound :
    (table : TableInfo) (s : Store) (pid : ℕ)
    → PageOk table (s.pages pid)
    → slots_of (s.pages pid) ≤ 252
unfolding open_data_page
slots-bound table s pid ok = omega (arith, ok.valid.slots_end, ok.valid.records, ok.valid.apart)

-- The page's iterator after a record.
abbrev pub after_slot : DataPageIterator → DataPageIterator
after_slot i = record i {
  current_record = read_uint16 i.page.frame (slot_offset i.current_slot % 2 ^ 16);
  current_slot = i.current_slot + 1;
}

next_page_record-after :
    (i : DataPageIterator)
    → i.current_slot < i.page.header.slot_count
    → i.page.header.slot_count ≤ 252
    → next_page_record i ≡ (i.current_slot, after_slot i)
unfolding next_page_record
next_page_record-after i lt few = rw (other, next) refl
  where
    other : (i.current_slot == i.page.header.slot_count) ≡ false
    other = ne→==-false i.current_slot i.page.header.slot_count (omega arith)

    next : (i.current_slot + 1) % 2 ^ 16 ≡ i.current_slot + 1
    next = omega arith

abbrev pub after_record : HeapIterator → HeapIterator
after_record i = record i {
  current_page_iterator = after_slot i.current_page_iterator;
  current_record = record { pid = i.page_number; slot = i.current_page_iterator.current_slot };
}

pub next_record-slot :
    (s : Store) (n : ℕ) (i : HeapIterator)
    → i.current_page_iterator.current_slot < i.current_page_iterator.page.header.slot_count
    → i.current_page_iterator.page.header.slot_count ≤ 252
    → next_record (suc n) s i ≡ some (true, after_record i)
unfolding next_record
next_record-slot s n i lt few =
    rw (next_page_record-after i.current_page_iterator lt few, valid, counted) refl
  where
    valid : (i.current_page_iterator.current_slot == invalid_record_handle) ≡ false
    valid = ne→==-false i.current_page_iterator.current_slot invalid_record_handle (omega arith)

    counted :
        dec16 (i.current_page_iterator.current_slot + 1) ≡ i.current_page_iterator.current_slot
    counted = omega arith

-- At the end of a page the iterator goes on from the next entry.
pub next_record-turn :
    (s : Store) (n : ℕ) (i : HeapIterator)
    → i.current_page_iterator.current_slot ≡ i.current_page_iterator.page.header.slot_count
    → next_record (suc n) s i ≡ next_or_end (next_entry s i) i (next_record n s)
unfolding next_record next_page_record
next_record-turn s n i e = rw ((==_iff _ _).1 e) refl

module _ (s : Store) (table : TableInfo) (a : Am) where
  -- On from an entry of a map to the next one.
  pub next_entry-same :
      (rest : List Am) (e : ℕ) (i : HeapIterator)
      → Map s table a rest
      → e + 1 < a.n
      → At s table a rest e (slots_of (s.pages (a.entry e))) i
      → (i' : HeapIterator) × (next_entry s i ≡ some i') × At s table a rest (e + 1) 0 i'
  unfolding next_entry open_page_iterator
  next_entry-same rest e i map lt at = (
    open_entry s (record i { current_am_pid_index = e + 1 }),
    rw (at.index, ap (λ h. h.pages_count) at.am, other, next) refl,
    record {
      info = at.info;
      am = at.am;
      index = refl;
      number = named;
      page = rw (named, at.info) refl;
      slot = refl;
    },
  )
    where
      other : (e + 1 == a.n) ≡ false
      other = ne→==-false (e + 1) a.n (omega arith)

      next : (e + 1) % 2 ^ 16 ≡ e + 1
      next = omega (arith, map.small)

      named : read_uint64 (s.pages i.current_am.me) (am_entry_offset (e + 1)) ≡ a.entry (e + 1)
      named = rw at.am (map.entries (e + 1) lt)

  -- On from the last entry of a map to the first one of the next.
  pub next_entry-next :
      (b : Am) (bs : List Am) (e : ℕ) (i : HeapIterator)
      → Map s table b bs
      → 0 < b.n
      → b.pid < invalid_pnum
      → e + 1 ≡ a.n
      → At s table a (b ∷ bs) e (slots_of (s.pages (a.entry e))) i
      → (i' : HeapIterator) × (next_entry s i ≡ some i') × At s table b bs 0 0 i'
  unfolding next_entry open_page_iterator
  next_entry-next b bs e i map some_pages known last at = (
    open_entry s (record i { current_am_pid_index = 0; current_am = header_of b bs }),
    rw
        (
          at.index,
          ap (λ h. h.pages_count) at.am,
          (==_iff _ _).1 last,
          ap (λ h. h.next) at.am,
          ne→==-false b.pid invalid_pnum (omega arith),
          map.header,
        )
        refl,
    record {
      info = at.info;
      am = refl;
      index = refl;
      number = map.entries 0 some_pages;
      page = rw (map.entries 0 some_pages, at.info) refl;
      slot = refl;
    },
  )

  pub next_entry-end :
      (e : ℕ) (i : HeapIterator)
      → e + 1 ≡ a.n
      → At s table a [] e (slots_of (s.pages (a.entry e))) i
      → next_entry s i ≡ none
  unfolding next_entry
  next_entry-end e i last at =
      rw (at.index, ap (λ h. h.pages_count) at.am, (==_iff _ _).1 last, ap (λ h. h.next) at.am) refl
