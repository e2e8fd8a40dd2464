-- ===== src/HeapTable/Round.antt =====
-- A round of `heap_insert` on one allocation map.
use npsql.Base.{
  ℕ, suc, ◌+◌, ◌-◌, ◌≤◌, ◌<◌, ◌≡◌, ◌⊎◌, inl, inr, refl, Mem, arith, List, false, ◌==◌, ne→==-false,
  some,
}
use npsql.Sql.{TableInfo}
use npsql.DataPage.{invalid_record_handle}
use npsql.HeapTable.{Store, with_page, scan_entries, scan_am_for_insert, make_room, insert_from}
use npsql.HeapTable.Pages.{Sized, Grown, slots_of}
use npsql.HeapTable.Heap.{Am, Map, header_of, Refused, Scanned, scan_entries-Scanned, not_found}

abbrev pub Turned : ℕ → Store → TableInfo → Am → List Am → ℕ → Type 0
Turned fuel s table a rest start =
    (((j : ℕ) → start ≤ j → j < a.n → Refused table (s.pages (a.entry j)))
      × (insert_from (suc fuel) s table a.pid start ≡ (
          let (pid, start', s') = make_room s table a.pid (not_found (header_of a rest) a.n) in
          insert_from fuel s' table pid start')))
    ⊎ ((j : ℕ) × (m : Mem) × (start ≤ j)
        × (j < a.n)
        × (insert_from (suc fuel) s table a.pid start
            ≡ some (
              record { pid = a.entry j; slot = slots_of (s.pages (a.entry j)) },
              with_page s (a.entry j) m,
            ))
        × Grown table (s.pages (a.entry j)) m)

pub insert_from-Turned :
    (fuel : ℕ) (s : Store) (table : TableInfo) (a : Am) (rest : List Am) (start : ℕ)
    → Sized table.record_size
    → Map s table a rest
    → start ≤ a.n
    → Turned fuel s table a rest start
unfolding insert_from scan_am_for_insert
insert_from-Turned fuel s table a rest start sized map le = elim scanned [
  | inl (e, refused) ↦ inl (λ j lo hi. refused j lo (omega arith), rw (map.header, e, all) refl)
  | inr (j, m, lo, hi, e, grown) ↦
      inr (j, m, lo, omega arith, rw (map.header, e, valid _ grown.few) refl, grown)
]
  where
    scanned :
        Scanned s table
          (header_of a rest)
          a.entry
          start
          (a.n - start)
          (scan_entries s table (header_of a rest) start (a.n - start))
    scanned =
        scan_entries-Scanned s table (header_of a rest) a.entry start (a.n - start) sized
          (λ j lo hi. (map.entries j (omega arith), map.pages j (omega arith)))

    all : start + (a.n - start) ≡ a.n
    all = omega arith

    valid : (c : ℕ) → c < 256 → (c == invalid_record_handle) ≡ false
    valid c few = ne→==-false c invalid_record_handle (omega arith)
