-- ===== src/HeapTable/Heap.antt =====
-- A well-formed heap table: its chain of allocation maps, each full but for the last.
use npsql.Base.{
  ℕ, zero, suc, ◌+◌, ◌≤◌, ◌<◌, ◌≡◌, ◌∙◌, ◌⊎◌, inl, inr, sym, ap, Mem, arith, ℕ_discrete, List, [],
  ◌∷◌, false, ◌==◌, ne→==-false,
}
use npsql.Bytes.{read_uint64}
use npsql.BufferManager.{invalid_pnum}
use npsql.Sql.{TableInfo}
use npsql.DataPage.{invalid_record_handle}
use npsql.HeapTable.{
  Store, with_page, AllocationMapHeader, read_am, am_page_type, am_entry_offset, AmScanResult,
  scan_entries, opened,
}
use npsql.HeapTable.Pages.{Sized, PageOk, Grown, slots_of, data_page_insert-Tried}

-- An allocation map: its page, and the numbers of its data pages.
pub record Am : Type 0 where
  pub pid : ℕ
  pub n : ℕ
  pub entry : ℕ → ℕ

abbrev pub next_of : List Am → ℕ
next_of [] = invalid_pnum
next_of (b ∷ bs) = b.pid

-- The page numbers of a map and its pages lie below those of the next map, or of the store's next page.
abbrev pub limit : ℕ → List Am → ℕ
limit page_count [] = page_count
limit page_count (b ∷ bs) = b.pid

abbrev pub Full : List Am → ℕ → Type 0
Full [] n = Unit {0}
Full (b ∷ bs) n = n ≡ 61

abbrev pub header_of : Am → List Am → AllocationMapHeader
header_of a rest = record {
  page_type = am_page_type;
  pages_count = a.n;
  me = a.pid;
  next = next_of rest;
}

-- A map with the chain after it.
pub record Map (s : Store) (table : TableInfo) (a : Am) (rest : List Am) : Type 0 where
  pub header : read_am (s.pages a.pid) ≡ header_of a rest
  pub entries : (i : ℕ) → i < a.n → read_uint64 (s.pages a.pid) (am_entry_offset i) ≡ a.entry i
  pub after : (i : ℕ) → i < a.n → a.pid < a.entry i
  pub increasing : (i j : ℕ) → i < j → j < a.n → a.entry i < a.entry j
  pub before : (i : ℕ) → i < a.n → a.entry i < limit s.page_count rest
  pub own_before : a.pid < limit s.page_count rest
  pub known : limit s.page_count rest ≤ s.page_count
  pub small : a.n ≤ 61
  pub full : Full rest a.n
  pub pages : (i : ℕ) → i < a.n → PageOk table (s.pages (a.entry i))

abbrev pub Heap : Store → TableInfo → List Am → Type 0
Heap s table [] = Unit {0}
Heap s table (a ∷ rest) = Map s table a rest × (0 < a.n) × Heap s table rest

-- What a scan of a map's entries from `i` over `k` more has found.
abbrev pub Refused : TableInfo → Mem → Type 0
Refused table m =
    (opened table m).header.records_begin < (opened table m).header.records_end + table.record_size

abbrev pub not_found : AllocationMapHeader → ℕ → AmScanResult
not_found am i = record {
  handle = invalid_record_handle;
  rid = record { pid = 0; slot = 0 };
  am_entry_index = i;
  am = am;
}

abbrev pub found : AllocationMapHeader → ℕ → ℕ → ℕ → AmScanResult
found am j pid slot = record {
  handle = slot;
  rid = record { pid = pid; slot = slot };
  am_entry_index = j;
  am = am;
}

abbrev pub Scanned :
    Store → TableInfo → AllocationMapHeader → (ℕ → ℕ) → ℕ → ℕ → AmScanResult × Store → Type 0
Scanned s table am entry i k result =
    ((result ≡ (not_found am (i + k), s))
      × ((j : ℕ) → i ≤ j → j < i + k → Refused table (s.pages (entry j))))
    ⊎ ((j : ℕ) × (m : Mem) × (i ≤ j)
        × (j < i + k)
        × (result ≡ (found am j (entry j) (slots_of (s.pages (entry j))), with_page s (entry j) m))
        × Grown table (s.pages (entry j)) m)

-- The scan from the next entry, where this one is refused.
Scanned-next :
    (s : Store) (table : TableInfo) (am : AllocationMapHeader) (entry : ℕ → ℕ) (i k : ℕ)
    (result : AmScanResult × Store)
    → Refused table (s.pages (entry i))
    → Scanned s table am entry (i + 1) k result
    → Scanned s table am entry i (suc k) result
Scanned-next s table am entry i k result full (inl (e, all)) =
    let shift : i + 1 + k ≡ i + suc k = omega arith in
    inl (
      e ∙ ap (λ x. (not_found am x, s)) shift,
      λ j lo hi. elim (ℕ_discrete i j) [
        | yes own ↦ rw (sym own) full
        | no other ↦ all j (omega arith) (omega arith)
      ],
    )
Scanned-next s table am entry i k result full (inr (j, m, lo, hi, e, grown)) =
    inr (j, m, omega arith, omega arith, e, grown)

pub scan_entries-Scanned :
    (s : Store) (table : TableInfo) (am : AllocationMapHeader) (entry : ℕ → ℕ) (i k : ℕ)
    → Sized table.record_size
    → ((j : ℕ)
        → i ≤ j
        → j < i + k
        → (read_uint64 (s.pages am.me) (am_entry_offset j) ≡ entry j)
          × PageOk table (s.pages (entry j)))
    → Scanned s table am entry i k (scan_entries s table am i k)
unfolding scan_entries
scan_entries-Scanned s table am entry i zero sized ok =
    let e : i ≡ i + 0 = omega arith in
    inl (ap (λ x. (not_found am x, s)) e, λ j lo hi. absurd (omega arith))
scan_entries-Scanned s table am entry i (suc k) sized ok =
    let rest : Scanned s table am entry (i + 1) k (scan_entries s table am (i + 1) k) =
      scan_entries-Scanned s table am entry (i + 1) k sized
        (λ j lo hi. ok j (omega arith) (omega arith)) in
    let (named, page_ok) = ok i (omega arith) (omega arith) in
    elim (data_page_insert-Tried table (s.pages (entry i)) sized page_ok) [
      | inl (full, refused) ↦ rw (named, refused) (Scanned-next s table am entry i k _ full rest)
      | inr (p', accepted, number, grown) ↦
          let valid : (slots_of (s.pages (entry i)) == invalid_record_handle) ≡ false =
            ne→==-false _ _ (omega (arith, grown.few)) in
          inr (i, p'.frame, omega arith, omega arith, rw (named, accepted, valid, number), grown)
    ]
