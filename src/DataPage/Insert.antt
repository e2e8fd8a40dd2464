-- ===== src/DataPage/Insert.antt =====
-- The slotted page's invariant, and inserts with room for the record and its slot.
use npsql.Base.{
  true, ℕ, ◌+◌, ◌-◌, ◌*◌, ◌%◌, ◌^◌, ◌≤◌, ◌<◌, ◌≡◌, ◌∙◌, refl, Mem, copy, copy_in, copy_out,
  of_bytes, arith, ltb, false, inr, ℕ_discrete,
}
use npsql.Bytes.{read_uint16, write_uint16}
use npsql.Bytes.Laws.{read_uint16-write_uint16, read_uint16-write_uint16_apart}
use npsql.LogFile.Chain.{read_uint16_ext}
use npsql.Sql.{TableInfo}
use npsql.DataPage.{
  invalid_record_handle, DataPageHeader, DataPage, page_size, slot_array_offset, slot_offset,
  header_bytes, put_header, read_header, new_data_page, data_page_insert,
}

-- Slot `i` holds the end of record `i`; the records stand back to back from the end of the page.
pub record IsValid (p : DataPage) : Type 0 where
  pub stored : read_header p.frame ≡ p.header
  pub slots_end : p.header.records_end ≡ slot_offset p.header.slot_count
  pub records : p.header.records_begin + p.header.slot_count * p.table.record_size ≡ page_size
  pub apart : p.header.records_end ≤ p.header.records_begin
  pub slots :
      (i : ℕ)
      → i < p.header.slot_count
      → read_uint16 p.frame (slot_offset i) + i * p.table.record_size ≡ page_size

put_header-out :
    (h : DataPageHeader) (m : Mem) (k : ℕ) → slot_array_offset ≤ k → put_header h m k ≡ m k
unfolding put_header
put_header-out h m k le = copy_out m 0 _ slot_array_offset k (inr le)

-- The header is read back.
read_header-put_header :
    (h : DataPageHeader) (m : Mem)
    → h.page_type < 65536
    → h.records_begin < 65536
    → h.records_end < 65536
    → h.slot_count < 65536
    → read_header (put_header h m) ≡ h
unfolding read_header put_header read_uint16
read_header-put_header h m a b c d = rw (type, begin, end_, count)
  where
    w : (k : ℕ) → k < 8 → copy m 0 (of_bytes (header_bytes h)) 8 k ≡ of_bytes (header_bytes h) k
    w k lt = copy_in m 0 (of_bytes (header_bytes h)) 8 k k (omega arith) lt

    type : read_uint16 (put_header h m) 0 ≡ h.page_type
    type = omega (arith, w 0 (omega arith), w 1 (omega arith))

    begin : read_uint16 (put_header h m) 2 ≡ h.records_begin
    begin = omega (arith, w 2 (omega arith), w 3 (omega arith))

    end_ : read_uint16 (put_header h m) 4 ≡ h.records_end
    end_ = omega (arith, w 4 (omega arith), w 5 (omega arith))

    count : read_uint16 (put_header h m) 6 ≡ h.slot_count
    count = omega (arith, w 6 (omega arith), w 7 (omega arith))

-- A new page is well formed, whatever the memory holds.
pub new_data_page-IsValid : (table : TableInfo) (m : Mem) → IsValid (new_data_page table m)
unfolding new_data_page
new_data_page-IsValid table m = record {
  stored = read_header-put_header _ m (omega arith) (omega arith) (omega arith) (omega arith);
  slots_end = refl;
  records = omega arith;
  apart = omega arith;
  slots = λ i h. absurd (omega arith);
}

-- The page after an insert that is accepted.
abbrev pub inserted : DataPage → DataPageHeader → DataPage
inserted p h = record p {
  header = h;
  current_position = p.header.records_begin;
  frame =
      put_header h (write_uint16 p.frame (slot_offset p.header.slot_count) p.header.records_begin);
}

-- The header after an insert, where no field wraps.
abbrev pub next_header : DataPage → DataPageHeader
next_header p = record p.header {
  records_end = p.header.records_end + 2;
  slot_count = p.header.slot_count + 1;
  records_begin = p.header.records_begin - p.table.record_size;
}

pub data_page_insert-accepts :
    (p : DataPage)
    → IsValid p
    → p.header.records_end + p.table.record_size ≤ p.header.records_begin
    → data_page_insert p ≡ (p.header.slot_count, inserted p (next_header p))
unfolding data_page_insert
data_page_insert-accepts p v room = rw (accepted, end_, count, begin, slot)
  where
    accepted : ltb p.header.records_begin (p.header.records_end + p.table.record_size) ≡ false
    accepted = ground arith

    end_ : (p.header.records_end + 2) % 2 ^ 16 ≡ p.header.records_end + 2
    end_ = omega (arith, v.records)

    count : (p.header.slot_count + 1) % 2 ^ 16 ≡ p.header.slot_count + 1
    count = omega (arith, v.records, v.slots_end)

    begin :
        (p.header.records_begin + 2 ^ 16 - p.table.record_size) % 2 ^ 16
        ≡ p.header.records_begin - p.table.record_size
    begin = omega (arith, v.records)

    slot : slot_offset p.header.slot_count % 2 ^ 16 ≡ slot_offset p.header.slot_count
    slot = omega (arith, v.records, v.slots_end)

inserted-slots :
    (p : DataPage) (h : DataPageHeader) (i : ℕ)
    → IsValid p
    → slot_offset p.header.slot_count + 2 ≤ page_size
    → i < p.header.slot_count + 1
    → read_uint16 (inserted p h).frame (slot_offset i) + i * p.table.record_size ≡ page_size
inserted-slots p h i v room below = elim (ℕ_discrete i p.header.slot_count) [
  | yes e ↦ rw e (
      omega (
        arith,
        kept,
        v.records,
        read_uint16-write_uint16 p.frame (slot_offset p.header.slot_count) p.header.records_begin
            (omega (arith, v.records)),
      ))
  | no ne ↦ omega (
    arith,
    kept,
    v.slots i (omega arith),
    read_uint16-write_uint16_apart p.frame (slot_offset p.header.slot_count) (slot_offset i)
        p.header.records_begin (omega arith),
  )
]
  where
    slotted : Mem
    slotted = write_uint16 p.frame (slot_offset p.header.slot_count) p.header.records_begin

    kept :
        (j : ℕ)
        → read_uint16 (put_header h slotted) (slot_offset j) ≡ read_uint16 slotted (slot_offset j)
    kept j =
        read_uint16_ext slotted (put_header h slotted) (slot_offset j)
          (put_header-out h slotted (slot_offset j) (omega arith))
          (put_header-out h slotted (slot_offset j + 1) (omega arith))

-- On a well-formed page whose type fits sixteen bits, a record that fits together with its slot is
-- given the next slot; the page stays well formed, and no byte of the new record's space or of an
-- older record is written.
pub data_page_insert-IsValid :
    (p : DataPage)
    → IsValid p
    → p.header.page_type < 65536
    → p.header.records_end + 2 + p.table.record_size ≤ p.header.records_begin
    → let (id, p') = data_page_insert p in
      (id ≡ p.header.slot_count)
      × IsValid p'
      × ((k : ℕ) → p'.header.records_begin ≤ k → p'.frame k ≡ p.frame k)
data_page_insert-IsValid p v type room = rw (data_page_insert-accepts p v (omega arith)) (
  refl,
  record {
    stored =
        read_header-put_header (next_header p) _ type (omega (arith, v.records))
          (omega (arith, v.records)) (omega (arith, v.records, v.slots_end));
    slots_end = omega (arith, v.slots_end);
    records = omega (arith, v.records);
    apart = omega arith;
    slots = λ i h. inserted-slots p (next_header p) i v (omega (arith, v.records, v.slots_end)) h;
  },
  λ k h.
      put_header-out (next_header p) _ k (omega (arith, v.slots_end))
      ∙ (unfold write_uint16 in
          copy_out p.frame (slot_offset p.header.slot_count) _ 2 k
            (inr (omega (arith, v.slots_end)))),
)

-- On a well-formed page a record that fits, but not together with its slot, is accepted all the same,
-- and the page's slots then reach into its records.
pub data_page_insert-overlap :
    (p : DataPage)
    → IsValid p
    → p.header.records_end + p.table.record_size ≤ p.header.records_begin
    → p.header.records_begin < p.header.records_end + p.table.record_size + 2
    → let (id, p') = data_page_insert p in
      (id ≡ p.header.slot_count) × (p'.header.records_begin < p'.header.records_end)
data_page_insert-overlap p v passes tight =
    rw (data_page_insert-accepts p v passes) (refl, omega arith)

pub data_page_insert-refuses :
    (p : DataPage)
    → p.header.records_begin < p.header.records_end + p.table.record_size
    → data_page_insert p ≡ (invalid_record_handle, p)
unfolding data_page_insert
data_page_insert-refuses p full = rw refused
  where
    refused : ltb p.header.records_begin (p.header.records_end + p.table.record_size) ≡ true
    refused = ground arith
