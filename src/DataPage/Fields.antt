-- ===== src/DataPage/Fields.antt =====
-- Fields of a slotted page: what is set is read back, and the other fields stay; the iterator.
use npsql.Base.{
  ℕ, ◌+◌, ◌-◌, ◌*◌, ◌%◌, ◌^◌, ◌≤◌, ◌<◌, ◌≡◌, ◌∙◌, ◌⊎◌, inl, inr, refl, ap, Mem, of_bytes, copy,
  copy_in, copy_out, from, arith, ltb, ◌==◌, true, false, ℕ_discrete, some, ne→==-false,
}
use npsql.Bytes.{read_uint16, read_uint32, le32}
use npsql.LogFile.Chain.{read_uint16_ext}
use npsql.Sql.{Str, Column}
use npsql.DataPage.{
  DataPage, page_size, slot_offset, field_offset, get_info, page_get_generic, page_set_generic,
  DataPageIterator, page_get_int, page_set_int, next_page_record, invalid_record_handle,
}
use npsql.DataPage.Insert.{IsValid}

-- The record's slot lies before the field of column `c`.
abbrev pub Clear : DataPage → ℕ → Column → Type 0
Clear p id c =
    let handle = read_uint16 p.frame (slot_offset id) in
    (slot_offset id + 2 + c.offset + c.size ≤ handle) × (handle < 65536)

abbrev pub field : DataPage → ℕ → Column → Mem
field p id c = from p.frame (read_uint16 p.frame (slot_offset id) - c.offset - c.size)

slot_offset-small :
    (p : DataPage) (id : ℕ) (c : Column) → Clear p id c → slot_offset id % 2 ^ 16 ≡ slot_offset id
slot_offset-small p id c (clear, small) = omega arith

field_offset-Clear :
    (p : DataPage) (id : ℕ) (c : Column)
    → Clear p id c
    → field_offset (read_uint16 p.frame (slot_offset id)) c
      ≡ read_uint16 p.frame (slot_offset id) - c.offset - c.size
field_offset-Clear p id c (clear, small) = omega arith

page_get_generic-Clear :
    (p : DataPage) (id : ℕ) (name : Str) (c : Column)
    → get_info p.table.columns name ≡ some c
    → Clear p id c
    → page_get_generic p id name ≡ some (field p id c, c.size)
unfolding page_get_generic
page_get_generic-Clear p id name c found clear =
    rw (found, page_get_generic, slot_offset-small p id c clear, field_offset-Clear p id c clear)

-- The page after a field is set to a value of its column's size.
abbrev set : DataPage → ℕ → Column → Mem → DataPage
set p id c value = record p {
  frame = copy p.frame (read_uint16 p.frame (slot_offset id) - c.offset - c.size) value c.size;
}

page_set_generic-Clear :
    (p : DataPage) (id : ℕ) (name : Str) (c : Column) (value : Mem)
    → get_info p.table.columns name ≡ some c
    → Clear p id c
    → page_set_generic p id name value c.size ≡ set p id c value
unfolding page_set_generic
page_set_generic-Clear p id name c value found clear = rw (
  found,
  page_set_generic,
  slot_offset-small p id c clear,
  field_offset-Clear p id c clear,
  whole,
)
  where
    whole : ltb c.size c.size ≡ false
    whole = ground arith

set-slot :
    (p : DataPage) (id : ℕ) (c : Column) (value : Mem)
    → Clear p id c
    → read_uint16 (set p id c value).frame (slot_offset id) ≡ read_uint16 p.frame (slot_offset id)
set-slot p id c value (clear, small) =
    read_uint16_ext p.frame (set p id c value).frame (slot_offset id)
      (copy_out p.frame _ value c.size (slot_offset id) (inl (omega arith)))
      (copy_out p.frame _ value c.size (slot_offset id + 1) (inl (omega arith)))

-- A column that the table has, in a record whose slot lies before the field: a field that is set to a
-- value of the column's size is read back byte for byte.
pub page_get_generic-page_set_generic :
    (p : DataPage) (id : ℕ) (name : Str) (c : Column) (value : Mem)
    → get_info p.table.columns name ≡ some c
    → Clear p id c
    → (m : Mem) × (page_get_generic (page_set_generic p id name value c.size) id name
        ≡ some (m, c.size))
      × ((j : ℕ) → j < c.size → m j ≡ value j)
page_get_generic-page_set_generic p id name c value found clear =
    rw (page_set_generic-Clear p id name c value found clear) (
      field (set p id c value) id c,
      page_get_generic-Clear (set p id c value) id name c found
          (rw (set-slot p id c value clear) clear),
      λ j h.
          ap (λ s. (set p id c value).frame (s - c.offset - c.size + j))
            (set-slot p id c value clear)
          ∙ copy_in p.frame _ value c.size _ j refl h,
    )

-- A column of four bytes that the table has, in a record whose slot lies before the field: an int that
-- is set is read back.
pub page_get_int-page_set_int :
    (p : DataPage) (id : ℕ) (name : Str) (c : Column) (value : ℕ)
    → get_info p.table.columns name ≡ some c
    → Clear p id c
    → c.size ≡ 4
    → value < 4294967296
    → page_get_int (page_set_int p id name value) id name ≡ some value
unfolding page_get_int page_set_int read_uint32
page_get_int-page_set_int p id name c value found clear four small =
    let (m, e, same) =
      page_get_generic-page_set_generic p id name c (of_bytes (le32 value)) found clear in
    rw (← four, e)
      (ap some (
        omega (
          arith,
          same 0 (omega arith),
          same 1 (omega arith),
          same 2 (omega arith),
          same 3 (omega arith),
        )))

-- Where the record's slot, besides, points inside the page, no byte past the page is written.
pub page_set_int-inside :
    (p : DataPage) (id : ℕ) (name : Str) (c : Column) (value : ℕ) (k : ℕ)
    → get_info p.table.columns name ≡ some c
    → Clear p id c
    → read_uint16 p.frame (slot_offset id) ≤ page_size
    → c.size ≡ 4
    → page_size ≤ k
    → (page_set_int p id name value).frame k ≡ p.frame k
unfolding page_set_int
page_set_int-inside p id name c value k found clear inside four past =
    rw (← four, page_set_generic-Clear p id name c (of_bytes (le32 value)) found clear)
      (copy_out p.frame _ (of_bytes (le32 value)) c.size k (inr (omega (arith, clear.0))))

-- Two columns that share no byte of the record, in a record whose slot lies before both fields:
-- setting one to a value of its size leaves the bytes of the other as they were.
pub page_get_generic-page_set_generic_apart :
    (p : DataPage) (id : ℕ) (name name' : Str) (c d : Column) (value : Mem)
    → get_info p.table.columns name ≡ some c
    → get_info p.table.columns name' ≡ some d
    → Clear p id c
    → Clear p id d
    → (c.offset + c.size ≤ d.offset) ⊎ (d.offset + d.size ≤ c.offset)
    → (m m' : Mem) × (page_get_generic p id name' ≡ some (m, d.size))
      × (page_get_generic (page_set_generic p id name value c.size) id name' ≡ some (m', d.size))
      × ((j : ℕ) → j < d.size → m' j ≡ m j)
page_get_generic-page_set_generic_apart p id name name' c d value found found' clear clear' apart =
    rw (page_set_generic-Clear p id name c value found clear) (
      field p id d,
      field (set p id c value) id d,
      page_get_generic-Clear p id name' d found' clear',
      page_get_generic-Clear (set p id c value) id name' d found'
          (rw (set-slot p id c value clear) clear'),
      λ j h.
          ap (λ s. (set p id c value).frame (s - d.offset - d.size + j))
            (set-slot p id c value clear)
          ∙ copy_out p.frame _ value c.size _ (ground (arith, clear.0, clear'.0)),
    )

-- On a well-formed page the iterator gives the slots in order, each with the end of its record, and
-- stops after the last.
pub next_page_record_lem :
    (i : DataPageIterator)
    → IsValid i.page
    → i.current_slot ≤ i.page.header.slot_count
    → let (id, i') = next_page_record i in
      ((i.current_slot ≡ i.page.header.slot_count) × (id ≡ invalid_record_handle) × (i' ≡ i))
      ⊎ ((id ≡ i.current_slot)
          × (i'.current_slot ≡ i.current_slot + 1)
          × (i'.current_record + i.current_slot * i.page.table.record_size ≡ page_size)
          × (i'.page ≡ i.page))
unfolding next_page_record
next_page_record_lem i v le = elim (ℕ_discrete i.current_slot i.page.header.slot_count) [
  | yes e ↦ rw (at_end e) (inl (e, refl, refl))
  | no ne ↦ rw (ne→==-false _ _ ne) (
      inr (
        refl,
        omega (arith, v.records, v.slots_end),
        rw (slot_small (omega arith)) (v.slots i.current_slot (omega arith)),
        refl,
      ))
]
  where
    at_end :
        i.current_slot ≡ i.page.header.slot_count
        → (i.current_slot == i.page.header.slot_count) ≡ true
    at_end e = ground arith

    slot_small :
        i.current_slot < i.page.header.slot_count
        → slot_offset i.current_slot % 2 ^ 16 ≡ slot_offset i.current_slot
    slot_small h = omega (arith, v.records, v.slots_end, v.apart)
