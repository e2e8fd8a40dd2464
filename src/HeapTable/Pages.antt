-- ===== src/HeapTable/Pages.antt =====
-- A data page of a table, and an insert into it by number.
use npsql.Base.{ℕ, ◌+◌, ◌-◌, ◌*◌, ◌≤◌, ◌<◌, ◌≡◌, ◌∙◌, ◌⊎◌, inl, inr, refl, ap, Mem, arith, dec_lt}
use npsql.BufferManager.{dec16}
use npsql.Sql.{TableInfo}
use npsql.DataPage.{
  DataPage, DataPageHeader, data_page_type, invalid_record_handle, new_data_page, open_data_page,
  read_header, data_page_insert,
}
use npsql.DataPage.Insert.{
  IsValid, new_data_page-IsValid, data_page_insert-IsValid, data_page_insert-refuses,
  data_page_insert-accepts, inserted, next_header,
}
use npsql.HeapTable.{opened}

-- A record size at which no page has room for a record but not for its slot: with `c` records on a
-- page and `free` bytes between them and their slots.
abbrev pub Sized : ℕ → Type 0
Sized size = (c free : ℕ) → c * (size + 2) + free ≡ 504 → size ≤ free → size + 2 ≤ free

-- A page that holds records of the table and is well formed.
pub record PageOk (table : TableInfo) (m : Mem) : Type 0 where
  pub valid : IsValid (opened table m)
  pub type : (read_header m).page_type ≡ data_page_type

abbrev pub slots_of : Mem → ℕ
slots_of m = (read_header m).slot_count

-- A well-formed page is well formed when it is opened again.
IsValid-opened : (p : DataPage) → IsValid p → IsValid (opened p.table p.frame)
unfolding open_data_page
IsValid-opened p v = record {
  stored = refl;
  slots_end = rw v.stored v.slots_end;
  records = rw v.stored v.records;
  apart = rw v.stored v.apart;
  slots = rw v.stored v.slots;
}

pub new_data_page-PageOk :
    (table : TableInfo) (m : Mem)
    → PageOk table (new_data_page table m).frame × (slots_of (new_data_page table m).frame ≡ 0)
unfolding new_data_page
new_data_page-PageOk table m =
    let v : IsValid (new_data_page table m) = new_data_page-IsValid table m in
    (
      record {
        valid = IsValid-opened (new_data_page table m) v;
        type = ap (λ (h : DataPageHeader). h.page_type) v.stored;
      },
      ap (λ (h : DataPageHeader). h.slot_count) v.stored,
    )

-- A page with one record more: the next slot is taken and the older records are left.
pub record Grown (table : TableInfo) (m m' : Mem) : Type 0 where
  pub ok : PageOk table m'
  pub few : slots_of m < 256
  pub one_more : slots_of m' ≡ slots_of m + 1
  pub old : (k : ℕ) → (read_header m).records_begin ≤ k → m' k ≡ m k

-- What an insert into a page does: it is refused, or it takes the next slot and leaves the records.
abbrev pub Tried : TableInfo → Mem → Type 0
Tried table m =
    ((opened table m).header.records_begin
        < (opened table m).header.records_end + table.record_size)
      × (data_page_insert (opened table m) ≡ (invalid_record_handle, opened table m))
    ⊎ ((p' : DataPage) × (data_page_insert (opened table m) ≡ (slots_of m, p'))
        × (dec16 p'.header.slot_count ≡ slots_of m)
        × Grown table m p'.frame)

pub data_page_insert-Tried :
    (table : TableInfo) (m : Mem) → Sized table.record_size → PageOk table m → Tried table m
unfolding open_data_page
data_page_insert-Tried table m sized ok =
    elim (dec_lt h.records_begin (h.records_end + table.record_size)) [
      | yes full ↦ inl (full, data_page_insert-refuses p full)
      | no space ↦ inr (accepted space)
    ]
  where
    p : DataPage
    p = opened table m

    h : DataPageHeader
    h = p.header

    v : IsValid p
    v = ok.valid

    accepted :
        ¬ (h.records_begin < h.records_end + table.record_size)
        → (p' : DataPage) × (data_page_insert p ≡ (h.slot_count, p'))
          × (dec16 p'.header.slot_count ≡ h.slot_count)
          × Grown table m p'.frame
    accepted space =
        let accepts : data_page_insert p ≡ (h.slot_count, inserted p (next_header p)) =
          data_page_insert-accepts p v (omega arith) in
        let room : h.records_end + 2 + table.record_size ≤ h.records_begin = omega (
          arith,
          v.apart,
          sized h.slot_count (h.records_begin - h.records_end)
              (omega (arith, v.records, v.slots_end, v.apart)) (omega arith),
        ) in
        let (id, v', old) =
          rw accepts at (data_page_insert-IsValid p v (omega (arith, ok.type)) room) in
        (
          inserted p (next_header p),
          accepts,
          omega (arith, v.slots_end, v.records, v.apart),
          record {
            ok = record {
              valid = IsValid-opened (inserted p (next_header p)) v';
              type = ap (λ (h : DataPageHeader). h.page_type) v'.stored ∙ ok.type;
            };
            few = omega (arith, v.slots_end, v.records, v.apart);
            one_more = ap (λ (h : DataPageHeader). h.slot_count) v'.stored;
            old = λ k le. old k (omega arith);
          },
        )
