-- ===== src/HeapTable/Grow.antt =====
-- A data page more at the end of the last allocation map, and a map more at the end of the chain.
use npsql.Base.{
  ℕ, ◌+◌, ◌%◌, ◌<◌, ◌≡◌, ◌≢◌, ◌∙◌, sym, ap, Mem, arith, ℕ_discrete, put_at, put_at_self, put_at-ne,
  [], true, false, ◌==◌, ne→==-false,
}
use npsql.Bytes.{read_uint64, write_uint64}
use npsql.Sql.{TableInfo}
use npsql.BufferManager.{invalid_pnum}
use npsql.DataPage.{new_data_page}
use npsql.HeapTable.{Store, put_am, am_entry_offset, add_new_data_page, append_data_page}
use npsql.HeapTable.Maps.{Fits, read_am-put_am, entry-put_am, entry-write_own, entry-write_other}
use npsql.HeapTable.Pages.{new_data_page-PageOk}
use npsql.HeapTable.Heap.{Am, Map, header_of}

-- The last map with the page that the transaction appends.
abbrev pub longer : Store → Am → Am
longer s a = record { pid = a.pid; n = a.n + 1; entry = put_at a.entry a.n s.page_count }

abbrev pub fresh : Store → TableInfo → Mem
fresh s table = (new_data_page table (s.pages s.page_count)).frame

abbrev pub longer_store : Store → TableInfo → Am → Store
longer_store s table a = record {
  pages = put_at (put_at s.pages s.page_count (fresh s table)) a.pid (
      put_am (header_of (longer s a) [])
        (write_uint64 (s.pages a.pid) (am_entry_offset a.n) s.page_count));
  page_count = s.page_count + 1;
}

module _ (s : Store) (table : TableInfo) (a : Am) (map : Map s table a []) (space : a.n < 61)
    (numbers : s.page_count < invalid_pnum) where
  pub add_new_data_page-longer : add_new_data_page s table a.pid ≡ (true, longer_store s table a)
  unfolding add_new_data_page append_data_page
  add_new_data_page-longer =
      rw (own, map.header, not_full, counted)
        (ap
          (λ (m : Mem). (
            true,
            record s {
              pages = put_at (put_at s.pages s.page_count (fresh s table)) a.pid (
                  put_am (header_of (longer s a) [])
                    (write_uint64 m (am_entry_offset a.n) s.page_count));
              page_count = s.page_count + 1;
            },
          ))
          own)
    where
      own : put_at s.pages s.page_count (fresh s table) a.pid ≡ s.pages a.pid
      own = put_at-ne s.pages s.page_count (fresh s table) a.pid (omega (arith, map.own_before))

      not_full : (a.n == 61) ≡ false
      not_full = ne→==-false a.n 61 (omega arith)

      counted : (a.n + 1) % 65536 ≡ a.n + 1
      counted = omega arith

  pub longer_store-fresh : (longer_store s table a).pages s.page_count ≡ fresh s table
  longer_store-fresh =
      put_at-ne (put_at s.pages s.page_count (fresh s table)) a.pid _ s.page_count
        (omega (arith, map.own_before))
      ∙ put_at_self s.pages s.page_count (fresh s table)

  pub longer_store-other :
      (k : ℕ) → k ≢ a.pid → k ≢ s.page_count → (longer_store s table a).pages k ≡ s.pages k
  longer_store-other k ne ne' =
      put_at-ne (put_at s.pages s.page_count (fresh s table)) a.pid _ k ne
      ∙ put_at-ne s.pages s.page_count (fresh s table) k ne'

  longer_store-own :
      (longer_store s table a).pages a.pid
      ≡ put_am
          (header_of (longer s a) [])
          (write_uint64 (s.pages a.pid) (am_entry_offset a.n) s.page_count)
  longer_store-own = put_at_self (put_at s.pages s.page_count (fresh s table)) a.pid _

  longer-Fits : Fits (header_of (longer s a) [])
  longer-Fits = record {
    page_type = omega arith;
    pages_count = omega arith;
    me = omega (arith, map.own_before);
    next = omega arith;
  }

  longer-entry :
      (i : ℕ)
      → i < a.n + 1
      → read_uint64
          (put_am
            (header_of (longer s a) [])
            (write_uint64 (s.pages a.pid) (am_entry_offset a.n) s.page_count))
          (am_entry_offset i)
        ≡ put_at a.entry a.n s.page_count i
  longer-entry i lt = elim (ℕ_discrete i a.n) [
    | yes last ↦ rw last (
        entry-put_am _ _ a.n
        ∙ entry-write_own (s.pages a.pid) a.n s.page_count (omega arith)
        ∙ sym (put_at_self a.entry a.n s.page_count))
    | no older ↦
        entry-put_am _ _ i
        ∙ entry-write_other (s.pages a.pid) i a.n s.page_count older
        ∙ map.entries i (omega arith)
        ∙ sym (put_at-ne a.entry a.n s.page_count i older)
  ]

  pub longer-Map : Map (longer_store s table a) table (longer s a) []
  longer-Map = record {
    header = rw longer_store-own (read_am-put_am (header_of (longer s a) []) _ longer-Fits);
    entries = λ i lt. rw longer_store-own (longer-entry i lt);
    after = λ i lt. elim (ℕ_discrete i a.n) [
      | yes last ↦ rw (last, put_at_self a.entry a.n s.page_count) map.own_before
      | no older ↦ rw (put_at-ne a.entry a.n s.page_count i older) (map.after i (omega arith))
    ];
    increasing = λ i j less lt. elim (ℕ_discrete j a.n) [
      | yes last ↦
          rw
            (
              last,
              put_at_self a.entry a.n s.page_count,
              put_at-ne a.entry a.n s.page_count i (omega arith),
            )
            (map.before i (omega arith))
      | no older ↦
          rw
            (
              put_at-ne a.entry a.n s.page_count i (omega arith),
              put_at-ne a.entry a.n s.page_count j older,
            )
            (map.increasing i j less (omega arith))
    ];
    before = λ i lt. elim (ℕ_discrete i a.n) [
      | yes last ↦ rw (last, put_at_self a.entry a.n s.page_count) (omega arith)
      | no older ↦
          rw (put_at-ne a.entry a.n s.page_count i older)
            (omega (arith, map.before i (omega arith)))
    ];
    own_before = omega (arith, map.own_before);
    known = omega arith;
    small = omega arith;
    full = tt;
    pages = λ i lt. elim (ℕ_discrete i a.n) [
      | yes last ↦
          rw (last, put_at_self a.entry a.n s.page_count, longer_store-fresh)
            (new_data_page-PageOk table _).0
      | no older ↦
          rw
            (
              put_at-ne a.entry a.n s.page_count i older,
              longer_store-other (a.entry i) (omega (arith, map.after i (omega arith)))
                  (omega (arith, map.before i (omega arith))),
            )
            (map.pages i (omega arith))
    ];
  }
