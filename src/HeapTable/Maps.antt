-- ===== src/HeapTable/Maps.antt =====
-- An allocation map in memory: what its header and its entries read after an update.
use npsql.Base.{ℕ, ◌+◌, ◌≤◌, ◌<◌, ◌≡◌, ◌≢◌, ◌∙◌, ◌⊎◌, inl, inr, Mem, arith, dec_lt}
use npsql.Bytes.{read_uint16, read_uint64, write_uint16, write_uint64}
use npsql.Bytes.Laws.{
  read_uint16-write_uint16, read_uint64-write_uint64, write_uint16-out, write_uint64-out,
  read_uint64_ext,
}
use npsql.LogFile.Chain.{read_uint16_ext}
use npsql.HeapTable.{AllocationMapHeader, read_am, put_am, am_entry_offset, allocation_map_size}

-- A header whose fields fit.
pub record Fits (h : AllocationMapHeader) : Type 0 where
  pub page_type : h.page_type < 65536
  pub pages_count : h.pages_count < 65536
  pub me : h.me < 18446744073709551616
  pub next : h.next < 18446744073709551616

module _ (h : AllocationMapHeader) (m : Mem) (f : Fits h) where
  put_am-type : read_uint16 (put_am h m) 0 ≡ h.page_type
  unfolding put_am
  put_am-type =
      read_uint16_ext (write_uint16 m 0 h.page_type) (put_am h m) 0 (kept 0 (omega arith))
        (kept (0 + 1) (omega arith))
      ∙ read_uint16-write_uint16 m 0 h.page_type f.page_type
    where
      kept : (k : ℕ) → k < 2 → put_am h m k ≡ write_uint16 m 0 h.page_type k
      kept k lt =
          write_uint64-out _ 16 h.next k (omega arith)
          ∙ write_uint64-out _ 8 h.me k (omega arith)
          ∙ write_uint16-out _ 2 h.pages_count k (omega arith)

  put_am-count : read_uint16 (put_am h m) 2 ≡ h.pages_count
  unfolding put_am
  put_am-count =
      read_uint16_ext counted (put_am h m) 2 (kept 2 (omega arith)) (kept (2 + 1) (omega arith))
      ∙ read_uint16-write_uint16 _ 2 h.pages_count f.pages_count
    where
      counted : Mem
      counted = write_uint16 (write_uint16 m 0 h.page_type) 2 h.pages_count

      kept : (k : ℕ) → k < 4 → put_am h m k ≡ counted k
      kept k lt =
          write_uint64-out _ 16 h.next k (omega arith) ∙ write_uint64-out _ 8 h.me k (omega arith)

  put_am-me : read_uint64 (put_am h m) 8 ≡ h.me
  unfolding put_am
  put_am-me =
      read_uint64_ext named (put_am h m) 8
        (λ k lt. write_uint64-out named 16 h.next (8 + k) (omega arith))
      ∙ read_uint64-write_uint64 _ 8 h.me f.me
    where
      named : Mem
      named = write_uint64 (write_uint16 (write_uint16 m 0 h.page_type) 2 h.pages_count) 8 h.me

  pub read_am-put_am : read_am (put_am h m) ≡ h
  unfolding read_am
  read_am-put_am = rw (put_am-type, put_am-count, put_am-me, next)
    where
      next : read_uint64 (put_am h m) 16 ≡ h.next
      next = unfold put_am in read_uint64-write_uint64 _ 16 h.next f.next

put_am-out :
    (h : AllocationMapHeader) (m : Mem) (k : ℕ) → allocation_map_size ≤ k → put_am h m k ≡ m k
unfolding put_am
put_am-out h m k le =
    write_uint64-out _ 16 h.next k (omega arith)
    ∙ write_uint64-out _ 8 h.me k (omega arith)
    ∙ write_uint16-out _ 2 h.pages_count k (omega arith)
    ∙ write_uint16-out m 0 h.page_type k (omega arith)

pub entry-put_am :
    (h : AllocationMapHeader) (m : Mem) (i : ℕ)
    → read_uint64 (put_am h m) (am_entry_offset i) ≡ read_uint64 m (am_entry_offset i)
entry-put_am h m i =
    read_uint64_ext m (put_am h m) (am_entry_offset i) (λ k lt. put_am-out h m _ (omega arith))

-- Entry `i` after entry `j` is written.
pub entry-write_own :
    (m : Mem) (j pid : ℕ)
    → pid < 18446744073709551616
    → read_uint64 (write_uint64 m (am_entry_offset j) pid) (am_entry_offset j) ≡ pid
entry-write_own m j pid h = read_uint64-write_uint64 m (am_entry_offset j) pid h

pub entry-write_other :
    (m : Mem) (i j pid : ℕ)
    → i ≢ j
    → read_uint64 (write_uint64 m (am_entry_offset j) pid) (am_entry_offset i)
      ≡ read_uint64 m (am_entry_offset i)
entry-write_other m i j pid ne =
    read_uint64_ext m (write_uint64 m (am_entry_offset j) pid) (am_entry_offset i)
      (λ k lt. write_uint64-out m (am_entry_offset j) pid _ (apart k lt))
  where
    apart :
        (k : ℕ)
        → k < 8
        → (am_entry_offset i + k < am_entry_offset j)
          ⊎ (am_entry_offset j + 8 ≤ am_entry_offset i + k)
    apart k lt = elim (dec_lt i j) [ yes h ↦ inl (omega arith) | no h ↦ inr (omega arith) ]
