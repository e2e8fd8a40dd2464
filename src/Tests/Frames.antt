-- ===== src/Tests/Frames.antt =====
-- server/src/transaction.c on a pool over a file of four pages, before and after page 3 is pinned.
use npsql.Base.{
  ℕ, ◌+◌, ◌*◌, ◌%◌, ◌≡◌, ◌≢◌, ◌<◌, ◌≤◌, ◌∙◌, inl, refl, Mem, copy, from, arith, some, true, false,
  [], ◌∷◌, if◌then◌else◌, ◌==◌,
}
use npsql.LogFile.{page_size}
use npsql.LogFile.Bounds.{Fits}
use npsql.Wal.{wal_update_rec_len}
use npsql.BufferManager.{
  BufferManager, invalid_pnum, buffer_manager_initialize, flush_buffer, read_buffer, take_buffer,
  write_buffer,
}
use npsql.BufferManager.View.{Coherent, view, view-absent}
use npsql.BufferManager.Pin.{pin-Pinned}
use npsql.BufferManager.Write.{write_Coherent}
use npsql.BufferManager.Obtain.{Spare}
use npsql.HeapTable.{Store, with_page}
use npsql.LockTable.Count.{count}
use npsql.Transaction.{
  Transaction, TransactionContext, Working, get_buffer, get_lock, lock_already_taken,
  transactional_pin, transactional_read, transactional_update, transactional_append, commit,
}
use npsql.Transaction.Shows.{Shows, Attached, Ready}
use npsql.Transaction.Access.{transactional_read-Attached, transactional_update-Attached}
use npsql.Transaction.Obtain.{
  transactional_pin-Attached, transactional_append-Attached, with_new_page,
}
use npsql.Transaction.Release.{Within, less}
use npsql.Transaction.Commit.{Committed, commit-Committed}
use npsql.Tests.Pool.{zeros, new_pool, after, pin-3, new_pool-Coherent, three-valid}
use npsql.Tests.Locks.{both, both-Distinct, both-Holds}

-- The four pages of the file.
abbrev four_pages : Store
four_pages = record { pages = λ q k. (q * page_size + k) % 256; page_count = 4 }

-- Pages 5 and 6 of another part of the program are locked, and page 3 already.
abbrev starting : Working
starting = (
  record { bmgr = new_pool; locks = both; next = 2 },
  record { id = 1; buffers = []; locks = 3 ∷ [] },
)

new_pool-empty : (j : ℕ) (q : ℕ) → q < 4 → (new_pool.buffers j).page_number ≢ q
unfolding buffer_manager_initialize
new_pool-empty j q small e = absurd (omega arith)

new_pool-view : (q k : ℕ) → q < 4 → k < page_size → view new_pool q k ≡ four_pages.pages q k
unfolding buffer_manager_initialize
new_pool-view q k hq hk = view-absent new_pool q k (λ j hj. new_pool-empty j q hq)

new_pool-Shows : Shows new_pool four_pages
unfolding buffer_manager_initialize
new_pool-Shows = record {
  coherent = new_pool-Coherent;
  free = refl;
  page_count = refl;
  fits = omega arith;
  numbers = λ i small valid. absurd (valid refl);
  bytes = new_pool-view;
}

starting-Attached : Attached starting four_pages
starting-Attached = record {
  shows = new_pool-Shows;
  framed = tt;
  named = λ e. absurd (omega arith);
}

new_pool-Spare : Spare new_pool
unfolding buffer_manager_initialize
new_pool-Spare = (0, omega arith, refl)

transactional_pin-Attached_example :
    (w' : Working) × (transactional_pin starting 3 ≡ some w') × Attached w' four_pages × Ready w' 3
transactional_pin-Attached_example =
    transactional_pin-Attached starting four_pages 3 starting-Attached new_pool-Spare (omega arith)

transactional_append-Attached_example :
    (w' : Working) × (m : Mem) × (transactional_append starting ≡ some (4, w'))
    × Attached w' (with_new_page four_pages m)
    × Ready w' 4
transactional_append-Attached_example =
    transactional_append-Attached starting four_pages starting-Attached new_pool-Spare (omega arith)

-- Page 3 in the first frame.
abbrev with_3 : Working
with_3 = (
  record { bmgr = after; locks = both; next = 2 },
  record { id = 1; buffers = record { buffer = some 0; is_pinned = true } ∷ []; locks = 3 ∷ [] },
)

after-numbers : (i : ℕ) → (after.buffers i).page_number ≡ (if i == 0 then 3 else invalid_pnum)
unfolding take_buffer read_buffer flush_buffer buffer_manager_initialize
after-numbers i = ground arith

after-Shows : Shows after four_pages
unfolding take_buffer read_buffer flush_buffer buffer_manager_initialize
after-Shows =
    let p = pin-Pinned new_pool after 3 0 new_pool-Coherent three-valid pin-3 in
    record {
      coherent = p.kept.coherent;
      free = refl;
      page_count = refl;
      fits = omega arith;
      numbers = λ i small valid. ground (arith, after-numbers i);
      bytes = λ q k hq hk.
          p.kept.same_view q k (λ e. absurd (omega arith)) hk ∙ new_pool-view q k hq hk;
    }

with_3-Attached : Attached with_3 four_pages
with_3-Attached = record {
  shows = after-Shows;
  framed = ((0, refl, omega arith), tt);
  named = λ e. absurd (omega arith);
}

with_3-Ready : Ready with_3 3
unfolding get_buffer take_buffer read_buffer flush_buffer buffer_manager_initialize
with_3-Ready = (
  0,
  record {
    entry = record { buffer = some 0; is_pinned = true };
    found = refl;
    frame = refl;
    in_pool = omega arith;
    holds = refl;
  },
)

with_3-locked : (shared : _) → get_lock with_3 3 shared ≡ some (true, with_3)
unfolding get_lock lock_already_taken
with_3-locked shared = refl

transactional_read-Attached_example :
    (m : Mem) × (transactional_read with_3 3 zeros 100 8 ≡ some (true, m, with_3))
    × ((k : ℕ) → m k ≡ copy zeros 0 (from (four_pages.pages 3) 100) 8 k)
    × Attached with_3 four_pages
    × Ready with_3 3
transactional_read-Attached_example =
    transactional_read-Attached with_3 with_3 four_pages 3 zeros 100 8 with_3-Attached with_3-Ready
      (omega arith) (omega arith) (with_3-locked true)

with_3-Fits : Fits with_3.0.bmgr.log_file (wal_update_rec_len 8)
unfolding take_buffer read_buffer flush_buffer buffer_manager_initialize
with_3-Fits = (omega arith, inl (omega arith))

transactional_update-Attached_example :
    (w2 : Working) × (transactional_update with_3 3 zeros 100 8 zeros ≡ some (true, w2))
    × Attached w2 (with_page four_pages 3 (copy (four_pages.pages 3) 100 zeros 8))
    × Ready w2 3
    × ((k : ℕ)
        → page_size ≤ k
        → w2.0.bmgr.log_file.current_page k ≡ with_3.0.bmgr.log_file.current_page k)
transactional_update-Attached_example =
    transactional_update-Attached with_3 with_3 four_pages 3 zeros 100 8 zeros with_3-Attached
      with_3-Ready (omega arith) (omega arith) with_3-Fits (with_3-locked false)

-- Transaction 1 has changed page 3, and holds the locks of pages 5 and 6.
abbrev changed : BufferManager
changed = write_buffer after 0 zeros 100 8 1 7

changed-Coherent : Coherent changed
unfolding take_buffer read_buffer flush_buffer buffer_manager_initialize
changed-Coherent =
    write_Coherent after 0 zeros 100 8 1 7 (omega arith) after-Shows.coherent three-valid
      (λ e. absurd (omega arith))

changed-free : changed.locked ≡ false
unfolding write_buffer take_buffer
changed-free = refl

abbrev changing : TransactionContext
changing = record { bmgr = changed; locks = both; next = 2 }

abbrev changer : Transaction
changer = record {
  id = 1;
  buffers = record { buffer = some 0; is_pinned = true } ∷ [];
  locks = 5 ∷ 6 ∷ [];
}

commit-Committed_example :
    (ctx' : TransactionContext) × (commit (changing, changer) ≡ some ctx')
    × Committed changed ctx'.bmgr 1
    × ((p : ℕ) → Within p (5 ∷ 6 ∷ []) → count ctx'.locks p ≡ less (count both p))
commit-Committed_example =
    commit-Committed changing changer changed-Coherent changed-free ((0, refl, omega arith), tt)
      refl both-Distinct both-Holds
