-- ===== src/Transaction/Access.antt =====
-- `transactional_read` and `transactional_update` of a page that the transaction has a frame for.
use npsql.Base.{
  ℕ, ◌+◌, ◌≤◌, ◌<◌, ◌≡◌, ◌≢◌, ◌∙◌, refl, sym, ap, Mem, copy, from, true, false, some, put_at,
  put_at_self, put_at-ne, ℕ_discrete, arith,
}
use npsql.LogFile.{page_size, LogFile}
use npsql.LogFile.Bounds.{Fits, append-inside}
use npsql.BufferManager.{BufferManager, buffer_pool_size, invalid_pnum, invalid_tsx, write_buffer}
use npsql.BufferManager.View.{view}
use npsql.BufferManager.Pin.{Same}
use npsql.BufferManager.Write.{
  copy-same, write_number, write_Coherent, write_view_own, write_view_other,
}
use npsql.Wal.{wal_write, wal_update_rec_len}
use npsql.HeapTable.{Store, with_page}
use npsql.Transaction.{Working, get_lock, transactional_read, transactional_update}
use npsql.Transaction.Buffers.{Found-same, Locked, get_lock-Locked}
use npsql.Transaction.Shows.{Shows, Same-Shows, Shows-frame, valid_page, Attached, Ready, copy-cong}

Locked-Attached : (w w' : Working) (s : Store) → Locked w w' → Attached w s → Attached w' s
Locked-Attached w w' s l a = record {
  shows = rw l.bmgr a.shows;
  framed = rw l.buffers a.framed;
  named = rw l.id a.named;
}

Locked-Ready : (w w' : Working) (p : ℕ) → Locked w w' → Ready w p → Ready w' p
Locked-Ready w w' p l (i, f) = (i, rw (l.bmgr, l.buffers) f)

-- In a transaction at work on a store, which has a frame for a page of the store and is granted the
-- shared lock, for a range inside the page: transactional_read returns with the page's bytes as the
-- store has them, and the transaction is at work on the same store.
pub transactional_read-Attached :
    (w w' : Working) (s : Store) (p : ℕ) (dest : Mem) (offset size : ℕ)
    → Attached w s
    → Ready w p
    → p < s.page_count
    → offset + size ≤ page_size
    → get_lock w p true ≡ some (true, w')
    → (m : Mem) × (transactional_read w p dest offset size ≡ some (true, m, w'))
      × ((k : ℕ) → m k ≡ copy dest 0 (from (s.pages p) offset) size k)
      × Attached w' s
      × Ready w' p
unfolding transactional_read
transactional_read-Attached w w' s p dest offset size a ready hp fits granted =
    let l = get_lock-Locked w w' p true granted in
    let a' = Locked-Attached w w' s l a in
    let (i, f) = Locked-Ready w w' p l ready in
    (
      copy dest 0 (from (w'.0.bmgr.buffers i).page offset) size,
      rw (granted, f.found, f.frame) refl,
      λ k. copy-cong dest 0 _ _ size k (λ j hj.
          Shows-frame w'.0.bmgr s p i (offset + j) a'.shows hp f.in_pool f.holds (omega arith)),
      a',
      (i, f),
    )

wal_write-Same :
    (bm : BufferManager) (tsx p offset : ℕ) (old : Mem) (size : ℕ) (stale : Mem)
    → Same bm (wal_write bm tsx p offset old size stale).0
unfolding wal_write
wal_write-Same bm tsx p offset old size stale = record {
  number = λ k. refl;
  page = λ k. refl;
  modified = λ k. refl;
  file = refl;
}

wal_write-locked :
    (bm : BufferManager) (tsx p offset : ℕ) (old : Mem) (size : ℕ) (stale : Mem)
    → (wal_write bm tsx p offset old size stale).0.locked ≡ bm.locked
unfolding wal_write
wal_write-locked bm tsx p offset old size stale = refl

module _ (bm : BufferManager) (s : Store) (p i : ℕ) (src : Mem) (offset size tsx lsn : ℕ)
    (h : Shows bm s) (hp : p < s.page_count) (small : i < buffer_pool_size)
    (holds : (bm.buffers i).page_number ≡ p) (dirty : tsx ≢ invalid_tsx) where
  abbrev after : BufferManager
  after = write_buffer bm i src offset size tsx lsn

  valid : (bm.buffers i).page_number ≢ invalid_pnum
  valid = rw holds (valid_page p s.page_count hp h.fits)

  own_bytes : (k : ℕ) → k < page_size → view after p k ≡ copy (s.pages p) offset src size k
  own_bytes k hk =
      ap (λ q. view after q k) (sym holds)
      ∙ write_view_own bm i src offset size tsx lsn small h.coherent valid dirty k
      ∙ ap (λ q. copy (view bm q) offset src size k) holds
      ∙ copy-same (view bm p) (s.pages p) offset src size k (h.bytes p k hp hk)

  written_bytes :
      (q k : ℕ)
      → q < s.page_count
      → k < page_size
      → view after q k ≡ (with_page s p (copy (s.pages p) offset src size)).pages q k
  written_bytes q k hq hk = elim (ℕ_discrete q p) [
    | yes e ↦
        ap (λ x. view after x k) e
        ∙ own_bytes k hk
        ∙ ap (λ (m : Mem). m k) (sym (put_at_self s.pages p (copy (s.pages p) offset src size)))
        ∙ ap (λ x. put_at s.pages p (copy (s.pages p) offset src size) x k) (sym e)
    | no ne ↦
        write_view_other bm i src offset size tsx lsn small h.coherent valid dirty q k
          (valid_page q s.page_count hq h.fits) (λ e. ne (e ∙ holds))
        ∙ h.bytes q k hq hk
        ∙ ap (λ (m : Mem). m k) (sym (put_at-ne s.pages p (copy (s.pages p) offset src size) q ne))
  ]

  write_Shows : Shows after (with_page s p (copy (s.pages p) offset src size))
  unfolding write_buffer
  write_Shows = record {
    coherent = write_Coherent bm i src offset size tsx lsn small h.coherent valid dirty;
    free = h.free;
    page_count = h.page_count;
    fits = h.fits;
    numbers = λ j hj v.
        rw (write_number bm i src offset size tsx lsn small h.coherent valid dirty j) (
          h.numbers j hj (λ e.
            v (write_number bm i src offset size tsx lsn small h.coherent valid dirty j ∙ e)));
    bytes = written_bytes;
  }

wal_write-inside :
    (bm : BufferManager) (tsx p offset : ℕ) (old : Mem) (size : ℕ) (stale : Mem) (k : ℕ)
    → Fits bm.log_file (wal_update_rec_len size)
    → page_size ≤ k
    → (wal_write bm tsx p offset old size stale).0.log_file.current_page k
      ≡ bm.log_file.current_page k
unfolding wal_write
wal_write-inside bm tsx p offset old size stale k fits past =
    append-inside bm.log_file _ (wal_update_rec_len size) k fits past

write_buffer-log :
    (bm : BufferManager) (i : ℕ) (src : Mem) (offset size tsx lsn : ℕ)
    → (write_buffer bm i src offset size tsx lsn).log_file ≡ bm.log_file
unfolding write_buffer
write_buffer-log bm i src offset size tsx lsn = refl

-- In a transaction at work on a store, which has a frame for a page of the store and is granted the
-- exclusive lock, for a range inside the page, where the log record of 23 bytes more than the range fits
-- a page of the log with its trailer, and so it does the log's page in use, unless it does not fit that
-- page at all: transactional_update returns, the transaction is at work on the store in which the page's
-- bytes at the offset are the given ones, it has a frame for the page, and no byte past the log's page is
-- written.
pub transactional_update-Attached :
    (w w' : Working) (s : Store) (p : ℕ) (src : Mem) (offset size : ℕ) (stale : Mem)
    → Attached w s
    → Ready w p
    → p < s.page_count
    → offset + size ≤ page_size
    → Fits w.0.bmgr.log_file (wal_update_rec_len size)
    → get_lock w p false ≡ some (true, w')
    → (w2 : Working) × (transactional_update w p src offset size stale ≡ some (true, w2))
      × Attached w2 (with_page s p (copy (s.pages p) offset src size))
      × Ready w2 p
      × ((k : ℕ)
          → page_size ≤ k
          → w2.0.bmgr.log_file.current_page k ≡ w.0.bmgr.log_file.current_page k)
unfolding transactional_update
transactional_update-Attached w w' s p src offset size stale a ready hp fits logs granted =
    let l = get_lock-Locked w w' p false granted in
    let a' = Locked-Attached w w' s l a in
    let (i, f) = Locked-Ready w w' p l ready in
    let r = wal_write w'.0.bmgr w'.1.id p offset (w'.0.bmgr.buffers i).page size stale in
    let same = wal_write-Same w'.0.bmgr w'.1.id p offset (w'.0.bmgr.buffers i).page size stale in
    let logged =
      Same-Shows w'.0.bmgr r.0 s same
        (wal_write-locked w'.0.bmgr w'.1.id p offset (w'.0.bmgr.buffers i).page size stale
          ∙ a'.shows.free)
        a'.shows in
    let holds = same.number i ∙ f.holds in
    let bm2 = write_buffer r.0 i src offset size w'.1.id r.1 in
    let numbers =
      write_number r.0 i src offset size w'.1.id r.1 f.in_pool logged.coherent
        (valid r.0 s p i src offset size w'.1.id r.1 logged hp f.in_pool holds a'.named) a'.named in
    (
      (record w'.0 { bmgr = bm2 }, w'.1),
      rw (granted, f.found, f.frame) refl,
      record {
        shows =
            write_Shows r.0 s p i src offset size w'.1.id r.1 logged hp f.in_pool holds a'.named;
        framed = a'.framed;
        named = a'.named;
      },
      (i, Found-same w'.0.bmgr bm2 w'.1.buffers p i (λ k. numbers k ∙ same.number k) a'.framed f),
      λ k past.
          ap (λ (lf : LogFile). lf.current_page k)
            (write_buffer-log r.0 i src offset size w'.1.id r.1)
          ∙ wal_write-inside w'.0.bmgr w'.1.id p offset (w'.0.bmgr.buffers i).page size stale k
              (rw l.bmgr logs) past
          ∙ ap (λ (bm : BufferManager). bm.log_file.current_page k) l.bmgr,
    )
