-- ===== src/Transaction/Commit.antt =====
-- `commit`: what a transaction wrote is in the data file, and its locks are given back.
use npsql.Base.{
  ℕ, ◌+◌, ◌*◌, ◌<◌, ◌≡◌, ◌≢◌, ◌∙◌, ◌⊎◌, refl, sym, Bool-cases, false, inl, inr, some, List, [], ◌∷◌,
  if◌then◌else◌, ◌==◌, put_at, arith,
}
use npsql.LogFile.{page_size}
use npsql.BufferManager.{
  BufferManager, inc16, dec16, buffer_pool_size, invalid_pnum, invalid_tsx, unpin,
}
use npsql.BufferManager.View.{Coherent}
use npsql.BufferManager.Evict.{Kept}
use npsql.BufferManager.Pin.{Same, Same-Kept, Kept-trans}
use npsql.BufferManager.Flush.{Written, flush_buffers-Written, Written-durable}
use npsql.Wal.{record_commit, commit_wal}
use npsql.LockTable.Count.{count, Distinct}
use npsql.Transaction.{TransactionBuffer, Transaction, TransactionContext, unpin_all, commit}
use npsql.Transaction.Buffers.{Framed}
use npsql.Transaction.Release.{Holds, Within, less, release_locks_lem}

Same-refl : (bm : BufferManager) → Same bm bm
Same-refl bm = record { number = λ k. refl; page = λ k. refl; modified = λ k. refl; file = refl }

Same-trans : (a b c : BufferManager) → Same a b → Same b c → Same a c
Same-trans a b c s t = record {
  number = λ k. t.number k ∙ s.number k;
  page = λ k. t.page k ∙ s.page k;
  modified = λ k. t.modified k ∙ s.modified k;
  file = t.file ∙ s.file;
}

-- The pool after a frame is unpinned.
abbrev let_down : BufferManager → ℕ → BufferManager
let_down bm i =
    let b = bm.buffers i in
    let pins = dec16 b.pins in
    record bm {
      buffers = put_at bm.buffers i (record b { pins = pins });
      available_buffers = if pins == 0 then inc16 bm.available_buffers else bm.available_buffers;
    }

let_down-Same : (bm : BufferManager) (i : ℕ) → Same bm (let_down bm i)
let_down-Same bm i = record {
  number = λ k. ground arith;
  page = λ k. ground arith;
  modified = λ k. ground arith;
  file = refl;
}

unpin_lem : (bm : BufferManager) (i : ℕ) → bm.locked ≡ false → unpin bm i ≡ some (let_down bm i)
unfolding unpin
unpin_lem bm i free = rw free refl

unpin_all-Same :
    (bm : BufferManager) (bs : List TransactionBuffer)
    → bm.locked ≡ false
    → Framed bs
    → (bm' : BufferManager) × (unpin_all bm bs ≡ some bm') × (bm'.locked ≡ false) × Same bm bm'
unfolding unpin_all
unpin_all-Same bm [] free framed = (bm, refl, free, Same-refl bm)
unpin_all-Same bm (b ∷ bs) free ((i, frame, small), framed) = elim (Bool-cases b.is_pinned) [
  | inl held ↦
      let (b2, e2, f2, s2) = unpin_all-Same (let_down bm i) bs free framed in
      (
        b2,
        rw (held, frame, unpin_lem bm i free) e2,
        f2,
        Same-trans bm (let_down bm i) b2 (let_down-Same bm i) s2,
      )
  | inr let_go ↦
      let (b2, e2, f2, s2) = unpin_all-Same bm bs free framed in (b2, rw let_go e2, f2, s2)
]

commit_wal-Same : (bm : BufferManager) (tsx : ℕ) → Same bm (commit_wal bm tsx)
unfolding commit_wal record_commit
commit_wal-Same bm tsx = record {
  number = λ k. refl;
  page = λ k. refl;
  modified = λ k. refl;
  file = refl;
}

-- A pool before and after the commit of transaction `tsx`.
pub record Committed (bm bm' : BufferManager) (tsx : ℕ) : Type 0 where
  pub kept : Kept bm bm'
  pub clean :
      (i : ℕ)
      → i < buffer_pool_size
      → (bm.buffers i).modified_by ≡ tsx
      → (bm'.buffers i).modified_by ≡ invalid_tsx
  pub durable :
      (i k : ℕ)
      → i < buffer_pool_size
      → (bm.buffers i).page_number ≢ invalid_pnum
      → ((bm.buffers i).modified_by ≡ tsx) ⊎ ((bm.buffers i).modified_by ≡ invalid_tsx)
      → k < page_size
      → bm'.data_file.file.content ((bm.buffers i).page_number * page_size + k)
        ≡ (bm.buffers i).page k
  pub apart :
      (q : ℕ)
      → ((j : ℕ)
          → j < buffer_pool_size
          → (bm.buffers j).modified_by ≡ tsx
          → (bm.buffers j).page_number ≢ q)
      → (k : ℕ) → k < page_size
      → bm'.data_file.file.content (q * page_size + k)
        ≡ bm.data_file.file.content (q * page_size + k)

Committed-intro :
    (bm unpinned flushed bm' : BufferManager) (tsx : ℕ)
    → Coherent bm
    → Same bm unpinned
    → Written unpinned flushed tsx 0 buffer_pool_size
    → Same flushed bm'
    → Committed bm bm' tsx
Committed-intro bm unpinned flushed bm' tsx c s w t = record {
  kept =
      Kept-trans bm unpinned bm' (Same-Kept bm unpinned c s)
        (Kept-trans unpinned flushed bm' w.kept (Same-Kept flushed bm' w.kept.coherent t));
  clean = λ i small e. t.modified i ∙ w.cleaned i (omega arith) small (s.modified i ∙ e);
  durable = λ i k small valid own h. rw t.file (
      rw (s.number i, s.page i) at
        (Written-durable unpinned flushed tsx i k w small (λ e. valid (sym (s.number i) ∙ e))
          (rw (s.modified i) own) h));
  apart = λ q out k h. rw t.file (
      rw s.file at
        (w.apart q (λ j hj m e. out j hj (sym (s.modified j) ∙ m) (sym (s.number j) ∙ e)) k h));
}

-- With a coherent pool and its mutex free, a frame for every page of the transaction, the lock table's
-- mutex free, no two entries for one page, and the transaction's locks held and listed once: commit
-- returns, and each of its pages has a holder less; what is read through the pool stays, the frames
-- that the transaction modified are clean, the pages of those frames and of the clean ones are in the
-- data file byte by byte, and in the file no other page changes.
pub commit-Committed :
    (ctx : TransactionContext) (tsx : Transaction)
    → Coherent ctx.bmgr
    → ctx.bmgr.locked ≡ false
    → Framed tsx.buffers
    → ctx.locks.locked ≡ false
    → Distinct ctx.locks
    → Holds ctx.locks tsx.locks
    → (ctx' : TransactionContext) × (commit (ctx, tsx) ≡ some ctx')
      × Committed ctx.bmgr ctx'.bmgr tsx.id
      × ((p : ℕ) → Within p tsx.locks → count ctx'.locks p ≡ less (count ctx.locks p))
unfolding commit
commit-Committed ctx tsx c free framed lock_free d h =
    let (unpinned, e1, f1, s1) = unpin_all-Same ctx.bmgr tsx.buffers free framed in
    let (flushed, e2, w) =
      flush_buffers-Written unpinned tsx.id (Same-Kept ctx.bmgr unpinned c s1).coherent f1 in
    let (lt, e3, _, given, _) = release_locks_lem ctx.locks tsx.locks lock_free d h in
    (
      record ctx { bmgr = commit_wal flushed tsx.id; locks = lt },
      rw (e1, e2, e3) refl,
      Committed-intro ctx.bmgr unpinned flushed _ tsx.id c s1 w (commit_wal-Same flushed tsx.id),
      given,
    )
