-- ===== src/Transaction.antt =====
-- server/src/transaction.c: a transaction's locks and buffers over the lock table, the buffer manager
-- and the log. A call that waits for a lock is one attempt: `false` says that it must be repeated. A
-- `none` waits for ever on a mutex or dereferences a NULL frame.
pub mod Locks
pub mod Buffers
pub mod Shows
pub mod Access
pub mod Obtain
pub mod Release
pub mod Commit
use npsql.Base.{
  ℕ, ◌+◌, ◌%◌, ◌^◌, Mem, copy, from, Bool, true, false, Option, none, some, List, [], ◌∷◌, ◌++◌,
  ◌==◌, if◌then◌else◌,
}
use npsql.ExprEval.{◌>>=◌}
use npsql.BufferManager.{BufferManager, pin, pin_new, unpin, write_buffer, flush_buffers}
use npsql.LockTable.{LockTable, slock, xlock, release}
use npsql.Wal.{new_wal, commit_wal, wal_write, rollback_wal}

-- `buffer` is NULL where the pool had no frame.
pub record TransactionBuffer : Type 0 where
  pub buffer : Option ℕ
  pub is_pinned : Bool

pub record Transaction : Type 0 where
  pub id : ℕ
  pub buffers : List TransactionBuffer
  pub locks : List ℕ

pub record TransactionContext : Type 0 where
  pub bmgr : BufferManager
  pub locks : LockTable
  pub next : ℕ

-- A transaction at work in its context.
abbrev pub Working : Type 0
Working = TransactionContext × Transaction

unfoldable pub begin_transaction : TransactionContext → Working
begin_transaction ctx = (
  record ctx { next = (ctx.next + 1) % 2 ^ 32; bmgr = new_wal ctx.bmgr ctx.next },
  record { id = ctx.next; buffers = []; locks = [] },
)

-- The loop of `get_buffer`: the first entry whose frame holds the page.
unfoldable pub get_buffer :
    BufferManager → List TransactionBuffer → ℕ → Option (Option TransactionBuffer)
get_buffer bm [] pnum = some none
get_buffer bm (b ∷ bs) pnum =
    let rest = get_buffer bm bs pnum in
    b.buffer >>= λ i. if (bm.buffers i).page_number == pnum then some (some b) else rest

abbrev pub add_buffer : Transaction → Option ℕ → Bool → Transaction
add_buffer tsx buffer pinned = record tsx {
  buffers = tsx.buffers ++ (record { buffer = buffer; is_pinned = pinned } ∷ []);
}

unfoldable pub lock_already_taken : List ℕ → ℕ → Bool
lock_already_taken [] pnum = false
lock_already_taken (l ∷ ls) pnum = if l == pnum then true else lock_already_taken ls pnum

abbrev taken : Working → ℕ → Bool × LockTable → Bool × Working
taken (ctx, tsx) pnum (true, lt) =
    (true, (record ctx { locks = lt }, record tsx { locks = tsx.locks ++ (pnum ∷ []) }))
taken (ctx, tsx) pnum (false, lt) = (false, (record ctx { locks = lt }, tsx))

unfoldable pub get_lock : Working → ℕ → Bool → Option (Bool × Working)
get_lock w pnum is_shared =
    if lock_already_taken w.1.locks pnum
    then some (true, w)
    else (if is_shared then slock w.0.locks pnum else xlock w.0.locks pnum) >>= λ r.
        some (taken w pnum r)

-- A page that the transaction has let go of is pinned again, but its entry does not say so.
abbrev pinned_again : Working → ℕ → Option TransactionBuffer → Option Working
pinned_again (ctx, tsx) pnum (some b) =
    if b.is_pinned
    then some (ctx, tsx)
    else pin ctx.bmgr pnum >>= λ (p : Option ℕ × BufferManager).
        some (record ctx { bmgr = p.1 }, tsx)
pinned_again (ctx, tsx) pnum none = pin ctx.bmgr pnum >>= λ (p : Option ℕ × BufferManager).
    some (record ctx { bmgr = p.1 }, add_buffer tsx p.0 true)

unfoldable pub transactional_pin : Working → ℕ → Option Working
transactional_pin w pnum = get_buffer w.0.bmgr w.1.buffers pnum >>= pinned_again w pnum

-- What is read from the frame, and nothing where the page is not pinned.
abbrev read_frame : BufferManager → Mem → ℕ → ℕ → Option TransactionBuffer → Option Mem
read_frame bm dest offset size none = some dest
read_frame bm dest offset size (some b) =
    b.buffer >>= λ i. some (copy dest 0 (from (bm.buffers i).page offset) size)

-- Past the lock, the destination's bytes after the call.
unfoldable pub transactional_read : Working → ℕ → Mem → ℕ → ℕ → Option (Bool × Mem × Working)
transactional_read w pnum dest offset size = get_lock w pnum true >>= λ (r : Bool × Working).
    if r.0
    then (get_buffer r.1.0.bmgr r.1.1.buffers pnum >>= λ b.
        read_frame r.1.0.bmgr dest offset size b >>= λ m. some (true, m, r.1))
    else some (false, dest, r.1)

-- The log is given the bytes from the start of the frame, not those at the offset.
abbrev write_frame : Working → ℕ → Mem → ℕ → ℕ → Mem → Option TransactionBuffer → Option Working
write_frame w pnum src offset size stale none = some w
write_frame (ctx, tsx) pnum src offset size stale (some b) = b.buffer >>= λ i.
    (let (bm, lsn) = wal_write ctx.bmgr tsx.id pnum offset (ctx.bmgr.buffers i).page size stale in
      some (record ctx { bmgr = write_buffer bm i src offset size tsx.id lsn }, tsx))

unfoldable pub transactional_update : Working → ℕ → Mem → ℕ → ℕ → Mem → Option (Bool × Working)
transactional_update w pnum src offset size stale =
    get_lock w pnum false >>= λ (r : Bool × Working).
    if r.0
    then (get_buffer r.1.0.bmgr r.1.1.buffers pnum >>= λ b.
        write_frame r.1 pnum src offset size stale b >>= λ w'. some (true, w'))
    else some (false, r.1)

-- The page's number is read from the frame that `pin_new` gave.
unfoldable pub transactional_append : Working → Option (ℕ × Working)
transactional_append (ctx, tsx) = do
  (buffer, bm) ← pin_new ctx.bmgr
  i ← buffer
  some ((bm.buffers i).page_number, (record ctx { bmgr = bm }, add_buffer tsx buffer true))

abbrev holds : BufferManager → ℕ → Option ℕ → Bool
holds bm pnum none = false
holds bm pnum (some i) = (bm.buffers i).page_number == pnum

-- The entry that `get_buffer` points to is marked as let go of.
abbrev let_go : BufferManager → ℕ → List TransactionBuffer → List TransactionBuffer
let_go bm pnum [] = []
let_go bm pnum (b ∷ bs) =
    let rest = let_go bm pnum bs in
    if holds bm pnum b.buffer then record b { is_pinned = false } ∷ bs else b ∷ rest

abbrev unpinned : Working → ℕ → Option TransactionBuffer → Option Working
unpinned (ctx, tsx) pnum none = some (ctx, tsx)
unpinned (ctx, tsx) pnum (some b) =
    if b.is_pinned
    then (b.buffer >>= λ i. unpin ctx.bmgr i >>= λ bm.
        some (record ctx { bmgr = bm }, record tsx { buffers = let_go ctx.bmgr pnum tsx.buffers }))
    else some (ctx, tsx)

unfoldable pub transactional_unpin : Working → ℕ → Option Working
transactional_unpin w pnum = get_buffer w.0.bmgr w.1.buffers pnum >>= unpinned w pnum

-- The loop of `release_locks`.
unfoldable pub release_locks : LockTable → List ℕ → Option LockTable
release_locks lt [] = some lt
release_locks lt (p ∷ ps) = release lt p >>= λ lt'. release_locks lt' ps

-- The loop of `unpin_all`.
unfoldable pub unpin_all : BufferManager → List TransactionBuffer → Option BufferManager
unpin_all bm [] = some bm
unpin_all bm (b ∷ bs) =
    (if b.is_pinned then (b.buffer >>= λ i. unpin bm i) else some bm) >>= λ bm'. unpin_all bm' bs

unfoldable pub commit : Working → Option TransactionContext
commit (ctx, tsx) = do
  unpinned ← unpin_all ctx.bmgr tsx.buffers
  flushed ← flush_buffers unpinned tsx.id
  lt ← release_locks ctx.locks tsx.locks
  some (record ctx { bmgr = commit_wal flushed tsx.id; locks = lt })

unfoldable pub rollback : ℕ → Mem → Working → Option TransactionContext
rollback fuel stale (ctx, tsx) = do
  unpinned ← unpin_all ctx.bmgr tsx.buffers
  undone ← rollback_wal fuel unpinned stale tsx.id
  lt ← release_locks ctx.locks tsx.locks
  some (record ctx { bmgr = undone; locks = lt })
