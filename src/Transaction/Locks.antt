-- ===== src/Transaction/Locks.antt =====
-- A transaction and the lock of one page.
use npsql.Base.{ℕ, ◌+◌, ◌≡◌, ◌≢◌, refl, true, false, some, List, [], ◌∷◌, ◌++◌, ==_iff, arith}
use npsql.Base.Int.{pos}
use npsql.LockTable.{invalid_pnum}
use npsql.LockTable.Count.{count, Distinct}
use npsql.LockTable.Laws.{slock_lem}
use npsql.Transaction.{Working, lock_already_taken, get_lock}

lock_already_taken-append : (ls : List ℕ) (p : ℕ) → lock_already_taken (ls ++ (p ∷ [])) p ≡ true
unfolding lock_already_taken
lock_already_taken-append [] p = rw ((==_iff p p).1 refl)
lock_already_taken-append (l ∷ ls) p = ground (arith, lock_already_taken-append ls p)

-- A page that a transaction reads and then updates, where no writer holds it: the read takes a shared
-- lock beside the n there are, and the update is let through with the page still locked shared by all
-- of them.
pub get_lock-no_upgrade :
    (w : Working) (p n : ℕ)
    → w.0.locks.locked ≡ false
    → Distinct w.0.locks
    → p ≢ invalid_pnum
    → lock_already_taken w.1.locks p ≡ false
    → count w.0.locks p ≡ pos n
    → (w' : Working) × (get_lock w p true ≡ some (true, w'))
      × (get_lock w' p false ≡ some (true, w'))
      × (count w'.0.locks p ≡ pos (n + 1))
unfolding get_lock
get_lock-no_upgrade w p n free d valid new readers =
    let (lt, e, c) = slock_lem w.0.locks p free d valid (pos n) readers in
    (
      (record w.0 { locks = lt }, record w.1 { locks = w.1.locks ++ (p ∷ []) }),
      rw (new, e),
      rw (lock_already_taken-append w.1.locks p),
      c.own,
    )
