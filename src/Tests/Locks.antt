-- ===== src/Tests/Locks.antt =====
-- server/src/lock_table.c and transaction.c: a new table, and tables with readers and writers on pages
-- 5 and 6.
use npsql.Transaction.Release.{Holds}
use npsql.Base.{
  inl, inr, [], ◌∷◌, if◌then◌else◌, ◌==◌, [], ◌+◌, ℕ, ◌≡◌, ◌≢◌, refl, arith, some, true, false,
  find_from, put_at, ◌⊎◌,
}
use npsql.Base.Int.{pos, negsuc, ◌-ℤ◌}
use npsql.LogFile.{File}
use npsql.BufferManager.{buffer_manager_initialize}
use npsql.Transaction.{Working, get_lock, lock_already_taken}
use npsql.Transaction.Locks.{get_lock-no_upgrade}
use npsql.LockTable.{
  DbLock, LockTable, invalid_pnum, create_lock_table, find_existing_lock, entry, add_rw_lock,
  set_count, xlock,
}
use npsql.LockTable.Count.{count, Distinct}
use npsql.LockTable.System.{System, write, Reach, here, next}
use npsql.LockTable.Exclusion.{start, Reach-exclusive}

-- What malloc returned.
abbrev heap : ℕ → DbLock
heap i = record { read_count = pos i; pnum = i }

-- Two readers on page 5.
abbrev shared : LockTable
shared = record { size = 1; locks = λ _. record { read_count = pos 2; pnum = 5 }; locked = false }

five-valid : 5 ≢ invalid_pnum
five-valid e = absurd (omega arith)

shared-Distinct : Distinct shared
shared-Distinct i j hi hj _ _ = omega arith

shared-count : count shared 5 ≡ pos 2
unfolding find_existing_lock find_from
shared-count = refl

-- Two readers on page 5 and a writer on page 6.
abbrev pub both : LockTable
both = record {
  size = 2;
  locks = λ i.
      if i == 0
      then record { read_count = pos 2; pnum = 5 }
      else record { read_count = negsuc 0; pnum = 6 };
  locked = false;
}

pub both-Distinct : Distinct both
both-Distinct i j hi hj e v = ground arith

pub both-Holds : Holds both (5 ∷ 6 ∷ [])
unfolding find_existing_lock find_from
both-Holds = (
  five-valid,
  tt,
  (λ w. elim w [ inl e ↦ absurd (omega arith) | inr x ↦ x ]),
  (omega arith, tt, (λ w. w), tt),
)

-- A transaction locks page 5 of a new table exclusively.
abbrev locked_5 : LockTable
locked_5 = set_count (add_rw_lock (create_lock_table heap) 5) 0 (negsuc 0)

xlock-5 : xlock (create_lock_table heap) 5 ≡ some (true, locked_5)
unfolding xlock entry find_existing_lock find_from create_lock_table add_rw_lock ◌-ℤ◌
xlock-5 = refl

abbrev one_writer : System
one_writer = record { table = locked_5; readers = λ _. 0; writers = put_at (λ _. 0) 5 1 }

reached : Reach (start heap) one_writer
reached = next here (write 5 locked_5 five-valid xlock-5)

Reach-exclusive_example :
    ((one_writer.writers 5 ≡ 0) ⊎ ((one_writer.writers 5 ≡ 1) × (one_writer.readers 5 ≡ 0)))
    × (one_writer.table.locked ≡ false)
Reach-exclusive_example = Reach-exclusive heap 5 reached five-valid

-- A transaction on the table where page 5 has two readers, over an empty pool.
abbrev zeros : ℕ → ℕ
zeros _ = 0

abbrev no_file : File
no_file = record { size = 0; content = zeros }

abbrev working : Working
working = (
  record {
    bmgr =
        buffer_manager_initialize (record { file = no_file; page_count = 0 })
          (record {
            file = no_file;
            current_page_number = 0;
            current_page_position = 2;
            current_page = zeros;
          })
          zeros;
    locks = shared;
    next = 2;
  },
  record { id = 1; buffers = []; locks = [] },
)

get_lock-no_upgrade_example :
    (w' : Working) × (get_lock working 5 true ≡ some (true, w'))
    × (get_lock w' 5 false ≡ some (true, w'))
    × (count w'.0.locks 5 ≡ pos (2 + 1))
unfolding lock_already_taken
get_lock-no_upgrade_example =
    get_lock-no_upgrade working 5 2 refl shared-Distinct five-valid refl shared-count
