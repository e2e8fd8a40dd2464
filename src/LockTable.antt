-- ===== src/LockTable.antt =====
-- server/src/lock_table.c: shared and exclusive page locks in a growing vector of counters. A call
-- that loops on `try_again` is one attempt here: the caller repeats it. Results of a call: `none`
-- waits for ever on the mutex, which `release` of an unknown page returns with.
pub mod Count
pub mod Change
pub mod Laws
pub mod System
pub mod Exclusion
use npsql.Base.{
  ℕ, suc, ◌+◌, ◌-◌, ◌^◌, Bool, true, false, Option, none, some, ◌==◌, if◌then◌else◌, find_from,
  put_at,
}
use npsql.Base.Int.{ℤ, pos, negsuc, ◌+ℤ◌, ◌-ℤ◌, ltb_ℤ, eq_ℤ}

abbrev pub invalid_pnum : ℕ
invalid_pnum = 2 ^ 64 - 1

-- `read_count` is above 0 for readers and -1 for a writer. It is an int32_t, and a number without bound
-- here: it counts the transactions that hold the page, of which each of the server's ten sessions has one,
-- so it does not overflow.
pub record DbLock : Type 0 where
  pub read_count : ℤ
  pub pnum : ℕ

pub record LockTable : Type 0 where
  pub size : ℕ
  pub locks : ℕ → DbLock
  pub locked : Bool

unfoldable pub create_lock_table : (ℕ → DbLock) → LockTable
create_lock_table heap = record { size = 0; locks = heap; locked = false }

unfoldable pub find_existing_lock : LockTable → ℕ → Option ℕ
find_existing_lock lt pnum = find_from (λ l. l.pnum == pnum) lt.locks 0 lt.size

unfoldable pub add_rw_lock : LockTable → ℕ → LockTable
add_rw_lock lt pnum = record lt {
  locks = put_at lt.locks lt.size (record { read_count = pos 0; pnum = pnum });
  size = suc lt.size;
}

-- `find_existing_lock`, and `add_rw_lock` where it finds none.
unfoldable pub entry : LockTable → ℕ → ℕ × LockTable
entry lt pnum = elim (find_existing_lock lt pnum) [
  | some i ↦ (i, lt)
  | none ↦ (lt.size, add_rw_lock lt pnum)
]

abbrev pub set_count : LockTable → ℕ → ℤ → LockTable
set_count lt i c = record lt { locks = put_at lt.locks i (record (lt.locks i) { read_count = c }) }

unfoldable pub slock : LockTable → ℕ → Option (Bool × LockTable)
slock lt pnum =
    let (i, lt') = entry lt pnum in
    let c = (lt'.locks i).read_count in
    if lt.locked
    then none
    else some (if ltb_ℤ c (pos 0) then (false, lt') else (true, set_count lt' i (c +ℤ pos 1)))

unfoldable pub xlock : LockTable → ℕ → Option (Bool × LockTable)
xlock lt pnum =
    let (i, lt') = entry lt pnum in
    let c = (lt'.locks i).read_count in
    if lt.locked
    then none
    else some (if eq_ℤ c (pos 0) then (true, set_count lt' i (c -ℤ pos 1)) else (false, lt'))

-- The writer's entry is given up: it keeps its place in the vector under no page's number.
unfoldable pub release_entry : LockTable → ℕ → LockTable
release_entry lt i =
    let l = lt.locks i in
    if ltb_ℤ (pos 0) l.read_count then set_count lt i (l.read_count -ℤ pos 1) else record lt {
      locks =
          put_at lt.locks i (record { read_count = l.read_count +ℤ pos 1; pnum = invalid_pnum });
    }

unfoldable pub release : LockTable → ℕ → Option LockTable
release lt pnum =
    if lt.locked
    then none
    else some (elim (find_existing_lock lt pnum) [
      | none ↦ record lt { locked = true }
      | some i ↦ release_entry lt i
    ])
