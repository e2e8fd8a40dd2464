-- ===== src/LockTable/System.antt =====
-- The lock table with its holders: each kind of step keeps the counters true to the holders.
use npsql.Base.{
  ℕ, zero, suc, ◌+◌, ◌≡◌, ◌≢◌, ◌∙◌, fun_ext, Bool, true, false, Option, some, arith, ℕ_discrete,
  put_at, put_at_self, put_at-ne,
}
use npsql.Base.Int.{ℤ, pos, negsuc}
use npsql.LockTable.{LockTable, invalid_pnum, slock, xlock, release}
use npsql.LockTable.Count.{count, Distinct}
use npsql.LockTable.Change.{Counts}
use npsql.LockTable.Laws.{Attempt, slock_lem, xlock_lem, release_lem}

-- The table, and for each page how many transactions hold it shared and how many exclusive.
pub record System : Type 0 where
  pub table : LockTable
  pub readers : ℕ → ℕ
  pub writers : ℕ → ℕ

pub data Step (s : System) : System → Type 0 where
  read :
      (p : ℕ) (lt : LockTable)
      → p ≢ invalid_pnum
      → slock s.table p ≡ some (true, lt)
      → Step s (record s { table = lt; readers = put_at s.readers p (suc (s.readers p)) })
  read_refused :
      (p : ℕ) (lt : LockTable)
      → p ≢ invalid_pnum
      → slock s.table p ≡ some (false, lt)
      → Step s (record s { table = lt })
  write :
      (p : ℕ) (lt : LockTable)
      → p ≢ invalid_pnum
      → xlock s.table p ≡ some (true, lt)
      → Step s (record s { table = lt; writers = put_at s.writers p (suc (s.writers p)) })
  write_refused :
      (p : ℕ) (lt : LockTable)
      → p ≢ invalid_pnum
      → xlock s.table p ≡ some (false, lt)
      → Step s (record s { table = lt })
  read_done :
      (p n : ℕ) (lt : LockTable)
      → p ≢ invalid_pnum
      → s.readers p ≡ suc n
      → release s.table p ≡ some lt
      → Step s (record s { table = lt; readers = put_at s.readers p n })
  write_done :
      (p n : ℕ) (lt : LockTable)
      → p ≢ invalid_pnum
      → s.writers p ≡ suc n
      → release s.table p ≡ some lt
      → Step s (record s { table = lt; writers = put_at s.writers p n })

pub data Reach (s : System) : System → Type 0 where
  here : Reach s s
  next : {t u : System} → Reach s t → Step t u → Reach s u

-- What the counter says of the holders of a page.
abbrev pub Agrees : ℤ → ℕ → ℕ → Type 0
Agrees (pos n) r w = (r ≡ n) × (w ≡ 0)
Agrees (negsuc zero) r w = (r ≡ 0) × (w ≡ 1)
Agrees (negsuc (suc n)) r w = ⊥

pub record Inv (s : System) : Type 0 where
  pub free : s.table.locked ≡ false
  pub distinct : Distinct s.table
  pub agrees : (p : ℕ) → p ≢ invalid_pnum → Agrees (count s.table p) (s.readers p) (s.writers p)

-- One page changes to counter `n` with `r` readers and `w` writers.
Inv-change :
    (s : System) (lt : LockTable) (p r w : ℕ) (n : ℤ)
    → Inv s
    → Counts s.table lt p n
    → Agrees n r w
    → Inv (record { table = lt; readers = put_at s.readers p r; writers = put_at s.writers p w })
Inv-change s lt p r w n v c a = record {
  free = c.mutex ∙ v.free;
  distinct = c.distinct;
  agrees = λ q valid. elim (ℕ_discrete q p) [
    | yes e ↦ rw (e, put_at_self s.readers p r, put_at_self s.writers p w, c.own) a
    | no ne ↦
        rw (put_at-ne s.readers p r q ne, put_at-ne s.writers p w q ne, c.other q valid ne)
          (v.agrees q valid)
  ];
}

put_at-same : (a : ℕ → ℕ) (p : ℕ) → put_at a p (a p) ≡ a
put_at-same a p = fun_ext λ k. ground arith

-- An attempt has one result.
Attempt-result :
    (lt lt' : LockTable) (p : ℕ) (r : Option (Bool × LockTable)) (g g' : Bool) (n : ℤ)
    → Attempt lt p r g n
    → r ≡ some (g', lt')
    → (g ≡ g') × Counts lt lt' p n
Attempt-result lt lt' p r g g' n (lt'', e, c) e' = (same_answer, rw same_table at c)
  where
    same_answer : g ≡ g'
    same_answer = cc

    same_table : lt'' ≡ lt'
    same_table = cc

module _ (s : System) (v : Inv s) (p : ℕ) (valid : p ≢ invalid_pnum) (lt : LockTable) where
  pub read_granted :
      (c : ℤ)
      → count s.table p ≡ c
      → Agrees c (s.readers p) (s.writers p)
      → slock s.table p ≡ some (true, lt)
      → Inv (record s { table = lt; readers = put_at s.readers p (suc (s.readers p)) })
  read_granted (pos n) e a done = rw (put_at-same s.writers p) at (
      Inv-change s lt p (suc (s.readers p)) (s.writers p) (pos (n + 1)) v
        (Attempt-result s.table lt p _ true true _
          (slock_lem s.table p v.free v.distinct valid (pos n) e) done).1
        (omega arith))
  read_granted (negsuc n) e a done =
      cc
        (Attempt-result s.table lt p _ false true _
          (slock_lem s.table p v.free v.distinct valid (negsuc n) e) done).0

  pub read_waits :
      (c : ℤ)
      → count s.table p ≡ c
      → Agrees c (s.readers p) (s.writers p)
      → slock s.table p ≡ some (false, lt)
      → Inv (record s { table = lt })
  read_waits (pos n) e a done =
      cc
        (Attempt-result s.table lt p _ true false _
          (slock_lem s.table p v.free v.distinct valid (pos n) e) done).0
  read_waits (negsuc n) e a done =
      rw (put_at-same s.readers p, put_at-same s.writers p) at
        (Inv-change s lt p (s.readers p) (s.writers p) (negsuc n) v
          (Attempt-result s.table lt p _ false false _
            (slock_lem s.table p v.free v.distinct valid (negsuc n) e) done).1
          a)

  pub write_granted :
      (c : ℤ)
      → count s.table p ≡ c
      → Agrees c (s.readers p) (s.writers p)
      → xlock s.table p ≡ some (true, lt)
      → Inv (record s { table = lt; writers = put_at s.writers p (suc (s.writers p)) })
  write_granted (pos zero) e a done = rw (put_at-same s.readers p) at (
      Inv-change s lt p (s.readers p) (suc (s.writers p)) (negsuc 0) v
        (Attempt-result s.table lt p _ true true _
          (xlock_lem s.table p v.free v.distinct valid (pos zero) e) done).1
        (omega arith))
  write_granted (pos (suc n)) e a done =
      cc
        (Attempt-result s.table lt p _ false true _
          (xlock_lem s.table p v.free v.distinct valid (pos (suc n)) e) done).0
  write_granted (negsuc n) e a done =
      cc
        (Attempt-result s.table lt p _ false true _
          (xlock_lem s.table p v.free v.distinct valid (negsuc n) e) done).0

  pub write_waits :
      (c : ℤ)
      → count s.table p ≡ c
      → Agrees c (s.readers p) (s.writers p)
      → xlock s.table p ≡ some (false, lt)
      → Inv (record s { table = lt })
  write_waits (pos zero) e a done =
      cc
        (Attempt-result s.table lt p _ true false _
          (xlock_lem s.table p v.free v.distinct valid (pos zero) e) done).0
  write_waits (pos (suc n)) e a done =
      rw (put_at-same s.readers p, put_at-same s.writers p) at
        (Inv-change s lt p (s.readers p) (s.writers p) (pos (suc n)) v
          (Attempt-result s.table lt p _ false false _
            (xlock_lem s.table p v.free v.distinct valid (pos (suc n)) e) done).1
          a)
  write_waits (negsuc n) e a done =
      rw (put_at-same s.readers p, put_at-same s.writers p) at
        (Inv-change s lt p (s.readers p) (s.writers p) (negsuc n) v
          (Attempt-result s.table lt p _ false false _
            (xlock_lem s.table p v.free v.distinct valid (negsuc n) e) done).1
          a)

  released :
      (r w : ℕ) (n : ℤ)
      → (lt' : LockTable) × (release s.table p ≡ some lt') × Counts s.table lt' p n
      → release s.table p ≡ some lt
      → Agrees n r w
      → Inv (record { table = lt; readers = put_at s.readers p r; writers = put_at s.writers p w })
  released r w n (lt', e, c) e' a = Inv-change s lt p r w n v (rw same_table at c) a
    where
      same_table : lt' ≡ lt
      same_table = cc

  pub read_given_back :
      (c : ℤ) (n : ℕ)
      → count s.table p ≡ c
      → Agrees c (s.readers p) (s.writers p)
      → s.readers p ≡ suc n
      → release s.table p ≡ some lt
      → Inv (record s { table = lt; readers = put_at s.readers p n })
  read_given_back (pos zero) n e a held done = absurd (omega arith)
  read_given_back (pos (suc m)) n e a held done = rw (put_at-same s.writers p) at (
      released n (s.writers p) (pos m)
        (release_lem s.table p v.free v.distinct valid (pos (suc m)) e) done (omega arith))
  read_given_back (negsuc zero) n e a held done = absurd (omega arith)
  read_given_back (negsuc (suc m)) n e a held done = elim a [ ]

  pub write_given_back :
      (c : ℤ) (n : ℕ)
      → count s.table p ≡ c
      → Agrees c (s.readers p) (s.writers p)
      → s.writers p ≡ suc n
      → release s.table p ≡ some lt
      → Inv (record s { table = lt; writers = put_at s.writers p n })
  write_given_back (pos m) n e a held done = absurd (omega arith)
  write_given_back (negsuc zero) n e a held done = rw (put_at-same s.readers p) at (
      released (s.readers p) n (pos 0)
        (release_lem s.table p v.free v.distinct valid (negsuc zero) e) done (omega arith))
  write_given_back (negsuc (suc m)) n e a held done = elim a [ ]
