-- ===== src/LockTable/Laws.antt =====
-- What each operation of lock_table.c does to the counters.
use npsql.Base.{
  ℕ, zero, suc, ◌+◌, ◌<◌, ◌≡◌, ◌≢◌, ◌∙◌, refl, sym, ap, Bool, true, false, inl, inr, ◌⊎◌, Option,
  Option-cases, none, some, if-false, arith, put_at, put_at_self, put_at-ne,
}
use npsql.Base.Int.{ℤ, pos, negsuc, ◌+ℤ◌, ◌-ℤ◌, ltb_ℤ, eq_ℤ}
use npsql.LockTable.{
  DbLock, LockTable, invalid_pnum, find_existing_lock, entry, set_count, slock, xlock,
  release_entry, release,
}
use npsql.LockTable.Count.{count, Distinct, find_existing_lock-some, count-absent}
use npsql.LockTable.Change.{
  Change, Change-Distinct, Change-count_other, number_of, Counts, set_count-Counts, Entry,
  entry-Entry,
}

-- Working on the entry found gives the counts of the table before.
Counts-trans :
    (a b c : LockTable) (p : ℕ) (m n : ℤ) → Counts a b p m → Counts b c p n → Counts a c p n
Counts-trans a b c p m n k l = record {
  distinct = l.distinct;
  own = l.own;
  other = λ q valid ne. l.other q valid ne ∙ k.other q valid ne;
  mutex = l.mutex ∙ k.mutex;
}

entry-Counts :
    (lt : LockTable) (p : ℕ) (n : ℤ)
    → Distinct lt
    → p ≢ invalid_pnum
    → Counts lt (set_count (entry lt p).1 (entry lt p).0 n) p n
entry-Counts lt p n d valid = Counts-trans lt (entry lt p).1 _ p (count lt p) n e.counts (
    set_count-Counts (entry lt p).1 p (entry lt p).0 n e.counts.distinct valid e.in_table
      e.for_page)
  where
    e : Entry lt (entry lt p).1 p (entry lt p).0
    e = entry-Entry lt p d valid

suc_ℤ : (n : ℕ) → pos n +ℤ pos 1 ≡ pos (n + 1)
unfolding ◌+ℤ◌
suc_ℤ n = ground arith

pred_zero : pos 0 -ℤ pos 1 ≡ negsuc 0
unfolding ◌-ℤ◌
pred_zero = refl

pred_ℤ : (n : ℕ) → pos (suc n) -ℤ pos 1 ≡ pos n
unfolding ◌-ℤ◌
pred_ℤ n = ground arith

has_reader : (n : ℕ) → ltb_ℤ (pos 0) (pos (suc n)) ≡ true
has_reader n = ground arith

no_reader_zero : ltb_ℤ (pos 0) (pos 0) ≡ false
no_reader_zero = refl

no_reader : (n : ℕ) → ltb_ℤ (pos 0) (negsuc n) ≡ false
no_reader n = ground arith

no_writer : (n : ℕ) → ltb_ℤ (pos n) (pos 0) ≡ false
no_writer n = ground arith

writer : (n : ℕ) → ltb_ℤ (negsuc n) (pos 0) ≡ true
writer n = ground arith

readers : (n : ℕ) → eq_ℤ (pos (suc n)) (pos 0) ≡ false
readers n = ground arith

-- The entry of a page that nobody reads is given up, and the page has none left.
release_entry-gone :
    (lt : LockTable) (p i : ℕ)
    → Distinct lt
    → p ≢ invalid_pnum
    → i < lt.size
    → (lt.locks i).pnum ≡ p
    → ltb_ℤ (pos 0) (lt.locks i).read_count ≡ false
    → Counts lt (release_entry lt i) p (pos 0)
unfolding release_entry
release_entry-gone lt p i d valid h e unread = rw unread (record {
  distinct = Change-Distinct lt gone i l d change alone;
  own = count-absent gone p absent;
  other = λ q valid' ne.
      Change-count_other lt gone i l d change alone q valid' (λ z. valid' (sym z))
        (λ _ z. ne (sym z ∙ e));
  mutex = refl;
})
  where
    l : DbLock
    l = record { read_count = (lt.locks i).read_count +ℤ pos 1; pnum = invalid_pnum }

    gone : LockTable
    gone = record lt { locks = put_at lt.locks i l }

    change : Change lt gone i l
    change = record {
      in_table = h;
      grown = omega arith;
      old = λ k h' _. h';
      other = λ k ne. put_at-ne lt.locks i l k ne;
      own = put_at_self lt.locks i l;
    }

    alone :
        (k : ℕ)
        → k < lt.size
        → k ≢ i
        → (lt.locks k).pnum ≡ invalid_pnum
        → invalid_pnum ≡ invalid_pnum
    alone k _ _ _ = refl

    absent : (k : ℕ) → k < lt.size → (gone.locks k).pnum ≢ p
    absent k h' z = elim (number_of lt gone i l d change alone k h') [
      | inl (_, n) ↦ valid (sym z ∙ n)
      | inr (ne, _, n) ↦ ne (d k i h' h (sym n ∙ z ∙ sym e) (λ q. valid (sym z ∙ n ∙ q)))
    ]

release_entry-read :
    (lt : LockTable) (p i n : ℕ)
    → Distinct lt
    → p ≢ invalid_pnum
    → i < lt.size
    → (lt.locks i).pnum ≡ p
    → (lt.locks i).read_count ≡ pos (suc n)
    → Counts lt (release_entry lt i) p (pos n)
unfolding release_entry
release_entry-read lt p i n d valid h e reads =
    rw (reads, has_reader n, pred_ℤ n) (set_count-Counts lt p i (pos n) d valid h e)

-- An attempt at a page with counter `c` ends in a table and says whether it was granted.
abbrev pub Attempt : LockTable → ℕ → Option (Bool × LockTable) → Bool → ℤ → Type 0
Attempt lt p r granted n = (lt' : LockTable) × (r ≡ some (granted, lt')) × Counts lt lt' p n

-- Readers are let in beside readers, and wait for a writer.
abbrev pub Slocked : LockTable → ℕ → ℤ → Type 0
Slocked lt p (pos n) = Attempt lt p (slock lt p) true (pos (n + 1))
Slocked lt p (negsuc n) = Attempt lt p (slock lt p) false (negsuc n)

-- A writer is let in only where nobody holds the page.
abbrev pub Xlocked : LockTable → ℕ → ℤ → Type 0
Xlocked lt p (pos zero) = Attempt lt p (xlock lt p) true (negsuc 0)
Xlocked lt p (pos (suc n)) = Attempt lt p (xlock lt p) false (pos (suc n))
Xlocked lt p (negsuc n) = Attempt lt p (xlock lt p) false (negsuc n)

module _ (lt : LockTable) (p : ℕ) (free : lt.locked ≡ false) (d : Distinct lt)
    (valid : p ≢ invalid_pnum) where
  reads : ((entry lt p).1.locks (entry lt p).0).read_count ≡ count lt p
  reads = (entry-Entry lt p d valid).reads

  same : Counts lt (entry lt p).1 p (count lt p)
  same = (entry-Entry lt p d valid).counts

  -- With the mutex free, a valid page number and no two entries for one page, an attempt of `slock`:
  -- with no writer on the page it is granted and counts one more reader, with one it is refused and
  -- counts nothing; no other page's counter changes.
  pub slock_lem : (c : ℤ) → count lt p ≡ c → Slocked lt p c
  unfolding slock
  slock_lem (pos n) e = (
    set_count (entry lt p).1 (entry lt p).0 (pos (n + 1)),
    if-false _ _ free ∙ rw (reads ∙ e, no_writer n, suc_ℤ n),
    entry-Counts lt p (pos (n + 1)) d valid,
  )
  slock_lem (negsuc n) e =
      ((entry lt p).1, if-false _ _ free ∙ rw (reads ∙ e, writer n), rw e at same)

  -- With the mutex free, a valid page number and no two entries for one page, an attempt of `xlock`:
  -- with nobody on the page it is granted and counts the writer, else it is refused and counts
  -- nothing; no other page's counter changes.
  pub xlock_lem : (c : ℤ) → count lt p ≡ c → Xlocked lt p c
  unfolding xlock
  xlock_lem (pos zero) e = (
    set_count (entry lt p).1 (entry lt p).0 (negsuc 0),
    if-false _ _ free ∙ rw (reads ∙ e, pred_zero),
    entry-Counts lt p (negsuc 0) d valid,
  )
  xlock_lem (pos (suc n)) e =
      ((entry lt p).1, if-false _ _ free ∙ rw (reads ∙ e, readers n), rw e at same)
  xlock_lem (negsuc n) e = ((entry lt p).1, if-false _ _ free ∙ rw (reads ∙ e), rw e at same)

-- A holder gives the page back; where nobody holds it, the entry goes, or with no entry the call
-- returns with the mutex held.
abbrev pub Released : LockTable → ℕ → ℤ → Type 0
Released lt p (pos (suc n)) =
    (lt' : LockTable) × (release lt p ≡ some lt') × Counts lt lt' p (pos n)
Released lt p (negsuc n) = (lt' : LockTable) × (release lt p ≡ some lt') × Counts lt lt' p (pos 0)
Released lt p (pos zero) =
    (lt' : LockTable) × (release lt p ≡ some lt')
    × (Counts lt lt' p (pos 0) ⊎ (lt' ≡ record lt { locked = true }))

module _ (lt : LockTable) (p : ℕ) (free : lt.locked ≡ false) (d : Distinct lt)
    (valid : p ≢ invalid_pnum) where
  release-found :
      (i : ℕ) → find_existing_lock lt p ≡ some i → release lt p ≡ some (release_entry lt i)
  unfolding release
  release-found i e = if-false _ _ free ∙ rw e

  release-missing :
      find_existing_lock lt p ≡ none → release lt p ≡ some (record lt { locked = true })
  unfolding release
  release-missing e = if-false _ _ free ∙ rw e

  no_entry : find_existing_lock lt p ≡ none → count lt p ≡ pos 0
  no_entry missing = rw (missing, count)

  read_of : (i : ℕ) → find_existing_lock lt p ≡ some i → count lt p ≡ (lt.locks i).read_count
  read_of i found = rw (found, count)

  some_entry :
      (c : ℤ)
      → count lt p ≡ c
      → c ≢ pos 0
      → (i : ℕ) × (release lt p ≡ some (release_entry lt i))
        × (i < lt.size)
        × ((lt.locks i).pnum ≡ p)
        × ((lt.locks i).read_count ≡ c)
  some_entry c e held = elim (Option-cases (find_existing_lock lt p)) [
    | inl missing ↦ absurd (held (sym e ∙ no_entry missing))
    | inr (i, found) ↦ (
      i,
      release-found i found,
      (find_existing_lock-some lt p i found).0,
      (find_existing_lock-some lt p i found).1,
      sym (read_of i found) ∙ e,
    )
  ]

  -- With the mutex free, a valid page number and no two entries for one page, `release` takes one
  -- reader or the writer off the page and changes no other page's counter; with nobody on the page its
  -- counter stays 0, or the call returns with the mutex held.
  pub release_lem : (c : ℤ) → count lt p ≡ c → Released lt p c
  release_lem (pos zero) e = elim (Option-cases (find_existing_lock lt p)) [
    | inl missing ↦ (record lt { locked = true }, release-missing missing, inr refl)
    | inr (i, found) ↦ (
      release_entry lt i,
      release-found i found,
      inl (
          release_entry-gone lt p i d valid (find_existing_lock-some lt p i found).0
            (find_existing_lock-some lt p i found).1
            (ap (ltb_ℤ (pos 0)) (sym (read_of i found) ∙ e) ∙ no_reader_zero)),
    )
  ]
  release_lem (pos (suc n)) e =
      let (i, done, h, at, reads) = some_entry (pos (suc n)) e cc in
      (release_entry lt i, done, release_entry-read lt p i n d valid h at reads)
  release_lem (negsuc n) e =
      let (i, done, h, at, reads) = some_entry (negsuc n) e cc in
      (
        release_entry lt i,
        done,
        release_entry-gone lt p i d valid h at (ap (ltb_ℤ (pos 0)) reads ∙ no_reader n),
      )
