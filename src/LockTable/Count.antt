-- ===== src/LockTable/Count.antt =====
-- The counter that the lock table keeps for a page.
use npsql.Base.{
  ℕ, ◌<◌, ◌≡◌, ◌≢◌, ◌∙◌, sym, ap, inl, inr, ◌⊎◌, Option-cases, none, some, ◌==◌, arith,
  find_from-some, find_from-none,
}
use npsql.Base.Int.{ℤ, pos}
use npsql.LockTable.{DbLock, LockTable, invalid_pnum, find_existing_lock}

-- The counter of a page, 0 where the table has no entry.
abbrev pub count : LockTable → ℕ → ℤ
count lt p = elim (find_existing_lock lt p) [ none ↦ pos 0 | some i ↦ (lt.locks i).read_count ]

-- No two entries are for one page.
abbrev pub Distinct : LockTable → Type 0
Distinct lt =
    (i j : ℕ)
    → i < lt.size
    → j < lt.size
    → (lt.locks i).pnum ≡ (lt.locks j).pnum
    → (lt.locks i).pnum ≢ invalid_pnum
    → i ≡ j

pub find_existing_lock-some :
    (lt : LockTable) (p i : ℕ)
    → find_existing_lock lt p ≡ some i
    → (i < lt.size) × ((lt.locks i).pnum ≡ p)
unfolding find_existing_lock
find_existing_lock-some lt p i h =
    ground (arith, find_from-some (λ (l : DbLock). l.pnum == p) lt.locks 0 lt.size i h)

pub find_existing_lock-none :
    (lt : LockTable) (p : ℕ)
    → find_existing_lock lt p ≡ none
    → (i : ℕ) → i < lt.size
    → (lt.locks i).pnum ≢ p
unfolding find_existing_lock
find_existing_lock-none lt p h i small = ground (
  arith,
  find_from-none (λ (l : DbLock). l.pnum == p) lt.locks 0 lt.size h i (omega arith) (omega arith),
)

find_existing_lock-holder :
    (lt : LockTable) (p i : ℕ)
    → Distinct lt
    → i < lt.size
    → (lt.locks i).pnum ≡ p
    → p ≢ invalid_pnum
    → find_existing_lock lt p ≡ some i
find_existing_lock-holder lt p i d small e valid = elim (Option-cases (find_existing_lock lt p)) [
  | inl absent ↦ absurd (find_existing_lock-none lt p absent i small e)
  | inr (j, found) ↦ found ∙ ap some (same j found)
]
  where
    same : (j : ℕ) → find_existing_lock lt p ≡ some j → j ≡ i
    same j found =
        d j i (find_existing_lock-some lt p j found).0 small
          ((find_existing_lock-some lt p j found).1 ∙ sym e)
          (λ q. valid (sym (find_existing_lock-some lt p j found).1 ∙ q))

pub count-holder :
    (lt : LockTable) (p i : ℕ)
    → Distinct lt
    → i < lt.size
    → (lt.locks i).pnum ≡ p
    → p ≢ invalid_pnum
    → count lt p ≡ (lt.locks i).read_count
count-holder lt p i d small e valid = rw (find_existing_lock-holder lt p i d small e valid, count)

pub count-absent :
    (lt : LockTable) (p : ℕ) → ((i : ℕ) → i < lt.size → (lt.locks i).pnum ≢ p) → count lt p ≡ pos 0
count-absent lt p absent = elim (Option-cases (find_existing_lock lt p)) [
  | inl e ↦ rw (e, count)
  | inr (i, e) ↦
      absurd (absent i (find_existing_lock-some lt p i e).0 (find_existing_lock-some lt p i e).1)
]

pub holder-cases :
    (lt : LockTable) (p : ℕ)
    → ((i : ℕ) × (i < lt.size) × ((lt.locks i).pnum ≡ p))
      ⊎ ((i : ℕ) → i < lt.size → (lt.locks i).pnum ≢ p)
holder-cases lt p = elim (Option-cases (find_existing_lock lt p)) [
  | inl e ↦ inr (find_existing_lock-none lt p e)
  | inr (i, e) ↦ inl (i, (find_existing_lock-some lt p i e).0, (find_existing_lock-some lt p i e).1)
]
