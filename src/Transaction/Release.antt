-- ===== src/Transaction/Release.antt =====
-- The end of a transaction gives back the locks it holds.
use npsql.Base.{
  ℕ, zero, suc, ◌≡◌, ◌≢◌, ◌∙◌, ◌⊎◌, inl, inr, refl, sym, ap, subst, false, some, List, [], ◌∷◌,
}
use npsql.Base.Int.{ℤ, pos, negsuc}
use npsql.LockTable.{LockTable, invalid_pnum, release}
use npsql.LockTable.Count.{count, Distinct}
use npsql.LockTable.Change.{Counts}
use npsql.LockTable.Laws.{release_lem}
use npsql.Transaction.{release_locks}

-- The counter of a page that somebody holds, and what it is with a holder less.
abbrev pub Held : ℤ → Type 0
Held (pos zero) = ⊥
Held (pos (suc n)) = Unit {0}
Held (negsuc n) = Unit {0}

abbrev pub less : ℤ → ℤ
less (pos zero) = pos zero
less (pos (suc n)) = pos n
less (negsuc n) = pos zero

abbrev pub Within : ℕ → List ℕ → Type 0
Within p [] = ⊥
Within p (x ∷ xs) = (p ≡ x) ⊎ Within p xs

-- Pages with a number, held, each listed once.
abbrev pub Holds : LockTable → List ℕ → Type 0
Holds lt [] = Unit {0}
Holds lt (p ∷ ps) = (p ≢ invalid_pnum) × Held (count lt p) × ¬ (Within p ps) × Holds lt ps

Holds-kept :
    (lt lt1 : LockTable) (p : ℕ) (ps : List ℕ)
    → ((q : ℕ) → q ≢ invalid_pnum → q ≢ p → count lt1 q ≡ count lt q)
    → ¬ (Within p ps)
    → Holds lt ps
    → Holds lt1 ps
Holds-kept lt lt1 p [] same apart h = tt
Holds-kept lt lt1 p (q ∷ qs) same apart (valid, held, once, h) = (
  valid,
  rw (same q valid (λ e. apart (inl (sym e)))) held,
  once,
  Holds-kept lt lt1 p qs same (λ w. apart (inr w)) h,
)

release-Counts :
    (lt : LockTable) (p : ℕ) (c : ℤ)
    → lt.locked ≡ false
    → Distinct lt
    → p ≢ invalid_pnum
    → count lt p ≡ c
    → Held c
    → (lt1 : LockTable) × (release lt p ≡ some lt1) × Counts lt lt1 p (less c)
release-Counts lt p (pos zero) free d valid e held = absurd held
release-Counts lt p (pos (suc n)) free d valid e held =
    release_lem lt p free d valid (pos (suc n)) e
release-Counts lt p (negsuc n) free d valid e held = release_lem lt p free d valid (negsuc n) e

Holds-valid : (lt : LockTable) (ps : List ℕ) (q : ℕ) → Holds lt ps → Within q ps → q ≢ invalid_pnum
Holds-valid lt [] q h w = absurd w
Holds-valid lt (p ∷ ps) q (valid, held, once, h) (inl e) = rw e valid
Holds-valid lt (p ∷ ps) q (valid, held, once, h) (inr w) = Holds-valid lt ps q h w

-- A page of the list, after its first page and then the others are given back.
returned :
    (lt lt1 lt' : LockTable) (p : ℕ) (ps : List ℕ) (q : ℕ)
    → p ≢ invalid_pnum
    → ¬ (Within p ps)
    → Holds lt ps
    → Counts lt lt1 p (less (count lt p))
    → ((r : ℕ) → Within r ps → count lt' r ≡ less (count lt1 r))
    → ((r : ℕ) → r ≢ invalid_pnum → ¬ (Within r ps) → count lt' r ≡ count lt1 r)
    → Within q (p ∷ ps)
    → count lt' q ≡ less (count lt q)
returned lt lt1 lt' p ps q valid once h c given kept (inl e) =
    subst (λ x. count lt' x ≡ less (count lt x)) (sym e) (kept p valid once ∙ c.own)
returned lt lt1 lt' p ps q valid once h c given kept (inr w) =
    given q w
    ∙ ap less (c.other q (Holds-valid lt ps q h w) (λ e. once (subst (λ x. Within x ps) e w)))

-- With the mutex free, no two entries for one page, and a list of pages with numbers, each listed once
-- and held by somebody: release_locks returns with the mutex free, each page of the list has a holder
-- less, and no other page's counter changes.
pub release_locks_lem :
    (lt : LockTable) (ps : List ℕ)
    → lt.locked ≡ false
    → Distinct lt
    → Holds lt ps
    → (lt' : LockTable) × (release_locks lt ps ≡ some lt')
      × (lt'.locked ≡ false)
      × ((p : ℕ) → Within p ps → count lt' p ≡ less (count lt p))
      × ((q : ℕ) → q ≢ invalid_pnum → ¬ (Within q ps) → count lt' q ≡ count lt q)
unfolding release_locks
release_locks_lem lt [] free d h = (lt, refl, free, λ p w. absurd w, λ q valid out. refl)
release_locks_lem lt (p ∷ ps) free d (valid, held, once, h) =
    let (lt1, e, c) = release-Counts lt p (count lt p) free d valid refl held in
    let (lt', e', free', given, kept) =
      release_locks_lem lt1 ps (c.mutex ∙ free) c.distinct
        (Holds-kept lt lt1 p ps c.other once h) in
    (
      lt',
      rw e e',
      free',
      λ q w. returned lt lt1 lt' p ps q valid once h c given kept w,
      λ q valid' out. kept q valid' (λ w. out (inr w)) ∙ c.other q valid' (λ x. out (inl x)),
    )
