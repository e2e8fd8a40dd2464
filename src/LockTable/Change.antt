-- ===== src/LockTable/Change.antt =====
-- One entry of the vector changes: what the pages' counters become.
use npsql.Base.{
  ℕ, ◌≤◌, ◌<◌, ◌≡◌, ◌≢◌, ◌∙◌, refl, sym, ap, inl, inr, ◌⊎◌, Option-cases, arith, ℕ_discrete,
  put_at_self, put_at-ne,
}
use npsql.Base.Int.{ℤ, pos}
use npsql.LockTable.{
  DbLock, LockTable, invalid_pnum, find_existing_lock, add_rw_lock, entry, set_count,
}
use npsql.LockTable.Count.{
  count, Distinct, find_existing_lock-some, find_existing_lock-none, count-holder, count-absent,
  holder-cases,
}

-- One entry, old or new, becomes `l`; the others stay.
pub record Change (lt lt' : LockTable) (i : ℕ) (l : DbLock) : Type 0 where
  pub in_table : i < lt'.size
  pub grown : lt.size ≤ lt'.size
  pub old : (k : ℕ) → k < lt'.size → k ≢ i → k < lt.size
  pub other : (k : ℕ) → k ≢ i → lt'.locks k ≡ lt.locks k
  pub own : lt'.locks i ≡ l

module _ (lt lt' : LockTable) (i : ℕ) (l : DbLock) (d : Distinct lt) (c : Change lt lt' i l)
    (alone : (k : ℕ)
      → k < lt.size
      → k ≢ i
      → (lt.locks k).pnum ≡ l.pnum
      → l.pnum ≡ invalid_pnum) where
  pub number_of :
      (k : ℕ)
      → k < lt'.size
      → ((k ≡ i) × ((lt'.locks k).pnum ≡ l.pnum))
        ⊎ ((k ≢ i) × (k < lt.size) × ((lt'.locks k).pnum ≡ (lt.locks k).pnum))
  number_of k h = elim (ℕ_discrete k i) [
    | yes e ↦ inl (e, rw (e, c.own))
    | no ne ↦ inr (ne, c.old k h ne, ap (λ (x : DbLock). x.pnum) (c.other k ne))
  ]

  pub Change-Distinct : Distinct lt'
  Change-Distinct a b ha hb e v = elim (number_of a ha) [
    | inl (a_own, na) ↦ elim (number_of b hb) [
      | inl (b_own, _) ↦ a_own ∙ sym b_own
      | inr (ne, old, nb) ↦ absurd (v (na ∙ alone b old ne (sym nb ∙ sym e ∙ na)))
    ]
    | inr (ne, old, na) ↦ elim (number_of b hb) [
      | inl (_, nb) ↦ absurd (v (e ∙ nb ∙ alone a old ne (sym na ∙ e ∙ nb)))
      | inr (_, old', nb) ↦ d a b old old' (sym na ∙ e ∙ nb) (λ q. v (na ∙ q))
    ]
  ]

  pub Change-count_own : l.pnum ≢ invalid_pnum → count lt' l.pnum ≡ l.read_count
  Change-count_own valid =
      count-holder lt' l.pnum i Change-Distinct c.in_table (ap (λ (x : DbLock). x.pnum) c.own) valid
      ∙ ap (λ (x : DbLock). x.read_count) c.own

  pub Change-count_other :
      (q : ℕ)
      → q ≢ invalid_pnum
      → l.pnum ≢ q
      → (i < lt.size → (lt.locks i).pnum ≢ q)
      → count lt' q ≡ count lt q
  Change-count_other q valid ne old_ne = elim (holder-cases lt q) [
    | inl (k, h, e) ↦ elim (ℕ_discrete k i) [
      | yes same ↦ absurd (old_ne (rw (← same) h) (rw (← same) e))
      | no other ↦
          count-holder lt' q k Change-Distinct (omega (arith, c.grown))
            (ap (λ (x : DbLock). x.pnum) (c.other k other) ∙ e) valid
          ∙ ap (λ (x : DbLock). x.read_count) (c.other k other)
          ∙ sym (count-holder lt q k d h e valid)
    ]
    | inr absent ↦
        count-absent lt' q (λ k h e. elim (number_of k h) [
          | inl (_, n) ↦ ne (sym n ∙ e)
          | inr (_, old, n) ↦ absent k old (sym n ∙ e)
        ])
        ∙ sym (count-absent lt q absent)
  ]

-- The page's counter is `n`, every other page's is as it was, and pages still have one entry each.
pub record Counts (lt lt' : LockTable) (p : ℕ) (n : ℤ) : Type 0 where
  pub distinct : Distinct lt'
  pub own : count lt' p ≡ n
  pub other : (q : ℕ) → q ≢ invalid_pnum → q ≢ p → count lt' q ≡ count lt q
  pub mutex : lt'.locked ≡ lt.locked

set_count-Change :
    (lt : LockTable) (i : ℕ) (n : ℤ)
    → i < lt.size
    → Change lt (set_count lt i n) i (record (lt.locks i) { read_count = n })
set_count-Change lt i n h = record {
  in_table = h;
  grown = omega arith;
  old = λ k h' _. h';
  other = λ k ne. put_at-ne lt.locks i _ k ne;
  own = put_at_self lt.locks i _;
}

pub set_count-Counts :
    (lt : LockTable) (p i : ℕ) (n : ℤ)
    → Distinct lt
    → p ≢ invalid_pnum
    → i < lt.size
    → (lt.locks i).pnum ≡ p
    → Counts lt (set_count lt i n) p n
set_count-Counts lt p i n d valid h e = record {
  distinct = Change-Distinct lt _ i _ d change alone;
  own = rw (← e) (Change-count_own lt _ i _ d change alone (λ q. valid (sym e ∙ q)));
  other = λ q valid' ne.
      Change-count_other lt _ i _ d change alone q valid' (λ z. ne (sym z ∙ e))
        (λ _ z. ne (sym z ∙ e));
  mutex = refl;
}
  where
    change : Change lt (set_count lt i n) i (record (lt.locks i) { read_count = n })
    change = set_count-Change lt i n h

    alone :
        (k : ℕ)
        → k < lt.size
        → k ≢ i
        → (lt.locks k).pnum ≡ (lt.locks i).pnum
        → (lt.locks i).pnum ≡ invalid_pnum
    alone k h' ne z = absurd (ne (d k i h' h z (λ q. valid (sym e ∙ sym z ∙ q))))

-- The entry that an attempt works on: it is for the page, and finding or adding it changes no count.
pub record Entry (lt lt' : LockTable) (p i : ℕ) : Type 0 where
  pub in_table : i < lt'.size
  pub for_page : (lt'.locks i).pnum ≡ p
  pub reads : (lt'.locks i).read_count ≡ count lt p
  pub counts : Counts lt lt' p (count lt p)

add_rw_lock-Entry :
    (lt : LockTable) (p : ℕ)
    → Distinct lt
    → p ≢ invalid_pnum
    → ((i : ℕ) → i < lt.size → (lt.locks i).pnum ≢ p)
    → Entry lt (add_rw_lock lt p) p lt.size
unfolding add_rw_lock
add_rw_lock-Entry lt p d valid absent = record {
  in_table = omega arith;
  for_page = ap (λ (x : DbLock). x.pnum) change.own;
  reads = ap (λ (x : DbLock). x.read_count) change.own ∙ sym (count-absent lt p absent);
  counts = record {
    distinct = Change-Distinct lt _ lt.size l d change alone;
    own = Change-count_own lt _ lt.size l d change alone valid ∙ sym (count-absent lt p absent);
    other = λ q valid' ne.
        Change-count_other lt _ lt.size l d change alone q valid' (λ z. ne (sym z))
          (λ h. absurd (omega arith));
    mutex = refl;
  };
}
  where
    l : DbLock
    l = record { read_count = pos 0; pnum = p }

    change : Change lt (add_rw_lock lt p) lt.size l
    change = record {
      in_table = omega arith;
      grown = omega arith;
      old = λ k h ne. omega arith;
      other = λ k ne. put_at-ne lt.locks lt.size l k ne;
      own = put_at_self lt.locks lt.size l;
    }

    alone : (k : ℕ) → k < lt.size → k ≢ lt.size → (lt.locks k).pnum ≡ p → p ≡ invalid_pnum
    alone k h _ e = absurd (absent k h e)

pub entry-Entry :
    (lt : LockTable) (p : ℕ)
    → Distinct lt
    → p ≢ invalid_pnum
    → Entry lt (entry lt p).1 p (entry lt p).0
unfolding entry
entry-Entry lt p d valid = elim (Option-cases (find_existing_lock lt p)) [
  | inl e ↦ rw (e, entry) (add_rw_lock-Entry lt p d valid (find_existing_lock-none lt p e))
  | inr (i, e) ↦ rw (e, entry) (found i (find_existing_lock-some lt p i e))
]
  where
    found : (i : ℕ) → (i < lt.size) × ((lt.locks i).pnum ≡ p) → Entry lt lt p i
    found i (h, e) = record {
      in_table = h;
      for_page = e;
      reads = sym (count-holder lt p i d h e valid);
      counts = record { distinct = d; own = refl; other = λ q _ _. refl; mutex = refl };
    }
