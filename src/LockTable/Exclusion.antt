-- ===== src/LockTable/Exclusion.antt =====
-- Any number of transactions call the lock table in any order; each gives back only what it holds.
use npsql.Base.{ℕ, zero, suc, ◌≡◌, ◌≢◌, refl, false, inl, inr, ◌⊎◌, arith, find_from}
use npsql.Base.Int.{ℤ, pos, negsuc}
use npsql.LockTable.{DbLock, invalid_pnum, create_lock_table, find_existing_lock}
use npsql.LockTable.Count.{count}
use npsql.LockTable.System.{
  System, Step, read, read_refused, write, write_refused, read_done, write_done, Reach, here, next,
  Agrees, Inv, read_granted, read_waits, write_granted, write_waits, read_given_back,
  write_given_back,
}

Step-Inv : {s t : System} → Step s t → Inv s → Inv t
Step-Inv {s} (read p lt valid done) v = read_granted s v p valid lt _ refl (v.agrees p valid) done
Step-Inv {s} (read_refused p lt valid done) v =
    read_waits s v p valid lt _ refl (v.agrees p valid) done
Step-Inv {s} (write p lt valid done) v = write_granted s v p valid lt _ refl (v.agrees p valid) done
Step-Inv {s} (write_refused p lt valid done) v =
    write_waits s v p valid lt _ refl (v.agrees p valid) done
Step-Inv {s} (read_done p n lt valid held done) v =
    read_given_back s v p valid lt _ n refl (v.agrees p valid) held done
Step-Inv {s} (write_done p n lt valid held done) v =
    write_given_back s v p valid lt _ n refl (v.agrees p valid) held done

Reach-Inv : {s t : System} → Inv s → Reach s t → Inv t
Reach-Inv v here = v
Reach-Inv v (next r st) = Step-Inv st (Reach-Inv v r)

-- A new lock table, whatever its memory holds, with nobody in it.
abbrev pub start : (ℕ → DbLock) → System
start heap = record { table = create_lock_table heap; readers = λ _. 0; writers = λ _. 0 }

start-Inv : (heap : ℕ → DbLock) → Inv (start heap)
unfolding create_lock_table find_existing_lock find_from
start-Inv heap = record {
  free = refl;
  distinct = λ i j h _ _ _. absurd (omega arith);
  agrees = λ p _. (refl, refl);
}

exclusive : (c : ℤ) (r w : ℕ) → Agrees c r w → (w ≡ 0) ⊎ ((w ≡ 1) × (r ≡ 0))
exclusive (pos n) r w a = inl a.1
exclusive (negsuc zero) r w a = inr (a.1, a.0)
exclusive (negsuc (suc n)) r w a = elim a [ ]

-- From a new lock table, whatever transactions lock and release in whatever order, each giving back
-- only what it holds, a valid page has no writer, or one writer and no reader, and the mutex is free.
pub Reach-exclusive :
    (heap : ℕ → DbLock) {t : System} (p : ℕ)
    → Reach (start heap) t
    → p ≢ invalid_pnum
    → ((t.writers p ≡ 0) ⊎ ((t.writers p ≡ 1) × (t.readers p ≡ 0))) × (t.table.locked ≡ false)
Reach-exclusive heap {t} p r valid =
    let v = Reach-Inv (start-Inv heap) r in
    (exclusive (count t.table p) (t.readers p) (t.writers p) (v.agrees p valid), v.free)
