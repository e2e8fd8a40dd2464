-- ===== src/BufferManager/Pin.antt =====
-- `pin`, whether the page is found, read into a frame, or refused.
use npsql.Base.{
  find_from-some, find_from-eq-none, ℕ, ◌<◌, ◌≡◌, ◌≢◌, ◌∙◌, refl, sym, ap, Bool, true, false,
  Bool-cases, inl, inr, Option, Option-cases, none, some, ◌==◌, ne→==-false, arith,
}
use npsql.LogFile.{page_size}
use npsql.BufferManager.{
  BufferManager, buffer_pool_size, invalid_pnum, find_existing_buffer, choose_unpinned_buffer,
  flush_buffer, read_buffer, take_buffer, pin_locked, pin, pin_new, unpin,
}
use npsql.BufferManager.Search.{find_existing_buffer-some, find_existing_buffer-none}
use npsql.BufferManager.View.{
  view, Coherent, view-holder, view-absent, holder-cases, Flushed, flush_buffer-Flushed,
  Flushed-Coherent, Flushed-view,
}
use npsql.BufferManager.Evict.{Kept, read_Coherent, read_view, read_number}

-- The same frames, but for pins and log numbers, and the same file.
pub record Same (bm bm' : BufferManager) : Type 0 where
  pub number : (k : ℕ) → (bm'.buffers k).page_number ≡ (bm.buffers k).page_number
  pub page : (k : ℕ) → (bm'.buffers k).page ≡ (bm.buffers k).page
  pub modified : (k : ℕ) → (bm'.buffers k).modified_by ≡ (bm.buffers k).modified_by
  pub file : bm'.data_file ≡ bm.data_file

pub Same-Kept : (bm bm' : BufferManager) → Coherent bm → Same bm bm' → Kept bm bm'
Same-Kept bm bm' c s = record { coherent = coherent; same_view = same_view }
  where
    coherent : Coherent bm'
    coherent = record {
      unique = λ a b ha hb e v.
          c.unique a b ha hb (sym (s.number a) ∙ e ∙ s.number b) (λ q. v (s.number a ∙ q));
      clean = λ j hj m v k hk.
          rw (s.page j, s.number j, s.file)
            (c.clean j hj (sym (s.modified j) ∙ m) (λ q. v (s.number j ∙ q)) k hk);
    }

    same_view : (q k : ℕ) → q ≢ invalid_pnum → k < page_size → view bm' q k ≡ view bm q k
    same_view q k valid h = elim (holder-cases bm q) [
      | inl (j, hj, e) ↦
          view-holder bm' coherent q j k hj (s.number j ∙ e) valid
          ∙ rw (s.page j) (sym (view-holder bm c q j k hj e valid))
      | inr absent ↦
          view-absent bm' q k (λ j hj e. absent j hj (sym (s.number j) ∙ e))
          ∙ rw s.file (sym (view-absent bm q k absent))
    ]

pub Kept-trans : (a b c : BufferManager) → Kept a b → Kept b c → Kept a c
Kept-trans a b c k l = record {
  coherent = l.coherent;
  same_view = λ q j v h. l.same_view q j v h ∙ k.same_view q j v h;
}

pub take_buffer-Same : (bm : BufferManager) (i : ℕ) → Same bm (take_buffer bm i)
unfolding take_buffer
take_buffer-Same bm i = record {
  number = λ k. ground arith;
  page = λ k. ground arith;
  modified = λ k. ground arith;
  file = refl;
}

-- What a successful pin hands out: a frame of the pool that shows the page.
pub record Pinned (bm bm' : BufferManager) (p i : ℕ) : Type 0 where
  pub in_pool : i < buffer_pool_size
  pub holds : (bm'.buffers i).page_number ≡ p
  pub shows : (k : ℕ) → k < page_size → (bm'.buffers i).page k ≡ view bm p k
  pub kept : Kept bm bm'

Pinned-intro :
    (bm bm' : BufferManager) (p i : ℕ)
    → p ≢ invalid_pnum
    → i < buffer_pool_size
    → (bm'.buffers i).page_number ≡ p
    → Kept bm bm'
    → Pinned bm bm' p i
Pinned-intro bm bm' p i valid small holds kept = record {
  in_pool = small;
  holds = holds;
  shows = λ k h.
      sym (view-holder bm' kept.coherent p i k small holds valid) ∙ kept.same_view p k valid h;
  kept = kept;
}

found-Pinned :
    (bm : BufferManager) (p i : ℕ)
    → Coherent bm
    → p ≢ invalid_pnum
    → find_existing_buffer bm p ≡ some i
    → Pinned bm (take_buffer bm i) p i
found-Pinned bm p i c valid found =
    Pinned-intro bm _ p i valid (find_existing_buffer-some bm p i found).0
      ((take_buffer-Same bm i).number i ∙ (find_existing_buffer-some bm p i found).1)
      (Same-Kept bm _ c (take_buffer-Same bm i))

evicted-Pinned :
    (bm : BufferManager) (p i : ℕ)
    → Coherent bm
    → p ≢ invalid_pnum
    → find_existing_buffer bm p ≡ none
    → i < buffer_pool_size
    → Pinned bm (take_buffer (read_buffer (flush_buffer bm i) i p) i) p i
evicted-Pinned bm p i c valid missing small =
    Pinned-intro bm _ p i valid small
      ((take_buffer-Same read i).number i ∙ read_number flushed i p small coherent f.own absent)
      (Kept-trans bm read _
        (Kept-trans bm flushed read
          (record { coherent = coherent; same_view = Flushed-view bm flushed i small c f })
          (record {
            coherent = read_Coherent flushed i p small coherent f.own absent;
            same_view = read_view flushed i p small coherent f.own absent;
          }))
        (Same-Kept read _ (read_Coherent flushed i p small coherent f.own absent)
          (take_buffer-Same read i)))
  where
    flushed : BufferManager
    flushed = flush_buffer bm i

    read : BufferManager
    read = read_buffer flushed i p

    f : Flushed bm flushed i
    f = flush_buffer-Flushed bm i

    coherent : Coherent flushed
    coherent = Flushed-Coherent bm flushed i small c f

    absent : (j : ℕ) → j < buffer_pool_size → (flushed.buffers j).page_number ≢ p
    absent j hj e = find_existing_buffer-none bm p missing j hj (sym (f.number j) ∙ e)

pub choose_unpinned_buffer-some :
    (bm : BufferManager) (i : ℕ)
    → choose_unpinned_buffer bm ≡ some i
    → (i < buffer_pool_size) × ((bm.buffers i).pins ≡ 0)
unfolding choose_unpinned_buffer
choose_unpinned_buffer-some bm i h =
    ground (arith, find_from-some (λ b. b.pins == 0) bm.buffers 0 buffer_pool_size i h)

Pinned-result :
    (bm bm' b : BufferManager) (p i j : ℕ) (r : Option ℕ × BufferManager)
    → r ≡ (some j, b)
    → r ≡ (some i, bm')
    → Pinned bm b p j
    → Pinned bm bm' p i
Pinned-result bm bm' b p i j r e e' pinned = rw (← same_state, ← same_frame) pinned
  where
    same_frame : j ≡ i
    same_frame = cc

    same_state : b ≡ bm'
    same_state = cc

pub pin_locked-found :
    (bm : BufferManager) (p i : ℕ)
    → find_existing_buffer bm p ≡ some i
    → pin_locked bm p ≡ (some i, take_buffer bm i)
unfolding pin_locked
pin_locked-found bm p i found = rw (found, pin_locked)

pub pin_locked-evicts :
    (bm : BufferManager) (p i : ℕ)
    → find_existing_buffer bm p ≡ none
    → choose_unpinned_buffer bm ≡ some i
    → pin_locked bm p ≡ (some i, take_buffer (read_buffer (flush_buffer bm i) i p) i)
unfolding pin_locked
pin_locked-evicts bm p i missing free = rw (missing, free, pin_locked)

pin_locked-refused :
    (bm : BufferManager) (p : ℕ)
    → find_existing_buffer bm p ≡ none
    → choose_unpinned_buffer bm ≡ none
    → pin_locked bm p ≡ (none, bm)
unfolding pin_locked
pin_locked-refused bm p missing full = rw (missing, full, pin_locked)

pin_locked-Pinned :
    (bm bm' : BufferManager) (p i : ℕ)
    → Coherent bm
    → p ≢ invalid_pnum
    → pin_locked bm p ≡ (some i, bm')
    → Pinned bm bm' p i
pin_locked-Pinned bm bm' p i c valid h = elim (Option-cases (find_existing_buffer bm p)) [
  | inr (j, found) ↦
      Pinned-result bm bm' _ p i j _ (pin_locked-found bm p j found) h
        (found-Pinned bm p j c valid found)
  | inl missing ↦ elim (Option-cases (choose_unpinned_buffer bm)) [
    | inl full ↦ absurd (cc (pin_locked-refused bm p missing full))
    | inr (j, free) ↦
        Pinned-result bm bm' _ p i j _ (pin_locked-evicts bm p j missing free) h
          (evicted-Pinned bm p j c valid missing (choose_unpinned_buffer-some bm j free).0)
  ]
]

Pinned-trans :
    (bm b bm' : BufferManager) (p i : ℕ)
    → p ≢ invalid_pnum
    → Kept bm b
    → Pinned b bm' p i
    → Pinned bm bm' p i
Pinned-trans bm b bm' p i valid k pinned = record {
  in_pool = pinned.in_pool;
  holds = pinned.holds;
  shows = λ j h. pinned.shows j h ∙ k.same_view p j valid h;
  kept = Kept-trans bm b bm' k pinned.kept;
}

pub lock_Same : (bm : BufferManager) (l : Bool) → Same bm (record bm { locked = l })
lock_Same bm l = record { number = λ k. refl; page = λ k. refl; modified = λ k. refl; file = refl }

-- On a coherent pool, a pin of a valid page that returns a frame returns one of the pool that shows
-- the page; the pool stays coherent and the bytes of every valid page, read through the pool, are as
-- they were.
pub pin-Pinned :
    (bm bm' : BufferManager) (p i : ℕ)
    → Coherent bm
    → p ≢ invalid_pnum
    → pin bm p ≡ some (some i, bm')
    → Pinned bm bm' p i
unfolding pin
pin-Pinned bm bm' p i c valid h = elim (Bool-cases bm.locked) [
  | inl held ↦ absurd (cc (waits held))
  | inr given_back ↦
      Pinned-trans bm entered bm' p i valid kept
        (pin_locked-Pinned entered bm' p i kept.coherent valid (enters given_back))
]
  where
    entered : BufferManager
    entered = record bm { locked = true }

    kept : Kept bm entered
    kept = Same-Kept bm entered c (lock_Same bm true)

    waits : bm.locked ≡ true → ◌≡◌ {A = Option (Option ℕ × BufferManager)} none (some (some i, bm'))
    waits held = rw held at h

    enters : bm.locked ≡ false → pin_locked entered p ≡ (some i, bm')
    enters given_back =
        let e : some (pin_locked entered p) ≡ some (some i, bm') = rw given_back at h in cc

-- With the mutex free and every frame pinned, a `pin` of a page that no frame holds returns NULL with
-- the mutex held, and every later `pin`, `pin_new` and `unpin` waits for it for ever.
pub pin-exhausted :
    (bm : BufferManager) (p : ℕ)
    → bm.locked ≡ false
    → ((i : ℕ) → i < buffer_pool_size → (bm.buffers i).pins ≢ 0)
    → ((i : ℕ) → i < buffer_pool_size → (bm.buffers i).page_number ≢ p)
    → let stuck = record bm { locked = true } in
      (pin bm p ≡ some (none, stuck))
      × ((q : ℕ) → pin stuck q ≡ none)
      × (pin_new stuck ≡ none)
      × ((i : ℕ) → unpin stuck i ≡ none)
unfolding pin pin_new unpin find_existing_buffer choose_unpinned_buffer
pin-exhausted bm p free pinned absent = (
  rw free (ap some (pin_locked-refused (record bm { locked = true }) p missing full)),
  λ q. refl,
  refl,
  λ i. refl,
)
  where
    missing : find_existing_buffer (record bm { locked = true }) p ≡ none
    missing =
        find_from-eq-none (λ b. b.page_number == p) bm.buffers 0 buffer_pool_size
          (λ k lo hi. ne→==-false _ p (absent k (omega arith)))

    full : choose_unpinned_buffer (record bm { locked = true }) ≡ none
    full =
        find_from-eq-none (λ b. b.pins == 0) bm.buffers 0 buffer_pool_size
          (λ k lo hi. ne→==-false _ 0 (pinned k (omega arith)))
