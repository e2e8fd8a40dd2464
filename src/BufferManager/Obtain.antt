-- ===== src/BufferManager/Obtain.antt =====
-- `pin` and `pin_new` while the pool has a frame that nobody uses: both return a frame.
use npsql.Base.{
  find_from-none, put_at_self, put_at-ne, ℕ, ◌+◌, ◌<◌, ◌≡◌, ◌≢◌, ◌∙◌, ◌⊎◌, refl, sym, ap, true,
  false, inl, inr, Option-cases, some, ◌==◌, ==-false, arith, ℕ_discrete,
}
use npsql.LogFile.{page_size}
use npsql.BufferManager.{
  Buffer, BufferManager, buffer_pool_size, invalid_pnum, find_existing_buffer,
  choose_unpinned_buffer, flush_buffer, read_buffer, take_buffer, new_buffer, pin_locked, pin,
  pin_new_locked, pin_new, append_page, write_page,
}
use npsql.BufferManager.View.{
  view, Coherent, Flushed, flush_buffer-Flushed, Flushed-Coherent, Flushed-view,
}
use npsql.BufferManager.Flush.{flush_buffer-page_count}
use npsql.BufferManager.Pin.{
  Same-Kept, lock_Same, Pinned, take_buffer-Same, pin_locked-found, pin_locked-evicts,
  choose_unpinned_buffer-some, pin-Pinned,
}
use npsql.BufferManager.Append.{new_buffer-Kept, new_buffer-view}

-- A frame that nobody uses.
abbrev pub Spare : BufferManager → Type 0
Spare bm = (j : ℕ) × (j < buffer_pool_size) × ((bm.buffers j).pins ≡ 0)

pub choose_unpinned_buffer-Spare :
    (bm : BufferManager) → Spare bm → (i : ℕ) × (choose_unpinned_buffer bm ≡ some i)
unfolding choose_unpinned_buffer
choose_unpinned_buffer-Spare bm (j, small, unused) =
    elim (Option-cases (choose_unpinned_buffer bm)) [
      | inr found ↦ found
      | inl full ↦ absurd (
          ==-false _ 0
            (find_from-none (λ (b : Buffer). b.pins == 0) bm.buffers 0 buffer_pool_size full j
              (omega arith) (omega arith))
            unused)
    ]

-- What `pin` leaves beside the views: the mutex is free, and a frame has the page or what it had.
pub record Obtained (bm bm' : BufferManager) (p i : ℕ) : Type 0 where
  pub pinned : Pinned bm bm' p i
  pub free : bm'.locked ≡ false
  pub page_count : bm'.data_file.page_count ≡ bm.data_file.page_count
  pub numbers :
      (j : ℕ)
      → ((bm'.buffers j).page_number ≡ p)
        ⊎ ((bm'.buffers j).page_number ≡ (bm.buffers j).page_number)

take_buffer-free : (bm : BufferManager) (i : ℕ) → (take_buffer bm i).locked ≡ false
unfolding take_buffer
take_buffer-free bm i = refl

read_buffer-numbers :
    (bm : BufferManager) (i p j : ℕ)
    → (((read_buffer bm i p).buffers j).page_number ≡ p)
      ⊎ (((read_buffer bm i p).buffers j).page_number ≡ (bm.buffers j).page_number)
unfolding read_buffer
read_buffer-numbers bm i p j = elim (ℕ_discrete j i) [
  | yes e ↦ inl (rw (e, put_at_self bm.buffers i) refl)
  | no ne ↦ inr (ap (λ (b : Buffer). b.page_number) (put_at-ne bm.buffers i _ j ne))
]

read_buffer-page_count :
    (bm : BufferManager) (i p : ℕ) → (read_buffer bm i p).data_file ≡ bm.data_file
unfolding read_buffer
read_buffer-page_count bm i p = refl

pin-enters :
    (bm : BufferManager) (p : ℕ)
    → bm.locked ≡ false
    → pin bm p ≡ some (pin_locked (record bm { locked = true }) p)
unfolding pin
pin-enters bm p free = rw free refl

-- On a coherent pool whose mutex is free and which has a spare frame, a pin of a valid page returns.
pub pin-Obtained :
    (bm : BufferManager) (p : ℕ)
    → Coherent bm
    → bm.locked ≡ false
    → Spare bm
    → p ≢ invalid_pnum
    → (i : ℕ) × (bm' : BufferManager) × (pin bm p ≡ some (some i, bm')) × Obtained bm bm' p i
pin-Obtained bm p c free spare valid =
    let entered : BufferManager = record bm { locked = true } in
    elim (Option-cases (find_existing_buffer entered p)) [
      | inr (i, found) ↦
          let bm' = take_buffer entered i in
          let e = pin-enters bm p free ∙ ap some (pin_locked-found entered p i found) in
          let same = take_buffer-Same entered i in
          (
            i,
            bm',
            e,
            record {
              pinned = pin-Pinned bm bm' p i c valid e;
              free = take_buffer-free entered i;
              page_count = rw same.file refl;
              numbers = λ j. inr (same.number j);
            },
          )
      | inl missing ↦
          let (i, chosen) = choose_unpinned_buffer-Spare entered spare in
          let flushed = flush_buffer entered i in
          let bm' = take_buffer (read_buffer flushed i p) i in
          let e = pin-enters bm p free ∙ ap some (pin_locked-evicts entered p i missing chosen) in
          let same = take_buffer-Same (read_buffer flushed i p) i in
          let f = flush_buffer-Flushed entered i in
          (
            i,
            bm',
            e,
            record {
              pinned = pin-Pinned bm bm' p i c valid e;
              free = take_buffer-free (read_buffer flushed i p) i;
              page_count =
                  rw same.file
                    (rw (read_buffer-page_count flushed i p) (flush_buffer-page_count entered i));
              numbers = λ j. elim (read_buffer-numbers flushed i p j) [
                | inl h ↦ inl (same.number j ∙ h)
                | inr h ↦ inr (same.number j ∙ h ∙ f.number j)
              ];
            },
          )
    ]

new_buffer-numbers :
    (bm : BufferManager) (i j : ℕ)
    → (((new_buffer bm i).buffers j).page_number ≡ bm.data_file.page_count)
      ⊎ (((new_buffer bm i).buffers j).page_number ≡ (bm.buffers j).page_number)
unfolding new_buffer append_page
new_buffer-numbers bm i j = elim (ℕ_discrete j i) [
  | yes e ↦ inl (rw (e, put_at_self bm.buffers i) refl)
  | no ne ↦ inr (ap (λ (b : Buffer). b.page_number) (put_at-ne bm.buffers i _ j ne))
]

new_buffer-own :
    (bm : BufferManager) (i : ℕ)
    → ((new_buffer bm i).buffers i).page_number ≡ bm.data_file.page_count
unfolding new_buffer append_page
new_buffer-own bm i = rw (put_at_self bm.buffers i) refl

new_buffer-page_count :
    (bm : BufferManager) (i : ℕ)
    → (new_buffer bm i).data_file.page_count ≡ bm.data_file.page_count + 1
unfolding new_buffer append_page write_page
new_buffer-page_count bm i = refl

new_buffer-free : (bm : BufferManager) (i : ℕ) → (new_buffer bm i).locked ≡ false
unfolding new_buffer
new_buffer-free bm i = refl

-- What `pin_new` leaves: the page after the last one, in frame `i`.
pub record Appended (bm bm' : BufferManager) (i : ℕ) : Type 0 where
  pub in_pool : i < buffer_pool_size
  pub holds : (bm'.buffers i).page_number ≡ bm.data_file.page_count
  pub coherent : Coherent bm'
  pub same_view :
      (q k : ℕ)
      → q ≢ invalid_pnum
      → q ≢ bm.data_file.page_count
      → k < page_size
      → view bm' q k ≡ view bm q k
  pub free : bm'.locked ≡ false
  pub page_count : bm'.data_file.page_count ≡ bm.data_file.page_count + 1
  pub numbers :
      (j : ℕ)
      → ((bm'.buffers j).page_number ≡ bm.data_file.page_count)
        ⊎ ((bm'.buffers j).page_number ≡ (bm.buffers j).page_number)

module _ (bm : BufferManager) (i : ℕ) (small : i < buffer_pool_size) (c : Coherent bm)
    (valid : bm.data_file.page_count ≢ invalid_pnum)
    (absent : (j : ℕ)
      → j < buffer_pool_size
      → (bm.buffers j).page_number ≢ bm.data_file.page_count) where
  abbrev flushed : BufferManager
  flushed = flush_buffer bm i

  f : Flushed bm flushed i
  f = flush_buffer-Flushed bm i

  same_count : flushed.data_file.page_count ≡ bm.data_file.page_count
  same_count = flush_buffer-page_count bm i

  still_absent :
      (j : ℕ)
      → j < buffer_pool_size
      → (flushed.buffers j).page_number ≢ flushed.data_file.page_count
  still_absent j hj e = absent j hj (sym (f.number j) ∙ e ∙ same_count)

  flushed-Appended : Appended bm (new_buffer flushed i) i
  flushed-Appended =
      let coherent = Flushed-Coherent bm flushed i small c f in
      let new : flushed.data_file.page_count ≢ invalid_pnum = rw same_count valid in
      record {
        in_pool = small;
        holds = new_buffer-own flushed i ∙ same_count;
        coherent = (new_buffer-Kept flushed i small coherent f.own new still_absent).coherent;
        same_view = λ q k v ne h.
            new_buffer-view flushed i small coherent f.own new still_absent q k v
              (λ e. ne (e ∙ same_count)) h
            ∙ Flushed-view bm flushed i small c f q k v h;
        free = new_buffer-free flushed i;
        page_count = new_buffer-page_count flushed i ∙ ap (λ n. n + 1) same_count;
        numbers = λ j. elim (new_buffer-numbers flushed i j) [
          | inl e ↦ inl (e ∙ same_count)
          | inr e ↦ inr (e ∙ f.number j)
        ];
      }

pin_new_locked-takes :
    (bm : BufferManager) (i : ℕ)
    → choose_unpinned_buffer bm ≡ some i
    → pin_new_locked bm ≡ (some i, new_buffer (flush_buffer bm i) i)
unfolding pin_new_locked
pin_new_locked-takes bm i chosen = rw (chosen, pin_new_locked)

pin_new-enters :
    (bm : BufferManager)
    → bm.locked ≡ false
    → pin_new bm ≡ some (pin_new_locked (record bm { locked = true }))
unfolding pin_new
pin_new-enters bm free = rw free refl

-- On a coherent pool whose mutex is free, which has a spare frame and no frame with the next page's
-- number, pin_new returns.
pub pin_new-Appended :
    (bm : BufferManager)
    → Coherent bm
    → bm.locked ≡ false
    → Spare bm
    → bm.data_file.page_count ≢ invalid_pnum
    → ((j : ℕ) → j < buffer_pool_size → (bm.buffers j).page_number ≢ bm.data_file.page_count)
    → (i : ℕ) × (bm' : BufferManager) × (pin_new bm ≡ some (some i, bm')) × Appended bm bm' i
pin_new-Appended bm c free spare valid absent =
    let entered : BufferManager = record bm { locked = true } in
    let (i, chosen) = choose_unpinned_buffer-Spare entered spare in
    let small = (choose_unpinned_buffer-some entered i chosen).0 in
    let a =
      flushed-Appended entered i small (Same-Kept bm entered c (lock_Same bm true)).coherent valid
        absent in
    (
      i,
      new_buffer (flush_buffer entered i) i,
      pin_new-enters bm free ∙ ap some (pin_new_locked-takes entered i chosen),
      record {
        in_pool = a.in_pool;
        holds = a.holds;
        coherent = a.coherent;
        same_view = λ q k v ne h.
            a.same_view q k v ne h ∙ (Same-Kept bm entered c (lock_Same bm true)).same_view q k v h;
        free = a.free;
        page_count = a.page_count;
        numbers = a.numbers;
      },
    )
