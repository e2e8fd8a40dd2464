-- ===== src/BufferManager/View.antt =====
-- The pool is transparent: what a client sees of a page is the frame that holds it, else the file,
-- and pinning, evicting and flushing change none of it.
use npsql.Base.{
  ℕ, ◌+◌, ◌*◌, ◌<◌, ◌≡◌, ◌≢◌, ◌∙◌, refl, sym, ap, Mem, copy, copy_in, copy_out, Bool-cases, inl,
  inr, ◌⊎◌, Option-cases, none, some, ◌==◌, ==_iff, if◌then◌else◌, arith, ℕ_discrete, dec_lt,
}
use npsql.LogFile.{page_size, file_write}
use npsql.BufferManager.{
  BufferManager, buffer_pool_size, invalid_pnum, invalid_tsx, find_existing_buffer, flush_buffer,
  write_page,
}
use npsql.BufferManager.Search.{
  find_existing_buffer-some, find_existing_buffer-none, find_existing_buffer-holder, Unique,
}

-- Byte `k` of page `p`.
abbrev pub view : BufferManager → ℕ → ℕ → ℕ
view bm p k = elim (find_existing_buffer bm p) [
  | some i ↦ (bm.buffers i).page k
  | none ↦ bm.data_file.file.content (p * page_size + k)
]

pub record Coherent (bm : BufferManager) : Type 0 where
  pub unique : Unique bm.buffers
  pub clean :
      (i : ℕ)
      → i < buffer_pool_size
      → (bm.buffers i).modified_by ≡ invalid_tsx
      → (bm.buffers i).page_number ≢ invalid_pnum
      → (k : ℕ) → k < page_size
      → (bm.buffers i).page k
        ≡ bm.data_file.file.content ((bm.buffers i).page_number * page_size + k)

module _ (bm : BufferManager) (c : Coherent bm) where
  pub view-holder :
      (p i k : ℕ)
      → i < buffer_pool_size
      → (bm.buffers i).page_number ≡ p
      → p ≢ invalid_pnum
      → view bm p k ≡ (bm.buffers i).page k
  view-holder p i k small e valid =
      rw (find_existing_buffer-holder bm p i c.unique small e valid, view)

pub view-absent :
    (bm : BufferManager) (p k : ℕ)
    → ((i : ℕ) → i < buffer_pool_size → (bm.buffers i).page_number ≢ p)
    → view bm p k ≡ bm.data_file.file.content (p * page_size + k)
view-absent bm p k absent = elim (Option-cases (find_existing_buffer bm p)) [
  | inl e ↦ rw (e, view)
  | inr (i, e) ↦
      absurd
        (absent i (find_existing_buffer-some bm p i e).0 (find_existing_buffer-some bm p i e).1)
]

-- A page is held by a frame, or by none.
pub holder-cases :
    (bm : BufferManager) (p : ℕ)
    → ((i : ℕ) × (i < buffer_pool_size) × ((bm.buffers i).page_number ≡ p))
      ⊎ ((i : ℕ) → i < buffer_pool_size → (bm.buffers i).page_number ≢ p)
holder-cases bm p = elim (Option-cases (find_existing_buffer bm p)) [
  | inl e ↦ inr (find_existing_buffer-none bm p e)
  | inr (i, e) ↦
      inl (i, (find_existing_buffer-some bm p i e).0, (find_existing_buffer-some bm p i e).1)
]

-- `flush_buffer` keeps every frame's page, marks the frame clean, and writes its own page only.
pub record Flushed (bm bm' : BufferManager) (i : ℕ) : Type 0 where
  pub number : (k : ℕ) → (bm'.buffers k).page_number ≡ (bm.buffers k).page_number
  pub page : (k : ℕ) → (bm'.buffers k).page ≡ (bm.buffers k).page
  pub own : (bm'.buffers i).modified_by ≡ invalid_tsx
  pub others : (k : ℕ) → k ≢ i → (bm'.buffers k).modified_by ≡ (bm.buffers k).modified_by
  pub written :
      (a : ℕ)
      → bm'.data_file.file.content a ≡ (
          if (bm.buffers i).modified_by == invalid_tsx
          then bm.data_file.file.content a
          else copy bm.data_file.file.content
              ((bm.buffers i).page_number * page_size)
              (bm.buffers i).page
              page_size
              a)

pub flush_buffer-Flushed : (bm : BufferManager) (i : ℕ) → Flushed bm (flush_buffer bm i) i
unfolding flush_buffer write_page file_write
flush_buffer-Flushed bm i = record {
  number = λ k. ground arith;
  page = λ k. ground arith;
  own = ground arith;
  others = λ k ne. ground arith;
  written = λ a. ground arith;
}

-- A page is written to its own part of the file.
pub write-apart :
    (m : Mem) (page : Mem) (p q k : ℕ)
    → p ≢ q
    → k < page_size
    → copy m (p * page_size) page page_size (q * page_size + k) ≡ m (q * page_size + k)
write-apart m page p q k ne small = elim (dec_lt p q) [
  | yes h ↦ copy_out m (p * page_size) page page_size (q * page_size + k) (inr (omega arith))
  | no h ↦ copy_out m (p * page_size) page page_size (q * page_size + k) (inl (omega arith))
]

pub write-own :
    (m : Mem) (page : Mem) (p k : ℕ)
    → k < page_size
    → copy m (p * page_size) page page_size (p * page_size + k) ≡ page k
write-own m page p k small = copy_in m (p * page_size) page page_size _ k refl small

module _ (bm bm' : BufferManager) (i : ℕ) (small : i < buffer_pool_size) (c : Coherent bm)
    (f : Flushed bm bm' i) where
  -- Only the frame's own page changes in the file, to what the frame holds.
  pub Flushed-apart :
      (q k : ℕ)
      → (bm.buffers i).page_number ≢ q
      → k < page_size
      → bm'.data_file.file.content (q * page_size + k)
        ≡ bm.data_file.file.content (q * page_size + k)
  Flushed-apart q k ne h =
      f.written (q * page_size + k)
      ∙ ground (
        arith,
        write-apart bm.data_file.file.content (bm.buffers i).page (bm.buffers i).page_number q k ne
            h,
      )

  Flushed-own :
      (k : ℕ)
      → (bm.buffers i).page_number ≢ invalid_pnum
      → k < page_size
      → bm'.data_file.file.content ((bm.buffers i).page_number * page_size + k)
        ≡ (bm.buffers i).page k
  Flushed-own k valid h = elim (Bool-cases ((bm.buffers i).modified_by == invalid_tsx)) [
    | inl e ↦ f.written _ ∙ rw e (sym (c.clean i small ((==_iff _ invalid_tsx).0 e) valid k h))
    | inr e ↦
        f.written _
        ∙ rw e
            (write-own bm.data_file.file.content (bm.buffers i).page (bm.buffers i).page_number k h)
  ]

  pub Flushed-Coherent : Coherent bm'
  Flushed-Coherent = record {
    unique = λ a b ha hb e v.
        c.unique a b ha hb (sym (f.number a) ∙ e ∙ f.number b) (λ q. v (f.number a ∙ q));
    clean =
        λ j hj m v k hk. rw (f.page j, f.number j) (clean' j hj m (λ q. v (f.number j ∙ q)) k hk);
  }
    where
      clean' :
          (j : ℕ)
          → j < buffer_pool_size
          → (bm'.buffers j).modified_by ≡ invalid_tsx
          → (bm.buffers j).page_number ≢ invalid_pnum
          → (k : ℕ) → k < page_size
          → (bm.buffers j).page k
            ≡ bm'.data_file.file.content ((bm.buffers j).page_number * page_size + k)
      clean' j hj m v k hk = elim (ℕ_discrete i j) [
        | yes e ↦ rw (← e) (sym (Flushed-own k (λ q. v (rw e at q)) hk))
        | no ne ↦
            c.clean j hj (sym (f.others j (λ q. ne (sym q))) ∙ m) v k hk
            ∙ sym (Flushed-apart _ k (λ q. ne (sym (c.unique j i hj small (sym q) v))) hk)
      ]

  pub Flushed-view : (q k : ℕ) → q ≢ invalid_pnum → k < page_size → view bm' q k ≡ view bm q k
  Flushed-view q k valid h = elim (holder-cases bm q) [
    | inl (j, hj, e) ↦
        view-holder bm' Flushed-Coherent q j k hj (f.number j ∙ e) valid
        ∙ ap (λ (m : Mem). m k) (f.page j)
        ∙ sym (view-holder bm c q j k hj e valid)
    | inr absent ↦
        view-absent bm' q k (λ j hj e. absent j hj (sym (f.number j) ∙ e))
        ∙ Flushed-apart q k (absent i small) h
        ∙ sym (view-absent bm q k absent)
  ]
