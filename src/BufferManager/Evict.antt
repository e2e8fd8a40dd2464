-- ===== src/BufferManager/Evict.antt =====
-- A page read into a clean frame: the view of every page stays, the evicted one's included.
use npsql.Base.{
  put_at_self, put_at-ne, ℕ, ◌+◌, ◌*◌, ◌<◌, ◌≡◌, ◌≢◌, ◌∙◌, refl, sym, ap, copy_in, inl, inr, ◌⊎◌,
  arith, ℕ_discrete,
}
use npsql.LogFile.{page_size, file_read}
use npsql.BufferManager.{
  DataFile, Buffer, BufferManager, buffer_pool_size, invalid_pnum, invalid_tsx, read_buffer,
  read_page,
}
use npsql.BufferManager.View.{view, Coherent, view-holder, view-absent, holder-cases}

-- What an operation that is transparent keeps.
pub record Kept (bm bm' : BufferManager) : Type 0 where
  pub coherent : Coherent bm'
  pub same_view : (q k : ℕ) → q ≢ invalid_pnum → k < page_size → view bm' q k ≡ view bm q k

-- `read_buffer` of a page that no frame holds, into a frame that is clean.
module _ (bm : BufferManager) (i p : ℕ) (small : i < buffer_pool_size) (c : Coherent bm)
    (own : (bm.buffers i).modified_by ≡ invalid_tsx)
    (absent : (j : ℕ) → j < buffer_pool_size → (bm.buffers j).page_number ≢ p) where
  read_other : (j : ℕ) → j ≢ i → (read_buffer bm i p).buffers j ≡ bm.buffers j
  unfolding read_buffer
  read_other j ne = put_at-ne bm.buffers i _ j ne

  pub read_number : ((read_buffer bm i p).buffers i).page_number ≡ p
  unfolding read_buffer
  read_number = rw (put_at_self bm.buffers i)

  read_page_lem :
      (k : ℕ)
      → k < page_size
      → ((read_buffer bm i p).buffers i).page k ≡ bm.data_file.file.content (p * page_size + k)
  unfolding read_buffer read_page file_read
  read_page_lem k h = rw (put_at_self bm.buffers i) (copy_in _ 0 _ page_size k k (omega arith) h)

  read_file : (read_buffer bm i p).data_file ≡ bm.data_file
  unfolding read_buffer
  read_file = refl

  number_of :
      (j : ℕ)
      → ((j ≡ i) × (((read_buffer bm i p).buffers j).page_number ≡ p))
        ⊎ ((j ≢ i) × (((read_buffer bm i p).buffers j).page_number ≡ (bm.buffers j).page_number))
  number_of j = elim (ℕ_discrete j i) [
    | yes e ↦ inl (e, rw e read_number)
    | no ne ↦ inr (ne, ap (λ (b : Buffer). b.page_number) (read_other j ne))
  ]

  pub read_Coherent : Coherent (read_buffer bm i p)
  read_Coherent = record {
    unique = λ a b ha hb e v. elim (number_of a) [
      | inl (a_own, na) ↦ elim (number_of b) [
        | inl (b_own, nb) ↦ a_own ∙ sym b_own
        | inr (_, nb) ↦ absurd (absent b hb (sym nb ∙ sym e ∙ na))
      ]
      | inr (_, na) ↦ elim (number_of b) [
        | inl (_, nb) ↦ absurd (absent a ha (sym na ∙ e ∙ nb))
        | inr (_, nb) ↦ c.unique a b ha hb (sym na ∙ e ∙ nb) (λ q. v (na ∙ q))
      ]
    ];
    clean = λ j hj m v k hk. elim (ℕ_discrete j i) [
      | yes e ↦ rw e (rw (read_number, read_file) (read_page_lem k hk))
      | no ne ↦
          rw (read_other j ne, read_file)
            (c.clean j hj (rw (read_other j ne) at m) (rw (read_other j ne) at v) k hk)
    ];
  }

  read_absent :
      (q : ℕ)
      → q ≢ p
      → ((j : ℕ) → j < buffer_pool_size → j ≢ i → (bm.buffers j).page_number ≢ q)
      → (j : ℕ) → j < buffer_pool_size
      → ((read_buffer bm i p).buffers j).page_number ≢ q
  read_absent q ne none_else j hj e = elim (number_of j) [
    | inl (_, n) ↦ ne (sym e ∙ n)
    | inr (other, n) ↦ none_else j hj other (sym n ∙ e)
  ]

  pub read_view :
      (q k : ℕ) → q ≢ invalid_pnum → k < page_size → view (read_buffer bm i p) q k ≡ view bm q k
  read_view q k valid h = elim (ℕ_discrete q p) [
    | yes e ↦
        view-holder _ read_Coherent q i k small (read_number ∙ sym e) valid
        ∙ read_page_lem k h
        ∙ sym (view-absent bm p k absent)
        ∙ ap (λ q. view bm q k) (sym e)
    | no ne ↦ elim (holder-cases bm q) [
      | inl (j, hj, e) ↦ elim (ℕ_discrete j i) [
        | yes ei ↦ evicted ne valid j hj e ei
        | no other ↦
            view-holder _ read_Coherent q j k hj
              (ap (λ (b : Buffer). b.page_number) (read_other j other) ∙ e) valid
            ∙ ap (λ (b : Buffer). b.page k) (read_other j other)
            ∙ sym (view-holder bm c q j k hj e valid)
      ]
      | inr none_holds ↦
          view-absent _ q k (read_absent q ne (λ j hj _. none_holds j hj))
          ∙ ap (λ (d : DataFile). d.file.content (q * page_size + k)) read_file
          ∙ sym (view-absent bm q k none_holds)
    ]
  ]
    where
      evicted :
          q ≢ p
          → q ≢ invalid_pnum
          → (j : ℕ) → j < buffer_pool_size
          → (bm.buffers j).page_number ≡ q
          → j ≡ i
          → view (read_buffer bm i p) q k ≡ view bm q k
      evicted ne valid j hj e ei =
          view-absent _ q k (
            read_absent q ne (λ j' hj' other e'.
              other (c.unique j' j hj' hj (e' ∙ sym e) (λ z. valid (sym e' ∙ z)) ∙ ei)))
          ∙ ap (λ (d : DataFile). d.file.content (q * page_size + k)) read_file
          ∙ ap (λ n. bm.data_file.file.content (n * page_size + k)) (sym e)
          ∙ sym (c.clean j hj (rw (← ei) at own) (λ z. valid (sym e ∙ z)) k h)
          ∙ sym (view-holder bm c q j k hj e valid)
