-- ===== src/BufferManager/Write.antt =====
-- `write_buffer`: one frame's bytes, and so one page's.
use npsql.Base.{
  put_at_self, put_at-ne, ℕ, ◌<◌, ◌≡◌, ◌≢◌, ◌∙◌, refl, sym, ap, Mem, copy, inl, inr, arith,
  ℕ_discrete,
}
use npsql.BufferManager.{
  Buffer, BufferManager, buffer_pool_size, invalid_pnum, invalid_tsx, write_buffer,
}
use npsql.BufferManager.View.{view, Coherent, view-holder, view-absent, holder-cases}

pub copy-same :
    (m m' : Mem) (off : ℕ) (src : Mem) (n k : ℕ)
    → m k ≡ m' k
    → copy m off src n k ≡ copy m' off src n k
unfolding copy
copy-same m m' off src n k e = rw e refl

module _ (bm : BufferManager) (i : ℕ) (update : Mem) (offset size tsx lsn : ℕ)
    (small : i < buffer_pool_size) (c : Coherent bm)
    (valid : (bm.buffers i).page_number ≢ invalid_pnum) (dirty : tsx ≢ invalid_tsx) where
  abbrev after : BufferManager
  after = write_buffer bm i update offset size tsx lsn

  write_other : (j : ℕ) → j ≢ i → after.buffers j ≡ bm.buffers j
  unfolding write_buffer
  write_other j ne = put_at-ne bm.buffers i _ j ne

  pub write_number : (j : ℕ) → (after.buffers j).page_number ≡ (bm.buffers j).page_number
  unfolding write_buffer
  write_number j = ground arith

  pub write_modified : (after.buffers i).modified_by ≡ tsx
  unfolding write_buffer
  write_modified = ap (λ (b : Buffer). b.modified_by) (put_at_self bm.buffers i _)

  write_page_own :
      (k : ℕ) → (after.buffers i).page k ≡ copy (bm.buffers i).page offset update size k
  unfolding write_buffer
  write_page_own k = ap (λ (b : Buffer). b.page k) (put_at_self bm.buffers i _)

  pub write_Coherent : Coherent after
  unfolding write_buffer
  write_Coherent = record {
    unique = λ a b ha hb e v.
        c.unique a b ha hb (sym (write_number a) ∙ e ∙ write_number b)
          (λ q. v (write_number a ∙ q));
    clean = λ j hj m v k hk. elim (ℕ_discrete j i) [
      | yes e ↦ absurd (dirty (sym write_modified ∙ rw e at m))
      | no ne ↦
          rw (write_other j ne)
            (c.clean j hj (rw (write_other j ne) at m) (rw (write_other j ne) at v) k hk)
    ];
  }

  -- The bytes of the page that the frame holds are those that were copied in; no other page changes.
  pub write_view_own :
      (k : ℕ)
      → view after (bm.buffers i).page_number k
        ≡ copy (view bm (bm.buffers i).page_number) offset update size k
  write_view_own k =
      view-holder after write_Coherent (bm.buffers i).page_number i k small (write_number i) valid
      ∙ write_page_own k
      ∙ copy-same (bm.buffers i).page (view bm (bm.buffers i).page_number) offset update size k
          (sym (view-holder bm c (bm.buffers i).page_number i k small refl valid))

  pub write_view_other :
      (q k : ℕ) → q ≢ invalid_pnum → q ≢ (bm.buffers i).page_number → view after q k ≡ view bm q k
  unfolding write_buffer
  write_view_other q k ok ne = elim (holder-cases bm q) [
    | inl (j, hj, e) ↦
        let other : j ≢ i = λ ji. ne (sym e ∙ ap (λ n. (bm.buffers n).page_number) ji) in
        view-holder after write_Coherent q j k hj (write_number j ∙ e) ok
        ∙ ap (λ (b : Buffer). b.page k) (write_other j other)
        ∙ sym (view-holder bm c q j k hj e ok)
    | inr absent ↦
        view-absent after q k (λ j hj e. absent j hj (sym (write_number j) ∙ e))
        ∙ sym (view-absent bm q k absent)
  ]
