-- ===== src/BufferManager/Append.antt =====
-- `pin_new`: a page at the end of the file, which holds whatever its frame held.
use npsql.Base.{
  fun_ext, ℕ, ◌+◌, ◌*◌, ◌<◌, ◌≡◌, ◌≢◌, ◌∙◌, refl, sym, copy_in, copy_out, inl, inr, arith, dec_lt,
}
use npsql.LogFile.{page_size, file_read, file_write}
use npsql.BufferManager.{
  BufferManager, buffer_pool_size, invalid_pnum, invalid_tsx, read_buffer, new_buffer, append_page,
  write_page, read_page,
}
use npsql.BufferManager.View.{
  view, Coherent, view-holder, view-absent, holder-cases, write-apart, write-own,
}
use npsql.BufferManager.Evict.{Kept, read_Coherent, read_view}
use npsql.BufferManager.Pin.{Same, Same-Kept}

-- The file with a page more, which no frame holds yet.
abbrev longer : BufferManager → ℕ → BufferManager
longer bm i = record bm { data_file = (append_page bm.data_file (bm.buffers i).page).0 }

module _ (bm : BufferManager) (i : ℕ) (small : i < buffer_pool_size) (c : Coherent bm)
    (own : (bm.buffers i).modified_by ≡ invalid_tsx) (new : bm.data_file.page_count ≢ invalid_pnum)
    (absent : (j : ℕ)
      → j < buffer_pool_size
      → (bm.buffers j).page_number ≢ bm.data_file.page_count) where
  longer_other :
      (q k : ℕ)
      → q ≢ bm.data_file.page_count
      → k < page_size
      → (longer bm i).data_file.file.content (q * page_size + k)
        ≡ bm.data_file.file.content (q * page_size + k)
  unfolding append_page write_page file_write
  longer_other q k ne hk =
      write-apart bm.data_file.file.content (bm.buffers i).page bm.data_file.page_count q k
        (λ e. ne (sym e)) hk

  longer_own :
      (k : ℕ)
      → k < page_size
      → (longer bm i).data_file.file.content (bm.data_file.page_count * page_size + k)
        ≡ (bm.buffers i).page k
  unfolding append_page write_page file_write
  longer_own k hk =
      write-own bm.data_file.file.content (bm.buffers i).page bm.data_file.page_count k hk

  longer-Coherent : Coherent (longer bm i)
  longer-Coherent = record {
    unique = c.unique;
    clean = λ j hj m v k hk.
        c.clean j hj m v k hk ∙ sym (longer_other (bm.buffers j).page_number k (absent j hj) hk);
  }

  view-longer :
      (q k : ℕ)
      → q ≢ invalid_pnum
      → q ≢ bm.data_file.page_count
      → k < page_size
      → view (longer bm i) q k ≡ view bm q k
  view-longer q k ok ne hk = elim (holder-cases bm q) [
    | inl (j, hj, e) ↦
        view-holder (longer bm i) longer-Coherent q j k hj e ok
        ∙ sym (view-holder bm c q j k hj e ok)
    | inr none_holds ↦
        view-absent (longer bm i) q k none_holds
        ∙ longer_other q k ne hk
        ∙ sym (view-absent bm q k none_holds)
  ]

  -- Read back from the file, the frame's bytes are what they were.
  read_back :
      read_page (longer bm i).data_file bm.data_file.page_count (bm.buffers i).page
      ≡ (bm.buffers i).page
  unfolding read_page file_read
  read_back = fun_ext (λ k. elim (dec_lt k page_size) [
    | yes h ↦ copy_in (bm.buffers i).page 0 _ page_size k k (omega arith) h ∙ longer_own k h
    | no h ↦ copy_out (bm.buffers i).page 0 _ page_size k (inr (omega arith))
  ])

  reread-Same : Same (read_buffer (longer bm i) i bm.data_file.page_count) (new_buffer bm i)
  unfolding read_buffer new_buffer append_page
  reread-Same = record {
    number = λ k. ground arith;
    page = λ k. ground (arith, read_back);
    modified = λ k. ground arith;
    file = refl;
  }

  pub new_buffer-Kept : Kept (longer bm i) (new_buffer bm i)
  new_buffer-Kept =
      let coherent =
        read_Coherent (longer bm i) i bm.data_file.page_count small longer-Coherent own absent in
      let same =
        read_view (longer bm i) i bm.data_file.page_count small longer-Coherent own absent in
      let k =
        Same-Kept (read_buffer (longer bm i) i bm.data_file.page_count) (new_buffer bm i) coherent
          reread-Same in
      record { coherent = k.coherent; same_view = λ q j v h. k.same_view q j v h ∙ same q j v h }

  -- The new page shows the frame's bytes, and every other page what it showed.
  pub new_buffer-view :
      (q k : ℕ)
      → q ≢ invalid_pnum
      → q ≢ bm.data_file.page_count
      → k < page_size
      → view (new_buffer bm i) q k ≡ view bm q k
  new_buffer-view q k ok ne hk = new_buffer-Kept.same_view q k ok hk ∙ view-longer q k ok ne hk

  pub new_buffer-view_new :
      (k : ℕ)
      → k < page_size
      → view (new_buffer bm i) bm.data_file.page_count k ≡ (bm.buffers i).page k
  new_buffer-view_new k hk =
      new_buffer-Kept.same_view bm.data_file.page_count k new hk
      ∙ view-absent (longer bm i) bm.data_file.page_count k absent
      ∙ longer_own k hk
