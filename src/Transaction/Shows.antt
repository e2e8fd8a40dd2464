-- ===== src/Transaction/Shows.antt =====
-- The pages that the heap tables work on, as a transaction finds them in the pool and its file.
use npsql.Base.{
  ℕ, ◌+◌, ◌≤◌, ◌<◌, ◌≡◌, ◌≢◌, ◌∙◌, sym, Mem, copy, copy_in, copy_out, inl, inr, ◌-◌, false, arith,
  dec_lt,
}
use npsql.LogFile.{page_size}
use npsql.BufferManager.{BufferManager, buffer_pool_size, invalid_pnum, invalid_tsx}
use npsql.BufferManager.View.{view, Coherent, view-holder}
use npsql.BufferManager.Pin.{Same, Same-Kept}
use npsql.HeapTable.{Store}
use npsql.Transaction.{Working}
use npsql.Transaction.Buffers.{Framed, Found}

-- Through the pool, every page of the store is read as the store has it.
pub record Shows (bm : BufferManager) (s : Store) : Type 0 where
  pub coherent : Coherent bm
  pub free : bm.locked ≡ false
  pub page_count : bm.data_file.page_count ≡ s.page_count
  pub fits : s.page_count ≤ invalid_pnum
  pub numbers :
      (i : ℕ)
      → i < buffer_pool_size
      → (bm.buffers i).page_number ≢ invalid_pnum
      → (bm.buffers i).page_number < s.page_count
  pub bytes : (q k : ℕ) → q < s.page_count → k < page_size → view bm q k ≡ s.pages q k

pub valid_page : (q n : ℕ) → q < n → n ≤ invalid_pnum → q ≢ invalid_pnum
valid_page q n small fits e = absurd (omega arith)

pub Same-Shows :
    (bm bm' : BufferManager) (s : Store)
    → Same bm bm'
    → bm'.locked ≡ false
    → Shows bm s
    → Shows bm' s
Same-Shows bm bm' s same free h =
    let kept = Same-Kept bm bm' h.coherent same in
    record {
      coherent = kept.coherent;
      free = free;
      page_count = rw same.file h.page_count;
      fits = h.fits;
      numbers =
          λ i small valid. rw (same.number i) (h.numbers i small (λ e. valid (same.number i ∙ e)));
      bytes = λ q k hq hk.
          kept.same_view q k (valid_page q s.page_count hq h.fits) hk ∙ h.bytes q k hq hk;
    }

-- The frame that holds a page of the store has the store's bytes.
pub Shows-frame :
    (bm : BufferManager) (s : Store) (p i k : ℕ)
    → Shows bm s
    → p < s.page_count
    → i < buffer_pool_size
    → (bm.buffers i).page_number ≡ p
    → k < page_size
    → (bm.buffers i).page k ≡ s.pages p k
Shows-frame bm s p i k h hp small e hk =
    sym (view-holder bm h.coherent p i k small e (valid_page p s.page_count hp h.fits))
    ∙ h.bytes p k hp hk

-- A transaction at work on a store.
pub record Attached (w : Working) (s : Store) : Type 0 where
  pub shows : Shows w.0.bmgr s
  pub framed : Framed w.1.buffers
  pub named : w.1.id ≢ invalid_tsx

-- It has a frame for page `p`.
abbrev pub Ready : Working → ℕ → Type 0
Ready w p = (i : ℕ) × Found w.0.bmgr w.1.buffers p i

pub copy-cong :
    (m : Mem) (off : ℕ) (src src' : Mem) (n k : ℕ)
    → ((j : ℕ) → j < n → src j ≡ src' j)
    → copy m off src n k ≡ copy m off src' n k
copy-cong m off src src' n k same = elim (dec_lt k off) [
  | yes before ↦ copy_out m off src n k (inl before) ∙ sym (copy_out m off src' n k (inl before))
  | no not_before ↦ elim (dec_lt k (off + n)) [
    | yes inside ↦
        copy_in m off src n k (k - off) (omega arith) (omega arith)
        ∙ same (k - off) (omega arith)
        ∙ sym (copy_in m off src' n k (k - off) (omega arith) (omega arith))
    | no beyond ↦
        copy_out m off src n k (inr (omega arith))
        ∙ sym (copy_out m off src' n k (inr (omega arith)))
  ]
]
