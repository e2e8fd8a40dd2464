-- ===== src/BufferManager/Search.antt =====
-- The two searches of the pool, and frames that hold different pages.
use npsql.Base.{
  find_from-some, find_from-none, ℕ, ◌<◌, ◌≡◌, ◌≢◌, ◌∙◌, sym, ap, Option-cases, inl, inr, none,
  some, ◌==◌, ==-false, arith,
}
use npsql.BufferManager.{
  Buffer, BufferManager, find_existing_buffer, buffer_pool_size, invalid_pnum,
}

-- No two frames hold the same page.
abbrev pub Unique : (ℕ → Buffer) → Type 0
Unique bs =
    (i j : ℕ)
    → i < buffer_pool_size
    → j < buffer_pool_size
    → (bs i).page_number ≡ (bs j).page_number
    → (bs i).page_number ≢ invalid_pnum
    → i ≡ j

pub find_existing_buffer-some :
    (bm : BufferManager) (p i : ℕ)
    → find_existing_buffer bm p ≡ some i
    → (i < buffer_pool_size) × ((bm.buffers i).page_number ≡ p)
unfolding find_existing_buffer
find_existing_buffer-some bm p i h =
    ground (arith, find_from-some (λ b. b.page_number == p) bm.buffers 0 buffer_pool_size i h)

pub find_existing_buffer-none :
    (bm : BufferManager) (p : ℕ)
    → find_existing_buffer bm p ≡ none
    → (i : ℕ) → i < buffer_pool_size
    → (bm.buffers i).page_number ≢ p
unfolding find_existing_buffer
find_existing_buffer-none bm p h i small = ==-false _ p (
    find_from-none (λ b. b.page_number == p) bm.buffers 0 buffer_pool_size h i (omega arith)
      (omega arith))

-- A page has one frame at most, so the search finds the frame that holds it.
pub find_existing_buffer-holder :
    (bm : BufferManager) (p i : ℕ)
    → Unique bm.buffers
    → i < buffer_pool_size
    → (bm.buffers i).page_number ≡ p
    → p ≢ invalid_pnum
    → find_existing_buffer bm p ≡ some i
find_existing_buffer-holder bm p i u small e valid =
    elim (Option-cases (find_existing_buffer bm p)) [
      | inl absent ↦ absurd (find_existing_buffer-none bm p absent i small e)
      | inr (j, found) ↦ found ∙ same j (find_existing_buffer-some bm p j found)
    ]
  where
    same : (j : ℕ) → (j < buffer_pool_size) × ((bm.buffers j).page_number ≡ p) → some j ≡ some i
    same j (in_pool, e') = ap some (u j i in_pool small (e' ∙ sym e) (λ q. valid (sym e' ∙ q)))
