-- ===== src/LogFile/Bounds.antt =====
-- server/src/log_file.c: a record that fits its page with its trailer is written inside the page.
use npsql.Base.{
  ℕ, ◌+◌, ◌%◌, ◌^◌, ◌≤◌, ◌<◌, ◌≡◌, ◌∙◌, ◌⊎◌, inl, inr, refl, Mem, copy_out, arith, ltb, true, false,
}
use npsql.Bytes.{write_uint16}
use npsql.LogFile.{
  page_size, LogFile, set_last_record_position, append_here, next_page, append_new_page, flush_page,
  file_read, append,
}

-- The record fits a new page together with its trailer, and so it does the page in use, unless it does
-- not fit that page at all.
abbrev pub Fits : LogFile → ℕ → Type 0
Fits lf s =
    (s + 4 ≤ page_size)
    × ((lf.current_page_position + s + 2 ≤ page_size) ⊎ (page_size < lf.current_page_position + s))

append_here-inside :
    (lf : LogFile) (r : Mem) (s k : ℕ)
    → lf.current_page_position + s + 2 ≤ page_size
    → page_size ≤ k
    → (append_here lf r s).current_page k ≡ lf.current_page k
unfolding append_here set_last_record_position write_uint16
append_here-inside lf r s k room past =
    copy_out _ 0 _ 2 k (inr (omega arith))
    ∙ copy_out _ ((lf.current_page_position + s % 2 ^ 16) % 2 ^ 16) _ 2 k (inr (omega arith))
    ∙ copy_out lf.current_page lf.current_page_position r s k (inr (omega arith))

next_page-inside :
    (lf : LogFile) (k : ℕ)
    → page_size ≤ k
    → ((next_page lf).current_page k ≡ lf.current_page k)
      × ((next_page lf).current_page_position ≡ 2)
unfolding next_page append_new_page flush_page file_read set_last_record_position write_uint16
next_page-inside lf k past = (
  copy_out _ 0 _ 2 k (inr (omega arith)) ∙ copy_out lf.current_page 0 _ page_size k (inr past),
  refl,
)

pub append-inside :
    (lf : LogFile) (r : Mem) (s k : ℕ)
    → Fits lf s
    → page_size ≤ k
    → (append lf r s).0.current_page k ≡ lf.current_page k
unfolding append
append-inside lf r s k (small, inl room) past =
    let here : ltb page_size (lf.current_page_position + s) ≡ false = ground arith in
    rw here (append_here-inside lf r s k room past)
append-inside lf r s k (small, inr full) past =
    let leaves : ltb page_size (lf.current_page_position + s) ≡ true = ground arith in
    let (same, at) = next_page-inside lf k past in
    rw leaves (append_here-inside (next_page lf) r s k (omega (arith, at)) past ∙ same)
