-- ===== src/LogFile/Faults.antt =====
-- Where log_file.c loses records: a log opened again, and a record that ends at the end of a page.
use npsql.Base.{ℕ, ◌+◌, ◌/◌, ◌%◌, ◌^◌, ◌≤◌, ◌<◌, ◌≡◌, ◌≢◌, ◌∙◌, sym, Mem, arith, ltb, false}
use npsql.Bytes.{read_uint16}
use npsql.LogFile.{
  page_size, File, LogFile, get_last_record_position, append_here, append, open_log_file,
  open_iterator, next,
}
use npsql.LogFile.Append.{
  stitched, stitched_record, stitched_link, stitched_head, append_here-stitched, stitched_trailer,
}
use npsql.LogFile.Iterate.{open_iterator-next}

-- `append` on the page in use.
append-here :
    (lf : LogFile) (r : Mem) (s : ℕ)
    → lf.current_page_position + s ≤ page_size
    → (append lf r s).0 ≡ append_here lf r s
unfolding append
append-here lf r s h = rw fits
  where
    fits : ltb page_size (lf.current_page_position + s) ≡ false
    fits = ground arith

-- A log file that is not empty is opened with the next record's position on its last trailer.
open_log_file-position :
    (f : File) (stale : Mem)
    → f.size ≢ 0
    → (open_log_file f stale).current_page_position
      ≡ get_last_record_position (open_log_file f stale).current_page
unfolding open_log_file
open_log_file-position f stale h = ground arith

-- Where the position stands on the last trailer, the newest record is read two bytes late.
shifted :
    (lf : LogFile) (r stale : Mem) (s j : ℕ)
    → lf.current_page_position ≡ get_last_record_position lf.current_page
    → 2 ≤ lf.current_page_position
    → lf.current_page_position + s + 2 ≤ page_size
    → j + 2 < s
    → let (i, start) = next (open_iterator (append lf r s).0 stale) in
      i.current_page (start + j) ≡ r (j + 2)
shifted lf r stale s j at low room h =
    rw here (rw first.0 (first.1 (p + 2 + j) (omega arith) ∙ shift))
  where
    p : ℕ
    p = lf.current_page_position

    page : Mem
    page = stitched lf.current_page p r s (get_last_record_position lf.current_page)

    q : ℕ
    q = get_last_record_position lf.current_page

    head : get_last_record_position page ≡ p + s
    head =
        unfold get_last_record_position in stitched_head lf.current_page p r s q low (omega arith)

    link : read_uint16 page (p + s) ≡ q
    link = stitched_link lf.current_page p r s q low (omega arith) (omega arith)

    here : (append lf r s).0 ≡ record lf { current_page = page; current_page_position = p + s + 2 }
    here = append-here lf r s (omega arith) ∙ append_here-stitched lf r s low (omega arith)

    lf' : LogFile
    lf' = record lf { current_page = page; current_page_position = p + s + 2 }

    first :
        ((next (open_iterator lf' stale)).1 ≡ p + 2)
        × ((k : ℕ) → k < page_size → (next (open_iterator lf' stale)).0.current_page k ≡ page k)
    first =
        open_iterator-next lf' stale (p + s) p head (link ∙ sym at) (omega arith) (omega arith)
          (omega arith)

    shift : page (p + 2 + j) ≡ r (j + 2)
    shift = ground (arith, stitched_record lf.current_page p r s q low (omega arith) (2 + j))

-- A log file that is not empty is opened and appended to, with room on its last page and the last
-- trailer at 2 or later: what an iterator reads as the newest record is that record without its first
-- two bytes.
pub reopened-append :
    (f : File) (page r stale : Mem) (s j : ℕ)
    → f.size ≢ 0
    → 2 ≤ (open_log_file f page).current_page_position
    → (open_log_file f page).current_page_position + s + 2 ≤ page_size
    → j + 2 < s
    → let (i, start) = next (open_iterator (append (open_log_file f page) r s).0 stale) in
      i.current_page (start + j) ≡ r (j + 2)
reopened-append f page r stale s j some_pages low room h =
    shifted (open_log_file f page) r stale s j (open_log_file-position f page some_pages) low room h

-- A record that ends at the page's end or one byte before passes the test of `append`, and its trailer
-- is written to the two addresses that follow, of which the second lies past the page.
pub append-past_end :
    (lf : LogFile) (r : Mem) (s : ℕ)
    → 2 ≤ lf.current_page_position
    → s < 2 ^ 16
    → lf.current_page_position + s ≤ page_size
    → page_size < lf.current_page_position + s + 2
    → let trailer = lf.current_page_position + s in
      (page_size ≤ trailer + 1)
      × ((append lf r s).0.current_page (trailer + 1)
          ≡ get_last_record_position lf.current_page / 256 % 256)
append-past_end lf r s low small passes past = (
  omega arith,
  rw (append-here lf r s passes, append_here-stitched lf r s low (omega arith))
      (stitched_trailer lf.current_page lf.current_page_position r s _ low (omega arith)),
)
