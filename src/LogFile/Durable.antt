-- ===== src/LogFile/Durable.antt =====
-- What `flush_log` has put in the file outlives the server.
use npsql.Base.{
  ℕ, suc, ◌+◌, ◌*◌, ◌≤◌, ◌<◌, ◌≡◌, ◌∙◌, refl, ap, Mem, copy, copy_in, copy_out, List, arith, leb,
  ◌==◌, true, false,
}
use npsql.LogFile.{
  page_size, File, LogFile, get_last_record_position, flush_page, flush_log, file_write, file_read,
  open_iterator, open_log_file,
}
use npsql.LogFile.Chain.{Chain-ext, read_uint16_ext}
use npsql.LogFile.Iterate.{Yields, open_iterator-Yields}
use npsql.LogFile.Refine.{Logs, Stored-ext}

-- The file after the page in use is flushed.
flush_page-content :
    (lf : LogFile) (a : ℕ)
    → (flush_page lf).file.content a
      ≡ copy lf.file.content (lf.current_page_number * page_size) lf.current_page page_size a
unfolding flush_page file_write
flush_page-content lf a = refl

flush_page-size :
    (lf : LogFile)
    → lf.file.size ≡ suc lf.current_page_number * page_size
    → (flush_page lf).file.size ≡ suc lf.current_page_number * page_size
unfolding flush_page file_write
flush_page-size lf e = ground arith

-- What the file alone gives back: its last page and its number.
open_log_file-lem :
    (f : File) (n : ℕ) (stale : Mem)
    → f.size ≡ suc n * page_size
    → let lf = open_log_file f stale in
      (lf.current_page_number ≡ n)
      × (lf.file ≡ f)
      × ((k : ℕ) → k < page_size → lf.current_page k ≡ f.content (n * page_size + k))
unfolding open_log_file file_read
open_log_file-lem f n stale e = rw some_pages (
  omega arith,
  refl,
  λ k h. copy_in stale 0 _ page_size k k (omega arith) h ∙ ap f.content (omega arith),
)
  where
    some_pages : (f.size == 0) ≡ false
    some_pages = ground arith

-- Where the file ends with the page in use and flush_log is asked for that page or a later one, the
-- file alone, opened again, yields the records that the log held.
pub flush_log-durable :
    (lf : LogFile) (lsn : ℕ) (stale stale' : Mem) (xs : List (List ℕ))
    → Logs lf xs
    → lf.file.size ≡ suc lf.current_page_number * page_size
    → lf.current_page_number ≤ lsn
    → Yields (open_iterator (open_log_file (flush_log lf lsn).file stale) stale') xs
unfolding flush_log
flush_log-durable lf lsn stale stale' xs l whole asked =
    rw (flushes, l.all)
      (open_iterator-Yields again stale' l.here l.older
        (rw head (
          Chain-ext lf.current_page again.current_page _ l.here
            (λ k lo hi. page k (omega (arith, l.page.fits))) l.page.chain))
        (rw head l.page.fits)
        (rw (opened.0, opened.1)
          (Stored-ext lf.file.content (flush_page lf).file.content n l.older below l.file)))
  where
    flushes : leb lf.current_page_number lsn ≡ true
    flushes = ground arith

    n : ℕ
    n = lf.current_page_number

    again : LogFile
    again = open_log_file (flush_page lf).file stale

    opened :
        (again.current_page_number ≡ n)
        × (again.file ≡ (flush_page lf).file)
        × ((k : ℕ)
            → k < page_size
            → again.current_page k ≡ (flush_page lf).file.content (n * page_size + k))
    opened = open_log_file-lem (flush_page lf).file n stale (flush_page-size lf whole)

    page : (k : ℕ) → k < page_size → again.current_page k ≡ lf.current_page k
    page k h =
        opened.2 k h
        ∙ flush_page-content lf (n * page_size + k)
        ∙ copy_in lf.file.content (n * page_size) lf.current_page page_size _ k refl h

    head : get_last_record_position again.current_page ≡ get_last_record_position lf.current_page
    head =
        unfold get_last_record_position in
        read_uint16_ext lf.current_page again.current_page 0 (page 0 (omega arith))
          (page (0 + 1) (omega arith))

    below : (a : ℕ) → a < n * page_size → (flush_page lf).file.content a ≡ lf.file.content a
    below a h =
        flush_page-content lf a
        ∙ copy_out lf.file.content (n * page_size) lf.current_page page_size a (omega arith)
