-- ===== src/LogFile/Refine.antt =====
-- The log refines a list of records, the newest first: `append` puts a record in front, on whatever
-- page it lands, and the iterator gives the list back.
use npsql.Base.{
  ℕ, zero, suc, ◌+◌, ◌*◌, ◌≤◌, ◌<◌, ◌≡◌, ◌⊎◌, inl, inr, ◌∙◌, refl, Mem, copy, copy_in, copy_out,
  from, bytes, List, [], ◌∷◌, ◌++◌, arith, ltb, true, false,
}
use npsql.Bytes.{read_uint16}
use npsql.Bytes.Laws.{read_uint16-write_uint16}
use npsql.LogFile.{
  page_size, File, LogFile, get_last_record_position, set_last_record_position, append_here, append,
  next_page, append_new_page, open_log_file, flush_page, file_write, file_expand, file_read,
  open_iterator,
}
use npsql.LogFile.Chain.{Chain-ext, read_uint16_ext}
use npsql.LogFile.Append.{Holds, append_here-Holds}
use npsql.LogFile.Iterate.{Stored, Yields, all_records, open_iterator-Yields}

-- The records of the log, the newest first.
pub record Logs (lf : LogFile) (xs : List (List ℕ)) : Type 0 where
  pub here : List (List ℕ)
  pub older : List (List (List ℕ))
  pub page : Holds lf here
  pub file : Stored lf.file.content lf.current_page_number older
  pub all : xs ≡ here ++ all_records older

pub Stored-ext :
    (m m' : Mem) (n : ℕ) (gs : List (List (List ℕ)))
    → ((a : ℕ) → a < n * page_size → m' a ≡ m a)
    → Stored m n gs
    → Stored m' n gs
Stored-ext m m' zero [] same s = tt
Stored-ext m m' zero (g ∷ gs) same s = elim s [ ]
Stored-ext m m' (suc n) [] same s = elim s [ ]
Stored-ext m m' (suc n) (g ∷ gs) same (some_record, fits, chain, older) = rw head (
  some_record,
  fits,
  Chain-ext p p' _ g (λ k lo hi. page k (omega arith)) chain,
  Stored-ext m m' n gs (λ a h. same a (omega arith)) older,
)
  where
    p : Mem
    p = from m (n * page_size)

    p' : Mem
    p' = from m' (n * page_size)

    page : (k : ℕ) → k < page_size → p' k ≡ p k
    page k h = same (n * page_size + k) (omega arith)

    head : get_last_record_position p' ≡ get_last_record_position p
    head =
        unfold get_last_record_position in
        read_uint16_ext p p' 0 (page 0 (omega arith)) (page (0 + 1) (omega arith))

-- What the file holds after the page is flushed and the file is made longer.
next_page-content :
    (lf : LogFile) (a : ℕ)
    → a < suc lf.current_page_number * page_size
    → (next_page lf).file.content a
      ≡ copy lf.file.content (lf.current_page_number * page_size) lf.current_page page_size a
unfolding next_page append_new_page flush_page file_write file_expand
next_page-content lf a h = ground arith

append_new_page-Holds : (lf : LogFile) → Holds (append_new_page lf) []
unfolding append_new_page get_last_record_position set_last_record_position
append_new_page-Holds lf = record {
  chain = empty;
  fits = omega (arith, empty);
  position = omega (arith, empty);
}
  where
    page : Mem
    page =
        file_read (file_expand lf.file (page_size + lf.current_page_number * page_size))
          lf.current_page page_size (lf.current_page_number * page_size)

    empty : read_uint16 (set_last_record_position 0 page) 0 ≡ 0
    empty = read_uint16-write_uint16 page 0 0 (omega arith)

next_page-Holds : (lf : LogFile) → Holds (next_page lf) []
unfolding next_page
next_page-Holds lf =
    append_new_page-Holds
      (record (flush_page lf) { current_page_number = (flush_page lf).current_page_number + 1 })

next_page-number : (lf : LogFile) → (next_page lf).current_page_number ≡ suc lf.current_page_number
unfolding next_page append_new_page flush_page
next_page-number lf = omega arith

-- A page that is left goes to the file whole.
next_page-Stored :
    (lf : LogFile) (r : List ℕ) (rs : List (List ℕ)) (gs : List (List (List ℕ)))
    → Holds lf (r ∷ rs)
    → Stored lf.file.content lf.current_page_number gs
    → Stored (next_page lf).file.content (next_page lf).current_page_number ((r ∷ rs) ∷ gs)
next_page-Stored lf r rs gs h older =
    rw (next_page-number lf, head)
      (
        omega arith,
        h.fits,
        Chain-ext lf.current_page p _ (r ∷ rs) (λ k lo hi. page k (omega (arith, h.fits))) h.chain,
        Stored-ext lf.file.content (next_page lf).file.content n gs below older,
      )
  where
    n : ℕ
    n = lf.current_page_number

    p : Mem
    p = from (next_page lf).file.content (n * page_size)

    page : (k : ℕ) → k < page_size → p k ≡ lf.current_page k
    page k small =
        next_page-content lf (n * page_size + k) (omega arith)
        ∙ copy_in lf.file.content (n * page_size) lf.current_page page_size _ k refl small

    below : (a : ℕ) → a < n * page_size → (next_page lf).file.content a ≡ lf.file.content a
    below a small =
        next_page-content lf a (omega arith)
        ∙ copy_out lf.file.content (n * page_size) lf.current_page page_size a (omega arith)

    head : get_last_record_position p ≡ get_last_record_position lf.current_page
    head =
        unfold get_last_record_position in
        read_uint16_ext lf.current_page p 0 (page 0 (omega arith)) (page (0 + 1) (omega arith))

append_here-frame :
    (lf : LogFile) (r : Mem) (s : ℕ)
    → ((append_here lf r s).file ≡ lf.file)
      × ((append_here lf r s).current_page_number ≡ lf.current_page_number)
unfolding append_here
append_here-frame lf r s = (refl, refl)

append_here-Logs :
    (lf : LogFile) (r : Mem) (s : ℕ) (rs : List (List ℕ)) (gs : List (List (List ℕ)))
    → Holds lf rs
    → Stored lf.file.content lf.current_page_number gs
    → lf.current_page_position + s + 2 ≤ page_size
    → Logs (append_here lf r s) (bytes r 0 s ∷ rs ++ all_records gs)
append_here-Logs lf r s rs gs h older room = record {
  here = bytes r 0 s ∷ rs;
  older = gs;
  page = append_here-Holds lf r s rs h room;
  file = rw ((append_here-frame lf r s).0, (append_here-frame lf r s).1) older;
  all = refl;
}

-- On an empty file the log opens with no records, on page 0 of a file of one page.
pub open_log_file-Logs :
    (f : File) (stale : Mem)
    → f.size ≡ 0
    → Logs (open_log_file f stale) []
      × ((open_log_file f stale).current_page_number ≡ 0)
      × ((open_log_file f stale).file.size ≡ page_size)
unfolding append_new_page file_expand
open_log_file-Logs f stale e = rw opens (
  record { here = []; older = []; page = append_new_page-Holds lf; file = tt; all = refl },
  refl,
  refl,
)
  where
    lf : LogFile
    lf = record {
      file = f;
      current_page_number = 0;
      current_page_position = 0;
      current_page = stale;
    }

    opens : open_log_file f stale ≡ append_new_page lf
    opens = unfold open_log_file in rw e

pub append-Logs :
    (lf : LogFile) (r : Mem) (s : ℕ) (xs : List (List ℕ))
    → Logs lf xs
    → s + 4 ≤ page_size
    → (lf.current_page_position + s + 2 ≤ page_size) ⊎ (page_size < lf.current_page_position + s)
    → Logs (append lf r s).0 (bytes r 0 s ∷ xs)
unfolding append
append-Logs lf r s xs l small (inl room) =
    rw (fits, l.all) (append_here-Logs lf r s l.here l.older l.page l.file room)
  where
    fits : ltb page_size (lf.current_page_position + s) ≡ false
    fits = ground arith
append-Logs lf r s xs l small (inr full) = rw (leaves, l.all) (left l.here l.page)
  where
    leaves : ltb page_size (lf.current_page_position + s) ≡ true
    leaves = ground arith

    left :
        (rs : List (List ℕ))
        → Holds lf rs
        → Logs (append_here (next_page lf) r s) (bytes r 0 s ∷ rs ++ all_records l.older)
    left [] h = absurd (omega (arith, h.chain, h.position))
    left (x ∷ rs) h =
        append_here-Logs (next_page lf) r s [] ((x ∷ rs) ∷ l.older) (next_page-Holds lf)
          (next_page-Stored lf x rs l.older h l.file)
          (omega (arith, (next_page-Holds lf).position, (next_page-Holds lf).chain))

-- An iterator that is opened on a log yields the records that the log holds, across its pages, the
-- newest first, and then has no next.
pub open_iterator-Logs :
    (lf : LogFile) (stale : Mem) (xs : List (List ℕ))
    → Logs lf xs
    → Yields (open_iterator lf stale) xs
open_iterator-Logs lf stale xs l =
    rw l.all (open_iterator-Yields lf stale l.here l.older l.page.chain l.page.fits l.file)
