-- ===== src/Tests/Log.antt =====
-- server/src/log_file.c on a file that starts empty, with two records of three bytes.
use npsql.Base.{suc, copy, ◌+◌, ◌*◌, ◌≤◌, ◌≡◌, ◌≢◌, refl, inl, Mem, of_bytes, bytes, [], ◌∷◌, arith}
use npsql.Bytes.{read_uint16}
use npsql.LogFile.{
  page_size, File, LogFile, open_log_file, append_new_page, append_here, append, file_expand,
  file_read, open_iterator, next, flush_log, get_last_record_position,
}
use npsql.LogFile.Iterate.{Yields}
use npsql.LogFile.Refine.{Logs, open_log_file-Logs, append-Logs, open_iterator-Logs}
use npsql.LogFile.Durable.{flush_log-durable}
use npsql.LogFile.Faults.{reopened-append}

abbrev zeros : Mem
zeros _ = 0

abbrev empty_file : File
empty_file = record { size = 0; content = zeros }

abbrev opened : LogFile
opened = open_log_file empty_file zeros

abbrev first_record : Mem
first_record = of_bytes (7 ∷ 8 ∷ 9 ∷ [])

abbrev one : LogFile
one = (append opened first_record 3).0

opened-room : opened.current_page_position + 3 + 2 ≤ page_size
unfolding open_log_file append_new_page
opened-room = omega arith

one-Logs : Logs one (bytes first_record 0 3 ∷ [])
one-Logs =
    append-Logs opened first_record 3 [] (open_log_file-Logs empty_file zeros refl).0 (omega arith)
      (inl opened-room)

open_iterator-Logs_example : Yields (open_iterator one zeros) (bytes first_record 0 3 ∷ [])
open_iterator-Logs_example = open_iterator-Logs one zeros (bytes first_record 0 3 ∷ []) one-Logs

one-whole : one.file.size ≡ suc one.current_page_number * page_size
unfolding open_log_file append_new_page append append_here file_expand
one-whole = refl

one-number : one.current_page_number ≤ 0
unfolding open_log_file append_new_page append append_here
one-number = omega arith

flush_log-durable_example :
    Yields
      (open_iterator (open_log_file (flush_log one 0).file zeros) zeros)
      (bytes first_record 0 3 ∷ [])
flush_log-durable_example =
    flush_log-durable one 0 zeros zeros (bytes first_record 0 3 ∷ []) one-Logs one-whole one-number

-- A log of one page with one record of three bytes, as it lies in its file.
abbrev some_file : File
some_file = record { size = 512; content = of_bytes (5 ∷ 0 ∷ 7 ∷ 8 ∷ 9 ∷ 0 ∷ 0 ∷ []) }

abbrev four : Mem
four = of_bytes (1 ∷ 2 ∷ 3 ∷ 4 ∷ [])

some_file-size : some_file.size ≢ 0
some_file-size e = absurd (omega arith)

some_file-position : (open_log_file some_file zeros).current_page_position ≡ 5
unfolding open_log_file get_last_record_position file_read read_uint16 copy
some_file-position = refl

reopened-append_example :
    let (i, start) = next (open_iterator (append (open_log_file some_file zeros) four 4).0 zeros) in
    i.current_page (start + 1) ≡ 4
reopened-append_example =
    reopened-append some_file zeros four zeros 4 1 some_file-size
      (omega (arith, some_file-position)) (omega (arith, some_file-position)) (omega arith)
