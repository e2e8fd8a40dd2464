-- ===== src/LogFile/Iterate.antt =====
-- The iterator walks the whole log backwards: `open_iterator`, then `has_next` and `next`.
use npsql.Base.{
  ℕ, zero, suc, ◌+◌, ◌-◌, ◌*◌, ◌%◌, ◌^◌, ◌≤◌, ◌<◌, ◌≡◌, ◌∙◌, refl, Mem, copy, copy_in, from, bytes,
  ◌⊎◌, inl, inr, true, false, List, [], ◌∷◌, ◌++◌, length, arith, ap, ◌==◌,
}
use npsql.Bytes.{read_uint16}
use npsql.LogFile.{
  page_size, LogFile, LogFileIterator, get_last_record_position, open_iterator, has_next, next,
  move_to_next_page, file_read,
}
use npsql.LogFile.Chain.{Chain, Chain-ext, read_uint16_ext}

-- What a caller that loops on `has_next` and `next` reads: one record at each position returned.
abbrev pub Yields : LogFileIterator → List (List ℕ) → Type 0
Yields i [] = has_next i ≡ false
Yields i (r ∷ rs) =
    (has_next i ≡ true)
    × (bytes (next i).0.current_page (next i).1 (length r) ≡ r)
    × Yields (next i).0 rs

-- The pages below `n` of the file, the newest first, with the records of each; none is empty.
abbrev pub Stored : Mem → ℕ → List (List (List ℕ)) → Type 0
Stored content zero [] = Unit
Stored content zero (g ∷ gs) = ⊥
Stored content (suc n) [] = ⊥
Stored content (suc n) (g ∷ gs) =
    (0 < length g)
    × (get_last_record_position (from content (n * page_size)) + 2 ≤ page_size)
    × Chain (from content (n * page_size)) (get_last_record_position (from content (n * page_size)))
        g
    × Stored content n gs

abbrev pub all_records : List (List (List ℕ)) → List (List ℕ)
all_records [] = []
all_records (g ∷ gs) = g ++ all_records gs

has_next-more :
    (i : LogFileIterator)
    → (0 < i.currect_position) ⊎ (0 < i.current_page_number)
    → has_next i ≡ true
unfolding has_next
has_next-more i h = ground arith

has_next-done :
    (i : LogFileIterator) → i.currect_position ≡ 0 → i.current_page_number ≡ 0 → has_next i ≡ false
unfolding has_next
has_next-done i h h' = ground arith

pub next-in_page :
    (i : LogFileIterator)
    → 0 < i.currect_position
    → read_uint16 i.current_page i.currect_position + 2 < 65536
    → next i ≡ (
      record i { currect_position = read_uint16 i.current_page i.currect_position },
      read_uint16 i.current_page i.currect_position + 2,
    )
unfolding next
next-in_page i h small = rw (inside, wraps)
  where
    inside : (i.currect_position == 0) ≡ false
    inside = ground arith

    wraps :
        (read_uint16 i.current_page i.currect_position + 2) % 2 ^ 16
        ≡ read_uint16 i.current_page i.currect_position + 2
    wraps = omega arith

next-moved :
    (i : LogFileIterator)
    → i.currect_position ≡ 0
    → 0 < (move_to_next_page i).currect_position
    → next i ≡ next (move_to_next_page i)
unfolding next
next-moved i start h = rw (at_start, moved)
  where
    at_start : (i.currect_position == 0) ≡ true
    at_start = ground arith

    moved : ((move_to_next_page i).currect_position == 0) ≡ false
    moved = ground arith

-- Within a page: the iterator yields the chain's records, and goes on from position 0.
Yields-page :
    (i : LogFileIterator) (rs rest : List (List ℕ))
    → Chain i.current_page i.currect_position rs
    → i.currect_position + 2 ≤ page_size
    → Yields (record i { currect_position = 0 }) rest
    → Yields i (rs ++ rest)
Yields-page i [] rest c fits y = rw (← c) at y
Yields-page i (r ∷ rs) rest (at_end, record_bytes, before) fits y =
    rw (next-in_page i (omega arith) (omega arith)) (
      more,
      record_bytes,
      Yields-page (record i { currect_position = read_uint16 i.current_page i.currect_position }) rs
          rest before (omega arith) y,
    )
  where
    more : has_next i ≡ true
    more = has_next-more i (inl (omega arith))

-- At position 0 with a page before it, `next` is `next` from the head of that page.
Yields-move :
    (i : LogFileIterator) (r : List ℕ) (rs : List (List ℕ))
    → i.currect_position ≡ 0
    → 0 < i.current_page_number
    → 0 < (move_to_next_page i).currect_position
    → Yields (move_to_next_page i) (r ∷ rs)
    → Yields i (r ∷ rs)
Yields-move i r rs start before pos (_, record_bytes, y) =
    rw (next-moved i start pos) (has_next-more i (inr before), record_bytes, y)

-- The iterator's page after a move is the file's page, as far as a chain looks.
move_to_next_page-Chain :
    (i : LogFileIterator) (n : ℕ) (g : List (List ℕ))
    → i.current_page_number ≡ suc n
    → get_last_record_position (from i.file.content (n * page_size)) + 2 ≤ page_size
    → Chain
        (from i.file.content (n * page_size))
        (get_last_record_position (from i.file.content (n * page_size)))
        g
    → let i' = move_to_next_page i in
      (i'.currect_position ≡ get_last_record_position (from i.file.content (n * page_size)))
      × (i'.current_page_number ≡ n)
      × Chain i'.current_page i'.currect_position g
unfolding move_to_next_page file_read get_last_record_position
move_to_next_page-Chain i n g e fits c =
    rw (number, head) (refl, refl, Chain-ext page page' _ g (λ k lo hi. same k (omega arith)) c)
  where
    number : i.current_page_number - 1 ≡ n
    number = omega arith

    page : Mem
    page = from i.file.content (n * page_size)

    page' : Mem
    page' = copy i.current_page 0 page page_size

    same : (k : ℕ) → k < page_size → page' k ≡ page k
    same k h = copy_in i.current_page 0 page page_size k k (omega arith) h

    head : read_uint16 page' 0 ≡ read_uint16 page 0
    head = read_uint16_ext page page' 0 (same 0 (omega arith)) (same (0 + 1) (omega arith))

move_to_next_page-file : (i : LogFileIterator) → (move_to_next_page i).file ≡ i.file
unfolding move_to_next_page
move_to_next_page-file i = refl

Yields-Stored :
    (n : ℕ) (gs : List (List (List ℕ))) (i : LogFileIterator)
    → i.current_page_number ≡ n
    → i.currect_position ≡ 0
    → Stored i.file.content n gs
    → Yields i (all_records gs)
Yields-Stored zero [] i e start s = has_next-done i start e
Yields-Stored zero (g ∷ gs) i e start s = elim s [ ]
Yields-Stored (suc n) [] i e start s = elim s [ ]
Yields-Stored (suc n) ([] ∷ gs) i e start s = absurd (omega (arith, s.0))
Yields-Stored (suc n) ((r ∷ rs) ∷ gs) i e start (_, fits, chain, older) =
    Yields-move i r (rs ++ all_records gs) start (omega arith) (omega (arith, moved.0, chain.0)) (
      Yields-page (move_to_next_page i) (r ∷ rs) (all_records gs) moved.2 (omega (arith, moved.0)) (
        Yields-Stored n gs (record (move_to_next_page i) { currect_position = 0 }) moved.1 refl
          (rw (move_to_next_page-file i) older)))
  where
    moved :
        let i' = move_to_next_page i in
        (i'.currect_position ≡ get_last_record_position (from i.file.content (n * page_size)))
        × (i'.current_page_number ≡ n)
        × Chain i'.current_page i'.currect_position (r ∷ rs)
    moved = move_to_next_page-Chain i n (r ∷ rs) e fits chain

-- An iterator opened on a log yields the records of its page and then those of the file's pages.
pub open_iterator-Yields :
    (lf : LogFile) (stale : Mem) (rs : List (List ℕ)) (gs : List (List (List ℕ)))
    → Chain lf.current_page (get_last_record_position lf.current_page) rs
    → get_last_record_position lf.current_page + 2 ≤ page_size
    → Stored lf.file.content lf.current_page_number gs
    → Yields (open_iterator lf stale) (rs ++ all_records gs)
unfolding open_iterator get_last_record_position
open_iterator-Yields lf stale rs gs chain fits older = rw head (
    Yields-page _ rs (all_records gs)
      (Chain-ext lf.current_page page _ rs (λ k lo hi. same k (omega arith)) chain) fits
      (Yields-Stored lf.current_page_number gs _ refl refl older))
  where
    page : Mem
    page = copy stale 0 lf.current_page page_size

    same : (k : ℕ) → k < page_size → page k ≡ lf.current_page k
    same k h = copy_in stale 0 lf.current_page page_size k k (omega arith) h

    head : read_uint16 page 0 ≡ read_uint16 lf.current_page 0
    head =
        read_uint16_ext lf.current_page page 0 (same 0 (omega arith)) (same (0 + 1) (omega arith))

-- The first step of an iterator whose page holds a record.
pub open_iterator-next :
    (lf : LogFile) (stale : Mem) (e q : ℕ)
    → get_last_record_position lf.current_page ≡ e
    → read_uint16 lf.current_page e ≡ q
    → 0 < e
    → e + 2 ≤ page_size
    → q + 2 < 65536
    → ((next (open_iterator lf stale)).1 ≡ q + 2)
      × ((k : ℕ)
          → k < page_size
          → (next (open_iterator lf stale)).0.current_page k ≡ lf.current_page k)
unfolding open_iterator get_last_record_position
open_iterator-next lf stale e q at link some_record fits small =
    rw (next-in_page i (omega (arith, head, at)) (omega (arith, linked))) (linked_two, same)
  where
    i : LogFileIterator
    i = open_iterator lf stale

    same : (k : ℕ) → k < page_size → i.current_page k ≡ lf.current_page k
    same k h = copy_in stale 0 lf.current_page page_size k k (omega arith) h

    head : i.currect_position ≡ read_uint16 lf.current_page 0
    head =
        read_uint16_ext lf.current_page i.current_page 0 (same 0 (omega arith))
          (same (0 + 1) (omega arith))

    linked : read_uint16 i.current_page i.currect_position ≡ q
    linked =
        ap (read_uint16 i.current_page) (head ∙ at)
        ∙ read_uint16_ext lf.current_page i.current_page e (same e (omega arith))
            (same (e + 1) (omega arith))
        ∙ link

    linked_two : read_uint16 i.current_page i.currect_position + 2 ≡ q + 2
    linked_two = omega (arith, linked)
