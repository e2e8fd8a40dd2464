-- ===== src/Sessions/Query/Sent.antt =====
-- The rows of a set come through.
use npsql.Base.{
  ℕ, ◌+◌, ◌<◌, ◌≤◌, ◌≡◌, refl, sym, subst, Bool, Bool-cases, true, false, inl, inr, none, some,
  List, [], ◌∷◌, ◌++◌, length, length-append, ltb, arith, dec_lt,
}
use mathlib.Core.List.{append_assoc, append-nil}
use npsql.Sql.{Value}
use npsql.Sessions.Messages.{say_rowset, row_bytes, receive_message, nqp_rowset}
use npsql.Sessions.Messages.Framing.{receive_message-framed}
use npsql.Sessions.Query.{say_rows, max_message_size, header_length}

-- A stream that begins with rowset messages, one at least and none longer than MAX_MESSAGE_SIZE: their
-- payloads one after the other, and what follows.
pub data Rowsets (host : Bool) : List ℕ → List ℕ → List ℕ → Type 0 where
  last :
      {s p rest : List ℕ}
      → receive_message host s ≡ some (nqp_rowset, p, rest)
      → length p + header_length ≤ max_message_size
      → Rowsets host s p rest
  more :
      {s p s' q rest : List ℕ}
      → receive_message host s ≡ some (nqp_rowset, p, s')
      → length p + header_length ≤ max_message_size
      → Rowsets host s' q rest
      → Rowsets host s (p ++ q) rest

-- The bytes of the rows, none of them longer than `size`.
abbrev pub RowBytes : ℕ → List (List Value) → List (List ℕ) → Type 0
RowBytes size [] [] = Unit {0}
RowBytes size (r ∷ rs) (b ∷ bs) = (row_bytes r ≡ some b) × (length b ≤ size) × RowBytes size rs bs
RowBytes size [] (b ∷ bs) = ⊥
RowBytes size (r ∷ rs) [] = ⊥

abbrev pub concat : List (List ℕ) → List ℕ
concat [] = []
concat (b ∷ bs) = b ++ concat bs

rowset_received :
    (host : Bool) (p rest : List ℕ)
    → length p + header_length ≤ max_message_size
    → receive_message host (say_rowset host p ++ rest) ≡ some (nqp_rowset, p, rest)
unfolding say_rowset
rowset_received host p rest small = receive_message-framed host nqp_rowset p rest (omega arith)

-- A row that is put behind the others, or that starts the next message.
module _ (host : Bool) (size : ℕ) (pending b : List ℕ) (r : List Value) (rs : List (List Value))
    (sent : List ℕ) (row : row_bytes r ≡ some b) (small : length b ≤ size)
    (fits : size + header_length ≤ max_message_size) where
  say_rows-room :
      ltb max_message_size (header_length + length pending + size) ≡ false
      → say_rows host size (pending ++ b) rs ≡ some sent
      → say_rows host size pending (r ∷ rs) ≡ some sent
  unfolding say_rows
  say_rows-room room e =
      let enough : ltb max_message_size (header_length + length pending + length b) ≡ false =
        ground arith in
      rw (row, room, enough, e) refl

  say_rows-full :
      ltb max_message_size (header_length + length pending + size) ≡ true
      → say_rows host size b rs ≡ some sent
      → say_rows host size pending (r ∷ rs) ≡ some (say_rowset host pending ++ sent)
  unfolding say_rows
  say_rows-full full e =
      let enough : ltb max_message_size (header_length + length b) ≡ false = ground arith in
      rw (row, full, e) (ground arith)

-- Where the word that the code adds is at least as large as every row, and a row of that size fits a
-- message: the rows of a set, and what is pending before them, are sent as rowset messages, one at
-- least and none longer than MAX_MESSAGE_SIZE, whose payloads one after the other are the bytes of the
-- rows in order, whatever follows them.
pub say_rows-Rowsets :
    (host : Bool) (size : ℕ) (pending : List ℕ) (rows : List (List Value)) (bs : List (List ℕ))
    (rest : List ℕ)
    → size + header_length ≤ max_message_size
    → length pending + header_length ≤ max_message_size
    → RowBytes size rows bs
    → (sent : List ℕ) × (say_rows host size pending rows ≡ some sent)
      × Rowsets host (sent ++ rest) (pending ++ concat bs) rest
unfolding say_rows
say_rows-Rowsets host size pending [] [] rest fits small rows = (
  say_rowset host pending,
  refl,
  subst (λ p. Rowsets host (say_rowset host pending ++ rest) p rest) (sym (append-nil pending))
      (last (rowset_received host pending rest small) small),
)
say_rows-Rowsets host size pending [] (b ∷ bs) rest fits small rows = absurd rows
say_rows-Rowsets host size pending (r ∷ rs) [] rest fits small rows = absurd rows
say_rows-Rowsets host size pending (r ∷ rs) (b ∷ bs) rest fits small (row, bounded, rows) =
    elim (Bool-cases (ltb max_message_size (header_length + length pending + size))) [
      | inl full ↦
          let (sent, e, received) =
            say_rows-Rowsets host size b rs bs rest fits (omega arith) rows in
          (
            say_rowset host pending ++ sent,
            say_rows-full host size pending b r rs sent row bounded fits full e,
            subst (λ s. Rowsets host s (pending ++ (b ++ concat bs)) rest)
                (sym (append_assoc (say_rowset host pending) sent rest))
                (more (rowset_received host pending (sent ++ rest) small) small received),
          )
      | inr room ↦
          let (sent, e, received) =
            say_rows-Rowsets host size (pending ++ b) rs bs rest fits
              (ground (arith, length-append pending b)) rows in
          (
            sent,
            say_rows-room host size pending b r rs sent row bounded fits room e,
            subst (λ p. Rowsets host (sent ++ rest) p rest) (append_assoc pending b (concat bs))
                received,
          )
    ]

say_rows-longer :
    (host : Bool) (pending b : List ℕ) (r : List Value) (rs : List (List Value))
    → row_bytes r ≡ some b
    → length pending + header_length ≤ max_message_size
    → say_rows host 0 (pending ++ b) rs ≡ none
    → say_rows host 0 pending (r ∷ rs) ≡ none
unfolding say_rows
say_rows-longer host pending b r rs row small e =
    let room : ltb max_message_size (header_length + length pending + 0) ≡ false = ground arith in
    rw (row, room, e) (ground arith)

say_rows-past :
    (host : Bool) (pending b : List ℕ) (r : List Value) (rs : List (List Value))
    → row_bytes r ≡ some b
    → length pending + header_length ≤ max_message_size
    → max_message_size < length pending + header_length + length b
    → say_rows host 0 pending (r ∷ rs) ≡ none
unfolding say_rows
say_rows-past host pending b r rs row small large =
    let room : ltb max_message_size (header_length + length pending + 0) ≡ false = ground arith in
    let past : ltb max_message_size (header_length + length pending + length b) ≡ true =
      ground arith in
    rw (row, room, past) refl

-- Where the word that the code adds is 0: rows that, with what is pending before them, are together
-- longer than the payload of one message are written past the buffer, however short each of them is.
pub say_rows-overflow :
    (host : Bool) (n : ℕ) (pending : List ℕ) (rows : List (List Value)) (bs : List (List ℕ))
    → RowBytes n rows bs
    → length pending + header_length ≤ max_message_size
    → max_message_size < length pending + header_length + length (concat bs)
    → say_rows host 0 pending rows ≡ none
say_rows-overflow host n pending [] [] rows small large = absurd (omega arith)
say_rows-overflow host n pending [] (b ∷ bs) rows small large = absurd rows
say_rows-overflow host n pending (r ∷ rs) [] rows small large = absurd rows
say_rows-overflow host n pending (r ∷ rs) (b ∷ bs) (row, bounded, rows) small large =
    elim (dec_lt max_message_size (length pending + header_length + length b)) [
      | yes past ↦ say_rows-past host pending b r rs row small past
      | no fits ↦ say_rows-longer host pending b r rs row small (
          say_rows-overflow host n (pending ++ b) rs bs rows
            (omega (arith, length-append pending b))
            (omega (arith, length-append pending b, length-append b (concat bs))))
    ]
