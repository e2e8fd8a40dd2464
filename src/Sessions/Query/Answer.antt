-- ===== src/Sessions/Query/Answer.antt =====
-- The answer to a query comes through.
use npsql.Base.{
  ℕ, ◌+◌, ◌<◌, ◌≤◌, ◌≡◌, ◌∙◌, refl, sym, ap, subst, Bool, Option, none, some, List, [], ◌∷◌, ◌++◌,
  length, arith,
}
use mathlib.Core.List.{append_assoc, append-nil}
use npsql.Sql.{PlanColumn}
use npsql.Sessions.Messages.{
  say_columns, say_completed, columns_bytes, receive_message, nqp_column_definition, nqp_completed,
  two_bytes,
}
use npsql.Sessions.Messages.Framing.{receive_message-framed}
use npsql.Sessions.Query.{
  say_sets, handle_query, ResultSet, max_message_size, header_length, completed_success,
}
use npsql.Sessions.Query.Sent.{Rowsets, RowBytes, concat, say_rows-Rowsets}

-- What comes of a set: the payload of its columns, where it has rows, and the bytes of its rows.
abbrev pub Received : Type 0
Received = Option (List ℕ) × List ℕ

-- A stream that begins with the messages of sets: what comes of them, and what follows.
pub data Answer (host : Bool) : List ℕ → List Received → List ℕ → Type 0 where
  done : {s : List ℕ} → Answer host s [] s
  rows_only :
      {s p s' rest : List ℕ} {sets : List Received}
      → Rowsets host s p s'
      → Answer host s' sets rest
      → Answer host s ((none, p) ∷ sets) rest
  with_columns :
      {s c s' p s'' rest : List ℕ} {sets : List Received}
      → receive_message host s ≡ some (nqp_column_definition, c, s')
      → Rowsets host s' p s''
      → Answer host s'' sets rest
      → Answer host s ((some c, p) ∷ sets) rest

-- The sets of a query and the bytes of their rows, none of them longer than the word before the set's
-- scan, which leaves a row of that size room in a message.
abbrev pub SetBytes : List ResultSet → List (List (List ℕ)) → Type 0
SetBytes [] [] = Unit {0}
SetBytes (s ∷ ss) (bs ∷ bss) =
    (s.1 + header_length ≤ max_message_size) × RowBytes s.1 s.2 bs × SetBytes ss bss
SetBytes [] (bs ∷ bss) = ⊥
SetBytes (s ∷ ss) [] = ⊥

-- Payloads of columns that fit the length of a message.
abbrev pub SmallColumns : Bool → List ResultSet → Type 0
SmallColumns host [] = Unit {0}
SmallColumns host ((none, size, rows) ∷ ss) = SmallColumns host ss
SmallColumns host ((some cs, size, rows) ∷ ss) =
    (length (columns_bytes host cs) < 32768) × SmallColumns host ss

abbrev pub answer_of : Bool → List ResultSet → List (List (List ℕ)) → List Received
answer_of host [] bss = []
answer_of host (s ∷ ss) [] = []
answer_of host ((none, size, rows) ∷ ss) (bs ∷ bss) = (none, concat bs) ∷ answer_of host ss bss
answer_of host ((some cs, size, rows) ∷ ss) (bs ∷ bss) =
    (some (columns_bytes host cs), concat bs) ∷ answer_of host ss bss

say_columns-received :
    (host : Bool) (cs : List PlanColumn) (rest : List ℕ)
    → length (columns_bytes host cs) < 32768
    → receive_message host (say_columns host cs ++ rest)
      ≡ some (nqp_column_definition, columns_bytes host cs, rest)
unfolding say_columns
say_columns-received host cs rest small =
    receive_message-framed host nqp_column_definition (columns_bytes host cs) rest small

say_sets-Answer :
    (host : Bool) (sets : List ResultSet) (bss : List (List (List ℕ))) (rest : List ℕ)
    → SetBytes sets bss
    → SmallColumns host sets
    → (sent : List ℕ) × (say_sets host sets ≡ some sent)
      × Answer host (sent ++ rest) (answer_of host sets bss) rest
unfolding say_sets
say_sets-Answer host [] [] rest sets small = ([], refl, done)
say_sets-Answer host [] (bs ∷ bss) rest sets small = absurd sets
say_sets-Answer host (s ∷ ss) [] rest sets small = absurd sets
say_sets-Answer host ((none, size, rows) ∷ ss) (bs ∷ bss) rest (fits, own, others) small =
    let (later, e, answer) = say_sets-Answer host ss bss rest others small in
    let (sent, e', received) =
      say_rows-Rowsets host size [] rows bs (later ++ rest) fits (omega arith) own in
    (
      sent ++ later,
      rw (e', e) refl,
      subst (λ s. Answer host s ((none, concat bs) ∷ answer_of host ss bss) rest)
          (sym (append_assoc sent later rest)) (rows_only received answer),
    )
say_sets-Answer host ((some cs, size, rows) ∷ ss) (bs ∷ bss) rest (fits, own, others) (few, small) =
    let (later, e, answer) = say_sets-Answer host ss bss rest others small in
    let (sent, e', received) =
      say_rows-Rowsets host size [] rows bs (later ++ rest) fits (omega arith) own in
    (
      say_columns host cs ++ (sent ++ later),
      rw (e', e) refl,
      subst
          (λ s.
            Answer host s ((some (columns_bytes host cs), concat bs) ∷ answer_of host ss bss) rest)
          (sym (
            append_assoc (say_columns host cs) (sent ++ later) rest
            ∙ ap (λ s. say_columns host cs ++ s) (append_assoc sent later rest)))
          (with_columns (say_columns-received host cs (sent ++ (later ++ rest)) few) received
            answer),
    )

say_completed-received :
    (host : Bool)
    → receive_message host (say_completed host completed_success [])
      ≡ some (nqp_completed, completed_success ∷ two_bytes host 0, [])
unfolding say_completed
say_completed-received host =
    let payload = completed_success ∷ two_bytes host 0 in
    ap (λ s. receive_message host s) (sym (append-nil (say_completed host completed_success [])))
    ∙ receive_message-framed host nqp_completed payload [] (omega arith)

-- Without a syntax error, where for each set the word that the code adds is at least as large as every
-- row, a row of that size fits a message, and the bytes of the columns are fewer than 2 ^ 15: the answer
-- is sent, and on a host of either byte order it is read as the sets in order, each as the message of its
-- columns, where it has rows, and one rowset message or more, none longer than MAX_MESSAGE_SIZE, whose
-- payloads one after the other are the bytes of the rows in order; then one message that the whole query
-- is completed with success, and nothing after it.
pub handle_query-Answer :
    (host : Bool) (sets : List ResultSet) (bss : List (List (List ℕ)))
    → SetBytes sets bss
    → SmallColumns host sets
    → (sent : List ℕ) × (completed : List ℕ) × (handle_query host none sets ≡ some sent)
      × Answer host sent (answer_of host sets bss) completed
      × (receive_message host completed
          ≡ some (nqp_completed, completed_success ∷ two_bytes host 0, []))
unfolding handle_query
handle_query-Answer host sets bss own small =
    let completed = say_completed host completed_success [] in
    let (sent, e, answer) = say_sets-Answer host sets bss completed own small in
    (sent ++ completed, completed, rw e refl, answer, say_completed-received host)
