-- ===== src/Sessions/Query.antt =====
-- server/src/nqp.c, handle_query: the messages that answer a query. What the engine gives is an argument:
-- the columns of each set that has rows, and the values of each row, in the order in which they are
-- asked for. A row that does not fit the rowset's buffer is written past it: `none`.
pub mod Sent
pub mod Answer
pub mod Loop
use npsql.Base.{
  ℕ, zero, suc, ◌+◌, Bool, true, false, Option, none, some, List, [], ◌∷◌, ◌++◌, length, ltb, ◌==◌,
  if◌then◌else◌,
}
use npsql.ExprEval.{◌>>=◌}
use npsql.Sql.{Str, Value, PlanColumn}
use npsql.Sessions.Messages.{
  say_completed, say_columns, say_rowset, row_bytes, receive_payload, length_in,
}

abbrev pub max_message_size : ℕ
max_message_size = 1000

abbrev pub header_length : ℕ
header_length = 3

-- `enum completed_status`
abbrev pub completed_success : ℕ
completed_success = 1

abbrev completed_failure : ℕ
completed_failure = 2

-- The rows of a set, with `pending` in the buffer. `scan_size` is the word that stands before the scan in
-- memory, which the code takes for the size of a vector. The buffer is never empty, since its header
-- counts, so the end of the rows sends a message too.
unfoldable pub say_rows : Bool → ℕ → List ℕ → List (List Value) → Option (List ℕ)
say_rows host scan_size pending [] = some (say_rowset host pending)
say_rows host scan_size pending (r ∷ rs) = row_bytes r >>= λ (row : List ℕ).
    (let full = ltb max_message_size (header_length + length pending + scan_size) in
      let room = if full then [] else pending in
      let sent = if full then say_rowset host pending else [] in
      let rest = say_rows host scan_size (room ++ row) rs in
      if ltb max_message_size (header_length + length room + length row)
      then none
      else rest >>= λ s. some (sent ++ s))

-- A set: its columns, where it has rows, the word that stands before its scan in memory, and its rows.
abbrev pub ResultSet : Type 0
ResultSet = Option (List PlanColumn) × ℕ × List (List Value)

abbrev pub columns_sent : Bool → Option (List PlanColumn) → List ℕ
columns_sent host none = []
columns_sent host (some columns) = say_columns host columns

-- The loop over the sets.
unfoldable pub say_sets : Bool → List ResultSet → Option (List ℕ)
say_sets host [] = some []
say_sets host (s ∷ ss) = say_rows host s.1 [] s.2 >>= λ (rows : List ℕ).
    say_sets host ss >>= λ rest. some (columns_sent host s.0 ++ (rows ++ rest))

-- The message of a syntax error, or the sets and the message that the query is done.
unfoldable pub handle_query : Bool → Option Str → List ResultSet → Option (List ℕ)
handle_query host (some error_msg) sets = some (say_completed host completed_failure error_msg)
handle_query host none sets =
    say_sets host sets >>= λ (sent : List ℕ). some (sent ++ say_completed host completed_success [])

abbrev pub nqp_query : ℕ
nqp_query = 6

abbrev pub nqp_goodbye : ℕ
nqp_goodbye = 4

-- `handle_goodbye` sends NQP_COMEBACKSOON, with no payload.
abbrev pub goodbye : List ℕ
goodbye = 5 ∷ 0 ∷ 0 ∷ []

-- The loop on fuel over what the client sends: what the server holds after it, what is sent to the client,
-- and what of its stream is not read. `answer` is `handle_query`, given what the server holds and the
-- query's bytes: what it holds then, and what is sent. The payload of any other message than a query is
-- left, and read as the next header. A stream that ends before a goodbye is waited on: `none`.
module _ {S : Type 0} (host : Bool) (answer : S → List ℕ → Option (S × List ℕ)) where
  unfoldable pub query_loop : ℕ → S → List ℕ → Option (S × List ℕ × List ℕ)
  query_loop zero state s = none
  query_loop (suc n) state (type ∷ a ∷ b ∷ xs) =
      let skipped = query_loop n state xs in
      if type == nqp_goodbye
      then some (state, goodbye, xs)
      else if type == nqp_query
      then (receive_payload (length_in host a b) xs >>= λ (q : List ℕ × List ℕ).
          answer state q.0 >>= λ (r : S × List ℕ).
          query_loop n r.0 q.1 >>= λ (rest : S × List ℕ × List ℕ).
          some (rest.0, r.1 ++ rest.1, rest.2))
      else skipped
  query_loop (suc n) state _ = none
