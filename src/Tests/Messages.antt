-- ===== src/Tests/Messages.antt =====
-- server/src/nqp.c: the columns of a result of two columns, the answers to queries, and a session of two
-- queries.
use npsql.Bytes.{push_uint32}
use npsql.Base.Int.{pos}
use npsql.ExprEval.{◌>>=◌}
use npsql.Base.{
  ℕ, zero, suc, ◌≡◌, refl, arith, true, Option, some, none, List, [], ◌∷◌, ◌++◌, length,
}
use npsql.Sql.{PlanColumn, Value, number, string, type_int, type_char}
use npsql.Sessions.Messages.{
  nqp_column_definition, nqp_completed, two_bytes, say_columns, say_completed, receive_message,
  row_bytes,
}
use npsql.Sessions.Query.{
  ResultSet, handle_query, say_sets, say_rows, completed_success, query_loop, nqp_goodbye,
}
use npsql.Sessions.Query.Loop.{queries_sent, answers_sent, query_loop-Answers}
use npsql.Sessions.Query.Sent.{RowBytes, say_rows-overflow}
use npsql.Sessions.Query.Answer.{SetBytes, Answer, answer_of, handle_query-Answer}
use npsql.Sessions.Messages.Framing.{infos_of, read_columns, say_columns-read_columns}

abbrev two_columns : List PlanColumn
two_columns =
    record { size = 4; name = 97 ∷ []; table = 116 ∷ []; type = type_int; expr = none }
    ∷ record { size = 10; name = 98 ∷ 99 ∷ []; table = 116 ∷ []; type = type_char; expr = none }
    ∷ []

say_columns-read_columns_example :
    (payload : List ℕ) × (receive_message true (say_columns true two_columns ++ (8 ∷ 0 ∷ []))
      ≡ some (nqp_column_definition, payload, 8 ∷ 0 ∷ []))
    × (read_columns true (length two_columns) payload ≡ some (infos_of two_columns))
say_columns-read_columns_example =
    say_columns-read_columns true two_columns (8 ∷ 0 ∷ [])
      (omega arith, omega arith, (omega arith, omega arith, tt)) (omega arith)

-- A set of two rows, and a statement without rows.
abbrev two_rows : List (List Value)
two_rows =
    (record { type = type_int; size = 4; as_ = number (pos 7) }
      ∷ record { type = type_char; size = 2; as_ = string (98 ∷ 99 ∷ []) }
      ∷ [])
    ∷ ((record { type = type_int; size = 4; as_ = number (pos 8) }
          ∷ record { type = type_char; size = 2; as_ = string (100 ∷ 101 ∷ []) }
          ∷ [])
        ∷ [])

abbrev two_sets : List ResultSet
two_sets = (some two_columns, 100, two_rows) ∷ ((none, 0, []) ∷ [])

abbrev two_sets_bytes : List (List (List ℕ))
two_sets_bytes =
    ((7 ∷ 0 ∷ 0 ∷ 0 ∷ 98 ∷ 99 ∷ []) ∷ ((8 ∷ 0 ∷ 0 ∷ 0 ∷ 100 ∷ 101 ∷ []) ∷ [])) ∷ ([] ∷ [])

two_sets-bytes : SetBytes two_sets two_sets_bytes
unfolding row_bytes push_uint32
two_sets-bytes = (omega arith, (refl, omega arith, (refl, omega arith, tt)), (omega arith, tt, tt))

handle_query-Answer_example :
    (sent : List ℕ) × (completed : List ℕ) × (handle_query true none two_sets ≡ some sent)
    × Answer true sent (answer_of true two_sets two_sets_bytes) completed
    × (receive_message true completed
        ≡ some (nqp_completed, completed_success ∷ two_bytes true 0, []))
handle_query-Answer_example =
    handle_query-Answer true two_sets two_sets_bytes two_sets-bytes (omega arith, tt)

-- Text of `n` bytes, and a row of it.
abbrev text : ℕ → List ℕ
text zero = []
text (suc n) = 97 ∷ text n

abbrev long_rows : List (List Value)
long_rows =
    (record { type = type_char; size = 600; as_ = string (text 600) } ∷ [])
    ∷ ((record { type = type_char; size = 600; as_ = string (text 600) } ∷ []) ∷ [])

long_rows-bytes : RowBytes 600 long_rows (text 600 ∷ (text 600 ∷ []))
unfolding row_bytes
long_rows-bytes = (refl, omega arith, (refl, omega arith, tt))

say_rows-overflow_example : say_rows true 0 [] long_rows ≡ none
say_rows-overflow_example =
    say_rows-overflow true 600 [] long_rows (text 600 ∷ (text 600 ∷ [])) long_rows-bytes
      (omega arith) (omega arith)

-- A session that is asked ";" and then ";;" of a server that counts its queries, and answers every query
-- with no sets.
abbrev no_sets : ℕ → List ℕ → Option (ℕ × List ℕ)
no_sets asked q = handle_query true none [] >>= λ sent. some (suc asked, sent)

abbrev success : List ℕ
success = say_completed true completed_success []

no_sets-success : (asked : ℕ) (q : List ℕ) → no_sets asked q ≡ some (suc asked, success)
unfolding handle_query say_sets
no_sets-success asked q = refl

query_loop-Answers_example :
    query_loop true no_sets 3 0
      (queries_sent true ((59 ∷ []) ∷ ((59 ∷ 59 ∷ []) ∷ [])) (nqp_goodbye ∷ 0 ∷ 0 ∷ []))
    ≡ some (2, answers_sent (success ∷ (success ∷ [])), [])
query_loop-Answers_example =
    query_loop-Answers true no_sets 0 2 ((59 ∷ []) ∷ ((59 ∷ 59 ∷ []) ∷ []))
      (success ∷ (success ∷ [])) 3 0 0 [] (omega arith)
      (
        omega arith,
        1,
        no_sets-success 0 (59 ∷ []),
        (omega arith, 2, no_sets-success 1 (59 ∷ 59 ∷ []), refl),
      )
