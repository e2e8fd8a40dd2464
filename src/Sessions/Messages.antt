-- ===== src/Sessions/Messages.antt =====
-- server/src/nqp.c: the bytes of the messages that the server sends, on a host of either byte order, and
-- how the server itself takes a message apart: a type, two bytes of length, and the payload.
pub mod Framing
use npsql.Base.{
  ℕ, zero, suc, ◌+◌, ◌%◌, ◌^◌, Bool, true, false, Option, none, some, List, [], ◌∷◌, ◌++◌, Mem,
  of_bytes, bytes, length, ltb, if◌then◌else◌,
}
use npsql.Base.Int.{ℤ, pos, negsuc}
use npsql.ExprEval.{◌>>=◌}
use npsql.Bytes.{htops, ptohs, push_uint32}
use npsql.Sql.{
  Str, NpsqlType, type_unknown, type_int, type_char, type_bool, Union, number, string, boolean,
  Value, PlanColumn,
}
use npsql.Catalog.{type_code}
use npsql.Statements.{bits}

-- The numbers of `enum NQP_MESSAGE`.
abbrev pub nqp_column_definition : ℕ
nqp_column_definition = 7

abbrev pub nqp_rowset : ℕ
nqp_rowset = 8

abbrev pub nqp_completed : ℕ
nqp_completed = 9

-- The two bytes that htops writes for a uint16_t.
abbrev pub two_bytes : Bool → ℕ → List ℕ
two_bytes host value = bytes (htops host (value % 2 ^ 16) (λ _. 0) 0) 0 2

-- The header and the payload: the message.
abbrev pub framed : Bool → ℕ → List ℕ → List ℕ
framed host type payload = type ∷ (two_bytes host (length payload) ++ payload)

unfoldable pub say_completed : Bool → ℕ → Str → List ℕ
say_completed host status message =
    framed host nqp_completed (status ∷ (two_bytes host (length message) ++ message))

-- The bytes of one column of a result.
abbrev pub column_bytes : Bool → PlanColumn → List ℕ
column_bytes host c =
    type_code c.type ∷ (two_bytes host c.size ++ (two_bytes host (length c.name) ++ c.name))

abbrev pub columns_bytes : Bool → List PlanColumn → List ℕ
columns_bytes host [] = []
columns_bytes host (c ∷ cs) = column_bytes host c ++ columns_bytes host cs

-- For the plan of a SELECT, which is a project plan.
unfoldable pub say_columns : Bool → List PlanColumn → List ℕ
say_columns host columns = framed host nqp_column_definition (columns_bytes host columns)

-- What is pushed for a value: by its type, from the member that its union holds; another member is no
-- number, string or bool.
abbrev value_bytes_as : ℕ → NpsqlType → Union → Option (List ℕ)
value_bytes_as size type_int (number n) = some (push_uint32 [] (bits n))
value_bytes_as size type_char (string s) = some s
value_bytes_as size type_bool (boolean true) = some (116 ∷ 114 ∷ 117 ∷ 101 ∷ [])
value_bytes_as size type_bool (boolean false) = some (102 ∷ 97 ∷ 108 ∷ 115 ∷ 101 ∷ [])
value_bytes_as size type_unknown v = some []
value_bytes_as size _ v = none

-- A row, whose values are evaluated one after the other.
unfoldable pub row_bytes : List Value → Option (List ℕ)
row_bytes [] = some []
row_bytes (v ∷ vs) = do
  here ← value_bytes_as v.size v.type v.as_
  rest ← row_bytes vs
  some (here ++ rest)

-- The rows that a message has room for.
unfoldable pub say_rowset : Bool → List ℕ → List ℕ
say_rowset host rows = framed host nqp_rowset rows

-- The first `n` bytes of a stream and the rest. `receive_buffer` takes what `recv` gives for the `n`
-- bytes; here it gives them all.
abbrev pub receive : ℕ → List ℕ → Option (List ℕ × List ℕ)
receive zero xs = some ([], xs)
receive (suc n) [] = none
receive (suc n) (x ∷ xs) = receive n xs >>= λ (r : List ℕ × List ℕ). some (x ∷ r.0, r.1)

-- The length in two bytes, as ptohs reads it.
abbrev pub length_in : Bool → ℕ → ℕ → ℕ
length_in host a b = ptohs host (of_bytes (a ∷ b ∷ [])) 0

-- `(size_t)ptohs(&header[1])`: ptohs gives an int16_t, so that from 2 ^ 15 on its sign makes a size that
-- no buffer has: `none`.
abbrev pub receive_payload : ℕ → List ℕ → Option (List ℕ × List ℕ)
receive_payload n xs = if ltb n (2 ^ 15) then receive n xs else none

-- A message off the stream: its type, its payload and what follows.
unfoldable pub receive_message : Bool → List ℕ → Option (ℕ × List ℕ × List ℕ)
receive_message host (type ∷ a ∷ b ∷ xs) =
    receive_payload (length_in host a b) xs >>= λ (r : List ℕ × List ℕ). some (type, r.0, r.1)
receive_message host _ = none
