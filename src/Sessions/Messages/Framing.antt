-- ===== src/Sessions/Messages/Framing.antt =====
-- What is sent as a message is received as one.
use npsql.Base.{
  ℕ, zero, suc, ◌+◌, ◌%◌, ◌^◌, ◌<◌, ◌≡◌, ◌∙◌, refl, arith, Bool, true, ltb, Option, none, some,
  List, [], ◌∷◌, ◌++◌, Mem, of_bytes, length,
}
use npsql.ExprEval.{◌>>=◌}
use npsql.Bytes.{htops}
use npsql.Bytes.Laws.{ptohs-htops, ptohs_ext}
use npsql.Sql.{Str, PlanColumn}
use npsql.Catalog.{type_code}
use npsql.Sessions.Messages.{
  framed, columns_bytes, say_columns, receive, receive_payload, length_in, receive_message,
  nqp_column_definition,
}

pub length_in-two_bytes :
    (host : Bool) (n : ℕ)
    → n < 65536
    → let m = htops host (n % 2 ^ 16) (λ _. 0) 0 in length_in host (m 0) (m (0 + 1)) ≡ n
length_in-two_bytes host n small =
    let m : Mem = htops host (n % 2 ^ 16) (λ _. 0) 0 in
    let fits : n % 2 ^ 16 ≡ n = omega arith in
    ptohs_ext host m (of_bytes (m 0 ∷ m (0 + 1) ∷ [])) 0 0 refl refl
    ∙ ptohs-htops host (λ _. 0) 0 (n % 2 ^ 16) (omega arith)
    ∙ fits

pub receive-append : (xs ys : List ℕ) → receive (length xs) (xs ++ ys) ≡ some (xs, ys)
receive-append [] ys = refl
receive-append (x ∷ xs) ys = rw (receive-append xs ys) refl

pub receive_payload-append :
    (xs ys : List ℕ) → length xs < 32768 → receive_payload (length xs) (xs ++ ys) ≡ some (xs, ys)
receive_payload-append xs ys small =
    let short : ltb (length xs) (2 ^ 15) ≡ true = ground arith in rw short (receive-append xs ys)

-- A message whose payload is shorter than 2 ^ 15 bytes is received whole, with its type, whatever
-- follows it.
pub receive_message-framed :
    (host : Bool) (type : ℕ) (payload rest : List ℕ)
    → length payload < 32768
    → receive_message host (framed host type payload ++ rest) ≡ some (type, payload, rest)
unfolding receive_message
receive_message-framed host type payload rest small =
    rw
      (
        length_in-two_bytes host (length payload) (omega arith),
        receive_payload-append payload rest small,
      )
      refl

-- What a column's bytes say.
abbrev pub ColumnInfo : Type 0
ColumnInfo = ℕ × ℕ × Str

abbrev pub info_of : PlanColumn → ColumnInfo
info_of c = (type_code c.type, c.size, c.name)

abbrev pub infos_of : List PlanColumn → List ColumnInfo
infos_of [] = []
infos_of (c ∷ cs) = info_of c ∷ infos_of cs

-- A reader of the columns of a payload.
unfoldable pub read_columns : Bool → ℕ → List ℕ → Option (List ColumnInfo)
read_columns host zero xs = some []
read_columns host (suc n) (type ∷ a ∷ b ∷ c ∷ d ∷ xs) =
    receive (length_in host c d) xs >>= λ (r : List ℕ × List ℕ).
    read_columns host n r.1 >>= λ infos. some ((type, length_in host a b, r.0) ∷ infos)
read_columns host (suc n) _ = none

-- The sizes of columns and of their names fit sixteen bits.
abbrev pub Small : List PlanColumn → Type 0
Small [] = Unit {0}
Small (c ∷ cs) = (c.size < 65536) × (length c.name < 65536) × Small cs

read_columns-columns_bytes :
    (host : Bool) (cs : List PlanColumn)
    → Small cs
    → read_columns host (length cs) (columns_bytes host cs) ≡ some (infos_of cs)
unfolding read_columns
read_columns-columns_bytes host [] small = refl
read_columns-columns_bytes host (c ∷ cs) (size, name, small) =
    rw
      (
        length_in-two_bytes host (length c.name) name,
        receive-append c.name (columns_bytes host cs),
        read_columns-columns_bytes host cs small,
        length_in-two_bytes host c.size size,
      )
      refl

-- The columns of a result, with sizes and names that fit sixteen bits and a payload shorter than 2 ^ 15
-- bytes, on a host of either byte order: the message is received as column definitions, whatever follows
-- it, and its payload is read as the type, the size and the name of each column in order.
pub say_columns-read_columns :
    (host : Bool) (cs : List PlanColumn) (rest : List ℕ)
    → Small cs
    → length (columns_bytes host cs) < 32768
    → (payload : List ℕ) × (receive_message host (say_columns host cs ++ rest)
        ≡ some (nqp_column_definition, payload, rest))
      × (read_columns host (length cs) payload ≡ some (infos_of cs))
unfolding say_columns
say_columns-read_columns host cs rest small short = (
  columns_bytes host cs,
  receive_message-framed host nqp_column_definition (columns_bytes host cs) rest short,
  read_columns-columns_bytes host cs small,
)
