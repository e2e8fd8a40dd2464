-- ===== src/SyntaxTree.antt =====
-- server/src/sql.c, server/include/sql.h: the syntax tree as the parser's actions allocate it. A pointer
-- is the number of a block; `Heap` says which blocks are allocated. A node has its block beside its
-- content, so that what is freed can be told from what the tree says.
-- The vectors are a library's: `grow` is what a push does to a vector's block, before it stores the
-- element. Its arguments are the heap, the block, none for an empty vector, and the vector's size.
pub mod Free
pub mod Blocks
pub mod Freed
pub mod Parse
pub mod Names
pub mod Owned
pub mod Lists
pub mod Select
pub mod Counts
pub mod Stmts
pub mod Freeing
pub mod Content
use npsql.Base.{
  ℕ, zero, suc, ◌+◌, ◌-◌, ◌/◌, ◌%◌, ◌^◌, Bool, true, false, Option, none, some, List, [], ◌∷◌, ◌++◌,
  ltb, if◌then◌else◌, put_at, length,
}
use npsql.Base.Int.{ℤ, pos, negsuc}
use npsql.Sql.{Str, NpsqlType, InfixOp}
use npsql.ExprEval.{◌>>=◌}
use npsql.Values.{int_of_uint32}

pub record Heap : Type 0 where
  pub next : ℕ
  pub live : ℕ → Bool

-- malloc: a block that was never given out before. Where malloc fails the code asserts.
abbrev pub malloc : Heap → Heap × ℕ
malloc h = (record { next = h.next + 1; live = put_at h.live h.next true }, h.next)

-- A string of its own: `char *` from strdup.
pub record Name : Type 0 where
  pub at : ℕ
  pub text : Str

abbrev pub strdup : Heap → Str → Heap × Name
strdup h s = let (h', a) = malloc h in (h', record { at = a; text = s })

pub record Vec {ℓ} (A : Type ℓ) : Type ℓ where
  pub at : Option ℕ
  pub items : List A

abbrev pub null_vec {ℓ} : {A : Type ℓ} → Vec A
null_vec = record { at = none; items = [] }

abbrev pub Grow : Type 0
Grow = Heap → Option ℕ → ℕ → Heap × ℕ

abbrev pub vec_push {ℓ} : {A : Type ℓ} → Grow → Heap → Vec A → A → Heap × Vec A
vec_push grow h v x =
    let (h', b) = grow h v.at (length v.items) in
    (h', record { at = some b; items = v.items ++ (x ∷ []) })

-- `struct expr` with `struct term_expr` and `struct infix_expr`. `null` is the expression `*`, and
-- `term_expr` one whose union is still NULL.
pub data Node : Type 0 where
  null : Node
  integer_term : ℕ → ℤ → Node
  string_term : ℕ → Name → Node
  identifier_term : ℕ → ℕ → Option Name → Name → Node
  term_expr : ℕ → Node
  infix_node : ℕ → InfixOp → Node → Node → Node

-- The type and the value that `new_term_expr` is given.
pub data Term : Type 0 where
  string_value : Name → Term
  integer_value : ℤ → Term
  other_value : Term

-- A long as an int.
abbrev pub to_int : ℤ → ℤ
to_int (pos n) = int_of_uint32 (n % 2 ^ 32)
to_int (negsuc n) = int_of_uint32 (2 ^ 32 - 1 - n % 2 ^ 32)

abbrev term_of : ℕ → Term → Node
term_of a (string_value s) = string_term a s
term_of a (integer_value v) = integer_term a (to_int v)
term_of a other_value = term_expr a

unfoldable pub new_term_expr : Heap → Term → Heap × Node
new_term_expr h v = let (h', a) = malloc h in (h', term_of a v)

unfoldable pub new_identifier : Heap → Option Name → Name → Heap × Node
new_identifier h qualifier name =
    let (h1, expr) = malloc h in
    let (h2, id) = malloc h1 in (h2, identifier_term expr id qualifier name)

unfoldable pub new_infix_expr : Heap → InfixOp → Node → Node → Heap × Node
new_infix_expr h type l r = let (h', a) = malloc h in (h', infix_node a type l r)

unfoldable pub new_expr_list : Grow → Heap → Node → Heap × Vec Node
new_expr_list grow h null = (h, null_vec)
new_expr_list grow h expr = vec_push grow h null_vec expr

unfoldable pub append_expr_list : Grow → Heap → Vec Node → Node → Heap × Vec Node
append_expr_list grow h expr_list expr = vec_push grow h expr_list expr

-- The decimal digits of a number below ten to the fuel, before `rest`.
unfoldable pub digits : ℕ → ℕ → Str → Str
digits zero n rest = rest
digits (suc fuel) n rest =
    let more = digits fuel (n / 10) ((48 + n % 10) ∷ rest) in
    if ltb n 10 then (48 + n % 10) ∷ rest else more

-- sprintf "col_%d" of an int, which has ten digits at most.
abbrev pub column_name : ℕ → Str
column_name n = 99 ∷ 111 ∷ 108 ∷ 95 ∷ digits 10 n []

-- `none` is a name that is written past the array of seven bytes, terminator included.
unfoldable pub generate_name : Heap → ℕ → Option (Heap × Name)
generate_name h i =
    let name = column_name (i + 1) in if ltb (length name) 7 then some (strdup h name) else none

pub record ExprCtx : Type 0 where
  pub at : ℕ
  pub expr : Node
  pub col_name : Name

pub record TableRef : Type 0 where
  pub at : ℕ
  pub table_name : Name

pub record TypeDef : Type 0 where
  pub at : ℕ
  pub type : NpsqlType
  pub size : ℕ

pub record ColumnNode : Type 0 where
  pub at : ℕ
  pub name : Name
  pub type : TypeDef

pub data Stmt : Type 0 where
  select : ℕ → Vec ExprCtx → Vec TableRef → Node → Vec ℕ → Stmt
  create_table : ℕ → Name → Vec ColumnNode → Stmt
  insert : ℕ → Name → Vec Name → Vec Node → Stmt

-- `unresolved` lists the blocks of identifiers.
pub record ParsedSql : Type 0 where
  pub at : ℕ
  pub error_msg : Vec ℕ
  pub error : Bool
  pub stmts : Vec Stmt
  pub unresolved : Vec ℕ

-- Its vector is passed by value: the caller keeps the old pointer, and the heap is all that is left.
unfoldable pub append_stmt : Grow → Heap → Vec Stmt → Stmt → Heap
append_stmt grow h stmt_list stmt = (vec_push grow h stmt_list stmt).0

unfoldable pub new_select : Heap → Vec ExprCtx → Heap × Stmt
new_select h expr_ctx_list =
    let (h', a) = malloc h in (h', select a expr_ctx_list null_vec null null_vec)

unfoldable pub new_select_data : Heap → Vec ExprCtx → Vec TableRef → Node → Vec ℕ → Heap × Stmt
new_select_data h expr_ctx_list table_refs where_ unresolved =
    let (h', a) = malloc h in (h', select a expr_ctx_list table_refs where_ unresolved)

unfoldable pub append_expr_ctx_list : Grow → Heap → Vec ExprCtx → Node → Option (Heap × Vec ExprCtx)
append_expr_ctx_list grow h expr_ctx_list expr =
    let (h1, a) = malloc h in
    generate_name h1 (length expr_ctx_list.items) >>= λ (n : Heap × Name).
    some (vec_push grow n.0 expr_ctx_list (record { at = a; expr = expr; col_name = n.1 }))

unfoldable pub new_expr_ctx_list : Grow → Heap → Node → Option (Heap × Vec ExprCtx)
new_expr_ctx_list grow h expr =
    let (h1, a) = malloc h in
    generate_name h1 0 >>= λ (n : Heap × Name).
    some (vec_push grow n.0 null_vec (record { at = a; expr = expr; col_name = n.1 }))

unfoldable pub new_table_ref : Heap → Name → Heap × TableRef
new_table_ref h name = let (h', a) = malloc h in (h', record { at = a; table_name = name })

unfoldable pub new_table_list : Grow → Heap → TableRef → Heap × Vec TableRef
new_table_list grow h table_ref = vec_push grow h null_vec table_ref

unfoldable pub append_table_list : Grow → Heap → Vec TableRef → TableRef → Heap × Vec TableRef
append_table_list grow h table_refs table_ref = vec_push grow h table_refs table_ref

unfoldable pub new_create_table : Heap → Name → Vec ColumnNode → Heap × Stmt
new_create_table h name column_defs =
    let (h', a) = malloc h in (h', create_table a name column_defs)

unfoldable pub new_column_def_list : Grow → Heap → ColumnNode → Heap × Vec ColumnNode
new_column_def_list grow h column_def = vec_push grow h null_vec column_def

unfoldable pub append_column_def_list :
    Grow → Heap → Vec ColumnNode → ColumnNode → Heap × Vec ColumnNode
append_column_def_list grow h column_def_list column_def =
    vec_push grow h column_def_list column_def

unfoldable pub create_column_def : Heap → Name → TypeDef → Heap × ColumnNode
create_column_def h name type =
    let (h', a) = malloc h in (h', record { at = a; name = name; type = type })

-- `size` is a uint16_t.
unfoldable pub create_type_def : Heap → NpsqlType → ℕ → Heap × TypeDef
create_type_def h type size =
    let (h', a) = malloc h in (h', record { at = a; type = type; size = size % 2 ^ 16 })

unfoldable pub new_insert : Heap → Name → Vec Name → Vec Node → Heap × Stmt
new_insert h name columns values = let (h', a) = malloc h in (h', insert a name columns values)

unfoldable pub new_column_list : Grow → Heap → Name → Heap × Vec Name
new_column_list grow h column = vec_push grow h null_vec column

unfoldable pub append_column_list : Grow → Heap → Vec Name → Name → Heap × Vec Name
append_column_list grow h column_list column = vec_push grow h column_list column
