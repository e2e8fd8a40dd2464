-- ===== src/SyntaxTree/Free.antt =====
-- server/src/sql.c: `free_stmts` and what it calls. `none` is a block that is freed twice, or was never
-- allocated, or a NULL identifier that is dereferenced.
use npsql.Base.{ℕ, false, Option, none, some, List, [], ◌∷◌, if◌then◌else◌, put_at}
use npsql.ExprEval.{◌>>=◌}
use npsql.SyntaxTree.{
  Heap, Name, Node, null, integer_term, string_term, identifier_term, term_expr, infix_node,
  ExprCtx, TableRef, ColumnNode, Stmt, select, create_table, insert, ParsedSql,
}

unfoldable pub free_block : Heap → ℕ → Option Heap
free_block h a = if h.live a then some (record h { live = put_at h.live a false }) else none

-- free and vector_free of a pointer that may be NULL
abbrev pub free_pointer : Heap → Option ℕ → Option Heap
free_pointer h none = some h
free_pointer h (some a) = free_block h a

unfoldable pub free_qualifier : Heap → Option Name → Option Heap
free_qualifier h none = some h
free_qualifier h (some q) = free_block h q.at

unfoldable pub free_expr : Heap → Node → Option Heap
free_expr h null = some h
free_expr h (integer_term a v) = free_block h a
free_expr h (identifier_term a id q n) = free_block h n.at >>= λ h1.
    free_qualifier h1 q >>= λ h2. free_block h2 id >>= λ h3. free_block h3 a
free_expr h (term_expr a) = none
free_expr h (string_term a s) = free_block h s.at >>= λ h1. free_block h1 a
free_expr h (infix_node a type l r) =
    free_expr h l >>= λ h1. free_expr h1 r >>= λ h2. free_block h2 a

unfoldable pub free_table_ref : Heap → TableRef → Option Heap
free_table_ref h t = free_block h t.table_name.at >>= λ h1. free_block h1 t.at

unfoldable pub free_column_def : Heap → ColumnNode → Option Heap
free_column_def h c =
    free_block h c.name.at >>= λ h1. free_block h1 c.type.at >>= λ h2. free_block h2 c.at

unfoldable pub free_expr_ctx : Heap → ExprCtx → Option Heap
free_expr_ctx h e =
    free_expr h e.expr >>= λ h1. free_block h1 e.col_name.at >>= λ h2. free_block h2 e.at

abbrev pub free_name : Heap → Name → Option Heap
free_name h n = free_block h n.at

-- The loops over the elements of a vector.
unfoldable pub free_each : {A : Type 0} → (Heap → A → Option Heap) → Heap → List A → Option Heap
free_each f h [] = some h
free_each f h (x ∷ xs) = f h x >>= λ h1. free_each f h1 xs

-- What `free_select`, `free_create_table` and `free_insert_into` free before the statement itself.
unfoldable pub free_content : Heap → Stmt → Option Heap
free_content h (select a exprs refs where_ unresolved) =
    free_each free_expr_ctx h exprs.items >>= λ h1. free_each free_table_ref h1 refs.items >>= λ h2.
    free_expr h2 where_ >>= λ h3. free_pointer h3 exprs.at >>= λ h4.
    free_pointer h4 refs.at >>= λ h5. free_pointer h5 unresolved.at
free_content h (create_table a name defs) = free_each free_column_def h defs.items >>= λ h1.
    free_pointer h1 defs.at >>= λ h2. free_block h2 name.at
free_content h (insert a name columns values) = free_each free_name h columns.items >>= λ h1.
    free_each free_expr h1 values.items >>= λ h2.
    free_block h2 name.at >>= λ h3. free_pointer h3 columns.at >>= λ h4. free_pointer h4 values.at

abbrev pub block_of : Stmt → ℕ
block_of (select a exprs refs where_ unresolved) = a
block_of (create_table a name defs) = a
block_of (insert a name columns values) = a

unfoldable pub free_stmt : Heap → Stmt → Option Heap
free_stmt h s = free_content h s >>= λ h1. free_block h1 (block_of s)

-- The vector `unresolved` of the parsed query is left.
unfoldable pub free_stmts : Heap → ParsedSql → Option Heap
free_stmts h parsed = free_each free_stmt h parsed.stmts.items >>= λ h1.
    free_pointer h1 parsed.stmts.at >>= λ h2.
    free_pointer h2 parsed.error_msg.at >>= λ h3. free_block h3 parsed.at
