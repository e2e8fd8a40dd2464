-- ===== src/SyntaxTree/Parse.antt =====
-- server/src/parser.y, lexer.l, parser_bison.c: the actions that build the tree of a query, in the order
-- of the reductions. A token's string is allocated when its rule is reduced. The generated parser itself
-- is left out: a query is given by its statements, with no syntax error.
use npsql.Base.{ℕ, false, Option, none, some, List, [], ◌∷◌}
use npsql.ExprEval.{◌>>=◌}
use npsql.Sql.{Str, NpsqlType, Expr, expr_integer, expr_string, expr_idenifier, infix_expr}
use npsql.SyntaxTree.{
  Heap, malloc, strdup, Name, Vec, null_vec, Grow, vec_push, Node, null, identifier_term,
  string_value, integer_value, new_term_expr, new_identifier, new_infix_expr, new_expr_list,
  append_expr_list, ExprCtx, TableRef, ColumnNode, Stmt, ParsedSql, new_select, new_select_data,
  append_expr_ctx_list, new_expr_ctx_list, new_table_ref, new_table_list, append_table_list,
  new_create_table, new_column_def_list, append_column_def_list, create_column_def, create_type_def,
  new_insert, new_column_list, append_column_list,
}

-- The heap and `parsed->unresolved`, which lists the blocks of identifiers.
abbrev pub Parsing : Type 0
Parsing = Heap × Vec ℕ

-- A column of CREATE TABLE: its name, its type and its size.
abbrev pub CreateDef : Type 0
CreateDef = Str × NpsqlType × ℕ

-- A statement as it is written. The lists have an element at least; an expression that is not there
-- is `*` in a select list and no WHERE after FROM.
pub data Query : Type 0 where
  select_only : Option Expr → List (Option Expr) → Query
  select_from : Option Expr → List (Option Expr) → Str → List Str → Option Expr → Query
  create : Str → CreateDef → List CreateDef → Query
  insert_into : Str → Str → List Str → Expr → List Expr → Query

-- The rule of an identifier; the block of the identifier goes to `parsed->unresolved`.
abbrev pub identifier_of : Node → ℕ
identifier_of (identifier_term a id q n) = id
identifier_of other = 0

abbrev pub reduce_identifier : Grow → Parsing → Option Name → Name → Parsing × Node
reduce_identifier grow (h, u) qualifier name =
    let (h', t) = new_identifier h qualifier name in (vec_push grow h' u (identifier_of t), t)

abbrev pub reduce_qualified : Grow → Parsing → Option Str → Str → Parsing × Node
reduce_qualified grow (h, u) none s =
    let (h1, name) = strdup h s in reduce_identifier grow (h1, u) none name
reduce_qualified grow (h, u) (some q) s =
    let (h1, qualifier) = strdup h q in
    let (h2, name) = strdup h1 s in reduce_identifier grow (h2, u) (some qualifier) name

unfoldable pub reduce_expr : Grow → Parsing → Expr → Parsing × Node
reduce_expr grow s (expr_string t) =
    let (h1, name) = strdup s.0 t in
    let (h2, e) = new_term_expr h1 (string_value name) in ((h2, s.1), e)
reduce_expr grow s (expr_integer v) =
    let (h1, e) = new_term_expr s.0 (integer_value v) in ((h1, s.1), e)
reduce_expr grow s (expr_idenifier id) = reduce_qualified grow s id.qualifier id.name
reduce_expr grow s (infix_expr type l r) =
    let (s1, l') = reduce_expr grow s l in
    let (s2, r') = reduce_expr grow s1 r in
    let (h3, e) = new_infix_expr s2.0 type l' r' in ((h3, s2.1), e)

-- select_expr and opt_where: NULL where there is no expression.
unfoldable pub reduce_opt : Grow → Parsing → Option Expr → Parsing × Node
reduce_opt grow s none = (s, null)
reduce_opt grow s (some e) = reduce_expr grow s e

-- select_expr_list, from its second expression on
unfoldable pub reduce_exprs :
    Grow → Parsing → Vec ExprCtx → List (Option Expr) → Option (Parsing × Vec ExprCtx)
reduce_exprs grow s v [] = some (s, v)
reduce_exprs grow s v (x ∷ xs) =
    let (s1, e) = reduce_opt grow s x in
    append_expr_ctx_list grow s1.0 v e >>= λ (r : Heap × Vec ExprCtx).
    reduce_exprs grow (r.0, s1.1) r.1 xs

unfoldable pub reduce_select_list :
    Grow → Parsing → Option Expr → List (Option Expr) → Option (Parsing × Vec ExprCtx)
reduce_select_list grow s x xs =
    let (s1, e) = reduce_opt grow s x in
    new_expr_ctx_list grow s1.0 e >>= λ (r : Heap × Vec ExprCtx).
    reduce_exprs grow (r.0, s1.1) r.1 xs

-- table_ref
abbrev pub reduce_table_ref : Heap → Str → Heap × TableRef
reduce_table_ref h name = let (h1, n) = strdup h name in new_table_ref h1 n

unfoldable pub reduce_tables : Grow → Heap → Vec TableRef → List Str → Heap × Vec TableRef
reduce_tables grow h v [] = (h, v)
reduce_tables grow h v (name ∷ names) =
    let (h1, t) = reduce_table_ref h name in
    let (h2, v') = append_table_list grow h1 v t in reduce_tables grow h2 v' names

unfoldable pub reduce_table_refs : Grow → Heap → Str → List Str → Heap × Vec TableRef
reduce_table_refs grow h name names =
    let (h1, t) = reduce_table_ref h name in
    let (h2, v) = new_table_list grow h1 t in reduce_tables grow h2 v names

-- create_def with data_type
abbrev pub reduce_create_def : Heap → CreateDef → Heap × ColumnNode
reduce_create_def h (name, type, size) =
    let (h1, n) = strdup h name in
    let (h2, t) = create_type_def h1 type size in create_column_def h2 n t

unfoldable pub reduce_defs : Grow → Heap → Vec ColumnNode → List CreateDef → Heap × Vec ColumnNode
reduce_defs grow h v [] = (h, v)
reduce_defs grow h v (c ∷ cs) =
    let (h1, d) = reduce_create_def h c in
    let (h2, v') = append_column_def_list grow h1 v d in reduce_defs grow h2 v' cs

unfoldable pub reduce_create_col_list :
    Grow → Heap → CreateDef → List CreateDef → Heap × Vec ColumnNode
reduce_create_col_list grow h c cs =
    let (h1, d) = reduce_create_def h c in
    let (h2, v) = new_column_def_list grow h1 d in reduce_defs grow h2 v cs

unfoldable pub reduce_columns : Grow → Heap → Vec Name → List Str → Heap × Vec Name
reduce_columns grow h v [] = (h, v)
reduce_columns grow h v (c ∷ cs) =
    let (h1, n) = strdup h c in
    let (h2, v') = append_column_list grow h1 v n in reduce_columns grow h2 v' cs

unfoldable pub reduce_column_list : Grow → Heap → Str → List Str → Heap × Vec Name
reduce_column_list grow h c cs =
    let (h1, n) = strdup h c in
    let (h2, v) = new_column_list grow h1 n in reduce_columns grow h2 v cs

unfoldable pub reduce_values : Grow → Parsing → Vec Node → List Expr → Parsing × Vec Node
reduce_values grow s v [] = (s, v)
reduce_values grow s v (x ∷ xs) =
    let (s1, e) = reduce_expr grow s x in
    let (h2, v') = append_expr_list grow s1.0 v e in reduce_values grow (h2, s1.1) v' xs

unfoldable pub reduce_value_list : Grow → Parsing → Expr → List Expr → Parsing × Vec Node
reduce_value_list grow s x xs =
    let (s1, e) = reduce_expr grow s x in
    let (h2, v) = new_expr_list grow s1.0 e in reduce_values grow (h2, s1.1) v xs

-- stmt; `none` is a name that `generate_name` writes past its array.
unfoldable pub reduce_stmt : Grow → Parsing → Query → Option (Parsing × Stmt)
reduce_stmt grow s (select_only x xs) =
    reduce_select_list grow s x xs >>= λ (r : Parsing × Vec ExprCtx).
    (let (h2, t) = new_select r.0.0 r.1 in some ((h2, r.0.1), t))
reduce_stmt grow s (select_from x xs t ts c) =
    reduce_select_list grow s x xs >>= λ (r : Parsing × Vec ExprCtx).
    (let (h2, refs) = reduce_table_refs grow r.0.0 t ts in
      let (s3, e) = reduce_opt grow (h2, r.0.1) c in
      let (h4, stmt) = new_select_data s3.0 r.1 refs e s3.1 in some ((h4, null_vec), stmt))
reduce_stmt grow s (create name c cs) =
    let (h1, n) = strdup s.0 name in
    let (h2, defs) = reduce_create_col_list grow h1 c cs in
    let (h3, stmt) = new_create_table h2 n defs in some ((h3, s.1), stmt)
reduce_stmt grow s (insert_into name c cs x xs) =
    let (h1, n) = strdup s.0 name in
    let (h2, columns) = reduce_column_list grow h1 c cs in
    let (s3, values) = reduce_value_list grow (h2, s.1) x xs in
    let (h4, stmt) = new_insert s3.0 n columns values in some ((h4, s3.1), stmt)

-- stmt_list
unfoldable pub reduce_stmts : Grow → Heap → ParsedSql → List Query → Option (Heap × ParsedSql)
reduce_stmts grow h parsed [] = some (h, parsed)
reduce_stmts grow h parsed (q ∷ qs) =
    reduce_stmt grow (h, parsed.unresolved) q >>= λ (r : Parsing × Stmt).
    (let (h2, stmts) = vec_push grow r.0.0 parsed.stmts r.1 in
      reduce_stmts grow h2 (record parsed { stmts = stmts; unresolved = r.0.1 }) qs)

unfoldable pub parse_sql : Grow → Heap → List Query → Option (Heap × ParsedSql)
parse_sql grow h qs =
    let (h1, a) = malloc h in
    reduce_stmts grow h1
      (record {
        at = a;
        stmts = null_vec;
        error_msg = null_vec;
        unresolved = null_vec;
        error = false;
      })
      qs
