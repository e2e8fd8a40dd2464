-- ===== src/SyntaxTree/Content.antt =====
-- What the syntax tree says: the query as it was written, with the names that the columns are given.
use npsql.Base.{ℕ, ◌+◌, ◌≡◌, refl, Option, none, some, List, [], ◌∷◌, map}
use npsql.ExprEval.{◌>>=◌}
use npsql.Sql.{Str, Expr, expr_integer, expr_string, expr_idenifier, infix_expr}
use npsql.Plans.{Select}
use npsql.SyntaxTree.{
  Grow, Node, null, integer_term, string_term, identifier_term, term_expr, infix_node, to_int,
  new_term_expr, new_identifier, new_infix_expr, ExprCtx, TableRef, column_name, Stmt, select,
  create_table, insert,
}
use npsql.SyntaxTree.Parse.{Parsing, reduce_qualified, reduce_expr}

-- An expression as the planner reads it; NULL is none.
abbrev pub expr_of : Node → Option Expr
expr_of null = none
expr_of (integer_term a v) = some (expr_integer v)
expr_of (string_term a s) = some (expr_string s.text)
expr_of (identifier_term a id none n) =
    some (expr_idenifier (record { qualifier = none; name = n.text }))
expr_of (identifier_term a id (some q) n) =
    some (expr_idenifier (record { qualifier = some q.text; name = n.text }))
expr_of (term_expr a) = none
expr_of (infix_node a type l r) =
    expr_of l >>= λ l'. expr_of r >>= λ r'. some (infix_expr type l' r')

-- An expression with its integers as ints.
abbrev pub with_ints : Expr → Expr
with_ints (expr_integer v) = expr_integer (to_int v)
with_ints (expr_string s) = expr_string s
with_ints (expr_idenifier id) = expr_idenifier id
with_ints (infix_expr type l r) = infix_expr type (with_ints l) (with_ints r)

abbrev pub with_ints_opt : Option Expr → Option Expr
with_ints_opt none = none
with_ints_opt (some e) = some (with_ints e)

qualified_lem :
    (grow : Grow) (s : Parsing) (q : Option Str) (t : Str)
    → expr_of (reduce_qualified grow s q t).1
      ≡ some (expr_idenifier (record { qualifier = q; name = t }))
unfolding new_identifier
qualified_lem grow s none t = refl
qualified_lem grow s (some q) t = refl

pub reduce_expr-content :
    (grow : Grow) (s : Parsing) (e : Expr) → expr_of (reduce_expr grow s e).1 ≡ some (with_ints e)
unfolding reduce_expr new_term_expr new_infix_expr
reduce_expr-content grow s (expr_integer v) = refl
reduce_expr-content grow s (expr_string t) = refl
reduce_expr-content grow s (expr_idenifier id) = qualified_lem grow s id.qualifier id.name
reduce_expr-content grow s (infix_expr type l r) =
    rw (reduce_expr-content grow s l, reduce_expr-content grow (reduce_expr grow s l).0 r) refl

-- The columns of a SELECT, from the one with index `i` on, with the names that they are given.
abbrev pub named_columns : ℕ → List (Option Expr) → List (Option Expr × Str)
named_columns i [] = []
named_columns i (x ∷ xs) = (with_ints_opt x, column_name (i + 1)) ∷ named_columns (i + 1) xs

abbrev pub column_of : ExprCtx → Option Expr × Str
column_of c = (expr_of c.expr, c.col_name.text)

abbrev pub table_of : TableRef → Str
table_of t = t.table_name.text

-- A SELECT as the planner reads it.
abbrev pub select_of : Stmt → Option Select
select_of (select a exprs refs where_ unresolved) = some (record {
  expr_ctx_list = map column_of exprs.items;
  table_refs = map table_of refs.items;
  where_clause = expr_of where_;
})
select_of (create_table a name defs) = none
select_of (insert a name columns values) = none
