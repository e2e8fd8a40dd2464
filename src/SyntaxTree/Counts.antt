-- ===== src/SyntaxTree/Counts.antt =====
-- How many of a statement's blocks each part of it holds.
use npsql.Base.{ℕ, ◌+◌, ◌≡◌, List, [], ◌∷◌, ◌++◌, arith}
use npsql.SyntaxTree.{Name, Node, ExprCtx, TableRef, ColumnNode, select, create_table, insert, Vec}
use npsql.SyntaxTree.Blocks.{count, count_append, block}
use npsql.SyntaxTree.Freed.{
  freed_expr, freed_expr_ctx, freed_table_ref, freed_column_def, freed_name, freed_each,
  freed_content, freed_stmt,
}
use npsql.SyntaxTree.Lists.{held}

-- The blocks of a statement, counted piece by piece.
pub count-select :
    (b : ℕ) (v : Vec ExprCtx) (refs : Vec TableRef) (w : Node) (u : Vec ℕ) (ys : List ℕ) (a : ℕ)
    → count a (freed_stmt (select b v refs w u) ++ ys)
      ≡ count a (held freed_expr_ctx v)
        + count a (held freed_table_ref refs)
        + count a (freed_expr w)
        + count a (block u.at)
        + count a (b ∷ [])
        + count a ys
count-select b v refs w u ys a =
    let exprs = freed_each freed_expr_ctx v.items in
    let tables = freed_each freed_table_ref refs.items in
    let blocks = block v.at ++ (block refs.at ++ block u.at) in
    omega (
      arith,
      count_append a (freed_stmt (select b v refs w u)) ys,
      count_append a (freed_content (select b v refs w u)) (b ∷ []),
      count_append a exprs (tables ++ (freed_expr w ++ blocks)),
      count_append a tables (freed_expr w ++ blocks),
      count_append a (freed_expr w) blocks,
      count_append a (block v.at) (block refs.at ++ block u.at),
      count_append a (block refs.at) (block u.at),
      count_append a (block v.at) exprs,
      count_append a (block refs.at) tables,
    )

pub count-create_table :
    (b : ℕ) (n : Name) (v : Vec ColumnNode) (ys : List ℕ) (a : ℕ)
    → count a (freed_stmt (create_table b n v) ++ ys)
      ≡ count a (held freed_column_def v) + count a (n.at ∷ []) + count a (b ∷ []) + count a ys
count-create_table b n v ys a =
    let defs = freed_each freed_column_def v.items in
    omega (
      arith,
      count_append a (freed_stmt (create_table b n v)) ys,
      count_append a (freed_content (create_table b n v)) (b ∷ []),
      count_append a defs (block v.at ++ (n.at ∷ [])),
      count_append a (block v.at) (n.at ∷ []),
      count_append a (block v.at) defs,
    )

pub count-insert :
    (b : ℕ) (n : Name) (c : Vec Name) (v : Vec Node) (ys : List ℕ) (a : ℕ)
    → count a (freed_stmt (insert b n c v) ++ ys)
      ≡ count a (held freed_name c)
        + count a (held freed_expr v)
        + count a (n.at ∷ [])
        + count a (b ∷ [])
        + count a ys
count-insert b n c v ys a =
    let columns = freed_each freed_name c.items in
    let values = freed_each freed_expr v.items in
    let blocks = block c.at ++ block v.at in
    omega (
      arith,
      count_append a (freed_stmt (insert b n c v)) ys,
      count_append a (freed_content (insert b n c v)) (b ∷ []),
      count_append a columns (values ++ ((n.at ∷ []) ++ blocks)),
      count_append a values ((n.at ∷ []) ++ blocks),
      count_append a (block c.at) (block v.at),
      count_append a (block c.at) columns,
      count_append a (block v.at) values,
    )

-- Two parts that are held in another order.
pub count-swap :
    (xs ys zs : List ℕ) (a : ℕ) → count a (xs ++ (ys ++ zs)) ≡ count a (ys ++ (xs ++ zs))
count-swap xs ys zs a = omega (
  arith,
  count_append a xs (ys ++ zs),
  count_append a ys zs,
  count_append a ys (xs ++ zs),
  count_append a xs zs,
)
