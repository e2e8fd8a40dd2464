-- ===== src/Planner/From.antt =====
-- The columns that the plan of a SELECT offers.
use npsql.Base.{◌≡◌, ◌∙◌, refl, ap, Option, none, some, List, [], ◌∷◌, ◌++◌, map}
use mathlib.Core.List.{append_assoc, append-nil}
use npsql.Sql.{Str, Expr, PlanColumn}
use npsql.Plans.{
  Plan, product_plan, get_columns, plan_column_of, products, new_table_plan, add_where, Select,
  Catalog, new_select_stmt_plan,
}
use npsql.Planner.{create_select_plan}

-- The columns that the tables of a FROM list offer, in order.
abbrev pub from_columns : Catalog → List Str → List PlanColumn
from_columns cat [] = []
from_columns cat (t ∷ ts) = map (plan_column_of (cat t).0) (cat t).0.columns ++ from_columns cat ts

table-get_columns :
    (cat : Catalog) (t : Str)
    → get_columns (new_table_plan cat t) ≡ some (map (plan_column_of (cat t).0) (cat t).0.columns)
unfolding get_columns new_table_plan
table-get_columns cat t = refl

products-get_columns :
    (cat : Catalog) (p : Plan) (ts : List Str) (cs : List PlanColumn)
    → get_columns p ≡ some cs
    → get_columns (products p (map (new_table_plan cat) ts)) ≡ some (cs ++ from_columns cat ts)
unfolding get_columns products new_table_plan
products-get_columns cat p [] cs e = rw append-nil e
products-get_columns cat p (t ∷ ts) cs e =
    products-get_columns cat (product_plan p (new_table_plan cat t)) ts _ (rw e)
    ∙ ap some
        (append_assoc cs (map (plan_column_of (cat t).0) (cat t).0.columns) (from_columns cat ts))

add_where-get_columns : (p : Plan) (wc : Option Expr) → get_columns (add_where p wc) ≡ get_columns p
unfolding get_columns
add_where-get_columns p none = refl
add_where-get_columns p (some e) = refl

-- With a FROM list the plan of a SELECT offers the columns of its tables in order, whatever the
-- condition is.
pub new_select_stmt_plan-get_columns :
    (select : Select) (cat : Catalog) (t : Str) (ts : List Str)
    → select.table_refs ≡ t ∷ ts
    → get_columns (new_select_stmt_plan select cat) ≡ some (from_columns cat (t ∷ ts))
unfolding new_select_stmt_plan get_columns
new_select_stmt_plan-get_columns select cat t ts e = rw e (
    add_where-get_columns (products (new_table_plan cat t) (map (new_table_plan cat) ts))
      select.where_clause
    ∙ products-get_columns cat (new_table_plan cat t) ts _ (table-get_columns cat t))

-- Without a FROM list the plan of a SELECT has no columns to ask for, and `create_select_plan`
-- dereferences NULL; over any one table the same SELECT has a schema.
pub create_select_plan-no_from :
    (select : Select) (cat : Catalog) (t : Str)
    → select.table_refs ≡ []
    → (create_select_plan select cat ≡ none)
      × (get_columns (new_select_stmt_plan (record select { table_refs = t ∷ [] }) cat)
          ≡ some (from_columns cat (t ∷ [])))
unfolding new_select_stmt_plan get_columns create_select_plan
create_select_plan-no_from select cat t e =
    (rw e, new_select_stmt_plan-get_columns (record select { table_refs = t ∷ [] }) cat t [] refl)
