-- ===== src/Plans.antt =====
-- server/src/plans.c: the tree of plans of a SELECT and the columns it offers. A struct with function
-- pointers is a constructor, and a call through the pointer is a clause. `none` is a NULL pointer that
-- is dereferenced: a project plan with no plan under it has no columns to ask for.
pub mod Memory
pub mod Freed
pub mod Grounded
pub mod Freeing
use npsql.Base.{ℕ, Option, none, some, List, [], ◌∷◌, ◌++◌, map, if◌then◌else◌}
use npsql.Sql.{Str, str_eq, Identifier, Expr, expr_idenifier, Column, TableInfo, PlanColumn}

pub data Plan : Type 0 where
  no_plan : Plan
  project_plan : Plan → Plan
  select_plan : Plan → Expr → Plan
  product_plan : Plan → Plan → Plan
  table_plan : TableInfo → ℕ → Plan

-- `table_plan_get_columns`
abbrev pub plan_column_of : TableInfo → Column → PlanColumn
plan_column_of ti c = record {
  size = c.size;
  name = c.name;
  table = ti.table_name;
  type = c.type;
  expr = some (expr_idenifier (record { qualifier = some ti.table_name; name = c.name }));
}

abbrev both : Option (List PlanColumn) → Option (List PlanColumn) → Option (List PlanColumn)
both none r = none
both (some l) none = none
both (some l) (some r) = some (l ++ r)

unfoldable pub get_columns : Plan → Option (List PlanColumn)
get_columns no_plan = none
get_columns (project_plan p) = get_columns p
get_columns (select_plan p where_clause) = get_columns p
get_columns (product_plan l r) = both (get_columns l) (get_columns r)
get_columns (table_plan ti first_am) = some (map (plan_column_of ti) ti.columns)

-- `table_scan_get_column`: the first column of the name.
unfoldable pub find_column : List Column → Str → Option Column
find_column [] name = none
find_column (c ∷ cs) name = if str_eq c.name name then some c else find_column cs name

-- The column that `get_column` fills in, where it returns true; `none` outside is a NULL pointer.
unfoldable pub get_column : Plan → Identifier → Option (Option Column)
unfolding find_column
get_column no_plan name = none
get_column (project_plan p) name = get_column p name
get_column (select_plan p where_clause) name = get_column p name
get_column (product_plan l r) name = elim (get_column l name) [
  | none ↦ none
  | some none ↦ get_column r name
  | some (some c) ↦ some (some c)
]
get_column (table_plan ti first_am) name = some (find_column ti.columns name.name)

pub record Select : Type 0 where
  pub expr_ctx_list : List (Option Expr × Str)
  pub table_refs : List Str
  pub where_clause : Option Expr

-- What `fetch_table_info` fills in for a table's name: the schema and the first allocation map.
abbrev pub Catalog : Type 0
Catalog = Str → TableInfo × ℕ

unfoldable pub new_table_plan : Catalog → Str → Plan
new_table_plan cat name = table_plan (cat name).0 (cat name).1

-- The loop over `table_plans[1]` on.
unfoldable pub products : Plan → List Plan → Plan
products p [] = p
products p (q ∷ qs) = products (product_plan p q) qs

abbrev pub add_where : Plan → Option Expr → Plan
add_where p none = p
add_where p (some e) = select_plan p e

abbrev pub table_plans_plan : List Plan → Option Expr → Plan
table_plans_plan [] where_clause = no_plan
table_plans_plan (p ∷ ps) where_clause = add_where (products p ps) where_clause

unfoldable pub new_select_stmt_plan : Select → Catalog → Plan
new_select_stmt_plan select cat =
    project_plan (table_plans_plan (map (new_table_plan cat) select.table_refs) select.where_clause)
