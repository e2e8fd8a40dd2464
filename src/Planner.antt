-- ===== src/Planner.antt =====
-- server/src/planner.c: the types of the expressions of a SELECT and the columns of its result.
pub mod Success
pub mod From
use npsql.Base.{
  ℕ, zero, suc, Bool, true, false, ◌&&◌, Option, none, some, List, [], ◌∷◌, ◌++◌, if◌then◌else◌,
}
use npsql.Sql.{
  Str, str_eq, NpsqlType, type_unknown, type_int, type_char, type_bool, type_eq, Identifier,
  InfixOp, expr_add, expr_sub, expr_mul, expr_div, expr_equ, expr_and, expr_or, Expr, expr_integer,
  expr_string, expr_idenifier, infix_expr, PlanColumn,
}
use npsql.Plans.{Plan, get_columns, Select, Catalog, new_select_stmt_plan}

abbrev pub qualifier_ok : Option Str → PlanColumn → Bool
qualifier_ok none c = true
qualifier_ok (some q) c = str_eq c.table q

unfoldable pub lookup : List PlanColumn → Identifier → Option PlanColumn
lookup [] n = none
lookup (c ∷ schema) n =
    let rest = lookup schema n in
    if str_eq c.name n.name then if qualifier_ok n.qualifier c then some c else rest else rest

-- `struct plan_column pr = { 0 }`; the result is used for its type and size.
pub record Resolved : Type 0 where
  pub type : NpsqlType
  pub size : ℕ

abbrev pub found_column : Option PlanColumn → Resolved
found_column none = record { type = type_unknown; size = 0 }
found_column (some c) = record { type = c.type; size = c.size }

abbrev pub infix_type : InfixOp → NpsqlType → NpsqlType → NpsqlType
infix_type expr_equ l r = if type_eq l r then type_bool else type_unknown
infix_type expr_and l r =
    if type_eq l type_bool && type_eq r type_bool then type_bool else type_unknown
infix_type expr_or l r =
    if type_eq l type_bool && type_eq r type_bool then type_bool else type_unknown
infix_type _ l r = if type_eq l r then l else type_unknown

unfoldable pub resolve_type : Expr → List PlanColumn → Resolved
resolve_type (expr_idenifier id) schema = found_column (lookup schema id)
resolve_type (expr_integer n) schema = record { type = type_int; size = 0 }
resolve_type (expr_string s) schema = record { type = type_char; size = 0 }
resolve_type (infix_expr op l r) schema = record {
  type = infix_type op (resolve_type l schema).type (resolve_type r schema).type;
  size = 0;
}

pub data Status : Type 0 where
  planner_success planner_error : Status

pub record PlannerResult : Type 0 where
  pub plan : Plan
  pub columns : List PlanColumn
  pub status : Status

-- `column.table` stays NULL.
abbrev pub expr_column : Expr → Str → Resolved → PlanColumn
expr_column e col_name pc = record {
  size = pc.size;
  name = col_name;
  table = [];
  type = pc.type;
  expr = some e;
}

-- The loop over the select list: the columns pushed so far, and whether it ran to its end.
unfoldable pub select_columns :
    List (Option Expr × Str) → List PlanColumn → List PlanColumn → Status × List PlanColumn
select_columns [] schema columns = (planner_success, columns)
select_columns ((none, name) ∷ es) schema columns = select_columns es schema (columns ++ schema)
select_columns ((some e, name) ∷ es) schema columns =
    let pc = resolve_type e schema in
    let rest = select_columns es schema (columns ++ (expr_column e name pc ∷ [])) in
    if type_eq pc.type type_unknown then (planner_error, columns) else rest

abbrev pub where_status : Option Expr → List PlanColumn → Status
where_status none schema = planner_success
where_status (some e) schema =
    if type_eq (resolve_type e schema).type type_bool then planner_success else planner_error

abbrev pub finish : Plan → Option Expr → List PlanColumn → Status × List PlanColumn → PlannerResult
finish plan where_clause schema (planner_error, columns) = record {
  plan = plan;
  columns = columns;
  status = planner_error;
}
finish plan where_clause schema (planner_success, columns) = record {
  plan = plan;
  columns = columns;
  status = where_status where_clause schema;
}

-- `none`: the plan has no columns to ask for, and the call dereferences NULL.
unfoldable pub create_select_plan : Select → Catalog → Option PlannerResult
create_select_plan select cat =
    let plan = new_select_stmt_plan select cat in
    elim (get_columns plan) [
      | none ↦ none
      | some schema ↦
          some
            (finish plan select.where_clause schema (select_columns select.expr_ctx_list schema []))
    ]
