-- ===== src/Tests/Select.antt =====
-- server/src/planner.c, plans.c and expr_eval.c on `SELECT a, a + 2 FROM t WHERE a = 7`, where `t` has
-- an int column `a` and a char column `b`.
use npsql.Base.{
  ◌≡◌, ◌≢◌, refl, some, none, true, false, Bool, List, [], ◌∷◌, ◌↔◌, if◌then◌else◌, map,
}
use npsql.Base.Int.{ℤ, pos}
use npsql.Sql.{
  Str, str_eq, type_unknown, type_int, type_char, type_bool, Identifier, Expr, expr_integer,
  expr_string, expr_idenifier, infix_expr, expr_add, expr_equ, Union, number, Value, TableInfo,
  PlanColumn,
}
use npsql.ExprEval.{eval}
use npsql.ExprEval.Typing.{HasType, integer, column, infix_, equ}
use npsql.ExprEval.Resolve.{Gives, resolve_type-Gives}
use npsql.ExprEval.Soundness.{RowFits, Sound, meaning, eval-meaning}
use npsql.Plans.{
  Select, Catalog, plan_column_of, get_columns, new_table_plan, products, new_select_stmt_plan,
}
use npsql.Planner.{lookup, resolve_type, planner_success, PlannerResult, create_select_plan}
use npsql.Planner.From.{from_columns, create_select_plan-no_from}
use npsql.Planner.Success.{
  Known, Condition, result_columns, create_select_plan-success, create_select_plan-columns,
}

abbrev name_a : Str
name_a = 97 ∷ []

abbrev name_b : Str
name_b = 98 ∷ []

abbrev pub name_t : Str
name_t = 116 ∷ []

abbrev t_info : TableInfo
t_info = record {
  table_name = name_t;
  record_size = 14;
  columns =
      record { type = type_int; size = 4; name = name_a; offset = 0 }
      ∷ record { type = type_char; size = 10; name = name_b; offset = 4 }
      ∷ [];
}

abbrev pub cat : Catalog
cat _ = (t_info, 9)

abbrev t_columns : List PlanColumn
t_columns = map (plan_column_of t_info) t_info.columns

abbrev a : Identifier
a = record { qualifier = none; name = name_a }

abbrev a_plus_2 : Expr
a_plus_2 = infix_expr expr_add (expr_idenifier a) (expr_integer (pos 2))

abbrev a_is_7 : Expr
a_is_7 = infix_expr expr_equ (expr_idenifier a) (expr_integer (pos 7))

abbrev pub select_1 : Select
select_1 = record {
  expr_ctx_list = (some (expr_idenifier a), name_a) ∷ (some a_plus_2, []) ∷ [];
  table_refs = name_t ∷ [];
  where_clause = some a_is_7;
}

select_1-columns : get_columns (new_select_stmt_plan select_1 cat) ≡ some t_columns
unfolding get_columns new_select_stmt_plan products new_table_plan
select_1-columns = refl

abbrev no_from : Select
no_from = record select_1 { table_refs = [] }

create_select_plan-no_from_example :
    (create_select_plan no_from cat ≡ none)
    × (get_columns (new_select_stmt_plan (record no_from { table_refs = name_t ∷ [] }) cat)
        ≡ some (from_columns cat (name_t ∷ [])))
create_select_plan-no_from_example = create_select_plan-no_from no_from cat name_t refl

create_select_plan-success_example :
    (r : PlannerResult) × (create_select_plan select_1 cat ≡ some r)
    × ((r.status ≡ planner_success)
        ↔ (Known select_1.expr_ctx_list t_columns × Condition select_1.where_clause t_columns))
create_select_plan-success_example =
    create_select_plan-success select_1 cat t_columns select_1-columns

select_1-Known : Known select_1.expr_ctx_list t_columns
unfolding resolve_type lookup str_eq
select_1-Known = (refl, (refl, tt))

select_1-Condition : Condition select_1.where_clause t_columns
unfolding resolve_type lookup str_eq
select_1-Condition = refl

create_select_plan-columns_example :
    create_select_plan select_1 cat
    ≡ some (record {
      plan = new_select_stmt_plan select_1 cat;
      columns = result_columns select_1.expr_ctx_list t_columns;
      status = planner_success;
    })
create_select_plan-columns_example =
    create_select_plan-columns select_1 cat t_columns select_1-columns select_1-Known
      select_1-Condition

-- A row of one column `a` that holds 7.
abbrev col_a : PlanColumn
col_a = record { size = 4; name = name_a; table = name_t; type = type_int; expr = none }

abbrev row : Identifier → Value
row _ = record { type = type_int; size = 4; as_ = number (pos 7) }

abbrev garbage : Union → ℤ
garbage _ = pos 0

abbrev garbage_bool : Union → Bool
garbage_bool _ = false

lookup-col_a : lookup (col_a ∷ []) a ≡ some col_a
unfolding lookup str_eq
lookup-col_a = refl

int_known : type_int ≢ type_unknown
int_known e = absurd cc

a_is_7-HasType : HasType (col_a ∷ []) a_is_7 type_bool
a_is_7-HasType = infix_ equ (column a col_a lookup-col_a int_known) (integer (pos 7))

-- a + 2 = 'x' has no type.
abbrev mixed : Expr
mixed = infix_expr expr_equ a_plus_2 (expr_string (120 ∷ []))

resolve_type-Gives_example :
    ((resolve_type mixed (col_a ∷ [])).type ≡ type_unknown) ↔ Gives (col_a ∷ []) mixed type_unknown
resolve_type-Gives_example = resolve_type-Gives mixed (col_a ∷ []) type_unknown

guarded :
    (b d : Bool) (x y : PlanColumn)
    → (if b then if d then some x else none else none) ≡ some y
    → y ≡ x
guarded true true x y h = cc
guarded true false x y h = absurd cc
guarded false d x y h = absurd cc

lookup-one : (id : Identifier) (c : PlanColumn) → lookup (col_a ∷ []) id ≡ some c → c ≡ col_a
unfolding lookup
lookup-one id c h = guarded _ _ col_a c h

row-RowFits : RowFits (col_a ∷ []) row
row-RowFits id c found = rw (lookup-one id c found) (refl, λ _. (pos 7, refl))

eval-meaning_example : Sound type_bool (eval garbage garbage_bool a_is_7 row) (meaning row a_is_7)
eval-meaning_example = eval-meaning garbage garbage_bool row row-RowFits a_is_7-HasType
