-- ===== src/Planner/Success.antt =====
-- When `create_select_plan` accepts a SELECT, and which columns the result then has.
use npsql.Base.{
  ◌≡◌, ◌∙◌, ◌↔◌, refl, ap, true, false, Bool-cases, inl, inr, Option, none, some, List, [], ◌∷◌,
  ◌++◌, arith,
}
use mathlib.Core.List.{append_assoc, append-nil}
use npsql.Sql.{Str, type_unknown, type_bool, type_eq, Expr, PlanColumn}
use npsql.Plans.{Plan, get_columns, Select, Catalog, new_select_stmt_plan}
use npsql.Planner.{
  resolve_type, Status, planner_success, planner_error, PlannerResult, expr_column, select_columns,
  where_status, finish, create_select_plan,
}

-- The select list as the user reads it: `*` stands for the schema.
abbrev pub result_columns : List (Option Expr × Str) → List PlanColumn → List PlanColumn
result_columns [] schema = []
result_columns ((none, name) ∷ es) schema = schema ++ result_columns es schema
result_columns ((some e, name) ∷ es) schema =
    expr_column e name (resolve_type e schema) ∷ result_columns es schema

-- Every expression of the select list has a type.
abbrev pub Known : List (Option Expr × Str) → List PlanColumn → Type 0
Known [] schema = Unit {0}
Known ((none, name) ∷ es) schema = Known es schema
Known ((some e, name) ∷ es) schema =
    (type_eq (resolve_type e schema).type type_unknown ≡ false) × Known es schema

-- The condition, if there is one, is Boolean.
abbrev pub Condition : Option Expr → List PlanColumn → Type 0
Condition none schema = Unit {0}
Condition (some e) schema = type_eq (resolve_type e schema).type type_bool ≡ true

select_columns-Known :
    (es : List (Option Expr × Str)) (schema acc : List PlanColumn)
    → Known es schema
    → select_columns es schema acc ≡ (planner_success, acc ++ result_columns es schema)
unfolding select_columns
select_columns-Known [] schema acc k = rw append-nil
select_columns-Known ((none, name) ∷ es) schema acc k =
    select_columns-Known es schema (acc ++ schema) k
    ∙ ap (λ cs. (planner_success, cs)) (append_assoc acc schema (result_columns es schema))
select_columns-Known ((some e, name) ∷ es) schema acc k = rw k.0 (
    select_columns-Known es schema (acc ++ (expr_column e name (resolve_type e schema) ∷ [])) k.1
    ∙ ap (λ cs. (planner_success, cs)) (append_assoc acc _ (result_columns es schema)))

Known-select_columns :
    (es : List (Option Expr × Str)) (schema acc : List PlanColumn)
    → (select_columns es schema acc).0 ≡ planner_success
    → Known es schema
unfolding select_columns
Known-select_columns [] schema acc h = tt
Known-select_columns ((none, name) ∷ es) schema acc h =
    Known-select_columns es schema (acc ++ schema) h
Known-select_columns ((some e, name) ∷ es) schema acc h =
    elim (Bool-cases (type_eq (resolve_type e schema).type type_unknown)) [
      | inl unknown ↦ absurd (cc (rw unknown at h))
      | inr known ↦ (known, Known-select_columns es schema _ (rw known at h))
    ]

where_status-Condition :
    (wc : Option Expr) (schema : List PlanColumn)
    → (where_status wc schema ≡ planner_success) ↔ Condition wc schema
where_status-Condition none schema = (λ _. tt, λ _. refl)
where_status-Condition (some e) schema = (λ h. ground arith, λ h. rw h)

finish-success :
    (plan : Plan) (wc : Option Expr) (schema : List PlanColumn) (p : Status × List PlanColumn)
    → ((finish plan wc schema p).status ≡ planner_success)
      ↔ ((p.0 ≡ planner_success) × Condition wc schema)
finish-success plan wc schema (planner_error, columns) = (λ h. absurd cc, λ h. h.0)
finish-success plan wc schema (planner_success, columns) = (
  λ h. (refl, (where_status-Condition wc schema).0 h),
  λ h. (where_status-Condition wc schema).1 h.1,
)

finish-columns :
    (plan : Plan) (wc : Option Expr) (schema : List PlanColumn) (p : Status × List PlanColumn)
    → (finish plan wc schema p).columns ≡ p.1
finish-columns plan wc schema (planner_error, columns) = refl
finish-columns plan wc schema (planner_success, columns) = refl

-- A SELECT whose plan offers a schema gets a result, and is accepted exactly when every expression of
-- the list has a type and the condition is Boolean.
pub create_select_plan-success :
    (select : Select) (cat : Catalog) (schema : List PlanColumn)
    → get_columns (new_select_stmt_plan select cat) ≡ some schema
    → (r : PlannerResult) × (create_select_plan select cat ≡ some r)
      × ((r.status ≡ planner_success)
          ↔ (Known select.expr_ctx_list schema × Condition select.where_clause schema))
unfolding create_select_plan
create_select_plan-success select cat schema has_schema =
    (finish plan wc schema pushed, rw (has_schema, create_select_plan), (there, back))
  where
    plan : Plan
    plan = new_select_stmt_plan select cat

    wc : Option Expr
    wc = select.where_clause

    pushed : Status × List PlanColumn
    pushed = select_columns select.expr_ctx_list schema []

    there :
        (finish plan wc schema pushed).status ≡ planner_success
        → Known select.expr_ctx_list schema × Condition wc schema
    there h =
        let (ran, condition) = (finish-success plan wc schema pushed).0 h in
        (Known-select_columns select.expr_ctx_list schema [] ran, condition)

    back :
        Known select.expr_ctx_list schema × Condition wc schema
        → (finish plan wc schema pushed).status ≡ planner_success
    back (known, condition) = (finish-success plan wc schema pushed).1 (
      ap (λ (q : Status × List PlanColumn). q.0)
          (select_columns-Known select.expr_ctx_list schema [] known),
      condition,
    )

-- Where the plan offers a schema, the list has types and the condition is Boolean, the result is the
-- plan with the columns of the list in order, with the schema for `*`.
pub create_select_plan-columns :
    (select : Select) (cat : Catalog) (schema : List PlanColumn)
    → get_columns (new_select_stmt_plan select cat) ≡ some schema
    → Known select.expr_ctx_list schema
    → Condition select.where_clause schema
    → create_select_plan select cat
      ≡ some (record {
        plan = new_select_stmt_plan select cat;
        columns = result_columns select.expr_ctx_list schema;
        status = planner_success;
      })
unfolding create_select_plan
create_select_plan-columns select cat schema has_schema known condition = rw (
  has_schema,
  create_select_plan,
  select_columns-Known select.expr_ctx_list schema [] known,
  (where_status-Condition select.where_clause schema).1 condition,
)
