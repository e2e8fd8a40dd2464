-- ===== src/Scans/Open.antt =====
-- server/src/plans.c: a plan is opened as a scan. The scan of a plan works on a state that has the
-- plan's shape; a table scan is whatever the heap table gives.
use npsql.Base.{ℕ, Bool, Option, none, some}
use npsql.Base.Int.{ℤ}
use npsql.ExprEval.{◌>>=◌}
use npsql.Sql.{TableInfo, Union}
use npsql.Plans.{Plan, no_plan, project_plan, select_plan, product_plan, table_plan}
use npsql.Scans.{
  Row, Scan, ProductState, product_scan, new_product_scan, ProjectState, project_scan,
  new_project_scan, select_scan,
}

module _ (T : Type 0) where
  abbrev pub State : Plan → Type 0
  State no_plan = Unit {0}
  State (project_plan p) = ProjectState (State p)
  State (select_plan p where_clause) = State p
  State (product_plan l r) = ProductState (State l) (State r)
  State (table_plan ti first_am) = T

module _ (garbage : Union → ℤ) (garbage_bool : Union → Bool) (garbage_row : Row) (fuel : ℕ)
    {T : Type 0} (table_scan : TableInfo → ℕ → Scan T) (new_table_scan : TableInfo → ℕ → T) where
  -- The scan under NULL is never called.
  abbrev no_scan : Scan (Unit {0})
  no_scan = record { next = λ s. none; reset = λ s. s; get_value = λ s. garbage_row }

  abbrev pub child : {S : Type 0} → Plan → Scan S → Option (Scan S)
  child no_plan s = none
  child (project_plan p) s = some s
  child (select_plan p where_clause) s = some s
  child (product_plan l r) s = some s
  child (table_plan ti first_am) s = some s

  unfoldable pub scan_of : (p : Plan) → Scan (State T p)
  scan_of no_plan = no_scan
  scan_of (project_plan p) = project_scan garbage_row (child p (scan_of p))
  scan_of (select_plan p where_clause) =
      select_scan garbage garbage_bool (scan_of p) where_clause fuel
  scan_of (product_plan l r) = product_scan (scan_of l) (scan_of r)
  scan_of (table_plan ti first_am) = table_scan ti first_am

  -- `open_project_scan` calls nothing where its plan is NULL.
  abbrev pub child_state : (p : Plan) → Option (State T p) → Option (State T p)
  child_state no_plan opened = some tt
  child_state (project_plan p) opened = opened
  child_state (select_plan p where_clause) opened = opened
  child_state (product_plan l r) opened = opened
  child_state (table_plan ti first_am) opened = opened

  -- The call through the plan's `open`.
  unfoldable pub open_plan : (p : Plan) → Option (State T p)
  open_plan no_plan = none
  open_plan (project_plan p) = do s ← child_state p (open_plan p); some (new_project_scan s)
  open_plan (select_plan p where_clause) = open_plan p
  open_plan (product_plan l r) = do
    s ← open_plan l
    t ← open_plan r
    new_product_scan (scan_of l) (scan_of r) s t
  open_plan (table_plan ti first_am) = some (new_table_scan ti first_am)
