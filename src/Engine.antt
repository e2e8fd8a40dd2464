-- ===== src/Engine.antt =====
-- server/src/npsql.c: the statements of a query, one set of results after the other. What a statement
-- does is an argument: the world `W` that it changes, its locks and pinned pages and the end of its
-- transaction included, and the scan `S` that a SELECT is opened as. `none` is a call that does not
-- return, and what C leaves undefined.
pub mod Sets
use npsql.Base.{
  ℕ, zero, suc, ◌+◌, Bool, true, false, Option, none, some, List, [], ◌∷◌, ◌==◌, length, get_elem?,
  ltb, if◌then◌else◌,
}
use npsql.Sql.{PlanColumn}
use npsql.Plans.{Select}
use npsql.ExprEval.{◌>>=◌}
use npsql.Statements.{CreateTable, Insert}

-- `struct sql_stmt` by its type.
pub data SqlStmt : Type 0 where
  stmt_select : Select → SqlStmt
  stmt_create_table : CreateTable → SqlStmt
  stmt_insert_into : Insert → SqlStmt

pub record QueryResults (W S : Type 0) : Type 0 where
  pub stmts : List SqlStmt
  pub sets_to_return : ℕ
  pub next_stmt : ℕ
  pub columns : List PlanColumn
  pub current_scan : Option S
  pub world : W

-- What the engine calls, each of which may not return, as create_plan does not for a SELECT without FROM:
-- the end of the transaction; create_plan with the plan's open, which has the world after it, and no plan
-- where the planner rejects the SELECT; the two other statements, what they return being ignored.
pub record Operations (W S : Type 0) : Type 0 where
  pub commit : W → Option W
  pub rollback : W → Option W
  pub create_plan : W → Select → Option (W × Option (List PlanColumn × S))
  pub execute_create_table : W → CreateTable → Option W
  pub execute_insert_into : W → Insert → Option W

-- `world` is that of the transaction which is begun.
unfoldable pub submit_query : {W S : Type 0} → List SqlStmt → W → QueryResults W S
submit_query stmts world = record {
  stmts = stmts;
  sets_to_return = length stmts;
  next_stmt = 0;
  columns = [];
  current_scan = none;
  world = world;
}

unfoldable pub has_rows : {W S : Type 0} → QueryResults W S → Bool
has_rows r = ltb 0 (length r.columns)

module _ {W S : Type 0} (operations : Operations W S) where
  abbrev selected :
      QueryResults W S → W × Option (List PlanColumn × S) → Option (Bool × QueryResults W S)
  selected r (w, some (columns, scan)) = some (
    true,
    record r {
      columns = columns;
      current_scan = some scan;
      next_stmt = r.next_stmt + 1;
      world = w;
    },
  )
  selected r (w, none) = operations.rollback w >>= λ w'.
      some (false, record r { columns = []; current_scan = none; world = w' })

  abbrev executed : QueryResults W S → W → Option (Bool × QueryResults W S)
  executed r w =
      some (
        true,
        record r { columns = []; current_scan = none; next_stmt = r.next_stmt + 1; world = w },
      )

  abbrev run_stmt : QueryResults W S → SqlStmt → Option (Bool × QueryResults W S)
  run_stmt r (stmt_select select) = operations.create_plan r.world select >>= selected r
  run_stmt r (stmt_create_table ct) = operations.execute_create_table r.world ct >>= executed r
  run_stmt r (stmt_insert_into i) = operations.execute_insert_into r.world i >>= executed r

  unfoldable pub get_next_set : QueryResults W S → Option (Bool × QueryResults W S)
  get_next_set r =
      if r.sets_to_return == r.next_stmt
      then (operations.commit r.world >>= λ w. some (false, record r { world = w }))
      else (get_elem? r.stmts r.next_stmt >>= run_stmt r)

-- `next` is the scan's, which reads and locks pages.
module _ {W S : Type 0} (next : W → S → Option (Bool × W × S)) where
  abbrev next_row : QueryResults W S → Option S → Option (Bool × QueryResults W S)
  next_row r none = some (false, r)
  next_row r (some scan) = next r.world scan >>= λ (n : Bool × W × S).
      some (n.0, record r { current_scan = some n.2; world = n.1 })

  unfoldable pub next_set_record : QueryResults W S → Option (Bool × QueryResults W S)
  next_set_record r = next_row r r.current_scan
