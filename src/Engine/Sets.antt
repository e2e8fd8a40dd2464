-- ===== src/Engine/Sets.antt =====
-- server/src/nqp.c, handle_query, over server/src/npsql.c: the loop over a query's sets of results.
use npsql.Base.{
  ℕ, zero, suc, ◌+◌, ◌<◌, ◌≡◌, refl, ap, arith, Bool, true, false, Option, none, some, List, [],
  ◌∷◌, ◌==◌, ==_iff, ne→==-false, length, get_elem?,
}
use npsql.ExprEval.{◌>>=◌}
use npsql.Sql.{PlanColumn}
use npsql.Engine.{
  SqlStmt, stmt_select, stmt_create_table, stmt_insert_into, QueryResults, Operations, submit_query,
  get_next_set, run_stmt, selected, executed,
}

-- `read` is what it does to ask a scan for its rows.
module _ {W S : Type 0} (operations : Operations W S) (read : W → S → Option (W × S)) where
  after_plan : (W → Option W) → W × Option (List PlanColumn × S) → Option W
  after_plan more (w, none) = operations.rollback w
  after_plan more (w, some (columns, scan)) = read w scan >>= λ (x : W × S). more x.0

  -- What a query does: its statements in order, the rows of each SELECT being read before the next
  -- statement, and then the commit; or all that up to the first SELECT that is rejected, and then the
  -- rollback. Where a call does not return, neither does the query.
  unfoldable pub outcome : List SqlStmt → W → Option W
  unfolding after_plan
  outcome [] w = operations.commit w
  outcome (stmt_select select ∷ stmts) w =
      operations.create_plan w select >>= after_plan (outcome stmts)
  outcome (stmt_create_table ct ∷ stmts) w = operations.execute_create_table w ct >>= outcome stmts
  outcome (stmt_insert_into i ∷ stmts) w = operations.execute_insert_into w i >>= outcome stmts

  abbrev rows_read : QueryResults W S → Option S → Option (QueryResults W S)
  rows_read r none = some r
  rows_read r (some scan) =
      read r.world scan >>= λ (x : W × S). some (record r { world = x.0; current_scan = some x.1 })

  abbrev after_set :
      (QueryResults W S → Option (QueryResults W S))
      → Bool × QueryResults W S
      → Option (QueryResults W S)
  after_set more (true, r) = rows_read r r.current_scan >>= more
  after_set more (false, r) = some r

  -- `while (get_next_set(results))`, on fuel; between two calls the rows of the set are read.
  unfoldable pub all_sets : ℕ → QueryResults W S → Option (QueryResults W S)
  all_sets zero r = none
  all_sets (suc n) r = get_next_set operations r >>= after_set (all_sets n)

  abbrev pub world_of : Option (QueryResults W S) → Option W
  world_of none = none
  world_of (some r) = some r.world

  -- The statements that are still to come.
  record Rest (r : QueryResults W S) (rest : List SqlStmt) : Type 0 where
    count : r.sets_to_return ≡ r.next_stmt + length rest
    stmts : (k : ℕ) → get_elem? r.stmts (r.next_stmt + k) ≡ get_elem? rest k

  get_next_set-last :
      (r : QueryResults W S)
      → Rest r []
      → get_next_set operations r
        ≡ (operations.commit r.world >>= λ w. some (false, record r { world = w }))
  unfolding get_next_set
  get_next_set-last r rest =
      rw ((==_iff r.sets_to_return r.next_stmt).1 (omega (arith, rest.count))) refl

  get_next_set-next :
      (r : QueryResults W S) (stmt : SqlStmt) (stmts : List SqlStmt)
      → Rest r (stmt ∷ stmts)
      → get_next_set operations r ≡ run_stmt operations r stmt
  unfolding get_next_set
  get_next_set-next r stmt stmts rest =
      let more : (r.sets_to_return == r.next_stmt) ≡ false =
        ne→==-false r.sets_to_return r.next_stmt (omega (arith, rest.count)) in
      let at : r.next_stmt + 0 ≡ r.next_stmt = omega arith in
      rw (more, rw at at (rest.stmts 0)) refl

  Rest-next :
      (r r1 : QueryResults W S) (stmt : SqlStmt) (stmts : List SqlStmt)
      → Rest r (stmt ∷ stmts)
      → r1.stmts ≡ r.stmts
      → r1.sets_to_return ≡ r.sets_to_return
      → r1.next_stmt ≡ r.next_stmt + 1
      → Rest r1 stmts
  Rest-next r r1 stmt stmts rest same count next = record {
    count = omega (arith, rest.count, count, next);
    stmts = λ k.
        let shift : r.next_stmt + 1 + k ≡ r.next_stmt + suc k = omega arith in
        rw (same, next, shift) (rest.stmts (suc k));
  }

  ended :
      (r : W → QueryResults W S) (more : QueryResults W S → Option (QueryResults W S))
      (o : Option W)
      → ((w : W) → (r w).world ≡ w)
      → world_of ((o >>= λ w. some (false, r w)) >>= after_set more) ≡ o
  ended r more none same = refl
  ended r more (some w) same = ap some (same w)

  -- The rest of the loop, from whatever results follow this statement.
  module _ (n : ℕ) (r : QueryResults W S) (stmt : SqlStmt) (stmts : List SqlStmt)
      (rest : Rest r (stmt ∷ stmts))
      (later : (r1 : QueryResults W S)
        → Rest r1 stmts
        → world_of (all_sets n r1) ≡ outcome stmts r1.world) where
    executed_then :
        (o : Option W)
        → world_of ((o >>= executed operations r) >>= after_set (all_sets n))
          ≡ (o >>= outcome stmts)
    executed_then none = refl
    executed_then (some w) = later _ (Rest-next r _ stmt stmts rest refl refl refl)

    read_then :
        (columns : List PlanColumn) (o : Option (W × S))
        → world_of (
            (o >>= λ (x : W × S). some (record r {
              columns = columns;
              next_stmt = r.next_stmt + 1;
              world = x.0;
              current_scan = some x.1;
            }))
            >>= all_sets n)
          ≡ (o >>= λ (x : W × S). outcome stmts x.0)
    read_then columns none = refl
    read_then columns (some (w, scan)) = later _ (Rest-next r _ stmt stmts rest refl refl refl)

    selected_then :
        (o : Option (W × Option (List PlanColumn × S)))
        → world_of ((o >>= selected operations r) >>= after_set (all_sets n))
          ≡ (o >>= after_plan (outcome stmts))
    unfolding after_plan
    selected_then none = refl
    selected_then (some (w, none)) = ended _ (all_sets n) (operations.rollback w) (λ w'. refl)
    selected_then (some (w, some (columns, scan))) = read_then columns (read w scan)

  loop-outcome :
      (n : ℕ) (r : QueryResults W S) (rest : List SqlStmt)
      → Rest r rest
      → length rest < n
      → world_of (all_sets n r) ≡ outcome rest r.world
  unfolding all_sets outcome
  loop-outcome zero r rest h lt = absurd (omega arith)
  loop-outcome (suc n) r [] h lt =
      rw (get_next_set-last r h) (ended _ (all_sets n) (operations.commit r.world) (λ w. refl))
  loop-outcome (suc n) r (stmt_select select ∷ stmts) h lt =
      rw (get_next_set-next r (stmt_select select) stmts h) (
        selected_then n r (stmt_select select) stmts h
          (λ r1 h1. loop-outcome n r1 stmts h1 (omega arith))
          (operations.create_plan r.world select))
  loop-outcome (suc n) r (stmt_create_table ct ∷ stmts) h lt =
      rw (get_next_set-next r (stmt_create_table ct) stmts h) (
        executed_then n r (stmt_create_table ct) stmts h
          (λ r1 h1. loop-outcome n r1 stmts h1 (omega arith))
          (operations.execute_create_table r.world ct))
  loop-outcome (suc n) r (stmt_insert_into i ∷ stmts) h lt =
      rw (get_next_set-next r (stmt_insert_into i) stmts h) (
        executed_then n r (stmt_insert_into i) stmts h
          (λ r1 h1. loop-outcome n r1 stmts h1 (omega arith))
          (operations.execute_insert_into r.world i))

  -- With fuel beyond the number of a query's statements, the loop over its sets comes to an end exactly
  -- where every call that it makes returns, and then leaves the world as it is after every statement was
  -- run once and in order, whether or not it succeeded, with the rows of each SELECT read before the next
  -- statement, and the transaction is committed; or after that up to the first SELECT that the planner
  -- rejects, and the rollback.
  pub all_sets-outcome :
      (stmts : List SqlStmt) (w : W) (fuel : ℕ)
      → length stmts < fuel
      → world_of (all_sets fuel (submit_query stmts w)) ≡ outcome stmts w
  unfolding submit_query
  all_sets-outcome stmts w fuel lt =
      loop-outcome fuel (submit_query stmts w) stmts
        (record {
          count = omega arith;
          stmts = λ k. let start : 0 + k ≡ k = omega arith in ap (get_elem? stmts) start;
        })
        lt
