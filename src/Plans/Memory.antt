-- ===== src/Plans/Memory.antt =====
-- server/src/plans.c: the blocks of a SELECT's plan as they are allocated and freed, on the heap of
-- SyntaxTree. A table is given by the number of its columns.
use npsql.Base.{ℕ, zero, suc, Bool, true, false, Option, none, some, List, [], ◌∷◌, map}
use npsql.ExprEval.{◌>>=◌}
use npsql.SyntaxTree.{Heap, malloc, Vec, null_vec, Grow, vec_push}
use npsql.SyntaxTree.Free.{free_block, free_pointer, free_each}

-- A column that `table_plan_get_columns` makes: its block, its expression's and its identifier's.
pub record ColumnBlocks : Type 0 where
  pub at : ℕ
  pub expr : ℕ
  pub identifier : ℕ

pub data PlanBlocks : Type 0 where
  null_plan : PlanBlocks
  project_blocks : ℕ → PlanBlocks → PlanBlocks
  select_blocks : ℕ → PlanBlocks → PlanBlocks
  product_blocks : ℕ → PlanBlocks → PlanBlocks → Vec ℕ → PlanBlocks
  table_blocks : ℕ → ℕ → Vec ColumnBlocks → PlanBlocks

-- new_table_plan, new_product_plan, new_select_plan and new_project_plan
abbrev pub allocate_table : Heap → ℕ → Heap × PlanBlocks
allocate_table h columns = let (h1, a) = malloc h in (h1, table_blocks a columns null_vec)

abbrev pub allocate_product : Heap → PlanBlocks → PlanBlocks → Heap × PlanBlocks
allocate_product h l r = let (h1, a) = malloc h in (h1, product_blocks a l r null_vec)

abbrev pub allocate_select : Heap → PlanBlocks → Heap × PlanBlocks
allocate_select h p = let (h1, a) = malloc h in (h1, select_blocks a p)

abbrev pub allocate_project : Heap → PlanBlocks → Heap × PlanBlocks
allocate_project h p = let (h1, a) = malloc h in (h1, project_blocks a p)

-- A table's plan for each table, pushed onto `table_plans`
unfoldable pub allocate_tables : Grow → Heap → Vec PlanBlocks → List ℕ → Heap × Vec PlanBlocks
allocate_tables grow h v [] = (h, v)
allocate_tables grow h v (columns ∷ ts) =
    let (h1, p) = allocate_table h columns in
    let (h2, v') = vec_push grow h1 v p in allocate_tables grow h2 v' ts

-- A product for `table_plans[1]` on
unfoldable pub allocate_products : Heap → PlanBlocks → List PlanBlocks → Heap × PlanBlocks
allocate_products h p [] = (h, p)
allocate_products h p (q ∷ qs) = let (h1, r) = allocate_product h p q in allocate_products h1 r qs

-- A select plan, where there is a condition
unfoldable pub allocate_where : Heap → PlanBlocks → Bool → Heap × PlanBlocks
allocate_where h p false = (h, p)
allocate_where h p true = allocate_select h p

unfoldable pub allocate_table_plans : Heap → List PlanBlocks → Bool → Heap × PlanBlocks
allocate_table_plans h [] where_ = (h, null_plan)
allocate_table_plans h (p ∷ ps) where_ =
    let (h1, q) = allocate_products h p ps in allocate_where h1 q where_

-- `new_select_stmt_plan`; at its end the vector of the tables is freed.
unfoldable pub allocate_select_stmt_plan : Grow → Heap → List ℕ → Bool → Option (Heap × PlanBlocks)
allocate_select_stmt_plan grow h tables where_ =
    let (h1, v) = allocate_tables grow h null_vec tables in
    let (h2, p) = allocate_table_plans h1 v.items where_ in
    let (h3, q) = allocate_project h2 p in free_pointer h3 v.at >>= λ h4. some (h4, q)

-- `table_plan_get_columns`: a column, with the term and the identifier of `new_identifier`.
unfoldable pub allocate_columns : Grow → Heap → Vec ColumnBlocks → ℕ → Heap × Vec ColumnBlocks
allocate_columns grow h v zero = (h, v)
allocate_columns grow h v (suc n) =
    let (h1, pc) = malloc h in
    let (h2, expr) = malloc h1 in
    let (h3, id) = malloc h2 in
    let (h4, v') = vec_push grow h3 v (record { at = pc; expr = expr; identifier = id }) in
    allocate_columns grow h4 v' n

-- The loops of `product_scan_get_columns`, over pointers to columns.
unfoldable pub push_columns : Grow → Heap → Vec ℕ → List ℕ → Heap × Vec ℕ
push_columns grow h v [] = (h, v)
push_columns grow h v (x ∷ xs) = let (h1, v') = vec_push grow h v x in push_columns grow h1 v' xs

abbrev pub column_at : ColumnBlocks → ℕ
column_at c = c.at

-- `get_columns` of each plan: the columns it returns, and what it allocates for them. `none` is NULL
-- that is dereferenced.
unfoldable pub allocate_get_columns : Grow → Heap → PlanBlocks → Option (Heap × PlanBlocks × List ℕ)
allocate_get_columns grow h null_plan = none
allocate_get_columns grow h (project_blocks a p) =
    allocate_get_columns grow h p >>= λ (r : Heap × PlanBlocks × List ℕ).
    some (r.0, project_blocks a r.1, r.2)
allocate_get_columns grow h (select_blocks a p) =
    allocate_get_columns grow h p >>= λ (r : Heap × PlanBlocks × List ℕ).
    some (r.0, select_blocks a r.1, r.2)
allocate_get_columns grow h (product_blocks a l r ppc) =
    allocate_get_columns grow h l >>= λ (x : Heap × PlanBlocks × List ℕ).
    allocate_get_columns grow x.0 r >>= λ (y : Heap × PlanBlocks × List ℕ).
    (let (h3, ppc1) = push_columns grow y.0 ppc x.2 in
      let (h4, ppc2) = push_columns grow h3 ppc1 y.2 in
      some (h4, product_blocks a x.1 y.1 ppc2, ppc2.items))
allocate_get_columns grow h (table_blocks a n columns) =
    let (h1, v) = allocate_columns grow h columns n in
    some (h1, table_blocks a n v, map column_at v.items)

unfoldable pub free_plan_column : Heap → ColumnBlocks → Option Heap
free_plan_column h c =
    free_block h c.identifier >>= λ h1. free_block h1 c.expr >>= λ h2. free_block h2 c.at

unfoldable pub free_plan : Heap → PlanBlocks → Option Heap
free_plan h null_plan = some h
free_plan h (project_blocks a p) = free_plan h p >>= λ h1. free_block h1 a
free_plan h (select_blocks a p) = free_plan h p >>= λ h1. free_block h1 a
free_plan h (product_blocks a l r ppc) = free_plan h l >>= λ h1.
    free_plan h1 r >>= λ h2. free_pointer h2 ppc.at >>= λ h3. free_block h3 a
free_plan h (table_blocks a n columns) = free_each free_plan_column h columns.items >>= λ h1.
    free_pointer h1 columns.at >>= λ h2. free_block h2 a
