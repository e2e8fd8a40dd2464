-- ===== src/Scans/Query.antt =====
-- The plan of a SELECT, opened, yields the rows that the SELECT asks for.
use npsql.Base.{ℕ, ◌<◌, ◌≡◌, refl, Bool, true, Option, none, some, List, [], ◌∷◌, map, length}
use npsql.Base.Int.{ℤ}
use npsql.Sql.{Str, Expr, TableInfo, Union}
use npsql.Plans.{
  Plan, no_plan, project_plan, select_plan, product_plan, table_plan, Catalog, Select,
  new_table_plan, products, add_where, new_select_stmt_plan,
}
use npsql.Scans.{Row, Scan, project_scan, project_scan_next}
use npsql.Scans.Product.{Yields, done, more, Restarts, product_rows, new_product_scan-Yields}
use npsql.Scans.Filter.{Defined, kept_rows, select_scan-Yields}
use npsql.Scans.Open.{State, scan_of, child, child_state, open_plan}

-- What a table's scan promises: a new one yields the table's rows, and so does one that is reset.
pub record TableScan {T : Type 0} (scan : Scan T) (new_scan : T) (rows : List Row) : Type 0 where
  pub opens : Yields scan new_scan rows
  pub restarts : Restarts scan rows

module _ {T : Type 0} (table_scan : TableInfo → ℕ → Scan T) (new_table_scan : TableInfo → ℕ → T)
    (table_rows : TableInfo → ℕ → List Row) (cat : Catalog) where
  -- The tables of a FROM list have such scans.
  abbrev pub TableScans : List Str → Type 0
  TableScans [] = Unit {0}
  TableScans (t ∷ ts) =
      TableScan (table_scan (cat t).0 (cat t).1) (new_table_scan (cat t).0 (cat t).1)
        (table_rows (cat t).0 (cat t).1)
      × TableScans ts

-- The rows of the tables of a FROM list, each beside each, the last table's the fastest.
abbrev pub from_rows : (TableInfo → ℕ → List Row) → Catalog → List Row → List Str → List Row
from_rows table_rows cat rows [] = rows
from_rows table_rows cat rows (t ∷ ts) =
    from_rows table_rows cat (product_rows rows (table_rows (cat t).0 (cat t).1)) ts

-- Not NULL.
abbrev IsPlan : Plan → Type 0
IsPlan no_plan = ⊥
IsPlan (project_plan p) = Unit {0}
IsPlan (select_plan p where_clause) = Unit {0}
IsPlan (product_plan l r) = Unit {0}
IsPlan (table_plan ti first_am) = Unit {0}

products-IsPlan : (p : Plan) (ps : List Plan) → IsPlan p → IsPlan (products p ps)
unfolding products
products-IsPlan p [] h = h
products-IsPlan p (q ∷ qs) h = products-IsPlan (product_plan p q) qs tt

add_where-IsPlan : (p : Plan) (wc : Option Expr) → IsPlan p → IsPlan (add_where p wc)
add_where-IsPlan p none h = h
add_where-IsPlan p (some e) h = tt

-- A project scan over a scan goes along with it.
project_scan-Yields :
    (garbage_row : Row) {S : Type 0} (inner : Scan S) (b : Bool) (s : S) (rows : List Row)
    → Yields inner s rows
    → Yields (project_scan garbage_row (some inner)) (record { has_next = b; scan = s }) rows
unfolding project_scan project_scan_next
project_scan-Yields garbage_row inner b s [] (done s' e) =
    done (record { has_next = b; scan = s' }) (rw e)
project_scan-Yields garbage_row inner b s (r ∷ rows) (more s' e y) =
    more (record { has_next = b; scan = s' }) (rw e)
      (project_scan-Yields garbage_row inner b s' rows y)

-- The condition, if there is one, has a value on every row.
abbrev pub WhereDefined : (Union → ℤ) → (Union → Bool) → Option Expr → List Row → Type 0
WhereDefined garbage garbage_bool none rows = Unit {0}
WhereDefined garbage garbage_bool (some e) rows = Defined garbage garbage_bool e rows

-- The rows on which the condition, if there is one, is true.
abbrev pub where_rows : (Union → ℤ) → (Union → Bool) → Option Expr → List Row → List Row
where_rows garbage garbage_bool none rows = rows
where_rows garbage garbage_bool (some e) rows = kept_rows garbage garbage_bool e rows

module _ (garbage : Union → ℤ) (garbage_bool : Union → Bool) (garbage_row : Row) (fuel : ℕ)
    {T : Type 0} (table_scan : TableInfo → ℕ → Scan T) (new_table_scan : TableInfo → ℕ → T)
    (table_rows : TableInfo → ℕ → List Row) where
  abbrev scan : (p : Plan) → Scan (State T p)
  scan = scan_of garbage garbage_bool garbage_row fuel table_scan new_table_scan

  abbrev opened : (p : Plan) → Option (State T p)
  opened = open_plan garbage garbage_bool garbage_row fuel table_scan new_table_scan

  abbrev Promised : Catalog → Str → Type 0
  Promised cat t =
      TableScan (table_scan (cat t).0 (cat t).1) (new_table_scan (cat t).0 (cat t).1)
        (table_rows (cat t).0 (cat t).1)

  -- A plan that is opened yields rows.
  abbrev Opens : Plan → List Row → Type 0
  Opens p rows = (s : State T p) × (opened p ≡ some s) × Yields (scan p) s rows

  table-Opens :
      (cat : Catalog) (t : Str)
      → Promised cat t
      → Opens (new_table_plan cat t) (table_rows (cat t).0 (cat t).1)
  unfolding scan_of open_plan new_table_plan
  table-Opens cat t table = (new_table_scan (cat t).0 (cat t).1, refl, table.opens)

  product-Opens :
      (cat : Catalog) (p : Plan) (rows : List Row) (t : Str)
      → Promised cat t
      → Opens p rows
      → Opens
          (product_plan p (new_table_plan cat t))
          (product_rows rows (table_rows (cat t).0 (cat t).1))
  unfolding scan_of open_plan new_table_plan
  product-Opens cat p rows t table (s, e, y) =
      let (q, e', y') =
        new_product_scan-Yields (scan p) (table_scan (cat t).0 (cat t).1)
          (table_rows (cat t).0 (cat t).1) table.restarts s (new_table_scan (cat t).0 (cat t).1)
          rows y table.opens in
      (q, rw (e, e'), y')

  products-Opens :
      (cat : Catalog) (p : Plan) (rows : List Row) (ts : List Str)
      → TableScans table_scan new_table_scan table_rows cat ts
      → Opens p rows
      → Opens (products p (map (new_table_plan cat) ts)) (from_rows table_rows cat rows ts)
  unfolding products
  products-Opens cat p rows [] all o = o
  products-Opens cat p rows (t ∷ ts) (table, all) o =
      products-Opens cat (product_plan p (new_table_plan cat t))
        (product_rows rows (table_rows (cat t).0 (cat t).1)) ts all
        (product-Opens cat p rows t table o)

  add_where-Opens :
      (p : Plan) (wc : Option Expr) (rows : List Row)
      → WhereDefined garbage garbage_bool wc rows
      → length rows < fuel
      → Opens p rows
      → Opens (add_where p wc) (where_rows garbage garbage_bool wc rows)
  unfolding scan_of open_plan
  add_where-Opens p none rows d h o = o
  add_where-Opens p (some c) rows d h (s, e, y) =
      (s, e, select_scan-Yields garbage garbage_bool (scan p) c fuel s rows y d h)

  child-IsPlan :
      (p : Plan)
      → IsPlan p
      → child garbage garbage_bool garbage_row fuel table_scan new_table_scan p (scan p)
        ≡ some (scan p)
  child-IsPlan no_plan h = absurd h
  child-IsPlan (project_plan p) h = refl
  child-IsPlan (select_plan p c) h = refl
  child-IsPlan (product_plan l r) h = refl
  child-IsPlan (table_plan ti first_am) h = refl

  child_state-IsPlan :
      (p : Plan)
      → IsPlan p
      → child_state garbage garbage_bool garbage_row fuel table_scan new_table_scan p (opened p)
        ≡ opened p
  child_state-IsPlan no_plan h = absurd h
  child_state-IsPlan (project_plan p) h = refl
  child_state-IsPlan (select_plan p c) h = refl
  child_state-IsPlan (product_plan l r) h = refl
  child_state-IsPlan (table_plan ti first_am) h = refl

  project-Opens :
      (p : Plan) (rows : List Row) → IsPlan p → Opens p rows → Opens (project_plan p) rows
  unfolding scan_of open_plan
  project-Opens p rows h (s, e, y) = (
    record { has_next = true; scan = s },
    rw (child_state-IsPlan p h, e),
    rw (child-IsPlan p h) (project_scan-Yields garbage_row (scan p) true s rows y),
  )

  -- A SELECT over one table or more, whose scans yield the tables' rows when they are new and when they
  -- are reset, whose condition has a value on every row of the product of the
  -- tables, and fuel beyond the number of those rows: the plan of the SELECT opens, and its scan yields
  -- the rows of the product on which the condition is true, in order.
  pub new_select_stmt_plan-Yields :
      (select : Select) (cat : Catalog) (t : Str) (ts : List Str)
      → select.table_refs ≡ t ∷ ts
      → TableScans table_scan new_table_scan table_rows cat (t ∷ ts)
      → let rows = from_rows table_rows cat (table_rows (cat t).0 (cat t).1) ts in
        WhereDefined garbage garbage_bool select.where_clause rows
        → length rows < fuel
        → let plan = new_select_stmt_plan select cat in
          (s : State T plan) × (open_plan garbage garbage_bool garbage_row fuel table_scan
              new_table_scan plan
            ≡ some s)
          × Yields
              (scan_of garbage garbage_bool garbage_row fuel table_scan new_table_scan plan)
              s
              (where_rows garbage garbage_bool select.where_clause rows)
  unfolding new_select_stmt_plan
  new_select_stmt_plan-Yields select cat t ts e (first, others) d h = rw e (
      project-Opens (add_where ps select.where_clause) _
        (add_where-IsPlan ps select.where_clause
          (products-IsPlan (new_table_plan cat t) (map (new_table_plan cat) ts) table))
        (add_where-Opens ps select.where_clause _ d h
          (products-Opens cat (new_table_plan cat t) _ ts others (table-Opens cat t first))))
    where
      ps : Plan
      ps = products (new_table_plan cat t) (map (new_table_plan cat) ts)

      table : IsPlan (new_table_plan cat t)
      table = unfold new_table_plan in tt
