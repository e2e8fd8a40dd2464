-- ===== src/Plans/Grounded.antt =====
-- A plan over one table or more has columns to ask for.
use npsql.Base.{ℕ, Bool, true, false, List, [], ◌∷◌, ◌++◌, All}
use npsql.SyntaxTree.{Heap, malloc, Vec, null_vec, Grow, vec_push}
use npsql.Plans.Memory.{
  PlanBlocks, null_plan, project_blocks, select_blocks, product_blocks, table_blocks,
  allocate_tables, allocate_products, allocate_where, allocate_table_plans,
}

-- A plan with a table at each end.
abbrev pub Grounded : PlanBlocks → Type 0
Grounded null_plan = ⊥
Grounded (project_blocks a p) = Grounded p
Grounded (select_blocks a p) = Grounded p
Grounded (product_blocks a l r v) = Grounded l × Grounded r
Grounded (table_blocks a n v) = Unit {0}

-- One plan or more, all grounded.
abbrev pub Tables : List PlanBlocks → Type 0
Tables [] = ⊥
Tables (p ∷ ps) = Grounded p × All Grounded ps

pub All-push :
    (ps : List PlanBlocks) (p : PlanBlocks)
    → All Grounded ps
    → Grounded p
    → All Grounded (ps ++ (p ∷ []))
All-push [] p all g = (g, tt)
All-push (q ∷ qs) p (own, all) g = (own, All-push qs p all g)

pub Tables-push :
    (ps : List PlanBlocks) (p : PlanBlocks) → All Grounded ps → Grounded p → Tables (ps ++ (p ∷ []))
Tables-push [] p all g = (g, tt)
Tables-push (q ∷ qs) p (own, all) g = (own, All-push qs p all g)

pub Tables-All : (ps : List PlanBlocks) → Tables ps → All Grounded ps
Tables-All [] t = absurd t
Tables-All (p ∷ ps) t = t

pub allocate_tables-Tables :
    (grow : Grow) (h : Heap) (v : Vec PlanBlocks) (ts : List ℕ)
    → Tables v.items
    → Tables (allocate_tables grow h v ts).1.items
unfolding allocate_tables
allocate_tables-Tables grow h v [] t = t
allocate_tables-Tables grow h v (n ∷ ts) t =
    let p = table_blocks h.next n null_vec in
    let r = vec_push grow (malloc h).0 v p in
    allocate_tables-Tables grow r.0 r.1 ts (Tables-push v.items p (Tables-All v.items t) tt)

pub allocate_tables-first :
    (grow : Grow) (h : Heap) (n : ℕ) (ts : List ℕ)
    → Tables (allocate_tables grow h null_vec (n ∷ ts)).1.items
unfolding allocate_tables
allocate_tables-first grow h n ts =
    let p = table_blocks h.next n null_vec in
    let r = vec_push grow (malloc h).0 null_vec p in allocate_tables-Tables grow r.0 r.1 ts (tt, tt)

pub allocate_products-Grounded :
    (h : Heap) (p : PlanBlocks) (qs : List PlanBlocks)
    → Grounded p
    → All Grounded qs
    → Grounded (allocate_products h p qs).1
unfolding allocate_products
allocate_products-Grounded h p [] g all = g
allocate_products-Grounded h p (q ∷ qs) g (own, all) =
    allocate_products-Grounded (malloc h).0 (product_blocks h.next p q null_vec) qs (g, own) all

pub allocate_where-Grounded :
    (h : Heap) (p : PlanBlocks) (w : Bool) → Grounded p → Grounded (allocate_where h p w).1
unfolding allocate_where
allocate_where-Grounded h p false g = g
allocate_where-Grounded h p true g = g

pub allocate_table_plans-Grounded :
    (h : Heap) (ps : List PlanBlocks) (w : Bool)
    → Tables ps
    → Grounded (allocate_table_plans h ps w).1
unfolding allocate_table_plans
allocate_table_plans-Grounded h [] w t = absurd t
allocate_table_plans-Grounded h (p ∷ ps) w (g, all) =
    allocate_where-Grounded _ _ w (allocate_products-Grounded h p ps g all)
