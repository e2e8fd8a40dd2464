-- ===== src/Plans/Freeing.antt =====
-- `free_plan` of a SELECT's plan: the heap is what it was before the plan was made.
use npsql.Base.{
  ℕ, ◌≡◌, ◌∙◌, refl, sym, Bool, true, false, Option, none, some, List, [], ◌∷◌, ◌++◌, arith, map,
}
use npsql.SyntaxTree.{Heap, malloc, Vec, null_vec, Grow}
use npsql.SyntaxTree.Free.{free_pointer}
use npsql.SyntaxTree.Blocks.{
  count, count_append, block, Bounded, Adds, Adds-none, Adds-perm, Adds-malloc, Adds-free,
  Adds-free_block, Grows,
}
use npsql.SyntaxTree.Freed.{freed_each}
use npsql.SyntaxTree.Lists.{held}
use npsql.SyntaxTree.Counts.{count-swap}
use npsql.Plans.Memory.{
  PlanBlocks, null_plan, project_blocks, select_blocks, product_blocks, table_blocks,
  allocate_tables, allocate_products, allocate_where, allocate_table_plans,
  allocate_select_stmt_plan, allocate_columns, push_columns, allocate_get_columns, free_plan,
  column_at,
}
use npsql.Plans.Freed.{
  freed_plan, freed_column, free_plan_lem, count-table, count-product, count-over,
  allocate_tables-held, allocate_products-Adds, allocate_columns-held, push_columns-Adds,
}
use npsql.Plans.Grounded.{Grounded, allocate_tables-first, allocate_table_plans-Grounded}

over-split :
    (a : ℕ) (p : PlanBlocks) (xs : List ℕ) (x : ℕ)
    → count x ((freed_plan p ++ (a ∷ [])) ++ xs) ≡ count x (freed_plan p ++ (a ∷ xs))
over-split a p xs x = omega (arith, count-over a p xs x, count_append x (freed_plan p) (a ∷ xs))

product-split :
    (a : ℕ) (l r : PlanBlocks) (v : Vec ℕ) (xs : List ℕ) (x : ℕ)
    → count x (freed_plan (product_blocks a l r v) ++ xs)
      ≡ count x (freed_plan l ++ (freed_plan r ++ (block v.at ++ (a ∷ xs))))
product-split a l r v xs x = omega (
  arith,
  count-product a l r v xs x,
  count_append x (freed_plan l) (freed_plan r ++ (block v.at ++ (a ∷ xs))),
  count_append x (freed_plan r) (block v.at ++ (a ∷ xs)),
  count_append x (block v.at) (a ∷ xs),
)

-- The vector of a product's columns is held first while it grows, and then inside the product.
columns-first :
    (v : Vec ℕ) (r l : PlanBlocks) (xs : List ℕ) (x : ℕ)
    → count x (freed_plan r ++ (freed_plan l ++ (block v.at ++ xs)))
      ≡ count x (block v.at ++ (freed_plan r ++ (freed_plan l ++ xs)))
columns-first v r l xs x = omega (
  arith,
  count_append x (freed_plan r) (freed_plan l ++ (block v.at ++ xs)),
  count_append x (freed_plan l) (block v.at ++ xs),
  count_append x (block v.at) xs,
  count_append x (block v.at) (freed_plan r ++ (freed_plan l ++ xs)),
  count_append x (freed_plan r) (freed_plan l ++ xs),
  count_append x (freed_plan l) xs,
)

columns-last :
    (a : ℕ) (l r : PlanBlocks) (v : Vec ℕ) (xs : List ℕ) (x : ℕ)
    → count x (block v.at ++ (freed_plan r ++ (freed_plan l ++ (a ∷ xs))))
      ≡ count x (freed_plan (product_blocks a l r v) ++ xs)
columns-last a l r v xs x = omega (
  arith,
  count-product a l r v xs x,
  count_append x (block v.at) (freed_plan r ++ (freed_plan l ++ (a ∷ xs))),
  count_append x (freed_plan r) (freed_plan l ++ (a ∷ xs)),
  count_append x (freed_plan l) (a ∷ xs),
)

module _ (grow : Grow) (law : Grows grow) (h0 : Heap) where
  allocate_where-Adds :
      (h : Heap) (p : PlanBlocks) (w : Bool) (xs : List ℕ)
      → Adds h0 h (freed_plan p ++ xs)
      → let r = allocate_where h p w in Adds h0 r.0 (freed_plan r.1 ++ xs)
  unfolding allocate_where
  allocate_where-Adds h p false xs d = d
  allocate_where-Adds h p true xs d =
      Adds-perm h0 (malloc h).0 _ _
        (λ x. omega (arith, count-over h.next p xs x, count_append x (freed_plan p) xs))
        (Adds-malloc h0 h _ d)

  allocate_table_plans-Adds :
      (h : Heap) (ps : List PlanBlocks) (w : Bool) (xs : List ℕ)
      → Adds h0 h (freed_each freed_plan ps ++ xs)
      → let r = allocate_table_plans h ps w in Adds h0 r.0 (freed_plan r.1 ++ xs)
  unfolding allocate_table_plans
  allocate_table_plans-Adds h [] w xs d = d
  allocate_table_plans-Adds h (p ∷ ps) w xs d =
      let r = allocate_products h p ps in
      allocate_where-Adds r.0 r.1 w xs (
        allocate_products-Adds grow law h0 h p ps xs (
          Adds-perm h0 h _ _
            (λ x. omega (
              arith,
              count_append x (freed_plan p ++ freed_each freed_plan ps) xs,
              count_append x (freed_plan p) (freed_each freed_plan ps),
              count_append x (freed_plan p) (freed_each freed_plan ps ++ xs),
              count_append x (freed_each freed_plan ps) xs,
            ))
            d))

  Adds-free_pointer :
      (h : Heap) (v : Option ℕ) (xs : List ℕ)
      → Adds h0 h (block v ++ xs)
      → (h' : Heap) × (free_pointer h v ≡ some h') × Adds h0 h' xs
  Adds-free_pointer h none xs d = (h, refl, d)
  Adds-free_pointer h (some a) xs d = Adds-free_block h0 h a xs d

  allocate_get_columns-Adds :
      (h : Heap) (p : PlanBlocks) (xs : List ℕ)
      → Grounded p
      → Adds h0 h (freed_plan p ++ xs)
      → (h' : Heap) × (p' : PlanBlocks) × (cs : List ℕ) × (allocate_get_columns grow h p
          ≡ some (h', p', cs))
        × Adds h0 h' (freed_plan p' ++ xs)
  unfolding allocate_get_columns
  allocate_get_columns-Adds h null_plan xs g d = absurd g
  allocate_get_columns-Adds h (project_blocks a p) xs g d =
      let (h', p', cs, e, d') =
        allocate_get_columns-Adds h p (a ∷ xs) g (Adds-perm h0 h _ _ (over-split a p xs) d) in
      (
        h',
        project_blocks a p',
        cs,
        rw e refl,
        Adds-perm h0 h' _ _ (λ x. sym (over-split a p' xs x)) d',
      )
  allocate_get_columns-Adds h (select_blocks a p) xs g d =
      let (h', p', cs, e, d') =
        allocate_get_columns-Adds h p (a ∷ xs) g (Adds-perm h0 h _ _ (over-split a p xs) d) in
      (
        h',
        select_blocks a p',
        cs,
        rw e refl,
        Adds-perm h0 h' _ _ (λ x. sym (over-split a p' xs x)) d',
      )
  allocate_get_columns-Adds h (product_blocks a l r v) xs (gl, gr) d =
      let own = block v.at ++ (a ∷ xs) in
      let d0 =
        Adds-perm h0 h _ (freed_plan l ++ (freed_plan r ++ own)) (product-split a l r v xs) d in
      let (h1, l', cs, e, d1) = allocate_get_columns-Adds h l (freed_plan r ++ own) gl d0 in
      let (h2, r', ds, e', d2) =
        allocate_get_columns-Adds h1 r (freed_plan l' ++ own) gr
          (Adds-perm h0 h1 _ _ (count-swap (freed_plan l') (freed_plan r) own) d1) in
      let ys = freed_plan r' ++ (freed_plan l' ++ (a ∷ xs)) in
      let p1 = push_columns grow h2 v cs in
      let p2 = push_columns grow p1.0 p1.1 ds in
      let d3 = push_columns-Adds grow law h0 p1.0 p1.1 ds ys (
        push_columns-Adds grow law h0 h2 v cs ys
          (Adds-perm h0 h2 _ _ (columns-first v r' l' (a ∷ xs)) d2)) in
      (
        p2.0,
        product_blocks a l' r' p2.1,
        p2.1.items,
        rw (e, e') refl,
        Adds-perm h0 p2.0 _ _ (λ x. columns-last a l' r' p2.1 xs x) d3,
      )
  allocate_get_columns-Adds h (table_blocks a n v) xs g d =
      let r = allocate_columns grow h v n in
      (
        r.0,
        table_blocks a n r.1,
        map column_at r.1.items,
        refl,
        Adds-perm h0 r.0 _ _
            (λ x.
              omega
                (arith, count-table a n r.1 xs x, count_append x (held freed_column r.1) (a ∷ xs)))
            (allocate_columns-held grow law h0 h v n (a ∷ xs) (
              Adds-perm h0 h _ _
                (λ x.
                  omega
                    (arith, count-table a n v xs x, count_append x (held freed_column v) (a ∷ xs)))
                d)),
      )

-- A plan's blocks can be freed, and then the heap is what it was.
freed_after :
    (h0 h : Heap) (p : PlanBlocks)
    → Adds h0 h (freed_plan p ++ [])
    → (h' : Heap) × (free_plan h p ≡ some h') × ((a : ℕ) → h'.live a ≡ h0.live a)
freed_after h0 h p d =
    let (h', e, live) = Adds-free h0 h (freed_plan p) [] d in
    (h', (free_plan_lem h p).same ∙ e, live)

-- Over vectors that keep their block or move to one that is not allocated, from a heap whose blocks
-- were given out, a SELECT over one table or more, with a condition or without: its plan is made and
-- offers its columns, whatever their numbers, and free_plan of the plan, before it is asked for them
-- and after, returns with the blocks allocated that were so before the plan was made, and no others;
-- no block is freed twice.
pub select_plan-free_plan :
    (grow : Grow) (h : Heap) (n : ℕ) (ts : List ℕ) (w : Bool)
    → Grows grow
    → Bounded h
    → (h1 : Heap) × (p : PlanBlocks) × (h2 : Heap) × (p' : PlanBlocks) × (cs : List ℕ)
      × (allocate_select_stmt_plan grow h (n ∷ ts) w ≡ some (h1, p))
      × ((h' : Heap) × (free_plan h1 p ≡ some h') × ((a : ℕ) → h'.live a ≡ h.live a))
      × (allocate_get_columns grow h1 p ≡ some (h2, p', cs))
      × ((h' : Heap) × (free_plan h2 p' ≡ some h') × ((a : ℕ) → h'.live a ≡ h.live a))
unfolding allocate_select_stmt_plan
select_plan-free_plan grow h n ts w law bounded =
    let r = allocate_tables grow h null_vec (n ∷ ts) in
    let q = allocate_table_plans r.0 r.1.items w in
    let a = q.0.next in
    let d1 = allocate_tables-held grow law h h null_vec (n ∷ ts) [] (Adds-none h bounded) in
    let d2 = allocate_table_plans-Adds grow law h r.0 r.1.items w (block r.1.at) (
      Adds-perm h r.0 _ _
        (λ x. omega (
          arith,
          count_append x (held freed_plan r.1) [],
          count_append x (block r.1.at) (freed_each freed_plan r.1.items),
          count_append x (freed_each freed_plan r.1.items) (block r.1.at),
        ))
        d1) in
    let d3 =
      Adds-perm h (malloc q.0).0 _ (block r.1.at ++ (freed_plan (project_blocks a q.1) ++ []))
        (λ x. omega (
          arith,
          count-over a q.1 [] x,
          count_append x (freed_plan q.1) (block r.1.at),
          count_append x (block r.1.at) (freed_plan (project_blocks a q.1) ++ []),
        ))
        (Adds-malloc h q.0 _ d2) in
    let (h1, e, d4) = Adds-free_pointer grow law h (malloc q.0).0 r.1.at _ d3 in
    let grounded =
      allocate_table_plans-Grounded r.0 r.1.items w (allocate_tables-first grow h n ts) in
    let (h2, p', cs, e', d5) =
      allocate_get_columns-Adds grow law h h1 (project_blocks a q.1) [] grounded d4 in
    (
      h1,
      project_blocks a q.1,
      h2,
      p',
      cs,
      rw e refl,
      freed_after h h1 (project_blocks a q.1) d4,
      e',
      freed_after h h2 p' d5,
    )
