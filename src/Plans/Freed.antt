-- ===== src/Plans/Freed.antt =====
-- A plan is freed block by block.
use npsql.Base.{ℕ, zero, suc, ◌+◌, ◌≡◌, refl, List, [], ◌∷◌, ◌++◌, arith, length}
use npsql.SyntaxTree.{Heap, malloc, Vec, null_vec, Grow, vec_push}
use npsql.SyntaxTree.Blocks.{
  count, count_append, block, Adds, Adds-perm, Adds-malloc, Adds-grow, Grows,
}
use npsql.SyntaxTree.Freed.{Frees, one, chain, pointer, each, freed_each}
use npsql.SyntaxTree.Lists.{held, push-held}
use npsql.Plans.Memory.{
  ColumnBlocks, PlanBlocks, null_plan, project_blocks, select_blocks, product_blocks, table_blocks,
  allocate_tables, allocate_products, allocate_columns, push_columns, free_plan_column, free_plan,
}

abbrev pub freed_column : ColumnBlocks → List ℕ
freed_column c = (c.identifier ∷ []) ++ ((c.expr ∷ []) ++ (c.at ∷ []))

abbrev pub freed_plan : PlanBlocks → List ℕ
freed_plan null_plan = []
freed_plan (project_blocks a p) = freed_plan p ++ (a ∷ [])
freed_plan (select_blocks a p) = freed_plan p ++ (a ∷ [])
freed_plan (product_blocks a l r ppc) = freed_plan l ++ (freed_plan r ++ (block ppc.at ++ (a ∷ [])))
freed_plan (table_blocks a n v) = freed_each freed_column v.items ++ (block v.at ++ (a ∷ []))

column_lem : (h : Heap) (c : ColumnBlocks) → Frees h (free_plan_column h c) (freed_column c)
unfolding free_plan_column
column_lem h c = chain (one h c.identifier) (λ h1. chain (one h1 c.expr) (λ h2. one h2 c.at))

pub free_plan_lem : (h : Heap) (p : PlanBlocks) → Frees h (free_plan h p) (freed_plan p)
unfolding free_plan
free_plan_lem h null_plan = record { same = refl }
free_plan_lem h (project_blocks a p) = chain (free_plan_lem h p) (λ h1. one h1 a)
free_plan_lem h (select_blocks a p) = chain (free_plan_lem h p) (λ h1. one h1 a)
free_plan_lem h (product_blocks a l r ppc) =
    chain (free_plan_lem h l)
      (λ h1. chain (free_plan_lem h1 r) (λ h2. chain (pointer h2 ppc.at) (λ h3. one h3 a)))
free_plan_lem h (table_blocks a n v) =
    chain (each free_plan_column freed_column column_lem h v.items)
      (λ h1. chain (pointer h1 v.at) (λ h2. one h2 a))

pub count-table :
    (a n : ℕ) (v : Vec ColumnBlocks) (xs : List ℕ) (x : ℕ)
    → count x (freed_plan (table_blocks a n v) ++ xs)
      ≡ count x (held freed_column v) + count x (a ∷ []) + count x xs
count-table a n v xs x = omega (
  arith,
  count_append x (freed_plan (table_blocks a n v)) xs,
  count_append x (freed_each freed_column v.items) (block v.at ++ (a ∷ [])),
  count_append x (block v.at) (a ∷ []),
  count_append x (block v.at) (freed_each freed_column v.items),
)

pub count-product :
    (a : ℕ) (l r : PlanBlocks) (v : Vec ℕ) (xs : List ℕ) (x : ℕ)
    → count x (freed_plan (product_blocks a l r v) ++ xs)
      ≡ count x (freed_plan l)
        + count x (freed_plan r)
        + count x (block v.at)
        + count x (a ∷ [])
        + count x xs
count-product a l r v xs x = omega (
  arith,
  count_append x (freed_plan (product_blocks a l r v)) xs,
  count_append x (freed_plan l) (freed_plan r ++ (block v.at ++ (a ∷ []))),
  count_append x (freed_plan r) (block v.at ++ (a ∷ [])),
  count_append x (block v.at) (a ∷ []),
)

-- A plan over another.
pub count-over :
    (a : ℕ) (p : PlanBlocks) (xs : List ℕ) (x : ℕ)
    → count x ((freed_plan p ++ (a ∷ [])) ++ xs)
      ≡ count x (freed_plan p) + count x (a ∷ []) + count x xs
count-over a p xs x =
    omega
      (arith, count_append x (freed_plan p ++ (a ∷ [])) xs, count_append x (freed_plan p) (a ∷ []))

module _ (grow : Grow) (law : Grows grow) (h0 : Heap) where
  pub allocate_tables-held :
      (h : Heap) (v : Vec PlanBlocks) (ts xs : List ℕ)
      → Adds h0 h (held freed_plan v ++ xs)
      → let r = allocate_tables grow h v ts in Adds h0 r.0 (held freed_plan r.1 ++ xs)
  unfolding allocate_tables
  allocate_tables-held h v [] xs d = d
  allocate_tables-held h v (n ∷ ts) xs d =
      let p = table_blocks h.next n null_vec in
      let r = vec_push grow (malloc h).0 v p in
      allocate_tables-held r.0 r.1 ts xs
        (push-held grow law h0 freed_plan (malloc h).0 v p xs (Adds-malloc h0 h _ d))

  pub allocate_products-Adds :
      (h : Heap) (p : PlanBlocks) (qs : List PlanBlocks) (xs : List ℕ)
      → Adds h0 h (freed_plan p ++ (freed_each freed_plan qs ++ xs))
      → let r = allocate_products h p qs in Adds h0 r.0 (freed_plan r.1 ++ xs)
  unfolding allocate_products
  allocate_products-Adds h p [] xs d = d
  allocate_products-Adds h p (q ∷ qs) xs d =
      let rest = freed_each freed_plan qs in
      allocate_products-Adds (malloc h).0 (product_blocks h.next p q null_vec) qs xs (
        Adds-perm h0 (malloc h).0 _ _
          (λ x. omega (
            arith,
            count-product h.next p q null_vec (rest ++ xs) x,
            count_append x (freed_plan p) ((freed_plan q ++ rest) ++ xs),
            count_append x (freed_plan q ++ rest) xs,
            count_append x (freed_plan q) rest,
            count_append x rest xs,
          ))
          (Adds-malloc h0 h _ d))

  pub allocate_columns-held :
      (h : Heap) (v : Vec ColumnBlocks) (n : ℕ) (xs : List ℕ)
      → Adds h0 h (held freed_column v ++ xs)
      → let r = allocate_columns grow h v n in Adds h0 r.0 (held freed_column r.1 ++ xs)
  unfolding allocate_columns
  allocate_columns-held h v zero xs d = d
  allocate_columns-held h v (suc n) xs d =
      let h1 = (malloc h).0 in
      let h2 = (malloc h1).0 in
      let c : ColumnBlocks = record { at = h.next; expr = h1.next; identifier = h2.next } in
      let r = vec_push grow (malloc h2).0 v c in
      allocate_columns-held r.0 r.1 n xs (
        push-held grow law h0 freed_column (malloc h2).0 v c xs
          (Adds-malloc h0 h2 _ (Adds-malloc h0 h1 _ (Adds-malloc h0 h _ d))))

  pub push_columns-Adds :
      (h : Heap) (v : Vec ℕ) (cs xs : List ℕ)
      → Adds h0 h (block v.at ++ xs)
      → let r = push_columns grow h v cs in Adds h0 r.0 (block r.1.at ++ xs)
  unfolding push_columns
  push_columns-Adds h v [] xs d = d
  push_columns-Adds h v (c ∷ cs) xs d =
      let r = vec_push grow h v c in
      push_columns-Adds r.0 r.1 cs xs (Adds-grow grow h0 h v.at (length v.items) xs law d)
