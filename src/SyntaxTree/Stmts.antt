-- ===== src/SyntaxTree/Stmts.antt =====
-- The actions of a statement hold every block that they allocate once.
use npsql.Base.{ℕ, ◌<◌, ◌≡◌, refl, some, List, ◌∷◌, ◌++◌, length, arith}
use npsql.SyntaxTree.{
  Heap, malloc, strdup, null, null_vec, Grow, Stmt, new_select, new_select_data, new_create_table,
  new_insert,
}
use npsql.SyntaxTree.Blocks.{count_append, block, Adds-perm, Adds-malloc, Grows}
use npsql.SyntaxTree.Freed.{
  freed_expr, freed_expr_ctx, freed_table_ref, freed_column_def, freed_name, freed_stmt,
}
use npsql.SyntaxTree.Parse.{
  Parsing, Query, select_only, select_from, create, insert_into, reduce_opt, reduce_table_refs,
  reduce_create_col_list, reduce_column_list, reduce_value_list, reduce_stmt,
}
use npsql.SyntaxTree.Owned.{Owns, Owns-perm, Owns-malloc, reduce_opt-Owns}
use npsql.SyntaxTree.Lists.{
  held, reduce_table_refs-held, reduce_create_col_list-held, reduce_column_list-held,
  reduce_value_list-held,
}
use npsql.SyntaxTree.Select.{reduce_select_list-held}
use npsql.SyntaxTree.Counts.{count-select, count-create_table, count-insert, count-swap}

-- A SELECT of at most 99 expressions, or another statement.
abbrev pub Few : Query → Type 0
Few (select_only x xs) = length xs < 99
Few (select_from x xs t ts c) = length xs < 99
Few (create name c cs) = Unit {0}
Few (insert_into name c cs x xs) = Unit {0}

-- What a statement adds to the heap is what `free_stmts` frees for it.
abbrev pub Built : Grow → Heap → Parsing → Query → List ℕ → Type 0
Built grow h0 s q xs =
    (s' : Parsing) × (t : Stmt) × (reduce_stmt grow s q ≡ some (s', t))
    × Owns h0 s' (freed_stmt t ++ xs)

module _ (grow : Grow) (law : Grows grow) (h0 : Heap) where
  pub reduce_stmt-Owns :
      (s : Parsing) (q : Query) (xs : List ℕ) → Few q → Owns h0 s xs → Built grow h0 s q xs
  unfolding reduce_stmt new_select new_select_data new_create_table new_insert
  reduce_stmt-Owns s (select_only x xs) ys few d =
      let (s1, v, e, d1) = reduce_select_list-held grow law h0 s x xs ys few d in
      (
        ((malloc s1.0).0, s1.1),
        (new_select s1.0 v).1,
        rw e refl,
        Owns-perm h0 ((malloc s1.0).0, s1.1) (s1.0.next ∷ (held freed_expr_ctx v ++ ys)) _
            (λ a. omega (
              arith,
              count-select s1.0.next v null_vec null null_vec ys a,
              count_append a (held freed_expr_ctx v) ys,
            ))
            (Owns-malloc h0 s1 _ d1),
      )
  reduce_stmt-Owns s (select_from x xs t ts c) ys few d =
      let (s1, v, e, d1) = reduce_select_list-held grow law h0 s x xs ys few d in
      let refs = reduce_table_refs grow s1.0 t ts in
      let d2 = reduce_table_refs-held grow law h0 s1.0 t ts _ d1 in
      let d3 =
        Adds-perm h0 refs.0 _ _
          (count-swap (held freed_table_ref refs.1) (block s1.1.at) (held freed_expr_ctx v ++ ys))
          d2 in
      let w = reduce_opt grow (refs.0, s1.1) c in
      let d4 = reduce_opt-Owns grow law h0 (refs.0, s1.1) c _ d3 in
      (
        ((malloc w.0.0).0, null_vec),
        (new_select_data w.0.0 v refs.1 w.1 w.0.1).1,
        rw e refl,
        Adds-perm h0 (malloc w.0.0).0 _ _
            (λ a. omega (
              arith,
              count-select w.0.0.next v refs.1 w.1 w.0.1 ys a,
              count_append a (block w.0.1.at) (
                  freed_expr w.1 ++ (held freed_table_ref refs.1 ++ (held freed_expr_ctx v ++ ys))),
              count_append a (freed_expr w.1)
                  (held freed_table_ref refs.1 ++ (held freed_expr_ctx v ++ ys)),
              count_append a (held freed_table_ref refs.1) (held freed_expr_ctx v ++ ys),
              count_append a (held freed_expr_ctx v) ys,
            ))
            (Adds-malloc h0 w.0.0 _ d4),
      )
  reduce_stmt-Owns s (create name c cs) ys few d =
      let h1 = (strdup s.0 name).0 in
      let defs = reduce_create_col_list grow h1 c cs in
      let d2 = reduce_create_col_list-held grow law h0 h1 c cs _ (Owns-malloc h0 s ys d) in
      (
        ((malloc defs.0).0, s.1),
        (new_create_table defs.0 (strdup s.0 name).1 defs.1).1,
        refl,
        Adds-perm h0 (malloc defs.0).0 _ _
            (λ a. omega (
              arith,
              count-create_table defs.0.next (strdup s.0 name).1 defs.1 ys a,
              count_append a (held freed_column_def defs.1) (block s.1.at ++ (s.0.next ∷ ys)),
              count_append a (block s.1.at) (s.0.next ∷ ys),
              count_append a (block s.1.at)
                  (freed_stmt (new_create_table defs.0 (strdup s.0 name).1 defs.1).1 ++ ys),
            ))
            (Adds-malloc h0 defs.0 _ d2),
      )
  reduce_stmt-Owns s (insert_into name c cs x xs) ys few d =
      let h1 = (strdup s.0 name).0 in
      let columns = reduce_column_list grow h1 c cs in
      let d2 = reduce_column_list-held grow law h0 h1 c cs _ (Owns-malloc h0 s ys d) in
      let d3 =
        Adds-perm h0 columns.0 _ _
          (count-swap (held freed_name columns.1) (block s.1.at) (s.0.next ∷ ys)) d2 in
      let values = reduce_value_list grow (columns.0, s.1) x xs in
      let d4 = reduce_value_list-held grow law h0 (columns.0, s.1) x xs _ d3 in
      (
        ((malloc values.0.0).0, values.0.1),
        (new_insert values.0.0 (strdup s.0 name).1 columns.1 values.1).1,
        refl,
        Adds-perm h0 (malloc values.0.0).0 _ _
            (λ a. omega (
              arith,
              count-insert values.0.0.next (strdup s.0 name).1 columns.1 values.1 ys a,
              count_append a (block values.0.1.at)
                  (held freed_expr values.1 ++ (held freed_name columns.1 ++ (s.0.next ∷ ys))),
              count_append a (held freed_expr values.1)
                  (held freed_name columns.1 ++ (s.0.next ∷ ys)),
              count_append a (held freed_name columns.1) (s.0.next ∷ ys),
              count_append a (block values.0.1.at) (
                  freed_stmt (new_insert values.0.0 (strdup s.0 name).1 columns.1 values.1).1
                  ++ ys),
            ))
            (Adds-malloc h0 values.0.0 _ d4),
      )
