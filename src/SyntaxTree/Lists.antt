-- ===== src/SyntaxTree/Lists.antt =====
-- The lists of a statement: every block that the actions allocate for their elements is held once.
use npsql.Base.{ℕ, List, [], ◌∷◌, ◌++◌, arith}
use npsql.Sql.{Str, Expr}
use npsql.SyntaxTree.{
  Heap, malloc, strdup, Name, Vec, null_vec, Grow, vec_push, Node, null, integer_term, string_term,
  identifier_term, term_expr, infix_node, TableRef, ColumnNode, new_table_ref, new_table_list,
  append_table_list, create_column_def, create_type_def, new_column_def_list,
  append_column_def_list, new_column_list, append_column_list, new_expr_list, append_expr_list,
}
use npsql.SyntaxTree.Blocks.{count_append, block, Adds, Adds-perm, Adds-malloc, Grows}
use npsql.SyntaxTree.Freed.{freed_expr, freed_table_ref, freed_column_def, freed_name, freed_each}
use npsql.SyntaxTree.Parse.{
  Parsing, CreateDef, reduce_expr, reduce_table_ref, reduce_tables, reduce_table_refs,
  reduce_create_def, reduce_defs, reduce_create_col_list, reduce_columns, reduce_column_list,
  reduce_values, reduce_value_list,
}
use npsql.SyntaxTree.Owned.{Owns, push-Adds, reduce_expr-Owns}

-- The blocks of a vector and of its elements.
abbrev pub held : {A : Type 0} → (A → List ℕ) → Vec A → List ℕ
held f v = block v.at ++ freed_each f v.items

module _ (grow : Grow) (law : Grows grow) (h0 : Heap) where
  -- An element whose blocks are held goes onto a vector.
  pub push-held :
      {A : Type 0} (f : A → List ℕ) (h : Heap) (v : Vec A) (x : A) (ys : List ℕ)
      → Adds h0 h (f x ++ (held f v ++ ys))
      → let r = vec_push grow h v x in Adds h0 r.0 (held f r.1 ++ ys)
  push-held f h v x ys d =
      let r = vec_push grow h v x in
      Adds-perm h0 r.0 _ _
        (λ a. omega (
          arith,
          count_append a (block r.1.at) (freed_each f r.1.items),
          count_append a (freed_each f r.1.items) ys,
          count_append a (block r.1.at) (freed_each f r.1.items ++ ys),
          count_append a (held f r.1) ys,
        ))
        (push-Adds grow f h0 h v x ys law (
          Adds-perm h0 h _ _
            (λ a. omega (
              arith,
              count_append a (f x) (held f v ++ ys),
              count_append a (held f v) ys,
              count_append a (block v.at) (freed_each f v.items),
              count_append a (block v.at) (freed_each f v.items ++ (f x ++ ys)),
              count_append a (freed_each f v.items) (f x ++ ys),
              count_append a (f x) ys,
            ))
            d))

  -- table_ref
  reduce_tables-held :
      (h : Heap) (v : Vec TableRef) (names : List Str) (ys : List ℕ)
      → Adds h0 h (held freed_table_ref v ++ ys)
      → let r = reduce_tables grow h v names in Adds h0 r.0 (held freed_table_ref r.1 ++ ys)
  unfolding reduce_tables append_table_list new_table_ref
  reduce_tables-held h v [] ys d = d
  reduce_tables-held h v (name ∷ names) ys d =
      let r = reduce_table_ref h name in
      let d2 = Adds-malloc h0 (malloc h).0 _ (Adds-malloc h0 h _ d) in
      let p = vec_push grow r.0 v r.1 in
      reduce_tables-held p.0 p.1 names ys (
        push-held freed_table_ref r.0 v r.1 ys (
          Adds-perm h0 r.0 _ (freed_table_ref r.1 ++ (held freed_table_ref v ++ ys))
            (λ a. omega arith) d2))

  pub reduce_table_refs-held :
      (h : Heap) (name : Str) (names : List Str) (ys : List ℕ)
      → Adds h0 h ys
      → let r = reduce_table_refs grow h name names in Adds h0 r.0 (held freed_table_ref r.1 ++ ys)
  unfolding reduce_table_refs new_table_list new_table_ref
  reduce_table_refs-held h name names ys d =
      let r = reduce_table_ref h name in
      let d2 = Adds-malloc h0 (malloc h).0 _ (Adds-malloc h0 h _ d) in
      let p = vec_push grow r.0 null_vec r.1 in
      reduce_tables-held p.0 p.1 names ys (
        push-held freed_table_ref r.0 null_vec r.1 ys
          (Adds-perm h0 r.0 _ (freed_table_ref r.1 ++ ys) (λ a. omega arith) d2))

  -- create_def
  reduce_create_def-Adds :
      (h : Heap) (c : CreateDef) (ys : List ℕ)
      → Adds h0 h ys
      → let r = reduce_create_def h c in Adds h0 r.0 (freed_column_def r.1 ++ ys)
  unfolding create_type_def create_column_def
  reduce_create_def-Adds h (name, type, size) ys d =
      let h1 = (malloc h).0 in
      let h2 = (malloc h1).0 in
      Adds-perm h0 (malloc h2).0 _ (h.next ∷ h1.next ∷ h2.next ∷ ys) (λ a. omega arith)
        (Adds-malloc h0 h2 _ (Adds-malloc h0 h1 _ (Adds-malloc h0 h _ d)))

  reduce_defs-held :
      (h : Heap) (v : Vec ColumnNode) (cs : List CreateDef) (ys : List ℕ)
      → Adds h0 h (held freed_column_def v ++ ys)
      → let r = reduce_defs grow h v cs in Adds h0 r.0 (held freed_column_def r.1 ++ ys)
  unfolding reduce_defs append_column_def_list
  reduce_defs-held h v [] ys d = d
  reduce_defs-held h v (c ∷ cs) ys d =
      let r = reduce_create_def h c in
      let p = vec_push grow r.0 v r.1 in
      reduce_defs-held p.0 p.1 cs ys
        (push-held freed_column_def r.0 v r.1 ys (reduce_create_def-Adds h c _ d))

  pub reduce_create_col_list-held :
      (h : Heap) (c : CreateDef) (cs : List CreateDef) (ys : List ℕ)
      → Adds h0 h ys
      → let r = reduce_create_col_list grow h c cs in Adds h0 r.0 (held freed_column_def r.1 ++ ys)
  unfolding reduce_create_col_list new_column_def_list
  reduce_create_col_list-held h c cs ys d =
      let r = reduce_create_def h c in
      let p = vec_push grow r.0 null_vec r.1 in
      reduce_defs-held p.0 p.1 cs ys
        (push-held freed_column_def r.0 null_vec r.1 ys (reduce_create_def-Adds h c _ d))

  -- column_list
  reduce_columns-held :
      (h : Heap) (v : Vec Name) (cs : List Str) (ys : List ℕ)
      → Adds h0 h (held freed_name v ++ ys)
      → let r = reduce_columns grow h v cs in Adds h0 r.0 (held freed_name r.1 ++ ys)
  unfolding reduce_columns append_column_list
  reduce_columns-held h v [] ys d = d
  reduce_columns-held h v (c ∷ cs) ys d =
      let r = strdup h c in
      let p = vec_push grow r.0 v r.1 in
      reduce_columns-held p.0 p.1 cs ys (push-held freed_name r.0 v r.1 ys (Adds-malloc h0 h _ d))

  pub reduce_column_list-held :
      (h : Heap) (c : Str) (cs : List Str) (ys : List ℕ)
      → Adds h0 h ys
      → let r = reduce_column_list grow h c cs in Adds h0 r.0 (held freed_name r.1 ++ ys)
  unfolding reduce_column_list new_column_list
  reduce_column_list-held h c cs ys d =
      let r = strdup h c in
      let p = vec_push grow r.0 null_vec r.1 in
      reduce_columns-held p.0 p.1 cs ys
        (push-held freed_name r.0 null_vec r.1 ys (Adds-malloc h0 h _ d))

  -- The same beside the identifiers that are to be resolved.
  pub push-Owns :
      {A : Type 0} (f : A → List ℕ) (s : Parsing) (v : Vec A) (x : A) (ys : List ℕ)
      → Owns h0 s (f x ++ (held f v ++ ys))
      → let r = vec_push grow s.0 v x in Owns h0 (r.0, s.1) (held f r.1 ++ ys)
  push-Owns f s v x ys d =
      let r = vec_push grow s.0 v x in
      let u = block s.1.at in
      Adds-perm h0 r.0 _ _
        (λ a. omega (
          arith,
          count_append a (held f r.1) (u ++ ys),
          count_append a u ys,
          count_append a u (held f r.1 ++ ys),
          count_append a (held f r.1) ys,
        ))
        (push-held f s.0 v x (u ++ ys) (
          Adds-perm h0 s.0 _ _
            (λ a. omega (
              arith,
              count_append a u (f x ++ (held f v ++ ys)),
              count_append a (f x) (held f v ++ ys),
              count_append a (held f v) ys,
              count_append a (f x) (held f v ++ (u ++ ys)),
              count_append a (held f v) (u ++ ys),
              count_append a u ys,
            ))
            d))

  -- value_list; no expression of it is NULL.
  reduce_values-held :
      (s : Parsing) (v : Vec Node) (xs : List Expr) (ys : List ℕ)
      → Owns h0 s (held freed_expr v ++ ys)
      → let r = reduce_values grow s v xs in Owns h0 r.0 (held freed_expr r.1 ++ ys)
  unfolding reduce_values append_expr_list
  reduce_values-held s v [] ys d = d
  reduce_values-held s v (x ∷ xs) ys d =
      let r = reduce_expr grow s x in
      let p = vec_push grow r.0.0 v r.1 in
      reduce_values-held (p.0, r.0.1) p.1 xs ys
        (push-Owns freed_expr r.0 v r.1 ys (reduce_expr-Owns grow law h0 s x _ d))

  new_expr_list-held :
      (s : Parsing) (e : Node) (ys : List ℕ)
      → Owns h0 s (freed_expr e ++ ys)
      → let r = new_expr_list grow s.0 e in Owns h0 (r.0, s.1) (held freed_expr r.1 ++ ys)
  unfolding new_expr_list
  new_expr_list-held s null ys d = d
  new_expr_list-held s (integer_term a v) ys d =
      push-Owns freed_expr s null_vec (integer_term a v) ys d
  new_expr_list-held s (string_term a t) ys d =
      push-Owns freed_expr s null_vec (string_term a t) ys d
  new_expr_list-held s (identifier_term a id q n) ys d =
      push-Owns freed_expr s null_vec (identifier_term a id q n) ys d
  new_expr_list-held s (term_expr a) ys d = push-Owns freed_expr s null_vec (term_expr a) ys d
  new_expr_list-held s (infix_node a t l r) ys d =
      push-Owns freed_expr s null_vec (infix_node a t l r) ys d

  pub reduce_value_list-held :
      (s : Parsing) (x : Expr) (xs : List Expr) (ys : List ℕ)
      → Owns h0 s ys
      → let r = reduce_value_list grow s x xs in Owns h0 r.0 (held freed_expr r.1 ++ ys)
  unfolding reduce_value_list
  reduce_value_list-held s x xs ys d =
      let r = reduce_expr grow s x in
      let p = new_expr_list grow r.0.0 r.1 in
      reduce_values-held (p.0, r.0.1) p.1 xs ys
        (new_expr_list-held r.0 r.1 ys (reduce_expr-Owns grow law h0 s x _ d))
