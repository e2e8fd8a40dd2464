-- ===== src/SyntaxTree/Select.antt =====
-- The list of a SELECT, whose expressions get generated names: up to 99 of them.
use npsql.Base.{
  ℕ, ◌+◌, ◌≤◌, ◌<◌, ◌≡◌, refl, Option, some, List, [], ◌∷◌, ◌++◌, length, length-append, arith,
}
use npsql.Sql.{Expr}
use npsql.SyntaxTree.{
  Heap, malloc, strdup, Vec, null_vec, Grow, vec_push, Node, ExprCtx, column_name,
  new_expr_ctx_list, append_expr_ctx_list,
}
use npsql.SyntaxTree.Blocks.{count_append, Grows}
use npsql.SyntaxTree.Freed.{freed_expr, freed_expr_ctx}
use npsql.SyntaxTree.Names.{generate_name-fits}
use npsql.SyntaxTree.Parse.{Parsing, reduce_opt, reduce_exprs, reduce_select_list}
use npsql.SyntaxTree.Owned.{Owns, Owns-perm, Owns-malloc, reduce_opt-Owns}
use npsql.SyntaxTree.Lists.{held, push-Owns}

-- The expression with its name, and the heap after both are allocated.
abbrev pub named : Heap → ℕ → Node → Heap × ExprCtx
named h i e =
    let (h1, a) = malloc h in
    let (h2, n) = strdup h1 (column_name (i + 1)) in (h2, record { at = a; expr = e; col_name = n })

pub append_expr_ctx_list_lem :
    (grow : Grow) (h : Heap) (v : Vec ExprCtx) (e : Node)
    → length v.items < 99
    → append_expr_ctx_list grow h v e
      ≡ some (let (h', c) = named h (length v.items) e in vec_push grow h' v c)
unfolding append_expr_ctx_list
append_expr_ctx_list_lem grow h v e small =
    rw ((generate_name-fits (malloc h).0 (length v.items)).0 small) refl

pub new_expr_ctx_list_lem :
    (grow : Grow) (h : Heap) (e : Node)
    → new_expr_ctx_list grow h e ≡ some (let (h', c) = named h 0 e in vec_push grow h' null_vec c)
unfolding new_expr_ctx_list
new_expr_ctx_list_lem grow h e = rw ((generate_name-fits (malloc h).0 0).0 (omega arith)) refl

module _ (grow : Grow) (law : Grows grow) (h0 : Heap) where
  named-Owns :
      (s : Parsing) (i : ℕ) (e : Node) (ys : List ℕ)
      → Owns h0 s (freed_expr e ++ ys)
      → let r = named s.0 i e in Owns h0 (r.0, s.1) (freed_expr_ctx r.1 ++ ys)
  named-Owns s i e ys d =
      let s1 : Parsing = ((malloc s.0).0, s.1) in
      Owns-perm h0 ((malloc s1.0).0, s.1) _ _
        (λ a. omega (
          arith,
          count_append a (freed_expr e) ys,
          count_append a (freed_expr e ++ (s1.0.next ∷ s.0.next ∷ [])) ys,
          count_append a (freed_expr e) (s1.0.next ∷ s.0.next ∷ []),
        ))
        (Owns-malloc h0 s1 _ (Owns-malloc h0 s _ d))

  reduce_exprs-held :
      (s : Parsing) (v : Vec ExprCtx) (xs : List (Option Expr)) (ys : List ℕ)
      → length v.items + length xs ≤ 99
      → Owns h0 s (held freed_expr_ctx v ++ ys)
      → (s' : Parsing) × (v' : Vec ExprCtx) × (reduce_exprs grow s v xs ≡ some (s', v'))
        × Owns h0 s' (held freed_expr_ctx v' ++ ys)
  unfolding reduce_exprs
  reduce_exprs-held s v [] ys few d = (s, v, refl, d)
  reduce_exprs-held s v (x ∷ xs) ys few d =
      let r = reduce_opt grow s x in
      let n = named r.0.0 (length v.items) r.1 in
      let p = vec_push grow n.0 v n.1 in
      let owned =
        push-Owns grow law h0 freed_expr_ctx (n.0, r.0.1) v n.1 ys
          (named-Owns r.0 (length v.items) r.1 _ (reduce_opt-Owns grow law h0 s x _ d)) in
      let (s', v', e, d') =
        reduce_exprs-held (p.0, r.0.1) p.1 xs ys (omega (arith, length-append v.items (n.1 ∷ [])))
          owned in
      (s', v', rw (append_expr_ctx_list_lem grow r.0.0 v r.1 (omega arith)) e, d')

  pub reduce_select_list-held :
      (s : Parsing) (x : Option Expr) (xs : List (Option Expr)) (ys : List ℕ)
      → length xs < 99
      → Owns h0 s ys
      → (s' : Parsing) × (v' : Vec ExprCtx) × (reduce_select_list grow s x xs ≡ some (s', v'))
        × Owns h0 s' (held freed_expr_ctx v' ++ ys)
  unfolding reduce_select_list
  reduce_select_list-held s x xs ys few d =
      let r = reduce_opt grow s x in
      let n = named r.0.0 0 r.1 in
      let p = vec_push grow n.0 null_vec n.1 in
      let owned =
        push-Owns grow law h0 freed_expr_ctx (n.0, r.0.1) null_vec n.1 ys
          (named-Owns r.0 0 r.1 _ (reduce_opt-Owns grow law h0 s x _ d)) in
      let (s', v', e, d') = reduce_exprs-held (p.0, r.0.1) p.1 xs ys (omega arith) owned in
      (s', v', rw (new_expr_ctx_list_lem grow r.0.0 r.1) e, d')
