-- ===== src/SyntaxTree/Owned.antt =====
-- The parser's actions hold every block that they allocate once: in the tree, in the identifiers that are
-- still to be resolved, or in what is built around them (`xs`).
use npsql.Base.{ℕ, ◌+◌, ◌≡◌, Option, none, some, List, [], ◌∷◌, ◌++◌, length, arith}
use npsql.Sql.{Str, Expr, expr_integer, expr_string, expr_idenifier, infix_expr}
use npsql.SyntaxTree.{
  Heap, malloc, Vec, Grow, vec_push, new_term_expr, new_identifier, new_infix_expr,
}
use npsql.SyntaxTree.Blocks.{
  count, count_append, block, Adds, Adds-perm, Adds-malloc, Adds-grow, Grows,
}
use npsql.SyntaxTree.Freed.{freed_expr, freed_each}
use npsql.SyntaxTree.Parse.{Parsing, reduce_qualified, reduce_expr, reduce_opt}

-- What the heap has beside `h0`, around the identifiers that are to be resolved.
abbrev pub Owns : Heap → Parsing → List ℕ → Type 0
Owns h0 s xs = Adds h0 s.0 (block s.1.at ++ xs)

pub count-freed_each :
    {A : Type 0} (f : A → List ℕ) (xs : List A) (x : A) (a : ℕ)
    → count a (freed_each f (xs ++ (x ∷ []))) ≡ count a (freed_each f xs) + count a (f x)
count-freed_each f [] x a = omega (arith, count_append a (f x) [])
count-freed_each f (y ∷ ys) x a = omega (
  arith,
  count-freed_each f ys x a,
  count_append a (f y) (freed_each f (ys ++ (x ∷ []))),
  count_append a (f y) (freed_each f ys),
)

-- A push onto a vector of elements that hold blocks.
pub push-Adds :
    {A : Type 0} (grow : Grow) (f : A → List ℕ) (h0 h : Heap) (v : Vec A) (x : A) (ys : List ℕ)
    → Grows grow
    → Adds h0 h (block v.at ++ (freed_each f v.items ++ (f x ++ ys)))
    → let (h', v') = vec_push grow h v x in
      Adds h0 h' (block v'.at ++ (freed_each f v'.items ++ ys))
push-Adds grow f h0 h v x ys law d =
    Adds-perm h0 _ _ _
      (λ a. omega (
        arith,
        count-freed_each f v.items x a,
        count_append a (freed_each f v.items) (f x ++ ys),
        count_append a (f x) ys,
        count_append a (freed_each f (v.items ++ (x ∷ []))) ys,
      ))
      (Adds-grow grow h0 h v.at (length v.items) (freed_each f v.items ++ (f x ++ ys)) law d)

-- Two lists that hold the same blocks beside what comes first.
pub Owns-perm :
    (h0 : Heap) (s : Parsing) (xs ys : List ℕ)
    → ((a : ℕ) → count a xs ≡ count a ys)
    → Owns h0 s xs
    → Owns h0 s ys
Owns-perm h0 s xs ys same d =
    Adds-perm h0 s.0 _ _
      (λ a.
        omega (arith, same a, count_append a (block s.1.at) xs, count_append a (block s.1.at) ys))
      d

-- A block that is allocated is held first of all.
pub Owns-malloc :
    (h0 : Heap) (s : Parsing) (xs : List ℕ)
    → Owns h0 s xs
    → Owns h0 ((malloc s.0).0, s.1) (s.0.next ∷ xs)
Owns-malloc h0 s xs d =
    Adds-perm h0 (malloc s.0).0 _ _
      (λ a.
        omega
          (arith, count_append a (block s.1.at) xs, count_append a (block s.1.at) (s.0.next ∷ xs)))
      (Adds-malloc h0 s.0 _ d)

module _ (grow : Grow) (law : Grows grow) (h0 : Heap) where
  reduce_qualified-Owns :
      (s : Parsing) (q : Option Str) (t : Str) (xs : List ℕ)
      → Owns h0 s xs
      → let r = reduce_qualified grow s q t in Owns h0 r.0 (freed_expr r.1 ++ xs)
  unfolding new_identifier
  reduce_qualified-Owns (h, u) none t xs d =
      let d1 = Owns-malloc h0 (h, u) xs d in
      let s1 : Parsing = ((malloc h).0, u) in
      let d2 = Owns-malloc h0 s1 _ d1 in
      let s2 : Parsing = ((malloc s1.0).0, u) in
      let d3 = Owns-malloc h0 s2 _ d2 in
      Adds-grow grow h0 (malloc s2.0).0 u.at (length u.items) _ law (
        Owns-perm h0 ((malloc s2.0).0, u) _ (h.next ∷ s2.0.next ∷ s1.0.next ∷ xs) (λ a. omega arith)
          d3)
  reduce_qualified-Owns (h, u) (some q) t xs d =
      let d1 = Owns-malloc h0 (h, u) xs d in
      let s1 : Parsing = ((malloc h).0, u) in
      let d2 = Owns-malloc h0 s1 _ d1 in
      let s2 : Parsing = ((malloc s1.0).0, u) in
      let d3 = Owns-malloc h0 s2 _ d2 in
      let s3 : Parsing = ((malloc s2.0).0, u) in
      let d4 = Owns-malloc h0 s3 _ d3 in
      Adds-grow grow h0 (malloc s3.0).0 u.at (length u.items) _ law (
        Owns-perm h0 ((malloc s3.0).0, u) _ (s1.0.next ∷ h.next ∷ s3.0.next ∷ s2.0.next ∷ xs)
          (λ a. omega arith) d4)

  pub reduce_expr-Owns :
      (s : Parsing) (e : Expr) (xs : List ℕ)
      → Owns h0 s xs
      → let r = reduce_expr grow s e in Owns h0 r.0 (freed_expr r.1 ++ xs)
  unfolding reduce_expr new_term_expr new_infix_expr
  reduce_expr-Owns s (expr_string t) xs d =
      let d2 = Owns-malloc h0 ((malloc s.0).0, s.1) _ (Owns-malloc h0 s xs d) in
      Owns-perm h0 ((malloc (malloc s.0).0).0, s.1) _ (s.0.next ∷ (malloc s.0).0.next ∷ xs)
        (λ a. omega arith) d2
  reduce_expr-Owns s (expr_integer v) xs d = Owns-malloc h0 s xs d
  reduce_expr-Owns s (expr_idenifier id) xs d = reduce_qualified-Owns s id.qualifier id.name xs d
  reduce_expr-Owns s (infix_expr type l r) xs d =
      let d1 = reduce_expr-Owns s l xs d in
      let r1 = reduce_expr grow s l in
      let d2 = reduce_expr-Owns r1.0 r _ d1 in
      let r2 = reduce_expr grow r1.0 r in
      let d3 = Owns-malloc h0 r2.0 _ d2 in
      Owns-perm h0 ((malloc r2.0.0).0, r2.0.1) _ _
        (λ a. omega (
          arith,
          count_append a (freed_expr r2.1) (freed_expr r1.1 ++ xs),
          count_append a (freed_expr r1.1) xs,
          count_append a (freed_expr r1.1 ++ (freed_expr r2.1 ++ (r2.0.0.next ∷ []))) xs,
          count_append a (freed_expr r1.1) (freed_expr r2.1 ++ (r2.0.0.next ∷ [])),
          count_append a (freed_expr r2.1) (r2.0.0.next ∷ []),
        ))
        d3

  pub reduce_opt-Owns :
      (s : Parsing) (e : Option Expr) (xs : List ℕ)
      → Owns h0 s xs
      → let r = reduce_opt grow s e in Owns h0 r.0 (freed_expr r.1 ++ xs)
  unfolding reduce_opt
  reduce_opt-Owns s none xs d = d
  reduce_opt-Owns s (some e) xs d = reduce_expr-Owns s e xs d
