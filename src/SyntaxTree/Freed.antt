-- ===== src/SyntaxTree/Freed.antt =====
-- The blocks that `free_stmts` and what it calls give back, in the order in which they do.
use npsql.Base.{
  ℕ, ◌≡◌, ◌∙◌, refl, sym, ap, fun_ext, Bool-cases, inl, inr, Option, Option-cases, none, some, List,
  [], ◌∷◌, ◌++◌, arith,
}
use npsql.ExprEval.{◌>>=◌}
use npsql.SyntaxTree.{
  Heap, Name, Node, null, integer_term, string_term, identifier_term, term_expr, infix_node,
  ExprCtx, TableRef, ColumnNode, Stmt, select, create_table, insert, ParsedSql,
}
use npsql.SyntaxTree.Free.{
  free_block, free_pointer, free_qualifier, free_expr, free_table_ref, free_column_def,
  free_expr_ctx, free_name, free_each, free_content, block_of, free_stmt, free_stmts,
}
use npsql.SyntaxTree.Blocks.{block, free_all, free_all-append}

abbrev pub qualifier_block : Option Name → List ℕ
qualifier_block none = []
qualifier_block (some q) = q.at ∷ []

-- A NULL identifier cannot be freed: neither can a list with one block twice.
abbrev pub freed_expr : Node → List ℕ
freed_expr null = []
freed_expr (integer_term a v) = a ∷ []
freed_expr (string_term a s) = (s.at ∷ []) ++ (a ∷ [])
freed_expr (identifier_term a id q n) =
    (n.at ∷ []) ++ (qualifier_block q ++ ((id ∷ []) ++ (a ∷ [])))
freed_expr (term_expr a) = a ∷ a ∷ []
freed_expr (infix_node a type l r) = freed_expr l ++ (freed_expr r ++ (a ∷ []))

abbrev pub freed_table_ref : TableRef → List ℕ
freed_table_ref t = (t.table_name.at ∷ []) ++ (t.at ∷ [])

abbrev pub freed_column_def : ColumnNode → List ℕ
freed_column_def c = (c.name.at ∷ []) ++ ((c.type.at ∷ []) ++ (c.at ∷ []))

abbrev pub freed_expr_ctx : ExprCtx → List ℕ
freed_expr_ctx e = freed_expr e.expr ++ ((e.col_name.at ∷ []) ++ (e.at ∷ []))

abbrev pub freed_name : Name → List ℕ
freed_name n = n.at ∷ []

abbrev pub freed_each : {A : Type 0} → (A → List ℕ) → List A → List ℕ
freed_each f [] = []
freed_each f (x ∷ xs) = f x ++ freed_each f xs

abbrev pub freed_content : Stmt → List ℕ
freed_content (select a exprs refs where_ unresolved) =
    freed_each freed_expr_ctx exprs.items
    ++ (freed_each freed_table_ref refs.items
        ++ (freed_expr where_ ++ (block exprs.at ++ (block refs.at ++ block unresolved.at))))
freed_content (create_table a name defs) =
    freed_each freed_column_def defs.items ++ (block defs.at ++ (name.at ∷ []))
freed_content (insert a name columns values) =
    freed_each freed_name columns.items
    ++ (freed_each freed_expr values.items
        ++ ((name.at ∷ []) ++ (block columns.at ++ block values.at)))

abbrev pub freed_stmt : Stmt → List ℕ
freed_stmt s = freed_content s ++ (block_of s ∷ [])

abbrev pub freed_stmts : ParsedSql → List ℕ
freed_stmts p =
    freed_each freed_stmt p.stmts.items
    ++ (block p.stmts.at ++ (block p.error_msg.at ++ (p.at ∷ [])))

-- A call that frees the blocks of a list, one after the other.
pub record Frees (h : Heap) (o : Option Heap) (xs : List ℕ) : Type 0 where
  pub same : o ≡ free_all h xs

one_block : (h : Heap) (a : ℕ) → free_block h a ≡ free_all h (a ∷ [])
one_block h a = elim (Option-cases (free_block h a)) [ inl e ↦ rw e refl | inr (h1, e) ↦ rw e refl ]

pub one : (h : Heap) (a : ℕ) → Frees h (free_block h a) (a ∷ [])
one h a = record { same = one_block h a }

pub chain :
    {h : Heap} {o : Option Heap} {k : Heap → Option Heap} {xs ys : List ℕ}
    → Frees h o xs
    → ((h1 : Heap) → Frees h1 (k h1) ys)
    → Frees h (o >>= k) (xs ++ ys)
chain {h} {o} {k} {xs} {ys} e f = record {
  same =
      ap (λ x. x >>= k) e.same
      ∙ ap (λ g. free_all h xs >>= g) (fun_ext (λ h1. (f h1).same))
      ∙ sym (free_all-append h xs ys);
}

pub pointer : (h : Heap) (p : Option ℕ) → Frees h (free_pointer h p) (block p)
pointer h none = record { same = refl }
pointer h (some a) = one h a

qualifier : (h : Heap) (q : Option Name) → Frees h (free_qualifier h q) (qualifier_block q)
unfolding free_qualifier
qualifier h none = record { same = refl }
qualifier h (some q) = one h q.at

twice : (h : Heap) (a : ℕ) → none ≡ free_all h (a ∷ a ∷ [])
unfolding free_block
twice h a = elim (Bool-cases (h.live a)) [ inl e ↦ rw e (ground arith) | inr e ↦ rw e refl ]

pub free_expr_lem : (h : Heap) (e : Node) → Frees h (free_expr h e) (freed_expr e)
unfolding free_expr
free_expr_lem h null = record { same = refl }
free_expr_lem h (integer_term a v) = one h a
free_expr_lem h (string_term a s) = chain (one h s.at) (λ h1. one h1 a)
free_expr_lem h (identifier_term a id q n) =
    chain (one h n.at) (λ h1. chain (qualifier h1 q) (λ h2. chain (one h2 id) (λ h3. one h3 a)))
free_expr_lem h (term_expr a) = record { same = twice h a }
free_expr_lem h (infix_node a type l r) =
    chain (free_expr_lem h l) (λ h1. chain (free_expr_lem h1 r) (λ h2. one h2 a))

pub each :
    {A : Type 0} (f : Heap → A → Option Heap) (g : A → List ℕ)
    → ((h : Heap) (x : A) → Frees h (f h x) (g x))
    → (h : Heap) (xs : List A) → Frees h (free_each f h xs) (freed_each g xs)
unfolding free_each
each f g same h [] = record { same = refl }
each f g same h (x ∷ xs) = chain (same h x) (λ h1. each f g same h1 xs)

table_ref : (h : Heap) (t : TableRef) → Frees h (free_table_ref h t) (freed_table_ref t)
unfolding free_table_ref
table_ref h t = chain (one h t.table_name.at) (λ h1. one h1 t.at)

column_def : (h : Heap) (c : ColumnNode) → Frees h (free_column_def h c) (freed_column_def c)
unfolding free_column_def
column_def h c = chain (one h c.name.at) (λ h1. chain (one h1 c.type.at) (λ h2. one h2 c.at))

expr_ctx : (h : Heap) (e : ExprCtx) → Frees h (free_expr_ctx h e) (freed_expr_ctx e)
unfolding free_expr_ctx
expr_ctx h e =
    chain (free_expr_lem h e.expr) (λ h1. chain (one h1 e.col_name.at) (λ h2. one h2 e.at))

content : (h : Heap) (s : Stmt) → Frees h (free_content h s) (freed_content s)
unfolding free_content
content h (select a exprs refs where_ unresolved) =
    chain (each free_expr_ctx freed_expr_ctx expr_ctx h exprs.items) (λ h1.
      chain (each free_table_ref freed_table_ref table_ref h1 refs.items) (λ h2.
        chain (free_expr_lem h2 where_) (λ h3.
          chain (pointer h3 exprs.at)
            (λ h4. chain (pointer h4 refs.at) (λ h5. pointer h5 unresolved.at)))))
content h (create_table a name defs) =
    chain (each free_column_def freed_column_def column_def h defs.items)
      (λ h1. chain (pointer h1 defs.at) (λ h2. one h2 name.at))
content h (insert a name columns values) =
    chain (each free_name freed_name (λ h' n. one h' n.at) h columns.items) (λ h1.
      chain (each free_expr freed_expr free_expr_lem h1 values.items) (λ h2.
        chain (one h2 name.at) (λ h3. chain (pointer h3 columns.at) (λ h4. pointer h4 values.at))))

stmt : (h : Heap) (s : Stmt) → Frees h (free_stmt h s) (freed_stmt s)
unfolding free_stmt
stmt h s = chain (content h s) (λ h1. one h1 (block_of s))

pub free_stmts_lem : (h : Heap) (p : ParsedSql) → Frees h (free_stmts h p) (freed_stmts p)
unfolding free_stmts
free_stmts_lem h p = chain (each free_stmt freed_stmt stmt h p.stmts.items) (λ h1.
    chain (pointer h1 p.stmts.at) (λ h2. chain (pointer h2 p.error_msg.at) (λ h3. one h3 p.at)))
