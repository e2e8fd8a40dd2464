-- ===== src/SyntaxTree/Freeing.antt =====
-- `free_stmts` after a parse: the heap is what it was before.
use npsql.Base.{
  ℕ, ◌≡◌, ◌∙◌, refl, ap, false, true, some, List, [], ◌∷◌, ◌++◌, ◌==◌, if◌then◌else◌, arith, All,
}
use npsql.SyntaxTree.{Heap, malloc, Vec, null_vec, Grow, vec_push, ParsedSql}
use npsql.SyntaxTree.Free.{free_stmts}
use npsql.SyntaxTree.Blocks.{
  count, count_append, block, Bounded, Adds-none, Adds-perm, Adds-malloc, Adds-free, Grows,
}
use npsql.SyntaxTree.Freed.{freed_each, freed_stmt, freed_stmts, free_stmts_lem}
use npsql.SyntaxTree.Parse.{Query, reduce_stmts, parse_sql}
use npsql.SyntaxTree.Owned.{Owns}
use npsql.SyntaxTree.Lists.{held, push-Owns}
use npsql.SyntaxTree.Stmts.{Few, reduce_stmt-Owns}

-- The blocks of a query that is parsed, around the identifiers that are to be resolved.
abbrev Parsed : Heap → Heap → ParsedSql → ℕ → Type 0
Parsed h0 h p a =
    (p.at ≡ a)
    × (p.error_msg ≡ null_vec)
    × Owns h0 (h, p.unresolved) (held freed_stmt p.stmts ++ (a ∷ []))

module _ (grow : Grow) (law : Grows grow) (h0 : Heap) where
  reduce_stmts-Parsed :
      (h : Heap) (p : ParsedSql) (qs : List Query) (a : ℕ)
      → All Few qs
      → Parsed h0 h p a
      → (h' : Heap) × (p' : ParsedSql) × (reduce_stmts grow h p qs ≡ some (h', p'))
        × Parsed h0 h' p' a
  unfolding reduce_stmts
  reduce_stmts-Parsed h p [] a few parsed = (h, p, refl, parsed)
  reduce_stmts-Parsed h p (q ∷ qs) a (f, few) (at, no_error, d) =
      let (s, t, e, d1) = reduce_stmt-Owns grow law h0 (h, p.unresolved) q _ f d in
      let r = vec_push grow s.0 p.stmts t in
      let d2 = push-Owns grow law h0 freed_stmt s p.stmts t (a ∷ []) d1 in
      let (h', p', e', parsed) =
        reduce_stmts-Parsed r.0 (record p { stmts = r.1; unresolved = s.1 }) qs a few
          (at, no_error, d2) in
      (h', p', rw e e', parsed)

count-freed_stmts :
    (p : ParsedSql) (a x : ℕ)
    → p.at ≡ a
    → p.error_msg ≡ null_vec
    → count x (block p.unresolved.at ++ (held freed_stmt p.stmts ++ (a ∷ [])))
      ≡ count x (freed_stmts p ++ block p.unresolved.at)
count-freed_stmts p a x at no_error =
    let stmts = freed_each freed_stmt p.stmts.items in
    let own : block p.error_msg.at ≡ [] = ap (λ (v : Vec ℕ). block v.at) no_error in
    let last : count x (p.at ∷ []) ≡ count x (a ∷ []) = ap (λ y. count x (y ∷ [])) at in
    omega (
      arith,
      last,
      ap (λ xs. count x xs) own,
      count_append x (block p.unresolved.at) (held freed_stmt p.stmts ++ (a ∷ [])),
      count_append x (held freed_stmt p.stmts) (a ∷ []),
      count_append x (block p.stmts.at) stmts,
      count_append x (freed_stmts p) (block p.unresolved.at),
      count_append x stmts (block p.stmts.at ++ (block p.error_msg.at ++ (p.at ∷ []))),
      count_append x (block p.stmts.at) (block p.error_msg.at ++ (p.at ∷ [])),
      count_append x (block p.error_msg.at) (p.at ∷ []),
    )

-- Over vectors that keep their block or move to one that is not allocated, from a heap whose blocks
-- were given out: a query without a syntax error, whose SELECTs have at most 99 expressions each, is
-- parsed, and free_stmts then returns, no block being freed twice; all that the parse allocated is
-- freed but the block of the identifiers that no SELECT with FROM took over, where there is one, and
-- no block from before is freed.
pub parse_sql-free_stmts :
    (grow : Grow) (h : Heap) (qs : List Query)
    → Grows grow
    → Bounded h
    → All Few qs
    → (h1 : Heap) × (parsed : ParsedSql) × (h2 : Heap) × (parse_sql grow h qs ≡ some (h1, parsed))
      × (free_stmts h1 parsed ≡ some h2)
      × ((a : ℕ)
          → h2.live a ≡ (if count a (block parsed.unresolved.at) == 0 then h.live a else true))
unfolding parse_sql
parse_sql-free_stmts grow h qs law bounded few =
    let start : ParsedSql = record {
      at = h.next;
      stmts = null_vec;
      error_msg = null_vec;
      unresolved = null_vec;
      error = false;
    } in
    let (h1, p, e, parsed) =
      reduce_stmts-Parsed grow law h (malloc h).0 start qs h.next few
        (refl, refl, Adds-malloc h h [] (Adds-none h bounded)) in
    let (at, no_error, d) = parsed in
    let (h2, e2, live) =
      Adds-free h h1 (freed_stmts p) (block p.unresolved.at)
        (Adds-perm h h1 _ _ (λ x. count-freed_stmts p h.next x at no_error) d) in
    (h1, p, h2, e, (free_stmts_lem h1 p).same ∙ e2, live)
