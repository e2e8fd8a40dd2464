-- ===== src/Tests/Trees.antt =====
-- server/src/sql.c: a CREATE TABLE, an INSERT and a SELECT on an empty heap, over vectors that move at
-- each push.
use npsql.Base.{
  ℕ, ◌+◌, ◌≡◌, ◌<◌, ◌≤◌, true, false, Option, none, some, List, [], ◌∷◌, inr, put_at, if◌then◌else◌,
  ◌==◌, arith, ℕ_discrete,
}
use npsql.Base.Int.{pos}
use npsql.Sql.{type_int, type_char, expr_integer, expr_idenifier, infix_expr, expr_equ}
use npsql.SyntaxTree.{Heap, Grow, strdup, generate_name, column_name, ParsedSql}
use npsql.Plans.Memory.{PlanBlocks, allocate_select_stmt_plan, allocate_get_columns, free_plan}
use npsql.Plans.Freeing.{select_plan-free_plan}
use npsql.SyntaxTree.Free.{free_stmts}
use npsql.SyntaxTree.Blocks.{count, block, Bounded, Grows}
use npsql.SyntaxTree.Names.{generate_name-fits}
use npsql.SyntaxTree.Parse.{Query, select_from, create, insert_into, parse_sql}
use npsql.SyntaxTree.Freeing.{parse_sql-free_stmts}

abbrev empty_heap : Heap
empty_heap = record { next = 0; live = λ _. false }

-- A vector that always moves to a new block.
abbrev moving : Grow
moving h none n = (record { next = h.next + 1; live = put_at h.live h.next true }, h.next)
moving h (some a) n =
    (record { next = h.next + 1; live = put_at (put_at h.live a false) h.next true }, h.next)

dead_next : (h : Heap) → Bounded h → h.live h.next ≡ false
dead_next h b = ground (arith, b h.next)

moving-Bounded :
    (h : Heap) (v : Option ℕ) (n a : ℕ)
    → Bounded h
    → (moving h v n).0.live a ≡ true
    → a < h.next + 1
moving-Bounded h none n a b e = elim (ℕ_discrete a h.next) [
  | yes same ↦ omega arith
  | no ne ↦ ground (arith, b a)
]
moving-Bounded h (some c) n a b e = elim (ℕ_discrete a h.next) [
  | yes same ↦ omega arith
  | no ne ↦ ground (arith, b a)
]

moving-Grows : Grows moving
moving-Grows h none n b held = record {
  bounded = λ a e. ground (arith, moving-Bounded h none n a b e);
  moved = inr (dead_next h b);
  live = λ a. ground arith;
}
moving-Grows h (some c) n b held = record {
  bounded = λ a e. ground (arith, moving-Bounded h (some c) n a b e);
  moved = inr (dead_next h b);
  live = λ a. ground arith;
}

-- CREATE TABLE t (a INT, b CHAR(8)); INSERT INTO t (a) VALUES (7); SELECT *, b FROM t WHERE t.a = 7;
abbrev queries : List Query
queries =
    create (116 ∷ []) (97 ∷ [], type_int, 4) ((98 ∷ [], type_char, 8) ∷ [])
    ∷ (insert_into (116 ∷ []) (97 ∷ []) [] (expr_integer (pos 7)) []
        ∷ (select_from none
              (some (expr_idenifier (record { qualifier = none; name = 98 ∷ [] })) ∷ []) (116 ∷ [])
              []
              (some (
                infix_expr expr_equ
                  (expr_idenifier (record { qualifier = some (116 ∷ []); name = 97 ∷ [] }))
                  (expr_integer (pos 7))))
            ∷ []))

parse_sql-free_stmts_example :
    (h1 : Heap) × (parsed : ParsedSql) × (h2 : Heap) × (parse_sql moving empty_heap queries
      ≡ some (h1, parsed))
    × (free_stmts h1 parsed ≡ some h2)
    × ((a : ℕ) → h2.live a ≡ (if count a (block parsed.unresolved.at) == 0 then false else true))
parse_sql-free_stmts_example =
    parse_sql-free_stmts moving empty_heap queries moving-Grows (λ a e. absurd (cc e))
      (tt, (tt, (omega arith, tt)))

generate_name-fits_example :
    (98 < 99 → generate_name empty_heap 98 ≡ some (strdup empty_heap (column_name 99)))
    × (99 ≤ 98 → generate_name empty_heap 98 ≡ none)
generate_name-fits_example = generate_name-fits empty_heap 98

-- A SELECT with a condition over a table of two columns and one of three.
select_plan-free_plan_example :
    (h1 : Heap) × (p : PlanBlocks) × (h2 : Heap) × (p' : PlanBlocks) × (cs : List ℕ)
    × (allocate_select_stmt_plan moving empty_heap (2 ∷ (3 ∷ [])) true ≡ some (h1, p))
    × ((h' : Heap) × (free_plan h1 p ≡ some h') × ((a : ℕ) → h'.live a ≡ false))
    × (allocate_get_columns moving h1 p ≡ some (h2, p', cs))
    × ((h' : Heap) × (free_plan h2 p' ≡ some h') × ((a : ℕ) → h'.live a ≡ false))
select_plan-free_plan_example =
    select_plan-free_plan moving empty_heap 2 (3 ∷ []) true moving-Grows (λ a e. absurd (cc e))
