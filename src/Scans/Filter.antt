-- ===== src/Scans/Filter.antt =====
-- A select scan yields the rows on which its condition is true, in order.
use npsql.Base.{
  ℕ, zero, suc, ◌≤◌, ◌<◌, ◌≡◌, ◌⊎◌, inl, inr, refl, Bool, true, false, Bool-cases, Option, none,
  some, List, [], ◌∷◌, length, arith, if◌then◌else◌,
}
use npsql.Base.Int.{ℤ}
use npsql.Sql.{Expr, Union, Value}
use npsql.ExprEval.{eval}
use npsql.Scans.{Row, Scan, is_true, select_scan_next, select_scan}
use npsql.Scans.Product.{Yields, done, more}

module _ (garbage : Union → ℤ) (garbage_bool : Union → Bool) (where_clause : Expr) where
  -- The condition has a value on every row.
  abbrev pub Defined : List Row → Type 0
  Defined [] = Unit {0}
  Defined (r ∷ rows) =
      ((v : Value) × (eval garbage garbage_bool where_clause r ≡ some v)) × Defined rows

  abbrev pub is_kept : Option Value → Bool
  is_kept none = false
  is_kept (some v) = is_true garbage garbage_bool v

  abbrev pub kept_rows : List Row → List Row
  kept_rows [] = []
  kept_rows (r ∷ rows) =
      if is_kept (eval garbage garbage_bool where_clause r)
      then r ∷ kept_rows rows
      else kept_rows rows

module _ (garbage : Union → ℤ) (garbage_bool : Union → Bool) {S : Type 0} (inner : Scan S)
    (where_clause : Expr) where
  abbrev kept : List Row → List Row
  kept = kept_rows garbage garbage_bool where_clause

  abbrev AllDefined : List Row → Type 0
  AllDefined = Defined garbage garbage_bool where_clause

  abbrev NextKept : ℕ → S → List Row → Type 0
  NextKept n s rows =
      ((s' : S) × (select_scan_next garbage garbage_bool inner where_clause n s ≡ some (false, s'))
        × (kept rows ≡ []))
      ⊎ ((s' : S) × (rest : List Row) × (select_scan_next garbage garbage_bool inner where_clause n
              s
            ≡ some (true, s'))
          × Yields inner s' rest
          × AllDefined rest
          × (length rest < length rows)
          × (kept rows ≡ inner.get_value s' ∷ kept rest))

  -- The loop stops at the next row that is kept, or where the rows end.
  next_kept :
      (n : ℕ) (s : S) (rows : List Row)
      → Yields inner s rows
      → AllDefined rows
      → length rows < n
      → NextKept n s rows
  unfolding select_scan_next
  next_kept zero s rows y d h = absurd (omega arith)
  next_kept (suc n) s [] (done s' e) d h = inl (s', rw e, refl)
  next_kept (suc n) s (r ∷ rows) (more s' e y) ((v, has_value), d) h =
      elim (Bool-cases (is_true garbage garbage_bool v)) [
        | inl holds ↦
            inr (s', rows, rw (e, has_value, holds), y, d, omega arith, rw (has_value, holds))
        | inr dropped ↦ elim (next_kept n s' rows y d (omega arith)) [
          | inl (u, ends, none_kept) ↦
              inl (u, rw (e, has_value, dropped) ends, rw (has_value, dropped) none_kept)
          | inr (u, rest, found, y', d', shorter, found_kept) ↦ inr (
            u,
            rest,
            rw (e, has_value, dropped) found,
            y',
            d',
            omega arith,
            rw (has_value, dropped) found_kept,
          )
        ]
      ]

  kept-Yields :
      (fuel m : ℕ) (s : S) (rows : List Row)
      → Yields inner s rows
      → AllDefined rows
      → length rows < m
      → m ≤ fuel
      → Yields (select_scan garbage garbage_bool inner where_clause fuel) s (kept rows)
  unfolding select_scan
  kept-Yields fuel zero s rows y d h enough = absurd (omega arith)
  kept-Yields fuel (suc m) s rows y d h enough = elim (next_kept fuel s rows y d (omega arith)) [
    | inl (u, ends, none_kept) ↦ rw none_kept (done u ends)
    | inr (u, rest, found, y', d', shorter, found_kept) ↦
        rw found_kept (more u found (kept-Yields fuel m u rest y' d' (omega arith) (omega arith)))
  ]

  -- Over a scan that yields rows, on each of which the condition has a value, and on fuel beyond their
  -- number, a select scan yields the rows on which the condition is true, in order.
  pub select_scan-Yields :
      (fuel : ℕ) (s : S) (rows : List Row)
      → Yields inner s rows
      → Defined garbage garbage_bool where_clause rows
      → length rows < fuel
      → Yields
          (select_scan garbage garbage_bool inner where_clause fuel)
          s
          (kept_rows garbage garbage_bool where_clause rows)
  select_scan-Yields fuel s rows y d enough = kept-Yields fuel fuel s rows y d enough (omega arith)
