-- ===== src/Scans/Product.antt =====
-- A product scan yields the product of its scans' rows, the right scan's the fastest.
use npsql.Base.{subst, ◌⊎◌, inl, inr, ◌≡◌, refl, sym, true, false, some, List, [], ◌∷◌, ◌++◌, map}
use npsql.Scans.{
  Row, Scan, ProductState, product_value, product_scan_next, product_scan, new_product_scan,
}

-- The rows that calls of `next` bring up, until one returns false.
pub data Yields {S : Type 0} (scan : Scan S) : S → List Row → Type 0 where
  done : {s : S} (s' : S) → scan.next s ≡ some (false, s') → Yields scan s []
  more :
      {s : S} (s' : S) {rows : List Row}
      → scan.next s ≡ some (true, s')
      → Yields scan s' rows
      → Yields scan s (scan.get_value s' ∷ rows)

-- A scan that yields `rows` whenever it is reset.
abbrev pub Restarts : {S : Type 0} → Scan S → List Row → Type 0
Restarts {S} scan rows = (s : S) → Yields scan (scan.reset s) rows

abbrev pub product_rows : List Row → List Row → List Row
product_rows [] rs = []
product_rows (l ∷ ls) rs = map (product_value l) rs ++ product_rows ls rs

product_rows-nil : (ls : List Row) → product_rows ls [] ≡ []
product_rows-nil [] = refl
product_rows-nil (l ∷ ls) = product_rows-nil ls

-- The first call of `next`.
abbrev First : {S : Type 0} → Scan S → S → List Row → Type 0
First {S} scan s rows =
    ((s' : S) × (scan.next s ≡ some (false, s')) × (rows ≡ []))
    ⊎ ((s' : S) × (rest : List Row) × (scan.next s ≡ some (true, s'))
        × Yields scan s' rest
        × (rows ≡ scan.get_value s' ∷ rest))

Yields-First :
    {S : Type 0} (scan : Scan S) (s : S) (rows : List Row) → Yields scan s rows → First scan s rows
Yields-First scan s [] (done s' e) = inl (s', e, refl)
Yields-First scan s (r ∷ rows) (more s' e y) = inr (s', rows, e, y, refl)

module _ {S T : Type 0} (left : Scan S) (right : Scan T) (rs : List Row)
    (restarts : Restarts right rs) where
  -- With the right scan at its end, the rows of the left scan's rest.
  abbrev Ended : List Row → Type 0
  Ended ls =
      (s : S) (t t' : T)
      → Yields left s ls
      → right.next t ≡ some (false, t')
      → Yields (product_scan left right) (record { l = s; r = t; primed = true })
          (product_rows ls rs)

  -- With the left scan on a row, that row beside the right scan's rest comes first.
  Ended-on_row :
      (ls : List Row)
      → Ended ls
      → (s : S) (t : T) (qs : List Row) → Yields left s ls
      → Yields right t qs
      → Yields
          (product_scan left right)
          (record { l = s; r = t; primed = true })
          (map (product_value (left.get_value s)) qs ++ product_rows ls rs)
  unfolding product_scan product_scan_next
  Ended-on_row ls ended s t [] yl (done t' e) = ended s t t' yl e
  Ended-on_row ls ended s t (q ∷ qs) yl (more t' e yr) =
      more (record { l = s; r = t'; primed = true }) (rw e) (Ended-on_row ls ended s t' qs yl yr)

  ended : (ls : List Row) → Ended ls
  unfolding product_scan product_scan_next
  ended [] s t t' (done s' el) e = elim (Yields-First right (right.reset t') rs (restarts t')) [
    | inl (u, er, none_left) ↦ done (record { l = s; r = u; primed = true }) (rw (e, er))
    | inr (u, qs, er, y, some_left) ↦
        done (record { l = s'; r = u; primed = true }) (rw (e, er, el))
  ]
  ended (l ∷ ls) s t t' (more s' el yl) e =
      elim (Yields-First right (right.reset t') rs (restarts t')) [
        | inl (u, er, none_left) ↦
            rw (none_left, product_rows-nil ls)
              (done (record { l = s; r = u; primed = true }) (rw (e, er)))
        | inr (u, qs, er, y, some_left) ↦
            subst
              (λ (xs : List Row).
                Yields (product_scan left right) (record { l = s; r = t; primed = true })
                  (map (product_value (left.get_value s')) xs ++ product_rows ls rs))
              (sym some_left)
              (more (record { l = s'; r = u; primed = true }) (rw (e, er, el))
                (Ended-on_row ls (ended ls) s' u qs yl y))
      ]

  -- Over a left scan that yields `ls` and a right scan that yields `rs`, now and whenever it is reset,
  -- a new product scan yields every row of `ls` beside every row of `rs`, the left's order first.
  pub new_product_scan-Yields :
      (s : S) (t : T) (ls : List Row)
      → Yields left s ls
      → Yields right t rs
      → (p : ProductState S T) × (new_product_scan left right s t ≡ some p)
        × Yields (product_scan left right) p (product_rows ls rs)
  unfolding new_product_scan product_scan product_scan_next
  new_product_scan-Yields s t [] (done s' e) yr = (
    record { l = s'; r = t; primed = false },
    rw e,
    done (record { l = s'; r = t; primed = false }) refl,
  )
  new_product_scan-Yields s t (l ∷ ls) (more s' e yl) yr =
      (record { l = s'; r = t; primed = true }, rw e, Ended-on_row ls (ended ls) s' t rs yl yr)
