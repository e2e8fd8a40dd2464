-- ===== src/ExprEval/Soundness.antt =====
-- Well-typed expressions evaluate to what they mean.
use mathlib.Core.Option
use npsql.Base.{◌≡◌, ◌≢◌, refl, Bool, true, false, ◌&&◌, ◌||◌, Option, none, some, List}
use npsql.Base.Int.{ℤ, ◌+ℤ◌, ◌-ℤ◌, ◌*ℤ◌, eq_ℤ}
use npsql.Sql.{
  Str, NpsqlType, type_unknown, type_int, type_char, type_bool, type_eq, Identifier, InfixOp,
  expr_add, expr_sub, expr_mul, expr_div, expr_equ, expr_and, expr_or, Expr, expr_integer,
  expr_string, expr_idenifier, infix_expr, Union, number, string, boolean, Value, PlanColumn,
}
use npsql.ExprEval.{eval, do_op, int_result, div_result, int_value, known_or_unknown, ◌>>=◌}
use npsql.Planner.{lookup, resolve_type}
use npsql.ExprEval.Typing.{
  OpType, add, sub, mul, div, equ, or_, and_, HasType, integer, column, infix_,
}

-- What an expression means, with no types and no union: `none` where C leaves it undefined, or where
-- the operands are of the wrong kind.
abbrev pub number_of : Option ℤ → Option Union
number_of none = none
number_of (some n) = some (number n)

abbrev pub op_meaning : InfixOp → Union → Union → Option Union
op_meaning expr_add (number a) (number b) = number_of (int_result (a +ℤ b))
op_meaning expr_sub (number a) (number b) = number_of (int_result (a -ℤ b))
op_meaning expr_mul (number a) (number b) = number_of (int_result (a *ℤ b))
op_meaning expr_div (number a) (number b) = number_of (div_result a b)
op_meaning expr_equ (number a) (number b) = some (boolean (eq_ℤ a b))
op_meaning expr_or (boolean a) (boolean b) = some (boolean (a || b))
op_meaning expr_and (boolean a) (boolean b) = some (boolean (a && b))
op_meaning _ _ _ = none

abbrev pub meaning : (Identifier → Value) → Expr → Option Union
meaning row (expr_integer n) = some (number n)
meaning row (expr_string s) = some (string s)
meaning row (expr_idenifier id) = some (row id).as_
meaning row (infix_expr op l r) = do a ← meaning row l; b ← meaning row r; op_meaning op a b

-- A union that holds the member of its type.
abbrev pub Member : NpsqlType → Union → Type 0
Member type_int u = (n : ℤ) × (u ≡ number n)
Member type_bool u = (b : Bool) × (u ≡ boolean b)
Member type_char u = (s : Str) × (u ≡ string s)
Member type_unknown u = ⊥

-- The row gives each column of the schema a value of the column's type.
abbrev pub RowFits : List PlanColumn → (Identifier → Value) → Type 0
RowFits schema row =
    (id : Identifier) (c : PlanColumn)
    → lookup schema id ≡ some c
    → ((row id).type ≡ c.type) × (c.type ≢ type_unknown → Member c.type (row id).as_)

-- An outcome of `eval` of type `t` beside what the expression means.
abbrev pub Sound : NpsqlType → Option Value → Option Union → Type 0
Sound t none none = Unit
Sound t none (some u) = ⊥
Sound t (some v) none = ⊥
Sound t (some v) (some u) = (v.type ≡ t) × (v.as_ ≡ u) × Member t u

module _ (garbage : Union → ℤ) (garbage_bool : Union → Bool) where
  int_value-Sound :
      (o : Option ℤ) → Sound type_int (int_value o >>= λ v. some (known_or_unknown v)) (number_of o)
  int_value-Sound none = tt
  int_value-Sound (some n) = (refl, refl, (n, refl))

  op-Sound :
      {op : InfixOp} {t u : NpsqlType} (o : OpType op t u) (a b : Value) (x y : Union)
      → Sound t (some a) (some x)
      → Sound t (some b) (some y)
      → Sound u
          (do_op garbage garbage_bool op a b >>= λ v. some (known_or_unknown v))
          (op_meaning op x y)
  unfolding do_op
  op-Sound add a b x y (ta, ea, (m, ex)) (tb, eb, (n, ey)) =
      rw (ea, eb, ex, ey) (int_value-Sound (int_result (m +ℤ n)))
  op-Sound sub a b x y (ta, ea, (m, ex)) (tb, eb, (n, ey)) =
      rw (ea, eb, ex, ey) (int_value-Sound (int_result (m -ℤ n)))
  op-Sound mul a b x y (ta, ea, (m, ex)) (tb, eb, (n, ey)) =
      rw (ea, eb, ex, ey) (int_value-Sound (int_result (m *ℤ n)))
  op-Sound div a b x y (ta, ea, (m, ex)) (tb, eb, (n, ey)) =
      rw (ea, eb, ex, ey) (int_value-Sound (div_result m n))
  op-Sound equ a b x y (ta, ea, (m, ex)) (tb, eb, (n, ey)) =
      rw (ta, ea, eb, ex, ey) (refl, refl, (eq_ℤ m n, refl))
  op-Sound or_ a b x y (ta, ea, (m, ex)) (tb, eb, (n, ey)) =
      rw (ta, tb, ea, eb, ex, ey) (refl, refl, (m || n, refl))
  op-Sound and_ a b x y (ta, ea, (m, ex)) (tb, eb, (n, ey)) =
      rw (ta, tb, ea, eb, ex, ey) (refl, refl, (m && n, refl))

  infix-Sound :
      {op : InfixOp} {t u : NpsqlType} (o : OpType op t u) (rl rr : Option Value)
      (ml mr : Option Union)
      → Sound t rl ml
      → Sound t rr mr
      → Sound u
          (rl >>= λ a.
            rr >>= λ b. do_op garbage garbage_bool op a b >>= λ v. some (known_or_unknown v))
          (ml >>= λ x. mr >>= λ y. op_meaning op x y)
  infix-Sound o none rr none mr sl sr = tt
  infix-Sound o none rr (some x) mr sl sr = elim sl [ ]
  infix-Sound o (some a) rr none mr sl sr = elim sl [ ]
  infix-Sound o (some a) none (some x) none sl sr = tt
  infix-Sound o (some a) none (some x) (some y) sl sr = elim sr [ ]
  infix-Sound o (some a) (some b) (some x) none sl sr = elim sr [ ]
  infix-Sound o (some a) (some b) (some x) (some y) sl sr = op-Sound o a b x y sl sr

  -- On a row that fits the schema, a well-typed expression evaluates to a value of its type that holds
  -- what the expression means, is undefined only where the meaning is, and reads no union as another
  -- member than it holds.
  pub eval-meaning :
      {schema : List PlanColumn} {e : Expr} {t : NpsqlType} (row : Identifier → Value)
      → RowFits schema row
      → HasType schema e t
      → Sound t (eval garbage garbage_bool e row) (meaning row e)
  unfolding eval
  eval-meaning row fits (integer n) = (refl, refl, (n, refl))
  eval-meaning row fits (column id c found known) =
      ((fits id c found).0, refl, (fits id c found).1 known)
  eval-meaning row fits (infix_ op l r) =
      infix-Sound op _ _ _ _ (eval-meaning row fits l) (eval-meaning row fits r)

  -- What passes the planner's check of an equality beyond that: two operands of one type that is not
  -- int, two unknown columns among them. The planner calls it Boolean, and its value has no type.
  pub equ-type_unknown :
      (schema : List PlanColumn) (row : Identifier → Value) (l r : Expr) (a b : Value)
      → type_eq (resolve_type l schema).type (resolve_type r schema).type ≡ true
      → eval garbage garbage_bool l row ≡ some a
      → eval garbage garbage_bool r row ≡ some b
      → type_eq a.type type_int ≡ false
      → ((resolve_type (infix_expr expr_equ l r) schema).type ≡ type_bool)
        × (Option.map
              (λ (v : Value). v.type)
              (eval garbage garbage_bool (infix_expr expr_equ l r) row)
            ≡ some type_unknown)
  unfolding eval do_op resolve_type
  equ-type_unknown schema row l r a b same el er not_int = (rw same, rw (el, er, not_int))
