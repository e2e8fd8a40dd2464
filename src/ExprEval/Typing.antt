-- ===== src/ExprEval/Typing.antt =====
-- The types that the planner gives to expressions, and the types of the values that evaluation gives.
use npsql.Base.{◌≡◌, ◌≢◌, refl, some, List}
use npsql.Base.Int.{ℤ}
use npsql.Sql.{
  NpsqlType, type_unknown, type_int, type_bool, Identifier, InfixOp, expr_add, expr_sub, expr_mul,
  expr_div, expr_equ, expr_and, expr_or, Expr, expr_integer, expr_idenifier, infix_expr, PlanColumn,
}
use npsql.Planner.{lookup, resolve_type, infix_type}

-- Arithmetic on ints, equality of ints, and connectives on Booleans.
pub data OpType : InfixOp → NpsqlType → NpsqlType → Type 0 where
  add : OpType expr_add type_int type_int
  sub : OpType expr_sub type_int type_int
  mul : OpType expr_mul type_int type_int
  div : OpType expr_div type_int type_int
  equ : OpType expr_equ type_int type_bool
  or_ : OpType expr_or type_bool type_bool
  and_ : OpType expr_and type_bool type_bool

-- `HasType schema e t`: every operand has the type that its operator computes with.
pub data HasType (schema : List PlanColumn) : Expr → NpsqlType → Type 0 where
  integer : (n : ℤ) → HasType schema (expr_integer n) type_int
  column :
      (id : Identifier) (c : PlanColumn)
      → lookup schema id ≡ some c
      → c.type ≢ type_unknown
      → HasType schema (expr_idenifier id) c.type
  infix_ :
      {op : InfixOp} {l r : Expr} {t u : NpsqlType}
      → OpType op t u
      → HasType schema l t
      → HasType schema r t
      → HasType schema (infix_expr op l r) u

infix_type-OpType : {op : InfixOp} {t u : NpsqlType} → OpType op t u → infix_type op t t ≡ u
infix_type-OpType add = refl
infix_type-OpType sub = refl
infix_type-OpType mul = refl
infix_type-OpType div = refl
infix_type-OpType equ = refl
infix_type-OpType or_ = refl
infix_type-OpType and_ = refl

-- The planner gives an expression of type `t`, whose operands have the types that their operators
-- compute with, the type `t`.
pub resolve_type-HasType :
    {schema : List PlanColumn} {e : Expr} {t : NpsqlType}
    → HasType schema e t
    → (resolve_type e schema).type ≡ t
unfolding resolve_type
resolve_type-HasType (integer n) = refl
resolve_type-HasType (column id c found known) = rw found
resolve_type-HasType (infix_ op l r) =
    rw (resolve_type-HasType l, resolve_type-HasType r) (infix_type-OpType op)
