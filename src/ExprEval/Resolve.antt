-- ===== src/ExprEval/Resolve.antt =====
-- server/src/planner.c, resolve_type: the type that each expression is given, by rules.
use npsql.Base.{
  ◌≡◌, ◌≢◌, ◌⊎◌, ◌↔◌, inl, inr, refl, sym, subst, true, false, Option, none, some, List,
}
use npsql.Base.Int.{ℤ}
use npsql.Sql.{
  Str, NpsqlType, type_unknown, type_int, type_char, type_bool, type_eq, Identifier, InfixOp,
  expr_add, expr_sub, expr_mul, expr_div, expr_equ, expr_and, expr_or, Expr, expr_integer,
  expr_string, expr_idenifier, infix_expr, PlanColumn,
}
use npsql.Planner.{lookup, resolve_type, infix_type, found_column}

-- `Accepts op t u v`: on operands of types `t` and `u` the operator gives a `v`. Arithmetic and equality
-- take two operands of one type, whichever it is, and the connectives two Booleans.
pub data Accepts : InfixOp → NpsqlType → NpsqlType → NpsqlType → Type 0 where
  add : {t : NpsqlType} → Accepts expr_add t t t
  sub : {t : NpsqlType} → Accepts expr_sub t t t
  mul : {t : NpsqlType} → Accepts expr_mul t t t
  div : {t : NpsqlType} → Accepts expr_div t t t
  equ : {t : NpsqlType} → Accepts expr_equ t t type_bool
  or_ : Accepts expr_or type_bool type_bool type_bool
  and_ : Accepts expr_and type_bool type_bool type_bool

-- `Gives schema e t`: by the schema, the expression has the type `t`, which is unknown for a column that
-- is not there and for operands that the operator does not accept.
pub data Gives (schema : List PlanColumn) : Expr → NpsqlType → Type 0 where
  integer : (n : ℤ) → Gives schema (expr_integer n) type_int
  text : (x : Str) → Gives schema (expr_string x) type_char
  column :
      (id : Identifier) (c : PlanColumn)
      → lookup schema id ≡ some c
      → Gives schema (expr_idenifier id) c.type
  missing :
      (id : Identifier) → lookup schema id ≡ none → Gives schema (expr_idenifier id) type_unknown
  accepted :
      {op : InfixOp} {l r : Expr} {t u v : NpsqlType}
      → Accepts op t u v
      → Gives schema l t
      → Gives schema r u
      → Gives schema (infix_expr op l r) v
  refused :
      {op : InfixOp} {l r : Expr} {t u : NpsqlType}
      → ((v : NpsqlType) → ¬ Accepts op t u v)
      → Gives schema l t
      → Gives schema r u
      → Gives schema (infix_expr op l r) type_unknown

types_decided :
    (t u : NpsqlType) → ((t ≡ u) × (type_eq t u ≡ true)) ⊎ ((t ≢ u) × (type_eq t u ≡ false))
types_decided type_unknown type_unknown = inl (refl, refl)
types_decided type_unknown type_int = inr ((λ e. absurd cc), refl)
types_decided type_unknown type_char = inr ((λ e. absurd cc), refl)
types_decided type_unknown type_bool = inr ((λ e. absurd cc), refl)
types_decided type_int type_unknown = inr ((λ e. absurd cc), refl)
types_decided type_int type_int = inl (refl, refl)
types_decided type_int type_char = inr ((λ e. absurd cc), refl)
types_decided type_int type_bool = inr ((λ e. absurd cc), refl)
types_decided type_char type_unknown = inr ((λ e. absurd cc), refl)
types_decided type_char type_int = inr ((λ e. absurd cc), refl)
types_decided type_char type_char = inl (refl, refl)
types_decided type_char type_bool = inr ((λ e. absurd cc), refl)
types_decided type_bool type_unknown = inr ((λ e. absurd cc), refl)
types_decided type_bool type_int = inr ((λ e. absurd cc), refl)
types_decided type_bool type_char = inr ((λ e. absurd cc), refl)
types_decided type_bool type_bool = inl (refl, refl)

-- What is known of operands that an operator accepts.
abbrev Operands : InfixOp → NpsqlType → NpsqlType → Type 0
Operands expr_or t u = (t ≡ type_bool) × (u ≡ type_bool)
Operands expr_and t u = (t ≡ type_bool) × (u ≡ type_bool)
Operands expr_add t u = t ≡ u
Operands expr_sub t u = t ≡ u
Operands expr_mul t u = t ≡ u
Operands expr_div t u = t ≡ u
Operands expr_equ t u = t ≡ u

accepted_operands : {op : InfixOp} {t u v : NpsqlType} → Accepts op t u v → Operands op t u
accepted_operands add = refl
accepted_operands sub = refl
accepted_operands mul = refl
accepted_operands div = refl
accepted_operands equ = refl
accepted_operands or_ = (refl, refl)
accepted_operands and_ = (refl, refl)

type_eq_self : (t : NpsqlType) → type_eq t t ≡ true
type_eq_self t = elim (types_decided t t) [
  | inl (e, same) ↦ same
  | inr (ne, other) ↦ absurd (ne refl)
]

infix_type-Accepts : {op : InfixOp} {t u v : NpsqlType} → Accepts op t u v → infix_type op t u ≡ v
infix_type-Accepts (add {t}) = rw (type_eq_self t) refl
infix_type-Accepts (sub {t}) = rw (type_eq_self t) refl
infix_type-Accepts (mul {t}) = rw (type_eq_self t) refl
infix_type-Accepts (div {t}) = rw (type_eq_self t) refl
infix_type-Accepts (equ {t}) = rw (type_eq_self t) refl
infix_type-Accepts or_ = refl
infix_type-Accepts and_ = refl

infix_type-decided :
    (op : InfixOp) (t u : NpsqlType)
    → Accepts op t u (infix_type op t u)
      ⊎ ((infix_type op t u ≡ type_unknown) × ((v : NpsqlType) → ¬ Accepts op t u v))
infix_type-decided expr_add t u = elim (types_decided t u) [
  | inl (e, same) ↦ inl (rw (same, e) add)
  | inr (ne, other) ↦ inr (rw other refl, λ v a. ne (accepted_operands a))
]
infix_type-decided expr_sub t u = elim (types_decided t u) [
  | inl (e, same) ↦ inl (rw (same, e) sub)
  | inr (ne, other) ↦ inr (rw other refl, λ v a. ne (accepted_operands a))
]
infix_type-decided expr_mul t u = elim (types_decided t u) [
  | inl (e, same) ↦ inl (rw (same, e) mul)
  | inr (ne, other) ↦ inr (rw other refl, λ v a. ne (accepted_operands a))
]
infix_type-decided expr_div t u = elim (types_decided t u) [
  | inl (e, same) ↦ inl (rw (same, e) div)
  | inr (ne, other) ↦ inr (rw other refl, λ v a. ne (accepted_operands a))
]
infix_type-decided expr_equ t u = elim (types_decided t u) [
  | inl (e, same) ↦ inl (rw (same, e) equ)
  | inr (ne, other) ↦ inr (rw other refl, λ v a. ne (accepted_operands a))
]
infix_type-decided expr_or t u = elim (types_decided t type_bool) [
  | inl (e, left) ↦ elim (types_decided u type_bool) [
    | inl (e', right) ↦ inl (rw (left, right, e, e') or_)
    | inr (ne, right) ↦ inr (rw (left, right) refl, λ v a. ne (accepted_operands a).1)
  ]
  | inr (ne, left) ↦ inr (rw left refl, λ v a. ne (accepted_operands a).0)
]
infix_type-decided expr_and t u = elim (types_decided t type_bool) [
  | inl (e, left) ↦ elim (types_decided u type_bool) [
    | inl (e', right) ↦ inl (rw (left, right, e, e') and_)
    | inr (ne, right) ↦ inr (rw (left, right) refl, λ v a. ne (accepted_operands a).1)
  ]
  | inr (ne, left) ↦ inr (rw left refl, λ v a. ne (accepted_operands a).0)
]

found_column-Gives :
    (schema : List PlanColumn) (id : Identifier) (o : Option PlanColumn)
    → lookup schema id ≡ o
    → Gives schema (expr_idenifier id) (found_column o).type
found_column-Gives schema id none e = missing id e
found_column-Gives schema id (some c) e = column id c e

gives : (e : Expr) (schema : List PlanColumn) → Gives schema e (resolve_type e schema).type
unfolding resolve_type
gives (expr_integer n) schema = integer n
gives (expr_string x) schema = text x
gives (expr_idenifier id) schema = found_column-Gives schema id (lookup schema id) refl
gives (infix_expr op l r) schema =
    let t = (resolve_type l schema).type in
    let u = (resolve_type r schema).type in
    elim (infix_type-decided op t u) [
      | inl a ↦ accepted a (gives l schema) (gives r schema)
      | inr (e, none_accepts) ↦
          subst (λ v. Gives schema (infix_expr op l r) v) (sym e)
            (refused none_accepts (gives l schema) (gives r schema))
    ]

given :
    {schema : List PlanColumn} {e : Expr} {t : NpsqlType}
    → Gives schema e t
    → (resolve_type e schema).type ≡ t
unfolding resolve_type
given (integer n) = refl
given (text x) = refl
given (column id c found) = rw found refl
given (missing id e) = rw e refl
given (accepted a l r) = rw (given l, given r) (infix_type-Accepts a)
given (refused {op} {l} {r} {t} {u} none_accepts gl gr) =
    rw (given gl, given gr)
      (elim (infix_type-decided op t u) [ inl a ↦ absurd (none_accepts _ a) | inr (e, others) ↦ e ])

-- The planner gives an expression a type exactly where the rules do: a literal its own, a column that the
-- schema has the column's; arithmetic on two operands of one type that type, an equality of two operands
-- of one type Boolean, a connective of two Booleans Boolean; and no type to a column that is not there and
-- to any other operands. That no type counts as one type, so that an equality of two operands without a
-- type is Boolean.
pub resolve_type-Gives :
    (e : Expr) (schema : List PlanColumn) (t : NpsqlType)
    → ((resolve_type e schema).type ≡ t) ↔ Gives schema e t
resolve_type-Gives e schema t =
    (λ h. subst (λ u. Gives schema e u) h (gives e schema), λ g. given g)
