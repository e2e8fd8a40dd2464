-- ===== src/ExprEval.antt =====
-- server/src/expr_eval.c. A `none` is undefined behaviour of C: an `int` operation that overflows, or
-- a division by zero. `scan->get_value` is a function from identifiers to values.
pub mod Typing
pub mod Resolve
pub mod Soundness
use npsql.Base.{
  ℕ, zero, suc, ◌+◌, ◌-◌, ◌*◌, ◌/◌, ◌^◌, Bool, true, false, ◌&&◌, ◌||◌, Option, none, some, ltb,
  leb, ◌==◌, if◌then◌else◌,
}
use npsql.Base.Int.{ℤ, pos, negsuc, pos_part, neg_part, ◌+ℤ◌, ◌-ℤ◌, ◌*ℤ◌, eq_ℤ}
use npsql.Sql.{
  NpsqlType, type_unknown, type_int, type_char, type_bool, type_eq, Identifier, InfixOp, expr_add,
  expr_sub, expr_mul, expr_div, expr_equ, expr_and, expr_or, Expr, expr_integer, expr_string,
  expr_idenifier, infix_expr, Union, number, string, boolean, Value, zero_value,
}

infixl 5 ◌>>=◌
abbrev pub ◌>>=◌ : {A B : Type 0} → Option A → (A → Option B) → Option B
none >>= f = none
some a >>= f = f a

-- C's `/` on ints: the quotient of the absolute values, with the sign.
pub quot : ℤ → ℤ → ℤ
quot a b =
    let q = (pos_part a + neg_part a) / (pos_part b + neg_part b) in
    let negative : Bool =
      (ltb 0 (neg_part a) && leb (neg_part b) 0) || (leb (neg_part a) 0 && ltb 0 (neg_part b)) in
    if negative then pos 0 -ℤ pos q else pos q

-- The result of an int operation, where it is an int.
unfoldable pub int_result : ℤ → Option ℤ
int_result z = if ltb (pos_part z) (2 ^ 31) && leb (neg_part z) (2 ^ 31) then some z else none

unfoldable pub div_result : ℤ → ℤ → Option ℤ
div_result a b = if eq_ℤ b (pos 0) then none else int_result (quot a b)

-- `v` after a branch of `do_op` that sets an int.
abbrev pub int_value : Option ℤ → Option (Bool × Value)
int_value none = none
int_value (some z) = some (true, record { type = type_int; size = 4; as_ = number z })

-- What `eval` makes of `v` after `do_op`.
abbrev pub known_or_unknown : Bool × Value → Value
known_or_unknown (true, v) = v
known_or_unknown (false, v) = record v { type = type_unknown }

-- What `garbage` stands for: `as.number` or `as.boolean` read from a union that holds another member.
module _ (garbage : Union → ℤ) (garbage_bool : Union → Bool) where
  abbrev pub as_number : Union → ℤ
  as_number (number z) = z
  as_number (string s) = garbage (string s)
  as_number (boolean b) = garbage (boolean b)

  abbrev pub as_boolean : Union → Bool
  as_boolean (number z) = garbage_bool (number z)
  as_boolean (string s) = garbage_bool (string s)
  as_boolean (boolean b) = b

  bool_op : (Bool → Bool → Bool) → Value → Value → Bool × Value
  bool_op op l r =
      if type_eq l.type type_bool && type_eq r.type type_bool
      then (
        true,
        record {
          type = type_bool;
          size = 4;
          as_ = boolean (op (as_boolean l.as_) (as_boolean r.as_));
        },
      )
      else (false, record { type = type_int; size = 4; as_ = number (pos 0) })

  equ_op : Value → Value → Bool × Value
  equ_op l r =
      if type_eq l.type type_int
      then (
        true,
        record {
          type = type_bool;
          size = 4;
          as_ = boolean (eq_ℤ (as_number l.as_) (as_number r.as_));
        },
      )
      else (false, record { type = type_int; size = 4; as_ = number (pos 0) })

  -- `v` comes in zeroed.
  unfoldable pub do_op : InfixOp → Value → Value → Option (Bool × Value)
  unfolding bool_op equ_op
  do_op expr_add l r = int_value (int_result (as_number l.as_ +ℤ as_number r.as_))
  do_op expr_sub l r = int_value (int_result (as_number l.as_ -ℤ as_number r.as_))
  do_op expr_mul l r = int_value (int_result (as_number l.as_ *ℤ as_number r.as_))
  do_op expr_div l r = int_value (div_result (as_number l.as_) (as_number r.as_))
  do_op expr_equ l r = some (equ_op l r)
  do_op expr_or l r = some (bool_op ◌||◌ l r)
  do_op expr_and l r = some (bool_op ◌&&◌ l r)

  unfoldable pub eval : Expr → (Identifier → Value) → Option Value
  eval (expr_idenifier id) get_value = some (get_value id)
  eval (expr_integer n) get_value = some (record { type = type_int; size = 4; as_ = number n })
  eval (infix_expr op l r) get_value = do
    vl ← eval l get_value
    vr ← eval r get_value
    v ← do_op op vl vr
    some (known_or_unknown v)
  eval (expr_string s) get_value = some zero_value
