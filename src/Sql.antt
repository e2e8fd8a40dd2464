-- ===== src/Sql.antt =====
-- The types of server/include/sql.h, types.h, value.h and storage.h that the planner and the
-- evaluator share. A C string is the list of its bytes before the terminator; `char *` that may be
-- NULL is an option.
use npsql.Base.{ℕ, zero, suc, Bool, true, false, ◌==◌, ◌&&◌, Option, List, [], ◌∷◌}
use npsql.Base.Int.{ℤ, pos}

abbrev pub Str : Type 0
Str = List ℕ

-- strcmp(a, b) == 0
unfoldable pub str_eq : Str → Str → Bool
str_eq [] [] = true
str_eq (a ∷ xs) (b ∷ ys) = a == b && str_eq xs ys
str_eq _ _ = false

-- strncmp(a, b, n) == 0
unfoldable pub strn_eq : Str → Str → ℕ → Bool
strn_eq _ _ zero = true
strn_eq [] [] (suc n) = true
strn_eq (a ∷ xs) (b ∷ ys) (suc n) = a == b && strn_eq xs ys n
strn_eq _ _ (suc n) = false

pub data NpsqlType : Type 0 where
  type_unknown type_int type_char type_bool : NpsqlType

abbrev pub type_eq : NpsqlType → NpsqlType → Bool
type_eq type_unknown type_unknown = true
type_eq type_int type_int = true
type_eq type_char type_char = true
type_eq type_bool type_bool = true
type_eq _ _ = false

pub record Identifier : Type 0 where
  pub qualifier : Option Str
  pub name : Str

-- The operators of `enum expr_type`.
pub data InfixOp : Type 0 where
  expr_add expr_sub expr_mul expr_div expr_equ expr_and expr_or : InfixOp

-- `struct expr` with `struct term_expr` and `struct infix_expr`.
pub data Expr : Type 0 where
  expr_integer : ℤ → Expr
  expr_string : Str → Expr
  expr_idenifier : Identifier → Expr
  infix_expr : InfixOp → Expr → Expr → Expr

-- The union of `struct value`.
pub data Union : Type 0 where
  number : ℤ → Union
  string : Str → Union
  boolean : Bool → Union

-- `base` is the buffer that `reset` frees.
pub record Value : Type 0 where
  pub type : NpsqlType
  pub size : ℕ
  pub as_ : Union

-- `struct value v = { 0 }`
abbrev pub zero_value : Value
zero_value = record { type = type_unknown; size = 0; as_ = number (pos 0) }

pub record Column : Type 0 where
  pub type : NpsqlType
  pub size : ℕ
  pub name : Str
  pub offset : ℕ

pub record TableInfo : Type 0 where
  pub table_name : Str
  pub record_size : ℕ
  pub columns : List Column

pub record PlanColumn : Type 0 where
  pub size : ℕ
  pub name : Str
  pub table : Str
  pub type : NpsqlType
  pub expr : Option Expr
