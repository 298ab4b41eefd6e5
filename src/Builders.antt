-- ===== src/Builders.antt =====
-- packages/core/src/expr.ts: the functions that build expressions. An interval value carries a
-- property `kind`, so that `isExpr` takes it for an expression; it is none, and what is built with it
-- is `none` here.
pub mod Membership
use lakeql.Base.{
  ℕ, Bool, true, false, List, [], ◌∷◌, Option, none, some, if◌then◌else◌, length, ltb,
}
use lakeql.Base.Result.{Result, ok, err, type_error}
use lakeql.Expr.{Text, Scalar, text, interval, CompareOp, LogicalOp, ArithmeticOp, Expr, Exprs}

pub data ColumnInput : Type 0 where
  named : Text → ColumnInput
  column_expr : Expr → ColumnInput

pub data ValueInput : Type 0 where
  plain : Scalar → ValueInput
  value_expr : Expr → ValueInput

abbrev pub col : Text → Expr
col name = Expr.column name

abbrev pub lit : Scalar → Expr
lit value = Expr.literal value

-- `"kind" in value`
abbrev pub is_expr : ValueInput → Bool
is_expr (value_expr e) = true
is_expr (plain (interval i)) = true
is_expr (plain v) = false

abbrev pub to_column : ColumnInput → Expr
to_column (named name) = col name
to_column (column_expr e) = e

-- `isExpr(input) ? input : lit(input)`
abbrev pub to_value : ValueInput → Option Expr
to_value (value_expr e) = some e
to_value (plain v) = if is_expr (plain v) then none else some (lit v)

abbrev pub to_values : List ValueInput → Option Exprs
to_values [] = some Exprs.nil
to_values (v ∷ vs) = elim (to_value v) [
  | none ↦ none
  | some e ↦ elim (to_values vs) [ none ↦ none | some es ↦ some (Exprs.cons e es) ]
]

-- An object whose values are all expressions.
abbrev with_value : Option Expr → (Expr → Expr) → Option Expr
with_value none f = none
with_value (some e) f = some (f e)

abbrev with_two : Option Expr → Option Expr → (Expr → Expr → Expr) → Option Expr
with_two none r f = none
with_two (some l) none f = none
with_two (some l) (some r) f = some (f l r)

abbrev with_values : Option Exprs → (Exprs → Expr) → Option Expr
with_values none f = none
with_values (some es) f = some (f es)

abbrev pub compare : CompareOp → ColumnInput → ValueInput → Option Expr
compare op left right = with_value (to_value right) (λ r. Expr.compare op (to_column left) r)

abbrev pub eq : ColumnInput → ValueInput → Option Expr
eq column value = compare CompareOp.eq column value

abbrev pub ne : ColumnInput → ValueInput → Option Expr
ne column value = compare CompareOp.ne column value

abbrev pub lt : ColumnInput → ValueInput → Option Expr
lt column value = compare CompareOp.lt column value

abbrev pub lte : ColumnInput → ValueInput → Option Expr
lte column value = compare CompareOp.lte column value

abbrev pub gt : ColumnInput → ValueInput → Option Expr
gt column value = compare CompareOp.gt column value

abbrev pub gte : ColumnInput → ValueInput → Option Expr
gte column value = compare CompareOp.gte column value

abbrev pub is_in : ColumnInput → List ValueInput → Option Expr
is_in column values =
    with_values (to_values values) (λ vs. Expr.in_list false (to_column column) vs)

abbrev pub not_in : ColumnInput → List ValueInput → Option Expr
not_in column values =
    with_values (to_values values) (λ vs. Expr.in_list true (to_column column) vs)

abbrev pub between : ColumnInput → ValueInput → ValueInput → Option Expr
between column low high =
    with_two (to_value low) (to_value high) (λ l h. Expr.between (to_column column) l h)

abbrev pub is_null : ColumnInput → Expr
is_null column = Expr.null_check false (to_column column)

abbrev pub is_not_null : ColumnInput → Expr
is_not_null column = Expr.null_check true (to_column column)

abbrev pub operands : List Expr → Exprs
operands [] = Exprs.nil
operands (e ∷ es) = Exprs.cons e (operands es)

abbrev pub logical : LogicalOp → List Expr → Result Expr
logical op es = if ltb (length es) 2 then err type_error else ok (Expr.logical op (operands es))

abbrev pub and : List Expr → Result Expr
and es = logical LogicalOp.and es

abbrev pub or : List Expr → Result Expr
or es = logical LogicalOp.or es

abbrev pub not : Expr → Expr
not operand = Expr.not operand

abbrev pub like : ColumnInput → Text → Expr
like column pattern = Expr.like false (to_column column) pattern

abbrev pub ilike : ColumnInput → Text → Expr
ilike column pattern = Expr.like true (to_column column) pattern

abbrev pub fn : Text → List ValueInput → Option Expr
fn name args = with_values (to_values args) (λ es. Expr.call name es)

abbrev arithmetic_of : ArithmeticOp → ValueInput → ValueInput → Option Expr
arithmetic_of op left right =
    with_two (to_value left) (to_value right) (λ l r. Expr.arithmetic op l r)

abbrev pub add : ValueInput → ValueInput → Option Expr
add left right = arithmetic_of ArithmeticOp.add left right

abbrev pub sub : ValueInput → ValueInput → Option Expr
sub left right = arithmetic_of ArithmeticOp.sub left right

abbrev pub mul : ValueInput → ValueInput → Option Expr
mul left right = arithmetic_of ArithmeticOp.mul left right

abbrev pub div : ValueInput → ValueInput → Option Expr
div left right = arithmetic_of ArithmeticOp.div left right

abbrev pub modulo : ValueInput → ValueInput → Option Expr
modulo left right = arithmetic_of ArithmeticOp.mod_op left right
