-- ===== src/Expr.antt =====
-- packages/core/src/expr.ts and the values of packages/core/src/timestamp.ts and interval.ts: the
-- scalars of a row and the expressions of a query.
use lakeql.Base.{ℕ, Bool, List}
use lakeql.Base.Int.{ℤ}

-- A JavaScript string: its UTF-16 code units.
abbrev pub Text : Type 0
Text = List ℕ

-- A JavaScript number. A finite double is a whole multiple of 2^-1074, so `finite k` is k * 2^-1074.
pub data Number : Type 0 where
  nan neg_infinity pos_infinity : Number
  finite : ℤ → Number

pub data TimestampUnit : Type 0 where
  millis micros nanos : TimestampUnit

pub record TimestampValue : Type 0 where
  pub epoch_nanoseconds : ℤ
  pub unit : TimestampUnit
  pub is_adjusted_to_utc : Bool

pub record IntervalValue : Type 0 where
  pub months : ℤ
  pub days : ℤ
  pub nanoseconds : Text

pub data Scalar : Type 0 where
  text : Text → Scalar
  number : Number → Scalar
  boolean : Bool → Scalar
  bigint : ℤ → Scalar
  bytes : List ℕ → Scalar
  timestamp : TimestampValue → Scalar
  interval : IntervalValue → Scalar
  null : Scalar

pub data CompareOp : Type 0 where
  eq ne lt lte gt gte : CompareOp

pub data LogicalOp : Type 0 where
  and or : LogicalOp

pub data ArithmeticOp : Type 0 where
  add sub mul div mod_op : ArithmeticOp

mutual
  pub data Expr : Type 0 where
    literal : Scalar → Expr
    column : Text → Expr
    compare : CompareOp → Expr → Expr → Expr
    in_list : Bool → Expr → Exprs → Expr
    between : Expr → Expr → Expr → Expr
    null_check : Bool → Expr → Expr
    logical : LogicalOp → Exprs → Expr
    not : Expr → Expr
    like : Bool → Expr → Text → Expr
    call : Text → Exprs → Expr
    arithmetic : ArithmeticOp → Expr → Expr → Expr
    case_when : Whens → OtherwiseExpr → Expr

  pub data Exprs : Type 0 where
    nil : Exprs
    cons : Expr → Exprs → Exprs

  -- The branches of a `case`: condition and value.
  pub data Whens : Type 0 where
    no_when : Whens
    when : Expr → Expr → Whens → Whens

  pub data OtherwiseExpr : Type 0 where
    no_else : OtherwiseExpr
    else_expr : Expr → OtherwiseExpr

-- What a property of a row object holds.
pub data Cell : Type 0 where
  scalar : Scalar → Cell
  undefined : Cell
  other : Cell

abbrev pub Row : Type 0
Row = List (Text × Cell)
