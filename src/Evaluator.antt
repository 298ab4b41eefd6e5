-- ===== src/Evaluator.antt =====
-- packages/core/src/evaluator.ts: `evaluate` and `matches`, with three-valued logic, comparison and
-- IN lists. The functions of the expression language (`callFunction`) are the host's.
use lakeql.Base.{
  Ordering, ◌≡◌, Bool, true, false, ◌&&◌, ◌||◌, List, [], ◌∷◌, Option, none, some, arith,
  if◌then◌else◌,
}
use lakeql.Base.Order.{is_lt, is_le, is_eq, flip, compare_text, compare_text-IsOrder}
use lakeql.Base.Result.{Result, ok, err, type_error, unknown_column, ◌>>=◌}
use lakeql.Expr.{
  Text, TimestampValue, Scalar, text, number, boolean, bigint, bytes, timestamp, interval, null,
  CompareOp, LogicalOp, ArithmeticOp, Expr, Exprs, Whens, OtherwiseExpr, Cell, scalar, undefined,
  other, Row,
}
use lakeql.Scalars.{Host, js_order, timestamp_value_from_iso, compare_timestamp_values}

-- `boolean | null`
abbrev pub SqlBoolean : Type 0
SqlBoolean = Option Bool

abbrev pub of_sql : SqlBoolean → Scalar
of_sql none = null
of_sql (some b) = boolean b

unfoldable pub sql_and : SqlBoolean → SqlBoolean → SqlBoolean
sql_and (some false) r = some false
sql_and none (some false) = some false
sql_and none none = none
sql_and none (some true) = none
sql_and (some true) (some false) = some false
sql_and (some true) none = none
sql_and (some true) (some true) = some true

unfoldable pub sql_or : SqlBoolean → SqlBoolean → SqlBoolean
sql_or (some true) r = some true
sql_or none (some true) = some true
sql_or none none = none
sql_or none (some false) = none
sql_or (some false) (some true) = some true
sql_or (some false) none = none
sql_or (some false) (some false) = some false

unfoldable pub sql_not : SqlBoolean → SqlBoolean
sql_not none = none
sql_not (some b) = some (if b then false else true)

unfoldable pub to_sql_boolean : Scalar → Result SqlBoolean
to_sql_boolean null = ok none
to_sql_boolean (boolean b) = ok (some b)
to_sql_boolean v = err type_error

abbrev pub text_eq : Text → Text → Bool
text_eq s t = is_eq (compare_text s t)

pub text_eq_refl : (s : Text) → text_eq s s ≡ true
text_eq_refl s = ground (arith, compare_text-IsOrder.cmp-flip s s)

-- `name in row` and `row[name]`, of a row with its own keys only.
unfoldable pub find_cell : Row → Text → Option Cell
find_cell [] name = none
find_cell ((key, cell) ∷ row) name = if text_eq key name then some cell else find_cell row name

unfoldable pub row_value : Row → Text → Result Scalar
row_value row name = elim (find_cell row name) [
  | none ↦ err unknown_column
  | some (scalar v) ↦ ok v
  | some undefined ↦ err type_error
  | some other ↦ err type_error
]

unfoldable pub compare_order : CompareOp → Ordering → Bool
compare_order CompareOp.eq o = is_eq o
compare_order CompareOp.ne o = if is_eq o then false else true
compare_order CompareOp.lt o = is_lt o
compare_order CompareOp.lte o = is_le o
compare_order CompareOp.gt o = is_lt (flip o)
compare_order CompareOp.gte o = is_le (flip o)

abbrev pub is_null : Scalar → Bool
is_null null = true
is_null v = false

abbrev pub is_bytes : Scalar → Bool
is_bytes (bytes b) = true
is_bytes v = false

abbrev pub is_timestamp : Scalar → Bool
is_timestamp (timestamp t) = true
is_timestamp v = false

abbrev pub is_interval : Scalar → Bool
is_interval (interval i) = true
is_interval v = false

abbrev pub is_number_like : Scalar → Bool
is_number_like (number x) = true
is_number_like (bigint n) = true
is_number_like v = false

-- `typeof left === typeof right`
abbrev pub same_type : Scalar → Scalar → Bool
same_type (text s) (text t) = true
same_type (number x) (number y) = true
same_type (boolean a) (boolean b) = true
same_type (bigint m) (bigint n) = true
same_type (bytes a) (bytes b) = true
same_type (bytes a) (timestamp t) = true
same_type (bytes a) (interval t) = true
same_type (bytes a) null = true
same_type (timestamp t) (bytes b) = true
same_type (timestamp t) (timestamp u) = true
same_type (timestamp t) (interval u) = true
same_type (timestamp t) null = true
same_type (interval t) (bytes b) = true
same_type (interval t) (timestamp u) = true
same_type (interval t) (interval u) = true
same_type (interval t) null = true
same_type null (bytes b) = true
same_type null (timestamp u) = true
same_type null (interval u) = true
same_type null null = true
same_type a b = false

module _ (host : Host) where
  unfoldable pub timestamp_eval_value : Scalar → Option TimestampValue
  timestamp_eval_value (timestamp t) = some t
  timestamp_eval_value (text s) = timestamp_value_from_iso host s
  timestamp_eval_value v = none

  unfoldable pub compare_timestamps :
      CompareOp → Option TimestampValue → Option TimestampValue → Result SqlBoolean
  compare_timestamps op (some a) (some b) =
      ok (some (compare_order op (compare_timestamp_values a b)))
  compare_timestamps op (some a) none = err type_error
  compare_timestamps op none b = err type_error

  unfoldable pub compare_scalars : CompareOp → Scalar → Scalar → Result SqlBoolean
  unfolding compare_timestamps timestamp_eval_value compare_order
  compare_scalars op left right =
      if is_null left || is_null right
      then ok none
      else if is_bytes left || is_bytes right
      then err type_error
      else if is_timestamp left || is_timestamp right
      then compare_timestamps op (timestamp_eval_value left) (timestamp_eval_value right)
      else if is_interval left || is_interval right
      then err type_error
      else if same_type left right || (is_number_like left && is_number_like right)
      then ok (some (compare_order op (js_order host left right)))
      else err type_error

  -- The loop of `inList`, with `sawNull`.
  unfoldable pub in_values : Scalar → List Scalar → Bool → Result SqlBoolean
  in_values target [] saw_null = ok (if saw_null then none else some false)
  in_values target (value ∷ values) saw_null = do
    result ← compare_scalars CompareOp.eq target value
    let rest = in_values target values
    elim result [ none ↦ rest true | some true ↦ ok (some true) | some false ↦ rest saw_null ]

  unfoldable pub in_list : Scalar → List Scalar → Result SqlBoolean
  unfolding in_values
  in_list target values = if is_null target then ok none else in_values target values false

  unfoldable pub arithmetic : ArithmeticOp → Scalar → Scalar → Result Scalar
  arithmetic op null r = ok null
  arithmetic op (number a) (number b) = ok (number (host.arithmetic_op op a b))
  arithmetic op l null = ok null
  arithmetic op l r = err type_error

  unfoldable pub like_match : Scalar → Text → Bool → Result SqlBoolean
  like_match null pattern ci = ok none
  like_match (text s) pattern ci = do b ← host.like_test pattern ci s; ok (some b)
  like_match v pattern ci = err type_error

  module _ (row : Row) where
    unfoldable mutual
      unfolding sql_not compare_scalars arithmetic like_match in_list

      pub evaluate : Expr → Result Scalar
      evaluate (Expr.literal v) = ok v
      evaluate (Expr.column name) = row_value row name
      evaluate (Expr.compare op l r) = do
        a ← evaluate l
        b ← evaluate r
        c ← compare_scalars op a b
        ok (of_sql c)
      evaluate (Expr.in_list negated target values) = do
        t ← evaluate target
        vs ← evaluate_all values
        r ← in_list t vs
        ok (of_sql (if negated then sql_not r else r))
      evaluate (Expr.between target low high) = do
        t ← evaluate target
        l ← evaluate low
        h ← evaluate high
        a ← compare_scalars CompareOp.gte t l
        b ← compare_scalars CompareOp.lte t h
        ok (of_sql (sql_and a b))
      evaluate (Expr.null_check negated target) = do
        v ← evaluate target
        ok (boolean (if negated then (if is_null v then false else true) else is_null v))
      evaluate (Expr.logical LogicalOp.and operands) = do
        r ← evaluate_and operands (some true)
        ok (of_sql r)
      evaluate (Expr.logical LogicalOp.or operands) = do
        r ← evaluate_or operands (some false)
        ok (of_sql r)
      evaluate (Expr.not operand) = do
        v ← evaluate operand
        b ← to_sql_boolean v
        ok (of_sql (sql_not b))
      evaluate (Expr.like ci target pattern) = do
        v ← evaluate target
        r ← like_match v pattern ci
        ok (of_sql r)
      evaluate (Expr.call fn args) = do vs ← evaluate_all args; host.call_function fn vs
      evaluate (Expr.arithmetic op l r) = do a ← evaluate l; b ← evaluate r; arithmetic op a b
      evaluate (Expr.case_when whens otherwise) =
          let last = evaluate_else otherwise in evaluate_whens whens last

      pub evaluate_all : Exprs → Result (List Scalar)
      evaluate_all Exprs.nil = ok []
      evaluate_all (Exprs.cons e es) = do v ← evaluate e; vs ← evaluate_all es; ok (v ∷ vs)

      -- `operands.reduce((acc, operand) => sqlAnd(acc, …))`, and the same with `sqlOr`.
      pub evaluate_and : Exprs → SqlBoolean → Result SqlBoolean
      evaluate_and Exprs.nil acc = ok acc
      evaluate_and (Exprs.cons e es) acc = do
        v ← evaluate e
        b ← to_sql_boolean v
        evaluate_and es (sql_and acc b)

      pub evaluate_or : Exprs → SqlBoolean → Result SqlBoolean
      evaluate_or Exprs.nil acc = ok acc
      evaluate_or (Exprs.cons e es) acc = do
        v ← evaluate e
        b ← to_sql_boolean v
        evaluate_or es (sql_or acc b)

      pub evaluate_whens : Whens → Result Scalar → Result Scalar
      evaluate_whens Whens.no_when last = last
      evaluate_whens (Whens.when c v whens) last = do
        t ← evaluate c
        b ← to_sql_boolean t
        let value = evaluate v
        let rest = evaluate_whens whens last
        elim b [ none ↦ rest | some true ↦ value | some false ↦ rest ]

      pub evaluate_else : OtherwiseExpr → Result Scalar
      evaluate_else OtherwiseExpr.no_else = ok null
      evaluate_else (OtherwiseExpr.else_expr e) = evaluate e

    unfoldable pub matches : Option Expr → Result Bool
    unfolding evaluate to_sql_boolean
    matches none = ok true
    matches (some e) = do
      v ← evaluate e
      b ← to_sql_boolean v
      ok (elim b [ none ↦ false | some t ↦ t ])
