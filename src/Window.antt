-- ===== src/Window.antt =====
-- packages/core/src/window.ts and window-utils.ts: window expressions and the rows of a partition.
-- Frames models window-frame.ts, Tree models window-segment-tree.ts.
pub mod Frames
pub mod RangeFrames
pub mod Spans
pub mod RowFrames
pub mod Peers
pub mod Groups
pub mod Tree
pub mod Aggregates
pub mod TreeNodes
pub mod TreeQuery
pub mod TreeAnswers
pub mod TreeSucceeds
pub mod FrameValues
use lakeql.Base.{ℕ, ◌+◌, ◌≡◌, Bool, true, false, ◌&&◌, List, [], ◌∷◌, Option, none, some}
use lakeql.Base.Result.{Result, ok, err, ◌>>=◌}
use lakeql.Expr.{Text, Number, TimestampValue, IntervalValue, Scalar, Expr, Row}
use lakeql.Evaluator.{evaluate, matches, text_eq}
use lakeql.Scalars.{Host}
use lakeql.Sorting.{Direction, NullsOrder}

pub record WindowOrderTerm : Type 0 where
  pub expr : Expr
  pub direction : Option Direction
  pub nulls : Option NullsOrder

pub data BoundKind : Type 0 where
  unbounded_preceding preceding current_row following unbounded_following : BoundKind

pub record WindowFrameBound : Type 0 where
  pub kind : BoundKind
  pub offset : Option Expr

pub data FrameMode : Type 0 where
  rows range groups : FrameMode

pub data Exclude : Type 0 where
  no_others current_row group ties : Exclude

pub record WindowFrame : Type 0 where
  pub mode : FrameMode
  pub start : WindowFrameBound
  pub end : WindowFrameBound
  pub exclude : Exclude

pub record WindowSpec : Type 0 where
  pub partition_by : List Expr
  pub order_by : List WindowOrderTerm
  pub frame : Option WindowFrame

pub data AggregateOp : Type 0 where
  count sum avg var_samp var_pop stddev_samp stddev_pop median quantile min max : AggregateOp
  count_distinct approx_count_distinct mode first last any : AggregateOp

pub data WindowFn : Type 0 where
  row_number rank dense_rank percent_rank cume_dist ntile : WindowFn
  lag lead first_value last_value nth_value : WindowFn
  aggregate : AggregateOp → WindowFn

pub record WindowExpr : Type 0 where
  pub fn : WindowFn
  pub args : List Expr
  pub over : WindowSpec
  pub filter : Option Expr
  pub ignore_nulls : Bool
  pub distinct : Bool

pub record WindowRow : Type 0 where
  pub row : Row
  pub original_index : ℕ
  pub partition_key : List Scalar
  pub order_key : List Scalar

-- What window functions use of the language besides `Host`.
pub record WindowHost : Type 0 where
  -- `stableKey`: the JSON text of the values of a key.
  pub stable_key : List Scalar → Text
  -- `applyIntervalToTimestamp`, a calendar of the language's `Date`: forwards or backwards.
  pub apply_interval : TimestampValue → IntervalValue → Bool → Result TimestampValue
  -- `Math.sqrt`
  pub square_root : Number → Number

module _ (window : WindowHost) where
  unfoldable pub same_partition : WindowRow → WindowRow → Bool
  same_partition left right =
      text_eq (window.stable_key left.partition_key) (window.stable_key right.partition_key)

  unfoldable pub same_peer : WindowRow → WindowRow → Bool
  unfolding same_partition
  same_peer left right =
      same_partition left right
      && text_eq (window.stable_key left.order_key) (window.stable_key right.order_key)

module _ (host : Host) where
  unfoldable pub evaluate_all : List Expr → Row → Result (List Scalar)
  unfolding evaluate
  evaluate_all [] row = ok []
  evaluate_all (e ∷ es) row = do v ← evaluate host row e; vs ← evaluate_all es row; ok (v ∷ vs)

  unfoldable pub order_values : List WindowOrderTerm → Row → Result (List Scalar)
  unfolding evaluate
  order_values [] row = ok []
  order_values (term ∷ terms) row = do
    v ← evaluate host row term.expr
    vs ← order_values terms row
    ok (v ∷ vs)

  -- `partitionRows`, from an index on.
  unfoldable pub partition_rows : List Row → WindowExpr → ℕ → Result (List WindowRow)
  unfolding evaluate_all order_values
  partition_rows [] expr index = ok []
  partition_rows (row ∷ more) expr index = do
    partition_key ← evaluate_all expr.over.partition_by row
    order_key ← order_values expr.over.order_by row
    rest ← partition_rows more expr (index + 1)
    ok (
        record {
          row = row;
          original_index = index;
          partition_key = partition_key;
          order_key = order_key;
        }
        ∷ rest)

  -- `filterRow`
  unfoldable pub filter_row : WindowExpr → Row → Result Bool
  unfolding matches
  filter_row expr row = matches host row expr.filter
