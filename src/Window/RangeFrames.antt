-- ===== src/Window/RangeFrames.antt =====
-- packages/core/src/window-frame.ts: RANGE frames with offsets, the frame of a row in every mode, and the
-- rows that a frame excludes.
use lakeql.Base.{
  ℕ, zero, suc, ◌+◌, ◌-◌, ◌^◌, min, max, Ordering, Bool, true, false, ◌&&◌, ◌||◌, not, List, [],
  ◌∷◌, Option, none, some, leb, ltb, ◌==◌, if◌then◌else◌, length, get_elem?, all,
}
use lakeql.Base.Int.{ℤ, pos, negsuc, ◌-ℤ◌, compare_ℤ}
use lakeql.Base.Order.{is_lt, is_le}
use lakeql.Base.Result.{Result, ok, err, type_error, sql_unsupported, ◌>>=◌}
use lakeql.Expr.{
  Text, Number, neg_infinity, pos_infinity, finite, TimestampValue, IntervalValue, Scalar, number,
  timestamp, interval, ArithmeticOp, Row,
}
use lakeql.Scalars.{Host, compare_number, is_digit}
use lakeql.Sorting.{Direction}
use lakeql.Window.{
  WindowFrameBound, BoundKind, WindowFrame, FrameMode, Exclude, WindowExpr, WindowOrderTerm,
  WindowRow, WindowHost,
}
use lakeql.Window.Frames.{
  FrameSpan, span, normalize_span, effective_frame, peer_span, offset_value, number_offset, row_at,
  rows_frame_span, groups_frame_span, range_peers_span,
}

-- `number | bigint`
pub data RangeValue : Type 0 where
  of_number : Number → RangeValue
  of_bigint : ℤ → RangeValue

pub data RangePoint : Type 0 where
  number_point : Number → RangePoint
  timestamp_point : TimestampValue → ℤ → RangePoint

abbrev pub normalized : RangePoint → RangeValue
normalized (RangePoint.number_point x) = RangeValue.of_number x
normalized (RangePoint.timestamp_point t n) = RangeValue.of_bigint n

abbrev neg_ℤ : ℤ → ℤ
neg_ℤ n = pos 0 -ℤ n

abbrev signed_ℤ : Direction → ℤ → ℤ
signed_ℤ Direction.asc n = n
signed_ℤ Direction.desc n = neg_ℤ n

-- The first value of the order key, where it is a finite number or a timestamp.
unfoldable pub range_point : Direction → List Scalar → Result RangePoint
unfolding ◌-ℤ◌
range_point direction (number (finite k) ∷ key) =
    ok (RangePoint.number_point (finite (signed_ℤ direction k)))
range_point direction (timestamp t ∷ key) =
    ok (RangePoint.timestamp_point t (signed_ℤ direction t.epoch_nanoseconds))
range_point direction key = err type_error

unfoldable pub compare_range_values : RangeValue → RangeValue → Result Ordering
unfolding compare_number
compare_range_values (RangeValue.of_number x) (RangeValue.of_number y) = ok (compare_number x y)
compare_range_values (RangeValue.of_bigint m) (RangeValue.of_bigint n) = ok (compare_ℤ m n)
compare_range_values a b = err type_error

-- `-rangeInfinity()` and `rangeInfinity()` among timestamps.
abbrev lowest_value : RangePoint → RangeValue
lowest_value (RangePoint.number_point x) = RangeValue.of_number neg_infinity
lowest_value (RangePoint.timestamp_point t n) = RangeValue.of_bigint (neg_ℤ (pos (2 ^ 255)))

abbrev highest_value : RangePoint → RangeValue
highest_value (RangePoint.number_point x) = RangeValue.of_number pos_infinity
highest_value (RangePoint.timestamp_point t n) = RangeValue.of_bigint (pos (2 ^ 255))

-- `/^-?[0-9]+$/`, and whether the integer that such a text denotes is not negative.
abbrev is_unsigned : Text → Bool
is_unsigned [] = false
is_unsigned (c ∷ s) = all is_digit (c ∷ s)

unfoldable pub is_non_negative_integer : Text → Bool
is_non_negative_integer [] = false
is_non_negative_integer (c ∷ s) =
    if c == b'-' then is_unsigned s && all (λ d. d == b'0') s else is_unsigned (c ∷ s)

abbrev is_non_negative : ℤ → Bool
is_non_negative (pos n) = true
is_non_negative (negsuc n) = false

-- `isIntervalValue(value) && isNonNegativeInterval(value)`
unfoldable pub interval_offset : Scalar → Result IntervalValue
unfolding is_non_negative_integer
interval_offset (interval i) =
    if is_non_negative i.months && is_non_negative i.days && is_non_negative_integer i.nanoseconds
    then ok i
    else err type_error
interval_offset v = err type_error

module _ (host : Host) (window : WindowHost) where
  -- A timestamp that is shifted forwards or backwards, as the direction counts it.
  unfoldable pub shifted_timestamp_range_bound :
      TimestampValue → WindowFrameBound → Row → Bool → Direction → Result ℤ
  unfolding offset_value interval_offset ◌-ℤ◌
  shifted_timestamp_range_bound value bound row forwards direction = do
    i ← offset_value host bound row >>= interval_offset
    shifted ← window.apply_interval value i forwards
    ok (signed_ℤ direction shifted.epoch_nanoseconds)

  -- A bound before or behind the current point: `op` takes an offset of numbers off or adds it.
  unfoldable pub shifted_bound :
      RangePoint → WindowFrameBound → Row → ArithmeticOp → Bool → Direction → Result RangeValue
  unfolding offset_value shifted_timestamp_range_bound
  shifted_bound (RangePoint.number_point x) bound row op forwards direction = do
    n ← offset_value host bound row >>= number_offset
    ok (RangeValue.of_number (host.arithmetic_op op x n))
  shifted_bound (RangePoint.timestamp_point t m) bound row op forwards direction = do
    n ← shifted_timestamp_range_bound t bound row forwards direction
    ok (RangeValue.of_bigint n)

  abbrev is_asc : Direction → Bool
  is_asc Direction.asc = true
  is_asc Direction.desc = false

  unfoldable pub range_offset_bound :
      RangePoint → WindowFrameBound → Row → Direction → Result RangeValue
  unfolding shifted_bound ◌-ℤ◌
  range_offset_bound current bound row direction = elim bound.kind [
    | BoundKind.unbounded_preceding ↦ ok (lowest_value current)
    | BoundKind.unbounded_following ↦ ok (highest_value current)
    | BoundKind.current_row ↦ ok (normalized current)
    | BoundKind.preceding ↦
        shifted_bound current bound row ArithmeticOp.sub (not (is_asc direction)) direction
    | BoundKind.following ↦
        shifted_bound current bound row ArithmeticOp.add (is_asc direction) direction
  ]

-- The rows in front whose points pass the test against the bound: how many are passed over from `at` on,
-- and the rows behind them.
unfoldable pub pass_rows :
    (Ordering → Bool) → Direction → RangeValue → List WindowRow → ℕ → Result (ℕ × List WindowRow)
unfolding range_point compare_range_values
pass_rows test direction bound [] at = ok (at, [])
pass_rows test direction bound (row ∷ rows) at = do
  point ← range_point direction row.order_key
  o ← compare_range_values (normalized point) bound
  let later = pass_rows test direction bound rows (at + 1)
  if test o then later else ok (at, row ∷ rows)

-- `while (first < partition.length && …)` and `while (afterLast < partition.length && …)`
unfoldable pub range_rows : List WindowRow → Direction → RangeValue → RangeValue → Result FrameSpan
unfolding pass_rows normalize_span
range_rows partition direction start end = do
  (first, rows) ← pass_rows is_lt direction start partition 0
  (after_last, rest) ← pass_rows is_le direction end rows first
  ok (normalize_span (length partition) (pos first) (pos after_last))

abbrev pub key_at : List WindowRow → ℕ → List Scalar
key_at partition index = elim (get_elem? partition index) [ none ↦ [] | some r ↦ r.order_key ]

-- `expr.over.orderBy[0]?.direction ?? "asc"` of the only term.
abbrev pub only_direction : List WindowOrderTerm → Result Direction
only_direction [] = err sql_unsupported
only_direction (term ∷ []) = ok (elim term.direction [ none ↦ Direction.asc | some d ↦ d ])
only_direction (term ∷ next ∷ terms) = err sql_unsupported

abbrev has_offset : WindowFrameBound → Bool
has_offset bound = elim bound.offset [ none ↦ false | some e ↦ true ]

module _ (host : Host) (window : WindowHost) where
  unfoldable pub range_offset_frame_span :
      List WindowRow → ℕ → WindowExpr → WindowFrame → Result FrameSpan
  unfolding range_point range_offset_bound range_rows
  range_offset_frame_span partition index expr frame = do
    direction ← only_direction expr.over.order_by
    current ← range_point direction (key_at partition index)
    start ←
        range_offset_bound host window current frame.start (row_at host partition index) direction
    end ← range_offset_bound host window current frame.end (row_at host partition index) direction
    range_rows partition direction start end

  unfoldable pub range_frame_span : List WindowRow → ℕ → WindowExpr → WindowFrame → Result FrameSpan
  unfolding range_offset_frame_span range_peers_span
  range_frame_span partition index expr frame =
      if has_offset frame.start || has_offset frame.end
      then range_offset_frame_span partition index expr frame
      else range_peers_span host window partition index frame

  unfoldable pub frame_span : List WindowRow → ℕ → WindowExpr → Result FrameSpan
  unfolding effective_frame rows_frame_span groups_frame_span range_frame_span
  frame_span partition index expr =
      let frame = effective_frame expr in
      elim frame.mode [
        | FrameMode.rows ↦ rows_frame_span host partition index frame
        | FrameMode.groups ↦ groups_frame_span host window partition index frame
        | FrameMode.range ↦ range_frame_span partition index expr frame
      ]

-- Membership in the set that `excludedRows` fills: the row itself, or rows of its peers in the span.
abbrev in_peers : FrameSpan → FrameSpan → ℕ → Bool
in_peers span peer i = leb (max span.start peer.start) i && ltb i (min span.end peer.end)

unfoldable pub excludes : Exclude → ℕ → FrameSpan → FrameSpan → ℕ → Bool
excludes Exclude.no_others index span peer i = false
excludes Exclude.current_row index span peer i = i == index
excludes Exclude.group index span peer i = in_peers span peer i
excludes Exclude.ties index span peer i = in_peers span peer i && not (i == index)

abbrev pub exclude_of : Option WindowFrame → Exclude
exclude_of none = Exclude.no_others
exclude_of (some frame) = frame.exclude

unfoldable pub excluded_rows :
    WindowHost → List WindowRow → ℕ → FrameSpan → Option WindowFrame → Result (ℕ → Bool)
unfolding peer_span excludes
excluded_rows window partition index span frame = elim (exclude_of frame) [
  | Exclude.no_others ↦ ok (λ i. false)
  | Exclude.current_row ↦
      peer_span window partition index >>= λ peer. ok (excludes Exclude.current_row index span peer)
  | Exclude.group ↦
      peer_span window partition index >>= λ peer. ok (excludes Exclude.group index span peer)
  | Exclude.ties ↦
      peer_span window partition index >>= λ peer. ok (excludes Exclude.ties index span peer)
]

-- `for (rowIndex = span.start; rowIndex < span.end; rowIndex += 1)`, by the number of rounds left.
unfoldable pub span_rows : (ℕ → Bool) → List WindowRow → ℕ → ℕ → List Row
span_rows excluded partition at zero = []
span_rows excluded partition at (suc count) =
    let later = span_rows excluded partition (at + 1) count in
    if excluded at
    then later
    else elim (get_elem? partition at) [ none ↦ later | some r ↦ r.row ∷ later ]

unfoldable pub frame_rows : Host → WindowHost → List WindowRow → ℕ → WindowExpr → Result (List Row)
unfolding frame_span excluded_rows span_rows
frame_rows host window partition index expr = do
  s ← frame_span host window partition index expr
  excluded ← excluded_rows window partition index s expr.over.frame
  ok (span_rows excluded partition s.start (s.end - s.start))
