-- ===== src/Window/Frames.antt =====
-- packages/core/src/window-frame.ts: the rows of a window's frame.
use lakeql.Base.{
  ℕ, zero, suc, ◌+◌, ◌-◌, ◌/◌, ◌%◌, min, ◌&&◌, ◌||◌, List, [], ◌∷◌, Option, none, some, leb, ltb,
  ◌==◌, if◌then◌else◌, length, get_elem?,
}
use lakeql.Base.Slices.{drop}
use lakeql.Base.Int.{ℤ, pos, negsuc, ◌+ℤ◌, ◌-ℤ◌, compare_ℤ}
use lakeql.Base.Order.{is_lt, is_le}
use lakeql.Base.Result.{
  Result, ok, err, type_error, sql_unsupported, host_error, fuel_exhausted, ◌>>=◌,
}
use lakeql.Expr.{Number, nan, neg_infinity, pos_infinity, finite, Scalar, number, Row}
use lakeql.Evaluator.{evaluate}
use lakeql.Scalars.{Host, units_per_one}
use lakeql.Window.{
  WindowFrameBound, BoundKind, WindowFrame, FrameMode, Exclude, WindowExpr, WindowRow, WindowHost,
  same_peer,
}

pub record FrameSpan : Type 0 where
  pub start : ℕ
  pub end : ℕ

abbrev pub span : ℕ → ℕ → FrameSpan
span s e = record { start = s; end = e }

-- `clamp(value, 0, most)`
unfoldable pub clamp : ℤ → ℕ → ℕ
clamp (pos n) most = min most n
clamp (negsuc n) most = 0

unfoldable pub normalize_span : ℕ → ℤ → ℤ → FrameSpan
unfolding clamp
normalize_span row_count start end =
    let s = clamp start row_count in
    let e = clamp end row_count in if leb s e then span s e else span e e

abbrev unbounded : BoundKind → WindowFrameBound
unbounded k = record { kind = k; offset = none }

unfoldable pub effective_frame : WindowExpr → WindowFrame
effective_frame expr = elim expr.over.frame [
  | some frame ↦ frame
  | none ↦ elim expr.over.order_by [
    | [] ↦ record {
      mode = FrameMode.rows;
      start = unbounded BoundKind.unbounded_preceding;
      end = unbounded BoundKind.unbounded_following;
      exclude = Exclude.no_others;
    }
    | ◌∷◌ term terms ↦ record {
      mode = FrameMode.range;
      start = unbounded BoundKind.unbounded_preceding;
      end = unbounded BoundKind.current_row;
      exclude = Exclude.no_others;
    }
  ]
]

module _ (window : WindowHost) where
  -- `while (start > 0 && samePeer(partition[start - 1], partition[index]))`
  unfoldable pub peer_start : List WindowRow → WindowRow → ℕ → ℕ
  unfolding same_peer
  peer_start partition current zero = zero
  peer_start partition current (suc start) =
      let earlier = peer_start partition current start in
      elim (get_elem? partition start) [
        | none ↦ suc start
        | some row ↦ if same_peer window row current then earlier else suc start
      ]

  -- `while (end < partition.length && samePeer(partition[index], partition[end]))`, on the rows from
  -- `end` on.
  unfoldable pub peer_end : List WindowRow → WindowRow → ℕ → ℕ
  unfolding same_peer
  peer_end [] current end = end
  peer_end (row ∷ rows) current end =
      let later = peer_end rows current (end + 1) in
      if same_peer window current row then later else end

  -- An index that is out of range reads undefined, of which `samePeer` throws; an empty partition is not
  -- looked at.
  unfoldable pub peer_span : List WindowRow → ℕ → Result FrameSpan
  unfolding peer_start peer_end drop
  peer_span partition index = elim (get_elem? partition index) [
    | none ↦ if index == 0 then ok (span 0 1) else err host_error
    | some current ↦ ok (
        span (peer_start partition current index)
          (peer_end (drop (index + 1) partition) current (index + 1)))
  ]

  -- `while (start < partition.length)`: a span ends behind its start, so the number of rows bounds the
  -- rounds.
  unfoldable pub peer_groups_loop : ℕ → List WindowRow → ℕ → Result (List FrameSpan)
  unfolding peer_span
  peer_groups_loop zero partition start =
      if ltb start (length partition) then err fuel_exhausted else ok []
  peer_groups_loop (suc fuel) partition start =
      let next = peer_span partition start >>= λ peer.
      peer_groups_loop fuel partition peer.end >>= λ groups. ok (peer ∷ groups) in
      if ltb start (length partition) then next else ok []

  unfoldable pub peer_groups : List WindowRow → Result (List FrameSpan)
  unfolding peer_groups_loop
  peer_groups partition = peer_groups_loop (length partition) partition 0

-- `findIndex`
unfoldable pub group_index : List FrameSpan → ℕ → ℕ → Option ℕ
group_index [] index at = none
group_index (g ∷ groups) index at =
    let later = group_index groups index (at + 1) in
    if leb g.start index && ltb index g.end then some at else later

-- The whole number that a finite number is, if it is one and not negative.
unfoldable pub whole_number : Number → Option ℕ
whole_number (finite (pos k)) = if k % units_per_one == 0 then some (k / units_per_one) else none
whole_number (finite (negsuc k)) = none
whole_number nan = none
whole_number neg_infinity = none
whole_number pos_infinity = none

abbrev pub natural_offset : Scalar → Result ℕ
natural_offset (number x) = elim (whole_number x) [ none ↦ err type_error | some n ↦ ok n ]
natural_offset v = err type_error

-- `value >= 0` of a finite number.
abbrev pub number_offset : Scalar → Result Number
number_offset (number (finite (pos k))) = ok (finite (pos k))
number_offset v = err type_error

module _ (host : Host) where
  -- `evaluate(bound.offset, row)`, where the bound has an offset.
  unfoldable pub offset_value : WindowFrameBound → Row → Result Scalar
  unfolding evaluate
  offset_value bound row = elim bound.offset [
    | none ↦ err type_error
    | some e ↦ evaluate host row e
  ]

  unfoldable pub offset : WindowFrameBound → Row → Result ℕ
  unfolding offset_value whole_number
  offset bound row = offset_value bound row >>= natural_offset

  -- `rowBoundIndex`, an index among `count` rows.
  unfoldable pub bound_index : ℕ → ℕ → WindowFrameBound → Row → Result ℤ
  unfolding offset ◌-ℤ◌ ◌+ℤ◌
  bound_index count index bound row = elim bound.kind [
    | BoundKind.unbounded_preceding ↦ ok (pos 0)
    | BoundKind.unbounded_following ↦ ok (pos count -ℤ pos 1)
    | BoundKind.current_row ↦ ok (pos index)
    | BoundKind.preceding ↦ offset bound row >>= λ n. ok (pos index -ℤ pos n)
    | BoundKind.following ↦ offset bound row >>= λ n. ok (pos index +ℤ pos n)
  ]

  -- `groupBoundIndex`, the same of groups.
  abbrev pub group_bound_index : ℕ → ℕ → WindowFrameBound → Row → Result ℤ
  group_bound_index count index bound row = bound_index count index bound row

  -- `partition[index]?.row ?? {}`
  abbrev pub row_at : List WindowRow → ℕ → Row
  row_at partition index = elim (get_elem? partition index) [ none ↦ [] | some r ↦ r.row ]

  unfoldable pub rows_frame_span : List WindowRow → ℕ → WindowFrame → Result FrameSpan
  unfolding bound_index normalize_span ◌+ℤ◌
  rows_frame_span partition index frame = do
    start ← bound_index (length partition) index frame.start (row_at partition index)
    end ← bound_index (length partition) index frame.end (row_at partition index)
    ok (normalize_span (length partition) start (end +ℤ pos 1))

  abbrev start_of : Option FrameSpan → ℕ
  start_of none = 0
  start_of (some g) = g.start

  abbrev end_of : ℕ → Option FrameSpan → ℕ
  end_of row_count none = row_count
  end_of row_count (some g) = g.end

  -- The span from one group to another, which are clamped to the groups there are.
  unfoldable pub groups_span : ℕ → List FrameSpan → ℤ → ℤ → FrameSpan
  unfolding clamp normalize_span
  groups_span row_count groups start_group end_group =
      if is_lt (compare_ℤ end_group (pos 0)) || is_le (compare_ℤ (pos (length groups)) start_group)
      then span 0 0
      else normalize_span row_count
          (pos (start_of (get_elem? groups (clamp start_group (length groups - 1)))))
          (pos (end_of row_count (get_elem? groups (clamp end_group (length groups - 1)))))

  module _ (window : WindowHost) where
    unfoldable pub groups_frame_span : List WindowRow → ℕ → WindowFrame → Result FrameSpan
    unfolding peer_groups group_index bound_index groups_span
    groups_frame_span partition index frame = do
      groups ← peer_groups window partition
      let row = row_at partition index
      elim (group_index groups index 0) [
        | none ↦ ok (span 0 0)
        | some at ↦ do
          start ← group_bound_index (length groups) at frame.start row
          end ← group_bound_index (length groups) at frame.end row
          ok (groups_span (length partition) groups start end)
      ]

    abbrev range_endpoint : ℕ → FrameSpan → WindowFrameBound → ℤ → Result ℤ
    range_endpoint row_count peer bound current = elim bound.kind [
      | BoundKind.unbounded_preceding ↦ ok (pos 0)
      | BoundKind.unbounded_following ↦ ok (pos row_count -ℤ pos 1)
      | BoundKind.current_row ↦ ok current
      | BoundKind.preceding ↦ err sql_unsupported
      | BoundKind.following ↦ err sql_unsupported
    ]

    -- `rangeFrameSpan` of bounds that have no offset.
    unfoldable pub range_peers_span : List WindowRow → ℕ → WindowFrame → Result FrameSpan
    unfolding peer_span normalize_span ◌-ℤ◌ ◌+ℤ◌
    range_peers_span partition index frame = do
      peer ← peer_span window partition index
      start ← range_endpoint (length partition) peer frame.start (pos peer.start)
      end ← range_endpoint (length partition) peer frame.end (pos peer.end -ℤ pos 1)
      ok (normalize_span (length partition) start (end +ℤ pos 1))
