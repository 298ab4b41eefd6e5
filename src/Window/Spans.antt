-- ===== src/Window/Spans.antt =====
-- The frame of a row lies among the rows of its partition (packages/core/src/window-frame.ts).
use lakeql.Base.{ℕ, ◌≤◌, arith, List, length, Option-cases, inl, inr}
use lakeql.Base.Int.{ℤ, pos, negsuc}
use lakeql.Base.Result.{Result}
use lakeql.Base.Returns.{Ensures, returned, Ensures-bind, Ensures-if}
use lakeql.Scalars.{Host}
use lakeql.Window.{WindowRow, WindowHost, WindowExpr, WindowFrame, FrameMode}
use lakeql.Window.Frames.{
  FrameSpan, clamp, normalize_span, effective_frame, rows_frame_span, groups_span, group_index,
  groups_frame_span, range_peers_span, peer_groups,
}
use lakeql.Window.RangeFrames.{range_rows, range_offset_frame_span, range_frame_span, frame_span}

-- A span of rows among `n`.
abbrev pub IsAmong : ℕ → FrameSpan → Type 0
IsAmong n s = (s.start ≤ s.end) × (s.end ≤ n)

clamp-le : (v : ℤ) (n : ℕ) → clamp v n ≤ n
unfolding clamp
clamp-le (pos k) n = ground arith
clamp-le (negsuc k) n = ground arith

normalize_span-IsAmong : (n : ℕ) (start end : ℤ) → IsAmong n (normalize_span n start end)
unfolding normalize_span
normalize_span-IsAmong n start end = ground (arith, clamp-le start n, clamp-le end n)

groups_span-IsAmong :
    (host : Host) (n : ℕ) (groups : List FrameSpan) (start end : ℤ)
    → IsAmong n (groups_span host n groups start end)
unfolding groups_span
groups_span-IsAmong host n groups start end =
    let inner = normalize_span-IsAmong n in ground (arith, inner)

module _ (host : Host) (window : WindowHost) (partition : List WindowRow) (index : ℕ) where
  rows_frame_span-IsAmong :
      (frame : WindowFrame)
      → Ensures (IsAmong (length partition)) (rows_frame_span host partition index frame)
  unfolding rows_frame_span
  rows_frame_span-IsAmong frame =
      search (Ensures-bind, Ensures.returned, normalize_span-IsAmong) depth 20

  groups_frame_span-IsAmong :
      (frame : WindowFrame)
      → Ensures (IsAmong (length partition)) (groups_frame_span host window partition index frame)
  unfolding groups_frame_span
  groups_frame_span-IsAmong frame = Ensures-bind (peer_groups window partition) (λ groups.
      elim (Option-cases (group_index groups index 0)) [
        | inl e ↦ rw e (returned (omega arith, omega arith))
        | inr (at, e) ↦ rw e (search (Ensures-bind, Ensures.returned, groups_span-IsAmong) depth 20)
      ])

  range_peers_span-IsAmong :
      (frame : WindowFrame)
      → Ensures (IsAmong (length partition)) (range_peers_span host window partition index frame)
  unfolding range_peers_span
  range_peers_span-IsAmong frame =
      search (Ensures-bind, Ensures.returned, normalize_span-IsAmong) depth 20

  range_offset-IsAmong :
      (expr : WindowExpr) (frame : WindowFrame)
      → Ensures
          (IsAmong (length partition))
          (range_offset_frame_span host window partition index expr frame)
  unfolding range_offset_frame_span range_rows
  range_offset-IsAmong expr frame =
      search (Ensures-bind, Ensures.returned, normalize_span-IsAmong) depth 20

  mode_span : WindowExpr → WindowFrame → FrameMode → Result FrameSpan
  mode_span expr frame mode = elim mode [
    | FrameMode.rows ↦ rows_frame_span host partition index frame
    | FrameMode.groups ↦ groups_frame_span host window partition index frame
    | FrameMode.range ↦ range_frame_span host window partition index expr frame
  ]

  mode_span-IsAmong :
      (expr : WindowExpr) (frame : WindowFrame) (mode : FrameMode)
      → Ensures (IsAmong (length partition)) (mode_span expr frame mode)
  unfolding mode_span range_frame_span
  mode_span-IsAmong expr frame FrameMode.rows = rows_frame_span-IsAmong frame
  mode_span-IsAmong expr frame FrameMode.groups = groups_frame_span-IsAmong frame
  mode_span-IsAmong expr frame FrameMode.range =
      Ensures-if _ (range_offset-IsAmong expr frame) (range_peers_span-IsAmong frame)

  -- The frame of a row, in every mode and for every bounds, begins no later than it ends and ends no later
  -- than the partition, unless computing it fails.
  pub frame_span-IsAmong :
      (expr : WindowExpr)
      → Ensures (IsAmong (length partition)) (frame_span host window partition index expr)
  unfolding frame_span mode_span
  frame_span-IsAmong expr =
      mode_span-IsAmong expr (effective_frame expr) ((effective_frame expr).mode)
