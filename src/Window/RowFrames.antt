-- ===== src/Window/RowFrames.antt =====
-- The rows of a ROWS frame of packages/core/src/window-frame.ts, by their distance.
use lakeql.Base.{ℕ, ◌≤◌, ◌<◌, ◌≡◌, refl, arith, ◌↔◌, List, length}
use lakeql.Base.Int.{ℤ, pos, negsuc, ◌+ℤ◌, ◌≤ℤ◌}
use lakeql.Base.Result.{ok}
use lakeql.Scalars.{Host}
use lakeql.Window.{WindowRow, WindowFrame}
use lakeql.Window.Frames.{FrameSpan, clamp, normalize_span, bound_index, row_at, rows_frame_span}

abbrev pub Has : FrameSpan → ℕ → Type 0
Has s i = (s.start ≤ i) × (i < s.end)

normalize_span-Has :
    (n : ℕ) (lowest highest : ℤ) (i : ℕ)
    → Has (normalize_span n lowest (highest +ℤ pos 1)) i
      ↔ (i < n) × (lowest ≤ℤ pos i) × (pos i ≤ℤ highest)
unfolding normalize_span clamp ◌+ℤ◌
normalize_span-Has n (pos l) (pos h) i = ground arith
normalize_span-Has n (pos l) (negsuc h) i = ground arith
normalize_span-Has n (negsuc l) (pos h) i = ground arith
normalize_span-Has n (negsuc l) (negsuc h) i = ground arith

-- Where the bounds of a ROWS frame are the indices `lowest` and `highest`, which may be out of range, the
-- frame has the rows of the partition from the one to the other, both included, and no others.
pub rows_frame_span-Has :
    (host : Host) (partition : List WindowRow) (index : ℕ) (frame : WindowFrame)
    (lowest highest : ℤ)
    → bound_index host (length partition) index frame.start (row_at host partition index)
      ≡ ok lowest
    → bound_index host (length partition) index frame.end (row_at host partition index) ≡ ok highest
    → (s : FrameSpan) × (rows_frame_span host partition index frame ≡ ok s)
      × ((i : ℕ) → Has s i ↔ (i < length partition) × (lowest ≤ℤ pos i) × (pos i ≤ℤ highest))
unfolding rows_frame_span
rows_frame_span-Has host partition index frame lowest highest l h = (
  normalize_span (length partition) lowest (highest +ℤ pos 1),
  rw l (rw h refl),
  normalize_span-Has (length partition) lowest highest,
)
