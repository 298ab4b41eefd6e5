-- ===== src/RowGroupPlan.antt =====
-- packages/parquet/src/row-group-plan.ts: the row groups that a scan reads, as single groups and as
-- ranges of neighbours. Row counts are exact, which they are below 2^53.
pub mod Ranges
pub mod Planned
pub mod Rows
use lakeql.Base.{
  ℕ, suc, ◌+◌, ◌-◌, ◌^◌, ◌≡◌, Bool, true, false, ◌&&◌, ◌||◌, List, [], ◌∷◌, ◌++◌, Option, none,
  some, leb, ltb, ◌==◌, if◌then◌else◌,
}
use lakeql.Base.Int.{ℤ, pos, negsuc, pos_part, neg_part, ◌+ℤ◌, ◌-ℤ◌, compare_ℤ}
use lakeql.Base.Order.{is_lt, is_le}
use lakeql.Expr.{Expr}
use lakeql.Scalars.{Host}
use lakeql.Pruning.Spatial.{JsonHost}
use lakeql.Pruning.Stats.{RowGroup, ColumnMetadata}
use lakeql.Pruning.RowGroups.{row_group_may_match}
use Ranges.{IndexRange, push_range}

pub record ByteRange : Type 0 where
  pub offset : ℤ
  pub length : ℤ

-- `safeNumber`: an integer that a double holds exactly.
pub safe_number : Option ℤ → Option ℤ
safe_number none = none
safe_number (some n) = if leb (pos_part n + neg_part n) (2 ^ 53 - 1) then some n else none

abbrev or_else : Option ℤ → Option ℤ → Option ℤ
or_else none b = b
or_else (some a) b = some a

min_ℤ : ℤ → ℤ → ℤ
min_ℤ a b = if is_le (compare_ℤ a b) then a else b

max_ℤ : ℤ → ℤ → ℤ
max_ℤ a b = if is_le (compare_ℤ a b) then b else a

-- The running minimum and maximum, of which both or neither is known.
widen : Option (ℤ × ℤ) → ℤ → ℤ → Option (ℤ × ℤ)
unfolding min_ℤ max_ℤ ◌+ℤ◌
widen none offset size = some (offset, offset +ℤ size)
widen (some (start, end)) offset size = some (min_ℤ start offset, max_ℤ end (offset +ℤ size))

-- One column chunk of the loop: a chunk whose place is not known is passed over.
widen_column : Option (ℤ × ℤ) → Option ℤ → Option ℤ → Option (ℤ × ℤ)
unfolding widen
widen_column acc none size = acc
widen_column acc (some offset) none = acc
widen_column acc (some offset) (some size) =
    if is_lt (compare_ℤ size (pos 0)) then acc else widen acc offset size

columns_extent : List (Option ColumnMetadata) → Option (ℤ × ℤ) → Option (ℤ × ℤ)
unfolding widen_column safe_number
columns_extent [] acc = acc
columns_extent (none ∷ columns) acc = columns_extent columns acc
columns_extent (some m ∷ columns) acc = columns_extent columns (
    widen_column acc (safe_number (or_else m.dictionary_page_offset m.data_page_offset))
      (safe_number m.total_compressed_size))

range_of_extent : Option (ℤ × ℤ) → Option ByteRange
unfolding ◌-ℤ◌
range_of_extent none = none
range_of_extent (some (start, end)) =
    if is_lt (compare_ℤ end start)
    then none
    else some (record { offset = start; length = end -ℤ start })

own_range : Option ℤ → Option ℤ → Option ByteRange
own_range none size = none
own_range (some offset) none = none
own_range (some offset) (some size) =
    if is_lt (compare_ℤ (pos 0) size)
    then some (record { offset = offset; length = size })
    else none

pub row_group_byte_range : RowGroup → Option ByteRange
unfolding columns_extent range_of_extent own_range safe_number
row_group_byte_range group =
    elim (own_range (safe_number group.file_offset) (safe_number group.total_compressed_size)) [
      | some r ↦ some r
      | none ↦ range_of_extent (columns_extent group.columns none)
    ]

pub record PlannedRowGroup : Type 0 where
  pub index : ℕ
  pub row_start : ℕ
  pub row_count : ℕ
  pub byte_range : Option ByteRange

pub record RowGroupPlan : Type 0 where
  pub row_groups : List PlannedRowGroup
  pub row_group_ranges : List IndexRange

abbrev pub empty_plan : RowGroupPlan
empty_plan = record { row_groups = []; row_group_ranges = [] }

-- Planning one row group.
unfoldable pub add_group : RowGroupPlan → ℕ → ℕ → RowGroup → RowGroupPlan
unfolding row_group_byte_range push_range
add_group plan index row_start group = record {
  row_groups =
      plan.row_groups
      ++ (record {
        index = index;
        row_start = row_start;
        row_count = group.num_rows;
        byte_range = row_group_byte_range group;
      }
          ∷ []);
  row_group_ranges = push_range plan.row_group_ranges index;
}

module _ (host : Host) (json : JsonHost) (where_expr : Option Expr) where
  -- The loop over the row groups, from an index and the number of rows before it.
  unfoldable pub plan_loop : List RowGroup → ℕ → ℕ → RowGroupPlan → RowGroupPlan
  unfolding add_group
  plan_loop [] index row_start plan = plan
  plan_loop (group ∷ groups) index row_start plan =
      plan_loop groups (index + 1) (row_start + group.num_rows) (
        if row_group_may_match host group json where_expr
        then add_group plan index row_start group
        else plan)

  -- `planRowGroupsFromMetadata`, on a schema that is supported.
  unfoldable pub plan_row_groups_from_metadata : List RowGroup → RowGroupPlan
  unfolding plan_loop
  plan_row_groups_from_metadata groups = plan_loop groups 0 0 empty_plan
