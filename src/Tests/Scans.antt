-- ===== src/Tests/Scans.antt =====
-- Pruning, planning and predicates on a row group with one column of texts.
use lakeql.Base.{
  All, ℕ, ◌≡◌, refl, ◌↔◌, inl, inr, Ordering, true, false, [], ◌∷◌, none, some, arith, Any, List,
  Bool-cases, leb,
}
use lakeql.Base.Int.{ℤ}
use lakeql.Base.Result.{ok, err, type_error}
use lakeql.Base.Search.{below_at, lower_bound, prefix_length, IsSplit, lower_bound-eq-prefix_length}
use lakeql.Expr.{
  Text, nan, text, bigint, boolean, null, CompareOp, LogicalOp, Expr, Exprs, scalar, Row,
}
use lakeql.Scalars.{Host, exact, js_order, timestamp_value_from_iso, strip_pattern}
use lakeql.Base.Order.{compare_text}
use lakeql.Evaluator.{
  text_eq, row_value, evaluate, evaluate_all, matches, compare_scalars, find_cell, compare_order,
  to_sql_boolean, sql_and,
}
use lakeql.Builders.{ValueInput, named, plain, is_in, not_in}
use lakeql.Builders.Membership.{IsListed, IsApart, is_in-not_in}
use lakeql.PredicatePlan.{PredicatePlanOptions, classify_predicate}
use lakeql.PredicatePlan.Conjuncts.{AllParts, Holds, classify_predicate-Holds}
use lakeql.Pruning.Stats.{
  RowGroup, ColumnStats, ColumnLiteral, column_stats, column_literal_compare, invert_compare_op,
  columns_stats, chunk_for, chunk_stats, stats_of, coalesce, is_stats_value, join_path, usable,
  same_comparable_type, compare_values, timestamps_or, timestamp_stats_value, stats_same_type,
  lossless_number_bigint,
}
use lakeql.Pruning.Spatial.{JsonHost}
use lakeql.Pruning.RowGroups.{
  row_group_may_match, row_group_must_match, must_match, compare_must_match, literal_must_match,
  must_by_order,
}
use lakeql.Pruning.Bounds.{texts}
use lakeql.Pruning.Agree.{Describes, CompareAgrees, LiteralsAgree}
use lakeql.Pruning.MaySound.{row_group_may_match_sound}
use lakeql.Pruning.MustSound.{row_group_must_match_sound}
use lakeql.Pruning.Inverted.{compare_scalars-invert}
use lakeql.RowGroupPlan.{plan_row_groups_from_metadata}
use lakeql.RowGroupPlan.Ranges.{range_indices, IsSeparated}
use lakeql.RowGroupPlan.Rows.{IsPlaced, plan_row_groups-IsPlaced}
use lakeql.RowGroupPlan.Planned.{planned_indices, plan_ranges, plan-holds_matching}

abbrev pub test_host : Host
test_host = record {
  date_parse = λ s. none;
  mixed_order = λ a b. Ordering.eq;
  arithmetic_op = λ op a b. nan;
  number_of_bigint = λ n. exact n;
  like_test = λ p ci s. ok false;
  call_function = λ fn vs. err type_error;
}

abbrev test_json : JsonHost
test_json = record { json_parse = λ s. none; json_stringify = λ s. s }

abbrev name_column : Text
name_column = b'n' ∷ []

-- "b" and "m" bound the column, and the row has "f".
abbrev name_stats : ColumnStats
name_stats = record { min = text (b'b' ∷ []); max = text (b'm' ∷ []); has_no_nulls = true }

abbrev names_group : RowGroup
names_group = record {
  columns =
      some (record {
        path_in_schema = name_column ∷ [];
        statistics = some (record {
          min_value = some (text (b'b' ∷ []));
          max_value = some (text (b'm' ∷ []));
          min = none;
          max = none;
          null_count = some 0;
        });
        dictionary_page_offset = none;
        data_page_offset = none;
        total_compressed_size = none;
      })
      ∷ [];
  num_rows = 4;
  file_offset = none;
  total_compressed_size = none;
}

abbrev empty_group : RowGroup
empty_group = record {
  columns = [];
  num_rows = 3;
  file_offset = none;
  total_compressed_size = none;
}

abbrev f_row : Row
f_row = (name_column, scalar (text (b'f' ∷ []))) ∷ []

-- n > "a" and n < "z"
abbrev wide : Expr
wide = Expr.logical LogicalOp.and (
    Exprs.cons
      (Expr.compare CompareOp.gt (Expr.column name_column) (Expr.literal (text (b'a' ∷ []))))
      (Exprs.cons
        (Expr.compare CompareOp.lt (Expr.column name_column) (Expr.literal (text (b'z' ∷ []))))
        Exprs.nil))

names_stats : (s : ColumnStats) → column_stats names_group name_column ≡ some s → name_stats ≡ s
unfolding column_stats columns_stats chunk_for chunk_stats stats_of coalesce is_stats_value
    join_path compare_text
names_stats s h = ground arith

names-Describes : Describes names_group f_row
unfolding column_stats columns_stats chunk_for chunk_stats stats_of coalesce is_stats_value
    join_path compare_text row_value find_cell
names-Describes name s v hs hv = elim (Bool-cases (text_eq name_column name)) [
  | inl e ↦
      let es : name_stats ≡ s = ground arith in
      let ev : text (b'f' ∷ []) ≡ v = ground arith in
      rw (← es, ← ev) (texts (b'b' ∷ []) (b'm' ∷ []) (b'f' ∷ []) refl refl refl refl)
  | inr e ↦ absurd (ground arith)
]

compare-agrees :
    (op : CompareOp) (c : ℕ)
    → timestamp_value_from_iso test_host (c ∷ []) ≡ none
    → CompareAgrees test_host names_group op
        (Expr.column name_column)
        (Expr.literal (text (c ∷ [])))
unfolding column_literal_compare usable is_stats_value
compare-agrees op c n p s hp hs =
    let literal : ColumnLiteral = record { column = name_column; op = op; value = text (c ∷ []) } in
    let ep : literal ≡ p = ground arith in
    let found : column_stats names_group name_column ≡ some s = rw (← ep) at hs in
    let es : name_stats ≡ s = names_stats s found in rw (← ep, ← es) (inl n, inl n)

wide-agrees : LiteralsAgree test_host names_group wide
unfolding LiteralsAgree timestamp_value_from_iso strip_pattern
wide-agrees = (compare-agrees CompareOp.gt b'a' refl, (compare-agrees CompareOp.lt b'z' refl, tt))

wide-matches : matches test_host f_row (some wide) ≡ ok true
unfolding matches evaluate row_value find_cell compare_text compare_scalars compare_order
    to_sql_boolean sql_and js_order
wide-matches = refl

wide-must : row_group_must_match test_host names_group (some wide) ≡ true
unfolding row_group_must_match must_match compare_must_match literal_must_match must_by_order
    same_comparable_type column_literal_compare usable column_stats columns_stats chunk_for
    chunk_stats stats_of coalesce is_stats_value join_path compare_text compare_values timestamps_or
    timestamp_stats_value js_order timestamp_value_from_iso strip_pattern stats_same_type
    lossless_number_bigint
wide-must = refl

row_group_may_match_sound_example :
    row_group_may_match test_host names_group test_json (some wide) ≡ true
row_group_may_match_sound_example =
    row_group_may_match_sound test_host names_group f_row names-Describes test_json wide wide-agrees
      wide-matches

row_group_must_match_sound_example : matches test_host f_row (some wide) ≡ ok true
row_group_must_match_sound_example =
    row_group_must_match_sound test_host names_group f_row names-Describes wide {b = true}
      wide-agrees wide-must wide-matches

plan_ranges_example :
    (range_indices
        (plan_row_groups_from_metadata test_host test_json
          (some wide)
          (names_group ∷ empty_group ∷ [])).row_group_ranges
      ≡ planned_indices (
          plan_row_groups_from_metadata test_host test_json
            (some wide)
            (names_group ∷ empty_group ∷ [])))
    × IsSeparated
        (plan_row_groups_from_metadata test_host test_json
          (some wide)
          (names_group ∷ empty_group ∷ [])).row_group_ranges
plan_ranges_example = plan_ranges test_host test_json (some wide) (names_group ∷ empty_group ∷ [])

plan_row_groups-IsPlaced_example :
    All
      (IsPlaced test_host test_json (some wide) (empty_group ∷ names_group ∷ []))
      (plan_row_groups_from_metadata test_host test_json
        (some wide)
        (empty_group ∷ names_group ∷ [])).row_groups
plan_row_groups-IsPlaced_example =
    plan_row_groups-IsPlaced test_host test_json (some wide) (empty_group ∷ names_group ∷ [])

plan-holds_matching_example :
    Any
      (λ k. k ≡ 1)
      (range_indices
        (plan_row_groups_from_metadata test_host test_json
          (some wide)
          (empty_group ∷ names_group ∷ [])).row_group_ranges)
plan-holds_matching_example =
    plan-holds_matching test_host test_json wide (empty_group ∷ names_group ∷ []) 1 names_group
      f_row refl names-Describes wide-agrees wide-matches

compare_scalars-invert_example :
    compare_scalars test_host CompareOp.lt (bigint (ℤ.pos 3)) (bigint (ℤ.pos 5))
    ≡ compare_scalars test_host
        (invert_compare_op CompareOp.lt)
        (bigint (ℤ.pos 5))
        (bigint (ℤ.pos 3))
compare_scalars-invert_example =
    compare_scalars-invert test_host CompareOp.lt (bigint (ℤ.pos 3)) (bigint (ℤ.pos 5))

-- A list of another name and a null.
abbrev g_or_null : List ValueInput
g_or_null = plain (text (b'g' ∷ [])) ∷ plain null ∷ []

f_row-name : evaluate test_host f_row (Expr.column name_column) ≡ ok (text (b'f' ∷ []))
unfolding evaluate row_value find_cell compare_text
f_row-name = refl

g_or_null-values :
    evaluate_all test_host f_row
      (Exprs.cons (Expr.literal (text (b'g' ∷ []))) (Exprs.cons (Expr.literal null) Exprs.nil))
    ≡ ok (text (b'g' ∷ []) ∷ null ∷ [])
unfolding evaluate_all
g_or_null-values = refl

is_in-not_in_example :
    (p : Expr) × (q : Expr) × (is_in (named name_column) g_or_null ≡ some p)
    × (not_in (named name_column) g_or_null ≡ some q)
    × ((evaluate test_host f_row p ≡ ok (boolean true))
        ↔ IsListed test_host (text (b'f' ∷ [])) (text (b'g' ∷ []) ∷ null ∷ []))
    × ((evaluate test_host f_row p ≡ ok (boolean false))
        ↔ IsApart test_host (text (b'f' ∷ [])) (text (b'g' ∷ []) ∷ null ∷ []))
    × ((evaluate test_host f_row q ≡ ok (boolean false))
        ↔ IsListed test_host (text (b'f' ∷ [])) (text (b'g' ∷ []) ∷ null ∷ []))
    × ((evaluate test_host f_row q ≡ ok (boolean true))
        ↔ IsApart test_host (text (b'f' ∷ [])) (text (b'g' ∷ []) ∷ null ∷ []))
is_in-not_in_example =
    is_in-not_in test_host f_row (named name_column) g_or_null refl f_row-name g_or_null-values

abbrev name_options : PredicatePlanOptions
name_options = record {
  partition_columns = [];
  file_stats_columns = name_column ∷ [];
  row_group_stats_columns = [];
}

classify_predicate-Holds_example :
    AllParts (Holds test_host f_row) (classify_predicate name_options (some wide))
    ↔ Holds test_host f_row wide
classify_predicate-Holds_example = classify_predicate-Holds test_host f_row name_options wide

small-IsSplit : IsSplit (λ x. leb x 4) (1 ∷ 3 ∷ 8 ∷ [])
unfolding below_at
small-IsSplit i j le h = ground arith

lower_bound-eq-prefix_length_example :
    lower_bound (λ x. leb x 4) (1 ∷ 3 ∷ 8 ∷ []) ≡ prefix_length (λ x. leb x 4) (1 ∷ 3 ∷ 8 ∷ [])
lower_bound-eq-prefix_length_example =
    lower_bound-eq-prefix_length (λ x. leb x 4) (1 ∷ 3 ∷ 8 ∷ []) small-IsSplit
