-- ===== src/Pruning/Spatial.antt =====
-- packages/parquet/src/row-group-pruning.ts: pruning by bounding boxes and H3 cells. JSON is read
-- and written by the host.
use lakeql.Base.{
  Ordering, Bool, true, false, ◌&&◌, ◌||◌, List, [], ◌∷◌, ◌++◌, Option, none, some, if◌then◌else◌,
  any,
}
use lakeql.Base.Int.{ℤ, compare_ℤ}
use lakeql.Base.Order.{is_le, compare_text}
use lakeql.Expr.{Text, Number, nan, finite, Scalar, text, number, bigint, Expr, Exprs}
use lakeql.Scalars.{Host, compare_number}
use lakeql.Evaluator.{text_eq}
use lakeql.Pruning.Stats.{RowGroup, column_stats}

-- What the code tells apart in a parsed JSON value.
pub data JsonItem : Type 0 where
  json_text : Text → JsonItem
  json_number : Number → JsonItem
  json_item : JsonItem

pub data Json : Type 0 where
  json_array : List JsonItem → Json
  json_other : Json

pub record JsonHost : Type 0 where
  -- `JSON.parse`; `none` is a thrown error.
  pub json_parse : Text → Option Json
  -- `JSON.stringify` of an array of one string.
  pub json_stringify : Text → Text

pub record BBox : Type 0 where
  pub minx : Number
  pub miny : Number
  pub maxx : Number
  pub maxy : Number

abbrev is_nan : Number → Bool
is_nan nan = true
is_nan x = false

-- `left <= right` on numbers.
unfoldable pub number_le : Number → Number → Bool
unfolding compare_number
number_le a b = if is_nan a || is_nan b then false else is_le (compare_number a b)

ordered_bbox : Number → Number → Number → Number → Option BBox
ordered_bbox minx miny maxx maxy =
    if number_le minx maxx && number_le miny maxy
    then some (record { minx = minx; miny = miny; maxx = maxx; maxy = maxy })
    else none

-- `numberTuple4` and the test that follows it.
tuple_bbox : List JsonItem → Option BBox
unfolding ordered_bbox number_le
tuple_bbox (json_number a ∷ json_number b ∷ json_number c ∷ json_number d ∷ []) =
    ordered_bbox a b c d
tuple_bbox items = none

literal_item : Expr → JsonItem
literal_item (Expr.literal (number x)) = json_number x
literal_item (Expr.literal (text s)) = json_text s
literal_item e = json_item

items_of : Exprs → List JsonItem
unfolding literal_item
items_of Exprs.nil = []
items_of (Exprs.cons e es) = literal_item e ∷ items_of es

-- "st_bbox", "st_intersects", "h3_in", "h3_within", "minx", …
abbrev pub st_bbox : Text
st_bbox = b's' ∷ b't' ∷ b'_' ∷ b'b' ∷ b'b' ∷ b'o' ∷ b'x' ∷ []

abbrev pub st_intersects : Text
st_intersects =
    b's' ∷ b't' ∷ b'_' ∷ b'i' ∷ b'n' ∷ b't' ∷ b'e' ∷ b'r' ∷ b's' ∷ b'e' ∷ b'c' ∷ b't' ∷ b's' ∷ []

abbrev pub h3_in : Text
h3_in = b'h' ∷ b'3' ∷ b'_' ∷ b'i' ∷ b'n' ∷ []

abbrev pub h3_within : Text
h3_within = b'h' ∷ b'3' ∷ b'_' ∷ b'w' ∷ b'i' ∷ b't' ∷ b'h' ∷ b'i' ∷ b'n' ∷ []

abbrev minx_name : Text
minx_name = b'm' ∷ b'i' ∷ b'n' ∷ b'x' ∷ []

abbrev miny_name : Text
miny_name = b'm' ∷ b'i' ∷ b'n' ∷ b'y' ∷ []

abbrev maxx_name : Text
maxx_name = b'm' ∷ b'a' ∷ b'x' ∷ b'x' ∷ []

abbrev maxy_name : Text
maxy_name = b'm' ∷ b'a' ∷ b'x' ∷ b'y' ∷ []

module _ (host : Host) (json : JsonHost) where
  bbox_of_json : Option Json → Option BBox
  bbox_of_json none = none
  bbox_of_json (some json_other) = none
  bbox_of_json (some (json_array items)) = tuple_bbox items

  -- A query that is not an argument at all is `none`.
  pub bbox_literal : Option Expr → Option BBox
  unfolding bbox_of_json tuple_bbox items_of
  bbox_literal (some (Expr.call fn args)) =
      if text_eq fn st_bbox then tuple_bbox (items_of args) else none
  bbox_literal (some (Expr.literal (text s))) = bbox_of_json (json.json_parse s)
  bbox_literal e = none

  number_of : Scalar → Option Number
  number_of (number x) = some x
  number_of (bigint n) = some (host.number_of_bigint n)
  number_of v = none

  -- `numericColumnStats`: both bounds as numbers.
  numeric_column_stats : RowGroup → Text → Option (Number × Number)
  unfolding number_of column_stats
  numeric_column_stats group column = elim (column_stats group column) [
    | none ↦ none
    | some s ↦ elim (number_of s.min) [
      | none ↦ none
      | some lo ↦ elim (number_of s.max) [ none ↦ none | some hi ↦ some (lo, hi) ]
    ]
  ]

  bbox_of_columns : RowGroup → Text → Text → Text → Text → Option BBox
  unfolding numeric_column_stats
  bbox_of_columns group a b c d = elim (numeric_column_stats group a) [
    | none ↦ none
    | some x0 ↦ elim (numeric_column_stats group b) [
      | none ↦ none
      | some y0 ↦ elim (numeric_column_stats group c) [
        | none ↦ none
        | some x1 ↦ elim (numeric_column_stats group d) [
          | none ↦ none
          | some y1 ↦ some (record { minx = x0.0; miny = y0.0; maxx = x1.1; maxy = y1.1 })
        ]
      ]
    ]
  ]

  pub row_group_bbox : RowGroup → Text → Option BBox
  unfolding bbox_of_columns
  row_group_bbox group column =
      elim (bbox_of_columns group (column ++ b'_' ∷ minx_name) (column ++ b'_' ∷ miny_name)
        (column ++ b'_' ∷ maxx_name) (column ++ b'_' ∷ maxy_name)) [
          | some box ↦ some box
          | none ↦ bbox_of_columns group minx_name miny_name maxx_name maxy_name
        ]

  pub boxes_meet : BBox → BBox → Bool
  unfolding number_le
  boxes_meet group query =
      number_le query.minx group.maxx
      && number_le group.minx query.maxx
      && number_le query.miny group.maxy
      && number_le group.miny query.maxy

  -- The first and the second argument of a call.
  first_arg : Exprs → Option Expr
  first_arg Exprs.nil = none
  first_arg (Exprs.cons e es) = some e

  rest_args : Exprs → Exprs
  rest_args Exprs.nil = Exprs.nil
  rest_args (Exprs.cons e es) = es

  pub st_intersects_may_match : RowGroup → Exprs → Bool
  unfolding bbox_literal row_group_bbox boxes_meet first_arg
  st_intersects_may_match group (Exprs.cons (Expr.column name) es) =
      elim (bbox_literal (first_arg es)) [
        | none ↦ true
        | some query ↦ elim (row_group_bbox group name) [
          | none ↦ true
          | some box ↦ boxes_meet box query
        ]
      ]
  st_intersects_may_match group args = true

  texts_of : List JsonItem → Option (List Text)
  texts_of [] = some []
  texts_of (json_text s ∷ items) = elim (texts_of items) [ none ↦ none | some ss ↦ some (s ∷ ss) ]
  texts_of (item ∷ items) = none

  cells_of_json : Option Json → Option (List Text)
  unfolding texts_of
  cells_of_json none = none
  cells_of_json (some json_other) = none
  cells_of_json (some (json_array items)) = texts_of items

  pub h3_cell_list : Option Expr → Option (List Text)
  unfolding cells_of_json
  h3_cell_list (some (Expr.literal (text s))) = cells_of_json (json.json_parse s)
  h3_cell_list e = none

  cells_may_match : List Text → Scalar → Scalar → Bool
  cells_may_match cells (text lo) (text hi) =
      any (λ cell. is_le (compare_text lo cell) && is_le (compare_text cell hi)) cells
  cells_may_match cells min max = true

  pub h3_in_may_match : RowGroup → Exprs → Bool
  unfolding h3_cell_list cells_may_match column_stats first_arg
  h3_in_may_match group (Exprs.cons (Expr.column name) es) = elim (h3_cell_list (first_arg es)) [
    | none ↦ true
    | some cells ↦ elim (column_stats group name) [
      | none ↦ true
      | some s ↦ cells_may_match cells s.min s.max
    ]
  ]
  h3_in_may_match group args = true

  is_zero_radius : Option Expr → Bool
  is_zero_radius (some (Expr.literal (number (finite k)))) = elim (compare_ℤ k (ℤ.pos 0)) [
    | Ordering.eq ↦ true
    | _ ↦ false
  ]
  is_zero_radius e = false

  pub h3_within_may_match : RowGroup → Exprs → Bool
  unfolding h3_in_may_match is_zero_radius first_arg
  h3_within_may_match group
        (Exprs.cons (Expr.column name) (Exprs.cons (Expr.literal (text origin)) es)) =
      if is_zero_radius (first_arg es)
      then h3_in_may_match group (
          Exprs.cons (Expr.column name)
            (Exprs.cons (Expr.literal (text (json.json_stringify origin))) Exprs.nil))
      else true
  h3_within_may_match group args = true

  unfoldable pub call_may_match : RowGroup → Text → Exprs → Bool
  unfolding st_intersects_may_match h3_in_may_match h3_within_may_match
  call_may_match group fn args =
      if text_eq fn st_intersects
      then st_intersects_may_match group args
      else if text_eq fn h3_in
      then h3_in_may_match group args
      else if text_eq fn h3_within
      then h3_within_may_match group args
      else true
