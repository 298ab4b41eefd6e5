-- ===== src/PredicatePlan.antt =====
-- packages/core/src/predicate-plan.ts: a predicate is split into its conjuncts, and each conjunct is
-- assigned to the earliest place that can decide or prune by it.
pub mod Conjuncts
use lakeql.Base.{
  ℕ, Bool, true, false, ◌&&◌, ◌||◌, List, [], ◌∷◌, ◌++◌, Option, none, some, if◌then◌else◌, any,
  all,
}
use lakeql.Expr.{Text, Scalar, null, LogicalOp, Expr, Exprs, Whens, OtherwiseExpr}
use lakeql.Evaluator.{text_eq}

pub record PredicatePlan : Type 0 where
  pub partition : List Expr
  pub file_stats : List Expr
  pub row_group_stats : List Expr
  pub residual : List Expr

pub record PredicatePlanOptions : Type 0 where
  pub partition_columns : List Text
  pub file_stats_columns : List Text
  pub row_group_stats_columns : List Text

-- `columns.has(name)`, for a set as a list of its names.
unfoldable pub has : List Text → Text → Bool
has [] name = false
has (c ∷ cs) name = text_eq c name || has cs name

abbrev pub is_empty : List Text → Bool
is_empty [] = true
is_empty (c ∷ cs) = false

unfoldable mutual
  pub conjuncts : Expr → List Expr
  conjuncts (Expr.logical LogicalOp.and es) = conjuncts_all es
  conjuncts e = e ∷ []

  pub conjuncts_all : Exprs → List Expr
  conjuncts_all Exprs.nil = []
  conjuncts_all (Exprs.cons e es) = conjuncts e ++ conjuncts_all es

-- `columns.add(name)`
abbrev add_column : Text → List Text → List Text
add_column name used = if has used name then used else used ++ (name ∷ [])

unfoldable mutual
  unfolding has

  pub collect_columns : Expr → List Text → List Text
  collect_columns (Expr.column name) used = add_column name used
  collect_columns (Expr.literal v) used = used
  collect_columns (Expr.compare op l r) used = collect_columns r (collect_columns l used)
  collect_columns (Expr.in_list n t vs) used = collect_all vs (collect_columns t used)
  collect_columns (Expr.between t l h) used =
      collect_columns h (collect_columns l (collect_columns t used))
  collect_columns (Expr.null_check n t) used = collect_columns t used
  collect_columns (Expr.logical op es) used = collect_all es used
  collect_columns (Expr.not e) used = collect_columns e used
  collect_columns (Expr.like ci t p) used = collect_columns t used
  collect_columns (Expr.call fn es) used = collect_all es used
  collect_columns (Expr.arithmetic op l r) used = collect_columns r (collect_columns l used)
  collect_columns (Expr.case_when ws o) used = collect_else o (collect_whens ws used)

  pub collect_all : Exprs → List Text → List Text
  collect_all Exprs.nil used = used
  collect_all (Exprs.cons e es) used = collect_all es (collect_columns e used)

  pub collect_whens : Whens → List Text → List Text
  collect_whens Whens.no_when used = used
  collect_whens (Whens.when c v ws) used =
      collect_whens ws (collect_columns v (collect_columns c used))

  pub collect_else : OtherwiseExpr → List Text → List Text
  collect_else OtherwiseExpr.no_else used = used
  collect_else (OtherwiseExpr.else_expr e) used = collect_columns e used

unfoldable pub every_has : List Text → List Text → Bool
unfolding has
every_has columns [] = true
every_has columns (c ∷ cs) = has columns c && every_has columns cs

unfoldable pub uses_only_columns : Expr → List Text → Bool
unfolding collect_columns every_has
uses_only_columns e columns =
    let used = collect_columns e [] in if is_empty used then false else every_has columns used

abbrev is_null_scalar : Scalar → Bool
is_null_scalar null = true
is_null_scalar v = false

unfoldable pub column_literal_pair : Expr → Expr → Option Text
column_literal_pair (Expr.column name) (Expr.literal v) =
    if is_null_scalar v then none else some name
column_literal_pair (Expr.literal v) (Expr.column name) =
    if is_null_scalar v then none else some name
column_literal_pair l r = none

-- `expr.values.some((value) => value.kind !== "literal" || value.value === null)`
unfoldable pub has_other_value : Exprs → Bool
has_other_value Exprs.nil = false
has_other_value (Exprs.cons (Expr.literal v) es) = is_null_scalar v || has_other_value es
has_other_value (Exprs.cons e es) = true

abbrev when_listed : List Text → Text → Option Text
when_listed columns name = if has columns name then some name else none

stats_column : Expr → List Text → Option Text
unfolding column_literal_pair has_other_value
stats_column (Expr.compare op l r) columns = elim (column_literal_pair l r) [
  | none ↦ none
  | some name ↦ when_listed columns name
]
stats_column (Expr.in_list false (Expr.column name) values) columns =
    if has_other_value values then none else when_listed columns name
stats_column (Expr.between (Expr.column name) (Expr.literal l) (Expr.literal h)) columns =
    when_listed columns name
stats_column e columns = none

unfoldable pub stats_predicate_column : Expr → List Text → Option Text
unfolding stats_column has
stats_predicate_column e columns = if is_empty columns then none else stats_column e columns

abbrev pub is_some : Option Text → Bool
is_some none = false
is_some (some name) = true

module _ (options : PredicatePlanOptions) where
  -- One conjunct of the loop.
  unfoldable pub add_part : PredicatePlan → Expr → PredicatePlan
  unfolding uses_only_columns stats_predicate_column
  add_part plan part =
      if uses_only_columns part options.partition_columns
      then record plan { partition = plan.partition ++ (part ∷ []) }
      else if is_some (stats_predicate_column part options.row_group_stats_columns)
      then record plan { row_group_stats = plan.row_group_stats ++ (part ∷ []) }
      else if is_some (stats_predicate_column part options.file_stats_columns)
      then record plan { file_stats = plan.file_stats ++ (part ∷ []) }
      else record plan { residual = plan.residual ++ (part ∷ []) }

  unfoldable pub add_parts : PredicatePlan → List Expr → PredicatePlan
  unfolding add_part
  add_parts plan [] = plan
  add_parts plan (part ∷ parts) = add_parts (add_part plan part) parts

  unfoldable pub classify_predicate : Option Expr → PredicatePlan
  unfolding add_parts conjuncts
  classify_predicate none = record {
    partition = [];
    file_stats = [];
    row_group_stats = [];
    residual = [];
  }
  classify_predicate (some e) =
      add_parts (record { partition = []; file_stats = []; row_group_stats = []; residual = [] })
        (conjuncts e)
