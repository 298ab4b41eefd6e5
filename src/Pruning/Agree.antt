-- ===== src/Pruning/Agree.antt =====
-- What is assumed of a row and of a predicate, and the forms that pruning reads.
use lakeql.Base.{
  ◌≡◌, refl, ap, ◌∙◌, ◌⊎◌, inl, inr, true, false, List, none, some, arith, Bool-cases,
}
use lakeql.Base.Result.{ok, >>=-eq-ok}
use lakeql.Expr.{Text, Scalar, boolean, CompareOp, Expr, Exprs, Row}
use lakeql.Scalars.{Host}
use lakeql.Evaluator.{
  SqlBoolean, of_sql, sql_and, sql_or, to_sql_boolean, row_value, text_eq, compare_scalars,
  evaluate, matches,
}
use lakeql.Pruning.Stats.{
  RowGroup, ColumnStats, ColumnLiteral, is_stats_value, column_stats, column_literal_compare,
  invert_compare_op,
}
use lakeql.Pruning.InList.{literal_values}
use lakeql.Pruning.Spatial.{st_intersects, h3_in, h3_within}
use lakeql.Pruning.Bounds.{Within, Agree}
use lakeql.Pruning.InBuckets.{InAgree}

-- The statistics of the group describe the row.
abbrev pub Describes : RowGroup → Row → Type 0
Describes group row =
    (name : Text) (s : ColumnStats) (v : Scalar)
    → column_stats group name ≡ some s
    → row_value row name ≡ ok v
    → Within s v

-- The two forms that `columnLiteralCompare` reads.
pub data IsPair (l : Expr) (op : CompareOp) (r : Expr) (p : ColumnLiteral) : Type 0 where
  column_first :
      l ≡ Expr.column p.column
      → r ≡ Expr.literal p.value
      → p.op ≡ op
      → is_stats_value p.value ≡ true
      → IsPair l op r p
  literal_first :
      l ≡ Expr.literal p.value
      → r ≡ Expr.column p.column
      → p.op ≡ invert_compare_op op
      → is_stats_value p.value ≡ true
      → IsPair l op r p

pub column_literal_compare-IsPair :
    (l : Expr) (op : CompareOp) (r : Expr) (p : ColumnLiteral)
    → column_literal_compare l op r ≡ some p
    → IsPair l op r p
unfolding column_literal_compare
column_literal_compare-IsPair (Expr.column name) op (Expr.literal v) p h =
    elim (Bool-cases (is_stats_value v)) [
      | inl u ↦ column_first (ground arith) (ground arith) (ground arith) (ground arith)
      | inr u ↦ absurd (ground arith)
    ]
column_literal_compare-IsPair (Expr.literal v) op (Expr.column name) p h =
    elim (Bool-cases (is_stats_value v)) [
      | inl u ↦ literal_first (ground arith) (ground arith) (ground arith) (ground arith)
      | inr u ↦ absurd (ground arith)
    ]
column_literal_compare-IsPair _ op _ p h = absurd (cc)

-- Where a comparison is the boolean or null that a scalar stands for.
pub of_sql-true : (c : SqlBoolean) → of_sql c ≡ boolean true → c ≡ some true
of_sql-true none h = cc
of_sql-true (some b) h = ground arith

pub sql_or-true : (a b : SqlBoolean) → sql_or a b ≡ some true → (a ≡ some true) ⊎ (b ≡ some true)
unfolding sql_or
sql_or-true (some true) b h = inl refl
sql_or-true none (some true) h = inr refl
sql_or-true (some false) (some true) h = inr refl
sql_or-true _ _ h = absurd (ground arith)

pub to_sql-true : (v : Scalar) → to_sql_boolean v ≡ ok (some true) → v ≡ boolean true
unfolding to_sql_boolean
to_sql-true v h = ground arith

pub matches-true :
    (host : Host) (row : Row) (e : Expr)
    → matches host row (some e) ≡ ok true
    → evaluate host row e ≡ ok (boolean true)
unfolding matches
matches-true host row e h =
    let (v, ev, h1) = >>=-eq-ok (evaluate host row e) _ h in
    let (b, eb, h2) = >>=-eq-ok (to_sql_boolean v) _ h1 in ev ∙ ap ok (to_sql-true v (ground arith))

pub sql_and-true : (a b : SqlBoolean) → sql_and a b ≡ some true → (a ≡ some true) × (b ≡ some true)
unfolding sql_and
sql_and-true a b h = ground arith

module _ (host : Host) (group : RowGroup) where
  abbrev pub CompareAgrees : CompareOp → Expr → Expr → Type 0
  CompareAgrees op l r =
      (p : ColumnLiteral) (s : ColumnStats)
      → column_literal_compare l op r ≡ some p
      → column_stats group p.column ≡ some s
      → Agree host p.value s.min × Agree host p.value s.max

  abbrev pub BetweenAgrees : Expr → Expr → Expr → Type 0
  BetweenAgrees (Expr.column name) (Expr.literal low) (Expr.literal high) =
      (s : ColumnStats)
      → column_stats group name ≡ some s
      → (Agree host low s.min × Agree host low s.max)
        × (Agree host high s.min × Agree host high s.max)
  BetweenAgrees t l h = Unit

  abbrev pub InListAgrees : Expr → Exprs → Type 0
  InListAgrees (Expr.column name) values =
      (s : ColumnStats) (vs : List Scalar)
      → column_stats group name ≡ some s
      → literal_values values ≡ some vs
      → InAgree host vs s.min s.max
  InListAgrees target values = Unit

  -- Literals are ordered against the statistics as the evaluator orders them, and no spatial
  -- function stands where it is pruned by.
  unfoldable mutual
    pub LiteralsAgree : Expr → Type 0
    LiteralsAgree (Expr.compare op l r) = CompareAgrees op l r
    LiteralsAgree (Expr.in_list negated t vs) = InListAgrees t vs
    LiteralsAgree (Expr.between t l h) = BetweenAgrees t l h
    LiteralsAgree (Expr.logical op es) = EveryAgree es
    LiteralsAgree (Expr.call fn args) =
        (text_eq fn st_intersects ≡ false)
        × (text_eq fn h3_in ≡ false)
        × (text_eq fn h3_within ≡ false)
    LiteralsAgree e = Unit

    pub EveryAgree : Exprs → Type 0
    EveryAgree Exprs.nil = Unit
    EveryAgree (Exprs.cons e es) = LiteralsAgree e × EveryAgree es

  module _ (row : Row) where
    -- What a comparison evaluates, once its sides are known.
    pub evaluate-pair :
        (op : CompareOp) (l r : Expr) (p : ColumnLiteral) {out : Scalar}
        → IsPair l op r p
        → evaluate host row (Expr.compare op l r) ≡ ok out
        → (v : Scalar) × (c : SqlBoolean) × (row_value row p.column ≡ ok v)
          × (out ≡ of_sql c)
          × (is_stats_value p.value ≡ true)
          × (((p.op ≡ op) × (compare_scalars host op v p.value ≡ ok c))
              ⊎ ((p.op ≡ invert_compare_op op) × (compare_scalars host op p.value v ≡ ok c)))
    unfolding evaluate
    evaluate-pair op l r p {out} (column_first el er eo u) h =
        let h' : evaluate host row (Expr.compare op (Expr.column p.column) (Expr.literal p.value))
            ≡ ok out =
          rw (el, er) at h in
        let (v, ev, h1) = >>=-eq-ok (row_value row p.column) _ h' in
        let (c, ec, h2) = >>=-eq-ok (compare_scalars host op v p.value) _ h1 in
        (v, c, ev, cc, u, inl (eo, ec))
    evaluate-pair op l r p {out} (literal_first el er eo u) h =
        let h' : evaluate host row (Expr.compare op (Expr.literal p.value) (Expr.column p.column))
            ≡ ok out =
          rw (el, er) at h in
        let (v, ev, h1) = >>=-eq-ok (row_value row p.column) _ h' in
        let (c, ec, h2) = >>=-eq-ok (compare_scalars host op p.value v) _ h1 in
        (v, c, ev, cc, u, inr (eo, ec))
