-- ===== src/Pruning/MaySound.antt =====
-- A row group that is skipped holds no matching row.
use lakeql.Base.{
  ◌≡◌, refl, ap, ◌∙◌, ◌⊎◌, inl, inr, Bool, true, false, ◌&&◌, List, [], ◌∷◌, some, arith, All,
  Bool-cases, Option-cases,
}
use lakeql.Base.Result.{ok, >>=-eq-ok}
use lakeql.Expr.{Scalar, boolean, CompareOp, LogicalOp, Expr, Exprs, Row}
use lakeql.Scalars.{Host}
use lakeql.Evaluator.{
  SqlBoolean, sql_and, sql_or, to_sql_boolean, row_value, is_null, compare_scalars, in_values,
  in_list, evaluate, evaluate_all, evaluate_and, evaluate_or, matches,
}
use lakeql.Pruning.Stats.{
  RowGroup, ColumnStats, ColumnLiteral, is_stats_value, column_stats, column_literal_compare,
}
use lakeql.Pruning.InList.{literal_values, values_may_match, in_may_match}
use lakeql.Pruning.Spatial.{JsonHost, call_may_match}
use lakeql.Pruning.RowGroups.{
  compare_may_match, between_may_match, may_match, may_match_every, may_match_some,
  row_group_may_match, literal_may_match, range_may_match,
}
use lakeql.Pruning.Leaves.{literal_may_match_sound, flipped_may_match_sound, range_may_match_sound}
use lakeql.Pruning.InSound.{values_may_match_sound}
use lakeql.Pruning.Agree.{
  Describes, CompareAgrees, BetweenAgrees, InListAgrees, LiteralsAgree, EveryAgree,
  column_literal_compare-IsPair, of_sql-true, sql_or-true, to_sql-true, matches-true, sql_and-true,
  evaluate-pair,
}

module _ (host : Host) (group : RowGroup) (row : Row) (d : Describes group row) where
  compare_may_sound :
      (op : CompareOp) (l r : Expr)
      → CompareAgrees host group op l r
      → evaluate host row (Expr.compare op l r) ≡ ok (boolean true)
      → compare_may_match host group op l r ≡ true
  unfolding compare_may_match
  compare_may_sound op l r a h = elim (Option-cases (column_literal_compare l op r)) [
    | inl e ↦ ground arith
    | inr (p, e) ↦ elim (Option-cases (column_stats group p.column)) [
      | inl f ↦ ground arith
      | inr (s, f) ↦ ground (arith, leaf p s e f)
    ]
  ]
    where
      leaf :
          (p : ColumnLiteral) (s : ColumnStats)
          → column_literal_compare l op r ≡ some p
          → column_stats group p.column ≡ some s
          → literal_may_match host p.op p.value s ≡ true
      leaf p s e f =
          let (v, c, ev, eo, u, side) =
            evaluate-pair host group row op l r p (column_literal_compare-IsPair l op r p e) h in
          let ct : c ≡ some true = of_sql-true c (cc) in
          let (lo, hi) = a p s e f in
          elim side [
            | inl (o, k) ↦ rw o (
                literal_may_match_sound host s op v p.value (d p.column s v f ev) u lo hi
                  (rw ct at k))
            | inr (o, k) ↦ rw o (
                flipped_may_match_sound host s op v p.value (d p.column s v f ev) u lo hi
                  (rw ct at k))
          ]

  between_may_sound :
      (t l h : Expr)
      → BetweenAgrees host group t l h
      → evaluate host row (Expr.between t l h) ≡ ok (boolean true)
      → between_may_match host group t l h ≡ true
  unfolding between_may_match evaluate
  between_may_sound (Expr.column name) (Expr.literal low) (Expr.literal high) a h =
      elim (Bool-cases (is_stats_value low && is_stats_value high)) [
        | inr e ↦ ground arith
        | inl e ↦ elim (Option-cases (column_stats group name)) [
          | inl f ↦ ground arith
          | inr (s, f) ↦ ground (arith, leaf s f (ground arith))
        ]
      ]
    where
      leaf :
          (s : ColumnStats)
          → column_stats group name ≡ some s
          → (is_stats_value low ≡ true) × (is_stats_value high ≡ true)
          → range_may_match host low high s ≡ true
      leaf s f u =
          let (v, ev, h1) = >>=-eq-ok (row_value row name) _ h in
          let (c, ec, h2) = >>=-eq-ok (compare_scalars host CompareOp.gte v low) _ h1 in
          let (b, eb, h3) = >>=-eq-ok (compare_scalars host CompareOp.lte v high) _ h2 in
          let both : (c ≡ some true) × (b ≡ some true) = sql_and-true c b (of_sql-true _ (cc)) in
          range_may_match_sound host s v low high (d name s v f ev) u (a s f).0 (a s f).1
            (rw (both.0) at ec) (rw (both.1) at eb)
  between_may_sound _ _ _ a h = refl

  literal_values-evaluate :
      (es : Exprs) (vs : List Scalar)
      → literal_values es ≡ some vs
      → (evaluate_all host row es ≡ ok vs) × All (λ x. is_stats_value x ≡ true) vs
  unfolding literal_values evaluate
  literal_values-evaluate Exprs.nil [] h = (refl, tt)
  literal_values-evaluate Exprs.nil (v ∷ vs) h = absurd (cc)
  literal_values-evaluate (Exprs.cons (Expr.literal x) es) vs h =
      elim (Option-cases (literal_values es)) [
        | inl e ↦ absurd (ground arith)
        | inr (ws, e) ↦
            let (all, ok_all) = literal_values-evaluate es ws e in
            let u : is_stats_value x ≡ true = ground arith in
            let same : vs ≡ x ∷ ws = ground arith in rw same (rw all, (u, ok_all))
      ]
  literal_values-evaluate (Exprs.cons _ es) vs h = absurd (cc)

  in_may_sound :
      (negated : Bool) (t : Expr) (es : Exprs)
      → InListAgrees host group t es
      → evaluate host row (Expr.in_list negated t es) ≡ ok (boolean true)
      → in_may_match host group negated t es ≡ true
  unfolding in_may_match evaluate in_list
  in_may_sound true t es a h = refl
  in_may_sound false (Expr.column name) es a h = elim (Option-cases (column_stats group name)) [
    | inl e ↦ ground arith
    | inr (s, e) ↦ elim (Option-cases (literal_values es)) [
      | inl f ↦ ground arith
      | inr (vs, f) ↦ ground (arith, leaf s vs e f)
    ]
  ]
    where
      leaf :
          (s : ColumnStats) (vs : List Scalar)
          → column_stats group name ≡ some s
          → literal_values es ≡ some vs
          → values_may_match host vs s ≡ true
      leaf s vs e f =
          let (v, ev, h1) = >>=-eq-ok (row_value row name) _ h in
          let (all, stats) = literal_values-evaluate es vs f in
          let (ws, ew, h2) = >>=-eq-ok (evaluate_all host row es) _ h1 in
          let same : ws ≡ vs = cc in
          let (c, ec, h3) = >>=-eq-ok (in_list host v ws) _ h2 in
          let truth : c ≡ some true = of_sql-true c (cc) in
          let n : is_null v ≡ false = ground arith in
          let loop : in_values host v vs false ≡ ok (some true) = ground arith in
          values_may_match_sound host s v vs false (d name s v e ev) n stats (a s vs e f) loop
  in_may_sound false _ es a h = refl

  module _ (json : JsonHost) where
    mutual
      unfolding may_match evaluate call_may_match LiteralsAgree

      may_match-true :
          (e : Expr)
          → LiteralsAgree host group e
          → evaluate host row e ≡ ok (boolean true)
          → may_match host group json e ≡ true
      may_match-true (Expr.compare op l r) a h = compare_may_sound op l r a h
      may_match-true (Expr.in_list n t es) a h = in_may_sound n t es a h
      may_match-true (Expr.between t l u) a h = between_may_sound t l u a h
      may_match-true (Expr.logical LogicalOp.and es) a h =
          let (c, ec, h1) = >>=-eq-ok (evaluate_and host row es (some true)) _ h in
          (every-true es (some true) a (ec ∙ ap ok (of_sql-true c (cc)))).1
      may_match-true (Expr.logical LogicalOp.or es) a h =
          let (c, ec, h1) = >>=-eq-ok (evaluate_or host row es (some false)) _ h in
          elim (some-true es (some false) a (ec ∙ ap ok (of_sql-true c (cc)))) [
            | inl e ↦ absurd (ground arith)
            | inr e ↦ e
          ]
      may_match-true (Expr.call fn args) a h = ground arith
      may_match-true (Expr.literal v) a h = refl
      may_match-true (Expr.column name) a h = refl
      may_match-true (Expr.null_check n t) a h = refl
      may_match-true (Expr.not e) a h = refl
      may_match-true (Expr.like ci t p) a h = refl
      may_match-true (Expr.arithmetic op l r) a h = refl
      may_match-true (Expr.case_when ws o) a h = refl

      every-true :
          (es : Exprs) (acc : SqlBoolean)
          → EveryAgree host group es
          → evaluate_and host row es acc ≡ ok (some true)
          → (acc ≡ some true) × (may_match_every host group json es ≡ true)
      every-true Exprs.nil acc a h = (ground arith, refl)
      every-true (Exprs.cons e es) acc a h =
          let (v, ev, h1) = >>=-eq-ok (evaluate host row e) _ h in
          let (b, eb, h2) = >>=-eq-ok (to_sql_boolean v) _ h1 in
          let (both, rest) = every-true es (sql_and acc b) a.1 h2 in
          let (left, right) = sql_and-true acc b both in
          let here : may_match host group json e ≡ true =
            may_match-true e a.0 (ev ∙ ap ok (to_sql-true v (eb ∙ ap ok right))) in
          (left, rw (here, rest))

      some-true :
          (es : Exprs) (acc : SqlBoolean)
          → EveryAgree host group es
          → evaluate_or host row es acc ≡ ok (some true)
          → (acc ≡ some true) ⊎ (may_match_some host group json es ≡ true)
      some-true Exprs.nil acc a h = inl (ground arith)
      some-true (Exprs.cons e es) acc a h =
          let (v, ev, h1) = >>=-eq-ok (evaluate host row e) _ h in
          let (b, eb, h2) = >>=-eq-ok (to_sql_boolean v) _ h1 in
          elim (some-true es (sql_or acc b) a.1 h2) [
            | inr rest ↦ inr (ground arith)
            | inl here ↦ elim (sql_or-true acc b here) [
              | inl left ↦ inl left
              | inr right ↦ inr (
                  ground
                    (arith, may_match-true e a.0 (ev ∙ ap ok (to_sql-true v (eb ∙ ap ok right)))))
            ]
          ]

    -- A row group that is skipped holds no matching row: if the predicate evaluates to true on a row
    -- that the statistics of the group describe, the group may match. It is assumed of the predicate
    -- that its literals are ordered against the statistics as the evaluator orders them, and that no
    -- spatial function is pruned by.
    pub row_group_may_match_sound :
        (e : Expr)
        → LiteralsAgree host group e
        → matches host row (some e) ≡ ok true
        → row_group_may_match host group json (some e) ≡ true
    unfolding row_group_may_match
    row_group_may_match_sound e a h = may_match-true e a (matches-true host row e h)
