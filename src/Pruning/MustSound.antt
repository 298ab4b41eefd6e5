-- ===== src/Pruning/MustSound.antt =====
-- A row group that is taken whole holds only matching rows.
use lakeql.Base.{
  ◌≡◌, refl, ap, ◌∙◌, ◌⊎◌, inl, inr, Bool, true, false, some, arith, Bool-cases, Option-cases,
}
use lakeql.Base.Result.{ok, >>=-eq-ok}
use lakeql.Expr.{Scalar, boolean, CompareOp, LogicalOp, Expr, Exprs, Row}
use lakeql.Scalars.{Host}
use lakeql.Evaluator.{
  SqlBoolean, of_sql, sql_and, sql_or, to_sql_boolean, row_value, compare_scalars, evaluate,
  evaluate_and, evaluate_or, matches,
}
use lakeql.Pruning.Stats.{
  RowGroup, ColumnStats, ColumnLiteral, is_stats_value, column_stats, column_literal_compare,
}
use lakeql.Pruning.RowGroups.{
  compare_must_match, between_must_match, must_match, must_match_every, must_match_some,
  row_group_must_match, literal_must_match, range_must_match,
}
use lakeql.Pruning.Leaves.{
  literal_must_match_sound, flipped_must_match_sound, range_must_match_sound,
}
use lakeql.Pruning.Agree.{
  Describes, CompareAgrees, BetweenAgrees, LiteralsAgree, EveryAgree, column_literal_compare-IsPair,
  evaluate-pair,
}

sql_or-left : (a b : SqlBoolean) → a ≡ some true → sql_or a b ≡ some true
unfolding sql_or
sql_or-left a b h = ground arith

sql_or-right : (a b : SqlBoolean) → b ≡ some true → sql_or a b ≡ some true
unfolding sql_or
sql_or-right a b h = ground arith

from_true :
    (v : Scalar) (b : SqlBoolean) → v ≡ boolean true → to_sql_boolean v ≡ ok b → b ≡ some true
unfolding to_sql_boolean
from_true v b h k = ground arith

both :
    (acc : SqlBoolean) (v : Scalar) (b : SqlBoolean)
    → acc ≡ some true
    → v ≡ boolean true
    → to_sql_boolean v ≡ ok b
    → sql_and acc b ≡ some true
unfolding to_sql_boolean sql_and
both acc v b t h k = ground arith

module _ (host : Host) (group : RowGroup) (row : Row) (d : Describes group row) where
  compare_must_sound :
      (op : CompareOp) (l r : Expr) {out : Scalar}
      → CompareAgrees host group op l r
      → compare_must_match host group op l r ≡ true
      → evaluate host row (Expr.compare op l r) ≡ ok out
      → out ≡ boolean true
  unfolding compare_must_match
  compare_must_sound op l r {out} a m h = elim (Option-cases (column_literal_compare l op r)) [
    | inl e ↦ absurd (ground arith)
    | inr (p, e) ↦ elim (Option-cases (column_stats group p.column)) [
      | inl f ↦ absurd (ground arith)
      | inr (s, f) ↦ leaf p s e f (ground arith)
    ]
  ]
    where
      leaf :
          (p : ColumnLiteral) (s : ColumnStats)
          → column_literal_compare l op r ≡ some p
          → column_stats group p.column ≡ some s
          → literal_must_match host p.op p.value s ≡ true
          → out ≡ boolean true
      leaf p s e f k =
          let (v, c, ev, eo, u, side) =
            evaluate-pair host group row op l r p (column_literal_compare-IsPair l op r p e) h in
          let (lo, hi) = a p s e f in
          let truth : c ≡ some true = elim side [
            | inl (o, q) ↦
                literal_must_match_sound host s op v p.value (d p.column s v f ev) u lo hi
                  (rw o at k) q
            | inr (o, q) ↦
                flipped_must_match_sound host s op v p.value (d p.column s v f ev) u lo hi
                  (rw o at k) q
          ] in
          eo ∙ ap of_sql truth

  between_must_sound :
      (t l u : Expr) {out : Scalar}
      → BetweenAgrees host group t l u
      → between_must_match host group t l u ≡ true
      → evaluate host row (Expr.between t l u) ≡ ok out
      → out ≡ boolean true
  unfolding between_must_match evaluate sql_and
  between_must_sound (Expr.column name) (Expr.literal low) (Expr.literal high) {out} a m h =
      elim (Option-cases (column_stats group name)) [
        | inl f ↦ absurd (ground arith)
        | inr (s, f) ↦ leaf s f (ground arith) (ground arith)
      ]
    where
      leaf :
          (s : ColumnStats)
          → column_stats group name ≡ some s
          → (is_stats_value low ≡ true) × (is_stats_value high ≡ true)
          → range_must_match host low high s ≡ true
          → out ≡ boolean true
      leaf s f u k =
          let (v, ev, h1) = >>=-eq-ok (row_value row name) _ h in
          let (c, ec, h2) = >>=-eq-ok (compare_scalars host CompareOp.gte v low) _ h1 in
          let (b, eb, h3) = >>=-eq-ok (compare_scalars host CompareOp.lte v high) _ h2 in
          let (ct, bt) =
            range_must_match_sound host s v low high (d name s v f ev) u (a s f).0 (a s f).1 k ec
              eb in
          ground arith
  between_must_sound _ _ _ a m h = absurd (cc)

  mutual
    unfolding must_match evaluate LiteralsAgree

    must_match-true :
        (e : Expr) {out : Scalar}
        → LiteralsAgree host group e
        → must_match host group e ≡ true
        → evaluate host row e ≡ ok out
        → out ≡ boolean true
    must_match-true (Expr.literal (boolean b)) a m h = ground arith
    must_match-true (Expr.compare op l r) a m h = compare_must_sound op l r a m h
    must_match-true (Expr.between t l u) a m h = between_must_sound t l u a m h
    must_match-true (Expr.logical LogicalOp.and es) {out} a m h =
        let (c, ec, h1) = >>=-eq-ok (evaluate_and host row es (some true)) _ h in
        let truth : c ≡ some true = every_must es (some true) a m refl ec in ground arith
    must_match-true (Expr.logical LogicalOp.or es) {out} a m h =
        let (c, ec, h1) = >>=-eq-ok (evaluate_or host row es (some false)) _ h in
        let truth : c ≡ some true = some_must es (some false) a (inr m) ec in ground arith
    must_match-true _ a m h = absurd (cc)

    every_must :
        (es : Exprs) (acc : SqlBoolean) {c : SqlBoolean}
        → EveryAgree host group es
        → must_match_every host group es ≡ true
        → acc ≡ some true
        → evaluate_and host row es acc ≡ ok c
        → c ≡ some true
    every_must Exprs.nil acc a m t h = ground arith
    every_must (Exprs.cons e es) acc a m t h =
        let (v, ev, h1) = >>=-eq-ok (evaluate host row e) _ h in
        let (b, eb, h2) = >>=-eq-ok (to_sql_boolean v) _ h1 in
        let here : v ≡ boolean true = must_match-true e a.0 (ground arith) ev in
        every_must es (sql_and acc b) a.1 (ground arith) (both acc v b t here eb) h2

    some_must :
        (es : Exprs) (acc : SqlBoolean) {c : SqlBoolean}
        → EveryAgree host group es
        → (acc ≡ some true) ⊎ (must_match_some host group es ≡ true)
        → evaluate_or host row es acc ≡ ok c
        → c ≡ some true
    some_must Exprs.nil acc a m h = ground arith
    some_must (Exprs.cons e es) acc a m h =
        let (v, ev, h1) = >>=-eq-ok (evaluate host row e) _ h in
        let (b, eb, h2) = >>=-eq-ok (to_sql_boolean v) _ h1 in
        some_must es (sql_or acc b) a.1
          (elim m [
            | inl t ↦ inl (sql_or-left acc b t)
            | inr t ↦ elim (Bool-cases (must_match host group e)) [
              | inl k ↦ inl (sql_or-right acc b (from_true v b (must_match-true e a.0 k ev) eb))
              | inr k ↦ inr (ground arith)
            ]
          ])
          h2

  -- A row group that is taken whole holds only matching rows: on a row that the statistics of the
  -- group describe, a predicate that must match evaluates to true if it evaluates without an error. It is assumed of the predicate that its
  -- literals are ordered against the statistics as the evaluator orders them, and that it has no call
  -- of a spatial function.
  pub row_group_must_match_sound :
      (e : Expr) {b : Bool}
      → LiteralsAgree host group e
      → row_group_must_match host group (some e) ≡ true
      → matches host row (some e) ≡ ok b
      → matches host row (some e) ≡ ok true
  unfolding row_group_must_match matches to_sql_boolean
  row_group_must_match_sound e a m h =
      let (v, ev, h1) = >>=-eq-ok (evaluate host row e) _ h in
      let t : v ≡ boolean true = must_match-true e a m ev in rw (ev, t)
