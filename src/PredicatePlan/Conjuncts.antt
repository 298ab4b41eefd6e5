-- ===== src/PredicatePlan/Conjuncts.antt =====
-- What a classified predicate means: its parts hold together exactly where it holds.
use lakeql.Base.{
  ◌≡◌, refl, ap, ◌∙◌, ◌↔◌, true, List, [], ◌∷◌, ◌++◌, some, arith, Bool-cases, inl, inr, All,
}
use lakeql.Base.Result.{ok, >>=-eq-ok}
use lakeql.Expr.{boolean, LogicalOp, Expr, Exprs, Row}
use lakeql.Scalars.{Host}
use lakeql.Evaluator.{SqlBoolean, sql_and, to_sql_boolean, evaluate, evaluate_and}
use lakeql.Pruning.Agree.{of_sql-true, to_sql-true, sql_and-true}
use lakeql.PredicatePlan.{
  PredicatePlan, PredicatePlanOptions, conjuncts, conjuncts_all, uses_only_columns,
  stats_predicate_column, is_some, add_part, add_parts, classify_predicate,
}

All-append : (P : Expr → Type 0) (xs ys : List Expr) → All P (xs ++ ys) ↔ (All P xs × All P ys)
All-append P [] ys = (λ h. (tt, h), λ h. h.1)
All-append P (x ∷ xs) ys =
    let (split, join) = All-append P xs ys in
    (λ h. ((h.0, (split h.1).0), (split h.1).1), λ h. (h.0.0, join (h.0.1, h.1)))

-- Every part of a plan satisfies a predicate.
abbrev pub AllParts : (Expr → Type 0) → PredicatePlan → Type 0
AllParts P plan =
    All P plan.partition × All P plan.file_stats × All P plan.row_group_stats × All P plan.residual

module _ (options : PredicatePlanOptions) (P : Expr → Type 0) where
  All-snoc : (xs : List Expr) (x : Expr) → All P (xs ++ (x ∷ [])) ↔ (All P xs × P x)
  All-snoc xs x =
      let (split, join) = All-append P xs (x ∷ []) in
      (λ h. let (a, (b, t)) = split h in (a, b), λ (a, b). join (a, (b, tt)))

  add_part-All :
      (plan : PredicatePlan) (part : Expr)
      → AllParts P (add_part options plan part) ↔ (AllParts P plan × P part)
  unfolding add_part
  add_part-All plan part = elim (Bool-cases (uses_only_columns part options.partition_columns)) [
    | inl u ↦
        let (split, join) = All-snoc plan.partition part in
        rw u (
          λ (a, b, c, d). let (x, y) = split a in ((x, b, c, d), y),
          λ ((a, b, c, d), y). (join (a, y), b, c, d),
        )
    | inr u ↦
        elim (Bool-cases (is_some (stats_predicate_column part options.row_group_stats_columns))) [
          | inl v ↦
              let (split, join) = All-snoc plan.row_group_stats part in
              rw (u, v)
                (
                  λ (a, b, c, d). let (x, y) = split c in ((a, b, x, d), y),
                  λ ((a, b, c, d), y). (a, b, join (c, y), d),
                )
          | inr v ↦
              elim (Bool-cases (is_some (stats_predicate_column part options.file_stats_columns))) [
                | inl w ↦
                    let (split, join) = All-snoc plan.file_stats part in
                    rw (u, v, w)
                      (
                        λ (a, b, c, d). let (x, y) = split b in ((a, x, c, d), y),
                        λ ((a, b, c, d), y). (a, join (b, y), c, d),
                      )
                | inr w ↦
                    let (split, join) = All-snoc plan.residual part in
                    rw (u, v, w)
                      (
                        λ (a, b, c, d). let (x, y) = split d in ((a, b, c, x), y),
                        λ ((a, b, c, d), y). (a, b, c, join (d, y)),
                      )
              ]
        ]
  ]

  add_parts-All :
      (parts : List Expr) (plan : PredicatePlan)
      → AllParts P (add_parts options plan parts) ↔ (AllParts P plan × All P parts)
  unfolding add_parts
  add_parts-All [] plan = (λ h. (h, tt), λ h. h.0)
  add_parts-All (part ∷ parts) plan =
      let (split, join) = add_parts-All parts (add_part options plan part) in
      let (split_one, join_one) = add_part-All plan part in
      (
        λ h. let (x, y) = split h in let (u, v) = split_one x in (u, (v, y)),
        λ (u, (v, y)). join (join_one (u, v), y),
      )

module _ (host : Host) (row : Row) where
  abbrev pub Holds : Expr → Type 0
  Holds e = evaluate host row e ≡ ok (boolean true)

  mutual
    unfolding conjuncts conjuncts_all evaluate evaluate_and

    conjuncts-hold : (e : Expr) → Holds e → All Holds (conjuncts e)
    conjuncts-hold (Expr.logical LogicalOp.and es) h =
        let (b, eb, h1) = >>=-eq-ok (evaluate_and host row es (some true)) _ h in
        (conjuncts_all-hold es (some true) (eb ∙ ap ok (of_sql-true b (ground arith)))).1
    conjuncts-hold (Expr.logical LogicalOp.or es) h = (h, tt)
    conjuncts-hold (Expr.literal v) h = (h, tt)
    conjuncts-hold (Expr.column n) h = (h, tt)
    conjuncts-hold (Expr.compare op l r) h = (h, tt)
    conjuncts-hold (Expr.in_list n t vs) h = (h, tt)
    conjuncts-hold (Expr.between t l u) h = (h, tt)
    conjuncts-hold (Expr.null_check n t) h = (h, tt)
    conjuncts-hold (Expr.not e) h = (h, tt)
    conjuncts-hold (Expr.like ci t p) h = (h, tt)
    conjuncts-hold (Expr.call fn es) h = (h, tt)
    conjuncts-hold (Expr.arithmetic op l r) h = (h, tt)
    conjuncts-hold (Expr.case_when ws o) h = (h, tt)

    conjuncts_all-hold :
        (es : Exprs) (acc : SqlBoolean)
        → evaluate_and host row es acc ≡ ok (some true)
        → (acc ≡ some true) × All Holds (conjuncts_all es)
    conjuncts_all-hold Exprs.nil acc h = (ground arith, tt)
    conjuncts_all-hold (Exprs.cons e es) acc h =
        let (v, ev, h1) = >>=-eq-ok (evaluate host row e) _ h in
        let (b, eb, h2) = >>=-eq-ok (to_sql_boolean v) _ h1 in
        let (both, rest) = conjuncts_all-hold es (sql_and acc b) h2 in
        let (left, right) = sql_and-true acc b both in
        let here : Holds e = ev ∙ ap ok (to_sql-true v (eb ∙ ap ok right)) in
        (left, (All-append Holds (conjuncts e) (conjuncts_all es)).1 (conjuncts-hold e here, rest))

  mutual
    unfolding conjuncts conjuncts_all evaluate evaluate_and to_sql_boolean sql_and

    hold-conjuncts : (e : Expr) → All Holds (conjuncts e) → Holds e
    hold-conjuncts (Expr.logical LogicalOp.and es) h = rw (hold-conjuncts_all es h)
    hold-conjuncts (Expr.logical LogicalOp.or es) h = h.0
    hold-conjuncts (Expr.literal v) h = h.0
    hold-conjuncts (Expr.column n) h = h.0
    hold-conjuncts (Expr.compare op l r) h = h.0
    hold-conjuncts (Expr.in_list n t vs) h = h.0
    hold-conjuncts (Expr.between t l u) h = h.0
    hold-conjuncts (Expr.null_check n t) h = h.0
    hold-conjuncts (Expr.not e) h = h.0
    hold-conjuncts (Expr.like ci t p) h = h.0
    hold-conjuncts (Expr.call fn es) h = h.0
    hold-conjuncts (Expr.arithmetic op l r) h = h.0
    hold-conjuncts (Expr.case_when ws o) h = h.0

    hold-conjuncts_all :
        (es : Exprs)
        → All Holds (conjuncts_all es)
        → evaluate_and host row es (some true) ≡ ok (some true)
    hold-conjuncts_all Exprs.nil h = refl
    hold-conjuncts_all (Exprs.cons e es) h =
        let (here, rest) = (All-append Holds (conjuncts e) (conjuncts_all es)).0 h in
        rw (hold-conjuncts e here) (hold-conjuncts_all es rest)

-- A predicate that is classified, for any columns of partitions and statistics, evaluates to true on
-- a row exactly where each part of the plan does: no conjunct is lost and none is added.
pub classify_predicate-Holds :
    (host : Host) (row : Row) (options : PredicatePlanOptions) (e : Expr)
    → AllParts (Holds host row) (classify_predicate options (some e)) ↔ Holds host row e
unfolding classify_predicate
classify_predicate-Holds host row options e =
    let (split, join) =
      add_parts-All options (Holds host row) (conjuncts e)
        (record { partition = []; file_stats = []; row_group_stats = []; residual = [] }) in
    (
      λ h. hold-conjuncts host row e (split h).1,
      λ h. join ((tt, tt, tt, tt), conjuncts-hold host row e h),
    )
