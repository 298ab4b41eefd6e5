-- ===== src/RowGroupPlan/Planned.antt =====
-- What a row group plan holds: the groups that may match, in order, and the ranges of their indices.
use lakeql.Base.{
  ℕ, zero, suc, ◌+◌, ◌≡◌, refl, sym, ap, ◌∙◌, Bool, true, false, List, [], ◌∷◌, ◌++◌, map, Option,
  some, arith, if◌then◌else◌, Bool-cases, inl, inr, Any, get_elem?,
}
use mathlib.Core.List.{map-append}
use lakeql.Base.Result.{ok}
use lakeql.Expr.{Expr, Row}
use lakeql.Scalars.{Host}
use lakeql.Evaluator.{matches}
use lakeql.Pruning.Stats.{RowGroup}
use lakeql.Pruning.Spatial.{JsonHost}
use lakeql.Pruning.RowGroups.{row_group_may_match}
use lakeql.Pruning.Agree.{Describes, LiteralsAgree}
use lakeql.Pruning.MaySound.{row_group_may_match_sound}
use lakeql.RowGroupPlan.{
  PlannedRowGroup, RowGroupPlan, add_group, plan_loop, empty_plan, plan_row_groups_from_metadata,
}
use lakeql.RowGroupPlan.Ranges.{
  range_indices, IsSeparated, EndBy, range_indices-push, push-IsSeparated, EndBy-mono,
}

abbrev pub planned_indices : RowGroupPlan → List ℕ
planned_indices plan = map (λ g. g.index) plan.row_groups

Any-append-left : (P : ℕ → Type 0) (xs ys : List ℕ) → Any P xs → Any P (xs ++ ys)
Any-append-left P [] ys h = elim h [ ]
Any-append-left P (x ∷ xs) ys (inl p) = inl p
Any-append-left P (x ∷ xs) ys (inr h) = inr (Any-append-left P xs ys h)

Any-snoc : (P : ℕ → Type 0) (xs : List ℕ) (y : ℕ) → P y → Any P (xs ++ (y ∷ []))
Any-snoc P [] y p = inl p
Any-snoc P (x ∷ xs) y p = inr (Any-snoc P xs y p)

record IsConsistent (index : ℕ) (plan : RowGroupPlan) : Type 0 where
  ranges : range_indices plan.row_group_ranges ≡ planned_indices plan
  separated : IsSeparated plan.row_group_ranges
  ended : EndBy index plan.row_group_ranges

module _ (host : Host) (json : JsonHost) (e : Option Expr) where
  add-IsConsistent :
      (plan : RowGroupPlan) (index row_start : ℕ) (group : RowGroup)
      → IsConsistent index plan
      → IsConsistent (index + 1) (add_group plan index row_start group)
  unfolding add_group
  add-IsConsistent plan index row_start group c =
      let (s, b) = push-IsSeparated plan.row_group_ranges index c.separated c.ended in
      record {
        ranges =
            range_indices-push plan.row_group_ranges index c.separated
            ∙ ap (λ xs. xs ++ (index ∷ [])) c.ranges
            ∙ sym (map-append (λ g. g.index) plan.row_groups _);
        separated = s;
        ended = b;
      }

  loop-IsConsistent :
      (groups : List RowGroup) (index row_start : ℕ) (plan : RowGroupPlan)
      → IsConsistent index plan
      → (end : ℕ) × IsConsistent end (plan_loop host json e groups index row_start plan)
  unfolding plan_loop
  loop-IsConsistent [] index row_start plan c = (index, c)
  loop-IsConsistent (group ∷ groups) index row_start plan c =
      elim (Bool-cases (row_group_may_match host group json e)) [
        | inl y ↦ rw y (
            loop-IsConsistent groups (index + 1) (row_start + group.num_rows) _
              (add-IsConsistent plan index row_start group c))
        | inr n ↦ rw n (
            loop-IsConsistent groups (index + 1) (row_start + group.num_rows) plan (record {
              ranges = c.ranges;
              separated = c.separated;
              ended = EndBy-mono plan.row_group_ranges index (index + 1) (omega arith) c.ended;
            }))
      ]

  -- The index ranges of a plan list exactly the indices of its row groups, in order; each range holds
  -- an index, and no two of them touch.
  pub plan_ranges :
      (groups : List RowGroup)
      → (range_indices (plan_row_groups_from_metadata host json e groups).row_group_ranges
          ≡ planned_indices (plan_row_groups_from_metadata host json e groups))
        × IsSeparated (plan_row_groups_from_metadata host json e groups).row_group_ranges
  unfolding plan_row_groups_from_metadata range_indices
  plan_ranges groups =
      let (end, c) =
        loop-IsConsistent groups 0 0 empty_plan
          (record { ranges = refl; separated = tt; ended = tt }) in
      (c.ranges, c.separated)

  -- One turn of the loop keeps what is planned, and adds the index of a group that may match.
  step_keeps :
      (P : ℕ → Type 0) (b : Bool) (index row_start : ℕ) (group : RowGroup) (plan : RowGroupPlan)
      → Any P (planned_indices plan)
      → Any P (planned_indices (if b then add_group plan index row_start group else plan))
  unfolding add_group
  step_keeps P true index row_start group plan h =
      rw (map-append (λ (g : PlannedRowGroup). g.index) plan.row_groups)
        (Any-append-left P (planned_indices plan) (index ∷ []) h)
  step_keeps P false index row_start group plan h = h

  step_adds :
      (P : ℕ → Type 0) (b : Bool) (index row_start : ℕ) (group : RowGroup) (plan : RowGroupPlan)
      → b ≡ true
      → P index
      → Any P (planned_indices (if b then add_group plan index row_start group else plan))
  unfolding add_group
  step_adds P true index row_start group plan h p =
      rw (map-append (λ (g : PlannedRowGroup). g.index) plan.row_groups)
        (Any-snoc P (planned_indices plan) index p)
  step_adds P false index row_start group plan h p = absurd (cc)

  kept :
      (P : ℕ → Type 0) (groups : List RowGroup) (index row_start : ℕ) (plan : RowGroupPlan)
      → Any P (planned_indices plan)
      → Any P (planned_indices (plan_loop host json e groups index row_start plan))
  unfolding plan_loop
  kept P [] index row_start plan h = h
  kept P (group ∷ groups) index row_start plan h =
      kept P groups (index + 1) (row_start + group.num_rows) _
        (step_keeps P (row_group_may_match host group json e) index row_start group plan h)

  planned :
      (groups : List RowGroup) (index row_start i k : ℕ) (plan : RowGroupPlan) {group : RowGroup}
      → index + i ≡ k
      → get_elem? groups i ≡ some group
      → row_group_may_match host group json e ≡ true
      → Any (λ j. j ≡ k) (planned_indices (plan_loop host json e groups index row_start plan))
  unfolding plan_loop
  planned [] index row_start i k plan q g m = absurd (cc)
  planned (first ∷ groups) index row_start zero k plan q g m =
      kept (λ j. j ≡ k) groups (index + 1) (row_start + first.num_rows) _
        (step_adds (λ j. j ≡ k) (row_group_may_match host first json e) index row_start first plan
          (ground arith) (omega arith))
  planned (first ∷ groups) index row_start (suc i) k plan q g m =
      planned groups (index + 1) (row_start + first.num_rows) i k _ (omega arith) g m

-- A scan loses no matching row: the plan names every row group whose statistics describe some row on
-- which the predicate evaluates to true, for a predicate whose literals are ordered against the
-- statistics as the evaluator orders them and that is not pruned by a spatial function.
pub plan-holds_matching :
    (host : Host) (json : JsonHost) (e : Expr) (groups : List RowGroup) (i : ℕ) (group : RowGroup)
    (row : Row)
    → get_elem? groups i ≡ some group
    → Describes group row
    → LiteralsAgree host group e
    → matches host row (some e) ≡ ok true
    → Any
        (λ k. k ≡ i)
        (range_indices (plan_row_groups_from_metadata host json (some e) groups).row_group_ranges)
unfolding plan_row_groups_from_metadata
plan-holds_matching host json e groups i group row g d a m =
    rw ((plan_ranges host json (some e) groups).0) (
      planned host json (some e) groups 0 0 i i empty_plan (omega arith) g
        (row_group_may_match_sound host group row d json e a m))
