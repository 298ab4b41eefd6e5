-- ===== src/RowGroupPlan/Rows.antt =====
-- Where the rows of a planned row group lie in the file.
use lakeql.Base.{
  ℕ, zero, suc, ◌+◌, ◌≡◌, refl, sym, Bool, true, false, List, [], ◌∷◌, ◌++◌, Option, some, arith,
  if◌then◌else◌, All, get_elem?,
}
use lakeql.Expr.{Expr}
use lakeql.Scalars.{Host}
use lakeql.Pruning.Stats.{RowGroup}
use lakeql.Pruning.Spatial.{JsonHost}
use lakeql.Pruning.RowGroups.{row_group_may_match}
use lakeql.RowGroupPlan.{
  PlannedRowGroup, RowGroupPlan, add_group, plan_loop, empty_plan, plan_row_groups_from_metadata,
}

-- The rows of the groups before an index.
unfoldable pub rows_before : List RowGroup → ℕ → ℕ
rows_before [] i = 0
rows_before (group ∷ groups) zero = 0
rows_before (group ∷ groups) (suc i) = group.num_rows + rows_before groups i

rows_before-suc :
    (groups : List RowGroup) (i : ℕ) {group : RowGroup}
    → get_elem? groups i ≡ some group
    → rows_before groups (suc i) ≡ rows_before groups i + group.num_rows
unfolding rows_before
rows_before-suc [] i h = absurd (cc)
rows_before-suc (g ∷ []) zero h = ground arith
rows_before-suc (g ∷ q ∷ groups) zero h = ground arith
rows_before-suc (g ∷ groups) (suc i) h = omega (arith, rows_before-suc groups i h)

snoc-All :
    (P : PlannedRowGroup → Type 0) (gs : List PlannedRowGroup) (g : PlannedRowGroup)
    → All P gs
    → P g
    → All P (gs ++ (g ∷ []))
snoc-All P [] g h p = (p, tt)
snoc-All P (q ∷ gs) g (r, h) p = (r, snoc-All P gs g h p)

module _ (host : Host) (json : JsonHost) (e : Option Expr) (all_groups : List RowGroup) where
  -- A planned group stands at its index, its rows follow those of the groups before it, and it may
  -- match.
  abbrev pub IsPlaced : PlannedRowGroup → Type 0
  IsPlaced p =
      (group : RowGroup) × (get_elem? all_groups p.index ≡ some group)
      × (p.row_count ≡ group.num_rows)
      × (p.row_start ≡ rows_before all_groups p.index)
      × (row_group_may_match host group json e ≡ true)

  add-All :
      (b : Bool) (plan : RowGroupPlan) (index row_start : ℕ) (group : RowGroup)
      → row_group_may_match host group json e ≡ b
      → get_elem? all_groups index ≡ some group
      → rows_before all_groups index ≡ row_start
      → All IsPlaced plan.row_groups
      → All IsPlaced (if b then add_group plan index row_start group else plan).row_groups
  unfolding add_group
  add-All true plan index row_start group m g r h =
      snoc-All IsPlaced plan.row_groups _ h (group, g, refl, sym r, m)
  add-All false plan index row_start group m g r h = h

  loop-All :
      (groups : List RowGroup) (index row_start : ℕ) (plan : RowGroupPlan)
      → ((i : ℕ) → get_elem? all_groups (index + i) ≡ get_elem? groups i)
      → rows_before all_groups index ≡ row_start
      → All IsPlaced plan.row_groups
      → All IsPlaced (plan_loop host json e groups index row_start plan).row_groups
  unfolding plan_loop
  loop-All [] index row_start plan at r h = h
  loop-All (group ∷ groups) index row_start plan at r h =
      let z : index + 0 ≡ index = omega arith in
      let here : get_elem? all_groups index ≡ some group = rw z at (at 0) in
      let next : index + 1 ≡ suc index = omega arith in
      loop-All groups (index + 1) (row_start + group.num_rows) _
        (λ i. let k : index + 1 + i ≡ index + suc i = omega arith in rw k (at (suc i)))
        (rw next (omega (arith, rows_before-suc all_groups index here)))
        (add-All (row_group_may_match host group json e) plan index row_start group refl here r h)

-- Each row group of a plan names by its index a row group of the file that may match, has as many
-- rows, and begins where the rows of all groups before it end, those that are skipped included.
pub plan_row_groups-IsPlaced :
    (host : Host) (json : JsonHost) (e : Option Expr) (groups : List RowGroup)
    → All
        (IsPlaced host json e groups)
        (plan_row_groups_from_metadata host json e groups).row_groups
unfolding plan_row_groups_from_metadata rows_before
plan_row_groups-IsPlaced host json e groups =
    loop-All host json e groups groups 0 0 empty_plan (λ i. let z : 0 + i ≡ i = omega arith in rw z)
      (none_before groups) tt
  where
    none_before : (gs : List RowGroup) → rows_before gs 0 ≡ 0
    none_before [] = refl
    none_before (g ∷ gs) = refl
