-- ===== src/Builders/Membership.antt =====
-- When what `isIn` and `notIn` build (packages/core/src/expr.ts) is true and when it is false, with nulls in
-- the list.
use lakeql.Base.{
  ◌≡◌, refl, ◌↔◌, ◌⊎◌, Bool, true, false, List, [], ◌∷◌, none, some, arith, if◌then◌else◌, All,
  Bool-cases, inl, inr,
}
use lakeql.Base.Result.{Result, ok, err, ◌>>=◌}
use lakeql.Expr.{Scalar, boolean, CompareOp, Expr, Exprs, Row}
use lakeql.Scalars.{Host}
use lakeql.Evaluator.{
  SqlBoolean, of_sql, sql_not, is_null, compare_scalars, in_values, in_list, evaluate, evaluate_all,
}
use lakeql.Builders.{ColumnInput, ValueInput, to_column, to_values, is_in, not_in}

module _ (host : Host) where
  abbrev pub Equals : Scalar → Scalar → Type 0
  Equals target value = compare_scalars host CompareOp.eq target value ≡ ok (some true)

  abbrev pub Differs : Scalar → Scalar → Type 0
  Differs target value = compare_scalars host CompareOp.eq target value ≡ ok (some false)

  -- The comparison with the value is neither true nor false: one of the two is null.
  abbrev pub IsUnknown : Scalar → Scalar → Type 0
  IsUnknown target value = compare_scalars host CompareOp.eq target value ≡ ok none

  -- The first value of the list that the target equals comes before any that it cannot be compared with.
  abbrev pub Occurs : Scalar → List Scalar → Type 0
  Occurs target [] = ⊥
  Occurs target (v ∷ vs) =
      Equals target v ⊎ ((Differs target v ⊎ IsUnknown target v) × Occurs target vs)

  -- What a step of the loop does with the result of a comparison.
  module _ (target : Scalar) (vs : List Scalar) where
    in_step : Result SqlBoolean → Bool → Result SqlBoolean
    in_step r saw_null = r >>= λ result. elim result [
      | none ↦ in_values host target vs true
      | some true ↦ ok (some true)
      | some false ↦ in_values host target vs saw_null
    ]

    in_step-true :
        (r : Result SqlBoolean) (saw_null : Bool)
        → ((s : Bool) → (in_values host target vs s ≡ ok (some true)) ↔ Occurs target vs)
        → (in_step r saw_null ≡ ok (some true))
          ↔ ((r ≡ ok (some true)) ⊎ (((r ≡ ok (some false)) ⊎ (r ≡ ok none)) × Occurs target vs))
    unfolding in_step
    in_step-true (err e) saw_null h = (λ x. absurd cc, λ x. absurd (ground arith))
    in_step-true (ok none) saw_null h = (
      λ x. inr (inr refl, (h true).0 x),
      λ z. elim z [ inl x ↦ absurd cc | inr (x, y) ↦ (h true).1 y ],
    )
    in_step-true (ok (some true)) saw_null h = (λ x. inl refl, λ x. refl)
    in_step-true (ok (some false)) saw_null h = (
      λ x. inr (inl refl, (h saw_null).0 x),
      λ z. elim z [ inl x ↦ absurd cc | inr (x, y) ↦ (h saw_null).1 y ],
    )

    in_step-false :
        (r : Result SqlBoolean) (saw_null : Bool)
        → ((s : Bool)
            → (in_values host target vs s ≡ ok (some false))
              ↔ ((s ≡ false) × All (Differs target) vs))
        → (in_step r saw_null ≡ ok (some false))
          ↔ ((saw_null ≡ false) × ((r ≡ ok (some false)) × All (Differs target) vs))
    unfolding in_step
    in_step-false (err e) saw_null h = (λ x. absurd cc, λ (s, (x, a)). absurd cc)
    in_step-false (ok none) saw_null h =
        (λ x. let (s, a) = (h true).0 x in absurd cc, λ (s, (x, a)). absurd cc)
    in_step-false (ok (some true)) saw_null h = (λ x. absurd cc, λ (s, (x, a)). absurd cc)
    in_step-false (ok (some false)) saw_null h =
        (λ x. let (s, a) = (h saw_null).0 x in (s, (refl, a)), λ (s, (x, a)). (h saw_null).1 (s, a))

  in_values-true :
      (target : Scalar) (vs : List Scalar) (saw_null : Bool)
      → (in_values host target vs saw_null ≡ ok (some true)) ↔ Occurs target vs
  unfolding in_values in_step
  in_values-true target [] true = (λ x. absurd cc, λ x. absurd x)
  in_values-true target [] false = (λ x. absurd cc, λ x. absurd x)
  in_values-true target (v ∷ vs) saw_null =
      in_step-true target vs (compare_scalars host CompareOp.eq target v) saw_null
        (λ s. in_values-true target vs s)

  in_values-false :
      (target : Scalar) (vs : List Scalar) (saw_null : Bool)
      → (in_values host target vs saw_null ≡ ok (some false))
        ↔ ((saw_null ≡ false) × All (Differs target) vs)
  unfolding in_values in_step
  in_values-false target [] true = (λ x. absurd cc, λ (s, a). absurd cc)
  in_values-false target [] false = (λ x. (refl, tt), λ x. refl)
  in_values-false target (v ∷ vs) saw_null =
      in_step-false target vs (compare_scalars host CompareOp.eq target v) saw_null
        (λ s. in_values-false target vs s)

  -- Not null, and among the values.
  abbrev pub IsListed : Scalar → List Scalar → Type 0
  IsListed target vs = (is_null target ≡ false) × Occurs target vs

  -- Not null, and different from all values, none of which is null.
  abbrev pub IsApart : Scalar → List Scalar → Type 0
  IsApart target vs = (is_null target ≡ false) × All (Differs target) vs

  IsMember : Scalar → List Scalar → Bool → Type 0
  IsMember target vs true = IsListed target vs
  IsMember target vs false = IsApart target vs

  in_list-IsMember :
      (target : Scalar) (vs : List Scalar) (found : Bool)
      → (in_list host target vs ≡ ok (some found)) ↔ IsMember target vs found
  unfolding in_list IsMember
  in_list-IsMember target vs true = elim (Bool-cases (is_null target)) [
    | inl n ↦ rw n (λ x. absurd cc, λ (x, o). absurd cc)
    | inr n ↦ rw n (
      λ x. (refl, (in_values-true target vs false).0 x),
      λ (x, o). (in_values-true target vs false).1 o,
    )
  ]
  in_list-IsMember target vs false = elim (Bool-cases (is_null target)) [
    | inl n ↦ rw n (λ x. absurd cc, λ (x, o). absurd cc)
    | inr n ↦ rw n (
      λ x. (refl, ((in_values-false target vs false).0 x).1),
      λ (x, o). (in_values-false target vs false).1 (refl, o),
    )
  ]

as_boolean :
    (r : Result SqlBoolean) (c : Bool)
    → ((r >>= λ b. ok (of_sql b)) ≡ ok (boolean c)) ↔ (r ≡ ok (some c))
as_boolean (err e) c = (λ x. absurd cc, λ x. absurd cc)
as_boolean (ok none) c = (λ x. absurd cc, λ x. absurd cc)
as_boolean (ok (some b)) c = (λ x. cc, λ x. cc)

as_opposite :
    (r : Result SqlBoolean) (c : Bool)
    → ((r >>= λ b. ok (of_sql (sql_not b))) ≡ ok (boolean (if c then false else true)))
      ↔ (r ≡ ok (some c))
unfolding sql_not
as_opposite (err e) c = (λ x. absurd cc, λ x. absurd cc)
as_opposite (ok none) c = (λ x. absurd cc, λ x. absurd cc)
as_opposite (ok (some true)) true = (λ x. refl, λ x. refl)
as_opposite (ok (some true)) false = (λ x. absurd cc, λ x. absurd cc)
as_opposite (ok (some false)) true = (λ x. absurd cc, λ x. absurd cc)
as_opposite (ok (some false)) false = (λ x. refl, λ x. refl)

module _ (host : Host) (row : Row) (target : Scalar) (t : Expr) where
  in_list-values :
      (es : Exprs) (vs : List Scalar) (negated : Bool)
      → evaluate host row t ≡ ok target
      → evaluate_all host row es ≡ ok vs
      → evaluate host row (Expr.in_list negated t es)
        ≡ (in_list host target vs >>= λ r. ok (of_sql (if negated then sql_not r else r)))
  unfolding evaluate
  in_list-values es vs negated e f = rw (e, f) refl

-- Of a column and values that have been evaluated, `isIn` is true exactly where the column is not null and
-- equals one of the values, with none before it that it cannot be compared with, and false exactly where
-- the column is not null and differs from all values, none of which is null; `notIn` is false in the first
-- case and true in the second. Lists from which neither is built (that hold an interval) are left out.
pub is_in-not_in :
    (host : Host) (row : Row) (column : ColumnInput) (values : List ValueInput) {es : Exprs}
    {target : Scalar} {vs : List Scalar}
    → to_values values ≡ some es
    → evaluate host row (to_column column) ≡ ok target
    → evaluate_all host row es ≡ ok vs
    → (p : Expr) × (q : Expr) × (is_in column values ≡ some p)
      × (not_in column values ≡ some q)
      × ((evaluate host row p ≡ ok (boolean true)) ↔ IsListed host target vs)
      × ((evaluate host row p ≡ ok (boolean false)) ↔ IsApart host target vs)
      × ((evaluate host row q ≡ ok (boolean false)) ↔ IsListed host target vs)
      × ((evaluate host row q ≡ ok (boolean true)) ↔ IsApart host target vs)
unfolding IsMember
is_in-not_in host row column values {es} {target} {vs} b e f =
    let direct = in_list-values host row target (to_column column) es vs false e f in
    let negated = in_list-values host row target (to_column column) es vs true e f in
    let r = in_list host target vs in
    let found = in_list-IsMember host target vs true in
    let missed = in_list-IsMember host target vs false in
    (
      Expr.in_list false (to_column column) es,
      Expr.in_list true (to_column column) es,
      rw b refl,
      rw b refl,
      rw direct (chain (as_boolean r true) found),
      rw direct (chain (as_boolean r false) missed),
      rw negated (chain (as_opposite r true) found),
      rw negated (chain (as_opposite r false) missed),
    )
  where
    chain : {A B C : Type 0} → A ↔ B → B ↔ C → A ↔ C
    chain (f, g) (h, k) = (λ x. h (f x), λ z. g (k z))
