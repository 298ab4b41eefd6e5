-- ===== src/Sorting/TopK.antt =====
-- What a bounded list of rows holds after one more row.
use lakeql.Base.{
  ℕ, zero, suc, ◌+◌, ◌≤◌, ◌≡◌, refl, min, Bool, true, false, List, [], ◌∷◌, ◌++◌, some, arith, ltb,
  if◌then◌else◌, length, length-append, Bool-cases, inl, inr, All,
}
use lakeql.Base.Order.{is_lt}
use lakeql.Base.Result.{ok, >>=-eq-ok}
use lakeql.Expr.{Row}
use lakeql.Scalars.{Host}
use lakeql.Sorting.{
  ScalarOrderTerm, compare_rows, worst_loop, replace_at, replace_worst, add_ordered_match,
}

module _ (host : Host) (order_by : List ScalarOrderTerm) (P : Row → Type 0) where
  replace_at-length :
      (i : ℕ) (row : Row) (rows : List Row)
      → length (replace_at host order_by i row rows) ≡ length rows
  unfolding replace_at
  replace_at-length i row [] = refl
  replace_at-length zero row (r ∷ rows) = refl
  replace_at-length (suc i) row (r ∷ rows) = omega (arith, replace_at-length i row rows)

  replace_at-All :
      (i : ℕ) (row : Row) (rows : List Row)
      → P row
      → All P rows
      → All P (replace_at host order_by i row rows)
  unfolding replace_at
  replace_at-All i row [] p ps = tt
  replace_at-All zero row (r ∷ rows) p (q, ps) = (p, ps)
  replace_at-All (suc i) row (r ∷ rows) p (q, ps) = (q, replace_at-All i row rows p ps)

  snoc-All : (rows : List Row) (row : Row) → P row → All P rows → All P (rows ++ (row ∷ []))
  snoc-All [] row p ps = (p, tt)
  snoc-All (r ∷ rows) row p (q, ps) = (q, snoc-All rows row p ps)

  replaced :
      (b : Bool) (i : ℕ) (row : Row) (rows out : List Row)
      → P row
      → All P rows
      → ok (if b then replace_at host order_by i row rows else rows) ≡ ok out
      → (length out ≡ length rows) × All P out
  replaced true i row rows out p ps h =
      let e : replace_at host order_by i row rows ≡ out = cc in
      rw (← e) (replace_at-length i row rows, replace_at-All i row rows p ps)
  replaced false i row rows out p ps h = let e : rows ≡ out = cc in rw (← e) (refl, ps)

  replace_worst-keeps :
      (matched out : List Row) (row : Row)
      → P row
      → All P matched
      → replace_worst host order_by matched row ≡ ok out
      → (length out ≡ length matched) × All P out
  unfolding replace_worst
  replace_worst-keeps [] out row p ps h = let e : [] ≡ out = cc in rw (← e) (refl, tt)
  replace_worst-keeps (r ∷ rows) out row p ps h =
      let (w, ew, h1) = >>=-eq-ok (worst_loop host order_by rows 1 0 r) _ h in
      let (o, eo, h2) = >>=-eq-ok (compare_rows host row w.1 order_by) _ h1 in
      replaced (is_lt o) w.0 row (r ∷ rows) out p ps h2

  -- A list that is kept to at most `k` rows grows by the new row until it is full and never exceeds
  -- `k` rows after that; and it holds only rows that it held, or the new one: what is true of all of
  -- those is true of each row in it.
  pub add_ordered_match-keeps :
      (matched out : List Row) (row : Row) (k : ℕ)
      → P row
      → All P matched
      → length matched ≤ k
      → add_ordered_match host order_by matched row (some k) ≡ ok out
      → (length out ≡ min k (length matched + 1)) × All P out
  unfolding add_ordered_match
  add_ordered_match-keeps matched out row zero p ps le h =
      let e : matched ≡ out = cc in rw (← e) (ground arith, ps)
  add_ordered_match-keeps matched out row (suc k) p ps le h =
      elim (Bool-cases (ltb (length matched) (suc k))) [
        | inl room ↦
            let grown : ok (matched ++ (row ∷ [])) ≡ ok out = rw room at h in
            let e : matched ++ (row ∷ []) ≡ out = cc in
            rw (← e) (ground (arith, length-append matched (row ∷ [])), snoc-All matched row p ps)
        | inr full ↦
            let (n, q) = replace_worst-keeps matched out row p ps (rw full at h) in
            (ground arith, q)
      ]
