-- ===== src/Sorting/Normalized.antt =====
-- packages/core/src/query-sort.ts, `normalizeOrderBy`: the terms of an order with their defaults written
-- out. The types of a term hold its direction and its place of nulls to the values that are allowed.
use lakeql.Base.{Bool, true, false, ◌≡◌, List, [], ◌∷◌, some, if◌then◌else◌}
use lakeql.Base.Result.{Result, ok, err, type_error, ◌>>=◌}
use lakeql.Expr.{Text}
use lakeql.Sorting.{ScalarOrderTerm, direction_of, nulls_of}

-- The term with its defaults.
abbrev pub with_defaults : ScalarOrderTerm → ScalarOrderTerm
with_defaults term = record {
  column = term.column;
  direction = some (direction_of term);
  nulls = some (nulls_of term);
}

abbrev is_unnamed : Text → Bool
is_unnamed [] = true
is_unnamed (c ∷ s) = false

unfoldable pub normalize_term : ScalarOrderTerm → Result ScalarOrderTerm
normalize_term term = if is_unnamed term.column then err type_error else ok (with_defaults term)

unfoldable pub normalize_terms : List ScalarOrderTerm → Result (List ScalarOrderTerm)
unfolding normalize_term
normalize_terms [] = ok []
normalize_terms (term ∷ terms) = do
  normal ← normalize_term term
  rest ← normalize_terms terms
  ok (normal ∷ rest)

unfoldable pub normalize_order_by : List ScalarOrderTerm → Result (List ScalarOrderTerm)
unfolding normalize_terms
normalize_order_by [] = err type_error
normalize_order_by (term ∷ terms) = normalize_terms (term ∷ terms)

-- The column of a term has a name.
abbrev pub IsNamed : ScalarOrderTerm → Type 0
IsNamed term = is_unnamed term.column ≡ false

abbrev all_defaults : List ScalarOrderTerm → List ScalarOrderTerm
all_defaults [] = []
all_defaults (term ∷ terms) = with_defaults term ∷ all_defaults terms
