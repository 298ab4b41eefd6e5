-- ===== src/Proto/Located.antt =====
-- The rows of a column's pages: where `parseColumnMetadata` of packages/lance/src/proto.ts places them.
use lakeql.Base.{ℕ, ◌+◌, ◌<◌, ◌≤◌, ◌≡◌, refl, List, [], ◌∷◌, leb, arith, ◌⊎◌, inl, inr, Bool-cases}
use lakeql.Base.Result.{ok, err, lance_read_error}
use lakeql.Proto.Reader.{max_safe_integer}
use lakeql.Proto.Columns.{Page, LocatedPage, locate_pages, checked_page_row_end}

abbrev pub total_length : List Page → ℕ
total_length [] = 0
total_length (page ∷ pages) = page.length + total_length pages

-- Each page begins where the one before it ends.
abbrev pub AreAdjacent : ℕ → List Page → List LocatedPage → Type 0
AreAdjacent start [] [] = Unit
AreAdjacent start [] (l ∷ ls) = ⊥
AreAdjacent start (p ∷ ps) [] = ⊥
AreAdjacent start (p ∷ ps) (l ∷ ls) =
    (l.page ≡ p) × (l.row_start ≡ start) × AreAdjacent (start + p.length) ps ls

-- Either the pages are located, each at the end of the one before it, and their rows are at most
-- 2^53 - 1, or they are more and locating them fails.
pub locate_pages-AreAdjacent :
    (start : ℕ) (pages : List Page)
    → start ≤ max_safe_integer
    → ((located : List LocatedPage) × (locate_pages start pages ≡ ok located)
        × AreAdjacent start pages located
        × (start + total_length pages ≤ max_safe_integer))
      ⊎ ((locate_pages start pages ≡ err lance_read_error)
          × (max_safe_integer < start + total_length pages))
unfolding locate_pages checked_page_row_end
locate_pages-AreAdjacent start [] h = inl ([], refl, tt, omega (arith, h))
locate_pages-AreAdjacent start (p ∷ ps) h =
    elim (Bool-cases (leb (start + p.length) max_safe_integer)) [
      | inl e ↦ elim (locate_pages-AreAdjacent (start + p.length) ps (ground (arith, e))) [
        | inl (ls, r, a, b) ↦ inl (
          record { page = p; row_start = start } ∷ ls,
          rw e (rw r refl),
          (refl, refl, a),
          omega (arith, b),
        )
        | inr (r, b) ↦ inr (rw e (rw r refl), omega (arith, b))
      ]
      | inr e ↦ inr (rw e refl, ground (arith, e))
    ]
