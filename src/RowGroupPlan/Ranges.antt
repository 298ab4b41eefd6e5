-- ===== src/RowGroupPlan/Ranges.antt =====
-- packages/parquet/src/row-group-plan.ts: ranges of neighbouring indices, grown one index at a time.
use lakeql.Base.{
  ℕ, zero, suc, ◌+◌, ◌-◌, ◌≤◌, ◌<◌, ◌≡◌, ap, List, [], ◌∷◌, ◌++◌, arith, ◌==◌, if◌then◌else◌,
  Bool-cases, inl, inr, All,
}
use mathlib.Core.List.{append_assoc, append-nil}

pub record IndexRange : Type 0 where
  pub start : ℕ
  pub end : ℕ

-- The last range is extended if it ends at the index; otherwise a new one begins.
unfoldable pub push_range : List IndexRange → ℕ → List IndexRange
push_range [] index = record { start = index; end = index + 1 } ∷ []
push_range (r ∷ []) index =
    if r.end == index
    then record r { end = index + 1 } ∷ []
    else r ∷ record { start = index; end = index + 1 } ∷ []
push_range (r ∷ q ∷ rs) index = r ∷ push_range (q ∷ rs) index

unfoldable pub count_from : ℕ → ℕ → List ℕ
count_from start zero = []
count_from start (suc n) = start ∷ count_from (start + 1) n

unfoldable pub range_indices : List IndexRange → List ℕ
unfolding count_from
range_indices [] = []
range_indices (r ∷ rs) = count_from r.start (r.end - r.start) ++ range_indices rs

-- Ranges hold an index, and two of them do not touch.
abbrev pub IsSeparated : List IndexRange → Type 0
IsSeparated [] = Unit
IsSeparated (r ∷ []) = r.start < r.end
IsSeparated (r ∷ q ∷ rs) = (r.start < r.end) × (r.end < q.start) × IsSeparated (q ∷ rs)

-- Every range ends at or before an index.
abbrev pub EndBy : ℕ → List IndexRange → Type 0
EndBy index = All (λ r. r.end ≤ index)

count_from-snoc :
    (start n last : ℕ)
    → start + n ≡ last
    → count_from start (suc n) ≡ count_from start n ++ (last ∷ [])
unfolding count_from
count_from-snoc start zero last e = let e' : start ≡ last = omega arith in rw e'
count_from-snoc start (suc n) last e =
    ap (◌∷◌ start) (count_from-snoc (start + 1) n last (omega arith))

grown :
    (start end index : ℕ)
    → start < end
    → end ≡ index
    → count_from start (index + 1 - start) ≡ count_from start (end - start) ++ (index ∷ [])
grown start end index lt e =
    let a : index + 1 - start ≡ suc (end - start) = omega arith in
    rw a (count_from-snoc start (end - start) index (omega arith))

-- Pushing an index appends it to the indices of the ranges.
pub range_indices-push :
    (rs : List IndexRange) (index : ℕ)
    → IsSeparated rs
    → range_indices (push_range rs index) ≡ range_indices rs ++ (index ∷ [])
unfolding push_range range_indices
range_indices-push [] index s = let one : index + 1 - index ≡ 1 = omega arith in rw one
range_indices-push (r ∷ []) index s = elim (Bool-cases (r.end == index)) [
  | inl e ↦ rw (e, append-nil, append-nil) (grown r.start r.end index s (ground arith))
  | inr e ↦ let one : index + 1 - index ≡ 1 = omega arith in rw (e, one) (simp append-nil)
]
range_indices-push (r ∷ q ∷ rs) index s =
    rw (range_indices-push (q ∷ rs) index s.2) (append_assoc_sym r q rs index)
  where
    append_assoc_sym :
        (r q : IndexRange) (rs : List IndexRange) (index : ℕ)
        → count_from r.start (r.end - r.start) ++ (range_indices (q ∷ rs) ++ (index ∷ []))
          ≡ (count_from r.start (r.end - r.start) ++ range_indices (q ∷ rs)) ++ (index ∷ [])
    append_assoc_sym r q rs index = simp append_assoc

pub push-IsSeparated :
    (rs : List IndexRange) (index : ℕ)
    → IsSeparated rs
    → EndBy index rs
    → IsSeparated (push_range rs index) × EndBy (index + 1) (push_range rs index)
unfolding push_range
push-IsSeparated [] index s b = omega arith
push-IsSeparated (r ∷ []) index s b = elim (Bool-cases (r.end == index)) [
  | inl e ↦ rw e (ground arith)
  | inr e ↦ rw e (ground arith)
]
push-IsSeparated (r ∷ q ∷ []) index s b = elim (Bool-cases (q.end == index)) [
  | inl e ↦ rw e (ground arith)
  | inr e ↦ rw e (ground arith)
]
push-IsSeparated (r ∷ q ∷ p ∷ rs) index s b =
    let (t, u) = push-IsSeparated (q ∷ p ∷ rs) index s.2 b.1 in ((s.0, s.1, t), (omega arith, u))

pub EndBy-mono : (rs : List IndexRange) (m n : ℕ) → m ≤ n → EndBy m rs → EndBy n rs
EndBy-mono [] m n h b = tt
EndBy-mono (r ∷ rs) m n h b = (omega arith, EndBy-mono rs m n h b.1)
