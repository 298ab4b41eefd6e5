-- ===== src/RowIds/Strict.antt =====
-- Strictly increasing arrays of row ids, and the holes of a range.
use lakeql.Base.{
  ℕ, zero, suc, ◌+◌, ◌-◌, ◌≤◌, ◌<◌, ◌≡◌, Bool, true, false, List, [], ◌∷◌, Option, none, some,
  arith, ltb, Bool-cases, inl, inr, length,
}
use lakeql.Base.Search.{below_at, prefix_length, IsSplit, lower_bound-eq-prefix_length}
use lakeql.RowIds.{lower_bound_of, has_at, strictly_increasing, valid_holes, skip_holes}

-- Every element is at least `low`, and each is above the one before it.
abbrev pub Rising : ℕ → List ℕ → Type 0
Rising low [] = Unit
Rising low (h ∷ hs) = (low ≤ h) × Rising (h + 1) hs

abbrev pub Below : ℕ → List ℕ → Type 0
Below end [] = Unit
Below end (h ∷ hs) = (h < end) × Below end hs

abbrev pub bound : Option ℕ → ℕ
bound none = 0
bound (some p) = p + 1

pub strictly_increasing-Rising :
    (previous : Option ℕ) (vs : List ℕ)
    → strictly_increasing previous vs ≡ true
    → Rising (bound previous) vs
unfolding strictly_increasing
strictly_increasing-Rising previous [] h = tt
strictly_increasing-Rising none (v ∷ vs) h =
    (omega arith, strictly_increasing-Rising (some v) vs (ground arith))
strictly_increasing-Rising (some p) (v ∷ vs) h =
    (ground arith, strictly_increasing-Rising (some v) vs (ground arith))

valid_next :
    (start end : ℕ) (h : ℕ) (hs : List ℕ)
    → valid_holes start end (some h) hs ≡ true
    → Rising (h + 1) hs × Below end hs
unfolding valid_holes
valid_next start end h [] v = (tt, tt)
valid_next start end h (k ∷ hs) v =
    let (r, b) = valid_next start end k hs (ground arith) in ((ground arith, r), (ground arith, b))

pub valid_holes-Rising :
    (start end : ℕ) (hs : List ℕ)
    → valid_holes start end none hs ≡ true
    → Rising start hs × Below end hs
unfolding valid_holes
valid_holes-Rising start end [] v = (tt, tt)
valid_holes-Rising start end (h ∷ hs) v =
    let (r, b) = valid_next start end h hs (ground arith) in ((ground arith, r), (ground arith, b))

module _ (id : ℕ) where
  abbrev pub under : ℕ → Bool
  under value = ltb value id

  -- The number of elements below `id`.
  abbrev pub rank : List ℕ → ℕ
  rank = prefix_length under

  under-Rising :
      (low : ℕ) (hs : List ℕ) (j : ℕ) → Rising low hs → below_at under hs j ≡ true → low < id
  unfolding below_at
  under-Rising low [] j r t = absurd (cc)
  under-Rising low (h ∷ hs) zero r t = ground arith
  under-Rising low (h ∷ hs) (suc j) r t = omega (arith, under-Rising (h + 1) hs j r.1 t)

  Rising-IsSplit : (low : ℕ) (hs : List ℕ) → Rising low hs → IsSplit under hs
  unfolding below_at
  Rising-IsSplit low [] r i j le t = absurd (cc)
  Rising-IsSplit low (h ∷ hs) r zero zero le t = t
  Rising-IsSplit low (h ∷ hs) r zero (suc j) le t = ground (arith, under-Rising (h + 1) hs j r.1 t)
  Rising-IsSplit low (h ∷ hs) r (suc i) zero le t = absurd (omega arith)
  Rising-IsSplit low (h ∷ hs) r (suc i) (suc j) le t =
      Rising-IsSplit (h + 1) hs r.1 i j (omega arith) t

  pub lower_bound_of-rank : (low : ℕ) (hs : List ℕ) → Rising low hs → lower_bound_of hs id ≡ rank hs
  unfolding lower_bound_of
  lower_bound_of-rank low hs r = lower_bound-eq-prefix_length under hs (Rising-IsSplit low hs r)

  pub rank-le : (low : ℕ) (hs : List ℕ) → Rising low hs → low ≤ id → low + rank hs ≤ id
  unfolding prefix_length
  rank-le low [] r le = omega arith
  rank-le low (h ∷ hs) r le = elim (Bool-cases (ltb h id)) [
    | inl t ↦ rw t (ground (arith, rank-le (h + 1) hs r.1))
    | inr f ↦ rw f (omega arith)
  ]

  -- From the number of rows before an id that is no hole, skipping the holes finds the id.
  pub skip_holes-rank :
      (low : ℕ) (hs : List ℕ)
      → Rising low hs
      → low ≤ id
      → has_at hs (rank hs) id ≡ false
      → skip_holes hs (id - rank hs) ≡ id
  unfolding prefix_length skip_holes has_at
  skip_holes-rank low [] r le n = omega arith
  skip_holes-rank low (h ∷ hs) r le n = elim (Bool-cases (ltb h id)) [
    | inr f ↦ ground arith
    | inl t ↦
        let b : h + 1 + rank hs ≤ id = rank-le (h + 1) hs r.1 (ground arith) in
        let go : ltb (id - suc (rank hs)) h ≡ false = ground arith in
        let next : id - suc (rank hs) + 1 ≡ id - rank hs = omega arith in
        let rest : skip_holes hs (id - rank hs) ≡ id =
          skip_holes-rank (h + 1) hs r.1 (omega arith) (ground arith) in
        rw (t, go, next) rest
  ]

  length-Rising :
      (low end : ℕ) (hs : List ℕ) → Rising low hs → Below end hs → low ≤ end → low + length hs ≤ end
  length-Rising low end [] r b le = omega arith
  length-Rising low end (h ∷ hs) r b le = omega (arith, length-Rising (h + 1) end hs r.1 b.1)

  -- The holes behind an id that is no hole lie between it and the end of the range.
  pub length-le-rank :
      (low end : ℕ) (hs : List ℕ)
      → Rising low hs
      → Below end hs
      → low ≤ id
      → id < end
      → has_at hs (rank hs) id ≡ false
      → id + length hs < rank hs + end
  unfolding prefix_length has_at
  length-le-rank low end [] r b le lt n = omega arith
  length-le-rank low end (h ∷ hs) r b le lt n = elim (Bool-cases (ltb h id)) [
    | inl t ↦
        let rest : id + length hs < rank hs + end =
          length-le-rank (h + 1) end hs r.1 b.1 (ground arith) lt (ground arith) in
        ground arith
    | inr f ↦ ground (arith, length-Rising (h + 1) end hs r.1 b.1)
  ]
