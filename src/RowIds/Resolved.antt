-- ===== src/RowIds/Resolved.antt =====
-- Resolving ids: every address found reads back as its id.
use lakeql.Base.{
  ℕ, suc, ◌+◌, ◌-◌, ◌<◌, ◌≡◌, refl, ◌∙◌, true, List, [], ◌∷◌, ◌++◌, Option, none, some, arith, leb,
  ◌==◌, Bool-cases, inl, inr, get_elem?, All,
}
use mathlib.Core.List.{append_assoc}
use lakeql.Base.Result.{Result, ok, lance_read_error, guard, >>=-eq-ok}
use lakeql.RowIds.{
  Segment, Fragment, RowAddress, Resolved, find_in_segment, segment_length, validate_segment,
  value_in_segment, stable_row_id_at_offset, set_address, drop_resolved, resolve_in_segment,
  resolve_in_segments, resolve_in_fragments, resolve_requested_row_ids, distinct,
}
use lakeql.RowIds.Segments.{find-value}

-- The rows of segments that are all valid.
data Covers : List Segment → ℕ → Type 0 where
  none_yet : Covers [] 0
  one_more :
      {segments : List Segment} {rows : ℕ} (segment : Segment) (size : ℕ)
      → validate_segment segment ≡ ok tt
      → segment_length segment ≡ ok size
      → Covers segments rows
      → Covers (segment ∷ segments) (size + rows)

-- Behind segments that cover some rows, an offset is one of the segment that follows.
stable_row_id-after :
    {before : List Segment} {base : ℕ} (segment : Segment) (after : List Segment)
    (offset size id : ℕ)
    → Covers before base
    → validate_segment segment ≡ ok tt
    → segment_length segment ≡ ok size
    → offset < size
    → value_in_segment segment offset ≡ ok id
    → stable_row_id_at_offset (before ++ (segment ∷ after)) (base + offset) ≡ ok id
unfolding stable_row_id_at_offset
stable_row_id-after segment after offset size id none_yet v l lt e =
    let z : 0 + offset ≡ offset = omega arith in rw (z, v, l) (ground arith)
stable_row_id-after segment after offset size id (one_more {segments} {rows} first n fv fl c) v l lt
      e =
    let far : leb n (n + rows + offset) ≡ true = ground arith in
    let rest : n + rows + offset - n ≡ rows + offset = omega arith in
    rw (fv, fl, far, rest) (stable_row_id-after segment after offset size id c v l lt e)

-- An address names a fragment, and the id at its offset is the id it was found for.
abbrev pub ReadsBack : List Fragment → ℕ × RowAddress → Type 0
ReadsBack fragments (id, a) =
    (fragment : Fragment) × (get_elem? fragments a.fragment_index ≡ some fragment)
    × (stable_row_id_at_offset fragment.segments a.row_offset ≡ ok id)

set_address-All :
    (P : ℕ × RowAddress → Type 0) (id : ℕ) (a : RowAddress) (m : Resolved)
    → P (id, a)
    → All P m
    → All P (set_address id a m)
unfolding set_address
set_address-All P id a [] p ps = (p, tt)
set_address-All P id a ((k, b) ∷ m) p ps = elim (Bool-cases (k == id)) [
  | inl e ↦ let same : k ≡ id = ground arith in rw e (rw same p, ps.1)
  | inr e ↦ rw e (ps.0, set_address-All P id a m p ps.1)
]

Covers-snoc :
    {before : List Segment} {base : ℕ} (segment : Segment) (size : ℕ)
    → Covers before base
    → validate_segment segment ≡ ok tt
    → segment_length segment ≡ ok size
    → (rows : ℕ) × (rows ≡ base + size) × Covers (before ++ (segment ∷ [])) rows
Covers-snoc segment size none_yet v l = (size + 0, omega arith, one_more segment size v l none_yet)
Covers-snoc segment size (one_more first n fv fl c) v l =
    let (rows, e, c') = Covers-snoc segment size c v l in
    (n + rows, omega arith, one_more first n fv fl c')

module _ (fragments : List Fragment) (index : ℕ) (fragment : Fragment)
    (here : get_elem? fragments index ≡ some fragment) where
  segment-ReadsBack :
      {before : List Segment} {base : ℕ} (segment : Segment) (after : List Segment) (size : ℕ)
      (ids : List ℕ) (m m' : Resolved)
      → Covers before base
      → before ++ (segment ∷ after) ≡ fragment.segments
      → validate_segment segment ≡ ok tt
      → segment_length segment ≡ ok size
      → All (ReadsBack fragments) m
      → resolve_in_segment index base segment ids m ≡ ok m'
      → All (ReadsBack fragments) m'
  unfolding resolve_in_segment
  segment-ReadsBack segment after size [] m m' c s v l a h =
      let e : m ≡ m' = ground arith in rw (← e) a
  segment-ReadsBack {base} segment after size (id ∷ ids) m m' c s v l a h =
      let (found, ef, h1) = >>=-eq-ok (find_in_segment segment id) _ h in
      segment-ReadsBack segment after size ids _ m' c s v l (outcome found ef) h1
    where
      outcome :
          (found : Option ℕ)
          → find_in_segment segment id ≡ ok found
          → All (ReadsBack fragments) (elim found as (λ _. Resolved) [
            | none ↦ m
            | some o ↦ set_address id (record { fragment_index = index; row_offset = base + o }) m
          ])
      outcome none e = a
      outcome (some o) e =
          let (read, lt) = find-value segment id o size v e l in
          set_address-All (ReadsBack fragments) id _ m
            (fragment, here, rw (← s) (stable_row_id-after segment after o size id c v l lt read)) a

  segments-ReadsBack :
      (before : List Segment) (base : ℕ) (segments : List Segment) (ids : List ℕ) (m : Resolved)
      (out : List ℕ × Resolved × ℕ)
      → Covers before base
      → before ++ segments ≡ fragment.segments
      → All (ReadsBack fragments) m
      → resolve_in_segments index segments base ids m ≡ ok out
      → All (ReadsBack fragments) out.1
  unfolding resolve_in_segments
  segments-ReadsBack before base [] ids m out c s a h =
      let e : m ≡ out.1 = ground arith in rw (← e) a
  segments-ReadsBack before base (segment ∷ segments) ids m out c s a h =
      let (u, v, h1) = >>=-eq-ok (validate_segment segment) _ h in
      let (m', em, h2) = >>=-eq-ok (resolve_in_segment index base segment ids m) _ h1 in
      let (size, l, h3) = >>=-eq-ok (segment_length segment) _ h2 in
      let (rows, er, c') = Covers-snoc segment size c v l in
      segments-ReadsBack (before ++ (segment ∷ [])) rows segments (drop_resolved m' ids) m' out c'
        (append_assoc before (segment ∷ []) segments ∙ s)
        (segment-ReadsBack segment segments size ids m m' c s v l a em) (rw (← er) at h3)

-- The end of the loop: it stops once no id is left.
stop_or_go :
    (P : Resolved → Type 0) (index : ℕ) (rest : List Fragment) (ids : List ℕ) (m m' : Resolved)
    → P m
    → (resolve_in_fragments (index + 1) rest ids m ≡ ok m' → P m')
    → (elim ids as (λ _. Result Resolved) [
      | [] ↦ ok m
      | ◌∷◌ id more ↦ resolve_in_fragments (index + 1) rest ids m
    ])
      ≡ ok m'
    → P m'
stop_or_go P index rest [] m m' p go h = let e : m ≡ m' = ground arith in rw (← e) p
stop_or_go P index rest (id ∷ ids) m m' p go h = go h

fragments-ReadsBack :
    (fragments : List Fragment) (rest : List Fragment) (index : ℕ) (ids : List ℕ) (m m' : Resolved)
    → ((i : ℕ) → get_elem? fragments (index + i) ≡ get_elem? rest i)
    → All (ReadsBack fragments) m
    → resolve_in_fragments index rest ids m ≡ ok m'
    → All (ReadsBack fragments) m'
unfolding resolve_in_fragments
fragments-ReadsBack fragments [] index ids m m' at a h = let e : m ≡ m' = ground arith in rw (← e) a
fragments-ReadsBack fragments (fragment ∷ rest) index ids m m' at a h =
    let (out, er, h1) = >>=-eq-ok (resolve_in_segments index fragment.segments 0 ids m) _ h in
    let (u, eu, h2) = >>=-eq-ok (guard (out.2 == fragment.physical_rows) lance_read_error) _ h1 in
    let z : index + 0 ≡ index = omega arith in
    let a' : All (ReadsBack fragments) out.1 =
      segments-ReadsBack fragments index fragment (rw z at (at 0)) [] 0 fragment.segments ids m out
        none_yet refl a er in
    stop_or_go (All (ReadsBack fragments)) index rest out.0 out.1 m' a'
      (fragments-ReadsBack fragments rest (index + 1) out.0 out.1 m'
        (λ i. let e : index + 1 + i ≡ index + suc i = omega arith in rw e (at (suc i))) a')
      h2

-- Whenever row ids are resolved, each address names a fragment of the dataset, and the stable row id
-- at its offset in that fragment is the id that was asked for.
pub resolve_requested_row_ids-ReadsBack :
    (requested : List ℕ) (fragments : List Fragment) (m : Resolved)
    → resolve_requested_row_ids requested fragments ≡ ok m
    → All (ReadsBack fragments) m
unfolding resolve_requested_row_ids
resolve_requested_row_ids-ReadsBack requested fragments m h =
    fragments-ReadsBack fragments fragments 0 (distinct [] requested) [] m
      (λ i. let e : 0 + i ≡ i = omega arith in rw e) tt h
