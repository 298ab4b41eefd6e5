-- ===== src/RowIds.antt =====
-- packages/lance/src/rowids.ts: stable row ids. A fragment lists the ids of its rows in segments; an
-- id is resolved to a fragment and an offset, and an offset is turned back into an id. Ids are
-- unsigned, as the format stores them.
pub mod Strict
pub mod Segments
pub mod Resolved
use lakeql.Base.{
  ℕ, zero, suc, ◌+◌, ◌-◌, ◌*◌, ◌/◌, ◌%◌, ◌^◌, ◌<◌, ◌≡◌, Bool, true, false, ◌&&◌, ◌||◌, not, List,
  [], ◌∷◌, ◌++◌, Option, none, some, leb, ltb, ◌==◌, if◌then◌else◌, length, get_elem?, get_or,
}
use Prim.Native.Nat.{bit_and}
use lakeql.Base.Result.{Result, ok, err, ErrorCode, lance_read_error, ◌>>=◌, ◌>>◌, guard}
use lakeql.Base.Search.{lower_bound}

-- An array that is missing reads as an empty one everywhere.
pub data Segment : Type 0 where
  range : Option ℕ → Option ℕ → Segment
  range_with_holes : Option ℕ → Option ℕ → List ℕ → Segment
  range_with_bitmap : Option ℕ → Option ℕ → List ℕ → Segment
  sorted_array : List ℕ → Segment
  array : List ℕ → Segment

abbrev pub max_safe_integer : ℕ
max_safe_integer = 2 ^ 53 - 1

unfoldable pub safe_offset : ℕ → Result ℕ
safe_offset n = if leb n max_safe_integer then ok n else err lance_read_error

unfoldable pub required_range : Option ℕ → Option ℕ → Result (ℕ × ℕ)
required_range none end = err lance_read_error
required_range (some start) none = err lance_read_error
required_range (some start) (some end) =
    if ltb end start then err lance_read_error else ok (start, end)

unfoldable pub bitmap_value : List ℕ → ℕ → Bool
bitmap_value bitmap index = ltb 0 (bit_and (get_or bitmap (index / 8) 0) (2 ^ (7 - index % 8)))

-- The set bits below an index.
unfoldable pub bitmap_rank : List ℕ → ℕ → ℕ
bitmap_rank bitmap zero = 0
bitmap_rank bitmap (suc n) =
    let before = bitmap_rank bitmap n in if bitmap_value bitmap n then before + 1 else before

-- `lowerBound(values, target)`
unfoldable pub lower_bound_of : List ℕ → ℕ → ℕ
unfolding lower_bound
lower_bound_of values target = lower_bound (λ value. ltb value target) values

-- `values[index] === id`
unfoldable pub has_at : List ℕ → ℕ → ℕ → Bool
has_at values index id = elim (get_elem? values index) [ none ↦ false | some v ↦ v == id ]

unfoldable pub index_of : List ℕ → ℕ → Option ℕ
index_of [] id = none
index_of (v ∷ vs) id =
    if v == id then some 0 else elim (index_of vs id) [ none ↦ none | some i ↦ some (suc i) ]

unfoldable pub find_in_segment : Segment → ℕ → Result (Option ℕ)
unfolding safe_offset required_range lower_bound_of has_at index_of
find_in_segment (Segment.range start end) id = do
  (s, e) ← required_range start end
  if ltb id s || leb e id then ok none else (safe_offset (id - s) >>= λ o. ok (some o))
find_in_segment (Segment.range_with_holes start end holes) id = do
  (s, e) ← required_range start end
  let position = lower_bound_of holes id
  if ltb id s || leb e id
      then ok none
      else if has_at holes position id
      then ok none
      else (safe_offset (id - s) >>= λ o. ok (some (o - position)))
find_in_segment (Segment.range_with_bitmap start end bitmap) id = do
  (s, e) ← required_range start end
  if ltb id s || leb e id
      then ok none
      else (safe_offset (id - s) >>= λ index.
          ok (if bitmap_value bitmap index then some (bitmap_rank bitmap index) else none))
find_in_segment (Segment.sorted_array values) id =
    let position = lower_bound_of values id in
    ok (if has_at values position id then some position else none)
find_in_segment (Segment.array values) id = ok (index_of values id)

unfoldable pub segment_length : Segment → Result ℕ
unfolding safe_offset required_range
segment_length (Segment.range start end) = do (s, e) ← required_range start end; safe_offset (e - s)
segment_length (Segment.range_with_holes start end holes) = do
  (s, e) ← required_range start end
  width ← safe_offset (e - s)
  ok (width - length holes)
segment_length (Segment.range_with_bitmap start end bitmap) = do
  (s, e) ← required_range start end
  width ← safe_offset (e - s)
  ok (bitmap_rank bitmap width)
segment_length (Segment.sorted_array values) = ok (length values)
segment_length (Segment.array values) = ok (length values)

-- `previous !== undefined && value <= previous` is refused.
unfoldable pub above : Option ℕ → ℕ → Bool
above none value = true
above (some previous) value = ltb previous value

unfoldable pub strictly_increasing : Option ℕ → List ℕ → Bool
unfolding above
strictly_increasing previous [] = true
strictly_increasing previous (v ∷ vs) = above previous v && strictly_increasing (some v) vs

unfoldable pub valid_holes : ℕ → ℕ → Option ℕ → List ℕ → Bool
unfolding above
valid_holes start end previous [] = true
valid_holes start end previous (h ∷ hs) =
    leb start h && ltb h end && above previous h && valid_holes start end (some h) hs

unfoldable pub validate_segment : Segment → Result (Unit {0})
unfolding required_range safe_offset strictly_increasing valid_holes
validate_segment (Segment.range start end) = do r ← required_range start end; ok tt
validate_segment (Segment.range_with_holes start end holes) = do
  (s, e) ← required_range start end
  guard (valid_holes s e none holes) lance_read_error
validate_segment (Segment.range_with_bitmap start end bitmap) = do
  (s, e) ← required_range start end
  width ← safe_offset (e - s)
  guard (leb width (length bitmap * 8)) lance_read_error
validate_segment (Segment.sorted_array values) =
    guard (strictly_increasing none values) lance_read_error
validate_segment (Segment.array values) = ok tt

-- `for (const hole of holes) { if (hole > value) break; value += 1n; }`
unfoldable pub skip_holes : List ℕ → ℕ → ℕ
skip_holes [] value = value
skip_holes (h ∷ hs) value =
    let rest = skip_holes hs (value + 1) in if ltb value h then value else rest

-- The index of the set bit of a rank: `left` indices remain from `index`.
unfoldable pub select_bit : List ℕ → ℕ → ℕ → ℕ → ℕ → Option ℕ
select_bit bitmap zero index rank remaining = none
select_bit bitmap (suc left) index rank remaining =
    let skip = select_bit bitmap left (index + 1) rank remaining in
    let count = select_bit bitmap left (index + 1) (rank + 1) remaining in
    if bitmap_value bitmap index then (if rank == remaining then some index else count) else skip

abbrev found_or_corrupt : Option ℕ → Result ℕ
found_or_corrupt none = err lance_read_error
found_or_corrupt (some v) = ok v

unfoldable pub value_in_segment : Segment → ℕ → Result ℕ
unfolding required_range safe_offset skip_holes select_bit
value_in_segment (Segment.range start end) remaining = do
  (s, e) ← required_range start end
  ok (s + remaining)
value_in_segment (Segment.range_with_holes start end holes) remaining = do
  (s, e) ← required_range start end
  ok (skip_holes holes (s + remaining))
value_in_segment (Segment.range_with_bitmap start end bitmap) remaining = do
  (s, e) ← required_range start end
  width ← safe_offset (e - s)
  index ← found_or_corrupt (select_bit bitmap width 0 0 remaining)
  ok (s + index)
value_in_segment (Segment.sorted_array values) remaining =
    found_or_corrupt (get_elem? values remaining)
value_in_segment (Segment.array values) remaining = found_or_corrupt (get_elem? values remaining)

-- `stableRowIdAtOffset`, at an offset that is a safe non-negative integer.
unfoldable pub stable_row_id_at_offset : List Segment → ℕ → Result ℕ
stable_row_id_at_offset [] remaining = err lance_read_error
stable_row_id_at_offset (segment ∷ segments) remaining = do
  validate_segment segment
  size ← segment_length segment
  let rest = stable_row_id_at_offset segments (remaining - size)
  if leb size remaining then rest else value_in_segment segment remaining

pub record Fragment : Type 0 where
  pub physical_rows : ℕ
  pub segments : List Segment

pub record RowAddress : Type 0 where
  pub fragment_index : ℕ
  pub row_offset : ℕ

abbrev pub Resolved : Type 0
Resolved = List (ℕ × RowAddress)

unfoldable pub set_address : ℕ → RowAddress → Resolved → Resolved
set_address id a [] = (id, a) ∷ []
set_address id a ((k, b) ∷ m) = if k == id then (k, a) ∷ m else (k, b) ∷ set_address id a m

unfoldable pub has_address : ℕ → Resolved → Bool
has_address id [] = false
has_address id ((k, b) ∷ m) = k == id || has_address id m

-- `for (const rowIdText of resolved.keys()) unresolved.delete(rowIdText)`
unfoldable pub drop_resolved : Resolved → List ℕ → List ℕ
unfolding has_address
drop_resolved m [] = []
drop_resolved m (id ∷ ids) =
    if has_address id m then drop_resolved m ids else id ∷ drop_resolved m ids

-- Looking every unresolved id up in one segment.
unfoldable pub resolve_in_segment : ℕ → ℕ → Segment → List ℕ → Resolved → Result Resolved
resolve_in_segment fragment base segment [] m = ok m
resolve_in_segment fragment base segment (id ∷ ids) m = do
  found ← find_in_segment segment id
  resolve_in_segment fragment base segment ids (elim found [
    | none ↦ m
    | some o ↦ set_address id (record { fragment_index = fragment; row_offset = base + o }) m
  ])

-- The segments of a fragment: the ids still unresolved, the addresses and the rows seen.
unfoldable pub resolve_in_segments :
    ℕ → List Segment → ℕ → List ℕ → Resolved → Result (List ℕ × Resolved × ℕ)
resolve_in_segments fragment [] base ids m = ok (ids, m, base)
resolve_in_segments fragment (segment ∷ segments) base ids m = do
  validate_segment segment
  m' ← resolve_in_segment fragment base segment ids m
  size ← segment_length segment
  resolve_in_segments fragment segments (base + size) (drop_resolved m' ids) m'

unfoldable pub resolve_in_fragments : ℕ → List Fragment → List ℕ → Resolved → Result Resolved
resolve_in_fragments index [] ids m = ok m
resolve_in_fragments index (fragment ∷ fragments) ids m = do
  (ids', m', rows) ← resolve_in_segments index fragment.segments 0 ids m
  guard (rows == fragment.physical_rows) lance_read_error
  let rest = resolve_in_fragments (index + 1) fragments ids' m'
  elim ids' [ [] ↦ ok m' | ◌∷◌ id more ↦ rest ]

-- `new Set(requested.map(String))`
unfoldable pub distinct : List ℕ → List ℕ → List ℕ
distinct seen [] = []
distinct seen (id ∷ ids) =
    if elim (index_of seen id) [ none ↦ false | some i ↦ true ]
    then distinct seen ids
    else id ∷ distinct (id ∷ seen) ids

unfoldable pub resolve_requested_row_ids : List ℕ → List Fragment → Result Resolved
unfolding resolve_in_fragments distinct
resolve_requested_row_ids requested fragments =
    resolve_in_fragments 0 fragments (distinct [] requested) []
