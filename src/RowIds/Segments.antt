-- ===== src/RowIds/Segments.antt =====
-- Looking an id up in a segment and reading the id at the offset found.
use native.Mathlib.Decide.{dec_lt}
use lakeql.Base.{
  ℕ, zero, suc, ◌+◌, ◌-◌, ◌≤◌, ◌<◌, ◌≡◌, refl, true, false, List, [], ◌∷◌, none, some, arith, ◌==◌,
  Bool-cases, Option-cases, inl, inr, length, get_elem?,
}
use lakeql.Base.Result.{ok}
use lakeql.RowIds.{
  Segment, required_range, bitmap_value, bitmap_rank, lower_bound_of, has_at, index_of,
  find_in_segment, segment_length, valid_holes, validate_segment, skip_holes, select_bit,
  value_in_segment,
}
use lakeql.RowIds.Strict.{
  rank, lower_bound_of-rank, rank-le, skip_holes-rank, length-le-rank, valid_holes-Rising,
}

has_at-get :
    (vs : List ℕ) (i id : ℕ) → has_at vs i id ≡ true → (get_elem? vs i ≡ some id) × (i < length vs)
unfolding has_at
has_at-get [] i id h = absurd (cc)
has_at-get (v ∷ vs) zero id h = ground arith
has_at-get (v ∷ vs) (suc i) id h = let (g, l) = has_at-get vs i id h in (g, omega arith)

index_of-get :
    (vs : List ℕ) (id i : ℕ)
    → index_of vs id ≡ some i
    → (get_elem? vs i ≡ some id) × (i < length vs)
unfolding index_of
index_of-get [] id i h = absurd (cc)
index_of-get (v ∷ vs) id i h = elim (Bool-cases (v == id)) [
  | inl e ↦ let z : i ≡ 0 = ground arith in rw z (ground arith)
  | inr e ↦ elim (Option-cases (index_of vs id)) [
    | inl n ↦ absurd (ground arith)
    | inr (j, f) ↦
        let z : i ≡ suc j = ground arith in
        let (g, l) = index_of-get vs id j f in rw z (g, omega arith)
  ]
]

bitmap_rank_mono : (bitmap : List ℕ) (m d : ℕ) → bitmap_rank bitmap m ≤ bitmap_rank bitmap (m + d)
unfolding bitmap_rank
bitmap_rank_mono bitmap m zero = let e : m + 0 ≡ m = omega arith in rw e (omega arith)
bitmap_rank_mono bitmap m (suc d) =
    let e : m + suc d ≡ suc (m + d) = omega arith in
    rw e (ground (arith, bitmap_rank_mono bitmap m d))

bitmap_rank-lt :
    (bitmap : List ℕ) (m n : ℕ)
    → m < n
    → bitmap_value bitmap m ≡ true
    → bitmap_rank bitmap m < bitmap_rank bitmap n
unfolding bitmap_rank
bitmap_rank-lt bitmap m n lt b =
    let e : suc m + (n - suc m) ≡ n = omega arith in
    ground (arith, rw e at (bitmap_rank_mono bitmap (suc m) (n - suc m)))

-- The loop over the bits finds the bit that the rank counts up to.
select_bit-rank :
    (bitmap : List ℕ) (left index target count : ℕ)
    → index ≤ target
    → target < index + left
    → bitmap_value bitmap target ≡ true
    → count ≡ bitmap_rank bitmap index
    → select_bit bitmap left index count (bitmap_rank bitmap target) ≡ some target
unfolding select_bit bitmap_rank
select_bit-rank bitmap zero index target count lo hi b c = absurd (omega arith)
select_bit-rank bitmap (suc left) index target count lo hi b c = elim (dec_lt index target) [
  | no here ↦ let e : index ≡ target = omega arith in rw (c, e, b) (ground arith)
  | yes lt ↦ elim (Bool-cases (bitmap_value bitmap index)) [
    | inr off ↦
        let e : index + 1 ≡ suc index = omega arith in
        ground (
          arith,
          select_bit-rank bitmap left (index + 1) target count (omega arith) (omega arith) b
              (rw e (ground arith)),
        )
    | inl on ↦
        let e : index + 1 ≡ suc index = omega arith in
        ground (
          arith,
          bitmap_rank-lt bitmap index target lt on,
          select_bit-rank bitmap left (index + 1) target (count + 1) (omega arith) (omega arith) b
              (rw e (ground arith)),
        )
  ]
]

module _ (id offset : ℕ) where
  find-range :
      (s e size : ℕ)
      → find_in_segment (Segment.range (some s) (some e)) id ≡ ok (some offset)
      → segment_length (Segment.range (some s) (some e)) ≡ ok size
      → (value_in_segment (Segment.range (some s) (some e)) offset ≡ ok id) × (offset < size)
  unfolding find_in_segment value_in_segment segment_length
  find-range s e size h l = ground arith

  find-holes :
      (s e size : ℕ) (holes : List ℕ)
      → validate_segment (Segment.range_with_holes (some s) (some e) holes) ≡ ok tt
      → find_in_segment (Segment.range_with_holes (some s) (some e) holes) id ≡ ok (some offset)
      → segment_length (Segment.range_with_holes (some s) (some e) holes) ≡ ok size
      → (value_in_segment (Segment.range_with_holes (some s) (some e) holes) offset ≡ ok id)
        × (offset < size)
  unfolding find_in_segment value_in_segment segment_length validate_segment
  find-holes s e size holes v h l =
      let valid : valid_holes s e none holes ≡ true = ground arith in
      let (rising, below) = valid_holes-Rising s e holes valid in
      let lb : lower_bound_of holes id ≡ rank id holes = lower_bound_of-rank id s holes rising in
      let inside : (s ≤ id) × (id < e) = ground arith in
      let free : has_at holes (rank id holes) id ≡ false = rw (← lb) (ground arith) in
      let at : offset ≡ id - s - rank id holes = rw (← lb) (ground arith) in
      let fits : s + rank id holes ≤ id = rank-le id s holes rising inside.0 in
      let back : s + offset ≡ id - rank id holes = omega arith in
      let read : skip_holes holes (s + offset) ≡ id =
        rw back (skip_holes-rank id s holes rising inside.0 free) in
      let count : id + length holes < rank id holes + e =
        length-le-rank id s e holes rising below inside.0 inside.1 free in
      ground arith

  find-bitmap :
      (s e size : ℕ) (bitmap : List ℕ)
      → find_in_segment (Segment.range_with_bitmap (some s) (some e) bitmap) id ≡ ok (some offset)
      → segment_length (Segment.range_with_bitmap (some s) (some e) bitmap) ≡ ok size
      → (value_in_segment (Segment.range_with_bitmap (some s) (some e) bitmap) offset ≡ ok id)
        × (offset < size)
  unfolding find_in_segment value_in_segment segment_length
  find-bitmap s e size bitmap h l =
      let inside : (s ≤ id) × (id < e) = ground arith in
      let set_bit : bitmap_value bitmap (id - s) ≡ true = ground arith in
      let at : offset ≡ bitmap_rank bitmap (id - s) = ground arith in
      let read : select_bit bitmap (e - s) 0 0 (bitmap_rank bitmap (id - s)) ≡ some (id - s) =
        select_bit-rank bitmap (e - s) 0 (id - s) 0 (omega arith) (omega arith) set_bit
          (unfold bitmap_rank in refl) in
      let smaller : bitmap_rank bitmap (id - s) < bitmap_rank bitmap (e - s) =
        bitmap_rank-lt bitmap (id - s) (e - s) (omega arith) set_bit in
      rw at (ground arith)

  find-sorted :
      (size : ℕ) (values : List ℕ)
      → find_in_segment (Segment.sorted_array values) id ≡ ok (some offset)
      → segment_length (Segment.sorted_array values) ≡ ok size
      → (value_in_segment (Segment.sorted_array values) offset ≡ ok id) × (offset < size)
  unfolding find_in_segment value_in_segment segment_length
  find-sorted size values h l = ground (arith, has_at-get values (lower_bound_of values id) id)

  find-array :
      (size : ℕ) (values : List ℕ)
      → find_in_segment (Segment.array values) id ≡ ok (some offset)
      → segment_length (Segment.array values) ≡ ok size
      → (value_in_segment (Segment.array values) offset ≡ ok id) × (offset < size)
  unfolding find_in_segment value_in_segment segment_length
  find-array size values h l = ground (arith, index_of-get values id offset)

-- The offset at which an id is found in a valid segment lies in the segment, and reads back as the
-- id, for each of the five kinds of segment.
pub find-value :
    (segment : Segment) (id offset size : ℕ)
    → validate_segment segment ≡ ok tt
    → find_in_segment segment id ≡ ok (some offset)
    → segment_length segment ≡ ok size
    → (value_in_segment segment offset ≡ ok id) × (offset < size)
unfolding find_in_segment required_range
find-value (Segment.range (some s) (some e)) id offset size v h l =
    find-range id offset s e size h l
find-value (Segment.range_with_holes (some s) (some e) holes) id offset size v h l =
    find-holes id offset s e size holes v h l
find-value (Segment.range_with_bitmap (some s) (some e) bitmap) id offset size v h l =
    find-bitmap id offset s e size bitmap h l
find-value (Segment.sorted_array values) id offset size v h l =
    find-sorted id offset size values h l
find-value (Segment.array values) id offset size v h l = find-array id offset size values h l
find-value _ id offset size v h l = absurd (cc)
