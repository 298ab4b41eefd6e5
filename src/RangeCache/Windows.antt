-- ===== src/RangeCache/Windows.antt =====
-- The windows in which slices are read (packages/parquet/src/range-cache.ts), and what is prefetched.
use lakeql.Base.{
  ℕ, zero, suc, ◌+◌, ◌-◌, ◌*◌, ◌/◌, ◌≤◌, ◌<◌, ◌≡◌, refl, arith, max, false, List, [], ◌∷◌, ◌++◌,
  All, Bool-cases, inl, inr,
}
use lakeql.RangeCache.{
  ByteSpan, RangeCacheOptions, coalesced_range, is_passed_over, retained_ranges, prefetched_ranges,
}
use native.Mathlib.Nat.{div-add-mod, mul-div_cancel, zero-lt-suc}

window_start : (start w : ℕ) → start / w * w ≤ start
window_start start w = omega (arith, div-add-mod start w)

-- What is read for a request holds the request and ends no later than the file; it is no longer than the
-- request and than a window together.
pub coalesced_range-holds :
    (file_length start end coalesce_bytes : ℕ)
    → start ≤ end
    → end ≤ file_length
    → let r = coalesced_range file_length start end coalesce_bytes in
      (r.start ≤ start)
      × (end ≤ r.end)
      × (r.end ≤ file_length)
      × (r.end - r.start ≤ max (end - start) coalesce_bytes)
unfolding coalesced_range
coalesced_range-holds file_length start end w h k = ground (arith, h, k, window_start start w)

pub coalesced_range-coalesced_range :
    (file_length start end coalesce_bytes : ℕ)
    → start ≤ end
    → end ≤ file_length
    → let r = coalesced_range file_length start end coalesce_bytes in
      coalesced_range file_length r.start r.end coalesce_bytes ≡ r
unfolding coalesced_range
coalesced_range-coalesced_range file_length start end zero h k = ground (arith, h, k)
coalesced_range-coalesced_range file_length start end (suc w) h k =
    let exact = mul-div_cancel (start / suc w) (zero-lt-suc w) in
    ground (arith, h, k, window_start start (suc w), exact)

-- The bytes of spans.
abbrev pub span_bytes : List ByteSpan → ℕ
span_bytes [] = 0
span_bytes (s ∷ spans) = s.end - s.start + span_bytes spans

-- Not empty, and no longer than an entry.
abbrev pub IsRetainable : RangeCacheOptions → ByteSpan → Type 0
IsRetainable options s = (s.start < s.end) × (s.end - s.start ≤ options.max_entry_bytes)

module _ (file_length : ℕ) (options : RangeCacheOptions) where
  -- Requests that are retained together.
  abbrev pub AreRetainable : List ByteSpan → Type 0
  AreRetainable spans = All (IsRetainable options) spans × (span_bytes spans ≤ options.max_bytes)

  one_more :
      (spans : List ByteSpan) (s : ByteSpan)
      → AreRetainable spans
      → IsRetainable options s
      → span_bytes spans + (s.end - s.start) ≤ options.max_bytes
      → AreRetainable (spans ++ (s ∷ []))
        × (span_bytes (spans ++ (s ∷ [])) ≡ span_bytes spans + (s.end - s.start))
  one_more [] s (a, b) p h = (((p, tt), omega (arith, h)), omega arith)
  one_more (t ∷ spans) s ((q, a), b) p h =
      let ((rest, c), e) = one_more spans s (a, omega (arith, b)) p (omega (arith, h)) in
      (((q, rest), omega (arith, e, h)), omega (arith, e))

  not_passed_over :
      (request : ByteSpan) (retained : List ByteSpan) (retained_bytes : ℕ)
      → is_passed_over options request retained retained_bytes ≡ false
      → IsRetainable options request
        × (retained_bytes + (request.end - request.start) ≤ options.max_bytes)
  not_passed_over request retained retained_bytes x = ground (arith, x)

  retained-AreRetainable :
      (ranges retained : List ByteSpan) (retained_bytes : ℕ)
      → AreRetainable retained
      → retained_bytes ≡ span_bytes retained
      → AreRetainable (retained_ranges file_length options ranges retained retained_bytes)
  unfolding retained_ranges
  retained-AreRetainable [] retained retained_bytes a e = a
  retained-AreRetainable (range ∷ ranges) retained retained_bytes a e =
      let request = coalesced_range file_length range.start range.end options.coalesce_bytes in
      elim (Bool-cases (is_passed_over options request retained retained_bytes)) [
        | inl x ↦ rw x (retained-AreRetainable ranges retained retained_bytes a e)
        | inr x ↦
            let (fits, within) = not_passed_over request retained retained_bytes x in
            let (both, sum) = one_more retained request a fits (omega (arith, within, e)) in
            rw x (
              retained-AreRetainable ranges (retained ++ (request ∷ []))
                (retained_bytes + (request.end - request.start)) both (omega (arith, sum, e)))
      ]

  -- A request that the buffer reads as it is.
  abbrev pub IsRead : ByteSpan → Type 0
  IsRead s = coalesced_range file_length s.start s.end options.coalesce_bytes ≡ s

  -- A span of the file.
  abbrev pub IsWithin : ByteSpan → Type 0
  IsWithin s = (s.start ≤ s.end) × (s.end ≤ file_length)

  IsRead-snoc :
      (spans : List ByteSpan) (s : ByteSpan)
      → All IsRead spans
      → IsRead s
      → All IsRead (spans ++ (s ∷ []))
  IsRead-snoc [] s a p = (p, tt)
  IsRead-snoc (t ∷ spans) s (q, a) p = (q, IsRead-snoc spans s a p)

  retained-AreRead :
      (ranges retained : List ByteSpan) (retained_bytes : ℕ)
      → All IsWithin ranges
      → All IsRead retained
      → All IsRead (retained_ranges file_length options ranges retained retained_bytes)
  unfolding retained_ranges
  retained-AreRead [] retained retained_bytes w a = a
  retained-AreRead (range ∷ ranges) retained retained_bytes ((h, k), w) a =
      let request = coalesced_range file_length range.start range.end options.coalesce_bytes in
      let own =
        coalesced_range-coalesced_range file_length range.start range.end options.coalesce_bytes h
          k in
      elim (Bool-cases (is_passed_over options request retained retained_bytes)) [
        | inl x ↦ rw x (retained-AreRead ranges retained retained_bytes w a)
        | inr x ↦ rw x (
            retained-AreRead ranges (retained ++ (request ∷ []))
              (retained_bytes + (request.end - request.start)) w
              (IsRead-snoc retained request a own))
      ]

  -- Of spans of the file, each request that is prefetched is one that the buffer reads as it is: the
  -- range that it reads for the request is the request.
  pub prefetched_ranges-AreRead :
      (ranges : List ByteSpan)
      → All IsWithin ranges
      → All IsRead (prefetched_ranges file_length options ranges)
  unfolding prefetched_ranges
  prefetched_ranges-AreRead ranges w = retained-AreRead ranges [] 0 w tt

  -- What is prefetched fits the cache: each request that is read is not empty and no longer than an entry may
  -- be, and their bytes are together within the budget.
  pub prefetched_ranges-AreRetainable :
      (ranges : List ByteSpan) → AreRetainable (prefetched_ranges file_length options ranges)
  unfolding prefetched_ranges
  prefetched_ranges-AreRetainable ranges = retained-AreRetainable ranges [] 0 (tt, omega arith) refl
