-- ===== src/Tests/Ranges.antt =====
-- A file of eight bytes, read in windows of four.
use lakeql.Base.{All, ℕ, ◌-◌, ◌≡◌, ◌≤◌, refl, max, arith, [], ◌∷◌, none, leb, if◌then◌else◌}
use lakeql.Base.Order.{compare_text}
use lakeql.Base.Slices.{slice, drop, take}
use lakeql.Base.Result.{Result, ok, err, object_not_found}
use lakeql.Proto.Reader.{Bytes}
use lakeql.RangeCache.{
  byte_span, RangeCacheOptions, RangeCache, entry_of, coalesced_range, slice_cached,
  prefetched_ranges,
}
use lakeql.RangeCache.Windows.{
  AreRetainable, IsRead, prefetched_ranges-AreRead, coalesced_range-holds,
  prefetched_ranges-AreRetainable,
}
use lakeql.CachedStore.{CachePolicy}
use lakeql.Cache.{SharedMemoryCache}
use lakeql.RangeCache.Shared.{CachedFile, shared_range_key, slice_shared}
use lakeql.RangeCache.Shared.SharedSlices.{Fits, IsSliceOrError, Fits-read, slice_shared-slice}
use lakeql.Cache.Preserved.{Every}
use lakeql.Tests.Store.{tally, tally-IsNumeral}
use lakeql.RangeCache.Slices.{IsValid, slice_cached-slice}

abbrev eight_bytes : Bytes
eight_bytes = 10 ∷ 11 ∷ 12 ∷ 13 ∷ 14 ∷ 15 ∷ 16 ∷ 17 ∷ []

abbrev read_file : ℕ → ℕ → Result Bytes
read_file start end = ok (slice eight_bytes start end)

abbrev windows_of_four : RangeCacheOptions
windows_of_four = record { max_bytes = 6; max_entry_bytes = 4; coalesce_bytes = 4 }

-- The first window is cached.
abbrev one_window : RangeCache
one_window = record {
  entries = entry_of (byte_span 0 4) (10 ∷ 11 ∷ 12 ∷ 13 ∷ []) ∷ [];
  cached_bytes = 4;
}

one_window-IsValid : IsValid eight_bytes 6 one_window
unfolding drop take
one_window-IsValid = (((omega arith, omega arith, refl), tt), refl, omega arith)

slice_cached-slice_example :
    (after : RangeCache) × (slice_cached 8 read_file windows_of_four one_window 5 7
      ≡ ok (slice eight_bytes 5 7, after))
    × IsValid eight_bytes 6 after
slice_cached-slice_example =
    slice_cached-slice eight_bytes read_file windows_of_four (λ start end h k. refl) one_window 5 7
      one_window-IsValid (omega arith) (omega arith)

coalesced_range-holds_example :
    ((coalesced_range 8 5 7 4).start ≤ 5)
    × (7 ≤ (coalesced_range 8 5 7 4).end)
    × ((coalesced_range 8 5 7 4).end ≤ 8)
    × ((coalesced_range 8 5 7 4).end - (coalesced_range 8 5 7 4).start ≤ max (7 - 5) 4)
coalesced_range-holds_example = coalesced_range-holds 8 5 7 4 (omega arith) (omega arith)

prefetched_ranges-AreRead_example :
    All
      (IsRead 8 windows_of_four)
      (prefetched_ranges 8 windows_of_four (byte_span 0 2 ∷ byte_span 5 7 ∷ []))
prefetched_ranges-AreRead_example =
    prefetched_ranges-AreRead 8 windows_of_four (byte_span 0 2 ∷ byte_span 5 7 ∷ [])
      ((omega arith, omega arith), ((omega arith, omega arith), tt))

prefetched_ranges-AreRetainable_example :
    AreRetainable 8 windows_of_four
      (prefetched_ranges 8 windows_of_four (byte_span 0 2 ∷ byte_span 5 7 ∷ []))
prefetched_ranges-AreRetainable_example =
    prefetched_ranges-AreRetainable 8 windows_of_four (byte_span 0 2 ∷ byte_span 5 7 ∷ [])

-- A file whose second half cannot be read.
abbrev half_readable : CachedFile
half_readable = record {
  byte_length = 8;
  etag = none;
  read = λ start end. if leb end 4 then read_file start end else err object_not_found;
  cache_key = b'f' ∷ [];
  decimal = tally;
}

-- The second half is cached.
abbrev second_half : SharedMemoryCache Bytes
second_half = record {
  max_bytes = 8;
  ttl_ms = none;
  entries =
      (
        shared_range_key half_readable (byte_span 4 8),
        record { value = slice eight_bytes 4 8; bytes = 4; priority = 3; expires_at = none },
      )
      ∷ [];
  cached_bytes = 4;
}

half-read :
    (start end : ℕ) (bytes : Bytes)
    → start ≤ end
    → end ≤ 8
    → half_readable.read start end ≡ ok bytes
    → bytes ≡ slice eight_bytes start end
half-read start end bytes h k e = ground (arith, e)

slice_shared-slice_example :
    IsSliceOrError eight_bytes half_readable
      (coalesced_range 8 5 7 4)
      5
      7
      (slice_shared half_readable CachePolicy.io windows_of_four 1 2 second_half 5 7).1
    × Every
        (Fits eight_bytes half_readable)
        (slice_shared half_readable CachePolicy.io windows_of_four 1 2 second_half 5 7).0.entries
slice_shared-slice_example =
    slice_shared-slice eight_bytes half_readable CachePolicy.io windows_of_four 1 2 second_half 5 7
      refl tally-IsNumeral half-read
      (Fits-read eight_bytes half_readable (byte_span 4 8) tally-IsNumeral, tt) (omega arith)
      (omega arith)

-- The slice is answered from the cache, though the file would not.
second_half_slice :
    (slice_shared half_readable CachePolicy.io windows_of_four 1 2 second_half 5 7).1
    ≡ ok (15 ∷ 16 ∷ [])
unfolding slice_shared drop take compare_text
second_half_slice = refl
