-- ===== src/RangeCache.antt =====
-- packages/parquet/src/range-cache.ts: slices of a file, read in aligned windows and cached. Offsets are
-- natural numbers and an end is given. The budgets are above zero: the code returns the file itself where
-- one is not. A call runs to its end, so that no read is pending where one begins; the text of a key is the
-- span that it is made of.
pub mod Windows
pub mod Slices
pub mod Shared
use lakeql.Base.{
  ℕ, zero, suc, ◌+◌, ◌-◌, ◌*◌, ◌/◌, min, max, Bool, true, false, ◌&&◌, ◌||◌, not, List, [], ◌∷◌,
  ◌++◌, Option, none, some, leb, ltb, ◌==◌, if◌then◌else◌, length,
}
use lakeql.Base.Int.{ℤ, pos, negsuc, ◌-ℤ◌}
use lakeql.Base.Slices.{slice}
use lakeql.Base.Result.{Result, ok, err, ◌>>=◌}
use lakeql.Proto.Reader.{Bytes}

pub record ByteSpan : Type 0 where
  pub start : ℕ
  pub end : ℕ

abbrev pub byte_span : ℕ → ℕ → ByteSpan
byte_span s e = record { start = s; end = e }

pub record RangeCacheOptions : Type 0 where
  pub max_bytes : ℕ
  pub max_entry_bytes : ℕ
  pub coalesce_bytes : ℕ

pub record RangeCacheEntry : Type 0 where
  pub bytes : Bytes
  pub start : ℕ
  pub end : ℕ

abbrev pub entry_of : ByteSpan → Bytes → RangeCacheEntry
entry_of request bytes = record { bytes = bytes; start = request.start; end = request.end }

-- The entries from the oldest to the one used last.
pub record RangeCache : Type 0 where
  pub entries : List RangeCacheEntry
  pub cached_bytes : ℕ

-- The window of the request, if it is in one, or the request itself.
unfoldable pub coalesced_range : ℕ → ℕ → ℕ → ℕ → ByteSpan
coalesced_range file_length start end coalesce_bytes =
    let normalized_end = min file_length (max start end) in
    let coalesced_start = start / coalesce_bytes * coalesce_bytes in
    let coalesced_end = min file_length (coalesced_start + coalesce_bytes) in
    if coalesce_bytes == 0 || leb coalesce_bytes (normalized_end - start)
    then byte_span start normalized_end
    else if leb normalized_end coalesced_end
    then byte_span coalesced_start coalesced_end
    else byte_span start normalized_end

-- An index of `ArrayBuffer.slice`: one below zero counts from the end.
abbrev pub buffer_index : ℕ → ℤ → ℕ
buffer_index size (pos n) = min n size
buffer_index size (negsuc n) = size - suc n

unfoldable pub slice_buffer : Bytes → ℤ → ℤ → Bytes
slice_buffer bytes start end =
    slice bytes (buffer_index (length bytes) start) (buffer_index (length bytes) end)

unfoldable pub slice_entry : RangeCacheEntry → ℕ → ℕ → Bytes
unfolding slice_buffer ◌-ℤ◌
slice_entry entry start end =
    slice_buffer entry.bytes (pos start -ℤ pos entry.start) (pos end -ℤ pos entry.start)

abbrev pub is_entry_of : ByteSpan → RangeCacheEntry → Bool
is_entry_of request entry = entry.start == request.start && entry.end == request.end

unfoldable pub find_entry : ByteSpan → List RangeCacheEntry → Option RangeCacheEntry
find_entry request [] = none
find_entry request (e ∷ entries) =
    if is_entry_of request e then some e else find_entry request entries

unfoldable pub delete_entry : ByteSpan → List RangeCacheEntry → List RangeCacheEntry
delete_entry request [] = []
delete_entry request (e ∷ entries) =
    if is_entry_of request e then entries else e ∷ delete_entry request entries

-- `while (cachedBytes > maxBytes)`
unfoldable pub evict_oldest : ℕ → List RangeCacheEntry → ℕ → RangeCache
evict_oldest max_bytes [] cached_bytes = record { entries = []; cached_bytes = cached_bytes }
evict_oldest max_bytes (e ∷ entries) cached_bytes =
    let fewer = evict_oldest max_bytes entries (cached_bytes - length e.bytes) in
    if ltb max_bytes cached_bytes
    then fewer
    else record { entries = e ∷ entries; cached_bytes = cached_bytes }

unfoldable pub keep_entry : RangeCacheOptions → RangeCache → RangeCacheEntry → RangeCache
unfolding evict_oldest
keep_entry options cache entry =
    let size = length entry.bytes in
    if leb size options.max_entry_bytes && leb size options.max_bytes
    then evict_oldest options.max_bytes (cache.entries ++ (entry ∷ [])) (cache.cached_bytes + size)
    else cache

-- `file`: its length, and its `slice`.
module _ (file_length : ℕ) (read : ℕ → ℕ → Result Bytes) (options : RangeCacheOptions) where
  -- `buffer.slice`, with the cache behind it.
  unfoldable pub slice_cached : RangeCache → ℕ → ℕ → Result (Bytes × RangeCache)
  unfolding coalesced_range find_entry delete_entry slice_entry keep_entry
  slice_cached cache start end =
      let request = coalesced_range file_length start end options.coalesce_bytes in
      elim (find_entry request cache.entries) [
        | some cached ↦ ok (
          slice_entry cached start end,
          record cache { entries = delete_entry request cache.entries ++ (cached ∷ []) },
        )
        | none ↦ do
          bytes ← read request.start request.end
          let entry = entry_of request bytes
          ok (slice_entry entry start end, keep_entry options cache entry)
      ]

-- A key that was seen is that of a request retained before.
abbrev pub has_span : ByteSpan → List ByteSpan → Bool
has_span s [] = false
has_span s (t ∷ spans) = t.end == s.end && t.start == s.start || has_span s spans

-- Whether a request is passed over, after those retained and their bytes.
abbrev pub is_passed_over : RangeCacheOptions → ByteSpan → List ByteSpan → ℕ → Bool
is_passed_over options request retained retained_bytes =
    let bytes = request.end - request.start in
    bytes == 0
    || ltb options.max_entry_bytes bytes
    || ltb options.max_bytes (retained_bytes + bytes)
    || has_span request retained

-- The requests that `prefetchRetainableRanges` reads.
module _ (file_length : ℕ) (options : RangeCacheOptions) where
  unfoldable pub retained_ranges : List ByteSpan → List ByteSpan → ℕ → List ByteSpan
  unfolding coalesced_range
  retained_ranges [] retained retained_bytes = retained
  retained_ranges (range ∷ ranges) retained retained_bytes =
      let request = coalesced_range file_length range.start range.end options.coalesce_bytes in
      let skipped = retained_ranges ranges retained retained_bytes in
      let taken =
        retained_ranges ranges (retained ++ (request ∷ []))
          (retained_bytes + (request.end - request.start)) in
      if is_passed_over options request retained retained_bytes then skipped else taken

  unfoldable pub prefetched_ranges : List ByteSpan → List ByteSpan
  unfolding retained_ranges
  prefetched_ranges ranges = retained_ranges ranges [] 0
