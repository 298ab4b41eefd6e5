-- ===== src/RangeCache/Shared.antt =====
-- packages/parquet/src/range-cache.ts, `sharedCachedRangeBuffer`: slices of a file through a cache that is
-- shared. The values of the cache are byte arrays here; a call runs to its end.
pub mod SharedSlices
use lakeql.Base.{
  ℕ, zero, suc, ◌+◌, ◌-◌, Bool, true, false, ◌&&◌, List, [], ◌∷◌, ◌++◌, Option, none, some, leb,
  if◌then◌else◌, length,
}
use lakeql.Base.Int.{ℤ, pos, ◌-ℤ◌}
use lakeql.Base.Result.{Result, ok, err}
use lakeql.Expr.{Text}
use lakeql.Proto.Reader.{Bytes}
use lakeql.Cache.{SharedMemoryCache, get, set}
use lakeql.CachedStore.{CachePolicy, colon}
use lakeql.RangeCache.{ByteSpan, RangeCacheOptions, coalesced_range, slice_buffer}

-- The priority of a range that is scanned.
unfoldable pub scan_range_priority : CachePolicy → ℕ
scan_range_priority CachePolicy.io = 4
scan_range_priority CachePolicy.latency = 1
scan_range_priority CachePolicy.balanced = 3

-- `scan-range`
abbrev pub scan_range : Text
scan_range = b's' ∷ b'c' ∷ b'a' ∷ b'n' ∷ b'-' ∷ b'r' ∷ b'a' ∷ b'n' ∷ b'g' ∷ b'e' ∷ []

-- A file: its length, its tag, its `slice`, and the key it is cached under. `decimal` is the language's
-- `String` on a number.
pub record CachedFile : Type 0 where
  pub byte_length : ℕ
  pub etag : Option Text
  pub read : ℕ → ℕ → Result Bytes
  pub cache_key : Text
  pub decimal : ℕ → Text

abbrev pub tag_text : Option Text → Text
tag_text none = []
tag_text (some tag) = tag

-- What the key of a range has before the range.
abbrev pub file_key : CachedFile → Text
file_key file =
    scan_range
    ++ (colon
        ∷ (file.cache_key
            ++ (colon ∷ (file.decimal file.byte_length ++ (colon ∷ tag_text file.etag)))))

abbrev pub shared_range_key : CachedFile → ByteSpan → Text
shared_range_key file request =
    file_key file ++ (colon ∷ (file.decimal request.start ++ (colon ∷ file.decimal request.end)))

-- What follows the lookup: bytes that are found, or that the file answers, are cut; the latter are kept.
unfoldable pub found_or_read :
    Option (Bytes × ℕ)
    → Result Bytes
    → (Bytes → Bytes)
    → (Bytes → SharedMemoryCache Bytes)
    → SharedMemoryCache Bytes
    → SharedMemoryCache Bytes × Result Bytes
found_or_read (some (bytes, size)) answered part keep cache = (cache, ok (part bytes))
found_or_read none (err e) part keep cache = (cache, err e)
found_or_read none (ok bytes) part keep cache = (keep bytes, ok (part bytes))

module _ (file : CachedFile) (policy : CachePolicy) (options : RangeCacheOptions) where
  -- Bytes are stored if they fit an entry and the budget of the file.
  unfoldable pub keep_shared : ℕ → SharedMemoryCache Bytes → Text → Bytes → SharedMemoryCache Bytes
  unfolding set scan_range_priority
  keep_shared now cache key bytes =
      let size = length bytes in
      if leb size options.max_entry_bytes && leb size options.max_bytes
      then set now cache key bytes size (scan_range_priority policy)
      else cache

  -- `buffer.slice`. The times are those of the lookup and of the store that may follow.
  unfoldable pub slice_shared :
      ℕ → ℕ → SharedMemoryCache Bytes → ℕ → ℕ → SharedMemoryCache Bytes × Result Bytes
  unfolding coalesced_range slice_buffer get keep_shared found_or_read ◌-ℤ◌
  slice_shared now later cache start end =
      let request = coalesced_range file.byte_length start end options.coalesce_bytes in
      let key = shared_range_key file request in
      let (looked, found) = get now cache key in
      found_or_read found (file.read request.start request.end)
        (λ bytes.
          slice_buffer bytes (pos start -ℤ pos request.start) (pos end -ℤ pos request.start))
        (λ bytes. keep_shared later looked key bytes) looked
