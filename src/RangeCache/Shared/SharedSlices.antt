-- ===== src/RangeCache/Shared/SharedSlices.antt =====
-- Slices through the shared cache of packages/parquet/src/range-cache.ts are those of the file.
use lakeql.Base.{
  ℕ, ◌≤◌, ◌≡◌, refl, ap, arith, ◌&&◌, Option, none, some, leb, length, Bool-cases, inl, inr, ◌⊎◌,
}
use lakeql.Base.Slices.{slice}
use lakeql.Base.Result.{Result, ok, err, ErrorCode}
use lakeql.Expr.{Text}
use lakeql.Proto.Reader.{Bytes}
use lakeql.Cache.{Entries, SharedMemoryCache, get}
use lakeql.Cache.Preserved.{Every, set-Every, get-Every, get-value}
use lakeql.CachedStore.{CachePolicy}
use lakeql.CachedStore.Keys.{IsNumeral, numbered-injective}
use lakeql.RangeCache.{ByteSpan, RangeCacheOptions, entry_of, coalesced_range, slice_entry}
use lakeql.RangeCache.Windows.{coalesced_range-holds}
use lakeql.RangeCache.Slices.{slice_entry-slice}
use lakeql.RangeCache.Shared.{
  CachedFile, file_key, shared_range_key, scan_range_priority, keep_shared, found_or_read,
  slice_shared,
}

found_or_read_lem :
    (P : Entries Bytes → Type 0) (found : Option (Bytes × ℕ)) (answered : Result Bytes)
    (part : Bytes → Bytes) (keep : Bytes → SharedMemoryCache Bytes)
    (cache : SharedMemoryCache Bytes) {result : Bytes}
    → ((bytes : Bytes) (size : ℕ) → found ≡ some (bytes, size) → part bytes ≡ result)
    → P cache.entries
    → ((bytes : Bytes) → answered ≡ ok bytes → (part bytes ≡ result) × P (keep bytes).entries)
    → (((found_or_read found answered part keep cache).1 ≡ ok result)
        ⊎ ((e : ErrorCode) × (answered ≡ err e)
            × ((found_or_read found answered part keep cache).1 ≡ err e)))
      × P (found_or_read found answered part keep cache).0.entries
unfolding found_or_read
found_or_read_lem P (some (bytes, size)) answered part keep cache hit p new =
    (inl (ap ok (hit bytes size refl)), p)
found_or_read_lem P none (err e) part keep cache hit p new = (inr (e, refl, refl), p)
found_or_read_lem P none (ok bytes) part keep cache hit p new =
    let (cut, q) = new bytes refl in (inl (ap ok cut), q)

module _ (contents : Bytes) (file : CachedFile) where
  -- Bytes that are cached under the key of a span of the file are those of the span.
  abbrev pub Fits : Text → Bytes → Type 0
  Fits key bytes =
      (span : ByteSpan)
      → key ≡ shared_range_key file span
      → bytes ≡ slice contents span.start span.end

  -- A read of a span of the file answers its bytes, or an error.
  abbrev pub ReadsFile : Type 0
  ReadsFile =
      (start end : ℕ) (bytes : Bytes)
      → start ≤ end
      → end ≤ length contents
      → file.read start end ≡ ok bytes
      → bytes ≡ slice contents start end

  -- A result that is the slice of the contents, or the error that reading the request met.
  abbrev pub IsSliceOrError : ByteSpan → ℕ → ℕ → Result Bytes → Type 0
  IsSliceOrError request start end result =
      (result ≡ ok (slice contents start end))
      ⊎ ((e : ErrorCode) × (file.read request.start request.end ≡ err e) × (result ≡ err e))

  pub Fits-read :
      (span : ByteSpan)
      → IsNumeral file.decimal
      → Fits (shared_range_key file span) (slice contents span.start span.end)
  Fits-read span num other e =
      let (p, a, b) =
        numbered-injective file.decimal (file_key file) (file_key file) span.start other.start
          span.end other.end num e in
      rw (a, b) refl

  keep_shared-Fits :
      (policy : CachePolicy) (options : RangeCacheOptions) (now : ℕ)
      (cache : SharedMemoryCache Bytes) (key : Text) (bytes : Bytes)
      → Fits key bytes
      → Every Fits cache.entries
      → Every Fits (keep_shared file policy options now cache key bytes).entries
  unfolding keep_shared
  keep_shared-Fits policy options now cache key bytes p h =
      elim (Bool-cases
        (leb (length bytes) options.max_entry_bytes && leb (length bytes) options.max_bytes)) [
          | inl x ↦
              rw x
                (set-Every Fits now cache key bytes (length bytes) (scan_range_priority policy) p h)
          | inr x ↦ rw x h
        ]

  module _ (policy : CachePolicy) (options : RangeCacheOptions) (now later : ℕ)
      (cache : SharedMemoryCache Bytes) where
    -- A slice of a file, through a cache whose entries under the keys of the file are those of the file, is
    -- that of the file, or the error that reading the window met; the entries stay those of the file. Numerals
    -- have no colon and differ for different numbers.
    pub slice_shared-slice :
        (start end : ℕ)
        → file.byte_length ≡ length contents
        → IsNumeral file.decimal
        → ReadsFile
        → Every Fits cache.entries
        → start ≤ end
        → end ≤ length contents
        → IsSliceOrError
            (coalesced_range file.byte_length start end options.coalesce_bytes)
            start
            end
            (slice_shared file policy options now later cache start end).1
          × Every Fits (slice_shared file policy options now later cache start end).0.entries
    unfolding slice_shared slice_entry
    slice_shared-slice start end l num r f h k =
        let request = coalesced_range file.byte_length start end options.coalesce_bytes in
        let key = shared_range_key file request in
        let (lo, hi, most, wide) =
          coalesced_range-holds file.byte_length start end options.coalesce_bytes h
            (omega (arith, l, k)) in
        let part : (bytes : Bytes)
            → bytes ≡ slice contents request.start request.end
            → slice_entry (entry_of request bytes) start end ≡ slice contents start end =
          λ bytes b.
            slice_entry-slice contents (entry_of request bytes) start end
              (omega (arith, lo, h, hi), omega (arith, most, l), b) lo h hi in
        let looked = (get now cache key).0 in
        let kept = get-Every Fits now cache key f in
        found_or_read_lem (Every Fits) (get now cache key).1 (file.read request.start request.end) _
          _ looked
          (λ bytes size e. part bytes (get-value Fits now cache key bytes size f e request refl))
          kept
          (λ bytes q.
            let b =
              r request.start request.end bytes (omega (arith, lo, h, hi)) (omega (arith, most, l))
                q in
            (
              part bytes b,
              keep_shared-Fits policy options later looked key bytes (rw b (Fits-read request num))
                  kept,
            ))
