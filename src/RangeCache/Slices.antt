-- ===== src/RangeCache/Slices.antt =====
-- Slices through the cache of packages/parquet/src/range-cache.ts are those of the file.
use lakeql.Base.{
  ℕ, ◌+◌, ◌-◌, ◌≤◌, ◌≡◌, refl, ap, arith, min, true, ◌&&◌, List, [], ◌∷◌, ◌++◌, some, leb, ltb,
  if◌then◌else◌, length, All, Bool-cases, Option-cases, inl, inr,
}
use lakeql.Base.Int.{pos, ◌-ℤ◌}
use lakeql.Base.Slices.{slice, drop, drop-length, length-take, slice-slice}
use lakeql.Base.Result.{Result, ok}
use lakeql.Proto.Reader.{Bytes}
use lakeql.RangeCache.{
  ByteSpan, RangeCacheOptions, RangeCacheEntry, RangeCache, entry_of, coalesced_range, slice_buffer,
  slice_entry, is_entry_of, find_entry, delete_entry, evict_oldest, keep_entry, slice_cached,
}
use lakeql.RangeCache.Windows.{coalesced_range-holds}

abbrev pub total_size : List RangeCacheEntry → ℕ
total_size [] = 0
total_size (e ∷ entries) = length e.bytes + total_size entries

-- The entry holds the bytes of the file in its span.
abbrev pub IsEntry : Bytes → RangeCacheEntry → Type 0
IsEntry contents e =
    (e.start ≤ e.end) × (e.end ≤ length contents) × (e.bytes ≡ slice contents e.start e.end)

-- The entries are of the file, and the count of their bytes is exact and within the budget.
abbrev pub IsValid : Bytes → ℕ → RangeCache → Type 0
IsValid contents max_bytes cache =
    All (IsEntry contents) cache.entries
    × (cache.cached_bytes ≡ total_size cache.entries)
    × (cache.cached_bytes ≤ max_bytes)

length-slice :
    (contents : Bytes) (start end : ℕ)
    → start ≤ end
    → end ≤ length contents
    → length (slice contents start end) ≡ end - start
length-slice contents start end h k =
    length-take (end - start) (drop start contents)
      (omega (arith, h, k, drop-length start contents))

sub_pos : (a b : ℕ) → b ≤ a → pos a -ℤ pos b ≡ pos (a - b)
unfolding ◌-ℤ◌
sub_pos a b h = ground (arith, h)

pub slice_entry-slice :
    (contents : Bytes) (e : RangeCacheEntry) (start end : ℕ)
    → IsEntry contents e
    → e.start ≤ start
    → start ≤ end
    → end ≤ e.end
    → slice_entry e start end ≡ slice contents start end
unfolding slice_entry slice_buffer
slice_entry-slice contents e start end (h, k, b) l o m =
    let size = length-slice contents e.start e.end h k in
    rw (sub_pos start e.start l) (
      rw (sub_pos end e.start (omega (arith, l, o))) (
        rw b (
          rw size (
            rw (within (start - e.start) (e.end - e.start) (omega (arith, l, o, m))) (
              rw (within (end - e.start) (e.end - e.start) (omega (arith, m)))
                (slice-slice contents e.start e.end start end l m))))))
  where
    within : (i n : ℕ) → i ≤ n → min i n ≡ i
    within i n h = omega (arith, h)

total_size-append :
    (es : List RangeCacheEntry) (e : RangeCacheEntry)
    → total_size (es ++ (e ∷ [])) ≡ total_size es + length e.bytes
total_size-append [] e = omega arith
total_size-append (f ∷ es) e = omega (arith, total_size-append es e)

All-snoc :
    (P : RangeCacheEntry → Type 0) (es : List RangeCacheEntry) (e : RangeCacheEntry)
    → All P es
    → P e
    → All P (es ++ (e ∷ []))
All-snoc P [] e a p = (p, tt)
All-snoc P (f ∷ es) e (q, a) p = (q, All-snoc P es e a p)

evict_oldest-IsValid :
    (contents : Bytes) (max_bytes : ℕ) (es : List RangeCacheEntry) (cached_bytes : ℕ)
    → All (IsEntry contents) es
    → cached_bytes ≡ total_size es
    → IsValid contents max_bytes (evict_oldest max_bytes es cached_bytes)
unfolding evict_oldest
evict_oldest-IsValid contents max_bytes [] cached_bytes a t = (tt, t, omega (arith, t))
evict_oldest-IsValid contents max_bytes (e ∷ es) cached_bytes (p, a) t =
    elim (Bool-cases (ltb max_bytes cached_bytes)) [
      | inl x ↦ rw x (
          evict_oldest-IsValid contents max_bytes es (cached_bytes - length e.bytes) a
            (omega (arith, t)))
      | inr x ↦ rw x ((p, a), t, ground (arith, x))
    ]

keep_entry-IsValid :
    (contents : Bytes) (options : RangeCacheOptions) (cache : RangeCache) (e : RangeCacheEntry)
    → IsValid contents options.max_bytes cache
    → IsEntry contents e
    → IsValid contents options.max_bytes (keep_entry options cache e)
unfolding keep_entry
keep_entry-IsValid contents options cache e (a, t, b) p =
    elim (Bool-cases
      (leb (length e.bytes) options.max_entry_bytes && leb (length e.bytes) options.max_bytes)) [
        | inl x ↦ rw x (
            evict_oldest-IsValid contents options.max_bytes (cache.entries ++ (e ∷ []))
              (cache.cached_bytes + length e.bytes)
              (All-snoc (IsEntry contents) cache.entries e a p)
              (omega (arith, t, total_size-append cache.entries e)))
        | inr x ↦ rw x (a, t, b)
      ]

-- What is found is an entry of the request, and the others are left when it is deleted.
find_entry-delete_entry :
    (P : RangeCacheEntry → Type 0) (request : ByteSpan) (es : List RangeCacheEntry)
    (e : RangeCacheEntry)
    → All P es
    → find_entry request es ≡ some e
    → P e
      × (e.start ≡ request.start)
      × (e.end ≡ request.end)
      × All P (delete_entry request es)
      × (total_size (delete_entry request es) + length e.bytes ≡ total_size es)
unfolding find_entry delete_entry
find_entry-delete_entry P request [] e a f = absurd cc
find_entry-delete_entry P request (d ∷ es) e (p, a) f = elim (Bool-cases (is_entry_of request d)) [
  | inl x ↦ here (rw x at f) x
  | inr x ↦
      let (q, s, t, r, z) = find_entry-delete_entry P request es e a (rw x at f) in
      (q, s, t, rw x (p, r), rw x (omega (arith, z)))
]
  where
    here :
        some d ≡ some e
        → is_entry_of request d ≡ true
        → P e
          × (e.start ≡ request.start)
          × (e.end ≡ request.end)
          × All P (if is_entry_of request d then es else d ∷ delete_entry request es)
          × (total_size (if is_entry_of request d then es else d ∷ delete_entry request es)
                + length e.bytes
              ≡ length d.bytes + total_size es)
    here g x = rw (same g) (rw x (p, (of_request x).0, (of_request x).1, a, omega arith))
      where
        same : some d ≡ some e → e ≡ d
        same g = cc

        of_request :
            is_entry_of request d ≡ true → (d.start ≡ request.start) × (d.end ≡ request.end)
        of_request x = ground (arith, x)

-- Slices through the cache of a file with these contents.
module _ (contents : Bytes) (read : ℕ → ℕ → Result Bytes) (options : RangeCacheOptions) where
  abbrev pub ReadsFile : Type 0
  ReadsFile =
      (start end : ℕ)
      → start ≤ end
      → end ≤ length contents
      → read start end ≡ ok (slice contents start end)

  -- A slice of a file is read through the cache as the file has it, whatever is cached; the cache stays
  -- within its budget, its count of bytes exact, and its entries those of the file.
  pub slice_cached-slice :
      ReadsFile
      → (cache : RangeCache) (start end : ℕ) → IsValid contents options.max_bytes cache
      → start ≤ end
      → end ≤ length contents
      → (after : RangeCache) × (slice_cached (length contents) read options cache start end
          ≡ ok (slice contents start end, after))
        × IsValid contents options.max_bytes after
  unfolding slice_cached
  slice_cached-slice r cache start end (a, t, b) h k =
      let request = coalesced_range (length contents) start end options.coalesce_bytes in
      let (lo, hi, most, wide) =
        coalesced_range-holds (length contents) start end options.coalesce_bytes h k in
      let entry = entry_of request (slice contents request.start request.end) in
      elim (Option-cases (find_entry request cache.entries)) [
        | inl e ↦ (
          keep_entry options cache entry,
          rw (e, slice_cached)
              (rw (r request.start request.end (omega (arith, lo, h, hi)) most) (
                ap (λ bytes. ok (bytes, keep_entry options cache entry))
                  (slice_entry-slice contents entry start end (omega (arith, lo, h, hi), most, refl)
                    lo h hi))),
          keep_entry-IsValid contents options cache entry (a, t, b)
              (omega (arith, lo, h, hi), most, refl),
        )
        | inr (cached, e) ↦
            let (p, s, u, rest, z) =
              find_entry-delete_entry (IsEntry contents) request cache.entries cached a e in
            let after = record cache {
              entries = delete_entry request cache.entries ++ (cached ∷ []);
            } in
            (
              after,
              rw (e, slice_cached)
                  (ap (λ bytes. ok (bytes, after))
                    (slice_entry-slice contents cached start end p (omega (arith, lo, s)) h
                      (omega (arith, hi, u)))),
              (
                All-snoc (IsEntry contents) (delete_entry request cache.entries) cached rest p,
                omega (arith, t, z, total_size-append (delete_entry request cache.entries) cached),
                b,
              ),
            )
      ]
