-- ===== src/Cache.antt =====
-- packages/core/src/object-store-cache.ts, `SharedMemoryCache`: values under keys in the order of
-- their last use, evicted by priority and age once they exceed a budget of bytes. Time is the
-- argument `now`.
pub mod Accounting
pub mod Preserved
pub mod Priority
use lakeql.Base.{
  ℕ, zero, suc, ◌+◌, ◌-◌, ◌≤◌, Bool, true, false, List, [], ◌∷◌, ◌++◌, Option, none, some, leb, ltb,
  ◌==◌, if◌then◌else◌, length,
}
use lakeql.Expr.{Text}
use lakeql.Evaluator.{text_eq}

pub record CacheRecord (V : Type 0) : Type 0 where
  pub value : V
  pub bytes : ℕ
  pub priority : ℕ
  pub expires_at : Option ℕ

-- A Map iterates in the order of insertion; the newest entry is the last.
abbrev pub Entries : Type 0 → Type 0
Entries V = List (Text × CacheRecord V)

-- `cached_bytes` is a running sum that deletions reduce; `deleted_bytes` of what is not there is 0.
pub record SharedMemoryCache (V : Type 0) : Type 0 where
  pub max_bytes : ℕ
  pub ttl_ms : Option ℕ
  pub entries : Entries V
  pub cached_bytes : ℕ

-- `expiresAt <= Date.now()`
abbrev pub is_expired : Option ℕ → ℕ → Bool
is_expired none now = false
is_expired (some t) now = leb t now

abbrev pub expiry : ℕ → Option ℕ → Option ℕ
expiry now none = none
expiry now (some ttl) = some (now + ttl)

module _ {V : Type 0} where
  unfoldable pub lookup : Text → Entries V → Option (CacheRecord V)
  lookup key [] = none
  lookup key ((k, r) ∷ es) = if text_eq k key then some r else lookup key es

  -- `entries.delete(key)`: a Map holds a key once.
  unfoldable pub remove : Text → Entries V → Entries V
  remove key [] = []
  remove key ((k, r) ∷ es) = if text_eq k key then es else (k, r) ∷ remove key es

  unfoldable pub total_bytes : Entries V → ℕ
  total_bytes [] = 0
  total_bytes ((k, r) ∷ es) = r.bytes + total_bytes es

  -- `set` on a key that was deleted before.
  unfoldable pub append_entry : Text → CacheRecord V → Entries V → Entries V
  append_entry key r es = es ++ ((key, r) ∷ [])

  unfoldable pub delete : SharedMemoryCache V → Text → SharedMemoryCache V
  unfolding lookup remove
  delete c key = elim (lookup key c.entries) [
    | none ↦ c
    | some r ↦ record c { entries = remove key c.entries; cached_bytes = c.cached_bytes - r.bytes }
  ]

  -- The key of the first entry of the lowest priority.
  unfoldable pub lowest : Entries V → Option (Text × ℕ) → Option (Text × ℕ)
  lowest [] selected = selected
  lowest ((k, r) ∷ es) none = lowest es (some (k, r.priority))
  lowest ((k, r) ∷ es) (some (j, p)) =
      lowest es (if ltb r.priority p then some (k, r.priority) else some (j, p))

  unfoldable pub evict_key : Entries V → Option Text
  unfolding lowest
  evict_key es = elim (lowest es none) [ none ↦ none | some (k, p) ↦ some k ]

  -- `while (cachedBytes > maxBytes)`: each round deletes an entry, so the number of entries bounds the
  -- rounds.
  unfoldable pub evict_loop : ℕ → SharedMemoryCache V → SharedMemoryCache V
  unfolding delete evict_key
  evict_loop zero c = c
  evict_loop (suc fuel) c = elim (ltb c.max_bytes c.cached_bytes) [
    | false ↦ c
    | true ↦ elim (evict_key c.entries) [ none ↦ c | some key ↦ evict_loop fuel (delete c key) ]
  ]

  unfoldable pub evict : SharedMemoryCache V → SharedMemoryCache V
  unfolding evict_loop
  evict c = evict_loop (length c.entries) c

  -- A hit moves the entry to the end; an entry that is past its time is deleted.
  unfoldable pub get : ℕ → SharedMemoryCache V → Text → SharedMemoryCache V × Option (V × ℕ)
  unfolding lookup remove delete append_entry
  get now c key = elim (lookup key c.entries) [
    | none ↦ (c, none)
    | some r ↦ if is_expired r.expires_at now then (delete c key, none) else (
      record c { entries = append_entry key r (remove key c.entries) },
      some (r.value, r.bytes),
    )
  ]

  -- A value that exceeds the whole budget is not stored, and leaves what is stored.
  unfoldable pub set : ℕ → SharedMemoryCache V → Text → V → ℕ → ℕ → SharedMemoryCache V
  unfolding delete append_entry evict
  set now c key value bytes priority =
      if ltb c.max_bytes bytes
      then c
      else let d = delete c key in
        let r : CacheRecord V = record {
          value = value;
          bytes = bytes;
          priority = priority;
          expires_at = expiry now c.ttl_ms;
        } in
        evict (record d {
          entries = append_entry key r d.entries;
          cached_bytes = d.cached_bytes + bytes;
        })

  unfoldable pub keep_others : (V → Bool) → Entries V → Entries V
  keep_others p [] = []
  keep_others p ((k, r) ∷ es) = if p r.value then keep_others p es else (k, r) ∷ keep_others p es

  -- The bytes of the entries that satisfy the predicate.
  unfoldable pub bytes_where : (V → Bool) → Entries V → ℕ
  bytes_where p [] = 0
  bytes_where p ((k, r) ∷ es) = if p r.value then r.bytes + bytes_where p es else bytes_where p es

  unfoldable pub delete_where : SharedMemoryCache V → (V → Bool) → SharedMemoryCache V
  unfolding keep_others bytes_where
  delete_where c p = record c {
    entries = keep_others p c.entries;
    cached_bytes = c.cached_bytes - bytes_where p c.entries;
  }
