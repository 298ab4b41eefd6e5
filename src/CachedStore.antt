-- ===== src/CachedStore.antt =====
-- packages/core/src/object-store-cache.ts, `cachedObjectStore`: an object store whose reads go through
-- a cache. The inner store is a parameter; every call of the wrapper runs to its end before the next.
-- Bytes are values, so that the copies the code makes of them are the bytes themselves.
pub mod Keys
pub mod Coherence
use lakeql.Base.{
  ℕ, zero, suc, ◌+◌, ◌≡◌, Bool, true, false, List, [], ◌∷◌, ◌++◌, Option, none, some, if◌then◌else◌,
  length,
}
use lakeql.Base.Result.{Result, ok, err, ErrorCode}
use lakeql.Expr.{Text}
use lakeql.Evaluator.{text_eq}
use lakeql.Cache.{SharedMemoryCache, get, set, delete_where}

abbrev pub Bytes : Type 0
Bytes = List ℕ

-- A date as its number of milliseconds.
pub record ObjectHead : Type 0 where
  pub size : ℕ
  pub etag : Option Text
  pub last_modified : Option ℕ
  pub content_type : Option Text

-- An object store that is wrapped: what it answers in a state, and what it does to the state. A write
-- that is refused may have changed the state too. `decimal` is the language's `String` on a number.
pub record ObjectStore (S : Type 0) : Type 0 where
  pub read : S → Text → Result (Option Bytes)
  pub read_range : S → Text → ℕ → ℕ → Result Bytes
  pub read_head : S → Text → Result (Option ObjectHead)
  pub write : S → Text → Bytes → S × Result (Unit {0})
  pub erase : S → Text → S × Result (Unit {0})
  pub decimal : ℕ → Text

-- What the cache holds. Other users share it, and what they store is `foreign`.
pub data CacheValue : Type 0 where
  object : Text → Option Bytes → CacheValue
  range : Text → Bytes → CacheValue
  head : Text → Option ObjectHead → CacheValue
  foreign : CacheValue

pub data CachePolicy : Type 0 where
  balanced io latency : CachePolicy

abbrev pub Cached : Type 0
Cached = SharedMemoryCache CacheValue

unfoldable pub object_cache_priority : CachePolicy → CacheValue → ℕ
object_cache_priority policy (head path value) = 4
object_cache_priority CachePolicy.io value = 3
object_cache_priority CachePolicy.latency value = 1
object_cache_priority CachePolicy.balanced (range path value) = 3
object_cache_priority CachePolicy.balanced value = 2

abbrev pub colon : ℕ
colon = b':'

-- `object:${path}`
abbrev pub object_key : Text → Text
object_key path = b'o' ∷ b'b' ∷ b'j' ∷ b'e' ∷ b'c' ∷ b't' ∷ colon ∷ path

-- `head:${path}`
abbrev pub head_key : Text → Text
head_key path = b'h' ∷ b'e' ∷ b'a' ∷ b'd' ∷ colon ∷ path

unfoldable pub value_bytes : CacheValue → ℕ
value_bytes (object path none) = 0
value_bytes (object path (some value)) = length value
value_bytes (range path value) = length value
value_bytes (head path value) = 0
value_bytes foreign = 0

abbrev pub is_at : Text → CacheValue → Bool
is_at path (object p value) = text_eq p path
is_at path (range p value) = text_eq p path
is_at path (head p value) = text_eq p path
is_at path foreign = false

unfoldable pub invalidate_path : Cached → Text → Cached
unfolding delete_where
invalidate_path c path = delete_where c (is_at path)

-- `set` of the wrapper.
unfoldable pub store_value : CachePolicy → ℕ → Cached → Text → CacheValue → Cached
unfolding set object_cache_priority value_bytes
store_value policy now c key value =
    set now c key value (value_bytes value) (object_cache_priority policy value)

-- What was cached, if it is of the kind that is read.
abbrev pub cached_object : Option (CacheValue × ℕ) → Option (Option Bytes)
cached_object (some (object path value, bytes)) = some value
cached_object o = none

abbrev pub cached_range : Option (CacheValue × ℕ) → Option Bytes
cached_range (some (range path value, bytes)) = some value
cached_range o = none

abbrev pub cached_head : Option (CacheValue × ℕ) → Option (Option ObjectHead)
cached_head (some (head path value, bytes)) = some value
cached_head o = none

-- What follows a read: a hit is returned; otherwise the inner store answers and its answer is kept.
unfoldable pub answer :
    {A : Type 0} → Option A → Result A → (A → Cached) → Cached → Cached × Result A
answer (some value) inner keep c = (c, ok value)
answer none (err e) keep c = (c, err e)
answer none (ok value) keep c = (keep value, ok value)

-- `range:${path}:${range.offset}:${range.length}`
abbrev pub range_key : {S : Type 0} → ObjectStore S → Text → ℕ → ℕ → Text
range_key inner path offset size =
    b'r'
    ∷ b'a'
    ∷ b'n'
    ∷ b'g'
    ∷ b'e'
    ∷ colon
    ∷ (path ++ (colon ∷ (inner.decimal offset ++ (colon ∷ inner.decimal size))))

-- After a write that is refused, the second invalidation does not run.
unfoldable pub written :
    {S : Type 0} → Cached → Text → S × Result (Unit {0}) → S × Cached × Result (Unit {0})
unfolding invalidate_path
written c path (s, ok u) = (s, invalidate_path c path, ok u)
written c path (s, err e) = (s, c, err e)

module _ {S : Type 0} (inner : ObjectStore S) (policy : CachePolicy) where
  -- The times are those of the lookup and of the store that may follow.
  unfoldable pub get_object : ℕ → ℕ → S → Cached → Text → Cached × Result (Option Bytes)
  unfolding get store_value answer
  get_object now later s c path =
      let key = object_key path in
      let (c', found) = get now c key in
      answer (cached_object found) (inner.read s path)
        (λ value. store_value policy later c' key (object path value)) c'

  unfoldable pub get_range : ℕ → ℕ → S → Cached → Text → ℕ → ℕ → Cached × Result Bytes
  unfolding get store_value answer
  get_range now later s c path offset size =
      let key = range_key inner path offset size in
      let (c', found) = get now c key in
      answer (cached_range found) (inner.read_range s path offset size)
        (λ value. store_value policy later c' key (range path value)) c'

  unfoldable pub get_head : ℕ → ℕ → S → Cached → Text → Cached × Result (Option ObjectHead)
  unfolding get store_value answer
  get_head now later s c path =
      let key = head_key path in
      let (c', found) = get now c key in
      answer (cached_head found) (inner.read_head s path)
        (λ value. store_value policy later c' key (head path value)) c'

  unfoldable pub put_object : S → Cached → Text → Bytes → S × Cached × Result (Unit {0})
  unfolding invalidate_path written
  put_object s c path body = written (invalidate_path c path) path (inner.write s path body)

  unfoldable pub delete_object : S → Cached → Text → S × Cached × Result (Unit {0})
  unfolding invalidate_path written
  delete_object s c path = written (invalidate_path c path) path (inner.erase s path)
