-- ===== src/CachedStore/Coherence.antt =====
-- Reads through the cache answer what the inner store answers.
use lakeql.Base.{ℕ, ◌≡◌, refl, sym, ◌∙◌, false, Option, none, some, arith}
use lakeql.Base.Result.{Result, ok, err}
use lakeql.Expr.{Text}
use lakeql.Evaluator.{text_eq}
use lakeql.Cache.{get, delete_where}
use lakeql.Cache.Preserved.{Every, set-Every, get-Every, get-value, delete_where-Every}
use lakeql.CachedStore.{
  Bytes, ObjectHead, ObjectStore, CacheValue, object, range, head, foreign, CachePolicy, Cached,
  object_key, head_key, range_key, is_at, invalidate_path, store_value, cached_object, cached_range,
  cached_head, answer, get_object, get_range, get_head, written, put_object, delete_object,
}
use lakeql.CachedStore.Keys.{IsNumeral, range_key-injective}

answer_lem :
    {A : Type 0} (Q : Cached → Type 0) (found : Option A) (inner : Result A) (keep : A → Cached)
    (c : Cached)
    → ((value : A) → found ≡ some value → inner ≡ ok value)
    → Q c
    → ((value : A) → inner ≡ ok value → Q (keep value))
    → ((answer found inner keep c).1 ≡ inner) × Q (answer found inner keep c).0
unfolding answer
answer_lem Q (some value) inner keep c f q k = (sym (f value refl), q)
answer_lem Q none (err e) keep c f q k = (refl, q)
answer_lem Q none (ok value) keep c f q k = (refl, k value refl)

cached_object-some :
    (o : Option (CacheValue × ℕ)) (value : Option Bytes)
    → cached_object o ≡ some value
    → (path : Text) × (bytes : ℕ) × (o ≡ some (object path value, bytes))
cached_object-some (some (object path v, bytes)) value h = (path, bytes, ground arith)
cached_object-some _ value h = absurd (cc)

cached_range-some :
    (o : Option (CacheValue × ℕ)) (value : Bytes)
    → cached_range o ≡ some value
    → (path : Text) × (bytes : ℕ) × (o ≡ some (range path value, bytes))
cached_range-some (some (range path v, bytes)) value h = (path, bytes, ground arith)
cached_range-some _ value h = absurd (cc)

cached_head-some :
    (o : Option (CacheValue × ℕ)) (value : Option ObjectHead)
    → cached_head o ≡ some value
    → (path : Text) × (bytes : ℕ) × (o ≡ some (head path value, bytes))
cached_head-some (some (head path v, bytes)) value h = (path, bytes, ground arith)
cached_head-some _ value h = absurd (cc)

module _ {S : Type 0} (inner : ObjectStore S) where
  -- A cached value is what the inner store answers to the request that its key names.
  abbrev pub Fits : S → Text → CacheValue → Type 0
  Fits s key (object path value) = (key ≡ object_key path) × (inner.read s path ≡ ok value)
  Fits s key (range path value) =
      (offset : ℕ) × (size : ℕ) × (key ≡ range_key inner path offset size)
      × (inner.read_range s path offset size ≡ ok value)
  Fits s key (head path value) = (key ≡ head_key path) × (inner.read_head s path ≡ ok value)
  Fits s key foreign = Unit

  abbrev pub IsCoherent : S → Cached → Type 0
  IsCoherent s c = Every (Fits s) c.entries

  -- The two states answer alike everywhere but at a path.
  abbrev pub SameElsewhere : Text → S → S → Type 0
  SameElsewhere path s s' =
      (p : Text)
      → text_eq p path ≡ false
      → (inner.read s' p ≡ inner.read s p)
        × ((offset size : ℕ) → inner.read_range s' p offset size ≡ inner.read_range s p offset size)
        × (inner.read_head s' p ≡ inner.read_head s p)

  -- A write to an object, whether it is carried out or refused, leaves the other objects alone.
  pub record IsLocal : Type 0 where
    pub write_local :
        (s : S) (path : Text) (body : Bytes) → SameElsewhere path s (inner.write s path body).0
    pub erase_local : (s : S) (path : Text) → SameElsewhere path s (inner.erase s path).0

  module _ (policy : CachePolicy) (now later : ℕ) (s : S) (c : Cached) where
    -- Reading an object through a coherent cache answers what the inner store answers, an error
    -- included, and leaves the cache coherent, whatever the cache evicts.
    pub get_object-Reads :
        (path : Text)
        → IsCoherent s c
        → ((get_object inner policy now later s c path).1 ≡ inner.read s path)
          × IsCoherent s (get_object inner policy now later s c path).0
    unfolding get_object store_value
    get_object-Reads path h =
        answer_lem (IsCoherent s) (cached_object (get now c (object_key path)).1)
          (inner.read s path) _ _ hit (get-Every (Fits s) now c (object_key path) h)
          (λ value e.
            set-Every (Fits s) later (get now c (object_key path)).0 (object_key path)
              (object path value) _ _ (refl, e) (get-Every (Fits s) now c (object_key path) h))
      where
        hit :
            (value : Option Bytes)
            → cached_object (get now c (object_key path)).1 ≡ some value
            → inner.read s path ≡ ok value
        hit value e =
            let (p, bytes, f) = cached_object-some (get now c (object_key path)).1 value e in
            let (k, r) = get-value (Fits s) now c (object_key path) (object p value) bytes h f in
            let same : p ≡ path = cc in rw (← same) r

    -- Reading the metadata of an object through a coherent cache answers what the inner store answers,
    -- an error included, and leaves the cache coherent.
    pub get_head-Reads :
        (path : Text)
        → IsCoherent s c
        → ((get_head inner policy now later s c path).1 ≡ inner.read_head s path)
          × IsCoherent s (get_head inner policy now later s c path).0
    unfolding get_head store_value
    get_head-Reads path h =
        answer_lem (IsCoherent s) (cached_head (get now c (head_key path)).1)
          (inner.read_head s path) _ _ hit (get-Every (Fits s) now c (head_key path) h)
          (λ value e.
            set-Every (Fits s) later (get now c (head_key path)).0 (head_key path) (head path value)
              _ _ (refl, e) (get-Every (Fits s) now c (head_key path) h))
      where
        hit :
            (value : Option ObjectHead)
            → cached_head (get now c (head_key path)).1 ≡ some value
            → inner.read_head s path ≡ ok value
        hit value e =
            let (p, bytes, f) = cached_head-some (get now c (head_key path)).1 value e in
            let (k, r) = get-value (Fits s) now c (head_key path) (head p value) bytes h f in
            let same : p ≡ path = cc in rw (← same) r

    -- Reading a range of an object through a coherent cache answers what the inner store answers to
    -- that range, an error included, and leaves the cache coherent, if numerals have no colon and
    -- differ for different numbers.
    pub get_range-Reads :
        (path : Text) (offset size : ℕ)
        → IsNumeral inner.decimal
        → IsCoherent s c
        → ((get_range inner policy now later s c path offset size).1
            ≡ inner.read_range s path offset size)
          × IsCoherent s (get_range inner policy now later s c path offset size).0
    unfolding get_range store_value
    get_range-Reads path offset size num h =
        answer_lem (IsCoherent s) (cached_range (get now c (range_key inner path offset size)).1)
          (inner.read_range s path offset size) _ _ hit
          (get-Every (Fits s) now c (range_key inner path offset size) h)
          (λ value e.
            set-Every (Fits s) later (get now c (range_key inner path offset size)).0
              (range_key inner path offset size) (range path value) _ _ (offset, size, refl, e)
              (get-Every (Fits s) now c (range_key inner path offset size) h))
      where
        hit :
            (value : Bytes)
            → cached_range (get now c (range_key inner path offset size)).1 ≡ some value
            → inner.read_range s path offset size ≡ ok value
        hit value e =
            let (p, bytes, f) =
              cached_range-some (get now c (range_key inner path offset size)).1 value e in
            let (a, n, k, r) =
              get-value (Fits s) now c (range_key inner path offset size) (range p value) bytes h
                f in
            let (ep, ea, en) = range_key-injective inner path p offset a size n num k in
            rw (ep, ea, en) r

  invalidate-IsCoherent :
      (s s' : S) (c : Cached) (path : Text)
      → SameElsewhere path s s'
      → IsCoherent s c
      → IsCoherent s' (invalidate_path c path)
  unfolding invalidate_path delete_where
  invalidate-IsCoherent s s' c path same h =
      delete_where-Every (Fits s) (Fits s') (is_at path) c.entries elsewhere h
    where
      elsewhere :
          (key : Text) (value : CacheValue)
          → is_at path value ≡ false
          → Fits s key value
          → Fits s' key value
      elsewhere key (object p v) n (k, r) = (k, (same p n).0 ∙ r)
      elsewhere key (range p v) n (a, m, k, r) = (a, m, k, (same p n).1 a m ∙ r)
      elsewhere key (head p v) n (k, r) = (k, (same p n).2 ∙ r)
      elsewhere key foreign n f = tt

  written-IsCoherent :
      (c : Cached) (path : Text) (out : S × Result (Unit {0}))
      → IsCoherent out.0 c
      → IsCoherent (written c path out).0 (written c path out).1
  unfolding written
  written-IsCoherent c path (s, ok u) h =
      invalidate-IsCoherent s s c path (λ p n. (refl, λ a m. refl, refl)) h
  written-IsCoherent c path (s, err e) h = h

  -- Writing an object, or deleting one, leaves the cache coherent with the new state of the store,
  -- for a store whose writes touch only the object written, and whether or not the write is refused.
  pub write-IsCoherent :
      (policy : CachePolicy) (s : S) (c : Cached) (path : Text) (body : Bytes)
      → IsLocal
      → IsCoherent s c
      → IsCoherent
          (put_object inner policy s c path body).0
          (put_object inner policy s c path body).1
        × IsCoherent (delete_object inner policy s c path).0 (delete_object inner policy s c path).1
  unfolding put_object delete_object
  write-IsCoherent policy s c path body l h = (
    written-IsCoherent (invalidate_path c path) path (inner.write s path body)
        (invalidate-IsCoherent s (inner.write s path body).0 c path (l.write_local s path body) h),
    written-IsCoherent (invalidate_path c path) path (inner.erase s path)
        (invalidate-IsCoherent s (inner.erase s path).0 c path (l.erase_local s path) h),
  )
