-- ===== src/Cache/Accounting.antt =====
-- The bytes that the cache counts are those of its entries, and they stay within the budget.
use lakeql.Base.{
  ℕ, zero, suc, ◌+◌, ◌≤◌, ◌≡◌, refl, ◌⊎◌, Bool, true, false, [], ◌∷◌, Option, none, some, arith,
  ltb, length, Bool-cases, Option-cases, inl, inr,
}
use lakeql.Expr.{Text}
use lakeql.Evaluator.{text_eq, text_eq_refl}
use lakeql.Cache.{
  CacheRecord, Entries, is_expired, expiry, SharedMemoryCache, lookup, remove, total_bytes,
  append_entry, delete, lowest, evict_key, evict_loop, evict, get, set, keep_others, bytes_where,
  delete_where,
}

pub record IsValid {V : Type 0} (c : SharedMemoryCache V) : Type 0 where
  pub counted : c.cached_bytes ≡ total_bytes c.entries
  pub bounded : c.cached_bytes ≤ c.max_bytes

module _ {V : Type 0} where
  total_bytes-remove :
      (key : Text) (es : Entries V) (r : CacheRecord V)
      → lookup key es ≡ some r
      → total_bytes es ≡ r.bytes + total_bytes (remove key es)
  unfolding lookup remove total_bytes
  total_bytes-remove key [] r h = absurd (cc)
  total_bytes-remove key ((k, q) ∷ es) r h = elim (Bool-cases (text_eq k key)) [
    | inl e ↦ rw e (ground arith)
    | inr e ↦ rw e (ground (arith, total_bytes-remove key es r))
  ]

  length-remove :
      (key : Text) (es : Entries V) (r : CacheRecord V)
      → lookup key es ≡ some r
      → length es ≡ suc (length (remove key es))
  unfolding lookup remove
  length-remove key [] r h = absurd (cc)
  length-remove key ((k, q) ∷ es) r h = elim (Bool-cases (text_eq k key)) [
    | inl e ↦ rw e (ground arith)
    | inr e ↦ rw e (ground (arith, length-remove key es r))
  ]

  total_bytes-append :
      (key : Text) (r : CacheRecord V) (es : Entries V)
      → total_bytes (append_entry key r es) ≡ total_bytes es + r.bytes
  unfolding total_bytes append_entry
  total_bytes-append key r [] = omega arith
  total_bytes-append key r ((k, q) ∷ es) = omega (arith, total_bytes-append key r es)

  total_bytes-keep :
      (p : V → Bool) (es : Entries V)
      → total_bytes es ≡ bytes_where p es + total_bytes (keep_others p es)
  unfolding total_bytes keep_others bytes_where
  total_bytes-keep p [] = omega arith
  total_bytes-keep p ((k, r) ∷ es) = ground (arith, total_bytes-keep p es)

  delete-counted :
      (c : SharedMemoryCache V) (key : Text)
      → c.cached_bytes ≡ total_bytes c.entries
      → (delete c key).cached_bytes ≡ total_bytes (delete c key).entries
  unfolding delete
  delete-counted c key e = elim (Option-cases (lookup key c.entries)) [
    | inl n ↦ ground arith
    | inr (r, s) ↦ ground (arith, total_bytes-remove key c.entries r s)
  ]

  delete-budget : (c : SharedMemoryCache V) (key : Text) → (delete c key).max_bytes ≡ c.max_bytes
  unfolding delete
  delete-budget c key = ground arith

  delete-bytes-le :
      (c : SharedMemoryCache V) (key : Text) → (delete c key).cached_bytes ≤ c.cached_bytes
  unfolding delete
  delete-bytes-le c key = ground arith

  Held : Text → Entries V → Type 0
  Held k es = (r : CacheRecord V) × (lookup k es ≡ some r)

  Held-later : (k j : Text) (r : CacheRecord V) (es : Entries V) → Held k es → Held k ((j, r) ∷ es)
  unfolding lookup Held
  Held-later k j r es (q, h) = elim (Bool-cases (text_eq j k)) [
    | inl e ↦ (r, rw e)
    | inr e ↦ (q, rw e h)
  ]

  Held-here : (k : Text) (r : CacheRecord V) (es : Entries V) → Held k ((k, r) ∷ es)
  unfolding lookup Held
  Held-here k r es = (r, rw (text_eq_refl k))

  -- The key that is evicted is a key of the cache.
  lowest-Held :
      (es : Entries V) (s : Option (Text × ℕ)) (k : Text) (p : ℕ)
      → lowest es s ≡ some (k, p)
      → Held k es ⊎ (s ≡ some (k, p))
  unfolding lowest
  lowest-Held [] s k p h = inr h
  lowest-Held ((j, r) ∷ es) none k p h = elim (lowest-Held es (some (j, r.priority)) k p h) [
    | inl f ↦ inl (Held-later k j r es f)
    | inr e ↦ let same : j ≡ k = ground arith in inl (rw same (Held-here k r es))
  ]
  lowest-Held ((j, r) ∷ es) (some (i, q)) k p h = elim (lowest-Held es _ k p h) [
    | inl f ↦ inl (Held-later k j r es f)
    | inr e ↦ elim (Bool-cases (ltb r.priority q)) [
      | inl t ↦ let same : j ≡ k = ground arith in inl (rw same (Held-here k r es))
      | inr t ↦ inr (ground arith)
    ]
  ]

  lowest-some : (es : Entries V) (s : Text × ℕ) → (t : Text × ℕ) × (lowest es (some s) ≡ some t)
  unfolding lowest
  lowest-some [] s = (s, refl)
  lowest-some ((j, r) ∷ es) (i, q) = elim (Bool-cases (ltb r.priority q)) [
    | inl t ↦ rw t (lowest-some es (j, r.priority))
    | inr t ↦ rw t (lowest-some es (i, q))
  ]

  evict_key-selected :
      (es : Entries V) (k : Text) (p : ℕ) → lowest es none ≡ some (k, p) → evict_key es ≡ some k
  unfolding evict_key
  evict_key-selected es k p e = ground arith

  evict_key-Held :
      (es : Entries V)
      → (evict_key es ≡ none) × (es ≡ []) ⊎ ((k : Text) × (evict_key es ≡ some k) × Held k es)
  unfolding evict_key lowest
  evict_key-Held [] = inl (refl, refl)
  evict_key-Held ((j, r) ∷ es) =
      let ((k, p), e) = lowest-some es (j, r.priority) in
      inr (k, evict_key-selected ((j, r) ∷ es) k p e, held k p e)
    where
      held :
          (k : Text) (p : ℕ) → lowest es (some (j, r.priority)) ≡ some (k, p) → Held k ((j, r) ∷ es)
      held k p e = elim (lowest-Held ((j, r) ∷ es) none k p e) [ inl f ↦ f | inr f ↦ absurd (cc) ]

  delete-length :
      (c : SharedMemoryCache V) (k : Text)
      → Held k c.entries
      → length c.entries ≡ suc (length (delete c k).entries)
  unfolding delete Held
  delete-length c k (r, h) = ground (arith, length-remove k c.entries r h)

  pub evict_loop-stop :
      (fuel : ℕ) (c : SharedMemoryCache V)
      → ltb c.max_bytes c.cached_bytes ≡ false
      → evict_loop (suc fuel) c ≡ c
  unfolding evict_loop
  evict_loop-stop fuel c fits = ground arith

  pub evict_loop-go :
      (fuel : ℕ) (c : SharedMemoryCache V) (k : Text)
      → ltb c.max_bytes c.cached_bytes ≡ true
      → evict_key c.entries ≡ some k
      → evict_loop (suc fuel) c ≡ evict_loop fuel (delete c k)
  unfolding evict_loop
  evict_loop-go fuel c k over s = ground arith

  evict_loop-IsValid :
      (fuel : ℕ) (c : SharedMemoryCache V)
      → length c.entries ≤ fuel
      → c.cached_bytes ≡ total_bytes c.entries
      → IsValid (evict_loop fuel c)
  unfolding evict_loop total_bytes
  evict_loop-IsValid zero c f e = record {
    counted = e;
    bounded = ground (arith, empty_bytes c.entries (omega arith));
  }
    where
      empty_bytes : (es : Entries V) → length es ≡ 0 → total_bytes es ≡ 0
      empty_bytes [] h = refl
      empty_bytes (x ∷ es) h = absurd (omega arith)
  evict_loop-IsValid (suc fuel) c f e = elim (Bool-cases (ltb c.max_bytes c.cached_bytes)) [
    | inr fits ↦ rw (evict_loop-stop fuel c fits) (record { counted = e; bounded = ground arith })
    | inl over ↦ elim (evict_key-Held c.entries) [
      | inl (n, z) ↦ absurd (none_over z over)
      | inr (k, s, h) ↦ rw (evict_loop-go fuel c k over s) (
          evict_loop-IsValid fuel (delete c k) (omega (arith, delete-length c k h))
            (delete-counted c k e))
    ]
  ]
    where
      none_over : c.entries ≡ [] → ltb c.max_bytes c.cached_bytes ≡ true → ⊥
      none_over z over = let none_counted : total_bytes c.entries ≡ 0 = rw z refl in ground arith

  -- Storing a value, in a cache whose count of bytes is exact and within the budget, leaves it so,
  -- whatever is evicted.
  pub set-IsValid :
      (now : ℕ) (c : SharedMemoryCache V) (key : Text) (value : V) (bytes priority : ℕ)
      → IsValid c
      → IsValid (set now c key value bytes priority)
  unfolding set evict
  set-IsValid now c key value bytes priority v = elim (Bool-cases (ltb c.max_bytes bytes)) [
    | inl big ↦ rw big v
    | inr fits ↦
        let d = delete c key in
        let r : CacheRecord V = record {
          value = value;
          bytes = bytes;
          priority = priority;
          expires_at = expiry now c.ttl_ms;
        } in
        let stored : SharedMemoryCache V = record d {
          entries = append_entry key r d.entries;
          cached_bytes = d.cached_bytes + bytes;
        } in
        rw fits (
          evict_loop-IsValid (length stored.entries) stored (omega arith)
            (omega (arith, delete-counted c key v.counted, total_bytes-append key r d.entries)))
  ]

  pub delete-IsValid : (c : SharedMemoryCache V) (key : Text) → IsValid c → IsValid (delete c key)
  delete-IsValid c key v = record {
    counted = delete-counted c key v.counted;
    bounded = omega (arith, v.bounded, delete-bytes-le c key, delete-budget c key);
  }

  pub get-miss :
      (now : ℕ) (c : SharedMemoryCache V) (key : Text)
      → lookup key c.entries ≡ none
      → get now c key ≡ (c, none)
  unfolding get
  get-miss now c key n = ground arith

  pub get-expired :
      (now : ℕ) (c : SharedMemoryCache V) (key : Text) (r : CacheRecord V)
      → lookup key c.entries ≡ some r
      → is_expired r.expires_at now ≡ true
      → get now c key ≡ (delete c key, none)
  unfolding get
  get-expired now c key r s x = ground arith

  pub get-hit :
      (now : ℕ) (c : SharedMemoryCache V) (key : Text) (r : CacheRecord V)
      → lookup key c.entries ≡ some r
      → is_expired r.expires_at now ≡ false
      → get now c key ≡ (
        record c { entries = append_entry key r (remove key c.entries) },
        some (r.value, r.bytes),
      )
  unfolding get
  get-hit now c key r s x = ground arith

  -- Reading a key, whether it is missing, expired or found, in a cache whose count of bytes is exact
  -- and within the budget, leaves it so.
  pub get-IsValid :
      (now : ℕ) (c : SharedMemoryCache V) (key : Text) → IsValid c → IsValid (get now c key).0
  unfolding get
  get-IsValid now c key v = elim (Option-cases (lookup key c.entries)) [
    | inl n ↦ rw (get-miss now c key n) v
    | inr (r, s) ↦ elim (Bool-cases (is_expired r.expires_at now)) [
      | inl x ↦ rw (get-expired now c key r s x) (delete-IsValid c key v)
      | inr x ↦ rw (get-hit now c key r s x) (record {
        counted = omega (
          arith,
          v.counted,
          total_bytes-remove key c.entries r s,
          total_bytes-append key r (remove key c.entries),
        );
        bounded = v.bounded;
      })
    ]
  ]

  -- Deleting all entries whose value satisfies a predicate, in a cache whose count of bytes is exact
  -- and within the budget, leaves it so.
  pub delete_where-IsValid :
      (c : SharedMemoryCache V) (p : V → Bool) → IsValid c → IsValid (delete_where c p)
  unfolding delete_where
  delete_where-IsValid c p v = record {
    counted = omega (arith, v.counted, total_bytes-keep p c.entries);
    bounded = omega (arith, v.bounded);
  }
