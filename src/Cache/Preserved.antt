-- ===== src/Cache/Preserved.antt =====
-- A property of keys and values that every operation of the cache preserves, if what is stored
-- satisfies it.
use lakeql.Base.{
  ℕ, zero, suc, ◌+◌, ◌≡◌, ap, Bool, true, false, [], ◌∷◌, none, some, arith, ltb, length,
  Bool-cases, Option-cases, inl, inr, All,
}
use lakeql.Base.Order.{compare_text-eq}
use lakeql.Expr.{Text}
use lakeql.Evaluator.{text_eq}
use lakeql.Cache.{
  CacheRecord, Entries, is_expired, expiry, SharedMemoryCache, lookup, remove, append_entry, delete,
  evict_key, evict_loop, evict, get, set, keep_others,
}
use lakeql.Cache.Accounting.{evict_loop-stop, evict_loop-go, get-miss, get-expired, get-hit}

module _ {V : Type 0} (P : Text → V → Type 0) where
  abbrev pub Every : Entries V → Type 0
  Every = All (λ e. P e.0 e.1.value)

  remove-Every : (key : Text) (es : Entries V) → Every es → Every (remove key es)
  unfolding remove
  remove-Every key [] h = tt
  remove-Every key ((k, r) ∷ es) (p, h) = elim (Bool-cases (text_eq k key)) [
    | inl e ↦ rw e h
    | inr e ↦ rw e (p, remove-Every key es h)
  ]

  append-Every :
      (key : Text) (r : CacheRecord V) (es : Entries V)
      → P key r.value
      → Every es
      → Every (append_entry key r es)
  unfolding append_entry
  append-Every key r [] p h = (p, tt)
  append-Every key r (e ∷ es) p (q, h) = (q, append-Every key r es p h)

  -- What is found under a key is stored under that key.
  pub lookup-Every :
      (key : Text) (es : Entries V) (r : CacheRecord V)
      → Every es
      → lookup key es ≡ some r
      → P key r.value
  unfolding lookup
  lookup-Every key [] r h f = absurd (cc)
  lookup-Every key ((k, q) ∷ es) r (p, h) f = elim (Bool-cases (text_eq k key)) [
    | inl e ↦
        let same : k ≡ key = compare_text-eq k key e in
        let this : q ≡ r = ground arith in rw (← this, ← same) p
    | inr e ↦ lookup-Every key es r h (rw e at f)
  ]

  delete-none :
      (c : SharedMemoryCache V) (key : Text) → lookup key c.entries ≡ none → delete c key ≡ c
  unfolding delete
  delete-none c key n = ground arith

  delete-some :
      (c : SharedMemoryCache V) (key : Text) (r : CacheRecord V)
      → lookup key c.entries ≡ some r
      → (delete c key).entries ≡ remove key c.entries
  unfolding delete
  delete-some c key r s = ground arith

  delete-Every :
      (c : SharedMemoryCache V) (key : Text) → Every c.entries → Every (delete c key).entries
  delete-Every c key h = elim (Option-cases (lookup key c.entries)) [
    | inl n ↦ rw (delete-none c key n) h
    | inr (r, s) ↦ rw (delete-some c key r s) (remove-Every key c.entries h)
  ]

  evict_loop-none :
      (fuel : ℕ) (c : SharedMemoryCache V)
      → ltb c.max_bytes c.cached_bytes ≡ true
      → evict_key c.entries ≡ none
      → evict_loop (suc fuel) c ≡ c
  unfolding evict_loop
  evict_loop-none fuel c over n = ground arith

  evict_loop-Every :
      (fuel : ℕ) (c : SharedMemoryCache V) → Every c.entries → Every (evict_loop fuel c).entries
  unfolding evict_loop
  evict_loop-Every zero c h = h
  evict_loop-Every (suc fuel) c h = elim (Bool-cases (ltb c.max_bytes c.cached_bytes)) [
    | inr fits ↦ rw (evict_loop-stop fuel c fits) h
    | inl over ↦ elim (Option-cases (evict_key c.entries)) [
      | inl n ↦ rw (evict_loop-none fuel c over n) h
      | inr (k, s) ↦
          rw (evict_loop-go fuel c k over s)
            (evict_loop-Every fuel (delete c k) (delete-Every c k h))
    ]
  ]

  pub set-Every :
      (now : ℕ) (c : SharedMemoryCache V) (key : Text) (value : V) (bytes priority : ℕ)
      → P key value
      → Every c.entries
      → Every (set now c key value bytes priority).entries
  unfolding set evict
  set-Every now c key value bytes priority p h = elim (Bool-cases (ltb c.max_bytes bytes)) [
    | inl big ↦ rw big h
    | inr fits ↦
        let d = delete c key in
        let r : CacheRecord V = record {
          value = value;
          bytes = bytes;
          priority = priority;
          expires_at = expiry now c.ttl_ms;
        } in
        let stored : SharedMemoryCache V = record d {
          entries = append_entry key r d.entries;
          cached_bytes = d.cached_bytes + bytes;
        } in
        rw fits (
          evict_loop-Every (length stored.entries) stored
            (append-Every key r d.entries p (delete-Every c key h)))
  ]

  pub get-Every :
      (now : ℕ) (c : SharedMemoryCache V) (key : Text)
      → Every c.entries
      → Every (get now c key).0.entries
  get-Every now c key h = elim (Option-cases (lookup key c.entries)) [
    | inl n ↦ rw (get-miss now c key n) h
    | inr (r, s) ↦ elim (Bool-cases (is_expired r.expires_at now)) [
      | inl x ↦ rw (get-expired now c key r s x) (delete-Every c key h)
      | inr x ↦ rw (get-hit now c key r s x) (
          append-Every key r (remove key c.entries) (lookup-Every key c.entries r h s)
            (remove-Every key c.entries h))
    ]
  ]

  -- A value that a read returns is stored under the key that is read.
  pub get-value :
      (now : ℕ) (c : SharedMemoryCache V) (key : Text) (value : V) (bytes : ℕ)
      → Every c.entries
      → (get now c key).1 ≡ some (value, bytes)
      → P key value
  get-value now c key value bytes h f = elim (Option-cases (lookup key c.entries)) [
    | inl n ↦
        let miss : (get now c key).1 ≡ none = ap (λ q. q.1) (get-miss now c key n) in absurd (cc)
    | inr (r, s) ↦ elim (Bool-cases (is_expired r.expires_at now)) [
      | inl x ↦
          let miss : (get now c key).1 ≡ none = ap (λ q. q.1) (get-expired now c key r s x) in
          absurd (cc)
      | inr x ↦
          let hit : (get now c key).1 ≡ some (r.value, r.bytes) =
            ap (λ q. q.1) (get-hit now c key r s x) in
          let same : r.value ≡ value = cc in rw (← same) (lookup-Every key c.entries r h s)
    ]
  ]

  pub delete_where-Every :
      (Q : Text → V → Type 0) (p : V → Bool) (es : Entries V)
      → ((k : Text) (v : V) → p v ≡ false → P k v → Q k v)
      → Every es
      → All (λ e. Q e.0 e.1.value) (keep_others p es)
  unfolding keep_others
  delete_where-Every Q p [] f h = tt
  delete_where-Every Q p ((k, r) ∷ es) f (q, h) = elim (Bool-cases (p r.value)) [
    | inl e ↦ rw e (delete_where-Every Q p es f h)
    | inr e ↦ rw e (f k r.value e q, delete_where-Every Q p es f h)
  ]
