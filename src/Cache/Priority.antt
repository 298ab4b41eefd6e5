-- ===== src/Cache/Priority.antt =====
-- Which entry is evicted.
use lakeql.Base.{
  ℕ, ◌≤◌, ◌≡◌, ◌⊎◌, [], ◌∷◌, some, arith, ltb, Bool-cases, Option-cases, inl, inr, All, Any,
}
use lakeql.Expr.{Text}
use lakeql.Cache.{Entries, lowest, evict_key}

module _ {V : Type 0} where
  lowest-le :
      (es : Entries V) (j : Text) (q : ℕ) (k : Text) (p : ℕ)
      → lowest es (some (j, q)) ≡ some (k, p)
      → (p ≤ q) × All (λ e. p ≤ e.1.priority) es
  unfolding lowest
  lowest-le [] j q k p h = ground arith
  lowest-le ((i, r) ∷ es) j q k p h = elim (Bool-cases (ltb r.priority q)) [
    | inl t ↦ let (le, all) = lowest-le es i r.priority k p (rw t at h) in (ground arith, (le, all))
    | inr t ↦ let (le, all) = lowest-le es j q k p (rw t at h) in (le, (ground arith, all))
  ]

  lowest-Any :
      (es : Entries V) (j : Text) (q : ℕ) (k : Text) (p : ℕ)
      → lowest es (some (j, q)) ≡ some (k, p)
      → ((j ≡ k) × (q ≡ p)) ⊎ Any (λ e. (e.0 ≡ k) × (e.1.priority ≡ p)) es
  unfolding lowest
  lowest-Any [] j q k p h = inl (ground arith)
  lowest-Any ((i, r) ∷ es) j q k p h = elim (Bool-cases (ltb r.priority q)) [
    | inl t ↦ inr (lowest-Any es i r.priority k p (rw t at h))
    | inr t ↦ elim (lowest-Any es j q k p (rw t at h)) [ inl e ↦ inl e | inr a ↦ inr (inr a) ]
  ]

  -- The key that is evicted is the key of an entry, and no entry has a lower priority than that one.
  pub evict_key_lem :
      (es : Entries V) (k : Text)
      → evict_key es ≡ some k
      → (p : ℕ) × Any (λ e. (e.0 ≡ k) × (e.1.priority ≡ p)) es × All (λ e. p ≤ e.1.priority) es
  unfolding evict_key lowest
  evict_key_lem [] k h = absurd (cc)
  evict_key_lem ((i, r) ∷ es) k h = elim (Option-cases (lowest es (some (i, r.priority)))) [
    | inl n ↦ absurd (ground arith)
    | inr ((j, p), e) ↦
        let same : j ≡ k = ground arith in
        let here : lowest es (some (i, r.priority)) ≡ some (k, p) = rw (← same) e in
        let (le, all) = lowest-le es i r.priority k p here in
        (p, lowest-Any es i r.priority k p here, (le, all))
  ]
