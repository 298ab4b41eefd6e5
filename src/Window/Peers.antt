-- ===== src/Window/Peers.antt =====
-- The groups of peers of packages/core/src/window-frame.ts.
use lakeql.Base.{
  ℕ, zero, suc, ◌+◌, ◌≤◌, ◌<◌, ◌≡◌, refl, ◌∙◌, arith, true, false, List, [], ◌∷◌, some, length,
  get_elem?, Bool-cases, inl, inr,
}
use lakeql.Base.Order.{compare_text}
use lakeql.Evaluator.{text_eq, text_eq_refl}
use lakeql.Window.{WindowRow, WindowHost, same_partition, same_peer}
use lakeql.Window.Frames.{peer_end}

module _ {A : Type 0} where
  pub get_elem?-lt : (xs : List A) (i : ℕ) → i < length xs → (x : A) × (get_elem? xs i ≡ some x)
  get_elem?-lt [] i h = absurd (omega (arith, h))
  get_elem?-lt (x ∷ xs) zero h = (x, refl)
  get_elem?-lt (x ∷ xs) (suc i) h = get_elem?-lt xs i (omega (arith, h))

text_eq→eq : (s t : List ℕ) → text_eq s t ≡ true → s ≡ t
unfolding compare_text
text_eq→eq [] [] h = refl
text_eq→eq [] (d ∷ t) h = absurd cc
text_eq→eq (c ∷ s) [] h = absurd cc
text_eq→eq (c ∷ s) (d ∷ t) h = ground (arith, text_eq→eq s t)

module _ (window : WindowHost) where
  AreEqual : WindowRow → WindowRow → Type 0
  AreEqual a b =
      (window.stable_key a.partition_key ≡ window.stable_key b.partition_key)
      × (window.stable_key a.order_key ≡ window.stable_key b.order_key)

  same_peer→AreEqual : (a b : WindowRow) → same_peer window a b ≡ true → AreEqual a b
  unfolding same_peer same_partition AreEqual
  same_peer→AreEqual a b h =
      elim (Bool-cases
        (text_eq (window.stable_key a.partition_key) (window.stable_key b.partition_key))) [
          | inl e ↦ (text_eq→eq _ _ e, text_eq→eq _ _ (rw e at h))
          | inr e ↦ absurd (cc (rw e at h))
        ]

  AreEqual→same_peer : (a b : WindowRow) → AreEqual a b → same_peer window a b ≡ true
  unfolding same_peer same_partition AreEqual
  AreEqual→same_peer a b (p, o) = rw p (
      rw o (
        rw (text_eq_refl (window.stable_key b.partition_key))
          (text_eq_refl (window.stable_key b.order_key))))

  pub same_peer_refl : (a : WindowRow) → same_peer window a a ≡ true
  unfolding AreEqual
  same_peer_refl a = AreEqual→same_peer a a (refl, refl)

  -- A row that is no peer of the first is no peer of its peers.
  pub not_same_peer :
      (a b c : WindowRow)
      → same_peer window a b ≡ true
      → same_peer window a c ≡ false
      → same_peer window b c ≡ false
  unfolding AreEqual
  not_same_peer a b c h n = elim (Bool-cases (same_peer window b c)) [
    | inl e ↦
        let (p, o) = same_peer→AreEqual a b h in
        let (q, r) = same_peer→AreEqual b c e in
        absurd (cc (AreEqual→same_peer a c (p ∙ q, o ∙ r), n))
    | inr e ↦ e
  ]

  cons_same :
      (row current : WindowRow) (rows : List WindowRow) (n : ℕ)
      → same_peer window current row ≡ true
      → ((i : ℕ) (r : WindowRow)
          → i < n
          → get_elem? rows i ≡ some r
          → same_peer window current r ≡ true)
      → (i : ℕ) (r : WindowRow) → i < suc n
      → get_elem? (row ∷ rows) i ≡ some r
      → same_peer window current r ≡ true
  cons_same row current rows n s all_same zero r h e = ground (arith, s, e)
  cons_same row current rows n s all_same (suc i) r h e = all_same i r (omega (arith, h)) e

  no_peer :
      (row current : WindowRow)
      → same_peer window current row ≡ false
      → (r : WindowRow) → some row ≡ some r
      → same_peer window current r ≡ false
  no_peer row current s r e = ground (arith, s, e)

  pub peer_end-Has :
      (rows : List WindowRow) (current : WindowRow) (k : ℕ)
      → (n : ℕ) × (peer_end window rows current k ≡ k + n)
        × (n ≤ length rows)
        × ((i : ℕ) (r : WindowRow)
            → i < n
            → get_elem? rows i ≡ some r
            → same_peer window current r ≡ true)
        × ((r : WindowRow) → get_elem? rows n ≡ some r → same_peer window current r ≡ false)
  unfolding peer_end
  peer_end-Has [] current k =
      (0, omega arith, omega arith, λ i r h e. absurd (omega (arith, h)), λ r e. absurd cc)
  peer_end-Has (row ∷ rows) current k = elim (Bool-cases (same_peer window current row)) [
    | inl s ↦
        let (n, e, l, all_same, next) = peer_end-Has rows current (k + 1) in
        (
          suc n,
          rw s (omega (arith, e)),
          omega (arith, l),
          cons_same row current rows n s all_same,
          next,
        )
    | inr s ↦ (
      0,
      rw s (omega arith),
      omega arith,
      λ i r h e. absurd (omega (arith, h)),
      no_peer row current s,
    )
  ]
