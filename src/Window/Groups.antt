-- ===== src/Window/Groups.antt =====
-- The groups of peers of packages/core/src/window-frame.ts are the partition, cut where peers end.
use lakeql.Base.{
  ℕ, zero, suc, ◌+◌, ◌-◌, ◌≤◌, ◌<◌, ◌≡◌, refl, sym, ◌∙◌, ap, arith, true, false, List, [], ◌∷◌,
  some, ltb, ◌==◌, length, get_elem?, Bool-cases, inl, inr,
}
use lakeql.Base.Slices.{drop, drop-get_elem?, drop-length}
use lakeql.Base.Result.{ok}
use lakeql.Window.{WindowRow, WindowHost, same_peer}
use lakeql.Window.Frames.{FrameSpan, span, peer_start, peer_span, peer_groups_loop, peer_groups}
use lakeql.Window.RowFrames.{Has}
use lakeql.Window.Peers.{get_elem?-lt, not_same_peer, same_peer_refl, peer_end-Has}

module _ (window : WindowHost) (partition : List WindowRow) where
  -- The row at an index, if any, is no peer of the one before it.
  abbrev IsBoundary : ℕ → Type 0
  IsBoundary zero = Unit
  IsBoundary (suc k) =
      (r c : WindowRow)
      → get_elem? partition k ≡ some r
      → get_elem? partition (suc k) ≡ some c
      → same_peer window r c ≡ false

  -- The rows of a span are the peers of its first row, up to a row that is none.
  abbrev pub IsGroup : FrameSpan → Type 0
  IsGroup g =
      (g.start < g.end)
      × (g.end ≤ length partition)
      × ((i : ℕ) (c r : WindowRow)
          → Has g i
          → get_elem? partition g.start ≡ some c
          → get_elem? partition i ≡ some r
          → same_peer window c r ≡ true)
      × ((c r : WindowRow)
          → get_elem? partition g.start ≡ some c
          → get_elem? partition g.end ≡ some r
          → same_peer window c r ≡ false)

  -- Groups that follow each other from an index to the end.
  abbrev pub AreGroups : ℕ → List FrameSpan → Type 0
  AreGroups start [] = start ≡ length partition
  AreGroups start (g ∷ groups) = (g.start ≡ start) × IsGroup g × AreGroups g.end groups

  peer_start-boundary :
      (start : ℕ) (c : WindowRow)
      → start < length partition
      → get_elem? partition start ≡ some c
      → IsBoundary start
      → peer_start window partition c start ≡ start
  unfolding peer_start
  peer_start-boundary zero c l e b = refl
  peer_start-boundary (suc k) c l e b =
      let (r, f) = get_elem?-lt partition k (omega (arith, l)) in
      rw (f, peer_start) (rw (b r c f e) refl)

  the_row :
      (i : ℕ) (c d : WindowRow)
      → get_elem? partition i ≡ some c
      → get_elem? partition i ≡ some d
      → c ≡ d
  the_row i c d e f = cc

  -- What `peer_end-Has` says, of the partition: the rows from `start` on are peers of the first one.
  module _ (start n : ℕ) (c : WindowRow) (e : get_elem? partition start ≡ some c) where
    behind :
        (j : ℕ) (r : WindowRow)
        → start < j
        → get_elem? partition j ≡ some r
        → get_elem? (drop (start + 1) partition) (j - (start + 1)) ≡ some r
    behind j r h f =
        drop-get_elem? (start + 1) partition (j - (start + 1))
        ∙ ap (get_elem? partition) (back j h)
        ∙ f
      where
        back : (j : ℕ) → start < j → start + 1 + (j - (start + 1)) ≡ j
        back j h = omega (arith, h)

    first_peer :
        (i : ℕ) (r : WindowRow)
        → i ≡ start
        → get_elem? partition i ≡ some r
        → same_peer window c r ≡ true
    first_peer i r p f = rw (the_row start r c (rw (sym p) f) e) (same_peer_refl window c)

    peers_from :
        ((i : ℕ) (r : WindowRow)
          → i < n
          → get_elem? (drop (start + 1) partition) i ≡ some r
          → same_peer window c r ≡ true)
        → (i : ℕ) (r : WindowRow) → start ≤ i
        → i < start + 1 + n
        → get_elem? partition i ≡ some r
        → same_peer window c r ≡ true
    peers_from all_same i r l h f = elim (Bool-cases (i == start)) [
      | inl q ↦ first_peer i r (ground (arith, q)) f
      | inr q ↦
          all_same (i - (start + 1)) r (ground (arith, q, l, h))
            (behind i r (ground (arith, q, l)) f)
    ]

    no_peer_at :
        ((r : WindowRow)
          → get_elem? (drop (start + 1) partition) n ≡ some r
          → same_peer window c r ≡ false)
        → (r : WindowRow) → get_elem? partition (start + 1 + n) ≡ some r
        → same_peer window c r ≡ false
    no_peer_at next r f = next r (drop-get_elem? (start + 1) partition n ∙ f)

  IsBoundary-at :
      (at : ℕ)
      → ((k : ℕ) (r c : WindowRow)
          → at ≡ suc k
          → get_elem? partition k ≡ some r
          → get_elem? partition at ≡ some c
          → same_peer window r c ≡ false)
      → IsBoundary at
  IsBoundary-at zero h = tt
  IsBoundary-at (suc k) h = λ r c e f. h k r c refl e f

  peer_span-IsGroup :
      (start : ℕ)
      → start < length partition
      → IsBoundary start
      → (end : ℕ) × (peer_span window partition start ≡ ok (span start end))
        × IsGroup (span start end)
        × IsBoundary end
  unfolding peer_span
  peer_span-IsGroup start l b =
      let (c, e) = get_elem?-lt partition start l in
      let (n, f, k, all_same, next) =
        peer_end-Has window (drop (start + 1) partition) c (start + 1) in
      let inside = peers_from start n c e all_same in
      let outside = no_peer_at start n c e next in
      (
        start + 1 + n,
        rw (e, peer_span) (rw (peer_start-boundary start c l e b) (rw f refl)),
        (
          omega arith,
          omega (arith, l, k, drop-length (start + 1) partition),
          λ i d r h g q. rw (the_row start d c g e) (inside i r h.0 h.1 q),
          λ d r g q. rw (the_row start d c g e) (outside r q),
        ),
        IsBoundary-at (start + 1 + n) (λ j r d p q g.
            not_same_peer window c r d (inside j r (omega (arith, p)) (omega (arith, p)) q)
              (outside d g)),
      )

  peer_groups_loop-AreGroups :
      (fuel start : ℕ)
      → length partition ≤ fuel + start
      → start ≤ length partition
      → IsBoundary start
      → (groups : List FrameSpan) × (peer_groups_loop window fuel partition start ≡ ok groups)
        × AreGroups start groups
  unfolding peer_groups_loop
  peer_groups_loop-AreGroups zero start f l b =
      ([], rw (not_below start (omega (arith, f))) refl, omega (arith, f, l))
    where
      not_below : (k : ℕ) → length partition ≤ k → ltb k (length partition) ≡ false
      not_below k h = ground (arith, h)
  peer_groups_loop-AreGroups (suc fuel) start f l b =
      elim (Bool-cases (ltb start (length partition))) [
        | inl s ↦
            let (end, r, g, b') = peer_span-IsGroup start (ground (arith, s)) b in
            let (groups, q, a) =
              peer_groups_loop-AreGroups fuel end (omega (arith, f, g.0)) g.1 b' in
            (span start end ∷ groups, rw s (rw r (rw q refl)), (refl, g, a))
        | inr s ↦ ([], rw s refl, ground (arith, s, l))
      ]

  -- The groups of peers are computed, whatever the rows are: they follow each other from the first row to
  -- the last, and each is the longest run of rows that are peers of its first one.
  pub peer_groups-AreGroups :
      (groups : List FrameSpan) × (peer_groups window partition ≡ ok groups) × AreGroups 0 groups
  unfolding peer_groups
  peer_groups-AreGroups =
      peer_groups_loop-AreGroups (length partition) 0 (omega arith) (omega arith) tt
