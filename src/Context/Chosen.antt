-- ===== src/Context/Chosen.antt =====
-- Sorted lists of candidates, and the two orders.
use prometheus_knowledge_rs.Prelude.{
  ◌≡◌, inl, inr, Bool, true, false, List, [], ◌∷◌, Bool-cases, All, All-map, ◌≤◌, arith,
}
use prometheus_knowledge_rs.Context.{ContextCandidate, priority}
use prometheus_knowledge_rs.Context.Select.{insert_by, sort_by, is_preferred, is_ranked}

module _ {Y : Type 0} where
  -- Each one stands in the relation to all behind it.
  abbrev pub IsSortedBy :
      (ContextCandidate Y → ContextCandidate Y → Type 0) → List (ContextCandidate Y) → Type 0
  IsSortedBy R [] = Unit
  IsSortedBy R (c ∷ cs) = All (R c) cs × IsSortedBy R cs

  module _ (before : ContextCandidate Y → ContextCandidate Y → Bool) where
    pub All-insert_by :
        (P : ContextCandidate Y → Type 0) (c : ContextCandidate Y) (cs : List (ContextCandidate Y))
        → P c
        → All P cs
        → All P (insert_by before c cs)
    unfolding insert_by
    All-insert_by P c [] pc h = (pc, tt)
    All-insert_by P c (d ∷ ds) pc (pd, h) = elim (Bool-cases (before c d)) [
      | inl first ↦ rw first (pc, (pd, h))
      | inr later ↦ rw later (pd, All-insert_by P c ds pc h)
    ]

    pub All-sort_by :
        (P : ContextCandidate Y → Type 0) (cs : List (ContextCandidate Y))
        → All P cs
        → All P (sort_by before cs)
    unfolding sort_by
    All-sort_by P [] h = tt
    All-sort_by P (c ∷ cs) (pc, h) = All-insert_by P c (sort_by before cs) pc (All-sort_by P cs h)

    insert_by-All :
        (P : ContextCandidate Y → Type 0) (c : ContextCandidate Y) (cs : List (ContextCandidate Y))
        → All P (insert_by before c cs)
        → P c × All P cs
    unfolding insert_by
    insert_by-All P c [] h = h
    insert_by-All P c (d ∷ ds) h = elim (Bool-cases (before c d)) [
      | inl first ↦ let g : P c × All P (d ∷ ds) = rw first at h in g
      | inr later ↦
          let g : P d × All P (insert_by before c ds) = rw later at h in
          let (pc, rest) = insert_by-All P c ds g.1 in (pc, (g.0, rest))
    ]

    pub sort_by-All :
        (P : ContextCandidate Y → Type 0) (cs : List (ContextCandidate Y))
        → All P (sort_by before cs)
        → All P cs
    unfolding sort_by
    sort_by-All P [] h = tt
    sort_by-All P (c ∷ cs) h =
        let (pc, rest) = insert_by-All P c (sort_by before cs) h in (pc, sort_by-All P cs rest)

    module _ (R : ContextCandidate Y → ContextCandidate Y → Type 0)
        (holds : (a b : ContextCandidate Y) → before a b ≡ true → R a b)
        (fails : (a b : ContextCandidate Y) → before a b ≡ false → R b a)
        (trans : (a b c : ContextCandidate Y) → R a b → R b c → R a c) where
      insert_by-IsSortedBy :
          (c : ContextCandidate Y) (cs : List (ContextCandidate Y))
          → IsSortedBy R cs
          → IsSortedBy R (insert_by before c cs)
      unfolding insert_by
      insert_by-IsSortedBy c [] h = (tt, tt)
      insert_by-IsSortedBy c (d ∷ ds) (hd, h) = elim (Bool-cases (before c d)) [
        | inl first ↦
            rw first
              (((holds c d first, All-map ds (λ e. trans c d e (holds c d first)) hd)), (hd, h))
        | inr later ↦
            rw later (All-insert_by (R d) c ds (fails c d later) hd, insert_by-IsSortedBy c ds h)
      ]

      pub sort_by-IsSortedBy : (cs : List (ContextCandidate Y)) → IsSortedBy R (sort_by before cs)
      unfolding sort_by
      sort_by-IsSortedBy [] = tt
      sort_by-IsSortedBy (c ∷ cs) =
          insert_by-IsSortedBy c (sort_by before cs) (sort_by-IsSortedBy cs)

  abbrev pub HasScopeBy : ContextCandidate Y → ContextCandidate Y → Type 0
  HasScopeBy a b = priority a.scope ≤ priority b.scope

  abbrev pub HasScoreBy : ContextCandidate Y → ContextCandidate Y → Type 0
  HasScoreBy a b = b.score ≤ a.score

  pub is_preferred-HasScopeBy :
      (a b : ContextCandidate Y) → is_preferred a b ≡ true → HasScopeBy a b
  unfolding is_preferred
  is_preferred-HasScopeBy a b h = ground arith

  pub is_preferred-HasScopeBy_back :
      (a b : ContextCandidate Y) → is_preferred a b ≡ false → HasScopeBy b a
  unfolding is_preferred
  is_preferred-HasScopeBy_back a b h = ground arith

  pub is_ranked-HasScoreBy : (a b : ContextCandidate Y) → is_ranked a b ≡ true → HasScoreBy a b
  unfolding is_ranked
  is_ranked-HasScoreBy a b h = ground arith

  pub is_ranked-HasScoreBy_back :
      (a b : ContextCandidate Y) → is_ranked a b ≡ false → HasScoreBy b a
  unfolding is_ranked
  is_ranked-HasScoreBy_back a b h = ground arith
