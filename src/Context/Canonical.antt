-- ===== src/Context/Canonical.antt =====
-- Which copies of a document are shown, and in which order.
use prometheus_knowledge_rs.Prelude.{
  ◌≡◌, inl, inr, Bool, true, false, not, ◌||◌, List, [], ◌∷◌, arith, String, str_eq, eq_iff, leb,
  Bool-cases, any, All, All-map, le→leb,
}
use prometheus_knowledge_rs.Context.{ContextCandidate, priority, TextRules}
use prometheus_knowledge_rs.Context.Select.{
  content_of, canonical, is_preferred, insert_by, sort_by, is_ranked, select,
}
use prometheus_knowledge_rs.Context.Chosen.{
  IsSortedBy, HasScopeBy, sort_by-IsSortedBy, is_preferred-HasScopeBy, is_preferred-HasScopeBy_back,
  All-insert_by, All-sort_by, sort_by-All, HasScoreBy, is_ranked-HasScoreBy,
  is_ranked-HasScoreBy_back,
}

any-str_eq_ne :
    (a b : String) (ids : List String)
    → any (str_eq a) ids ≡ true
    → any (str_eq b) ids ≡ false
    → str_eq a b ≡ false
any-str_eq_ne a b [] ha hb = cc
any-str_eq_ne a b (q ∷ ids) ha hb =
    ground (arith, any-str_eq_ne a b ids, eq_iff a q, eq_iff b q, eq_iff a b)

module _ {Y : Type 0} (rules : TextRules) where
  abbrev pub is_same_id : ContextCandidate Y → ContextCandidate Y → Bool
  is_same_id a b = str_eq a.entry.id b.entry.id

  abbrev pub is_same_content : ContextCandidate Y → ContextCandidate Y → Bool
  is_same_content a b = str_eq (content_of rules a) (content_of rules b)

  -- Neither the id nor the content of one is that of the other.
  abbrev pub IsOther : ContextCandidate Y → ContextCandidate Y → Type 0
  IsOther a b = (is_same_id a b ≡ false) × (is_same_content a b ≡ false)

  -- If the second has the id of the first, then its scope does not come before that of the first.
  abbrev pub IsFirst : ContextCandidate Y → ContextCandidate Y → Type 0
  IsFirst a b = (not (is_same_id b a) || leb (priority a.scope) (priority b.scope)) ≡ true

  abbrev IsNew : List String → List String → ContextCandidate Y → Type 0
  IsNew ids contents c =
      (any (str_eq c.entry.id) ids ≡ false) × (any (str_eq (content_of rules c)) contents ≡ false)

  canonical-IsNew :
      (ids contents : List String) (cs : List (ContextCandidate Y))
      → All (IsNew ids contents) (canonical rules ids contents cs)
  unfolding canonical
  canonical-IsNew ids contents [] = tt
  canonical-IsNew ids contents (c ∷ cs) = elim (Bool-cases (any (str_eq c.entry.id) ids)) [
    | inl known ↦ rw known (canonical-IsNew ids contents cs)
    | inr new ↦ rw new (elim (Bool-cases (any (str_eq (content_of rules c)) contents)) [
      | inl copied ↦
          rw copied
            (All-map _ (λ d h. ground (arith, h)) (canonical-IsNew (c.entry.id ∷ ids) contents cs))
      | inr own ↦ rw own (
        (new, own),
        All-map _ (λ d h. ground (arith, h))
            (canonical-IsNew (c.entry.id ∷ ids) (content_of rules c ∷ contents) cs),
      )
    ])
  ]

  canonical-IsSortedBy :
      (ids contents : List String) (cs : List (ContextCandidate Y))
      → IsSortedBy IsOther (canonical rules ids contents cs)
  unfolding canonical
  canonical-IsSortedBy ids contents [] = tt
  canonical-IsSortedBy ids contents (c ∷ cs) = elim (Bool-cases (any (str_eq c.entry.id) ids)) [
    | inl known ↦ rw known (canonical-IsSortedBy ids contents cs)
    | inr new ↦ rw new (elim (Bool-cases (any (str_eq (content_of rules c)) contents)) [
      | inl copied ↦ rw copied (canonical-IsSortedBy (c.entry.id ∷ ids) contents cs)
      | inr own ↦ rw own (
        All-map _
            (λ d h. ground (
              arith,
              h,
              eq_iff c.entry.id d.entry.id,
              eq_iff d.entry.id c.entry.id,
              eq_iff (content_of rules c) (content_of rules d),
              eq_iff (content_of rules d) (content_of rules c),
            ))
            (canonical-IsNew (c.entry.id ∷ ids) (content_of rules c ∷ contents) cs),
        canonical-IsSortedBy (c.entry.id ∷ ids) (content_of rules c ∷ contents) cs,
      )
    ])
  ]

  abbrev IsFirstOf : List (ContextCandidate Y) → ContextCandidate Y → Type 0
  IsFirstOf cs s = All (IsFirst s) cs

  -- One more document, with an id that none of the chosen has.
  add_other :
      (c : ContextCandidate Y) (cs xs : List (ContextCandidate Y))
      → All (λ s. is_same_id c s ≡ false) xs
      → All (IsFirstOf cs) xs
      → All (IsFirstOf (c ∷ cs)) xs
  add_other c cs [] other h = tt
  add_other c cs (s ∷ xs) (o, other) (first, h) = ((ground arith, first), add_other c cs xs other h)

  HasScopeBy-IsFirst :
      (c : ContextCandidate Y) (cs : List (ContextCandidate Y))
      → All (HasScopeBy c) cs
      → All (IsFirst c) cs
  HasScopeBy-IsFirst c cs h =
      All-map cs (λ d le. ground (arith, le→leb (priority c.scope) (priority d.scope) le)) h

  canonical-IsFirst :
      (ids contents : List String) (cs : List (ContextCandidate Y))
      → IsSortedBy HasScopeBy cs
      → All (IsFirstOf cs) (canonical rules ids contents cs)
  unfolding canonical
  canonical-IsFirst ids contents [] h = tt
  canonical-IsFirst ids contents (c ∷ cs) (hc, h) =
      elim (Bool-cases (any (str_eq c.entry.id) ids)) [
        | inl known ↦ rw known (
            add_other c cs (canonical rules ids contents cs)
              (All-map _ (λ d n. any-str_eq_ne c.entry.id d.entry.id ids known n.0)
                (canonical-IsNew ids contents cs))
              (canonical-IsFirst ids contents cs h))
        | inr new ↦ rw new (elim (Bool-cases (any (str_eq (content_of rules c)) contents)) [
          | inl copied ↦ rw copied (
              add_other c cs (canonical rules (c.entry.id ∷ ids) contents cs)
                (All-map _
                  (λ d n.
                    ground (arith, n, eq_iff c.entry.id d.entry.id, eq_iff d.entry.id c.entry.id))
                  (canonical-IsNew (c.entry.id ∷ ids) contents cs))
                (canonical-IsFirst (c.entry.id ∷ ids) contents cs h))
          | inr own ↦ rw own (
            (
              ground (arith, le→leb (priority c.scope) (priority c.scope) (omega arith)),
              HasScopeBy-IsFirst c cs hc,
            ),
            add_other c cs (canonical rules (c.entry.id ∷ ids) (content_of rules c ∷ contents) cs)
                (All-map _
                  (λ d n.
                    ground (arith, n, eq_iff c.entry.id d.entry.id, eq_iff d.entry.id c.entry.id))
                  (canonical-IsNew (c.entry.id ∷ ids) (content_of rules c ∷ contents) cs))
                (canonical-IsFirst (c.entry.id ∷ ids) (content_of rules c ∷ contents) cs h),
          )
        ])
      ]

  canonical-All :
      (P : ContextCandidate Y → Type 0) (ids contents : List String)
      (cs : List (ContextCandidate Y))
      → All P cs
      → All P (canonical rules ids contents cs)
  unfolding canonical
  canonical-All P ids contents [] h = tt
  canonical-All P ids contents (c ∷ cs) (pc, h) = elim (Bool-cases (any (str_eq c.entry.id) ids)) [
    | inl known ↦ rw known (canonical-All P ids contents cs h)
    | inr new ↦ rw new (elim (Bool-cases (any (str_eq (content_of rules c)) contents)) [
      | inl copied ↦ rw copied (canonical-All P (c.entry.id ∷ ids) contents cs h)
      | inr own ↦
          rw own (pc, canonical-All P (c.entry.id ∷ ids) (content_of rules c ∷ contents) cs h)
    ])
  ]

  preferred_sorted :
      (cs : List (ContextCandidate Y)) → IsSortedBy HasScopeBy (sort_by is_preferred cs)
  preferred_sorted cs =
      sort_by-IsSortedBy is_preferred HasScopeBy is_preferred-HasScopeBy
        is_preferred-HasScopeBy_back (λ a b c h k. omega (arith, h, k)) cs

  IsOther-sym : (a b : ContextCandidate Y) → IsOther a b → IsOther b a
  IsOther-sym a b h = ground (
    arith,
    eq_iff a.entry.id b.entry.id,
    eq_iff b.entry.id a.entry.id,
    eq_iff (content_of rules a) (content_of rules b),
    eq_iff (content_of rules b) (content_of rules a),
  )

  insert_by-IsOther :
      (before : ContextCandidate Y → ContextCandidate Y → Bool) (c : ContextCandidate Y)
      (cs : List (ContextCandidate Y))
      → All (IsOther c) cs
      → IsSortedBy IsOther cs
      → IsSortedBy IsOther (insert_by before c cs)
  unfolding insert_by
  insert_by-IsOther before c [] hc h = (tt, tt)
  insert_by-IsOther before c (d ∷ ds) (cd, hc) (hd, h) = elim (Bool-cases (before c d)) [
    | inl first ↦ rw first ((cd, hc), (hd, h))
    | inr later ↦ rw later (
      All-insert_by before (IsOther d) c ds (IsOther-sym c d cd) hd,
      insert_by-IsOther before c ds hc h,
    )
  ]

  sort_by-IsOther :
      (before : ContextCandidate Y → ContextCandidate Y → Bool) (cs : List (ContextCandidate Y))
      → IsSortedBy IsOther cs
      → IsSortedBy IsOther (sort_by before cs)
  unfolding sort_by
  sort_by-IsOther before [] h = tt
  sort_by-IsOther before (c ∷ cs) (hc, h) =
      insert_by-IsOther before c (sort_by before cs) (All-sort_by before (IsOther c) cs hc)
        (sort_by-IsOther before cs h)

  -- No two of the chosen have the same id or the same title and content.
  pub select-IsOther : (cs : List (ContextCandidate Y)) → IsSortedBy IsOther (select rules cs)
  unfolding select
  select-IsOther cs =
      sort_by-IsOther is_ranked (canonical rules [] [] (sort_by is_preferred cs))
        (canonical-IsSortedBy [] [] (sort_by is_preferred cs))

  -- Of the candidates with one id, none of a scope that comes after that of another is chosen: the
  -- project's copy goes before the shared one, and that before the global one.
  pub select-IsFirst :
      (cs : List (ContextCandidate Y)) → All (λ s. All (IsFirst s) cs) (select rules cs)
  unfolding select
  select-IsFirst cs =
      let sorted = sort_by is_preferred cs in
      All-map (select rules cs) (λ s h. sort_by-All is_preferred (IsFirst s) cs h)
        (All-sort_by is_ranked (IsFirstOf sorted) (canonical rules [] [] sorted)
          (canonical-IsFirst [] [] sorted (preferred_sorted cs)))

  -- The chosen are in the order of their scores, the highest first.
  pub select-IsRanked : (cs : List (ContextCandidate Y)) → IsSortedBy HasScoreBy (select rules cs)
  unfolding select
  select-IsRanked cs =
      sort_by-IsSortedBy is_ranked HasScoreBy is_ranked-HasScoreBy is_ranked-HasScoreBy_back
        (λ a b c h k. omega (arith, h, k)) (canonical rules [] [] (sort_by is_preferred cs))

  -- What holds of every candidate holds of the chosen.
  pub select-All :
      (P : ContextCandidate Y → Type 0) (cs : List (ContextCandidate Y))
      → All P cs
      → All P (select rules cs)
  unfolding select
  select-All P cs h =
      All-sort_by is_ranked P (canonical rules [] [] (sort_by is_preferred cs))
        (canonical-All P [] [] (sort_by is_preferred cs) (All-sort_by is_preferred P cs h))
