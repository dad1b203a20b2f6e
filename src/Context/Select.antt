-- ===== src/Context/Select.antt =====
-- The candidates that `run_context` shows: canonical copies, then the ranking.
use prometheus_knowledge_rs.Prelude.{
  Bool, true, false, List, [], ◌∷◌, String, str_eq, ltb, if◌then◌else◌, any, str_leb,
}
use prometheus_knowledge_rs.Context.{ContextCandidate, priority, TextRules}

-- The two orders of candidates.
module _ {Y : Type 0} where
  abbrev pub by_id : ContextCandidate Y → ContextCandidate Y → Bool
  by_id a b = str_leb a.entry.id b.entry.id

  unfoldable pub is_preferred : ContextCandidate Y → ContextCandidate Y → Bool
  is_preferred a b =
      if ltb (priority a.scope) (priority b.scope)
      then true
      else if ltb (priority b.scope) (priority a.scope)
      then false
      else if ltb b.score a.score
      then true
      else if ltb a.score b.score
      then false
      else by_id a b

  unfoldable pub is_ranked : ContextCandidate Y → ContextCandidate Y → Bool
  is_ranked a b =
      if ltb b.score a.score
      then true
      else if ltb a.score b.score
      then false
      else if ltb (priority a.scope) (priority b.scope)
      then true
      else if ltb (priority b.scope) (priority a.scope)
      then false
      else by_id a b

  -- `sort_by`, which is stable, for a test of "at or before".
  unfoldable pub insert_by :
      (ContextCandidate Y → ContextCandidate Y → Bool)
      → ContextCandidate Y
      → List (ContextCandidate Y)
      → List (ContextCandidate Y)
  insert_by before c [] = c ∷ []
  insert_by before c (d ∷ ds) =
      let rest = insert_by before c ds in if before c d then c ∷ d ∷ ds else d ∷ rest

  unfoldable pub sort_by :
      (ContextCandidate Y → ContextCandidate Y → Bool)
      → List (ContextCandidate Y)
      → List (ContextCandidate Y)
  unfolding insert_by
  sort_by before [] = []
  sort_by before (c ∷ cs) = insert_by before c (sort_by before cs)

  abbrev pub content_of : TextRules → ContextCandidate Y → String
  content_of rules c = rules.content_hash c.entry.title c.entry.content

  -- The loop that drops duplicates; a content is looked at only under an id that is new.
  unfoldable pub canonical :
      TextRules → List String → List String → List (ContextCandidate Y) → List (ContextCandidate Y)
  canonical rules seen_ids seen_content [] = []
  canonical rules seen_ids seen_content (c ∷ cs) =
      let hash = content_of rules c in
      let known_id = canonical rules seen_ids seen_content cs in
      let known_content = canonical rules (c.entry.id ∷ seen_ids) seen_content cs in
      let fresh = canonical rules (c.entry.id ∷ seen_ids) (hash ∷ seen_content) cs in
      if any (str_eq c.entry.id) seen_ids
      then known_id
      else if any (str_eq hash) seen_content
      then known_content
      else c ∷ fresh

  unfoldable pub select : TextRules → List (ContextCandidate Y) → List (ContextCandidate Y)
  unfolding sort_by canonical is_preferred is_ranked
  select rules candidates =
      sort_by is_ranked (canonical rules [] [] (sort_by is_preferred candidates))
