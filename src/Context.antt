-- ===== src/Context.antt =====
-- `pk context`: `run_context`, `snapshot_score`, `context_snippet`, `rendered_context` and
-- `print_context_hook`, pk-cli/src/main.rs.
--
-- A score is an f32 that is a sum of whole numbers, exact below 2^24: it is a number here. Lower case,
-- the letters and digits of Unicode, SHA-256 over a title and a content, and decimals are parameters,
-- `TextRules`; where a scope's knowledge lies is a parameter of `run_context`.
pub mod Utf8
pub mod Select
pub mod Chosen
pub mod Canonical
pub mod Printed
pub mod Output
use prometheus_knowledge_rs.Prelude.{
  ℕ, ◌+◌, ◌*◌, Bool, not, ◌&&◌, Option, List, [], ◌∷◌, map, String, ltb, leb, ◌==◌, if◌then◌else◌,
  unwrap_or, keep, any, is_empty, Chars, codes, chars_eq, ◌||◌, none, some, ◌++◌, str_eq, length,
  all, trim, insert,
}
use prometheus_knowledge_rs.Texts.{split_words, count_matches, byte_length}
use prometheus_knowledge_rs.Snapshot.{
  SnapshotError, PromptSnapshot, SnapshotResult, Codec, SnapshotDir, read_prompt_snapshot, valid,
  invalid,
}
use prometheus_knowledge_rs.Wiki.{WikiEntry}

pub data ContextScope : Type 0 where
  project shared global : ContextScope

abbrev pub label : ContextScope → String
label project = "project"
label shared = "shared"
label global = "global"

abbrev pub priority : ContextScope → ℕ
priority project = 0
priority shared = 1
priority global = 2

pub record TextRules : Type 0 where
  pub is_alphanumeric : ℕ → Bool
  pub to_lowercase : Chars → Chars
  pub content_hash : String → String → String
  pub to_decimal : ℕ → Chars

pub record ContextCandidate (Y : Type 0) : Type 0 where
  pub scope : ContextScope
  pub entry : WikiEntry Y
  pub score : ℕ

pub record ContextFailure : Type 0 where
  pub scope : ContextScope
  -- none: no root of the project
  pub error : Option SnapshotError

pub record ContextItem : Type 0 where
  pub scope : ContextScope
  pub id : String
  pub title : String
  pub snippet : Chars
  pub score : ℕ

pub record ContextOutput : Type 0 where
  pub query : Chars
  pub snapshot_generations : List (String × String)
  pub scored_count : ℕ
  pub candidate_count : ℕ
  pub byte_count : ℕ
  pub failures : List ContextFailure
  pub results : List ContextItem

pub record ContextRequest : Type 0 where
  pub query : Chars
  pub scopes : List ContextScope
  pub limit : ℕ
  pub max_candidates : ℕ
  pub max_bytes : ℕ
  pub tags : List String

-- `clamp(low, high)`
abbrev pub clamp : ℕ → ℕ → ℕ → ℕ
clamp low high n = if ltb n low then low else if ltb high n then high else n

-- The scopes asked for, each once; all three if none is.
abbrev pub same_scope : ContextScope → ContextScope → Bool
same_scope s t = priority s == priority t

abbrev pub without_scope : ContextScope → List ContextScope → List ContextScope
without_scope s scopes = keep (λ (t : ContextScope). not (same_scope s t)) scopes

unfoldable pub distinct_scopes : List ContextScope → List ContextScope
distinct_scopes [] = []
distinct_scopes (s ∷ scopes) = s ∷ without_scope s (distinct_scopes scopes)

abbrev pub scopes_of : List ContextScope → List ContextScope
scopes_of [] = project ∷ shared ∷ global ∷ []
scopes_of (s ∷ scopes) = distinct_scopes (s ∷ scopes)

-- What the loop over the scopes collects.
pub record Gathered (Y : Type 0) : Type 0 where
  pub failures : List ContextFailure
  pub candidates : List (ContextCandidate Y)
  pub scored_count : ℕ
  pub generations : List (String × String)

abbrev pub distinct_texts : List Chars → List Chars
distinct_texts [] = []
distinct_texts (t ∷ ts) =
    let rest = distinct_texts ts in if any (chars_eq t) ts then rest else t ∷ rest

module _ (rules : TextRules) where
  abbrev pub is_separator : ℕ → Bool
  is_separator c = not (rules.is_alphanumeric c) && not (c == b'_') && not (c == b'-')

  unfoldable pub terms_of : Chars → List Chars
  terms_of query = distinct_texts (
      map rules.to_lowercase
        (keep (λ (t : Chars). leb 2 (byte_length t)) (split_words is_separator query)))

  abbrev pub term_score : Chars → Chars → Chars → Chars → ℕ
  term_score title description content term =
      count_matches term title * 4 + count_matches term description * 2 + count_matches term content

  abbrev pub sum_scores : Chars → Chars → Chars → List Chars → ℕ
  sum_scores title description content [] = 0
  sum_scores title description content (term ∷ terms) =
      term_score title description content term + sum_scores title description content terms

  abbrev pub snapshot_score : {Y : Type 0} → Chars → WikiEntry Y → ℕ
  snapshot_score query entry =
      let terms = terms_of query in
      if is_empty terms
      then 1
      else sum_scores (rules.to_lowercase (codes entry.title))
          (rules.to_lowercase (codes (unwrap_or "" entry.description)))
          (rules.to_lowercase (codes entry.content)) terms

  abbrev pub has_tags : {Y : Type 0} → List String → WikiEntry Y → Bool
  has_tags required entry =
      all (λ (t : String). any (λ (u : String). str_eq u t) entry.tags) required

  -- `query.trim().is_empty()`
  abbrev pub is_blank : Chars → Bool
  is_blank query = is_empty (trim query)

  unfoldable pub scored :
      {Y : Type 0} → Chars → ContextScope → List (WikiEntry Y) → List (ContextCandidate Y)
  unfolding trim
  scored query scope [] = []
  scored query scope (e ∷ es) =
      let score = snapshot_score query e in
      let rest = scored query scope es in
      if ltb 0 score || is_blank query
      then record { scope = scope; entry = e; score = score } ∷ rest
      else rest

module _ {Y F : Type 0} (codec : Codec Y F) (rules : TextRules) (request : ContextRequest) where
  abbrev pub failed : ContextScope → Option SnapshotError → Gathered Y → Gathered Y
  failed scope error g = record g {
    failures = g.failures ++ (record { scope = scope; error = error } ∷ []);
  }

  unfoldable pub add_snapshot : ContextScope → PromptSnapshot Y → Gathered Y → Gathered Y
  unfolding scored
  add_snapshot scope snapshot g =
      let entries = keep (has_tags rules request.tags) snapshot.entries in
      record g {
        candidates = g.candidates ++ scored rules request.query scope entries;
        scored_count = g.scored_count + length entries;
        generations = insert (label scope) snapshot.generation g.generations;
      }

  abbrev pub add_read : ContextScope → SnapshotResult (PromptSnapshot Y) → Gathered Y → Gathered Y
  add_read scope (valid snapshot) g = add_snapshot scope snapshot g
  add_read scope (invalid error) g = failed scope (some error) g

  abbrev pub add_root : ContextScope → Option (SnapshotDir F) → Gathered Y → Gathered Y
  add_root scope none g = failed scope none g
  add_root scope (some dir) g = add_read scope (read_prompt_snapshot codec (label scope) dir) g

  unfoldable pub gather :
      (ContextScope → Option (SnapshotDir F)) → List ContextScope → Gathered Y → Gathered Y
  unfolding add_snapshot
  gather roots [] g = g
  gather roots (scope ∷ scopes) g = gather roots scopes (add_root scope (roots scope) g)
