-- ===== src/Skills/Records.antt =====
-- The records of skill discovery and the similarity of workflows,
-- pk-learning-worker/src/skill_candidates.rs.
use prometheus_knowledge_rs.Prelude.{
  ℕ, Bool, not, ◌&&◌, ◌||◌, Option, none, some, List, [], ◌∷◌, ◌++◌, map, String, str_eq, ltb, leb,
  ◌==◌, if◌then◌else◌, bind, length, take, any, is_empty, Chars, codes, trim,
}
use prometheus_knowledge_rs.Texts.{split_words, join}
use prometheus_knowledge_rs.Transcript.{SkillUse, TranscriptDigest, prompt}
use prometheus_knowledge_rs.Promotion.{Similarity, jaccard}

pub record SessionObservation : Type 0 where
  pub project_id : String
  pub project_root : String
  pub session_id : String
  pub team_id : Option Chars
  pub role_id : Option Chars
  pub digest : TranscriptDigest

pub record WorkflowRecord : Type 0 where
  pub schema_version : ℕ
  pub workflow_id : String
  pub project_id : String
  pub project_root : String
  pub session_id : String
  pub recorded_at : String
  pub team_id : Option Chars
  pub role_id : Option Chars
  pub summary : Chars
  pub artifacts : List Chars
  pub skill_uses : List SkillUse
  pub prompt_shingles : List ℕ
  pub tool_shingles : List ℕ

-- The two similarities whose mean is taken.
pub record Blend : Type 0 where
  pub prompts : Similarity
  pub tools : Similarity

abbrev pub exactly : Blend
exactly = record {
  prompts = record { shared = 1; union = 1 };
  tools = record { shared = 1; union = 1 };
}

pub record WorkflowEvidence : Type 0 where
  pub workflow_id : String
  pub project_id : String
  pub project_root : String
  pub session_id : String
  pub recorded_at : String
  pub similarity : Blend
  pub skills : List Chars
  pub artifacts : List Chars
  pub team_id : Option Chars
  pub role_id : Option Chars
  pub corrections : List Chars

-- `candidateType`, with the fields that only it has.
pub data Target : Type 0 where
  new_skill :
      (summary : Chars) (session_count project_count : ℕ) (invoked_skills : List Chars) → Target
  skill_update : (skill_name : Chars) (team_id role_id : Option Chars) (title : Chars) → Target

pub record SkillCandidate : Type 0 where
  pub id : String
  pub target : Target
  pub reasons : List String
  pub evidence : List WorkflowEvidence
  pub created_at : String
  pub updated_at : String

pub record SkillRules : Type 0 where
  pub is_alphanumeric : ℕ → Bool
  pub to_lowercase : Chars → Chars
  pub to_decimal : ℕ → Chars
  -- The first eight bytes of a SHA-256, and the identifiers that are cut from one.
  pub shingle_hash : Chars → ℕ
  pub workflow_id : String → String → String
  pub new_id : String → String
  pub update_id : Chars → String
  -- 0.5 * prompts + 0.5 * tools >= 0.5, as f64 computes it
  pub reaches_half : Blend → Bool

abbrev pub fingerprintable : WorkflowRecord → Bool
fingerprintable r = not (is_empty r.prompt_shingles) && not (is_empty r.tool_shingles)

unfoldable pub workflow_similarity : WorkflowRecord → WorkflowRecord → Blend
workflow_similarity left right = record {
  prompts = jaccard left.prompt_shingles right.prompt_shingles;
  tools = jaccard left.tool_shingles right.tool_shingles;
}

abbrev pub present : Option Chars → Option Chars
present value = bind value (λ (v : Chars). if is_empty (trim v) then none else some (trim v))

unfoldable pub observation_for :
    String → String → String → Option Chars → Option Chars → TranscriptDigest → SessionObservation
unfolding trim
observation_for project_id project_root session_id team_id role_id digest = record {
  project_id = project_id;
  project_root = project_root;
  session_id = session_id;
  team_id = present team_id;
  role_id = present role_id;
  digest = digest;
}

-- `lines().next()`, up to a carriage return, which the trimming takes.
abbrev pub first_line_from : Chars → Chars → Chars
first_line_from part [] = part
first_line_from part (c ∷ s) = if c == 10 then part else first_line_from (part ++ (c ∷ [])) s

unfoldable pub summary_for : Chars → Chars
unfolding trim
summary_for prompt =
    let line = trim (first_line_from [] prompt) in
    let cut = if ltb 160 (length line) then take 160 line ++ (0x2026 ∷ []) else take 160 line in
    if is_empty cut then codes "Repeated workflow" else cut

-- `sort_unstable` and `dedup`.
abbrev pub insert_hash : ℕ → List ℕ → List ℕ
insert_hash h [] = h ∷ []
insert_hash h (k ∷ ks) =
    let rest = insert_hash h ks in
    if h == k then k ∷ ks else if ltb h k then h ∷ k ∷ ks else k ∷ rest

abbrev pub windows : List Chars → List (List Chars)
windows (a ∷ b ∷ c ∷ rest) = (a ∷ b ∷ c ∷ []) ∷ windows (b ∷ c ∷ rest)
windows _ = []

module _ (rules : SkillRules) where
  unfoldable pub tokens : Chars → List Chars
  unfolding split_words
  tokens text = map rules.to_lowercase (split_words (λ c. not (rules.is_alphanumeric c)) text)

  abbrev pub hashes_of : List (List Chars) → List ℕ
  hashes_of [] = []
  hashes_of (w ∷ ws) = insert_hash (rules.shingle_hash (join (codes " ") w)) (hashes_of ws)

  unfoldable pub shingles : List Chars → List ℕ
  unfolding join
  shingles words = hashes_of (windows words)

  abbrev pub first_prompt : List Chars → Chars
  first_prompt [] = []
  first_prompt (p ∷ ps) = p

  unfoldable pub workflow_of : String → SessionObservation → WorkflowRecord
  unfolding summary_for shingles tokens join
  workflow_of now session =
      let digest = session.digest in
      record {
        schema_version = 1;
        workflow_id = rules.workflow_id session.project_id session.session_id;
        project_id = session.project_id;
        project_root = session.project_root;
        session_id = session.session_id;
        recorded_at = now;
        team_id = session.team_id;
        role_id = session.role_id;
        summary = summary_for (first_prompt digest.prompts);
        artifacts = take 10 digest.artifacts;
        skill_uses = digest.skill_uses;
        prompt_shingles = shingles (tokens (join (codes " ") (take 5 digest.prompts)));
        tool_shingles =
            if leb 3 (length digest.tool_sequence) then shingles digest.tool_sequence else [];
      }

  abbrev pub is_silent : SessionObservation → Bool
  is_silent session = is_empty session.digest.prompts && is_empty session.digest.skill_uses

  abbrev pub knows_workflow : String → List WorkflowRecord → Bool
  knows_workflow id records = any (λ (r : WorkflowRecord). str_eq r.workflow_id id) records

  -- The records of the sessions that are new, behind those that are there.
  unfoldable pub append_new :
      String → List SessionObservation → List WorkflowRecord → List WorkflowRecord
  unfolding workflow_of
  append_new now [] records = records
  append_new now (session ∷ sessions) records =
      let r = workflow_of now session in
      let seen = append_new now sessions records in
      let grown = append_new now sessions (records ++ (r ∷ [])) in
      if is_silent session || knows_workflow r.workflow_id records then seen else grown
