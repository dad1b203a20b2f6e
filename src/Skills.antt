-- ===== src/Skills.antt =====
-- Skill discovery: `observation_for`, `append_new`, `propose` and what they call,
-- pk-learning-worker/src/skill_candidates.rs.
--
-- Parameters, `SkillRules`: SHA-256, Unicode's letters and lower case, decimals, and the f64 comparison
-- of the blended similarity with 0.5. The index `workflows.jsonl` is the list of its records, the
-- candidates' directories are maps by id with a text that may not parse.
pub mod Records
pub mod Groups
pub mod Log
pub mod Shelf
pub mod Covered
pub mod Written
pub mod Indexed
pub mod Supported
pub mod Corrections
unfoldable pub use Records.*
use prometheus_knowledge_rs.Prelude.{
  ℕ, ◌+◌, ◌*◌, Bool, ◌||◌, Option, none, some, List, [], ◌∷◌, ◌++◌, map, String, str_eq, leb,
  if◌then◌else◌, length, keep, any, is_empty, filter_map, Chars,
}
use prometheus_knowledge_rs.Texts.Ordered.{entry}
use prometheus_knowledge_rs.Transcript.{SkillUse}

-- The first record of a cluster, and the others with their similarity to it.
pub record Workflow : Type 0 where
  pub anchor : WorkflowRecord
  pub joined : List (WorkflowRecord × Blend)

module _ (rules : SkillRules) where
  -- One turn of the loop: the first cluster whose anchor is similar takes the record.
  unfoldable pub place_workflow : WorkflowRecord → List Workflow → List Workflow
  place_workflow r [] = record { anchor = r; joined = [] } ∷ []
  place_workflow r (w ∷ ws) =
      let rest = place_workflow r ws in
      let similarity = workflow_similarity w.anchor r in
      if rules.reaches_half similarity
      then record w { joined = w.joined ++ ((r, similarity) ∷ []) } ∷ ws
      else w ∷ rest

  unfoldable pub cluster_workflows : List WorkflowRecord → List Workflow → List Workflow
  unfolding place_workflow
  cluster_workflows [] ws = ws
  cluster_workflows (r ∷ rs) ws = cluster_workflows rs (place_workflow r ws)

abbrev pub sessions_of : Workflow → List WorkflowRecord
sessions_of w = w.anchor ∷ map (λ (m : WorkflowRecord × Blend). m.0) w.joined

-- `BTreeSet` of the skills.
abbrev pub skill_set : List SkillUse → List (Chars × Unit {0})
skill_set [] = []
skill_set (u ∷ us) = entry (λ v. v) tt u.skill (skill_set us)

abbrev pub keys {ℓ} : {V : Type ℓ} → List (Chars × V) → List Chars
keys [] = []
keys ((t, v) ∷ m) = t ∷ keys m

unfoldable pub skills_of : List SkillUse → List Chars
unfolding entry
skills_of us = keys (skill_set us)

-- `*invoked.entry(skill).or_default() += 1`
unfoldable pub add_counts : List Chars → List (Chars × ℕ) → List (Chars × ℕ)
unfolding entry
add_counts [] m = m
add_counts (t ∷ ts) m = add_counts ts (entry (λ n. n + 1) 1 t m)

unfoldable pub invoked_from : List WorkflowRecord → List (Chars × ℕ) → List (Chars × ℕ)
unfolding add_counts skills_of
invoked_from [] m = m
invoked_from (r ∷ rs) m = invoked_from rs (add_counts (skills_of r.skill_uses) m)

abbrev pub count_texts : List String → ℕ
count_texts [] = 0
count_texts (t ∷ ts) = let rest = count_texts ts in if any (str_eq t) ts then rest else 1 + rest

abbrev pub recurrence_reasons : ℕ → ℕ → List String
recurrence_reasons sessions projects =
    let rest = if leb 2 projects then "projects>=2" ∷ [] else [] in
    if leb 3 sessions then "sessions>=3" ∷ rest else rest

abbrev pub is_covering : ℕ → Chars × ℕ → Bool
is_covering sessions (skill, count) = leb sessions (count * 2)

module _ (rules : SkillRules) where
  abbrev pub evidence_for : WorkflowRecord → Blend → List Chars → WorkflowEvidence
  evidence_for r similarity corrections = record {
    workflow_id = r.workflow_id;
    project_id = r.project_id;
    project_root = r.project_root;
    session_id = r.session_id;
    recorded_at = r.recorded_at;
    similarity = similarity;
    skills = skills_of r.skill_uses;
    artifacts = r.artifacts;
    team_id = r.team_id;
    role_id = r.role_id;
    corrections = corrections;
  }

  abbrev pub new_skill_of : String → List String → List (Chars × ℕ) → ℕ → Workflow → SkillCandidate
  new_skill_of now reasons invoked projects w = record {
    id = rules.new_id w.anchor.workflow_id;
    target = new_skill w.anchor.summary (length (sessions_of w)) projects (keys invoked);
    reasons = reasons ++ ("no-covering-skill" ∷ []);
    evidence =
        evidence_for w.anchor exactly []
        ∷ map (λ (m : WorkflowRecord × Blend). evidence_for m.0 m.1 []) w.joined;
    created_at = now;
    updated_at = now;
  }

  unfoldable pub new_skill_candidate : String → Workflow → Option SkillCandidate
  unfolding invoked_from skills_of
  new_skill_candidate now w =
      let sessions = length (sessions_of w) in
      let projects = count_texts (map (λ (r : WorkflowRecord). r.project_id) (sessions_of w)) in
      let invoked = invoked_from (sessions_of w) [] in
      if is_empty (recurrence_reasons sessions projects) || any (is_covering sessions) invoked
      then none
      else some (new_skill_of now (recurrence_reasons sessions projects) invoked projects w)

  unfoldable pub new_skill_candidates : String → List WorkflowRecord → List SkillCandidate
  unfolding cluster_workflows new_skill_candidate
  new_skill_candidates now ordered =
      filter_map (new_skill_candidate now)
        (cluster_workflows rules (keep fingerprintable ordered) [])
