-- ===== src/Skills/Groups.antt =====
-- Skills that users corrected: `update_candidates` and `role_label`,
-- pk-learning-worker/src/skill_candidates.rs.
use prometheus_knowledge_rs.Prelude.{
  ℕ, ◌+◌, Bool, true, false, not, ◌&&◌, Option, none, some, List, [], ◌∷◌, ◌++◌, map, String, leb,
  if◌then◌else◌, unwrap_or, length, Chars, codes,
}
use prometheus_knowledge_rs.Transcript.{SkillUse}
use prometheus_knowledge_rs.Texts.Ordered.{entry, text_eq, text_leb}
use prometheus_knowledge_rs.Skills.Records.{
  WorkflowRecord, exactly, SkillCandidate, SkillRules, skill_update,
}
use prometheus_knowledge_rs.Skills.{evidence_for, skills_of}

pub record GroupKey : Type 0 where
  pub skill : Chars
  pub team_id : Option Chars
  pub role_id : Option Chars

-- The sessions of a key, each with its corrections.
pub record Group : Type 0 where
  pub key : GroupKey
  pub sessions : List (WorkflowRecord × List Chars)

abbrev pub option_eq : Option Chars → Option Chars → Bool
option_eq none none = true
option_eq (some a) (some b) = text_eq a b
option_eq _ _ = false

abbrev pub option_leb : Option Chars → Option Chars → Bool
option_leb none b = true
option_leb (some a) none = false
option_leb (some a) (some b) = text_leb a b

abbrev pub key_eq : GroupKey → GroupKey → Bool
key_eq a b =
    text_eq a.skill b.skill && option_eq a.team_id b.team_id && option_eq a.role_id b.role_id

abbrev pub key_leb : GroupKey → GroupKey → Bool
key_leb a b =
    if not (text_eq a.skill b.skill)
    then text_leb a.skill b.skill
    else if not (option_eq a.team_id b.team_id)
    then option_leb a.team_id b.team_id
    else option_leb a.role_id b.role_id

-- `per_skill.entry(skill).or_default().extend(corrections)`
unfoldable pub per_skill : List SkillUse → List (Chars × List Chars) → List (Chars × List Chars)
unfolding entry
per_skill [] m = m
per_skill (u ∷ us) m = per_skill us (entry (λ cs. cs ++ u.corrections) u.corrections u.skill m)

-- `groups.entry(key).or_default().push(session)`
unfoldable pub add_session : GroupKey → WorkflowRecord × List Chars → List Group → List Group
add_session key session [] = record { key = key; sessions = session ∷ [] } ∷ []
add_session key session (g ∷ gs) =
    let rest = add_session key session gs in
    if key_eq key g.key
    then record g { sessions = g.sessions ++ (session ∷ []) } ∷ gs
    else if key_leb key g.key
    then record { key = key; sessions = session ∷ [] } ∷ g ∷ gs
    else g ∷ rest

abbrev pub key_of : Chars → WorkflowRecord → GroupKey
key_of skill r = record { skill = skill; team_id = r.team_id; role_id = r.role_id }

-- Two corrections in one session make a skill's session count.
unfoldable pub add_skills : WorkflowRecord → List (Chars × List Chars) → List Group → List Group
unfolding add_session
add_skills r [] gs = gs
add_skills r ((skill, corrections) ∷ m) gs =
    add_skills r m
      (if leb 2 (length corrections) then add_session (key_of skill r) (r, corrections) gs else gs)

unfoldable pub groups_of : List WorkflowRecord → List Group → List Group
unfolding add_skills per_skill
groups_of [] gs = gs
groups_of (r ∷ rs) gs = groups_of rs (add_skills r (per_skill r.skill_uses []) gs)

abbrev pub role_label : Option Chars → Option Chars → Option Chars
role_label (some team) (some role) = some (team ++ (b'/' ∷ role))
role_label none (some role) = some role
role_label (some team) none = some team
role_label none none = none

unfoldable pub total_corrections : List (WorkflowRecord × List Chars) → ℕ
total_corrections [] = 0
total_corrections ((r, cs) ∷ sessions) = length cs + total_corrections sessions

module _ (rules : SkillRules) where
  abbrev pub update_title : GroupKey → ℕ → Chars
  update_title key total =
      codes "Update "
      ++ (key.skill
          ++ (codes ": "
              ++ (rules.to_decimal total
                  ++ (codes " correction(s) after use by "
                      ++ unwrap_or (codes "an unattributed agent")
                          (role_label key.team_id key.role_id)))))

  unfoldable pub update_of : String → Group → SkillCandidate
  unfolding skills_of total_corrections
  update_of now g = record {
    id =
        rules.update_id
          (g.key.skill ++ (0 ∷ (unwrap_or [] g.key.team_id ++ (0 ∷ unwrap_or [] g.key.role_id))));
    target =
        skill_update g.key.skill g.key.team_id g.key.role_id
          (update_title g.key (total_corrections g.sessions));
    reasons = "post-skill-corrections" ∷ [];
    evidence =
        map (λ (s : WorkflowRecord × List Chars). evidence_for rules s.0 exactly s.1) g.sessions;
    created_at = now;
    updated_at = now;
  }

  unfoldable pub update_candidates : String → List WorkflowRecord → List SkillCandidate
  unfolding groups_of update_of
  update_candidates now ordered = map (update_of now) (groups_of ordered [])
