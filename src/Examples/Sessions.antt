-- ===== src/Examples/Sessions.antt =====
-- The theorems on transcripts and on skill discovery, at concrete inputs.
use prometheus_knowledge_rs.Prelude.{
  ◌+◌, ◌≡◌, refl, ◌↔◌, true, ◌&&◌, Option, none, some, [], ◌∷◌, String, str_eq, leb, if◌then◌else◌,
  is_some, length, is_empty, All, Chars, codes, find,
}
use prometheus_knowledge_rs.Transcript.{Json, SkillUse, TranscriptDigest, parse_reader}
use prometheus_knowledge_rs.Transcript.Caps.{IsBounded}
use prometheus_knowledge_rs.Transcript.Reads.{parse_reader-IsBounded}
use prometheus_knowledge_rs.Writes.{lost}
use prometheus_knowledge_rs.Skills.Records.{WorkflowRecord, SessionObservation, exactly, SkillRules}
use prometheus_knowledge_rs.Skills.Shelf.{SkillShelf, propose}
use prometheus_knowledge_rs.Skills.Log.{UpdateLog}
use prometheus_knowledge_rs.Skills.Groups.{groups_of}
use prometheus_knowledge_rs.Skills.Covered.{
  IsRecurring, IsUncovered, new_skill_candidate-IsUncovered,
}
use prometheus_knowledge_rs.Skills.Written.{IsKept, propose-IsKept}
use prometheus_knowledge_rs.Skills.Supported.{IsSupported, groups_of-IsSupported}
use prometheus_knowledge_rs.Skills.{Workflow, new_skill_candidate}

-- A line is a user's prompt, a call of a skill, or neither.
data Sample : Type 0 where
  message : Sample → Sample
  role_user : Sample
  words : Chars → Sample
  nothing : Sample

abbrev sample_get : String → Sample → Option Sample
sample_get key (message content) =
    if str_eq key "content"
    then some content
    else if str_eq key "role"
    then some role_user
    else none
sample_get key v = none

abbrev sample_str : Sample → Option Chars
sample_str role_user = some (codes "user")
sample_str (words s) = some s
sample_str v = none

abbrev sample_json : Json Sample
sample_json = record {
  parse = λ bytes. if is_empty bytes then none else some (message (words bytes));
  null = nothing;
  get = sample_get;
  pointer = λ path v. none;
  as_str = sample_str;
  as_bool = λ v. none;
  as_array = λ v. none;
}

parse_reader-IsBounded_example :
    (d : TranscriptDigest) × (parse_reader sample_json
        (λ t. t)
        100
        true
        (codes "plan the release\nno, stop\nthe tests are")
      ≡ some d)
    × IsBounded d
parse_reader-IsBounded_example =
    parse_reader-IsBounded sample_json (λ t. t) 100 true
      (codes "plan the release\nno, stop\nthe tests are")

abbrev sample_rules : SkillRules
sample_rules = record {
  is_alphanumeric = λ c. leb b'a' c && leb c b'z';
  to_lowercase = λ t. t;
  to_decimal = λ n. (48 + n) ∷ [];
  shingle_hash = length;
  workflow_id = λ project session. session;
  new_id = λ id. id;
  update_id = λ key. "skill-upd-1";
  reaches_half = λ s. leb s.prompts.union (s.prompts.shared + s.tools.shared);
}

abbrev corrected_use : SkillUse
corrected_use = record {
  skill = codes "plan";
  corrections = codes "no, smaller" ∷ codes "wrong order" ∷ [];
}

abbrev session : String → String → WorkflowRecord
session id project_id = record {
  schema_version = 1;
  workflow_id = id;
  project_id = project_id;
  project_root = "/src";
  session_id = id;
  recorded_at = "2026-01-01";
  team_id = none;
  role_id = none;
  summary = codes "Release";
  artifacts = [];
  skill_uses = [];
  prompt_shingles = 1 ∷ 2 ∷ [];
  tool_shingles = 3 ∷ [];
}

abbrev sample_workflow : Workflow
sample_workflow = record { anchor = session "s1" "a"; joined = (session "s2" "b", exactly) ∷ [] }

new_skill_candidate-IsUncovered_example :
    (is_some (new_skill_candidate sample_rules "now" sample_workflow) ≡ true)
    ↔ (IsRecurring sample_workflow × IsUncovered sample_workflow)
new_skill_candidate-IsUncovered_example =
    new_skill_candidate-IsUncovered sample_rules "now" sample_workflow

abbrev decided_shelf : SkillShelf
decided_shelf = record { pending = []; accepted = []; rejected = ("s1", none) ∷ [] }

abbrev empty_log : UpdateLog
empty_log = record { pending_log = []; diffs = [] }

propose-IsKept_example :
    IsKept "s1" decided_shelf
      (propose sample_rules
        (codes "2026-01-02")
        (λ n. lost)
        "now"
        (session "s1" "a" ∷ session "s2" "b" ∷ [])
        decided_shelf
        empty_log).1.shelf
unfolding find
propose-IsKept_example =
    propose-IsKept sample_rules (codes "2026-01-02") (λ n. lost) "now"
      (session "s1" "a" ∷ session "s2" "b" ∷ []) decided_shelf empty_log "s1" refl

abbrev observed : SessionObservation
observed = record {
  project_id = "a";
  project_root = "/src";
  session_id = "s1";
  team_id = none;
  role_id = none;
  digest = record {
    prompts = codes "plan the release" ∷ [];
    artifacts = [];
    commands = [];
    tool_sequence = [];
    skill_uses = [];
  };
}

groups_of-IsSupported_example :
    All IsSupported
      (groups_of (record (session "s1" "a") { skill_uses = corrected_use ∷ [] } ∷ []) [])
groups_of-IsSupported_example =
    groups_of-IsSupported (record (session "s1" "a") { skill_uses = corrected_use ∷ [] } ∷ []) [] tt
