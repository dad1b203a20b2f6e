-- ===== src/Skills/Shelf.antt =====
-- The directories of skill candidates: `write_candidate`, `evidence_ids` and `propose`,
-- pk-learning-worker/src/skill_candidates.rs.
use prometheus_knowledge_rs.Prelude.{
  ℕ, ◌+◌, Bool, true, false, ◌||◌, Option, none, some, List, [], ◌∷◌, ◌++◌, map, String, str_eq,
  if◌then◌else◌, is_some, Chars, str_leb, find, insert,
}
use prometheus_knowledge_rs.Writes.{Ending, lands, lost, unflushed}
use prometheus_knowledge_rs.Promotion.{same_set}
use prometheus_knowledge_rs.Skills.Records.{
  WorkflowRecord, WorkflowEvidence, Target, SkillCandidate, SkillRules, new_skill, skill_update,
}
use prometheus_knowledge_rs.Skills.Log.{UpdateLog, log_update_proposal}
use prometheus_knowledge_rs.Skills.Groups.{update_candidates, role_label}
use prometheus_knowledge_rs.Skills.{new_skill_candidates, count_texts}

-- The files by candidate id, by state; `none` is a text that does not parse.
pub record SkillShelf : Type 0 where
  pub pending : List (String × Option SkillCandidate)
  pub accepted : List (String × Option SkillCandidate)
  pub rejected : List (String × Option SkillCandidate)

abbrev pub evidence_ids : SkillCandidate → List String
evidence_ids c = map (λ (e : WorkflowEvidence). e.workflow_id) c.evidence

-- `atomic_json`, and whether a file was written; `none` is an error.
abbrev pub put_pending : Ending → SkillCandidate → SkillShelf → Option Bool × SkillShelf
put_pending lands c shelf =
    (some true, record shelf { pending = insert c.id (some c) shelf.pending })
put_pending lost c shelf = (none, shelf)
put_pending unflushed c shelf =
    (none, record shelf { pending = insert c.id (some c) shelf.pending })

abbrev pub over_pending :
    Ending → Option (Option SkillCandidate) → SkillCandidate → SkillShelf → Option Bool × SkillShelf
over_pending write none c shelf = put_pending write c shelf
over_pending write (some none) c shelf = (none, shelf)
over_pending write (some (some old)) c shelf =
    if same_set (evidence_ids old) (evidence_ids c)
    then (some false, shelf)
    else put_pending write (record c { created_at = old.created_at }) shelf

unfoldable pub write_candidate : Ending → SkillCandidate → SkillShelf → Option Bool × SkillShelf
write_candidate write c shelf =
    if is_some (find c.id shelf.accepted) || is_some (find c.id shelf.rejected)
    then (some false, shelf)
    else over_pending write (find c.id shelf.pending) c shelf

-- The candidates' directory, the log, and how many candidates were written.
pub record Proposed : Type 0 where
  pub shelf : SkillShelf
  pub log : UpdateLog
  pub written : ℕ

abbrev pub is_earlier : WorkflowRecord → WorkflowRecord → Bool
is_earlier a b =
    if str_eq a.recorded_at b.recorded_at
    then str_leb a.workflow_id b.workflow_id
    else str_leb a.recorded_at b.recorded_at

abbrev pub insert_workflow : WorkflowRecord → List WorkflowRecord → List WorkflowRecord
insert_workflow r [] = r ∷ []
insert_workflow r (s ∷ rest) =
    let after = insert_workflow r rest in if is_earlier r s then r ∷ s ∷ rest else s ∷ after

unfoldable pub order_workflows : List WorkflowRecord → List WorkflowRecord
order_workflows [] = []
order_workflows (r ∷ rs) = insert_workflow r (order_workflows rs)

module _ (rules : SkillRules) (today : Chars) where
  abbrev pub log_target : SkillCandidate → Target → UpdateLog → UpdateLog
  log_target c (new_skill summary sessions projects invoked) log = log
  log_target c (skill_update skill team role title) log =
      log_update_proposal today skill (rules.to_decimal (count_texts (evidence_ids c)))
        (role_label team role) log

  -- A run ends at an error, and what it wrote stays.
  abbrev pub resume :
      (Proposed → Bool × Proposed)
      → SkillCandidate
      → Option Bool × SkillShelf
      → Proposed
      → Bool × Proposed
  resume rest c (none, shelf) p = (false, record p { shelf = shelf })
  resume rest c (some false, shelf) p = rest (record p { shelf = shelf })
  resume rest c (some true, shelf) p =
      rest (record { shelf = shelf; log = log_target c c.target p.log; written = p.written + 1 })

  -- `writes` says how each write ends, by how many candidates were written before.
  unfoldable pub write_all : (ℕ → Ending) → List SkillCandidate → Proposed → Bool × Proposed
  unfolding write_candidate log_update_proposal
  write_all writes [] p = (true, p)
  write_all writes (c ∷ cs) p =
      resume (write_all writes cs) c (write_candidate (writes p.written) c p.shelf) p

  unfoldable pub propose :
      (ℕ → Ending) → String → List WorkflowRecord → SkillShelf → UpdateLog → Bool × Proposed
  unfolding order_workflows write_all new_skill_candidates update_candidates
  propose writes now records shelf log =
      let ordered = order_workflows records in
      write_all writes
        (new_skill_candidates rules now ordered ++ update_candidates rules now ordered)
        (record { shelf = shelf; log = log; written = 0 })
