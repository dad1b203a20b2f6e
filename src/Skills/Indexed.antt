-- ===== src/Skills/Indexed.antt =====
-- The index of workflows: appending sessions.
use mathlib.Core.List.{append-nil, append_assoc}
use prometheus_knowledge_rs.Prelude.{
  ◌≡◌, refl, inl, inr, false, ◌||◌, List, [], ◌∷◌, ◌++◌, arith, String, str_eq, eq_iff, Bool-cases,
  any, sym, ◌∙◌, true, All,
}
use prometheus_knowledge_rs.Skills.Records.{
  WorkflowRecord, SessionObservation, SkillRules, workflow_of, is_silent, knows_workflow,
  append_new,
}

-- No workflow is recorded twice.
abbrev pub IsDistinct : List WorkflowRecord → Type 0
IsDistinct [] = Unit
IsDistinct (r ∷ rs) =
    (any (λ (s : WorkflowRecord). str_eq s.workflow_id r.workflow_id) rs ≡ false) × IsDistinct rs

knows-append :
    (id : String) (rs : List WorkflowRecord) (r : WorkflowRecord)
    → any (λ (s : WorkflowRecord). str_eq s.workflow_id id) (rs ++ (r ∷ []))
      ≡ (any (λ (s : WorkflowRecord). str_eq s.workflow_id id) rs || str_eq r.workflow_id id)
knows-append id [] r = ground arith
knows-append id (s ∷ rs) r = ground (arith, knows-append id rs r)

IsDistinct-append :
    (rs : List WorkflowRecord) (r : WorkflowRecord)
    → any (λ (s : WorkflowRecord). str_eq s.workflow_id r.workflow_id) rs ≡ false
    → IsDistinct rs
    → IsDistinct (rs ++ (r ∷ []))
IsDistinct-append [] r new h = (refl, tt)
IsDistinct-append (s ∷ rs) r new (first, h) = (
  ground (
    arith,
    knows-append s.workflow_id rs r,
    eq_iff r.workflow_id s.workflow_id,
    eq_iff s.workflow_id r.workflow_id,
  ),
  IsDistinct-append rs r (ground arith) h,
)

module _ (rules : SkillRules) where
  -- Appending keeps what is there in front, and records no workflow twice.
  pub append_new-IsDistinct :
      (now : String) (sessions : List SessionObservation) (records : List WorkflowRecord)
      → IsDistinct records
      → (fresh : List WorkflowRecord) × (append_new rules now sessions records ≡ records ++ fresh)
        × IsDistinct (records ++ fresh)
  unfolding append_new
  append_new-IsDistinct now [] records h = ([], sym (append-nil records), rw append-nil h)
  append_new-IsDistinct now (session ∷ sessions) records h =
      let r = workflow_of rules now session in
      elim (Bool-cases (is_silent rules session || knows_workflow rules r.workflow_id records)) [
        | inl seen ↦ rw seen (append_new-IsDistinct now sessions records h)
        | inr new ↦ rw new (
            let grown = IsDistinct-append records r (ground arith) h in
            let (fresh, same, distinct) =
              append_new-IsDistinct now sessions (records ++ (r ∷ [])) grown in
            (
              r ∷ fresh,
              same ∙ append_assoc records (r ∷ []) fresh,
              rw (← append_assoc records (r ∷ []) fresh) distinct,
            ))
      ]

  abbrev pub IsRecorded : List WorkflowRecord → SessionObservation → Type 0
  IsRecorded records s =
      (is_silent rules s
        || knows_workflow rules (rules.workflow_id s.project_id s.session_id) records)
      ≡ true

  knows-append_new :
      (now : String) (sessions : List SessionObservation) (records : List WorkflowRecord)
      (id : String)
      → knows_workflow rules id records ≡ true
      → knows_workflow rules id (append_new rules now sessions records) ≡ true
  unfolding append_new
  knows-append_new now [] records id h = h
  knows-append_new now (session ∷ sessions) records id h =
      let r = workflow_of rules now session in
      elim (Bool-cases (is_silent rules session || knows_workflow rules r.workflow_id records)) [
        | inl seen ↦ rw seen (knows-append_new now sessions records id h)
        | inr new ↦ rw new (
            knows-append_new now sessions (records ++ (r ∷ [])) id
              (ground (arith, knows-append id records r)))
      ]

  append_new-IsRecorded :
      (now : String) (sessions : List SessionObservation) (records grown : List WorkflowRecord)
      → append_new rules now sessions records ≡ grown
      → All (IsRecorded grown) sessions
  unfolding append_new
  append_new-IsRecorded now [] records grown e = tt
  append_new-IsRecorded now (session ∷ sessions) records grown e =
      let r = workflow_of rules now session in
      elim (Bool-cases (is_silent rules session || knows_workflow rules r.workflow_id records)) [
        | inl seen ↦
            let rest : append_new rules now sessions records ≡ grown = rw seen at e in
            (
              ground (arith, knows-append_new now sessions records r.workflow_id),
              append_new-IsRecorded now sessions records grown rest,
            )
        | inr new ↦
            let rest : append_new rules now sessions (records ++ (r ∷ [])) ≡ grown = rw new at e in
            (
              ground (
                arith,
                knows-append_new now sessions (records ++ (r ∷ [])) r.workflow_id,
                knows-append r.workflow_id records r,
                eq_iff r.workflow_id r.workflow_id,
              ),
              append_new-IsRecorded now sessions (records ++ (r ∷ [])) grown rest,
            )
      ]

  append_new_known :
      (now : String) (sessions : List SessionObservation) (records : List WorkflowRecord)
      → All (IsRecorded records) sessions
      → append_new rules now sessions records ≡ records
  unfolding append_new
  append_new_known now [] records h = refl
  append_new_known now (session ∷ sessions) records (seen, h) =
      rw seen (append_new_known now sessions records h)

  -- Appending the same sessions again, at any later time, adds nothing.
  pub append_new_idem :
      (now later : String) (sessions : List SessionObservation) (records : List WorkflowRecord)
      → append_new rules later sessions (append_new rules now sessions records)
        ≡ append_new rules now sessions records
  append_new_idem now later sessions records =
      append_new_known later sessions (append_new rules now sessions records)
        (append_new-IsRecorded now sessions records (append_new rules now sessions records) refl)
