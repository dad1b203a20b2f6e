-- ===== src/Events/Log.antt =====
-- The shares of a migration plan.
use prometheus_knowledge_rs.Prelude.{
  ℕ, ◌≡◌, refl, ap, inl, inr, Bool, true, false, not, List, [], ◌∷◌, arith, String, str_eq, length,
  keep, any, Bool-cases, Chars, if◌then◌else◌,
}
use prometheus_knowledge_rs.Events.{
  EventRecord, LibrarianEvent, compiled, lint_completed, focused, updated, raw_doc_arrived, failed,
  describe, from_event, classify_kind, knowledge_graph, episodic, classify, RecordFormat,
  records_in, plan_records, plan,
}

-- How many records have a property.
abbrev pub count : {A : Type 0} → (A → Bool) → List A → ℕ
count p xs = length (keep p xs)

-- Whether an event's outcome is kept as knowledge.
abbrev pub makes_knowledge : LibrarianEvent → Bool
makes_knowledge (compiled entry_id title tags ts) = true
makes_knowledge (lint_completed reports scanned ts) = true
makes_knowledge (focused topic count ts) = false
makes_knowledge (updated entry_id revision ts) = true
makes_knowledge (raw_doc_arrived path ts) = false
makes_knowledge (failed message ts) = false

module _ {V : Type 0} where
  -- The names of the events whose outcome is knowledge.
  abbrev pub names_knowledge : EventRecord V → Bool
  names_knowledge r = any (str_eq r.kind) ("updated" ∷ "lint_completed" ∷ "compiled" ∷ [])

  classify-names_knowledge :
      (r : EventRecord V) → classify r ≡ (if names_knowledge r then knowledge_graph else episodic)
  unfolding classify_kind
  classify-names_knowledge r = ground arith

  names_knowledge-from_event :
      (to_value : LibrarianEvent → V) (id : String) (event : LibrarianEvent)
      (session_id project_root scope : String)
      → names_knowledge (from_event to_value id event session_id project_root scope)
        ≡ makes_knowledge event
  unfolding from_event describe
  names_knowledge-from_event to_value id (compiled e t tags ts) s p scope = refl
  names_knowledge-from_event to_value id (lint_completed rs n ts) s p scope = refl
  names_knowledge-from_event to_value id (focused topic n ts) s p scope = refl
  names_knowledge-from_event to_value id (updated e n ts) s p scope = refl
  names_knowledge-from_event to_value id (raw_doc_arrived path ts) s p scope = refl
  names_knowledge-from_event to_value id (failed message ts) s p scope = refl

module _ {V : Type 0} (format : RecordFormat V) where
  plan_records-keep :
      (rs : List (EventRecord V))
      → ((plan_records format rs).kg_records ≡ keep names_knowledge rs)
        × ((plan_records format rs).episodic_records ≡ keep (λ r. not (names_knowledge r)) rs)
        × ((plan_records format rs).unclassified ≡ [])
  unfolding plan_records
  plan_records-keep [] = (refl, refl, refl)
  plan_records-keep (r ∷ rs) =
      let (kg, ep, none_left) = plan_records-keep rs in
      elim (Bool-cases (names_knowledge r)) [
        | inl knows ↦
            rw (classify-names_knowledge r, knows, keep) (ap (λ xs. r ∷ xs) kg, ep, none_left)
        | inr other ↦
            rw (classify-names_knowledge r, other, keep) (kg, ap (λ xs. r ∷ xs) ep, none_left)
      ]

  -- The plan of a migration sends the records of compiles, completed lints and updates, in the order of
  -- the log, to the knowledge graph and all others to the episodic store, and leaves none out; the
  -- record that is made of an event is of the first kind exactly where the event is one of these.
  pub plan-split :
      (file : Chars) (to_value : LibrarianEvent → V) (id : String) (event : LibrarianEvent)
      (session_id project_root scope : String)
      → let planned = plan format file in
        let made = from_event to_value id event session_id project_root scope in
        (planned.kg_records ≡ keep names_knowledge (records_in format file))
        × (planned.episodic_records ≡ keep (λ r. not (names_knowledge r)) (records_in format file))
        × (planned.unclassified ≡ [])
        × (names_knowledge made ≡ makes_knowledge event)
  unfolding plan
  plan-split file to_value id event session_id project_root scope =
      let (kg, ep, none_left) = plan_records-keep (records_in format file) in
      (
        kg,
        ep,
        none_left,
        names_knowledge-from_event to_value id event session_id project_root scope,
      )
