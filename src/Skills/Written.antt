-- ===== src/Skills/Written.antt =====
-- What proposing does to the skill candidates that are there.
use prometheus_knowledge_rs.Prelude.{
  ℕ, ◌≡◌, refl, ◌∙◌, inl, inr, Bool, true, false, ◌||◌, Option, none, some, List, [], ◌∷◌, arith,
  String, str_eq, eq_iff, Bool-cases, is_some, Chars, find, find-insert,
}
use prometheus_knowledge_rs.Skills.Records.{SkillCandidate, SkillRules, WorkflowRecord}
use prometheus_knowledge_rs.Skills.Log.{UpdateLog}
use prometheus_knowledge_rs.Skills.Shelf.{
  evidence_ids, SkillShelf, put_pending, over_pending, write_candidate, Proposed, write_all, resume,
  propose,
}
use prometheus_knowledge_rs.Writes.{Ending, lands, lost, unflushed}
use prometheus_knowledge_rs.Promotion.{same_set}

abbrev pub is_settled : String → SkillShelf → Bool
is_settled id shelf = is_some (find id shelf.accepted) || is_some (find id shelf.rejected)

-- The decisions are the same, and so is the pending file of one id.
pub record IsKept (id : String) (before after : SkillShelf) : Type 0 where
  pub accepted : after.accepted ≡ before.accepted
  pub rejected : after.rejected ≡ before.rejected
  pub pending : find id after.pending ≡ find id before.pending

IsKept-same : (id : String) (shelf : SkillShelf) → IsKept id shelf shelf
IsKept-same id shelf = record { accepted = refl; rejected = refl; pending = refl }

put_pending-IsKept :
    (id : String) (write : Ending) (c : SkillCandidate) (shelf : SkillShelf)
    → str_eq c.id id ≡ false
    → IsKept id shelf (put_pending write c shelf).1
put_pending-IsKept id lands c shelf other = record {
  accepted = refl;
  rejected = refl;
  pending = ground (arith, find-insert c.id id (some c) shelf.pending);
}
put_pending-IsKept id lost c shelf other = IsKept-same id shelf
put_pending-IsKept id unflushed c shelf other = record {
  accepted = refl;
  rejected = refl;
  pending = ground (arith, find-insert c.id id (some c) shelf.pending);
}

over_pending-IsKept :
    (id : String) (write : Ending) (old : Option (Option SkillCandidate)) (c : SkillCandidate)
    (shelf : SkillShelf)
    → str_eq c.id id ≡ false
    → IsKept id shelf (over_pending write old c shelf).1
over_pending-IsKept id write none c shelf other = put_pending-IsKept id write c shelf other
over_pending-IsKept id write (some none) c shelf other = IsKept-same id shelf
over_pending-IsKept id write (some (some old)) c shelf other =
    elim (Bool-cases (same_set (evidence_ids old) (evidence_ids c))) [
      | inl same ↦ rw same (IsKept-same id shelf)
      | inr grown ↦
          rw grown
            (put_pending-IsKept id write (record c { created_at = old.created_at }) shelf other)
    ]

write_candidate-IsKept :
    (id : String) (write : Ending) (c : SkillCandidate) (shelf : SkillShelf)
    → is_settled id shelf ≡ true
    → IsKept id shelf (write_candidate write c shelf).1
unfolding write_candidate
write_candidate-IsKept id write c shelf settled = elim (Bool-cases (is_settled c.id shelf)) [
  | inl done ↦ rw done (IsKept-same id shelf)
  | inr pending ↦ rw pending (
      over_pending-IsKept id write (find c.id shelf.pending) c shelf
        (ground (arith, eq_iff c.id id)))
]

module _ (rules : SkillRules) (today : Chars) where
  then-IsKept : (id : String) (a b c : SkillShelf) → IsKept id a b → IsKept id b c → IsKept id a c
  then-IsKept id a b c h k = record {
    accepted = k.accepted ∙ h.accepted;
    rejected = k.rejected ∙ h.rejected;
    pending = k.pending ∙ h.pending;
  }

  settled_after :
      (id : String) (a b : SkillShelf)
      → IsKept id a b
      → is_settled id a ≡ true
      → is_settled id b ≡ true
  settled_after id a b h settled = rw (h.accepted, h.rejected) settled

  resume-IsKept :
      (id : String) (rest : Proposed → Bool × Proposed) (c : SkillCandidate)
      (r : Option Bool × SkillShelf) (p : Proposed)
      → is_settled id p.shelf ≡ true
      → IsKept id p.shelf r.1
      → ((q : Proposed) → is_settled id q.shelf ≡ true → IsKept id q.shelf (rest q).1.shelf)
      → IsKept id p.shelf (resume rules today rest c r p).1.shelf
  resume-IsKept id rest c (none, shelf) p settled kept next = kept
  resume-IsKept id rest c (some true, shelf) p settled kept next =
      then-IsKept id p.shelf shelf _ kept (next _ (settled_after id p.shelf shelf kept settled))
  resume-IsKept id rest c (some false, shelf) p settled kept next =
      then-IsKept id p.shelf shelf _ kept (next _ (settled_after id p.shelf shelf kept settled))

  write_all-IsKept :
      (id : String) (writes : ℕ → Ending) (cs : List SkillCandidate) (p : Proposed)
      → is_settled id p.shelf ≡ true
      → IsKept id p.shelf (write_all rules today writes cs p).1.shelf
  unfolding write_all
  write_all-IsKept id writes [] p settled = IsKept-same id p.shelf
  write_all-IsKept id writes (c ∷ cs) p settled =
      resume-IsKept id (write_all rules today writes cs) c
        (write_candidate (writes p.written) c p.shelf) p settled
        (write_candidate-IsKept id (writes p.written) c p.shelf settled)
        (λ q s. write_all-IsKept id writes cs q s)

  -- A skill candidate that was accepted or rejected is not proposed again: however the writes end and
  -- however far the run comes, the decisions stay as they are, and no file of its id is written.
  pub propose-IsKept :
      (writes : ℕ → Ending) (now : String) (records : List WorkflowRecord) (shelf : SkillShelf)
      (log : UpdateLog) (id : String)
      → is_settled id shelf ≡ true
      → IsKept id shelf (propose rules today writes now records shelf log).1.shelf
  unfolding propose
  propose-IsKept writes now records shelf log id settled =
      write_all-IsKept id writes _ (record { shelf = shelf; log = log; written = 0 }) settled
