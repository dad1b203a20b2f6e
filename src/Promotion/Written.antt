-- ===== src/Promotion/Written.antt =====
-- What proposing does to the candidates that are there.
use prometheus_knowledge_rs.Prelude.{
  ℕ, ◌+◌, ◌≡◌, refl, ◌∙◌, inl, inr, Bool, true, false, ◌||◌, Option, none, some, List, [], ◌∷◌,
  arith, String, str_eq, eq_iff, Bool-cases, is_some, filter_map, find, find-insert,
}
use prometheus_knowledge_rs.Writes.{Ending, lands, lost, unflushed}
use prometheus_knowledge_rs.Promotion.{
  Rules, LessonRecord, Candidate, Shelf, lesson_ids, same_set, update_pending, write_candidate,
  write_all, propose, put_candidate, resume, candidate_for, clusters_of,
}

-- Whether a candidate has been decided.
abbrev pub is_decided : String → Shelf → Bool
is_decided id shelf = is_some (find id shelf.accepted) || is_some (find id shelf.rejected)

-- The decisions are the same, and so is the pending file of one id.
pub record IsLeft (id : String) (before after : Shelf) : Type 0 where
  pub accepted : after.accepted ≡ before.accepted
  pub rejected : after.rejected ≡ before.rejected
  pub pending : find id after.pending ≡ find id before.pending

IsLeft-same : (id : String) (shelf : Shelf) → IsLeft id shelf shelf
IsLeft-same id shelf = record { accepted = refl; rejected = refl; pending = refl }

put_candidate-IsLeft :
    (id : String) (write : Ending) (c : Candidate) (shelf : Shelf)
    → str_eq c.id id ≡ false
    → IsLeft id shelf (put_candidate write c shelf).1
put_candidate-IsLeft id lands c shelf other = record {
  accepted = refl;
  rejected = refl;
  pending = rw find-insert (rw other refl);
}
put_candidate-IsLeft id lost c shelf other = IsLeft-same id shelf
put_candidate-IsLeft id unflushed c shelf other = record {
  accepted = refl;
  rejected = refl;
  pending = rw find-insert (rw other refl);
}

update_pending-IsLeft :
    (id : String) (write : Ending) (old : Option (Option Candidate)) (c : Candidate) (shelf : Shelf)
    → str_eq c.id id ≡ false
    → IsLeft id shelf (update_pending write old c shelf).1
update_pending-IsLeft id write none c shelf other = put_candidate-IsLeft id write c shelf other
update_pending-IsLeft id write (some none) c shelf other = IsLeft-same id shelf
update_pending-IsLeft id write (some (some old)) c shelf other =
    elim (Bool-cases (same_set (lesson_ids old) (lesson_ids c))) [
      | inl same ↦ rw same (IsLeft-same id shelf)
      | inr grown ↦
          rw grown
            (put_candidate-IsLeft id write (record c { created_at = old.created_at }) shelf other)
    ]

write_candidate-IsLeft :
    (id : String) (write : Ending) (c : Candidate) (shelf : Shelf)
    → is_decided id shelf ≡ true
    → IsLeft id shelf (write_candidate write c shelf).1
unfolding write_candidate
write_candidate-IsLeft id write c shelf decided = elim (Bool-cases (is_decided c.id shelf)) [
  | inl done ↦ rw done (IsLeft-same id shelf)
  | inr open_still ↦
      let other : str_eq c.id id ≡ false = ground (arith, eq_iff c.id id) in
      rw open_still (update_pending-IsLeft id write (find c.id shelf.pending) c shelf other)
]

IsLeft-then : (id : String) (a b c : Shelf) → IsLeft id a b → IsLeft id b c → IsLeft id a c
IsLeft-then id a b c h k = record {
  accepted = k.accepted ∙ h.accepted;
  rejected = k.rejected ∙ h.rejected;
  pending = k.pending ∙ h.pending;
}

resume-IsLeft :
    (id : String) (rest : ℕ → Shelf → Option ℕ × Shelf) (n : ℕ) (before : Shelf)
    (wrote : Option Bool × Shelf)
    → is_decided id before ≡ true
    → IsLeft id before wrote.1
    → ((m : ℕ) (shelf : Shelf) → is_decided id shelf ≡ true → IsLeft id shelf (rest m shelf).1)
    → IsLeft id before (resume rest n wrote).1
resume-IsLeft id rest n before (none, shelf) decided left next = left
resume-IsLeft id rest n before (some true, shelf) decided left next =
    let still : is_decided id shelf ≡ true = rw (left.accepted, left.rejected) decided in
    IsLeft-then id before shelf _ left (next (n + 1) shelf still)
resume-IsLeft id rest n before (some false, shelf) decided left next =
    let still : is_decided id shelf ≡ true = rw (left.accepted, left.rejected) decided in
    IsLeft-then id before shelf _ left (next n shelf still)

write_all-IsLeft :
    (id : String) (writes : ℕ → Ending) (cs : List Candidate) (n : ℕ) (shelf : Shelf)
    → is_decided id shelf ≡ true
    → IsLeft id shelf (write_all writes cs n shelf).1
unfolding write_all
write_all-IsLeft id writes [] n shelf decided = IsLeft-same id shelf
write_all-IsLeft id writes (c ∷ cs) n shelf decided =
    resume-IsLeft id (write_all writes cs) n shelf (write_candidate (writes n) c shelf) decided
      (write_candidate-IsLeft id (writes n) c shelf decided)
      (λ m s d. write_all-IsLeft id writes cs m s d)

-- Proposing, from whatever index and however its writes end, touches no decided candidate: what was
-- accepted or rejected stays, and no file of a candidate that was decided is written.
pub propose-decided :
    (rules : Rules) (writes : ℕ → Ending) (now : String) (records : List LessonRecord)
    (shelf : Shelf) (id : String)
    → is_decided id shelf ≡ true
    → IsLeft id shelf (propose rules writes now records shelf).1
unfolding propose
propose-decided rules writes now records shelf id decided =
    write_all-IsLeft id writes (filter_map (candidate_for rules now) (clusters_of records)) 0 shelf
      decided
