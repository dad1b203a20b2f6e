-- ===== src/Review/Settled.antt =====
-- Where the candidates stand after a review.
use prometheus_knowledge_rs.Review.Accept.{
  accept_skill, invocation, accept_invoked, accept_skill_found,
}
use prometheus_knowledge_rs.Prelude.{
  ℕ, ◌+◌, ◌≡◌, refl, ◌∙◌, inl, inr, Bool, true, false, Option, none, some, arith, String, eq_iff,
  if◌then◌else◌, Bool-cases, is_some, find, find-insert, find-erase, Chars,
}
use prometheus_knowledge_rs.Review.{
  Candidates, ReviewResult, Ending, pending_candidate, write_pending, Verdict, moved_to,
  rename_pending, finished, then_rename, is_object, settle, rejected_value, reject_found,
  reject_candidate, granted, refused, lands, lost, unflushed, accept, reject, validate_id,
  if_pending, invalid_id,
}
use prometheus_knowledge_rs.Worker.Operation.{Value}

-- In how many of the three directories a candidate has a file.
abbrev pub places : String → Candidates → ℕ
places id files =
    (if is_some (find id files.pending) then 1 else 0)
    + (if is_some (find id files.accepted) then 1 else 0)
    + (if is_some (find id files.rejected) then 1 else 0)

write_pending-places :
    (ending : Ending) (id other : String) (text : Option Value) (value : Value) (files : Candidates)
    → find id files.pending ≡ some text
    → places other (write_pending ending id value files).1 ≡ places other files
write_pending-places lands id other text value files held =
    ground (arith, find-insert id other (some value) files.pending, eq_iff id other)
write_pending-places lost id other text value files held = refl
write_pending-places unflushed id other text value files held =
    ground (arith, find-insert id other (some value) files.pending, eq_iff id other)

moved_to-places :
    (verdict : Verdict) (id other : String) (text : Option Value) (files : Candidates)
    → find id files.pending ≡ some text
    → places other files ≡ 1
    → places other (moved_to verdict id text files) ≡ 1
moved_to-places accept id other text files held one = ground (
  arith,
  find-erase id other files.pending,
  find-insert id other text files.accepted,
  eq_iff id other,
)
moved_to-places reject id other text files held one = ground (
  arith,
  find-erase id other files.pending,
  find-insert id other text files.rejected,
  eq_iff id other,
)

rename_pending-places :
    (ending : Ending) (verdict : Verdict) (id other : String) (held : Option (Option Value))
    (files : Candidates)
    → find id files.pending ≡ held
    → places other files ≡ 1
    → places other (rename_pending ending verdict id held files).1 ≡ 1
rename_pending-places ending verdict id other none files e one = one
rename_pending-places lands verdict id other (some text) files e one =
    moved_to-places verdict id other text files e one
rename_pending-places lost verdict id other (some text) files e one = one
rename_pending-places unflushed verdict id other (some text) files e one =
    moved_to-places verdict id other text files e one

finished-places :
    {A : Type 0} (a : A) (other : String) (r : Bool × Candidates)
    → places other r.1 ≡ 1
    → places other (finished a r).1 ≡ 1
finished-places a other (true, files) h = h
finished-places a other (false, files) h = h

then_rename-places :
    {A : Type 0} (ending : Ending) (verdict : Verdict) (id other : String) (a : A)
    (r : Bool × Candidates)
    → places other r.1 ≡ 1
    → places other (then_rename ending verdict id a r).1 ≡ 1
then_rename-places ending verdict id other a (false, files) h = h
then_rename-places ending verdict id other a (true, files) h =
    finished-places a other (rename_pending ending verdict id (find id files.pending) files)
      (rename_pending-places ending verdict id other (find id files.pending) files refl h)

pub settle-places :
    {A : Type 0} (write rename : Ending) (verdict : Verdict) (id other : String)
    (text : Option Value) (value : Value) (a : A) (files : Candidates)
    → find id files.pending ≡ some text
    → places other files ≡ 1
    → places other (settle write rename verdict id value a files).1 ≡ 1
unfolding settle
settle-places write rename verdict id other text value a files held one =
    elim (Bool-cases (is_object value)) [
      | inr plain ↦ rw plain one
      | inl whole ↦ rw whole (
          then_rename-places rename verdict id other a (write_pending write id value files)
            (write_pending-places write id other text value files held ∙ one))
    ]

if_pending-held :
    (id : String) (files : Candidates) (text : Option (Option Value)) (value : Value)
    → if_pending id files text ≡ granted value
    → text ≡ some (some value)
if_pending-held id files none value h = cc
if_pending-held id files (some none) value h = cc
if_pending-held id files (some (some v)) value h = cc

-- A candidate that is found has a file among the pending ones.
pub pending_candidate-held :
    (id : String) (files : Candidates) (value : Value)
    → pending_candidate id files ≡ granted value
    → find id files.pending ≡ some (some value)
unfolding pending_candidate
pending_candidate-held id files value h = elim (Bool-cases (validate_id id)) [
  | inl valid ↦ if_pending-held id files (find id files.pending) value (rw valid at h)
  | inr bad ↦ let wrong : refused invalid_id ≡ granted value = rw bad at h in cc
]

-- However a rejection ends, every candidate that had one file has one file afterwards.
pub reject_candidate-places :
    (write rename : Ending) (now id : String) (reason : Option String) (files : Candidates)
    (other : String)
    → places other files ≡ 1
    → places other (reject_candidate write rename now id reason files).1 ≡ 1
unfolding reject_candidate
reject_candidate-places write rename now id reason files other one =
    by_found (pending_candidate id files) refl
  where
    by_found :
        (found : ReviewResult Value)
        → pending_candidate id files ≡ found
        → places other (reject_found write rename now id reason found files).1 ≡ 1
    by_found (refused e) h = one
    by_found (granted value) h =
        settle-places write rename reject id other (some value) (rejected_value now reason value) tt
          files (pending_candidate-held id files value h) one

module _ (to_text : Chars → String) where
  accept_invoked-places :
      (write rename : Ending) (now id other : String) (value : Value) (line : ReviewResult Chars)
      (files : Candidates)
      → find id files.pending ≡ some (some value)
      → places other files ≡ 1
      → places other (accept_invoked to_text write rename now id value line files).1 ≡ 1
  accept_invoked-places write rename now id other value (refused e) files held one = one
  accept_invoked-places write rename now id other value (granted line) files held one =
      settle-places write rename accept id other (some value) _ line files held one

  -- However the acceptance of a skill candidate ends, every candidate that had one file has one file
  -- afterwards.
  pub accept_skill-places :
      (write rename : Ending) (now id : String) (update : Option String) (files : Candidates)
      (other : String)
      → places other files ≡ 1
      → places other (accept_skill to_text write rename now id update files).1 ≡ 1
  unfolding accept_skill
  accept_skill-places write rename now id update files other one =
      by_found (pending_candidate id files) refl
    where
      by_found :
          (found : ReviewResult Value)
          → pending_candidate id files ≡ found
          → places other (accept_skill_found to_text write rename now id update found files).1 ≡ 1
      by_found (refused e) h = one
      by_found (granted value) h =
          accept_invoked-places write rename now id other value (invocation update value) files
            (pending_candidate-held id files value h) one
