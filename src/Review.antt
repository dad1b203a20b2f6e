-- ===== src/Review.antt =====
-- `pk candidates accept|reject`: `validate_id`, `pending_candidate`, `accept_skill`,
-- `validate_skill_name`, `accept_promotion` and `reject`, pk-cli/src/candidates.rs.
--
-- The candidates' directories are maps by id, with `none` for a text that does not parse. Each write of
-- a candidate may fail, before or after it takes effect.
pub mod Json
pub mod Shared
pub mod Queue
pub mod Accept
pub mod Settled
pub mod Again
pub mod Promoted
pub use prometheus_knowledge_rs.Writes.{Ending, lands, lost, unflushed}
use prometheus_knowledge_rs.Prelude.{
  ℕ, Bool, true, false, not, ◌&&◌, ◌||◌, Option, none, some, List, [], ◌∷◌, String, leb, ◌==◌,
  if◌then◌else◌, is_some, bind, all, is_empty, Chars, codes, is_ascii_digit, find, insert, erase,
}
use prometheus_knowledge_rs.Review.Json.{set}
use prometheus_knowledge_rs.Worker.Operation.{Value, string, get, as_str, object}

pub record Candidates : Type 0 where
  pub pending : List (String × Option Value)
  pub accepted : List (String × Option Value)
  pub rejected : List (String × Option Value)

pub data ReviewError : Type 0 where
  invalid_id : ReviewError
  already_accepted : ReviewError
  already_rejected : ReviewError
  not_pending : ReviewError
  unreadable_candidate : ReviewError
  invalid_skill_name : ReviewError
  no_summary : ReviewError
  no_content : ReviewError
  outside_failed : ReviewError
  write_failed : ReviewError
  -- setting a field of a value that is no object ends the process
  not_an_object : ReviewError

pub data ReviewResult (A : Type 0) : Type 0 where
  granted : A → ReviewResult A
  refused : ReviewError → ReviewResult A

abbrev pub is_name_char : ℕ → Bool
is_name_char c =
    is_ascii_digit c
    || (leb b'a' c && leb c b'z')
    || (leb b'A' c && leb c b'Z')
    || c == b'-'
    || c == b'_'
    || c == b'.'

abbrev pub starts_with_char : ℕ → Chars → Bool
starts_with_char mark [] = false
starts_with_char mark (c ∷ s) = c == mark

unfoldable pub validate_id : String → Bool
validate_id id =
    not (is_empty (codes id))
    && not (starts_with_char b'.' (codes id))
    && all is_name_char (codes id)

unfoldable pub validate_skill_name : String → Bool
validate_skill_name skill =
    not (is_empty (codes skill))
    && not (starts_with_char b'.' (codes skill) || starts_with_char b'-' (codes skill))
    && all is_name_char (codes skill)

abbrev pub parsed : Option Value → ReviewResult Value
parsed none = refused unreadable_candidate
parsed (some value) = granted value

abbrev pub if_decided : String → Candidates → ReviewError
if_decided id files =
    if is_some (find id files.accepted)
    then already_accepted
    else if is_some (find id files.rejected)
    then already_rejected
    else not_pending

abbrev pub if_pending : String → Candidates → Option (Option Value) → ReviewResult Value
if_pending id files none = refused (if_decided id files)
if_pending id files (some text) = parsed text

unfoldable pub pending_candidate : String → Candidates → ReviewResult Value
unfolding validate_id
pending_candidate id files =
    if not (validate_id id) then refused invalid_id else if_pending id files (find id files.pending)

-- `atomic_json(&pending, &candidate)`
abbrev pub write_pending : Ending → String → Value → Candidates → Bool × Candidates
write_pending lands id value files =
    (true, record files { pending = insert id (some value) files.pending })
write_pending lost id value files = (false, files)
write_pending unflushed id value files =
    (false, record files { pending = insert id (some value) files.pending })

pub data Verdict : Type 0 where
  accept reject : Verdict

abbrev pub moved_to : Verdict → String → Option Value → Candidates → Candidates
moved_to accept id text files = record files {
  pending = erase id files.pending;
  accepted = insert id text files.accepted;
}
moved_to reject id text files = record files {
  pending = erase id files.pending;
  rejected = insert id text files.rejected;
}

-- `durable_rename(&pending, &target)`
abbrev pub rename_pending :
    Ending → Verdict → String → Option (Option Value) → Candidates → Bool × Candidates
rename_pending ending verdict id none files = (false, files)
rename_pending lands verdict id (some text) files = (true, moved_to verdict id text files)
rename_pending lost verdict id (some text) files = (false, files)
rename_pending unflushed verdict id (some text) files = (false, moved_to verdict id text files)

abbrev pub finished : {A : Type 0} → A → Bool × Candidates → ReviewResult A × Candidates
finished a (true, files) = (granted a, files)
finished a (false, files) = (refused write_failed, files)

abbrev pub then_rename :
    {A : Type 0} → Ending → Verdict → String → A → Bool × Candidates → ReviewResult A × Candidates
then_rename ending verdict id a (false, files) = (refused write_failed, files)
then_rename ending verdict id a (true, files) =
    finished a (rename_pending ending verdict id (find id files.pending) files)

abbrev pub is_object : Value → Bool
is_object (object fields) = true
is_object value = false

-- The end that accepting and rejecting share: the record, then its place.
unfoldable pub settle :
    {A : Type 0}
    → Ending
    → Ending
    → Verdict
    → String
    → Value
    → A
    → Candidates
    → ReviewResult A × Candidates
settle write rename verdict id value a files =
    if is_object value
    then then_rename rename verdict id a (write_pending write id value files)
    else (refused not_an_object, files)

-- Fields that are set one after the other.
abbrev pub set_all : List (String × Value) → Value → Value
set_all [] value = value
set_all ((key, v) ∷ rest) value = set_all rest (set key v value)

abbrev pub reason_field : Option String → List (String × Value)
reason_field none = []
reason_field (some reason) = ("rejectionReason", string reason) ∷ []

abbrev pub rejected_value : String → Option String → Value → Value
rejected_value now reason value =
    set_all
      (("state", string "rejected")
        ∷ ("rejectedAt", string now)
        ∷ ("updatedAt", string now)
        ∷ reason_field reason)
      value

abbrev pub reject_found :
    Ending
    → Ending
    → String
    → String
    → Option String
    → ReviewResult Value
    → Candidates
    → ReviewResult (Unit {0}) × Candidates
reject_found write rename now id reason (refused e) files = (refused e, files)
reject_found write rename now id reason (granted value) files =
    settle write rename reject id (rejected_value now reason value) tt files

unfoldable pub reject_candidate :
    Ending
    → Ending
    → String
    → String
    → Option String
    → Candidates
    → ReviewResult (Unit {0}) × Candidates
unfolding pending_candidate settle set
reject_candidate write rename now id reason files =
    reject_found write rename now id reason (pending_candidate id files) files

abbrev pub text_at : String → Value → Option String
text_at key value = bind (get key value) as_str
