-- ===== src/Review/Queue.antt =====
-- The memory operation of an accepted promotion: `queue_memory` and `resolve_user_scope`,
-- pk-cli/src/candidates.rs, in the learning worker's queue.
use prometheus_knowledge_rs.Texts.{strip_prefix}
use prometheus_knowledge_rs.Prelude.{
  Bool, Option, none, some, List, [], ◌∷◌, ◌++◌, String, str_eq, if◌then◌else◌, is_some, or_else,
  unwrap_or, take, any, is_empty, Chars, codes, trim, true, false,
}
use prometheus_knowledge_rs.Review.{
  ReviewResult, Ending, write_failed, lands, lost, unflushed, granted, refused,
}
use prometheus_knowledge_rs.Worker.Disk.{
  Directory, memory_pending, memory_submitting, memory_accepted, memory_retry, memory_completed,
  memory_rejected, memory_dead_letter, memory_stalled, Location, at, lookup, put,
}
use prometheus_knowledge_rs.Worker.Queue.{Host}
use prometheus_knowledge_rs.Worker.Operation.{
  Value, nil, cons, string, array, object, end, field, MemoryOperation,
}
use Prim.Native.String.{◌++◌ as append}

abbrev pub trimmed_text : Option Chars → Option Chars
trimmed_text none = none
trimmed_text (some s) = let t = trim s in if is_empty t then none else some t

abbrev pub bare_user : Chars → Chars
bare_user value =
    unwrap_or value
      (or_else (strip_prefix (codes "@user:") value) (strip_prefix (codes "user:") value))

abbrev pub by_email : (Chars → Chars) → (Chars → Chars) → Option Chars → Chars
by_email to_lowercase hash none = codes "@user:unknown"
by_email to_lowercase hash (some email) = codes "@user:" ++ take 16 (hash (to_lowercase email))

abbrev pub by_variable : (Chars → Chars) → (Chars → Chars) → Option Chars → Option Chars → Chars
by_variable to_lowercase hash (some value) email = codes "@user:" ++ bare_user value
by_variable to_lowercase hash none email = by_email to_lowercase hash (trimmed_text email)

-- The variable PROMETHEUS_USER_ID and git's email are what the environment holds of them.
unfoldable pub resolve_user_scope :
    (Chars → Chars) → (Chars → Chars) → Option Chars → Option Chars → Chars
unfolding trim
resolve_user_scope to_lowercase hash variable email =
    by_variable to_lowercase hash (trimmed_text variable) email

abbrev pub memory_states : List Directory
memory_states =
    memory_pending ∷ memory_submitting ∷ memory_accepted ∷ memory_retry ∷ memory_completed
    ∷ memory_rejected ∷ memory_dead_letter ∷ memory_stalled ∷ []

module _ {C : Type 0} (host : Host C) (digest : String → String) (user : String)
    (now : String) where
  open host use {platform, encode}

  abbrev pub user_for : String → String
  user_for scope = if str_eq scope "user" then user else "@global"

  abbrev pub agent_for : String → String
  agent_for scope = if str_eq scope "user" then "@user" else "@global"

  unfoldable pub promotion_arguments : String → String → String → Value
  promotion_arguments id content scope = object (
      field "agent_id" (string (agent_for scope)) (
        field "categories"
          (array (cons (string "promotion") (cons (string (append "scope:" scope)) nil)))
          (field "content" (string content) (
            field "session_id" (string (append "promotion:" id))
              (field "user_id" (string (user_for scope)) end)))))

  unfoldable pub promotion_operation : String → String → String → String → MemoryOperation
  unfolding promotion_arguments
  promotion_operation operation_id id content scope = record {
    schema_version = 2;
    operation_id = operation_id;
    method = "add_memory";
    arguments = promotion_arguments id content scope;
    dependencies = [];
    payload_hash = some (platform.canonical_payload_hash (promotion_arguments id content scope));
    state = "pending";
    queued_at = now;
    last_error = none;
    receipt = none;
    first_accepted_at = none;
    last_receipt_state = none;
    last_receipt_progress_seq = none;
    last_receipt_change_at = none;
    unchanged_polls = 0;
    next_poll_at = none;
  }

  -- `hex_digest`, SHA-256, of the promotion's name.
  abbrev pub promotion_id : String → String
  promotion_id id = digest (append "promotion-candidate:" id)

  abbrev pub is_queued : String → List (Location × C) → Bool
  is_queued filename queue =
      any (λ (state : Directory). is_some (lookup (at state filename) queue)) memory_states

  abbrev pub write_operation :
      Ending
      → Location
      → C
      → String
      → List (Location × C)
      → ReviewResult String × List (Location × C)
  write_operation lands place text operation_id queue = (granted operation_id, put place text queue)
  write_operation lost place text operation_id queue = (refused write_failed, queue)
  write_operation unflushed place text operation_id queue =
      (refused write_failed, put place text queue)

  abbrev pub queue_unless :
      Bool
      → Ending
      → Location
      → C
      → String
      → List (Location × C)
      → ReviewResult String × List (Location × C)
  queue_unless true ending place text operation_id queue = (granted operation_id, queue)
  queue_unless false ending place text operation_id queue =
      write_operation ending place text operation_id queue

  unfoldable pub queue_memory :
      Ending
      → String
      → String
      → String
      → List (Location × C)
      → ReviewResult String × List (Location × C)
  unfolding promotion_operation
  queue_memory ending id content scope queue =
      let operation_id = promotion_id id in
      let filename = append operation_id ".json" in
      queue_unless (is_queued filename queue) ending (at memory_pending filename)
        (encode (promotion_operation operation_id id content scope)) operation_id queue
