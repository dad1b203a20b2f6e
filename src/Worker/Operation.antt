-- ===== src/Worker/Operation.antt =====
-- The records of the learning worker and its errors, pk-learning-worker/src/main.rs. A time is the
-- number of nanoseconds from a fixed origin; a timestamp in a record is text, as in the files.
use prometheus_knowledge_rs.Prelude.{
  ℕ, ◌≡◌, Bool, Option, none, some, List, String, str_eq, if◌then◌else◌,
}

-- `serde_json::Value`. A number is kept as its text, an object as its entries in key order.
mutual
  pub data Value : Type 0 where
    null : Value
    boolean : Bool → Value
    number : String → Value
    string : String → Value
    array : Items → Value
    object : Fields → Value

  pub data Items : Type 0 where
    nil : Items
    cons : Value → Items → Items

  pub data Fields : Type 0 where
    end : Fields
    field : String → Value → Fields → Fields

-- `Map::get`
abbrev pub get_field : String → Fields → Option Value
get_field key end = none
get_field key (field name value rest) = if str_eq name key then some value else get_field key rest

-- `Value::get`: only an object has fields.
abbrev pub get : String → Value → Option Value
get key (object fields) = get_field key fields
get key v = none

-- `Value::as_str`
abbrev pub as_str : Value → Option String
as_str (string s) = some s
as_str v = none

pub data LearningScope : Type 0 where
  project shared : LearningScope

pub record LearningJob : Type 0 where
  pub schema_version : ℕ
  pub event_id : String
  pub event_type : String
  pub harness : String
  pub session_id : String
  pub project_root : String
  pub transcript_path : Option String
  pub captured_at : String
  pub payload_digest : String
  pub scope : LearningScope
  pub attempt : ℕ
  pub project_id : Option String
  pub team_id : Option String
  pub role_id : Option String

pub record OperationReceipt : Type 0 where
  pub operation_id : String
  pub schema_version : ℕ
  pub kind : String
  pub payload_hash : String
  pub dependencies : List String
  pub state : String
  pub blocked_by : List String
  pub result : Option Value
  pub error : Option String
  pub executor_generation : ℕ
  pub progress_seq : ℕ
  pub created_at : String
  pub updated_at : String

pub record MemoryOperation : Type 0 where
  pub schema_version : ℕ
  pub operation_id : String
  pub method : String
  pub arguments : Value
  pub dependencies : List String
  pub payload_hash : Option String
  pub state : String
  pub queued_at : String
  pub last_error : Option String
  pub receipt : Option OperationReceipt
  pub first_accepted_at : Option String
  pub last_receipt_state : Option String
  pub last_receipt_progress_seq : Option ℕ
  pub last_receipt_change_at : Option String
  pub unchanged_polls : ℕ
  pub next_poll_at : Option String

pub data ReceiptOutcome : Type 0 where
  transitioned progressed unchanged : ReceiptOutcome

-- The places where the worker raises, one constructor for each message.
pub data Error : Type 0 where
  io_error : Error
  no_such_file : Error
  unreadable : Error
  unsupported_method : String → Error
  missing_argument : String → String → Error
  hash_mismatch : Error
  missing_payload_hash : Error
  contract_mismatch : Error
  unknown_receipt_state : String → Error
  transport_unavailable : Error
  transport_failed : Error
  lookup_refused : ℕ → String → Error
  submission_refused : ℕ → String → Error
  ledger_not_ready : Error
  already_exists : String → Error
  worker_running : Error
  not_stalled : List String → Error
  absent_operation : String → Error
  unsupported_schema : ℕ → Error

pub data Result {ℓ} (A : Type ℓ) : Type ℓ where
  ok : A → Result A
  err : Error → Result A

infixl 5 ◌>>=◌
abbrev pub ◌>>=◌ {ℓ κ} : {A : Type ℓ} {B : Type κ} → Result A → (A → Result B) → Result B
ok a >>= f = f a
err e >>= f = err e

-- `Option::context`
abbrev pub context {ℓ} : {A : Type ℓ} → Option A → Error → Result A
context none e = err e
context (some a) e = ok a

-- The third-party code that the records pass through: chrono's clock texts and the SHA-256 of a
-- payload's JSON text in hexadecimal, `canonical_payload_hash`. A printed time is read back.
pub record Platform : Type 0 where
  pub parse_time : String → Option ℕ
  pub to_rfc3339 : ℕ → String
  pub canonical_payload_hash : Value → String
  pub parse_time-to_rfc3339 : (t : ℕ) → parse_time (to_rfc3339 t) ≡ some t
