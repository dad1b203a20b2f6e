-- ===== src/Examples/Sample.antt =====
-- Concrete parameters for the tests: clock texts that count strokes, files that hold records as they
-- are, and a few records.
use prometheus_knowledge_rs.Prelude.{ℕ, zero, suc, ◌≡◌, refl, Option, none, some, [], String}
use prometheus_knowledge_rs.Worker.Operation.{
  string, object, end, field, project, LearningJob, OperationReceipt, MemoryOperation, Platform,
}
use prometheus_knowledge_rs.Worker.Queue.{Manifest, Host}

-- A time as that many strokes.
abbrev pub strokes : ℕ → String
strokes zero = String.[]
strokes (suc n) = String.◌∷◌ "|" (strokes n)

abbrev next : Option ℕ → Option ℕ
next none = none
next (some n) = some (suc n)

abbrev pub count_strokes : String → Option ℕ
count_strokes String.[] = some 0
count_strokes (String.◌∷◌ c s) = next (count_strokes s)

pub count_strokes-strokes : (n : ℕ) → count_strokes (strokes n) ≡ some n
count_strokes-strokes zero = refl
count_strokes-strokes (suc n) = rw (count_strokes-strokes n) refl

abbrev pub sample_platform : Platform
sample_platform = record {
  parse_time = count_strokes;
  to_rfc3339 = strokes;
  canonical_payload_hash = λ v. "5feceb66ffc86f38";
  parse_time-to_rfc3339 = count_strokes-strokes;
}

pub data Content : Type 0 where
  operation_file : MemoryOperation → Content
  job_file : LearningJob → Content
  manifest_file : Manifest → Content
  failure_file : Content → String → ℕ → Content
  torn : Content

abbrev operation_in : Content → Option MemoryOperation
operation_in (operation_file operation) = some operation
operation_in content = none

abbrev job_in : Content → Option LearningJob
job_in (job_file job) = some job
job_in content = none

abbrev pub sample_host : Host Content
sample_host = record {
  platform = sample_platform;
  environment = none;
  encode = operation_file;
  decode = operation_in;
  encode_manifest = manifest_file;
  encode_failure = failure_file;
  decode_job = job_in;
  error_text = λ e. "request failed";
  decode-encode = λ operation. refl;
}

-- An operation that the server accepted at time 2 and that has not moved since.
abbrev pub waiting : MemoryOperation
waiting = record {
  schema_version = 2;
  operation_id = "op-1";
  method = "add_memory";
  arguments = object (field "content" (string "a lesson") end);
  dependencies = [];
  payload_hash = some "5feceb66ffc86f38";
  state = "accepted";
  queued_at = strokes 1;
  last_error = none;
  receipt = none;
  first_accepted_at = some (strokes 2);
  last_receipt_state = some "accepted";
  last_receipt_progress_seq = some 0;
  last_receipt_change_at = some (strokes 2);
  unchanged_polls = 0;
  next_poll_at = none;
}

-- The server's word that the operation is committed.
abbrev pub committed : OperationReceipt
committed = record {
  operation_id = "op-1";
  schema_version = 2;
  kind = "add_memory";
  payload_hash = "5feceb66ffc86f38";
  dependencies = [];
  state = "committed";
  blocked_by = [];
  result = none;
  error = none;
  executor_generation = 1;
  progress_seq = 3;
  created_at = strokes 2;
  updated_at = strokes 4;
}

abbrev pub session_job : LearningJob
session_job = record {
  schema_version = 2;
  event_id = "event-7";
  event_type = "session-end";
  harness = "claude";
  session_id = "session-7";
  project_root = "/work/app";
  transcript_path = none;
  captured_at = strokes 1;
  payload_digest = "d1";
  scope = project;
  attempt = 0;
  project_id = some "  ";
  team_id = some "core";
  role_id = some " verifier ";
}
