-- ===== src/Worker/Queue.antt =====
-- Reading and writing the queue's records, the recovery of what an interrupted run left, and the
-- records of errors: `read_operation`, `recover_processing`, `migrate_legacy_job_retry`,
-- `recover_memory_submitting`, `migrate_legacy_memory_retry`, `reject_job`, `record_memory_error`,
-- `locate_memory_operation` and `bounded_error`, pk-learning-worker/src/main.rs.
pub mod Reading
use prometheus_knowledge_rs.Prelude.{
  ℕ, ◌-◌, ◌≡◌, Bool, Option, none, some, List, [], ◌∷◌, String, if◌then◌else◌, is_some, length,
  codes, take_chars,
}
use prometheus_knowledge_rs.Worker.Operation.{
  LearningJob, MemoryOperation, Error, no_such_file, unreadable, absent_operation, Result, ok, err,
  context, Platform,
}
use prometheus_knowledge_rs.Worker.Disk.{
  Directory, pending, processing, retry, rejected, completed, memory_pending, memory_submitting,
  memory_accepted, memory_retry, memory_completed, memory_rejected, memory_stalled, Location, at,
  lookup, json_files, Io, pure, lift, gets, ◌>>=◌, ◌>>◌, read, atomic_json, durable_rename,
  preserve_duplicate_in, each,
}
use Prim.Native.String.{◌++◌ as append}
use prometheus_knowledge_rs.Worker.Payload.{normalize_operation}

pub record ManifestEntry : Type 0 where
  pub operation_id : String
  pub from : Directory
  pub to : Directory
  pub last_receipt_state : Option String
  pub stale_since : Option ℕ

pub data ManifestAction : Type 0 where
  quarantined released : ManifestAction

pub record Manifest : Type 0 where
  pub action : ManifestAction
  pub created_at : ℕ
  pub dry_run : Bool
  pub older_than : Option ℕ
  pub operations : List ManifestEntry

-- What the worker takes from outside: the clock's texts and the payload hash, the variable
-- PROMETHEUS_PROJECT_ID, and serde's JSON texts of the records. An operation that was written is
-- read back. Error messages are texts of the errors.
pub record Host (C : Type 0) : Type 0 where
  pub platform : Platform
  pub environment : Option String
  pub encode : MemoryOperation → C
  pub decode : C → Option MemoryOperation
  pub encode_manifest : Manifest → C
  pub encode_failure : C → String → ℕ → C
  pub decode_job : C → Option LearningJob
  pub error_text : Error → String
  pub decode-encode : (operation : MemoryOperation) → decode (encode operation) ≡ some operation

unfoldable pub bounded_error : String → String
bounded_error detail = take_chars 500 detail

module _ {C : Type 0} (host : Host C) where
  open host use {platform, environment, encode, decode, encode_failure}

  -- The record in a file, before and after it is normalised.
  abbrev pub stored_in : Option C → Result MemoryOperation
  stored_in none = err no_such_file
  stored_in (some content) = context (decode content) unreadable

  abbrev pub normal_in : Result MemoryOperation → Result MemoryOperation
  normal_in (ok stored) = normalize_operation platform environment stored
  normal_in (err e) = err e

  unfoldable pub stored_operation : Location → List (Location × C) → Result MemoryOperation
  stored_operation p fs = stored_in (lookup p fs)

  unfoldable pub operation_at : Location → List (Location × C) → Result MemoryOperation
  operation_at p fs = normal_in (stored_in (lookup p fs))

  unfoldable pub read_operation : Location → Io C MemoryOperation
  read_operation p = do read_it ← gets (operation_at p); lift read_it

  -- A file keeps its name; what already has the name in the target directory wins, and the other is
  -- kept beside the completed records.
  unfoldable pub recover_file : Directory → String → String → String → Io C (Unit {0})
  recover_file directory label millis name = do
    taken ← gets (λ fs. is_some (lookup (at pending name) fs))
    if taken
        then preserve_duplicate_in completed (at directory name) label millis
        else durable_rename (at directory name) (at pending name)

  unfoldable pub recover_processing : String → Io C (Unit {0})
  recover_processing millis = do
    names ← gets (json_files processing)
    each (recover_file processing "recovered-processing" millis) names

  unfoldable pub migrate_legacy_job_retry : String → Io C (Unit {0})
  migrate_legacy_job_retry millis = do
    names ← gets (json_files retry)
    each (recover_file retry "legacy-job-retry" millis) names

  -- The file is written only where the record changes; `unchanged_record` is the derived `==`.
  unfoldable pub recover_submitting_file :
      (MemoryOperation → MemoryOperation → Bool) → String → Io C (Unit {0})
  recover_submitting_file unchanged_record name = do
    found ← gets (stored_operation (at memory_submitting name))
    stored ← lift found
    normal ← lift (normalize_operation platform environment stored)
    let operation = record normal { state = "submitting" }
    if unchanged_record operation stored
        then pure tt
        else atomic_json (at memory_submitting name) (encode operation)

  unfoldable pub recover_memory_submitting :
      (MemoryOperation → MemoryOperation → Bool) → Io C (Unit {0})
  recover_memory_submitting unchanged_record = do
    names ← gets (json_files memory_submitting)
    each (recover_submitting_file unchanged_record) names

  unfoldable pub migrate_memory_file : String → String → Io C (Unit {0})
  migrate_memory_file millis name = do
    taken ← gets (λ fs. is_some (lookup (at memory_pending name) fs))
    if taken
        then preserve_duplicate_in memory_completed (at memory_retry name) "legacy-memory-retry"
            millis
        else do
          operation ← read_operation (at memory_retry name)
          atomic_json (at memory_retry name)
              (encode (record operation { state = "pending"; last_error = none }))
          durable_rename (at memory_retry name) (at memory_pending name)

  unfoldable pub migrate_legacy_memory_retry : String → Io C (Unit {0})
  migrate_legacy_memory_retry millis = do
    names ← gets (json_files memory_retry)
    each (migrate_memory_file millis) names

  -- `with_extension` replaces the last extension of the name, here always `json`.
  unfoldable pub with_extension : String → String → String
  with_extension name extension = append (take_chars (length (codes name) - 4) name) extension

  unfoldable pub reject_job : String → String → ℕ → Io C (Unit {0})
  reject_job name error now = do
    original ← read (at processing name)
    atomic_json (at rejected (with_extension name "failure.json"))
        (encode_failure original (bounded_error error) now)
    durable_rename (at processing name) (at rejected (with_extension name "source.json"))

  -- The directories in which a record is looked for, in order.
  abbrev pub durable_states : List Directory
  durable_states =
      memory_submitting ∷ memory_accepted ∷ memory_pending ∷ memory_completed ∷ memory_rejected
      ∷ memory_stalled ∷ []

  unfoldable pub first_holding : String → List Directory → List (Location × C) → Option Location
  first_holding name [] fs = none
  first_holding name (directory ∷ rest) fs =
      if is_some (lookup (at directory name) fs)
      then some (at directory name)
      else first_holding name rest fs

  unfoldable pub locate_memory_operation : Location → List (Location × C) → Result Location
  unfolding first_holding
  locate_memory_operation original fs =
      if is_some (lookup original fs)
      then ok original
      else context (first_holding original.name durable_states fs) (absent_operation original.name)

  unfoldable pub record_memory_error : Location → String → Io C (Unit {0})
  record_memory_error original error = do
    located ← gets (locate_memory_operation original)
    path ← lift located
    operation ← read_operation path
    atomic_json path (encode (record operation { last_error = some error }))
