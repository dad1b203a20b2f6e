-- ===== src/Worker/Quarantine.antt =====
-- Taking stale operations out of the redelivery loop and returning them: `quarantine`, `release`,
-- `write_manifest` and `try_worker_lock`, pk-learning-worker/src/main.rs.
--
-- `lock_free` says whether the queue lock can be taken; the lock file itself is not modelled.
pub mod Clock
pub mod Refused
use prometheus_knowledge_rs.Prelude.{
  ℕ, Bool, false, not, ◌||◌, Option, none, some, List, [], ◌∷◌, map, String, str_eq, if◌then◌else◌,
  is_some, keep, is_empty,
}
use prometheus_knowledge_rs.Worker.Operation.{
  OperationReceipt, MemoryOperation, already_exists, worker_running, not_stalled, Result, ok, err,
}
use prometheus_knowledge_rs.Worker.Disk.{
  Directory, memory_pending, memory_accepted, memory_stalled, memory_manifests, Location, at,
  lookup, json_files, Io, pure, raise, lift, gets, ◌>>=◌, ◌>>◌, atomic_json, durable_rename,
}
use prometheus_knowledge_rs.Worker.Queue.{
  ManifestEntry, quarantined, released, Manifest, Host, operation_at,
}
use prometheus_knowledge_rs.Worker.Staleness.{is_stale, stale_since}

-- `ids.contains(id)`
abbrev pub has_text : String → List String → Bool
has_text t [] = false
has_text t (s ∷ ss) = str_eq s t || has_text t ss

module _ {C : Type 0} (host : Host C) where
  open host use {platform, encode, encode_manifest}

  -- Nothing is written where nothing moves.
  unfoldable pub write_manifest : String → Manifest → Io C (Unit {0})
  write_manifest name manifest =
      if is_empty manifest.operations
      then pure tt
      else atomic_json (at memory_manifests name) (encode_manifest manifest)

  abbrev pub take_lock : Bool → Io C (Unit {0})
  take_lock lock_free = if lock_free then pure tt else raise worker_running

  -- The readable stale records among the named ones.
  unfoldable pub select_stale :
      ℕ → ℕ → List (Location × C) → List String → List (String × MemoryOperation)
  select_stale older_than now fs [] = []
  select_stale older_than now fs (name ∷ names) =
      let rest = select_stale older_than now fs names in
      elim (operation_at host (at memory_accepted name) fs) [
        | err e ↦ rest
        | ok operation ↦
            if is_stale platform operation now older_than then (name, operation) ∷ rest else rest
      ]

  -- The first of the records whose place in a directory is taken.
  unfoldable pub first_taken :
      (MemoryOperation → Directory)
      → List (Location × C)
      → List (String × MemoryOperation)
      → Option String
  first_taken target fs [] = none
  first_taken target fs ((name, operation) ∷ rest) =
      if is_some (lookup (at (target operation) name) fs)
      then some name
      else first_taken target fs rest

  abbrev pub quarantine_entry : String × MemoryOperation → ManifestEntry
  quarantine_entry (name, operation) = record {
    operation_id = operation.operation_id;
    from = memory_accepted;
    to = memory_stalled;
    last_receipt_state = operation.last_receipt_state;
    stale_since = stale_since platform operation;
  }

  -- Rename first: a crash in between never leaves a "stalled" record in `memory/accepted`.
  unfoldable pub stall_operation : String × MemoryOperation → Io C (Unit {0})
  stall_operation (name, operation) = do
    durable_rename (at memory_accepted name) (at memory_stalled name)
    atomic_json (at memory_stalled name) (encode (record operation { state = "stalled" }))

  unfoldable pub each_operation :
      (String × MemoryOperation → Io C (Unit {0}))
      → List (String × MemoryOperation)
      → Io C (Unit {0})
  each_operation f [] = pure tt
  each_operation f (o ∷ os) = f o >> each_operation f os

  abbrev pub free_place : Option String → Io C (Unit {0})
  free_place none = pure tt
  free_place (some name) = raise (already_exists name)

  abbrev pub quarantine_manifest : ℕ → Bool → ℕ → List (String × MemoryOperation) → Manifest
  quarantine_manifest older_than dry_run now selected = record {
    action = quarantined;
    created_at = now;
    dry_run = dry_run;
    older_than = some older_than;
    operations = map quarantine_entry selected;
  }

  -- The part that a dry run leaves out.
  unfoldable pub quarantine_moves :
      String → Manifest → List (String × MemoryOperation) → Io C (Unit {0})
  quarantine_moves manifest_name manifest selected =
      write_manifest manifest_name manifest >> each_operation stall_operation selected

  unfoldable pub quarantine : Bool → String → ℕ → Bool → ℕ → Io C Manifest
  quarantine lock_free manifest_name older_than dry_run now = do
    take_lock (dry_run || lock_free)
    names ← gets (json_files memory_accepted)
    selected ← gets (λ fs. select_stale older_than now fs names)
    taken ← gets (λ fs. first_taken (λ o. memory_stalled) fs selected)
    free_place taken
    let manifest = quarantine_manifest older_than dry_run now selected
    if dry_run
        then pure manifest
        else do quarantine_moves manifest_name manifest selected; pure manifest

  -- Every stalled record is read, and one that cannot be read ends the command.
  unfoldable pub read_all :
      List (Location × C) → List String → Result (List (String × MemoryOperation))
  read_all fs [] = ok []
  read_all fs (name ∷ names) =
      let rest = read_all fs names in
      elim (operation_at host (at memory_stalled name) fs) [
        | err e ↦ err e
        | ok operation ↦ elim rest [ err e ↦ err e | ok others ↦ ok ((name, operation) ∷ others) ]
      ]

  abbrev pub operation_ids : List (String × MemoryOperation) → List String
  operation_ids = map (λ (o : String × MemoryOperation). o.1.operation_id)

  -- `None` selects everything; an id that no stalled record has is refused.
  unfoldable pub select_released :
      Option (List String)
      → List (String × MemoryOperation)
      → Result (List (String × MemoryOperation))
  select_released none stalled = ok stalled
  select_released (some ids) stalled =
      let missing = keep (λ id. not (has_text id (operation_ids stalled))) ids in
      if is_empty missing
      then ok (keep (λ (o : String × MemoryOperation). has_text o.1.operation_id ids) stalled)
      else err (not_stalled missing)

  abbrev pub release_state : MemoryOperation → String
  release_state operation = if is_some operation.receipt then "accepted" else "pending"

  abbrev pub release_directory : MemoryOperation → Directory
  release_directory operation =
      if is_some operation.receipt then memory_accepted else memory_pending

  abbrev pub restart_clock : ℕ → Option OperationReceipt → MemoryOperation → MemoryOperation
  restart_clock now none operation = operation
  restart_clock now (some receipt) operation = record operation {
    last_receipt_state = some receipt.state;
    last_receipt_progress_seq = some receipt.progress_seq;
    last_receipt_change_at = some (platform.to_rfc3339 now);
  }

  unfoldable pub released_record : ℕ → MemoryOperation → MemoryOperation
  released_record now operation = restart_clock now operation.receipt (record operation {
    state = release_state operation;
    unchanged_polls = 0;
    next_poll_at = none;
  })

  -- Rewrite first: a crash in between leaves the record where a second release finds it.
  unfoldable pub release_operation : ℕ → String × MemoryOperation → Io C (Unit {0})
  release_operation now (name, operation) = do
    atomic_json (at memory_stalled name) (encode (released_record now operation))
    durable_rename (at memory_stalled name) (at (release_directory operation) name)

  abbrev pub release_entry : String × MemoryOperation → ManifestEntry
  release_entry (name, operation) = record {
    operation_id = operation.operation_id;
    from = memory_stalled;
    to = release_directory operation;
    last_receipt_state = operation.last_receipt_state;
    stale_since = none;
  }

  abbrev pub release_manifest : ℕ → List (String × MemoryOperation) → Manifest
  release_manifest now selected = record {
    action = released;
    created_at = now;
    dry_run = false;
    older_than = none;
    operations = map release_entry selected;
  }

  unfoldable pub release : Bool → String → Option (List String) → ℕ → Io C Manifest
  release lock_free manifest_name ids now = do
    take_lock lock_free
    names ← gets (json_files memory_stalled)
    found ← gets (λ fs. read_all fs names)
    stalled ← lift found
    selected ← lift (select_released ids stalled)
    taken ← gets (λ fs. first_taken release_directory fs selected)
    free_place taken
    let manifest = release_manifest now selected
    write_manifest manifest_name manifest
    each_operation (release_operation now) selected
    pure manifest
