-- ===== src/Worker/Jobs.antt =====
-- Learning jobs: `memory_identity`, `lesson_project_id`, `enqueue_memory`, `process_job`, the job
-- loop of `run_once` and `run_once` itself, pk-learning-worker/src/main.rs.
--
-- What a job writes outside the queue is a parameter, `publish`: the session packet, the knowledge
-- store, the prompt snapshot and the learning log, and the packet's text if all of that worked.
-- `project_scope` is a parameter too: it reads a project's manifest.
pub mod Enqueue
use prometheus_knowledge_rs.Worker.Health.{accepted_health}
use prometheus_knowledge_rs.Worker.Receipt.{second}
use prometheus_knowledge_rs.Worker.Disk.{
  pending, processing, completed, memory_pending, memory_completed, memory_stalled, queue_root,
  Location, at, lookup, json_files, Io, pure, lift, gets, ◌>>=◌, ◌>>◌, read, atomic_json,
  durable_rename, preserve_duplicate_in,
}
use prometheus_knowledge_rs.Prelude.{
  ℕ, ◌+◌, ◌*◌, ◌/◌, Bool, not, ◌||◌, Option, none, some, List, [], ◌∷◌, String, ◌==◌, if◌then◌else◌,
  is_some, unwrap_or, length,
}
use prometheus_knowledge_rs.Worker.Operation.{
  Value, string, array, object, nil, cons, end, field, LearningScope, project, shared, LearningJob,
  MemoryOperation, Error, unreadable, unsupported_schema, Result, ok, err, context,
}
use prometheus_knowledge_rs.Worker.Queue.{
  Host, recover_processing, migrate_legacy_job_retry, recover_memory_submitting,
  migrate_legacy_memory_retry, reject_job,
}
use prometheus_knowledge_rs.Worker.Run.{default_summary, RunSummary, Visit, reconcile_all}
use Prim.Native.String.{◌++◌ as append}
use prometheus_knowledge_rs.Worker.Payload.{trimmed}

abbrev pub agent_of : Option String → Option String → String
agent_of (some team) (some role) = append team (append "/" role)
agent_of team role = "@project"

module _ (project_scope : String → String) where
  unfoldable pub lesson_project_id : LearningJob → String
  lesson_project_id job = unwrap_or (project_scope job.project_root) (trimmed job.project_id)

  abbrev pub identity_in : LearningScope → LearningJob → String × String
  identity_in shared job = ("@global", "@global")
  identity_in project job = (
    unwrap_or (project_scope job.project_root) (trimmed job.project_id),
    agent_of (trimmed job.team_id) (trimmed job.role_id),
  )

  -- The user and agent under which a job's memory is stored.
  unfoldable pub memory_identity : LearningJob → String × String
  memory_identity job = identity_in job.scope job

-- What a run meets: the derived `==` of records, what the jobs write elsewhere, what each file finds
-- when its turn comes, the lock, the clock, the failures of promotion and of skill discovery, the
-- staleness threshold in seconds, and serde's text of the summary.
pub record RunInputs (C : Type 0) : Type 0 where
  pub unchanged_record : MemoryOperation → MemoryOperation → Bool
  pub publish : LearningJob → Result String
  pub visits : String → Visit
  pub lock_free : Bool
  pub now : ℕ
  pub finish : ℕ
  pub millis : String
  pub promotion_failure : Option String
  pub skill_failure : Option String
  pub stale_after : ℕ
  pub encode_summary : RunSummary → C

module _ {C : Type 0} (host : Host C) (project_scope : String → String) where
  open host use {platform, encode, decode_job, error_text}

  unfoldable pub memory_arguments : LearningJob → String → Value
  memory_arguments job packet =
      let (user_id, agent_id) = memory_identity project_scope job in
      object (
        field "agent_id" (string agent_id) (
          field "categories"
            (array (cons (string "karpathy") (cons (string "session-learning") nil)))
            (field "content" (string packet)
              (field "session_id" (string job.session_id) (field "user_id" (string user_id) end)))))

  unfoldable pub queued_operation : LearningJob → String → ℕ → MemoryOperation
  queued_operation job packet now = record {
    schema_version = 2;
    operation_id = job.event_id;
    method = "add_memory";
    arguments = memory_arguments job packet;
    dependencies = [];
    payload_hash = some (platform.canonical_payload_hash (memory_arguments job packet));
    state = "pending";
    queued_at = platform.to_rfc3339 now;
    last_error = none;
    receipt = none;
    first_accepted_at = none;
    last_receipt_state = none;
    last_receipt_progress_seq = none;
    last_receipt_change_at = none;
    unchanged_polls = 0;
    next_poll_at = none;
  }

  -- A record that is pending or completed is left as it is.
  unfoldable pub enqueue_memory : LearningJob → String → ℕ → Io C (Unit {0})
  enqueue_memory job packet now = do
    let filename = append job.event_id ".json"
    queued ← gets (λ fs.
        is_some (lookup (at memory_pending filename) fs)
        || is_some (lookup (at memory_completed filename) fs))
    if queued
        then pure tt
        else atomic_json (at memory_pending filename) (encode (queued_operation job packet now))

  abbrev supported : LearningJob → Result LearningJob
  supported job =
      if job.schema_version == 2 then ok job else err (unsupported_schema job.schema_version)

  unfoldable pub process_job : (LearningJob → Result String) → String → ℕ → String → Io C (Unit {0})
  process_job publish name now millis = do
    durable_rename (at pending name) (at processing name)
    raw ← read (at processing name)
    parsed ← lift (context (decode_job raw) unreadable)
    job ← lift (supported parsed)
    done ← gets (λ fs. is_some (lookup (at completed name) fs))
    if done
        then preserve_duplicate_in completed (at processing name) "duplicate-completed" millis
        else do
          packet ← lift (publish job)
          enqueue_memory job packet now
          durable_rename (at processing name) (at completed name)

  abbrev failed_with : Error → RunSummary → RunSummary
  failed_with e summary = record summary { last_error = some (error_text e) }

  -- A job that raised is rejected, unless its completed record is there.
  unfoldable pub settle_job : String → ℕ → RunSummary → Result (Unit {0}) → Io C RunSummary
  settle_job name now summary (ok u) =
      pure (record summary { jobs_completed = summary.jobs_completed + 1 })
  settle_job name now summary (err e) = do
    let noted = failed_with e summary
    done ← gets (λ fs. is_some (lookup (at completed name) fs))
    if done then pure (record noted { jobs_completed = noted.jobs_completed + 1 }) else do
      reject_job host name (error_text e) now
      pure (record noted { jobs_rejected = noted.jobs_rejected + 1 })

  unfoldable pub run_job :
      (LearningJob → Result String) → ℕ → String → RunSummary → String → Io C RunSummary
  run_job publish now millis summary name d =
      let (outcome, d') = process_job publish name now millis d in
      settle_job name now summary outcome d'

  unfoldable pub run_jobs :
      (LearningJob → Result String) → ℕ → String → RunSummary → List String → Io C RunSummary
  run_jobs publish now millis summary [] = pure summary
  run_jobs publish now millis summary (name ∷ names) = do
    after ← run_job publish now millis summary name
    run_jobs publish now millis after names

  -- A failure of promotion or skill discovery is noted and holds nothing up.
  abbrev pub note_failure : Option String → RunSummary → RunSummary
  note_failure none summary = summary
  note_failure (some message) summary = record summary { last_error = some message }

  abbrev pub with_health : RunInputs C → List (Location × C) → RunSummary → RunSummary
  with_health run fs summary =
      let health = accepted_health host run.finish (run.stale_after * second) fs in
      record summary {
        memory_stale = health.stale;
        oldest_accepted_age_seconds = health.oldest_age_seconds;
        memory_stalled = length (json_files memory_stalled fs);
        stale_after_seconds = run.stale_after;
        completed_at = platform.to_rfc3339 run.finish;
      }

  -- A run that finds the lock taken does nothing.
  unfoldable pub run_once : RunInputs C → Io C RunSummary
  run_once run = if not run.lock_free then pure default_summary else do
    recover_processing host run.millis
    migrate_legacy_job_retry host run.millis
    recover_memory_submitting host run.unchanged_record
    migrate_legacy_memory_retry host run.millis
    names ← gets (json_files pending)
    let started = record default_summary { started_at = platform.to_rfc3339 run.now }
    jobs ← run_jobs run.publish run.now run.millis started names
    pass ←
        reconcile_all host run.visits
          (note_failure run.skill_failure (note_failure run.promotion_failure jobs))
    summary ← gets (λ fs. with_health run fs pass.summary)
    atomic_json (at queue_root "status.json") (run.encode_summary summary)
    pure summary
