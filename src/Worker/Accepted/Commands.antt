-- ===== src/Worker/Accepted/Commands.antt =====
-- The commands and the records in `memory/accepted`.
use prometheus_knowledge_rs.Worker.Jobs.{
  enqueue_memory, process_job, settle_job, run_job, run_jobs, run_once, RunInputs,
}
use prometheus_knowledge_rs.Worker.Disk.{
  Directory, pending, processing, retry, rejected, completed, memory_pending, memory_submitting,
  memory_retry, memory_completed, queue_root, Location, at, Fault, duplicate_name,
  preserve_duplicate_in,
}
use prometheus_knowledge_rs.Worker.Run.{RunSummary}
use prometheus_knowledge_rs.Worker.Accepted.Pass.{reconcile_all-IsClean}
use prometheus_knowledge_rs.Prelude.{ℕ, Bool, List, [], ◌∷◌, arith, String}
use prometheus_knowledge_rs.Worker.Operation.{LearningJob, MemoryOperation, Result, ok, err}
use prometheus_knowledge_rs.Worker.Queue.{
  Host, recover_file, recover_processing, migrate_legacy_job_retry, recover_submitting_file,
  recover_memory_submitting, migrate_memory_file, migrate_legacy_memory_retry, with_extension,
  reject_job,
}
use prometheus_knowledge_rs.Worker.Disk.Keeps.{
  Keeps, Keeps-pure, Keeps-lift, Keeps-gets, Keeps-if, Keeps-bind, Keeps-each, Keeps-read,
}
use prometheus_knowledge_rs.Worker.Commands.{
  Command, run_worker, quarantine_stale, release_stalled, execute, execute_all,
}
use prometheus_knowledge_rs.Worker.Accepted.{
  IsClean, write_elsewhere, move_elsewhere, read_operation-IsClean, quarantine-IsClean,
  release-IsClean,
}

module _ {C : Type 0} (host : Host C) (project_scope : String → String) where
  recover_file-IsClean :
      (directory : Directory) (label millis name : String)
      → Keeps (IsClean host) (recover_file host directory label millis name)
  unfolding recover_file preserve_duplicate_in
  recover_file-IsClean directory label millis name = Keeps-bind _ _ (Keeps-gets _) λ taken.
      Keeps-if taken _ _
        (move_elsewhere host (at directory name) (at completed (duplicate_name name label millis))
          (omega arith))
        (move_elsewhere host (at directory name) (at pending name) (omega arith))

  recover_submitting_file-IsClean :
      (same : MemoryOperation → MemoryOperation → Bool) (name : String)
      → Keeps (IsClean host) (recover_submitting_file host same name)
  unfolding recover_submitting_file
  recover_submitting_file-IsClean same name = Keeps-bind _ _ (Keeps-gets _) λ found.
      Keeps-bind _ _ (Keeps-lift found) λ stored. Keeps-bind _ _ (Keeps-lift _) λ normal.
        Keeps-if _ _ _ (Keeps-pure tt)
          (write_elsewhere host (at memory_submitting name) _ (omega arith))

  migrate_memory_file-IsClean :
      (millis name : String) → Keeps (IsClean host) (migrate_memory_file host millis name)
  unfolding migrate_memory_file preserve_duplicate_in
  migrate_memory_file-IsClean millis name = Keeps-bind _ _ (Keeps-gets _) λ taken.
      Keeps-if taken _ _
        (move_elsewhere host (at memory_retry name)
          (at memory_completed (duplicate_name name "legacy-memory-retry" millis)) (omega arith))
        (Keeps-bind _ _ (read_operation-IsClean host (at memory_retry name)) λ operation.
          Keeps-bind _ _ (write_elsewhere host (at memory_retry name) _ (omega arith))
            λ u. move_elsewhere host (at memory_retry name) (at memory_pending name) (omega arith))

  recoveries :
      (millis : String) (same : MemoryOperation → MemoryOperation → Bool)
      → Keeps (IsClean host) (recover_processing host millis)
        × Keeps (IsClean host) (migrate_legacy_job_retry host millis)
        × Keeps (IsClean host) (recover_memory_submitting host same)
        × Keeps (IsClean host) (migrate_legacy_memory_retry host millis)
  unfolding recover_processing migrate_legacy_job_retry recover_memory_submitting
      migrate_legacy_memory_retry
  recoveries millis same = (
    Keeps-bind _ _ (Keeps-gets _) (λ names.
        Keeps-each _ names (recover_file-IsClean processing "recovered-processing" millis)),
    Keeps-bind _ _ (Keeps-gets _)
        (λ names. Keeps-each _ names (recover_file-IsClean retry "legacy-job-retry" millis)),
    Keeps-bind _ _ (Keeps-gets _)
        (λ names. Keeps-each _ names (recover_submitting_file-IsClean same)),
    Keeps-bind _ _ (Keeps-gets _)
        (λ names. Keeps-each _ names (migrate_memory_file-IsClean millis)),
  )

  enqueue_memory-IsClean :
      (job : LearningJob) (packet : String) (now : ℕ)
      → Keeps (IsClean host) (enqueue_memory host project_scope job packet now)
  unfolding enqueue_memory
  enqueue_memory-IsClean job packet now = Keeps-bind _ _ (Keeps-gets _) λ queued.
      Keeps-if queued _ _ (Keeps-pure tt)
        (write_elsewhere host (at memory_pending _) _ (omega arith))

  process_job-IsClean :
      (publish : LearningJob → Result String) (name : String) (now : ℕ) (millis : String)
      → Keeps (IsClean host) (process_job host project_scope publish name now millis)
  unfolding process_job preserve_duplicate_in
  process_job-IsClean publish name now millis =
      Keeps-bind _ _ (move_elsewhere host (at pending name) (at processing name) (omega arith)) λ u.
        Keeps-bind _ _ (Keeps-read (at processing name)) λ raw.
          Keeps-bind _ _ (Keeps-lift _) λ parsed. Keeps-bind _ _ (Keeps-lift _) λ job.
            Keeps-bind _ _ (Keeps-gets _) λ done.
              Keeps-if done _ _
                (move_elsewhere host (at processing name)
                  (at completed (duplicate_name name "duplicate-completed" millis)) (omega arith))
                (Keeps-bind _ _ (Keeps-lift _) λ packet.
                  Keeps-bind _ _ (enqueue_memory-IsClean job packet now)
                    λ v. move_elsewhere host (at processing name) (at completed name) (omega arith))

  reject_job-IsClean :
      (name error : String) (now : ℕ) → Keeps (IsClean host) (reject_job host name error now)
  unfolding reject_job
  reject_job-IsClean name error now = Keeps-bind _ _ (Keeps-read (at processing name)) λ original.
      Keeps-bind _ _
        (write_elsewhere host (at rejected (with_extension host name "failure.json")) _
          (omega arith))
        λ u.
          move_elsewhere host (at processing name)
            (at rejected (with_extension host name "source.json")) (omega arith)

  settle_job-IsClean :
      (name : String) (now : ℕ) (summary : RunSummary) (r : Result (Unit {0}))
      → Keeps (IsClean host) (settle_job host project_scope name now summary r)
  unfolding settle_job
  settle_job-IsClean name now summary (ok u) = Keeps-pure _
  settle_job-IsClean name now summary (err e) = Keeps-bind _ _ (Keeps-gets _) λ done.
      Keeps-if done _ _ (Keeps-pure _)
        (Keeps-bind _ _ (reject_job-IsClean name (host.error_text e) now) λ u. Keeps-pure _)

  run_jobs-IsClean :
      (publish : LearningJob → Result String) (now : ℕ) (millis : String) (summary : RunSummary)
      (names : List String)
      → Keeps (IsClean host) (run_jobs host project_scope publish now millis summary names)
  unfolding run_jobs run_job
  run_jobs-IsClean publish now millis summary [] = Keeps-pure summary
  run_jobs-IsClean publish now millis summary (name ∷ names) =
      Keeps-bind _ _
        (record {
          keeps = λ d h.
              (settle_job-IsClean name now summary
                  (process_job host project_scope publish name now millis d).0).keeps
                _ ((process_job-IsClean publish name now millis).keeps d h);
        })
        λ after. run_jobs-IsClean publish now millis after names

  run_once-IsClean : (run : RunInputs C) → Keeps (IsClean host) (run_once host project_scope run)
  unfolding run_once
  run_once-IsClean run =
      let (processing_kept, retry_kept, submitting_kept, memory_kept) =
        recoveries run.millis run.unchanged_record in
      Keeps-if _ _ _ (Keeps-pure _) (
        Keeps-bind _ _ processing_kept λ a. Keeps-bind _ _ retry_kept λ b.
          Keeps-bind _ _ submitting_kept λ c. Keeps-bind _ _ memory_kept λ e.
            Keeps-bind _ _ (Keeps-gets _) λ names.
              Keeps-bind _ _ (run_jobs-IsClean run.publish run.now run.millis _ names) λ jobs.
                Keeps-bind _ _ (reconcile_all-IsClean host run.visits _) λ pass.
                  Keeps-bind _ _ (Keeps-gets _) λ summary.
                    Keeps-bind _ _
                      (write_elsewhere host (at queue_root "status.json") _ (omega arith))
                      λ u. Keeps-pure _)

  execute-IsClean :
      (command : Command C) (faults : List Fault) (fs : List (Location × C))
      → IsClean host fs
      → IsClean host (execute host project_scope command faults fs)
  unfolding execute
  execute-IsClean (run_worker run) faults fs h =
      (run_once-IsClean run).keeps (record { files = fs; faults = faults }) h
  execute-IsClean (quarantine_stale lock_free name older_than dry_run now) faults fs h =
      (quarantine-IsClean host lock_free name older_than dry_run now).keeps
        (record { files = fs; faults = faults }) h
  execute-IsClean (release_stalled lock_free name ids now) faults fs h =
      (release-IsClean host lock_free name ids now).keeps (record { files = fs; faults = faults }) h

  -- After any commands, each with whatever faults and so cut off anywhere, no readable record in
  -- `memory/accepted` says that it is stalled, if none did before.
  pub execute_all-IsClean :
      (commands : List (Command C × List Fault)) (fs : List (Location × C))
      → IsClean host fs
      → IsClean host (execute_all host project_scope commands fs)
  unfolding execute_all
  execute_all-IsClean [] fs h = h
  execute_all-IsClean ((command, faults) ∷ rest) fs h =
      execute_all-IsClean rest (execute host project_scope command faults fs)
        (execute-IsClean command faults fs h)
