-- ===== src/Worker/Commands.antt =====
-- The commands of the worker's binary that change the queue, `main`, pk-learning-worker/src/main.rs.
-- Each runs in a process of its own, with its own faults; what it returns or raises is printed.
use prometheus_knowledge_rs.Prelude.{ℕ, Bool, Option, List, [], ◌∷◌, String}
use prometheus_knowledge_rs.Worker.Disk.{Location, Fault}
use prometheus_knowledge_rs.Worker.Queue.{Host}
use prometheus_knowledge_rs.Worker.Quarantine.{quarantine, release}
use prometheus_knowledge_rs.Worker.Jobs.{RunInputs, run_once}

pub data Command (C : Type 0) : Type 0 where
  run_worker : RunInputs C → Command C
  quarantine_stale : Bool → String → ℕ → Bool → ℕ → Command C
  release_stalled : Bool → String → Option (List String) → ℕ → Command C

module _ {C : Type 0} (host : Host C) (project_scope : String → String) where
  unfoldable pub execute : Command C → List Fault → List (Location × C) → List (Location × C)
  execute (run_worker run) faults fs =
      (run_once host project_scope run (record { files = fs; faults = faults })).1.files
  execute (quarantine_stale lock_free name older_than dry_run now) faults fs =
      (quarantine host lock_free name older_than dry_run now
        (record { files = fs; faults = faults })).1.files
  execute (release_stalled lock_free name ids now) faults fs =
      (release host lock_free name ids now (record { files = fs; faults = faults })).1.files

  unfoldable pub execute_all :
      List (Command C × List Fault) → List (Location × C) → List (Location × C)
  execute_all [] fs = fs
  execute_all ((command, faults) ∷ rest) fs = execute_all rest (execute command faults fs)
