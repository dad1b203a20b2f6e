-- ===== src/Worker/Run.antt =====
-- One pass over the memory operations of the queue, the part of `run_once` from its HTTP client on,
-- with `poll_deferred`, pk-learning-worker/src/main.rs.
pub mod Counts
use prometheus_knowledge_rs.Worker.Health.{ℤ}
use prometheus_knowledge_rs.Prelude.{
  ℕ, ◌+◌, Bool, true, false, ◌&&◌, Option, none, some, List, [], ◌∷◌, String, ltb, if◌then◌else◌,
  bind,
}
use prometheus_knowledge_rs.Worker.Operation.{
  MemoryOperation, ReceiptOutcome, transitioned, progressed, unchanged, Error,
  transport_unavailable, Result, ok, err,
}
use prometheus_knowledge_rs.Worker.Disk.{
  Directory, memory_pending, memory_submitting, memory_accepted, Location, at, json_files, Io, pure,
  gets, ◌>>=◌, ◌>>◌,
}
use prometheus_knowledge_rs.Worker.Queue.{Host, operation_at, record_memory_error}
use prometheus_knowledge_rs.Worker.Reconcile.{Server, reconcile_memory}
use prometheus_knowledge_rs.Worker.Quarantine.{has_text}

pub record RunSummary : Type 0 where
  pub started_at : String
  pub completed_at : String
  pub jobs_completed : ℕ
  pub jobs_rejected : ℕ
  pub memory_delivered : ℕ
  pub memory_in_flight : ℕ
  pub memory_deferred : ℕ
  pub memory_awaiting_reconciliation : ℕ
  pub memory_stale : ℕ
  pub memory_stalled : ℕ
  pub oldest_accepted_age_seconds : Option ℤ
  pub stale_after_seconds : ℕ
  pub last_error : Option String

-- The summary, the names already handled in this run, and whether the transport is gone.
pub record Pass : Type 0 where
  pub summary : RunSummary
  pub reconciled : List String
  pub stopped : Bool

abbrev pub memory_transport_unavailable : Error → Bool
memory_transport_unavailable transport_unavailable = true
memory_transport_unavailable e = false

-- What one file meets when its turn comes: the clock and the server's answers.
pub record Visit : Type 0 where
  pub now : ℕ
  pub millis : String
  pub server : Server

abbrev pub is_accepted_directory : Directory → Bool
is_accepted_directory memory_accepted = true
is_accepted_directory d = false

unfoldable pub count_outcome : ReceiptOutcome → RunSummary → RunSummary
count_outcome transitioned s = record s { memory_delivered = s.memory_delivered + 1 }
count_outcome progressed s = record s { memory_in_flight = s.memory_in_flight + 1 }
count_outcome unchanged s = record s { memory_in_flight = s.memory_in_flight + 1 }

abbrev pub default_summary : RunSummary
default_summary = record {
  started_at = "";
  completed_at = "";
  jobs_completed = 0;
  jobs_rejected = 0;
  memory_delivered = 0;
  memory_in_flight = 0;
  memory_deferred = 0;
  memory_awaiting_reconciliation = 0;
  memory_stale = 0;
  memory_stalled = 0;
  oldest_accepted_age_seconds = none;
  stale_after_seconds = 0;
  last_error = none;
}

abbrev pub fresh_pass : RunSummary → Pass
fresh_pass summary = record { summary = summary; reconciled = []; stopped = false }

abbrev pub enter : String → Pass → Pass
enter name pass = record pass { reconciled = name ∷ pass.reconciled }

abbrev pub count_deferred : Pass → Pass
count_deferred pass = record pass {
  summary = record pass.summary { memory_deferred = pass.summary.memory_deferred + 1 };
}

module _ {C : Type 0} (host : Host C) where
  open host use {platform, error_text}

  abbrev next_poll : Result MemoryOperation → Option ℕ
  next_poll (ok operation) = bind operation.next_poll_at platform.parse_time
  next_poll (err e) = none

  abbrev is_after : Option ℕ → ℕ → Bool
  is_after none now = false
  is_after (some time) now = ltb now time

  unfoldable pub poll_deferred : Location → ℕ → List (Location × C) → Bool
  poll_deferred path now fs = is_after (next_poll (operation_at host path fs)) now

  -- `match reconcile_memory(..)`: an error is counted and recorded, and the pass goes on unless the
  -- transport is gone. A failure to record it ends the run.
  unfoldable pub settle : Location → Pass → Result ReceiptOutcome → Io C Pass
  settle path pass (ok outcome) =
      pure (record pass { summary = count_outcome outcome pass.summary })
  settle path pass (err e) = do
    record_memory_error host path (error_text e)
    pure (record pass {
      summary = record pass.summary {
        last_error = some (error_text e);
        memory_awaiting_reconciliation = pass.summary.memory_awaiting_reconciliation + 1;
      };
      stopped = memory_transport_unavailable e;
    })

  unfoldable pub attempt : Location → Visit → Pass → Io C Pass
  attempt path visit pass d =
      let (outcome, d') = reconcile_memory host visit.server path visit.now visit.millis d in
      settle path pass outcome d'

  unfoldable pub visit_file : Directory → String → Visit → Pass → Io C Pass
  visit_file directory name visit pass = if has_text name pass.reconciled then pure pass else do
    deferred ← gets (poll_deferred (at directory name) visit.now)
    if is_accepted_directory directory && deferred
        then pure (count_deferred (enter name pass))
        else attempt (at directory name) visit (enter name pass)

  -- The loop over a directory's names; `visits` gives what each name meets.
  unfoldable pub visit_names : Directory → (String → Visit) → List String → Pass → Io C Pass
  visit_names directory visits [] pass = pure pass
  visit_names directory visits (name ∷ names) pass = do
    after ← visit_file directory name (visits name) pass
    if after.stopped then pure after else visit_names directory visits names after

  unfoldable pub visit_directories : (String → Visit) → List Directory → Pass → Io C Pass
  visit_directories visits [] pass = pure pass
  visit_directories visits (directory ∷ rest) pass = do
    names ← gets (json_files directory)
    after ← visit_names directory visits names pass
    if after.stopped then pure after else visit_directories visits rest after

  unfoldable pub reconcile_all : (String → Visit) → RunSummary → Io C Pass
  reconcile_all visits summary =
      visit_directories visits (memory_submitting ∷ memory_accepted ∷ memory_pending ∷ [])
        (fresh_pass summary)
