-- ===== src/Examples/Queue.antt =====
-- The theorems on the learning worker's queue, at concrete inputs.
use prometheus_knowledge_rs.Worker.Jobs.{enqueue_memory, RunInputs}
use prometheus_knowledge_rs.Worker.Run.Counts.{IsCounted, reconcile_all-IsCounted}
use mathlib.Core.Path.{subst}
use prometheus_knowledge_rs.Prelude.{
  ◌≡◌, refl, true, false, none, some, List, [], ◌∷◌, arith, String, if◌then◌else◌, trim_string,
  str_eq, ap, ◌∙◌, trim_start_matches, eq_iff, inl, inr,
}
use prometheus_knowledge_rs.Worker.Operation.{
  OperationReceipt, MemoryOperation, unreadable, contract_mismatch, unknown_receipt_state, ok, err,
}
use prometheus_knowledge_rs.Worker.Disk.{
  memory_accepted, memory_completed, memory_manifests, Location, at, same_location, Fault, works,
  fails, unsynced, lookup, Disk, is_json, sort_names, put, names_in, json_files, pure, lift, gets,
  ◌>>=◌, perform, atomic_json,
}
use prometheus_knowledge_rs.Worker.Queue.{
  operation_at, read_operation, first_holding, locate_memory_operation, record_memory_error,
}
use prometheus_knowledge_rs.Worker.Reconcile.{
  unreachable, contract_holds, destination, receipt_outcome, apply_receipt, fetch_receipt,
  begin_submission, reconcile_memory,
}
use prometheus_knowledge_rs.Worker.Quarantine.{quarantine}
use prometheus_knowledge_rs.Worker.Run.{
  Visit, Pass, poll_deferred, settle, attempt, visit_file, visit_names, visit_directories,
  reconcile_all, default_summary,
}
use prometheus_knowledge_rs.Worker.Commands.{
  Command, run_worker, quarantine_stale, release_stalled, execute_all,
}
use prometheus_knowledge_rs.Worker.Disk.Survival.{Holds}
use prometheus_knowledge_rs.Worker.Payload.{normalize_operation, normalize_payload}
use prometheus_knowledge_rs.Worker.Receipt.{observe_receipt}
use prometheus_knowledge_rs.Worker.Reconcile.Receipts.{
  settled_record, apply_receipt-refused, IsForeign, apply_receipt-moves,
}
use prometheus_knowledge_rs.Worker.Accepted.{NotStalled, IsClean}
use prometheus_knowledge_rs.Worker.Accepted.Commands.{execute_all-IsClean}
use prometheus_knowledge_rs.Worker.Survival.{identity}
use prometheus_knowledge_rs.Worker.Survival.Quarantine.{quarantine-Holds}
use prometheus_knowledge_rs.Worker.Jobs.Enqueue.{
  is_queued, enqueue_memory-keeps, enqueue_memory_idem,
}
use prometheus_knowledge_rs.Examples.Sample.{
  Content, torn, operation_file, sample_platform, sample_host, waiting, committed, session_job,
}

abbrev place : Location
place = at memory_accepted "op-1.json"

abbrev queue : List (Location × Content)
queue = (place, operation_file waiting) ∷ []

abbrev foreign : OperationReceipt
foreign = record committed { operation_id = "op-2" }

foreign_differs : IsForeign waiting foreign "5feceb66ffc86f38"
foreign_differs =
    inr (inl (λ e. let same = (eq_iff foreign.operation_id waiting.operation_id).1 e in cc))

apply_receipt-refused_example :
    apply_receipt sample_host place waiting foreign 7 "7"
      (record { files = queue; faults = fails ∷ [] })
    ≡ (err contract_mismatch, record { files = queue; faults = fails ∷ [] })
apply_receipt-refused_example =
    apply_receipt-refused sample_host place waiting foreign 7 "7" _ "5feceb66ffc86f38" refl
      foreign_differs

abbrev odd : OperationReceipt
odd = record committed { state = "archived" }

odd_agrees : contract_holds waiting odd "5feceb66ffc86f38" ≡ true
unfolding contract_holds
odd_agrees = refl

odd_unknown : destination "archived" ≡ err (unknown_receipt_state "archived")
unfolding destination
odd_unknown = refl

committed_agrees : contract_holds waiting committed "5feceb66ffc86f38" ≡ true
unfolding contract_holds
committed_agrees = refl

committed_known : destination "committed" ≡ ok ("completed", memory_completed)
unfolding destination
committed_known = refl

completed_is_elsewhere : same_location place (at memory_completed "op-1.json") ≡ false
unfolding same_location
completed_is_elsewhere = refl

not_completed : lookup (at memory_completed "op-1.json") queue ≡ none
unfolding lookup same_location
not_completed = refl

apply_receipt-moves_example :
    let (r, d) =
      apply_receipt sample_host place waiting committed 7 "7"
        (record { files = queue; faults = [] }) in
    (r
      ≡ ok (
          receipt_outcome "accepted" "completed"
            (observe_receipt sample_platform waiting committed 7).1))
    × ((q : Location)
        → lookup q d.files ≡ (
            if same_location (at memory_completed "op-1.json") q
            then some (operation_file (settled_record sample_host waiting committed "completed" 7))
            else if same_location place q
            then none
            else lookup q queue))
apply_receipt-moves_example =
    apply_receipt-moves sample_host place waiting committed 7 "7" queue "5feceb66ffc86f38"
      "completed" memory_completed refl committed_agrees committed_known completed_is_elsewhere
      not_completed

no_manifest : lookup (at memory_manifests "m1.json") queue ≡ none
unfolding lookup same_location
no_manifest = refl

waiting_found : lookup place queue ≡ some (operation_file waiting)
unfolding lookup same_location
waiting_found = refl

-- The rename works, and the rewrite of the moved record fails.
quarantine-Holds_example :
    Holds
      (identity sample_host)
      (quarantine sample_host true "m1.json" 5 false 9
        (record { files = queue; faults = works ∷ works ∷ fails ∷ [] })).1.files
      "op-1"
quarantine-Holds_example =
    quarantine-Holds sample_host true "m1.json" 5 false 9 _ "op-1" no_manifest (record {
      place = place;
      content = operation_file waiting;
      found = waiting_found;
      carries = refl;
    })

accepted_state : str_eq waiting.state "stalled" ≡ false
accepted_state = refl

found_waiting : (p : Location) (c : Content) → lookup p queue ≡ some c → operation_file waiting ≡ c
unfolding lookup
found_waiting p c found = ground arith

read_waiting :
    (operation : MemoryOperation)
    → sample_host.decode (operation_file waiting) ≡ some operation
    → waiting ≡ operation
read_waiting operation e = cc

waiting_only : (p : Location) (c : Content) → lookup p queue ≡ some c → NotStalled sample_host p c
waiting_only p c found here operation e =
    let read = read_waiting operation (ap sample_host.decode (found_waiting p c found) ∙ e) in
    subst (λ (o : MemoryOperation). str_eq o.state "stalled" ≡ false) read accepted_state

abbrev silent : String → Visit
silent name = record {
  now = 9;
  millis = "9";
  server = record {
    lookup_operation = λ id. unreachable;
    ready = unreachable;
    submit = λ s. unreachable;
  };
}

abbrev sample_run : RunInputs Content
sample_run = record {
  unchanged_record = λ a b. false;
  publish = λ job. err unreadable;
  visits = silent;
  lock_free = true;
  now = 9;
  finish = 10;
  millis = "9";
  promotion_failure = some "promotion detector: HOME unavailable";
  skill_failure = none;
  stale_after = 21600;
  encode_summary = λ s. torn;
}

abbrev commands : List (Command Content × List Fault)
commands =
    (quarantine_stale true "m1.json" 5 false 9, works ∷ works ∷ fails ∷ [])
    ∷ (run_worker sample_run, unsynced ∷ [])
    ∷ (release_stalled true "m2.json" none 10, [])
    ∷ []

execute_all-IsClean_example :
    IsClean sample_host (execute_all sample_host (λ root. "project:app") commands queue)
execute_all-IsClean_example =
    execute_all-IsClean sample_host (λ root. "project:app") commands queue
      (record { each_file = waiting_only })

abbrev two_queued : Disk Content
two_queued = record { files = queue; faults = [] }

enqueue_memory-keeps_example :
    lookup place
      (enqueue_memory sample_host (λ root. "project:app") session_job "packet" 3 two_queued).1.files
    ≡ some (operation_file waiting)
enqueue_memory-keeps_example =
    enqueue_memory-keeps sample_host (λ root. "project:app") session_job "packet" 3 two_queued place
      (operation_file waiting) waiting_found

enqueue_memory_idem_example :
    let (r, first) =
      enqueue_memory sample_host
        (λ root. "project:app")
        session_job
        "packet"
        3
        (record { files = queue; faults = [] }) in
    (r ≡ ok tt)
    × (is_queued sample_host (λ root. "project:app") session_job first.files ≡ true)
    × (enqueue_memory sample_host (λ root. "project:app") session_job "later packet" 8 first
        ≡ (ok tt, first))
enqueue_memory_idem_example =
    enqueue_memory_idem sample_host (λ root. "project:app") session_job "packet" "later packet" 3 8
      queue

-- The one record meets a server that cannot be reached: it is counted and the pass stops.
abbrev stopped_pass : Pass
stopped_pass = record {
  summary = record default_summary {
    last_error = some "request failed";
    memory_awaiting_reconciliation = 1;
  };
  reconciled = "op-1.json" ∷ [];
  stopped = true;
}

pass_stops :
    (reconcile_all sample_host silent default_summary (record { files = queue; faults = [] })).0
    ≡ ok stopped_pass
unfolding reconcile_all visit_directories visit_names visit_file attempt settle poll_deferred
    reconcile_memory begin_submission fetch_receipt read_operation operation_at normalize_operation
    normalize_payload trim_string same_location lookup put gets lift pure json_files names_in
    sort_names is_json perform atomic_json record_memory_error locate_memory_operation first_holding
    trim_start_matches ◌>>=◌
pass_stops = refl

reconcile_all-IsCounted_example : IsCounted stopped_pass
reconcile_all-IsCounted_example =
    reconcile_all-IsCounted sample_host silent (record { files = queue; faults = [] }) stopped_pass
      pass_stops
