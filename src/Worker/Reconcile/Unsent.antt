-- ===== src/Worker/Reconcile/Unsent.antt =====
-- What is left of an operation whose exchange with the server fails.
use prometheus_knowledge_rs.Prelude.{
  ℕ, ◌≡◌, ap, ◌∙◌, true, none, some, List, [], String, str_eq, if◌then◌else◌,
}
use mathlib.Core.Path.{ap}
use prometheus_knowledge_rs.Worker.Operation.{
  MemoryOperation, ReceiptOutcome, Error, Result, ok, err,
}
use prometheus_knowledge_rs.Worker.Disk.{
  memory_submitting, Location, at, same_location, lookup, put, remove, Disk, pure, lift, read,
  atomic_json, durable_rename,
}
use prometheus_knowledge_rs.Worker.Queue.{Host, operation_at, read_operation}
use prometheus_knowledge_rs.Worker.Reconcile.{
  Server, fetch_receipt, begin_submission, reconcile_memory,
}
use prometheus_knowledge_rs.Worker.Disk.Steps.{
  sound, lift_err, gets_ok, returned, if_true, atomic_json-works, durable_rename-works,
}
use prometheus_knowledge_rs.Worker.Disk.Laws.{lookup-put_self, lookup-rewrite-rename}

module _ {C : Type 0} (host : Host C) where
  open host use {encode}

  -- The record while its exchange with the server is open.
  abbrev pub submitting_record : MemoryOperation → MemoryOperation
  submitting_record operation = record operation { state = "submitting"; last_error = none }

  begin_submission-works :
      (path : Location) (operation : MemoryOperation) (fs : List (Location × C))
      → str_eq operation.state "pending" ≡ true
      → begin_submission host path operation (sound fs) ≡ (
        ok (at memory_submitting path.name, submitting_record operation),
        sound (
            put
              (at memory_submitting path.name)
              (encode (submitting_record operation))
              (remove path (put path (encode (submitting_record operation)) fs))),
      )
  unfolding begin_submission pure
  begin_submission-works path operation fs pending_state =
      let content = encode (submitting_record operation) in
      if_true (str_eq operation.state "pending") _ _ (sound fs) pending_state
      ∙ returned (atomic_json path content) _ (sound fs) (sound (put path content fs)) tt
          (atomic_json-works path content fs)
      ∙ returned (durable_rename path (at memory_submitting path.name)) _
          (sound (put path content fs)) _ tt
          (durable_rename-works path (at memory_submitting path.name) content (put path content fs)
            (lookup-put_self path content fs))

  read_operation-works :
      (path : Location) (operation : MemoryOperation) (d : Disk C)
      → operation_at host path d.files ≡ ok operation
      → read_operation host path d ≡ (ok operation, d)
  unfolding read_operation lift
  read_operation-works path operation d e =
      gets_ok (operation_at host path) _ d ∙ ap (λ (r : Result MemoryOperation). (r, d)) e

  reconcile_memory-runs :
      (server : Server) (path : Location) (operation : MemoryOperation) (now : ℕ) (millis : String)
      (fs : List (Location × C)) (e : Error)
      → operation_at host path fs ≡ ok operation
      → str_eq operation.state "pending" ≡ true
      → fetch_receipt server (submitting_record operation) ≡ err e
      → reconcile_memory host server path now millis (sound fs) ≡ (
        err e,
        sound (
            put
              (at memory_submitting path.name)
              (encode (submitting_record operation))
              (remove path (put path (encode (submitting_record operation)) fs))),
      )
  unfolding reconcile_memory
  reconcile_memory-runs server path operation now millis fs e read pending_state failed =
      returned (read_operation host path) _ (sound fs) (sound fs) operation
        (read_operation-works path operation (sound fs) read)
      ∙ returned (begin_submission host path operation) _ (sound fs) _
          (at memory_submitting path.name, submitting_record operation)
          (begin_submission-works path operation fs pending_state)
      ∙ lift_err (fetch_receipt server (submitting_record operation)) _ _ e failed

  -- Without faults on the disk, a pending operation whose exchange with the server ends in an error is
  -- left in `memory/submitting`, marked so, no longer where it was, with every other file as before;
  -- the error is the one that is raised.
  pub reconcile_memory-unsent :
      (server : Server) (path : Location) (operation : MemoryOperation) (now : ℕ) (millis : String)
      (fs : List (Location × C)) (e : Error)
      → operation_at host path fs ≡ ok operation
      → str_eq operation.state "pending" ≡ true
      → fetch_receipt server (submitting_record operation) ≡ err e
      → let (r, d) =
          reconcile_memory host server path now millis (record { files = fs; faults = [] }) in
        (r ≡ err e)
        × ((q : Location)
            → lookup q d.files ≡ (
                if same_location (at memory_submitting path.name) q
                then some (encode (submitting_record operation))
                else if same_location path q
                then none
                else lookup q fs))
  reconcile_memory-unsent server path operation now millis fs e read pending_state failed =
      let run =
        reconcile_memory-runs server path operation now millis fs e read pending_state failed in
      (
        ap (λ (r : Result ReceiptOutcome × Disk C). r.0) run,
        λ q.
            ap (λ (r : Result ReceiptOutcome × Disk C). lookup q r.1.files) run
            ∙ lookup-rewrite-rename path (at memory_submitting path.name) q
                (encode (submitting_record operation)) fs,
      )
