-- ===== src/Worker/Reconcile.antt =====
-- One exchange with the memory server about one operation: `apply_receipt`, `ensure_ledger_ready`,
-- `submit_operation` and `reconcile_memory`, pk-learning-worker/src/main.rs.
--
-- The server is a parameter: what it answers to each request. An answer's body comes with what serde
-- reads from it.
pub mod Receipts
pub mod Unsent
use prometheus_knowledge_rs.Prelude.{
  ℕ, Bool, true, false, not, ◌&&◌, ◌||◌, Option, none, some, List, [], ◌∷◌, String, str_eq, ltb,
  leb, ◌==◌, if◌then◌else◌, is_some, bind,
}
use prometheus_knowledge_rs.Worker.Operation.{
  Value, boolean, get, OperationReceipt, MemoryOperation, ReceiptOutcome, transitioned, progressed,
  unchanged, missing_payload_hash, contract_mismatch, unknown_receipt_state, transport_unavailable,
  transport_failed, lookup_refused, submission_refused, ledger_not_ready, Result, ok, err, context,
}
use prometheus_knowledge_rs.Worker.Disk.{
  Directory, memory_submitting, memory_accepted, memory_completed, memory_rejected, Location, at,
  same_location, lookup, Io, pure, raise, lift, gets, ◌>>=◌, ◌>>◌, atomic_json, durable_rename,
  preserve_duplicate_in,
}
use prometheus_knowledge_rs.Worker.Queue.{Host, bounded_error, read_operation}
use prometheus_knowledge_rs.Worker.Receipt.{observe_receipt}

pub record Response : Type 0 where
  pub status : ℕ
  pub text : String
  pub receipt : Option OperationReceipt
  pub body : Option Value

-- reqwest's errors: a timeout or a refused connection, and any other.
pub data Reply : Type 0 where
  unreachable broken : Reply
  replied : Response → Reply

pub record Submission : Type 0 where
  pub operation_id : String
  pub kind : String
  pub dependencies : List String
  pub payload_hash : String
  pub payload : Value

pub record Server : Type 0 where
  pub lookup_operation : String → Reply
  pub ready : Reply
  pub submit : Submission → Reply

abbrev pub is_success : ℕ → Bool
is_success status = leb 200 status && ltb status 300

-- `send().await?`
abbrev pub send : Reply → Result Response
send unreachable = err transport_unavailable
send broken = err transport_failed
send (replied r) = ok r

-- `Value::as_bool() == Some(true)`
abbrev pub is_true : Option Value → Bool
is_true (some (boolean b)) = b
is_true v = false

abbrev pub ledger_ready : Response → Bool
ledger_ready r =
    is_success r.status && is_true (bind (bind r.body (get "capabilities")) (get "ledger"))

unfoldable pub ensure_ledger_ready : Server → Result (Unit {0})
ensure_ledger_ready server = elim (send server.ready) [
  | ok r ↦ if ledger_ready r then ok tt else err ledger_not_ready
  | err e ↦ err e
]

abbrev pub submission_of : MemoryOperation → String → Submission
submission_of operation payload_hash = record {
  operation_id = operation.operation_id;
  kind = operation.method;
  dependencies = operation.dependencies;
  payload_hash = payload_hash;
  payload = operation.arguments;
}

abbrev pub submitted : Result Response → Result OperationReceipt
submitted (ok r) =
    if is_success r.status
    then context r.receipt transport_failed
    else err (submission_refused r.status (bounded_error r.text))
submitted (err e) = err e

unfoldable pub submit_operation : Server → MemoryOperation → Result OperationReceipt
submit_operation server operation = elim operation.payload_hash [
  | none ↦ err missing_payload_hash
  | some payload_hash ↦ submitted (send (server.submit (submission_of operation payload_hash)))
]

-- The server's receipt for an operation: looked up, and submitted where the server has none.
abbrev pub receipt_from : Server → MemoryOperation → Result Response → Result OperationReceipt
receipt_from server operation (err e) = err e
receipt_from server operation (ok r) =
    if r.status == 404
    then elim (ensure_ledger_ready server) [
      | ok u ↦ submit_operation server operation
      | err e ↦ err e
    ]
    else if is_success r.status
    then context r.receipt transport_failed
    else err (lookup_refused r.status (bounded_error r.text))

unfoldable pub fetch_receipt : Server → MemoryOperation → Result OperationReceipt
unfolding ensure_ledger_ready submit_operation
fetch_receipt server operation =
    receipt_from server operation (send (server.lookup_operation operation.operation_id))

abbrev pub same_texts : List String → List String → Bool
same_texts [] [] = true
same_texts [] (t ∷ ts) = false
same_texts (s ∷ ss) [] = false
same_texts (s ∷ ss) (t ∷ ts) = str_eq s t && same_texts ss ts

unfoldable pub contract_holds : MemoryOperation → OperationReceipt → String → Bool
contract_holds operation receipt expected_hash =
    receipt.schema_version == 2
    && str_eq receipt.operation_id operation.operation_id
    && str_eq receipt.kind operation.method
    && str_eq receipt.payload_hash expected_hash
    && same_texts receipt.dependencies operation.dependencies

-- The local state and directory for a receipt's state.
unfoldable pub destination : String → Result (String × Directory)
destination state =
    if str_eq state "committed"
    then ok ("completed", memory_completed)
    else if str_eq state "rejected"
    then ok ("rejected", memory_rejected)
    else if str_eq state "accepted"
        || str_eq state "validated"
        || str_eq state "blocked"
        || str_eq state "planned"
        || str_eq state "processing"
        || str_eq state "indexed"
    then ok ("accepted", memory_accepted)
    else err (unknown_receipt_state state)

abbrev pub receipt_outcome : String → String → Bool → ReceiptOutcome
receipt_outcome previous current receipt_changed =
    if not (str_eq current previous)
    then transitioned
    else if receipt_changed
    then progressed
    else unchanged

module _ {C : Type 0} (host : Host C) where
  open host use {platform, encode}

  -- The rewritten record moves to its directory, unless it is there; a file of that name there wins.
  unfoldable pub settle_file : Location → Directory → String → Io C (Unit {0})
  settle_file path directory millis = do
    let target = at directory path.name
    if same_location path target then pure tt else do
      taken ← gets (λ fs. is_some (lookup target fs))
      if taken
          then preserve_duplicate_in memory_completed path "receipt-reconciliation" millis
          else durable_rename path target

  unfoldable pub apply_receipt :
      Location → MemoryOperation → OperationReceipt → ℕ → String → Io C ReceiptOutcome
  apply_receipt path operation receipt now millis = do
    expected_hash ← lift (context operation.payload_hash missing_payload_hash)
    if not (contract_holds operation receipt expected_hash) then raise contract_mismatch else do
      place ← lift (destination receipt.state)
      let (observed, receipt_changed) = observe_receipt platform operation receipt now
      let settled = record observed {
        receipt = some receipt;
        last_error = receipt.error;
        state = place.0;
      }
      atomic_json path (encode settled)
      settle_file path place.1 millis
      pure (receipt_outcome operation.state place.0 receipt_changed)

  -- A pending record is marked and moved before anything is sent.
  unfoldable pub begin_submission : Location → MemoryOperation → Io C (Location × MemoryOperation)
  begin_submission path operation =
      if str_eq operation.state "pending"
      then (do
        let marked = record operation { state = "submitting"; last_error = none }
        atomic_json path (encode marked)
        durable_rename path (at memory_submitting path.name)
        pure (at memory_submitting path.name, marked))
      else pure (path, operation)

  unfoldable pub reconcile_memory : Server → Location → ℕ → String → Io C ReceiptOutcome
  reconcile_memory server path now millis = do
    operation ← read_operation host path
    current ← begin_submission path operation
    receipt ← lift (fetch_receipt server current.1)
    apply_receipt current.0 current.1 receipt now millis
