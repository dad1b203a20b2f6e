-- ===== src/Worker/Reconcile/Receipts.antt =====
-- What a receipt does to the disk.
use prometheus_knowledge_rs.Worker.Disk.Steps.{
  sound, lift_ok, lift_err, gets_ok, returned, if_true, if_false, atomic_json-works,
  durable_rename-works,
}
use prometheus_knowledge_rs.Worker.Disk.{
  Directory, Location, at, same_location, lookup, put, remove, Disk, pure, atomic_json, raise,
}
use prometheus_knowledge_rs.Prelude.{
  ℕ, ◌≡◌, ap, ◌∙◌, true, false, not, none, some, List, [], String, if◌then◌else◌, is_some, refl,
  arith, eq_iff, ◌≢◌, ◌⊎◌, inl, inr, ◌∷◌, Bool-cases,
}
use prometheus_knowledge_rs.Worker.Operation.{
  OperationReceipt, MemoryOperation, contract_mismatch, unknown_receipt_state, ok, err,
  ReceiptOutcome, missing_payload_hash, Result, context,
}
use prometheus_knowledge_rs.Worker.Queue.{Host}
use prometheus_knowledge_rs.Worker.Reconcile.{
  contract_holds, same_texts, destination, receipt_outcome, apply_receipt, settle_file,
}
use prometheus_knowledge_rs.Worker.Receipt.{observe_receipt}
use prometheus_knowledge_rs.Worker.Disk.Laws.{lookup-put, lookup-put_self, lookup-rewrite-rename}

same_texts_refl : (xs : List String) → same_texts xs xs ≡ true
same_texts_refl [] = refl
same_texts_refl (x ∷ xs) = rw ((eq_iff x x).1 refl, same_texts_refl xs) refl

same_texts→eq : (xs ys : List String) → same_texts xs ys ≡ true → xs ≡ ys
same_texts→eq [] [] h = refl
same_texts→eq [] (y ∷ ys) h = cc
same_texts→eq (x ∷ xs) [] h = cc
same_texts→eq (x ∷ xs) (y ∷ ys) h =
    let head : x ≡ y = ground (arith, eq_iff x y) in
    rw (head, same_texts→eq xs ys (ground arith)) refl

-- The receipt differs from the record in what the server's contract names.
abbrev pub IsForeign : MemoryOperation → OperationReceipt → String → Type 0
IsForeign operation receipt hash =
    (receipt.schema_version ≢ 2)
    ⊎ ((receipt.operation_id ≢ operation.operation_id)
        ⊎ ((receipt.kind ≢ operation.method)
            ⊎ ((receipt.payload_hash ≢ hash) ⊎ (receipt.dependencies ≢ operation.dependencies))))

contract_holds-eq :
    (operation : MemoryOperation) (receipt : OperationReceipt) (hash : String)
    → contract_holds operation receipt hash ≡ true
    → (receipt.schema_version ≡ 2)
      × (receipt.operation_id ≡ operation.operation_id)
      × (receipt.kind ≡ operation.method)
      × (receipt.payload_hash ≡ hash)
      × (receipt.dependencies ≡ operation.dependencies)
unfolding contract_holds
contract_holds-eq operation receipt hash h = (
  ground arith,
  (eq_iff receipt.operation_id operation.operation_id).0 (ground arith),
  (eq_iff receipt.kind operation.method).0 (ground arith),
  (eq_iff receipt.payload_hash hash).0 (ground arith),
  same_texts→eq receipt.dependencies operation.dependencies (ground arith),
)

contract_holds-IsForeign :
    (operation : MemoryOperation) (receipt : OperationReceipt) (hash : String)
    → IsForeign operation receipt hash
    → contract_holds operation receipt hash ≡ false
contract_holds-IsForeign operation receipt hash foreign =
    elim (Bool-cases (contract_holds operation receipt hash)) [
      | inr refused ↦ refused
      | inl holds ↦
          let (version, id, kind, payload, needs) =
            contract_holds-eq operation receipt hash holds in
          elim foreign [
            | inl a ↦ elim (a version) [ ]
            | inr (inl b) ↦ elim (b id) [ ]
            | inr (inr (inl c)) ↦ elim (c kind) [ ]
            | inr (inr (inr (inl d))) ↦ elim (d payload) [ ]
            | inr (inr (inr (inr e))) ↦ elim (e needs) [ ]
          ]
    ]

module _ {C : Type 0} (host : Host C) where
  open host use {platform, encode}

  -- The record that a receipt leaves, for the local state that the receipt's state gives.
  abbrev pub settled_record : MemoryOperation → OperationReceipt → String → ℕ → MemoryOperation
  settled_record operation receipt state now =
      record (observe_receipt platform operation receipt now).0 {
        receipt = some receipt;
        last_error = receipt.error;
        state = state;
      }

  known_hash :
      (operation : MemoryOperation) (hash : String)
      → operation.payload_hash ≡ some hash
      → context operation.payload_hash missing_payload_hash ≡ ok hash
  known_hash operation hash e = rw e

  settle_file-works :
      (path : Location) (directory : Directory) (millis : String) (c : C) (fs : List (Location × C))
      → same_location path (at directory path.name) ≡ false
      → lookup path fs ≡ some c
      → lookup (at directory path.name) fs ≡ none
      → settle_file host path directory millis (sound fs)
        ≡ (ok tt, sound (put (at directory path.name) c (remove path fs)))
  unfolding settle_file
  settle_file-works path directory millis c fs away here free =
      if_false (same_location path (at directory path.name)) _ _ (sound fs) away
      ∙ gets_ok _ _ (sound fs)
      ∙ if_false (is_some (lookup (at directory path.name) fs)) _ _ (sound fs) (ap is_some free)
      ∙ durable_rename-works path (at directory path.name) c fs here

  -- A receipt of another version, or for another operation id, method, payload hash or list of
  -- dependencies than the record's, is refused and changes nothing on disk, with whatever faults.
  pub apply_receipt-refused :
      (path : Location) (operation : MemoryOperation) (receipt : OperationReceipt) (now : ℕ)
      (millis : String) (d : Disk C) (hash : String)
      → operation.payload_hash ≡ some hash
      → IsForeign operation receipt hash
      → apply_receipt host path operation receipt now millis d ≡ (err contract_mismatch, d)
  unfolding apply_receipt raise
  apply_receipt-refused path operation receipt now millis d hash e foreign =
      lift_ok (context operation.payload_hash missing_payload_hash) _ d hash
        (known_hash operation hash e)
      ∙ if_true (not (contract_holds operation receipt hash)) _ _ d
          (ap not (contract_holds-IsForeign operation receipt hash foreign))

  -- A receipt for the record whose state has no local one is refused and changes nothing on disk, with
  -- whatever faults.
  pub apply_receipt-unknown :
      (path : Location) (operation : MemoryOperation) (receipt : OperationReceipt) (now : ℕ)
      (millis : String) (d : Disk C) (hash : String)
      → operation.payload_hash ≡ some hash
      → contract_holds operation receipt hash ≡ true
      → destination receipt.state ≡ err (unknown_receipt_state receipt.state)
      → apply_receipt host path operation receipt now millis d
        ≡ (err (unknown_receipt_state receipt.state), d)
  unfolding apply_receipt
  apply_receipt-unknown path operation receipt now millis d hash e holds unknown =
      lift_ok (context operation.payload_hash missing_payload_hash) _ d hash
        (known_hash operation hash e)
      ∙ if_false (not (contract_holds operation receipt hash)) _ _ d (ap not holds)
      ∙ lift_err (destination receipt.state) _ d _ unknown

  apply_receipt-runs :
      (path : Location) (operation : MemoryOperation) (receipt : OperationReceipt) (now : ℕ)
      (millis : String) (fs : List (Location × C)) (hash : String) (state : String)
      (directory : Directory)
      → operation.payload_hash ≡ some hash
      → contract_holds operation receipt hash ≡ true
      → destination receipt.state ≡ ok (state, directory)
      → same_location path (at directory path.name) ≡ false
      → lookup (at directory path.name) fs ≡ none
      → apply_receipt host path operation receipt now millis (sound fs) ≡ (
        ok (
            receipt_outcome operation.state state
              (observe_receipt platform operation receipt now).1),
        sound (
            put
              (at directory path.name)
              (encode (settled_record operation receipt state now))
              (remove path (put path (encode (settled_record operation receipt state now)) fs))),
      )
  unfolding apply_receipt pure
  apply_receipt-runs path operation receipt now millis fs hash state directory e holds place away
        free =
      let settled = encode (settled_record operation receipt state now) in
      lift_ok (context operation.payload_hash missing_payload_hash) _ (sound fs) hash
        (known_hash operation hash e)
      ∙ if_false (not (contract_holds operation receipt hash)) _ _ (sound fs) (ap not holds)
      ∙ lift_ok (destination receipt.state) _ (sound fs) (state, directory) place
      ∙ returned (atomic_json path settled) _ (sound fs) (sound (put path settled fs)) tt
          (atomic_json-works path settled fs)
      ∙ returned (settle_file host path directory millis) _ (sound (put path settled fs)) _ tt (
          settle_file-works path directory millis settled (put path settled fs) away
            (lookup-put_self path settled fs) (rw (lookup-put, away) free))

  -- Without faults, a receipt for the record whose state has its place in another directory, where the
  -- name is free, moves the record there: it stands there with the receipt, its error and the new
  -- state, no longer where it was, and every other file is as before.
  pub apply_receipt-moves :
      (path : Location) (operation : MemoryOperation) (receipt : OperationReceipt) (now : ℕ)
      (millis : String) (fs : List (Location × C)) (hash : String) (state : String)
      (directory : Directory)
      → operation.payload_hash ≡ some hash
      → contract_holds operation receipt hash ≡ true
      → destination receipt.state ≡ ok (state, directory)
      → same_location path (at directory path.name) ≡ false
      → lookup (at directory path.name) fs ≡ none
      → let (r, d) =
          apply_receipt host path operation receipt now millis
            (record { files = fs; faults = [] }) in
        (r
          ≡ ok (
              receipt_outcome operation.state state
                (observe_receipt platform operation receipt now).1))
        × ((q : Location)
            → lookup q d.files ≡ (
                if same_location (at directory path.name) q
                then some (encode (settled_record operation receipt state now))
                else if same_location path q
                then none
                else lookup q fs))
  apply_receipt-moves path operation receipt now millis fs hash state directory e holds place away
        free =
      let settled = encode (settled_record operation receipt state now) in
      let run =
        apply_receipt-runs path operation receipt now millis fs hash state directory e holds place
          away free in
      (
        ap (λ (r : Result ReceiptOutcome × Disk C). r.0) run,
        λ q.
            ap (λ (r : Result ReceiptOutcome × Disk C). lookup q r.1.files) run
            ∙ lookup-rewrite-rename path (at directory path.name) q settled fs,
      )
