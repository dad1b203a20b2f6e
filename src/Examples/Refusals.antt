-- ===== src/Examples/Refusals.antt =====
-- The theorems on refused commands and failed exchanges, at concrete inputs.
use prometheus_knowledge_rs.Prelude.{
  ◌≡◌, refl, none, some, List, [], ◌∷◌, String, if◌then◌else◌, trim_string,
}
use prometheus_knowledge_rs.Worker.Operation.{
  MemoryOperation, transport_unavailable, not_stalled, ok, err,
}
use prometheus_knowledge_rs.Worker.Disk.{
  memory_pending, memory_submitting, memory_accepted, memory_stalled, Location, at, same_location,
  is_json, sort_names, lookup, names_in, json_files, Disk,
}
use prometheus_knowledge_rs.Worker.Queue.{operation_at}
use prometheus_knowledge_rs.Worker.Quarantine.{
  select_stale, first_taken, read_all, select_released, release_directory,
}
use prometheus_knowledge_rs.Worker.Reconcile.{unreachable, Server, fetch_receipt, reconcile_memory}
use prometheus_knowledge_rs.Worker.Payload.{normalize_operation, normalize_payload}
use prometheus_knowledge_rs.Worker.Staleness.{is_stale, stale_since}
use prometheus_knowledge_rs.Worker.Reconcile.Unsent.{submitting_record, reconcile_memory-unsent}
use prometheus_knowledge_rs.Examples.Sample.{Content, operation_file, sample_host, waiting}

abbrev unsent : MemoryOperation
unsent = record waiting { state = "pending"; first_accepted_at = none }

abbrev unsent_place : Location
unsent_place = at memory_pending "op-1.json"

abbrev unsent_queue : List (Location × Content)
unsent_queue = (unsent_place, operation_file unsent) ∷ []

abbrev silent : Server
silent = record {
  lookup_operation = λ id. unreachable;
  ready = unreachable;
  submit = λ s. unreachable;
}

unsent_read : operation_at sample_host unsent_place unsent_queue ≡ ok unsent
unfolding operation_at normalize_operation normalize_payload lookup same_location trim_string
unsent_read = refl

unsent_fails :
    fetch_receipt silent (submitting_record sample_host unsent) ≡ err transport_unavailable
unfolding fetch_receipt
unsent_fails = refl

reconcile_memory-unsent_example :
    let (r, d) =
      reconcile_memory sample_host silent unsent_place 9 "9"
        (record { files = unsent_queue; faults = [] }) in
    (r ≡ err transport_unavailable)
    × ((q : Location)
        → lookup q d.files ≡ (
            if same_location (at memory_submitting "op-1.json") q
            then some (operation_file (submitting_record sample_host unsent))
            else if same_location unsent_place q
            then none
            else lookup q unsent_queue))
reconcile_memory-unsent_example =
    reconcile_memory-unsent sample_host silent unsent_place unsent 9 "9" unsent_queue
      transport_unavailable unsent_read refl unsent_fails

abbrev stalled_record : MemoryOperation
stalled_record = record waiting { state = "stalled" }

-- A stale record whose name is also in `memory/stalled`, and in `memory/pending`.
abbrev crowded : Disk Content
crowded = record {
  files =
      (at memory_accepted "op-1.json", operation_file waiting)
      ∷ (at memory_stalled "op-1.json", operation_file stalled_record)
      ∷ (at memory_pending "op-1.json", operation_file unsent)
      ∷ [];
  faults = [];
}

place_taken :
    first_taken sample_host
      (λ o. memory_stalled)
      crowded.files
      (select_stale sample_host 5 9 crowded.files (json_files memory_accepted crowded.files))
    ≡ some "op-1.json"
unfolding first_taken select_stale json_files names_in sort_names is_json operation_at
    normalize_operation normalize_payload trim_string lookup same_location is_stale stale_since
place_taken = refl

abbrev found : List (String × MemoryOperation)
found = ("op-1.json", stalled_record) ∷ []

stalled_read :
    read_all sample_host crowded.files (json_files memory_stalled crowded.files) ≡ ok found
unfolding read_all json_files names_in sort_names is_json operation_at normalize_operation
    normalize_payload trim_string lookup same_location
stalled_read = refl

unknown_id :
    select_released sample_host (some ("op-9" ∷ [])) found ≡ err (not_stalled ("op-9" ∷ []))
unfolding select_released
unknown_id = refl

all_chosen : select_released sample_host none found ≡ ok found
unfolding select_released
all_chosen = refl

pending_taken :
    first_taken sample_host (release_directory sample_host) crowded.files found ≡ some "op-1.json"
unfolding first_taken lookup same_location
pending_taken = refl
