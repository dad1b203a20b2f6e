-- ===== src/Examples/Records.antt =====
-- The theorems on the learning worker's records and clocks, at concrete inputs.
use Prim.Native.Nat.{min}
use prometheus_knowledge_rs.Prelude.{
  ◌+◌, ◌*◌, ◌^◌, ◌≡◌, refl, true, false, none, some, arith, trim_string,
}
use prometheus_knowledge_rs.Worker.Operation.{
  Value, number, string, object, end, field, MemoryOperation, ok,
}
use prometheus_knowledge_rs.Worker.Quarantine.{released_record}
use prometheus_knowledge_rs.Worker.Backoff.{poll_backoff}
use prometheus_knowledge_rs.Worker.Backoff.Schedule.{poll_backoff-eq}
use prometheus_knowledge_rs.Worker.Payload.{normalize_operation, normalize_payload}
use prometheus_knowledge_rs.Worker.Payload.Idempotent.{normalize_operation_idem}
use prometheus_knowledge_rs.Worker.Receipt.{observe_receipt}
use prometheus_knowledge_rs.Worker.Staleness.{is_stale}
use prometheus_knowledge_rs.Worker.Quarantine.Clock.{released_record-fresh}
use prometheus_knowledge_rs.Examples.Sample.{sample_platform, sample_host, waiting, committed}

poll_backoff-eq_example : poll_backoff (3 + 1) ≡ min (60 * 2 ^ 3) 3600
poll_backoff-eq_example = poll_backoff-eq 3

abbrev add_step : MemoryOperation
add_step = record waiting {
  method = "add_task_step";
  arguments =
      object (field "description" (string "write tests") (field "stream" (string "s1") end));
  payload_hash = none;
}

abbrev normal_step : Value
normal_step = object (
    field "agent_id" (string "@project") (
      field "description" (string "write tests") (
        field "idempotency_key" (string "write tests") (
          field "name" (string "write tests") (
            field "ordinal" (number "1") (
              field "stream_name" (string "s1")
                (field "user_id" (string "project:unknown") end)))))))

abbrev normal_add_step : MemoryOperation
normal_add_step = record add_step {
  arguments = normal_step;
  payload_hash = some "5feceb66ffc86f38";
}

add_step_normal : normalize_operation sample_platform none add_step ≡ ok normal_add_step
unfolding normalize_operation prometheus_knowledge_rs.Worker.Payload.normalize_payload
    prometheus_knowledge_rs.Worker.Payload.add_task_step
    prometheus_knowledge_rs.Worker.Payload.scope_key
    prometheus_knowledge_rs.Worker.Payload.fallback_project_id trim_string
add_step_normal = refl

normalize_operation_idem_example :
    normalize_operation sample_platform none normal_add_step ≡ ok normal_add_step
normalize_operation_idem_example =
    normalize_operation_idem sample_platform none add_step add_step_normal

waiting_stale : is_stale sample_platform waiting 9 5 ≡ true
unfolding is_stale prometheus_knowledge_rs.Worker.Staleness.stale_since
waiting_stale = refl

committed_is_new : (observe_receipt sample_platform waiting committed 7).1 ≡ true
unfolding observe_receipt
committed_is_new = refl

abbrev stalled_record : MemoryOperation
stalled_record = record waiting { state = "stalled"; receipt = some committed }

released_record-fresh_example :
    let released = released_record sample_host 20 stalled_record in
    (is_stale sample_platform released 24 5 ≡ false)
    × (is_stale sample_platform (observe_receipt sample_platform released committed 24).0 24 5
        ≡ false)
    × ((observe_receipt sample_platform released committed 24).1 ≡ false)
released_record-fresh_example =
    released_record-fresh sample_host stalled_record committed 20 24 5 refl (omega arith)
      (omega arith)
