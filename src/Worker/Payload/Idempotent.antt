-- ===== src/Worker/Payload/Idempotent.antt =====
-- Normalising an operation that is normal already.
use prometheus_knowledge_rs.Prelude.{
  ◌≡◌, inl, inr, Option, arith, String, Bool-cases, is_some, eq_iff,
}
use prometheus_knowledge_rs.Worker.Operation.{Value, get, ok, Platform, MemoryOperation}
use prometheus_knowledge_rs.Worker.Payload.{
  add_task_step, complete_step, normalize_payload, normalize_operation,
}

add_task_step_named :
    (environment : Option String) (arguments : Value) {v : Value}
    → add_task_step environment arguments ≡ ok v
    → add_task_step environment v ≡ ok v
unfolding add_task_step
add_task_step_named environment arguments h =
    elim (Bool-cases (is_some (get "stream_name" arguments))) [
      | inl named ↦ ground arith
      | inr bare ↦ ground arith
    ]

complete_step_keyed :
    (arguments : Value) {v : Value} → complete_step arguments ≡ ok v → complete_step v ≡ ok v
unfolding complete_step
complete_step_keyed arguments h = ground arith

normalize_payload_idem :
    (environment : Option String) (method : String) (arguments : Value) {v : Value}
    → normalize_payload environment method arguments ≡ ok v
    → normalize_payload environment method v ≡ ok v
unfolding normalize_payload
normalize_payload_idem environment method arguments h =
    ground (arith, add_task_step_named environment arguments, complete_step_keyed arguments)

module _ (platform : Platform) (environment : Option String) where
  -- An operation that was normalised without an error is normalised again to itself.
  pub normalize_operation_idem :
      (operation : MemoryOperation) {normal : MemoryOperation}
      → normalize_operation platform environment operation ≡ ok normal
      → normalize_operation platform environment normal ≡ ok normal
  unfolding normalize_operation
  normalize_operation_idem operation h = grind (arith, normalize_payload_idem, eq_iff)
