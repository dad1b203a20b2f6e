-- ===== src/Worker/Payload.antt =====
-- Normalising a stored operation: `normalize_operation`, `normalize_payload`, `scope_key` and
-- `fallback_project_id`, pk-learning-worker/src/main.rs.
pub mod Idempotent
use prometheus_knowledge_rs.Prelude.{
  Bool, true, ◌||◌, Option, none, some, String, str_eq, if◌then◌else◌, is_some, bind, unwrap_or,
  trim_string, is_empty_string,
}
use prometheus_knowledge_rs.Worker.Operation.{
  Value, string, number, object, end, field, get, as_str, MemoryOperation, unsupported_method,
  missing_argument, hash_mismatch, Result, ok, err, ◌>>=◌, context, Platform,
}

-- `.map(str::trim).filter(|value| !value.is_empty())`
abbrev pub trimmed : Option String → Option String
trimmed none = none
trimmed (some s) = let t = trim_string s in if is_empty_string t then none else some t

unfoldable pub scope_key : Value → String → String → Value
scope_key arguments key fallback =
    string (unwrap_or fallback (trimmed (bind (get key arguments) as_str)))

-- `environment` is the variable PROMETHEUS_PROJECT_ID, if it is set.
unfoldable pub fallback_project_id : Option String → String
fallback_project_id environment = unwrap_or "project:unknown" (trimmed environment)

unfoldable pub add_task_step : Option String → Value → Result Value
unfolding scope_key fallback_project_id
add_task_step environment arguments =
    if is_some (get "stream_name" arguments) then ok arguments else do
      stream ←
          context (bind (get "stream" arguments) as_str) (missing_argument "add_task_step" "stream")
      description ←
          context (bind (get "description" arguments) as_str)
            (missing_argument "add_task_step" "description")
      ok (
          object (
            field "agent_id" (scope_key arguments "agent_id" "@project") (
              field "description" (string description) (
                field "idempotency_key" (string description) (
                  field "name" (string description) (
                    field "ordinal" (number "1") (
                      field "stream_name" (string stream) (
                        field "user_id"
                          (scope_key arguments "user_id" (fallback_project_id environment))
                          end))))))))

unfoldable pub complete_step : Value → Result Value
complete_step arguments = if is_some (get "idempotency_key" arguments) then ok arguments else do
  step ← context (bind (get "step" arguments) as_str) (missing_argument "complete_step" "step")
  ok (
      object (
        field "idempotency_key" (string step)
          (field "result" (string "completed via memory bridge") end)))

unfoldable pub normalize_payload : Option String → String → Value → Result Value
unfolding add_task_step complete_step
normalize_payload environment method arguments =
    if str_eq method "add_memory" || str_eq method "create_task_stream"
    then ok arguments
    else if str_eq method "add_task_step"
    then add_task_step environment arguments
    else if str_eq method "complete_step"
    then complete_step arguments
    else err (unsupported_method method)

module _ (platform : Platform) (environment : Option String) where
  open platform use {canonical_payload_hash}

  -- The hash that the file holds, if any, must be the one of the normalised payload.
  abbrev hash_agrees : Option String → String → Bool
  hash_agrees none computed = true
  hash_agrees (some stored) computed = str_eq stored computed

  unfoldable pub normalize_operation : MemoryOperation → Result MemoryOperation
  normalize_operation operation = do
    arguments ← normalize_payload environment operation.method operation.arguments
    let computed = canonical_payload_hash arguments
    if hash_agrees operation.payload_hash computed
        then ok (record operation {
          arguments = arguments;
          schema_version = 2;
          payload_hash = some computed;
          state =
              if is_empty_string (trim_string operation.state) then "pending" else operation.state;
        })
        else err hash_mismatch
