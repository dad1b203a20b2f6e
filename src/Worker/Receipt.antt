-- ===== src/Worker/Receipt.antt =====
-- What a receipt does to an operation's bookkeeping: `observe_receipt`,
-- pk-learning-worker/src/main.rs.
pub mod Clocks
use Prim.Native.Nat.{min}
use prometheus_knowledge_rs.Prelude.{
  ℕ, ◌+◌, ◌*◌, Bool, true, false, not, ◌&&◌, Option, none, some, String, str_eq, if◌then◌else◌,
  ◌==◌, is_some, unwrap_or,
}
use prometheus_knowledge_rs.Worker.Backoff.{poll_backoff, saturating_add_u32}
use prometheus_knowledge_rs.Worker.Operation.{MemoryOperation, OperationReceipt, Platform}

-- Nanoseconds in a second.
abbrev pub second : ℕ
second = 1000000000

abbrev pub is_some_text : Option String → String → Bool
is_some_text none s = false
is_some_text (some t) s = str_eq t s

abbrev pub is_some_number : Option ℕ → ℕ → Bool
is_some_number none n = false
is_some_number (some m) n = m == n

-- The receipt's state or its progress sequence is not the one last seen.
abbrev pub receipt_changed : MemoryOperation → OperationReceipt → Bool
receipt_changed operation receipt = not (
    is_some_text operation.last_receipt_state receipt.state
    && is_some_number operation.last_receipt_progress_seq receipt.progress_seq)

module _ (platform : Platform) where
  open platform use {parse_time, to_rfc3339}

  -- A server timestamp, never later than `now`.
  abbrev pub server_time : ℕ → String → String
  server_time now raw = to_rfc3339 (min (unwrap_or now (parse_time raw)) now)

  unfoldable pub observe_receipt : MemoryOperation → OperationReceipt → ℕ → MemoryOperation × Bool
  observe_receipt operation receipt now =
      let dated = record operation {
        first_accepted_at =
            if is_some operation.first_accepted_at
            then operation.first_accepted_at
            else some (server_time now receipt.created_at);
      } in
      let polls = saturating_add_u32 operation.unchanged_polls 1 in
      if receipt_changed operation receipt
      then (
        record dated {
          last_receipt_change_at = some (
              if is_some operation.last_receipt_state
              then to_rfc3339 now
              else server_time now receipt.updated_at);
          last_receipt_state = some receipt.state;
          last_receipt_progress_seq = some receipt.progress_seq;
          unchanged_polls = 0;
          next_poll_at = none;
        },
        true,
      )
      else (
        record dated {
          unchanged_polls = polls;
          next_poll_at = some (to_rfc3339 (now + poll_backoff polls * second));
        },
        false,
      )
