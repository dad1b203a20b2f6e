-- ===== src/Worker/Staleness.antt =====
-- When an accepted operation is stale: `stale_since`, `is_stale`, `to_time_delta` and
-- `accepted_health`, pk-learning-worker/src/main.rs.
pub mod Monotone
use Prim.Native.Nat.{min}
use prometheus_knowledge_rs.Prelude.{
  ℕ, ◌+◌, ◌-◌, ◌*◌, ◌^◌, Bool, false, Option, none, some, ltb, bind, or_else,
}
use prometheus_knowledge_rs.Worker.Operation.{MemoryOperation, Platform}

-- `TimeDelta::MAX`, i64::MAX milliseconds, in nanoseconds; a longer duration counts as that.
abbrev pub max_time_delta : ℕ
max_time_delta = (2 ^ 63 - 1) * 1000000

abbrev pub to_time_delta : ℕ → ℕ
to_time_delta duration = min duration max_time_delta

module _ (platform : Platform) where
  open platform use {parse_time}

  unfoldable pub stale_since : MemoryOperation → Option ℕ
  stale_since operation =
      or_else
        (bind (or_else operation.last_receipt_change_at operation.first_accepted_at) parse_time)
        (parse_time operation.queued_at)

  -- `now - since > threshold`, with a difference that may be negative.
  abbrev pub older_than : Option ℕ → ℕ → ℕ → Bool
  older_than none now threshold = false
  older_than (some since) now threshold = ltb (since + to_time_delta threshold) now

  unfoldable pub is_stale : MemoryOperation → ℕ → ℕ → Bool
  is_stale operation now threshold = older_than (stale_since operation) now threshold
