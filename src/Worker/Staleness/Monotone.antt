-- ===== src/Worker/Staleness/Monotone.antt =====
-- Staleness against the clock, the threshold and a new receipt.
use prometheus_knowledge_rs.Prelude.{ℕ, ◌+◌, ◌≤◌, ◌≡◌, true, false, arith, is_some}
use prometheus_knowledge_rs.Worker.Operation.{OperationReceipt, MemoryOperation, Platform}
use prometheus_knowledge_rs.Worker.Receipt.{observe_receipt}
use prometheus_knowledge_rs.Worker.Staleness.{stale_since, is_stale, max_time_delta}

module _ (platform : Platform) where
  open platform use {parse_time, to_rfc3339, parse_time-to_rfc3339}

  -- What is stale stays stale at a later time and for a shorter threshold.
  pub is_stale_mono :
      (operation : MemoryOperation) (now later threshold shorter : ℕ)
      → now ≤ later
      → shorter ≤ threshold
      → is_stale platform operation now threshold ≡ true
      → is_stale platform operation later shorter ≡ true
  unfolding is_stale
  is_stale_mono operation now later threshold shorter p q h = ground arith

  -- A record that had a receipt before and whose new receipt changes is not stale until the threshold
  -- (at most the longest duration that chrono has) has passed since.
  pub is_stale-observe_receipt :
      (operation : MemoryOperation) (receipt : OperationReceipt) (now later threshold : ℕ)
      → is_some operation.last_receipt_state ≡ true
      → (observe_receipt platform operation receipt now).1 ≡ true
      → later ≤ now + threshold
      → later ≤ now + max_time_delta
      → is_stale platform (observe_receipt platform operation receipt now).0 later threshold ≡ false
  unfolding is_stale stale_since observe_receipt
  is_stale-observe_receipt operation receipt now later threshold seen changed p =
      ground (arith, parse_time-to_rfc3339 now)
