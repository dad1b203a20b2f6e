-- ===== src/Worker/Quarantine/Clock.antt =====
-- The staleness clock of a released record.
use prometheus_knowledge_rs.Prelude.{ℕ, ◌+◌, ◌≤◌, ◌≡◌, false, some, arith, eq_iff}
use prometheus_knowledge_rs.Worker.Operation.{OperationReceipt, MemoryOperation}
use prometheus_knowledge_rs.Worker.Queue.{Host}
use prometheus_knowledge_rs.Worker.Quarantine.{released_record}
use prometheus_knowledge_rs.Worker.Receipt.{observe_receipt}
use prometheus_knowledge_rs.Worker.Staleness.{stale_since, is_stale, max_time_delta}

module _ {C : Type 0} (host : Host C) where
  open host use {platform}

  -- A released record with a receipt is not stale for the whole threshold (at most the longest
  -- duration that chrono has), and an unchanged receipt seen in that time does not make it stale.
  pub released_record-fresh :
      (operation : MemoryOperation) (receipt : OperationReceipt) (now later threshold : ℕ)
      → operation.receipt ≡ some receipt
      → later ≤ now + threshold
      → later ≤ now + max_time_delta
      → let released = released_record host now operation in
        (is_stale platform released later threshold ≡ false)
        × (is_stale platform (observe_receipt platform released receipt later).0 later threshold
            ≡ false)
        × ((observe_receipt platform released receipt later).1 ≡ false)
  unfolding released_record is_stale stale_since observe_receipt
  released_record-fresh operation receipt now later threshold e p q =
      ground (arith, platform.parse_time-to_rfc3339 now, eq_iff receipt.state receipt.state)
