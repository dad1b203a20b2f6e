-- ===== src/Worker/Receipt/Clocks.antt =====
-- The clocks of a record across receipts.
use prometheus_knowledge_rs.Prelude.{ℕ, ◌+◌, ◌*◌, ◌≡◌, false, some, arith, eq_iff}
use prometheus_knowledge_rs.Worker.Backoff.{poll_backoff, saturating_add_u32}
use prometheus_knowledge_rs.Worker.Operation.{OperationReceipt, MemoryOperation, Platform}
use prometheus_knowledge_rs.Worker.Receipt.{observe_receipt, second}

module _ (platform : Platform) where
  open platform use {parse_time, to_rfc3339}

  -- A receipt that is seen a second time is no change: the times of the first acceptance and of the
  -- last change stay, the unchanged polls count one more, and the next poll is due after their backoff.
  pub observe_receipt-again :
      (operation : MemoryOperation) (receipt : OperationReceipt) (now later : ℕ)
      → let seen = (observe_receipt platform operation receipt now).0 in
        let (again, changed) = observe_receipt platform seen receipt later in
        (changed ≡ false)
        × (again.last_receipt_change_at ≡ seen.last_receipt_change_at)
        × (again.first_accepted_at ≡ seen.first_accepted_at)
        × (again.unchanged_polls ≡ saturating_add_u32 seen.unchanged_polls 1)
        × (again.next_poll_at
            ≡ some (to_rfc3339 (later + poll_backoff again.unchanged_polls * second)))
  unfolding observe_receipt
  observe_receipt-again operation receipt now later =
      ground (arith, eq_iff receipt.state receipt.state)
