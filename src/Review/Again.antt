-- ===== src/Review/Again.antt =====
-- Accepting a promotion: where it ends, and accepting again.
use prometheus_knowledge_rs.Prelude.{
  ◌≡◌, Option, List, String, refl, true, arith, eq_iff, trim_string, ap, Bool, false,
}
use prometheus_knowledge_rs.Review.{Ending, granted, lands, lost, unflushed}
use prometheus_knowledge_rs.Review.Queue.{
  queue_memory, promotion_operation, promotion_arguments, promotion_id, is_queued, queue_unless,
}
use prometheus_knowledge_rs.Worker.Disk.{Location, memory_pending, at, put}
use prometheus_knowledge_rs.Worker.Disk.Laws.{lookup-put_self}
use prometheus_knowledge_rs.Worker.Payload.{normalize_operation, normalize_payload}
use prometheus_knowledge_rs.Worker.Queue.{Host}
use prometheus_knowledge_rs.Worker.Operation.{ok}
use Prim.Native.String.{◌++◌ as append}

module _ {C : Type 0} (host : Host C) (digest : String → String) (user now : String) where
  -- The worker takes the operation of a promotion as it stands: its method is known, and its hash is
  -- that of its arguments.
  pub normalize_operation-promotion_operation :
      (environment : Option String) (operation_id id content scope : String)
      → normalize_operation host.platform environment
          (promotion_operation host digest user now operation_id id content scope)
        ≡ ok (promotion_operation host digest user now operation_id id content scope)
  unfolding normalize_operation normalize_payload promotion_operation trim_string
  normalize_operation-promotion_operation environment operation_id id content scope =
      let hash =
        host.platform.canonical_payload_hash
          (promotion_arguments host digest user now id content scope) in
      ground (arith, eq_iff hash hash)

  is_queued-put :
      (filename : String) (text : C) (queue : List (Location × C))
      → is_queued host digest user now filename (put (at memory_pending filename) text queue) ≡ true
  is_queued-put filename text queue =
      rw (lookup-put_self (at memory_pending filename) text queue) refl

  queue_unless-granted :
      (b : Bool) (ending later : Ending) (filename : String) (text text' : C) (name : String)
      (queue : List (Location × C)) (operation_id : String)
      → is_queued host digest user now filename queue ≡ b
      → (queue_unless host digest user now b ending (at memory_pending filename) text name queue).0
        ≡ granted operation_id
      → let after =
          (queue_unless host digest user now b ending
            (at memory_pending filename)
            text
            name
            queue).1 in
        queue_unless host digest user now
          (is_queued host digest user now filename after)
          later
          (at memory_pending filename)
          text'
          name
          after
        ≡ (granted operation_id, after)
  queue_unless-granted true ending later filename text text' name queue operation_id e h =
      rw e (ap (λ r. (r, queue)) h)
  queue_unless-granted false lands later filename text text' name queue operation_id e h =
      rw (is_queued-put filename text queue)
        (ap (λ r. (r, put (at memory_pending filename) text queue)) h)
  queue_unless-granted false lost later filename text text' name queue operation_id e h = cc
  queue_unless-granted false unflushed later filename text text' name queue operation_id e h = cc

  -- A promotion is queued once: asking again for it, whatever its text and scope are then, gives the
  -- same identifier and leaves the queue as it is.
  pub queue_memory_idem :
      (ending later : Ending) (id content scope content' scope' : String)
      (queue : List (Location × C)) (operation_id : String)
      → (queue_memory host digest user now ending id content scope queue).0 ≡ granted operation_id
      → let after = (queue_memory host digest user now ending id content scope queue).1 in
        queue_memory host digest user now later id content' scope' after
        ≡ (granted operation_id, after)
  unfolding queue_memory
  queue_memory_idem ending later id content scope content' scope' queue operation_id h =
      queue_unless-granted _ ending later (append (promotion_id host digest user now id) ".json") _
        _ (promotion_id host digest user now id) queue operation_id refl h
