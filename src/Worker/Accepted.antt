-- ===== src/Worker/Accepted.antt =====
-- What the records in `memory/accepted` say of their state, and the steps that rewrite and move them.
pub mod Pass
pub mod Commands
use prometheus_knowledge_rs.Worker.Quarantine.{
  write_manifest, take_lock, stall_operation, each_operation, free_place, quarantine_moves,
  quarantine, release_directory, restart_clock, released_record, release_operation, release,
}
use prometheus_knowledge_rs.Worker.Disk.{
  Directory, memory_submitting, memory_accepted, memory_completed, memory_stalled, memory_manifests,
  directory_number, Location, at, same_location, lookup, Disk, Io, pure, ◌>>=◌, ◌>>◌, atomic_json,
  durable_rename, duplicate_name, preserve_duplicate_in,
}
use prometheus_knowledge_rs.Worker.Queue.{Manifest, Host, read_operation}
use prometheus_knowledge_rs.Worker.Reconcile.{
  Server, destination, settle_file, apply_receipt, begin_submission, reconcile_memory,
}
use prometheus_knowledge_rs.Worker.Payload.{normalize_operation}
use prometheus_knowledge_rs.Prelude.{
  ℕ, ◌≡◌, ◌≢◌, some, List, arith, String, str_eq, Option, Bool, false, ◌∷◌, refl, inl, inr, true,
  none, [], Option-cases, if◌then◌else◌, is_some, eq_iff,
}
use prometheus_knowledge_rs.Worker.Operation.{MemoryOperation, OperationReceipt, ok}
use prometheus_knowledge_rs.Worker.Disk.Keeps.{
  Keeps, Keeps-bind, Every, Keeps-atomic_json, Keeps-durable_rename, keeps_rules, Keeps-if,
  Keeps-pure, Keeps-write_then, Keeps-raise, durable_rename-Every, Keeps-lift, Keeps-bind_lift,
  Keeps-then_pure,
}

-- The states that the worker writes are not this one.
other_states :
    ◌≢◌ {A = String} "pending" "stalled"
    × ◌≢◌ {A = String} "accepted" "stalled"
    × ◌≢◌ {A = String} "completed" "stalled"
    × ◌≢◌ {A = String} "rejected" "stalled"
other_states = (
  ground (arith, eq_iff "pending" "stalled"),
  ground (arith, eq_iff "accepted" "stalled"),
  ground (arith, eq_iff "completed" "stalled"),
  ground (arith, eq_iff "rejected" "stalled"),
)

module _ {C : Type 0} (host : Host C) where
  open host use {platform, environment, encode, decode, decode-encode}

  abbrev pub NotStalled : Location → C → Type 0
  NotStalled p c =
      directory_number p.directory ≡ 8
      → (operation : MemoryOperation) → decode c ≡ some operation
      → str_eq operation.state "stalled" ≡ false

  abbrev pub IsClean : List (Location × C) → Type 0
  IsClean = Every NotStalled

  encoded :
      (p : Location) (operation : MemoryOperation)
      → str_eq operation.state "stalled" ≡ false
      → NotStalled p (encode operation)
  encoded p operation fine here other e = ground (arith, decode-encode operation)

  write_elsewhere :
      (p : Location) (c : C) → directory_number p.directory ≢ 8 → Keeps IsClean (atomic_json p c)
  write_elsewhere p c away = Keeps-atomic_json p c (λ here. absurd (away here))

  move_elsewhere :
      (source target : Location)
      → directory_number target.directory ≢ 8
      → Keeps IsClean (durable_rename source target)
  move_elsewhere source target away =
      Keeps-durable_rename source target (λ c h here. absurd (away here))

  not_here : (p : Location) → directory_number p.directory ≢ 8 → (c : C) → NotStalled p c
  not_here p away c here = absurd (away here)

  write_and_move :
      (p target : Location) (operation : MemoryOperation)
      → str_eq operation.state "stalled" ≡ false
      → Keeps IsClean (atomic_json p (encode operation) >> durable_rename p target)
  write_and_move p target operation fine =
      Keeps-write_then p (encode operation) (durable_rename p target) (encoded p operation fine)
        λ d h e.
          durable_rename-Every p target (encode operation) d e (encoded target operation fine) h

  write_manifest-IsClean :
      (name : String) (manifest : Manifest) → Keeps IsClean (write_manifest host name manifest)
  unfolding write_manifest
  write_manifest-IsClean name manifest =
      Keeps-if _ _ _ (Keeps-pure tt) (write_elsewhere (at memory_manifests name) _ (omega arith))

  each_operation-IsClean :
      (f : String × MemoryOperation → Io C (Unit {0})) (os : List (String × MemoryOperation))
      → ((o : String × MemoryOperation) → Keeps IsClean (f o))
      → Keeps IsClean (each_operation host f os)
  unfolding each_operation
  each_operation-IsClean f [] kf = Keeps-pure tt
  each_operation-IsClean f (o ∷ os) kf = Keeps-bind _ _ (kf o) (λ u. each_operation-IsClean f os kf)

  stall_operation-IsClean : (o : String × MemoryOperation) → Keeps IsClean (stall_operation host o)
  unfolding stall_operation
  stall_operation-IsClean (name, operation) =
      Keeps-bind _ _
        (move_elsewhere (at memory_accepted name) (at memory_stalled name) (omega arith))
        (λ u. write_elsewhere (at memory_stalled name) _ (omega arith))

  restart_clock-state :
      (now : ℕ) (r : Option OperationReceipt) (operation : MemoryOperation)
      → (restart_clock host now r operation).state ≡ operation.state
  restart_clock-state now none operation = refl
  restart_clock-state now (some r) operation = refl

  released_record_fine :
      (now : ℕ) (operation : MemoryOperation)
      → str_eq (released_record host now operation).state "stalled" ≡ false
  unfolding released_record
  released_record_fine now operation =
      rw restart_clock-state
        (elim (Option-cases operation.receipt) [ inl e ↦ rw e refl | inr (r, e) ↦ rw e refl ])

  release_operation-IsClean :
      (now : ℕ) (o : String × MemoryOperation) → Keeps IsClean (release_operation host now o)
  unfolding release_operation
  release_operation-IsClean now (name, operation) =
      write_and_move (at memory_stalled name) (at (release_directory host operation) name)
        (released_record host now operation) (released_record_fine now operation)

  free_place-IsClean : (o : Option String) → Keeps IsClean (free_place host o)
  free_place-IsClean none = Keeps-pure tt
  free_place-IsClean (some name) = Keeps-raise _

  take_lock-IsClean : (b : Bool) → Keeps IsClean (take_lock host b)
  take_lock-IsClean true = Keeps-pure tt
  take_lock-IsClean false = Keeps-raise _

  quarantine_moves-IsClean :
      (name : String) (manifest : Manifest) (selected : List (String × MemoryOperation))
      → Keeps IsClean (quarantine_moves host name manifest selected)
  unfolding quarantine_moves
  quarantine_moves-IsClean name manifest selected =
      Keeps-bind _ _ (write_manifest-IsClean name manifest)
        (λ u. each_operation-IsClean (stall_operation host) selected stall_operation-IsClean)

  quarantine-IsClean :
      (lock_free : Bool) (name : String) (older_than : ℕ) (dry_run : Bool) (now : ℕ)
      → Keeps IsClean (quarantine host lock_free name older_than dry_run now)
  unfolding quarantine
  quarantine-IsClean lock_free name older_than dry_run now =
      search (keeps_rules, take_lock-IsClean, free_place-IsClean, quarantine_moves-IsClean) depth 12

  release-IsClean :
      (lock_free : Bool) (name : String) (ids : Option (List String)) (now : ℕ)
      → Keeps IsClean (release host lock_free name ids now)
  unfolding release
  release-IsClean lock_free name ids now =
      search
        (
          keeps_rules, take_lock-IsClean, free_place-IsClean, write_manifest-IsClean,
          each_operation-IsClean, release_operation-IsClean,
        )
        depth 12

  if_IsClean :
      {A : Type 0} (b : Bool) (m n : Io C A) (d : Disk C)
      → IsClean (m d).1.files
      → IsClean (n d).1.files
      → IsClean ((if b then m else n) d).1.files
  if_IsClean true m n d hm hn = hm
  if_IsClean false m n d hm hn = hn

  settle_file-IsClean :
      (path : Location) (directory : Directory) (millis : String) (operation : MemoryOperation)
      (d : Disk C)
      → str_eq operation.state "stalled" ≡ false
      → lookup path d.files ≡ some (encode operation)
      → IsClean d.files
      → IsClean (settle_file host path directory millis d).1.files
  unfolding settle_file ◌>>=◌ preserve_duplicate_in
  settle_file-IsClean path directory millis operation d fine e h =
      if_IsClean (same_location path (at directory path.name)) (pure tt) _ d h (
        if_IsClean (is_some (lookup (at directory path.name) d.files))
          (durable_rename path
            (at memory_completed (duplicate_name path.name "receipt-reconciliation" millis)))
          (durable_rename path (at directory path.name)) d
          ((move_elsewhere path _ (omega arith)).keeps d h)
          (durable_rename-Every path (at directory path.name) (encode operation) d e
            (encoded (at directory path.name) operation fine) h))

  normalize_operation-state :
      (operation : MemoryOperation) {normal : MemoryOperation}
      → normalize_operation platform environment operation ≡ ok normal
      → str_eq operation.state "stalled" ≡ false
      → str_eq normal.state "stalled" ≡ false
  unfolding normalize_operation
  normalize_operation-state operation {normal} e fine =
      ground (arith, other_states, eq_iff normal.state "stalled")

  -- The local state that a receipt gives.
  destination_fine :
      (state : String) {place : String × Directory}
      → destination state ≡ ok place
      → str_eq place.0 "stalled" ≡ false
  unfolding destination
  destination_fine state {place} e = ground (arith, other_states, eq_iff place.0 "stalled")

  apply_receipt-IsClean :
      (path : Location) (operation : MemoryOperation) (receipt : OperationReceipt) (now : ℕ)
      (millis : String)
      → Keeps IsClean (apply_receipt host path operation receipt now millis)
  unfolding apply_receipt
  apply_receipt-IsClean path operation receipt now millis =
      Keeps-bind _ _ (Keeps-lift _) λ expected_hash. Keeps-if _ _ _ (Keeps-raise _) (
        Keeps-bind_lift (destination receipt.state) _ λ place e.
          Keeps-write_then path _ _ (encoded path _ (destination_fine receipt.state e)) λ d h found.
            Keeps-then_pure IsClean (settle_file host path place.1 millis) _ d (
              settle_file-IsClean path place.1 millis _ d (destination_fine receipt.state e) found
                h))

  begin_submission-IsClean :
      (path : Location) (operation : MemoryOperation)
      → Keeps IsClean (begin_submission host path operation)
  unfolding begin_submission
  begin_submission-IsClean path operation =
      Keeps-if _ _ _
        (Keeps-write_then path _ _ (encoded path _ refl) λ d h found.
          Keeps-then_pure IsClean (durable_rename path (at memory_submitting path.name)) _ d
            ((move_elsewhere path (at memory_submitting path.name) (omega arith)).keeps d h))
        (Keeps-pure _)

  read_operation-IsClean : (p : Location) → Keeps IsClean (read_operation host p)
  unfolding read_operation
  read_operation-IsClean p = search keeps_rules

  reconcile_memory-IsClean :
      (server : Server) (path : Location) (now : ℕ) (millis : String)
      → Keeps IsClean (reconcile_memory host server path now millis)
  unfolding reconcile_memory
  reconcile_memory-IsClean server path now millis =
      search (keeps_rules, read_operation-IsClean, begin_submission-IsClean, apply_receipt-IsClean)
        depth 10
