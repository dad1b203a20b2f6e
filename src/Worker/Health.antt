-- ===== src/Worker/Health.antt =====
-- How the queue stands: `accepted_health` and the counts of `print_status`,
-- pk-learning-worker/src/main.rs.
pub mod Agreement
use prometheus_knowledge_rs.Prelude.{
  ℕ, zero, suc, ◌+◌, ◌-◌, ◌/◌, Option, none, some, List, [], ◌∷◌, String, leb, if◌then◌else◌, bind,
  or_else, length, keep, filter_map,
}
use prometheus_knowledge_rs.Worker.Operation.{MemoryOperation, ok, err}
use prometheus_knowledge_rs.Worker.Disk.{
  Directory, pending, processing, retry, rejected, completed, dead_letter, memory_pending,
  memory_submitting, memory_accepted, memory_retry, memory_completed, memory_rejected,
  memory_dead_letter, memory_stalled, Location, at, json_files,
}
use prometheus_knowledge_rs.Worker.Queue.{Host, operation_at}
use prometheus_knowledge_rs.Worker.Receipt.{second}
use prometheus_knowledge_rs.Worker.Staleness.{is_stale}

-- A number of seconds that may be negative, i64 in the source; negsuc n is -(n + 1).
pub data ℤ : Type 0 where
  pos negsuc : ℕ → ℤ

-- `num_seconds` rounds towards zero.
abbrev pub negative : ℕ → ℤ
negative zero = pos 0
negative (suc n) = negsuc n

unfoldable pub age_seconds : ℕ → ℕ → ℤ
age_seconds now since =
    if leb since now then pos ((now - since) / second) else negative ((since - now) / second)

abbrev pub larger : ℤ → ℤ → ℤ
larger (pos m) (pos n) = if leb m n then pos n else pos m
larger (pos m) (negsuc n) = pos m
larger (negsuc m) (pos n) = pos n
larger (negsuc m) (negsuc n) = if leb m n then negsuc m else negsuc n

abbrev larger_option : ℤ → Option ℤ → ℤ
larger_option a none = a
larger_option a (some b) = larger a b

-- `iter().max()`
unfoldable pub oldest : List ℤ → Option ℤ
oldest [] = none
oldest (a ∷ rest) = some (larger_option a (oldest rest))

pub record AcceptedHealth : Type 0 where
  pub stale : ℕ
  pub oldest_age_seconds : Option ℤ

-- What `status` prints, less the queue's path, the threshold and the last run's file.
pub record QueueStatus : Type 0 where
  pub pending_jobs : ℕ
  pub processing_jobs : ℕ
  pub rejected_jobs : ℕ
  pub retry_jobs : ℕ
  pub completed_jobs : ℕ
  pub dead_letters : ℕ
  pub pending_operations : ℕ
  pub submitting_operations : ℕ
  pub accepted_operations : ℕ
  pub rejected_operations : ℕ
  pub completed_operations : ℕ
  pub stalled_operations : ℕ
  pub stale_operations : ℕ
  pub oldest_accepted_age_seconds : Option ℤ

module _ {C : Type 0} (host : Host C) where
  open host use {platform}

  -- The readable records among the named ones in `memory/accepted`.
  unfoldable pub readable : List (Location × C) → List String → List MemoryOperation
  readable fs [] = []
  readable fs (name ∷ names) =
      let rest = readable fs names in
      elim (operation_at host (at memory_accepted name) fs) [
        | err e ↦ rest
        | ok operation ↦ operation ∷ rest
      ]

  abbrev since_accepted : MemoryOperation → Option ℕ
  since_accepted operation =
      or_else (bind operation.first_accepted_at platform.parse_time)
        (platform.parse_time operation.queued_at)

  abbrev age_of : ℕ → Option ℕ → Option ℤ
  age_of now none = none
  age_of now (some since) = some (age_seconds now since)

  unfoldable pub accepted_health : ℕ → ℕ → List (Location × C) → AcceptedHealth
  accepted_health now threshold fs =
      let operations = readable fs (json_files memory_accepted fs) in
      record {
        stale = length (keep (λ o. is_stale platform o now threshold) operations);
        oldest_age_seconds = oldest (filter_map (λ o. age_of now (since_accepted o)) operations);
      }

  abbrev number_in : Directory → List (Location × C) → ℕ
  number_in directory fs = length (json_files directory fs)

  unfoldable pub queue_status : ℕ → ℕ → List (Location × C) → QueueStatus
  queue_status now stale_after fs = record {
    pending_jobs = number_in pending fs;
    processing_jobs = number_in processing fs;
    rejected_jobs = number_in rejected fs;
    retry_jobs = number_in retry fs;
    completed_jobs = number_in completed fs;
    dead_letters = number_in dead_letter fs;
    pending_operations = number_in memory_pending fs + number_in memory_retry fs;
    submitting_operations = number_in memory_submitting fs;
    accepted_operations = number_in memory_accepted fs;
    rejected_operations = number_in memory_rejected fs + number_in memory_dead_letter fs;
    completed_operations = number_in memory_completed fs;
    stalled_operations = number_in memory_stalled fs;
    stale_operations = (accepted_health now stale_after fs).stale;
    oldest_accepted_age_seconds = (accepted_health now stale_after fs).oldest_age_seconds;
  }
