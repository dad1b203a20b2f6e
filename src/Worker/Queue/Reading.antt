-- ===== src/Worker/Queue/Reading.antt =====
-- What a record that was read says about the file.
use prometheus_knowledge_rs.Worker.Disk.Keeps.{Keeps}
use prometheus_knowledge_rs.Worker.Disk.{Location, lookup, Disk, Io, continue, ◌>>=◌}
use prometheus_knowledge_rs.Prelude.{◌≡◌, refl, inl, inr, Option, none, some, List, Option-cases}
use prometheus_knowledge_rs.Worker.Operation.{MemoryOperation, ok, Result, err}
use prometheus_knowledge_rs.Worker.Queue.{Host, operation_at, normal_in, stored_in, read_operation}
use prometheus_knowledge_rs.Worker.Payload.{normalize_operation}

module _ {C : Type 0} (host : Host C) where
  open host use {platform, environment, decode}

  normal_in_inv :
      (found : Option C) {operation : MemoryOperation}
      → normal_in host (stored_in host found) ≡ ok operation
      → (c : C) × (stored : MemoryOperation) × (found ≡ some c)
        × (decode c ≡ some stored)
        × (normalize_operation platform environment stored ≡ ok operation)
  normal_in_inv none e = cc
  normal_in_inv (some c) e = elim (Option-cases (decode c)) [
    | inl unreadable_file ↦ cc (rw unreadable_file at e)
    | inr (stored, readable) ↦ (c, stored, refl, readable, rw readable at e)
  ]

  -- The file exists, serde reads a record from it, and the record that was read is its normal form.
  pub operation_at_inv :
      (p : Location) (fs : List (Location × C)) {operation : MemoryOperation}
      → operation_at host p fs ≡ ok operation
      → (c : C) × (stored : MemoryOperation) × (lookup p fs ≡ some c)
        × (decode c ≡ some stored)
        × (normalize_operation platform environment stored ≡ ok operation)
  unfolding operation_at
  operation_at_inv p fs e = normal_in_inv (lookup p fs) e

  -- The rest of a block that reads a record may use where it was read.
  pub Keeps-read_operation :
      {A : Type 0} {P : List (Location × C) → Type 0} (p : Location) (f : MemoryOperation → Io C A)
      → ((d : Disk C) (operation : MemoryOperation)
          → operation_at host p d.files ≡ ok operation
          → P d.files
          → P (f operation d).1.files)
      → Keeps P (read_operation host p >>= f)
  unfolding read_operation ◌>>=◌
  Keeps-read_operation {A = A} {P = P} p f after = record {
    keeps = λ d h. go d (operation_at host p d.files) refl h;
  }
    where
      go :
          (d : Disk C) (r : Result MemoryOperation)
          → operation_at host p d.files ≡ r
          → P d.files
          → P (continue r f d).1.files
      go d (ok operation) e h = after d operation e h
      go d (err x) e h = h
