-- ===== src/Worker/Survival.antt =====
-- The operation ids that files carry, through the steps of the commands.
pub mod Quarantine
use prometheus_knowledge_rs.Prelude.{
  ◌≡◌, refl, inl, inr, Bool, true, false, Option, none, some, List, [], ◌∷◌, arith, String,
  Option-cases, All, is_empty,
}
use prometheus_knowledge_rs.Worker.Disk.{
  Directory, memory_manifests, Location, at, lookup, put, Disk, Io, ◌>>=◌, pure, atomic_json,
}
use prometheus_knowledge_rs.Worker.Quarantine.{write_manifest, take_lock, first_taken, free_place}
use prometheus_knowledge_rs.Worker.Disk.Keeps.{perform_keeps, action_then, if_then}
use prometheus_knowledge_rs.Worker.Operation.{MemoryOperation, ok}
use prometheus_knowledge_rs.Worker.Queue.{Manifest, Host, operation_at}
use prometheus_knowledge_rs.Worker.Payload.{normalize_operation}
use prometheus_knowledge_rs.Worker.Queue.Reading.{operation_at_inv}

abbrev pub operation_id_of : Option MemoryOperation → Option String
operation_id_of none = none
operation_id_of (some operation) = some operation.operation_id

module _ {C : Type 0} (host : Host C) where
  open host use {platform, environment, encode, decode, decode-encode}

  -- The operation id that a file carries.
  abbrev pub identity : C → Option String
  identity c = operation_id_of (decode c)

  normalize_operation-id :
      (operation : MemoryOperation) {normal : MemoryOperation}
      → normalize_operation platform environment operation ≡ ok normal
      → normal.operation_id ≡ operation.operation_id
  unfolding normalize_operation
  normalize_operation-id operation e = ground arith

  -- The file from which a record was read carries its identity.
  pub operation_at-identity :
      (p : Location) (fs : List (Location × C)) {operation : MemoryOperation} (c : C)
      → operation_at host p fs ≡ ok operation
      → lookup p fs ≡ some c
      → identity c ≡ some operation.operation_id
  operation_at-identity p fs c e here =
      let (content, stored, found, readable, normal) = operation_at_inv host p fs e in
      ground (arith, normalize_operation-id stored normal)

  pub encode-identity :
      (operation : MemoryOperation) → identity (encode operation) ≡ some operation.operation_id
  encode-identity operation = rw decode-encode refl

  -- The places of the selected records were free when they were checked.
  pub first_taken-free :
      (target : MemoryOperation → Directory) (fs : List (Location × C))
      (os : List (String × MemoryOperation))
      → first_taken host target fs os ≡ none
      → All (λ (o : String × MemoryOperation). lookup (at (target o.1) o.0) fs ≡ none) os
  unfolding first_taken
  first_taken-free target fs [] e = tt
  first_taken-free target fs ((name, operation) ∷ rest) e =
      elim (Option-cases (lookup (at (target operation) name) fs)) [
        | inl free ↦ (free, first_taken-free target fs rest (rw free at e))
        | inr (c, taken) ↦ cc (rw taken at e)
      ]

  module _ (P : List (Location × C) → Type 0) where
    pub lock_then :
        {A : Type 0} (b : Bool) (rest : Unit {0} → Io C A) (d : Disk C)
        → P d.files
        → P (rest tt d).1.files
        → P ((take_lock host b >>= rest) d).1.files
    unfolding ◌>>=◌
    lock_then true rest d h more = more
    lock_then false rest d h more = h

    pub free_place_then :
        {A : Type 0} (taken : Option String) (rest : Unit {0} → Io C A) (d : Disk C)
        → P d.files
        → (taken ≡ none → P (rest tt d).1.files)
        → P ((free_place host taken >>= rest) d).1.files
    unfolding ◌>>=◌
    free_place_then none rest d h more = more refl
    free_place_then (some name) rest d h more = h

    written_manifest :
        (name : String) (manifest : Manifest) (d : Disk C)
        → P d.files
        → P (put (at memory_manifests name) (host.encode_manifest manifest) d.files)
        → P (write_manifest host name manifest d).1.files
    unfolding write_manifest pure atomic_json
    written_manifest name manifest d h written =
        if_then P (is_empty manifest.operations) (pure tt)
          (atomic_json (at memory_manifests name) (host.encode_manifest manifest)) d (λ e. h)
          (λ e.
            perform_keeps P (put (at memory_manifests name) (host.encode_manifest manifest)) d h
              written)

    pub write_manifest_then :
        {A : Type 0} (name : String) (manifest : Manifest) (rest : Unit {0} → Io C A) (d : Disk C)
        → P d.files
        → P (put (at memory_manifests name) (host.encode_manifest manifest) d.files)
        → ((d' : Disk C) → P d'.files → P (rest tt d').1.files)
        → P ((write_manifest host name manifest >>= rest) d).1.files
    write_manifest_then name manifest rest d h written more =
        let after = written_manifest name manifest d h written in
        action_then P (write_manifest host name manifest) rest d after (λ u. more _ after)
