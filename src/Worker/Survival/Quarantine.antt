-- ===== src/Worker/Survival/Quarantine.antt =====
-- Quarantine and the operation ids that files carry.
use prometheus_knowledge_rs.Worker.Disk.Survival.{
  Holds, Survives, Survives-put, Survives-rename, Survives-refl,
}
use prometheus_knowledge_rs.Worker.Disk.{
  memory_accepted, memory_stalled, memory_manifests, Location, at, same_location, lookup, put,
  remove, json_files, Disk, pure, atomic_json,
}
use prometheus_knowledge_rs.Worker.Quarantine.{
  select_stale, stall_operation, each_operation, quarantine_manifest, quarantine_moves, quarantine,
}
use prometheus_knowledge_rs.Worker.Disk.Keeps.{
  Keeps-then_pure, rename_then, perform_keeps, action_then, gets_then, if_then,
}
use prometheus_knowledge_rs.Worker.Operation.{MemoryOperation, ok}
use prometheus_knowledge_rs.Worker.Queue.{Manifest, Host, operation_at}
use prometheus_knowledge_rs.Prelude.{
  ◌≡◌, refl, sym, ap, ◌∙◌, false, none, some, List, [], ◌∷◌, arith, String, str_eq, eq_iff,
  if◌then◌else◌, All, ℕ, All-map, Bool, ◌||◌,
}
use prometheus_knowledge_rs.Worker.Disk.Laws.{lookup-put, lookup-rename}
use mathlib.Core.Path.{subst}
use prometheus_knowledge_rs.Worker.Survival.{
  identity, encode-identity, operation_at-identity, lock_then, free_place_then, write_manifest_then,
  first_taken-free,
}

module _ {C : Type 0} (host : Host C) where
  open host use {platform, environment, encode, decode, decode-encode}

  -- The record's place in `memory/stalled` is free as long as it stands in `memory/accepted`.
  abbrev IsReady : List (Location × C) → String × MemoryOperation → Type 0
  IsReady fs o =
      (c : C)
      → lookup (at memory_accepted o.0) fs ≡ some c
      → (lookup (at memory_stalled o.0) fs ≡ none) × (identity host c ≡ some o.1.operation_id)

  record Advances (before after : List (Location × C)) : Type 0 where
    survives : Survives (identity host) before after
    still_ready : (o : String × MemoryOperation) → IsReady before o → IsReady after o

  Advances-refl : (fs : List (Location × C)) → Advances fs fs
  Advances-refl fs = record { survives = λ id h. h; still_ready = λ o h. h }

  Advances-trans : (a b c : List (Location × C)) → Advances a b → Advances b c → Advances a c
  Advances-trans a b c f g = record {
    survives = λ id h. g.survives id (f.survives id h);
    still_ready = λ o h. g.still_ready o (f.still_ready o h);
  }

  stalled_name :
      (n m : String) → same_location (at memory_stalled n) (at memory_stalled m) ≡ str_eq n m
  unfolding same_location
  stalled_name n m = refl

  accepted_name :
      (n m : String) → same_location (at memory_accepted n) (at memory_accepted m) ≡ str_eq n m
  unfolding same_location
  accepted_name n m = refl

  apart :
      (n m : String)
      → (same_location (at memory_stalled n) (at memory_accepted m) ≡ false)
        × (same_location (at memory_accepted n) (at memory_stalled m) ≡ false)
  unfolding same_location
  apart n m = (refl, refl)

  after_rename :
      (n m : String) (c : C) (fs : List (Location × C))
      → let fs' = put (at memory_stalled n) c (remove (at memory_accepted n) fs) in
        (lookup (at memory_accepted m) fs'
          ≡ (if str_eq n m then none else lookup (at memory_accepted m) fs))
        × (lookup (at memory_stalled m) fs'
            ≡ (if str_eq n m then some c else lookup (at memory_stalled m) fs))
  after_rename n m c fs = (
    rw (lookup-rename, (apart n m).0, accepted_name n m) refl,
    rw (lookup-rename, (apart n m).1, stalled_name n m) refl,
  )

  after_write :
      (n m : String) (c : C) (fs : List (Location × C))
      → let fs' = put (at memory_stalled n) c fs in
        (lookup (at memory_accepted m) fs' ≡ lookup (at memory_accepted m) fs)
        × (lookup (at memory_stalled m) fs'
            ≡ (if str_eq n m then some c else lookup (at memory_stalled m) fs))
  after_write n m c fs =
      (rw (lookup-put, (apart n m).0) refl, rw (lookup-put, stalled_name n m) refl)

  rename-Advances :
      (n : String) (c : C) (fs : List (Location × C))
      → lookup (at memory_accepted n) fs ≡ some c
      → lookup (at memory_stalled n) fs ≡ none
      → Advances fs (put (at memory_stalled n) c (remove (at memory_accepted n) fs))
  rename-Advances n c fs here free = record {
    survives =
        Survives-rename (identity host) (at memory_accepted n) (at memory_stalled n) c fs here free;
    still_ready = λ o ready d found. ground (arith, after_rename n o.0 c fs, ready d);
  }

  write-Advances :
      (n : String) (c : C) (old : C) (fs : List (Location × C))
      → lookup (at memory_accepted n) fs ≡ none
      → lookup (at memory_stalled n) fs ≡ some old
      → identity host c ≡ identity host old
      → Advances fs (put (at memory_stalled n) c fs)
  write-Advances n c old fs gone here same = record {
    survives =
        Survives-put (identity host) (at memory_stalled n) c fs
          (λ x e. same ∙ ap (identity host) (cc e));
    still_ready = λ o ready d found. ground (arith, after_write n o.0 c fs, ready d, eq_iff n o.0);
  }

  rewritten :
      (n : String) (c : C) (fs : List (Location × C))
      → let fs' = put (at memory_stalled n) c (remove (at memory_accepted n) fs) in
        (lookup (at memory_accepted n) fs' ≡ none) × (lookup (at memory_stalled n) fs' ≡ some c)
  rewritten n c fs = ground (arith, after_rename n n c fs, eq_iff n n)

  stall_operation-Advances :
      (o : String × MemoryOperation) (d : Disk C)
      → IsReady d.files o
      → Advances d.files (stall_operation host o d).1.files
  unfolding stall_operation atomic_json
  stall_operation-Advances (name, operation) d ready =
      rename_then (Advances d.files) (at memory_accepted name) (at memory_stalled name)
        (atomic_json (at memory_stalled name) (encode (record operation { state = "stalled" }))) d
        (Advances-refl d.files) (λ c e. rename-Advances name c d.files e (ready c e).0)
        λ d' c e f.
          Advances-trans d.files d'.files _
            (subst (Advances d.files) (sym f) (rename-Advances name c d.files e (ready c e).0))
            (perform_keeps (Advances d'.files)
              (put (at memory_stalled name) (encode (record operation { state = "stalled" }))) d'
              (Advances-refl d'.files)
              (write-Advances name _ c d'.files (rw f (rewritten name c d.files).0)
                (rw f (rewritten name c d.files).1) (rw encode-identity (sym (ready c e).1))))

  each_operation-Advances :
      (os : List (String × MemoryOperation)) (d : Disk C)
      → All (IsReady d.files) os
      → Advances d.files (each_operation host (stall_operation host) os d).1.files
  unfolding each_operation
  each_operation-Advances [] d ready = unfold pure in Advances-refl d.files
  each_operation-Advances (o ∷ os) d ready =
      let step = stall_operation-Advances o d ready.0 in
      action_then (Advances d.files) (stall_operation host o)
        (λ u. each_operation host (stall_operation host) os) d step
        λ u.
          Advances-trans d.files _ _ step
            (each_operation-Advances os _ (All-map os (λ x. step.still_ready x) ready.1))

  -- What was selected carries its identity, and stays ready while its place is free.
  select_stale-identity :
      (older_than now : ℕ) (fs : List (Location × C)) (names : List String)
      → All
          (λ (o : String × MemoryOperation). operation_at host (at memory_accepted o.0) fs ≡ ok o.1)
          (select_stale host older_than now fs names)
  unfolding select_stale
  select_stale-identity older_than now fs [] = tt
  select_stale-identity older_than now fs (name ∷ names) =
      ground (arith, select_stale-identity older_than now fs names)

  IsReady-All :
      (fs : List (Location × C)) (os : List (String × MemoryOperation))
      → All
          (λ (o : String × MemoryOperation). operation_at host (at memory_accepted o.0) fs ≡ ok o.1)
          os
      → All (λ (o : String × MemoryOperation). lookup (at memory_stalled o.0) fs ≡ none) os
      → All (IsReady fs) os
  IsReady-All fs [] reads free = tt
  IsReady-All fs (o ∷ os) (r, reads) (f, free) = (
    λ c e. (f, operation_at-identity host (at memory_accepted o.0) fs c r e),
    IsReady-All fs os reads free,
  )

  after_manifest :
      (name m : String) (c : C) (fs : List (Location × C))
      → let fs' = put (at memory_manifests name) c fs in
        (lookup (at memory_accepted m) fs' ≡ lookup (at memory_accepted m) fs)
        × (lookup (at memory_stalled m) fs' ≡ lookup (at memory_stalled m) fs)
  unfolding same_location
  after_manifest name m c fs = (rw lookup-put refl, rw lookup-put refl)

  manifest-Advances :
      (name : String) (c : C) (fs : List (Location × C))
      → lookup (at memory_manifests name) fs ≡ none
      → Advances fs (put (at memory_manifests name) c fs)
  manifest-Advances name c fs fresh = record {
    survives = Survives-put (identity host) (at memory_manifests name) c fs (λ x e. cc);
    still_ready = λ o ready x found.
        let (accepted, stalled) = after_manifest name o.0 c fs in
        let (free, carried) = ready x (sym accepted ∙ found) in (stalled ∙ free, carried);
  }

  quarantine_moves-Advances :
      (name : String) (manifest : Manifest) (selected : List (String × MemoryOperation))
      (d : Disk C)
      → lookup (at memory_manifests name) d.files ≡ none
      → All (IsReady d.files) selected
      → Advances d.files (quarantine_moves host name manifest selected d).1.files
  unfolding quarantine_moves
  quarantine_moves-Advances name manifest selected d fresh ready =
      write_manifest_then host (Advances d.files) name manifest
        (λ u. each_operation host (stall_operation host) selected) d (Advances-refl d.files)
        (manifest-Advances name _ d.files fresh)
        λ d' h.
          Advances-trans d.files d'.files _ h
            (each_operation-Advances selected d' (All-map selected (λ o. h.still_ready o) ready))

  quarantine-Survives :
      (lock_free : Bool) (name : String) (older_than : ℕ) (dry_run : Bool) (now : ℕ) (d : Disk C)
      → lookup (at memory_manifests name) d.files ≡ none
      → Survives
          (identity host)
          d.files
          (quarantine host lock_free name older_than dry_run now d).1.files
  unfolding quarantine pure
  quarantine-Survives lock_free name older_than dry_run now d fresh =
      let P = Survives (identity host) d.files in
      let same = Survives-refl (identity host) d.files in
      let names = json_files memory_accepted d.files in
      let selected = select_stale host older_than now d.files names in
      lock_then host P (dry_run || lock_free) _ d same (
        gets_then P (json_files memory_accepted) _ d (
          gets_then P _ _ d (
            gets_then P _ _ d (
              free_place_then host P _ _ d same λ free.
                if_then P dry_run _ _ d (λ e. same)
                  λ e.
                    Keeps-then_pure P
                      (quarantine_moves host name
                        (quarantine_manifest host older_than dry_run now selected) selected)
                      _ d
                      (quarantine_moves-Advances name _ selected d fresh (
                        IsReady-All d.files selected
                          (select_stale-identity older_than now d.files names)
                          (first_taken-free host (λ o. memory_stalled) d.files selected
                            free))).survives))))

  -- Whatever calls fail and wherever quarantine is cut off, an operation id that some file carried
  -- before is carried by a file afterwards, if no file has the manifest's name.
  pub quarantine-Holds :
      (lock_free : Bool) (name : String) (older_than : ℕ) (dry_run : Bool) (now : ℕ) (d : Disk C)
      (id : String)
      → lookup (at memory_manifests name) d.files ≡ none
      → Holds (identity host) d.files id
      → Holds (identity host) (quarantine host lock_free name older_than dry_run now d).1.files id
  quarantine-Holds lock_free name older_than dry_run now d id fresh h =
      quarantine-Survives lock_free name older_than dry_run now d fresh id h
