-- ===== src/Worker/Quarantine/Refused.antt =====
-- What a refused quarantine or release leaves on disk.
use prometheus_knowledge_rs.Prelude.{
  ℕ, ◌≡◌, refl, ◌∙◌, Bool, true, ◌||◌, Option, some, List, String,
}
use prometheus_knowledge_rs.Worker.Operation.{MemoryOperation, Error, already_exists, ok, err}
use prometheus_knowledge_rs.Worker.Disk.{
  memory_accepted, memory_stalled, json_files, Disk, Io, pure, raise, ◌>>=◌, read,
}
use prometheus_knowledge_rs.Worker.Queue.{Host}
use prometheus_knowledge_rs.Worker.Quarantine.{
  take_lock, select_stale, first_taken, free_place, quarantine, read_all, select_released,
  release_directory, release,
}
use prometheus_knowledge_rs.Worker.Disk.Steps.{lift_ok, lift_err, gets_ok}

module _ {C : Type 0} (host : Host C) where
  locked_in :
      {A : Type 0} (lock_free : Bool) (rest : Unit {0} → Io C A) (d : Disk C)
      → lock_free ≡ true
      → (take_lock host lock_free >>= rest) d ≡ rest tt d
  unfolding pure ◌>>=◌
  locked_in lock_free rest d e = rw e refl

  stopped_at :
      {A : Type 0} (taken : Option String) (name : String) (rest : Unit {0} → Io C A) (d : Disk C)
      → taken ≡ some name
      → (free_place host taken >>= rest) d ≡ (err (already_exists name), d)
  unfolding raise ◌>>=◌
  stopped_at taken name rest d e = rw e refl

  -- Where the place of a record to quarantine is taken, nothing is changed, not even a manifest is
  -- written, and the error names the first such record.
  pub quarantine-already_exists :
      (lock_free : Bool) (manifest_name : String) (older_than : ℕ) (dry_run : Bool) (now : ℕ)
      (d : Disk C) (name : String)
      → (dry_run || lock_free) ≡ true
      → first_taken host
          (λ o. memory_stalled)
          d.files
          (select_stale host older_than now d.files (json_files memory_accepted d.files))
        ≡ some name
      → quarantine host lock_free manifest_name older_than dry_run now d
        ≡ (err (already_exists name), d)
  unfolding quarantine
  quarantine-already_exists lock_free manifest_name older_than dry_run now d name locked taken =
      locked_in (dry_run || lock_free) _ d locked
      ∙ gets_ok _ _ d
      ∙ gets_ok _ _ d
      ∙ gets_ok _ _ d
      ∙ stopped_at _ name _ d taken

  -- A release whose selection is refused, since no stalled record has an id that it names, changes
  -- nothing on disk.
  pub release-not_stalled :
      (manifest_name : String) (ids : Option (List String)) (now : ℕ) (d : Disk C)
      (stalled : List (String × MemoryOperation)) (e : Error)
      → read_all host d.files (json_files memory_stalled d.files) ≡ ok stalled
      → select_released host ids stalled ≡ err e
      → release host true manifest_name ids now d ≡ (err e, d)
  unfolding release
  release-not_stalled manifest_name ids now d stalled e read refused =
      locked_in true _ d refl
      ∙ gets_ok _ _ d
      ∙ gets_ok _ _ d
      ∙ lift_ok _ _ d stalled read
      ∙ lift_err (select_released host ids stalled) _ d e refused

  -- A release that finds the place of a selected record taken changes nothing on disk.
  pub release-already_exists :
      (manifest_name : String) (ids : Option (List String)) (now : ℕ) (d : Disk C)
      (stalled selected : List (String × MemoryOperation)) (name : String)
      → read_all host d.files (json_files memory_stalled d.files) ≡ ok stalled
      → select_released host ids stalled ≡ ok selected
      → first_taken host (release_directory host) d.files selected ≡ some name
      → release host true manifest_name ids now d ≡ (err (already_exists name), d)
  unfolding release
  release-already_exists manifest_name ids now d stalled selected name read chosen taken =
      locked_in true _ d refl
      ∙ gets_ok _ _ d
      ∙ gets_ok _ _ d
      ∙ lift_ok _ _ d stalled read
      ∙ lift_ok (select_released host ids stalled) _ d selected chosen
      ∙ gets_ok _ _ d
      ∙ stopped_at _ name _ d taken
