-- ===== src/Worker/Health/Agreement.antt =====
-- The status report against the quarantine command.
use prometheus_knowledge_rs.Worker.Quarantine.{
  select_stale, first_taken, quarantine_entry, free_place, quarantine_manifest, quarantine_moves,
  quarantine,
}
use prometheus_knowledge_rs.Worker.Disk.{
  memory_accepted, memory_stalled, Location, json_files, Disk, Io, pure, raise, gets, ◌>>=◌, ◌>>◌,
  lookup, at,
}
use prometheus_knowledge_rs.Prelude.{
  ℕ, ◌≡◌, refl, Bool, List, [], ◌∷◌, map, arith, String, length, keep, true, Option, none, some,
  ◌∙◌, if◌then◌else◌, All, is_some, inl, inr, Bool-cases,
}
use prometheus_knowledge_rs.Worker.Operation.{MemoryOperation, already_exists, Result, ok, err}
use prometheus_knowledge_rs.Worker.Queue.{Host, Manifest}
use prometheus_knowledge_rs.Worker.Staleness.{is_stale}
use prometheus_knowledge_rs.Worker.Health.{readable, queue_status, accepted_health}

-- The element of an option, as a list.
abbrev option_list : Option String → List String
option_list none = []
option_list (some name) = name ∷ []

module _ {C : Type 0} (host : Host C) where
  open host use {platform}

  stale_count :
      (now older_than : ℕ) (fs : List (Location × C)) (names : List String)
      → length (select_stale host older_than now fs names)
        ≡ length (keep (λ o. is_stale platform o now older_than) (readable host fs names))
  unfolding select_stale readable
  stale_count now older_than fs [] = refl
  stale_count now older_than fs (name ∷ names) = ground (arith, stale_count now older_than fs names)

  entries :
      (older_than now : ℕ) (dry_run : Bool) (selected : List (String × MemoryOperation))
      → length (map (quarantine_entry host) selected) ≡ length selected
  entries older_than now dry_run [] = refl
  entries older_than now dry_run (o ∷ os) = omega (arith, entries older_than now dry_run os)

  -- A dry run's result: the manifest, or the first place that is taken.
  abbrev dry : Option String → Manifest → Result Manifest
  dry none manifest = ok manifest
  dry (some name) manifest = err (already_exists name)

  free_place-dry :
      (taken : Option String) (manifest : Manifest) (moves : Io C Manifest) (d : Disk C)
      → (free_place host taken >>= λ u. if true then pure manifest else moves) d
        ≡ (dry taken manifest, d)
  unfolding pure raise ◌>>=◌
  free_place-dry none manifest moves d = refl
  free_place-dry (some name) manifest moves d = refl

  quarantine-dry :
      (lock_free : Bool) (name : String) (older_than now : ℕ) (d : Disk C)
      → let selected =
          select_stale host older_than now d.files (json_files memory_accepted d.files) in
        quarantine host lock_free name older_than true now d ≡ (
          dry
              (first_taken host (λ o. memory_stalled) d.files selected)
              (quarantine_manifest host older_than true now selected),
          d,
        )
  unfolding quarantine pure gets ◌>>=◌
  quarantine-dry lock_free name older_than now d =
      let selected =
        select_stale host older_than now d.files (json_files memory_accepted d.files) in
      let manifest = quarantine_manifest host older_than true now selected in
      free_place-dry _ manifest (quarantine_moves host name manifest selected >> pure manifest) d

  -- What a dry run returns over given files: a manifest of so many operations, or the name of a place in
  -- memory/stalled that is taken.
  abbrev pub IsAgreed : List (Location × C) → ℕ → Result Manifest → Type 0
  IsAgreed fs n (ok listed) = length listed.operations ≡ n
  IsAgreed fs n (err e) =
      (name : String) × (e ≡ already_exists name)
      × (is_some (lookup (at memory_stalled name) fs) ≡ true)

  first_taken-held :
      (fs : List (Location × C)) (selected : List (String × MemoryOperation))
      → All
          (λ (taken : String). is_some (lookup (at memory_stalled taken) fs) ≡ true)
          (option_list (first_taken host (λ o. memory_stalled) fs selected))
  unfolding first_taken
  first_taken-held fs [] = tt
  first_taken-held fs ((name, operation) ∷ rest) =
      elim (Bool-cases (is_some (lookup (at memory_stalled name) fs))) [
        | inl held ↦ rw held (held, tt)
        | inr free ↦ rw free (first_taken-held fs rest)
      ]

  dry-IsAgreed :
      (fs : List (Location × C)) (n : ℕ) (taken : Option String) (manifest : Manifest)
      → length manifest.operations ≡ n
      → All
          (λ (name : String). is_some (lookup (at memory_stalled name) fs) ≡ true)
          (option_list taken)
      → IsAgreed fs n (dry taken manifest)
  dry-IsAgreed fs n none manifest size held = size
  dry-IsAgreed fs n (some name) manifest size (held, _) = (name, refl, held)

  -- A dry run needs no lock and changes nothing, whatever it returns: a manifest that lists as many
  -- operations as the status report counts stale, or, where the place of one of them in memory/stalled
  -- is taken, the name of such a place.
  pub quarantine-queue_status :
      (lock_free : Bool) (name : String) (older_than now : ℕ) (d : Disk C)
      → let (result, after) = quarantine host lock_free name older_than true now d in
        (after ≡ d)
        × IsAgreed d.files (queue_status host now older_than d.files).stale_operations result
  unfolding queue_status accepted_health
  quarantine-queue_status lock_free name older_than now d =
      let selected =
        select_stale host older_than now d.files (json_files memory_accepted d.files) in
      rw (quarantine-dry lock_free name older_than now d) (
        refl,
        dry-IsAgreed d.files _ _ (quarantine_manifest host older_than true now selected)
            (entries older_than now true selected
              ∙ stale_count now older_than d.files (json_files memory_accepted d.files))
            (first_taken-held d.files selected),
      )
