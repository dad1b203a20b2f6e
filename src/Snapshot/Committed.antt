-- ===== src/Snapshot/Committed.antt =====
-- A committed snapshot is read back, and a commit that is cut off leaves a snapshot that can be read.
use Prim.Native.String.{◌++◌ as append}
use prometheus_knowledge_rs.Prelude.{
  ◌≡◌, some, List, String, Option, none, arith, eq_iff, trim_string, find, insert, find-insert, ◌⊎◌,
  inl, inr, refl, true, Bool-cases,
}
use prometheus_knowledge_rs.Snapshot.{
  IsFaithful, valid, Codec, snapshot_of, check_file, follow, PromptSnapshot, SnapshotDir, Write,
  SnapshotResult, point_at, works, fails, late, torn, validate_scope, commit_prompt_snapshot,
  read_prompt_snapshot, write_generation, then_point, unreadable_snapshot, invalid,
}
use prometheus_knowledge_rs.Snapshot.Compact.{compact_json-Spaced}
use prometheus_knowledge_rs.Wiki.{WikiEntry}
use prometheus_knowledge_rs.Snapshot.Pointer.{trim_string-pointer}

find-insert_self {ℓ} :
    {V : Type ℓ} (k : String) (v : V) (m : List (String × V)) → find k (insert k v m) ≡ some v
find-insert_self k v m = ground (arith, find-insert k k v m, eq_iff k k)

module _ {Y F : Type 0} (codec : Codec Y F) where
  open codec use {compact, encode, decode, raw_entries, read_entries, digest}

  -- The file of a snapshot, checked against its own generation, gives that snapshot back.
  check_file-encode :
      (scope : String) (es : List (WikiEntry Y))
      → IsFaithful codec (snapshot_of codec scope es)
      → check_file codec scope
          (snapshot_of codec scope es).generation
          (some (encode (snapshot_of codec scope es)))
        ≡ valid (snapshot_of codec scope es)
  unfolding snapshot_of
  check_file-encode scope es whole =
      let s = snapshot_of codec scope es in
      rw
        (
          whole.decode-encode,
          whole.read_entries-raw_entries,
          compact_json-Spaced (compact s.entries) (raw_entries s) whole.raw_entries-Spaced,
        )
        (ground (arith, eq_iff scope scope, eq_iff s.generation s.generation))

  -- With the file of its generation there, a pointer to it makes the snapshot the one that is read.
  follow-pointer :
      (scope : String) (es : List (WikiEntry Y)) (files : List (String × F))
      → IsFaithful codec (snapshot_of codec scope es)
      → find (snapshot_of codec scope es).generation files
        ≡ some (encode (snapshot_of codec scope es))
      → follow codec scope files (some (append (snapshot_of codec scope es).generation "\n"))
        ≡ valid (snapshot_of codec scope es)
  unfolding snapshot_of
  follow-pointer scope es files whole held =
      let s = snapshot_of codec scope es in
      let hex = codec.digest-is_generation scope (compact s.entries) in
      rw (trim_string-pointer s.generation hex, hex, held) (check_file-encode scope es whole)

  -- A new file under a name that was free leaves what is read as it is.
  follow-insert :
      (scope k : String) (file : F) (files : List (String × F)) (pointer : Option String)
      (old : PromptSnapshot Y)
      → find k files ≡ none
      → follow codec scope files pointer ≡ valid old
      → follow codec scope (insert k file files) pointer ≡ valid old
  follow-insert scope k file files none old free h = h
  follow-insert scope k file files (some p) old free h =
      ground (arith, eq_iff k (trim_string p), find-insert k (trim_string p) file files)

  -- The generation's name is free, or holds the file that this commit would write.
  abbrev pub IsWhole : String → List (WikiEntry Y) → SnapshotDir F → Type 0
  IsWhole scope es dir =
      let s = snapshot_of codec scope es in
      (find s.generation dir.generations ≡ none)
      ⊎ (find s.generation dir.generations ≡ some (encode s))

  follow-point_at :
      (scope : String) (es : List (WikiEntry Y)) (pointer : Write F) (dir : SnapshotDir F)
      (old : SnapshotResult (PromptSnapshot Y))
      → IsFaithful codec (snapshot_of codec scope es)
      → find (snapshot_of codec scope es).generation dir.generations
        ≡ some (encode (snapshot_of codec scope es))
      → follow codec scope dir.generations dir.current ≡ old
      → let after = (point_at codec pointer (snapshot_of codec scope es) dir).1 in
        (follow codec scope after.generations after.current ≡ old)
        ⊎ (follow codec scope after.generations after.current ≡ valid (snapshot_of codec scope es))
  follow-point_at scope es works dir old whole held h =
      inr (follow-pointer scope es dir.generations whole held)
  follow-point_at scope es fails dir old whole held h = inl h
  follow-point_at scope es late dir old whole held h =
      inr (follow-pointer scope es dir.generations whole held)
  follow-point_at scope es (torn _) dir old whole held h = inl h

  -- A commit whose writes both work returns the snapshot of the entries in the order of their ids, and
  -- the next read returns that same snapshot, if the scope is one of the three and the generation's
  -- name is free or holds the file that the commit would write, and serde reads back what it wrote.
  pub read_prompt_snapshot-commit_prompt_snapshot :
      (scope : String) (es : List (WikiEntry Y)) (dir : SnapshotDir F)
      → IsFaithful codec (snapshot_of codec scope es)
      → validate_scope scope ≡ true
      → IsWhole scope es dir
      → let (result, after) = commit_prompt_snapshot codec works works scope es dir in
        (result ≡ valid (snapshot_of codec scope es))
        × (read_prompt_snapshot codec scope after ≡ valid (snapshot_of codec scope es))
  unfolding commit_prompt_snapshot read_prompt_snapshot
  read_prompt_snapshot-commit_prompt_snapshot scope es dir whole known (inl free) =
      let s = snapshot_of codec scope es in
      let files = insert s.generation (encode s) dir.generations in
      rw (known, free)
        (
          refl,
          follow-pointer scope es files whole
              (find-insert_self s.generation (encode s) dir.generations),
        )
  read_prompt_snapshot-commit_prompt_snapshot scope es dir whole known (inr held) =
      rw (known, held) (refl, follow-pointer scope es dir.generations whole held)

  follow-then_point :
      (scope : String) (es : List (WikiEntry Y)) (generation pointer : Write F)
      (dir : SnapshotDir F) (old : PromptSnapshot Y)
      → IsFaithful codec (snapshot_of codec scope es)
      → find (snapshot_of codec scope es).generation dir.generations ≡ none
      → follow codec scope dir.generations dir.current ≡ valid old
      → let s = snapshot_of codec scope es in
        let after = (then_point codec pointer s (write_generation codec generation s dir)).1 in
        (follow codec scope after.generations after.current ≡ valid old)
        ⊎ (follow codec scope after.generations after.current ≡ valid s)
  follow-then_point scope es works pointer dir old whole free h =
      let s = snapshot_of codec scope es in
      let files = insert s.generation (encode s) dir.generations in
      follow-point_at scope es pointer (record dir { generations = files }) (valid old) whole
        (find-insert_self s.generation (encode s) dir.generations)
        (follow-insert scope s.generation (encode s) dir.generations dir.current old free h)
  follow-then_point scope es fails pointer dir old whole free h = inl h
  follow-then_point scope es late pointer dir old whole free h =
      let s = snapshot_of codec scope es in
      inl (follow-insert scope s.generation (encode s) dir.generations dir.current old free h)
  follow-then_point scope es (torn rest) pointer dir old whole free h = inl (
      follow-insert scope (snapshot_of codec scope es).generation rest dir.generations dir.current
        old free h)

  -- However the two writes of a commit end, a scope whose snapshot could be read still has one: the
  -- snapshot of before, or the committed one. The name of the new generation must be free, or hold the
  -- file that the commit would write, and serde must read back what it wrote.
  pub commit_prompt_snapshot-keeps :
      (scope : String) (es : List (WikiEntry Y)) (generation pointer : Write F)
      (dir : SnapshotDir F) (old : PromptSnapshot Y)
      → IsFaithful codec (snapshot_of codec scope es)
      → read_prompt_snapshot codec scope dir ≡ valid old
      → IsWhole scope es dir
      → let after = (commit_prompt_snapshot codec generation pointer scope es dir).1 in
        (read_prompt_snapshot codec scope after ≡ valid old)
        ⊎ (read_prompt_snapshot codec scope after ≡ valid (snapshot_of codec scope es))
  unfolding commit_prompt_snapshot read_prompt_snapshot
  commit_prompt_snapshot-keeps scope es generation pointer dir old faithful h whole =
      elim (Bool-cases (validate_scope scope)) [
        | inr unknown ↦ cc
        | inl known ↦ elim whole [
          | inl free ↦
              rw (known, free)
                (follow-then_point scope es generation pointer dir old faithful free
                  (rw known at h))
          | inr held ↦
              rw (known, held)
                (follow-point_at scope es pointer dir (valid old) faithful held (rw known at h))
        ]
      ]

  -- A generation that a crash left torn stays: the commit reports the snapshot and points to the torn
  -- file, and reads of the scope fail.
  pub read_prompt_snapshot-torn :
      (scope : String) (es : List (WikiEntry Y)) (dir : SnapshotDir F) (rest : F)
      → validate_scope scope ≡ true
      → find (snapshot_of codec scope es).generation dir.generations ≡ some rest
      → decode rest ≡ none
      → let (result, after) = commit_prompt_snapshot codec works works scope es dir in
        (result ≡ valid (snapshot_of codec scope es))
        × (read_prompt_snapshot codec scope after ≡ invalid unreadable_snapshot)
  unfolding commit_prompt_snapshot read_prompt_snapshot snapshot_of
  read_prompt_snapshot-torn scope es dir rest known held lost =
      let s = snapshot_of codec scope es in
      let hex = codec.digest-is_generation scope (compact s.entries) in
      rw (known, held) (refl, rw (trim_string-pointer s.generation hex, hex, held, lost) refl)
