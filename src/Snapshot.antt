-- ===== src/Snapshot.antt =====
-- The prompt snapshot: `compact_json`, `commit_prompt_snapshot`, `read_prompt_snapshot`,
-- `validate_scope` and `atomic_replace`, pk-store/src/prompt_snapshot.rs.
--
-- One scope's directory holds the pointer `current` and the generations by name. serde's texts and
-- SHA-256 are parameters, `Codec`, of which the module relies on `IsFaithful` and on digests of 64
-- hexadecimal digits. Each of the two writes of a commit may work, fail, leave a torn file, or
-- take effect and fail afterwards.
pub mod Compact
pub mod Pointer
pub mod Committed
use Prim.Native.String.{◌++◌ as append}
use prometheus_knowledge_rs.Prelude.{
  ℕ, ◌≡◌, Bool, true, false, not, ◌&&◌, ◌||◌, Option, none, some, List, [], ◌∷◌, String, str_eq,
  leb, ◌==◌, if◌then◌else◌, is_some, length, all, Chars, codes, is_ascii_digit, trim_string,
  str_leb, find, insert,
}
use prometheus_knowledge_rs.Texts.{byte_length}
use prometheus_knowledge_rs.Wiki.{WikiEntry}

pub record PromptSnapshot (Y : Type 0) : Type 0 where
  pub schema_version : ℕ
  pub scope : String
  pub generation : String
  pub candidate_count : ℕ
  pub byte_count : ℕ
  pub entries : List (WikiEntry Y)

-- A snapshot file with its entries left as the text that was written.
pub record StoredSnapshot : Type 0 where
  pub schema_version : ℕ
  pub scope : String
  pub generation : String
  pub candidate_count : ℕ
  pub byte_count : ℕ
  pub entries : Chars

pub data SnapshotError : Type 0 where
  invalid_scope : SnapshotError
  io_failed : SnapshotError
  not_a_generation : SnapshotError
  unreadable_snapshot : SnapshotError
  failed_validation : SnapshotError

pub data SnapshotResult (A : Type 0) : Type 0 where
  valid : A → SnapshotResult A
  invalid : SnapshotError → SnapshotResult A

-- Where a JSON text stands: between tokens, in a string, or behind a backslash in a string.
pub data Mode : Type 0 where
  between in_string escaped : Mode

abbrev pub is_json_space : ℕ → Bool
is_json_space c = c == 32 || c == 9 || c == 10 || c == 13

-- The loop of `compact_json`, from a mode on.
unfoldable pub compact_from : Mode → Chars → Chars
compact_from m [] = []
compact_from escaped (c ∷ s) = c ∷ compact_from in_string s
compact_from in_string (c ∷ s) =
    c ∷ compact_from (if c == 92 then escaped else if c == 34 then between else in_string) s
compact_from between (c ∷ s) =
    let rest = compact_from (if c == 34 then in_string else between) s in
    if is_json_space c then rest else c ∷ rest

unfoldable pub compact_json : Chars → Chars
compact_json text = compact_from between text

unfoldable pub validate_scope : String → Bool
validate_scope scope = str_eq scope "project" || str_eq scope "shared" || str_eq scope "global"

abbrev pub is_ascii_hexdigit : ℕ → Bool
is_ascii_hexdigit c = is_ascii_digit c || (leb b'a' c && leb c b'f') || (leb b'A' c && leb c b'F')

-- 64 bytes, all of them hexadecimal digits.
unfoldable pub is_generation : String → Bool
is_generation g = length (codes g) == 64 && all is_ascii_hexdigit (codes g)

-- JSON with spaces: the second text is the first with white space between its tokens.
pub data Spaced : Mode → Chars → Chars → Type 0 where
  done : (m : Mode) → Spaced m [] []
  space :
      (c : ℕ) (s t : Chars) → is_json_space c ≡ true → Spaced between s t → Spaced between s (c ∷ t)
  token :
      (c : ℕ) (s t : Chars)
      → is_json_space c ≡ false
      → (c == 34) ≡ false
      → Spaced between s t
      → Spaced between (c ∷ s) (c ∷ t)
  opens : (c : ℕ) (s t : Chars) → c ≡ 34 → Spaced in_string s t → Spaced between (c ∷ s) (c ∷ t)
  closes : (c : ℕ) (s t : Chars) → c ≡ 34 → Spaced between s t → Spaced in_string (c ∷ s) (c ∷ t)
  backslash : (c : ℕ) (s t : Chars) → c ≡ 92 → Spaced escaped s t → Spaced in_string (c ∷ s) (c ∷ t)
  escape : (c : ℕ) (s t : Chars) → Spaced in_string s t → Spaced escaped (c ∷ s) (c ∷ t)
  inner :
      (c : ℕ) (s t : Chars)
      → (c == 34) ≡ false
      → (c == 92) ≡ false
      → Spaced in_string s t
      → Spaced in_string (c ∷ s) (c ∷ t)

pub record Codec (Y F : Type 0) : Type 0 where
  pub compact : List (WikiEntry Y) → Chars
  pub encode : PromptSnapshot Y → F
  pub decode : F → Option StoredSnapshot
  pub raw_entries : PromptSnapshot Y → Chars
  pub read_entries : Chars → Option (List (WikiEntry Y))
  pub digest : String → Chars → String
  pub digest-is_generation :
      (scope : String) (text : Chars) → is_generation (digest scope text) ≡ true

-- What serde gives for a snapshot: the file is read back with its entries as raw text, which is the
-- compact text with white space between tokens and is read as the entries.
pub record IsFaithful {Y F : Type 0} (codec : Codec Y F) (s : PromptSnapshot Y) : Type 0 where
  pub decode-encode :
      codec.decode (codec.encode s)
      ≡ some (record {
        schema_version = s.schema_version;
        scope = s.scope;
        generation = s.generation;
        candidate_count = s.candidate_count;
        byte_count = s.byte_count;
        entries = codec.raw_entries s;
      })
  pub raw_entries-Spaced : Spaced between (codec.compact s.entries) (codec.raw_entries s)
  pub read_entries-raw_entries : codec.read_entries (codec.raw_entries s) ≡ some s.entries

pub data Write (F : Type 0) : Type 0 where
  works fails late : Write F
  torn : F → Write F

pub record SnapshotDir (F : Type 0) : Type 0 where
  pub current : Option String
  pub generations : List (String × F)

module _ {Y F : Type 0} (codec : Codec Y F) where
  open codec use {compact, encode, decode, read_entries, digest}

  -- `sort_by` the id, which is stable.
  abbrev insert_entry : WikiEntry Y → List (WikiEntry Y) → List (WikiEntry Y)
  insert_entry e [] = e ∷ []
  insert_entry e (f ∷ rest) =
      let after = insert_entry e rest in if str_leb e.id f.id then e ∷ f ∷ rest else f ∷ after

  unfoldable pub sort_entries : List (WikiEntry Y) → List (WikiEntry Y)
  sort_entries [] = []
  sort_entries (e ∷ es) = insert_entry e (sort_entries es)

  unfoldable pub snapshot_of : String → List (WikiEntry Y) → PromptSnapshot Y
  snapshot_of scope entries =
      let sorted = sort_entries entries in
      record {
        schema_version = 1;
        scope = scope;
        generation = digest scope (compact sorted);
        candidate_count = length sorted;
        byte_count = byte_length (compact sorted);
        entries = sorted;
      }

  -- `create_new`, then the modes and the flushes; a file that is there is not touched.
  abbrev pub write_generation : Write F → PromptSnapshot Y → SnapshotDir F → Bool × SnapshotDir F
  write_generation works s dir =
      (true, record dir { generations = insert s.generation (encode s) dir.generations })
  write_generation fails s dir = (false, dir)
  write_generation late s dir =
      (false, record dir { generations = insert s.generation (encode s) dir.generations })
  write_generation (torn rest) s dir =
      (false, record dir { generations = insert s.generation rest dir.generations })

  abbrev pub keep_generation : Write F → PromptSnapshot Y → SnapshotDir F → Bool × SnapshotDir F
  keep_generation write s dir =
      if is_some (find s.generation dir.generations)
      then (true, dir)
      else write_generation write s dir

  -- `atomic_replace`: a torn temporary file leaves the pointer as it is.
  abbrev pub point_at :
      Write F → PromptSnapshot Y → SnapshotDir F → SnapshotResult (PromptSnapshot Y) × SnapshotDir F
  point_at works s dir = (valid s, record dir { current = some (append s.generation "\n") })
  point_at fails s dir = (invalid io_failed, dir)
  point_at late s dir =
      (invalid io_failed, record dir { current = some (append s.generation "\n") })
  point_at (torn rest) s dir = (invalid io_failed, dir)

  abbrev pub then_point :
      Write F
      → PromptSnapshot Y
      → Bool × SnapshotDir F
      → SnapshotResult (PromptSnapshot Y) × SnapshotDir F
  then_point pointer s (true, dir) = point_at pointer s dir
  then_point pointer s (false, dir) = (invalid io_failed, dir)

  unfoldable pub commit_prompt_snapshot :
      Write F
      → Write F
      → String
      → List (WikiEntry Y)
      → SnapshotDir F
      → SnapshotResult (PromptSnapshot Y) × SnapshotDir F
  unfolding snapshot_of
  commit_prompt_snapshot generation pointer scope entries dir =
      if not (validate_scope scope)
      then (invalid invalid_scope, dir)
      else let s = snapshot_of scope entries in
        then_point pointer s (keep_generation generation s dir)

  -- The identity is taken over the stored text, compacted.
  abbrev pub is_identical : String → String → StoredSnapshot → List (WikiEntry Y) → Bool
  is_identical scope generation stored entries =
      let text = compact_json stored.entries in
      stored.schema_version == 1
      && str_eq stored.scope scope
      && str_eq stored.generation generation
      && str_eq (digest scope text) generation
      && stored.candidate_count == length entries
      && stored.byte_count == byte_length text

  abbrev pub with_entries : StoredSnapshot → List (WikiEntry Y) → PromptSnapshot Y
  with_entries stored entries = record {
    schema_version = stored.schema_version;
    scope = stored.scope;
    generation = stored.generation;
    candidate_count = stored.candidate_count;
    byte_count = stored.byte_count;
    entries = entries;
  }

  abbrev pub check_entries :
      String
      → String
      → StoredSnapshot
      → Option (List (WikiEntry Y))
      → SnapshotResult (PromptSnapshot Y)
  check_entries scope generation stored none = invalid unreadable_snapshot
  check_entries scope generation stored (some entries) =
      if is_identical scope generation stored entries
      then valid (with_entries stored entries)
      else invalid failed_validation

  abbrev pub check_stored :
      String → String → Option StoredSnapshot → SnapshotResult (PromptSnapshot Y)
  check_stored scope generation none = invalid unreadable_snapshot
  check_stored scope generation (some stored) =
      check_entries scope generation stored (read_entries stored.entries)

  abbrev pub check_file : String → String → Option F → SnapshotResult (PromptSnapshot Y)
  check_file scope generation none = invalid io_failed
  check_file scope generation (some file) = check_stored scope generation (decode file)

  abbrev pub follow : String → List (String × F) → Option String → SnapshotResult (PromptSnapshot Y)
  follow scope files none = invalid io_failed
  follow scope files (some pointer) =
      let generation = trim_string pointer in
      if not (is_generation generation)
      then invalid not_a_generation
      else check_file scope generation (find generation files)

  unfoldable pub read_prompt_snapshot : String → SnapshotDir F → SnapshotResult (PromptSnapshot Y)
  read_prompt_snapshot scope dir =
      if not (validate_scope scope)
      then invalid invalid_scope
      else follow scope dir.generations dir.current
