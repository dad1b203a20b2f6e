-- ===== src/Examples/Snapshots.antt =====
-- The theorems on the prompt snapshot and on `pk context`, at concrete inputs.
use prometheus_knowledge_rs.Prelude.{
  ℕ, ◌+◌, ◌≡◌, refl, ◌⊎◌, inl, inr, true, ◌&&◌, ◌||◌, Option, none, some, List, [], ◌∷◌, String,
  leb, All, Chars, codes, find, trim_string, ◌≤◌,
}
use prometheus_knowledge_rs.Texts.{byte_length, len_utf8}
use prometheus_knowledge_rs.Wiki.{WikiEntry}
use prometheus_knowledge_rs.Snapshot.{
  done, token, space, between, IsFaithful, PromptSnapshot, StoredSnapshot, is_generation, Codec,
  SnapshotDir, snapshot_of, commit_prompt_snapshot, read_prompt_snapshot, unreadable_snapshot,
  valid, invalid, works, late, validate_scope, sort_entries, compact_from, compact_json,
}
use prometheus_knowledge_rs.Snapshot.Committed.{
  read_prompt_snapshot-commit_prompt_snapshot, commit_prompt_snapshot-keeps,
  read_prompt_snapshot-torn,
}
use prometheus_knowledge_rs.Context.{
  ContextScope, TextRules, ContextCandidate, ContextOutput, ContextRequest, project, shared, global,
}
use prometheus_knowledge_rs.Context.Select.{select}
use prometheus_knowledge_rs.Context.Canonical.{select-IsOther, IsOther, IsFirst, select-IsFirst}
use prometheus_knowledge_rs.Context.Chosen.{IsSortedBy}
use prometheus_knowledge_rs.Context.Output.{run_context, rendered_context, print_context_hook}
use prometheus_knowledge_rs.Context.Printed.{print_context_hook-run_context}
use prometheus_knowledge_rs.Context.Utf8.{fitting, truncate_utf8, truncate_utf8-fitting}

abbrev page : String → String → WikiEntry String
page id title = record {
  id = id;
  title = title;
  content = "One row per order.";
  tags = "sql" ∷ [];
  links = [];
  sources = [];
  created_at = 0;
  updated_at = 0;
  revision = 1;
  entry_type = none;
  description = none;
  generated_by = none;
  extra = [];
}

abbrev pages : List (WikiEntry String)
pages = page "orders" "Orders" ∷ []

abbrev pages_text : Chars
pages_text = 91 ∷ 93 ∷ []

abbrev spaced_text : Chars
spaced_text = 91 ∷ 32 ∷ 93 ∷ []

-- A file that does not parse, or what a snapshot was stored as.
data File : Type 0 where
  cut : File
  whole : StoredSnapshot → File

abbrev stored_in : File → Option StoredSnapshot
stored_in cut = none
stored_in (whole s) = some s

abbrev sample_generation : String
sample_generation = "0123456789abcdef0123456789abcdef0123456789abcdef0123456789abcdef"

sample_generation-is_generation : is_generation sample_generation ≡ true
unfolding is_generation
sample_generation-is_generation = refl

abbrev file_of : PromptSnapshot String → File
file_of s = whole (record {
  schema_version = s.schema_version;
  scope = s.scope;
  generation = s.generation;
  candidate_count = s.candidate_count;
  byte_count = s.byte_count;
  entries = spaced_text;
})

abbrev sample_codec : Codec String File
sample_codec = record {
  compact = λ es. pages_text;
  encode = file_of;
  decode = stored_in;
  raw_entries = λ s. spaced_text;
  read_entries = λ t. some pages;
  digest = λ scope text. sample_generation;
  digest-is_generation = λ scope text. sample_generation-is_generation;
}

abbrev empty_dir : SnapshotDir File
empty_dir = record { current = none; generations = [] }

abbrev torn_dir : SnapshotDir File
torn_dir = record { current = none; generations = (sample_generation, cut) ∷ [] }

pages-IsFaithful : IsFaithful sample_codec (snapshot_of sample_codec "project" pages)
unfolding snapshot_of sort_entries
pages-IsFaithful = record {
  decode-encode = refl;
  raw_entries-Spaced =
      token 91 (93 ∷ []) (32 ∷ 93 ∷ []) refl refl
        (space 32 (93 ∷ []) (93 ∷ []) refl (token 93 [] [] refl refl (done between)));
  read_entries-raw_entries = refl;
}

read_prompt_snapshot-commit_prompt_snapshot_example :
    let (result, after) =
      commit_prompt_snapshot sample_codec works works "project" pages empty_dir in
    (result ≡ valid (snapshot_of sample_codec "project" pages))
    × (read_prompt_snapshot sample_codec "project" after
        ≡ valid (snapshot_of sample_codec "project" pages))
unfolding validate_scope find
read_prompt_snapshot-commit_prompt_snapshot_example =
    read_prompt_snapshot-commit_prompt_snapshot sample_codec "project" pages empty_dir
      pages-IsFaithful refl (inl refl)

-- The snapshot that stands, and a second commit whose pointer write fails.
abbrev full_dir : SnapshotDir File
full_dir = record {
  current = some "0123456789abcdef0123456789abcdef0123456789abcdef0123456789abcdef\n";
  generations = (sample_generation, file_of (snapshot_of sample_codec "project" pages)) ∷ [];
}

commit_prompt_snapshot-keeps_example :
    let after = (commit_prompt_snapshot sample_codec works late "project" pages full_dir).1 in
    (read_prompt_snapshot sample_codec "project" after
      ≡ valid (snapshot_of sample_codec "project" pages))
    ⊎ (read_prompt_snapshot sample_codec "project" after
        ≡ valid (snapshot_of sample_codec "project" pages))
unfolding read_prompt_snapshot find snapshot_of sort_entries validate_scope is_generation
    trim_string byte_length len_utf8 compact_json compact_from
commit_prompt_snapshot-keeps_example =
    commit_prompt_snapshot-keeps sample_codec "project" pages works late full_dir
      (snapshot_of sample_codec "project" pages) pages-IsFaithful refl (inr refl)

read_prompt_snapshot-torn_example :
    let (result, after) =
      commit_prompt_snapshot sample_codec works works "project" pages torn_dir in
    (result ≡ valid (snapshot_of sample_codec "project" pages))
    × (read_prompt_snapshot sample_codec "project" after ≡ invalid unreadable_snapshot)
unfolding validate_scope find snapshot_of
read_prompt_snapshot-torn_example =
    read_prompt_snapshot-torn sample_codec "project" pages torn_dir cut refl refl refl

truncate_utf8-fitting_example :
    truncate_utf8 (97 ∷ 0xe9 ∷ 98 ∷ []) 2 ≡ some (fitting (97 ∷ 0xe9 ∷ 98 ∷ []) 2)
truncate_utf8-fitting_example = truncate_utf8-fitting (97 ∷ 0xe9 ∷ 98 ∷ []) 2

abbrev sample_texts : TextRules
sample_texts = record {
  is_alphanumeric = λ c. (leb b'a' c && leb c b'z') || (leb b'A' c && leb c b'Z');
  to_lowercase = λ t. t;
  content_hash = λ title content. title;
  to_decimal = λ n. (48 + n) ∷ [];
}

abbrev found : ContextScope → WikiEntry String → ℕ → ContextCandidate String
found scope entry score = record { scope = scope; entry = entry; score = score }

abbrev sample_candidates : List (ContextCandidate String)
sample_candidates =
    found global (page "orders" "Orders") 9
    ∷ found project (page "orders" "Orders") 2
    ∷ found shared (page "lines" "Lines") 5
    ∷ []

select-IsFirst_example :
    All
      (λ s. All (IsFirst sample_texts s) sample_candidates)
      (select sample_texts sample_candidates)
select-IsFirst_example = select-IsFirst sample_texts sample_candidates

select-IsOther_example : IsSortedBy (IsOther sample_texts) (select sample_texts sample_candidates)
select-IsOther_example = select-IsOther sample_texts sample_candidates

abbrev sample_request : ContextRequest
sample_request = record {
  query = codes "Orders";
  scopes = project ∷ [];
  limit = 3;
  max_candidates = 8;
  max_bytes = 4096;
  tags = "sql" ∷ [];
}

abbrev sample_roots : ContextScope → Option (SnapshotDir File)
sample_roots scope = some full_dir

print_context_hook-run_context_example :
    (output : ContextOutput) × (run_context sample_codec sample_texts sample_request sample_roots
      ≡ some output)
    × (print_context_hook sample_texts output 4096
        ≡ some (fitting (rendered_context sample_texts output) 4096))
    × (byte_length (fitting (rendered_context sample_texts output) 4096) ≤ output.byte_count)
    × (output.byte_count ≤ 4096)
print_context_hook-run_context_example =
    print_context_hook-run_context sample_codec sample_texts sample_request sample_roots
