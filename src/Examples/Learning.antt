-- ===== src/Examples/Learning.antt =====
-- The theorems on events and on the promotion detector, at concrete inputs.
use prometheus_knowledge_rs.Prelude.{
  ℕ, ◌+◌, ◌≡◌, refl, Bool, true, false, Option, none, some, List, [], ◌∷◌, arith, String, str_eq,
  length, keep, All, find, suc, zero, codes, Chars, chars_eq, not, if◌then◌else◌,
}
use prometheus_knowledge_rs.Events.{
  EventRecord, RecordFormat, focused, from_event, Stores, records_in, plan,
}
use prometheus_knowledge_rs.Events.Log.{names_knowledge, makes_knowledge, plan-split}
use prometheus_knowledge_rs.Writes.{Ending, lands, lost}
use prometheus_knowledge_rs.Promotion.{
  shingles, Rules, LessonRecord, Shelf, Candidate, jaccard, cluster_records, propose,
}
use prometheus_knowledge_rs.Promotion.Overlap.{IsAscending, common, jaccard-shingles}
use prometheus_knowledge_rs.Promotion.Clusters.{
  all_members, number, HasSimilar, cluster_records-split,
}
use prometheus_knowledge_rs.Promotion.Written.{IsLeft, is_decided, propose-decided}

abbrev event : String → String → ℕ → EventRecord String
event id kind timestamp = record {
  id = id;
  kind = kind;
  session_id = "s1";
  project_root = "/work/app";
  scope = "project";
  timestamp = timestamp;
  payload = "{}";
  affects = "orders" ∷ [];
}

abbrev first_event : EventRecord String
first_event = event "e1" "compiled" 3

-- A format that writes and reads one record.
abbrev is_brace : Chars → Option (EventRecord String)
is_brace text = if chars_eq text (codes "{e1}") then some first_event else none

abbrev whole_format : RecordFormat String
whole_format = record { decode = is_brace; encode = λ r. codes "{e1}" }

abbrev log : Chars
log = codes "{e1}\n{\"id\n"

abbrev is_first : EventRecord String → Bool
is_first r = str_eq r.id "e1"

abbrev stores : Stores String
stores = record { database = []; file = log }

plan-split_example :
    let planned = plan whole_format log in
    let made =
      from_event {V = String} (λ e. "{}") "e2" (focused "orders" 2 5) "s1" "/work/app" "project" in
    (planned.kg_records ≡ keep names_knowledge (records_in whole_format log))
    × (planned.episodic_records ≡ keep (λ r. not (names_knowledge r)) (records_in whole_format log))
    × (planned.unclassified ≡ [])
    × (names_knowledge made ≡ makes_knowledge (focused "orders" 2 5))
plan-split_example =
    plan-split whole_format log (λ e. "{}") "e2" (focused "orders" 2 5) "s1" "/work/app" "project"

abbrev odd_hashes : List ℕ
odd_hashes = 1 ∷ 3 ∷ 5 ∷ []

abbrev low_hashes : List ℕ
low_hashes = 1 ∷ 2 ∷ 3 ∷ []

odd_ascends : IsAscending odd_hashes
odd_ascends = omega arith

low_ascends : IsAscending low_hashes
low_ascends = omega arith

abbrev lesson : String → String → List ℕ → LessonRecord
lesson id project hashes = record {
  schema_version = 1;
  lesson_id = id;
  project_id = project;
  project_root = "/work";
  source = "session:s1#0";
  session_id = some "s1";
  recorded_at = "2026-01-01T00:00:00+00:00";
  text = "run cargo test before pushing";
  tags = "global" ∷ [];
  marked = false;
  shingles = hashes;
}

abbrev lessons : List LessonRecord
lessons = lesson "a1" "p1" (1 ∷ 2 ∷ 3 ∷ []) ∷ lesson "b2" "p2" (7 ∷ 8 ∷ []) ∷ []

abbrev later_lessons : List LessonRecord
later_lessons = lesson "c3" "p3" (1 ∷ 2 ∷ 3 ∷ 4 ∷ []) ∷ []

abbrev is_b2 : LessonRecord → Bool
is_b2 r = str_eq r.lesson_id "b2"

cluster_records-split_example :
    (number is_b2 (all_members (cluster_records lessons [])) ≡ number is_b2 lessons)
    × All HasSimilar (cluster_records lessons [])
cluster_records-split_example = cluster_records-split lessons is_b2

abbrev rules : Rules
rules = record {
  tokens = λ t. t ∷ [];
  shingle_hash = length;
  lesson_id = λ project source words. source;
  candidate_id = λ id. id;
  is_marked = λ t. false;
  shorten = λ t. t;
  title_for = λ t. t;
  names_dependency_or_cli = λ t. true;
  has_repo_relative_path = λ t. false;
  is_global_tag = λ t. str_eq t "global";
  is_user_tag = λ t. str_eq t "user";
}

abbrev rejected_candidate : Candidate
rejected_candidate = record {
  schema_version = 1;
  id = "a1";
  kind = "promotion";
  state = "rejected";
  scope = "global";
  reasons = "tagged-global" ∷ [];
  title = "run cargo test before pushing";
  content = "run cargo test before pushing";
  tags = [];
  fingerprint = "a1";
  evidence = [];
  created_at = "2026-01-01T00:00:00+00:00";
  updated_at = "2026-01-01T00:00:00+00:00";
}

abbrev shelf : Shelf
shelf = record { pending = []; accepted = []; rejected = ("a1", some rejected_candidate) ∷ [] }

a1_decided : is_decided "a1" shelf ≡ true
unfolding find
a1_decided = refl

-- The first write works, the second is cut off.
abbrev second_fails : ℕ → Ending
second_fails zero = lands
second_fails (suc n) = lost

propose-decided_example :
    IsLeft "a1" shelf (propose rules second_fails "2026-01-02T00:00:00+00:00" lessons shelf).1
propose-decided_example =
    propose-decided rules second_fails "2026-01-02T00:00:00+00:00" lessons shelf "a1" a1_decided

jaccard-shingles_example :
    let left = shingles rules ("run" ∷ "cargo" ∷ "test" ∷ "first" ∷ []) in
    let right = shingles rules ("run" ∷ "cargo" ∷ []) in
    ((jaccard left right).shared ≡ common left right)
    × ((jaccard left right).union + common left right ≡ length left + length right)
jaccard-shingles_example =
    jaccard-shingles rules ("run" ∷ "cargo" ∷ "test" ∷ "first" ∷ []) ("run" ∷ "cargo" ∷ [])
