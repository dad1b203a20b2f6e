-- ===== src/Promotion.antt =====
-- The promotion detector: `append_new`, `propose`, `candidate_for`, `write_candidate`, `shingles` and
-- `jaccard`, pk-learning-worker/src/promotion.rs.
--
-- What is read off a lesson's text is a parameter, `Rules`: its words, SHA-256, the title and the two
-- tests on code spans and paths. The index and the candidates' directory are values.
mod Lessons
use prometheus_knowledge_rs.Writes.{Ending, lands, lost, unflushed}
pub mod Overlap
pub mod Clusters
pub mod Written
unfoldable pub use Lessons.*
use mathlib.Core.List.{reverse}
use prometheus_knowledge_rs.Prelude.{
  ℕ, ◌+◌, ◌*◌, Bool, true, false, not, ◌&&◌, ◌||◌, Option, none, some, List, [], ◌∷◌, ◌++◌, map,
  String, str_eq, leb, if◌then◌else◌, is_some, keep, any, all, is_empty, filter_map, str_leb, find,
  insert,
}

-- The first record of a cluster, and the others with their similarity to it, the last one first.
pub record Cluster : Type 0 where
  pub anchor : LessonRecord
  pub joined : List (LessonRecord × Similarity)

abbrev pub similarity_to : Cluster → LessonRecord → Similarity
similarity_to c r = jaccard c.anchor.shingles r.shingles

-- One turn of the loop: the first cluster whose anchor is similar takes the record.
unfoldable pub place_record : LessonRecord → List Cluster → List Cluster
place_record r [] = record { anchor = r; joined = [] } ∷ []
place_record r (c ∷ cs) =
    let rest = place_record r cs in
    if is_recurrence (similarity_to c r)
    then record c { joined = (r, similarity_to c r) ∷ c.joined } ∷ cs
    else c ∷ rest

unfoldable pub cluster_records : List LessonRecord → List Cluster → List Cluster
unfolding place_record
cluster_records [] clusters = clusters
cluster_records (r ∷ rs) clusters = cluster_records rs (place_record r clusters)

-- By recording time, then by id.
abbrev pub is_before : LessonRecord → LessonRecord → Bool
is_before a b =
    if str_eq a.recorded_at b.recorded_at
    then str_leb a.lesson_id b.lesson_id
    else str_leb a.recorded_at b.recorded_at

unfoldable pub insert_record : LessonRecord → List LessonRecord → List LessonRecord
insert_record r [] = r ∷ []
insert_record r (s ∷ rest) =
    let after = insert_record r rest in if is_before r s then r ∷ s ∷ rest else s ∷ after

unfoldable pub order_records : List LessonRecord → List LessonRecord
unfolding insert_record
order_records [] = []
order_records (r ∷ rs) = insert_record r (order_records rs)

unfoldable pub clusters_of : List LessonRecord → List Cluster
unfolding cluster_records order_records
clusters_of records = cluster_records (order_records (keep (λ r. not r.marked) records)) []

abbrev pub members : Cluster → List LessonRecord
members c = c.anchor ∷ map (λ (m : LessonRecord × Similarity). m.0) c.joined

abbrev pub has_text_in : String → List String → Bool
has_text_in t ts = any (str_eq t) ts

-- `BTreeSet::len` of the project ids.
unfoldable pub count_distinct : List String → ℕ
count_distinct [] = 0
count_distinct (t ∷ ts) = if has_text_in t ts then count_distinct ts else 1 + count_distinct ts

-- A BTreeSet's texts, in order.
unfoldable pub insert_text : String → List String → List String
insert_text t [] = t ∷ []
insert_text t (s ∷ ss) =
    let rest = insert_text t ss in
    if str_eq t s then s ∷ ss else if str_leb t s then t ∷ s ∷ ss else s ∷ rest

abbrev pub text_set : List String → List String
text_set [] = []
text_set (t ∷ ts) = insert_text t (text_set ts)

abbrev pub all_tags : List LessonRecord → List String
all_tags [] = []
all_tags (r ∷ rs) = r.tags ++ all_tags rs

abbrev pub when : Bool → String → List String → List String
when b t ts = if b then t ∷ ts else ts

module _ (rules : Rules) where
  abbrev pub is_tooling : Cluster → Bool
  is_tooling c =
      rules.names_dependency_or_cli c.anchor.text
      && not (any (λ (r : LessonRecord). rules.has_repo_relative_path r.text) (members c))

  unfoldable pub reasons_for : Cluster → List String
  reasons_for c =
      when (leb 2 (count_distinct (map (λ (r : LessonRecord). r.project_id) (members c))))
        "recurrence"
        (when (any rules.is_global_tag (all_tags (members c))) "tagged-global"
          (when (is_tooling c) "portable-tooling" []))

  abbrev pub evidence_of : LessonRecord × Similarity → Evidence
  evidence_of (r, s) = record {
    lesson_id = r.lesson_id;
    project_id = r.project_id;
    project_root = r.project_root;
    source = r.source;
    session_id = r.session_id;
    recorded_at = r.recorded_at;
    similarity = s;
  }

  unfoldable pub candidate_of : String → Cluster → Candidate
  unfolding reasons_for insert_text
  candidate_of now c =
      let tags = all_tags (members c) in
      record {
        schema_version = 1;
        id = rules.candidate_id c.anchor.lesson_id;
        kind = "promotion";
        state = "pending";
        scope =
            if any rules.is_user_tag tags && not (any rules.is_global_tag tags)
            then "user"
            else "global";
        reasons = reasons_for c;
        title = rules.title_for c.anchor.text;
        content = c.anchor.text;
        tags = text_set (keep (λ t. not (rules.is_global_tag t || rules.is_user_tag t)) tags);
        fingerprint = c.anchor.lesson_id;
        evidence =
            map evidence_of ((c.anchor, record { shared = 1; union = 1 }) ∷ reverse c.joined);
        created_at = now;
        updated_at = now;
      }

  unfoldable pub candidate_for : String → Cluster → Option Candidate
  candidate_for now c = if is_empty (reasons_for c) then none else some (candidate_of now c)

  -- `append_new`: the observations that are new, as records, behind those that are there.
  abbrev pub lesson_of : String → Observation → List String → LessonRecord
  lesson_of now o words = record {
    schema_version = 1;
    lesson_id = rules.lesson_id o.project_id o.source words;
    project_id = o.project_id;
    project_root = o.project_root;
    source = o.source;
    session_id = o.session_id;
    recorded_at = now;
    text = rules.shorten o.text;
    tags = o.tags;
    marked = rules.is_marked o.text;
    shingles = shingles rules words;
  }

  abbrev pub knows : String → List LessonRecord → Bool
  knows id records = any (λ (r : LessonRecord). str_eq r.lesson_id id) records

  unfoldable pub append_new : String → List Observation → List LessonRecord → List LessonRecord
  append_new now [] records = records
  append_new now (o ∷ os) records =
      let words = rules.tokens o.text in
      let lesson = lesson_of now o words in
      let seen = append_new now os records in
      let grown = append_new now os (records ++ (lesson ∷ [])) in
      if is_empty words || knows lesson.lesson_id records then seen else grown

-- The directories of the candidates, by state, and their files by candidate id; `none` is a text that
-- does not parse.
pub record Shelf : Type 0 where
  pub pending : List (String × Option Candidate)
  pub accepted : List (String × Option Candidate)
  pub rejected : List (String × Option Candidate)

abbrev pub lesson_ids : Candidate → List String
lesson_ids c = map (λ (e : Evidence). e.lesson_id) c.evidence

-- Equality of the two sets of texts.
abbrev pub same_set : List String → List String → Bool
same_set xs ys = all (λ x. has_text_in x ys) xs && all (λ y. has_text_in y xs) ys

-- `atomic_json`, and whether a file was written, if no error was raised.
abbrev pub put_candidate : Ending → Candidate → Shelf → Option Bool × Shelf
put_candidate lands c shelf =
    (some true, record shelf { pending = insert c.id (some c) shelf.pending })
put_candidate lost c shelf = (none, shelf)
put_candidate unflushed c shelf =
    (none, record shelf { pending = insert c.id (some c) shelf.pending })

abbrev pub update_pending :
    Ending → Option (Option Candidate) → Candidate → Shelf → Option Bool × Shelf
update_pending write none c shelf = put_candidate write c shelf
update_pending write (some none) c shelf = (none, shelf)
update_pending write (some (some old)) c shelf =
    if same_set (lesson_ids old) (lesson_ids c)
    then (some false, shelf)
    else put_candidate write (record c { created_at = old.created_at }) shelf

-- `write_candidate`: whether a file was written; `none` is an error, of the pending file's text or of
-- the write.
unfoldable pub write_candidate : Ending → Candidate → Shelf → Option Bool × Shelf
write_candidate write c shelf =
    if is_some (find c.id shelf.accepted) || is_some (find c.id shelf.rejected)
    then (some false, shelf)
    else update_pending write (find c.id shelf.pending) c shelf

-- The loop of `propose`, which an error ends. It is given how many files were written before, and how
-- each write ends, by that number.
abbrev pub resume : (ℕ → Shelf → Option ℕ × Shelf) → ℕ → Option Bool × Shelf → Option ℕ × Shelf
resume rest n (none, shelf) = (none, shelf)
resume rest n (some true, shelf) = rest (n + 1) shelf
resume rest n (some false, shelf) = rest n shelf

unfoldable pub write_all : (ℕ → Ending) → List Candidate → ℕ → Shelf → Option ℕ × Shelf
unfolding write_candidate
write_all writes [] n shelf = (some n, shelf)
write_all writes (c ∷ cs) n shelf =
    resume (write_all writes cs) n (write_candidate (writes n) c shelf)

unfoldable pub propose :
    Rules → (ℕ → Ending) → String → List LessonRecord → Shelf → Option ℕ × Shelf
unfolding write_all
propose rules writes now records shelf =
    write_all writes (filter_map (candidate_for rules now) (clusters_of records)) 0 shelf
