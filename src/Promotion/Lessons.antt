-- ===== src/Promotion/Lessons.antt =====
-- The records of the promotion detector and the similarity of lessons: `shingles` and `jaccard`,
-- pk-learning-worker/src/promotion.rs.
use prometheus_knowledge_rs.Prelude.{
  ℕ, zero, suc, ◌+◌, ◌-◌, ◌*◌, Bool, ◌&&◌, Option, List, [], ◌∷◌, map, String, ltb, leb, ◌==◌,
  if◌then◌else◌, length, is_empty,
}

pub record Rules : Type 0 where
  pub tokens : String → List String
  pub shingle_hash : List String → ℕ
  pub lesson_id : String → String → List String → String
  pub candidate_id : String → String
  pub is_marked : String → Bool
  pub shorten : String → String
  pub title_for : String → String
  pub names_dependency_or_cli : String → Bool
  pub has_repo_relative_path : String → Bool
  pub is_global_tag : String → Bool
  pub is_user_tag : String → Bool

pub record Observation : Type 0 where
  pub project_id : String
  pub project_root : String
  pub source : String
  pub session_id : Option String
  pub text : String
  pub tags : List String

pub record LessonRecord : Type 0 where
  pub schema_version : ℕ
  pub lesson_id : String
  pub project_id : String
  pub project_root : String
  pub source : String
  pub session_id : Option String
  pub recorded_at : String
  pub text : String
  pub tags : List String
  pub marked : Bool
  pub shingles : List ℕ

-- A similarity of two sets as a fraction: f64 rounds it, which moves no comparison with 0.6 for
-- fewer than 2^50 shingles.
pub record Similarity : Type 0 where
  pub shared : ℕ
  pub union : ℕ

abbrev pub is_recurrence : Similarity → Bool
is_recurrence s = leb (3 * s.union) (5 * s.shared)

pub record Evidence : Type 0 where
  pub lesson_id : String
  pub project_id : String
  pub project_root : String
  pub source : String
  pub session_id : Option String
  pub recorded_at : String
  pub similarity : Similarity

pub record Candidate : Type 0 where
  pub schema_version : ℕ
  pub id : String
  pub kind : String
  pub state : String
  pub scope : String
  pub reasons : List String
  pub title : String
  pub content : String
  pub tags : List String
  pub fingerprint : String
  pub evidence : List Evidence
  pub created_at : String
  pub updated_at : String

-- `sort_unstable` and `dedup` of hashes.
unfoldable pub insert_hash : ℕ → List ℕ → List ℕ
insert_hash h [] = h ∷ []
insert_hash h (g ∷ gs) =
    let rest = insert_hash h gs in
    if ltb h g then h ∷ g ∷ gs else if h == g then g ∷ gs else g ∷ rest

unfoldable pub sort_hashes : List ℕ → List ℕ
unfolding insert_hash
sort_hashes [] = []
sort_hashes (h ∷ hs) = insert_hash h (sort_hashes hs)

-- `windows(3)`
unfoldable pub windows : List String → List (List String)
windows [] = []
windows (a ∷ []) = []
windows (a ∷ b ∷ []) = []
windows (a ∷ b ∷ c ∷ rest) = (a ∷ b ∷ c ∷ []) ∷ windows (b ∷ c ∷ rest)

unfoldable pub shingles : Rules → List String → List ℕ
unfolding sort_hashes windows
shingles rules tokens =
    if ltb (length tokens) 3
    then sort_hashes (rules.shingle_hash tokens ∷ [])
    else sort_hashes (map rules.shingle_hash (windows tokens))

-- The loop of `jaccard`, on what is left of the two lists. Each turn shortens one of them, so that
-- their lengths together are enough fuel.
unfoldable pub shared_hashes : ℕ → List ℕ → List ℕ → ℕ
shared_hashes zero left right = 0
shared_hashes (suc n) [] right = 0
shared_hashes (suc n) (x ∷ left) [] = 0
shared_hashes (suc n) (x ∷ left) (y ∷ right) =
    let less = shared_hashes n left (y ∷ right) in
    let greater = shared_hashes n (x ∷ left) right in
    let equal = shared_hashes n left right in
    if ltb x y then less else if ltb y x then greater else equal + 1

unfoldable pub jaccard : List ℕ → List ℕ → Similarity
unfolding shared_hashes
jaccard left right =
    if is_empty left && is_empty right
    then record { shared = 0; union = 1 }
    else let shared = shared_hashes (length left + length right) left right in
      record { shared = shared; union = length left + length right - shared }
