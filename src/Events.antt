-- ===== src/Events.antt =====
-- The librarian's events and where they are kept: `LibrarianEvent` of pk-core/src/event.rs, and
-- `EventRecord`, `classify`, `JsonlFallback`, `EventStore::persist` and `plan` of pk-event-store/src.
--
-- The log file is a text, in code points; what serde writes and reads is a parameter, `RecordFormat`.
-- The database is a list of the records that it holds. The id, the clock and the JSON of an event are
-- parameters.
pub mod Log
pub mod Listing
pub mod Persist
use mathlib.Core.List.{reverse}
use prometheus_knowledge_rs.Texts.{lines}
use prometheus_knowledge_rs.Prelude.{
  ℕ, ◌≡◌, Bool, true, false, not, ◌&&◌, ◌||◌, Option, none, some, List, [], ◌∷◌, ◌++◌, String,
  str_eq, leb, if◌then◌else◌, take, keep, any, filter_map, Chars, is_empty, trim, ◌==◌,
}

pub data LintSeverity : Type 0 where
  info warning error : LintSeverity

pub record LintReport : Type 0 where
  pub entry_id : Option String
  pub severity : LintSeverity
  pub issue : String
  pub suggestion : String
  pub auto_fixable : Bool

pub data LibrarianEvent : Type 0 where
  compiled : String → String → List String → ℕ → LibrarianEvent
  lint_completed : List LintReport → ℕ → ℕ → LibrarianEvent
  focused : String → ℕ → ℕ → LibrarianEvent
  updated : String → ℕ → ℕ → LibrarianEvent
  raw_doc_arrived : String → ℕ → LibrarianEvent
  failed : String → ℕ → LibrarianEvent

pub record EventRecord (V : Type 0) : Type 0 where
  pub id : String
  pub kind : String
  pub session_id : String
  pub project_root : String
  pub scope : String
  pub timestamp : ℕ
  pub payload : V
  pub affects : List String

-- The kind, the entries that it affects, and the time.
unfoldable pub describe : LibrarianEvent → String × List String × ℕ
describe (compiled entry_id title tags ts) = ("compiled", entry_id ∷ [], ts)
describe (lint_completed reports scanned ts) = ("lint_completed", [], ts)
describe (focused topic count ts) = ("focused", [], ts)
describe (updated entry_id revision ts) = ("updated", entry_id ∷ [], ts)
describe (raw_doc_arrived path ts) = ("raw_doc_arrived", [], ts)
describe (failed message ts) = ("error", [], ts)

pub data StoreTarget : Type 0 where
  knowledge_graph episodic : StoreTarget

unfoldable pub classify_kind : String → StoreTarget
classify_kind kind =
    if str_eq kind "compiled" || str_eq kind "lint_completed" || str_eq kind "updated"
    then knowledge_graph
    else episodic

module _ {V : Type 0} where
  unfoldable pub from_event :
      (LibrarianEvent → V) → String → LibrarianEvent → String → String → String → EventRecord V
  from_event to_value id event session_id project_root scope =
      let (kind, affects, ts) = describe event in
      record {
        id = id;
        kind = kind;
        session_id = session_id;
        project_root = project_root;
        scope = scope;
        timestamp = ts;
        payload = to_value event;
        affects = affects;
      }

  abbrev pub classify : EventRecord V → StoreTarget
  classify r = classify_kind r.kind

  -- `sort_by_key`, which is stable: by falling and by rising time.
  insert_latest : EventRecord V → List (EventRecord V) → List (EventRecord V)
  insert_latest r [] = r ∷ []
  insert_latest r (s ∷ rest) =
      let after = insert_latest r rest in
      if leb s.timestamp r.timestamp then r ∷ s ∷ rest else s ∷ after

  unfoldable pub latest_first : List (EventRecord V) → List (EventRecord V)
  unfolding insert_latest
  latest_first [] = []
  latest_first (r ∷ rest) = insert_latest r (latest_first rest)

  insert_earliest : EventRecord V → List (EventRecord V) → List (EventRecord V)
  insert_earliest r [] = r ∷ []
  insert_earliest r (s ∷ rest) =
      let after = insert_earliest r rest in
      if leb r.timestamp s.timestamp then r ∷ s ∷ rest else s ∷ after

  unfoldable pub earliest_first : List (EventRecord V) → List (EventRecord V)
  unfolding insert_earliest
  earliest_first [] = []
  earliest_first (r ∷ rest) = insert_earliest r (earliest_first rest)

  abbrev pub is_kind : Option String → EventRecord V → Bool
  is_kind none r = true
  is_kind (some k) r = str_eq r.kind k

  abbrev pub in_listing : String → Option String → EventRecord V → Bool
  in_listing project_root kind r = str_eq r.project_root project_root && is_kind kind r

  abbrev pub affects_entry : String → String → EventRecord V → Bool
  affects_entry entry_id project_root r =
      str_eq r.project_root project_root && any (λ a. str_eq a entry_id) r.affects

-- What serde gives: records as texts.
pub record RecordFormat (V : Type 0) : Type 0 where
  pub decode : Chars → Option (EventRecord V)
  pub encode : EventRecord V → Chars

-- The database's answer to one write: whether the record is in, and whether the client hears it.
pub data Delivery : Type 0 where
  unset refused acknowledged lost_reply : Delivery

pub record Stores (V : Type 0) : Type 0 where
  pub database : List (StoreTarget × EventRecord V)
  pub file : Chars

pub record MigrationPlan (V : Type 0) : Type 0 where
  pub kg_records : List (EventRecord V)
  pub episodic_records : List (EventRecord V)
  pub unclassified : List (EventRecord V)

module _ {V : Type 0} (format : RecordFormat V) where
  open format use {decode, encode}

  -- The readable records of the log; one that cannot be read is left out.
  unfoldable pub records_in : Chars → List (EventRecord V)
  unfolding lines trim
  records_in file = filter_map decode (keep (λ l. not (is_empty (trim l))) (lines file))

  -- The bytes go to the end of the file. `some n` stands for a write that fails after n characters.
  unfoldable pub append : Option ℕ → EventRecord V → Chars → Bool × Chars
  append none r file = (true, file ++ (encode r ++ (10 ∷ [])))
  append (some n) r file = (false, file ++ take n (encode r ++ (10 ∷ [])))

  unfoldable pub tail : ℕ → Chars → List (EventRecord V)
  tail limit file = take limit (reverse (records_in file))

  unfoldable pub list : String → Option String → ℕ → Chars → List (EventRecord V)
  list project_root kind limit file =
      take limit (latest_first (keep (in_listing project_root kind) (records_in file)))

  unfoldable pub for_entry : String → String → Chars → List (EventRecord V)
  for_entry entry_id project_root file =
      earliest_first (keep (affects_entry entry_id project_root) (records_in file))

  abbrev pub add_to : EventRecord V → StoreTarget → MigrationPlan V → MigrationPlan V
  add_to r knowledge_graph p = record p { kg_records = r ∷ p.kg_records }
  add_to r episodic p = record p { episodic_records = r ∷ p.episodic_records }

  -- The loop of `plan`, which pushes each record to the end of its list.
  unfoldable pub plan_records : List (EventRecord V) → MigrationPlan V
  plan_records [] = record { kg_records = []; episodic_records = []; unclassified = [] }
  plan_records (r ∷ rest) = add_to r (classify r) (plan_records rest)

  unfoldable pub plan : Chars → MigrationPlan V
  unfolding plan_records
  plan file = plan_records (records_in file)

  unfoldable pub fall_back : Option ℕ → EventRecord V → Stores V → Bool × Stores V
  unfolding append
  fall_back cut r stores =
      let (fine, file) = append cut r stores.file in (fine, record stores { file = file })

  -- `persist`: whether it returned without an error, and what is stored then. `cut` says where the
  -- append to the log is cut off, if it is; `unset` stands for no SURREAL_URL.
  unfoldable pub persist : Delivery → Option ℕ → EventRecord V → Stores V → Bool × Stores V
  unfolding fall_back
  persist unset cut r stores = fall_back cut r stores
  persist refused cut r stores = fall_back cut r stores
  persist acknowledged cut r stores =
      (true, record stores { database = (classify r, r) ∷ stores.database })
  persist lost_reply cut r stores =
      fall_back cut r (record stores { database = (classify r, r) ∷ stores.database })
