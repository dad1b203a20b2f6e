-- ===== src/Review/Shared.antt =====
-- The shared entry of an accepted promotion: `upsert_shared`, pk-cli/src/candidates.rs.
--
-- The store is an interface: what is found under an id, the upsert of an entry, the index, the log, and
-- the publication of the prompt snapshot.
use prometheus_knowledge_rs.Prelude.{
  Bool, false, not, Option, none, some, List, [], ◌∷◌, ◌++◌, map, String, str_eq, if◌then◌else◌,
  bind, any,
}
use prometheus_knowledge_rs.Review.{ReviewResult, outside_failed, granted, refused}
use prometheus_knowledge_rs.Wiki.{WikiEntry}
use prometheus_knowledge_rs.Worker.Operation.{Value, Items, nil, cons, string, array, get, as_str}
use Prim.Native.String.{◌++◌ as append}

-- Each call that changes the store is given whether it works; what it leaves behind where it fails is
-- the store's affair.
pub record SharedStore (S Y : Type 0) : Type 0 where
  -- The content of what `get` finds.
  pub content_of : String → S → Option String
  -- `WikiEntry::new`, for a title and a content
  pub new_entry : String → String → WikiEntry Y
  pub upsert : Bool → WikiEntry Y → S → S
  pub regenerate_index : Bool → S → S
  -- A line for a title and an id.
  pub append_log : Bool → String → String → S → S
  -- `commit_prompt_snapshot` of the store's entries.
  pub publish : Bool → S → S

-- Which calls of one `upsert_shared` work.
pub record StoreCalls : Type 0 where
  pub open_store : Bool
  pub upsert : Bool
  pub regenerate_index : Bool
  pub append_log : Bool
  pub publish : Bool

abbrev pub strings_in : Items → List String
strings_in nil = []
strings_in (cons (string s) rest) = s ∷ strings_in rest
strings_in (cons _ rest) = strings_in rest

abbrev pub items_in : Option Value → Items
items_in (some (array items)) = items
items_in _ = nil

abbrev pub source_of : Value → Option String
source_of item = bind (bind (get "projectId" item) as_str) (λ (project : String).
    bind (bind (get "source" item) as_str)
      (λ (source : String). some (append project (append ":" source))))

abbrev pub sources_in : Items → List String
sources_in nil = []
sources_in (cons item rest) =
    let after = sources_in rest in elim (source_of item) [ none ↦ after | some s ↦ s ∷ after ]

abbrev pub add_tag : String → List String → List String
add_tag tag tags = if any (str_eq tag) tags then tags else tags ++ (tag ∷ [])

abbrev pub tags_of : String → Value → List String
tags_of scope value =
    add_tag (append "scope:" scope) (add_tag "promoted" (strings_in (items_in (get "tags" value))))

abbrev pub entry_id_of : String → String
entry_id_of id = append "promoted-" id

module _ {S Y : Type 0} (shared : SharedStore S Y) where
  unfoldable pub shared_entry : String → String → String → String → Value → WikiEntry Y
  shared_entry id title content scope value = record (shared.new_entry title content) {
    id = entry_id_of id;
    content = content;
    entry_type = some "Lesson";
    tags = tags_of scope value;
    sources =
        map (λ (s : String). record { id = none; resource = s; extra = [] })
          (sources_in (items_in (get "evidence" value)));
  }

  abbrev pub is_unchanged : Option String → String → Bool
  is_unchanged none content = false
  is_unchanged (some held) content = str_eq held content

  abbrev pub then_publish : StoreCalls → String → S → ReviewResult String × S
  then_publish calls id store = (
    if calls.publish then granted (entry_id_of id) else refused outside_failed,
    shared.publish calls.publish store,
  )

  abbrev pub then_log : StoreCalls → String → String → S → ReviewResult String × S
  then_log calls id title store =
      let after = shared.append_log calls.append_log title (entry_id_of id) store in
      if calls.append_log then then_publish calls id after else (refused outside_failed, after)

  abbrev pub then_index : StoreCalls → String → String → S → ReviewResult String × S
  then_index calls id title store =
      let after = shared.regenerate_index calls.regenerate_index store in
      if calls.regenerate_index
      then then_log calls id title after
      else (refused outside_failed, after)

  abbrev pub save_entry : StoreCalls → String → String → WikiEntry Y → S → ReviewResult String × S
  save_entry calls id title entry store =
      let after = shared.upsert calls.upsert entry store in
      if calls.upsert then then_index calls id title after else (refused outside_failed, after)

  unfoldable pub upsert_shared :
      StoreCalls → String → String → String → String → Value → S → ReviewResult String × S
  unfolding shared_entry
  upsert_shared calls id title content scope value store =
      if not calls.open_store
      then (refused outside_failed, store)
      else if is_unchanged (shared.content_of (entry_id_of id) store) content
      then then_publish calls id store
      else save_entry calls id title (shared_entry id title content scope value) store
