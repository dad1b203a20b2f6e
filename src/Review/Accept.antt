-- ===== src/Review/Accept.antt =====
-- Accepting a candidate: `accept_skill` and `accept_promotion`, pk-cli/src/candidates.rs.
use prometheus_knowledge_rs.Prelude.{
  ℕ, Bool, ◌&&◌, ◌||◌, Option, none, some, ◌∷◌, ◌++◌, map, String, str_eq, ltb, leb, ◌==◌,
  if◌then◌else◌, unwrap_or, is_empty, Chars, codes, trim, bind, List, or_else, [],
}
use prometheus_knowledge_rs.Review.{
  Candidates, ReviewResult, Ending, validate_skill_name, pending_candidate, settle, set_all,
  text_at, invalid_skill_name, no_summary, no_content, granted, refused, accept,
}
use prometheus_knowledge_rs.Review.Json.{set}
use prometheus_knowledge_rs.Review.Shared.{upsert_shared, SharedStore, StoreCalls}
use prometheus_knowledge_rs.Review.Queue.{queue_memory}
use prometheus_knowledge_rs.Worker.Disk.{Location}
use prometheus_knowledge_rs.Worker.Queue.{Host}
use prometheus_knowledge_rs.Worker.Operation.{Value, string, get, as_str}

-- `is_control`: the two blocks of control characters and delete.
abbrev pub is_control : ℕ → Bool
is_control c = ltb c 32 || (leb 127 c && leb c 159)

abbrev pub not_blank : String → Option String
not_blank t = if is_empty (trim (codes t)) then none else some t

abbrev pub update_target : Option String → Value → Option String
update_target (some skill) value = some skill
update_target none value =
    if str_eq (unwrap_or "" (text_at "candidateType" value)) "skill-update"
    then text_at "skillName" value
    else none

abbrev pub quoted_summary : String → Chars
quoted_summary summary =
    trim (map (λ c. if c == b'"' || is_control c then 32 else c) (codes summary))

abbrev pub create_invocation : Option String → ReviewResult Chars
create_invocation none = refused no_summary
create_invocation (some summary) =
    granted (codes "/pmpo-skill-creator create \"" ++ (quoted_summary summary ++ codes "\""))

abbrev pub update_invocation : String → ReviewResult Chars
update_invocation skill =
    if validate_skill_name skill
    then granted (codes "/pmpo-skill-creator --update " ++ codes skill)
    else refused invalid_skill_name

abbrev pub invocation_for : Option String → Value → ReviewResult Chars
invocation_for (some skill) value = update_invocation skill
invocation_for none value =
    create_invocation
      (bind (bind (or_else (get "summary" value) (get "title" value)) as_str) not_blank)

abbrev pub acceptance : String → List (String × Value)
acceptance now =
    ("state", string "accepted") ∷ ("acceptedAt", string now) ∷ ("updatedAt", string now) ∷ []

unfoldable pub invocation : Option String → Value → ReviewResult Chars
unfolding validate_skill_name trim
invocation update value = invocation_for (update_target update value) value

module _ (to_text : Chars → String) where
  abbrev pub accept_invoked :
      Ending
      → Ending
      → String
      → String
      → Value
      → ReviewResult Chars
      → Candidates
      → ReviewResult Chars × Candidates
  accept_invoked write rename now id value (refused e) files = (refused e, files)
  accept_invoked write rename now id value (granted line) files =
      settle write rename accept id
        (set "invocation" (string (to_text line)) (set_all (acceptance now) value)) line files

  abbrev pub accept_skill_found :
      Ending
      → Ending
      → String
      → String
      → Option String
      → ReviewResult Value
      → Candidates
      → ReviewResult Chars × Candidates
  accept_skill_found write rename now id update (refused e) files = (refused e, files)
  accept_skill_found write rename now id update (granted value) files =
      accept_invoked write rename now id value (invocation update value) files

  unfoldable pub accept_skill :
      Ending
      → Ending
      → String
      → String
      → Option String
      → Candidates
      → ReviewResult Chars × Candidates
  unfolding pending_candidate settle set invocation
  accept_skill write rename now id update files =
      accept_skill_found write rename now id update (pending_candidate id files) files

-- How the calls of one `accept_promotion` end.
pub record Endings : Type 0 where
  pub store : StoreCalls
  pub queue : Ending
  pub write : Ending
  pub rename : Ending

-- The candidates, the shared store and the learning queue.
pub record Desk (S C : Type 0) : Type 0 where
  pub files : Candidates
  pub store : S
  pub queue : List (Location × C)

module _ {S Y C : Type 0} (shared : SharedStore S Y) (host : Host C) (digest : String → String)
    (user : String) (now : String) (ends : Endings) where
  abbrev pub scope_of : Value → String
  scope_of value = if str_eq (unwrap_or "" (text_at "scope" value)) "user" then "user" else "global"

  abbrev pub settle_desk :
      String
      → Value
      → String
      → ReviewResult String × List (Location × C)
      → Desk S C
      → ReviewResult String × Desk S C
  settle_desk id value entry_id (refused e, queue) desk = (refused e, record desk { queue = queue })
  settle_desk id value entry_id (granted operation_id, queue) desk =
      let final =
        set "memoryOperationId" (string operation_id)
          (set "sharedEntryId" (string entry_id) (set_all (acceptance now) value)) in
      let (result, files) = settle ends.write ends.rename accept id final operation_id desk.files in
      (result, record { files = files; store = desk.store; queue = queue })

  abbrev pub queue_desk :
      String → String → Value → ReviewResult String × S → Desk S C → ReviewResult String × Desk S C
  queue_desk id content value (refused e, store) desk = (refused e, record desk { store = store })
  queue_desk id content value (granted entry_id, store) desk =
      settle_desk id value entry_id
        (queue_memory host digest user now ends.queue id content (scope_of value) desk.queue)
        (record desk { store = store })

  abbrev pub promote_content :
      String → Value → Option String → Desk S C → ReviewResult String × Desk S C
  promote_content id value none desk = (refused no_content, desk)
  promote_content id value (some content) desk =
      let title = unwrap_or "Promoted lesson" (text_at "title" value) in
      queue_desk id content value
        (upsert_shared shared ends.store id title content (scope_of value) value desk.store) desk

  abbrev pub promote_found : String → ReviewResult Value → Desk S C → ReviewResult String × Desk S C
  promote_found id (refused e) desk = (refused e, desk)
  promote_found id (granted value) desk =
      promote_content id value (bind (text_at "content" value) not_blank) desk

  unfoldable pub accept_promotion : String → Desk S C → ReviewResult String × Desk S C
  unfolding pending_candidate settle set queue_memory upsert_shared trim
  accept_promotion id desk = promote_found id (pending_candidate id desk.files) desk
