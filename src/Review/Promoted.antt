-- ===== src/Review/Promoted.antt =====
-- Accepting a promotion: where it leaves the candidates, and accepting again after a failure.
use Prim.Native.String.{◌++◌ as append}
use prometheus_knowledge_rs.Prelude.{
  ◌≡◌, refl, true, Option, none, some, List, String, is_some, bind, find, ◌⊎◌, inl, inr, arith,
  eq_iff, insert, find-insert, Bool, false, ◌∙◌, Bool-cases,
}
use prometheus_knowledge_rs.Review.{
  Candidates, ReviewResult, validate_id, pending_candidate, text_at, granted, refused, accept,
  Ending, settle, lands, lost, unflushed,
}
use prometheus_knowledge_rs.Review.Json.{put_field, get_field-put_field, set}
use prometheus_knowledge_rs.Review.Accept.{
  Endings, not_blank, Desk, settle_desk, queue_desk, promote_content, promote_found,
  accept_promotion, scope_of,
}
use prometheus_knowledge_rs.Review.Shared.{
  SharedStore, StoreCalls, entry_id_of, is_unchanged, upsert_shared,
}
use prometheus_knowledge_rs.Review.Settled.{settle-places, places, pending_candidate-held}
use prometheus_knowledge_rs.Worker.Disk.{Location, memory_pending, at}
use prometheus_knowledge_rs.Review.Queue.{
  queue_memory, promotion_operation, promotion_id, is_queued, queue_unless,
}
use prometheus_knowledge_rs.Worker.Queue.{Host}
use prometheus_knowledge_rs.Worker.Operation.{Value, Fields, object, string, get_field}

-- A pending candidate with a content.
pub record IsReady (id content : String) (files : Candidates) : Type 0 where
  pub fields : Fields
  pub valid : validate_id id ≡ true
  pub held : find id files.pending ≡ some (some (object fields))
  pub filled : bind (text_at "content" (object fields)) not_blank ≡ some content

abbrev pub IsAccepted : String → Candidates → Type 0
IsAccepted id files = is_some (find id files.accepted) ≡ true

abbrev final_fields : String → String → String → Fields → Fields
final_fields now entry_id operation_id fields =
    put_field "memoryOperationId" (string operation_id) (
      put_field "sharedEntryId" (string entry_id) (
        put_field "updatedAt" (string now)
          (put_field "acceptedAt" (string now) (put_field "state" (string "accepted") fields))))

final_content :
    (now entry_id operation_id : String) (fields : Fields)
    → get_field "content" (final_fields now entry_id operation_id fields)
      ≡ get_field "content" fields
final_content now entry_id operation_id fields =
    rw
      (
        get_field-put_field, get_field-put_field, get_field-put_field, get_field-put_field,
        get_field-put_field,
      )
      refl

abbrev pub all_calls : StoreCalls
all_calls = record {
  open_store = true;
  upsert = true;
  regenerate_index = true;
  append_log = true;
  publish = true;
}

abbrev pub all_work : Endings
all_work = record { store = all_calls; queue = lands; write = lands; rename = lands }

module _ {S Y C : Type 0} (shared : SharedStore S Y) (host : Host C) (digest : String → String)
    (user now : String) where
  module _ (ends : Endings) where
    settle_desk-places :
        (id other : String) (value : Value) (entry_id : String)
        (queued : ReviewResult String × List (Location × C)) (desk : Desk S C)
        → find id desk.files.pending ≡ some (some value)
        → places other desk.files ≡ 1
        → places other
            (settle_desk shared host digest user now ends id value entry_id queued desk).1.files
          ≡ 1
    settle_desk-places id other value entry_id (refused e, queue) desk held one = one
    settle_desk-places id other value entry_id (granted operation_id, queue) desk held one =
        settle-places ends.write ends.rename accept id other (some value) _ operation_id desk.files
          held one

    queue_desk-places :
        (id other content : String) (value : Value) (saved : ReviewResult String × S)
        (desk : Desk S C)
        → find id desk.files.pending ≡ some (some value)
        → places other desk.files ≡ 1
        → places other
            (queue_desk shared host digest user now ends id content value saved desk).1.files
          ≡ 1
    queue_desk-places id other content value (refused e, store) desk held one = one
    queue_desk-places id other content value (granted entry_id, store) desk held one =
        settle_desk-places id other value entry_id _ (record desk { store = store }) held one

    promote_content-places :
        (id other : String) (value : Value) (content : Option String) (desk : Desk S C)
        → find id desk.files.pending ≡ some (some value)
        → places other desk.files ≡ 1
        → places other
            (promote_content shared host digest user now ends id value content desk).1.files
          ≡ 1
    promote_content-places id other value none desk held one = one
    promote_content-places id other value (some content) desk held one =
        queue_desk-places id other content value _ desk held one

    -- However the acceptance of a promotion ends, every candidate that had one file has one file
    -- afterwards.
    pub accept_promotion-places :
        (id other : String) (desk : Desk S C)
        → places other desk.files ≡ 1
        → places other (accept_promotion shared host digest user now ends id desk).1.files ≡ 1
    unfolding accept_promotion
    accept_promotion-places id other desk one = by_found (pending_candidate id desk.files) refl
      where
        by_found :
            (found : ReviewResult Value)
            → pending_candidate id desk.files ≡ found
            → places other (promote_found shared host digest user now ends id found desk).1.files
              ≡ 1
        by_found (refused e) h = one
        by_found (granted value) h =
            promote_content-places id other value (bind (text_at "content" value) not_blank) desk
              (pending_candidate-held id desk.files value h) one

  settle-IsReady :
      (write rename : Ending) (id content entry_id operation_id : String) (fields : Fields)
      (files : Candidates)
      → validate_id id ≡ true
      → bind (text_at "content" (object fields)) not_blank ≡ some content
      → find id files.pending ≡ some (some (object fields))
      → let after =
          (settle write rename accept id
            (object (final_fields now entry_id operation_id fields))
            operation_id
            files).1 in
        IsReady id content after ⊎ IsAccepted id after
  unfolding settle
  settle-IsReady lost rename id content entry_id operation_id fields files valid filled held =
      inl (record { fields = fields; valid = valid; held = held; filled = filled })
  settle-IsReady unflushed rename id content entry_id operation_id fields files valid filled held =
      let final = final_fields now entry_id operation_id fields in
      inl (record {
        fields = final;
        valid = valid;
        held = ground (arith, find-insert id id (some (object final)) files.pending, eq_iff id id);
        filled = rw (final_content now entry_id operation_id fields) filled;
      })
  settle-IsReady lands rename id content entry_id operation_id fields files valid filled held =
      let final = final_fields now entry_id operation_id fields in
      let written : find id (insert id (some (object final)) files.pending)
          ≡ some (some (object final)) =
        ground (arith, find-insert id id (some (object final)) files.pending, eq_iff id id) in
      let arrived = find-insert id id (some (object final)) files.accepted in
      by_rename rename written (ground (arith, arrived, eq_iff id id))
    where
      by_rename :
          (rename' : Ending)
          → find id (
              insert id
                (some (object (final_fields now entry_id operation_id fields)))
                files.pending)
            ≡ some (some (object (final_fields now entry_id operation_id fields)))
          → is_some (
              find id (
                insert id
                  (some (object (final_fields now entry_id operation_id fields)))
                  files.accepted))
            ≡ true
          → let after =
              (settle lands rename' accept id
                (object (final_fields now entry_id operation_id fields))
                operation_id
                files).1 in
            IsReady id content after ⊎ IsAccepted id after
      by_rename lands w a = inr (rw w a)
      by_rename unflushed w a = inr (rw w a)
      by_rename lost w a = rw w (
          inl (record {
            fields = final_fields now entry_id operation_id fields;
            valid = valid;
            held = w;
            filled = rw (final_content now entry_id operation_id fields) filled;
          }))

  queue_desk-IsReady :
      (ends : Endings) (id content : String) (fields : Fields) (saved : ReviewResult String × S)
      (desk : Desk S C)
      → validate_id id ≡ true
      → bind (text_at "content" (object fields)) not_blank ≡ some content
      → find id desk.files.pending ≡ some (some (object fields))
      → let after =
          (queue_desk shared host digest user now ends id content (object fields) saved desk).1 in
        IsReady id content after.files ⊎ IsAccepted id after.files
  unfolding set
  queue_desk-IsReady ends id content fields (refused e, store) desk valid filled held =
      inl (record { fields = fields; valid = valid; held = held; filled = filled })
  queue_desk-IsReady ends id content fields (granted entry_id, store) desk valid filled held =
      by_queue (
        queue_memory host digest user now ends.queue id content
          (scope_of shared host digest user now ends (object fields)) desk.queue)
    where
      by_queue :
          (queued : ReviewResult String × List (Location × C))
          → let after =
              (settle_desk shared host digest user now ends id
                (object fields)
                entry_id
                queued
                (record desk { store = store })).1 in
            IsReady id content after.files ⊎ IsAccepted id after.files
      by_queue (refused e, queue) =
          inl (record { fields = fields; valid = valid; held = held; filled = filled })
      by_queue (granted operation_id, queue) =
          settle-IsReady ends.write ends.rename id content entry_id operation_id fields desk.files
            valid filled held

  -- An acceptance that fails, at whatever call, leaves the candidate pending with the same content, or
  -- accepted already.
  pub accept_promotion-IsReady :
      (ends : Endings) (id content : String) (desk : Desk S C)
      → IsReady id content desk.files
      → let after = (accept_promotion shared host digest user now ends id desk).1 in
        IsReady id content after.files ⊎ IsAccepted id after.files
  unfolding accept_promotion pending_candidate
  accept_promotion-IsReady ends id content desk ready =
      rw (ready.valid, ready.held, ready.filled)
        (queue_desk-IsReady ends id content ready.fields _ desk ready.valid ready.filled ready.held)

  upsert_shared-granted :
      (id title content scope : String) (value : Value) (store : S)
      → (upsert_shared shared all_calls id title content scope value store).0
        ≡ granted (entry_id_of id)
  unfolding upsert_shared
  upsert_shared-granted id title content scope value store =
      elim (Bool-cases (is_unchanged shared (shared.content_of (entry_id_of id) store) content)) [
        | inl same ↦ rw same refl
        | inr new ↦ rw new refl
      ]

  queue_memory-granted :
      (id content scope : String) (queue : List (Location × C))
      → (queue_memory host digest user now lands id content scope queue).0
        ≡ granted (promotion_id host digest user now id)
  unfolding queue_memory
  queue_memory-granted id content scope queue =
      by_queued (
        is_queued host digest user now (append (promotion_id host digest user now id) ".json")
          queue)
    where
      by_queued :
          (b : Bool)
          → (queue_unless host digest user now b lands
              (at memory_pending (append (promotion_id host digest user now id) ".json"))
              (host.encode (
                promotion_operation host digest user now
                  (promotion_id host digest user now id)
                  id
                  content
                  scope))
              (promotion_id host digest user now id)
              queue).0
            ≡ granted (promotion_id host digest user now id)
      by_queued true = refl
      by_queued false = refl

  settle-IsAccepted :
      (id entry_id operation_id : String) (fields : Fields) (files : Candidates)
      → let (result, after) =
          settle lands lands accept id
            (object (final_fields now entry_id operation_id fields))
            operation_id
            files in
        (result ≡ granted operation_id) × IsAccepted id after
  unfolding settle
  settle-IsAccepted id entry_id operation_id fields files =
      let final = object (final_fields now entry_id operation_id fields) in
      let written : find id (insert id (some final) files.pending) ≡ some (some final) =
        ground (arith, find-insert id id (some final) files.pending, eq_iff id id) in
      rw written (refl, ground (arith, find-insert id id (some final) files.accepted, eq_iff id id))

  queue_desk-IsAccepted :
      (id content entry_id : String) (fields : Fields) (saved : ReviewResult String × S)
      (desk : Desk S C)
      → saved.0 ≡ granted entry_id
      → let (result, after) =
          queue_desk shared host digest user now all_work id content (object fields) saved desk in
        (result ≡ granted (promotion_id host digest user now id)) × IsAccepted id after.files
  unfolding set
  queue_desk-IsAccepted id content entry_id fields (refused e, store) desk h = cc
  queue_desk-IsAccepted id content entry_id fields (granted entry_id', store) desk h =
      by_queue
        (queue_memory host digest user now lands id content
          (scope_of shared host digest user now all_work (object fields)) desk.queue)
        (queue_memory-granted id content
          (scope_of shared host digest user now all_work (object fields)) desk.queue)
    where
      by_queue :
          (queued : ReviewResult String × List (Location × C))
          → queued.0 ≡ granted (promotion_id host digest user now id)
          → let (result, after) =
              settle_desk shared host digest user now all_work id
                (object fields)
                entry_id'
                queued
                (record desk { store = store }) in
            (result ≡ granted (promotion_id host digest user now id)) × IsAccepted id after.files
      by_queue (refused e, queue) q = cc
      by_queue (granted operation_id, queue) q =
          let (given, accepted) = settle-IsAccepted id entry_id' operation_id fields desk.files in
          (given ∙ q, accepted)

  -- Where every call works, a pending candidate with a content is accepted, and the identifier of its
  -- memory operation is returned.
  pub accept_promotion-IsAccepted :
      (id content : String) (desk : Desk S C)
      → IsReady id content desk.files
      → let (result, after) = accept_promotion shared host digest user now all_work id desk in
        (result ≡ granted (promotion_id host digest user now id)) × IsAccepted id after.files
  unfolding accept_promotion pending_candidate
  accept_promotion-IsAccepted id content desk ready =
      rw (ready.valid, ready.held, ready.filled)
        (queue_desk-IsAccepted id content (entry_id_of id) ready.fields _ desk
          (upsert_shared-granted id _ content _ (object ready.fields) desk.store))

  IsAccepted-stays :
      (id : String) (desk : Desk S C)
      → places id desk.files ≡ 1
      → IsAccepted id desk.files
      → IsAccepted id (accept_promotion shared host digest user now all_work id desk).1.files
  unfolding accept_promotion pending_candidate
  IsAccepted-stays id desk one accepted =
      let gone : find id desk.files.pending ≡ none = ground arith in
      elim (Bool-cases (validate_id id)) [
        | inl valid ↦ rw (valid, gone) accepted
        | inr bad ↦ rw bad accepted
      ]

  -- A failed acceptance can be repeated: whatever call of the first attempt fails, a second attempt
  -- whose calls work leaves the candidate accepted, if it was pending with a content and in no other
  -- directory at first.
  pub accept_promotion-again :
      (ends : Endings) (id content : String) (desk : Desk S C)
      → IsReady id content desk.files
      → places id desk.files ≡ 1
      → let first = (accept_promotion shared host digest user now ends id desk).1 in
        IsAccepted id (accept_promotion shared host digest user now all_work id first).1.files
  accept_promotion-again ends id content desk ready one =
      let first = (accept_promotion shared host digest user now ends id desk).1 in
      elim (accept_promotion-IsReady ends id content desk ready) [
        | inl still ↦ (accept_promotion-IsAccepted id content first still).1
        | inr accepted ↦
            IsAccepted-stays id first (accept_promotion-places ends id id desk one) accepted
      ]
