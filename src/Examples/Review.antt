-- ===== src/Examples/Review.antt =====
-- The theorems on reviewed candidates, on the prompt snapshot and on civil times, at concrete inputs.
use prometheus_knowledge_rs.Prelude.{
  ◌≡◌, refl, none, some, List, [], ◌∷◌, String, codes, trim, find, insert, if◌then◌else◌, false,
}
use prometheus_knowledge_rs.Civil.Calendar.{IsTimeOf, civil_of_seconds-IsTimeOf}
use prometheus_knowledge_rs.Civil.{civil_of_seconds, rfc3339}
use prometheus_knowledge_rs.Examples.Sample.{sample_host, Content}
use prometheus_knowledge_rs.Review.{validate_id}
use prometheus_knowledge_rs.Review.Accept.{accept_promotion, Endings, Desk}
use prometheus_knowledge_rs.Review.Again.{normalize_operation-promotion_operation}
use prometheus_knowledge_rs.Review.Promoted.{
  IsReady, IsAccepted, all_calls, all_work, accept_promotion-places, accept_promotion-again,
}
use prometheus_knowledge_rs.Review.Queue.{promotion_operation}
use prometheus_knowledge_rs.Review.Shared.{SharedStore}
use prometheus_knowledge_rs.Review.Settled.{places}
use prometheus_knowledge_rs.Worker.Operation.{Fields, object, field, end, string, ok}
use prometheus_knowledge_rs.Worker.Payload.{normalize_operation}
use prometheus_knowledge_rs.Wiki.{WikiEntry}

abbrev lesson_fields : Fields
lesson_fields = field "content" (string "Pin the toolchain.") (field "state" (string "pending") end)

-- A store that holds the entries that were saved.
abbrev entry_of : String → String → WikiEntry String
entry_of title content = record {
  id = "";
  title = title;
  content = content;
  tags = [];
  links = [];
  sources = [];
  created_at = 0;
  updated_at = 0;
  revision = 0;
  entry_type = none;
  description = none;
  generated_by = none;
  extra = [];
}

abbrev sample_shared : SharedStore (List (String × String)) String
sample_shared = record {
  content_of = find;
  new_entry = entry_of;
  upsert = λ works entry store. if works then insert entry.id entry.content store else store;
  regenerate_index = λ works store. store;
  append_log = λ works title id store. store;
  publish = λ works store. store;
}

abbrev sample_digest : String → String
sample_digest text = "9f86d081"

abbrev lesson_desk : Desk (List (String × String)) Content
lesson_desk = record {
  files = record {
    pending = ("lesson-1", some (object lesson_fields)) ∷ [];
    accepted = [];
    rejected = [];
  };
  store = [];
  queue = [];
}

-- The entry is saved, its line in the log is not written.
abbrev cut_off : Endings
cut_off = record all_work { store = record all_calls { append_log = false } }

lesson_desk-IsReady : IsReady "lesson-1" "Pin the toolchain." lesson_desk.files
unfolding validate_id trim find
lesson_desk-IsReady = record { fields = lesson_fields; valid = refl; held = refl; filled = refl }

accept_promotion-again_example :
    let first =
      (accept_promotion sample_shared sample_host sample_digest "@user:me" "now" cut_off "lesson-1"
        lesson_desk).1 in
    IsAccepted "lesson-1"
      (accept_promotion sample_shared sample_host sample_digest "@user:me" "now" all_work "lesson-1"
        first).1.files
unfolding find
accept_promotion-again_example =
    accept_promotion-again sample_shared sample_host sample_digest "@user:me" "now" cut_off
      "lesson-1" "Pin the toolchain." lesson_desk lesson_desk-IsReady refl

accept_promotion-places_example :
    places "lesson-1"
      (accept_promotion sample_shared sample_host sample_digest "@user:me" "now" cut_off "lesson-1"
        lesson_desk).1.files
    ≡ 1
unfolding find
accept_promotion-places_example =
    accept_promotion-places sample_shared sample_host sample_digest "@user:me" "now" cut_off
      "lesson-1" "lesson-1" lesson_desk refl

normalize_operation-promotion_operation_example :
    normalize_operation sample_host.platform none (
      promotion_operation sample_host sample_digest "@user:me" "now" "9f86d081" "lesson-1"
        "Pin the toolchain." "user")
    ≡ ok (
        promotion_operation sample_host sample_digest "@user:me" "now" "9f86d081" "lesson-1"
          "Pin the toolchain." "user")
normalize_operation-promotion_operation_example =
    normalize_operation-promotion_operation sample_host sample_digest "@user:me" "now" none
      "9f86d081" "lesson-1" "Pin the toolchain." "user"

civil_of_seconds-IsTimeOf_example : IsTimeOf 1709164800 (civil_of_seconds 1709164800)
civil_of_seconds-IsTimeOf_example = civil_of_seconds-IsTimeOf 1709164800

leap_day : rfc3339 1709164800 ≡ codes "2024-02-29T00:00:00Z"
unfolding rfc3339
leap_day = refl
