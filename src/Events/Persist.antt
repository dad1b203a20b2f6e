-- ===== src/Events/Persist.antt =====
-- What `persist` stores, and what is read back of it.
use prometheus_knowledge_rs.Prelude.{
  ℕ, ◌+◌, ◌≤◌, ◌≡◌, refl, sym, ap, ◌∙◌, Bool, true, false, not, ◌&&◌, ◌||◌, Option, none, some,
  List, [], ◌∷◌, ◌++◌, arith, String, ◌==◌, if◌then◌else◌, length, keep, any, is_empty, trim,
  filter_map, Chars, length-append,
}
use prometheus_knowledge_rs.Texts.{lines}
use prometheus_knowledge_rs.Texts.Whole.{is_whole, lines-is_whole, lines_ended}
use prometheus_knowledge_rs.Events.{
  EventRecord, StoreTarget, RecordFormat, Stores, affects_entry, records_in, append, for_entry,
}
use prometheus_knowledge_rs.Events.Log.{count}
use prometheus_knowledge_rs.Events.Listing.{earliest_first-count}

module _ {A B : Type 0} (f : A → Option B) (p : A → Bool) where
  kept_from_append :
      (xs ys : List A)
      → filter_map f (keep p (xs ++ ys)) ≡ filter_map f (keep p xs) ++ filter_map f (keep p ys)
  kept_from_append [] ys = refl
  kept_from_append (x ∷ xs) ys = ground (arith, kept_from_append xs ys)

module _ {V : Type 0} (format : RecordFormat V) where
  open format use {decode, encode}

  -- What serde_json gives for a record: a text that is not blank, without control characters, from which
  -- the record is read back.
  pub record IsReadable (r : EventRecord V) : Type 0 where
    pub plain : any (λ c. c == 10 || c == 13) (encode r) ≡ false
    pub filled : is_empty (trim (encode r)) ≡ false
    pub back : decode (encode r) ≡ some r

  -- Behind whole lines, a text is read as it is on its own.
  records_in-is_whole :
      (file text : Chars)
      → is_whole file ≡ true
      → records_in format (file ++ text) ≡ records_in format file ++ records_in format text
  unfolding records_in
  records_in-is_whole file text whole =
      ap (λ ls. filter_map decode (keep (λ l. not (is_empty (trim l))) ls))
        (lines-is_whole file text whole)
      ∙ kept_from_append decode (λ l. not (is_empty (trim l))) (lines file) (lines text)

  records_in-encode :
      (r : EventRecord V) → IsReadable r → records_in format (encode r ++ (10 ∷ [])) ≡ r ∷ []
  unfolding records_in
  records_in-encode r readable =
      rw (lines_ended (encode r) readable.plain) (ground (arith, readable.filled, readable.back))

  records_in-append :
      (r : EventRecord V) (file : Chars)
      → IsReadable r
      → is_whole file ≡ true
      → records_in format (append format none r file).1 ≡ records_in format file ++ (r ∷ [])
  unfolding append
  records_in-append r file readable whole =
      records_in-is_whole file (encode r ++ (10 ∷ [])) whole
      ∙ ap (λ rs. records_in format file ++ rs) (records_in-encode r readable)

  keep-append :
      (p : EventRecord V → Bool) (rs ss : List (EventRecord V))
      → keep p (rs ++ ss) ≡ keep p rs ++ keep p ss
  keep-append p [] ss = refl
  keep-append p (r ∷ rs) ss = ground (arith, keep-append p rs ss)

  count-append :
      (p : EventRecord V → Bool) (rs ss : List (EventRecord V))
      → count p (rs ++ ss) ≡ count p rs + count p ss
  count-append p rs ss = ap length (keep-append p rs ss) ∙ length-append (keep p rs) (keep p ss)

  -- How many stored records have a property, in the database and in the log together.
  abbrev pub stored : (EventRecord V → Bool) → Stores V → ℕ
  stored p stores =
      count (λ (s : StoreTarget × EventRecord V). p s.1) stores.database
      + count p (records_in format stores.file)

  -- What a call leaves: nothing that was stored is lost, the record is stored once more if the call
  -- returned, and the log then has whole lines again.
  abbrev pub IsStored : (EventRecord V → Bool) → EventRecord V → Stores V → Bool × Stores V → Type 0
  IsStored p r before (fine, after) =
      (stored p before + (if fine && p r then 1 else 0) ≤ stored p after)
      × ((not fine || is_whole after.file) ≡ true)

  -- An appended record is in the history of each entry that it affects, in its own project, and in no
  -- other; what the history held it keeps, if the log has whole lines.
  pub for_entry-append :
      (r : EventRecord V) (entry_id project_root : String) (file : Chars) (p : EventRecord V → Bool)
      → IsReadable r
      → is_whole file ≡ true
      → count p (for_entry format entry_id project_root (append format none r file).1)
        ≡ count p (for_entry format entry_id project_root file)
          + count p (keep (affects_entry entry_id project_root) (r ∷ []))
  unfolding for_entry
  for_entry-append r entry_id project_root file p readable whole =
      let mine = affects_entry {V = V} entry_id project_root in
      earliest_first-count p _
      ∙ ap (λ rs. count p (keep mine rs)) (records_in-append r file readable whole)
      ∙ ap (count p) (keep-append mine (records_in format file) (r ∷ []))
      ∙ count-append p (keep mine (records_in format file)) (keep mine (r ∷ []))
      ∙ ap (λ n. n + count p (keep mine (r ∷ [])))
          (sym (earliest_first-count p (keep mine (records_in format file))))
