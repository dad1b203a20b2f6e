-- ===== src/Wiki/Pages.antt =====
-- What an upsert and a deletion leave to be read.
use prometheus_knowledge_rs.Prelude.{
  ℕ, ◌≡◌, refl, true, Option, none, some, List, arith, String, str_eq, eq_iff, if◌then◌else◌, bind,
  codes, find, insert, erase, find-insert, find-erase, ◌+◌, ◌%◌,
}
use prometheus_knowledge_rs.Article.{is_safe_path}
use prometheus_knowledge_rs.Wiki.{
  WikiEntry, Store, written, done, entry_content_hash, next_revision, remember, upsert, get,
  find_by_content_hash, add_hash, delete, drop_stale, raised, not_found,
}

module _ {Y : Type 0} (as_str : Y → Option String) (render : WikiEntry Y → Option String)
    (terms : WikiEntry Y → List String) where
  -- The entry that an upsert stores over what its id held: unchanged where there was nothing, and else
  -- with the revision after its own and the time of the upsert.
  abbrev pub revised : ℕ → Option (WikiEntry Y) → WikiEntry Y → WikiEntry Y
  revised now none entry = entry
  revised now (some held) entry = record entry {
    revision = (entry.revision + 1) % 4294967296;
    updated_at = now;
  }

  next_revision-revised :
      (now : ℕ) (entry : WikiEntry Y) (store : Store Y) (held : Option (WikiEntry Y))
      → find entry.id store.entries ≡ held
      → next_revision as_str now store entry ≡ revised now held entry
  next_revision-revised now entry store none h = rw h refl
  next_revision-revised now entry store (some old) h = rw h refl

  upsert-runs :
      (now : ℕ) (entry : WikiEntry Y) (store : Store Y) (page : String)
      → is_safe_path (codes entry.id) ≡ true
      → render (next_revision as_str now store entry) ≡ some page
      → let next = next_revision as_str now store entry in
        let remembered = remember as_str render terms next store in
        upsert as_str render terms now written entry store
        ≡ (done next, record remembered { pages = insert next.id page remembered.pages })
  unfolding upsert
  upsert-runs now entry store page safe rendered = rw (safe, rendered) refl

  hash_found :
      (fresh old : Option String) (id : String) (hashes : List (String × String))
      → bind fresh (λ h. find h (add_hash as_str fresh id (drop_stale as_str old fresh hashes)))
        ≡ bind fresh (λ h. some id)
  hash_found none old id hashes = refl
  hash_found (some h) old id hashes =
      ground (arith, find-insert h h id (drop_stale as_str old (some h) hashes), eq_iff h h)

  upsert-next :
      (now : ℕ) (entry : WikiEntry Y) (store : Store Y) (next : WikiEntry Y) (page q : String)
      → is_safe_path (codes entry.id) ≡ true
      → next_revision as_str now store entry ≡ next
      → render next ≡ some page
      → let (r, after) = upsert as_str render terms now written entry store in
        (r ≡ done next)
        × (find q after.entries ≡ (if str_eq next.id q then some next else find q store.entries))
        × (find q after.pages ≡ (if str_eq next.id q then some page else find q store.pages))
        × (bind (entry_content_hash as_str next) (λ h. find_by_content_hash as_str h after)
            ≡ bind (entry_content_hash as_str next) (λ h. some next.id))
  unfolding remember find_by_content_hash
  upsert-next now entry store next page q safe same rendered =
      let run = upsert-runs now entry store page safe (rw same rendered) in
      rw (run, same)
        (
          refl,
          find-insert next.id q next store.entries,
          find-insert next.id q page store.pages,
          hash_found (entry_content_hash as_str next) _ next.id store.content_hash_index,
        )

  -- An upsert of a safe id whose page is rendered and written returns the entry as it came in where the
  -- id was free, and else with the revision after the one it came in with, modulo 2^32, and the time of
  -- the upsert. Under its id stand that entry and its page, every other entry and page is as before,
  -- and its hash, if it has one, leads to it.
  pub upsert-find :
      (now : ℕ) (entry : WikiEntry Y) (store : Store Y) (held : Option (WikiEntry Y))
      (page q : String)
      → is_safe_path (codes entry.id) ≡ true
      → find entry.id store.entries ≡ held
      → render (revised now held entry) ≡ some page
      → let next = revised now held entry in
        let (r, after) = upsert as_str render terms now written entry store in
        (r ≡ done next)
        × (find q after.entries ≡ (if str_eq next.id q then some next else find q store.entries))
        × (find q after.pages ≡ (if str_eq next.id q then some page else find q store.pages))
        × (bind (entry_content_hash as_str next) (λ h. find_by_content_hash as_str h after)
            ≡ bind (entry_content_hash as_str next) (λ h. some next.id))
  upsert-find now entry store held page q safe found rendered =
      upsert-next now entry store (revised now held entry) page q safe
        (next_revision-revised now entry store held found) rendered

  delete-runs :
      (id : String) (store : Store Y) (removed : WikiEntry Y)
      → find id store.entries ≡ some removed
      → let after = (delete as_str render terms true id store).1 in
        (after.entries ≡ erase id store.entries)
        × ((delete as_str render terms true id store).0 ≡ done tt)
        × (find id after.pages ≡ none)
  unfolding delete
  delete-runs id store removed here =
      rw (here, delete) (ground (arith, find-erase id id store.pages, eq_iff id id))

  -- A deletion of a known id whose file can be removed returns, and nothing is found under the id any
  -- more, neither an entry nor a page; the other entries are as before.
  pub delete-find :
      (id q : String) (store : Store Y) (removed : WikiEntry Y)
      → find id store.entries ≡ some removed
      → let (r, after) = delete as_str render terms true id store in
        (r ≡ done tt)
        × (get as_str id after ≡ raised (not_found id))
        × (find id after.pages ≡ none)
        × (find q after.entries ≡ (if str_eq id q then none else find q store.entries))
  unfolding get
  delete-find id q store removed here =
      let (entries, fine, page) = delete-runs id store removed here in
      (
        fine,
        ground (arith, find-erase id id store.entries, eq_iff id id),
        page,
        rw entries (find-erase id q store.entries),
      )
