-- ===== src/Wiki/Hashes.antt =====
-- The index of content hashes against the entries.
use prometheus_knowledge_rs.Prelude.{
  ℕ, ◌≡◌, refl, ◌⊎◌, inl, inr, Bool, false, Option, none, some, List, arith, String, str_eq, eq_iff,
  Bool-cases, Option-cases, is_some, bind, codes, find, insert, erase, find-insert, find-erase,
}
use prometheus_knowledge_rs.Article.{is_safe_path}
use prometheus_knowledge_rs.Wiki.{
  WikiEntry, Store, Write, written, untouched, broken, entry_content_hash, drop_stale, add_hash,
  next_revision, remember, write_page, upsert, remove_page, forget_hash, same_hash, unindex, delete,
}

module _ {Y : Type 0} (as_str : Y → Option String) where
  abbrev hash_of : Option (WikiEntry Y) → Option String
  hash_of e = bind e (entry_content_hash as_str)

  -- A hash that the index knows names an entry with that hash.
  pub record IsHashed (store : Store Y) : Type 0 where
    pub each_hash :
        (h id : String)
        → find h store.content_hash_index ≡ some id
        → hash_of (find id store.entries) ≡ some h

  drop_stale-found :
      (stale fresh : Option String) (hashes : List (String × String)) (h id : String)
      → find h (drop_stale as_str stale fresh hashes) ≡ some id
      → (find h hashes ≡ some id) × ((stale ≡ some h) → fresh ≡ some h)
  drop_stale-found none fresh hashes h id e = (e, λ s. cc)
  drop_stale-found (some s) none hashes h id e = ground (arith, find-erase s h hashes, eq_iff s h)
  drop_stale-found (some s) (some f) hashes h id e =
      ground (arith, find-erase s h hashes, eq_iff s h, eq_iff f s)

  remembered :
      (old fresh : Option String) (hashes : List (String × String)) (name h id : String)
      → find h (add_hash as_str fresh name (drop_stale as_str old fresh hashes)) ≡ some id
      → ((id ≡ name) × (fresh ≡ some h))
        ⊎ ((find h hashes ≡ some id) × ((old ≡ some h) → fresh ≡ some h))
  remembered old none hashes name h id e = inr (drop_stale-found old none hashes h id e)
  remembered old (some f) hashes name h id e = elim (Bool-cases (str_eq f h)) [
    | inl same ↦
        inl
          (ground (arith, find-insert f h name (drop_stale as_str old (some f) hashes), eq_iff f h))
    | inr other ↦ inr (
        drop_stale-found old (some f) hashes h id
          (ground (arith, find-insert f h name (drop_stale as_str old (some f) hashes))))
  ]

  module _ (render : WikiEntry Y → Option String) (terms : WikiEntry Y → List String) where
    remember-IsHashed :
        (entry : WikiEntry Y) (store : Store Y)
        → IsHashed store
        → IsHashed (remember as_str render terms entry store)
    unfolding remember
    remember-IsHashed entry store sound = record { each_hash = go }
      where
        go :
            (h id : String)
            → find h (remember as_str render terms entry store).content_hash_index ≡ some id
            → hash_of (find id (insert entry.id entry store.entries)) ≡ some h
        go h id e =
            elim (remembered (hash_of (find entry.id store.entries))
              (entry_content_hash as_str entry) store.content_hash_index entry.id h id e) [
                | inl (here, fresh) ↦
                    ground (arith, find-insert entry.id id entry store.entries, eq_iff entry.id id)
                | inr (known, kept) ↦ ground (
                  arith,
                  find-insert entry.id id entry store.entries,
                  eq_iff entry.id id,
                  sound.each_hash h id known,
                )
              ]

    write_page-IsHashed :
        (entry : WikiEntry Y) (write : Write) (page : Option String) (store : Store Y)
        → IsHashed store
        → IsHashed (write_page as_str render terms entry write page store).1
    write_page-IsHashed entry write none store sound = sound
    write_page-IsHashed entry written (some page) store sound = record {
      each_hash = sound.each_hash;
    }
    write_page-IsHashed entry untouched (some page) store sound = sound
    write_page-IsHashed entry (broken rest) (some page) store sound = record {
      each_hash = sound.each_hash;
    }

    -- Where whatever the hash index names carries the hash, that is so after an upsert too, whatever
    -- becomes of the write.
    pub upsert-IsHashed :
        (now : ℕ) (write : Write) (entry : WikiEntry Y) (store : Store Y)
        → IsHashed store
        → IsHashed (upsert as_str render terms now write entry store).1
    unfolding upsert
    upsert-IsHashed now write entry store sound =
        elim (Bool-cases (is_safe_path (codes entry.id))) [
          | inl safe ↦
              let next = next_revision as_str now store entry in
              rw safe (
                write_page-IsHashed next write (render next)
                  (remember as_str render terms next store) (remember-IsHashed next store sound))
          | inr unsafe ↦ rw unsafe sound
        ]

    remove_page-IsHashed :
        (works : Bool) (id : String) (store : Store Y)
        → IsHashed store
        → IsHashed (remove_page as_str render terms works id store).1
    remove_page-IsHashed works id store sound = elim (Bool-cases (is_some (find id store.pages))) [
      | inl there ↦ elim (Bool-cases works) [
        | inl fine ↦ rw (there, fine) (record { each_hash = sound.each_hash })
        | inr stuck ↦ rw (there, stuck) sound
      ]
      | inr gone ↦ rw gone sound
    ]

    forgotten :
        (old : Option String) (hashes : List (String × String)) (h id : String)
        → find h (forget_hash as_str render terms old hashes) ≡ some id
        → (find h hashes ≡ some id) × (same_hash as_str old h ≡ false)
    forgotten none hashes h id e = (e, refl)
    forgotten (some o) hashes h id e = ground (arith, find-erase o h hashes)

    erased-IsHashed :
        (id : String) (removed : WikiEntry Y) (store : Store Y)
        → find id store.entries ≡ some removed
        → IsHashed store
        → IsHashed (record store {
          entries = erase id store.entries;
          content_hash_index =
              forget_hash as_str render terms
                (entry_content_hash as_str removed)
                store.content_hash_index;
          index = unindex id store.index;
        })
    erased-IsHashed id removed store here sound = record { each_hash = go }
      where
        go :
            (h q : String)
            → find h (
                forget_hash as_str render terms
                  (entry_content_hash as_str removed)
                  store.content_hash_index)
              ≡ some q
            → hash_of (find q (erase id store.entries)) ≡ some h
        go h q e =
            let (known, other) =
              forgotten (entry_content_hash as_str removed) store.content_hash_index h q e in
            ground (
              arith,
              find-erase id q store.entries,
              eq_iff id q,
              eq_iff h h,
              sound.each_hash h q known,
            )

    -- Whatever becomes of the file, what the hash index names after a deletion carries the hash.
    pub delete-IsHashed :
        (works : Bool) (id : String) (store : Store Y)
        → IsHashed store
        → IsHashed (delete as_str render terms works id store).1
    unfolding delete
    delete-IsHashed works id store sound = elim (Option-cases (find id store.entries)) [
      | inl absent ↦ rw (absent, delete) sound
      | inr (removed, here) ↦
          rw (here, delete)
            (remove_page-IsHashed works id _ (erased-IsHashed id removed store here sound))
    ]
