-- ===== src/Wiki.antt =====
-- The wiki's store in memory and on disk: `StoreInner`, `upsert`, `delete`, `get` and
-- `find_by_content_hash` of pk-store/src/store.rs, `TextIndex` of pk-store/src/index.rs, and
-- `WikiEntry`, pk-core/src/types.rs.
--
-- A page's text and an entry's terms are parameters: `render` and `terms`. Values of the frontmatter
-- are of a type of their own, with serde_yaml's `as_str`.
pub mod Index
pub mod Hashes
pub mod Pages
use prometheus_knowledge_rs.Prelude.{
  ℕ, ◌+◌, ◌-◌, ◌%◌, ◌^◌, Bool, false, not, Option, none, some, List, [], ◌∷◌, ◌++◌, String, str_eq,
  if◌then◌else◌, is_some, bind, length, keep, any, is_empty, codes, find, insert, erase,
}
use prometheus_knowledge_rs.Article.{is_safe_path}

pub record Source (Y : Type 0) : Type 0 where
  pub id : Option String
  pub resource : String
  pub extra : List (String × Y)

pub record WikiEntry (Y : Type 0) : Type 0 where
  pub id : String
  pub title : String
  pub content : String
  pub tags : List String
  pub links : List String
  pub sources : List (Source Y)
  pub created_at : ℕ
  pub updated_at : ℕ
  pub revision : ℕ
  pub entry_type : Option String
  pub description : Option String
  pub generated_by : Option String
  pub extra : List (String × Y)

-- An article that a term is in: how often, of how many terms.
pub record Posting : Type 0 where
  pub term : String
  pub id : String
  pub occurrences : ℕ
  pub total : ℕ

pub record TextIndex : Type 0 where
  pub inverted : List Posting
  pub doc_lengths : List (String × ℕ)
  pub doc_count : ℕ

-- `TextIndex::remove`
unfoldable pub unindex : String → TextIndex → TextIndex
unindex id index =
    if is_some (find id index.doc_lengths)
    then record {
      inverted = keep (λ (p : Posting). not (str_eq p.id id)) index.inverted;
      doc_lengths = erase id index.doc_lengths;
      doc_count = index.doc_count - 1;
    }
    else index

-- The terms, each once, with how often it stands in the text.
unfoldable pub occurrences_of : String → List String → ℕ
occurrences_of t ts = length (keep (str_eq t) ts)

unfoldable pub postings : String → List String → List String → List Posting
unfolding occurrences_of
postings id all_terms [] = []
postings id all_terms (t ∷ ts) =
    let rest = postings id all_terms ts in
    if any (str_eq t) ts
    then rest
    else record {
      term = t;
      id = id;
      occurrences = occurrences_of t all_terms;
      total = length all_terms;
    }
      ∷ rest

-- `TextIndex::upsert`, for the terms of the entry.
unfoldable pub index_terms : String → List String → TextIndex → TextIndex
unfolding unindex
index_terms id terms index =
    let cleared = unindex id index in
    if is_empty terms then cleared else record {
      inverted = postings id terms terms ++ cleared.inverted;
      doc_lengths = insert id (length terms) cleared.doc_lengths;
      doc_count = cleared.doc_count + 1;
    }

pub data PkError : Type 0 where
  not_found : String → PkError
  io : PkError
  frontmatter : String → PkError

pub data PkResult (A : Type 0) : Type 0 where
  done : A → PkResult A
  raised : PkError → PkResult A

-- How a write ends: it works, it fails before it touches the file, or it leaves another text there.
pub data Write : Type 0 where
  written untouched : Write
  broken : String → Write

pub record Store (Y : Type 0) : Type 0 where
  pub entries : List (String × WikiEntry Y)
  pub index : TextIndex
  pub content_hash_index : List (String × String)
  pub pages : List (String × String)

module _ {Y : Type 0} (as_str : Y → Option String) where
  unfoldable pub entry_content_hash : WikiEntry Y → Option String
  entry_content_hash entry = bind (find "content_hash" entry.extra) as_str

  -- A revision is a u32.
  abbrev pub bump_revision : ℕ → WikiEntry Y → WikiEntry Y
  bump_revision now entry = record entry {
    revision = (entry.revision + 1) % 2 ^ 32;
    updated_at = now;
  }

  abbrev pub same_hash : Option String → String → Bool
  same_hash none h = false
  same_hash (some g) h = str_eq g h

  -- The hash of what an entry replaces is dropped, unless the entry has it too.
  abbrev pub drop_stale :
      Option String → Option String → List (String × String) → List (String × String)
  drop_stale none fresh hashes = hashes
  drop_stale (some stale) fresh hashes =
      if same_hash fresh stale then hashes else erase stale hashes

  abbrev pub add_hash : Option String → String → List (String × String) → List (String × String)
  add_hash none id hashes = hashes
  add_hash (some h) id hashes = insert h id hashes

  abbrev pub next_revision : ℕ → Store Y → WikiEntry Y → WikiEntry Y
  next_revision now store entry =
      if is_some (find entry.id store.entries) then bump_revision now entry else entry

  module _ (render : WikiEntry Y → Option String) (terms : WikiEntry Y → List String) where
    -- The part of `upsert` under the store's lock, for an entry with its new revision.
    unfoldable pub remember : WikiEntry Y → Store Y → Store Y
    remember entry store = record store {
      content_hash_index = add_hash (entry_content_hash entry) entry.id (
          drop_stale (bind (find entry.id store.entries) entry_content_hash)
            (entry_content_hash entry) store.content_hash_index);
      index = index_terms entry.id (terms entry) store.index;
      entries = insert entry.id entry store.entries;
    }

    abbrev pub write_page :
        WikiEntry Y → Write → Option String → Store Y → PkResult (WikiEntry Y) × Store Y
    write_page entry write none store = (raised (frontmatter entry.id), store)
    write_page entry written (some page) store =
        (done entry, record store { pages = insert entry.id page store.pages })
    write_page entry untouched (some page) store = (raised io, store)
    write_page entry (broken rest) (some page) store =
        (raised io, record store { pages = insert entry.id rest store.pages })

    unfoldable pub upsert : ℕ → Write → WikiEntry Y → Store Y → PkResult (WikiEntry Y) × Store Y
    unfolding remember
    upsert now write entry store =
        if not (is_safe_path (codes entry.id))
        then (raised (frontmatter entry.id), store)
        else let next = next_revision now store entry in
          write_page next write (render next) (remember next store)

    abbrev pub remove_page : Bool → String → Store Y → PkResult (Unit {0}) × Store Y
    remove_page works id store =
        if not (is_some (find id store.pages))
        then (done tt, store)
        else if works
        then (done tt, record store { pages = erase id store.pages })
        else (raised io, store)

    abbrev pub forget_hash : Option String → List (String × String) → List (String × String)
    forget_hash none hashes = hashes
    forget_hash (some h) hashes = erase h hashes

    -- `works` says whether the file can be removed.
    unfoldable pub delete : Bool → String → Store Y → PkResult (Unit {0}) × Store Y
    unfolding unindex
    delete works id store = elim (find id store.entries) [
      | none ↦ (raised (not_found id), store)
      | some removed ↦ remove_page works id (record store {
        entries = erase id store.entries;
        content_hash_index = forget_hash (entry_content_hash removed) store.content_hash_index;
        index = unindex id store.index;
      })
    ]

  unfoldable pub get : String → Store Y → PkResult (WikiEntry Y)
  get id store = elim (find id store.entries) [
    | none ↦ raised (not_found id)
    | some entry ↦ done entry
  ]

  unfoldable pub find_by_content_hash : String → Store Y → Option String
  find_by_content_hash h store = find h store.content_hash_index
