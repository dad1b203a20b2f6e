-- ===== src/Worker/Disk.antt =====
-- The queue's files and the calls that the worker makes on them: `json_files`, `atomic_json`,
-- `durable_rename` and `preserve_duplicate_in`, pk-learning-worker/src/main.rs.
--
-- A path is a directory of the queue and a file name. Every call that changes the disk asks the list
-- `faults` how it ends: it works, it fails and changes nothing, or it changes the disk and fails
-- afterwards, as a rename whose directory cannot be flushed does. From the list's end on all calls
-- work. A crash is a list that goes on with failures: no later call has an effect.
pub mod Laws
pub mod Keeps
pub mod Steps
pub mod Survival
use prometheus_knowledge_rs.Prelude.{
  ℕ, Bool, ◌&&◌, Option, none, some, List, [], ◌∷◌, String, str_eq, ltb, ◌==◌, if◌then◌else◌,
  length, codes, chars_start_with, str_leb,
}
use Prim.Native.String.{◌++◌ as append}
use mathlib.Core.List.{reverse}
use prometheus_knowledge_rs.Worker.Operation.{Error, Result, ok, err, io_error, no_such_file}

pub data Directory : Type 0 where
  pending processing retry rejected completed dead_letter : Directory
  memory_pending memory_submitting memory_accepted memory_retry memory_completed : Directory
  memory_rejected memory_dead_letter memory_stalled memory_manifests queue_root : Directory

abbrev pub directory_number : Directory → ℕ
directory_number pending = 0
directory_number processing = 1
directory_number retry = 2
directory_number rejected = 3
directory_number completed = 4
directory_number dead_letter = 5
directory_number memory_pending = 6
directory_number memory_submitting = 7
directory_number memory_accepted = 8
directory_number memory_retry = 9
directory_number memory_completed = 10
directory_number memory_rejected = 11
directory_number memory_dead_letter = 12
directory_number memory_stalled = 13
directory_number memory_manifests = 14
directory_number queue_root = 15

pub record Location : Type 0 where
  pub directory : Directory
  pub name : String

-- `root.join(directory).join(name)`
abbrev pub at : Directory → String → Location
at directory name = record { directory = directory; name = name }

unfoldable pub same_location : Location → Location → Bool
same_location p q =
    directory_number p.directory == directory_number q.directory && str_eq p.name q.name

pub data Fault : Type 0 where
  works fails unsynced : Fault

-- The last entry of a name's text after its last dot is `json`, and something stands before the dot.
unfoldable pub is_json : String → Bool
is_json name =
    let s = reverse (codes name) in chars_start_with s (codes "nosj.") && ltb 5 (length s)

insert_name : String → List String → List String
insert_name n [] = n ∷ []
insert_name n (m ∷ ms) = let rest = insert_name n ms in if str_leb n m then n ∷ m ∷ ms else m ∷ rest

unfoldable pub sort_names : List String → List String
unfolding insert_name
sort_names [] = []
sort_names (n ∷ ns) = insert_name n (sort_names ns)

module _ {C : Type 0} where
  -- The file at a location, a write that creates or replaces it, and a removal.
  unfoldable pub lookup : Location → List (Location × C) → Option C
  lookup p [] = none
  lookup p ((q, c) ∷ fs) = if same_location q p then some c else lookup p fs

  unfoldable pub put : Location → C → List (Location × C) → List (Location × C)
  put p c [] = (p, c) ∷ []
  put p c ((q, d) ∷ fs) = if same_location q p then (p, c) ∷ fs else (q, d) ∷ put p c fs

  unfoldable pub remove : Location → List (Location × C) → List (Location × C)
  remove p [] = []
  remove p ((q, d) ∷ fs) =
      let rest = remove p fs in if same_location q p then rest else (q, d) ∷ rest

  unfoldable pub names_in : Directory → List (Location × C) → List String
  names_in directory [] = []
  names_in directory ((q, d) ∷ fs) =
      let rest = names_in directory fs in
      if directory_number q.directory == directory_number directory && is_json q.name
      then q.name ∷ rest
      else rest

  unfoldable pub json_files : Directory → List (Location × C) → List String
  unfolding names_in
  json_files directory fs = sort_names (names_in directory fs)

pub record Disk (C : Type 0) : Type 0 where
  pub files : List (Location × C)
  pub faults : List Fault

abbrev pub Io : Type 0 → Type 0 → Type 0
Io C A = Disk C → Result A × Disk C

module _ {C A : Type 0} where
  unfoldable pub pure : A → Io C A
  pure a d = (ok a, d)

  unfoldable pub raise : Error → Io C A
  raise e d = (err e, d)

  unfoldable pub lift : Result A → Io C A
  lift r d = (r, d)

  unfoldable pub gets : (List (Location × C) → A) → Io C A
  gets f d = (ok (f d.files), d)

module _ {C A B : Type 0} where
  abbrev pub continue : Result A → (A → Io C B) → Io C B
  continue (ok a) f d = f a d
  continue (err e) f d = (err e, d)

  infixl 5 ◌>>=◌ ◌>>◌
  unfoldable pub ◌>>=◌ : Io C A → (A → Io C B) → Io C B
  unfolding pure raise lift gets
  ◌>>=◌ m f d = let (r, d') = m d in continue r f d'

  abbrev pub ◌>>◌ : Io C A → Io C B → Io C B
  m >> n = m >>= λ _. n

-- `millis` is the text of the clock in milliseconds.
unfoldable pub duplicate_name : String → String → String → String
duplicate_name name label millis = append name (append "." (append label (append "." millis)))

module _ {C : Type 0} where
  -- A change of the files that ends as the next fault says.
  abbrev pub end_with : (List (Location × C) → List (Location × C)) → List Fault → Io C (Unit {0})
  end_with change [] d = (ok tt, record d { files = change d.files })
  end_with change (works ∷ rest) d = (ok tt, record d { files = change d.files; faults = rest })
  end_with change (fails ∷ rest) d = (err io_error, record d { faults = rest })
  end_with change (unsynced ∷ rest) d =
      (err io_error, record d { files = change d.files; faults = rest })

  unfoldable pub perform : (List (Location × C) → List (Location × C)) → Io C (Unit {0})
  perform change d = end_with change d.faults d

  unfoldable pub read : Location → Io C C
  read p d = (elim (lookup p d.files) [ none ↦ err no_such_file | some c ↦ ok c ], d)

  -- The text is complete in a temporary file before it takes the target's name.
  unfoldable pub atomic_json : Location → C → Io C (Unit {0})
  atomic_json p c = perform (put p c)

  -- A rename of a missing file fails; what had the target's name is replaced.
  unfoldable pub move : Location → Location → Option C → Io C (Unit {0})
  move source target none = raise no_such_file
  move source target (some content) = perform (λ fs. put target content (remove source fs))

  unfoldable pub durable_rename : Location → Location → Io C (Unit {0})
  durable_rename source target d = move source target (lookup source d.files) d

  unfoldable pub preserve_duplicate_in : Directory → Location → String → String → Io C (Unit {0})
  preserve_duplicate_in directory path label millis =
      durable_rename path (at directory (duplicate_name path.name label millis))

  unfoldable pub each : (String → Io C (Unit {0})) → List String → Io C (Unit {0})
  each f [] = pure tt
  each f (n ∷ ns) = f n >> each f ns
