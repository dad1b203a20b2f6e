-- ===== src/Worker/Accepted/Pass.antt =====
-- A pass over the memory operations and the records in `memory/accepted`.
use prometheus_knowledge_rs.Prelude.{◌≡◌, false, some, List, [], ◌∷◌, String, str_eq}
use prometheus_knowledge_rs.Worker.Operation.{MemoryOperation, ReceiptOutcome, Result, ok, err}
use prometheus_knowledge_rs.Worker.Disk.{Directory, directory_number, Location}
use prometheus_knowledge_rs.Worker.Queue.{Host, operation_at, record_memory_error}
use prometheus_knowledge_rs.Worker.Disk.Keeps.{
  Keeps, Keeps-pure, Keeps-lift, Keeps-gets, Keeps-if, Keeps-bind, Keeps-atomic_json, keeps_rules,
}
use prometheus_knowledge_rs.Worker.Reconcile.{reconcile_memory}
use prometheus_knowledge_rs.Worker.Run.{
  Pass, Visit, settle, attempt, visit_file, visit_names, visit_directories, fresh_pass,
  reconcile_all, RunSummary,
}
use prometheus_knowledge_rs.Worker.Queue.Reading.{operation_at_inv, Keeps-read_operation}
use prometheus_knowledge_rs.Worker.Accepted.{
  IsClean, normalize_operation-state, NotStalled, reconcile_memory-IsClean, encoded,
}

module _ {C : Type 0} (host : Host C) where
  open host use {platform, environment, encode, decode, error_text}

  operation_at-state :
      (p : Location) (fs : List (Location × C)) {operation : MemoryOperation}
      → IsClean host fs
      → directory_number p.directory ≡ 8
      → operation_at host p fs ≡ ok operation
      → str_eq operation.state "stalled" ≡ false
  operation_at-state p fs h here e =
      let (c, stored, found, readable, normal) = operation_at_inv host p fs e in
      normalize_operation-state host stored normal (h.each_file p c found here stored readable)

  rewritten :
      (p : Location) (operation : MemoryOperation)
      → (directory_number p.directory ≡ 8 → str_eq operation.state "stalled" ≡ false)
      → (error : String) → NotStalled host p (encode (record operation { last_error = some error }))
  rewritten p operation fine error here =
      encoded host p (record operation { last_error = some error }) (fine here) here

  record_memory_error-IsClean :
      (original : Location) (error : String)
      → Keeps (IsClean host) (record_memory_error host original error)
  unfolding record_memory_error
  record_memory_error-IsClean original error = Keeps-bind _ _ (Keeps-gets _) λ located.
      Keeps-bind _ _ (Keeps-lift located) λ path.
        Keeps-read_operation host path _ λ d operation e h.
          (Keeps-atomic_json path (encode (record operation { last_error = some error })) (
              rewritten path operation (λ here. operation_at-state path d.files h here e)
                error)).keeps
            d h

  settle-IsClean :
      (path : Location) (pass : Pass) (r : Result ReceiptOutcome)
      → Keeps (IsClean host) (settle host path pass r)
  unfolding settle
  settle-IsClean path pass (ok outcome) = Keeps-pure _
  settle-IsClean path pass (err e) =
      Keeps-bind _ _ (record_memory_error-IsClean path (error_text e)) (λ u. Keeps-pure _)

  attempt-IsClean :
      (path : Location) (visit : Visit) (pass : Pass)
      → Keeps (IsClean host) (attempt host path visit pass)
  unfolding attempt
  attempt-IsClean path visit pass = record {
    keeps = λ d h.
        (settle-IsClean path pass
            (reconcile_memory host visit.server path visit.now visit.millis d).0).keeps
          _ ((reconcile_memory-IsClean host visit.server path visit.now visit.millis).keeps d h);
  }

  visit_file-IsClean :
      (directory : Directory) (name : String) (visit : Visit) (pass : Pass)
      → Keeps (IsClean host) (visit_file host directory name visit pass)
  unfolding visit_file
  visit_file-IsClean directory name visit pass = search (keeps_rules, attempt-IsClean) depth 10

  visit_names-IsClean :
      (directory : Directory) (visits : String → Visit) (names : List String) (pass : Pass)
      → Keeps (IsClean host) (visit_names host directory visits names pass)
  unfolding visit_names
  visit_names-IsClean directory visits [] pass = Keeps-pure pass
  visit_names-IsClean directory visits (name ∷ names) pass =
      Keeps-bind _ _ (visit_file-IsClean directory name (visits name) pass) λ after.
        Keeps-if _ _ _ (Keeps-pure after) (visit_names-IsClean directory visits names after)

  visit_directories-IsClean :
      (visits : String → Visit) (directories : List Directory) (pass : Pass)
      → Keeps (IsClean host) (visit_directories host visits directories pass)
  unfolding visit_directories
  visit_directories-IsClean visits [] pass = Keeps-pure pass
  visit_directories-IsClean visits (directory ∷ rest) pass = Keeps-bind _ _ (Keeps-gets _) λ names.
      Keeps-bind _ _ (visit_names-IsClean directory visits names pass)
        λ after. Keeps-if _ _ _ (Keeps-pure after) (visit_directories-IsClean visits rest after)

  pub reconcile_all-IsClean :
      (visits : String → Visit) (summary : RunSummary)
      → Keeps (IsClean host) (reconcile_all host visits summary)
  unfolding reconcile_all
  reconcile_all-IsClean visits summary = visit_directories-IsClean visits _ (fresh_pass summary)
