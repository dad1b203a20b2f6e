-- ===== src/Worker/Jobs/Enqueue.antt =====
-- Queueing the memory of a job: the keys, the files, and queueing again.
use prometheus_knowledge_rs.Worker.Disk.Steps.{sound, gets_ok, if_true, if_false, atomic_json-works}
use prometheus_knowledge_rs.Worker.Disk.{
  memory_pending, memory_completed, Location, at, lookup, put, Disk, pure, atomic_json,
}
use prometheus_knowledge_rs.Prelude.{
  ℕ, ◌≡◌, refl, ◌∙◌, inl, inr, Bool, true, false, ◌||◌, Option, none, some, List, arith, String,
  Bool-cases, is_some, is_empty_string, unwrap_or,
}
use prometheus_knowledge_rs.Worker.Disk.Keeps.{perform_keeps, gets_then, if_then}
use prometheus_knowledge_rs.Worker.Operation.{LearningScope, project, shared, LearningJob, ok}
use prometheus_knowledge_rs.Worker.Jobs.{
  agent_of, identity_in, memory_identity, queued_operation, enqueue_memory,
}
use Prim.Native.String.append as append_lem
use Prim.Native.String.{◌++◌ as append}
use prometheus_knowledge_rs.Worker.Payload.{trimmed}
use prometheus_knowledge_rs.Worker.Queue.{Host}
use prometheus_knowledge_rs.Worker.Disk.Laws.{same_location_iff, lookup-put, lookup-put_self}

module _ {C : Type 0} (host : Host C) (project_scope : String → String) where
  kept :
      (new p : Location) (c content : C) (fs : List (Location × C)) (other : Bool)
      → (is_some (lookup new fs) || other) ≡ false
      → lookup p fs ≡ some c
      → lookup p (put new content fs) ≡ some c
  kept new p c content fs q e = ground (arith, lookup-put new p content fs, same_location_iff new p)

  -- Whatever faults, every file that stood before stands unchanged after.
  pub enqueue_memory-keeps :
      (job : LearningJob) (packet : String) (now : ℕ) (d : Disk C) (p : Location) (c : C)
      → lookup p d.files ≡ some c
      → lookup p (enqueue_memory host project_scope job packet now d).1.files ≡ some c
  unfolding enqueue_memory pure atomic_json
  enqueue_memory-keeps job packet now d p c e =
      let filename = append job.event_id ".json" in
      let P = λ (fs : List (Location × C)). lookup p fs ≡ some c in
      gets_then P _ _ d (
        if_then P
          (is_some (lookup (at memory_pending filename) d.files)
            || is_some (lookup (at memory_completed filename) d.files))
          (pure tt) _ d (λ q. e)
          λ q.
            perform_keeps P (put (at memory_pending filename) _) d e
              (kept (at memory_pending filename) p c _ d.files _ q e))

  abbrev pub is_queued : LearningJob → List (Location × C) → Bool
  is_queued job fs =
      is_some (lookup (at memory_pending (append job.event_id ".json")) fs)
      || is_some (lookup (at memory_completed (append job.event_id ".json")) fs)

  enqueue_memory-known :
      (job : LearningJob) (packet : String) (now : ℕ) (d : Disk C)
      → is_queued job d.files ≡ true
      → enqueue_memory host project_scope job packet now d ≡ (ok tt, d)
  unfolding enqueue_memory pure
  enqueue_memory-known job packet now d old =
      gets_ok (is_queued job) _ d ∙ if_true (is_queued job d.files) _ _ d old

  enqueue_memory-new :
      (job : LearningJob) (packet : String) (now : ℕ) (fs : List (Location × C))
      → is_queued job fs ≡ false
      → enqueue_memory host project_scope job packet now (sound fs) ≡ (
        ok tt,
        sound (
            put
              (at memory_pending (append job.event_id ".json"))
              (host.encode (queued_operation host project_scope job packet now))
              fs),
      )
  unfolding enqueue_memory
  enqueue_memory-new job packet now fs new =
      gets_ok (is_queued job) _ (sound fs)
      ∙ if_false (is_queued job fs) _ _ (sound fs) new
      ∙ atomic_json-works _ _ fs

  now_queued :
      (job : LearningJob) (c : C) (fs : List (Location × C))
      → is_queued job (put (at memory_pending (append job.event_id ".json")) c fs) ≡ true
  now_queued job c fs = rw lookup-put_self refl

  -- Without faults the job's record is queued afterwards, and queueing the job again, with any packet
  -- at any time, returns and leaves the disk as it is.
  pub enqueue_memory_idem :
      (job : LearningJob) (packet other : String) (now later : ℕ) (fs : List (Location × C))
      → let (r, first) = enqueue_memory host project_scope job packet now (sound fs) in
        (r ≡ ok tt)
        × (is_queued job first.files ≡ true)
        × (enqueue_memory host project_scope job other later first ≡ (ok tt, first))
  enqueue_memory_idem job packet other now later fs = elim (Bool-cases (is_queued job fs)) [
    | inl old ↦
        let run = enqueue_memory-known job packet now (sound fs) old in
        rw run (refl, old, enqueue_memory-known job other later (sound fs) old)
    | inr new ↦
        let run = enqueue_memory-new job packet now fs new in
        let queued = now_queued job _ fs in
        rw run (refl, queued, enqueue_memory-known job other later _ queued)
  ]

trimmed-present : (o : Option String) (s : String) → trimmed o ≡ some s → is_empty_string s ≡ false
trimmed-present none s e = cc
trimmed-present (some t) s e = ground arith

append-present : (s t : String) → is_empty_string s ≡ false → is_empty_string (append s t) ≡ false
append-present String.[] t e = cc
append-present (String.◌∷◌ c s) t e = rw (append_lem.cons c s t) refl

agent_of-present :
    (team role : Option String)
    → ((s : String) → team ≡ some s → is_empty_string s ≡ false)
    → is_empty_string (agent_of team role) ≡ false
agent_of-present none role present = refl
agent_of-present (some team) none present = refl
agent_of-present (some team) (some role) present = append-present team _ (present team refl)

unwrap-present :
    (o : Option String) (s : String)
    → ((t : String) → o ≡ some t → is_empty_string t ≡ false)
    → is_empty_string s ≡ false
    → is_empty_string (unwrap_or s o) ≡ false
unwrap-present none s present h = h
unwrap-present (some t) s present h = present t refl

identity_in-present :
    (project_scope : String → String) (job : LearningJob)
    → is_empty_string (project_scope job.project_root) ≡ false
    → (scope : LearningScope)
    → (is_empty_string (identity_in project_scope scope job).0 ≡ false)
      × (is_empty_string (identity_in project_scope scope job).1 ≡ false)
identity_in-present project_scope job h shared = (refl, refl)
identity_in-present project_scope job h project = (
  unwrap-present (trimmed job.project_id) _ (trimmed-present job.project_id) h,
  agent_of-present (trimmed job.team_id) (trimmed job.role_id) (trimmed-present job.team_id),
)

-- If the project's scope is not empty, neither key under which a job's memory is stored is.
pub memory_identity-present :
    (project_scope : String → String) (job : LearningJob)
    → is_empty_string (project_scope job.project_root) ≡ false
    → (is_empty_string (memory_identity project_scope job).0 ≡ false)
      × (is_empty_string (memory_identity project_scope job).1 ≡ false)
unfolding memory_identity
memory_identity-present project_scope job h = identity_in-present project_scope job h job.scope
