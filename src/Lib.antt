-- ===== src/Lib.antt =====
-- Prometheus Knowledge: the learning worker's queue, the ids and the store of the wiki, the librarian's
-- events, the promotion detector, skill discovery, the prompt snapshot and the review of candidates.
--
-- The worker (pk-learning-worker/src/main.rs) keeps its state in files: a directory for each state of a
-- job or of a memory operation. Hooks put jobs into `pending`; `run_once` turns each into a record in
-- `memory/pending`, and a pass over `memory/submitting`, `memory/accepted` and `memory/pending` exchanges
-- each record with the memory server and moves it to the directory of its new state. `quarantine` and
-- `release` take records out of that loop and back. After the jobs, a run hands their lessons to the
-- promotion detector, and the digests of their transcripts to skill discovery; both propose candidates
-- for a person to decide with `pk candidates`. An accepted promotion becomes an entry of the shared store
-- and a memory operation in the worker's queue. A store's entries are published as a prompt snapshot,
-- from which `pk context` selects what a prompt is given. The wiki's store holds the
-- articles that the worker's lessons and the librarian's compiles become; the librarian's events are
-- kept in a database or, where there is none, in a log.
--
-- The files, with what they model:
--   Prelude        shared names, lists, texts and maps over the native numbers.
--   Worker         pk-learning-worker/src/main.rs:
--     Operation    LearningJob, MemoryOperation, OperationReceipt, serde_json's Value, and the errors.
--     Payload      normalize_operation, normalize_payload, scope_key, fallback_project_id.
--     Backoff      poll_backoff.
--     Receipt      observe_receipt.
--     Staleness    stale_since, is_stale, to_time_delta.
--     Health       accepted_health and the counts of print_status.
--     Duration     parse_duration.
--     Disk         json_files, atomic_json, durable_rename, preserve_duplicate_in.
--     Queue        read_operation, the four recoveries at the start of a run, reject_job,
--                  record_memory_error, locate_memory_operation.
--     Reconcile    reconcile_memory, ensure_ledger_ready, submit_operation, apply_receipt.
--     Run          the pass of run_once over the memory operations, poll_deferred.
--     Jobs         process_job, enqueue_memory, memory_identity, the job loop, run_once.
--     Quarantine   quarantine, release, write_manifest.
--     Commands     main's commands that change the queue.
--     Accepted, Survival and the other children hold invariants of these.
--   Article        from_slug, is_safe_path, is_safe_segment, is_windows_device_name of
--                  pk-core/src/types.rs.
--   Wiki           upsert, delete, get, find_by_content_hash of pk-store/src/store.rs, with the updates of
--                  pk-store/src/index.rs.
--   Events         pk-core/src/event.rs and pk-event-store/src.
--   Promotion      pk-learning-worker/src/promotion.rs.
--   Texts          methods of Rust's str on lists of code points; Texts/Ordered has BTreeMap,
--                  Texts/Whole the lines of an appended text.
--   Transcript     pk-learning-worker/src/transcript.rs.
--   Skills         pk-learning-worker/src/skill_candidates.rs: Records the index, Groups the corrected
--                  skills, Shelf the candidates' directories, Log the log of updates.
--   Snapshot       pk-store/src/prompt_snapshot.rs.
--   Markdown       pk-store/src/markdown.rs.
--   Bundle         pk-store/src/bundle.rs: the links of a page, index.md and log.md; Lint its checks,
--                  Placed a reference for where a line of the log goes.
--   Context        run_context and what it calls, pk-cli/src/main.rs: Select the choice of candidates,
--                  Output the rendering, Utf8 the cut at a number of bytes.
--   Review         pk-cli/src/candidates.rs: Accept, Shared (upsert_shared) and Queue (queue_memory).
--   Civil          rfc3339_now, pk-cli/src/candidates.rs; Calendar has the Gregorian calendar.
--   Writes         the ways in which atomic_json and durable_rename end.
--   Examples       tests of the parameters and of the theorems at concrete inputs.
--
-- How state and failures are modelled. A directory and a name are a path; the queue is a list of paths
-- with contents, and every operation of the worker takes a disk and gives a result and a disk. A disk
-- also holds a list of faults, which says of each coming call that changes files whether it works, fails
-- and changes nothing, or changes the files and fails, as a rename does whose directory cannot be
-- flushed. A crash is a list that goes on with failures. The clock, the server's answers, the JSON texts
-- and the hashes are parameters, with the laws that the code relies on: what was written is read back.
-- Times are nanoseconds in ℕ. The u32 of unchanged polls and the u64 of a wait saturate as in the source,
-- a revision wraps at 2^32, and a duration is refused from 2^64 seconds on. A wait is computed without
-- fuel. The only fuel is that of the merge in `jaccard`: each turn drops an element of one of the two
-- lists, and their lengths together are given, which is enough. The transcript's parser, the cut of a
-- text and the selection are structural. A write of a candidate, in review or by a proposal, or of a
-- snapshot may work, fail, or take effect and fail afterwards; a snapshot's generation may also be left
-- torn, and an append to the events' log may be cut off after any character.
--
-- Not modelled: what a job writes outside the queue (one parameter, which succeeds with the session
-- packet or fails), the lock file (a Boolean says whether it can be taken), file modes, the temporary
-- files of an atomic write, the printing, the text rules of the promotion detector (parameters), the
-- f64 arithmetic of a blended similarity (a parameter), duplicates, the librarian, the rest of the
-- command line and the servers. `run_once` hands the same clock reading to all its jobs; each file of the
-- pass has its own.
mod Prelude
pub mod Worker
pub mod Article
pub mod Wiki
pub mod Events
pub mod Promotion
pub mod Texts
pub mod Transcript
pub mod Skills
pub mod Snapshot
pub mod Context
pub mod Review
pub mod Writes
pub mod Civil
pub mod Markdown
pub mod Bundle
pub mod Examples
