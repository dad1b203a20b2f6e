-- ===== src/Writes.antt =====
-- How `atomic_json` and `durable_rename` of the candidates' directories end, pk-cli/src/candidates.rs and
-- pk-learning-worker/src.

-- It works, it fails, or it takes effect and fails afterwards, where a directory cannot be flushed.
pub data Ending : Type 0 where
  lands lost unflushed : Ending
