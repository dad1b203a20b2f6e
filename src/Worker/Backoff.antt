-- ===== src/Worker/Backoff.antt =====
-- Polling an accepted operation whose receipt did not change: `poll_backoff` and its constants,
-- pk-learning-worker/src/main.rs.
pub mod Schedule
use Prim.Native.Nat.{min}
use prometheus_knowledge_rs.Prelude.{ℕ, ◌+◌, ◌-◌, ◌*◌, ◌^◌}

abbrev pub poll_backoff_base_seconds : ℕ
poll_backoff_base_seconds = 60

abbrev pub poll_backoff_cap_seconds : ℕ
poll_backoff_cap_seconds = 3600

abbrev pub max_u32 : ℕ
max_u32 = 2 ^ 32 - 1

abbrev pub max_u64 : ℕ
max_u64 = 2 ^ 64 - 1

-- `u32::saturating_add` and `u64::saturating_mul`. `-` on ℕ stops at 0, as `saturating_sub` does.
abbrev pub saturating_add_u32 : ℕ → ℕ → ℕ
saturating_add_u32 a b = min (a + b) max_u32

abbrev pub saturating_mul_u64 : ℕ → ℕ → ℕ
saturating_mul_u64 a b = min (a * b) max_u64

unfoldable pub poll_backoff : ℕ → ℕ
poll_backoff unchanged_polls =
    let doublings = min (unchanged_polls - 1) 16 in
    min (saturating_mul_u64 poll_backoff_base_seconds (2 ^ doublings)) poll_backoff_cap_seconds
