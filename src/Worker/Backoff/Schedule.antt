-- ===== src/Worker/Backoff/Schedule.antt =====
-- The waits between two polls of an operation.
use Prim.Native.Nat.{min}
use native.Mathlib.Nat.{pow-suc}
use native.Mathlib.Numerals.{towards_suc}
use prometheus_knowledge_rs.Prelude.{ℕ, zero, suc, ◌+◌, ◌-◌, ◌*◌, ◌^◌, ◌≤◌, ◌≡◌, refl, arith}
use prometheus_knowledge_rs.Worker.Backoff.{poll_backoff}

pow_pos : (n : ℕ) → 1 ≤ 2 ^ n
pow_pos zero = omega arith
pow_pos (suc n) = rw pow-suc (omega (arith, pow_pos n))

pow_cap : (m : ℕ) → 6 ≤ m → 64 ≤ 2 ^ m
pow_cap m h =
    let e : m ≡ (m - 6) + 6 = omega arith in
    let p : 2 ^ ((m - 6) + 6) ≡ 64 * 2 ^ (m - 6) = simp towards_suc (omega arith) in
    rw (e, p) (omega (arith, pow_pos (m - 6)))

poll_backoff_late : (n : ℕ) → 6 ≤ n → poll_backoff (n + 1) ≡ min (60 * 2 ^ n) 3600
unfolding poll_backoff
poll_backoff_late n h = omega (arith, pow_cap n h, pow_cap (min (n + 1 - 1) 16) (omega arith))

-- The wait after n + 1 unchanged polls is 60 * 2^n seconds, and an hour where that is longer.
pub poll_backoff-eq : (n : ℕ) → poll_backoff (n + 1) ≡ min (60 * 2 ^ n) 3600
unfolding poll_backoff
poll_backoff-eq zero = refl
poll_backoff-eq (suc zero) = refl
poll_backoff-eq (suc (suc zero)) = refl
poll_backoff-eq (suc (suc (suc zero))) = refl
poll_backoff-eq (suc (suc (suc (suc zero)))) = refl
poll_backoff-eq (suc (suc (suc (suc (suc zero))))) = refl
poll_backoff-eq (suc (suc (suc (suc (suc (suc n)))))) =
    poll_backoff_late (suc (suc (suc (suc (suc (suc n)))))) (omega arith)

-- A wait is at least a minute and at most an hour, and never shrinks as unchanged polls add up.
pub poll_backoff_bounds : (n : ℕ) → (60 ≤ poll_backoff n) × (poll_backoff n ≤ 3600)
unfolding poll_backoff
poll_backoff_bounds n = omega (arith, pow_pos (min (n - 1) 16))
