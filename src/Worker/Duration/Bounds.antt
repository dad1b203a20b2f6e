-- ===== src/Worker/Duration/Bounds.antt =====
-- The bounds of a duration.
use prometheus_knowledge_rs.Prelude.{
  ℕ, zero, suc, ◌*◌, ◌^◌, ◌≤◌, ◌<◌, ◌≡◌, refl, Option, none, some, [], ◌∷◌, arith, Chars, trim,
}
use prometheus_knowledge_rs.Worker.Duration.{
  seconds, numbered, parse_u64, split_digits, unit_seconds, parse_duration, in_units,
}

unit_seconds_pos : (u : Chars) (unit : ℕ) → unit_seconds u ≡ some unit → 1 ≤ unit
unfolding unit_seconds
unit_seconds_pos [] unit e = cc
unit_seconds_pos (u ∷ []) unit e = ground arith
unit_seconds_pos (u ∷ d ∷ s) unit e = cc

mul_pos : (a b : ℕ) → 1 ≤ a → 1 ≤ b → 1 ≤ a * b
mul_pos zero b p q = omega arith
mul_pos (suc a) zero p q = omega arith
mul_pos (suc a) (suc b) p q = omega arith

in_units_bounds :
    (unit : Option ℕ) (value s : ℕ)
    → ((n : ℕ) → unit ≡ some n → 1 ≤ n)
    → in_units unit value ≡ seconds s
    → (1 ≤ s) × (s < 2 ^ 64)
in_units_bounds none value s h e = cc
in_units_bounds (some unit) value s h e = ground (arith, mul_pos value unit, h unit refl)

numbered_bounds :
    (value : Option ℕ) (u : Chars) (s : ℕ)
    → numbered value (unit_seconds u) ≡ seconds s
    → (1 ≤ s) × (s < 2 ^ 64)
numbered_bounds none u s e = cc
numbered_bounds (some value) u s e = in_units_bounds (unit_seconds u) value s (unit_seconds_pos u) e

-- A duration that is accepted is at least one second, and fits in 64 bits.
pub parse_duration_bounds :
    (raw : Chars) (s : ℕ) → parse_duration raw ≡ seconds s → (1 ≤ s) × (s < 2 ^ 64)
unfolding parse_duration
parse_duration_bounds raw s e =
    numbered_bounds (parse_u64 (split_digits (trim raw)).0) (split_digits (trim raw)).1 s e
