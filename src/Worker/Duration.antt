-- ===== src/Worker/Duration.antt =====
-- Durations on the command line: `parse_duration`, pk-learning-worker/src/main.rs.
pub mod Bounds
use prometheus_knowledge_rs.Prelude.{
  ℕ, ◌+◌, ◌-◌, ◌*◌, ◌^◌, Option, none, some, [], ◌∷◌, ltb, ◌==◌, if◌then◌else◌, Chars,
  is_ascii_digit, trim,
}

pub data DurationError : Type 0 where
  invalid_duration zero_duration duration_too_large : DurationError

pub data Parsed : Type 0 where
  seconds : ℕ → Parsed
  refused : DurationError → Parsed

-- A text up to its first character that is no ASCII digit, and the rest.
unfoldable pub split_digits : Chars → Chars × Chars
split_digits [] = ([], [])
split_digits (c ∷ s) =
    let rest = split_digits s in if is_ascii_digit c then (c ∷ rest.0, rest.1) else ([], c ∷ s)

-- The number that a text of digits writes.
unfoldable pub decimal : ℕ → Chars → ℕ
decimal sum [] = sum
decimal sum (c ∷ s) = decimal (10 * sum + (c - 48)) s

-- `str::parse::<u64>` of a text of digits: an empty one, and one too large, are refused.
unfoldable pub parse_u64 : Chars → Option ℕ
unfolding decimal
parse_u64 [] = none
parse_u64 (c ∷ s) = let n = decimal 0 (c ∷ s) in if ltb n (2 ^ 64) then some n else none

unfoldable pub unit_seconds : Chars → Option ℕ
unit_seconds [] = none
unit_seconds (u ∷ d ∷ s) = none
unit_seconds (u ∷ []) =
    if u == b's'
    then some 1
    else if u == b'm'
    then some 60
    else if u == b'h'
    then some 3600
    else if u == b'd'
    then some 86400
    else none

-- `checked_mul` on u64.
abbrev pub checked_mul : ℕ → ℕ → Parsed
checked_mul value unit =
    if ltb (value * unit) (2 ^ 64) then seconds (value * unit) else refused duration_too_large

abbrev in_units : Option ℕ → ℕ → Parsed
in_units none value = refused invalid_duration
in_units (some unit) value = if value == 0 then refused zero_duration else checked_mul value unit

abbrev numbered : Option ℕ → Option ℕ → Parsed
numbered none unit = refused invalid_duration
numbered (some value) unit = in_units unit value

unfoldable pub parse_duration : Chars → Parsed
unfolding split_digits parse_u64 unit_seconds trim
parse_duration raw =
    let (digits, unit) = split_digits (trim raw) in numbered (parse_u64 digits) (unit_seconds unit)
