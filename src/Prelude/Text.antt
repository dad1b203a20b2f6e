-- ===== src/Prelude/Text.antt =====
-- Rust's `str`: the standard library's predicates and methods that the sources call. Texts that the
-- sources walk are lists of code points, texts that are compared as a whole are native `String`s.
use Prim.Native.Char.{code}
use Prim.Native.String.{String, compare}
use Prim.Native.Nat.{ℕ, zero, suc, Ordering}
use mathlib.Core.Bool.{Bool, true, false, ◌&&◌, ◌||◌}
use mathlib.Core.List.{List, [], ◌∷◌}
use prometheus_knowledge_rs.Prelude.Tests.{leb, ◌==◌, if◌then◌else◌}

-- The characters of a text, as code points.
abbrev pub Chars : Type 0
Chars = List ℕ

abbrev pub codes : String → Chars
codes String.[] = []
codes (String.◌∷◌ c s) = code c ∷ codes s

-- `char::is_whitespace`: the code points with the property White_Space.
unfoldable pub is_whitespace : ℕ → Bool
is_whitespace c =
    (leb 9 c && leb c 13)
    || c == 32
    || c == 0x85
    || c == 0xa0
    || c == 0x1680
    || (leb 0x2000 c && leb c 0x200a)
    || c == 0x2028
    || c == 0x2029
    || c == 0x202f
    || c == 0x205f
    || c == 0x3000

abbrev pub is_ascii_digit : ℕ → Bool
is_ascii_digit c = leb b'0' c && leb c b'9'

-- `trim_start_matches(p)` and `trim_end_matches(p)`.
unfoldable pub trim_start_matches : (ℕ → Bool) → Chars → Chars
trim_start_matches p [] = []
trim_start_matches p (c ∷ s) =
    let rest = trim_start_matches p s in elim (p c) [ true ↦ rest | false ↦ c ∷ s ]

unfoldable pub trim_end_matches : (ℕ → Bool) → Chars → Chars
trim_end_matches p [] = []
trim_end_matches p (c ∷ s) =
    let rest = trim_end_matches p s in
    elim rest [ [] ↦ if p c then [] else c ∷ [] | d ∷ r ↦ c ∷ d ∷ r ]

-- `trim`
unfoldable pub trim : Chars → Chars
unfolding trim_start_matches trim_end_matches is_whitespace
trim s = trim_end_matches is_whitespace (trim_start_matches is_whitespace s)

unfoldable pub trim_start_string : String → String
trim_start_string String.[] = String.[]
trim_start_string (String.◌∷◌ c s) =
    let rest = trim_start_string s in
    elim (is_whitespace (code c)) [ true ↦ rest | false ↦ String.◌∷◌ c s ]

unfoldable pub trim_end_string : String → String
trim_end_string String.[] = String.[]
trim_end_string (String.◌∷◌ c s) =
    let rest = trim_end_string s in
    elim rest [
      | String.[] ↦ if is_whitespace (code c) then String.[] else String.◌∷◌ c String.[]
      | String.◌∷◌ d r ↦ String.◌∷◌ c (String.◌∷◌ d r)
    ]

-- `trim` of a text that is kept whole.
unfoldable pub trim_string : String → String
unfolding trim_start_string trim_end_string is_whitespace
trim_string s = trim_end_string (trim_start_string s)

-- `is_empty`
abbrev pub is_empty_string : String → Bool
is_empty_string String.[] = true
is_empty_string (String.◌∷◌ c s) = false

-- Equality of two texts given by their characters.
abbrev pub chars_eq : Chars → Chars → Bool
chars_eq [] [] = true
chars_eq [] (d ∷ t) = false
chars_eq (c ∷ s) [] = false
chars_eq (c ∷ s) (d ∷ t) = c == d && chars_eq s t

-- `starts_with(prefix)` and `ends_with(suffix)`.
abbrev pub chars_start_with : Chars → Chars → Bool
chars_start_with s [] = true
chars_start_with [] (d ∷ t) = false
chars_start_with (c ∷ s) (d ∷ t) = c == d && chars_start_with s t

-- A text is at or before another in the order of `str`.
abbrev pub str_leb : String → String → Bool
str_leb s t = elim (compare s t) [ Ordering.gt ↦ false | _ ↦ true ]

-- `chars().take(limit)`
unfoldable pub take_chars : ℕ → String → String
take_chars zero s = String.[]
take_chars (suc n) String.[] = String.[]
take_chars (suc n) (String.◌∷◌ c s) = String.◌∷◌ c (take_chars n s)
