-- ===== src/Article.antt =====
-- Article ids: `ArticleId::from_slug`, `ArticleId::is_safe_path`, `is_windows_device_name` and
-- `is_safe_segment`, pk-core/src/types.rs.
--
-- Unicode's tables are a parameter: the lower case of a text, and which characters are letters or
-- digits, with what holds of the ASCII ones.
pub mod Segments
pub mod Slug
pub mod Inside
use prometheus_knowledge_rs.Prelude.{
  ℕ, ◌+◌, ◌≡◌, Bool, true, false, not, ◌&&◌, ◌||◌, List, [], ◌∷◌, ◌++◌, map, ltb, leb, ◌==◌,
  if◌then◌else◌, keep, any, all, is_empty, Chars, codes, is_ascii_digit, chars_start_with,
}

pub record Unicode : Type 0 where
  pub to_lowercase : Chars → Chars
  pub is_alphanumeric : ℕ → Bool
  pub is_alphanumeric_ascii :
      (c : ℕ)
      → ltb c 128 ≡ true
      → is_alphanumeric c
        ≡ (is_ascii_digit c || (leb b'A' c && leb c b'Z') || (leb b'a' c && leb c b'z'))

-- `split(separator)`: one part more than there are separators.
abbrev put_first : ℕ → List Chars → List Chars
put_first c [] = (c ∷ []) ∷ []
put_first c (part ∷ parts) = (c ∷ part) ∷ parts

unfoldable pub split : ℕ → Chars → List Chars
split separator [] = [] ∷ []
split separator (c ∷ s) =
    let rest = split separator s in if c == separator then [] ∷ rest else put_first c rest

-- `join("-")`
unfoldable pub join_dash : List Chars → Chars
join_dash [] = []
join_dash (part ∷ []) = part
join_dash (part ∷ next ∷ parts) = part ++ (b'-' ∷ join_dash (next ∷ parts))

abbrev pub to_ascii_lower : ℕ → ℕ
to_ascii_lower c = if leb b'A' c && leb c b'Z' then c + 32 else c

-- `eq_ignore_ascii_case`
abbrev pub same_ignoring_case : Chars → Chars → Bool
same_ignoring_case [] [] = true
same_ignoring_case [] (d ∷ t) = false
same_ignoring_case (c ∷ s) [] = false
same_ignoring_case (c ∷ s) (d ∷ t) = to_ascii_lower c == to_ascii_lower d && same_ignoring_case s t

unfoldable pub device_names : List Chars
device_names = map codes (
    "con" ∷ "prn" ∷ "aux" ∷ "nul" ∷ "com1" ∷ "com2" ∷ "com3" ∷ "com4" ∷ "com5" ∷ "com6" ∷ "com7"
    ∷ "com8" ∷ "com9" ∷ "lpt1" ∷ "lpt2" ∷ "lpt3" ∷ "lpt4" ∷ "lpt5" ∷ "lpt6" ∷ "lpt7" ∷ "lpt8"
    ∷ "lpt9" ∷ [])

-- `split('.').next()`
abbrev pub first_part : List Chars → Chars
first_part [] = []
first_part (part ∷ parts) = part

unfoldable pub is_windows_device_name : Chars → Bool
is_windows_device_name segment =
    any (same_ignoring_case (first_part (split b'.' segment))) device_names

-- `ends_with(['.', ' '])`
unfoldable pub ends_in_dot_or_space : Chars → Bool
ends_in_dot_or_space [] = false
ends_in_dot_or_space (c ∷ []) = c == b'.' || c == b' '
ends_in_dot_or_space (c ∷ d ∷ s) = ends_in_dot_or_space (d ∷ s)

unfoldable pub is_safe_segment : Chars → Bool
is_safe_segment segment =
    not (is_empty segment)
    && not (ends_in_dot_or_space segment)
    && not (is_windows_device_name segment)

unfoldable pub is_safe_path : Chars → Bool
is_safe_path id =
    not (chars_start_with id (b'/' ∷ []))
    && not (any (λ c. c == b'\\' || c == b':') id)
    && all is_safe_segment (split b'/' id)

module _ (unicode : Unicode) where
  open unicode use {to_lowercase, is_alphanumeric}

  abbrev pub dash_other : ℕ → ℕ
  dash_other c = if is_alphanumeric c then c else b'-'

  -- The slug before a device's name is made another.
  unfoldable pub bare_slug : Chars → Chars
  bare_slug title =
      join_dash
        (keep (λ part. not (is_empty part)) (split b'-' (map dash_other (to_lowercase title))))

  unfoldable pub from_slug : Chars → Chars
  from_slug title =
      let slug = bare_slug title in
      if is_windows_device_name slug then slug ++ (b'_' ∷ []) else slug
