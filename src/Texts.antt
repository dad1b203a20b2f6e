-- ===== src/Texts.antt =====
-- Rust's `str` methods that the sources call on texts they walk, on lists of code points.
pub mod Ordered
pub mod Whole
use prometheus_knowledge_rs.Prelude.{
  ℕ, zero, suc, ◌-◌, Bool, true, false, ◌||◌, ◌&&◌, Option, none, some, List, [], ◌∷◌, ◌++◌, ◌==◌,
  if◌then◌else◌, length, take, any, is_empty, Chars, is_whitespace, trim_start_matches, chars_eq,
  chars_start_with, ◌+◌, ltb,
}

-- `truncate`, pk-learning-worker/src/transcript.rs.
unfoldable pub truncate : ℕ → Chars → Chars
truncate limit text = take limit text

-- `split(pattern)`, from within a match on.
abbrev pub split_from : Chars → ℕ → Chars → Chars → List Chars
split_from pattern skip part [] = part ∷ []
split_from pattern (suc skip) part (c ∷ s) = split_from pattern skip part s
split_from pattern zero part (c ∷ s) = elim (chars_start_with (c ∷ s) pattern) [
  | true ↦ part ∷ split_from pattern (length pattern - 1) [] s
  | false ↦ split_from pattern 0 (part ++ (c ∷ [])) s
]

unfoldable pub split : Chars → Chars → List Chars
split pattern text = split_from pattern 0 [] text

abbrev pub after_from : ℕ → Chars → Chars → Chars
after_from mark part [] = part
after_from mark part (c ∷ s) = after_from mark (if c == mark then [] else part ++ (c ∷ [])) s

-- `rsplit(mark).next()`
unfoldable pub after_last : ℕ → Chars → Chars
after_last mark text = after_from mark [] text

abbrev pub word_of : Chars → Chars
word_of [] = []
word_of (c ∷ s) = let rest = word_of s in if is_whitespace c then [] else c ∷ rest

abbrev pub word_or_none : Chars → Option Chars
word_or_none [] = none
word_or_none (c ∷ s) = some (word_of (c ∷ s))

-- `split_whitespace().next()`
unfoldable pub first_word : Chars → Option Chars
unfolding trim_start_matches is_whitespace
first_word text = word_or_none (trim_start_matches is_whitespace text)

-- `contains(pattern)`
unfoldable pub contains : Chars → Chars → Bool
contains pattern [] = is_empty pattern
contains pattern (c ∷ s) = chars_start_with (c ∷ s) pattern || contains pattern s

unfoldable pub ends_with : Chars → Chars → Bool
ends_with pattern [] = is_empty pattern
ends_with pattern (c ∷ s) = chars_eq (c ∷ s) pattern || ends_with pattern s

abbrev pub is_one_of : Chars → List Chars → Bool
is_one_of text texts = any (chars_eq text) texts

abbrev pub push_word : Chars → List Chars → List Chars
push_word [] words = words
push_word (c ∷ s) words = (c ∷ s) ∷ words

abbrev pub words_from : (ℕ → Bool) → Chars → Chars → List Chars
words_from p part [] = push_word part []
words_from p part (c ∷ s) =
    let next = words_from p [] s in
    let same = words_from p (part ++ (c ∷ [])) s in if p c then push_word part next else same

-- `split(p)` without the empty parts, and `split_whitespace()`.
unfoldable pub split_words : (ℕ → Bool) → Chars → List Chars
split_words p text = words_from p [] text

abbrev pub count_from : Chars → ℕ → Chars → ℕ
count_from pattern skip [] = 0
count_from pattern (suc skip) (c ∷ s) = count_from pattern skip s
count_from pattern zero (c ∷ s) = elim (chars_start_with (c ∷ s) pattern) [
  | true ↦ suc (count_from pattern (length pattern - 1) s)
  | false ↦ count_from pattern 0 s
]

-- `matches(pattern).count()`, for a pattern that is not empty.
unfoldable pub count_matches : Chars → Chars → ℕ
count_matches pattern text = count_from pattern 0 text

-- The bytes of a text in UTF-8.
unfoldable pub len_utf8 : ℕ → ℕ
len_utf8 c = if ltb c 0x80 then 1 else if ltb c 0x800 then 2 else if ltb c 0x10000 then 3 else 4

unfoldable pub byte_length : Chars → ℕ
byte_length [] = 0
byte_length (c ∷ s) = len_utf8 c + byte_length s

-- `join(separator)`
unfoldable pub join : Chars → List Chars → Chars
join separator [] = []
join separator (t ∷ []) = t
join separator (t ∷ u ∷ ts) = t ++ (separator ++ join separator (u ∷ ts))

-- `strip_prefix(prefix)`
abbrev pub strip_prefix : Chars → Chars → Option Chars
strip_prefix [] s = some s
strip_prefix (p ∷ ps) [] = none
strip_prefix (p ∷ ps) (c ∷ s) = let rest = strip_prefix ps s in if p == c then rest else none

-- `lines`: a carriage return goes with the newline behind it.
abbrev pub begin_line : ℕ → List Chars → List Chars
begin_line c [] = (c ∷ []) ∷ []
begin_line c (l ∷ ls) = (c ∷ l) ∷ ls

unfoldable pub lines : Chars → List Chars
lines [] = []
lines (c ∷ s) =
    let rest = lines s in
    if c == 10
    then [] ∷ rest
    else if c == 13 && chars_start_with s (10 ∷ [])
    then rest
    else begin_line c rest
