-- ===== src/Bundle/Dated.antt =====
-- A log that is extended stays one whose headings are dates: pk-store/src/bundle.rs.
use prometheus_knowledge_rs.Bundle.Lint.{log_line_report, okf_log_reports}
use prometheus_knowledge_rs.Bundle.{BundleRules, finish_log}
use prometheus_knowledge_rs.Prelude.{
  ℕ, ◌≡◌, refl, inl, inr, false, [], ◌∷◌, ◌++◌, arith, ◌==◌, if◌then◌else◌, Bool-cases, any, Chars,
  is_whitespace, trim_start_matches, trim_end_matches, trim, true, sym, ◌&&◌, Option, none, List,
  All, filter_map, chars_start_with,
}
use mathlib.Core.List.{append_assoc}
use prometheus_knowledge_rs.Texts.{lines, ends_with, join, begin_line}

-- A text without a newline.
abbrev pub IsLine : Chars → Type 0
IsLine l = any (λ c. c == 10) l ≡ false

-- A line without the carriage return that it ends in.
unfoldable pub drop_cr : Chars → Chars
drop_cr [] = []
drop_cr (c ∷ []) = if c == 13 then [] else c ∷ []
drop_cr (c ∷ d ∷ s) = c ∷ drop_cr (d ∷ s)

pub lines-append : (l s : Chars) → IsLine l → lines (l ++ (10 ∷ s)) ≡ drop_cr l ∷ lines s
unfolding lines drop_cr
lines-append [] s h = refl
lines-append (c ∷ []) s h = ground arith
lines-append (c ∷ d ∷ l) s h =
    let rest = lines-append (d ∷ l) s (ground arith) in
    let other : (c == 10) ≡ false = ground arith in
    let inner : (d == 10) ≡ false = ground arith in rw (rest, other, inner) (ground arith)

pub lines_whole : (c : ℕ) (l : Chars) → IsLine (c ∷ l) → lines (c ∷ l) ≡ (c ∷ l) ∷ []
unfolding lines
lines_whole c [] h = ground arith
lines_whole c (d ∷ l) h =
    let rest = lines_whole d l (ground arith) in
    let other : (c == 10) ≡ false = ground arith in
    let inner : (d == 10) ≡ false = ground arith in rw (rest, other, inner) (ground arith)

trim_end-drop_cr :
    (s : Chars) → trim_end_matches is_whitespace (drop_cr s) ≡ trim_end_matches is_whitespace s
unfolding trim_end_matches drop_cr is_whitespace
trim_end-drop_cr [] = refl
trim_end-drop_cr (c ∷ []) = ground arith
trim_end-drop_cr (c ∷ d ∷ s) = rw (trim_end-drop_cr (d ∷ s)) refl

trim_skip : (c : ℕ) (s : Chars) → is_whitespace c ≡ true → trim (c ∷ s) ≡ trim s
unfolding trim trim_start_matches
trim_skip c s h = ground arith

pub trim_from :
    (c : ℕ) (s : Chars)
    → is_whitespace c ≡ false
    → trim (c ∷ s) ≡ trim_end_matches is_whitespace (c ∷ s)
unfolding trim trim_start_matches
trim_from c s h = ground arith

white_cr : (c : ℕ) → (c == 13) ≡ true → is_whitespace c ≡ true
unfolding is_whitespace
white_cr c h = ground arith

trim-drop_cr : (s : Chars) → trim (drop_cr s) ≡ trim s
unfolding drop_cr
trim-drop_cr [] = refl
trim-drop_cr (c ∷ []) = elim (Bool-cases (c == 13)) [
  | inl cr ↦ rw cr (sym (trim_skip c [] (white_cr c cr)))
  | inr other ↦ rw other refl
]
trim-drop_cr (c ∷ d ∷ s) = elim (Bool-cases (is_whitespace c)) [
  | inl white ↦
      rw (trim_skip c (drop_cr (d ∷ s)) white, trim_skip c (d ∷ s) white) (trim-drop_cr (d ∷ s))
  | inr ink ↦
      rw (trim_from c (drop_cr (d ∷ s)) ink, trim_from c (d ∷ s) ink) (trim_end-drop_cr (c ∷ d ∷ s))
]

begin_line-IsLine :
    (c : ℕ) (s : Chars) (rest : List Chars)
    → All IsLine rest
    → All IsLine (
        if c == 10
        then [] ∷ rest
        else if c == 13 && chars_start_with s (10 ∷ [])
        then rest
        else begin_line c rest)
begin_line-IsLine c s [] h = ground arith
begin_line-IsLine c s (l ∷ ls) (line, h) = ground arith

pub lines-IsLine : (s : Chars) → All IsLine (lines s)
unfolding lines
lines-IsLine [] = tt
lines-IsLine (c ∷ s) = begin_line-IsLine c s (lines s) (lines-IsLine s)

module _ {A B : Type 0} (f : A → Option B) where
  pub filter_map-none : (xs : List A) → All (λ x. f x ≡ none) xs → filter_map f xs ≡ []
  filter_map-none [] h = refl
  filter_map-none (x ∷ xs) (e, h) = rw (e, filter_map) (filter_map-none xs h)

  pub filter_map_nil : (xs : List A) → filter_map f xs ≡ [] → All (λ x. f x ≡ none) xs
  filter_map_nil [] h = tt
  filter_map_nil (x ∷ xs) h = ground (arith, filter_map_nil xs)

module _ {Y : Type 0} (rules : BundleRules Y) where
  abbrev pub IsDated : Chars → Type 0
  IsDated l = log_line_report rules l ≡ none

  drop_cr-IsDated : (l : Chars) → IsDated l → IsDated (drop_cr l)
  unfolding log_line_report
  drop_cr-IsDated l h = rw (trim-drop_cr l) h

  abbrev pub AreDated : List Chars → Type 0
  AreDated ls = All (λ l. IsLine l × IsDated l) ls

  pub nil-IsDated : IsDated []
  unfolding log_line_report trim trim_start_matches trim_end_matches
  nil-IsDated = refl

  pub join_ended :
      (ls : List Chars) → AreDated ls → All IsDated (lines (join (10 ∷ []) ls ++ (10 ∷ [])))
  unfolding join lines
  join_ended [] h = (nil-IsDated, tt)
  join_ended (l ∷ []) ((line, dated), h) = rw (lines-append l [] line) (drop_cr-IsDated l dated, tt)
  join_ended (l ∷ m ∷ ls) ((line, dated), h) =
      let rest = join (10 ∷ []) (m ∷ ls) ++ (10 ∷ []) in
      rw (append_assoc l (10 ∷ join (10 ∷ []) (m ∷ ls)) (10 ∷ []), lines-append l rest line)
        (drop_cr-IsDated l dated, join_ended (m ∷ ls) h)

  last-IsDated : (l : Chars) → IsLine l → IsDated l → All IsDated (lines l)
  unfolding lines
  last-IsDated [] h d = tt
  last-IsDated (c ∷ l) h d = rw (lines_whole c l h) (d, tt)

  join_open : (ls : List Chars) → AreDated ls → All IsDated (lines (join (10 ∷ []) ls))
  unfolding join lines
  join_open [] h = tt
  join_open (l ∷ []) ((line, dated), h) = last-IsDated l line dated
  join_open (l ∷ m ∷ ls) ((line, dated), h) =
      rw (lines-append l (join (10 ∷ []) (m ∷ ls)) line)
        (drop_cr-IsDated l dated, join_open (m ∷ ls) h)

  pub finish_log-okf_log_reports :
      (ls : List Chars) → AreDated ls → okf_log_reports rules (finish_log ls) ≡ []
  unfolding okf_log_reports finish_log
  finish_log-okf_log_reports ls h = elim (Bool-cases (ends_with (10 ∷ []) (join (10 ∷ []) ls))) [
    | inl ended ↦
        rw ended
          (filter_map-none (log_line_report rules) (lines (join (10 ∷ []) ls)) (join_open ls h))
    | inr open_ ↦ rw open_ (
        filter_map-none (log_line_report rules) (lines (join (10 ∷ []) ls ++ (10 ∷ [])))
          (join_ended ls h))
  ]
