-- ===== src/Bundle/Extended.antt =====
-- A line that is added to a log: `append_log_line`, pk-store/src/bundle.rs.
use mathlib.Core.List.{append_assoc}
use prometheus_knowledge_rs.Texts.{join}
use prometheus_knowledge_rs.Bundle.{
  date_heading, BundleRules, position, insert_at, insert_all, log_title, is_date_heading,
  place_of_group, log_lines, append_log_line, join, lines,
}
use prometheus_knowledge_rs.Bundle.Placed.{
  extended, filled_lines, is_heading_of, joined_lines, finish_log-lines, log_lines-placed,
}
use prometheus_knowledge_rs.Bundle.Lint.{
  is_iso_date, follows, date_shape, is_dash, log_line_report, okf_log_reports,
}
use prometheus_knowledge_rs.Bundle.Dated.{
  IsLine, trim_from, lines-IsLine, filter_map-none, filter_map_nil, IsDated, AreDated, nil-IsDated,
  join_ended, finish_log-okf_log_reports, drop_cr,
}
use prometheus_knowledge_rs.Prelude.{
  ℕ, ◌≡◌, refl, ◌∙◌, Bool, true, false, List, [], ◌∷◌, arith, ◌==◌, All, Chars, is_whitespace,
  is_ascii_digit, trim_start_matches, trim_end_matches, trim, zero, suc, sym, inl, inr, Option,
  none, some, ◌++◌, Bool-cases, take, drop, is_empty, All-append, All-take, map, sym, ap,
}

-- A character that a line may end in.
abbrev IsInk : ℕ → Type 0
IsInk c = (is_whitespace c ≡ false) × ((c == 10) ≡ false)

digit-IsInk : (c : ℕ) → is_ascii_digit c ≡ true → IsInk c
unfolding is_whitespace
digit-IsInk c h = (ground arith, ground arith)

dash-IsInk : (c : ℕ) → is_dash c ≡ true → IsInk c
unfolding is_whitespace
dash-IsInk c h = (ground arith, ground arith)

follows-IsInk :
    (ps : List (ℕ → Bool)) (s : Chars)
    → All (λ (p : ℕ → Bool). (c : ℕ) → p c ≡ true → IsInk c) ps
    → follows ps s ≡ true
    → All IsInk s
follows-IsInk [] [] h k = tt
follows-IsInk [] (c ∷ s) h k = cc
follows-IsInk (p ∷ ps) [] h k = cc
follows-IsInk (p ∷ ps) (c ∷ s) (f, h) k = (f c (ground arith), follows-IsInk ps s h (ground arith))

is_iso_date-IsInk : (date : Chars) → is_iso_date date ≡ true → All IsInk date
unfolding is_iso_date
is_iso_date-IsInk date h =
    let d = digit-IsInk in
    let m = dash-IsInk in
    follows-IsInk date_shape date (d, (d, (d, (d, (m, (d, (d, (m, (d, (d, tt)))))))))) h

trim_end-IsInk : (s : Chars) → All IsInk s → trim_end_matches is_whitespace s ≡ s
unfolding trim_end_matches
trim_end-IsInk [] h = refl
trim_end-IsInk (c ∷ []) ((ink, line), h) = rw ink refl
trim_end-IsInk (c ∷ d ∷ s) (i, h) = rw (trim_end-IsInk (d ∷ s) h) refl

trim-IsInk : (s : Chars) → All IsInk s → trim s ≡ s
unfolding trim trim_start_matches trim_end_matches
trim-IsInk [] h = refl
trim-IsInk (c ∷ s) ((ink, line), h) = trim_from c s ink ∙ trim_end-IsInk (c ∷ s) ((ink, line), h)

IsInk-IsLine : (s : Chars) → All IsInk s → IsLine s
IsInk-IsLine [] h = refl
IsInk-IsLine (c ∷ s) ((ink, line), h) = rw (line, IsInk-IsLine s h) refl

trim-date_heading :
    (c : ℕ) (s : Chars) → All IsInk (c ∷ s) → trim (date_heading (c ∷ s)) ≡ date_heading (c ∷ s)
unfolding trim trim_start_matches trim_end_matches
trim-date_heading c s h = rw (trim_end-IsInk (c ∷ s) h) refl

All-drop : {A : Type 0} (P : A → Type 0) (n : ℕ) (xs : List A) → All P xs → All P (drop n xs)
All-drop P zero xs h = h
All-drop P (suc n) [] h = tt
All-drop P (suc n) (x ∷ xs) (px, h) = All-drop P n xs h

module _ {Y : Type 0} (rules : BundleRules Y) where
  abbrev Good : Chars → Type 0
  Good l = IsLine l × IsDated rules l

  date_heading-IsDated :
      (date : Chars)
      → is_iso_date date ≡ true
      → IsLine (date_heading date) × IsDated rules (date_heading date)
  unfolding log_line_report
  date_heading-IsDated [] h = (refl, refl)
  date_heading-IsDated (c ∷ s) h =
      let inks = is_iso_date-IsInk (c ∷ s) h in
      (IsInk-IsLine (c ∷ s) inks, rw (trim-date_heading c s inks, trim-IsInk (c ∷ s) inks, h) refl)

  insert_at-AreDated :
      (n : ℕ) (l : Chars) (ls : List Chars)
      → Good l
      → AreDated rules ls
      → AreDated rules (insert_at n l ls)
  insert_at-AreDated n l ls g h =
      All-append Good (take n ls) (l ∷ drop n ls) (All-take Good n ls h) (g, All-drop Good n ls h)

  insert_all-AreDated :
      (n : ℕ) (bs ls : List Chars)
      → AreDated rules bs
      → AreDated rules ls
      → AreDated rules (insert_all n bs ls)
  insert_all-AreDated n [] ls g h = h
  insert_all-AreDated n (b ∷ bs) ls (gb, g) h =
      insert_all-AreDated (suc n) bs (insert_at n b ls) g (insert_at-AreDated n b ls gb h)

  log_lines-AreDated :
      (date line : Chars) (found : Option ℕ) (ls : List Chars)
      → Good (date_heading date)
      → Good line
      → AreDated rules ls
      → AreDated rules (log_lines date line found ls)
  log_lines-AreDated date line (some n) ls d g h = insert_at-AreDated (suc n) line ls g h
  log_lines-AreDated date line none ls d g h =
      insert_all-AreDated (place_of_group (position is_date_heading ls) ls)
        (date_heading date ∷ line ∷ [] ∷ []) ls (d, (g, ((refl, nil-IsDated rules), tt))) h

  existing-AreDated : (ls : List Chars) → All IsLine ls → All (IsDated rules) ls → AreDated rules ls
  existing-AreDated [] h k = tt
  existing-AreDated (l ∷ ls) (a, h) (b, k) = ((a, b), existing-AreDated ls h k)

  title-IsDated : Good log_title
  unfolding log_line_report trim trim_start_matches trim_end_matches
  title-IsDated = (refl, refl)

  text_of_lines :
      (ls : List Chars) (text : Chars)
      → join (10 ∷ []) ls ++ (10 ∷ []) ≡ text
      → AreDated rules ls
      → okf_log_reports rules text ≡ []
  unfolding okf_log_reports
  text_of_lines ls text made h = rw (sym made) (
      filter_map-none (log_line_report rules) (lines (join (10 ∷ []) ls ++ (10 ∷ [])))
        (join_ended rules ls h))

  fresh-AreDated :
      (date line : Chars)
      → Good (date_heading date)
      → Good line
      → okf_log_reports rules
          (log_title ++ (10 ∷ 10 ∷ (date_heading date ++ (10 ∷ (line ++ (10 ∷ []))))))
        ≡ []
  unfolding join
  fresh-AreDated date line d g =
      text_of_lines (log_title ∷ [] ∷ date_heading date ∷ line ∷ [])
        (log_title ++ (10 ∷ 10 ∷ (date_heading date ++ (10 ∷ (line ++ (10 ∷ []))))))
        (rw (append_assoc date (10 ∷ line) (10 ∷ [])) refl)
        (title-IsDated, ((refl, nil-IsDated rules), (d, (g, tt))))

  AreDated-IsLine : (ls : List Chars) → AreDated rules ls → All IsLine ls
  AreDated-IsLine [] h = tt
  AreDated-IsLine (l ∷ ls) ((line, dated), h) = (line, AreDated-IsLine ls h)

  fresh_lines :
      (date line : Chars)
      → AreDated rules (log_title ∷ [] ∷ date_heading date ∷ line ∷ [])
      → filled_lines
          (lines (log_title ++ (10 ∷ 10 ∷ (date_heading date ++ (10 ∷ (line ++ (10 ∷ [])))))))
        ≡ filled_lines (map drop_cr (log_title ∷ [] ∷ date_heading date ∷ line ∷ []))
  unfolding join
  fresh_lines date line h =
      let ls = log_title ∷ [] ∷ date_heading date ∷ line ∷ [] in
      let made : join (10 ∷ []) ls ++ (10 ∷ [])
          ≡ log_title ++ (10 ∷ 10 ∷ (date_heading date ++ (10 ∷ (line ++ (10 ∷ []))))) =
        rw (append_assoc date (10 ∷ line) (10 ∷ [])) refl in
      ap (λ s. filled_lines (lines s)) (sym made) ∙ joined_lines ls (AreDated-IsLine ls h)

  -- Adding a line to a log puts it where the reference does: first under the heading of its date, with a
  -- new group before the others, or behind the title, where the date has none. The lines of the log that
  -- are not empty are those of the reference, but for a carriage return at the end of one. The date must
  -- be in ISO form, the log without a warning, and the line a single line that is no heading, or the
  -- heading of a date; then the log is without a warning afterwards too.
  pub append_log_line-okf_log_reports :
      (existing date line : Chars)
      → okf_log_reports rules existing ≡ []
      → is_iso_date date ≡ true
      → IsLine line
      → IsDated rules line
      → let after = append_log_line existing date line in
        (filled_lines (lines after) ≡ filled_lines (map drop_cr (extended existing date line)))
        × (okf_log_reports rules after ≡ [])
  unfolding append_log_line okf_log_reports
  append_log_line-okf_log_reports existing date line clean iso one dated =
      let d = date_heading-IsDated date iso in
      let ls = lines existing in
      let old =
        existing-AreDated ls (lines-IsLine existing)
          (filter_map_nil (log_line_report rules) ls clean) in
      let new =
        log_lines-AreDated date line (position (is_heading_of date) ls) ls d (one, dated) old in
      elim (Bool-cases (is_empty (trim existing))) [
        | inl fresh ↦ rw fresh (
          fresh_lines date line
              (title-IsDated, ((refl, nil-IsDated rules), (d, ((one, dated), tt)))),
          fresh-AreDated date line d (one, dated),
        )
        | inr some_text ↦ rw some_text (
          finish_log-lines _ (AreDated-IsLine _ new)
              ∙ ap (λ xs. filled_lines (map drop_cr xs)) (log_lines-placed date line ls),
          finish_log-okf_log_reports rules _ new,
        )
      ]
