-- ===== src/Bundle/Lint.antt =====
-- The checks of a bundle's files against OKF, without a language model: pk-store/src/bundle.rs.
use prometheus_knowledge_rs.Prelude.{
  ℕ, Bool, true, false, ◌&&◌, ◌||◌, Option, none, some, List, [], ◌∷◌, ◌++◌, String, leb, ◌==◌,
  if◌then◌else◌, length, all, is_empty, filter_map, Chars, codes, is_whitespace, is_ascii_digit,
  trim_start_matches, trim, chars_start_with, bind,
}
use prometheus_knowledge_rs.Texts.{is_one_of, strip_prefix, lines}
use prometheus_knowledge_rs.Markdown.{
  Parsed, split_at, fence, closing, markdown_to_entry, parsed, failed,
}
use prometheus_knowledge_rs.Wiki.{WikiEntry}
use prometheus_knowledge_rs.Events.{LintReport, LintSeverity, warning, error}
use prometheus_knowledge_rs.Bundle.{BundleRules, extract_body_links}

abbrev pub is_unset : Option String → Bool
is_unset none = true
is_unset (some text) = is_empty (trim (codes text))

abbrev pub is_dash : ℕ → Bool
is_dash c = c == 45

-- Whether the characters pass the tests, one each. A byte that passes one of these is a character.
abbrev pub follows : List (ℕ → Bool) → Chars → Bool
follows [] [] = true
follows [] (c ∷ s) = false
follows (p ∷ ps) [] = false
follows (p ∷ ps) (c ∷ s) = p c && follows ps s

abbrev pub date_shape : List (ℕ → Bool)
date_shape =
    is_ascii_digit ∷ is_ascii_digit ∷ is_ascii_digit ∷ is_ascii_digit ∷ is_dash ∷ is_ascii_digit
    ∷ is_ascii_digit ∷ is_dash ∷ is_ascii_digit ∷ is_ascii_digit ∷ []

unfoldable pub is_iso_date : Chars → Bool
is_iso_date s = follows date_shape s

abbrev pub declares_version : Chars → Bool
declares_version l = chars_start_with (trim_start_matches is_whitespace l) (codes "okf_version")

abbrev pub is_blank_line : Chars → Bool
is_blank_line l = is_empty (trim l)

module _ {Y : Type 0} (rules : BundleRules Y) where
  open rules use {display, debug, format}
  open format use {text_of}

  -- The function `report`.
  abbrev pub report : Option Chars → LintSeverity → Chars → Chars → Bool → LintReport
  report id severity issue suggestion auto_fixable = record {
    entry_id = bind id (λ (s : Chars). some (text_of s));
    severity = severity;
    issue = text_of issue;
    suggestion = text_of suggestion;
    auto_fixable = auto_fixable;
  }

  abbrev pub type_reports : Chars → Option String → List LintReport
  type_reports id entry_type =
      if is_unset entry_type
      then report (some id) error (codes "missing or empty required OKF `type` frontmatter key")
          (codes "add a non-empty `type:` line (e.g. `type: Reference`)") true
        ∷ []
      else []

  abbrev pub description_reports : Chars → Option String → List LintReport
  description_reports id description =
      if is_unset description
      then report (some id) warning (codes "missing recommended OKF `description`")
          (codes "add a one-sentence `description:` for index and search snippets") false
        ∷ []
      else []

  abbrev pub link_report : Chars → List Chars → Chars → Option LintReport
  link_report id known_ids link =
      if is_one_of link known_ids
      then none
      else some (
          report (some id) warning
            (codes "body links to /" ++ (link ++ codes ".md, which is not in the bundle"))
            (codes "create the target page or fix the link (OKF v0.2 §6 tolerates broken links)")
            false)

  abbrev pub frontmatter_reports : Option (Chars × Chars) → List LintReport
  frontmatter_reports none = []
  frontmatter_reports (some (fm, rest)) =
      if all (λ l. is_blank_line l || declares_version l) (lines fm)
      then []
      else report (some (codes "index.md")) warning
          (codes "index.md carries frontmatter beyond an okf_version declaration")
          (codes
            "remove the frontmatter (OKF v0.2 §8: index.md has none; only the root MAY declare okf_version)")
          false
        ∷ []

  abbrev pub fenced_reports : Option Chars → List LintReport
  fenced_reports none = []
  fenced_reports (some rest) = frontmatter_reports (split_at closing rest)

  unfoldable pub okf_index_reports : Chars → List LintReport
  unfolding trim lines trim_start_matches is_whitespace split_at
  okf_index_reports raw = fenced_reports (strip_prefix fence (trim_start_matches is_whitespace raw))

  abbrev pub entry_reports : Chars → List Chars → Parsed (WikiEntry Y) → List LintReport
  entry_reports id known_ids (failed e) =
      report (some id) error (codes "frontmatter does not parse: " ++ display e)
        (codes "fix the YAML frontmatter block (delimited by --- fences)") false
      ∷ []
  entry_reports id known_ids (parsed e) =
      type_reports id e.entry_type
      ++ (description_reports id e.description
          ++ filter_map (link_report id known_ids) (extract_body_links rules (codes e.content)))

  unfoldable pub okf_document_reports : ℕ → String → Chars → List Chars → List LintReport
  unfolding trim markdown_to_entry extract_body_links
  okf_document_reports now concept_id raw known_ids =
      entry_reports (codes concept_id) known_ids
        (markdown_to_entry format now (some concept_id) raw)

  abbrev pub linked_from : List (WikiEntry Y) → List Chars
  linked_from [] = []
  linked_from (e ∷ es) = extract_body_links rules (codes e.content) ++ linked_from es

  abbrev pub orphan_report : List Chars → WikiEntry Y → Option LintReport
  orphan_report linked_to e =
      if is_one_of (codes e.id) linked_to
      then none
      else some (
          report (some (codes e.id)) warning
            (codes "orphan page: no inbound links from any other page")
            (codes "link to this page from a related page or from index.md") false)

  unfoldable pub okf_orphan_reports : List (WikiEntry Y) → List LintReport
  unfolding extract_body_links
  okf_orphan_reports entries =
      if leb (length entries) 1
      then []
      else filter_map (orphan_report (linked_from entries)) entries

  abbrev pub heading_report : Option Chars → Option LintReport
  heading_report none = none
  heading_report (some heading) =
      if is_iso_date (trim heading)
      then none
      else some (
          report (some (codes "log.md")) warning
            (codes "log.md date heading " ++ (debug heading ++ codes " is not ISO YYYY-MM-DD"))
            (codes "use `## YYYY-MM-DD` date headings (OKF v0.2 §9)") false)

  unfoldable pub log_line_report : Chars → Option LintReport
  unfolding trim is_iso_date
  log_line_report line = heading_report (strip_prefix (codes "## ") (trim line))

  unfoldable pub okf_log_reports : Chars → List LintReport
  unfolding log_line_report lines
  okf_log_reports raw = filter_map log_line_report (lines raw)
