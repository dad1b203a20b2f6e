-- ===== src/Examples/Documents.antt =====
-- The theorems on documents, at concrete inputs.
use prometheus_knowledge_rs.Prelude.{
  ◌≡◌, refl, Option, none, some, List, [], ◌∷◌, ◌++◌, String, Chars, codes, trim_start_matches,
  find, trim, trim_end_matches, is_whitespace, map,
}
use prometheus_knowledge_rs.Texts.{contains, lines}
use prometheus_knowledge_rs.Bundle.{BundleRules, append_log_line}
use prometheus_knowledge_rs.Bundle.Placed.{extended, filled_lines, placed}
use prometheus_knowledge_rs.Bundle.Dated.{drop_cr}
use prometheus_knowledge_rs.Bundle.Lint.{okf_log_reports, log_line_report, is_iso_date}
use prometheus_knowledge_rs.Bundle.Extended.{append_log_line-okf_log_reports}
use prometheus_knowledge_rs.Article.{
  is_safe_path, is_safe_segment, split, ends_in_dot_or_space, is_windows_device_name, device_names,
}
use prometheus_knowledge_rs.Examples.Sample.{strokes, count_strokes}
use prometheus_knowledge_rs.Markdown.{
  Frontmatter, Format, frontmatter_of, entry_to_markdown, lenient_generated, markdown_to_entry,
  parsed,
}
use prometheus_knowledge_rs.Markdown.Returns.{
  IsFaithful, to_crlf, markdown_to_entry-entry_to_markdown, markdown_to_entry-to_crlf,
}
use prometheus_knowledge_rs.Wiki.{WikiEntry}

data Yaml : Type 0 where
  text : String → Yaml
  pair : String → String → Yaml

abbrev text_in : Yaml → Option String
text_in (text s) = some s
text_in v = none

abbrev mapping_in : Yaml → Option (List (String × Yaml))
mapping_in (pair by at) = some (("by", text by) ∷ ("at", text at) ∷ [])
mapping_in v = none

abbrev orders : WikiEntry Yaml
orders = record {
  id = "orders";
  title = "Orders";
  content = "One row.";
  tags = "sql" ∷ [];
  links = [];
  sources = [];
  created_at = 1;
  updated_at = 2;
  revision = 3;
  entry_type = some "Table";
  description = none;
  generated_by = none;
  extra = [];
}

abbrev orders_frontmatter : Frontmatter Yaml Yaml
orders_frontmatter = record {
  entry_type = some "Table";
  id = some "orders";
  title = some "Orders";
  description = none;
  resource = none;
  tags = "sql" ∷ [];
  links = [];
  sources = [];
  generated = some (pair "pk/1.9.0" "||");
  timestamp = none;
  created_at = some "|";
  updated_at = some "||";
  revision = some 3;
  extra = [];
}

abbrev sample_format : Format Yaml
sample_format = record {
  to_yaml = λ fm. some (codes "id: orders" ++ (10 ∷ []));
  from_yaml = λ t. some orders_frontmatter;
  mapping = mapping_in;
  as_str = text_in;
  to_rfc3339 = strokes;
  parse_from_rfc3339 = count_strokes;
  text_of = λ t. "One row.";
  pk_actor = "pk/1.9.0";
}

orders-IsFaithful : IsFaithful sample_format orders
unfolding contains lenient_generated find frontmatter_of
orders-IsFaithful = record {
  body = codes "id: orders";
  value = pair "pk/1.9.0" "||";
  printed = refl;
  unfenced = refl;
  read = refl;
  generated = refl;
  created = refl;
  updated = refl;
  text = refl;
}

abbrev orders_text : Chars
orders_text = codes "---\nid: orders\n---\n\nOne row."

markdown_to_entry-entry_to_markdown_example :
    markdown_to_entry sample_format 9 none orders_text
    ≡ parsed (record orders { generated_by = some "pk/1.9.0" })
unfolding is_safe_path is_safe_segment entry_to_markdown trim_start_matches split
    ends_in_dot_or_space is_windows_device_name device_names
markdown_to_entry-entry_to_markdown_example =
    markdown_to_entry-entry_to_markdown sample_format 9 none orders orders_text orders-IsFaithful
      refl refl refl refl

markdown_to_entry-to_crlf_example :
    markdown_to_entry sample_format 9 none (to_crlf orders_text)
    ≡ markdown_to_entry sample_format 9 none orders_text
markdown_to_entry-to_crlf_example = markdown_to_entry-to_crlf sample_format 9 none orders_text refl

abbrev sample_rules : BundleRules Yaml
sample_rules = record {
  link_targets = λ t. [];
  to_lowercase = λ t. t;
  display = λ e. [];
  debug = λ t. t;
  format = sample_format;
}

abbrev august_log : Chars
august_log = codes "# Update Log\n\n## 2026-08-01\n* one\n"

append_log_line-okf_log_reports_example :
    let after = append_log_line august_log (codes "2026-08-02") (codes "* two") in
    (filled_lines (lines after)
      ≡ filled_lines (map drop_cr (extended august_log (codes "2026-08-02") (codes "* two"))))
    × (okf_log_reports sample_rules after ≡ [])
unfolding okf_log_reports lines log_line_report trim trim_start_matches trim_end_matches is_iso_date
    is_whitespace
append_log_line-okf_log_reports_example =
    append_log_line-okf_log_reports sample_rules august_log (codes "2026-08-02") (codes "* two")
      refl refl refl refl

placed_first :
    placed (codes "2026-08-02") (codes "* two") (codes "# Update Log" ∷ codes "## 2026-08-01" ∷ [])
    ≡ codes "# Update Log" ∷ codes "## 2026-08-02" ∷ codes "* two" ∷ [] ∷ codes "## 2026-08-01" ∷ []
unfolding trim trim_start_matches trim_end_matches is_whitespace
placed_first = refl
