-- ===== src/Markdown.antt =====
-- Documents of the store: `entry_to_markdown`, `markdown_to_entry`, `lenient_generated` and
-- `is_reserved_filename`, pk-store/src/markdown.rs.
--
-- serde_yaml, chrono and the text of a list of characters are parameters, `Format`. A time is a number
-- of nanoseconds.
pub mod Returns
use prometheus_knowledge_rs.Prelude.{
  ℕ, Bool, not, ◌&&◌, ◌||◌, Option, none, some, List, [], ◌∷◌, ◌++◌, String, str_eq, ◌==◌,
  if◌then◌else◌, bind, or_else, unwrap_or, length, drop, any, is_empty, Chars, codes, is_whitespace,
  trim_start_matches, chars_start_with, find,
}
use prometheus_knowledge_rs.Article.{is_safe_path}
use prometheus_knowledge_rs.Wiki.{Source, WikiEntry}
use Prim.Native.String.{◌++◌ as append}

unfoldable pub is_reserved_filename : String → Bool
is_reserved_filename name = str_eq name "index.md" || str_eq name "log.md"

abbrev pub article_filename : String → String
article_filename id = append id ".md"

pub record Generated : Type 0 where
  pub by : String
  pub at : Option String

-- `G` is what stands under `generated`: a value of YAML where a document is read.
pub record Frontmatter (Y G : Type 0) : Type 0 where
  pub entry_type : Option String
  pub id : Option String
  pub title : Option String
  pub description : Option String
  pub resource : Option String
  pub tags : List String
  pub links : List String
  pub sources : List (Source Y)
  pub generated : Option G
  pub timestamp : Option String
  pub created_at : Option String
  pub updated_at : Option String
  pub revision : Option ℕ
  pub extra : List (String × Y)

pub record Format (Y : Type 0) : Type 0 where
  pub to_yaml : Frontmatter Y Generated → Option Chars
  pub from_yaml : Chars → Option (Frontmatter Y Y)
  -- The entries of a mapping, if the value is one.
  pub mapping : Y → Option (List (String × Y))
  pub as_str : Y → Option String
  pub to_rfc3339 : ℕ → String
  pub parse_from_rfc3339 : String → Option ℕ
  pub text_of : Chars → String
  pub pk_actor : String

pub data MarkdownError : Type 0 where
  missing_fence : MarkdownError
  unclosed_fence : MarkdownError
  yaml_failed : MarkdownError
  no_id : MarkdownError
  unsafe_id : String → MarkdownError
  bad_time : String → MarkdownError

pub data Parsed (A : Type 0) : Type 0 where
  parsed : A → Parsed A
  failed : MarkdownError → Parsed A

infixl 5 ◌>>=◌
abbrev pub ◌>>=◌ : {A B : Type 0} → Parsed A → (A → Parsed B) → Parsed B
parsed a >>= f = f a
failed e >>= f = failed e

abbrev pub require : {A : Type 0} → MarkdownError → Option A → Parsed A
require e none = failed e
require e (some a) = parsed a

-- `find(pattern)`: what stands before the first match, and what behind it.
unfoldable pub split_at : Chars → Chars → Option (Chars × Chars)
split_at pattern [] = if is_empty pattern then some ([], []) else none
split_at pattern (c ∷ s) =
    let rest = split_at pattern s in
    if chars_start_with (c ∷ s) pattern
    then some ([], drop (length pattern) (c ∷ s))
    else bind rest (λ (p : Chars × Chars). some (c ∷ p.0, p.1))

-- `replace("\r\n", "\n")`
unfoldable pub to_lf : Chars → Chars
to_lf [] = []
to_lf (c ∷ []) = c ∷ []
to_lf (c ∷ d ∷ s) = let rest = to_lf (d ∷ s) in if c == 13 && d == 10 then rest else c ∷ rest

abbrev pub has_cr : Chars → Bool
has_cr s = any (λ c. c == 13) s

abbrev pub is_newline : ℕ → Bool
is_newline c = c == 10

abbrev pub fence : Chars
fence = 45 ∷ 45 ∷ 45 ∷ []

abbrev pub closing : Chars
closing = 10 ∷ fence

module _ {Y : Type 0} (format : Format Y) where
  open format use {
    to_yaml, from_yaml, mapping, as_str, to_rfc3339, parse_from_rfc3339, text_of, pk_actor,
  }

  unfoldable pub frontmatter_of : WikiEntry Y → Frontmatter Y Generated
  frontmatter_of entry = record {
    entry_type = entry.entry_type;
    id = some entry.id;
    title = some entry.title;
    description = entry.description;
    resource = none;
    tags = entry.tags;
    links = entry.links;
    sources = entry.sources;
    generated = some (record {
      by = unwrap_or pk_actor entry.generated_by;
      at = some (to_rfc3339 entry.updated_at);
    });
    timestamp = none;
    created_at = some (to_rfc3339 entry.created_at);
    updated_at = some (to_rfc3339 entry.updated_at);
    revision = some entry.revision;
    extra = entry.extra;
  }

  unfoldable pub entry_to_markdown : WikiEntry Y → Parsed Chars
  unfolding frontmatter_of
  entry_to_markdown entry = require yaml_failed (to_yaml (frontmatter_of entry)) >>= λ yaml.
      parsed (fence ++ (10 ∷ (yaml ++ (fence ++ (10 ∷ (10 ∷ codes entry.content))))))

  abbrev pub generated_in : Option (List (String × Y)) → Option Generated
  generated_in none = none
  generated_in (some entries) =
      bind (bind (find "by" entries) as_str)
        (λ (by : String). some (record { by = by; at = bind (find "at" entries) as_str }))

  unfoldable pub lenient_generated : Option Y → Option Generated
  lenient_generated value = generated_in (bind value mapping)

  abbrev pub strict : String → String → Parsed ℕ
  strict key text = require (bad_time key) (parse_from_rfc3339 text)

  abbrev pub created_from : ℕ → Option String → Parsed ℕ
  created_from now none = parsed now
  created_from now (some s) = strict "created_at" s

  abbrev pub updated_from : ℕ → Option String → Option ℕ → Option String → Parsed ℕ
  updated_from now (some s) generated timestamp = strict "updated_at" s
  updated_from now none (some at) timestamp = parsed at
  updated_from now none none (some s) = strict "timestamp" s
  updated_from now none none none = parsed now

  abbrev pub generated_at : Option Generated → Option ℕ
  generated_at generated = bind (bind generated (λ (g : Generated). g.at)) parse_from_rfc3339

  abbrev pub by_of : Option Generated → Option String
  by_of generated = bind generated (λ (g : Generated). some g.by)

  abbrev pub checked_id : Option String → Option String → Parsed String
  checked_id id fallback = require no_id (or_else id fallback) >>= λ found.
      if is_safe_path (codes found) then parsed found else failed (unsafe_id found)

  unfoldable pub entry_from : ℕ → Option String → Chars → Frontmatter Y Y → Parsed (WikiEntry Y)
  unfolding lenient_generated
  entry_from now fallback content fm =
      let generated = lenient_generated fm.generated in
      checked_id fm.id fallback >>= λ id. created_from now fm.created_at >>= λ created.
      updated_from now fm.updated_at (generated_at generated) fm.timestamp >>= λ updated.
      parsed (record {
        id = id;
        title = unwrap_or id fm.title;
        content = text_of content;
        tags = fm.tags;
        links = fm.links;
        sources = fm.sources;
        created_at = created;
        updated_at = updated;
        revision = unwrap_or 1 fm.revision;
        entry_type = fm.entry_type;
        description = fm.description;
        generated_by = by_of generated;
        extra = fm.extra;
      })

  unfoldable pub read_fenced : ℕ → Option String → Chars → Parsed (WikiEntry Y)
  unfolding split_at trim_start_matches entry_from
  read_fenced now fallback raw =
      if not (chars_start_with raw fence)
      then failed missing_fence
      else require unclosed_fence (split_at closing (drop 3 raw)) >>= λ (parts : Chars × Chars).
          require yaml_failed (from_yaml parts.0) >>= λ fm.
          entry_from now fallback (trim_start_matches is_newline parts.1) fm

  unfoldable pub markdown_to_entry : ℕ → Option String → Chars → Parsed (WikiEntry Y)
  unfolding to_lf read_fenced trim_start_matches is_whitespace
  markdown_to_entry now fallback raw =
      read_fenced now fallback
        (trim_start_matches is_whitespace (if has_cr raw then to_lf raw else raw))
