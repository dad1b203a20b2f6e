-- ===== src/Markdown/Returns.antt =====
-- Documents that are written and read back, and documents with the line ends of another checkout.
use prometheus_knowledge_rs.Prelude.{
  ℕ, ◌≡◌, refl, inl, inr, true, false, Option, some, [], ◌∷◌, ◌++◌, arith, String, ◌==◌,
  if◌then◌else◌, Bool-cases, unwrap_or, Chars, codes, trim_start_matches, chars_start_with, ==_iff,
}
use mathlib.Core.List.{append_assoc}
use prometheus_knowledge_rs.Texts.{contains}
use prometheus_knowledge_rs.Article.{is_safe_path}
use prometheus_knowledge_rs.Markdown.{
  Format, Frontmatter, Generated, split_at, to_lf, has_cr, is_newline, fence, closing,
  frontmatter_of, entry_to_markdown, lenient_generated, markdown_to_entry, parsed, entry_from,
  read_fenced,
}
use prometheus_knowledge_rs.Wiki.{WikiEntry}

to_lf-keep : (c : ℕ) (s : Chars) → (c == 13) ≡ false → to_lf (c ∷ s) ≡ c ∷ to_lf s
unfolding to_lf
to_lf-keep c [] h = refl
to_lf-keep c (d ∷ s) h = ground arith

-- A text with a carriage return before each newline.
unfoldable pub to_crlf : Chars → Chars
to_crlf [] = []
to_crlf (c ∷ s) = let rest = to_crlf s in if c == 10 then 13 ∷ 10 ∷ rest else c ∷ rest

to_lf-crlf : (s : Chars) → to_lf (13 ∷ 10 ∷ s) ≡ 10 ∷ to_lf s
unfolding to_lf
to_lf-crlf s = to_lf-keep 10 s refl

to_lf-to_crlf : (s : Chars) → has_cr s ≡ false → to_lf (to_crlf s) ≡ s
unfolding to_crlf to_lf
to_lf-to_crlf [] h = refl
to_lf-to_crlf (c ∷ s) h = elim (Bool-cases (c == 10)) [
  | inl newline ↦ rw newline (ground (arith, to_lf-crlf (to_crlf s), to_lf-to_crlf s, ==_iff c 10))
  | inr other ↦ rw other (ground (arith, to_lf-keep c (to_crlf s), to_lf-to_crlf s))
]

to_crlf_plain : (s : Chars) → has_cr (to_crlf s) ≡ false → to_crlf s ≡ s
unfolding to_crlf
to_crlf_plain [] h = refl
to_crlf_plain (c ∷ s) h = ground (arith, to_crlf_plain s)

starts_within :
    (c : ℕ) (s rest : Chars)
    → chars_start_with (c ∷ s) closing ≡ false
    → chars_start_with ((c ∷ s) ++ (closing ++ rest)) closing ≡ false
starts_within c [] rest h = ground arith
starts_within c (d ∷ []) rest h = ground arith
starts_within c (d ∷ e ∷ []) rest h = ground arith
starts_within c (d ∷ e ∷ f ∷ s) rest h = ground arith

split_at-closing :
    (a rest : Chars)
    → contains closing a ≡ false
    → split_at closing (a ++ (closing ++ rest)) ≡ some (a, rest)
unfolding split_at contains
split_at-closing [] rest h = refl
split_at-closing (c ∷ s) rest h = ground (arith, starts_within c s rest, split_at-closing s rest)

module _ {Y : Type 0} (format : Format Y) where
  -- A document reads the same with the line ends of either checkout.
  pub markdown_to_entry-to_crlf :
      (now : ℕ) (fallback : Option String) (raw : Chars)
      → has_cr raw ≡ false
      → markdown_to_entry format now fallback (to_crlf raw)
        ≡ markdown_to_entry format now fallback raw
  unfolding markdown_to_entry
  markdown_to_entry-to_crlf now fallback raw h = elim (Bool-cases (has_cr (to_crlf raw))) [
    | inl found ↦ rw (found, h, to_lf-to_crlf raw h) refl
    | inr plain ↦ rw (plain, h, to_crlf_plain raw plain) refl
  ]

  -- A frontmatter as it is read, with a value of YAML under `generated`.
  abbrev pub read_back : Y → Frontmatter Y Generated → Frontmatter Y Y
  read_back value fm = record {
    entry_type = fm.entry_type;
    id = fm.id;
    title = fm.title;
    description = fm.description;
    resource = fm.resource;
    tags = fm.tags;
    links = fm.links;
    sources = fm.sources;
    generated = some value;
    timestamp = fm.timestamp;
    created_at = fm.created_at;
    updated_at = fm.updated_at;
    revision = fm.revision;
    extra = fm.extra;
  }

  -- What serde_yaml and chrono give for an entry: the frontmatter is written in lines, none of which
  -- starts with a fence, and is read back as it was, its times too.
  pub record IsFaithful (entry : WikiEntry Y) : Type 0 where
    pub body : Chars
    pub value : Y
    pub printed : format.to_yaml (frontmatter_of format entry) ≡ some (body ++ (10 ∷ []))
    pub unfenced : contains closing (10 ∷ body) ≡ false
    pub read : format.from_yaml (10 ∷ body) ≡ some (read_back value (frontmatter_of format entry))
    pub generated : lenient_generated format (some value) ≡ (frontmatter_of format entry).generated
    pub created :
        format.parse_from_rfc3339 (format.to_rfc3339 entry.created_at) ≡ some entry.created_at
    pub updated :
        format.parse_from_rfc3339 (format.to_rfc3339 entry.updated_at) ≡ some entry.updated_at
    pub text : format.text_of (codes entry.content) ≡ entry.content

  abbrev pub document : Chars → Chars → Chars
  document body content = fence ++ (10 ∷ ((body ++ (10 ∷ [])) ++ (fence ++ (10 ∷ (10 ∷ content)))))

  read_fenced-document :
      (now : ℕ) (fallback : Option String) (entry : WikiEntry Y) (faithful : IsFaithful entry)
      → is_safe_path (codes entry.id) ≡ true
      → trim_start_matches is_newline (codes entry.content) ≡ codes entry.content
      → read_fenced format now fallback (document faithful.body (codes entry.content))
        ≡ parsed
            (record entry { generated_by = some (unwrap_or format.pk_actor entry.generated_by) })
  unfolding read_fenced entry_from trim_start_matches frontmatter_of
  read_fenced-document now fallback entry faithful safe starts =
      let rest = 10 ∷ (10 ∷ codes entry.content) in
      let cut = split_at-closing (10 ∷ faithful.body) rest faithful.unfenced in
      rw
        (
          append_assoc faithful.body (10 ∷ []) (fence ++ rest),
          cut,
          faithful.read,
          faithful.generated,
          safe,
          faithful.created,
          faithful.updated,
          starts,
          faithful.text,
        )
        refl

  -- An entry that is written as a document is read back: the same entry, with pk as its author where it
  -- had none. Its id must be a safe path, its text must hold no carriage return and not begin with a
  -- newline, and serde_yaml and chrono must read back what they wrote.
  pub markdown_to_entry-entry_to_markdown :
      (now : ℕ) (fallback : Option String) (entry : WikiEntry Y) (raw : Chars)
      → IsFaithful entry
      → is_safe_path (codes entry.id) ≡ true
      → entry_to_markdown format entry ≡ parsed raw
      → has_cr raw ≡ false
      → trim_start_matches is_newline (codes entry.content) ≡ codes entry.content
      → markdown_to_entry format now fallback raw
        ≡ parsed
            (record entry { generated_by = some (unwrap_or format.pk_actor entry.generated_by) })
  unfolding markdown_to_entry entry_to_markdown
  markdown_to_entry-entry_to_markdown now fallback entry raw faithful safe wrote plain starts =
      let made : raw ≡ document faithful.body (codes entry.content) =
        ground (arith, faithful.printed) in
      rw (plain, made) (read_fenced-document now fallback entry faithful safe starts)
