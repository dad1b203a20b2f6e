-- ===== src/Article/Slug.antt =====
-- The ids that are made from titles.
use prometheus_knowledge_rs.Prelude.{
  ℕ, ◌≡◌, refl, inl, inr, Bool, true, false, not, ◌||◌, List, [], ◌∷◌, ◌++◌, map, arith, ◌==◌,
  Bool-cases, keep, any, is_empty, All, Chars, chars_start_with, All-append,
}
use prometheus_knowledge_rs.Article.{
  Unicode, split, same_ignoring_case, device_names, is_windows_device_name, ends_in_dot_or_space,
  is_safe_segment, is_safe_path, dash_other, bare_slug, from_slug,
}
use prometheus_knowledge_rs.Article.Segments.{All-split, All-join_dash, split-free}

All-keep {ℓ κ} :
    {A : Type ℓ} (P : A → Type κ) (p : A → Bool) (xs : List A) → All P xs → All P (keep p xs)
All-keep P p [] h = tt
All-keep P p (x ∷ xs) h = ground (arith, All-keep P p xs)

-- An underscore is in no device's name, nor in a text that equals one but for case.
abbrev has : ℕ → Chars → Bool
has d s = any (λ c. c == d) s

has-append_last : (s : Chars) → has b'_' (s ++ (b'_' ∷ [])) ≡ true
has-append_last [] = refl
has-append_last (c ∷ s) = ground (arith, has-append_last s)

has-same : (s d : Chars) → same_ignoring_case s d ≡ true → has b'_' s ≡ true → has b'_' d ≡ true
has-same [] [] e h = h
has-same [] (y ∷ d) e h = cc
has-same (x ∷ s) [] e h = cc
has-same (x ∷ s) (y ∷ d) e h = ground (arith, has-same s d)

none_same :
    (s : Chars) (ds : List Chars)
    → has b'_' s ≡ true
    → any (has b'_') ds ≡ false
    → any (same_ignoring_case s) ds ≡ false
none_same s [] h free = refl
none_same s (d ∷ ds) h free = ground (arith, none_same s ds, has-same s d)

devices_free : any (has b'_') device_names ≡ false
unfolding device_names
devices_free = refl

module _ (unicode : Unicode) where
  open unicode use {to_lowercase, is_alphanumeric, is_alphanumeric_ascii}

  abbrev IsSlug : ℕ → Type 0
  IsSlug c = (is_alphanumeric c || c == b'-' || c == b'_') ≡ true

  dash_other-IsSlug : (s : Chars) → All IsSlug (map (dash_other unicode) s)
  dash_other-IsSlug [] = tt
  dash_other-IsSlug (c ∷ s) = ground (arith, dash_other-IsSlug s)

  bare_slug-IsSlug : (title : Chars) → All IsSlug (bare_slug unicode title)
  unfolding bare_slug
  bare_slug-IsSlug title =
      let s = map (dash_other unicode) (to_lowercase title) in
      All-join_dash IsSlug _ (ground arith) (
        All-keep (All IsSlug) (λ part. not (is_empty part)) (split b'-' s)
          (All-split IsSlug b'-' s (dash_other-IsSlug (to_lowercase title))))

  from_slug-IsSlug : (title : Chars) → All IsSlug (from_slug unicode title)
  unfolding from_slug
  from_slug-IsSlug title =
      let slug = bare_slug unicode title in
      let slug_IsSlug = bare_slug-IsSlug title in
      elim (Bool-cases (is_windows_device_name slug)) [
        | inl device ↦ rw device (All-append IsSlug slug _ slug_IsSlug (ground arith, tt))
        | inr plain ↦ rw plain slug_IsSlug
      ]

  -- A separator is none of a slug's characters.
  separator_free :
      (d : ℕ) (s : Chars)
      → (is_alphanumeric d || d == b'-' || d == b'_') ≡ false
      → All IsSlug s
      → any (λ c. c == d) s ≡ false
  separator_free d [] other h = refl
  separator_free d (c ∷ s) other (x, h) = ground (arith, separator_free d s)

  other_slash : (is_alphanumeric b'/' || b'/' == b'-' || b'/' == b'_') ≡ false
  other_slash = rw (is_alphanumeric_ascii b'/' refl) refl

  other_dot : (is_alphanumeric b'.' || b'.' == b'-' || b'.' == b'_') ≡ false
  other_dot = rw (is_alphanumeric_ascii b'.' refl) refl

  other_space : (is_alphanumeric b' ' || b' ' == b'-' || b' ' == b'_') ≡ false
  other_space = rw (is_alphanumeric_ascii b' ' refl) refl

  other_backslash : (is_alphanumeric b'\\' || b'\\' == b'-' || b'\\' == b'_') ≡ false
  other_backslash = rw (is_alphanumeric_ascii b'\\' refl) refl

  other_colon : (is_alphanumeric b':' || b':' == b'-' || b':' == b'_') ≡ false
  other_colon = rw (is_alphanumeric_ascii b':' refl) refl

  no_ending : (s : Chars) → All IsSlug s → ends_in_dot_or_space s ≡ false
  unfolding ends_in_dot_or_space
  no_ending [] h = refl
  no_ending (c ∷ []) (x, h) = ground (arith, other_dot, other_space)
  no_ending (c ∷ d ∷ s) (x, h) = no_ending (d ∷ s) h

  no_marker : (s : Chars) → All IsSlug s → any (λ c. c == b'\\' || c == b':') s ≡ false
  no_marker [] h = refl
  no_marker (c ∷ s) (x, h) = ground (arith, no_marker s, other_backslash, other_colon)

  no_start : (s : Chars) → All IsSlug s → chars_start_with s (b'/' ∷ []) ≡ false
  no_start [] h = refl
  no_start (c ∷ s) (x, h) = ground (arith, other_slash)

  device_escaped :
      (slug : Chars) → All IsSlug slug → is_windows_device_name (slug ++ (b'_' ∷ [])) ≡ false
  unfolding is_windows_device_name
  device_escaped slug h =
      let escaped = slug ++ (b'_' ∷ []) in
      let whole =
        split-free b'.' escaped
          (separator_free b'.' escaped other_dot (All-append IsSlug slug _ h (ground arith, tt))) in
      rw whole (none_same escaped device_names (has-append_last slug) devices_free)

  from_slug_plain : (title : Chars) → is_windows_device_name (from_slug unicode title) ≡ false
  unfolding from_slug
  from_slug_plain title = elim (Bool-cases (is_windows_device_name (bare_slug unicode title))) [
    | inl device ↦ rw device (device_escaped _ (bare_slug-IsSlug title))
    | inr plain ↦ rw (plain) plain
  ]

  -- The id made from a title, where it is not empty, is a safe path, and a single segment of one.
  pub from_slug-is_safe_path :
      (title : Chars)
      → is_empty (from_slug unicode title) ≡ false
      → (is_safe_path (from_slug unicode title) ≡ true)
        × (split b'/' (from_slug unicode title) ≡ from_slug unicode title ∷ [])
  unfolding is_safe_path is_safe_segment
  from_slug-is_safe_path title present =
      let slug = from_slug unicode title in
      let h = from_slug-IsSlug title in
      let whole = split-free b'/' slug (separator_free b'/' slug other_slash h) in
      (
        rw
            (
              whole,
              no_start slug h,
              no_marker slug h,
              present,
              no_ending slug h,
              from_slug_plain title,
            )
            refl,
        whole,
      )
