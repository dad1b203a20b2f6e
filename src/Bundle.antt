-- ===== src/Bundle.antt =====
-- The files of a bundle, index.md and log.md, and the links of a page: pk-store/src/bundle.rs.
--
-- The events of pulldown_cmark, lower case and the two forms of `format!` are parameters, `BundleRules`.
pub mod Lint
pub mod Dated
pub mod Placed
pub mod Extended
use prometheus_knowledge_rs.Prelude.{
  ℕ, zero, suc, ◌-◌, ◌*◌, ◌/◌, Bool, true, false, not, ◌&&◌, ◌||◌, Option, none, some, List, [],
  ◌∷◌, ◌++◌, String, ◌==◌, if◌then◌else◌, bind, unwrap_or, length, take, drop, all, is_empty, Chars,
  codes, is_whitespace, trim_start_matches, trim_end_matches, trim, chars_eq, chars_start_with,
}
use prometheus_knowledge_rs.Texts.{ends_with, is_one_of, join, strip_prefix, lines}
use prometheus_knowledge_rs.Texts.Ordered.{text_eq, text_leb, entry}
use prometheus_knowledge_rs.Markdown.{Format, MarkdownError, split_at}
use prometheus_knowledge_rs.Wiki.{WikiEntry}

pub record BundleRules (Y : Type 0) : Type 0 where
  -- The destinations of the links of a text, in order, with footnotes enabled.
  pub link_targets : Chars → List Chars
  pub to_lowercase : Chars → Chars
  -- `{e}` and `{heading:?}`
  pub display : MarkdownError → Chars
  pub debug : Chars → Chars
  pub format : Format Y

abbrev pub is_slash : ℕ → Bool
is_slash c = c == 47

-- A text that is a pattern, repeated.
abbrev pub repeats : Chars → ℕ → Chars → Bool
repeats pattern skip [] = true
repeats pattern (suc skip) (c ∷ s) = repeats pattern skip s
repeats pattern zero (c ∷ s) = elim (chars_start_with (c ∷ s) pattern) [
  | true ↦ repeats pattern (length pattern - 1) s
  | false ↦ false
]

-- `trim_end_matches(pattern)`, for a text as the pattern.
unfoldable pub trim_end_text : Chars → Chars → Chars
trim_end_text pattern [] = []
trim_end_text pattern (c ∷ s) =
    let rest = trim_end_text pattern s in if repeats pattern 0 (c ∷ s) then [] else c ∷ rest

abbrev pub unless_empty : Chars → Option Chars
unless_empty [] = none
unless_empty (c ∷ s) = some (c ∷ s)

unfoldable pub bundle_link_to_concept_id : Chars → Option Chars
unfolding trim trim_start_matches trim_end_text ends_with
bundle_link_to_concept_id target =
    let dest = trim target in
    if not (chars_start_with dest (47 ∷ [])) || not (ends_with (codes ".md") dest)
    then none
    else unless_empty (trim_end_text (codes ".md") (trim_start_matches is_slash dest))

abbrev pub push_new : List Chars → Option Chars → List Chars
push_new links none = links
push_new links (some id) = if is_one_of id links then links else links ++ (id ∷ [])

abbrev pub collect_links : List Chars → List Chars → List Chars
collect_links links [] = links
collect_links links (dest ∷ dests) =
    collect_links (push_new links (bundle_link_to_concept_id dest)) dests

abbrev pub Groups : Type 0
Groups = List (Chars × List (Chars × Chars))

abbrev pub push_line : Chars → Chars × Chars → Groups → Groups
push_line group line groups =
    entry (λ (ls : List (Chars × Chars)). ls ++ (line ∷ [])) (line ∷ []) group groups

-- A pair of texts is at or before another.
abbrev pub pair_leb : Chars × Chars → Chars × Chars → Bool
pair_leb (s, t) (u, v) = if text_eq s u then text_leb t v else text_leb s u

abbrev pub insert_line : Chars × Chars → List (Chars × Chars) → List (Chars × Chars)
insert_line p [] = p ∷ []
insert_line p (q ∷ qs) =
    let rest = insert_line p qs in if pair_leb p q then p ∷ q ∷ qs else q ∷ rest

unfoldable pub sort_lines : List (Chars × Chars) → List (Chars × Chars)
sort_lines [] = []
sort_lines (p ∷ ps) = insert_line p (sort_lines ps)

abbrev pub write_lines : List (Chars × Chars) → Chars
write_lines [] = []
write_lines ((key, line) ∷ ls) = line ++ (10 ∷ write_lines ls)

abbrev pub write_group : Chars × List (Chars × Chars) → Chars
write_group (group, []) = []
write_group (group, l ∷ ls) =
    codes "## " ++ (group ++ (10 ∷ 10 ∷ (write_lines (sort_lines (l ∷ ls)) ++ (10 ∷ []))))

abbrev pub write_groups : Groups → Chars
write_groups [] = []
write_groups (g ∷ gs) = write_group g ++ write_groups gs

abbrev pub has_no_lines : Chars × List (Chars × Chars) → Bool
has_no_lines (group, ls) = is_empty ls

-- `while out.ends_with("\n\n")`, the last character goes.
unfoldable pub single_end : Chars → Chars
single_end [] = []
single_end (c ∷ s) =
    let rest = single_end s in if c == 10 && chars_eq rest (10 ∷ []) then rest else c ∷ rest

abbrev pub index_head : Chars
index_head = codes "---\nokf_version: \"0.2\"\n---\n\n# Wiki Index\n\n"

unfoldable pub render_index_groups : Groups → Chars
unfolding sort_lines single_end
render_index_groups groups =
    if all has_no_lines groups
    then index_head ++ codes "_No entries yet._\n"
    else single_end (index_head ++ write_groups groups)

-- `split_once(pattern)`
abbrev pub split_once : Chars → Chars → Option (Chars × Chars)
split_once pattern text = split_at pattern text

abbrev pub target_of : Chars → Option (Chars × Chars) → Option (Chars × Chars)
target_of title none = none
target_of title (some ([], after)) = none
target_of title (some (c ∷ s, after)) = some (title, c ∷ s)

unfoldable pub parse_index_entry : Chars → Option (Chars × Chars)
unfolding split_at trim_start_matches is_whitespace
parse_index_entry line =
    bind (strip_prefix (codes "* [") (trim_start_matches is_whitespace line)) (λ rest.
      bind (split_once (codes "](/") rest)
        (λ (p : Chars × Chars). target_of p.0 (split_once (codes ".md)") p.1)))

abbrev pub Carrying : Type 0
Carrying = Groups × (List Chars × Chars)

module _ {Y : Type 0} (rules : BundleRules Y) where
  open rules use {link_targets, to_lowercase}

  unfoldable pub extract_body_links : Chars → List Chars
  unfolding bundle_link_to_concept_id
  extract_body_links content = collect_links [] (link_targets content)

  abbrev pub described : Option String → Chars
  described none = []
  described (some text) =
      let desc = trim (codes text) in if is_empty desc then [] else codes " - " ++ desc

  abbrev pub index_line : WikiEntry Y → Chars
  index_line e =
      codes "* ["
      ++ (codes e.title
          ++ (codes "](/" ++ (codes e.id ++ (codes ".md)" ++ described e.description))))

  abbrev pub add_entry : Groups → WikiEntry Y → Groups
  add_entry groups e =
      push_line (codes (unwrap_or "Uncategorized" e.entry_type))
        (to_lowercase (codes e.title), index_line e) groups

  abbrev pub entry_groups_from : Groups → List (WikiEntry Y) → Groups
  entry_groups_from groups [] = groups
  entry_groups_from groups (e ∷ es) = entry_groups_from (add_entry groups e) es

  unfoldable pub entry_groups : List (WikiEntry Y) → Groups
  unfolding entry trim
  entry_groups entries = entry_groups_from [] entries

  unfoldable pub render_index : List (WikiEntry Y) → Chars
  unfolding entry_groups render_index_groups
  render_index entries = render_index_groups (entry_groups entries)

  -- What one line of the old index that is not a heading adds.
  abbrev pub carry_entry : List Chars → Chars → Option (Chars × Chars) → Carrying → Carrying
  carry_entry failed_paths line none c = c
  carry_entry failed_paths line (some (title, target)) (groups, (carried, current)) =
      if is_one_of target failed_paths && not (is_one_of target carried)
      then (push_line current (to_lowercase title, line) groups, (target ∷ carried, current))
      else (groups, (carried, current))

  abbrev pub carry_line : List Chars → Chars → Option Chars → Carrying → Carrying
  carry_line failed_paths line (some heading) (groups, (carried, current)) =
      (groups, (carried, heading))
  carry_line failed_paths line none c = carry_entry failed_paths line (parse_index_entry line) c

  abbrev pub carry : List Chars → List Chars → Carrying → Carrying
  carry failed_paths [] c = c
  carry failed_paths (raw ∷ raws) c =
      let line = trim_end_matches is_whitespace raw in
      carry failed_paths raws (carry_line failed_paths line (strip_prefix (codes "## ") line) c)

  unfoldable pub render_index_preserving : List (WikiEntry Y) → Chars → List Chars → Chars
  unfolding entry_groups render_index_groups parse_index_entry lines trim_end_matches is_whitespace
      entry
  render_index_preserving entries existing failed_paths =
      render_index_groups
        (carry failed_paths (lines existing) (entry_groups entries, ([], codes "Uncategorized"))).0

-- `iter().position(p)`
abbrev pub position : (Chars → Bool) → List Chars → Option ℕ
position p [] = none
position p (l ∷ ls) =
    let rest = position p ls in if p l then some 0 else bind rest (λ (n : ℕ). some (suc n))

-- `insert(n, line)`, at a position that `position` gave or one behind it: it is within the lines.
abbrev pub insert_at : ℕ → Chars → List Chars → List Chars
insert_at n l ls = take n ls ++ (l ∷ drop n ls)

abbrev pub insert_all : ℕ → List Chars → List Chars → List Chars
insert_all n [] ls = ls
insert_all n (b ∷ bs) ls = insert_all (suc n) bs (insert_at n b ls)

unfoldable pub finish_log : List Chars → Chars
unfolding join ends_with
finish_log ls =
    let out = join (10 ∷ []) ls in if ends_with (10 ∷ []) out then out else out ++ (10 ∷ [])

abbrev pub log_title : Chars
log_title = codes "# Update Log"

abbrev pub date_heading : Chars → Chars
date_heading date = codes "## " ++ date

abbrev pub is_date_heading : Chars → Bool
is_date_heading l = chars_start_with (trim_start_matches is_whitespace l) (codes "## ")

abbrev pub behind : Option ℕ → ℕ
behind none = 0
behind (some n) = suc n

abbrev pub place_of_group : Option ℕ → List Chars → ℕ
place_of_group (some n) ls = n
place_of_group none ls = behind (position (λ l. chars_eq (trim l) log_title) ls)

abbrev pub log_lines : Chars → Chars → Option ℕ → List Chars → List Chars
log_lines date line (some n) ls = insert_at (suc n) line ls
log_lines date line none ls =
    insert_all (place_of_group (position is_date_heading ls) ls)
      (date_heading date ∷ line ∷ [] ∷ []) ls

unfoldable pub append_log_line : Chars → Chars → Chars → Chars
unfolding finish_log lines trim trim_start_matches is_whitespace
append_log_line existing date line =
    if is_empty (trim existing)
    then log_title ++ (10 ∷ 10 ∷ (date_heading date ++ (10 ∷ (line ++ (10 ∷ [])))))
    else finish_log (
        log_lines date line (position (λ l. chars_eq (trim l) (date_heading date)) (lines existing))
          (lines existing))
