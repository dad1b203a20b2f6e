-- ===== src/Skills/Log.antt =====
-- The log of proposed skill updates: `log_update_proposal` and `write_update_log`,
-- pk-learning-worker/src/skill_candidates.rs. Its writes work: a failure is only a warning there.
use prometheus_knowledge_rs.Prelude.{
  ℕ, Bool, not, ◌&&◌, ◌||◌, Option, none, some, List, [], ◌∷◌, ◌++◌, map, leb, ◌==◌, if◌then◌else◌,
  unwrap_or, all, is_empty, Chars, codes, is_ascii_digit,
}
use prometheus_knowledge_rs.Texts.{contains, is_one_of}

-- `pending.log` and the placeholders by name.
pub record UpdateLog : Type 0 where
  pub pending_log : Chars
  pub diffs : List (Chars × Chars)

abbrev pub is_ascii_alphanumeric : ℕ → Bool
is_ascii_alphanumeric c =
    is_ascii_digit c || (leb b'a' c && leb c b'z') || (leb b'A' c && leb c b'Z')

abbrev pub is_name_char : ℕ → Bool
is_name_char c = is_ascii_alphanumeric c || c == b'-' || c == b'_' || c == b'.'

abbrev pub marker_of : Chars → Chars → Chars
marker_of skill today = skill ++ (codes "::" ++ today)

abbrev pub log_role : Option Chars → Chars
log_role none = []
log_role (some role) = codes " role=" ++ role

abbrev pub log_lines : Chars → Chars → Chars → Option Chars → Chars
log_lines skill marker hits role =
    marker
    ++ (codes " hits="
        ++ (hits
            ++ (log_role role
                ++ (10
                    ∷ (codes "Run: /pmpo-skill-creator --update "
                        ++ (skill ++ codes "  # to review and optionally apply\n"))))))

abbrev pub placeholder : Chars → Chars → Chars → Option Chars → Chars
placeholder skill today hits role =
    codes "# Skill update candidate — "
    ++ (skill
        ++ (codes " ("
            ++ (today
                ++ (codes ")\n# Sessions with post-skill corrections: "
                    ++ (hits
                        ++ (codes "\n# Run by: "
                            ++ (unwrap_or (codes "unattributed") role
                                ++ (codes
                                      "\n#\n# This file was created by the learning worker's skill discovery.\n# It does NOT contain the actual diff yet.\n#\n# To generate and review the proposed changes, run:\n#   /pmpo-skill-creator --update "
                                    ++ (skill ++ (10 ∷ []))))))))))

abbrev pub names_of : List (Chars × Chars) → List Chars
names_of diffs = map (λ (d : Chars × Chars). d.0) diffs

unfoldable pub append_marker : Chars → Chars → Chars → Option Chars → Chars → Chars
unfolding contains
append_marker skill today hits role existing =
    if contains (marker_of skill today) existing
    then existing
    else existing ++ log_lines skill (marker_of skill today) hits role

unfoldable pub write_update_log : Chars → Chars → Chars → Option Chars → UpdateLog → UpdateLog
unfolding append_marker
write_update_log today skill hits role log =
    let name = skill ++ (b'-' ∷ (today ++ codes ".diff")) in
    record {
      pending_log = append_marker skill today hits role log.pending_log;
      diffs =
          if is_one_of name (names_of log.diffs)
          then log.diffs
          else (name, placeholder skill today hits role) ∷ log.diffs;
    }

unfoldable pub log_update_proposal : Chars → Chars → Chars → Option Chars → UpdateLog → UpdateLog
unfolding write_update_log
log_update_proposal today skill hits role log =
    if is_empty skill || not (all is_name_char skill)
    then log
    else write_update_log today skill hits role log
