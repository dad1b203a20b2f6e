-- ===== src/Transcript.antt =====
-- Transcripts: `parse_reader`, `Parser` and what it calls, pk-learning-worker/src/transcript.rs.
--
-- serde_json's values are a parameter, `Json`: its accessors and the parser of one line. Lower case is
-- a parameter too. Texts are lists of code points and the file is a list of bytes, after which the
-- reader may fail. An index out of range ends the process, which is `none`.
pub mod Caps
pub mod Reads
use prometheus_knowledge_rs.Prelude.{
  ℕ, zero, suc, ◌+◌, ◌*◌, ◌<◌, Bool, false, not, ◌&&◌, ◌||◌, Option, none, some, List, [], ◌∷◌,
  ◌++◌, String, ltb, leb, ◌==◌, if◌then◌else◌, bind, or_else, unwrap_or, length, take, keep, any,
  is_empty, filter_map, Chars, codes, trim_start_matches, trim, chars_eq, chars_start_with,
}
use prometheus_knowledge_rs.Texts.{
  truncate, split, after_last, first_word, contains, ends_with, is_one_of, join,
}

pub record Json (V : Type 0) : Type 0 where
  pub parse : List ℕ → Option V
  pub null : V
  pub get : String → V → Option V
  pub pointer : String → V → Option V
  pub as_str : V → Option Chars
  pub as_bool : V → Option Bool
  pub as_array : V → Option (List V)

pub record SkillUse : Type 0 where
  pub skill : Chars
  pub corrections : List Chars

pub record TranscriptDigest : Type 0 where
  pub prompts : List Chars
  pub artifacts : List Chars
  pub commands : List Chars
  pub tool_sequence : List Chars
  pub skill_uses : List SkillUse

-- `open_skill`: the index into `skill_uses` and the user prompts seen since it ran.
pub record Parser : Type 0 where
  pub digest : TranscriptDigest
  pub open_skill : Option (ℕ × ℕ)

pub empty_parser : Parser
empty_parser = record {
  digest = record {
    prompts = [];
    artifacts = [];
    commands = [];
    tool_sequence = [];
    skill_uses = [];
  };
  open_skill = none;
}

-- `if list.len() < limit { list.push(x) }`
unfoldable pub push_capped : ℕ → Chars → List Chars → List Chars
push_capped limit x xs = if ltb (length xs) limit then xs ++ (x ∷ []) else xs

-- `plugin:skill` and `/skill` both name the skill `skill`.
unfoldable pub normalize_skill : Chars → Chars
unfolding trim trim_start_matches after_last
normalize_skill raw = trim (after_last b':' (trim_start_matches (λ c. c == b'/') (trim raw)))

abbrev pub non_empty : Chars → Option Chars
non_empty [] = none
non_empty (c ∷ s) = some (c ∷ s)

abbrev pub first_of : List Chars → Option Chars
first_of [] = none
first_of (x ∷ xs) = some x

abbrev pub second_of : List Chars → Option Chars
second_of [] = none
second_of (x ∷ xs) = first_of xs

unfoldable pub slash_command : Chars → Option Chars
unfolding split normalize_skill
slash_command text = bind (second_of (split (codes "<command-name>") text)) (λ (rest : Chars).
    bind (first_of (split (codes "</command-name>") rest))
      (λ (name : Chars). non_empty (normalize_skill name)))

unfoldable pub is_documentation_path : Chars → Bool
unfolding contains ends_with
is_documentation_path path =
    contains (codes "/docs/") (b'/' ∷ path)
    || contains (codes "/reports/") (b'/' ∷ path)
    || ends_with (codes ".md") path

abbrev pub builtin_commands : List Chars
builtin_commands =
    codes "clear"
    ∷ codes "compact"
    ∷ codes "config"
    ∷ codes "cost"
    ∷ codes "exit"
    ∷ codes "help"
    ∷ codes "init"
    ∷ codes "login"
    ∷ codes "logout"
    ∷ codes "mcp"
    ∷ codes "memory"
    ∷ codes "model"
    ∷ codes "permissions"
    ∷ codes "plugin"
    ∷ codes "resume"
    ∷ codes "status"
    ∷ []

abbrev pub correction_prefixes : List Chars
correction_prefixes =
    codes "no," ∷ codes "no." ∷ codes "no " ∷ codes "nope" ∷ codes "stop" ∷ codes "wait," ∷ []

abbrev pub correction_phrases : List Chars
correction_phrases =
    codes "don't"
    ∷ codes "do not"
    ∷ codes "dont "
    ∷ codes "that's not"
    ∷ codes "thats not"
    ∷ codes "not what i"
    ∷ codes "wrong"
    ∷ codes "incorrect"
    ∷ codes "instead"
    ∷ codes "you missed"
    ∷ codes "you forgot"
    ∷ codes "should have"
    ∷ codes "shouldn't"
    ∷ codes "should not"
    ∷ codes "revert"
    ∷ codes "undo"
    ∷ codes "redo"
    ∷ codes "try again"
    ∷ codes "rather than"
    ∷ []

abbrev pub artifact_tools : List Chars
artifact_tools = codes "Write" ∷ codes "Edit" ∷ codes "MultiEdit" ∷ codes "NotebookEdit" ∷ []

unfoldable pub is_correction : (Chars → Chars) → Chars → Bool
unfolding trim contains
is_correction to_lowercase text =
    let lower = to_lowercase (trim text) in
    any (chars_start_with lower) correction_prefixes
    || any (λ p. contains p lower) correction_phrases

-- `Parser::skill`
unfoldable pub open_use : Chars → Parser → Parser
open_use skill p =
    let d = p.digest in
    if leb 50 (length d.skill_uses) then record p { open_skill = none } else record {
      digest = record d {
        skill_uses = d.skill_uses ++ (record { skill = skill; corrections = [] } ∷ []);
      };
      open_skill = some (length d.skill_uses, 0);
    }

-- `skill_uses[index]`, with one more correction if there is room.
unfoldable pub correct_use : ℕ → Chars → List SkillUse → Option (List SkillUse)
unfolding push_capped
correct_use index text [] = none
correct_use zero text (u ∷ us) =
    some (record u { corrections = push_capped 10 text u.corrections } ∷ us)
correct_use (suc index) text (u ∷ us) =
    bind (correct_use index text us) (λ (rest : List SkillUse). some (u ∷ rest))

abbrev pub next_window : ℕ → ℕ → Option (ℕ × ℕ)
next_window index seen = if ltb (seen + 1) 6 then some (index, seen + 1) else none

unfoldable pub with_prompt : Chars → TranscriptDigest → TranscriptDigest
unfolding push_capped truncate
with_prompt text d = record d { prompts = push_capped 200 (truncate 1000 text) d.prompts }

module _ (to_lowercase : Chars → Chars) where
  unfoldable pub corrected : Chars → ℕ → List SkillUse → Option (List SkillUse)
  unfolding truncate correct_use
  corrected text index uses =
      if is_correction to_lowercase text
      then correct_use index (truncate 300 text) uses
      else some uses

  -- The end of `Parser::prompt`: the prompt is kept, and counted for the open skill.
  unfoldable pub user_prompt : Chars → Parser → Option Parser
  user_prompt text p =
      let d = with_prompt text p.digest in
      elim p.open_skill [
        | none ↦ some (record p { digest = d })
        | some (index, seen) ↦ bind (corrected text index d.skill_uses) (λ (uses : List SkillUse).
            some (record {
              digest = record d { skill_uses = uses };
              open_skill = next_window index seen;
            }))
      ]

  abbrev pub command_prompt : Chars → Chars → Parser → Option Parser
  command_prompt name text p = some (if is_one_of name builtin_commands then p else open_use name p)

  abbrev pub text_prompt : Chars → Parser → Option Parser
  text_prompt text p = if chars_start_with text (codes "<") then some p else user_prompt text p

  unfoldable pub prompt : Chars → Parser → Option Parser
  unfolding trim
  prompt raw p =
      let text = trim raw in
      if is_empty text then some p else elim (slash_command text) [
        | some name ↦ command_prompt name text p
        | none ↦ text_prompt text p
      ]

-- `Parser::artifact`, for the path that the input names.
unfoldable pub push_artifact : Chars → Parser → Parser
unfolding truncate trim
push_artifact raw p =
    let d = p.digest in
    let path = truncate 200 (trim raw) in
    if is_documentation_path path
      && ltb (length d.artifacts) 100
      && not (is_one_of path d.artifacts)
    then record p { digest = record d { artifacts = d.artifacts ++ (path ∷ []) } }
    else p

unfoldable pub push_command : Chars → Parser → Parser
unfolding push_capped truncate
push_command command p = if is_empty command then p else record p {
  digest = record p.digest { commands = push_capped 200 (truncate 200 command) p.digest.commands };
}

unfoldable pub push_tool : Chars → Parser → Parser
unfolding push_capped
push_tool token p = record p {
  digest = record p.digest { tool_sequence = push_capped 2000 token p.digest.tool_sequence };
}

-- The token of a Bash call: its first word, if it has one.
abbrev pub bash_token : Option Chars → Chars
bash_token none = codes "Bash"
bash_token (some program) = codes "Bash:" ++ truncate 40 program

module _ {V : Type 0} (json : Json V) (to_lowercase : Chars → Chars) where
  open json use {get, pointer, as_str, as_bool, as_array}

  abbrev pub string_at : String → V → Option Chars
  string_at key value = bind (get key value) as_str

  abbrev pub path_artifact : Option Chars → Parser → Parser
  path_artifact none p = p
  path_artifact (some path) p = push_artifact path p

  unfoldable pub artifact : V → Parser → Parser
  artifact input p =
      path_artifact
        (bind
          (or_else (or_else (get "file_path" input) (get "notebook_path" input)) (get "path" input))
          as_str)
        p

  abbrev pub skill_of : V → Option Chars
  skill_of input =
      bind (bind (or_else (get "skill" input) (get "name" input)) as_str)
        (λ (raw : Chars). non_empty (normalize_skill raw))

  abbrev pub skill_tool : Option Chars → Parser → Parser
  skill_tool none p = push_tool (codes "Skill") p
  skill_tool (some skill) p = push_tool (codes "Skill:" ++ skill) (open_use skill p)

  abbrev pub bash_tool : V → Parser → Parser
  bash_tool input p =
      let command = trim (unwrap_or [] (string_at "command" input)) in
      push_tool (bash_token (first_word command)) (push_command command p)

  unfoldable pub tool : Chars → V → Parser → Parser
  unfolding normalize_skill trim truncate first_word push_command push_tool
  tool name input p =
      if chars_eq name (codes "Skill")
      then skill_tool (skill_of input) p
      else if chars_eq name (codes "Bash")
      then bash_tool input p
      else push_tool name (if is_one_of name artifact_tools then artifact input p else p)

  abbrev pub is_type : String → V → Bool
  is_type kind block = elim (string_at "type" block) [
    | none ↦ false
    | some t ↦ chars_eq t (codes kind)
  ]

  abbrev pub tool_block : V → Parser → Parser
  tool_block block p = if not (is_type "tool_use" block) then p else elim (string_at "name" block) [
    | none ↦ p
    | some name ↦ tool name (unwrap_or json.null (get "input" block)) p
  ]

  abbrev pub tool_blocks : List V → Parser → Parser
  tool_blocks [] p = p
  tool_blocks (block ∷ blocks) p = tool_blocks blocks (tool_block block p)

  abbrev pub array_tools : Option (List V) → Parser → Parser
  array_tools none p = p
  array_tools (some blocks) p = tool_blocks blocks p

  unfoldable pub assistant : V → Parser → Parser
  assistant content p = array_tools (as_array content) p

  abbrev pub texts_of : List V → List Chars
  texts_of blocks =
      filter_map (λ (block : V). string_at "text" block) (keep (is_type "text") blocks)

  abbrev pub blocks_prompt : Chars → Parser → Option Parser
  blocks_prompt text p = if is_empty text then some p else prompt to_lowercase text p

  abbrev pub content_prompt : Option Chars → Option (List V) → Parser → Option Parser
  content_prompt (some text) blocks p = prompt to_lowercase text p
  content_prompt none none p = some p
  content_prompt none (some blocks) p = blocks_prompt (join (codes "\n") (texts_of blocks)) p

  unfoldable pub user : V → Parser → Option Parser
  user content p = content_prompt (as_str content) (as_array content) p

  abbrev pub role_of : V → Chars
  role_of value = unwrap_or [] (
      bind (or_else (or_else (pointer "/message/role" value) (get "role" value)) (get "type" value))
        as_str)

  abbrev pub by_role : Chars → V → Parser → Option Parser
  by_role role content p =
      if chars_eq role (codes "user")
      then user content p
      else some (if chars_eq role (codes "assistant") then assistant content p else p)

  unfoldable pub line : V → Parser → Option Parser
  line value p =
      if unwrap_or false (bind (get "isMeta" value) as_bool)
      then some p
      else elim (or_else (pointer "/message/content" value) (get "content" value)) [
        | none ↦ some p
        | some content ↦ by_role (role_of value) content p
      ]

  -- A line that does not parse is skipped.
  abbrev pub parsed_line : Option V → Parser → Option Parser
  parsed_line none p = some p
  parsed_line (some value) p = line value p

  abbrev pub read_line : List ℕ → Parser → Option Parser
  read_line bytes p = parsed_line (json.parse bytes) p

  unfoldable pub read_lines : List (List ℕ) → Parser → Option Parser
  read_lines [] p = some p
  read_lines (bytes ∷ rest) p = bind (read_line bytes p) (λ (q : Parser). read_lines rest q)

  -- The lines of the file; the unfinished line before a failure is lost.
  unfoldable pub lines_of : Bool → List ℕ → List ℕ → List (List ℕ)
  lines_of fails read [] = if is_empty read || fails then [] else read ∷ []
  lines_of fails read (b ∷ bytes) =
      let closed = lines_of fails [] bytes in
      let longer = lines_of fails (read ++ (b ∷ [])) bytes in
      if b == 10 then read ∷ closed else longer

  unfoldable pub parse_reader : ℕ → Bool → List ℕ → Option TranscriptDigest
  unfolding read_lines lines_of empty_parser
  parse_reader limit fails bytes =
      bind
        (read_lines (lines_of (fails && ltb (length bytes) limit) [] (take limit bytes))
          empty_parser)
        (λ (p : Parser). some p.digest)

abbrev pub max_transcript_bytes : ℕ
max_transcript_bytes = 8 * 1024 * 1024
