-- ===== src/Transcript/Reads.antt =====
-- Whole transcripts: what `parse_reader` returns.
use prometheus_knowledge_rs.Prelude.{
  ℕ, inl, inr, Bool, true, false, Option, none, some, List, [], ◌∷◌, ◌++◌, if◌then◌else◌,
  Bool-cases, Option-cases, bind, or_else, unwrap_or, Chars, codes, trim, chars_eq, ◌<◌, ◌≡◌, refl,
  ◌&&◌, arith, ltb, lt→ltb, length, take,
}
use prometheus_knowledge_rs.Texts.{first_word, is_one_of, join}
use prometheus_knowledge_rs.Transcript.Caps.{
  IsValid, Returns, push_tool-IsValid, push_command-IsValid, push_artifact-IsValid,
  open_use-IsValid, prompt-Returns, IsCapped, IsBounded,
}
use prometheus_knowledge_rs.Transcript.{
  Json, Parser, empty_parser, artifact_tools, open_use, push_command, push_tool, bash_token,
  string_at, artifact, skill_of, skill_tool, bash_tool, tool, is_type, tool_block, tool_blocks,
  assistant, texts_of, blocks_prompt, user, role_of, by_role, line, read_lines, TranscriptDigest,
  push_capped, path_artifact, array_tools, content_prompt, read_line, lines_of, parse_reader,
  parsed_line,
}

module _ {V : Type 0} (json : Json V) (to_lowercase : Chars → Chars) where
  open json use {get, pointer, as_str, as_bool, as_array}

  path_artifact-IsValid :
      (path : Option Chars) (p : Parser)
      → IsValid p
      → IsValid (path_artifact json to_lowercase path p)
  path_artifact-IsValid none p v = v
  path_artifact-IsValid (some path) p v = push_artifact-IsValid path p v

  artifact-IsValid :
      (input : V) (p : Parser) → IsValid p → IsValid (artifact json to_lowercase input p)
  unfolding artifact
  artifact-IsValid input p v = path_artifact-IsValid _ p v

  skill_tool-IsValid :
      (skill : Option Chars) (p : Parser)
      → IsValid p
      → IsValid (skill_tool json to_lowercase skill p)
  skill_tool-IsValid none p v = push_tool-IsValid (codes "Skill") p v
  skill_tool-IsValid (some skill) p v =
      push_tool-IsValid (codes "Skill:" ++ skill) (open_use skill p) (open_use-IsValid skill p v)

  bash_tool-IsValid :
      (input : V) (p : Parser) → IsValid p → IsValid (bash_tool json to_lowercase input p)
  bash_tool-IsValid input p v =
      let command = trim (unwrap_or [] (string_at json to_lowercase "command" input)) in
      push_tool-IsValid (bash_token (first_word command)) (push_command command p)
        (push_command-IsValid command p v)

  named_tool-IsValid :
      (edits : Bool) (name : Chars) (input : V) (p : Parser)
      → IsValid p
      → IsValid (push_tool name (if edits then artifact json to_lowercase input p else p))
  named_tool-IsValid true name input p v =
      push_tool-IsValid name (artifact json to_lowercase input p) (artifact-IsValid input p v)
  named_tool-IsValid false name input p v = push_tool-IsValid name p v

  tool-IsValid :
      (name : Chars) (input : V) (p : Parser)
      → IsValid p
      → IsValid (tool json to_lowercase name input p)
  unfolding tool
  tool-IsValid name input p v = elim (Bool-cases (chars_eq name (codes "Skill"))) [
    | inl skill ↦ rw skill (skill_tool-IsValid (skill_of json to_lowercase input) p v)
    | inr other ↦ rw other (elim (Bool-cases (chars_eq name (codes "Bash"))) [
      | inl bash ↦ rw bash (bash_tool-IsValid input p v)
      | inr own ↦ rw own (named_tool-IsValid (is_one_of name artifact_tools) name input p v)
    ])
  ]

  tool_block-IsValid :
      (block : V) (p : Parser) → IsValid p → IsValid (tool_block json to_lowercase block p)
  tool_block-IsValid block p v = elim (Bool-cases (is_type json to_lowercase "tool_use" block)) [
    | inr other ↦ rw other v
    | inl use_block ↦ rw use_block (elim (Option-cases (string_at json to_lowercase "name" block)) [
      | inl absent ↦ rw absent v
      | inr (name, named) ↦
          rw named (tool-IsValid name (unwrap_or json.null (get "input" block)) p v)
    ])
  ]

  tool_blocks-IsValid :
      (blocks : List V) (p : Parser) → IsValid p → IsValid (tool_blocks json to_lowercase blocks p)
  tool_blocks-IsValid [] p v = v
  tool_blocks-IsValid (block ∷ blocks) p v =
      tool_blocks-IsValid blocks (tool_block json to_lowercase block p)
        (tool_block-IsValid block p v)

  array_tools-IsValid :
      (blocks : Option (List V)) (p : Parser)
      → IsValid p
      → IsValid (array_tools json to_lowercase blocks p)
  array_tools-IsValid none p v = v
  array_tools-IsValid (some blocks) p v = tool_blocks-IsValid blocks p v

  assistant-IsValid :
      (content : V) (p : Parser) → IsValid p → IsValid (assistant json to_lowercase content p)
  unfolding assistant
  assistant-IsValid content p v = array_tools-IsValid (as_array content) p v

  blocks_prompt-Returns :
      (text : Chars) (p : Parser) → IsValid p → Returns (blocks_prompt json to_lowercase text p)
  blocks_prompt-Returns [] p v = v
  blocks_prompt-Returns (c ∷ s) p v = prompt-Returns to_lowercase (c ∷ s) p v

  content_prompt-Returns :
      (text : Option Chars) (blocks : Option (List V)) (p : Parser)
      → IsValid p
      → Returns (content_prompt json to_lowercase text blocks p)
  content_prompt-Returns (some text) blocks p v = prompt-Returns to_lowercase text p v
  content_prompt-Returns none none p v = v
  content_prompt-Returns none (some blocks) p v =
      blocks_prompt-Returns (join (codes "\n") (texts_of json to_lowercase blocks)) p v

  user-Returns : (content : V) (p : Parser) → IsValid p → Returns (user json to_lowercase content p)
  unfolding user
  user-Returns content p v = content_prompt-Returns (as_str content) (as_array content) p v

  by_role-Returns :
      (role : Chars) (content : V) (p : Parser)
      → IsValid p
      → Returns (by_role json to_lowercase role content p)
  by_role-Returns role content p v = elim (Bool-cases (chars_eq role (codes "user"))) [
    | inl by_user ↦ rw by_user (user-Returns content p v)
    | inr other ↦ rw other (elim (Bool-cases (chars_eq role (codes "assistant"))) [
      | inl by_agent ↦ rw by_agent (assistant-IsValid content p v)
      | inr neither ↦ rw neither v
    ])
  ]

  line-Returns : (value : V) (p : Parser) → IsValid p → Returns (line json to_lowercase value p)
  unfolding line
  line-Returns value p v = elim (Bool-cases (unwrap_or false (bind (get "isMeta" value) as_bool))) [
    | inl meta ↦ rw meta v
    | inr shown ↦
        rw shown
          (elim (Option-cases (or_else (pointer "/message/content" value) (get "content" value))) [
            | inl absent ↦ rw absent v
            | inr (content, held) ↦
                rw held (by_role-Returns (role_of json to_lowercase value) content p v)
          ])
  ]

  bind-Returns :
      (q : Option Parser) (next : Parser → Option Parser)
      → Returns q
      → ((r : Parser) → IsValid r → Returns (next r))
      → Returns (bind q next)
  bind-Returns none next v h = elim v [ ]
  bind-Returns (some q) next v h = h q v

  parsed_line-Returns :
      (value : Option V) (p : Parser) → IsValid p → Returns (parsed_line json to_lowercase value p)
  parsed_line-Returns none p v = v
  parsed_line-Returns (some value) p v = line-Returns value p v

  read_lines-Returns :
      (lines : List (List ℕ)) (p : Parser)
      → IsValid p
      → Returns (read_lines json to_lowercase lines p)
  unfolding read_lines
  read_lines-Returns [] p v = v
  read_lines-Returns (bytes ∷ rest) p v =
      bind-Returns (read_line json to_lowercase bytes p) (λ r. read_lines json to_lowercase rest r)
        (parsed_line-Returns (json.parse bytes) p v) (λ r w. read_lines-Returns rest r w)

  nothing-IsCapped : (most limit : ℕ) → IsCapped most limit []
  nothing-IsCapped most limit = record { count = omega arith; each = tt }

  empty_parser-IsValid : IsValid empty_parser
  unfolding empty_parser
  empty_parser-IsValid = record {
    bounded = record {
      prompts = nothing-IsCapped 200 1000;
      artifacts = nothing-IsCapped 100 200;
      commands = nothing-IsCapped 200 200;
      tool_sequence = omega arith;
      skill_uses = omega arith;
      corrections = tt;
    };
    open_last = tt;
  }

  digest-Returns :
      (q : Option Parser)
      → Returns q
      → (d : TranscriptDigest) × (bind q (λ (p : Parser). some p.digest) ≡ some d) × IsBounded d
  digest-Returns none v = elim v [ ]
  digest-Returns (some p) v = (p.digest, refl, v.bounded)

  -- Every transcript, of whatever bytes and cut off wherever the reader fails, is read to the end: no
  -- index is out of range. What is kept is bounded: at most 200 prompts of 1000 characters, 100
  -- artifacts of 200, 200 commands of 200, 2000 tools, and 50 skill uses with at most 10 corrections of
  -- 300 characters each.
  pub parse_reader-IsBounded :
      (limit : ℕ) (fails : Bool) (bytes : List ℕ)
      → (d : TranscriptDigest) × (parse_reader json to_lowercase limit fails bytes ≡ some d)
        × IsBounded d
  unfolding parse_reader
  parse_reader-IsBounded limit fails bytes =
      let lines =
        lines_of json to_lowercase (fails && ltb (length bytes) limit) [] (take limit bytes) in
      digest-Returns (read_lines json to_lowercase lines empty_parser)
        (read_lines-Returns lines empty_parser empty_parser-IsValid)

  -- A tool that is none of the six known ones is kept under its name, however long the name is, as
  -- long as fewer than 2000 tools have been kept.
  pub tool-verbatim :
      (name : Chars) (input : V) (p : Parser)
      → chars_eq name (codes "Skill") ≡ false
      → chars_eq name (codes "Bash") ≡ false
      → is_one_of name artifact_tools ≡ false
      → length p.digest.tool_sequence < 2000
      → (tool json to_lowercase name input p).digest.tool_sequence
        ≡ p.digest.tool_sequence ++ (name ∷ [])
  unfolding tool push_tool push_capped
  tool-verbatim name input p skill bash edits room =
      rw (skill, bash, edits, lt→ltb (length p.digest.tool_sequence) 2000 room) refl
