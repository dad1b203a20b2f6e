-- ===== src/Transcript/Caps.antt =====
-- The caps on what is kept of a transcript, and the index of the open skill.
use prometheus_knowledge_rs.Prelude.{
  ℕ, suc, ◌≤◌, ◌<◌, ◌≡◌, inl, inr, not, ◌&&◌, Option, none, some, List, [], ◌∷◌, arith, ltb, leb,
  ltb→lt, Bool-cases, length, All, Chars, trim, length-append, All-append, length-take, zero, ◌+◌,
  refl, ap, Option-cases, is_empty, codes, chars_start_with,
}
use prometheus_knowledge_rs.Texts.{truncate, is_one_of}
use prometheus_knowledge_rs.Transcript.{
  SkillUse, TranscriptDigest, Parser, push_capped, is_documentation_path, open_use, push_artifact,
  push_command, push_tool, slash_command, builtin_commands, is_correction, correct_use, next_window,
  with_prompt, corrected, user_prompt, prompt,
}

abbrev pub IsShort : ℕ → Chars → Type 0
IsShort limit text = length text ≤ limit

-- At most so many texts, each of at most so many characters.
pub record IsCapped (most limit : ℕ) (texts : List Chars) : Type 0 where
  pub count : length texts ≤ most
  pub each : All (IsShort limit) texts

abbrev pub IsUse : SkillUse → Type 0
IsUse u = IsCapped 10 300 u.corrections

-- The open skill is the last one, and fewer than six prompts have been seen since.
abbrev pub IsOpen : ℕ → Option (ℕ × ℕ) → Type 0
IsOpen uses none = Unit
IsOpen uses (some (index, seen)) = (suc index ≡ uses) × (seen < 6)

pub record IsBounded (d : TranscriptDigest) : Type 0 where
  pub prompts : IsCapped 200 1000 d.prompts
  pub artifacts : IsCapped 100 200 d.artifacts
  pub commands : IsCapped 200 200 d.commands
  pub tool_sequence : length d.tool_sequence ≤ 2000
  pub skill_uses : length d.skill_uses ≤ 50
  pub corrections : All IsUse d.skill_uses

pub record IsValid (p : Parser) : Type 0 where
  pub bounded : IsBounded p.digest
  pub open_last : IsOpen (length p.digest.skill_uses) p.open_skill

-- A step that comes back, with a parser that is valid.
abbrev pub Returns : Option Parser → Type 0
Returns none = ⊥
Returns (some p) = IsValid p

pub truncate-IsShort : (limit : ℕ) (text : Chars) → IsShort limit (truncate limit text)
unfolding truncate
truncate-IsShort limit text = length-take limit text

push_capped-IsCapped :
    (most limit : ℕ) (text : Chars) (texts : List Chars)
    → IsShort limit text
    → IsCapped most limit texts
    → IsCapped most limit (push_capped most text texts)
unfolding push_capped
push_capped-IsCapped most limit text texts short capped =
    elim (Bool-cases (ltb (length texts) most)) [
      | inl room ↦ rw room (record {
        count = omega (arith, length-append texts (text ∷ []), ltb→lt (length texts) most room);
        each = All-append (IsShort limit) texts (text ∷ []) capped.each (short, tt);
      })
      | inr full ↦ rw full capped
    ]

length-push_capped :
    (most : ℕ) (text : Chars) (texts : List Chars)
    → length texts ≤ most
    → length (push_capped most text texts) ≤ most
unfolding push_capped
length-push_capped most text texts h = ground (arith, length-append texts (text ∷ []))

pub push_tool-IsValid : (token : Chars) (p : Parser) → IsValid p → IsValid (push_tool token p)
unfolding push_tool
push_tool-IsValid token p v = record {
  bounded = record {
    tool_sequence = length-push_capped 2000 token p.digest.tool_sequence v.bounded.tool_sequence;
    prompts = v.bounded.prompts;
    artifacts = v.bounded.artifacts;
    commands = v.bounded.commands;
    skill_uses = v.bounded.skill_uses;
    corrections = v.bounded.corrections;
  };
  open_last = v.open_last;
}

pub push_command-IsValid :
    (command : Chars) (p : Parser) → IsValid p → IsValid (push_command command p)
unfolding push_command
push_command-IsValid [] p v = v
push_command-IsValid (c ∷ s) p v = record {
  bounded = record {
    commands =
        push_capped-IsCapped 200 200 (truncate 200 (c ∷ s)) p.digest.commands
          (truncate-IsShort 200 (c ∷ s)) v.bounded.commands;
    prompts = v.bounded.prompts;
    artifacts = v.bounded.artifacts;
    tool_sequence = v.bounded.tool_sequence;
    skill_uses = v.bounded.skill_uses;
    corrections = v.bounded.corrections;
  };
  open_last = v.open_last;
}

pub push_artifact-IsValid : (raw : Chars) (p : Parser) → IsValid p → IsValid (push_artifact raw p)
unfolding push_artifact
push_artifact-IsValid raw p v =
    let path = truncate 200 (trim raw) in
    elim (Bool-cases (
      is_documentation_path path
      && ltb (length p.digest.artifacts) 100
      && not (is_one_of path p.digest.artifacts))) [
        | inl taken ↦ rw taken (record {
          bounded = record {
            artifacts = record {
              count =
                  ground (
                    arith,
                    length-append p.digest.artifacts (path ∷ []),
                    v.bounded.artifacts.count,
                  );
              each =
                  All-append (IsShort 200) p.digest.artifacts (path ∷ []) v.bounded.artifacts.each
                    (truncate-IsShort 200 (trim raw), tt);
            };
            prompts = v.bounded.prompts;
            commands = v.bounded.commands;
            tool_sequence = v.bounded.tool_sequence;
            skill_uses = v.bounded.skill_uses;
            corrections = v.bounded.corrections;
          };
          open_last = v.open_last;
        })
        | inr left ↦ rw left v
      ]

pub open_use-IsValid : (skill : Chars) (p : Parser) → IsValid p → IsValid (open_use skill p)
unfolding open_use
open_use-IsValid skill p v =
    let uses = p.digest.skill_uses in
    let opened : SkillUse = record { skill = skill; corrections = [] } in
    elim (Bool-cases (leb 50 (length uses))) [
      | inl full ↦ rw full (record { bounded = v.bounded; open_last = tt })
      | inr room ↦ rw room (record {
        bounded = record {
          skill_uses = ground (arith, length-append uses (opened ∷ []));
          corrections =
              All-append IsUse uses (opened ∷ []) v.bounded.corrections
                (record { count = omega arith; each = tt }, tt);
          prompts = v.bounded.prompts;
          artifacts = v.bounded.artifacts;
          commands = v.bounded.commands;
          tool_sequence = v.bounded.tool_sequence;
        };
        open_last = ground (arith, length-append uses (opened ∷ []));
      })
    ]

IsUse-correct_use :
    (index : ℕ) (text : Chars) (uses : List SkillUse)
    → IsShort 300 text
    → All IsUse uses
    → index < length uses
    → (after : List SkillUse) × (correct_use index text uses ≡ some after)
      × (length after ≡ length uses)
      × All IsUse after
unfolding correct_use
IsUse-correct_use index text [] short valid inside = absurd (omega arith)
IsUse-correct_use zero text (u ∷ us) short (capped, valid) inside = (
  record u { corrections = push_capped 10 text u.corrections } ∷ us,
  refl,
  refl,
  (push_capped-IsCapped 10 300 text u.corrections short capped, valid),
)
IsUse-correct_use (suc index) text (u ∷ us) short (capped, valid) inside =
    let (after, found, same, each) = IsUse-correct_use index text us short valid (omega arith) in
    (u ∷ after, rw found refl, ap suc same, (capped, each))

module _ (to_lowercase : Chars → Chars) where
  -- A correction of an open skill finds its place.
  IsUse-corrected :
      (text : Chars) (index : ℕ) (uses : List SkillUse)
      → All IsUse uses
      → index < length uses
      → (after : List SkillUse) × (corrected to_lowercase text index uses ≡ some after)
        × (length after ≡ length uses)
        × All IsUse after
  unfolding corrected
  IsUse-corrected text index uses valid inside =
      elim (Bool-cases (is_correction to_lowercase text)) [
        | inl meant ↦ rw meant (
            IsUse-correct_use index (truncate 300 text) uses (truncate-IsShort 300 text) valid
              inside)
        | inr other ↦ rw other (uses, refl, refl, valid)
      ]

  with_prompt-IsBounded :
      (text : Chars) (d : TranscriptDigest) → IsBounded d → IsBounded (with_prompt text d)
  unfolding with_prompt
  with_prompt-IsBounded text d b = record {
    prompts =
        push_capped-IsCapped 200 1000 (truncate 1000 text) d.prompts (truncate-IsShort 1000 text)
          b.prompts;
    artifacts = b.artifacts;
    commands = b.commands;
    tool_sequence = b.tool_sequence;
    skill_uses = b.skill_uses;
    corrections = b.corrections;
  }

  next_window-IsOpen :
      (uses index seen : ℕ) → suc index ≡ uses → IsOpen uses (next_window index seen)
  next_window-IsOpen uses index seen last = elim (Bool-cases (ltb (seen + 1) 6)) [
    | inl more ↦ rw more (last, ltb→lt (seen + 1) 6 more)
    | inr over ↦ rw over tt
  ]

  user_prompt-Returns :
      (text : Chars) (d : TranscriptDigest) (open_skill : Option (ℕ × ℕ))
      → IsValid (record { digest = d; open_skill = open_skill })
      → Returns (user_prompt to_lowercase text (record { digest = d; open_skill = open_skill }))
  unfolding user_prompt with_prompt
  user_prompt-Returns text d none v = record {
    bounded = with_prompt-IsBounded text d v.bounded;
    open_last = tt;
  }
  user_prompt-Returns text d (some (index, seen)) v =
      let (last, few) = v.open_last in
      let b = with_prompt-IsBounded text d v.bounded in
      let (after, found, same, each) =
        IsUse-corrected text index d.skill_uses v.bounded.corrections (omega arith) in
      rw found (record {
        bounded = record {
          prompts = b.prompts;
          artifacts = b.artifacts;
          commands = b.commands;
          tool_sequence = b.tool_sequence;
          skill_uses = omega (arith, v.bounded.skill_uses);
          corrections = each;
        };
        open_last = next_window-IsOpen (length after) index seen (omega arith);
      })

  pub prompt-Returns : (raw : Chars) (p : Parser) → IsValid p → Returns (prompt to_lowercase raw p)
  unfolding prompt
  prompt-Returns raw p v =
      let text = trim raw in
      elim (Bool-cases (is_empty text)) [
        | inl empty ↦ rw empty v
        | inr full ↦ rw full (elim (Option-cases (slash_command text)) [
          | inl none_named ↦ rw none_named (elim (Bool-cases (chars_start_with text (codes "<"))) [
            | inl tagged ↦ rw tagged v
            | inr plain ↦ rw plain (user_prompt-Returns text p.digest p.open_skill v)
          ])
          | inr (name, named) ↦ rw named (elim (Bool-cases (is_one_of name builtin_commands)) [
            | inl builtin ↦ rw builtin v
            | inr own ↦ rw own (open_use-IsValid name p v)
          ])
        ])
      ]
