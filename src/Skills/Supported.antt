-- ===== src/Skills/Supported.antt =====
-- Which sessions a skill's update rests on, and what is logged of it.
use prometheus_knowledge_rs.Prelude.{
  ◌≤◌, ◌<◌, ◌≡◌, refl, ap, ◌∙◌, inl, inr, true, false, Option, none, some, List, [], ◌∷◌, ◌++◌,
  arith, String, leb, leb→le, Bool-cases, length, All, Chars, length-append, chars_start_with,
  All-append,
}
use mathlib.Core.List.{append_assoc}
use prometheus_knowledge_rs.Texts.{contains}
use prometheus_knowledge_rs.Texts.Ordered.{text_eq→eq}
use prometheus_knowledge_rs.Skills.Records.{WorkflowRecord, SkillRules}
use prometheus_knowledge_rs.Skills.Groups.{
  Group, GroupKey, option_eq, key_eq, key_leb, per_skill, add_session, key_of, add_skills,
  groups_of, update_candidates,
}
use prometheus_knowledge_rs.Skills.Corrections.{corrections_of, per_skill-corrections_of}
use prometheus_knowledge_rs.Skills.Log.{marker_of, append_marker}

option_eq→eq : (a b : Option Chars) → option_eq a b ≡ true → a ≡ b
option_eq→eq none none h = refl
option_eq→eq none (some b) h = cc
option_eq→eq (some a) none h = cc
option_eq→eq (some a) (some b) h = ap some (text_eq→eq a b h)

-- The session is of the key's team and role, and the corrections kept with it are those of all its uses
-- of the key's skill, at least two.
abbrev pub IsSupport : GroupKey → WorkflowRecord × List Chars → Type 0
IsSupport key (r, corrections) =
    (r.team_id ≡ key.team_id)
    × (r.role_id ≡ key.role_id)
    × (2 ≤ length corrections)
    × (corrections ≡ corrections_of key.skill r.skill_uses)

abbrev pub IsSupported : Group → Type 0
IsSupported g = (1 ≤ length g.sessions) × All (IsSupport g.key) g.sessions

moved :
    (a b : GroupKey) (r : WorkflowRecord) (cs : List Chars)
    → key_eq a b ≡ true
    → IsSupport a (r, cs)
    → IsSupport b (r, cs)
moved a b r cs same (team, role, enough, all_of) =
    let parts : (option_eq a.team_id b.team_id ≡ true) × (option_eq a.role_id b.role_id ≡ true) =
      ground arith in
    let skill : a.skill ≡ b.skill = text_eq→eq a.skill b.skill (ground arith) in
    (
      team ∙ option_eq→eq a.team_id b.team_id parts.0,
      role ∙ option_eq→eq a.role_id b.role_id parts.1,
      enough,
      all_of ∙ ap (λ s. corrections_of s r.skill_uses) skill,
    )

add_session-IsSupported :
    (key : GroupKey) (r : WorkflowRecord) (cs : List Chars) (gs : List Group)
    → IsSupport key (r, cs)
    → All IsSupported gs
    → All IsSupported (add_session key (r, cs) gs)
unfolding add_session
add_session-IsSupported key r cs [] new h = ((omega arith, (new, tt)), tt)
add_session-IsSupported key r cs (g ∷ gs) new (hg, h) = elim (Bool-cases (key_eq key g.key)) [
  | inl same ↦ rw same (
    (
      omega (arith, length-append g.sessions ((r, cs) ∷ [])),
      All-append (IsSupport g.key) g.sessions ((r, cs) ∷ []) hg.1
          (moved key g.key r cs same new, tt),
    ),
    h,
  )
  | inr other ↦ rw other (elim (Bool-cases (key_leb key g.key)) [
    | inl first ↦ rw first ((omega arith, (new, tt)), (hg, h))
    | inr later ↦ rw later (hg, add_session-IsSupported key r cs gs new h)
  ])
]

add_skills-IsSupported :
    (r : WorkflowRecord) (m : List (Chars × List Chars)) (gs : List Group)
    → All (λ (p : Chars × List Chars). p.1 ≡ corrections_of p.0 r.skill_uses) m
    → All IsSupported gs
    → All IsSupported (add_skills r m gs)
unfolding add_skills
add_skills-IsSupported r [] gs from h = h
add_skills-IsSupported r ((skill, cs) ∷ m) gs (all_of, from) h =
    elim (Bool-cases (leb 2 (length cs))) [
      | inl enough ↦ rw enough (
          add_skills-IsSupported r m (add_session (key_of skill r) (r, cs) gs) from (
            add_session-IsSupported (key_of skill r) r cs gs
              (refl, refl, leb→le 2 (length cs) enough, all_of) h))
      | inr few ↦ rw few (add_skills-IsSupported r m gs from h)
    ]

-- Every group of sessions for a skill's update has at least one session. Each is of the update's team
-- and role, and is kept with the corrections of all its uses of that skill, at least two, if that is
-- so of the groups to begin with.
pub groups_of-IsSupported :
    (rs : List WorkflowRecord) (gs : List Group)
    → All IsSupported gs
    → All IsSupported (groups_of rs gs)
unfolding groups_of
groups_of-IsSupported [] gs h = h
groups_of-IsSupported (r ∷ rs) gs h =
    groups_of-IsSupported rs (add_skills r (per_skill r.skill_uses []) gs) (
      add_skills-IsSupported r (per_skill r.skill_uses []) gs
        (per_skill-corrections_of r.skill_uses) h)

-- At most one correction of each skill in the session.
abbrev pub IsCalm : WorkflowRecord → Type 0
IsCalm r = All (λ (p : Chars × List Chars). length p.1 < 2) (per_skill r.skill_uses [])

add_skills_calm :
    (r : WorkflowRecord) (m : List (Chars × List Chars)) (gs : List Group)
    → All (λ (p : Chars × List Chars). length p.1 < 2) m
    → add_skills r m gs ≡ gs
unfolding add_skills
add_skills_calm r [] gs h = refl
add_skills_calm r ((skill, cs) ∷ m) gs (few, h) =
    let short : leb 2 (length cs) ≡ false = ground arith in rw short (add_skills_calm r m gs h)

groups_of_calm : (rs : List WorkflowRecord) → All IsCalm rs → groups_of rs [] ≡ []
unfolding groups_of
groups_of_calm [] h = refl
groups_of_calm (r ∷ rs) (calm, h) =
    rw (add_skills_calm r (per_skill r.skill_uses []) [] calm) (groups_of_calm rs h)

-- Corrections are not counted over sessions: where no session corrects a skill more than once, no
-- update is proposed, however many sessions there are.
pub update_candidates_calm :
    (rules : SkillRules) (now : String) (rs : List WorkflowRecord)
    → All IsCalm rs
    → update_candidates rules now rs ≡ []
unfolding update_candidates
update_candidates_calm rules now rs h = rw (groups_of_calm rs h) refl

start_with-append : (p s : Chars) → chars_start_with (p ++ s) p ≡ true
start_with-append [] [] = refl
start_with-append [] (c ∷ s) = refl
start_with-append (c ∷ p) s = ground (arith, start_with-append p s)

contains-append : (p a b : Chars) → contains p (a ++ (p ++ b)) ≡ true
unfolding contains
contains-append [] [] [] = refl
contains-append [] [] (c ∷ b) = refl
contains-append (c ∷ p) [] b = rw (start_with-append (c ∷ p) b) refl
contains-append p (c ∷ a) b = ground (arith, contains-append p a b)

-- Once a skill whose name ends in another skill's name has been logged on a day, no line is logged
-- for that other skill on the day.
pub append_marker-suffix :
    (front skill today hits before behind : Chars) (role : Option Chars)
    → let log = before ++ (marker_of (front ++ skill) today ++ behind) in
      append_marker skill today hits role log ≡ log
unfolding append_marker
append_marker-suffix front skill today hits before behind role =
    let mark = marker_of skill today in
    let same : before ++ (marker_of (front ++ skill) today ++ behind)
        ≡ (before ++ front) ++ (mark ++ behind) =
      simp append_assoc in
    rw (ap (contains mark) same, contains-append mark (before ++ front) behind) refl
