-- ===== src/Skills/Corrections.antt =====
-- The corrections of a skill in a session, and how `per_skill` collects them.
use prometheus_knowledge_rs.Prelude.{
  ◌≡◌, refl, sym, ap, ◌∙◌, inl, inr, none, some, List, [], ◌∷◌, ◌++◌, arith, Option, Bool-cases,
  All, Chars, if◌then◌else◌, unwrap_or,
}
use mathlib.Core.List.{append_assoc}
use prometheus_knowledge_rs.Transcript.{SkillUse}
use prometheus_knowledge_rs.Texts.Ordered.{
  text_eq, text_eq→eq, text_eq_sym, text_eq_refl, lookup, entry, changed, IsOrdered, IsBefore,
  lookup-entry, entry-IsOrdered,
}
use prometheus_knowledge_rs.Skills.Groups.{per_skill}

-- The corrections of all uses of a skill, in order.
abbrev pub corrections_of : Chars → List SkillUse → List Chars
corrections_of skill [] = []
corrections_of skill (u ∷ us) =
    let rest = corrections_of skill us in
    if text_eq skill u.skill then u.corrections ++ rest else rest

unwrap-changed :
    (o : Option (List Chars)) (new : List Chars)
    → unwrap_or [] (some (changed (λ cs. cs ++ new) new o)) ≡ unwrap_or [] o ++ new
unwrap-changed none new = refl
unwrap-changed (some cs) new = refl

append_nil : (xs : List Chars) → xs ++ [] ≡ xs
append_nil [] = refl
append_nil (x ∷ xs) = ap (λ ys. x ∷ ys) (append_nil xs)

lookup-use :
    (skill : Chars) (u : SkillUse) (m : List (Chars × List Chars))
    → IsOrdered m
    → unwrap_or [] (lookup skill (entry (λ cs. cs ++ u.corrections) u.corrections u.skill m))
      ≡ unwrap_or [] (lookup skill m) ++ corrections_of skill (u ∷ [])
lookup-use skill u m ordered = elim (Bool-cases (text_eq skill u.skill)) [
  | inl same ↦
      rw
        (
          lookup-entry (λ cs. cs ++ u.corrections) u.corrections u.skill skill m ordered,
          same,
          append_nil u.corrections,
        )
        (unwrap-changed (lookup u.skill m) u.corrections
          ∙ ap (λ s. unwrap_or [] (lookup s m) ++ u.corrections)
              (sym (text_eq→eq skill u.skill same)))
  | inr other ↦
      rw (lookup-entry (λ cs. cs ++ u.corrections) u.corrections u.skill skill m ordered, other)
        (sym (append_nil (unwrap_or [] (lookup skill m))))
]

corrections_of_cons :
    (skill : Chars) (u : SkillUse) (us : List SkillUse)
    → corrections_of skill (u ∷ us) ≡ corrections_of skill (u ∷ []) ++ corrections_of skill us
corrections_of_cons skill u us = elim (Bool-cases (text_eq skill u.skill)) [
  | inl same ↦ rw (same, append_nil u.corrections) refl
  | inr other ↦ rw other refl
]

lookup-per_skill :
    (skill : Chars) (us : List SkillUse) (m : List (Chars × List Chars))
    → IsOrdered m
    → unwrap_or [] (lookup skill (per_skill us m))
      ≡ unwrap_or [] (lookup skill m) ++ corrections_of skill us
unfolding per_skill
lookup-per_skill skill [] m ordered = sym (append_nil (unwrap_or [] (lookup skill m)))
lookup-per_skill skill (u ∷ us) m ordered =
    let next = entry (λ cs. cs ++ u.corrections) u.corrections u.skill m in
    lookup-per_skill skill us next (entry-IsOrdered _ _ u.skill m ordered)
    ∙ ap (λ cs. cs ++ corrections_of skill us) (lookup-use skill u m ordered)
    ∙ append_assoc (unwrap_or [] (lookup skill m)) (corrections_of skill (u ∷ []))
        (corrections_of skill us)
    ∙ ap (λ cs. unwrap_or [] (lookup skill m) ++ cs) (sym (corrections_of_cons skill u us))

per_skill-IsOrdered :
    (us : List SkillUse) (m : List (Chars × List Chars)) → IsOrdered m → IsOrdered (per_skill us m)
unfolding per_skill
per_skill-IsOrdered [] m ordered = ordered
per_skill-IsOrdered (u ∷ us) m ordered =
    per_skill-IsOrdered us _ (entry-IsOrdered _ _ u.skill m ordered)

lookup_behind :
    (s : Chars) (v : List Chars) (m rest : List (Chars × List Chars))
    → All (λ (p : Chars × List Chars). IsBefore s p.0) rest
    → All (λ (p : Chars × List Chars). lookup p.0 m ≡ some p.1) rest
    → All (λ (p : Chars × List Chars). lookup p.0 ((s, v) ∷ m) ≡ some p.1) rest
unfolding lookup
lookup_behind s v m [] hs h = tt
lookup_behind s v m ((t, w) ∷ rest) ((before, apart), hs) (e, h) =
    (ground (arith, text_eq_sym t s), lookup_behind s v m rest hs h)

lookup_all :
    (m : List (Chars × List Chars))
    → IsOrdered m
    → All (λ (p : Chars × List Chars). lookup p.0 m ≡ some p.1) m
unfolding lookup
lookup_all [] h = tt
lookup_all ((s, v) ∷ m) (hs, h) =
    (rw (text_eq_refl s) refl, lookup_behind s v m m hs (lookup_all m h))

each_found :
    (us : List SkillUse) (m rest : List (Chars × List Chars))
    → ((skill : Chars) → unwrap_or [] (lookup skill m) ≡ corrections_of skill us)
    → All (λ (p : Chars × List Chars). lookup p.0 m ≡ some p.1) rest
    → All (λ (p : Chars × List Chars). p.1 ≡ corrections_of p.0 us) rest
each_found us m [] total h = tt
each_found us m ((s, v) ∷ rest) total (e, h) =
    (ap (unwrap_or []) (sym e) ∙ total s, each_found us m rest total h)

-- What is collected under a skill are the corrections of all its uses.
pub per_skill-corrections_of :
    (us : List SkillUse)
    → All (λ (p : Chars × List Chars). p.1 ≡ corrections_of p.0 us) (per_skill us [])
unfolding lookup
per_skill-corrections_of us =
    each_found us (per_skill us []) (per_skill us []) (λ skill. lookup-per_skill skill us [] tt)
      (lookup_all (per_skill us []) (per_skill-IsOrdered us [] tt))
