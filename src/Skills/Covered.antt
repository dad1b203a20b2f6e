-- ===== src/Skills/Covered.antt =====
-- When a new skill is proposed.
use prometheus_knowledge_rs.Prelude.{
  ℕ, ◌+◌, ◌≡◌, refl, ◌∙◌, Bool, false, ◌||◌, Option, none, some, List, [], ◌∷◌, arith,
  if◌then◌else◌, is_some, any, Chars, ap, ◌*◌, ◌≤◌, ◌<◌, ◌⊎◌, String, ◌↔◌, true, map, length,
  is_empty,
}
use prometheus_knowledge_rs.Transcript.{SkillUse}
use prometheus_knowledge_rs.Texts.Ordered.{
  entry, text_eq, text_eq→eq, lookup, IsOrdered, lookup-entry, entry-IsOrdered, lookup_before,
  text_eq_refl,
}
use prometheus_knowledge_rs.Skills.Records.{WorkflowRecord, SkillRules}
use prometheus_knowledge_rs.Skills.{
  skill_set, keys, add_counts, Workflow, skills_of, invoked_from, is_covering, sessions_of,
  count_texts, recurrence_reasons, new_skill_candidate,
}

abbrev pub uses_skill : Chars → List SkillUse → Bool
uses_skill t [] = false
uses_skill t (u ∷ us) = text_eq t u.skill || uses_skill t us

-- In how many sessions a skill was used.
unfoldable pub sessions_with : Chars → List WorkflowRecord → ℕ
sessions_with t [] = 0
sessions_with t (r ∷ rs) = (if uses_skill t r.skill_uses then 1 else 0) + sessions_with t rs

abbrev count_at : Option ℕ → ℕ
count_at none = 0
count_at (some n) = n

abbrev has_text : Chars → List Chars → Bool
has_text t ts = any (text_eq t) ts

-- No text stands twice.
abbrev IsOnce : List Chars → Type 0
IsOnce [] = Unit
IsOnce (t ∷ ts) = (has_text t ts ≡ false) × IsOnce ts

skill_set-IsOrdered : (us : List SkillUse) → IsOrdered (skill_set us)
skill_set-IsOrdered [] = tt
skill_set-IsOrdered (u ∷ us) =
    entry-IsOrdered (λ v. v) tt u.skill (skill_set us) (skill_set-IsOrdered us)

has_text-lookup {ℓ} :
    {V : Type ℓ} (t : Chars) (m : List (Chars × V)) → has_text t (keys m) ≡ is_some (lookup t m)
unfolding lookup
has_text-lookup t [] = refl
has_text-lookup t ((s, v) ∷ m) = ground (arith, has_text-lookup t m)

has_text-skills_of :
    (t : Chars) (us : List SkillUse) → is_some (lookup t (skill_set us)) ≡ uses_skill t us
unfolding lookup
has_text-skills_of t [] = refl
has_text-skills_of t (u ∷ us) = ground (
  arith,
  has_text-skills_of t us,
  lookup-entry (λ (v : Unit {0}). v) tt u.skill t (skill_set us) (skill_set-IsOrdered us),
)

keys-IsOnce {ℓ} : {V : Type ℓ} (m : List (Chars × V)) → IsOrdered m → IsOnce (keys m)
keys-IsOnce [] h = tt
keys-IsOnce ((s, v) ∷ m) (hs, h) =
    (has_text-lookup s m ∙ ap is_some (lookup_before s m hs), keys-IsOnce m h)

add_counts-IsOrdered :
    (ts : List Chars) (m : List (Chars × ℕ)) → IsOrdered m → IsOrdered (add_counts ts m)
unfolding add_counts
add_counts-IsOrdered [] m h = h
add_counts-IsOrdered (t ∷ ts) m h =
    add_counts-IsOrdered ts (entry (λ n. n + 1) 1 t m) (entry-IsOrdered (λ n. n + 1) 1 t m h)

count_at-add_counts :
    (q : Chars) (ts : List Chars) (m : List (Chars × ℕ))
    → IsOrdered m
    → IsOnce ts
    → count_at (lookup q (add_counts ts m))
      ≡ (if has_text q ts then 1 else 0) + count_at (lookup q m)
unfolding add_counts
count_at-add_counts q [] m h once = omega arith
count_at-add_counts q (t ∷ ts) m h (new, once) = ground (
  arith,
  count_at-add_counts q ts (entry (λ (n : ℕ). n + 1) 1 t m) (entry-IsOrdered (λ n. n + 1) 1 t m h)
      once,
  lookup-entry (λ (n : ℕ). n + 1) 1 t q m h,
  text_eq→eq q t,
)

invoked_from-IsOrdered :
    (rs : List WorkflowRecord) (m : List (Chars × ℕ)) → IsOrdered m → IsOrdered (invoked_from rs m)
unfolding invoked_from
invoked_from-IsOrdered [] m h = h
invoked_from-IsOrdered (r ∷ rs) m h =
    invoked_from-IsOrdered rs (add_counts (skills_of r.skill_uses) m)
      (add_counts-IsOrdered (skills_of r.skill_uses) m h)

has_text-of_uses : (q : Chars) (us : List SkillUse) → has_text q (skills_of us) ≡ uses_skill q us
unfolding skills_of
has_text-of_uses q us = has_text-lookup q (skill_set us) ∙ has_text-skills_of q us

skills_of-IsOnce : (us : List SkillUse) → IsOnce (skills_of us)
unfolding skills_of
skills_of-IsOnce us = keys-IsOnce (skill_set us) (skill_set-IsOrdered us)

-- The map counts each session of a skill once.
count_at-invoked_from :
    (q : Chars) (rs : List WorkflowRecord) (m : List (Chars × ℕ))
    → IsOrdered m
    → count_at (lookup q (invoked_from rs m)) ≡ sessions_with q rs + count_at (lookup q m)
unfolding invoked_from sessions_with
count_at-invoked_from q [] m h = omega arith
count_at-invoked_from q (r ∷ rs) m h =
    let names = skills_of r.skill_uses in
    ground (
      arith,
      count_at-invoked_from q rs (add_counts names m) (add_counts-IsOrdered names m h),
      count_at-add_counts q names m h (skills_of-IsOnce r.skill_uses),
      has_text-of_uses q r.skill_uses,
    )

none_covers :
    (n : ℕ) (m : List (Chars × ℕ)) (q : Chars)
    → 0 < n
    → any (is_covering n) m ≡ false
    → count_at (lookup q m) * 2 < n
unfolding lookup
none_covers n [] q pos h = omega arith
none_covers n ((s, v) ∷ m) q pos h = ground (arith, none_covers n m q pos)

covers_none :
    (n : ℕ) (m : List (Chars × ℕ))
    → IsOrdered m
    → 0 < n
    → ((q : Chars) → count_at (lookup q m) * 2 < n)
    → any (is_covering n) m ≡ false
unfolding lookup
covers_none n [] o pos h = refl
covers_none n ((s, v) ∷ m) (os, o) pos h =
    let rest =
      covers_none n m o pos (λ q. ground (arith, h q, lookup_before s m os, text_eq→eq q s)) in
    ground (arith, rest, h s, text_eq_refl s)

abbrev pub project_count : Workflow → ℕ
project_count w = count_texts (map (λ (r : WorkflowRecord). r.project_id) (sessions_of w))

-- Three sessions, or two projects.
abbrev pub IsRecurring : Workflow → Type 0
IsRecurring w = (3 ≤ length (sessions_of w)) ⊎ (2 ≤ project_count w)

-- No skill was used in half of the sessions or more.
abbrev pub IsUncovered : Workflow → Type 0
IsUncovered w = (t : Chars) → sessions_with t (sessions_of w) * 2 < length (sessions_of w)

reasons-IsRecurring :
    (w : Workflow)
    → is_empty (recurrence_reasons (length (sessions_of w)) (project_count w)) ≡ false
    → IsRecurring w
reasons-IsRecurring w h = ground arith

IsRecurring-reasons :
    (w : Workflow)
    → IsRecurring w
    → is_empty (recurrence_reasons (length (sessions_of w)) (project_count w)) ≡ false
IsRecurring-reasons w h = ground arith

invoked_eq :
    (w : Workflow) (t : Chars)
    → count_at (lookup t (invoked_from (sessions_of w) [])) ≡ sessions_with t (sessions_of w)
unfolding lookup
invoked_eq w t = omega (arith, count_at-invoked_from t (sessions_of w) [] tt)

covers-IsUncovered :
    (w : Workflow)
    → any (is_covering (length (sessions_of w))) (invoked_from (sessions_of w) []) ≡ false
    → IsUncovered w
covers-IsUncovered w h t = omega (
  arith,
  invoked_eq w t,
  none_covers (length (sessions_of w)) (invoked_from (sessions_of w) []) t (omega arith) h,
)

IsUncovered-covers :
    (w : Workflow)
    → IsUncovered w
    → any (is_covering (length (sessions_of w))) (invoked_from (sessions_of w) []) ≡ false
IsUncovered-covers w h =
    covers_none (length (sessions_of w)) (invoked_from (sessions_of w) [])
      (invoked_from-IsOrdered (sessions_of w) [] tt) (omega arith)
      (λ q. omega (arith, invoked_eq w q, h q))

-- A cluster of sessions becomes a candidate for a new skill exactly when it has three sessions or two
-- projects, and no skill was used in half of its sessions or more.
pub new_skill_candidate-IsUncovered :
    (rules : SkillRules) (now : String) (w : Workflow)
    → (is_some (new_skill_candidate rules now w) ≡ true) ↔ (IsRecurring w × IsUncovered w)
unfolding new_skill_candidate
new_skill_candidate-IsUncovered rules now w =
    let reasons = recurrence_reasons (length (sessions_of w)) (project_count w) in
    let covers = any (is_covering (length (sessions_of w))) (invoked_from (sessions_of w) []) in
    (
      λ h.
          let plain : (is_empty reasons ≡ false) × (covers ≡ false) = ground arith in
          (reasons-IsRecurring w plain.0, covers-IsUncovered w plain.1),
      λ h. rw (IsRecurring-reasons w h.0, IsUncovered-covers w h.1) refl,
    )
