-- ===== src/Article/Inside.antt =====
-- Where the segments of an id lead.
use prometheus_knowledge_rs.Prelude.{
  ◌≡◌, refl, true, false, ◌||◌, List, [], ◌∷◌, arith, ◌==◌, if◌then◌else◌, any, all, is_empty,
  Chars, chars_eq, chars_start_with,
}
use prometheus_knowledge_rs.Article.{split, ends_in_dot_or_space, is_safe_segment, is_safe_path}

-- Where the segments lead from a directory, given as its segments from the last to the first: `..`
-- leaves a directory, `.` and the empty segment stay in it.
abbrev pub parent : List Chars → List Chars
parent [] = []
parent (s ∷ above) = above

unfoldable pub walk : List Chars → List Chars → List Chars
walk place [] = place
walk place (segment ∷ segments) =
    if chars_eq segment (b'.' ∷ b'.' ∷ [])
    then walk (parent place) segments
    else if chars_eq segment (b'.' ∷ []) || is_empty segment
    then walk place segments
    else walk (segment ∷ place) segments

abbrev pub reverse_onto : List Chars → List Chars → List Chars
reverse_onto place [] = place
reverse_onto place (segment ∷ segments) = reverse_onto (segment ∷ place) segments

dots_unsafe :
    (segment : Chars)
    → is_safe_segment segment ≡ true
    → (chars_eq segment (b'.' ∷ b'.' ∷ []) ≡ false)
      × (chars_eq segment (b'.' ∷ []) ≡ false)
      × (is_empty segment ≡ false)
unfolding is_safe_segment ends_in_dot_or_space
dots_unsafe [] h = ground arith
dots_unsafe (c ∷ []) h = ground arith
dots_unsafe (c ∷ d ∷ []) h = ground arith
dots_unsafe (c ∷ d ∷ e ∷ s) h = ground arith

walk_safe :
    (place segments : List Chars)
    → all is_safe_segment segments ≡ true
    → walk place segments ≡ reverse_onto place segments
unfolding walk
walk_safe place [] h = refl
walk_safe place (segment ∷ segments) h =
    ground (arith, dots_unsafe segment, walk_safe (segment ∷ place) segments)

no_drive :
    (s : Chars) → any (λ c. c == b'\\' || c == b':') s ≡ false → any (λ c. c == b':') s ≡ false
no_drive [] h = refl
no_drive (c ∷ s) h = ground (arith, no_drive s)

-- From any directory, a safe path leads down through each of its segments: it never leaves the
-- directory, and it does not start at the root or name a drive.
pub is_safe_path-walk :
    (id : Chars) (place : List Chars)
    → is_safe_path id ≡ true
    → (walk place (split b'/' id) ≡ reverse_onto place (split b'/' id))
      × (chars_start_with id (b'/' ∷ []) ≡ false)
      × (any (λ c. c == b':') id ≡ false)
unfolding is_safe_path
is_safe_path-walk id place safe =
    (walk_safe place (split b'/' id) (ground arith), ground arith, no_drive id (ground arith))
