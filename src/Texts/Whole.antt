-- ===== src/Texts/Whole.antt =====
-- The lines of a text that is put behind whole lines.
use prometheus_knowledge_rs.Prelude.{
  ℕ, ◌≡◌, refl, Bool, true, false, ◌||◌, List, [], ◌∷◌, ◌++◌, arith, ◌==◌, any, Chars, is_empty,
}
use prometheus_knowledge_rs.Texts.{lines, begin_line}

-- A text is empty or ends in a newline.
unfoldable pub is_whole : Chars → Bool
is_whole [] = true
is_whole (c ∷ []) = c == 10
is_whole (c ∷ d ∷ s) = is_whole (d ∷ s)

begin_line-append :
    (c : ℕ) (ls ms : List Chars)
    → is_empty ls ≡ false
    → begin_line c (ls ++ ms) ≡ begin_line c ls ++ ms
begin_line-append c [] ms h = cc
begin_line-append c (l ∷ ls) ms h = refl

is_empty-begin_line : (c : ℕ) (ls : List Chars) → is_empty (begin_line c ls) ≡ false
is_empty-begin_line c [] = refl
is_empty-begin_line c (l ∷ ls) = refl

lines_some : (c : ℕ) (s : Chars) → is_empty (lines (c ∷ s)) ≡ false
unfolding lines
lines_some c [] = ground arith
lines_some c (d ∷ s) = ground (arith, lines_some d s, is_empty-begin_line c (lines (d ∷ s)))

pub lines-is_whole : (a b : Chars) → is_whole a ≡ true → lines (a ++ b) ≡ lines a ++ lines b
unfolding is_whole lines
lines-is_whole [] b h = refl
lines-is_whole (c ∷ []) b h = rw h refl
lines-is_whole (c ∷ d ∷ s) b h =
    let rest = lines-is_whole (d ∷ s) b h in
    let begun = begin_line-append c (lines (d ∷ s)) (lines b) (lines_some d s) in
    ground (arith, rest, begun)

-- A line, and a line with its newline, without other ends of lines.
pub lines_ended :
    (l : Chars) → any (λ c. c == 10 || c == 13) l ≡ false → lines (l ++ (10 ∷ [])) ≡ l ∷ []
unfolding lines
lines_ended [] h = refl
lines_ended (c ∷ l) h = ground (arith, lines_ended l)

pub is_whole-append : (a b : Chars) → is_whole (a ++ (b ++ (10 ∷ []))) ≡ true
unfolding is_whole
is_whole-append [] [] = refl
is_whole-append [] (c ∷ []) = refl
is_whole-append [] (c ∷ d ∷ b) = is_whole-append [] (d ∷ b)
is_whole-append (c ∷ []) [] = refl
is_whole-append (c ∷ []) (d ∷ b) = is_whole-append [] (d ∷ b)
is_whole-append (c ∷ d ∷ a) b = is_whole-append (d ∷ a) b
