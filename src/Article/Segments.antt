-- ===== src/Article/Segments.antt =====
-- Splitting and joining texts, and the characters of the parts.
use prometheus_knowledge_rs.Prelude.{
  ℕ, ◌≡◌, refl, false, List, [], ◌∷◌, arith, ◌==◌, any, All, Chars, All-append,
}
use prometheus_knowledge_rs.Article.{split, join_dash}

module _ (P : ℕ → Type 0) where
  pub All-split : (separator : ℕ) (s : Chars) → All P s → All (All P) (split separator s)
  unfolding split
  All-split separator [] h = (tt, tt)
  All-split separator (c ∷ s) (p, h) = ground (arith, All-split separator s h)

  pub All-join_dash : (parts : List Chars) → P b'-' → All (All P) parts → All P (join_dash parts)
  unfolding join_dash
  All-join_dash [] dash h = tt
  All-join_dash (part ∷ []) dash (p, h) = p
  All-join_dash (part ∷ next ∷ parts) dash (p, h) =
      All-append P part _ p (dash, All-join_dash (next ∷ parts) dash h)

pub split-free :
    (separator : ℕ) (s : Chars) → any (λ c. c == separator) s ≡ false → split separator s ≡ s ∷ []
unfolding split
split-free separator [] h = refl
split-free separator (c ∷ s) h = ground (arith, split-free separator s)
