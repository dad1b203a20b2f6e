-- ===== src/Snapshot/Compact.antt =====
-- Compacting a text that a pretty-printer has spaced.
use prometheus_knowledge_rs.Prelude.{◌≡◌, refl, arith, Chars}
use prometheus_knowledge_rs.Snapshot.{
  Mode, between, in_string, escaped, compact_from, compact_json, Spaced, done, space, token, opens,
  closes, backslash, escape, inner,
}

compact_from-Spaced : (m : Mode) (s t : Chars) → Spaced m s t → compact_from m t ≡ s
unfolding compact_from
compact_from-Spaced m s t (done _) = refl
compact_from-Spaced m s t (space c _ t' h rest) =
    ground (arith, compact_from-Spaced between s t' rest)
compact_from-Spaced m s t (token c s' t' h q rest) =
    ground (arith, compact_from-Spaced between s' t' rest)
compact_from-Spaced m s t (opens c s' t' h rest) =
    ground (arith, compact_from-Spaced in_string s' t' rest)
compact_from-Spaced m s t (closes c s' t' h rest) =
    ground (arith, compact_from-Spaced between s' t' rest)
compact_from-Spaced m s t (backslash c s' t' h rest) =
    ground (arith, compact_from-Spaced escaped s' t' rest)
compact_from-Spaced m s t (escape c s' t' rest) =
    ground (arith, compact_from-Spaced in_string s' t' rest)
compact_from-Spaced m s t (inner c s' t' h k rest) =
    ground (arith, compact_from-Spaced in_string s' t' rest)

-- Compacting undoes any white space between the tokens of a JSON text, and touches no string in it.
pub compact_json-Spaced : (s t : Chars) → Spaced between s t → compact_json t ≡ s
unfolding compact_json
compact_json-Spaced s t spaced = compact_from-Spaced between s t spaced
