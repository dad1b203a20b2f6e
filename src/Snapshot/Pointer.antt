-- ===== src/Snapshot/Pointer.antt =====
-- The text of the pointer file.
use Prim.Native.String.append as append_lem
use Prim.Native.Char.{Char, code}
use Prim.Native.String.{◌++◌ as append}
use prometheus_knowledge_rs.Prelude.{
  ℕ, ◌≡◌, refl, true, false, arith, String, all, codes, is_whitespace, trim_end_string, trim_string,
  trim_start_string,
}
use prometheus_knowledge_rs.Snapshot.{is_ascii_hexdigit, is_generation}

hexdigit_not_space : (c : ℕ) → is_ascii_hexdigit c ≡ true → is_whitespace c ≡ false
unfolding is_whitespace
hexdigit_not_space c h = ground arith

trim_end-newline : trim_end_string "\n" ≡ ""
unfolding trim_end_string is_whitespace
trim_end-newline = refl

end_trim_step :
    (c : Char) (s t : String)
    → is_ascii_hexdigit (code c) ≡ true
    → trim_end_string t ≡ s
    → trim_end_string (String.◌∷◌ c t) ≡ String.◌∷◌ c s
unfolding trim_end_string
end_trim_step c String.[] t h e =
    rw (e, trim_end_string) (ground (arith, hexdigit_not_space (code c)))
end_trim_step c (String.◌∷◌ d s) t h e = rw (e, trim_end_string) refl

end_trim :
    (g : String) → all is_ascii_hexdigit (codes g) ≡ true → trim_end_string (append g "\n") ≡ g
end_trim String.[] h = rw (append_lem.nil "\n") trim_end-newline
end_trim (String.◌∷◌ c s) h =
    rw (append_lem.cons c s "\n")
      (end_trim_step c s (append s "\n") (ground arith) (end_trim s (ground arith)))

trim_start_step :
    (c : Char) (s : String)
    → is_ascii_hexdigit (code c) ≡ true
    → trim_start_string (String.◌∷◌ c s) ≡ String.◌∷◌ c s
unfolding trim_start_string
trim_start_step c s h = rw (hexdigit_not_space (code c) h, trim_start_string) refl

hexdigits :
    (c : Char) (s : String)
    → is_generation (String.◌∷◌ c s) ≡ true
    → (is_ascii_hexdigit (code c) ≡ true) × (all is_ascii_hexdigit (codes (String.◌∷◌ c s)) ≡ true)
unfolding is_generation
hexdigits c s h = ground arith

-- What is written to the pointer is read back.
pub trim_string-pointer : (g : String) → is_generation g ≡ true → trim_string (append g "\n") ≡ g
unfolding trim_string is_generation
trim_string-pointer String.[] h = cc
trim_string-pointer (String.◌∷◌ c s) h =
    let (first, every) = hexdigits c s h in
    rw
      (
        append_lem.cons c s "\n",
        trim_start_step c (append s "\n") first,
        ← append_lem.cons c s "\n",
      )
      (end_trim (String.◌∷◌ c s) every)
