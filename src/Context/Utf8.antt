-- ===== src/Context/Utf8.antt =====
-- Cutting a text at a number of bytes: `truncate_utf8`, pk-cli/src/main.rs.
use prometheus_knowledge_rs.Prelude.{
  ℕ, zero, suc, ◌-◌, ◌≤◌, ◌<◌, ◌≡◌, refl, Bool, true, false, Option, none, some, [], ◌∷◌, arith,
  leb, if◌then◌else◌, bind, Chars, ◌+◌, ◌∙◌, inl, inr, leb→le, le→leb, Bool-cases,
}
use prometheus_knowledge_rs.Texts.{byte_length, len_utf8}

-- `is_char_boundary`
unfoldable pub is_char_boundary : Chars → ℕ → Bool
is_char_boundary text zero = true
is_char_boundary [] (suc n) = false
is_char_boundary (c ∷ s) (suc n) =
    let rest = is_char_boundary s (suc n - len_utf8 c) in
    if leb (len_utf8 c) (suc n) then rest else false

-- `&text[..end]`; off a boundary, or behind the end, it ends the process.
unfoldable pub bytes_before : Chars → ℕ → Option Chars
bytes_before text zero = some []
bytes_before [] (suc n) = none
bytes_before (c ∷ s) (suc n) =
    let rest = bytes_before s (suc n - len_utf8 c) in
    if leb (len_utf8 c) (suc n) then bind rest (λ (t : Chars). some (c ∷ t)) else none

-- `while !is_char_boundary(end) { end -= 1 }`
unfoldable pub floor_boundary : Chars → ℕ → ℕ
unfolding is_char_boundary
floor_boundary text zero = zero
floor_boundary text (suc n) =
    let lower = floor_boundary text n in if is_char_boundary text (suc n) then suc n else lower

unfoldable pub truncate_utf8 : Chars → ℕ → Option Chars
unfolding floor_boundary bytes_before
truncate_utf8 text max_bytes =
    if leb (byte_length text) max_bytes
    then some text
    else bytes_before text (floor_boundary text max_bytes)

-- The longest prefix that fits.
unfoldable pub fitting : Chars → ℕ → Chars
fitting [] n = []
fitting (c ∷ s) n =
    let rest = fitting s (n - len_utf8 c) in if leb (len_utf8 c) n then c ∷ rest else []

len_utf8_pos : (c : ℕ) → 1 ≤ len_utf8 c
unfolding len_utf8
len_utf8_pos c = ground arith

is_char_boundary-step :
    (c : ℕ) (s : Chars) (k n : ℕ)
    → len_utf8 c + k ≡ n
    → is_char_boundary (c ∷ s) n ≡ is_char_boundary s k
unfolding is_char_boundary
is_char_boundary-step c s k zero e = absurd (omega (arith, len_utf8_pos c))
is_char_boundary-step c s k (suc n) e =
    let same : suc n - len_utf8 c ≡ k = omega arith in
    rw (le→leb (len_utf8 c) (suc n) (omega arith), same) refl

bytes_before-step :
    (c : ℕ) (s t : Chars) (k n : ℕ)
    → len_utf8 c + k ≡ n
    → bytes_before s k ≡ some t
    → bytes_before (c ∷ s) n ≡ some (c ∷ t)
unfolding bytes_before
bytes_before-step c s t k zero e h = absurd (omega (arith, len_utf8_pos c))
bytes_before-step c s t k (suc n) e h =
    let same : suc n - len_utf8 c ≡ k = omega arith in
    rw (le→leb (len_utf8 c) (suc n) (omega arith), same, h) refl

pub fitting-fits : (text : Chars) (n : ℕ) → byte_length (fitting text n) ≤ n
unfolding fitting byte_length
fitting-fits [] n = omega arith
fitting-fits (c ∷ s) n = ground (arith, fitting-fits s (n - len_utf8 c))

fitting_all : (text : Chars) (n : ℕ) → byte_length text ≤ n → fitting text n ≡ text
unfolding fitting byte_length
fitting_all [] n h = refl
fitting_all (c ∷ s) n h = ground (arith, fitting_all s (n - len_utf8 c))

boundary-fitting :
    (text : Chars) (n : ℕ) → is_char_boundary text (byte_length (fitting text n)) ≡ true
unfolding is_char_boundary fitting byte_length
boundary-fitting [] n = refl
boundary-fitting (c ∷ s) n = elim (Bool-cases (leb (len_utf8 c) n)) [
  | inl room ↦ rw room (is_char_boundary-step c s _ _ refl ∙ boundary-fitting s (n - len_utf8 c))
  | inr full ↦ rw full refl
]

before-fitting :
    (text : Chars) (n : ℕ)
    → bytes_before text (byte_length (fitting text n)) ≡ some (fitting text n)
unfolding bytes_before fitting byte_length
before-fitting [] n = refl
before-fitting (c ∷ s) n = elim (Bool-cases (leb (len_utf8 c) n)) [
  | inl room ↦ rw room (bytes_before-step c s _ _ _ refl (before-fitting s (n - len_utf8 c)))
  | inr full ↦ rw full refl
]

-- No boundary lies between the longest prefix that fits and the limit.
boundary_above :
    (text : Chars) (n e : ℕ)
    → byte_length (fitting text n) < e
    → e ≤ n
    → n < byte_length text
    → is_char_boundary text e ≡ false
unfolding is_char_boundary fitting byte_length
boundary_above [] n zero lo hi over = absurd (omega arith)
boundary_above [] n (suc e) lo hi over = refl
boundary_above (c ∷ s) n zero lo hi over = absurd (omega arith)
boundary_above (c ∷ s) n (suc e) lo hi over =
    ground (arith, boundary_above s (n - len_utf8 c) (suc e - len_utf8 c))

floor_boundary-eq :
    (text : Chars) (n e : ℕ)
    → byte_length (fitting text n) ≤ e
    → e ≤ n
    → n < byte_length text
    → floor_boundary text e ≡ byte_length (fitting text n)
unfolding floor_boundary
floor_boundary-eq text n zero lo hi over = omega arith
floor_boundary-eq text n (suc e) lo hi over =
    ground
      (arith, floor_boundary-eq text n e, boundary_above text n (suc e), boundary-fitting text n)

-- Cutting a text at a number of bytes always comes back, and gives the longest prefix of whole
-- characters that fits.
pub truncate_utf8-fitting :
    (text : Chars) (max_bytes : ℕ) → truncate_utf8 text max_bytes ≡ some (fitting text max_bytes)
unfolding truncate_utf8
truncate_utf8-fitting text n = elim (Bool-cases (leb (byte_length text) n)) [
  | inl fits ↦ rw (fits, fitting_all text n (leb→le (byte_length text) n fits)) refl
  | inr over ↦
      rw (over, floor_boundary-eq text n n (fitting-fits text n) (omega arith) (ground arith))
        (before-fitting text n)
]

pub fitting_le : (text : Chars) (n : ℕ) → byte_length (fitting text n) ≤ byte_length text
unfolding fitting byte_length
fitting_le [] n = omega arith
fitting_le (c ∷ s) n = ground (arith, fitting_le s (n - len_utf8 c))
