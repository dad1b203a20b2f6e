-- ===== src/Texts/Ordered.antt =====
-- Maps from texts in the order of their keys: Rust's BTreeMap, and BTreeSet as its keys.
use prometheus_knowledge_rs.Prelude.{
  ◌≡◌, refl, ◌∙◌, inl, inr, Bool, true, false, ◌&&◌, ◌||◌, Option, none, some, List, [], ◌∷◌, arith,
  ltb, ◌==◌, if◌then◌else◌, Bool-cases, All, Chars, All-map,
}

-- Equality of two texts, and the order of `str`, on code points.
unfoldable pub text_eq : Chars → Chars → Bool
text_eq [] [] = true
text_eq [] (d ∷ t) = false
text_eq (c ∷ s) [] = false
text_eq (c ∷ s) (d ∷ t) = c == d && text_eq s t

unfoldable pub text_leb : Chars → Chars → Bool
text_leb [] t = true
text_leb (c ∷ s) [] = false
text_leb (c ∷ s) (d ∷ t) = ltb c d || (c == d && text_leb s t)

pub text_eq_refl : (s : Chars) → text_eq s s ≡ true
unfolding text_eq
text_eq_refl [] = refl
text_eq_refl (c ∷ s) = ground (arith, text_eq_refl s)

pub text_eq_sym : (s t : Chars) → text_eq s t ≡ text_eq t s
unfolding text_eq
text_eq_sym [] [] = refl
text_eq_sym [] (d ∷ t) = refl
text_eq_sym (c ∷ s) [] = refl
text_eq_sym (c ∷ s) (d ∷ t) = ground (arith, text_eq_sym s t)

pub text_eq→eq : (s t : Chars) → text_eq s t ≡ true → s ≡ t
unfolding text_eq
text_eq→eq [] [] h = refl
text_eq→eq [] (d ∷ t) h = cc
text_eq→eq (c ∷ s) [] h = cc
text_eq→eq (c ∷ s) (d ∷ t) h = ground (arith, text_eq→eq s t)

text_leb_antisym : (s t : Chars) → text_leb s t ≡ true → text_leb t s ≡ true → text_eq s t ≡ true
unfolding text_leb text_eq
text_leb_antisym [] [] h k = refl
text_leb_antisym [] (d ∷ t) h k = cc
text_leb_antisym (c ∷ s) [] h k = cc
text_leb_antisym (c ∷ s) (d ∷ t) h k = ground (arith, text_leb_antisym s t)

text_leb_total : (s t : Chars) → text_leb s t ≡ false → text_leb t s ≡ true
unfolding text_leb
text_leb_total [] t h = cc
text_leb_total (c ∷ s) [] h = refl
text_leb_total (c ∷ s) (d ∷ t) h = ground (arith, text_leb_total s t)

text_leb_trans : (s t u : Chars) → text_leb s t ≡ true → text_leb t u ≡ true → text_leb s u ≡ true
unfolding text_leb
text_leb_trans [] t u h k = refl
text_leb_trans (c ∷ s) [] u h k = cc
text_leb_trans (c ∷ s) (d ∷ t) [] h k = cc
text_leb_trans (c ∷ s) (d ∷ t) (e ∷ u) h k = ground (arith, text_leb_trans s t u)

-- Strictly before.
abbrev pub IsBefore : Chars → Chars → Type 0
IsBefore s t = (text_leb s t ≡ true) × (text_eq s t ≡ false)

IsBefore-trans : (s t u : Chars) → IsBefore s t → IsBefore t u → IsBefore s u
IsBefore-trans s t u h k = ground (
  arith,
  text_leb_trans s t u,
  text_leb_antisym s t,
  text_eq→eq s u,
  text_eq_sym t s,
  text_eq_refl s,
  text_leb_antisym t u,
)

module _ {ℓ} {V : Type ℓ} where
  unfoldable pub lookup : Chars → List (Chars × V) → Option V
  lookup q [] = none
  lookup q ((s, v) ∷ m) = if text_eq q s then some v else lookup q m

  -- `entry(key).and_modify(change).or_insert(fresh)`
  unfoldable pub entry : (V → V) → V → Chars → List (Chars × V) → List (Chars × V)
  entry change fresh t [] = (t, fresh) ∷ []
  entry change fresh t ((s, v) ∷ m) =
      let rest = entry change fresh t m in
      if text_eq t s
      then (s, change v) ∷ m
      else if text_leb t s
      then (t, fresh) ∷ (s, v) ∷ m
      else (s, v) ∷ rest

  abbrev pub changed : (V → V) → V → Option V → V
  changed change fresh none = fresh
  changed change fresh (some v) = change v

  -- The keys behind a key come after it.
  abbrev pub IsOrdered : List (Chars × V) → Type 0
  IsOrdered [] = Unit
  IsOrdered ((s, v) ∷ m) = All (λ (p : Chars × V). IsBefore s p.0) m × IsOrdered m

  pub lookup_before :
      (t : Chars) (m : List (Chars × V))
      → All (λ (p : Chars × V). IsBefore t p.0) m
      → lookup t m ≡ none
  unfolding lookup
  lookup_before t [] h = refl
  lookup_before t ((s, v) ∷ m) (hs, h) = ground (arith, lookup_before t m h)

  all-IsBefore :
      (t s : Chars) (m : List (Chars × V))
      → IsBefore t s
      → All (λ (p : Chars × V). IsBefore s p.0) m
      → All (λ (p : Chars × V). IsBefore t p.0) m
  all-IsBefore t s m h hm = All-map m (λ p hp. IsBefore-trans t s p.0 h hp) hm

  pub lookup-entry :
      (change : V → V) (fresh : V) (t q : Chars) (m : List (Chars × V))
      → IsOrdered m
      → lookup q (entry change fresh t m)
        ≡ (if text_eq q t then some (changed change fresh (lookup t m)) else lookup q m)
  unfolding lookup entry
  lookup-entry change fresh t q [] h = refl
  lookup-entry change fresh t q ((s, v) ∷ m) (hs, h) = elim (Bool-cases (text_eq t s)) [
    | inl same ↦ ground (arith, text_eq→eq t s)
    | inr other ↦ elim (Bool-cases (text_leb t s)) [
      | inl first ↦ ground (arith, lookup_before t m (all-IsBefore t s m (first, other) hs))
      | inr later ↦ ground (
        arith,
        lookup-entry change fresh t q m h,
        text_eq→eq q s,
        text_eq→eq q t,
        text_eq_sym s t,
      )
    ]
  ]

  All-entry :
      (P : Chars × V → Type 0) (change : V → V) (fresh : V) (t : Chars) (m : List (Chars × V))
      → P (t, fresh)
      → ((s : Chars) (v : V) → P (s, v) → P (s, change v))
      → All P m
      → All P (entry change fresh t m)
  unfolding entry
  All-entry P change fresh t [] new keeps h = (new, tt)
  All-entry P change fresh t ((s, v) ∷ m) new keeps (hs, h) = elim (Bool-cases (text_eq t s)) [
    | inl same ↦ rw same (keeps s v hs, h)
    | inr other ↦ rw other (elim (Bool-cases (text_leb t s)) [
      | inl first ↦ rw first (new, (hs, h))
      | inr later ↦ rw later (hs, All-entry P change fresh t m new keeps h)
    ])
  ]

  pub entry-IsOrdered :
      (change : V → V) (fresh : V) (t : Chars) (m : List (Chars × V))
      → IsOrdered m
      → IsOrdered (entry change fresh t m)
  unfolding entry
  entry-IsOrdered change fresh t [] h = (tt, tt)
  entry-IsOrdered change fresh t ((s, v) ∷ m) (hs, h) = elim (Bool-cases (text_eq t s)) [
    | inl same ↦ rw same (hs, h)
    | inr other ↦ rw other (elim (Bool-cases (text_leb t s)) [
      | inl first ↦ rw first (((first, other), all-IsBefore t s m (first, other) hs), (hs, h))
      | inr later ↦ rw later (
        All-entry (λ p. IsBefore s p.0) change fresh t m
            (text_leb_total t s later, text_eq_sym s t ∙ other) (λ r w b. b) hs,
        entry-IsOrdered change fresh t m h,
      )
    ])
  ]
