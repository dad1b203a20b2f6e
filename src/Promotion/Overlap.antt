-- ===== src/Promotion/Overlap.antt =====
-- The merge of two sorted sets of hashes.
use prometheus_knowledge_rs.Prelude.{
  ℕ, zero, suc, ◌+◌, ◌≤◌, ◌<◌, ◌≡◌, refl, sym, ◌∙◌, inl, inr, Bool, false, ◌&&◌, List, [], ◌∷◌, map,
  arith, String, ltb, ◌==◌, if◌then◌else◌, ltb→lt, Bool-cases, length, any, is_empty,
}
use mathlib.Core.Path.{sym}
use prometheus_knowledge_rs.Promotion.{
  shared_hashes, jaccard, insert_hash, sort_hashes, Rules, shingles, windows,
}

-- Every number of a list is above a bound; the list grows strictly.
abbrev pub IsAbove : ℕ → List ℕ → Type 0
IsAbove b [] = Unit
IsAbove b (x ∷ xs) = (b < x) × IsAbove b xs

abbrev pub IsAscending : List ℕ → Type 0
IsAscending [] = Unit
IsAscending (x ∷ xs) = IsAbove x xs × IsAscending xs

abbrev pub holds : List ℕ → ℕ → Bool
holds xs n = any (λ x. n == x) xs

-- How many elements of the first list are in the second.
abbrev pub common : List ℕ → List ℕ → ℕ
common [] ys = 0
common (x ∷ xs) ys = let rest = common xs ys in if holds ys x then suc rest else rest

IsAbove-weaken : (a b : ℕ) (xs : List ℕ) → a ≤ b → IsAbove b xs → IsAbove a xs
IsAbove-weaken a b [] p h = tt
IsAbove-weaken a b (x ∷ xs) p (q, h) = (omega arith, IsAbove-weaken a b xs p h)

not_held : (n : ℕ) (xs : List ℕ) → IsAbove n xs → holds xs n ≡ false
not_held n [] h = refl
not_held n (x ∷ xs) (p, h) = ground (arith, not_held n xs)

-- An element below all of the first list makes no difference.
common-skip : (y : ℕ) (xs ys : List ℕ) → IsAbove y xs → common xs (y ∷ ys) ≡ common xs ys
common-skip y [] ys h = refl
common-skip y (x ∷ xs) ys (p, h) = ground (arith, common-skip y xs ys)

common-none : (xs : List ℕ) → common xs [] ≡ 0
common-none [] = refl
common-none (x ∷ xs) = ground (arith, common-none xs)

common-less :
    (x y : ℕ) (xs ys : List ℕ)
    → x < y
    → IsAscending (y ∷ ys)
    → common (x ∷ xs) (y ∷ ys) ≡ common xs (y ∷ ys)
common-less x y xs ys p (above, h) =
    ground (arith, not_held x (y ∷ ys) (p, IsAbove-weaken x y ys (omega arith) above))

common-greater :
    (x y : ℕ) (xs ys : List ℕ)
    → y < x
    → IsAscending (x ∷ xs)
    → common (x ∷ xs) (y ∷ ys) ≡ common (x ∷ xs) ys
common-greater x y xs ys p (above, h) =
    common-skip y (x ∷ xs) ys (p, IsAbove-weaken y x xs (omega arith) above)

common-equal :
    (x y : ℕ) (xs ys : List ℕ)
    → x ≡ y
    → IsAscending (x ∷ xs)
    → common (x ∷ xs) (y ∷ ys) ≡ suc (common xs ys)
common-equal x y xs ys e (above, h) =
    let skip = common-skip y xs ys (IsAbove-weaken y x xs (omega arith) above) in
    ground (arith, skip)

-- For strictly growing lists, the merge counts the elements of the one that are in the other, for any
-- fuel that is at least the two lengths together.
pub shared_hashes-common :
    (n : ℕ) (left right : List ℕ)
    → length left + length right ≤ n
    → IsAscending left
    → IsAscending right
    → shared_hashes n left right ≡ common left right
unfolding shared_hashes
shared_hashes-common zero [] right p h k = refl
shared_hashes-common zero (x ∷ left) right p h k = absurd (omega arith)
shared_hashes-common (suc n) [] right p h k = refl
shared_hashes-common (suc n) (x ∷ left) [] p h k = sym (common-none (x ∷ left))
shared_hashes-common (suc n) (x ∷ left) (y ∷ right) p h k = elim (Bool-cases (ltb x y)) [
  | inl less ↦ rw less (
      shared_hashes-common n left (y ∷ right) (omega arith) h.1 k
      ∙ sym (common-less x y left right (ltb→lt x y less) k))
  | inr not_less ↦ elim (Bool-cases (ltb y x)) [
    | inl greater ↦
        rw (not_less, greater)
          (shared_hashes-common n (x ∷ left) right (omega arith) h k.1
            ∙ sym (common-greater x y left right (ltb→lt y x greater) h))
    | inr same ↦
        let equal = common-equal x y left right (ground arith) h in
        rw (not_less, same)
          (omega (arith, shared_hashes-common n left right (omega arith) h.1 k.1, equal))
  ]
]

common_bound : (xs ys : List ℕ) → common xs ys ≤ length xs
common_bound [] ys = omega arith
common_bound (x ∷ xs) ys = ground (arith, common_bound xs ys)

insert_hash-IsAbove : (b h : ℕ) (xs : List ℕ) → b < h → IsAbove b xs → IsAbove b (insert_hash h xs)
unfolding insert_hash
insert_hash-IsAbove b h [] p k = (p, tt)
insert_hash-IsAbove b h (x ∷ xs) p (q, k) = ground (arith, insert_hash-IsAbove b h xs)

insert_hash-IsAscending : (h : ℕ) (xs : List ℕ) → IsAscending xs → IsAscending (insert_hash h xs)
unfolding insert_hash
insert_hash-IsAscending h [] k = (tt, tt)
insert_hash-IsAscending h (x ∷ xs) (above, k) = elim (Bool-cases (ltb h x)) [
  | inl less ↦ rw less ((ltb→lt h x less, IsAbove-weaken h x xs (ground arith) above), (above, k))
  | inr not_less ↦ elim (Bool-cases (h == x)) [
    | inl same ↦ rw (not_less, same) (above, k)
    | inr other ↦
        rw (not_less, other)
          (insert_hash-IsAbove x h xs (ground arith) above, insert_hash-IsAscending h xs k)
  ]
]

-- Sorted and de-duplicated hashes grow strictly.
pub sort_hashes-IsAscending : (hs : List ℕ) → IsAscending (sort_hashes hs)
unfolding sort_hashes
sort_hashes-IsAscending [] = tt
sort_hashes-IsAscending (h ∷ hs) =
    insert_hash-IsAscending h (sort_hashes hs) (sort_hashes-IsAscending hs)

-- The similarity of two sorted sets, not both empty, counts their common elements over the size of
-- their union, which is the two sizes less the common elements.
pub jaccard-common :
    (left right : List ℕ)
    → (is_empty left && is_empty right) ≡ false
    → IsAscending left
    → IsAscending right
    → ((jaccard left right).shared ≡ common left right)
      × ((jaccard left right).union + common left right ≡ length left + length right)
unfolding jaccard
jaccard-common left right some_hash h k =
    let counted = shared_hashes-common (length left + length right) left right (omega arith) h k in
    rw (some_hash, counted) (refl, omega (arith, common_bound left right))

insert_hash-is_empty : (h : ℕ) (hs : List ℕ) → is_empty (insert_hash h hs) ≡ false
unfolding insert_hash
insert_hash-is_empty h [] = refl
insert_hash-is_empty h (g ∷ gs) = ground arith

shingles-is_empty :
    (rules : Rules) (tokens : List String) → is_empty (shingles rules tokens) ≡ false
unfolding shingles sort_hashes windows insert_hash
shingles-is_empty rules [] = ground arith
shingles-is_empty rules (a ∷ []) = ground arith
shingles-is_empty rules (a ∷ b ∷ []) = ground arith
shingles-is_empty rules (a ∷ b ∷ c ∷ rest) = ground (
  arith,
  insert_hash-is_empty (rules.shingle_hash (a ∷ b ∷ c ∷ []))
      (sort_hashes (map rules.shingle_hash (windows (b ∷ c ∷ rest)))),
)

shingles-IsAscending : (rules : Rules) (tokens : List String) → IsAscending (shingles rules tokens)
unfolding shingles
shingles-IsAscending rules tokens = ground (
  arith,
  sort_hashes-IsAscending (rules.shingle_hash tokens ∷ []),
  sort_hashes-IsAscending (map rules.shingle_hash (windows tokens)),
)

-- The similarity of two lessons' shingles counts the shingles they share over the size of the union of
-- the two sets, which is the two sizes less the shared ones.
pub jaccard-shingles :
    (rules : Rules) (a b : List String)
    → let left = shingles rules a in
      let right = shingles rules b in
      ((jaccard left right).shared ≡ common left right)
      × ((jaccard left right).union + common left right ≡ length left + length right)
jaccard-shingles rules a b =
    jaccard-common (shingles rules a) (shingles rules b) (ground (arith, shingles-is_empty rules a))
      (shingles-IsAscending rules a) (shingles-IsAscending rules b)
