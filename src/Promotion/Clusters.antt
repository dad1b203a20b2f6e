-- ===== src/Promotion/Clusters.antt =====
-- The clusters that lessons fall into.
use prometheus_knowledge_rs.Prelude.{
  ℕ, ◌+◌, ◌≡◌, refl, sym, ap, ◌∙◌, ◌⊎◌, inl, inr, Bool, true, List, [], ◌∷◌, ◌++◌, map, arith,
  Bool-cases, length, keep, All,
}
use mathlib.Core.Path.{sym}
use prometheus_knowledge_rs.Promotion.{
  LessonRecord, Similarity, is_recurrence, Cluster, similarity_to, place_record, cluster_records,
  members,
}

abbrev pub all_members : List Cluster → List LessonRecord
all_members [] = []
all_members (c ∷ cs) = members c ++ all_members cs

abbrev pub number : (LessonRecord → Bool) → List LessonRecord → ℕ
number p rs = length (keep p rs)

number-append :
    (p : LessonRecord → Bool) (rs ss : List LessonRecord)
    → number p (rs ++ ss) ≡ number p rs + number p ss
number-append p [] ss = omega arith
number-append p (r ∷ rs) ss = ground (arith, number-append p rs ss)

place_record-number :
    (p : LessonRecord → Bool) (r : LessonRecord) (cs : List Cluster)
    → number p (all_members (place_record r cs)) ≡ number p (r ∷ all_members cs)
unfolding place_record
place_record-number p r [] = refl
place_record-number p r (c ∷ cs) = ground (
  arith,
  place_record-number p r cs,
  number-append p (members c) (all_members cs),
  number-append p (members c) (all_members (place_record r cs)),
  number-append p (members (record c { joined = (r, similarity_to c r) ∷ c.joined }))
      (all_members cs),
)

-- Each member was similar to its cluster's anchor.
abbrev pub IsSimilar : LessonRecord → List (LessonRecord × Similarity) → Type 0
IsSimilar anchor joined =
    All
      (λ (m : LessonRecord × Similarity).
        (is_recurrence m.1 ≡ true)
        × (m.1 ≡ similarity_to (record { anchor = anchor; joined = [] }) m.0))
      joined

abbrev pub HasSimilar : Cluster → Type 0
HasSimilar c = IsSimilar c.anchor c.joined

place_record-HasSimilar :
    (r : LessonRecord) (cs : List Cluster) → All HasSimilar cs → All HasSimilar (place_record r cs)
unfolding place_record
place_record-HasSimilar r [] h = (tt, tt)
place_record-HasSimilar r (c ∷ cs) (s, h) = elim (Bool-cases (is_recurrence (similarity_to c r))) [
  | inl close ↦ rw close (((close, refl), s), h)
  | inr far ↦ rw far (s, place_record-HasSimilar r cs h)
]

cluster_records-number :
    (p : LessonRecord → Bool) (rs : List LessonRecord) (cs : List Cluster)
    → number p (all_members (cluster_records rs cs)) ≡ number p rs + number p (all_members cs)
unfolding cluster_records
cluster_records-number p [] cs = omega arith
cluster_records-number p (r ∷ rs) cs =
    ground (arith, cluster_records-number p rs (place_record r cs), place_record-number p r cs)

cluster_records-HasSimilar :
    (rs : List LessonRecord) (cs : List Cluster)
    → All HasSimilar cs
    → All HasSimilar (cluster_records rs cs)
unfolding cluster_records
cluster_records-HasSimilar [] cs h = h
cluster_records-HasSimilar (r ∷ rs) cs h =
    cluster_records-HasSimilar rs (place_record r cs) (place_record-HasSimilar r cs h)

-- Clustering puts every record into one cluster: however records are counted, the clusters have as
-- many as there are. Each record in a cluster, its first one aside, is similar enough to the first.
pub cluster_records-split :
    (records : List LessonRecord) (p : LessonRecord → Bool)
    → (number p (all_members (cluster_records records [])) ≡ number p records)
      × All HasSimilar (cluster_records records [])
cluster_records-split records p =
    (omega (arith, cluster_records-number p records []), cluster_records-HasSimilar records [] tt)

abbrev pub anchors : List Cluster → List LessonRecord
anchors = map (λ (c : Cluster). c.anchor)

place_record-anchors :
    (r : LessonRecord) (cs : List Cluster)
    → (anchors (place_record r cs) ≡ anchors cs)
      ⊎ (anchors (place_record r cs) ≡ anchors cs ++ (r ∷ []))
unfolding place_record
place_record-anchors r [] = inr refl
place_record-anchors r (c ∷ cs) = elim (Bool-cases (is_recurrence (similarity_to c r))) [
  | inl close ↦ inl (rw (close, place_record) refl)
  | inr far ↦ elim (place_record-anchors r cs) [
    | inl same ↦ inl (rw (far, place_record) (ap (λ as'. c.anchor ∷ as') same))
    | inr more ↦ inr (rw (far, place_record) (ap (λ as'. c.anchor ∷ as') more))
  ]
]

append_assoc : (xs ys zs : List LessonRecord) → (xs ++ ys) ++ zs ≡ xs ++ (ys ++ zs)
append_assoc [] ys zs = refl
append_assoc (x ∷ xs) ys zs = ap (λ rest. x ∷ rest) (append_assoc xs ys zs)

append_nothing : (xs : List LessonRecord) → xs ++ [] ≡ xs
append_nothing [] = refl
append_nothing (x ∷ xs) = ap (λ rest. x ∷ rest) (append_nothing xs)

cluster_records-anchors :
    (rs : List LessonRecord) (cs : List Cluster)
    → (fresh : List LessonRecord) × (anchors (cluster_records rs cs) ≡ anchors cs ++ fresh)
unfolding cluster_records
cluster_records-anchors [] cs = ([], sym (append_nothing (anchors cs)))
cluster_records-anchors (r ∷ rs) cs =
    let (fresh, e) = cluster_records-anchors rs (place_record r cs) in
    elim (place_record-anchors r cs) [
      | inl same ↦ (fresh, e ∙ ap (λ xs. xs ++ fresh) same)
      | inr more ↦
          (r ∷ fresh, e ∙ ap (λ xs. xs ++ fresh) more ∙ append_assoc (anchors cs) (r ∷ []) fresh)
    ]

cluster_records-append :
    (rs later : List LessonRecord) (cs : List Cluster)
    → cluster_records (rs ++ later) cs ≡ cluster_records later (cluster_records rs cs)
unfolding cluster_records
cluster_records-append [] later cs = refl
cluster_records-append (r ∷ rs) later cs = cluster_records-append rs later (place_record r cs)

-- Records that come later in the order change no cluster's first record, from which the candidate's id
-- is made, and put no new cluster before an old one.
pub cluster_records-stable :
    (records later : List LessonRecord)
    → (fresh : List LessonRecord) × (anchors (cluster_records (records ++ later) [])
        ≡ anchors (cluster_records records []) ++ fresh)
cluster_records-stable records later =
    let (fresh, e) = cluster_records-anchors later (cluster_records records []) in
    (fresh, ap anchors (cluster_records-append records later []) ∙ e)
