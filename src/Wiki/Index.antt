-- ===== src/Wiki/Index.antt =====
-- The counts of the text index.
use prometheus_knowledge_rs.Prelude.{
  ℕ, ◌≡◌, inl, inr, true, not, none, List, [], ◌∷◌, arith, String, str_eq, eq_iff, Bool-cases,
  is_some, length, keep, is_empty, All, All-append, find, insert, erase, find-insert, find-erase,
  HasKeysOnce, length-insert, length-erase, HasKeysOnce-insert, HasKeysOnce-erase,
}
use prometheus_knowledge_rs.Wiki.{Posting, TextIndex, unindex, postings, index_terms}

-- Whether an article is known to the index.
abbrev pub IsKnown : List (String × ℕ) → Posting → Type 0
IsKnown lengths p = is_some (find p.id lengths) ≡ true

-- The document count is the number of articles with a length, each of them counted once, and every
-- posting is of such an article.
pub record IsIndexed (index : TextIndex) : Type 0 where
  pub once : HasKeysOnce index.doc_lengths
  pub counted : index.doc_count ≡ length index.doc_lengths
  pub known : All (IsKnown index.doc_lengths) index.inverted

IsKnown-after_erase :
    (id : String) (lengths : List (String × ℕ)) (ps : List Posting)
    → All (IsKnown lengths) ps
    → All (IsKnown (erase id lengths)) (keep (λ (p : Posting). not (str_eq p.id id)) ps)
IsKnown-after_erase id lengths [] h = tt
IsKnown-after_erase id lengths (p ∷ ps) (k, h) = ground (
  arith,
  IsKnown-after_erase id lengths ps,
  find-erase id p.id lengths,
  eq_iff p.id id,
  eq_iff id p.id,
)

unindex-IsIndexed :
    (id : String) (index : TextIndex) → IsIndexed index → IsIndexed (unindex id index)
unfolding unindex
unindex-IsIndexed id index h = elim (Bool-cases (is_some (find id index.doc_lengths))) [
  | inl there ↦ rw there (record {
    once = HasKeysOnce-erase id index.doc_lengths h.once;
    counted = omega (arith, h.counted, length-erase id index.doc_lengths h.once there);
    known = IsKnown-after_erase id index.doc_lengths index.inverted h.known;
  })
  | inr absent ↦ rw absent h
]

unindex-absent : (id : String) (index : TextIndex) → find id (unindex id index).doc_lengths ≡ none
unfolding unindex
unindex-absent id index = ground (arith, find-erase id id index.doc_lengths, eq_iff id id)

IsKnown-after_insert :
    (id : String) (n : ℕ) (lengths : List (String × ℕ)) (ps : List Posting)
    → All (IsKnown lengths) ps
    → All (IsKnown (insert id n lengths)) ps
IsKnown-after_insert id n lengths [] h = tt
IsKnown-after_insert id n lengths (p ∷ ps) (k, h) =
    ground (arith, IsKnown-after_insert id n lengths ps, find-insert id p.id n lengths)

postings-IsKnown :
    (id : String) (n : ℕ) (lengths : List (String × ℕ)) (whole ts : List String)
    → All (IsKnown (insert id n lengths)) (postings id whole ts)
unfolding postings
postings-IsKnown id n lengths whole [] = tt
postings-IsKnown id n lengths whole (t ∷ ts) =
    ground
      (arith, postings-IsKnown id n lengths whole ts, find-insert id id n lengths, eq_iff id id)

-- Indexing an entry, anew or again, and removing one keep the counts right: the document count is the
-- number of indexed articles, no article is counted twice, and no posting outlives its article.
pub index_terms-IsIndexed :
    (id : String) (terms : List String) (index : TextIndex)
    → IsIndexed index
    → IsIndexed (index_terms id terms index) × IsIndexed (unindex id index)
unfolding index_terms
index_terms-IsIndexed id terms index h =
    let cleared = unindex-IsIndexed id index h in
    (
      elim (Bool-cases (is_empty terms)) [
        | inl empty ↦ rw empty cleared
        | inr some_terms ↦ rw some_terms (record {
          once = HasKeysOnce-insert id (length terms) (unindex id index).doc_lengths cleared.once;
          counted = omega (
            arith,
            cleared.counted,
            length-insert id (length terms) (unindex id index).doc_lengths
                (unindex-absent id index),
          );
          known =
              All-append (IsKnown (insert id (length terms) (unindex id index).doc_lengths))
                (postings id terms terms) (unindex id index).inverted
                (postings-IsKnown id (length terms) (unindex id index).doc_lengths terms terms)
                (IsKnown-after_insert id (length terms) (unindex id index).doc_lengths
                  (unindex id index).inverted cleared.known);
        })
      ],
      cleared,
    )
