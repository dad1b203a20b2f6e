-- ===== src/Events/Listing.antt =====
-- What a listing of the log holds.
use prometheus_knowledge_rs.Prelude.{
  ℕ, zero, suc, ◌≤◌, ◌≡◌, refl, ap, inl, inr, Bool, true, Option, List, [], ◌∷◌, arith, String, leb,
  leb→le, Bool-cases, length, take, keep, length-take, ◌∙◌, Chars,
}
use prometheus_knowledge_rs.Events.{
  EventRecord, RecordFormat, insert_latest, latest_first, insert_earliest, earliest_first,
  in_listing, records_in, list,
}
use prometheus_knowledge_rs.Events.Log.{count}

module _ {V : Type 0} where
  -- No record is older than the next one.
  abbrev pub IsLatestFirst : List (EventRecord V) → Type 0
  IsLatestFirst [] = Unit
  IsLatestFirst (r ∷ []) = Unit
  IsLatestFirst (r ∷ s ∷ rest) = (s.timestamp ≤ r.timestamp) × IsLatestFirst (s ∷ rest)

  -- Whether a list's first record is at most as late as a time.
  abbrev IsFrom : ℕ → List (EventRecord V) → Type 0
  IsFrom t [] = Unit
  IsFrom t (r ∷ rest) = r.timestamp ≤ t

  pair_latest :
      (r : EventRecord V) (rs : List (EventRecord V))
      → IsFrom r.timestamp rs
      → IsLatestFirst rs
      → IsLatestFirst (r ∷ rs)
  pair_latest r [] p h = tt
  pair_latest r (s ∷ rs) p h = (p, h)

  tail_latest :
      (r : EventRecord V) (rs : List (EventRecord V))
      → IsLatestFirst (r ∷ rs)
      → IsFrom r.timestamp rs × IsLatestFirst rs
  tail_latest r [] h = (tt, tt)
  tail_latest r (s ∷ rs) h = h

  insert_latest-IsFrom :
      (t : ℕ) (r : EventRecord V) (rs : List (EventRecord V))
      → r.timestamp ≤ t
      → IsFrom t rs
      → IsFrom t (insert_latest r rs)
  unfolding insert_latest
  insert_latest-IsFrom t r [] p h = p
  insert_latest-IsFrom t r (s ∷ rs) p h = ground arith

  insert_latest-IsLatestFirst :
      (r : EventRecord V) (rs : List (EventRecord V))
      → IsLatestFirst rs
      → IsLatestFirst (insert_latest r rs)
  unfolding insert_latest
  insert_latest-IsLatestFirst r [] h = tt
  insert_latest-IsLatestFirst r (s ∷ rs) h =
      let (from, sorted) = tail_latest s rs h in
      elim (Bool-cases (leb s.timestamp r.timestamp)) [
        | inl late ↦ rw late (leb→le s.timestamp r.timestamp late, h)
        | inr early ↦ rw early (
            pair_latest s (insert_latest r rs)
              (insert_latest-IsFrom s.timestamp r rs (ground arith) from)
              (insert_latest-IsLatestFirst r rs sorted))
      ]

  latest_first-IsLatestFirst : (rs : List (EventRecord V)) → IsLatestFirst (latest_first rs)
  unfolding latest_first
  latest_first-IsLatestFirst [] = tt
  latest_first-IsLatestFirst (r ∷ rs) =
      insert_latest-IsLatestFirst r (latest_first rs) (latest_first-IsLatestFirst rs)

  take-IsFrom : (n t : ℕ) (rs : List (EventRecord V)) → IsFrom t rs → IsFrom t (take n rs)
  take-IsFrom zero t rs h = tt
  take-IsFrom (suc n) t [] h = tt
  take-IsFrom (suc n) t (r ∷ rs) h = h

  take-IsLatestFirst :
      (n : ℕ) (rs : List (EventRecord V)) → IsLatestFirst rs → IsLatestFirst (take n rs)
  take-IsLatestFirst zero rs h = tt
  take-IsLatestFirst (suc n) [] h = tt
  take-IsLatestFirst (suc n) (r ∷ rs) h =
      let (from, sorted) = tail_latest r rs h in
      pair_latest r (take n rs) (take-IsFrom n r.timestamp rs from) (take-IsLatestFirst n rs sorted)

  insert_latest-count :
      (p : EventRecord V → Bool) (r : EventRecord V) (rs : List (EventRecord V))
      → count p (insert_latest r rs) ≡ count p (r ∷ rs)
  unfolding insert_latest
  insert_latest-count p r [] = refl
  insert_latest-count p r (s ∷ rs) = ground (arith, insert_latest-count p r rs)

  latest_first-count :
      (p : EventRecord V → Bool) (rs : List (EventRecord V))
      → count p (latest_first rs) ≡ count p rs
  unfolding latest_first
  latest_first-count p [] = refl
  latest_first-count p (r ∷ rs) =
      ground (arith, insert_latest-count p r (latest_first rs), latest_first-count p rs)

  insert_earliest-count :
      (p : EventRecord V → Bool) (r : EventRecord V) (rs : List (EventRecord V))
      → count p (insert_earliest r rs) ≡ count p (r ∷ rs)
  unfolding insert_earliest
  insert_earliest-count p r [] = refl
  insert_earliest-count p r (s ∷ rs) = ground (arith, insert_earliest-count p r rs)

  pub earliest_first-count :
      (p : EventRecord V → Bool) (rs : List (EventRecord V))
      → count p (earliest_first rs) ≡ count p rs
  unfolding earliest_first
  earliest_first-count p [] = refl
  earliest_first-count p (r ∷ rs) =
      ground (arith, insert_earliest-count p r (earliest_first rs), earliest_first-count p rs)

  count-take :
      (p : EventRecord V → Bool) (n : ℕ) (rs : List (EventRecord V))
      → count p (take n rs) ≤ count p rs
  count-take p zero rs = omega arith
  count-take p (suc n) [] = omega arith
  count-take p (suc n) (r ∷ rs) = ground (arith, count-take p n rs)

  take-all : (n : ℕ) (rs : List (EventRecord V)) → length rs ≤ n → take n rs ≡ rs
  take-all zero [] h = refl
  take-all zero (r ∷ rs) h = absurd (omega arith)
  take-all (suc n) [] h = refl
  take-all (suc n) (r ∷ rs) h = ap (λ xs. r ∷ xs) (take-all n rs (omega arith))

  count-true : (rs : List (EventRecord V)) → count (λ r. true) rs ≡ length rs
  count-true [] = refl
  count-true (r ∷ rs) = omega (arith, count-true rs)

module _ {V : Type 0} (format : RecordFormat V) where
  -- A listing is newest first and no longer than its limit. It repeats no record more often than the
  -- project's records of the kind do, and where these are within the limit it holds them all.
  pub list-IsLatestFirst :
      (project_root : String) (kind : Option String) (limit : ℕ) (file : Chars)
      (p : EventRecord V → Bool)
      → let matching = keep (in_listing project_root kind) (records_in format file) in
        let listed = list format project_root kind limit file in
        IsLatestFirst listed × (length listed ≤ limit) × (count p listed ≤ count p matching)
  unfolding list
  list-IsLatestFirst project_root kind limit file p =
      let matching = keep (in_listing project_root kind) (records_in format file) in
      (
        take-IsLatestFirst limit (latest_first matching) (latest_first-IsLatestFirst matching),
        length-take limit (latest_first matching),
        omega (arith, count-take p limit (latest_first matching), latest_first-count p matching),
      )

  -- Where the project's records of the kind are within the limit, the listing holds them all: however
  -- records are counted, it has as many as they have.
  pub list-count :
      (project_root : String) (kind : Option String) (limit : ℕ) (file : Chars)
      (p : EventRecord V → Bool)
      → length (keep (in_listing project_root kind) (records_in format file)) ≤ limit
      → count p (list format project_root kind limit file)
        ≡ count p (keep (in_listing project_root kind) (records_in format file))
  unfolding list
  list-count project_root kind limit file p few =
      let matching = keep (in_listing project_root kind) (records_in format file) in
      let whole = take-all limit (latest_first matching) (
        omega (
          arith,
          few,
          count-true matching,
          count-true (latest_first matching),
          latest_first-count (λ r. true) matching,
        )) in
      ap (count p) whole ∙ latest_first-count p matching
