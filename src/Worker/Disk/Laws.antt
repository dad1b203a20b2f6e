-- ===== src/Worker/Disk/Laws.antt =====
-- Lookups after each change of the files, in the form that rewriting and `ground` use.
use prometheus_knowledge_rs.Prelude.{
  ℕ, ◌≡◌, refl, sym, ap, ◌∙◌, ◌↔◌, true, none, some, List, [], ◌∷◌, arith, eq_iff, ◌==◌,
  if◌then◌else◌,
}
use prometheus_knowledge_rs.Worker.Disk.{
  Directory, pending, processing, retry, rejected, completed, dead_letter, memory_pending,
  memory_submitting, memory_accepted, memory_retry, memory_completed, memory_rejected,
  memory_dead_letter, memory_stalled, memory_manifests, queue_root, directory_number, Location,
  same_location, lookup, put, remove,
}

-- `directory_number` has an inverse, so equal numbers are equal directories.
numbered : ℕ → Directory
numbered n =
    if n == 0
    then pending
    else if n == 1
    then processing
    else if n == 2
    then retry
    else if n == 3
    then rejected
    else if n == 4
    then completed
    else if n == 5
    then dead_letter
    else if n == 6
    then memory_pending
    else if n == 7
    then memory_submitting
    else if n == 8
    then memory_accepted
    else if n == 9
    then memory_retry
    else if n == 10
    then memory_completed
    else if n == 11
    then memory_rejected
    else if n == 12
    then memory_dead_letter
    else if n == 13
    then memory_stalled
    else if n == 14
    then memory_manifests
    else queue_root

numbered_lem : (d : Directory) → numbered (directory_number d) ≡ d
unfolding numbered
numbered_lem pending = refl
numbered_lem _ = refl

directory_number_inj : (d e : Directory) → directory_number d ≡ directory_number e → d ≡ e
directory_number_inj d e h = sym (numbered_lem d) ∙ ap numbered h ∙ numbered_lem e

pub same_location_iff : (p q : Location) → (same_location p q ≡ true) ↔ (p ≡ q)
unfolding same_location
same_location_iff p q = (
  λ h. ground (arith, directory_number_inj p.directory q.directory, eq_iff p.name q.name),
  λ h. ground (arith, eq_iff p.name q.name),
)

module _ {C : Type 0} where
  pub lookup-put :
      (p q : Location) (c : C) (fs : List (Location × C))
      → lookup q (put p c fs) ≡ (if same_location p q then some c else lookup q fs)
  unfolding lookup put
  lookup-put p q c [] = refl
  lookup-put p q c ((r, d) ∷ fs) = ground (
    arith,
    lookup-put p q c fs,
    same_location_iff p q,
    same_location_iff r p,
    same_location_iff r q,
  )

  pub lookup-remove :
      (p q : Location) (fs : List (Location × C))
      → lookup q (remove p fs) ≡ (if same_location p q then none else lookup q fs)
  unfolding lookup remove
  lookup-remove p q [] = ground arith
  lookup-remove p q ((r, d) ∷ fs) = ground (
    arith,
    lookup-remove p q fs,
    same_location_iff p q,
    same_location_iff r p,
    same_location_iff r q,
  )

  pub lookup-put_self :
      (p : Location) (c : C) (fs : List (Location × C)) → lookup p (put p c fs) ≡ some c
  lookup-put_self p c fs = rw (lookup-put, (same_location_iff p p).1 refl)

  pub lookup-rename :
      (p q r : Location) (c : C) (fs : List (Location × C))
      → lookup r (put q c (remove p fs))
        ≡ (if same_location q r then some c else if same_location p r then none else lookup r fs)
  lookup-rename p q r c fs = rw (lookup-put, lookup-remove) refl

  pub lookup-rewrite-rename :
      (p q r : Location) (c : C) (fs : List (Location × C))
      → lookup r (put q c (remove p (put p c fs)))
        ≡ (if same_location q r then some c else if same_location p r then none else lookup r fs)
  lookup-rewrite-rename p q r c fs =
      ground (arith, lookup-rename p q r c (put p c fs), lookup-put p r c fs)
