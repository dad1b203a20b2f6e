-- ===== src/Worker/Run/Counts.antt =====
-- The counters of a pass and the names that it met.
use mathlib.Core.Path.{subst}
use prometheus_knowledge_rs.Worker.Disk.{Directory, Location, at, Disk, Io, pure, continue, ◌>>=◌}
use prometheus_knowledge_rs.Prelude.{
  ℕ, ◌+◌, ◌≡◌, refl, Bool, true, false, List, [], ◌∷◌, arith, String, if◌then◌else◌, length,
}
use prometheus_knowledge_rs.Worker.Operation.{
  ReceiptOutcome, transitioned, progressed, unchanged, Result, ok, err,
}
use prometheus_knowledge_rs.Worker.Queue.{Host}
use prometheus_knowledge_rs.Worker.Quarantine.{has_text}
use prometheus_knowledge_rs.Worker.Run.{
  RunSummary, Pass, Visit, count_outcome, settle, attempt, visit_file, visit_names,
  visit_directories, fresh_pass, reconcile_all, default_summary, enter, count_deferred,
}

-- No name stands twice.
abbrev pub IsDistinct : List String → Type 0
IsDistinct [] = Unit
IsDistinct (n ∷ ns) = (has_text n ns ≡ false) × IsDistinct ns

abbrev pub met : RunSummary → ℕ
met s =
    s.memory_delivered + s.memory_in_flight + s.memory_deferred + s.memory_awaiting_reconciliation

pub record IsCounted (pass : Pass) : Type 0 where
  pub accounted : met pass.summary ≡ length pass.reconciled
  pub once : IsDistinct pass.reconciled

-- What holds of every value that an action returns.
record Ensures {C A : Type 0} (P : A → Type 0) (m : Io C A) : Type 0 where
  returned : (d : Disk C) (a : A) → (m d).0 ≡ ok a → P a

module _ {C A B : Type 0} {P : B → Type 0} where
  Ensures-continue :
      (r : Result A) (f : A → Io C B) (d : Disk C) (b : B)
      → ((a : A) → r ≡ ok a → Ensures P (f a))
      → (continue r f d).0 ≡ ok b
      → P b
  Ensures-continue (ok a) f d b kf e = (kf a refl).returned d b e
  Ensures-continue (err x) f d b kf e = cc

  Ensures-bind :
      {Q : A → Type 0} (m : Io C A) (f : A → Io C B)
      → Ensures Q m
      → ((a : A) → Q a → Ensures P (f a))
      → Ensures P (m >>= f)
  unfolding ◌>>=◌
  Ensures-bind m f qm kf = record {
    returned = λ d b e. Ensures-continue (m d).0 f (m d).1 b (λ a r. kf a (qm.returned d a r)) e;
  }

  Ensures-after : (m : Io C A) (f : A → Io C B) → ((a : A) → Ensures P (f a)) → Ensures P (m >>= f)
  unfolding ◌>>=◌
  Ensures-after m f kf = record {
    returned = λ d b e. Ensures-continue (m d).0 f (m d).1 b (λ a r. kf a) e;
  }

module _ {C A : Type 0} {P : A → Type 0} where
  Ensures-pure : (a : A) → P a → Ensures P (pure {C = C} a)
  unfolding pure
  Ensures-pure a h = record { returned = λ d b e. let f : a ≡ b = cc e in subst P f h }

  Ensures-if :
      (b : Bool) (m n : Io C A)
      → (b ≡ true → Ensures P m)
      → (b ≡ false → Ensures P n)
      → Ensures P (if b then m else n)
  Ensures-if true m n hm hn = hm refl
  Ensures-if false m n hm hn = hn refl

module _ {C : Type 0} (host : Host C) where
  -- A pass that has just met one more record, not yet counted.
  record IsEntered (pass : Pass) : Type 0 where
    one_more : met pass.summary + 1 ≡ length pass.reconciled
    distinct : IsDistinct pass.reconciled

  settle-IsCounted :
      (path : Location) (pass : Pass) (r : Result ReceiptOutcome)
      → IsEntered pass
      → Ensures IsCounted (settle host path pass r)
  unfolding settle count_outcome
  settle-IsCounted path pass (ok transitioned) h = Ensures-pure _ (ground arith)
  settle-IsCounted path pass (ok progressed) h = Ensures-pure _ (ground arith)
  settle-IsCounted path pass (ok unchanged) h = Ensures-pure _ (ground arith)
  settle-IsCounted path pass (err e) h = Ensures-after _ _ λ u. Ensures-pure _ (ground arith)

  attempt-IsCounted :
      (path : Location) (visit : Visit) (pass : Pass)
      → IsEntered pass
      → Ensures IsCounted (attempt host path visit pass)
  unfolding attempt
  attempt-IsCounted path visit pass h = record {
    returned = λ d b e. (settle-IsCounted path pass _ h).returned _ b e;
  }

  enter-IsEntered :
      (name : String) (pass : Pass)
      → has_text name pass.reconciled ≡ false
      → IsCounted pass
      → IsEntered (enter name pass)
  enter-IsEntered name pass new h = record {
    one_more = omega (arith, h.accounted);
    distinct = (new, h.once);
  }

  count_deferred-IsCounted : (pass : Pass) → IsEntered pass → IsCounted (count_deferred pass)
  count_deferred-IsCounted pass h = record {
    accounted = omega (arith, h.one_more);
    once = h.distinct;
  }

  visit_file-IsCounted :
      (directory : Directory) (name : String) (visit : Visit) (pass : Pass)
      → IsCounted pass
      → Ensures IsCounted (visit_file host directory name visit pass)
  unfolding visit_file
  visit_file-IsCounted directory name visit pass h =
      Ensures-if (has_text name pass.reconciled) _ _ (λ old. Ensures-pure pass h)
        λ new.
          let entered = enter-IsEntered name pass new h in
          Ensures-after _ _ λ deferred.
            Ensures-if _ _ _
              (λ e.
                Ensures-pure (count_deferred (enter name pass))
                  (count_deferred-IsCounted (enter name pass) entered))
              (λ e. attempt-IsCounted (at directory name) visit (enter name pass) entered)

  visit_names-IsCounted :
      (directory : Directory) (visits : String → Visit) (names : List String) (pass : Pass)
      → IsCounted pass
      → Ensures IsCounted (visit_names host directory visits names pass)
  unfolding visit_names
  visit_names-IsCounted directory visits [] pass h = Ensures-pure pass h
  visit_names-IsCounted directory visits (name ∷ names) pass h =
      Ensures-bind _ _ (visit_file-IsCounted directory name (visits name) pass h) λ after k.
        Ensures-if _ _ _ (λ e. Ensures-pure after k)
          (λ e. visit_names-IsCounted directory visits names after k)

  visit_directories-IsCounted :
      (visits : String → Visit) (directories : List Directory) (pass : Pass)
      → IsCounted pass
      → Ensures IsCounted (visit_directories host visits directories pass)
  unfolding visit_directories
  visit_directories-IsCounted visits [] pass h = Ensures-pure pass h
  visit_directories-IsCounted visits (directory ∷ rest) pass h = Ensures-after _ _ λ names.
      Ensures-bind _ _ (visit_names-IsCounted directory visits names pass h) λ after k.
        Ensures-if _ _ _ (λ e. Ensures-pure after k)
          (λ e. visit_directories-IsCounted visits rest after k)

  -- Whatever the server answers and whatever calls fail, a pass that returns has met each file name at
  -- most once, and its four counters (delivered, in flight, deferred, awaiting reconciliation) add up
  -- to the number of names that it met.
  pub reconcile_all-IsCounted :
      (visits : String → Visit) (d : Disk C) (pass : Pass)
      → (reconcile_all host visits default_summary d).0 ≡ ok pass
      → IsCounted pass
  unfolding reconcile_all
  reconcile_all-IsCounted visits d pass e =
      (visit_directories-IsCounted visits _ (fresh_pass default_summary)
          (record { accounted = refl; once = tt })).returned
        d pass e
