-- ===== src/Worker/Disk/Keeps.antt =====
-- Invariants of the disk that every action keeps, whether it returns or raises and whatever faults
-- it meets; one rule for each way to build an action.
use prometheus_knowledge_rs.Prelude.{
  ◌≡◌, refl, inl, inr, Bool, true, false, Option, none, some, List, [], ◌∷◌, String, if◌then◌else◌,
  Bool-cases, sym,
}
use mathlib.Core.Path.{subst, sym}
use prometheus_knowledge_rs.Worker.Operation.{Error, Result, ok, err}
use prometheus_knowledge_rs.Worker.Disk.{
  Location, same_location, Fault, works, fails, unsynced, lookup, put, remove, move, Disk, Io, pure,
  raise, lift, gets, continue, ◌>>=◌, end_with, perform, atomic_json, durable_rename, each, ◌>>◌,
  read,
}
use prometheus_knowledge_rs.Worker.Disk.Laws.{
  same_location_iff, lookup-put, lookup-put_self, lookup-remove,
}

pub record Keeps {C A : Type 0} (P : List (Location × C) → Type 0) (m : Io C A) : Type 0 where
  pub keeps : (d : Disk C) → P d.files → P (m d).1.files

module _ {C A : Type 0} {P : List (Location × C) → Type 0} where
  pub Keeps-pure : (a : A) → Keeps P (pure a)
  unfolding pure
  Keeps-pure a = record { keeps = λ d h. h }

  pub Keeps-raise : (e : Error) → Keeps P (raise {A = A} e)
  unfolding raise
  Keeps-raise e = record { keeps = λ d h. h }

  pub Keeps-lift : (r : Result A) → Keeps P (lift r)
  unfolding lift
  Keeps-lift r = record { keeps = λ d h. h }

  pub Keeps-gets : (f : List (Location × C) → A) → Keeps P (gets f)
  unfolding gets
  Keeps-gets f = record { keeps = λ d h. h }

  pub Keeps-if : (b : Bool) (m n : Io C A) → Keeps P m → Keeps P n → Keeps P (if b then m else n)
  Keeps-if true m n km kn = km
  Keeps-if false m n km kn = kn

module _ {C : Type 0} {P : List (Location × C) → Type 0} where
  pub Keeps-read : (p : Location) → Keeps P (read p)
  unfolding read
  Keeps-read p = record { keeps = λ d h. h }

module _ {C A B : Type 0} {P : List (Location × C) → Type 0} where
  Keeps-continue :
      (r : Result A) (f : A → Io C B) → ((a : A) → Keeps P (f a)) → Keeps P (continue r f)
  Keeps-continue (ok a) f kf = record { keeps = (kf a).keeps }
  Keeps-continue (err e) f kf = record { keeps = λ d h. h }

  pub Keeps-bind :
      (m : Io C A) (f : A → Io C B) → Keeps P m → ((a : A) → Keeps P (f a)) → Keeps P (m >>= f)
  unfolding ◌>>=◌
  Keeps-bind m f km kf = record {
    keeps = λ d h. (Keeps-continue (m d).0 f kf).keeps (m d).1 (km.keeps d h);
  }

module _ {C A B : Type 0} {P : List (Location × C) → Type 0} where
  -- The rest of a block may use what a lifted result holds.
  pub Keeps-bind_lift :
      (r : Result A) (f : A → Io C B)
      → ((a : A) → r ≡ ok a → Keeps P (f a))
      → Keeps P (lift r >>= f)
  unfolding ◌>>=◌
  Keeps-bind_lift (ok a) f kf = record { keeps = (kf a refl).keeps }
  Keeps-bind_lift (err e) f kf = record { keeps = λ d h. h }

module _ {C : Type 0} (P : List (Location × C) → Type 0) where
  end_with_keeps :
      (change : List (Location × C) → List (Location × C)) (faults : List Fault) (d : Disk C)
      → P d.files
      → P (change d.files)
      → P (end_with change faults d).1.files
  end_with_keeps change [] d before after = after
  end_with_keeps change (works ∷ rest) d before after = after
  end_with_keeps change (fails ∷ rest) d before after = before
  end_with_keeps change (unsynced ∷ rest) d before after = after

  -- After an action whose outcome is known to keep `P`, a last value changes nothing.
  pub Keeps-then_pure :
      {A B : Type 0} (m : Io C A) (b : B) (d : Disk C)
      → P (m d).1.files
      → P ((m >>= λ _. pure b) d).1.files
  unfolding ◌>>=◌
  Keeps-then_pure {A = A} {B = B} m b d h = go (m d).0 h
    where
      go : (r : Result A) → P (m d).1.files → P (continue r (λ _. pure b) (m d).1).1.files
      go (ok a) h = unfold pure in h
      go (err e) h = h

  -- Whatever the fault, the files are those before the change or those after it.
  pub perform_keeps :
      (change : List (Location × C) → List (Location × C)) (d : Disk C)
      → P d.files
      → P (change d.files)
      → P (perform change d).1.files
  unfolding perform
  perform_keeps change d before after = end_with_keeps change d.faults d before after

module _ {C : Type 0} {P : List (Location × C) → Type 0} where
  pub Keeps-each :
      (f : String → Io C (Unit {0})) (ns : List String)
      → ((n : String) → Keeps P (f n))
      → Keeps P (each f ns)
  unfolding each
  Keeps-each f [] kf = Keeps-pure tt
  Keeps-each f (n ∷ ns) kf = Keeps-bind (f n) (λ _. each f ns) (kf n) (λ _. Keeps-each f ns kf)

-- One change and what follows it, at one disk: the files before, those after, and the rest of the
-- block on those after all satisfy the condition.
module _ {C A : Type 0} (P : List (Location × C) → Type 0) where
  end_with_then :
      (change : List (Location × C) → List (Location × C)) (rest : Io C A) (faults : List Fault)
      (d : Disk C)
      → P d.files
      → P (change d.files)
      → ((d' : Disk C) → d'.files ≡ change d.files → P (rest d').1.files)
      → P (continue (end_with change faults d).0 (λ _. rest) (end_with change faults d).1).1.files
  end_with_then change rest [] d before after more = more _ refl
  end_with_then change rest (works ∷ faults) d before after more = more _ refl
  end_with_then change rest (fails ∷ faults) d before after more = before
  end_with_then change rest (unsynced ∷ faults) d before after more = after

  pub write_then :
      (p : Location) (c : C) (rest : Io C A) (d : Disk C)
      → P d.files
      → P (put p c d.files)
      → ((d' : Disk C) → d'.files ≡ put p c d.files → P (rest d').1.files)
      → P ((atomic_json p c >> rest) d).1.files
  unfolding atomic_json perform ◌>>=◌
  write_then p c rest d before after more =
      end_with_then (put p c) rest d.faults d before after more

  pub rename_then :
      (p q : Location) (rest : Io C A) (d : Disk C)
      → P d.files
      → ((c : C) → lookup p d.files ≡ some c → P (put q c (remove p d.files)))
      → ((d' : Disk C) (c : C)
          → lookup p d.files ≡ some c
          → d'.files ≡ put q c (remove p d.files)
          → P (rest d').1.files)
      → P ((durable_rename p q >> rest) d).1.files
  unfolding durable_rename move perform raise ◌>>=◌
  rename_then p q rest d before after more = go (lookup p d.files) refl
    where
      go :
          (found : Option C)
          → lookup p d.files ≡ found
          → P (continue (move p q found d).0 (λ _. rest) (move p q found d).1).1.files
      go none e = before
      go (some c) e =
          end_with_then (λ fs. put q c (remove p fs)) rest d.faults d before (after c e)
            (λ d' f. more d' c e f)

  -- What an action did, and what follows it if it returned.
  pub action_then :
      {B : Type 0} (m : Io C B) (rest : B → Io C A) (d : Disk C)
      → P (m d).1.files
      → ((b : B) → P (rest b (m d).1).1.files)
      → P ((m >>= rest) d).1.files
  unfolding ◌>>=◌
  action_then {B = B} m rest d h more = go (m d).0
    where
      go : (r : Result B) → P (continue r rest (m d).1).1.files
      go (ok b) = more b
      go (err e) = h

  pub gets_then :
      {B : Type 0} (g : List (Location × C) → B) (rest : B → Io C A) (d : Disk C)
      → P (rest (g d.files) d).1.files
      → P ((gets g >>= rest) d).1.files
  unfolding ◌>>=◌
  gets_then g rest d h = h

  pub lift_then :
      {B : Type 0} (r : Result B) (rest : B → Io C A) (d : Disk C)
      → P d.files
      → ((b : B) → r ≡ ok b → P (rest b d).1.files)
      → P ((lift r >>= rest) d).1.files
  unfolding ◌>>=◌
  lift_then (ok b) rest d h more = more b refl
  lift_then (err e) rest d h more = h

  pub if_then :
      (b : Bool) (m n : Io C A) (d : Disk C)
      → (b ≡ true → P (m d).1.files)
      → (b ≡ false → P (n d).1.files)
      → P ((if b then m else n) d).1.files
  if_then true m n d hm hn = hm refl
  if_then false m n d hm hn = hn refl

-- Every file satisfies a condition on where it stands and what it holds.
pub record Every {C : Type 0} (Q : Location → C → Type 0) (fs : List (Location × C)) : Type 0 where
  pub each_file : (p : Location) (c : C) → lookup p fs ≡ some c → Q p c

module _ {C : Type 0} {Q : Location → C → Type 0} where
  pub Every-put :
      (p : Location) (c : C) (fs : List (Location × C)) → Q p c → Every Q fs → Every Q (put p c fs)
  Every-put p c fs q h = record { each_file = go }
    where
      go : (p' : Location) (c' : C) → lookup p' (put p c fs) ≡ some c' → Q p' c'
      go p' c' e = elim (Bool-cases (same_location p p')) [
        | inl same ↦
            let here : some c ≡ some c' = rw (lookup-put, same) at e in
            subst (λ x. Q x c') ((same_location_iff p p').0 same) (subst (Q p) (cc here) q)
        | inr other ↦ h.each_file p' c' (rw (lookup-put, other) at e)
      ]

  pub Every-remove : (p : Location) (fs : List (Location × C)) → Every Q fs → Every Q (remove p fs)
  Every-remove p fs h = record { each_file = go }
    where
      go : (p' : Location) (c' : C) → lookup p' (remove p fs) ≡ some c' → Q p' c'
      go p' c' e = elim (Bool-cases (same_location p p')) [
        | inl same ↦ absurd (cc (rw (lookup-remove, same) at e))
        | inr other ↦ h.each_file p' c' (rw (lookup-remove, other) at e)
      ]

  pub Keeps-atomic_json : (p : Location) (c : C) → Q p c → Keeps (Every Q) (atomic_json p c)
  unfolding atomic_json
  Keeps-atomic_json p c q = record {
    keeps = λ d h. perform_keeps (Every Q) (put p c) d h (Every-put p c d.files q h);
  }

  pub Keeps-durable_rename :
      (source target : Location)
      → ((c : C) → Q source c → Q target c)
      → Keeps (Every Q) (durable_rename source target)
  unfolding durable_rename
  Keeps-durable_rename source target carry = record {
    keeps = λ d h. moved d (lookup source d.files) refl h;
  }
    where
      moved :
          (d : Disk C) (found : Option C)
          → lookup source d.files ≡ found
          → Every Q d.files
          → Every Q (move source target found d).1.files
      moved d none e h = unfold move raise in h
      moved d (some c) e h =
          unfold move in
          perform_keeps (Every Q) (λ fs. put target c (remove source fs)) d h
            (Every-put target c (remove source d.files) (carry c (h.each_file source c e))
              (Every-remove source d.files h))

  -- After a write that worked, the rest of a block may rely on the file.
  pub Keeps-write_then :
      {A : Type 0} (p : Location) (c : C) (rest : Io C A)
      → Q p c
      → ((d : Disk C) → Every Q d.files → lookup p d.files ≡ some c → Every Q (rest d).1.files)
      → Keeps (Every Q) (atomic_json p c >> rest)
  unfolding atomic_json perform ◌>>=◌
  Keeps-write_then p c rest q after = record { keeps = λ d h. go d d.faults h }
    where
      go :
          (d : Disk C) (faults : List Fault)
          → Every Q d.files
          → Every Q
              (continue
                (end_with (put p c) faults d).0
                (λ _. rest)
                (end_with (put p c) faults d).1).1.files
      go d [] h = after _ (Every-put p c d.files q h) (lookup-put_self p c d.files)
      go d (works ∷ rest') h = after _ (Every-put p c d.files q h) (lookup-put_self p c d.files)
      go d (fails ∷ rest') h = h
      go d (unsynced ∷ rest') h = Every-put p c d.files q h

  -- A rename, where the file and what it may stand for at the target are known.
  pub durable_rename-Every :
      (source target : Location) (c : C) (d : Disk C)
      → lookup source d.files ≡ some c
      → Q target c
      → Every Q d.files
      → Every Q (durable_rename source target d).1.files
  unfolding durable_rename
  durable_rename-Every source target c d e q h =
      subst (λ found. Every Q (move source target found d).1.files) (sym e)
        (unfold move in
          perform_keeps (Every Q) (λ fs. put target c (remove source fs)) d h
            (Every-put target c (remove source d.files) q (Every-remove source d.files h)))

pub ruleset keeps_rules = (
  Keeps-pure, Keeps-raise, Keeps-lift, Keeps-gets, Keeps-if, Keeps-bind, Keeps-each,
  Keeps-atomic_json, Keeps-durable_rename,
)
