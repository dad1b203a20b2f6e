-- ===== src/Worker/Disk/Steps.antt =====
-- How blocks run, step by step: after a result that is known, and on a disk without faults.
use prometheus_knowledge_rs.Prelude.{◌≡◌, refl, Bool, true, false, some, List, [], if◌then◌else◌}
use prometheus_knowledge_rs.Worker.Operation.{Error, Result, ok, err}
use prometheus_knowledge_rs.Worker.Disk.{
  Location, lookup, put, remove, Disk, Io, lift, gets, ◌>>=◌, perform, atomic_json, move,
  durable_rename,
}

module _ {C : Type 0} where
  -- A disk on which every call works.
  abbrev pub sound : List (Location × C) → Disk C
  sound fs = record { files = fs; faults = [] }

module _ {C A B : Type 0} where
  pub lift_ok :
      (r : Result A) (f : A → Io C B) (d : Disk C) (a : A) → r ≡ ok a → (lift r >>= f) d ≡ f a d
  unfolding ◌>>=◌
  lift_ok r f d a e = rw e

  pub lift_err :
      (r : Result A) (f : A → Io C B) (d : Disk C) (x : Error)
      → r ≡ err x
      → (lift r >>= f) d ≡ (err x, d)
  unfolding ◌>>=◌
  lift_err r f d x e = rw e

  pub gets_ok :
      (g : List (Location × C) → A) (f : A → Io C B) (d : Disk C)
      → (gets g >>= f) d ≡ f (g d.files) d
  unfolding ◌>>=◌
  gets_ok g f d = refl

  pub returned :
      (m : Io C A) (f : A → Io C B) (d d' : Disk C) (a : A)
      → m d ≡ (ok a, d')
      → (m >>= f) d ≡ f a d'
  unfolding ◌>>=◌
  returned m f d d' a e = rw e

module _ {C A : Type 0} where
  pub if_true : (b : Bool) (m n : Io C A) (d : Disk C) → b ≡ true → (if b then m else n) d ≡ m d
  if_true b m n d e = rw e

  pub if_false : (b : Bool) (m n : Io C A) (d : Disk C) → b ≡ false → (if b then m else n) d ≡ n d
  if_false b m n d e = rw e

module _ {C : Type 0} where
  pub atomic_json-works :
      (p : Location) (c : C) (fs : List (Location × C))
      → atomic_json p c (sound fs) ≡ (ok tt, sound (put p c fs))
  unfolding atomic_json perform
  atomic_json-works p c fs = refl

  pub durable_rename-works :
      (p q : Location) (c : C) (fs : List (Location × C))
      → lookup p fs ≡ some c
      → durable_rename p q (sound fs) ≡ (ok tt, sound (put q c (remove p fs)))
  unfolding durable_rename move perform
  durable_rename-works p q c fs e = rw (e, move)
