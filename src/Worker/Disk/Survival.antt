-- ===== src/Worker/Disk/Survival.antt =====
-- Records that outlive a change of the files: each identity that some file carried is carried by a
-- file afterwards. `identity` reads it from a file's content.
use prometheus_knowledge_rs.Prelude.{
  ◌≡◌, sym, ap, ◌∙◌, inl, inr, Option, none, some, List, String, Bool-cases, false, arith,
}
use prometheus_knowledge_rs.Worker.Disk.{Location, same_location, lookup, put, remove}
use prometheus_knowledge_rs.Worker.Disk.Laws.{
  same_location_iff, lookup-put, lookup-put_self, lookup-rename,
}

module _ {C : Type 0} (identity : C → Option String) where
  -- Some file carries the identity.
  pub record Holds (fs : List (Location × C)) (id : String) : Type 0 where
    pub place : Location
    pub content : C
    pub found : lookup place fs ≡ some content
    pub carries : identity content ≡ some id

  abbrev pub Survives : List (Location × C) → List (Location × C) → Type 0
  Survives before after = (id : String) → Holds before id → Holds after id

  pub Survives-refl : (fs : List (Location × C)) → Survives fs fs
  Survives-refl fs id h = h

  pub Survives-trans : (a b c : List (Location × C)) → Survives a b → Survives b c → Survives a c
  Survives-trans a b c f g id h = g id (f id h)

  -- A write keeps what it replaces only if it carries the same identity.
  pub Survives-put :
      (p : Location) (c : C) (fs : List (Location × C))
      → ((old : C) → lookup p fs ≡ some old → identity c ≡ identity old)
      → Survives fs (put p c fs)
  Survives-put p c fs same id h = elim (Bool-cases (same_location p h.place)) [
    | inl here ↦
        let e : p ≡ h.place = (same_location_iff p h.place).0 here in
        record {
          place = p;
          content = c;
          found = lookup-put_self p c fs;
          carries = same h.content (rw e h.found) ∙ h.carries;
        }
    | inr there ↦ record {
      place = h.place;
      content = h.content;
      found = rw (lookup-put, there) h.found;
      carries = h.carries;
    }
  ]

  -- A rename keeps every identity where nothing stands at the target.
  pub Survives-rename :
      (p q : Location) (c : C) (fs : List (Location × C))
      → lookup p fs ≡ some c
      → lookup q fs ≡ none
      → Survives fs (put q c (remove p fs))
  Survives-rename p q c fs here free id h = elim (Bool-cases (same_location p h.place)) [
    | inl same ↦
        let e : p ≡ h.place = (same_location_iff p h.place).0 same in
        let f : some c ≡ some h.content = sym here ∙ rw e h.found in
        record {
          place = q;
          content = c;
          found = lookup-put_self q c (remove p fs);
          carries = ap identity (cc f) ∙ h.carries;
        }
    | inr other ↦ record {
      place = h.place;
      content = h.content;
      found = kept h.place h.content other h.found;
      carries = h.carries;
    }
  ]
    where
      kept :
          (r : Location) (d : C)
          → same_location p r ≡ false
          → lookup r fs ≡ some d
          → lookup r (put q c (remove p fs)) ≡ some d
      kept r d other found = ground (arith, lookup-rename p q r c fs, same_location_iff q r)
