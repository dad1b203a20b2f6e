-- ===== src/Prelude/Maps.antt =====
-- Maps from texts, as association lists that hold a key once: Rust's HashMap and BTreeMap where the
-- order of their entries is not looked at.
use Prim.Native.String.{String}
use Prim.Native.Nat.{suc}
use mathlib.Core.Path.{◌≡◌, refl}
use mathlib.Core.Bool.{true}
use mathlib.Core.List.{List, [], ◌∷◌}
use mathlib.Core.Option.{Option, none, some}
use native.Mathlib.Omega.{arith}
use text.Mathlib.Text.{◌==◌ as str_eq}
use text.Mathlib.TextEquality.{eq_iff}
use prometheus_knowledge_rs.Prelude.Tests.{if◌then◌else◌, is_some}
use prometheus_knowledge_rs.Prelude.Lists.{length}

module _ {ℓ} {V : Type ℓ} where
  unfoldable pub find : String → List (String × V) → Option V
  find k [] = none
  find k ((q, v) ∷ m) = if str_eq q k then some v else find k m

  unfoldable pub insert : String → V → List (String × V) → List (String × V)
  insert k v [] = (k, v) ∷ []
  insert k v ((q, w) ∷ m) =
      let rest = insert k v m in if str_eq q k then (k, v) ∷ m else (q, w) ∷ rest

  unfoldable pub erase : String → List (String × V) → List (String × V)
  erase k [] = []
  erase k ((q, w) ∷ m) = let rest = erase k m in if str_eq q k then rest else (q, w) ∷ rest

  pub find-insert :
      (k q : String) (v : V) (m : List (String × V))
      → find q (insert k v m) ≡ (if str_eq k q then some v else find q m)
  unfolding find insert
  find-insert k q v [] = refl
  find-insert k q v ((r, w) ∷ m) =
      ground (arith, find-insert k q v m, eq_iff r k, eq_iff k q, eq_iff r q)

  pub find-erase :
      (k q : String) (m : List (String × V))
      → find q (erase k m) ≡ (if str_eq k q then none else find q m)
  unfolding find erase
  find-erase k q [] = ground arith
  find-erase k q ((r, w) ∷ m) = ground (arith, find-erase k q m, eq_iff r k, eq_iff k q, eq_iff r q)

  -- No key stands twice.
  abbrev pub HasKeysOnce : List (String × V) → Type ℓ
  HasKeysOnce [] = Unit
  HasKeysOnce ((k, v) ∷ m) = (find k m ≡ none) × HasKeysOnce m

  pub length-insert :
      (k : String) (v : V) (m : List (String × V))
      → find k m ≡ none
      → length (insert k v m) ≡ suc (length m)
  unfolding find insert
  length-insert k v [] free = refl
  length-insert k v ((q, w) ∷ m) free = ground (arith, length-insert k v m)

  erase-absent : (k : String) (m : List (String × V)) → find k m ≡ none → erase k m ≡ m
  unfolding find erase
  erase-absent k [] free = refl
  erase-absent k ((q, w) ∷ m) free = ground (arith, erase-absent k m)

  pub length-erase :
      (k : String) (m : List (String × V))
      → HasKeysOnce m
      → is_some (find k m) ≡ true
      → suc (length (erase k m)) ≡ length m
  unfolding find erase
  length-erase k [] once held = cc
  length-erase k ((q, w) ∷ m) (free, once) held =
      ground (arith, length-erase k m once, erase-absent k m, eq_iff q k)

  pub HasKeysOnce-insert :
      (k : String) (v : V) (m : List (String × V)) → HasKeysOnce m → HasKeysOnce (insert k v m)
  unfolding find insert
  HasKeysOnce-insert k v [] h = (refl, tt)
  HasKeysOnce-insert k v ((q, w) ∷ m) (free, once) =
      ground (arith, HasKeysOnce-insert k v m, find-insert k q v m, eq_iff q k, eq_iff k q)

  pub HasKeysOnce-erase :
      (k : String) (m : List (String × V)) → HasKeysOnce m → HasKeysOnce (erase k m)
  unfolding find erase
  HasKeysOnce-erase k [] h = tt
  HasKeysOnce-erase k ((q, w) ∷ m) (free, once) =
      ground (arith, HasKeysOnce-erase k m, find-erase k q m, eq_iff q k, eq_iff k q)
