-- ===== src/Prelude/Maps.antt =====
-- Go's `map[string]T` as an association list. A read of a missing key is `none`; an assignment
-- replaces the entry; `delete` drops every entry of the key. Ranging goes over the list's order,
-- which stands for whichever order Go picks.
use Prim.Native.String.{String}
use mathlib.Core.Path.{◌≡◌, refl}
use mathlib.Core.Logic.{◌↔◌}
use mathlib.Core.Bool.{Bool, true, false, ◌&&◌, ◌||◌, not}
use mathlib.Core.Option.{Option, none, some}
use mathlib.Core.List.{List, [], ◌∷◌}
use native.Mathlib.Omega.{arith}
use text.Mathlib.Text.{◌==◌}
use text.Mathlib.TextEquality.{eq_iff}
use logpilot.Prelude.Tests.{if◌then◌else◌}

module _ {ℓ} {V : Type ℓ} where
  unfoldable pub lookup : String → List (String × V) → Option V
  lookup k [] = none
  lookup k ((j, v) ∷ m) = if j == k then some v else lookup k m

  unfoldable pub insert : String → V → List (String × V) → List (String × V)
  insert k v [] = (k, v) ∷ []
  insert k v ((j, w) ∷ m) = if j == k then (k, v) ∷ m else (j, w) ∷ insert k v m

  unfoldable pub delete : String → List (String × V) → List (String × V)
  delete k [] = []
  delete k ((j, w) ∷ m) = if j == k then delete k m else (j, w) ∷ delete k m

  -- `_, ok := m[k]`
  unfoldable pub has : String → List (String × V) → Bool
  unfolding lookup
  has k m = elim (lookup k m) [ none ↦ false | some v ↦ true ]

  -- `maps.Copy(dst, src)`; the keys of `src` are distinct, so the order of the writes is free
  unfoldable pub copy : List (String × V) → List (String × V) → List (String × V)
  copy dst [] = dst
  copy dst ((k, v) ∷ src) = insert k v (copy dst src)

  abbrev pub or_else : Option V → Option V → Option V
  or_else none b = b
  or_else (some a) b = some a

  pub lookup-insert :
      (j k : String) (v : V) (m : List (String × V))
      → lookup j (insert k v m) ≡ (if k == j then some v else lookup j m)
  unfolding lookup insert
  lookup-insert j k v [] = refl
  lookup-insert j k v ((i, w) ∷ m) =
      ground (arith, eq_iff k j, eq_iff i k, eq_iff i j, lookup-insert j k v m)

  pub lookup-delete :
      (j k : String) (m : List (String × V))
      → lookup j (delete k m) ≡ (if k == j then none else lookup j m)
  unfolding lookup delete
  lookup-delete j k [] = ground arith
  lookup-delete j k ((i, w) ∷ m) =
      ground (arith, eq_iff k j, eq_iff i k, eq_iff i j, lookup-delete j k m)

  pub lookup-eq-none_iff :
      (k : String) (m : List (String × V)) → (lookup k m ≡ none) ↔ (has k m ≡ false)
  unfolding has
  lookup-eq-none_iff k m = ground arith

  pub has-insert :
      (j k : String) (v : V) (m : List (String × V)) → has j (insert k v m) ≡ (k == j || has j m)
  unfolding has
  has-insert j k v m = ground (arith, lookup-insert j k v m)

  pub has-delete :
      (j k : String) (m : List (String × V)) → has j (delete k m) ≡ (not (k == j) && has j m)
  unfolding has
  has-delete j k m = ground (arith, lookup-delete j k m)

  -- A copied map reads as the source where that has the key, and as the destination elsewhere.
  pub lookup-copy :
      (j : String) (dst src : List (String × V))
      → lookup j (copy dst src) ≡ or_else (lookup j src) (lookup j dst)
  unfolding copy lookup
  lookup-copy j dst [] = refl
  lookup-copy j dst ((k, v) ∷ src) =
      ground (arith, lookup-insert j k v (copy dst src), lookup-copy j dst src)
