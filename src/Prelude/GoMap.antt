-- ===== src/Prelude/GoMap.antt =====
-- Go's `map[string]V` as an association list with one entry for each key. The order of the entries
-- stands for the order in which a `range` visits them, which Go leaves open: what is proved of any
-- such list holds for every order.
use Prim.Native.String.{String}
use mathlib.Core.Path.{◌≡◌, refl}
use mathlib.Core.Logic.{◌≢◌}
use mathlib.Core.Option.{Option, none, some}
use mathlib.Core.List.{List, [], ◌∷◌}
use native.Mathlib.Omega.{arith}
use text.Mathlib.Text.{◌==◌}
use text.Mathlib.TextEquality.{eq_iff}
use text.Mathlib.TextPositions.{eq_refl}
use sopdet.Prelude.Tests.{if◌then◌else◌}
use sopdet.Prelude.Lists.{All, Distinct}

abbrev pub GoMap {ℓ} : Type ℓ → Type ℓ
GoMap V = List (String × V)

module _ {ℓ} {V : Type ℓ} where
  -- `v, ok := m[k]`
  unfoldable pub lookup : (key : String) (entries : GoMap V) → Option V
  lookup key [] = none
  lookup key ((name, value) ∷ rest) = if name == key then some value else lookup key rest

  -- `m[k] = v`
  unfoldable pub insert : (key : String) (value : V) (entries : GoMap V) → GoMap V
  insert key value [] = (key, value) ∷ []
  insert key value ((name, old) ∷ rest) =
      if name == key then (key, value) ∷ rest else (name, old) ∷ insert key value rest

  -- `delete(m, k)`
  unfoldable pub remove : String → GoMap V → GoMap V
  remove k [] = []
  remove k ((j, w) ∷ m) = let rest = remove k m in if j == k then rest else (j, w) ∷ rest

  abbrev pub keys : GoMap V → List String
  keys [] = []
  keys ((j, v) ∷ m) = j ∷ keys m

  -- A Go map has each key once.
  abbrev pub IsMap : GoMap V → Type 0
  IsMap m = Distinct (keys m)

  pub lookup-insert :
      (key other : String) (value : V) (entries : GoMap V)
      → lookup other (insert key value entries)
        ≡ (if key == other then some value else lookup other entries)
  unfolding lookup insert
  lookup-insert key other value [] = refl
  lookup-insert key other value ((name, old) ∷ rest) =
      let later = lookup-insert key other value rest in
      ground (later, eq_iff name other, eq_iff name key, eq_iff key other, arith)

  pub lookup-remove :
      (key other : String) (entries : GoMap V)
      → lookup other (remove key entries) ≡ (if key == other then none else lookup other entries)
  unfolding lookup remove
  lookup-remove key other [] = ground arith
  lookup-remove key other ((name, old) ∷ rest) =
      let later = lookup-remove key other rest in
      ground (later, eq_iff name other, eq_iff name key, eq_iff key other, arith)

  pub lookup-insert_self :
      (key : String) (value : V) (entries : GoMap V)
      → lookup key (insert key value entries) ≡ some value
  lookup-insert_self key value entries = simp (eq_refl, lookup-insert)

  -- A key that differs from all keys of a map stays out of the map after another insertion.
  All-ne-insert :
      (j k : String) (v : V) (m : GoMap V)
      → j ≢ k
      → All (λ i. j ≢ i) (keys m)
      → All (λ i. j ≢ i) (keys (insert k v m))
  unfolding insert
  All-ne-insert j k v [] h a = (h, tt)
  All-ne-insert j k v ((i, w) ∷ m) h a = ground (arith, All-ne-insert j k v m h a.1)

  pub insert-IsMap : (k : String) (v : V) (m : GoMap V) → IsMap m → IsMap (insert k v m)
  unfolding insert
  insert-IsMap k v [] h = (tt, tt)
  insert-IsMap k v ((i, w) ∷ m) h =
      ground (arith, eq_iff i k, insert-IsMap k v m h.1, All-ne-insert i k v m)

  -- A key that differs from all keys of a map has no value there.
  pub lookup_absent : (k : String) (m : GoMap V) → All (λ i. k ≢ i) (keys m) → lookup k m ≡ none
  unfolding lookup
  lookup_absent k [] h = refl
  lookup_absent k ((i, w) ∷ m) h = ground (arith, eq_iff i k, lookup_absent k m h.1)

pub ruleset map_laws = (lookup-insert, lookup-remove, eq_refl)
