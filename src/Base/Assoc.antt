-- ===== src/Base/Assoc.antt =====
-- Rust's `BTreeMap<String, V>`: an association list that `insert` keeps in the order of the keys,
-- so that `values` visits them as the program does.
use Prim.Native.String.{String}
use mathlib.Core.Path.{◌≡◌, refl}
use mathlib.Core.Option.{Option, none, some}
use mathlib.Core.List.{List, [], ◌∷◌, map}
use native.Mathlib.Omega.{arith}
use text.Mathlib.Text.{◌==◌}
use text.Mathlib.TextEquality.{eq_iff}
use text.Mathlib.TextPositions.{eq_refl}
use subspace_daemon.Base.Tests.{if◌then◌else◌}
use subspace_daemon.Base.Text.{text_lt}

module _ {ℓ} {A : Type ℓ} where
  unfoldable pub lookup : String → List (String × A) → Option A
  lookup key [] = none
  lookup key ((other, a) ∷ entries) = if other == key then some a else lookup key entries

  unfoldable pub insert : String → A → List (String × A) → List (String × A)
  insert key a [] = (key, a) ∷ []
  insert key a ((other, b) ∷ entries) =
      if other == key
      then (key, a) ∷ entries
      else if text_lt key other
      then (key, a) ∷ (other, b) ∷ entries
      else (other, b) ∷ insert key a entries

  unfoldable pub remove : String → List (String × A) → List (String × A)
  remove key [] = []
  remove key ((other, b) ∷ entries) =
      if other == key then remove key entries else (other, b) ∷ remove key entries

  unfoldable pub values : List (String × A) → List A
  values entries = map (λ e. e.1) entries

  pub lookup-insert :
      (key other : String) (a : A) (entries : List (String × A))
      → lookup other (insert key a entries)
        ≡ (if key == other then some a else lookup other entries)
  unfolding lookup insert
  lookup-insert key other a [] = refl
  lookup-insert key other a ((name, b) ∷ entries) = ground (
    arith,
    eq_iff key other,
    eq_iff name key,
    eq_iff name other,
    lookup-insert key other a entries,
  )

  pub lookup-insert_self :
      (key : String) (a : A) (entries : List (String × A))
      → lookup key (insert key a entries) ≡ some a
  lookup-insert_self key a entries = simp (lookup-insert, eq_refl)

  pub lookup-remove :
      (key other : String) (entries : List (String × A))
      → lookup other (remove key entries) ≡ (if key == other then none else lookup other entries)
  unfolding lookup remove
  lookup-remove key other [] = ground arith
  lookup-remove key other ((name, b) ∷ entries) =
      ground (
        arith,
        eq_iff key other,
        eq_iff name key,
        eq_iff name other,
        lookup-remove key other entries,
      )
