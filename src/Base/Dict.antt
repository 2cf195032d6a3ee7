-- ===== src/Base/Dict.antt =====
-- Go maps with string keys. The order of the entries is the order in which they were put, while
-- Go's is unspecified: the code that ranges over a map sorts what it collects.
pub mod Keys
use mathlib.Core.Path.{◌≡◌, refl}
use mathlib.Core.Option.{Option, none, some}
use mathlib.Core.List.{List, [], ◌∷◌}
use native.Mathlib.Omega.{arith}
use edgerouter.Base.Tests.{if◌then◌else◌}
use edgerouter.Base.Strings.{Str, ◌==◌, eq_iff}

abbrev pub Dict {ℓ} : Type ℓ → Type ℓ
Dict V = List (Str × V)

module _ {ℓ} {V : Type ℓ} where
  -- val, found := m[key]
  unfoldable pub lookup : Str → Dict V → Option V
  lookup key [] = none
  lookup key ((j, w) ∷ more) = if j == key then some w else lookup key more

  -- m[key] = val
  unfoldable pub insert : Str → V → Dict V → Dict V
  insert key val [] = (key, val) ∷ []
  insert key val ((j, w) ∷ more) =
      if j == key then (key, val) ∷ more else (j, w) ∷ insert key val more

  -- delete(m, key)
  unfoldable pub delete : Str → Dict V → Dict V
  delete key [] = []
  delete key ((j, w) ∷ more) =
      let rest = delete key more in if j == key then rest else (j, w) ∷ rest

  pub lookup-insert :
      (key other : Str) (val : V) (dict : Dict V)
      → lookup other (insert key val dict) ≡ (if key == other then some val else lookup other dict)
  unfolding lookup insert
  lookup-insert key other val ((j, w) ∷ more) =
      let later = lookup-insert key other val more in
      ground (arith, eq_iff j other, eq_iff j key, eq_iff key other)
  lookup-insert key other val [] = refl

  pub lookup-delete :
      (key other : Str) (dict : Dict V)
      → lookup other (delete key dict) ≡ (if key == other then none else lookup other dict)
  unfolding lookup delete
  lookup-delete key other [] = ground arith
  lookup-delete key other ((j, w) ∷ more) =
      let later = lookup-delete key other more in
      ground (arith, eq_iff j key, eq_iff j other, eq_iff key other)
