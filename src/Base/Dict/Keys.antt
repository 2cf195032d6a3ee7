-- ===== src/Base/Dict/Keys.antt =====
-- Dictionaries with one entry for each key.
use mathlib.Core.Path.{◌≡◌, refl, ap, ap₂, subst, ◌∙◌}
use mathlib.Core.Logic.{◌↔◌, inl, inr}
use mathlib.Core.Option.{none, some}
use mathlib.Core.List.{[], ◌∷◌}
use native.Mathlib.Omega.{arith}
use edgerouter.Base.Tests.{Bool-cases}
use edgerouter.Base.Lists.{Any, All}
use edgerouter.Base.Strings.{Str, ◌==◌, eq_iff, eq_refl}
use edgerouter.Base.Dict.{Dict, lookup, insert, delete, lookup-insert, lookup-delete}

module _ {V : Type 0} where
  abbrev pub HasUniqueKeys : Dict V → Type 0
  HasUniqueKeys [] = Unit
  HasUniqueKeys ((k, v) ∷ m) = (lookup k m ≡ none) × HasUniqueKeys m

  pub insert-HasUniqueKeys :
      (k : Str) (v : V) (m : Dict V) → HasUniqueKeys m → HasUniqueKeys (insert k v m)
  unfolding insert lookup
  insert-HasUniqueKeys k v [] u = (refl, tt)
  insert-HasUniqueKeys k v ((j, w) ∷ m) u = elim (Bool-cases (j == k)) [
    | inl e ↦ rw e (rw (← (eq_iff j k).0 e) u.0, u.1)
    | inr e ↦ rw e (
      lookup-insert k j v m ∙ ground (arith, eq_iff k j, eq_iff j k),
      insert-HasUniqueKeys k v m u.1,
    )
  ]

  pub delete-HasUniqueKeys : (k : Str) (m : Dict V) → HasUniqueKeys m → HasUniqueKeys (delete k m)
  unfolding delete
  delete-HasUniqueKeys k [] u = tt
  delete-HasUniqueKeys k ((j, w) ∷ m) u = elim (Bool-cases (j == k)) [
    | inl e ↦ rw e (delete-HasUniqueKeys k m u.1)
    | inr e ↦ rw e (lookup-delete k j m ∙ ground arith, delete-HasUniqueKeys k m u.1)
  ]

  lookup-Any : (k : Str) (v : V) (m : Dict V) → lookup k m ≡ some v → Any (λ e. e ≡ (k, v)) m
  unfolding lookup
  lookup-Any k v [] h = cc
  lookup-Any k v ((j, w) ∷ m) h = elim (Bool-cases (j == k)) [
    | inl e ↦ inl (ground (arith, (eq_iff j k).0 e))
    | inr e ↦ inr (lookup-Any k v m (rw e at h))
  ]

  Any-lookup :
      (k : Str) (v : V) (m : Dict V)
      → HasUniqueKeys m
      → Any (λ e. e ≡ (k, v)) m
      → lookup k m ≡ some v
  unfolding lookup
  Any-lookup k v [] u h = elim h [ ]
  Any-lookup k v ((j, w) ∷ m) u (inl h) =
      let ej : j ≡ k = ap (λ e. e.0) h in let ew : w ≡ v = ap (λ e. e.1) h in rw (ej, eq_refl k, ew)
  Any-lookup k v ((j, w) ∷ m) u (inr h) =
      let found = Any-lookup k v m u.1 h in
      elim (Bool-cases (j == k)) [
        | inl e ↦
            let same = (eq_iff j k).0 e in
            let missing = u.0 in absurd (clash j k same missing found)
        | inr e ↦ rw e found
      ]
    where
      clash : (j k : Str) → j ≡ k → lookup j m ≡ none → lookup k m ≡ some v → ⊥
      clash j k e p q = cc

  -- The entries are what a lookup finds.
  pub lookup-some_iff :
      (k : Str) (v : V) (m : Dict V)
      → HasUniqueKeys m
      → (lookup k m ≡ some v) ↔ Any (λ e. e ≡ (k, v)) m
  lookup-some_iff k v m u = (lookup-Any k v m, Any-lookup k v m u)

  pub insert-All :
      (P : Str × V → Type 0) (k : Str) (v : V) (m : Dict V)
      → P (k, v)
      → All P m
      → All P (insert k v m)
  unfolding insert
  insert-All P k v [] p h = (p, tt)
  insert-All P k v ((j, w) ∷ m) p h = elim (Bool-cases (j == k)) [
    | inl e ↦ rw e (p, h.1)
    | inr e ↦ rw e (h.0, insert-All P k v m p h.1)
  ]

  pub delete-All : (P : Str × V → Type 0) (k : Str) (m : Dict V) → All P m → All P (delete k m)
  unfolding delete
  delete-All P k [] h = tt
  delete-All P k ((j, w) ∷ m) h = elim (Bool-cases (j == k)) [
    | inl e ↦ rw e (delete-All P k m h.1)
    | inr e ↦ rw e (h.0, delete-All P k m h.1)
  ]

  pub lookup-All :
      (P : Str × V → Type 0) (k : Str) (v : V) (m : Dict V)
      → All P m
      → lookup k m ≡ some v
      → P (k, v)
  unfolding lookup
  lookup-All P k v [] a h = cc
  lookup-All P k v ((j, w) ∷ m) a h = elim (Bool-cases (j == k)) [
    | inl e ↦
        let same_k : j ≡ k = (eq_iff j k).0 e in
        let same_w : some w ≡ some v = rw e at h in
        subst P (ap₂ (λ x y. (x, y)) same_k (some-injective w same_w)) a.0
    | inr e ↦ lookup-All P k v m a.1 (rw e at h)
  ]
    where
      some-injective : (w : V) → some w ≡ some v → w ≡ v
      some-injective w p = cc
