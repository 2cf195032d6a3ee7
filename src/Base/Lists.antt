-- ===== src/Base/Lists.antt =====
-- Lists measured by native numbers, and the two quantifiers over a list, by recursion.
use Prim.Native.Nat.{ℕ, zero, suc, ◌+◌}
use mathlib.Core.Path.{◌≡◌, refl, ap}
use mathlib.Core.Logic.{◌↔◌, ◌⊎◌, inl, inr}
use mathlib.Core.Bool.{Bool, true, false}
use mathlib.Core.Option.{Option, none, some}
use mathlib.Core.List.{List, [], ◌∷◌, ◌++◌, map}
use native.Mathlib.Omega.{arith}
use edgerouter.Base.Tests.{if◌then◌else◌, Bool-cases, or_else}

module _ {ℓ} {A : Type ℓ} where
  abbrev pub length : List A → ℕ
  length [] = 0
  length (x ∷ xs) = suc (length xs)

  abbrev pub drop : ℕ → List A → List A
  drop zero xs = xs
  drop (suc n) [] = []
  drop (suc n) (x ∷ xs) = drop n xs

  -- `for _, x := range xs { if test(x) { return &x } }; return nil`
  abbrev pub find : (A → Bool) → List A → Option A
  find test [] = none
  find test (x ∷ xs) = if test x then some x else find test xs

  pub length-append : (xs ys : List A) → length (xs ++ ys) ≡ length xs + length ys
  length-append [] ys = omega arith
  length-append (x ∷ xs) ys = omega (arith, length-append xs ys)

module _ {ℓ κ} {A : Type ℓ} where
  abbrev pub All : (A → Type κ) → List A → Type κ
  All P [] = Unit
  All P (x ∷ xs) = P x × All P xs

module _ {ℓ} {A : Type ℓ} where
  -- An element of the list has the property.
  abbrev pub Any : (A → Type 0) → List A → Type 0
  Any P [] = ⊥
  Any P (x ∷ xs) = P x ⊎ Any P xs

  pub All-append {κ} :
      (P : A → Type κ) (front back : List A) → All P front → All P back → All P (front ++ back)
  All-append P (x ∷ front) back (p, ps) qs = (p, All-append P front back ps qs)
  All-append P [] back ps qs = qs

  pub All_imp {κ μ} :
      (P : A → Type κ) (Q : A → Type μ) (xs : List A) → ((x : A) → P x → Q x) → All P xs → All Q xs
  All_imp P Q [] f h = tt
  All_imp P Q (x ∷ xs) f h = (f x h.0, All_imp P Q xs f h.1)

  pub Any_imp : (P Q : A → Type 0) (xs : List A) → ((x : A) → P x → Q x) → Any P xs → Any Q xs
  Any_imp P Q [] f h = h
  Any_imp P Q (x ∷ xs) f (inl h) = inl (f x h)
  Any_imp P Q (x ∷ xs) f (inr h) = inr (Any_imp P Q xs f h)

  pub Any-append_left : (P : A → Type 0) (xs ys : List A) → Any P xs → Any P (xs ++ ys)
  Any-append_left P [] ys h = absurd h
  Any-append_left P (x ∷ xs) ys (inl h) = inl h
  Any-append_left P (x ∷ xs) ys (inr h) = inr (Any-append_left P xs ys h)

  pub Any-append_right : (P : A → Type 0) (xs ys : List A) → Any P ys → Any P (xs ++ ys)
  Any-append_right P [] ys h = h
  Any-append_right P (x ∷ xs) ys h = inr (Any-append_right P xs ys h)

  pub Any-append_cases : (P : A → Type 0) (xs ys : List A) → Any P (xs ++ ys) → Any P xs ⊎ Any P ys
  Any-append_cases P [] ys h = inr h
  Any-append_cases P (x ∷ xs) ys (inl h) = inl (inl h)
  Any-append_cases P (x ∷ xs) ys (inr h) = elim (Any-append_cases P xs ys h) [
    | inl l ↦ inl (inr l)
    | inr r ↦ inr r
  ]

  -- What `find` returns is the first element that passes the test.
  pub record First (test : A → Bool) (xs : List A) (a : A) : Type ℓ where
    pub before : List A
    pub after : List A
    pub split : xs ≡ before ++ a ∷ after
    pub skipped : All (λ x. test x ≡ false) before
    pub passes : test a ≡ true

  pub find-First : (test : A → Bool) (xs : List A) (a : A) → find test xs ≡ some a → First test xs a
  find-First test [] a h = cc
  find-First test (x ∷ xs) a h = elim (Bool-cases (test x)) [
    | inl e ↦
        let same : x ≡ a = ground arith in
        record {
          before = [];
          after = xs;
          split = ap (λ y. y ∷ xs) same;
          skipped = tt;
          passes = rw (← same) e;
        }
    | inr e ↦
        let r = find-First test xs a (rw e at h) in
        record {
          before = x ∷ r.before;
          after = r.after;
          split = ap (λ l. x ∷ l) r.split;
          skipped = (e, r.skipped);
          passes = r.passes;
        }
  ]

  find-skip :
      (test : A → Bool) (before xs : List A)
      → All (λ x. test x ≡ false) before
      → find test (before ++ xs) ≡ find test xs
  find-skip test [] xs h = refl
  find-skip test (x ∷ before) xs h = rw h.0 (find-skip test before xs h.1)

  pub First-find : (test : A → Bool) (xs : List A) (a : A) → First test xs a → find test xs ≡ some a
  First-find test xs a r = rw (r.split, find-skip test r.before (a ∷ r.after) r.skipped, r.passes)

  pub Any-All : (P Q : A → Type 0) (xs : List A) → Any P xs → All Q xs → Any (λ x. P x × Q x) xs
  Any-All P Q [] h k = h
  Any-All P Q (x ∷ xs) (inl h) k = inl (h, k.0)
  Any-All P Q (x ∷ xs) (inr h) k = inr (Any-All P Q xs h k.1)

  pub find-append :
      (test : A → Bool) (xs ys : List A)
      → find test (xs ++ ys) ≡ or_else (find test xs) (find test ys)
  find-append test [] ys = refl
  find-append test (x ∷ xs) ys = elim (Bool-cases (test x)) [
    | inl e ↦ rw e
    | inr e ↦ rw (e, find-append test xs ys)
  ]

  -- Nothing is found exactly when every element fails the test.
  pub find-none_iff :
      (test : A → Bool) (xs : List A) → (find test xs ≡ none) ↔ All (λ x. test x ≡ false) xs
  find-none_iff test [] = ((λ h. tt), (λ h. refl))
  find-none_iff test (x ∷ xs) = ground (arith, find-none_iff test xs)

-- What `find` returns passes the test and is an element of the list.
pub find-some :
    {A : Type 0} (test : A → Bool) (xs : List A) (a : A)
    → find test xs ≡ some a
    → ((test a ≡ true) × Any (λ x. x ≡ a) xs)
find-some test [] a h = cc
find-some test (x ∷ xs) a h = elim (Bool-cases (test x)) [
  | inl e ↦ let same : x ≡ a = ground (arith) in (rw (← same) e, inl same)
  | inr e ↦ let (t, m) = find-some test xs a (rw e at h) in (t, inr m)
]

module _ {A B : Type 0} (f : A → B) where
  pub Any-map : (P : B → Type 0) (xs : List A) → Any (λ x. P (f x)) xs → Any P (map f xs)
  Any-map P [] h = h
  Any-map P (x ∷ xs) (inl h) = inl h
  Any-map P (x ∷ xs) (inr h) = inr (Any-map P xs h)

  pub Any-map_inv : (P : B → Type 0) (xs : List A) → Any P (map f xs) → Any (λ x. P (f x)) xs
  Any-map_inv P [] h = h
  Any-map_inv P (x ∷ xs) (inl h) = inl h
  Any-map_inv P (x ∷ xs) (inr h) = inr (Any-map_inv P xs h)

  pub All-map : (P : B → Type 0) (xs : List A) → All (λ x. P (f x)) xs → All P (map f xs)
  All-map P [] h = h
  All-map P (x ∷ xs) h = (h.0, All-map P xs h.1)

  pub All-map_inv : (P : B → Type 0) (xs : List A) → All P (map f xs) → All (λ x. P (f x)) xs
  All-map_inv P [] h = h
  All-map_inv P (x ∷ xs) h = (h.0, All-map_inv P xs h.1)

-- Two lists of one length, related element by element.
abbrev pub Each : {A B : Type 0} → (A → B → Type 0) → List A → List B → Type 0
Each P [] [] = Unit
Each P [] (y ∷ ys) = ⊥
Each P (x ∷ xs) [] = ⊥
Each P (x ∷ xs) (y ∷ ys) = P x y × Each P xs ys
