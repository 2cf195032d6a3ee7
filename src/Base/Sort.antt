-- ===== src/Base/Sort.antt =====
-- sort.Slice, as an interface: the documented contract of the standard library's sort, which is
-- not stable. `less` is the comparison that the caller passes.
use mathlib.Core.Path.{◌≡◌, refl, subst}
use mathlib.Core.Logic.{inl, inr}
use mathlib.Core.Bool.{Bool, true, false}
use mathlib.Core.Option.{some}
use mathlib.Core.List.Permᴰ
use mathlib.Core.List.{List, [], ◌∷◌, Permᴰ}
use edgerouter.Base.Tests.{if◌then◌else◌, Bool-cases}
use edgerouter.Base.Lists.{All, Any, find, All_imp}

module _ {A : Type 0} where
  -- No element is less than one that stands before it.
  abbrev pub IsSorted : (A → A → Bool) → List A → Type 0
  IsSorted less [] = Unit
  IsSorted less (x ∷ xs) = All (λ y. less y x ≡ false) xs × IsSorted less xs

pub record SliceSort {A : Type 0} (less : A → A → Bool) : Type 0 where
  pub sort : List A → List A
  pub sort_perm : (xs : List A) → Permᴰ (sort xs) xs
  pub sort_sorted : (xs : List A) → IsSorted less (sort xs)

module _ {A : Type 0} where
  pub Any-perm : (P : A → Type 0) {xs ys : List A} → Permᴰ xs ys → Any P xs → Any P ys
  Any-perm P Permᴰ.nil h = h
  Any-perm P (Permᴰ.cons e p) (inl h) = inl (subst P e h)
  Any-perm P (Permᴰ.cons e p) (inr h) = inr (Any-perm P p h)
  Any-perm P (Permᴰ.swap e f) (inl h) = inr (inl (subst P e h))
  Any-perm P (Permᴰ.swap e f) (inr (inl h)) = inl (subst P f h)
  Any-perm P (Permᴰ.swap e f) (inr (inr h)) = inr (inr h)
  Any-perm P (Permᴰ.trans p q) h = Any-perm P q (Any-perm P p h)

  pub All-perm : (P : A → Type 0) {xs ys : List A} → Permᴰ xs ys → All P xs → All P ys
  All-perm P Permᴰ.nil h = h
  All-perm P (Permᴰ.cons e p) h = (subst P e h.0, All-perm P p h.1)
  All-perm P (Permᴰ.swap e f) h = (subst P f h.1.0, (subst P e h.0, h.1.1))
  All-perm P (Permᴰ.trans p q) h = All-perm P q (All-perm P p h)

  -- In a sorted list, no element that passes the test is less than the one that `find` returns.
  pub find-first :
      (less : A → A → Bool) (test : A → Bool) (xs : List A) (a : A)
      → ((x : A) → less x x ≡ false)
      → IsSorted less xs
      → find test xs ≡ some a
      → All (λ y. test y ≡ true → less y a ≡ false) xs
  find-first less test [] a irrefl s h = tt
  find-first less test (x ∷ xs) a irrefl s h = elim (Bool-cases (test x)) [
    | inl e ↦
        let same : x ≡ a = some_inj (rw e at h) in
        subst (λ b. All (λ y. test y ≡ true → less y b ≡ false) (x ∷ xs)) same
          ((λ _. irrefl x), weaken xs s.0)
    | inr e ↦ ((λ t. cc), find-first less test xs a irrefl s.1 (rw e at h))
  ]
    where
      some_inj : {b c : A} → some b ≡ some c → b ≡ c
      some_inj p = cc

      weaken :
          (ys : List A)
          → All (λ y. less y x ≡ false) ys
          → All (λ y. test y ≡ true → less y x ≡ false) ys
      weaken [] hs = tt
      weaken (y ∷ ys) hs = ((λ _. hs.0), weaken ys hs.1)

-- Insertion sort, an implementation of the contract for a transitive and asymmetric test.
module _ {A : Type 0} (less : A → A → Bool) where
  pub insert_sorted : A → List A → List A
  insert_sorted x [] = x ∷ []
  insert_sorted x (y ∷ ys) = if less y x then y ∷ insert_sorted x ys else x ∷ y ∷ ys

  unfoldable pub insertion_sort : List A → List A
  unfolding insert_sorted
  insertion_sort [] = []
  insertion_sort (x ∷ xs) = insert_sorted x (insertion_sort xs)

  insert_sorted-perm : (x : A) (ys : List A) → Permᴰ (insert_sorted x ys) (x ∷ ys)
  unfolding insert_sorted
  insert_sorted-perm x [] = Permᴰ.refl (x ∷ [])
  insert_sorted-perm x (y ∷ ys) = elim (Bool-cases (less y x)) [
    | inl e ↦ rw e (Permᴰ.trans (Permᴰ.cons refl (insert_sorted-perm x ys)) (Permᴰ.swap refl refl))
    | inr e ↦ rw e (Permᴰ.refl (x ∷ y ∷ ys))
  ]

  pub insertion_sort-perm : (xs : List A) → Permᴰ (insertion_sort xs) xs
  unfolding insertion_sort
  insertion_sort-perm [] = Permᴰ.nil
  insertion_sort-perm (x ∷ xs) =
      Permᴰ.trans (insert_sorted-perm x (insertion_sort xs))
        (Permᴰ.cons refl (insertion_sort-perm xs))

  module _ (asym : (x y : A) → less x y ≡ true → less y x ≡ false)
      (chain : (x y z : A) → less y x ≡ false → less z y ≡ false → less z x ≡ false) where
    All-insert_sorted :
        (P : A → Type 0) (x : A) (ys : List A) → P x → All P ys → All P (insert_sorted x ys)
    unfolding insert_sorted
    All-insert_sorted P x [] px h = (px, tt)
    All-insert_sorted P x (y ∷ ys) px h = elim (Bool-cases (less y x)) [
      | inl e ↦ rw e (h.0, All-insert_sorted P x ys px h.1)
      | inr e ↦ rw e (px, h)
    ]

    insert_sorted-IsSorted :
        (x : A) (ys : List A) → IsSorted less ys → IsSorted less (insert_sorted x ys)
    unfolding insert_sorted
    insert_sorted-IsSorted x [] s = (tt, tt)
    insert_sorted-IsSorted x (y ∷ ys) s = elim (Bool-cases (less y x)) [
      | inl e ↦ rw e (
        All-insert_sorted (λ z. less z y ≡ false) x ys (asym y x e) s.0,
        insert_sorted-IsSorted x ys s.1,
      )
      | inr e ↦ rw e ((e, All_imp _ _ ys (λ z h. chain x y z e h) s.0), s)
    ]

    pub insertion_sort-IsSorted : (xs : List A) → IsSorted less (insertion_sort xs)
    unfolding insertion_sort
    insertion_sort-IsSorted [] = tt
    insertion_sort-IsSorted (x ∷ xs) =
        insert_sorted-IsSorted x (insertion_sort xs) (insertion_sort-IsSorted xs)

    abbrev pub insertion : SliceSort less
    insertion = record {
      sort = insertion_sort;
      sort_perm = insertion_sort-perm;
      sort_sorted = insertion_sort-IsSorted;
    }
