-- ===== src/Turbocharger/Deployment/Order.antt =====
-- pkg/turbocharger/deployment.go: the order in which the files are noted does not matter, since the
-- manifest is sorted.
use edgerouter.Base.{
  ◌≡◌, ◌≢◌, refl, sym, ap, ap₂, subst, inl, inr, Str, false, List, [], ◌∷◌, All, Any, arith,
}
use edgerouter.Base.Sort.{SliceSort, IsSorted, Any-perm, All-perm}
use edgerouter.Discovery.EventLog.{str_lt}
use edgerouter.Turbocharger.Manifest.{FilePath}
use edgerouter.Turbocharger.Deployment.{path_lt}
use mathlib.Core.List.Permᴰ
use mathlib.Core.List.{Permᴰ}

abbrev pub HasDistinctPaths : List FilePath → Type 0
HasDistinctPaths [] = Unit
HasDistinctPaths (x ∷ xs) = All (λ y. y.path ≢ x.path) xs × HasDistinctPaths xs

abbrev IsIn : FilePath → List FilePath → Type 0
IsIn x xs = Any (λ y. y ≡ x) xs

-- Texts of which neither is less are the same.
pub str_lt-antisym : (s t : Str) → str_lt s t ≡ false → str_lt t s ≡ false → s ≡ t
unfolding str_lt
str_lt-antisym [] [] h k = refl
str_lt-antisym [] (d ∷ t) h k = cc
str_lt-antisym (c ∷ s) [] h k = cc
str_lt-antisym (c ∷ s) (d ∷ t) h k = ground (arith, str_lt-antisym s t)

All-In : (P : FilePath → Type 0) (x : FilePath) (xs : List FilePath) → IsIn x xs → All P xs → P x
All-In P x (y ∷ xs) (inl e) h = subst P e h.0
All-In P x (y ∷ xs) (inr i) h = All-In P x xs i h.1
All-In P x [] i h = absurd i

HasDistinctPaths-swap :
    (a b a' b' : FilePath) (l : List FilePath)
    → a ≡ b'
    → b ≡ a'
    → HasDistinctPaths (a ∷ b ∷ l)
    → HasDistinctPaths (a' ∷ b' ∷ l)
HasDistinctPaths-swap a b a' b' l e f ((differ, not_a), (not_b, rest)) =
    subst (λ x. HasDistinctPaths (a' ∷ x ∷ l)) e
      (subst (λ x. HasDistinctPaths (x ∷ a ∷ l)) f
        (((λ same. differ (sym same)), not_b), (not_a, rest)))

pub HasDistinctPaths-perm :
    {xs ys : List FilePath} → Permᴰ xs ys → HasDistinctPaths xs → HasDistinctPaths ys
HasDistinctPaths-perm Permᴰ.nil h = h
HasDistinctPaths-perm (Permᴰ.cons {l₂ = ys} e p) h =
    (subst (λ z. All (λ y. y.path ≢ z.path) ys) e (All-perm _ p h.0), HasDistinctPaths-perm p h.1)
HasDistinctPaths-perm (Permᴰ.swap {l = l} e f) h = HasDistinctPaths-swap _ _ _ _ l e f h
HasDistinctPaths-perm (Permᴰ.trans p q) h = HasDistinctPaths-perm q (HasDistinctPaths-perm p h)

-- The first of a sorted list is not greater than any element.
not_less :
    (x z : FilePath) (xs : List FilePath)
    → IsSorted path_lt (x ∷ xs)
    → path_lt x x ≡ false
    → IsIn z (x ∷ xs)
    → path_lt z x ≡ false
not_less x z xs s irrefl (inl e) = subst (λ w. path_lt w x ≡ false) e irrefl
not_less x z xs s irrefl (inr i) = All-In (λ w. path_lt w x ≡ false) z xs i s.0

str_lt_irrefl : (s : Str) → str_lt s s ≡ false
unfolding str_lt
str_lt_irrefl [] = refl
str_lt_irrefl (c ∷ s) = ground (arith, str_lt_irrefl s)

-- Elements of a list with distinct paths that have one path are the same.
same_path :
    (x y : FilePath) (xs : List FilePath)
    → HasDistinctPaths (x ∷ xs)
    → IsIn y (x ∷ xs)
    → y.path ≡ x.path
    → x ≡ y
same_path x y xs d (inl e) p = e
same_path x y xs d (inr i) p = absurd (All-In (λ w. w.path ≢ x.path) y xs i d.0 p)

IsIn-tail : (x z : FilePath) (ys : List FilePath) → z.path ≢ x.path → IsIn z (x ∷ ys) → IsIn z ys
IsIn-tail x z ys differs (inl e) = absurd (differs (ap (λ w. w.path) (sym e)))
IsIn-tail x z ys differs (inr i) = i

-- Two sorted lists of files with distinct paths and the same elements are the same list.
sorted_unique :
    (xs ys : List FilePath)
    → IsSorted path_lt xs
    → IsSorted path_lt ys
    → HasDistinctPaths xs
    → HasDistinctPaths ys
    → ((z : FilePath) → IsIn z xs → IsIn z ys)
    → ((z : FilePath) → IsIn z ys → IsIn z xs)
    → xs ≡ ys
sorted_unique [] [] s t d e to from = refl
sorted_unique [] (y ∷ ys) s t d e to from = absurd (from y (inl refl))
sorted_unique (x ∷ xs) [] s t d e to from = absurd (to x (inl refl))
sorted_unique (x ∷ xs) (y ∷ ys) s t d e to from =
    ap₂ (λ a l. a ∷ l) heads
      (sorted_unique xs ys s.1 t.1 d.1 e.1 (λ z i. IsIn-tail y z ys (differs_y z i) (to z (inr i)))
        (λ z i. IsIn-tail x z xs (differs_x z i) (from z (inr i))))
  where
    heads : x ≡ y
    heads = same_path x y xs d (from y (inl refl)) (
        str_lt-antisym y.path x.path (not_less x y xs s (str_lt_irrefl x.path) (from y (inl refl)))
          (not_less y x ys t (str_lt_irrefl y.path) (to x (inl refl))))

    differs_y : (z : FilePath) → IsIn z xs → z.path ≢ y.path
    differs_y z i = subst (λ w. z.path ≢ w.path) heads (All-In (λ w. w.path ≢ x.path) z xs i d.0)

    differs_x : (z : FilePath) → IsIn z ys → z.path ≢ x.path
    differs_x z i =
        subst (λ w. z.path ≢ w.path) (sym heads) (All-In (λ w. w.path ≢ y.path) z ys i e.0)

-- Sorting two orders of the same files with distinct paths gives the same list.
pub sort-perm :
    (sorting : SliceSort path_lt) (xs ys : List FilePath)
    → Permᴰ xs ys
    → HasDistinctPaths xs
    → sorting.sort xs ≡ sorting.sort ys
sort-perm sorting xs ys p d =
    let to =
      Permᴰ.trans (sorting.sort_perm xs) (Permᴰ.trans p (Permᴰ.symm (sorting.sort_perm ys))) in
    sorted_unique (sorting.sort xs) (sorting.sort ys) (sorting.sort_sorted xs)
      (sorting.sort_sorted ys) (HasDistinctPaths-perm (Permᴰ.symm (sorting.sort_perm xs)) d)
      (HasDistinctPaths-perm (Permᴰ.trans p (Permᴰ.symm (sorting.sort_perm ys))) d)
      (λ z i. Any-perm (λ y. y ≡ z) to i) (λ z i. Any-perm (λ y. y ≡ z) (Permᴰ.symm to) i)
