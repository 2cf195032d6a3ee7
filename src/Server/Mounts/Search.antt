-- ===== src/Server/Mounts/Search.antt =====
-- The search of resolveMount (pkg/erserver/mountresolver.go) in one tier, in terms of the frontends
-- that were declared.
use mathlib.Core.List.Permᴰ
use mathlib.Core.List.{Permᴰ}
use edgerouter.Base.{
  Str, ◌≤◌, ◌≡◌, inl, inr, Bool, true, false, List, [], ◌∷◌, map, none, some, arith, find,
  find-some, find-none_iff, length, Any, All, Any_imp, All_imp, Any-map, All-map, All-map_inv,
}
use edgerouter.Base.Sort.{IsSorted, Any-perm, All-perm, find-first}
use edgerouter.Config.{Frontend, Application}
use edgerouter.Server.Mounts.{Mount, longer, mount_of, prefix_matches, path_matches}
use edgerouter.Server.Mounts.Tiers.{Entry, tier, Any-tier, All-tier, tier-All}
use edgerouter.Server.Mounts.Build.{declared_of}

-- The frontend passes the test, and the mount is its mount with some handler.
abbrev pub MountsFrom : {H : Type 0} → (Frontend → Bool) → Mount H → Application × Frontend → Type 0
MountsFrom {H} test m (app, f) = (test f ≡ true) × (handler : H) × (mount_of app handler f ≡ m)

-- A frontend passes the test and takes the path.
abbrev pub Takes : (Frontend → Bool) → Str → Application × Frontend → Type 0
Takes test path (app, f) = (test f ≡ true) × (prefix_matches path f.path_prefix ≡ true)

abbrev pub NotTakes : (Frontend → Bool) → Str → Application × Frontend → Type 0
NotTakes test path (app, f) = test f ≡ true → prefix_matches path f.path_prefix ≡ false

-- No frontend that passes the test and takes the path has a longer prefix.
abbrev pub NoLonger :
    {H : Type 0} → (Frontend → Bool) → Str → Mount H → Application × Frontend → Type 0
NoLonger test path m (app, f) =
    test f ≡ true
    → prefix_matches path f.path_prefix ≡ true
    → length f.path_prefix ≤ length m.prefix

pub Takes-contra :
    (test : Frontend → Bool) (path : Str) (ds : List (Application × Frontend))
    → Any (Takes test path) ds
    → All (NotTakes test path) ds
    → ⊥
Takes-contra test path [] h k = h
Takes-contra test path (d ∷ ds) (inl (t, u)) k = let v = k.0 t in cc
Takes-contra test path (d ∷ ds) (inr h) k = Takes-contra test path ds h k.1

module _ {H : Type 0} (test : Frontend → Bool) (path : Str) where
  -- The search in one tier, in terms of what was declared.
  module _ (xs : List (Mount H)) (es : List (Entry H)) (p : Permᴰ xs (tier test es)) where
    pub tier-source :
        (m : Mount H)
        → find (path_matches path) xs ≡ some m
        → (prefix_matches path m.prefix ≡ true) × Any (MountsFrom test m) (map declared_of es)
    tier-source m h =
        let (matched, member) = find-some (path_matches path) xs m h in
        (
          matched,
          Any-map declared_of (MountsFrom test m) es (
              Any_imp _ _ es (λ e (t, same). (t, e.handler, same))
                (Any-tier test (λ x. x ≡ m) es (Any-perm (λ x. x ≡ m) p member))),
        )

    pub tier-none :
        find (path_matches path) xs ≡ none → All (NotTakes test path) (map declared_of es)
    tier-none h = All-map declared_of (NotTakes test path) es (
        All-tier test (λ x. prefix_matches path x.prefix ≡ false) es
          (All-perm (λ x. prefix_matches path x.prefix ≡ false) p
            ((find-none_iff (path_matches path) xs).0 h)))

    pub none-tier :
        All (NotTakes test path) (map declared_of es) → find (path_matches path) xs ≡ none
    none-tier h = (find-none_iff (path_matches path) xs).1 (
        All-perm (λ x. prefix_matches path x.prefix ≡ false) (Permᴰ.symm p)
          (tier-All test (λ x. prefix_matches path x.prefix ≡ false) es
            (All-map_inv declared_of (NotTakes test path) es h)))

    pub tier-longest :
        (m : Mount H)
        → IsSorted longer xs
        → find (path_matches path) xs ≡ some m
        → All (NoLonger test path m) (map declared_of es)
    tier-longest m s h = All-map declared_of (NoLonger test path m) es (
        All-tier test (λ x. prefix_matches path x.prefix ≡ true → length x.prefix ≤ length m.prefix)
          es
          (All-perm _ p (
            All_imp _ _ xs (λ x g t. let l = g t in ground arith)
              (find-first longer (path_matches path) xs m (λ x. ground arith) s h))))
