-- ===== src/Server/Mounts/Resolve.antt =====
-- What resolveMount of pkg/erserver/mountresolver.go answers, in terms of the configuration.
use mathlib.Core.List.Permᴰ
use mathlib.Core.List.{Permᴰ}
use edgerouter.Base.{
  ℕ, Str, ◌≡◌, sym, subst, ap, ◌∙◌, ◌↔◌, ◌⊎◌, inl, inr, Bool, true, List, ◌++◌, Option, none, some,
  Result, ok, arith, find, find-append, or_else, Any, All, Option-cases,
}
use edgerouter.Base.Dict.{lookup}
use edgerouter.Base.Sort.{SliceSort, IsSorted}
use edgerouter.Config.{Frontend, Backend, Application}
use edgerouter.Server.Mounts.{
  Mount, FrontendMatchers, longer, or_empty, prefix_matches, path_matches, resolve_mount,
  app_config_to_handlers_and_matchers,
}
use edgerouter.Server.Mounts.Tiers.{
  tier, is_path_prefix, is_hostname, is_regexp, regexp_mounts, resolve_mount-find,
}
use edgerouter.Server.Mounts.Build.{declared, Built, app_config-Built}
use edgerouter.Server.Mounts.Search.{
  MountsFrom, Takes, NotTakes, NoLonger, Takes-contra, tier-source, tier-none, none-tier,
  tier-longest,
}

-- `find` on the three parts of a list.
find-append_cases :
    {A : Type 0} (test : A → Bool) (xs ys zs : List A) (a : A)
    → find test (xs ++ (ys ++ zs)) ≡ some a
    → (find test xs ≡ some a) ⊎ ((find test ys ≡ some a) ⊎ (find test zs ≡ some a))
find-append_cases {A} test xs ys zs a h = go (find test xs) (find test ys) (find test zs) (
    (ap (or_else (find test xs)) (sym (find-append test ys zs))
      ∙ sym (find-append test xs (ys ++ zs)))
    ∙ h)
  where
    go :
        (o p q : Option A)
        → or_else o (or_else p q) ≡ some a
        → (o ≡ some a) ⊎ ((p ≡ some a) ⊎ (q ≡ some a))
    go (some b) p q e = inl e
    go none (some b) q e = inr (inl e)
    go none none q e = inr (inr e)

find-append_none :
    {A : Type 0} (test : A → Bool) (xs ys zs : List A)
    → (find test (xs ++ (ys ++ zs)) ≡ none)
      ↔ ((find test xs ≡ none) × (find test ys ≡ none) × (find test zs ≡ none))
find-append_none {A} test xs ys zs =
    rw (find-append test xs (ys ++ zs), find-append test ys zs)
      (go (find test xs) (find test ys) (find test zs))
  where
    go :
        (o p q : Option A)
        → (or_else o (or_else p q) ≡ none) ↔ ((o ≡ none) × (p ≡ none) × (q ≡ none))
    go (some b) p q = ground arith
    go none (some b) q = ground arith
    go none none q = ground arith

module _ {R H S : Type 0} (compile : Str → Result R) (match_string : R → Str → Bool)
    (sorting : SliceSort (longer {H = H})) (make_backend : Str → Backend → S → Result H × S)
    (apps : List Application) (timestamp : ℕ) (s : S) (fem : FrontendMatchers R H) (s' : S)
    (accepted : app_config_to_handlers_and_matchers compile sorting make_backend apps timestamp s
      ≡ (ok fem, s')) where
  built : Built compile match_string sorting make_backend apps fem
  built = app_config-Built compile match_string sorting make_backend apps timestamp s accepted

  mounts_for : Str → List (Mount H)
  mounts_for host = or_empty (lookup host fem.hostname)

  regexps_for : Str → List (Mount H)
  regexps_for host = regexp_mounts match_string host fem.hostname_regexp

  regexp_tier :
      (host : Str)
      → Permᴰ (regexps_for host) (tier (is_regexp compile match_string host) built.held)
  unfolding regexps_for
  regexp_tier host =
      subst (Permᴰ (regexps_for host)) (built.represents.regexp_tier host)
        (Permᴰ.refl (regexps_for host))

  -- The lemmas on a tier, for the frontends of the configuration.
  module _ (test : Frontend → Bool) (path : Str) (xs : List (Mount H))
      (p : Permᴰ xs (tier test built.held)) where
    source :
        (m : Mount H)
        → find (path_matches path) xs ≡ some m
        → (prefix_matches path m.prefix ≡ true) × Any (MountsFrom test m) (declared apps)
    source m h =
        let (matched, from) = tier-source test path xs built.held p m h in
        (matched, subst (Any (MountsFrom test m)) built.complete from)

    missed_iff : (find (path_matches path) xs ≡ none) ↔ All (NotTakes test path) (declared apps)
    missed_iff = (
      (λ h.
          subst (All (NotTakes test path)) built.complete (tier-none test path xs built.held p h)),
      (λ h.
          none-tier test path xs built.held p
            (subst (All (NotTakes test path)) (sym built.complete) h)),
    )

    -- If a frontend of the tier takes the path, one with the longest such prefix is found.
    found :
        IsSorted longer xs
        → Any (Takes test path) (declared apps)
        → (m : Mount H) × (find (path_matches path) xs ≡ some m)
          × Any (MountsFrom test m) (declared apps)
          × All (NoLonger test path m) (declared apps)
    found sorted taken = elim (Option-cases (find (path_matches path) xs)) [
      | inl e ↦ absurd (Takes-contra test path (declared apps) taken (missed_iff.0 e))
      | inr (m, e) ↦ (
        m,
        e,
        (source m e).1,
        subst (All (NoLonger test path m)) built.complete
            (tier-longest test path xs built.held p m sorted e),
      )
    ]

  -- A mount that a request resolves to matches the path, and belongs to a declared frontend that
  -- takes every hostname, this hostname, or the hostnames of an expression that matches this one.
  pub resolve_mount-declared :
      (host path : Str) (m : Mount H)
      → resolve_mount match_string host path fem ≡ some m
      → (prefix_matches path m.prefix ≡ true)
        × (Any (MountsFrom is_path_prefix m) (declared apps)
            ⊎ (Any (MountsFrom (is_hostname host) m) (declared apps)
                ⊎ Any (MountsFrom (is_regexp compile match_string host) m) (declared apps)))
  unfolding mounts_for regexps_for
  resolve_mount-declared host path m h =
      let r = built.represents in
      elim (find-append_cases (path_matches path) fem.path_prefix (mounts_for host)
        (regexps_for host) m (sym (resolve_mount-find match_string host path fem) ∙ h)) [
          | inl e ↦
              let (t, a) = source is_path_prefix path fem.path_prefix r.path_tier m e in (t, inl a)
          | inr (inl e) ↦
              let (t, a) =
                source (is_hostname host) path (mounts_for host) (r.host_tier host) m e in
              (t, inr (inl a))
          | inr (inr e) ↦
              let (t, a) =
                source (is_regexp compile match_string host) path (regexps_for host)
                  (regexp_tier host) m e in
              (t, inr (inr a))
        ]

  -- A request resolves to no mount exactly when no declared frontend takes its hostname and path.
  pub resolve_mount-none_iff :
      (host path : Str)
      → (resolve_mount match_string host path fem ≡ none) ↔ (
          All (NotTakes is_path_prefix path) (declared apps)
          × All (NotTakes (is_hostname host) path) (declared apps)
          × All (NotTakes (is_regexp compile match_string host) path) (declared apps))
  unfolding mounts_for regexps_for
  resolve_mount-none_iff host path =
      let r = built.represents in
      let (to, from) =
        find-append_none (path_matches path) fem.path_prefix (mounts_for host) (regexps_for host) in
      let (p, p') = missed_iff is_path_prefix path fem.path_prefix r.path_tier in
      let (q, q') = missed_iff (is_hostname host) path (mounts_for host) (r.host_tier host) in
      let (x, x') =
        missed_iff (is_regexp compile match_string host) path (regexps_for host)
          (regexp_tier host) in
      rw (resolve_mount-find match_string host path fem)
        ((λ h. let (a, b, c) = to h in (p a, q b, x c)), (λ (a, b, c). from (p' a, q' b, x' c)))

  -- If a frontend for every hostname takes the path, the request resolves to such a frontend, and to
  -- one whose prefix is the longest of those.
  pub resolve_mount-path_prefix :
      (host path : Str)
      → Any (Takes is_path_prefix path) (declared apps)
      → (m : Mount H) × (resolve_mount match_string host path fem ≡ some m)
        × Any (MountsFrom is_path_prefix m) (declared apps)
        × All (NoLonger is_path_prefix path m) (declared apps)
  unfolding mounts_for
  resolve_mount-path_prefix host path taken =
      let r = built.represents in
      let (m, e, from, longest) =
        found is_path_prefix path fem.path_prefix r.path_tier r.path_sorted taken in
      (m, rw (resolve_mount-find match_string host path fem, find-append, e), from, longest)

  -- If no frontend for every hostname takes the path, and one for this hostname does, the request
  -- resolves to a frontend for this hostname, and to one whose prefix is the longest of those.
  pub resolve_mount-hostname :
      (host path : Str)
      → All (NotTakes is_path_prefix path) (declared apps)
      → Any (Takes (is_hostname host) path) (declared apps)
      → (m : Mount H) × (resolve_mount match_string host path fem ≡ some m)
        × Any (MountsFrom (is_hostname host) m) (declared apps)
        × All (NoLonger (is_hostname host) path m) (declared apps)
  unfolding mounts_for
  resolve_mount-hostname host path missed taken =
      let r = built.represents in
      let (m, e, from, longest) =
        found (is_hostname host) path (mounts_for host) (r.host_tier host) (r.host_sorted host)
          taken in
      let e₀ = (missed_iff is_path_prefix path fem.path_prefix r.path_tier).1 missed in
      (
        m,
        rw (resolve_mount-find match_string host path fem, find-append, e₀, find-append, e),
        from,
        longest,
      )
