-- ===== src/Server/Mounts/Represents.antt =====
-- The matchers of pkg/erserver/mountresolver.go hold exactly what was declared: each tier is a
-- rearrangement of the declared mounts, ordered from the longest prefix to the shortest.
use mathlib.Core.List.Permᴰ
use mathlib.Core.List.{Permᴰ}
use edgerouter.Base.{
  ℕ, Str, ◌==◌, eq_iff, ◌≡◌, refl, sym, subst, inl, inr, Bool, true, false, List, [], ◌∷◌, ◌++◌,
  append-nil, append_assoc, Result, ok, ok-injective, >>=-eq-ok, Bool-cases,
}
use edgerouter.Base.Dict.{lookup, insert, lookup-insert}
use edgerouter.Base.Sort.{SliceSort, IsSorted}
use edgerouter.Config.{FrontendKind, Frontend, Application}
use edgerouter.Server.Mounts.{
  FrontendMatchers, longer, or_empty, add_frontend, add_frontends, add_frontend_kind,
  new_frontend_matchers,
}
use edgerouter.Server.Mounts.Tiers.{
  Entry, entry_mount, tier, tier-append, is_path_prefix, is_hostname, is_regexp, regexp_mounts,
  regexp_mounts-append,
}

module _ {R H : Type 0} (compile : Str → Result R) (match_string : R → Str → Bool) where
  pub record Represents (fem : FrontendMatchers R H) (es : List (Entry H)) : Type 0 where
    pub path_tier : Permᴰ fem.path_prefix (tier is_path_prefix es)
    pub path_sorted : IsSorted longer fem.path_prefix
    pub host_tier :
        (host : Str) → Permᴰ (or_empty (lookup host fem.hostname)) (tier (is_hostname host) es)
    pub host_sorted : (host : Str) → IsSorted longer (or_empty (lookup host fem.hostname))
    pub regexp_tier :
        (host : Str)
        → regexp_mounts match_string host fem.hostname_regexp
          ≡ tier (is_regexp compile match_string host) es

-- The entries that the loop over an application's frontends adds.
abbrev pub entries : {H : Type 0} → Application → H → List Frontend → List (Entry H)
entries app handler [] = []
entries app handler (f ∷ fs) =
    record { app = app; handler = handler; frontend = f } ∷ entries app handler fs

tier-skip :
    {H : Type 0} (test : Frontend → Bool) (es : List (Entry H)) (e : Entry H)
    → test e.frontend ≡ false
    → tier test (es ++ e ∷ []) ≡ tier test es
tier-skip test es e h = rw (tier-append test es (e ∷ []), h) (append-nil (tier test es))

tier-keep :
    {H : Type 0} (test : Frontend → Bool) (es : List (Entry H)) (e : Entry H)
    → test e.frontend ≡ true
    → tier test (es ++ e ∷ []) ≡ tier test es ++ entry_mount e ∷ []
tier-keep test es e h = rw (tier-append test es (e ∷ []), h)

module _ {R H : Type 0} (compile : Str → Result R) (match_string : R → Str → Bool)
    (sorting : SliceSort (longer {H = H})) where
  module _ (es : List (Entry H)) (e : Entry H) (fem : FrontendMatchers R H)
      (r : Represents compile match_string fem es) where
    add_path :
        e.frontend.kind ≡ FrontendKind.path_prefix
        → Represents compile match_string
            (record fem { path_prefix = sorting.sort (fem.path_prefix ++ entry_mount e ∷ []) })
            (es ++ e ∷ [])
    add_path k = record {
      path_tier =
          rw (tier-keep is_path_prefix es e (rw k)) (
            Permᴰ.trans (sorting.sort_perm _)
              (Permᴰ.append_right (entry_mount e ∷ []) r.path_tier));
      path_sorted = sorting.sort_sorted _;
      host_tier = λ host. rw (tier-skip (is_hostname host) es e (rw k)) (r.host_tier host);
      host_sorted = r.host_sorted;
      regexp_tier = λ host.
          rw (tier-skip (is_regexp compile match_string host) es e (rw k)) (r.regexp_tier host);
    }

    add_host :
        e.frontend.kind ≡ FrontendKind.hostname
        → Represents compile match_string
            (record fem {
              hostname =
                  insert e.frontend.hostname
                    (sorting.sort
                      (or_empty (lookup e.frontend.hostname fem.hostname) ++ entry_mount e ∷ []))
                    fem.hostname;
            })
            (es ++ e ∷ [])
    add_host k = record {
      path_tier = rw (tier-skip is_path_prefix es e (rw k)) r.path_tier;
      path_sorted = r.path_sorted;
      host_tier = λ host. elim (Bool-cases (e.frontend.hostname == host)) [
        | inl same ↦
            rw (lookup-insert, same, tier-keep (is_hostname host) es e (rw (k, same)))
              (subst
                (λ h.
                  Permᴰ (sorting.sort (or_empty (lookup h fem.hostname) ++ entry_mount e ∷ []))
                    (tier (is_hostname host) es ++ entry_mount e ∷ []))
                (sym ((eq_iff _ _).0 same))
                (Permᴰ.trans (sorting.sort_perm _)
                  (Permᴰ.append_right (entry_mount e ∷ []) (r.host_tier host))))
        | inr other ↦
            rw (lookup-insert, other, tier-skip (is_hostname host) es e (rw (k, other)))
              (r.host_tier host)
      ];
      host_sorted = λ host. elim (Bool-cases (e.frontend.hostname == host)) [
        | inl same ↦ rw (lookup-insert, same) (sorting.sort_sorted _)
        | inr other ↦ rw (lookup-insert, other) (r.host_sorted host)
      ];
      regexp_tier = λ host.
          rw (tier-skip (is_regexp compile match_string host) es e (rw k)) (r.regexp_tier host);
    }

    add_regexp :
        e.frontend.kind ≡ FrontendKind.hostname_regexp
        → (re : R) → compile e.frontend.hostname_regexp ≡ ok re
        → Represents compile match_string
            (record fem {
              hostname_regexp =
                  fem.hostname_regexp ++ record { regexp = re; mounts = entry_mount e ∷ [] } ∷ [];
            })
            (es ++ e ∷ [])
    add_regexp k re c = record {
      path_tier = rw (tier-skip is_path_prefix es e (rw k)) r.path_tier;
      path_sorted = r.path_sorted;
      host_tier = λ host. rw (tier-skip (is_hostname host) es e (rw k)) (r.host_tier host);
      host_sorted = r.host_sorted;
      regexp_tier = λ host. elim (Bool-cases (match_string re host)) [
        | inl matched ↦ rw (
          tier-keep (is_regexp compile match_string host) es e (rw (k, c, matched)),
          regexp_mounts-append match_string host fem.hostname_regexp _,
          matched,
          r.regexp_tier host,
        )
        | inr other ↦ rw (
          tier-skip (is_regexp compile match_string host) es e (rw (k, c, other)),
          regexp_mounts-append match_string host fem.hostname_regexp _,
          other,
          append-nil,
          r.regexp_tier host,
        )
      ];
    }

  step-kind :
      (es : List (Entry H)) (e : Entry H) (fem : FrontendMatchers R H) (k : FrontendKind)
      {fem' : FrontendMatchers R H}
      → Represents compile match_string fem es
      → e.frontend.kind ≡ k
      → add_frontend_kind compile sorting k (entry_mount e) e.frontend fem ≡ ok fem'
      → Represents compile match_string fem' (es ++ e ∷ [])
  step-kind es e fem FrontendKind.path_prefix r k h =
      subst (λ m. Represents compile match_string m (es ++ e ∷ [])) (ok-injective h)
        (add_path es e fem r k)
  step-kind es e fem FrontendKind.hostname r k h =
      subst (λ m. Represents compile match_string m (es ++ e ∷ [])) (ok-injective h)
        (add_host es e fem r k)
  step-kind es e fem FrontendKind.hostname_regexp r k h =
      let (re, c, h') = >>=-eq-ok (compile e.frontend.hostname_regexp) _ h in
      subst (λ m. Represents compile match_string m (es ++ e ∷ [])) (ok-injective h')
        (add_regexp es e fem r k re c)
  step-kind es e fem (FrontendKind.unknown u) r k h = cc

  pub add_frontend-Represents :
      (es : List (Entry H)) (e : Entry H) (fem : FrontendMatchers R H) {fem' : FrontendMatchers R H}
      → Represents compile match_string fem es
      → add_frontend compile sorting e.app e.handler e.frontend fem ≡ ok fem'
      → Represents compile match_string fem' (es ++ e ∷ [])
  unfolding add_frontend
  add_frontend-Represents es e fem r h = step-kind es e fem e.frontend.kind r refl h

  pub add_frontends-Represents :
      (app : Application) (handler : H) (fs : List Frontend) (es : List (Entry H))
      (fem : FrontendMatchers R H) {fem' : FrontendMatchers R H}
      → Represents compile match_string fem es
      → add_frontends compile sorting app handler fs fem ≡ ok fem'
      → Represents compile match_string fem' (es ++ entries app handler fs)
  unfolding add_frontends
  add_frontends-Represents app handler [] es fem r h =
      rw (append-nil es) (subst (λ m. Represents compile match_string m es) (ok-injective h) r)
  add_frontends-Represents app handler (f ∷ fs) es fem {fem'} r h =
      let e : Entry H = record { app = app; handler = handler; frontend = f } in
      let (fem₁, h₁, h₂) = >>=-eq-ok (add_frontend compile sorting app handler f fem) _ h in
      subst (Represents compile match_string fem')
        (append_assoc es (e ∷ []) (entries app handler fs))
        (add_frontends-Represents app handler fs (es ++ e ∷ []) fem₁
          (add_frontend-Represents es e fem r h₁) h₂)

pub new_frontend_matchers-Represents :
    {R H : Type 0} (compile : Str → Result R) (match_string : R → Str → Bool)
    (apps : List Application) (timestamp : ℕ)
    → Represents {H = H} compile match_string (new_frontend_matchers apps timestamp) []
unfolding new_frontend_matchers lookup
new_frontend_matchers-Represents compile match_string apps timestamp = record {
  path_tier = Permᴰ.nil;
  path_sorted = tt;
  host_tier = λ host. Permᴰ.nil;
  host_sorted = λ host. tt;
  regexp_tier = λ host. refl;
}
