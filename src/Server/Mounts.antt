-- ===== src/Server/Mounts.antt =====
-- pkg/erserver/mountresolver.go: the matchers that a configuration is turned into, and the
-- resolution of a request to a mount. Handlers and regular expressions are abstract; the state `S`
-- is what making a backend may change.
pub mod Paths
pub mod Tiers
pub mod Represents
pub mod Build
pub mod Search
pub mod Resolve
pub mod Stamp
use Prim.Native.Nat.{◌<◌}
use edgerouter.Base.{
  ℕ, Str, bytes, ◌==◌, trim_right, has_prefix, Bool, true, false, ◌||◌, List, [], ◌∷◌, ◌++◌, Option,
  none, some, Result, ok, err, panic, ◌>>=◌, wrap, and_then, find, or_else, length, ltb,
  if◌then◌else◌,
}
use edgerouter.Base.Dict.{Dict, lookup, insert}
use edgerouter.Base.Sort.{SliceSort}
use edgerouter.Config.{FrontendKind, Frontend, Backend, Application}

pub record Mount (H : Type 0) : Type 0 where
  pub prefix : Str
  pub strip_prefix : Bool
  pub app : Application
  pub handler : H
  pub allow_insecure_http : Bool

pub record HostnameRegexp (R H : Type 0) : Type 0 where
  pub regexp : R
  pub mounts : List (Mount H)

pub record FrontendMatchers (R H : Type 0) : Type 0 where
  pub hostname : Dict (List (Mount H))
  pub hostname_regexp : List (HostnameRegexp R H)
  pub path_prefix : List (Mount H)
  pub apps : List Application
  pub timestamp : ℕ

unfoldable pub new_frontend_matchers : {R H : Type 0} → List Application → ℕ → FrontendMatchers R H
new_frontend_matchers apps timestamp = record {
  hostname = [];
  hostname_regexp = [];
  path_prefix = [];
  apps = apps;
  timestamp = timestamp;
}

-- `len(m[i].prefix) > len(m[j].prefix)`, the comparison that orders a mount list.
abbrev pub longer : {H : Type 0} → Mount H → Mount H → Bool
longer a b = ltb (length b.prefix) (length a.prefix)

-- The mount that the loop over the frontends makes.
abbrev pub mount_of : {H : Type 0} → Application → H → Frontend → Mount H
mount_of app handler f = record {
  prefix = f.path_prefix;
  strip_prefix = f.strip_path_prefix;
  app = app;
  handler = handler;
  allow_insecure_http = f.allow_insecure_http;
}

-- `fem.Hostname[hostname]`, which is the empty list for a hostname that is not there.
abbrev pub or_empty : {H : Type 0} → Option (List (Mount H)) → List (Mount H)
or_empty none = []
or_empty (some mounts) = mounts

-- `compile` is hostnameRegexpSyntaxToRegexp, `sorting` the sort of package sort.
module _ {R H : Type 0} (compile : Str → Result R) (sorting : SliceSort (longer {H = H})) where
  abbrev pub add_frontend_kind :
      FrontendKind → Mount H → Frontend → FrontendMatchers R H → Result (FrontendMatchers R H)
  add_frontend_kind FrontendKind.hostname mount f fem =
      let mount_list = or_empty (lookup f.hostname fem.hostname) in
      ok (record fem {
        hostname = insert f.hostname (sorting.sort (mount_list ++ mount ∷ [])) fem.hostname;
      })
  add_frontend_kind FrontendKind.hostname_regexp mount f fem = do
    re ← compile f.hostname_regexp
    ok (record fem {
      hostname_regexp = fem.hostname_regexp ++ record { regexp = re; mounts = mount ∷ [] } ∷ [];
    })
  add_frontend_kind FrontendKind.path_prefix mount f fem =
      ok (record fem { path_prefix = sorting.sort (fem.path_prefix ++ mount ∷ []) })
  add_frontend_kind (FrontendKind.unknown k) mount f fem =
      err (bytes "unsupported frontend kind: " ++ k)

  -- One round of the loop over an application's frontends.
  unfoldable pub add_frontend :
      Application → H → Frontend → FrontendMatchers R H → Result (FrontendMatchers R H)
  add_frontend app handler f fem = add_frontend_kind f.kind (mount_of app handler f) f fem

  unfoldable pub add_frontends :
      Application → H → List Frontend → FrontendMatchers R H → Result (FrontendMatchers R H)
  add_frontends app handler [] fem = ok fem
  add_frontends app handler (f ∷ fs) fem = do
    fem' ← add_frontend app handler f fem
    add_frontends app handler fs fem'

  -- One round of the loop over the applications, from what makeBackend returned.
  abbrev pub add_made :
      {S : Type 0}
      → Application
      → FrontendMatchers R H
      → Result H × S
      → Result (FrontendMatchers R H) × S
  add_made app fem (made, s) = (
    (do
      handler ← wrap (λ e. bytes "makeBackend: " ++ (app.id ++ (bytes ": " ++ e))) made
      add_frontends app handler app.frontends fem),
    s,
  )

  -- `make_backend` also changes the backend cache, which it keeps on an error too.
  module _ {S : Type 0} (make_backend : Str → Backend → S → Result H × S) where
    unfoldable pub add_apps :
        List Application → FrontendMatchers R H → S → Result (FrontendMatchers R H) × S
    unfolding add_frontends add_frontend
    add_apps [] fem s = (ok fem, s)
    add_apps (app ∷ apps) fem s =
        and_then (add_made app fem (make_backend app.id app.app_backend s)) (add_apps apps)

    unfoldable pub app_config_to_handlers_and_matchers :
        List Application → ℕ → S → Result (FrontendMatchers R H) × S
    unfolding add_apps new_frontend_matchers
    app_config_to_handlers_and_matchers apps timestamp s =
        add_apps apps (new_frontend_matchers apps timestamp) s

-- The closure `pathMatches` of resolveMount, on a mount's prefix.
unfoldable pub prefix_matches : Str → Str → Bool
prefix_matches path mount_prefix =
    if mount_prefix == bytes "/"
    then true
    else let prefix = trim_right b'/' mount_prefix in
      path == prefix || has_prefix path (prefix ++ bytes "/")

abbrev pub path_matches : {H : Type 0} → Str → Mount H → Bool
path_matches path mount = prefix_matches path mount.prefix

module _ {R H : Type 0} (match_string : R → Str → Bool) where
  -- The loop over the regular expressions.
  unfoldable pub resolve_regexps : Str → Str → List (HostnameRegexp R H) → Option (Mount H)
  resolve_regexps hostname path [] = none
  resolve_regexps hostname path (hr ∷ hrs) =
      let rest = resolve_regexps hostname path hrs in
      if match_string hr.regexp hostname
      then or_else (find (path_matches path) hr.mounts) rest
      else rest

  unfoldable pub resolve_mount : Str → Str → FrontendMatchers R H → Option (Mount H)
  unfolding resolve_regexps
  resolve_mount hostname path matchers = or_else (find (path_matches path) matchers.path_prefix) (
      or_else (find (path_matches path) (or_empty (lookup hostname matchers.hostname)))
        (resolve_regexps hostname path matchers.hostname_regexp))
