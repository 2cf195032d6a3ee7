-- ===== src/Tests/Sample.antt =====
-- A small configuration, and concrete functions in the place of the parameters.
use edgerouter.Base.{
  ◌≡◌, refl, ◌↔◌, Str, bytes, ◌==◌, eq_iff, Bool, true, false, ◌||◌, List, [], ◌∷◌, Result, ok, Any,
  arith,
}
use edgerouter.Base.Sort.{SliceSort, insertion, insertion_sort}
use edgerouter.Base.Dict.{lookup, insert}
use edgerouter.Config.{
  FrontendKind, Frontend, BackendKind, Backend, backend, no_auth_v0, no_auth_sso, no_opts,
  Application,
}
use edgerouter.Server.Mounts.{Mount, longer, FrontendMatchers, app_config_to_handlers_and_matchers}

-- An expression matches the text that it is.
abbrev pub compile_literal : Str → Result Str
compile_literal s = ok s

pub compile_literal-ne-panic : (s : Str) → ¬ (compile_literal s ≡ Result.panic)
compile_literal-ne-panic s h = cc

abbrev pub match_literal : Str → Str → Bool
match_literal re s = re == s

pub longer-asym : {H : Type 0} (x y : Mount H) → longer x y ≡ true → longer y x ≡ false
longer-asym x y h = grind arith

pub longer-chain :
    {H : Type 0} (x y z : Mount H) → longer y x ≡ false → longer z y ≡ false → longer z x ≡ false
longer-chain x y z h k = grind arith

abbrev pub sort_mounts : {H : Type 0} → SliceSort (longer {H = H})
sort_mounts {H} = insertion longer (longer-asym {H = H}) (longer-chain {H = H})

unfoldable pub contains_string : List Str → Str → Bool
contains_string [] x = false
contains_string (a ∷ xs) x = a == x || contains_string xs x

pub contains_string_iff :
    (xs : List Str) (x : Str) → (contains_string xs x ≡ true) ↔ Any (λ a. a ≡ x) xs
unfolding contains_string
contains_string_iff [] x = ((λ h. cc), (λ h. elim h [ ]))
contains_string_iff (a ∷ xs) x =
    let (found, present) = contains_string_iff xs x in
    ((λ h. ground (arith, eq_iff a x)), (λ h. ground (arith, eq_iff a x)))

-- A handler is the identifier of its application.
abbrev pub make_named : Str → Backend → Unit {0} → Result Str × (Unit {0})
make_named id b s = (ok id, s)

abbrev pub on_path : Str → Bool → Frontend
on_path prefix strip = record {
  kind = FrontendKind.path_prefix;
  hostname = [];
  hostname_regexp = [];
  path_prefix = prefix;
  strip_path_prefix = strip;
  allow_insecure_http = false;
}

abbrev pub on_host : Str → Str → Frontend
on_host name prefix = record {
  kind = FrontendKind.hostname;
  hostname = name;
  hostname_regexp = [];
  path_prefix = prefix;
  strip_path_prefix = false;
  allow_insecure_http = true;
}

abbrev pub admin_backend : Backend
admin_backend = backend BackendKind.edgerouter_admin no_opts no_auth_v0 no_auth_sso

abbrev pub api_app : Application
api_app = record {
  id = bytes "api";
  frontends = on_path (bytes "/api/") true ∷ [];
  app_backend = admin_backend;
}

abbrev pub shop_app : Application
shop_app = record {
  id = bytes "shop";
  frontends =
      on_host (bytes "shop.fi") (bytes "/") ∷ on_host (bytes "shop.fi") (bytes "/img/") ∷ [];
  app_backend = admin_backend;
}

abbrev pub two_apps : List Application
two_apps = api_app ∷ shop_app ∷ []

abbrev pub built : Result (FrontendMatchers Str Str) × (Unit {0})
built = app_config_to_handlers_and_matchers compile_literal sort_mounts make_named two_apps 7 tt

abbrev matchers_of : Result (FrontendMatchers Str Str) → FrontendMatchers Str Str
matchers_of (ok fem) = fem
matchers_of r = record {
  hostname = [];
  hostname_regexp = [];
  path_prefix = [];
  apps = [];
  timestamp = 0;
}

abbrev pub matchers : FrontendMatchers Str Str
matchers = matchers_of built.0

-- The configuration is accepted.
pub built_ok :
    app_config_to_handlers_and_matchers compile_literal sort_mounts make_named two_apps 7 tt
    ≡ (ok matchers, tt)
unfolding app_config_to_handlers_and_matchers ◌==◌ bytes lookup insert insertion_sort
built_ok = refl
