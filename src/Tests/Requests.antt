-- ===== src/Tests/Requests.antt =====
-- Runs of pkg/erserver/mountresolver.go and serve.go on the sample configuration.
use edgerouter.Base.{
  ◌≤◌, ℕ, ◌≡◌, refl, ◌↔◌, ◌⊎◌, inl, inr, ◌<◌, Str, bytes, ◌==◌, Bool, true, false, List, [], ◌∷◌,
  Option, none, some, Result, ok, err, panic, Any, All, length,
}
use edgerouter.Base.Sort.{insertion_sort}
use edgerouter.Base.Dict.{lookup, insert}
use edgerouter.Server.IpFilter.{Addr}
use edgerouter.Server.Mounts.{Mount, FrontendMatchers, mount_of, resolve_mount, prefix_matches}
use edgerouter.Server.Mounts.Tiers.{is_path_prefix, is_hostname, is_regexp}
use edgerouter.Server.Mounts.Build.{declared, Built, app_config-Built}
use edgerouter.Server.Mounts.Search.{NotTakes, MountsFrom, NoLonger}
use edgerouter.Server.Mounts.Resolve.{
  resolve_mount-declared, resolve_mount-none_iff, resolve_mount-path_prefix, resolve_mount-hostname,
}
use edgerouter.Server.Serve.{
  Request, Answer, passed, redirect_to, not_found, forbidden, serve_request,
}
use edgerouter.Server.Serve.Laws.{
  Admitted, Rewritten, serve_request-passed, serve_request-panic_iff,
}
use edgerouter.Tests.Sample.{
  compile_literal, match_literal, sort_mounts, contains_string, make_named, api_app, shop_app,
  two_apps, on_path, on_host, matchers, built_ok,
}

abbrev api_mount : Mount Str
api_mount = mount_of api_app (bytes "api") (on_path (bytes "/api/") true)

abbrev img_mount : Mount Str
img_mount = mount_of shop_app (bytes "shop") (on_host (bytes "shop.fi") (bytes "/img/"))

abbrev resolved : Str → Str → Option (Mount Str)
resolved host path = resolve_mount match_literal host path matchers

-- The longer prefix wins.
img_resolved : resolved (bytes "shop.fi") (bytes "/img/a.png") ≡ some img_mount
unfolding resolve_mount prefix_matches ◌==◌ bytes lookup insert insertion_sort
    edgerouter.Server.Mounts.app_config_to_handlers_and_matchers edgerouter.Base.trim_right
    edgerouter.Base.has_prefix
img_resolved = refl

api_resolved : resolved (bytes "shop.fi") (bytes "/api/x") ≡ some api_mount
unfolding resolve_mount prefix_matches ◌==◌ bytes lookup insert insertion_sort
    edgerouter.Server.Mounts.app_config_to_handlers_and_matchers edgerouter.Base.trim_right
    edgerouter.Base.has_prefix
api_resolved = refl

nothing_resolved : resolved (bytes "other.fi") (bytes "/img") ≡ none
unfolding resolve_mount prefix_matches ◌==◌ bytes lookup insert insertion_sort
    edgerouter.Server.Mounts.app_config_to_handlers_and_matchers edgerouter.Base.trim_right
    edgerouter.Base.has_prefix
nothing_resolved = refl

app_config-Built_example :
    Built compile_literal match_literal sort_mounts make_named two_apps matchers
app_config-Built_example =
    app_config-Built compile_literal match_literal sort_mounts make_named two_apps 7 tt built_ok

resolve_mount-declared_example :
    (prefix_matches (bytes "/img/a.png") img_mount.prefix ≡ true)
    × (Any (MountsFrom is_path_prefix img_mount) (declared two_apps)
        ⊎ (Any (MountsFrom (is_hostname (bytes "shop.fi")) img_mount) (declared two_apps)
            ⊎ Any
                (MountsFrom (is_regexp compile_literal match_literal (bytes "shop.fi")) img_mount)
                (declared two_apps)))
resolve_mount-declared_example =
    resolve_mount-declared compile_literal match_literal sort_mounts make_named two_apps 7 tt
      matchers tt built_ok (bytes "shop.fi") (bytes "/img/a.png") img_mount img_resolved

resolve_mount-none_iff_example :
    (resolve_mount match_literal (bytes "other.fi") (bytes "/img") matchers ≡ none) ↔ (
      All (NotTakes is_path_prefix (bytes "/img")) (declared two_apps)
      × All (NotTakes (is_hostname (bytes "other.fi")) (bytes "/img")) (declared two_apps)
      × All
          (NotTakes (is_regexp compile_literal match_literal (bytes "other.fi")) (bytes "/img"))
          (declared two_apps))
resolve_mount-none_iff_example =
    resolve_mount-none_iff compile_literal match_literal sort_mounts make_named two_apps 7 tt
      matchers tt built_ok (bytes "other.fi") (bytes "/img")

resolve_mount-path_prefix_example :
    (m : Mount Str) × (resolve_mount match_literal (bytes "shop.fi") (bytes "/api/x") matchers
      ≡ some m)
    × Any (MountsFrom is_path_prefix m) (declared two_apps)
    × All (NoLonger is_path_prefix (bytes "/api/x") m) (declared two_apps)
unfolding ◌==◌ bytes prefix_matches edgerouter.Base.trim_right edgerouter.Base.has_prefix
resolve_mount-path_prefix_example =
    resolve_mount-path_prefix compile_literal match_literal sort_mounts make_named two_apps 7 tt
      matchers tt built_ok (bytes "shop.fi") (bytes "/api/x") (inl (refl, refl))

resolve_mount-hostname_example :
    (m : Mount Str) × (resolve_mount match_literal (bytes "shop.fi") (bytes "/img/a") matchers
      ≡ some m)
    × Any (MountsFrom (is_hostname (bytes "shop.fi")) m) (declared two_apps)
    × All (NoLonger (is_hostname (bytes "shop.fi")) (bytes "/img/a") m) (declared two_apps)
unfolding ◌==◌ bytes prefix_matches edgerouter.Base.trim_right edgerouter.Base.has_prefix
resolve_mount-hostname_example =
    resolve_mount-hostname compile_literal match_literal sort_mounts make_named two_apps 7 tt
      matchers tt built_ok (bytes "shop.fi") (bytes "/img/a")
      ((λ t. refl), ((λ t. cc), ((λ t. cc), tt))) (inr (inl (refl, refl)))

abbrev same_host : Str → Result Str
same_host s = ok s

abbrev no_text : Addr → Str
no_text ip = []

abbrev one_address : Str → Result Addr
one_address s = ok (Addr.v4 1)

abbrev request : Str → Bool → Request
request path tls = record {
  method = bytes "GET";
  host = bytes "shop.fi";
  path = path;
  raw_query = [];
  tls = tls;
  remote_addr = bytes "1.2.3.4:5";
}

abbrev served : Str → Bool → Result (Answer Str × Option (Mount Str))
served path tls =
    serve_request same_host match_literal contains_string no_text one_address [] matchers
      (request path tls)

-- The prefix is taken off the path, and the slash put back.
api_served :
    served (bytes "/api/users") true
    ≡ ok (passed (bytes "api") (request (bytes "/users") true), some api_mount)
unfolding serve_request resolve_mount prefix_matches ◌==◌ bytes lookup insert insertion_sort
    edgerouter.Server.Serve.non_stupid_split_host_port edgerouter.Base.contains
    edgerouter.Server.Mounts.app_config_to_handlers_and_matchers edgerouter.Base.trim_right
    edgerouter.Server.IpFilter.ip_allowed edgerouter.Server.Serve.strip_prefix
api_served = refl

api_redirected :
    served (bytes "/api/users") false
    ≡ ok (redirect_to (bytes "https://shop.fi/api/users"), some api_mount)
unfolding serve_request resolve_mount prefix_matches ◌==◌ bytes lookup insert insertion_sort
    edgerouter.Server.Serve.non_stupid_split_host_port edgerouter.Base.contains
    edgerouter.Server.Mounts.app_config_to_handlers_and_matchers edgerouter.Base.trim_right
    edgerouter.Server.Serve.redirect_target
api_redirected = refl

-- The path is one byte shorter than the prefix that is taken off it.
api_panics : served (bytes "/api") true ≡ panic
unfolding serve_request resolve_mount prefix_matches ◌==◌ bytes lookup insert insertion_sort
    edgerouter.Server.Serve.non_stupid_split_host_port edgerouter.Base.contains
    edgerouter.Server.Mounts.app_config_to_handlers_and_matchers edgerouter.Base.trim_right
    edgerouter.Server.IpFilter.ip_allowed edgerouter.Server.Serve.strip_prefix
api_panics = refl

serve_request-passed_example :
    (m : Mount Str) × Admitted same_host match_literal contains_string no_text one_address []
      matchers
      (request (bytes "/api/users") true)
      m
    × (some api_mount ≡ some m)
    × (bytes "api" ≡ m.handler)
    × Rewritten same_host match_literal contains_string no_text one_address [] matchers
        (request (bytes "/api/users") true)
        m
        (request (bytes "/users") true)
serve_request-passed_example =
    serve_request-passed same_host match_literal contains_string no_text one_address [] matchers
      (request (bytes "/api/users") true) (bytes "api") (request (bytes "/users") true)
      (some api_mount) api_served

api-Admitted :
    Admitted same_host match_literal contains_string no_text one_address [] matchers
      (request (bytes "/api") true)
      api_mount
unfolding serve_request resolve_mount prefix_matches ◌==◌ bytes lookup insert insertion_sort
    edgerouter.Server.Serve.non_stupid_split_host_port edgerouter.Base.contains
    edgerouter.Server.Mounts.app_config_to_handlers_and_matchers edgerouter.Base.trim_right
    edgerouter.Server.IpFilter.ip_allowed
api-Admitted = record {
  hostname = bytes "shop.fi";
  named = refl;
  resolved = refl;
  secure = inl refl;
  allowed = refl;
}

serve_request-panic_iff_example :
    ((serve_request same_host match_literal contains_string no_text one_address [] matchers
          (request (bytes "/api") true)
        ≡ panic)
      ↔ ((api_mount.strip_prefix ≡ true) × (length (bytes "/api") < length api_mount.prefix)))
    × (((r' : Request) × (serve_request same_host match_literal contains_string no_text one_address
              [] matchers
              (request (bytes "/api") true)
            ≡ ok (passed api_mount.handler r', some api_mount)))
        ↔ ((api_mount.strip_prefix ≡ false) ⊎ (length api_mount.prefix ≤ length (bytes "/api"))))
serve_request-panic_iff_example =
    serve_request-panic_iff same_host match_literal contains_string no_text one_address [] matchers
      (request (bytes "/api") true) api_mount api-Admitted
