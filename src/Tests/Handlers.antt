-- ===== src/Tests/Handlers.antt =====
-- Runs of pkg/erserver/backendfactory.go and pkg/erbackend/authv0backend/authv0.go.
use edgerouter.Base.{
  ◌≡◌, ◌≢◌, refl, ◌↔◌, Str, bytes, ◌==◌, has_prefix, Bool, true, false, List, [], ◌∷◌, ◌++◌, Option,
  none, some, Result, ok, err, panic, All,
}
use edgerouter.Base.Dict.{lookup, insert, delete}
use edgerouter.Config.{BackendKind, Backend, backend, no_opts, no_auth_v0, no_auth_sso}
use edgerouter.Config.Factories.{
  redirect_backend, auth_v0_backend, simple_application, reverse_proxy_backend,
}
use edgerouter.Backends.Handlers.{Env, Url, Handler, Singleton, redirector, auth_v0}
use edgerouter.Backends.Factory.{FactoryState, make_backend, make_backend_internal}
use edgerouter.Backends.Factory.Cache.{IsMadeFor, IsSound, make_backend-again, make_backend-IsSound}
use edgerouter.Backends.Factory.Protected.{IsProtected, make_backend_internal-IsProtected}
use edgerouter.Backends.AuthV0.{Headers, authorized_call, unauthorized, authorization, serve_http}
use edgerouter.Backends.AuthV0.Laws.{Presents, serve_http_iff}
use edgerouter.Discovery.Traefik.{
  traefik_annotations_to_app, scheme_of, insecure_skip_verify_of, parse_traefik_frontend_rule,
  parse_sub_rules, parse_sub_rule, frontend_of_rule, authorize_backend,
}
use edgerouter.Discovery.Service.{label}
use edgerouter.Tests.Labels.{service, protected_app, protected_produced}

abbrev pub local : Env
local = record {
  parse_url = λ s. ok (record { scheme = []; host = s; path = [] });
  join_path = λ dir name. dir ++ (bytes "/" ++ name);
  mkdir_all = λ dir. ok tt;
  load_aws_config = λ region_id. ok tt;
  turbocharger_store = [];
}

abbrev id_server : Str
id_server = bytes "https://id.example.com/"

-- The digest of a configuration, for two kinds.
abbrev digest_of : Backend → Result Str
digest_of (backend BackendKind.redirect o v s) = ok (bytes "redirect")
digest_of b = ok (bytes "other")

abbrev empty : FactoryState
empty = record { per_app_id = []; singleton = none }

abbrev with_redirect : FactoryState
with_redirect = record {
  per_app_id =
      (bytes "a", record { handler = redirector (bytes "/b"); config_digest = bytes "redirect" })
      ∷ [];
  singleton = none;
}

redirect_made :
    make_backend local id_server digest_of (bytes "a") (redirect_backend (bytes "/b")) empty
    ≡ (ok (redirector (bytes "/b")), with_redirect)
unfolding make_backend redirect_backend lookup insert
redirect_made = refl

missing_block_panics :
    (make_backend local id_server digest_of
      (bytes "a")
      (backend BackendKind.redirect no_opts no_auth_v0 no_auth_sso)
      empty).0
    ≡ panic
unfolding make_backend lookup
missing_block_panics = refl

make_backend-again_example :
    ((t : FactoryState)
      → lookup (bytes "a") t.per_app_id ≡ lookup (bytes "a") with_redirect.per_app_id
      → make_backend local id_server digest_of (bytes "a") (redirect_backend (bytes "/b")) t
        ≡ (ok (redirector (bytes "/b")), t))
    × ((other : Str)
        → other ≢ bytes "a"
        → lookup other with_redirect.per_app_id ≡ lookup other empty.per_app_id)
make_backend-again_example =
    make_backend-again local id_server digest_of (bytes "a") (redirect_backend (bytes "/b")) empty
      (redirector (bytes "/b")) with_redirect redirect_made

make_backend-IsSound_example :
    IsSound local id_server digest_of with_redirect
    × (digest : Str) × (digest_of (redirect_backend (bytes "/b")) ≡ ok digest)
    × IsMadeFor local id_server digest_of (bytes "a") digest (redirector (bytes "/b"))
make_backend-IsSound_example =
    make_backend-IsSound local id_server digest_of (bytes "a") (redirect_backend (bytes "/b")) empty
      (redirector (bytes "/b")) with_redirect tt redirect_made

abbrev handler_of : Result Handler × Singleton → Handler
handler_of (ok h, s) = h
handler_of r = redirector []

abbrev protected_handler : Handler
protected_handler =
    handler_of
      (make_backend_internal local id_server protected_app.id protected_app.app_backend none)

protected_made :
    make_backend_internal local id_server protected_app.id protected_app.app_backend none
    ≡ (ok protected_handler, none)
unfolding make_backend_internal traefik_annotations_to_app lookup ◌==◌ bytes scheme_of
    insecure_skip_verify_of parse_traefik_frontend_rule parse_sub_rules edgerouter.Base.split
    parse_sub_rule has_prefix frontend_of_rule authorize_backend simple_application auth_v0_backend
    reverse_proxy_backend edgerouter.Backends.Handlers.new_reverse_proxy
protected_made = refl

is_not_public : label (service (bytes "bearer_token")) (bytes "edgerouter.auth") ≢ bytes "public"
unfolding bytes lookup ◌==◌
is_not_public = λ h. cc

make_backend_internal-IsProtected_example : IsProtected protected_handler
make_backend_internal-IsProtected_example =
    make_backend_internal-IsProtected local id_server (service (bytes "bearer_token")) protected_app
      none none protected_handler protected_produced is_not_public protected_made

abbrev no_basic : Str → Option (Str × Str)
no_basic header = none

abbrev with_token : Headers
with_token = (authorization, bytes "Bearer DogsRBest") ∷ (bytes "Host", bytes "a.fi") ∷ []

token_accepted :
    serve_http no_basic (bytes "DogsRBest") with_token
    ≡ authorized_call ((bytes "Host", bytes "a.fi") ∷ [])
unfolding serve_http lookup ◌==◌ bytes has_prefix delete
token_accepted = refl

token_refused : serve_http no_basic (bytes "catsAreBest") with_token ≡ unauthorized
unfolding serve_http lookup ◌==◌ bytes has_prefix
token_refused = refl

serve_http_iff_example :
    ((called : Headers)
      → (serve_http no_basic (bytes "DogsRBest") with_token ≡ authorized_call called) ↔ (
          Presents no_basic with_token (bytes "DogsRBest")
          × (called ≡ delete authorization with_token)))
    × ((¬ Presents no_basic with_token (bytes "DogsRBest"))
        → serve_http no_basic (bytes "DogsRBest") with_token ≡ unauthorized)
    × (lookup authorization (delete authorization with_token) ≡ none)
    × ((key : Str)
        → key ≢ authorization
        → lookup key (delete authorization with_token) ≡ lookup key with_token)
unfolding bytes
serve_http_iff_example = serve_http_iff no_basic with_token (bytes "DogsRBest") (λ h. cc)
