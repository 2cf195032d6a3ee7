-- ===== src/Config/Describe.antt =====
-- pkg/erconfig/appconfig.go, the Describe methods. A nil pointer on the way panics.
use edgerouter.Base.{Str, bytes, ◌∷◌, ◌++◌, map, join, Result, ok, panic, ◌>>=◌, deref}
use edgerouter.Config.Types.{
  FrontendKind, Frontend, frontend_kind_text, BackendKind, backend_kind_text, Backend, backend,
  AuthV0Ptr, no_auth_v0, auth_v0_opts, AuthSsoPtr, no_auth_sso, auth_sso_opts, BackendPtr,
  no_backend, ptr, Application,
}

abbrev describe_frontend_kind : FrontendKind → Frontend → Str
describe_frontend_kind FrontendKind.hostname f =
    frontend_kind_text f.kind ++ (bytes ":" ++ (f.hostname ++ f.path_prefix))
describe_frontend_kind FrontendKind.hostname_regexp f =
    frontend_kind_text f.kind ++ (bytes ":" ++ (f.hostname_regexp ++ f.path_prefix))
describe_frontend_kind FrontendKind.path_prefix f =
    frontend_kind_text f.kind ++ (bytes ":" ++ f.path_prefix)
describe_frontend_kind (FrontendKind.unknown s) f = frontend_kind_text f.kind

unfoldable pub describe_frontend : Frontend → Str
unfolding frontend_kind_text
describe_frontend f = describe_frontend_kind f.kind f

-- `string(b.Kind) + ":" + text`
abbrev labelled : BackendKind → Str → Str
labelled kind text = backend_kind_text kind ++ (bytes ":" ++ text)

-- `manifest_text` is the String method of a manifest's identifier.
module _ (manifest_text : Str → Str) where
  unfoldable mutual
    pub describe_backend : Backend → Result Str
    describe_backend (backend BackendKind.s3_static_website o v s) = do
      opts ← deref o.s3_static_website_opts
      ok (labelled BackendKind.s3_static_website opts.deployed_version)
    describe_backend (backend BackendKind.reverse_proxy o v s) = do
      opts ← deref o.reverse_proxy_opts
      ok (labelled BackendKind.reverse_proxy (join (bytes ", ") opts.origins))
    describe_backend (backend BackendKind.aws_lambda o v s) = do
      opts ← deref o.aws_lambda_opts
      ok (labelled BackendKind.aws_lambda (opts.function_name ++ (bytes "@" ++ opts.region_id)))
    describe_backend (backend BackendKind.auth_v0 o v s) = do
      text ← describe_auth_v0 v
      ok (labelled BackendKind.auth_v0 text)
    describe_backend (backend BackendKind.redirect o v s) = do
      opts ← deref o.redirect_opts
      ok (labelled BackendKind.redirect opts.to)
    describe_backend (backend BackendKind.turbocharger o v s) = do
      opts ← deref o.turbocharger_opts
      ok (labelled BackendKind.turbocharger (manifest_text opts.manifest))
    describe_backend (backend BackendKind.auth_sso o v s) = do
      text ← describe_auth_sso s
      ok (labelled BackendKind.auth_sso text)
    describe_backend (backend BackendKind.edgerouter_admin o v s) =
        ok (backend_kind_text BackendKind.edgerouter_admin)
    describe_backend (backend BackendKind.prom_metrics o v s) =
        ok (backend_kind_text BackendKind.prom_metrics)
    describe_backend (backend (BackendKind.unknown k) o v s) = ok k

    pub describe_auth_v0 : AuthV0Ptr → Result Str
    describe_auth_v0 no_auth_v0 = panic
    describe_auth_v0 (auth_v0_opts token authorized) = do
      text ← describe_ptr authorized
      ok (bytes "[bearerToken=...] -> " ++ text)

    pub describe_auth_sso : AuthSsoPtr → Result Str
    describe_auth_sso no_auth_sso = panic
    describe_auth_sso (auth_sso_opts server users audience authorized) = do
      text ← describe_ptr authorized
      ok (bytes "[audience=" ++ (audience ++ (bytes "] -> " ++ text)))

    pub describe_ptr : BackendPtr → Result Str
    describe_ptr no_backend = panic
    describe_ptr (ptr b) = describe_backend b

  unfoldable pub describe : Application → Result Str
  unfolding describe_backend describe_frontend join
  describe a = do
    text ← describe_backend a.app_backend
    ok (
        join (bytes "\n") (
          a.id
          ∷ (bytes "  backend = " ++ text)
          ∷ map (λ f. bytes "  frontend = " ++ describe_frontend f) a.frontends))
