-- ===== src/Config/Validate.antt =====
-- pkg/erconfig/appconfig.go, the Validate methods, with `ErrorIfUnset` and `FirstError`.
-- An `error` result is `ok tt` for nil. A Validate method with a pointer receiver panics on nil as
-- soon as it reads a field; the Turbocharger one reads none.
pub mod Blocks
pub mod Laws
use edgerouter.Base.{
  ◌≡◌, ◌≢◌, ◌↔◌, refl, Str, bytes, ◌==◌, Bool, true, false, List, [], ◌∷◌, ◌++◌, Option, none, some,
  Result, ok, err, panic, ◌>>=◌, ◌>>◌, deref, wrap, if◌then◌else◌,
}
use edgerouter.Config.Types.{
  FrontendKind, Frontend, BackendKind, BackendOptsS3StaticWebsite, BackendOptsReverseProxy,
  BackendOptsAwsLambda, BackendOptsRedirect, BackendOptsTurbocharger, PlainOpts, Backend, backend,
  AuthV0Ptr, no_auth_v0, auth_v0_opts, AuthSsoPtr, no_auth_sso, auth_sso_opts, BackendPtr,
  no_backend, ptr, is_no_backend, Application,
}

unfoldable pub error_if_unset : Bool → Str → Result (Unit {0})
error_if_unset true field_name =
    err (bytes "'" ++ (field_name ++ bytes "' is required but not set"))
error_if_unset false field_name = ok tt

-- The first argument that is not nil. Its callers pass error values that are computed before.
unfoldable pub first_error : List (Result (Unit {0})) → Result (Unit {0})
first_error [] = ok tt
first_error (e ∷ es) = e >> first_error es

-- `len(x) == 0`, also `x == ""`
abbrev pub is_empty {ℓ} : {A : Type ℓ} → List A → Bool
is_empty [] = true
is_empty (x ∷ xs) = false

pub is_empty-false_iff {ℓ} : {A : Type ℓ} (xs : List A) → (is_empty xs ≡ false) ↔ (xs ≢ [])
is_empty-false_iff [] = ((λ h. cc), (λ h. absurd (h refl)))
is_empty-false_iff (x ∷ xs) = ((λ h e. cc), (λ h. refl))

pub is_empty-true_iff {ℓ} : {A : Type ℓ} (xs : List A) → (is_empty xs ≡ true) ↔ (xs ≡ [])
is_empty-true_iff [] = ((λ h. refl), (λ h. refl))
is_empty-true_iff (x ∷ xs) = ((λ h. cc), (λ h. cc))

unfoldable pub validate_s3 : BackendOptsS3StaticWebsite → Result (Unit {0})
unfolding error_if_unset first_error
validate_s3 b = first_error (
    error_if_unset (is_empty b.bucket_name) (bytes "BucketName")
    ∷ error_if_unset (is_empty b.region_id) (bytes "RegionId")
    ∷ [])

unfoldable pub validate_reverse_proxy : BackendOptsReverseProxy → Result (Unit {0})
unfolding error_if_unset
validate_reverse_proxy b = error_if_unset (is_empty b.origins) (bytes "Origins")

unfoldable pub validate_aws_lambda : BackendOptsAwsLambda → Result (Unit {0})
unfolding error_if_unset first_error
validate_aws_lambda b = first_error (
    error_if_unset (is_empty b.function_name) (bytes "FunctionName")
    ∷ error_if_unset (is_empty b.region_id) (bytes "RegionId")
    ∷ [])

unfoldable pub validate_auth_v0 : AuthV0Ptr → Result (Unit {0})
unfolding error_if_unset first_error
validate_auth_v0 no_auth_v0 = panic
validate_auth_v0 (auth_v0_opts bearer_token authorized_backend) = first_error (
    error_if_unset (is_empty bearer_token) (bytes "BearerToken")
    ∷ error_if_unset (is_no_backend authorized_backend) (bytes "AuthorizedBackend")
    ∷ [])

unfoldable pub validate_auth_sso : AuthSsoPtr → Result (Unit {0})
unfolding error_if_unset first_error
validate_auth_sso no_auth_sso = panic
validate_auth_sso (auth_sso_opts id_server_url allowed_user_ids audience authorized_backend) =
    first_error (
      error_if_unset (is_no_backend authorized_backend) (bytes "AuthorizedBackend")
      ∷ error_if_unset (is_empty audience) (bytes "Audience")
      ∷ [])

unfoldable pub validate_redirect : BackendOptsRedirect → Result (Unit {0})
unfolding error_if_unset
validate_redirect b = error_if_unset (is_empty b.to) (bytes "To")

-- The receiver is not read.
unfoldable pub validate_turbocharger : Option BackendOptsTurbocharger → Result (Unit {0})
validate_turbocharger b = ok tt

-- The switch on `a.Backend.Kind` in `Application.Validate`. It does not enter the backend that an
-- authentication block holds.
unfoldable pub validate_backend : Str → Backend → Result (Unit {0})
unfolding validate_s3 validate_reverse_proxy validate_aws_lambda validate_auth_v0 validate_auth_sso
    validate_redirect validate_turbocharger
validate_backend app_id (backend BackendKind.s3_static_website o v s) =
    deref o.s3_static_website_opts >>= validate_s3
validate_backend app_id (backend BackendKind.reverse_proxy o v s) =
    deref o.reverse_proxy_opts >>= validate_reverse_proxy
validate_backend app_id (backend BackendKind.aws_lambda o v s) =
    deref o.aws_lambda_opts >>= validate_aws_lambda
validate_backend app_id (backend BackendKind.edgerouter_admin o v s) = ok tt
validate_backend app_id (backend BackendKind.prom_metrics o v s) = ok tt
validate_backend app_id (backend BackendKind.auth_v0 o v s) = validate_auth_v0 v
validate_backend app_id (backend BackendKind.auth_sso o v s) = validate_auth_sso s
validate_backend app_id (backend BackendKind.redirect o v s) =
    deref o.redirect_opts >>= validate_redirect
validate_backend app_id (backend BackendKind.turbocharger o v s) =
    validate_turbocharger o.turbocharger_opts
validate_backend app_id (backend (BackendKind.unknown k) o v s) =
    err (bytes "app " ++ (app_id ++ (bytes " backend unkown kind: " ++ k)))

-- `compile` is regexp.Compile.
module _ {Regexp : Type 0} (compile : Str → Result Regexp) where
  abbrev pub validate_frontend_kind : FrontendKind → Frontend → Result (Unit {0})
  validate_frontend_kind FrontendKind.hostname f =
      error_if_unset (is_empty f.hostname) (bytes "Hostname")
  validate_frontend_kind FrontendKind.hostname_regexp f = do
    error_if_unset (is_empty f.hostname_regexp) (bytes "HostnameRegexp")
    re ← wrap (λ e. bytes "HostnameRegexp: " ++ e) (compile f.hostname_regexp)
    ok tt
  validate_frontend_kind FrontendKind.path_prefix f =
      error_if_unset (is_empty f.path_prefix) (bytes "PathPrefix")
  validate_frontend_kind (FrontendKind.unknown k) f = err (bytes "unknown frontend kind: " ++ k)

  unfoldable pub validate_frontend : Frontend → Result (Unit {0})
  unfolding error_if_unset
  validate_frontend f = validate_frontend_kind f.kind f

  unfoldable pub validate_frontends : Str → List Frontend → Result (Unit {0})
  unfolding validate_frontend
  validate_frontends app_id [] = ok tt
  validate_frontends app_id (f ∷ fs) = do
    wrap (λ e. bytes "app " ++ (app_id ++ (bytes " frontend: " ++ e))) (validate_frontend f)
    validate_frontends app_id fs

  unfoldable pub validate : Application → Result (Unit {0})
  unfolding error_if_unset validate_frontends validate_backend
  validate a = do
    error_if_unset (is_empty a.id) (bytes "Id")
    error_if_unset (is_empty a.frontends) (bytes "Frontends")
    validate_frontends a.id a.frontends
    validate_backend a.id a.app_backend
