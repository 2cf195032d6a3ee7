-- ===== src/Config/Validate/Blocks.antt =====
-- What the validation of pkg/erconfig/appconfig.go requires of a backend's option block.
use edgerouter.Base.{Str, ◌≡◌, ◌≢◌, ◌↔◌, [], Option, none, some, ok, panic, ◌>>=◌, deref, arith}
use edgerouter.Config.Types.{
  BackendKind, BackendOptsS3StaticWebsite, BackendOptsReverseProxy, BackendOptsAwsLambda,
  BackendOptsRedirect, Backend, backend, AuthV0Ptr, no_auth_v0, auth_v0_opts, AuthSsoPtr,
  no_auth_sso, auth_sso_opts, BackendPtr, no_backend, ptr,
}
use edgerouter.Config.Validate.{
  is_empty-false_iff, validate_s3, validate_reverse_proxy, validate_aws_lambda, validate_auth_v0,
  validate_auth_sso, validate_redirect, validate_backend,
}

-- What each kind of backend requires of its option block.
abbrev pub S3IsValid : Option BackendOptsS3StaticWebsite → Type 0
S3IsValid none = ⊥
S3IsValid (some b) = (b.bucket_name ≢ []) × (b.region_id ≢ [])

abbrev pub ReverseProxyIsValid : Option BackendOptsReverseProxy → Type 0
ReverseProxyIsValid none = ⊥
ReverseProxyIsValid (some b) = b.origins ≢ []

abbrev pub LambdaIsValid : Option BackendOptsAwsLambda → Type 0
LambdaIsValid none = ⊥
LambdaIsValid (some b) = (b.function_name ≢ []) × (b.region_id ≢ [])

abbrev pub RedirectIsValid : Option BackendOptsRedirect → Type 0
RedirectIsValid none = ⊥
RedirectIsValid (some b) = b.to ≢ []

abbrev pub IsGiven : BackendPtr → Type 0
IsGiven no_backend = ⊥
IsGiven (ptr b) = Unit

abbrev pub AuthV0IsValid : AuthV0Ptr → Type 0
AuthV0IsValid no_auth_v0 = ⊥
AuthV0IsValid (auth_v0_opts token b) = (token ≢ []) × IsGiven b

abbrev pub AuthSsoIsValid : AuthSsoPtr → Type 0
AuthSsoIsValid no_auth_sso = ⊥
AuthSsoIsValid (auth_sso_opts url users audience b) = IsGiven b × (audience ≢ [])

abbrev pub BackendIsValid : Backend → Type 0
BackendIsValid (backend BackendKind.s3_static_website o v s) = S3IsValid o.s3_static_website_opts
BackendIsValid (backend BackendKind.reverse_proxy o v s) = ReverseProxyIsValid o.reverse_proxy_opts
BackendIsValid (backend BackendKind.aws_lambda o v s) = LambdaIsValid o.aws_lambda_opts
BackendIsValid (backend BackendKind.redirect o v s) = RedirectIsValid o.redirect_opts
BackendIsValid (backend BackendKind.auth_v0 o v s) = AuthV0IsValid v
BackendIsValid (backend BackendKind.auth_sso o v s) = AuthSsoIsValid s
BackendIsValid (backend BackendKind.edgerouter_admin o v s) = Unit
BackendIsValid (backend BackendKind.prom_metrics o v s) = Unit
BackendIsValid (backend BackendKind.turbocharger o v s) = Unit
BackendIsValid (backend (BackendKind.unknown k) o v s) = ⊥

-- The option block that the kind of the backend needs is not there.
abbrev pub IsDangling : Backend → Type 0
IsDangling (backend BackendKind.s3_static_website o v s) = o.s3_static_website_opts ≡ none
IsDangling (backend BackendKind.reverse_proxy o v s) = o.reverse_proxy_opts ≡ none
IsDangling (backend BackendKind.aws_lambda o v s) = o.aws_lambda_opts ≡ none
IsDangling (backend BackendKind.redirect o v s) = o.redirect_opts ≡ none
IsDangling (backend BackendKind.auth_v0 o v s) = v ≡ no_auth_v0
IsDangling (backend BackendKind.auth_sso o v s) = s ≡ no_auth_sso
IsDangling (backend BackendKind.edgerouter_admin o v s) = ⊥
IsDangling (backend BackendKind.prom_metrics o v s) = ⊥
IsDangling (backend BackendKind.turbocharger o v s) = ⊥
IsDangling (backend (BackendKind.unknown k) o v s) = ⊥

-- Each option block: accepted exactly if it is valid, and a panic exactly if it is missing.
s3_iff :
    (o : Option BackendOptsS3StaticWebsite)
    → (((deref o >>= validate_s3) ≡ ok tt) ↔ S3IsValid o)
      × (((deref o >>= validate_s3) ≡ panic) ↔ (o ≡ none))
unfolding validate_s3
s3_iff none = ground arith
s3_iff (some b) = ground (arith, is_empty-false_iff b.bucket_name, is_empty-false_iff b.region_id)

reverse_proxy_iff :
    (o : Option BackendOptsReverseProxy)
    → (((deref o >>= validate_reverse_proxy) ≡ ok tt) ↔ ReverseProxyIsValid o)
      × (((deref o >>= validate_reverse_proxy) ≡ panic) ↔ (o ≡ none))
unfolding validate_reverse_proxy
reverse_proxy_iff none = ground arith
reverse_proxy_iff (some b) = ground (arith, is_empty-false_iff b.origins)

lambda_iff :
    (o : Option BackendOptsAwsLambda)
    → (((deref o >>= validate_aws_lambda) ≡ ok tt) ↔ LambdaIsValid o)
      × (((deref o >>= validate_aws_lambda) ≡ panic) ↔ (o ≡ none))
unfolding validate_aws_lambda
lambda_iff none = ground arith
lambda_iff (some b) =
    ground (arith, is_empty-false_iff b.function_name, is_empty-false_iff b.region_id)

redirect_iff :
    (o : Option BackendOptsRedirect)
    → (((deref o >>= validate_redirect) ≡ ok tt) ↔ RedirectIsValid o)
      × (((deref o >>= validate_redirect) ≡ panic) ↔ (o ≡ none))
unfolding validate_redirect
redirect_iff none = ground arith
redirect_iff (some b) = ground (arith, is_empty-false_iff b.to)

auth_v0_iff :
    (v : AuthV0Ptr)
    → ((validate_auth_v0 v ≡ ok tt) ↔ AuthV0IsValid v)
      × ((validate_auth_v0 v ≡ panic) ↔ (v ≡ no_auth_v0))
unfolding validate_auth_v0
auth_v0_iff no_auth_v0 = ground arith
auth_v0_iff (auth_v0_opts token no_backend) = ground (arith, is_empty-false_iff token)
auth_v0_iff (auth_v0_opts token (ptr b)) = ground (arith, is_empty-false_iff token)

auth_sso_iff :
    (s : AuthSsoPtr)
    → ((validate_auth_sso s ≡ ok tt) ↔ AuthSsoIsValid s)
      × ((validate_auth_sso s ≡ panic) ↔ (s ≡ no_auth_sso))
unfolding validate_auth_sso
auth_sso_iff no_auth_sso = ground arith
auth_sso_iff (auth_sso_opts url users audience no_backend) =
    ground (arith, is_empty-false_iff audience)
auth_sso_iff (auth_sso_opts url users audience (ptr b)) =
    ground (arith, is_empty-false_iff audience)

pub validate_backend_iff :
    (app_id : Str) (b : Backend)
    → ((validate_backend app_id b ≡ ok tt) ↔ BackendIsValid b)
      × ((validate_backend app_id b ≡ panic) ↔ IsDangling b)
unfolding validate_backend
validate_backend_iff app_id (backend BackendKind.s3_static_website o v s) =
    s3_iff o.s3_static_website_opts
validate_backend_iff app_id (backend BackendKind.reverse_proxy o v s) =
    reverse_proxy_iff o.reverse_proxy_opts
validate_backend_iff app_id (backend BackendKind.aws_lambda o v s) = lambda_iff o.aws_lambda_opts
validate_backend_iff app_id (backend BackendKind.redirect o v s) = redirect_iff o.redirect_opts
validate_backend_iff app_id (backend BackendKind.auth_v0 o v s) = auth_v0_iff v
validate_backend_iff app_id (backend BackendKind.auth_sso o v s) = auth_sso_iff s
validate_backend_iff app_id (backend BackendKind.edgerouter_admin o v s) = ground arith
validate_backend_iff app_id (backend BackendKind.prom_metrics o v s) = ground arith
validate_backend_iff app_id (backend BackendKind.turbocharger o v s) = ground arith
validate_backend_iff app_id (backend (BackendKind.unknown k) o v s) = ground arith
