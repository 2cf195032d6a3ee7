-- ===== src/Backends/Factory.antt =====
-- pkg/erserver/backendfactory.go: making the backends of applications, and the cache of those made.
pub mod Cache
pub mod Protected
use edgerouter.Base.{
  ℕ, Str, bytes, ◌==◌, Bool, true, false, List, [], ◌∷◌, ◌++◌, Option, none, some, Result, ok, err,
  panic, ◌>>=◌, deref, wrap, and_then, if◌then◌else◌,
}
use edgerouter.Base.Dict.{Dict, lookup, insert}
use edgerouter.Config.{
  BackendKind, BackendOptsS3StaticWebsite, BackendOptsReverseProxy, BackendOptsAwsLambda, Backend,
  backend, AuthV0Ptr, no_auth_v0, auth_v0_opts, AuthSsoPtr, no_auth_sso, auth_sso_opts, BackendPtr,
  no_backend, ptr,
}
use edgerouter.Config.Validate.{is_empty}
use edgerouter.Backends.Handlers.{
  Env, Handler, CasPair, Singleton, not_deployed, lambda, redirector, turbocharger_site,
  admin_pages, prom_metrics, auth_v0, auth_sso, get_manifest_handler_singleton,
  wrap_with_middleware_if_config_available, new_with_modify_response, new_reverse_proxy,
}

-- bucketPrefix of pkg/erbackend/statics3websitebackend/deploy.go
unfoldable pub bucket_prefix : Str → Str → Str
bucket_prefix application_id deploy_version =
    bytes "sites/" ++ (application_id ++ (bytes "/" ++ deploy_version))

unfoldable pub validate_payload_format_version : Str → Result Bool
validate_payload_format_version version =
    if version == bytes "1.0"
    then ok false
    else if is_empty version
    then ok false
    else if version == bytes "2.0"
    then ok true
    else err (bytes "unrecognized PayloadFormatVersion: " ++ version)

-- strings.TrimPrefix(s, "/")
abbrev trim_slash : Str → Str
trim_slash [] = []
trim_slash (c ∷ s) = if (c ∷ []) == bytes "/" then s else c ∷ s

abbrev not_found_url : Str → Str → Option Str
not_found_url origin page =
    if is_empty page then none else some (origin ++ (bytes "/" ++ trim_slash page))

-- Wrapping the error of the backend behind an authenticating one.
abbrev inner_error : Result Handler × Singleton → Result Handler × Singleton
inner_error (made, s) = (wrap (λ e. bytes "authorizedBackend: " ++ e) made, s)

-- `default_server` is the constant idclient.Function61.
module _ (env : Env) (default_server : Str) where
  unfoldable pub new_s3_static_website : Str → BackendOptsS3StaticWebsite → Result Handler
  unfolding bucket_prefix new_with_modify_response
  new_s3_static_website app_id opts =
      if is_empty opts.deployed_version
      then ok (not_deployed (bytes "no deployed version for " ++ app_id))
      else let origin =
          bytes "https://s3."
          ++ (opts.region_id
              ++ (bytes ".amazonaws.com/"
                  ++ (opts.bucket_name
                      ++ (bytes "/" ++ bucket_prefix app_id opts.deployed_version)))) in
        new_with_modify_response env (app_id ++ (bytes "-" ++ opts.deployed_version))
          (record {
            origins = origin ∷ [];
            tls_config = none;
            caching = true;
            pass_host_header = false;
            index_document = bytes "index.html";
            remove_query_string = true;
            headers_to_origin = [];
          })
          (not_found_url origin opts.not_found_page)

  unfoldable pub new_lambda : BackendOptsAwsLambda → Singleton → Result Handler × Singleton
  unfolding validate_payload_format_version wrap_with_middleware_if_config_available
  new_lambda opts s =
      and_then
        (
          (do
            loaded ← env.load_aws_config opts.region_id
            is_payload_v2 ← validate_payload_format_version opts.payload_format_version
            ok (lambda opts.function_name opts.region_id is_payload_v2)),
          s,
        )
        (wrap_with_middleware_if_config_available env)

  unfoldable pub new_turbocharger : Str → Singleton → Result Handler × Singleton
  unfolding get_manifest_handler_singleton
  new_turbocharger manifest s =
      and_then (get_manifest_handler_singleton env s)
        (λ store s'. (ok (turbocharger_site manifest store), s'))

  unfoldable pub new_auth_sso : Str → List Str → Str → Handler → Result Handler
  new_auth_sso server_url users audience authorized =
      if is_empty audience
      then err (bytes "empty audience")
      else ok (
          auth_sso (if is_empty server_url then default_server else server_url) audience users
            authorized)

  unfoldable mutual
    pub make_backend_internal : Str → Backend → Singleton → Result Handler × Singleton
    make_backend_internal app_id (backend BackendKind.s3_static_website o v a) s =
        (deref o.s3_static_website_opts >>= new_s3_static_website app_id, s)
    make_backend_internal app_id (backend BackendKind.reverse_proxy o v a) s =
        and_then (deref o.reverse_proxy_opts, s) (new_reverse_proxy env app_id)
    make_backend_internal app_id (backend BackendKind.aws_lambda o v a) s =
        and_then (deref o.aws_lambda_opts, s) new_lambda
    make_backend_internal app_id (backend BackendKind.redirect o v a) s =
        ((do opts ← deref o.redirect_opts; ok (redirector opts.to)), s)
    make_backend_internal app_id (backend BackendKind.turbocharger o v a) s =
        and_then (deref o.turbocharger_opts, s) (λ opts. new_turbocharger opts.manifest)
    make_backend_internal app_id (backend BackendKind.edgerouter_admin o v a) s =
        (ok admin_pages, s)
    make_backend_internal app_id (backend BackendKind.auth_v0 o v a) s = make_auth_v0 app_id v s
    make_backend_internal app_id (backend BackendKind.auth_sso o v a) s = make_auth_sso app_id a s
    make_backend_internal app_id (backend BackendKind.prom_metrics o v a) s = (ok prom_metrics, s)
    make_backend_internal app_id (backend (BackendKind.unknown kind) o v a) s =
        (err (bytes "unsupported backend kind: " ++ kind), s)

    pub make_auth_v0 : Str → AuthV0Ptr → Singleton → Result Handler × Singleton
    make_auth_v0 app_id no_auth_v0 s = (panic, s)
    make_auth_v0 app_id (auth_v0_opts token authorized) s =
        and_then (inner_error (make_authorized app_id authorized s))
          (λ h s'. (ok (auth_v0 token h), s'))

    pub make_auth_sso : Str → AuthSsoPtr → Singleton → Result Handler × Singleton
    make_auth_sso app_id no_auth_sso s = (panic, s)
    make_auth_sso app_id (auth_sso_opts server users audience authorized) s =
        and_then (inner_error (make_authorized app_id authorized s))
          (λ h s'. (new_auth_sso server users audience h, s'))

    pub make_authorized : Str → BackendPtr → Singleton → Result Handler × Singleton
    make_authorized app_id no_backend s = (panic, s)
    make_authorized app_id (ptr b) s = make_backend_internal app_id b s

pub record CacheEntry : Type 0 where
  pub handler : Handler
  pub config_digest : Str

-- The cache `bendCache`, and the store of manifests.
pub record FactoryState : Type 0 where
  pub per_app_id : Dict CacheEntry
  pub singleton : Singleton

abbrev pub same_digest : Str → Option CacheEntry → Option CacheEntry
same_digest digest none = none
same_digest digest (some cached) = if digest == cached.config_digest then some cached else none

unfoldable pub find_cached : Str → Str → Dict CacheEntry → Option CacheEntry
find_cached app_id config_digest per_app_id = same_digest config_digest (lookup app_id per_app_id)

-- A backend that was made goes into the cache.
abbrev pub keep_made :
    Str → Str → FactoryState → Result Handler × Singleton → Result Handler × FactoryState
keep_made app_id digest s (ok h, made) = (
  ok h,
  record {
    per_app_id = insert app_id (record { handler = h; config_digest = digest }) s.per_app_id;
    singleton = made;
  },
)
keep_made app_id digest s (err e, made) = (err e, record s { singleton = made })
keep_made app_id digest s (panic, made) = (panic, record s { singleton = made })

-- `marshal` is json.Marshal of a backend's configuration.
module _ (env : Env) (default_server : Str) (marshal : Backend → Result Str) where
  abbrev pub made_or_cached :
      Str → Backend → Str → FactoryState → Option CacheEntry → Result Handler × FactoryState
  made_or_cached app_id conf digest s (some cached) = (ok cached.handler, s)
  made_or_cached app_id conf digest s none =
      keep_made app_id digest s (make_backend_internal env default_server app_id conf s.singleton)

  unfoldable pub make_backend : Str → Backend → FactoryState → Result Handler × FactoryState
  unfolding find_cached make_backend_internal
  make_backend app_id conf s =
      and_then (marshal conf, s)
        (λ digest s'.
          made_or_cached app_id conf digest s' (find_cached app_id digest s'.per_app_id))
