-- ===== src/Config/Types.antt =====
-- pkg/erconfig/appconfig.go, the data structures. A pointer is an `Option`; the pointers by which
-- a backend holds another backend are data types of the same mutual block. Where the source
-- switches on a string type, each constant is a constructor and `unknown` is any other string.
use edgerouter.Base.{Str, bytes, Bool, true, false, List, Option, none}
use edgerouter.Base.Dict.{Dict}

pub data FrontendKind : Type 0 where
  hostname hostname_regexp path_prefix : FrontendKind
  unknown : Str → FrontendKind

pub record Frontend : Type 0 where
  pub kind : FrontendKind
  pub hostname : Str
  pub hostname_regexp : Str
  pub path_prefix : Str
  pub strip_path_prefix : Bool
  pub allow_insecure_http : Bool

pub data BackendKind : Type 0 where
  s3_static_website reverse_proxy aws_lambda edgerouter_admin auth_v0 : BackendKind
  auth_sso redirect prom_metrics turbocharger : BackendKind
  unknown : Str → BackendKind

-- string(kind)
unfoldable pub frontend_kind_text : FrontendKind → Str
frontend_kind_text FrontendKind.hostname = bytes "hostname"
frontend_kind_text FrontendKind.hostname_regexp = bytes "hostname_regexp"
frontend_kind_text FrontendKind.path_prefix = bytes "path_prefix"
frontend_kind_text (FrontendKind.unknown s) = s

unfoldable pub backend_kind_text : BackendKind → Str
backend_kind_text BackendKind.s3_static_website = bytes "s3_static_website"
backend_kind_text BackendKind.reverse_proxy = bytes "reverse_proxy"
backend_kind_text BackendKind.aws_lambda = bytes "aws_lambda"
backend_kind_text BackendKind.edgerouter_admin = bytes "edgerouter_admin"
backend_kind_text BackendKind.auth_v0 = bytes "auth_v0"
backend_kind_text BackendKind.auth_sso = bytes "auth_sso"
backend_kind_text BackendKind.redirect = bytes "redirect"
backend_kind_text BackendKind.prom_metrics = bytes "prom_metrics"
backend_kind_text BackendKind.turbocharger = bytes "turbocharger"
backend_kind_text (BackendKind.unknown s) = s

pub record BackendOptsS3StaticWebsite : Type 0 where
  pub bucket_name : Str
  pub region_id : Str
  pub deployed_version : Str
  pub not_found_page : Str

pub record TlsConfig : Type 0 where
  pub insecure_skip_verify : Bool
  pub server_name : Str

pub record BackendOptsReverseProxy : Type 0 where
  pub origins : List Str
  pub tls_config : Option TlsConfig
  pub caching : Bool
  pub pass_host_header : Bool
  pub index_document : Str
  pub remove_query_string : Bool
  pub headers_to_origin : Dict Str

pub record BackendOptsAwsLambda : Type 0 where
  pub function_name : Str
  pub region_id : Str
  pub payload_format_version : Str

pub record BackendOptsRedirect : Type 0 where
  pub to : Str

-- The manifest's identifier is 32 bytes.
pub record BackendOptsTurbocharger : Type 0 where
  pub manifest : Str

-- The option blocks of a backend that hold no backend.
pub record PlainOpts : Type 0 where
  pub s3_static_website_opts : Option BackendOptsS3StaticWebsite
  pub reverse_proxy_opts : Option BackendOptsReverseProxy
  pub aws_lambda_opts : Option BackendOptsAwsLambda
  pub redirect_opts : Option BackendOptsRedirect
  pub turbocharger_opts : Option BackendOptsTurbocharger

mutual
  pub data Backend : Type 0 where
    backend : (kind : BackendKind) → PlainOpts → AuthV0Ptr → AuthSsoPtr → Backend

  -- *BackendOptsAuthV0: the bearer token and the authorized backend.
  pub data AuthV0Ptr : Type 0 where
    no_auth_v0 : AuthV0Ptr
    auth_v0_opts : (bearer_token : Str) → BackendPtr → AuthV0Ptr

  -- *BackendOptsAuthSso: server, allowed users, audience and the authorized backend.
  pub data AuthSsoPtr : Type 0 where
    no_auth_sso : AuthSsoPtr
    auth_sso_opts :
        (id_server_url : Str) (allowed_user_ids : List Str) (audience : Str)
        → BackendPtr
        → AuthSsoPtr

  -- *Backend
  pub data BackendPtr : Type 0 where
    no_backend : BackendPtr
    ptr : Backend → BackendPtr

abbrev pub no_opts : PlainOpts
no_opts = record {
  s3_static_website_opts = none;
  reverse_proxy_opts = none;
  aws_lambda_opts = none;
  redirect_opts = none;
  turbocharger_opts = none;
}

abbrev pub kind_of : Backend → BackendKind
kind_of (backend k o v s) = k

abbrev pub opts_of : Backend → PlainOpts
opts_of (backend k o v s) = o

abbrev pub is_no_backend : BackendPtr → Bool
is_no_backend no_backend = true
is_no_backend (ptr b) = false

pub record Application : Type 0 where
  pub id : Str
  pub frontends : List Frontend
  pub app_backend : Backend
