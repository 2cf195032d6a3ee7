-- ===== src/Config/Factories.antt =====
-- pkg/erconfig/appconfig.go, the factories of applications, frontends and backends.
use edgerouter.Base.{
  Str, bytes, Bool, false, ◌||◌, not, List, [], ◌∷◌, Option, none, some, if◌then◌else◌,
}
use edgerouter.Config.Types.{
  FrontendKind, Frontend, BackendKind, TlsConfig, Backend, backend, no_auth_v0, auth_v0_opts,
  no_auth_sso, auth_sso_opts, ptr, no_opts, Application,
}
use edgerouter.Config.Options.{FrontendOpt, get_frontend_options, path_prefix}
use edgerouter.Config.Validate.{is_empty}

unfoldable pub simple_application : Str → Frontend → Backend → Application
simple_application id frontend b = record { id = id; frontends = frontend ∷ []; app_backend = b }

unfoldable pub simple_hostname_frontend : Str → List FrontendOpt → Frontend
simple_hostname_frontend hostname options =
    let opts = get_frontend_options options in
    record {
      kind = FrontendKind.hostname;
      hostname = hostname;
      hostname_regexp = [];
      path_prefix = opts.path_prefix;
      strip_path_prefix = opts.strip_path_prefix;
      allow_insecure_http = opts.allow_insecure_http;
    }

unfoldable pub regexp_hostname_frontend : Str → List FrontendOpt → Frontend
regexp_hostname_frontend hostname_regexp options =
    let opts = get_frontend_options options in
    record {
      kind = FrontendKind.hostname_regexp;
      hostname = [];
      hostname_regexp = hostname_regexp;
      path_prefix = opts.path_prefix;
      strip_path_prefix = opts.strip_path_prefix;
      allow_insecure_http = opts.allow_insecure_http;
    }

unfoldable pub path_prefix_frontend : Str → List FrontendOpt → Frontend
path_prefix_frontend prefix options =
    let opts = get_frontend_options (path_prefix prefix ∷ options) in
    record {
      kind = FrontendKind.path_prefix;
      hostname = [];
      hostname_regexp = [];
      path_prefix = opts.path_prefix;
      strip_path_prefix = opts.strip_path_prefix;
      allow_insecure_http = opts.allow_insecure_http;
    }

unfoldable pub s3_backend : Str → Str → Str → Backend
s3_backend bucket_name region_id deployed_version =
    backend BackendKind.s3_static_website
      (record no_opts {
        s3_static_website_opts = some (record {
          bucket_name = bucket_name;
          region_id = region_id;
          deployed_version = deployed_version;
          not_found_page = [];
        });
      })
      no_auth_v0 no_auth_sso

unfoldable pub reverse_proxy_backend : List Str → Option TlsConfig → Bool → Backend
reverse_proxy_backend addrs tls_config pass_host_header =
    backend BackendKind.reverse_proxy
      (record no_opts {
        reverse_proxy_opts = some (record {
          origins = addrs;
          tls_config = tls_config;
          caching = false;
          pass_host_header = pass_host_header;
          index_document = [];
          remove_query_string = false;
          headers_to_origin = [];
        });
      })
      no_auth_v0 no_auth_sso

unfoldable pub redirect_backend : Str → Backend
redirect_backend to =
    backend BackendKind.redirect (record no_opts { redirect_opts = some (record { to = to }) })
      no_auth_v0 no_auth_sso

unfoldable pub turbocharger_backend : Str → Backend
turbocharger_backend manifest_id =
    backend BackendKind.turbocharger
      (record no_opts { turbocharger_opts = some (record { manifest = manifest_id }) }) no_auth_v0
      no_auth_sso

unfoldable pub lambda_backend : Str → Str → Backend
lambda_backend function_name region_id =
    backend BackendKind.aws_lambda
      (record no_opts {
        aws_lambda_opts = some (record {
          function_name = function_name;
          region_id = region_id;
          payload_format_version = bytes "2.0";
        });
      })
      no_auth_v0 no_auth_sso

unfoldable pub edgerouter_admin_backend : Backend
edgerouter_admin_backend = backend BackendKind.edgerouter_admin no_opts no_auth_v0 no_auth_sso

unfoldable pub prom_metrics_backend : Backend
prom_metrics_backend = backend BackendKind.prom_metrics no_opts no_auth_v0 no_auth_sso

unfoldable pub auth_v0_backend : Str → Backend → Backend
auth_v0_backend bearer_token authorized_backend =
    backend BackendKind.auth_v0 no_opts (auth_v0_opts bearer_token (ptr authorized_backend))
      no_auth_sso

unfoldable pub auth_sso_backend : Str → List Str → Str → Backend → Backend
auth_sso_backend id_server_url allowed_user_ids audience authorized_backend =
    backend BackendKind.auth_sso no_opts no_auth_v0
      (auth_sso_opts id_server_url allowed_user_ids audience (ptr authorized_backend))

unfoldable pub has_meaningful_content : TlsConfig → Bool
has_meaningful_content t = t.insecure_skip_verify || not (is_empty t.server_name)

unfoldable pub self_or_nil_if_no_meaningful_content : TlsConfig → Option TlsConfig
unfolding has_meaningful_content
self_or_nil_if_no_meaningful_content t = if has_meaningful_content t then some t else none
