-- ===== src/Discovery/Traefik.antt =====
-- pkg/erdiscovery/dockerdiscovery/traefikannotations.go: from the labels of a service to an
-- application.
pub mod Rules
pub mod Auth
pub mod Valid
use edgerouter.Base.{
  ℕ, Str, bytes, ◌==◌, has_prefix, split, Bool, true, false, ◌&&◌, not, List, [], ◌∷◌, ◌++◌, map,
  Option, none, some, Result, ok, err, panic, ◌>>=◌, length, drop, if◌then◌else◌,
}
use edgerouter.Base.Dict.{lookup}
use edgerouter.Config.{Frontend, TlsConfig, Backend, Application}
use edgerouter.Config.Options.{FrontendOpt, path_prefix}
use edgerouter.Config.Factories.{
  simple_application, simple_hostname_frontend, regexp_hostname_frontend, reverse_proxy_backend,
  auth_v0_backend, auth_sso_backend, self_or_nil_if_no_meaningful_content,
}
use edgerouter.Config.Validate.{is_empty}
use edgerouter.Discovery.Service.{ServiceInstance, Service, label}

pub record TraefikFrontendRule : Type 0 where
  pub host : Str
  pub path_prefix : Str
  pub host_regexp : Str

abbrev pub no_rule : TraefikFrontendRule
no_rule = record { host = []; path_prefix = []; host_regexp = [] }

-- `s[len(prefix):]` behind a test that `s` has the prefix.
abbrev pub cut_prefix : Str → Str → Str
cut_prefix prefix s = drop (length prefix) s

-- One round of the loop over the sub-rules.
unfoldable pub parse_sub_rule : TraefikFrontendRule → Str → Result TraefikFrontendRule
parse_sub_rule parsed sub_rule =
    if has_prefix sub_rule (bytes "Host:")
    then ok (record parsed { host = cut_prefix (bytes "Host:") sub_rule })
    else if has_prefix sub_rule (bytes "PathPrefix:")
    then ok (record parsed { path_prefix = cut_prefix (bytes "PathPrefix:") sub_rule })
    else if has_prefix sub_rule (bytes "HostRegexp:")
    then ok (record parsed { host_regexp = cut_prefix (bytes "HostRegexp:") sub_rule })
    else err (bytes "unsupported rule: '" ++ (sub_rule ++ bytes "'"))

unfoldable pub parse_sub_rules : TraefikFrontendRule → List Str → Result TraefikFrontendRule
parse_sub_rules parsed [] = ok parsed
parse_sub_rules parsed (sub_rule ∷ sub_rules) = do
  parsed' ← parse_sub_rule parsed sub_rule
  parse_sub_rules parsed' sub_rules

unfoldable pub parse_traefik_frontend_rule : Str → Result TraefikFrontendRule
parse_traefik_frontend_rule rule = parse_sub_rules no_rule (split b';' rule)

-- The scheme, from the label traefik.protocol if it is there.
unfoldable pub scheme_of : Option Str → Result Str
scheme_of none = ok (bytes "http")
scheme_of (some proto) =
    if not (proto == bytes "http") && not (proto == bytes "https")
    then err (bytes "unsupported protocol: " ++ proto)
    else ok proto

unfoldable pub insecure_skip_verify_of : Str → Option Str → Result Bool
insecure_skip_verify_of scheme none = ok false
insecure_skip_verify_of scheme (some value) =
    if not (value == bytes "true")
    then err (bytes "unsupported value for insecureSkipVerify: " ++ value)
    else if not (scheme == bytes "https")
    then err (bytes "insecureSkipVerify specified but not using https")
    else ok true

unfoldable pub port_of : Str → Str → Str
port_of scheme port =
    if is_empty port
    then (if scheme == bytes "http"
        then bytes "80"
        else if scheme == bytes "https"
        then bytes "443"
        else port)
    else port

abbrev pub path_options : Str → List FrontendOpt
path_options prefix = if is_empty prefix then [] else path_prefix prefix ∷ []

unfoldable pub frontend_of_rule : Str → TraefikFrontendRule → Result Frontend
frontend_of_rule frontend_rule parsed =
    if not (is_empty parsed.host)
    then ok (simple_hostname_frontend parsed.host (path_options parsed.path_prefix))
    else if not (is_empty parsed.host_regexp)
    then ok (regexp_hostname_frontend parsed.host_regexp (path_options parsed.path_prefix))
    else err (bytes "unsupported frontend rule: " ++ frontend_rule)

unfoldable pub address_of : Str → Str → ServiceInstance → Str
address_of scheme port i = scheme ++ (bytes "://" ++ (i.ipv4 ++ (bytes ":" ++ port)))

-- The closure that may wrap the backend in an authenticating one.
unfoldable pub authorize_backend : Service → Backend → Result Backend
authorize_backend service b =
    if label service (bytes "edgerouter.auth") == bytes "public"
    then ok b
    else if label service (bytes "edgerouter.auth") == bytes "bearer_token"
    then (if is_empty (label service (bytes "edgerouter.auth_bearer_token"))
        then err (bytes "empty bearer token not supported")
        else ok (auth_v0_backend (label service (bytes "edgerouter.auth_bearer_token")) b))
    else if label service (bytes "edgerouter.auth") == bytes "sso"
    then (if is_empty (label service (bytes "edgerouter.auth_sso.tenant"))
        then err (bytes "edgerouter.auth_sso.tenant empty")
        else ok (
            auth_sso_backend [] (split b',' (label service (bytes "edgerouter.auth_sso.users")))
              (label service (bytes "edgerouter.auth_sso.tenant") ++ (bytes "/" ++ service.name))
              b))
    else err (bytes "unsupported auth mode: " ++ label service (bytes "edgerouter.auth"))

-- The end of the function, from the addresses on.
abbrev pub app_of_addrs : Service → TlsConfig → Frontend → List Str → Result (Option Application)
app_of_addrs service tls_config frontend [] = ok none
app_of_addrs service tls_config frontend (addr ∷ addrs) = do
  authorized ←
      authorize_backend service (
        reverse_proxy_backend (addr ∷ addrs) (self_or_nil_if_no_meaningful_content tls_config) true)
  ok (some (simple_application service.name frontend authorized))

-- `ok none` is the skip without an error.
unfoldable pub traefik_annotations_to_app : Service → Result (Option Application)
traefik_annotations_to_app service =
    if is_empty (label service (bytes "traefik.frontend.rule")) then ok none else (do
      scheme ← scheme_of (lookup (bytes "traefik.protocol") service.labels)
      insecure_skip_verify ←
          insecure_skip_verify_of scheme
            (lookup (bytes "traefik.backend.tls.insecureSkipVerify") service.labels)
      parsed ← parse_traefik_frontend_rule (label service (bytes "traefik.frontend.rule"))
      frontend ← frontend_of_rule (label service (bytes "traefik.frontend.rule")) parsed
      app_of_addrs service
          (record {
            insecure_skip_verify = insecure_skip_verify;
            server_name = label service (bytes "traefik.backend.tls.serverName");
          })
          frontend
          (map (address_of scheme (port_of scheme (label service (bytes "traefik.port"))))
            service.instances))
