-- ===== src/Tests/Labels.antt =====
-- Runs of pkg/erdiscovery: labels of services, and the log of events.
use edgerouter.Base.{
  ℕ, ◌≡◌, ◌≢◌, refl, ◌↔◌, Str, bytes, ◌==◌, Bool, true, false, List, [], ◌∷◌, ◌++◌, map, join,
  Option, none, some, Result, ok, err, panic, All, Any, HasNone, eqb, ltb,
}
use edgerouter.Base.Dict.{Dict, lookup}
use edgerouter.Config.{Application}
use edgerouter.Config.Validate.{validate}
use edgerouter.Discovery.Service.{Service, label}
use edgerouter.Discovery.Traefik.{
  TraefikFrontendRule, no_rule, parse_traefik_frontend_rule, traefik_annotations_to_app,
}
use edgerouter.Discovery.Traefik.Rules.{
  host, path_prefix, print_sub_rule, assign_all, parse_traefik_frontend_rule-print,
}
use edgerouter.Discovery.Traefik.Auth.{Produced, traefik_annotations_to_app-Produced}
use edgerouter.Discovery.Traefik.Valid.{Compiles, traefik_annotations_to_app-validate}
use edgerouter.Tests.Sample.{compile_literal}

abbrev pub labels : Str → Dict Str
labels mode =
    (bytes "traefik.frontend.rule", bytes "Host:a.fi;PathPrefix:/x")
    ∷ (bytes "traefik.port", bytes "8080")
    ∷ (bytes "edgerouter.auth", mode)
    ∷ (bytes "edgerouter.auth_bearer_token", bytes "secret")
    ∷ []

abbrev pub service : Str → Service
service mode = record {
  name = bytes "web";
  image = [];
  labels = labels mode;
  instances =
      record { docker_task_id = []; node_id = []; node_hostname = []; ipv4 = bytes "10.0.0.2" }
      ∷ [];
}

-- Without a mode of authorization there is no application.
no_mode : traefik_annotations_to_app (service []) ≡ err (bytes "unsupported auth mode: ")
unfolding traefik_annotations_to_app lookup ◌==◌ bytes edgerouter.Discovery.Traefik.scheme_of
    edgerouter.Discovery.Traefik.insecure_skip_verify_of parse_traefik_frontend_rule
    edgerouter.Discovery.Traefik.parse_sub_rules edgerouter.Base.split
    edgerouter.Discovery.Traefik.parse_sub_rule edgerouter.Base.has_prefix
    edgerouter.Discovery.Traefik.frontend_of_rule edgerouter.Discovery.Traefik.authorize_backend
no_mode = refl

abbrev pub app_or : Application → Result (Option Application) → Application
app_or a (ok (some app)) = app
app_or a r = a

abbrev pub nothing : Application
nothing = record { id = []; frontends = []; app_backend = edgerouter.Tests.Sample.admin_backend }

abbrev pub protected_app : Application
protected_app = app_or nothing (traefik_annotations_to_app (service (bytes "bearer_token")))

pub protected_produced :
    traefik_annotations_to_app (service (bytes "bearer_token")) ≡ ok (some protected_app)
unfolding traefik_annotations_to_app lookup ◌==◌ bytes edgerouter.Discovery.Traefik.scheme_of
    edgerouter.Discovery.Traefik.insecure_skip_verify_of parse_traefik_frontend_rule
    edgerouter.Discovery.Traefik.parse_sub_rules edgerouter.Base.split
    edgerouter.Discovery.Traefik.parse_sub_rule edgerouter.Base.has_prefix
    edgerouter.Discovery.Traefik.frontend_of_rule edgerouter.Discovery.Traefik.authorize_backend
protected_produced = refl

traefik_annotations_to_app-Produced_example :
    Produced (service (bytes "bearer_token")) protected_app
traefik_annotations_to_app-Produced_example =
    traefik_annotations_to_app-Produced (service (bytes "bearer_token")) protected_app
      protected_produced

rule-Compiles :
    (parsed : TraefikFrontendRule)
    → parse_traefik_frontend_rule
        (label (service (bytes "bearer_token")) (bytes "traefik.frontend.rule"))
      ≡ ok parsed
    → Compiles compile_literal parsed
rule-Compiles parsed h e = (parsed.host_regexp, refl)

traefik_annotations_to_app-validate_example : validate compile_literal protected_app ≡ ok tt
unfolding bytes
traefik_annotations_to_app-validate_example =
    traefik_annotations_to_app-validate compile_literal (service (bytes "bearer_token"))
      protected_app (λ h. cc) protected_produced rule-Compiles

parse_traefik_frontend_rule-print_example :
    parse_traefik_frontend_rule
      (join (b';' ∷ []) (map print_sub_rule (host (bytes "a.fi") ∷ path_prefix (bytes "/x") ∷ [])))
    ≡ ok (assign_all no_rule (host (bytes "a.fi") ∷ path_prefix (bytes "/x") ∷ []))
unfolding bytes
parse_traefik_frontend_rule-print_example =
    parse_traefik_frontend_rule-print (host (bytes "a.fi")) (path_prefix (bytes "/x") ∷ [])
      ((refl, (refl, (refl, (refl, tt)))), ((refl, (refl, tt)), tt))
