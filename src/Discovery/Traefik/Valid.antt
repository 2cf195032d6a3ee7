-- ===== src/Discovery/Traefik/Valid.antt =====
-- Applications from labels pass the validation of pkg/erconfig/appconfig.go.
use edgerouter.Base.{
  Str, bytes, ◌≡◌, ◌≢◌, refl, inl, inr, true, false, List, [], ◌∷◌, ◌++◌, Option, some, Result, ok,
  ok-injective, Bool-cases,
}
use edgerouter.Config.{Frontend, Backend, TlsConfig, Application}
use edgerouter.Config.Factories.{
  simple_application, simple_hostname_frontend, regexp_hostname_frontend, reverse_proxy_backend,
  auth_v0_backend, auth_sso_backend,
}
use edgerouter.Config.Validate.{
  is_empty, is_empty-false_iff, is_empty-true_iff, validate, validate_frontend, validate_backend,
}
use edgerouter.Discovery.Service.{Service, label}
use edgerouter.Discovery.Traefik.{
  TraefikFrontendRule, parse_traefik_frontend_rule, frontend_of_rule, traefik_annotations_to_app,
}
use edgerouter.Discovery.Traefik.Auth.{Protects, addresses, traefik_annotations_to_app-Produced}

is_empty-append : (s t : Str) → s ≢ [] → is_empty (s ++ t) ≡ false
is_empty-append [] t h = absurd (h refl)
is_empty-append (c ∷ s) t h = refl

module _ {Regexp : Type 0} (compile : Str → Result Regexp) where
  -- The regular expression of a rule without a host compiles.
  abbrev pub Compiles : TraefikFrontendRule → Type 0
  Compiles r = r.host ≡ [] → (re : Regexp) × (compile r.host_regexp ≡ ok re)

  frontend-valid :
      (rule : Str) (parsed : TraefikFrontendRule) (f : Frontend)
      → frontend_of_rule rule parsed ≡ ok f
      → Compiles parsed
      → validate_frontend compile f ≡ ok tt
  unfolding frontend_of_rule validate_frontend simple_hostname_frontend regexp_hostname_frontend
  frontend-valid rule parsed f h c = elim (Bool-cases (is_empty parsed.host)) [
    | inl e ↦
        let h₁ = rw e at h in
        elim (Bool-cases (is_empty parsed.host_regexp)) [
          | inl g ↦ let h₂ = rw g at h₁ in cc
          | inr g ↦
              let (re, compiled) = c ((is_empty-true_iff _).0 e) in
              rw (← ok-injective (rw g at h₁), g, compiled) refl
        ]
    | inr e ↦ rw (← ok-injective (rw e at h), e) refl
  ]

  backend-valid :
      (service : Service) (origins : List Str) (tls : Option TlsConfig) (app_id : Str) (b : Backend)
      → origins ≢ []
      → Protects service (reverse_proxy_backend origins tls true) b
      → validate_backend app_id b ≡ ok tt
  unfolding validate_backend reverse_proxy_backend auth_v0_backend auth_sso_backend
  backend-valid service [] tls app_id b ne p = absurd (ne refl)
  backend-valid service (o ∷ os) tls app_id b ne (inl (e, same)) = rw same refl
  backend-valid service (o ∷ os) tls app_id b ne (inr (inl (e, token, same))) =
      rw (same, (is_empty-false_iff _).1 token) refl
  backend-valid service (o ∷ os) tls app_id b ne (inr (inr (e, tenant, same))) =
      rw (same, is_empty-append _ _ tenant) refl

  -- An application that is made from a named service's labels passes the validation, if the regular
  -- expression of a rule without a host compiles.
  pub traefik_annotations_to_app-validate :
      (service : Service) (app : Application)
      → service.name ≢ []
      → traefik_annotations_to_app service ≡ ok (some app)
      → ((parsed : TraefikFrontendRule)
          → parse_traefik_frontend_rule (label service (bytes "traefik.frontend.rule")) ≡ ok parsed
          → Compiles parsed)
      → validate compile app ≡ ok tt
  unfolding validate simple_application
  traefik_annotations_to_app-validate service app named h compiles =
      let p = traefik_annotations_to_app-Produced service app h in
      rw
        (
          p.is_app,
          (is_empty-false_iff service.name).1 named,
          frontend-valid _ p.parsed p.frontend p.frontend_made (compiles p.parsed p.rule_parses),
          backend-valid service (addresses service p.scheme) _ service.name p.protected p.reachable
              p.protects,
        )
        refl
