-- ===== src/Discovery/Traefik/Auth.antt =====
-- How the backend of an application from labels is protected
-- (pkg/erdiscovery/dockerdiscovery/traefikannotations.go).
use edgerouter.Base.{
  Str, bytes, ◌==◌, eq_iff, split, ◌≡◌, ◌≢◌, sym, ◌∙◌, ◌⊎◌, inl, inr, true, List, [], ◌∷◌, ◌++◌,
  map, Option, none, some, ok, >>=-eq-ok, ok-injective, Bool-cases,
}
use edgerouter.Config.{Frontend, TlsConfig, Backend, Application}
use edgerouter.Config.Factories.{
  simple_application, reverse_proxy_backend, auth_v0_backend, auth_sso_backend,
  self_or_nil_if_no_meaningful_content,
}
use edgerouter.Config.Validate.{is_empty, is_empty-false_iff}
use edgerouter.Discovery.Service.{Service, label}
use edgerouter.Discovery.Traefik.{
  TraefikFrontendRule, parse_traefik_frontend_rule, scheme_of, insecure_skip_verify_of, port_of,
  frontend_of_rule, address_of, authorize_backend, app_of_addrs, traefik_annotations_to_app,
}

-- The backend `b`, protected as the labels ask.
abbrev pub Protects : Service → Backend → Backend → Type 0
Protects service b protected =
    ((label service (bytes "edgerouter.auth") ≡ bytes "public") × (protected ≡ b))
    ⊎ (((label service (bytes "edgerouter.auth") ≡ bytes "bearer_token")
          × (label service (bytes "edgerouter.auth_bearer_token") ≢ [])
          × (protected ≡ auth_v0_backend (label service (bytes "edgerouter.auth_bearer_token")) b))
        ⊎ ((label service (bytes "edgerouter.auth") ≡ bytes "sso")
            × (label service (bytes "edgerouter.auth_sso.tenant") ≢ [])
            × (protected
                ≡ auth_sso_backend []
                    (split b',' (label service (bytes "edgerouter.auth_sso.users")))
                    (label service (bytes "edgerouter.auth_sso.tenant")
                      ++ (bytes "/" ++ service.name))
                    b)))

authorize_backend-Protects :
    (service : Service) (b protected : Backend)
    → authorize_backend service b ≡ ok protected
    → Protects service b protected
unfolding authorize_backend
authorize_backend-Protects service b protected h =
    let auth = label service (bytes "edgerouter.auth") in
    elim (Bool-cases (auth == bytes "public")) [
      | inl e ↦ inl ((eq_iff _ _).0 e, sym (ok-injective (rw e at h)))
      | inr e ↦
          let h₁ = rw e at h in
          elim (Bool-cases (auth == bytes "bearer_token")) [
            | inl f ↦
                let h₂ = rw f at h₁ in
                elim (Bool-cases
                  (is_empty (label service (bytes "edgerouter.auth_bearer_token")))) [
                    | inl g ↦ let h₃ = rw g at h₂ in cc
                    | inr g ↦ inr (
                        inl (
                          (eq_iff _ _).0 f,
                          (is_empty-false_iff _).0 g,
                          sym (ok-injective (rw g at h₂)),
                        ))
                  ]
            | inr f ↦
                let h₂ = rw f at h₁ in
                elim (Bool-cases (auth == bytes "sso")) [
                  | inl g ↦
                      let h₃ = rw g at h₂ in
                      elim (Bool-cases
                        (is_empty (label service (bytes "edgerouter.auth_sso.tenant")))) [
                          | inl k ↦ let h₄ = rw k at h₃ in cc
                          | inr k ↦ inr (
                              inr (
                                (eq_iff _ _).0 g,
                                (is_empty-false_iff _).0 k,
                                sym (ok-injective (rw k at h₃)),
                              ))
                        ]
                  | inr g ↦ let h₃ = rw g at h₂ in cc
                ]
          ]
    ]

-- The addresses of a service's instances.
abbrev pub addresses : Service → Str → List Str
addresses service scheme =
    map (address_of scheme (port_of scheme (label service (bytes "traefik.port"))))
      service.instances

-- What an application from labels consists of.
pub record Produced (service : Service) (app : Application) : Type 0 where
  pub scheme : Str
  pub frontend : Frontend
  pub tls_config : TlsConfig
  pub protected : Backend
  pub parsed : TraefikFrontendRule
  pub rule_set : label service (bytes "traefik.frontend.rule") ≢ []
  pub scheme_known : (scheme ≡ bytes "http") ⊎ (scheme ≡ bytes "https")
  pub rule_parses :
      parse_traefik_frontend_rule (label service (bytes "traefik.frontend.rule")) ≡ ok parsed
  pub frontend_made :
      frontend_of_rule (label service (bytes "traefik.frontend.rule")) parsed ≡ ok frontend
  pub reachable : addresses service scheme ≢ []
  pub protects :
      Protects service
        (reverse_proxy_backend
          (addresses service scheme)
          (self_or_nil_if_no_meaningful_content tls_config)
          true)
        protected
  pub is_app : app ≡ simple_application service.name frontend protected

scheme_of-known :
    (o : Option Str) (scheme : Str)
    → scheme_of o ≡ ok scheme
    → (scheme ≡ bytes "http") ⊎ (scheme ≡ bytes "https")
unfolding scheme_of
scheme_of-known none scheme h = inl (sym (ok-injective h))
scheme_of-known (some proto) scheme h = elim (Bool-cases (proto == bytes "http")) [
  | inl e ↦ inl (sym (ok-injective (rw e at h)) ∙ (eq_iff _ _).0 e)
  | inr e ↦
      let h₁ = rw e at h in
      elim (Bool-cases (proto == bytes "https")) [
        | inl f ↦ inr (sym (ok-injective (rw f at h₁)) ∙ (eq_iff _ _).0 f)
        | inr f ↦ let h₂ = rw f at h₁ in cc
      ]
]

app_of_addrs-some :
    (service : Service) (tls : TlsConfig) (frontend : Frontend) (addrs : List Str)
    (app : Application)
    → app_of_addrs service tls frontend addrs ≡ ok (some app)
    → (addrs ≢ [])
      × (protected : Backend) × Protects service
          (reverse_proxy_backend addrs (self_or_nil_if_no_meaningful_content tls) true)
          protected
      × (app ≡ simple_application service.name frontend protected)
app_of_addrs-some service tls frontend [] app h = let e = ok-injective h in cc
app_of_addrs-some service tls frontend (addr ∷ addrs) app h =
    let (protected, a, e) = >>=-eq-ok (authorize_backend service _) _ h in
    let e' = ok-injective e in
    ((λ q. cc), protected, authorize_backend-Protects service _ protected a, cc)

-- An application is made from a service's labels only if they name a frontend rule that parses, the
-- scheme is http or https, and there is an instance; the backend proxies to the instances'
-- addresses, and it is left unprotected only if the label edgerouter.auth says "public":
-- otherwise it stands behind a token that is not empty, or behind single sign-on for a tenant.
pub traefik_annotations_to_app-Produced :
    (service : Service) (app : Application)
    → traefik_annotations_to_app service ≡ ok (some app)
    → Produced service app
unfolding traefik_annotations_to_app
traefik_annotations_to_app-Produced service app h =
    elim (Bool-cases (is_empty (label service (bytes "traefik.frontend.rule")))) [
      | inl e ↦ let e' = ok-injective (rw e at h) in cc
      | inr e ↦
          let (scheme, hs, h₁) = >>=-eq-ok (scheme_of _) _ (rw e at h) in
          let (skip, hk, h₂) = >>=-eq-ok (insecure_skip_verify_of scheme _) _ h₁ in
          let (parsed, hp, h₃) = >>=-eq-ok (parse_traefik_frontend_rule _) _ h₂ in
          let (frontend, hf, h₄) = >>=-eq-ok (frontend_of_rule _ parsed) _ h₃ in
          let (ne, protected, prot, same) = app_of_addrs-some service _ frontend _ app h₄ in
          record {
            scheme = scheme;
            frontend = frontend;
            tls_config = _;
            protected = protected;
            parsed = parsed;
            rule_set = (is_empty-false_iff _).0 e;
            scheme_known = scheme_of-known _ scheme hs;
            rule_parses = hp;
            frontend_made = hf;
            reachable = ne;
            protects = prot;
            is_app = same;
          }
    ]
