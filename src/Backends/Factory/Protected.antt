-- ===== src/Backends/Factory/Protected.antt =====
-- The protection of a discovered service, from its labels (pkg/erdiscovery/dockerdiscovery) through
-- its configuration to the handler that pkg/erserver/backendfactory.go makes of it.
use edgerouter.Base.{
  ◌≡◌, ◌≢◌, refl, ap, subst, Str, bytes, List, [], ◌∷◌, ◌++◌, some, ok, inl, inr, and_then-eq-ok,
  ok-injective,
}
use edgerouter.Config.{Backend, Application}
use edgerouter.Config.Factories.{auth_v0_backend, auth_sso_backend, simple_application}
use edgerouter.Discovery.Service.{Service, label}
use edgerouter.Discovery.Traefik.{traefik_annotations_to_app}
use edgerouter.Discovery.Traefik.Auth.{traefik_annotations_to_app-Produced}
use edgerouter.Backends.Handlers.{Env, Handler, Singleton, auth_v0, auth_sso}
use edgerouter.Backends.Factory.{new_auth_sso, make_backend_internal, inner_error}

-- The handler checks a token that is not empty, or sends to the single sign-on of a tenant.
abbrev pub IsProtected : Handler → Type 0
IsProtected (auth_v0 token inner) = token ≢ []
IsProtected (auth_sso url audience users inner) = audience ≢ []
IsProtected h = ⊥

module _ (env : Env) (default_server : Str) where
  made_auth_v0 :
      (app_id token : Str) (b : Backend) (s s' : Singleton) (h : Handler)
      → make_backend_internal env default_server app_id (auth_v0_backend token b) s ≡ (ok h, s')
      → token ≢ []
      → IsProtected h
  unfolding make_backend_internal auth_v0_backend
  made_auth_v0 app_id token b s s' h made ne =
      let (inner, t, m, rest) =
        and_then-eq-ok (inner_error (make_backend_internal env default_server app_id b s)) _ made in
      let same : auth_v0 token inner ≡ h = ok-injective (ap (λ p. p.0) rest) in
      subst IsProtected same ne

  new_auth_sso-IsProtected :
      (url audience : Str) (users : List Str) (inner h : Handler)
      → new_auth_sso env default_server url users audience inner ≡ ok h
      → audience ≢ []
      → IsProtected h
  unfolding new_auth_sso
  new_auth_sso-IsProtected url [] users inner h made ne = absurd (ne refl)
  new_auth_sso-IsProtected url (c ∷ audience) users inner h made ne =
      subst IsProtected (ok-injective made) ne

  made_auth_sso :
      (app_id url audience : Str) (users : List Str) (b : Backend) (s s' : Singleton) (h : Handler)
      → make_backend_internal env default_server app_id (auth_sso_backend url users audience b) s
        ≡ (ok h, s')
      → audience ≢ []
      → IsProtected h
  unfolding make_backend_internal auth_sso_backend
  made_auth_sso app_id url audience users b s s' h made ne =
      let (inner, t, m, rest) =
        and_then-eq-ok (inner_error (make_backend_internal env default_server app_id b s)) _ made in
      new_auth_sso-IsProtected url audience users inner h (ap (λ p. p.0) rest) ne

  -- A handler that is made for an application from a service's labels, where the label
  -- edgerouter.auth does not say "public", is one that authenticates: by a token that is not empty, or
  -- by single sign-on for an audience that is not empty.
  pub make_backend_internal-IsProtected :
      (service : Service) (app : Application) (s s' : Singleton) (h : Handler)
      → traefik_annotations_to_app service ≡ ok (some app)
      → label service (bytes "edgerouter.auth") ≢ bytes "public"
      → make_backend_internal env default_server app.id app.app_backend s ≡ (ok h, s')
      → IsProtected h
  unfolding simple_application
  make_backend_internal-IsProtected service app s s' h produced not_public made =
      let p = traefik_annotations_to_app-Produced service app produced in
      let is : app.app_backend ≡ p.protected = ap (λ a. a.app_backend) p.is_app in
      let made' : make_backend_internal env default_server app.id p.protected s ≡ (ok h, s') =
        rw (← is) made in
      elim p.protects [
        | inl (public, same) ↦ absurd (not_public public)
        | inr (inl (mode, ne, same)) ↦
            made_auth_v0 app.id _ _ s s' h
              (subst (λ b. make_backend_internal env default_server app.id b s ≡ (ok h, s')) same
                made')
              ne
        | inr (inr (mode, ne, same)) ↦
            made_auth_sso app.id _ _ _ _ s s' h
              (subst (λ b. make_backend_internal env default_server app.id b s ≡ (ok h, s')) same
                made')
              (append_nonempty _ _ ne)
      ]
    where
      append_nonempty : (xs ys : Str) → xs ≢ [] → (xs ++ ys) ≢ []
      append_nonempty [] ys ne h = ne refl
      append_nonempty (x ∷ xs) ys ne h = cc
