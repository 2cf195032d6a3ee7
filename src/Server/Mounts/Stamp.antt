-- ===== src/Server/Mounts/Stamp.antt =====
-- pkg/erserver/mountresolver.go: what making the mounts leaves alone in the matchers.
use edgerouter.Base.{
  ℕ, ◌≡◌, sym, ap, ◌∙◌, Str, List, [], ◌∷◌, Result, ok, wrap, >>=-eq-ok, and_then-eq-ok,
  ok-injective,
}
use edgerouter.Base.Sort.{SliceSort}
use edgerouter.Config.{FrontendKind, Frontend, Backend, Application}
use edgerouter.Server.Mounts.{
  Mount, FrontendMatchers, new_frontend_matchers, longer, mount_of, add_frontend_kind, add_frontend,
  add_frontends, add_made, add_apps, app_config_to_handlers_and_matchers,
}

-- The fields of the matchers that making the mounts leaves alone.
abbrev stamp : {R H : Type 0} → FrontendMatchers R H → List Application × ℕ
stamp fem = (fem.apps, fem.timestamp)

module _ {R H : Type 0} (compile : Str → Result R) (sorting : SliceSort (longer {H = H})) where
  add_frontend_kind-stamp :
      (k : FrontendKind) (m : Mount H) (f : Frontend) (fem fem' : FrontendMatchers R H)
      → add_frontend_kind compile sorting k m f fem ≡ ok fem'
      → stamp fem' ≡ stamp fem
  add_frontend_kind-stamp FrontendKind.hostname m f fem fem' h = ap stamp (sym (ok-injective h))
  add_frontend_kind-stamp FrontendKind.hostname_regexp m f fem fem' h =
      let (re, c, rest) = >>=-eq-ok (compile f.hostname_regexp) _ h in
      ap stamp (sym (ok-injective rest))
  add_frontend_kind-stamp FrontendKind.path_prefix m f fem fem' h = ap stamp (sym (ok-injective h))
  add_frontend_kind-stamp (FrontendKind.unknown k) m f fem fem' h = cc

  add_frontends-stamp :
      (app : Application) (handler : H) (fs : List Frontend) (fem fem' : FrontendMatchers R H)
      → add_frontends compile sorting app handler fs fem ≡ ok fem'
      → stamp fem' ≡ stamp fem
  unfolding add_frontends add_frontend
  add_frontends-stamp app handler [] fem fem' h = ap stamp (sym (ok-injective h))
  add_frontends-stamp app handler (f ∷ fs) fem fem' h =
      let (fem₁, first, rest) =
        >>=-eq-ok (add_frontend_kind compile sorting f.kind (mount_of app handler f) f fem) _ h in
      add_frontends-stamp app handler fs fem₁ fem' rest
      ∙ add_frontend_kind-stamp f.kind (mount_of app handler f) f fem fem₁ first

  add_apps-stamp :
      {S : Type 0} (make_backend : Str → Backend → S → Result H × S) (apps : List Application)
      (fem fem' : FrontendMatchers R H) (s s' : S)
      → add_apps compile sorting make_backend apps fem s ≡ (ok fem', s')
      → stamp fem' ≡ stamp fem
  unfolding add_apps
  add_apps-stamp make_backend [] fem fem' s s' h = ap stamp (sym (ok-injective (ap (λ p. p.0) h)))
  add_apps-stamp make_backend (app ∷ apps) fem fem' s s' h =
      let m = make_backend app.id app.app_backend s in
      let (fem₁, s₁, made, rest) = and_then-eq-ok (add_made compile sorting app fem m) _ h in
      let (handler, w, added) = >>=-eq-ok (wrap _ m.0) _ (ap (λ p. p.0) made) in
      add_apps-stamp make_backend apps fem₁ fem' s₁ s' rest
      ∙ add_frontends-stamp app handler app.frontends fem fem₁ added

  pub app_config-stamp :
      {S : Type 0} (make_backend : Str → Backend → S → Result H × S) (apps : List Application)
      (now : ℕ) (fem : FrontendMatchers R H) (s s' : S)
      → app_config_to_handlers_and_matchers compile sorting make_backend apps now s ≡ (ok fem, s')
      → fem.timestamp ≡ now
  unfolding app_config_to_handlers_and_matchers new_frontend_matchers
  app_config-stamp make_backend apps now fem s s' h =
      ap (λ p. p.1) (add_apps-stamp make_backend apps (new_frontend_matchers apps now) fem s s' h)
