-- ===== src/Server/Mounts/Build.antt =====
-- The loop over the applications in pkg/erserver/mountresolver.go: the matchers that it builds hold
-- the frontends of all applications, with handlers that were made for them.
use edgerouter.Base.{
  ℕ, Str, ◌≡◌, refl, sym, ap, subst, List, [], ◌∷◌, ◌++◌, append-nil, append_assoc, map, map-append,
  Bool, Result, ok, wrap, All, All-append, >>=-eq-ok, wrap-eq-ok, and_then-eq-ok, ok-injective,
}
use edgerouter.Base.Sort.{SliceSort}
use edgerouter.Config.{Frontend, Backend, Application}
use edgerouter.Server.Mounts.{
  FrontendMatchers, longer, add_made, add_apps, app_config_to_handlers_and_matchers,
  new_frontend_matchers,
}
use edgerouter.Server.Mounts.Tiers.{Entry}
use edgerouter.Server.Mounts.Represents.{
  Represents, entries, add_frontends-Represents, new_frontend_matchers-Represents,
}

-- Each frontend of the configuration, with its application.
abbrev pub declared : List Application → List (Application × Frontend)
declared [] = []
declared (app ∷ apps) = map (λ f. (app, f)) app.frontends ++ declared apps

abbrev pub declared_of : {H : Type 0} → Entry H → Application × Frontend
declared_of e = (e.app, e.frontend)

declared-append : (xs ys : List Application) → declared (xs ++ ys) ≡ declared xs ++ declared ys
declared-append [] ys = refl
declared-append (a ∷ xs) ys =
    rw (declared-append xs ys) (sym (append_assoc (map (λ f. (a, f)) a.frontends) _ _))

module _ {R H S : Type 0} (compile : Str → Result R) (match_string : R → Str → Bool)
    (sorting : SliceSort (longer {H = H})) (make_backend : Str → Backend → S → Result H × S) where
  -- The entry's handler is one that makeBackend returned for the application.
  abbrev pub IsMade : Entry H → Type 0
  IsMade e = (s s' : S) × (make_backend e.app.id e.app.app_backend s ≡ (ok e.handler, s'))

  pub record Built (apps : List Application) (fem : FrontendMatchers R H) : Type 0 where
    pub held : List (Entry H)
    pub represents : Represents compile match_string fem held
    pub complete : map declared_of held ≡ declared apps
    pub made : All IsMade held

  entries-IsMade :
      (app : Application) (handler : H) (s s' : S) (fs : List Frontend)
      → make_backend app.id app.app_backend s ≡ (ok handler, s')
      → All IsMade (entries app handler fs)
  entries-IsMade app handler s s' [] h = tt
  entries-IsMade app handler s s' (f ∷ fs) h = ((s, s', h), entries-IsMade app handler s s' fs h)

  entries-declared :
      (app : Application) (handler : H) (fs : List Frontend)
      → map declared_of (entries app handler fs) ≡ map (λ f. (app, f)) fs
  entries-declared app handler [] = refl
  entries-declared app handler (f ∷ fs) = ap (λ l. (app, f) ∷ l) (entries-declared app handler fs)

  add_app-Built :
      (done : List Application) (app : Application) (fem : FrontendMatchers R H) (s : S)
      {fem' : FrontendMatchers R H}
      → Built done fem
      → (add_made compile sorting app fem (make_backend app.id app.app_backend s)).0 ≡ ok fem'
      → Built (done ++ app ∷ []) fem'
  add_app-Built done app fem s b h =
      let m = make_backend app.id app.app_backend s in
      let (handler, w, h₂) = >>=-eq-ok (wrap _ m.0) _ h in
      let h₁ = wrap-eq-ok _ m.0 w in
      record {
        held = b.held ++ entries app handler app.frontends;
        represents =
            add_frontends-Represents compile match_string sorting app handler app.frontends b.held
              fem b.represents h₂;
        complete =
            rw (map-append declared_of, b.complete, entries-declared, declared-append, append-nil);
        made =
            All-append IsMade b.held _ b.made
              (entries-IsMade app handler s m.1 app.frontends (ap (λ r. (r, m.1)) h₁));
      }

  add_apps-Built :
      (done apps : List Application) (fem : FrontendMatchers R H) (s : S)
      {fem' : FrontendMatchers R H} {s' : S}
      → Built done fem
      → add_apps compile sorting make_backend apps fem s ≡ (ok fem', s')
      → Built (done ++ apps) fem'
  unfolding add_apps
  add_apps-Built done [] fem s b h =
      rw (append-nil done) (subst (Built done) (ok-injective (ap (λ p. p.0) h)) b)
  add_apps-Built done (app ∷ apps) fem s {fem'} b h =
      let m = make_backend app.id app.app_backend s in
      let (fem₁, s₁, made, rest) = and_then-eq-ok (add_made compile sorting app fem m) _ h in
      subst (λ l. Built l fem') (append_assoc done (app ∷ []) apps)
        (add_apps-Built (done ++ app ∷ []) apps fem₁ s₁
          (add_app-Built done app fem s b (ap (λ p. p.0) made)) rest)

  -- When a configuration is accepted, the matchers hold each frontend of each application and
  -- nothing else, in three tiers, of which the one by path alone and each hostname's are ordered from
  -- the longest prefix to the shortest; and each handler is a backend that was made for its
  -- application.
  pub app_config-Built :
      (apps : List Application) (timestamp : ℕ) (s : S) {fem : FrontendMatchers R H} {s' : S}
      → app_config_to_handlers_and_matchers compile sorting make_backend apps timestamp s
        ≡ (ok fem, s')
      → Built apps fem
  unfolding app_config_to_handlers_and_matchers
  app_config-Built apps timestamp s h =
      add_apps-Built [] apps (new_frontend_matchers apps timestamp) s
        (record {
          held = [];
          represents = new_frontend_matchers-Represents compile match_string apps timestamp;
          complete = refl;
          made = tt;
        })
        h
