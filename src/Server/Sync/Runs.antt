-- ===== src/Server/Sync/Runs.antt =====
-- pkg/erserver/serve.go and schedulersyncer.go: which configuration serves requests, in every run.
use edgerouter.Base.{
  ℕ, ◌≤◌, ◌≡◌, refl, sym, ap, ◌∙◌, subst, Str, bytes, List, Option, none, some, Result, ok, err,
  panic, arith, and_then-eq-ok, ◌⊎◌, inl, inr,
}
use edgerouter.Base.Sort.{SliceSort}
use edgerouter.Config.{Backend, Application}
use edgerouter.Discovery.Multi.{Reader}
use edgerouter.Server.Mounts.{FrontendMatchers, longer, app_config_to_handlers_and_matchers}
use edgerouter.Server.Mounts.Stamp.{app_config-stamp}
use edgerouter.Server.Sync.{
  in_context, with_metrics, Running, sync_apps_from_discovery, Step, tick_sent, tick_blocked,
  tick_failed, taken, Steps, done, next,
}

in_context-eq-ok :
    {A S : Type 0} (context : Str) (r : Result A × S) {a : A} {s : S}
    → in_context context r ≡ (ok a, s)
    → r ≡ (ok a, s)
in_context-eq-ok context (ok b, t) h = h
in_context-eq-ok context (err e, t) h = let p = ap (λ q. q.0) h in cc
in_context-eq-ok context (panic, t) h = let p = ap (λ q. q.0) h in cc

module _ {R H S : Type 0} (compile : Str → Result R) (sorting : SliceSort (longer {H = H}))
    (make_backend : Str → Backend → S → Result H × S) (metrics_endpoint : Str)
    (read_applications : Reader S) where
  -- The configuration that a synchronization at this time makes of what the discovery then reads.
  abbrev pub IsSynced : FrontendMatchers R H → Type 0
  IsSynced config =
      (s s' s'' : S) × (apps : List Application) × (read_applications s ≡ (ok apps, s'))
      × (app_config_to_handlers_and_matchers compile sorting make_backend
            (with_metrics metrics_endpoint apps) config.timestamp s'
          ≡ (ok config, s''))

  abbrev IsHeld : ℕ → ℕ → Option (FrontendMatchers R H) → Type 0
  IsHeld from now none = Unit
  IsHeld from now (some config) =
      (from ≤ config.timestamp) × (config.timestamp ≤ now) × IsSynced config

  abbrev IsOrdered : Running R H S → Type 0
  IsOrdered running =
      (running.current.timestamp ≤ running.now)
      × IsHeld running.current.timestamp running.now running.updated

  sync-IsSynced :
      (now : ℕ) (s s' : S) (config : FrontendMatchers R H)
      → sync_apps_from_discovery compile sorting make_backend metrics_endpoint read_applications now
          s
        ≡ (ok config, s')
      → (config.timestamp ≡ now) × IsSynced config
  unfolding sync_apps_from_discovery
  sync-IsSynced now s s'' config h =
      let (apps, s', r, rest) =
        and_then-eq-ok (in_context (bytes "ReadApplications") (read_applications s)) _ h in
      let read = in_context-eq-ok (bytes "ReadApplications") (read_applications s) r in
      let made = in_context-eq-ok (bytes "appConfigToHandlersAndMatchers") _ rest in
      let at =
        app_config-stamp compile sorting make_backend (with_metrics metrics_endpoint apps) now
          config s' s'' made in
      (
        at,
        (
          s,
          s',
          s'',
          apps,
          read,
          subst
              (λ t.
                app_config_to_handlers_and_matchers compile sorting make_backend
                  (with_metrics metrics_endpoint apps) t s'
                ≡ (ok config, s''))
              (sym at) made,
        ),
      )

  IsHeld-later :
      (from now later : ℕ) (held : Option (FrontendMatchers R H))
      → now ≤ later
      → IsHeld from now held
      → IsHeld from later held
  IsHeld-later from now later none le h = tt
  IsHeld-later from now later (some config) le (a, b, made) = (a, omega arith, made)

  -- One step keeps the order, never replaces the configuration by one from before it, and replaces
  -- it only by a configuration that a synchronization made.
  Step-IsOrdered :
      (a b : Running R H S)
      → Step compile sorting make_backend metrics_endpoint read_applications a b
      → IsOrdered a
      → IsOrdered b
        × (a.current.timestamp ≤ b.current.timestamp)
        × ((b.current ≡ a.current) ⊎ IsSynced b.current)
  Step-IsOrdered a b (tick_sent {now = now} {config = config} {s = s} le h e) (o, held) =
      let (at, made) = sync-IsSynced now a.shared s config h in
      let at' : config.timestamp ≡ now = at in
      let o' : a.current.timestamp ≤ a.now = o in
      let le' : a.now ≤ now = le in
      ((omega arith, (omega arith, omega arith, made)), omega arith, inl refl)
  Step-IsOrdered a b (tick_blocked {now = now} le h e) (o, held) =
      let le' : a.now ≤ now = le in
      (
        (omega arith, IsHeld-later a.current.timestamp a.now now a.updated le held),
        omega arith,
        inl refl,
      )
  Step-IsOrdered a b (tick_failed {now = now} le h) (o, held) =
      let le' : a.now ≤ now = le in
      (
        (omega arith, IsHeld-later a.current.timestamp a.now now a.updated le held),
        omega arith,
        inl refl,
      )
  Step-IsOrdered a b (taken {config = config} e) (o, held) =
      let (p, q, made) = subst (IsHeld a.current.timestamp a.now) e held in ((q, tt), p, inr made)

  Steps-IsOrdered :
      (a b : Running R H S)
      → Steps compile sorting make_backend metrics_endpoint read_applications a b
      → IsOrdered a
      → IsOrdered b
        × (a.current.timestamp ≤ b.current.timestamp)
        × ((b.current ≡ a.current) ⊎ IsSynced b.current)
  Steps-IsOrdered a b done o = (o, omega arith, inl refl)
  Steps-IsOrdered a c (next {b = b} step steps) o =
      let (o₁, le₁, from₁) = Step-IsOrdered a b step o in
      let (o₂, le₂, from₂) = Steps-IsOrdered b c steps o₁ in
      (
        o₂,
        omega arith,
        elim from₂ [
          | inl same ↦ elim from₁ [
            | inl first ↦ inl (same ∙ first)
            | inr made ↦ inr (subst IsSynced (sym same) made)
          ]
          | inr made ↦ inr made
        ],
      )

  -- In every run from a start with an empty channel and a configuration that is not from the future,
  -- the configuration that serves requests is the one of the start or one that a synchronization
  -- made of what the discovery then read; and from any point of the run to a later one it is never
  -- replaced by one that is stamped with an earlier time.
  pub Steps-IsSynced :
      (start a b : Running R H S)
      → start.updated ≡ none
      → start.current.timestamp ≤ start.now
      → Steps compile sorting make_backend metrics_endpoint read_applications start a
      → Steps compile sorting make_backend metrics_endpoint read_applications a b
      → ((b.current ≡ start.current) ⊎ IsSynced b.current)
        × (a.current.timestamp ≤ b.current.timestamp)
  Steps-IsSynced start a b empty le before after =
      let o : IsOrdered start = (le, rw empty tt) in
      let (o₁, le₁, from₁) = Steps-IsOrdered start a before o in
      let (o₂, le₂, from₂) = Steps-IsOrdered a b after o₁ in
      (
        elim from₂ [
          | inl same ↦ elim from₁ [
            | inl first ↦ inl (same ∙ first)
            | inr made ↦ inr (subst IsSynced (sym same) made)
          ]
          | inr made ↦ inr made
        ],
        le₂,
      )
