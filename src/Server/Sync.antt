-- ===== src/Server/Sync.antt =====
-- pkg/erserver/serve.go and schedulersyncer.go: how the configuration that serves requests follows
-- the discovery. The reader and the making of backends share the state `S`.
pub mod Runs
use edgerouter.Base.{
  ℕ, ◌≤◌, ◌≡◌, Str, bytes, List, [], ◌∷◌, ◌++◌, Option, none, some, Result, ok, err, panic, wrap,
  and_then, if◌then◌else◌,
}
use edgerouter.Base.Sort.{SliceSort}
use edgerouter.Config.{Backend, Application}
use edgerouter.Config.Options.{allow_insecure_http}
use edgerouter.Config.Factories.{simple_application, path_prefix_frontend, prom_metrics_backend}
use edgerouter.Config.Validate.{is_empty}
use edgerouter.Discovery.Multi.{Reader}
use edgerouter.Server.Mounts.{
  Mount, FrontendMatchers, new_frontend_matchers, longer, app_config_to_handlers_and_matchers,
}

-- The wrapping of an error, where what the call changed stays.
abbrev pub in_context : {A S : Type 0} → Str → Result A × S → Result A × S
in_context context (r, s) = (wrap (λ e. context ++ (bytes ": " ++ e)) r, s)

-- The application that METRICS_ENDPOINT adds.
unfoldable pub prom_application : Str → Application
prom_application metrics_endpoint =
    simple_application (bytes "prom-metrics")
      (path_prefix_frontend metrics_endpoint (allow_insecure_http ∷ [])) prom_metrics_backend

abbrev pub with_metrics : Str → List Application → List Application
with_metrics metrics_endpoint apps =
    if is_empty metrics_endpoint then apps else apps ++ prom_application metrics_endpoint ∷ []

-- newAtomicConfig: an empty configuration from the year 2000.
abbrev pub new_atomic_config : {R H : Type 0} → ℕ → FrontendMatchers R H
new_atomic_config year2000 = new_frontend_matchers [] year2000

-- The configuration that requests are served with, what the channel `configUpdated` of capacity one
-- holds, the clock, and the shared state.
pub record Running (R H S : Type 0) : Type 0 where
  pub current : FrontendMatchers R H
  pub updated : Option (FrontendMatchers R H)
  pub now : ℕ
  pub shared : S

module _ {R H S : Type 0} (compile : Str → Result R) (sorting : SliceSort (longer {H = H}))
    (make_backend : Str → Backend → S → Result H × S) (metrics_endpoint : Str)
    (read_applications : Reader S) where
  unfoldable pub sync_apps_from_discovery : ℕ → S → Result (FrontendMatchers R H) × S
  sync_apps_from_discovery now s =
      and_then (in_context (bytes "ReadApplications") (read_applications s)) (λ apps s'.
        in_context (bytes "appConfigToHandlersAndMatchers") (
          app_config_to_handlers_and_matchers compile sorting make_backend
            (with_metrics metrics_endpoint apps) now s'))

  -- The start of Serve: the initial synchronization, whose failure is not fatal.
  abbrev pub Initial : ℕ → ℕ → Result (FrontendMatchers R H) × S → Running R H S → Type 0
  Initial year2000 now (ok config, s) running =
      running ≡ record { current = config; updated = none; now = now; shared = s }
  Initial year2000 now (err e, s) running =
      running
      ≡ record { current = new_atomic_config year2000; updated = none; now = now; shared = s }
  Initial year2000 now (panic, s) running = ⊥

  -- One step of the two tasks: a tick of scheduledSync, whose result goes into the channel unless the
  -- channel is full, and the main loop's taking of what the channel holds.
  pub data Step : Running R H S → Running R H S → Type 0 where
    tick_sent :
        {running : Running R H S} {now : ℕ} {config : FrontendMatchers R H} {s : S}
        → running.now ≤ now
        → sync_apps_from_discovery now running.shared ≡ (ok config, s)
        → running.updated ≡ none
        → Step running (record running { updated = some config; now = now; shared = s })
    tick_blocked :
        {running : Running R H S} {now : ℕ} {config held : FrontendMatchers R H} {s : S}
        → running.now ≤ now
        → sync_apps_from_discovery now running.shared ≡ (ok config, s)
        → running.updated ≡ some held
        → Step running (record running { now = now; shared = s })
    tick_failed :
        {running : Running R H S} {now : ℕ} {message : Str} {s : S}
        → running.now ≤ now
        → sync_apps_from_discovery now running.shared ≡ (err message, s)
        → Step running (record running { now = now; shared = s })
    taken :
        {running : Running R H S} {config : FrontendMatchers R H}
        → running.updated ≡ some config
        → Step running (record running { current = config; updated = none })

  pub data Steps : Running R H S → Running R H S → Type 0 where
    done : {running : Running R H S} → Steps running running
    next : {a b c : Running R H S} → Step a b → Steps b c → Steps a c
