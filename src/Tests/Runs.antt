-- ===== src/Tests/Runs.antt =====
-- A run of the synchronization in pkg/erserver/serve.go and schedulersyncer.go.
use edgerouter.Base.{◌≡◌, ◌≤◌, refl, ◌⊎◌, Str, [], none, some, ok, arith}
use edgerouter.Discovery.Multi.{Reader, static_discovery}
use edgerouter.Server.Mounts.{new_frontend_matchers, app_config_to_handlers_and_matchers}
use edgerouter.Server.Sync.{
  Running, new_atomic_config, sync_apps_from_discovery, Step, tick_sent, taken, done, next,
}
use edgerouter.Server.Sync.Runs.{IsSynced, Steps-IsSynced}
use edgerouter.Tests.Sample.{compile_literal, sort_mounts, make_named, two_apps, matchers}

abbrev reader : Reader (Unit {0})
reader = static_discovery two_apps

abbrev start : Running Str Str (Unit {0})
start = record { current = new_atomic_config 0; updated = none; now = 1; shared = tt }

abbrev sent : Running Str Str (Unit {0})
sent = record { current = new_atomic_config 0; updated = some matchers; now = 7; shared = tt }

abbrev synced : Running Str Str (Unit {0})
synced = record { current = matchers; updated = none; now = 7; shared = tt }

sync_ok :
    sync_apps_from_discovery compile_literal sort_mounts make_named [] reader 7 tt
    ≡ (ok matchers, tt)
unfolding sync_apps_from_discovery static_discovery app_config_to_handlers_and_matchers
sync_ok = refl

first_tick : Step compile_literal sort_mounts make_named [] reader start sent
first_tick = tick_sent (omega arith) sync_ok refl

first_taken : Step compile_literal sort_mounts make_named [] reader sent synced
first_taken = taken refl

Steps-IsSynced_example :
    ((matchers ≡ new_atomic_config 0)
      ⊎ IsSynced compile_literal sort_mounts make_named [] reader matchers)
    × (0 ≤ 7)
unfolding new_frontend_matchers app_config_to_handlers_and_matchers
Steps-IsSynced_example =
    Steps-IsSynced compile_literal sort_mounts make_named [] reader start sent synced refl
      (omega arith) (next first_tick done) (next first_taken done)
