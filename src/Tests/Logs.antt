-- ===== src/Tests/Logs.antt =====
-- Runs of the readers in pkg/erdiscovery: the log of events, and readers in sequence.
use edgerouter.Base.{
  ℕ, suc, ◌≡◌, refl, ◌↔◌, Str, bytes, ◌==◌, true, false, List, [], ◌∷◌, ok, err, Any, arith,
}
use edgerouter.Base.Dict.{insert, delete}
use edgerouter.Base.Sort.{SliceSort, IsSorted, insertion, insertion_sort}
use edgerouter.Config.{Application}
use edgerouter.Discovery.EventLog.{
  Event, app_updated, app_deleted, other_event, EhDiscovery, new_discovery, str_lt, id_lt, feed,
  read_applications,
}
use edgerouter.Discovery.EventLog.Replay.{IsLatest, all_events}
use edgerouter.Discovery.EventLog.Latest.{read_applications-IsLatest}
use edgerouter.Discovery.Multi.{
  Reader, static_discovery, multi_discovery, Reads, Fails, concat, multi_discovery-Reads,
}
use edgerouter.Tests.Sample.{api_app, shop_app, admin_backend}

pub str_lt-asym : (s t : Str) → str_lt s t ≡ true → str_lt t s ≡ false
unfolding str_lt
str_lt-asym [] [] h = refl
str_lt-asym [] (d ∷ t) h = refl
str_lt-asym (c ∷ s) [] h = cc
str_lt-asym (c ∷ s) (d ∷ t) h = ground (arith, str_lt-asym s t)

pub str_lt-chain : (s t u : Str) → str_lt t s ≡ false → str_lt u t ≡ false → str_lt u s ≡ false
unfolding str_lt
str_lt-chain [] [] [] h k = refl
str_lt-chain [] [] (e ∷ u) h k = refl
str_lt-chain [] (d ∷ t) u h k = refl
str_lt-chain (c ∷ s) [] [] h k = cc
str_lt-chain (c ∷ s) [] (e ∷ u) h k = cc
str_lt-chain (c ∷ s) (d ∷ t) [] h k = cc
str_lt-chain (c ∷ s) (d ∷ t) (e ∷ u) h k = ground (arith, str_lt-chain s t u)

abbrev sort_apps : SliceSort id_lt
sort_apps = insertion id_lt (λ a b. str_lt-asym a.id b.id) (λ a b c. str_lt-chain a.id b.id c.id)

-- The shop is put, replaced and put again; a third application comes and goes.
abbrev gone_app : Application
gone_app = record { id = bytes "gone"; frontends = []; app_backend = admin_backend }

abbrev old_shop : Application
old_shop = record { id = bytes "shop"; frontends = []; app_backend = admin_backend }

abbrev batches : List (List Event × ℕ)
batches =
    (app_updated old_shop ∷ app_updated gone_app ∷ [], 2)
    ∷ (app_deleted (bytes "gone") ∷ app_updated api_app ∷ app_updated shop_app ∷ [], 5)
    ∷ []

abbrev after_batches : EhDiscovery
after_batches = record { cursor = 5; apps = (bytes "shop", shop_app) ∷ (bytes "api", api_app) ∷ [] }

batches_read :
    read_applications sort_apps (feed batches) new_discovery
    ≡ (ok (api_app ∷ shop_app ∷ []), after_batches)
unfolding read_applications feed edgerouter.Discovery.EventLog.process_events
    edgerouter.Discovery.EventLog.process_event insertion_sort insert delete ◌==◌ bytes str_lt
batches_read = refl

read_applications-IsLatest_example :
    IsSorted id_lt (api_app ∷ shop_app ∷ [])
    × ((app : Application)
        → Any (λ a. a ≡ app) (api_app ∷ shop_app ∷ []) ↔ IsLatest app (all_events batches))
read_applications-IsLatest_example =
    read_applications-IsLatest sort_apps (feed batches) batches (api_app ∷ shop_app ∷ [])
      after_batches refl batches_read

-- A reader that counts its calls, and one that fails.
abbrev counting : Reader ℕ
counting n = (ok (api_app ∷ []), suc n)

abbrev failing : Reader ℕ
failing n = (err (bytes "unreachable"), suc n)

both_merged :
    multi_discovery (counting ∷ static_discovery (shop_app ∷ []) ∷ []) 0
    ≡ (ok (api_app ∷ shop_app ∷ []), 1)
unfolding multi_discovery static_discovery
both_merged = refl

first_error :
    multi_discovery (counting ∷ failing ∷ counting ∷ []) 0 ≡ (err (bytes "unreachable"), 2)
unfolding multi_discovery
first_error = refl

multi_discovery-Reads_example :
    ((apps : List Application)
      → (multi_discovery (counting ∷ failing ∷ []) 0 ≡ (ok apps, 2)) ↔ (
          (parts : List (List Application)) × Reads (counting ∷ failing ∷ []) 0 parts 2
          × (apps ≡ concat parts)))
    × ((message : Str)
        → Fails (counting ∷ failing ∷ []) 0 message 2
        → multi_discovery (counting ∷ failing ∷ []) 0 ≡ (err message, 2))
multi_discovery-Reads_example = multi_discovery-Reads (counting ∷ failing ∷ []) 0 2
