-- ===== src/Discovery/EventLog.antt =====
-- pkg/erdiscovery/ehdiscovery/ehdiscovery.go with pkg/erdomain/events.go: the configuration as what
-- a log of events leaves. The log's client and reader are not in the repository: a load is the list
-- of batches that the reader hands over, each with the cursor behind it. The events' metadata, which
-- nothing reads, is left out.
pub mod Replay
pub mod Latest
use edgerouter.Base.{
  ℕ, Str, bytes, ◌==◌, Bool, true, false, List, [], ◌∷◌, ◌++◌, map, Result, ok, err, panic,
  and_then, eqb, ltb, ◌||◌, ◌&&◌, if◌then◌else◌,
}
use edgerouter.Base.Dict.{Dict, insert, delete}
use edgerouter.Base.Sort.{SliceSort}
use edgerouter.Config.{Application}

pub data Event : Type 0 where
  app_updated : Application → Event
  app_deleted : (id : Str) → Event
  other_event : (meta_type : Str) → Event

pub record EhDiscovery : Type 0 where
  pub cursor : ℕ
  pub apps : Dict Application

abbrev pub new_discovery : EhDiscovery
new_discovery = record { cursor = 0; apps = [] }

unfoldable pub process_event : Event → EhDiscovery → Result (Unit {0}) × EhDiscovery
process_event (app_updated app) d = (ok tt, record d { apps = insert app.id app d.apps })
process_event (app_deleted id) d = (ok tt, record d { apps = delete id d.apps })
process_event (other_event meta_type) d = (err (bytes "unsupported event type: " ++ meta_type), d)

-- A batch: its events one after the other, and then the commit of the cursor. What was processed
-- before an error stays.
unfoldable pub process_events : List Event → ℕ → EhDiscovery → Result (Unit {0}) × EhDiscovery
process_events [] commit_cursor d = (ok tt, record d { cursor = commit_cursor })
process_events (e ∷ es) commit_cursor d =
    and_then (process_event e d) (λ _ d'. process_events es commit_cursor d')

-- The contract of the log's reader, as far as it concerns the discovery: loading hands over the
-- batches of events that are new, one after the other, until one of them fails.
unfoldable pub feed : List (List Event × ℕ) → EhDiscovery → Result (Unit {0}) × EhDiscovery
feed [] d = (ok tt, d)
feed ((es, commit_cursor) ∷ batches) d =
    and_then (process_events es commit_cursor d) (λ _ d'. feed batches d')

-- `<` on strings: byte by byte.
unfoldable pub str_lt : Str → Str → Bool
str_lt s [] = false
str_lt [] (d ∷ t) = true
str_lt (c ∷ s) (d ∷ t) = ltb c d || (eqb c d && str_lt s t)

abbrev pub id_lt : Application → Application → Bool
id_lt a b = str_lt a.id b.id

-- `load_until_realtime` is the reader's method.
unfoldable pub read_applications :
    SliceSort id_lt
    → (load_until_realtime : EhDiscovery → Result (Unit {0}) × EhDiscovery) → EhDiscovery
    → Result (List Application) × EhDiscovery
read_applications sorting load_until_realtime d =
    and_then (load_until_realtime d) (λ _ d'. (ok (sorting.sort (map (λ e. e.1) d'.apps)), d'))
