-- ===== src/Discovery/EventLog/Latest.antt =====
-- pkg/erdiscovery/ehdiscovery/ehdiscovery.go: the applications that a log of events leaves.
use mathlib.Core.List.Permᴰ
use edgerouter.Base.{
  Result, ℕ, ◌≡◌, refl, sym, ap, ◌∙◌, subst, Str, List, [], ◌∷◌, map, ok, and_then-eq-ok,
  ok-injective, ◌↔◌, inl, inr, none, some, Any, All, Any_imp, Any-map, Any-map_inv,
}
use edgerouter.Base.Sort.{SliceSort, IsSorted, Any-perm}
use edgerouter.Base.Dict.{Dict, lookup, insert, delete, lookup-insert, lookup-delete}
use edgerouter.Base.Dict.Keys.{
  HasUniqueKeys, insert-HasUniqueKeys, delete-HasUniqueKeys, lookup-some_iff, insert-All,
  delete-All,
}
use edgerouter.Config.{Application}
use edgerouter.Discovery.EventLog.{
  Event, app_updated, app_deleted, other_event, EhDiscovery, new_discovery, process_event,
  process_events, feed, id_lt, read_applications,
}
use edgerouter.Discovery.EventLog.Replay.{
  after_event, IsLatest, all_events, replay, replay-append, replay-IsLatest, replay-some,
}

-- The table has one entry for each key, and an application stands under its identity.
abbrev pub IsTable : Dict Application → Type 0
IsTable m = HasUniqueKeys m × All (λ e. e.1.id ≡ e.0) m

process_event-IsTable :
    (e : Event) (d d' : EhDiscovery) (u : Unit {0})
    → process_event e d ≡ (ok u, d')
    → IsTable d.apps
    → IsTable d'.apps × ((id : Str) → lookup id d'.apps ≡ after_event id e (lookup id d.apps))
unfolding process_event
process_event-IsTable (app_updated app) d d' u h t =
    let same : record d { apps = insert app.id app d.apps } ≡ d' = ap (λ p. p.1) h in
    subst
      (λ n.
        IsTable n.apps
        × ((id : Str) → lookup id n.apps ≡ after_event id (app_updated app) (lookup id d.apps)))
      same
      (
        (
          insert-HasUniqueKeys app.id app d.apps t.0,
          insert-All (λ e. e.1.id ≡ e.0) app.id app d.apps refl t.1,
        ),
        λ id. lookup-insert app.id id app d.apps,
      )
process_event-IsTable (app_deleted gone) d d' u h t =
    let same : record d { apps = delete gone d.apps } ≡ d' = ap (λ p. p.1) h in
    subst
      (λ n.
        IsTable n.apps
        × ((id : Str) → lookup id n.apps ≡ after_event id (app_deleted gone) (lookup id d.apps)))
      same
      (
        (delete-HasUniqueKeys gone d.apps t.0, delete-All (λ e. e.1.id ≡ e.0) gone d.apps t.1),
        λ id. lookup-delete gone id d.apps,
      )
process_event-IsTable (other_event meta_type) d d' u h t = cc

process_events-IsTable :
    (es : List Event) (c : ℕ) (d d' : EhDiscovery) (u : Unit {0})
    → process_events es c d ≡ (ok u, d')
    → IsTable d.apps
    → IsTable d'.apps × ((id : Str) → lookup id d'.apps ≡ replay id es (lookup id d.apps))
unfolding process_events
process_events-IsTable [] c d d' u h t =
    let same : record d { cursor = c } ≡ d' = ap (λ p. p.1) h in
    subst (λ n. IsTable n.apps × ((id : Str) → lookup id n.apps ≡ lookup id d.apps)) same
      (t, λ id. refl)
process_events-IsTable (e ∷ es) c d d'' u h t =
    let (v, d', first, rest) =
      and_then-eq-ok (process_event e d) (λ _ d'. process_events es c d') h in
    let (t', one) = process_event-IsTable e d d' v first t in
    let (t'', others) = process_events-IsTable es c d' d'' u rest t' in
    (t'', λ id. others id ∙ ap (replay id es) (one id))

feed-IsTable :
    (batches : List (List Event × ℕ)) (d d' : EhDiscovery) (u : Unit {0})
    → feed batches d ≡ (ok u, d')
    → IsTable d.apps
    → IsTable d'.apps
      × ((id : Str) → lookup id d'.apps ≡ replay id (all_events batches) (lookup id d.apps))
unfolding feed
feed-IsTable [] d d' u h t =
    let same : d ≡ d' = ap (λ p. p.1) h in
    subst (λ n. IsTable n.apps × ((id : Str) → lookup id n.apps ≡ lookup id d.apps)) same
      (t, λ id. refl)
feed-IsTable ((es, c) ∷ batches) d d'' u h t =
    let (v, d', first, rest) = and_then-eq-ok (process_events es c d) (λ _ d'. feed batches d') h in
    let (t', one) = process_events-IsTable es c d d' v first t in
    let (t'', others) = feed-IsTable batches d' d'' u rest t' in
    (
      t'',
      λ id.
          others id
          ∙ ap (replay id (all_events batches)) (one id)
          ∙ sym (replay-append id es (all_events batches) (lookup id d.apps)),
    )

-- An application of the list: it is the value of an entry under its identity.
listed_iff :
    (m : Dict Application) (app : Application)
    → IsTable m
    → Any (λ a. a ≡ app) (map (λ e. e.1) m) ↔ (lookup app.id m ≡ some app)
listed_iff m app t = (
  λ h.
      (lookup-some_iff app.id app m t.0).1
        (keyed m t.1 (Any-map_inv (λ (e : Str × Application). e.1) (λ a. a ≡ app) m h)),
  λ h.
      Any-map (λ (e : Str × Application). e.1) (λ a. a ≡ app) m
        (Any_imp (λ e. e ≡ (app.id, app)) (λ e. e.1 ≡ app) m (λ e p. ap (λ q. q.1) p)
          ((lookup-some_iff app.id app m t.0).0 h)),
)
  where
    keyed :
        (m : Dict Application)
        → All (λ e. e.1.id ≡ e.0) m
        → Any (λ e. e.1 ≡ app) m
        → Any (λ e. e ≡ (app.id, app)) m
    keyed [] t h = elim h [ ]
    keyed ((k, v) ∷ m) t (inl p) = inl (cc)
    keyed ((k, v) ∷ m) t (inr p) = inr (keyed m t.1 p)

-- Reading the applications from an empty state, when it succeeds and the reader keeps its contract
-- for these batches: the result is sorted by identity, and it holds exactly the applications whose
-- latest event, among all the batches, is the update that brought them.
pub read_applications-IsLatest :
    (sorting : SliceSort id_lt)
    (load_until_realtime : EhDiscovery → Result (Unit {0}) × EhDiscovery)
    (batches : List (List Event × ℕ)) (result : List Application) (d' : EhDiscovery)
    → load_until_realtime new_discovery ≡ feed batches new_discovery
    → read_applications sorting load_until_realtime new_discovery ≡ (ok result, d')
    → IsSorted id_lt result
      × ((app : Application) → Any (λ a. a ≡ app) result ↔ IsLatest app (all_events batches))
unfolding read_applications lookup
read_applications-IsLatest sorting load_until_realtime batches result d' contract h =
    let (u, d, loaded, sorted) =
      and_then-eq-ok (load_until_realtime new_discovery)
        (λ _ d'. (ok (sorting.sort (map (λ e. e.1) d'.apps)), d')) h in
    let (t, found) = feed-IsTable batches new_discovery d u (sym contract ∙ loaded) (tt, tt) in
    let listed : List Application = map (λ e. e.1) d.apps in
    let is : sorting.sort listed ≡ result = ok-injective (ap (λ p. p.0) sorted) in
    (
      subst (IsSorted id_lt) is (sorting.sort_sorted listed),
      λ app. (
        λ a. latest app batches (
            sym (found app.id)
            ∙ (listed_iff d.apps app t).0
                (Any-perm (λ a. a ≡ app) (sorting.sort_perm listed) (rw is a))),
        λ l. subst (Any (λ a. a ≡ app)) is (
            Any-perm (λ a. a ≡ app) (Permᴰ.symm (sorting.sort_perm listed))
              ((listed_iff d.apps app t).1
                (found app.id ∙ replay-IsLatest app (all_events batches) none l))),
      ),
    )
  where
    latest :
        (app : Application) (batches : List (List Event × ℕ))
        → replay app.id (all_events batches) none ≡ some app
        → IsLatest app (all_events batches)
    latest app batches r = elim (replay-some app (all_events batches) none r) [
      | inl l ↦ l
      | inr (n, away) ↦ cc
    ]
