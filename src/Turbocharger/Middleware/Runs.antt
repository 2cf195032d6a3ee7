-- ===== src/Turbocharger/Middleware/Runs.antt =====
-- pkg/turbocharger/middleware.go: what is served without the origin, in every run.
use edgerouter.Base.{
  ℕ, ◌≡◌, sym, subst, inl, Str, true, has_prefix, List, ◌∷◌, ◌++◌, Option, Result, All,
}
use edgerouter.Backends.Handlers.{Url}
use edgerouter.Turbocharger.Ids.{ObjectId, Encodings}
use edgerouter.Turbocharger.Header.{Subtree}
use edgerouter.Turbocharger.Middleware.{
  TcRequest, Discovered, Middleware, strip_prefix, serve_discovered, from_manifest,
}
use edgerouter.Turbocharger.Middleware.Traffic.{
  Traffic, start_traffic, with_header, Step, time_passed, arrives, turbocharged, passed, answered,
  not_advertised, compared_ended, ping_ended, Steps, done, next,
}
use edgerouter.Turbocharger.Middleware.Changes.{IsAdvertised, compare-Change, ping-Change}
use edgerouter.Turbocharger.Middleware.Laws.{serve_discovered-IsServedBy, serve_discovered-passed}
use edgerouter.Turbocharger.Middleware.Sound.{
  HasDistinctPings, remove-All, at-All, remove-HasDistinctPings, Knows, Known, IsSound,
  IsSound-weaken, Change-IsSound, turbocharged-IsSound, with_header-IsSound, start-IsSound,
}

module _ {Q : Type 0} (enc : Encodings) (url_string : Url → Str)
    (new_request : Str → Result Q) where
  abbrev IsGood : Traffic → Type 0
  IsGood w =
      IsSound enc url_string new_request w.middleware w.arrived w.compared w.pings w.advertised

  loads-at :
      (w : Traffic) (front back : List (Option Discovered × TcRequest)) (d : Option Discovered)
      (r : TcRequest)
      → w.arrived ≡ front ++ (d, r) ∷ back
      → IsGood w
      → Knows enc url_string new_request w.advertised w.middleware.next_serial d
        × IsSound enc url_string new_request w.middleware
            (front ++ back)
            w.compared
            w.pings
            w.advertised
  loads-at w front back d r e i =
      let loads =
        subst (Known enc url_string new_request w.advertised w.middleware.next_serial) e i.loads in
      (
        at-All _ front (d, r) back loads,
        record {
          known = i.known;
          loads = remove-All _ front (d, r) back loads;
          answers = i.answers;
          past = i.past;
          running = i.running;
          distinct = i.distinct;
        },
      )

  Step-IsGood : (v w : Traffic) → Step enc url_string new_request v w → IsGood v → IsGood w
  Step-IsGood v w (time_passed le) i = i
  Step-IsGood v w (arrives r) i = record {
    known = i.known;
    loads = (i.known, i.loads);
    answers = i.answers;
    past = i.past;
    running = i.running;
    distinct = i.distinct;
  }
  Step-IsGood v w (turbocharged front back d r id path ping {t = t} e h) i =
      let (knows, j) = loads-at v front back d r e i in
      turbocharged-IsSound enc url_string new_request d r v.now v.middleware t id path ping
        (front ++ back) v.compared v.pings v.advertised
        (serve_discovered-IsServedBy d r v.now v.middleware t id path ping h) knows j
  Step-IsGood v w (passed front back d r {t = t} e h) i =
      let (knows, j) = loads-at v front back d r e i in
      subst
        (λ u. IsSound enc url_string new_request u (front ++ back) v.compared v.pings v.advertised)
        (sym (serve_discovered-passed d r v.now v.middleware t h)) j
  Step-IsGood v w (answered front back r header s e given parsed) i =
      let j =
        IsSound-weaken enc url_string new_request v.middleware v.arrived v.compared v.pings
          v.advertised header i in
      record {
        known = j.known;
        loads = j.loads;
        answers = (inl parsed, j.answers);
        past = j.past;
        running = j.running;
        distinct = j.distinct;
      }
  Step-IsGood v w (not_advertised front back r header e why) i = i
  Step-IsGood v w (compared_ended front back c made u {t = t} e le h) i =
      let answers = subst (All _) e i.answers in
      Change-IsSound enc url_string new_request v.advertised v.middleware t v.arrived
        (front ++ back) v.pings
        (compare-Change enc url_string new_request c.subtree c.request made c.existing v.middleware
          t u v.advertised (at-All _ front c back answers) h)
        (record {
          known = i.known;
          loads = i.loads;
          answers = remove-All _ front c back answers;
          past = i.past;
          running = i.running;
          distinct = i.distinct;
        })
  Step-IsGood v w (ping_ended front back d r origin made {t = t} e le h) i =
      Change-IsSound enc url_string new_request
        (with_header enc url_string new_request (new_request d.ping_url) origin v.advertised)
        v.middleware t v.arrived v.compared (front ++ back)
        (ping-Change enc url_string new_request d origin r made v.middleware t v.advertised h)
        (with_header-IsSound enc url_string new_request (new_request d.ping_url) origin v.middleware
          v.arrived v.compared (front ++ back) v.advertised
          (record {
            known = i.known;
            loads = i.loads;
            answers = i.answers;
            past = i.past;
            running = remove-All _ front (d, r) back (subst (All _) e i.running);
            distinct =
                remove-HasDistinctPings front (d, r) back (subst HasDistinctPings e i.distinct);
          }))

  Steps-IsGood : (v w : Traffic) → Steps enc url_string new_request v w → IsGood v → IsGood w
  Steps-IsGood v w done i = i
  Steps-IsGood v w (next {w = u} step steps) i = Steps-IsGood u w steps (Step-IsGood v u step i)

  -- In every run from the start, however loads, stores and ping checks interleave: if a request, by
  -- the subtree that it loaded, is not passed to the origin, then the origin advertised, in an earlier
  -- answer, a prefix of its path together with the manifest that it is served from, and the path is
  -- served without that prefix. And no two ping checks that run at the same time are for the same
  -- discovered subtree.
  pub Steps-advertised :
      (now : ℕ) (w : Traffic)
      → Steps enc url_string new_request (start_traffic now) w
      → ((front back : List (Option Discovered × TcRequest)) (d : Option Discovered) (r : TcRequest)
            (id : ObjectId) (path : Option TcRequest) (ping : Option Discovered) (t : Middleware)
          → w.arrived ≡ front ++ (d, r) ∷ back
          → serve_discovered d r w.now w.middleware ≡ ((from_manifest id path, ping), t)
          → (s : Subtree) × IsAdvertised enc url_string new_request w.advertised s
            × (has_prefix r.path s.prefix ≡ true)
            × (id ≡ s.manifest_id)
            × (path ≡ strip_prefix s.prefix r))
        × HasDistinctPings w.pings
  Steps-advertised now w steps =
      let i = Steps-IsGood (start_traffic now) w steps (start-IsSound enc url_string new_request) in
      (
        λ front back d r id path ping t e h.
            let by = serve_discovered-IsServedBy d r w.now w.middleware t id path ping h in
            let knows =
              subst (Knows enc url_string new_request w.advertised w.middleware.next_serial)
                by.is_loaded (loads-at w front back d r e i).0 in
            (by.discovered.subtree_version, knows.0, by.below, by.manifest, by.stripped),
        i.distinct,
      )
