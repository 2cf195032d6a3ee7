-- ===== src/Turbocharger/Middleware/Traffic.antt =====
-- pkg/turbocharger/middleware.go: all goroutines together, as a step relation. Every access to the
-- atomic value or to a pingCheckOnce is a step of its own, and between two of them any time may pass
-- and any others may come: a request loads the subtree in one step and is handled by what it loaded in
-- a later one, and an answer is compared with the subtree that it loaded in an earlier one. (That a
-- subtree is found to be no longer valid needs no step of its own, since it stays so.)
use edgerouter.Base.{
  ℕ, ◌≤◌, Str, true, false, List, [], ◌∷◌, ◌++◌, Option, none, some, Result, ok, panic, ◌≡◌, ◌≢◌,
  ◌⊎◌, err,
}
use edgerouter.Config.Validate.{is_empty}
use edgerouter.Backends.Handlers.{Url}
use edgerouter.Turbocharger.Ids.{ObjectId, Encodings}
use edgerouter.Turbocharger.Header.{Subtree, parse_tc_header}
use edgerouter.Turbocharger.Middleware.{
  TcRequest, Discovered, Slot, loaded, Middleware, new_middleware, from_manifest, from_origin,
  serve_discovered, compare_advertisement, PingAnswer, ping_and_detach,
}

-- The header of an answer, as a subtree, and what its goroutine loaded to compare it with.
pub record Compared : Type 0 where
  pub existing : Slot
  pub subtree : Subtree
  pub request : TcRequest

-- The middleware, the requests with the subtree that each loaded, the requests that the origin
-- answers, the answers that are compared, the ping checks that run, each with the request that
-- started it, and the headers that came from the origin.
pub record Traffic : Type 0 where
  pub middleware : Middleware
  pub now : ℕ
  pub arrived : List (Option Discovered × TcRequest)
  pub at_origin : List TcRequest
  pub compared : List Compared
  pub pings : List (Discovered × TcRequest)
  pub advertised : List Str

abbrev pub start_traffic : ℕ → Traffic
start_traffic now = record {
  middleware = new_middleware;
  now = now;
  arrived = [];
  at_origin = [];
  compared = [];
  pings = [];
  advertised = [];
}

abbrev pub with_ping :
    Option Discovered → TcRequest → List (Discovered × TcRequest) → List (Discovered × TcRequest)
with_ping none r pings = pings
with_ping (some d) r pings = (d, r) ∷ pings

module _ {Q : Type 0} (enc : Encodings) (url_string : Url → Str)
    (new_request : Str → Result Q) where
  -- The header that a ping gets, if it is sent.
  abbrev pub with_header : Result Q → (Q → PingAnswer) → List Str → List Str
  with_header (ok ping) origin advertised = (origin ping).tc_header ∷ advertised
  with_header (err message) origin advertised = advertised
  with_header panic origin advertised = advertised

  -- A ping check that panics ends the process, so that there is no step for it; a request that
  -- panics only ends. A subtree that is attached may have been made some time before.
  pub data Step : Traffic → Traffic → Type 0 where
    time_passed : {w : Traffic} {now : ℕ} → w.now ≤ now → Step w (record w { now = now })
    arrives :
        {w : Traffic} (r : TcRequest)
        → Step w (record w { arrived = (loaded w.middleware.discovered, r) ∷ w.arrived })
    turbocharged :
        {w : Traffic} (front back : List (Option Discovered × TcRequest)) (d : Option Discovered)
        (r : TcRequest) (id : ObjectId) (path : Option TcRequest) (ping : Option Discovered)
        {t : Middleware}
        → w.arrived ≡ front ++ (d, r) ∷ back
        → serve_discovered d r w.now w.middleware ≡ ((from_manifest id path, ping), t)
        → Step w
            (record w { middleware = t; arrived = front ++ back; pings = with_ping ping r w.pings })
    passed :
        {w : Traffic} (front back : List (Option Discovered × TcRequest)) (d : Option Discovered)
        (r : TcRequest) {t : Middleware}
        → w.arrived ≡ front ++ (d, r) ∷ back
        → serve_discovered d r w.now w.middleware ≡ ((from_origin, none), t)
        → Step w (record w { middleware = t; arrived = front ++ back; at_origin = r ∷ w.at_origin })
    answered :
        {w : Traffic} (front back : List TcRequest) (r : TcRequest) (header : Str) (s : Subtree)
        → w.at_origin ≡ front ++ r ∷ back
        → is_empty header ≡ false
        → parse_tc_header enc header ≡ ok s
        → Step w (record w {
          at_origin = front ++ back;
          compared =
              record { existing = w.middleware.discovered; subtree = s; request = r } ∷ w.compared;
          advertised = header ∷ w.advertised;
        })
    not_advertised :
        {w : Traffic} (front back : List TcRequest) (r : TcRequest) (header : Str)
        → w.at_origin ≡ front ++ r ∷ back
        → (is_empty header ≡ true) ⊎ ((s : Subtree) → parse_tc_header enc header ≢ ok s)
        → Step w (record w { at_origin = front ++ back })
    compared_ended :
        {w : Traffic} (front back : List Compared) (c : Compared) (made : ℕ) (u : Result (Unit {0}))
        {t : Middleware}
        → w.compared ≡ front ++ c ∷ back
        → made ≤ w.now
        → compare_advertisement enc url_string c.subtree c.request made c.existing w.middleware
          ≡ (u, t)
        → Step w (record w { middleware = t; compared = front ++ back })
    ping_ended :
        {w : Traffic} (front back : List (Discovered × TcRequest)) (d : Discovered) (r : TcRequest)
        (origin : Q → PingAnswer) (made : ℕ) {t : Middleware}
        → w.pings ≡ front ++ (d, r) ∷ back
        → made ≤ w.now
        → ping_and_detach enc url_string new_request d origin r made w.middleware ≡ (ok tt, t)
        → Step w (record w {
          middleware = t;
          pings = front ++ back;
          advertised = with_header (new_request d.ping_url) origin w.advertised;
        })

  pub data Steps : Traffic → Traffic → Type 0 where
    done : {w : Traffic} → Steps w w
    next : {v w x : Traffic} → Step v w → Steps w x → Steps v x
