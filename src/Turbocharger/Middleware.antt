-- ===== src/Turbocharger/Middleware.antt =====
-- pkg/turbocharger/middleware.go: serving the subtree that an origin advertises without the origin.
-- Time is a number of nanoseconds. A discovered subtree has a serial number, which stands for its
-- address: `pinged` are the ones whose pingCheckOnce is used up.
pub mod Traffic
pub mod Changes
pub mod Laws
pub mod Sound
pub mod Runs
pub mod Refresh
use edgerouter.Base.{
  ℕ, suc, ◌+◌, Str, bytes, ◌==◌, has_prefix, drop, length, Bool, true, false, ◌&&◌, ◌||◌, not, List,
  [], ◌∷◌, ◌++◌, Option, none, some, Result, ok, err, panic, ◌≡◌, if◌then◌else◌, eqb, leb, ltb,
  and_then,
}
use edgerouter.Config.Validate.{is_empty}
use edgerouter.Backends.Handlers.{Url}
use edgerouter.Turbocharger.Ids.{ObjectId, Encodings}
use edgerouter.Turbocharger.Header.{Subtree, equal, header_value, parse_tc_header}

-- What is read of a request; `tls` says whether there is a TLS state.
pub record TcRequest : Type 0 where
  pub host : Str
  pub path : Str
  pub raw_path : Str
  pub tls : Bool

-- discoveredSubtree; its channel validUntil is closed at the time `valid_until`.
pub record Discovered : Type 0 where
  pub serial : ℕ
  pub subtree_version : Subtree
  pub ping_url : Str
  pub valid_until : ℕ

-- What the atomic value holds: nothing, the nil pointer, or a pointer to a subtree.
pub data Slot : Type 0 where
  never_stored stored_nil : Slot
  stored : Discovered → Slot

pub record Middleware : Type 0 where
  pub discovered : Slot
  pub next_serial : ℕ
  pub pinged : List ℕ

abbrev pub new_middleware : Middleware
new_middleware = record { discovered = never_stored; next_serial = 0; pinged = [] }

-- `discovered, _ := t.discovered.Load().(*discoveredSubtree)`
abbrev pub loaded : Slot → Option Discovered
loaded never_stored = none
loaded stored_nil = none
loaded (stored d) = some d

abbrev pub is_in : ℕ → List ℕ → Bool
is_in n [] = false
is_in n (k ∷ ks) = eqb k n || is_in n ks

-- http.StripPrefix, by the path and the raw path that the handler behind it sees: none where it
-- answers that nothing is found.
abbrev pub trim_prefix : Str → Str → Str
trim_prefix s prefix = if has_prefix s prefix then drop (length prefix) s else s

unfoldable pub strip_prefix : Str → TcRequest → Option TcRequest
strip_prefix prefix r =
    let p = trim_prefix r.path prefix in
    let rp = trim_prefix r.raw_path prefix in
    if is_empty prefix
    then some r
    else if ltb (length p) (length r.path)
        && (is_empty r.raw_path || ltb (length rp) (length r.raw_path))
    then some (record r { path = p; raw_path = rp })
    else none

unfoldable pub detach_turbocharger : Middleware → Middleware
detach_turbocharger t = record t { discovered = stored_nil }

abbrev pub validity_period : ℕ
validity_period = 5000000000

abbrev pub scheme_of : Bool → Str
scheme_of true = bytes "https"
scheme_of false = bytes "http"

-- What the request is handled by: the manifest handler, for the manifest and the path behind the
-- prefix, or the origin.
pub data Route : Type 0 where
  from_manifest : ObjectId → Option TcRequest → Route
  from_origin : Route

-- `url_string` is URL.String of net/url.
module _ (enc : Encodings) (url_string : Url → Str) where
  abbrev pub create_ping_url : TcRequest → Subtree → Str
  create_ping_url r subtree =
      url_string (record { scheme = scheme_of r.tls; host = r.host; path = subtree.prefix })

  unfoldable pub attach_discovered_subtree :
      Subtree → TcRequest → (now : ℕ) → Middleware → Discovered × Middleware
  attach_discovered_subtree subtree r now t =
      let discovered : Discovered = record {
        serial = t.next_serial;
        subtree_version = subtree;
        ping_url = create_ping_url r subtree;
        valid_until = now + validity_period;
      } in
      (discovered, record t { discovered = stored discovered; next_serial = suc t.next_serial })

  -- `existing, found := ...; found`: a nil pointer is found, and then dereferenced.
  abbrev pub compare_advertisement :
      Subtree → TcRequest → (now : ℕ) → Slot → Middleware → Result (Unit {0}) × Middleware
  compare_advertisement subtree r now never_stored t =
      (ok tt, (attach_discovered_subtree subtree r now t).1)
  compare_advertisement subtree r now stored_nil t = (panic, t)
  compare_advertisement subtree r now (stored existing) t =
      if equal existing.subtree_version subtree then (ok tt, t) else (ok tt, detach_turbocharger t)

  abbrev pub check_parsed :
      Result Subtree → TcRequest → (now : ℕ) → Middleware → Result (Unit {0}) × Middleware
  check_parsed (ok subtree) r now t = compare_advertisement subtree r now t.discovered t
  check_parsed (err message) r now t = (ok tt, t)
  check_parsed panic r now t = (panic, t)

  -- Without other goroutines between its two accesses; Traffic has these as steps.
  unfoldable pub check_for_turbocharger_advertisement :
      Str → TcRequest → (now : ℕ) → Middleware → Result (Unit {0}) × Middleware
  check_for_turbocharger_advertisement tc_header r now t =
      if is_empty tc_header
      then (ok tt, t)
      else check_parsed (parse_tc_header enc tc_header) r now t

-- Whether the call starts a ping check.
unfoldable pub validity_check_maybe_trigger_ping :
    Discovered → (now : ℕ) → Middleware → Bool × Middleware
validity_check_maybe_trigger_ping stale now t =
    if not (leb stale.valid_until now)
    then (false, t)
    else if is_in stale.serial t.pinged
    then (false, t)
    else (true, record t { pinged = stale.serial ∷ t.pinged })

abbrev pub serve_turbocharged :
    Discovered → TcRequest → Bool × Middleware → (Route × Option Discovered) × Middleware
serve_turbocharged discovered r (starts, t) = (
  (
    from_manifest discovered.subtree_version.manifest_id
        (strip_prefix discovered.subtree_version.prefix r),
    if starts then some discovered else none,
  ),
  t,
)

abbrev pub serve_discovered :
    Option Discovered
    → TcRequest
    → (now : ℕ) → Middleware
    → (Route × Option Discovered) × Middleware
serve_discovered none r now t = ((from_origin, none), t)
serve_discovered (some discovered) r now t =
    if has_prefix r.path discovered.subtree_version.prefix
    then serve_turbocharged discovered r (validity_check_maybe_trigger_ping discovered now t)
    else ((from_origin, none), t)

-- ServeHTTP up to the call of the handler, if no other goroutine comes between its accesses: how the request is handled, the subtree for which a ping
-- check starts, if any, and the state.
unfoldable pub serve_http :
    TcRequest → (now : ℕ) → Middleware → (Route × Option Discovered) × Middleware
serve_http r now t = serve_discovered (loaded t.discovered) r now t

-- What the origin answers to a ping: the status code, and the header.
pub record PingAnswer : Type 0 where
  pub code : ℕ
  pub tc_header : Str

-- `new_request` is http.NewRequest with the method HEAD.
module _ {Q : Type 0} (enc : Encodings) (url_string : Url → Str)
    (new_request : Str → Result Q) where
  abbrev pub reattach :
      Result Subtree → TcRequest → (now : ℕ) → Middleware → Result (Unit {0}) × Middleware
  reattach (ok subtree) r now t =
      (ok tt, (attach_discovered_subtree enc url_string subtree r now t).1)
  reattach (err message) r now t = (err message, t)
  reattach panic r now t = (panic, t)

  abbrev pub check_answer :
      PingAnswer → TcRequest → (now : ℕ) → Middleware → Result (Unit {0}) × Middleware
  check_answer response r now t =
      if not (eqb response.code 200)
      then (err (bytes "ping request failed"), t)
      else if is_empty response.tc_header
      then (err (bytes "turbocharger header went missing"), t)
      else reattach (parse_tc_header enc response.tc_header) r now t

  -- The origin does not change the middleware, so that the state is the one at the end of the call.
  unfoldable pub ping_check :
      Discovered
      → (Q → PingAnswer)
      → TcRequest
      → (now : ℕ) → Middleware
      → Result (Unit {0}) × Middleware
  ping_check stale origin r now t =
      and_then (new_request stale.ping_url, t) (λ ping t'. check_answer (origin ping) r now t')

  -- The goroutine around the ping check: on an error it detaches.
  abbrev pub after_ping : Result (Unit {0}) × Middleware → Result (Unit {0}) × Middleware
  after_ping (ok u, t) = (ok tt, t)
  after_ping (err message, t) = (ok tt, detach_turbocharger t)
  after_ping (panic, t) = (panic, t)

  unfoldable pub ping_and_detach :
      Discovered
      → (Q → PingAnswer)
      → TcRequest
      → (now : ℕ) → Middleware
      → Result (Unit {0}) × Middleware
  unfolding ping_check
  ping_and_detach stale origin r now t = after_ping (ping_check stale origin r now t)
