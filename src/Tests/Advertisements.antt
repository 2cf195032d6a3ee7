-- ===== src/Tests/Advertisements.antt =====
-- Runs of pkg/turbocharger/types.go and middleware.go.
use edgerouter.Base.{
  ℕ, suc, ◌<◌, ◌+◌, ◌≡◌, ◌↔◌, ◌⊎◌, refl, Str, bytes, has_prefix, split, true, false, List, [], ◌∷◌,
  ◌++◌, Option, none, some, Result, ok, panic, length, All, HasNone, arith,
}
use edgerouter.Config.Validate.{is_empty}
use edgerouter.Backends.Handlers.{Url}
use edgerouter.Turbocharger.Ids.{
  ObjectId, id_size, id_string, marshal_json, unmarshal_json, object_id_from_string,
}
use edgerouter.Turbocharger.Ids.RoundTrip.{IsObjectId, id_string-unmarshal}
use edgerouter.Turbocharger.Header.{
  Subtree, header_value, parse_tc_header, parse_tc_header-header_value,
}
use edgerouter.Turbocharger.Middleware.{
  TcRequest, Discovered, Middleware, new_middleware, never_stored, stored, stored_nil, strip_prefix,
  serve_discovered, compare_advertisement, from_manifest, from_origin, serve_http,
  check_for_turbocharger_advertisement, attach_discovered_subtree,
  validity_check_maybe_trigger_ping, PingAnswer, ping_and_detach, validity_period,
}
use edgerouter.Turbocharger.Middleware.Traffic.{
  Traffic, start_traffic, Step, arrives, passed, answered, compared_ended, done, next,
}
use edgerouter.Turbocharger.Middleware.Changes.{IsAdvertised}
use edgerouter.Turbocharger.Middleware.Sound.{HasDistinctPings}
use edgerouter.Turbocharger.Middleware.Runs.{Steps-advertised}
use edgerouter.Turbocharger.Middleware.Refresh.{IsRenewal, serve_http-renews, Steps-detached}
use edgerouter.Tests.Base64.{raw_url, raw_url-IsFaithful, encode, decode_all, without_last}

abbrev zeros : ℕ → Str
zeros ℕ.zero = []
zeros (suc n) = 0 ∷ zeros n

abbrev pub first_id : ObjectId
first_id = 7 ∷ zeros 31

abbrev pub second_id : ObjectId
second_id = 255 ∷ zeros 31

pub first_id-IsObjectId : IsObjectId first_id
first_id-IsObjectId = (refl, (omega arith, zeros-small 31))
  where
    zeros-small : (n : ℕ) → All (λ b. b < 256) (zeros n)
    zeros-small ℕ.zero = tt
    zeros-small (suc n) = (omega arith, zeros-small n)

id_string-unmarshal_example :
    (object_id_from_string raw_url (id_string raw_url first_id) ≡ ok first_id)
    × (unmarshal_json raw_url (marshal_json raw_url first_id) ≡ ok first_id)
    × ((s : Str) (other : ObjectId)
        → (object_id_from_string raw_url s ≡ ok other) ⊎ (unmarshal_json raw_url s ≡ ok other)
        → length other ≡ id_size)
id_string-unmarshal_example =
    id_string-unmarshal raw_url first_id raw_url-IsFaithful first_id-IsObjectId

parse_tc_header-header_value_example :
    ((t : Subtree)
      → HasNone b' ' t.prefix
      → IsObjectId t.manifest_id
      → parse_tc_header raw_url (header_value raw_url t) ≡ ok t)
    × ((s : Str) → (parse_tc_header raw_url s ≡ panic) ↔ HasNone b' ' s)
parse_tc_header-header_value_example = parse_tc_header-header_value raw_url raw_url-IsFaithful

abbrev show_url : Url → Str
show_url url = url.scheme ++ (bytes "://" ++ (url.host ++ url.path))

abbrev same_request : Str → Result Str
same_request url = ok url

abbrev static : Subtree
static = record { prefix = bytes "/static"; manifest_id = first_id }

abbrev newer_static : Subtree
newer_static = record { prefix = bytes "/static"; manifest_id = second_id }

abbrev script : TcRequest
script = record { host = bytes "a.fi"; path = bytes "/static/a.js"; raw_path = []; tls = true }

abbrev known_static : Discovered
known_static = record {
  serial = 0;
  subtree_version = static;
  ping_url = bytes "https://a.fi/static";
  valid_until = 5000000000;
}

abbrev attached : Middleware
attached = record { discovered = stored known_static; next_serial = 1; pinged = [] }

abbrev static_header : Str
static_header = header_value raw_url static

header_text :
    header_value raw_url static ≡ bytes "/static BwAAAAAAAAAAAAAAAAAAAAAAAAAAAAAAAAAAAAAAAAA"
unfolding bytes header_value encode
header_text = refl

parsed_static : parse_tc_header raw_url (header_value raw_url static) ≡ ok static
unfolding parse_tc_header split header_value bytes encode object_id_from_string decode_all
    without_last
parsed_static = refl

at_start : serve_http script 0 new_middleware ≡ ((from_origin, none), new_middleware)
unfolding serve_http
at_start = refl

header_given : is_empty static_header ≡ false
unfolding bytes header_value encode
header_given = refl

first_compared :
    compare_advertisement raw_url show_url static script 0 never_stored new_middleware
    ≡ (ok tt, attached)
unfolding bytes attach_discovered_subtree
first_compared = refl

after_answer :
    check_for_turbocharger_advertisement raw_url show_url
      (header_value raw_url static)
      script
      0
      new_middleware
    ≡ (ok tt, attached)
unfolding check_for_turbocharger_advertisement header_value bytes parse_tc_header split encode
    object_id_from_string decode_all without_last attach_discovered_subtree
after_answer = refl

-- The request arrives, goes to the origin and is answered; while the answer is compared, a second
-- request arrives, and a third one after the subtree was attached.
abbrev asked : Traffic
asked = record (start_traffic 0) { arrived = (none, script) ∷ [] }

abbrev asked_origin : Traffic
asked_origin = record (start_traffic 0) { at_origin = script ∷ [] }

abbrev comparing : Traffic
comparing = record (start_traffic 0) {
  compared = record { existing = never_stored; subtree = static; request = script } ∷ [];
  advertised = static_header ∷ [];
}

abbrev overtaking : Traffic
overtaking = record comparing { arrived = (none, script) ∷ [] }

abbrev discovered_traffic : Traffic
discovered_traffic = record overtaking { middleware = attached; compared = [] }

abbrev found_traffic : Traffic
found_traffic = record discovered_traffic {
  arrived = (some known_static, script) ∷ (none, script) ∷ [];
}

asked-Step : Step raw_url show_url same_request (start_traffic 0) asked
asked-Step = arrives {w = start_traffic 0} script

passed-Step : Step raw_url show_url same_request asked asked_origin
passed-Step = passed {w = asked} [] [] none script refl refl

comparing-Step : Step raw_url show_url same_request asked_origin comparing
comparing-Step =
    answered {w = asked_origin} [] [] script static_header static refl header_given parsed_static

overtaking-Step : Step raw_url show_url same_request comparing overtaking
overtaking-Step = arrives {w = comparing} script

discovered-Step : Step raw_url show_url same_request overtaking discovered_traffic
unfolding attach_discovered_subtree
discovered-Step =
    compared_ended {w = overtaking} [] []
      (record { existing = never_stored; subtree = static; request = script }) 0 (ok tt) refl
      (omega arith) first_compared

found-Step : Step raw_url show_url same_request discovered_traffic found_traffic
found-Step = arrives {w = discovered_traffic} script

Steps-advertised_example :
    ((front back : List (Option Discovered × TcRequest)) (d : Option Discovered) (r : TcRequest)
        (id : ObjectId) (path : Option TcRequest) (ping : Option Discovered) (t : Middleware)
      → (some known_static, script) ∷ (none, script) ∷ [] ≡ front ++ (d, r) ∷ back
      → serve_discovered d r 0 attached ≡ ((from_manifest id path, ping), t)
      → (s : Subtree) × IsAdvertised raw_url show_url same_request found_traffic.advertised s
        × (has_prefix r.path s.prefix ≡ true)
        × (id ≡ s.manifest_id)
        × (path ≡ strip_prefix s.prefix r))
    × HasDistinctPings []
Steps-advertised_example = Steps-advertised raw_url show_url same_request 0 found_traffic (
    next asked-Step (
      next passed-Step
        (next comparing-Step (next overtaking-Step (next discovered-Step (next found-Step done))))))

-- It is served without the origin, by the path behind the prefix.
script_served :
    serve_http script 1 attached
    ≡ ((from_manifest first_id (some (record script { path = bytes "/a.js" })), none), attached)
unfolding serve_http has_prefix bytes strip_prefix validity_check_maybe_trigger_ping
script_served = refl

abbrev redeployed : Str → PingAnswer
redeployed url = record { code = 200; tc_header = header_value raw_url newer_static }

script_below : has_prefix script.path static.prefix ≡ true
unfolding has_prefix bytes
script_below = refl

redeployed-IsRenewal : IsRenewal raw_url (redeployed known_static.ping_url) newer_static
unfolding header_value bytes parse_tc_header split encode object_id_from_string decode_all
    without_last
redeployed-IsRenewal = record { is_ok = refl; header = refl; parsed = refl }

serve_http-renews_example :
    (u : Middleware) × (serve_http script 6000000000 attached
      ≡ ((from_manifest first_id (strip_prefix static.prefix script), some known_static), u))
    × ((other : TcRequest) (later : ℕ) → (serve_http other later u).0.1 ≡ none)
    × ((ended : ℕ) (before : Middleware)
        → (v : Middleware) × (ping_and_detach raw_url show_url same_request known_static redeployed
              script ended before
            ≡ (ok tt, v))
          × ((other : TcRequest) (later : ℕ)
              → has_prefix other.path newer_static.prefix ≡ true
              → ((serve_http other later v).0.0
                  ≡ from_manifest second_id (strip_prefix newer_static.prefix other))
                × (later < ended + validity_period → (serve_http other later v).0.1 ≡ none)))
serve_http-renews_example =
    serve_http-renews raw_url show_url same_request script 6000000000 attached known_static
      redeployed known_static.ping_url newer_static refl refl refl script_below refl
      redeployed-IsRenewal

abbrev detached_traffic : Traffic
detached_traffic = record (start_traffic 0) {
  middleware = record attached { discovered = stored_nil };
  arrived = (none, script) ∷ [];
  advertised = static_header ∷ [];
}

Steps-detached_example :
    All (λ p. p.0 ≡ none) detached_traffic.arrived
    × (serve_http script 0 detached_traffic.middleware
        ≡ ((from_origin, none), detached_traffic.middleware))
    × ((header : Str) (s : Subtree)
        → is_empty header ≡ false
        → parse_tc_header raw_url header ≡ ok s
        → check_for_turbocharger_advertisement raw_url show_url header script 0
            detached_traffic.middleware
          ≡ (panic, detached_traffic.middleware))
Steps-detached_example =
    Steps-detached raw_url show_url same_request detached_traffic detached_traffic refl (refl, tt)
      tt refl done script
