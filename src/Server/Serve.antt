-- ===== src/Server/Serve.antt =====
-- pkg/erserver/serve.go and utils.go: one request, from the listener to the backend's handler.
-- net.SplitHostPort and what the IP filter takes are parameters.
pub mod Laws
use edgerouter.Base.{
  ℕ, zero, suc, Str, bytes, has_prefix, contains, Bool, true, false, ◌&&◌, not, List, [], ◌∷◌, ◌++◌,
  Option, none, some, Result, ok, err, panic, ◌>>=◌, length, if◌then◌else◌,
}
use edgerouter.Config.{Application}
use edgerouter.Config.Validate.{is_empty}
use edgerouter.Server.IpFilter.{Addr, IpRule, ip_allowed}
use edgerouter.Server.Mounts.{Mount, FrontendMatchers, resolve_mount}

-- The fields of http.Request that the server reads or changes.
pub record Request : Type 0 where
  pub method : Str
  pub host : Str
  pub path : Str
  pub raw_query : Str
  pub tls : Bool
  pub remote_addr : Str

-- What becomes of a request: an answer by the server itself, or the call of a mount's handler with
-- the request as it then is.
pub data Answer (H : Type 0) : Type 0 where
  bad_request : Str → Answer H
  not_found : Str → Answer H
  redirect_to : Str → Answer H
  forbidden : Str → Answer H
  passed : H → Request → Answer H

-- `s[n:]`, which panics if n is larger than the length.
unfoldable pub slice_from : ℕ → Str → Result Str
slice_from zero s = ok s
slice_from (suc n) [] = panic
slice_from (suc n) (c ∷ s) = slice_from n s

-- The target of redirectHTTPToHTTPS.
unfoldable pub redirect_target : Request → Str
redirect_target r =
    bytes "https://"
    ++ (r.host ++ (r.path ++ (if is_empty r.raw_query then [] else bytes "?" ++ r.raw_query)))

abbrev pub with_slash : Str → Str
with_slash new_path = if has_prefix new_path (bytes "/") then new_path else bytes "/" ++ new_path

-- The rewriting of the path for a mount that strips its prefix.
unfoldable pub strip_prefix : {H : Type 0} → Mount H → Request → Result Request
unfolding slice_from
strip_prefix mount r =
    if mount.strip_prefix
    then (do
      new_path ← slice_from (length mount.prefix) r.path
      ok (record r { path = with_slash new_path }))
    else ok r

-- `split_host_port` gives the host of net.SplitHostPort.
module _ (split_host_port : Str → Result Str) where
  unfoldable pub non_stupid_split_host_port : Str → Result Str
  non_stupid_split_host_port maybe_host_port =
      if contains maybe_host_port (bytes ":")
      then split_host_port maybe_host_port
      else ok maybe_host_port

module _ {R H : Type 0} (split_host_port : Str → Result Str) (match_string : R → Str → Bool)
    (contains_string : List Str → Str → Bool) (addr_text : Addr → Str)
    (parse_addr_port : Str → Result Addr) (ip_rules : List IpRule) where
  -- The request has resolved to a mount, and has come by TLS or may do without.
  abbrev pub filter_and_pass : Mount H → Request → Bool × Str → Result (Answer H × Option (Mount H))
  filter_and_pass mount r (allowed, err_str) =
      if not allowed
      then ok (forbidden err_str, some mount)
      else (do r' ← strip_prefix mount r; ok (passed mount.handler r', some mount))

  abbrev pub serve_mount : Str → Option (Mount H) → Request → Result (Answer H × Option (Mount H))
  serve_mount hostname none r = ok (not_found (bytes "no website for hostname: " ++ hostname), none)
  serve_mount hostname (some mount) r =
      if not r.tls && not mount.allow_insecure_http
      then ok (redirect_to (redirect_target r), some mount)
      else filter_and_pass mount r
          (ip_allowed contains_string addr_text parse_addr_port r.remote_addr mount.app.id ip_rules)

  abbrev pub serve_hostname :
      Result Str → FrontendMatchers R H → Request → Result (Answer H × Option (Mount H))
  serve_hostname (ok hostname) config r =
      serve_mount hostname (resolve_mount match_string hostname r.path config) r
  serve_hostname (err e) config r =
      ok (bad_request (bytes "failed to parse hostname header: " ++ e), none)
  serve_hostname panic config r = panic

  unfoldable pub serve_request :
      FrontendMatchers R H → Request → Result (Answer H × Option (Mount H))
  serve_request config r =
      serve_hostname (non_stupid_split_host_port split_host_port r.host) config r
