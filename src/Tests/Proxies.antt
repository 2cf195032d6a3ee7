-- ===== src/Tests/Proxies.antt =====
-- A run of pkg/erbackend/reverseproxybackend/reverseproxy.go.
use edgerouter.Base.{
  ◌++◌, ℕ, ◌<◌, ◌≡◌, refl, Str, bytes, ◌==◌, Bool, true, false, List, [], ◌∷◌, Option, none, some,
  Result, ok, err, length, Any, Each,
}
use edgerouter.Config.{BackendOptsReverseProxy}
use edgerouter.Backends.Handlers.{Url, ReverseProxy, reverse_proxy, new_with_modify_response}
use edgerouter.Backends.Director.{OutRequest, direct, IsDirected, new_with_modify_response-direct}
use edgerouter.Tests.Handlers.{local}

abbrev static_opts : BackendOptsReverseProxy
static_opts = record {
  origins = bytes "o.fi" ∷ [];
  tls_config = none;
  caching = false;
  pass_host_header = false;
  index_document = bytes "index.html";
  remove_query_string = true;
  headers_to_origin = (bytes "X", bytes "1") ∷ [];
}

abbrev static_proxy : ReverseProxy
static_proxy = record {
  origin_urls = record { scheme = []; host = bytes "o.fi"; path = [] } ∷ [];
  cache_location = none;
  opts = static_opts;
  not_found_url = none;
}

abbrev same_key : Str → Str
same_key key = key

abbrev incoming : OutRequest
incoming = record {
  scheme = [];
  url_host = [];
  host = bytes "a.fi";
  path = bytes "/x/";
  raw_query = bytes "q=1";
  headers = [];
}

static_made :
    new_with_modify_response local (bytes "s") static_opts none ≡ ok (reverse_proxy static_proxy)
unfolding new_with_modify_response
static_made = refl

no_origins :
    new_with_modify_response local (bytes "s") (record static_opts { origins = [] }) none
    ≡ err (bytes "reverseproxybackend: empty origin list")
unfolding new_with_modify_response bytes
no_origins = refl

index_added :
    direct same_key static_proxy 0 incoming
    ≡ ok (record {
      scheme = [];
      url_host = bytes "o.fi";
      host = bytes "o.fi";
      path = bytes "/x/index.html";
      raw_query = [];
      headers = (bytes "X", bytes "1") ∷ [];
    })
unfolding direct bytes edgerouter.Base.Dict.insert edgerouter.Base.has_suffix
index_added = refl

new_with_modify_response-direct_example :
    (proxy : ReverseProxy) × (reverse_proxy static_proxy ≡ reverse_proxy proxy)
    × Each (λ s url. local.parse_url s ≡ ok url) static_opts.origins proxy.origin_urls
    × (0 < length proxy.origin_urls)
    × ((n : ℕ) (req : OutRequest)
        → n < length proxy.origin_urls
        → (front back : List Url) × (origin : Url) × (out : OutRequest) × (proxy.origin_urls
            ≡ front ++ origin ∷ back)
          × (length front ≡ n)
          × (direct same_key proxy n req ≡ ok out)
          × IsDirected same_key static_opts origin req out)
new_with_modify_response-direct_example =
    new_with_modify_response-direct local same_key (bytes "s") static_opts none
      (reverse_proxy static_proxy) static_made
