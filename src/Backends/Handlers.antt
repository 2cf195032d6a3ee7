-- ===== src/Backends/Handlers.antt =====
-- The handlers that the packages below pkg/erbackend construct, each as the values its constructor
-- keeps, and what these packages take from outside of the repository.
use edgerouter.Base.{
  Str, bytes, ◌==◌, trim_left, Bool, true, false, List, [], ◌∷◌, ◌++◌, Option, none, some, Result,
  ok, err, ◌>>=◌, wrap, and_then, if◌then◌else◌,
}
use edgerouter.Config.{BackendOptsReverseProxy}
use edgerouter.Config.Validate.{is_empty}

-- The fields of net/url.URL that are read.
pub record Url : Type 0 where
  pub scheme : Str
  pub host : Str
  pub path : Str

-- The operating system and the libraries: url.Parse, filepath.Join, os.MkdirAll, the AWS
-- configuration for a region, and the environment variable TURBOCHARGER_STORE.
pub record Env : Type 0 where
  pub parse_url : Str → Result Url
  pub join_path : Str → Str → Str
  pub mkdir_all : Str → Result (Unit {0})
  pub load_aws_config : (region_id : Str) → Result (Unit {0})
  pub turbocharger_store : Str

-- pkg/turbocharger/config.go: the store of files and the one of manifests are prefixes of a bucket.
pub record CasPair : Type 0 where
  pub bucket_name : Str
  pub region_id : Str

-- What httputil.ReverseProxy is set up with: the origins, the directory of the cache, if any, and
-- the page for what is not found, if any.
pub record ReverseProxy : Type 0 where
  pub origin_urls : List Url
  pub cache_location : Option Str
  pub opts : BackendOptsReverseProxy
  pub not_found_url : Option Str

pub data Handler : Type 0 where
  not_deployed : (message : Str) → Handler
  reverse_proxy : ReverseProxy → Handler
  lambda : (function_name region_id : Str) (is_payload_v2 : Bool) → Handler
  redirector : (to : Str) → Handler
  turbocharger_site : (manifest : Str) → CasPair → Handler
  turbocharger_middleware : Handler → CasPair → Handler
  admin_pages prom_metrics : Handler
  auth_v0 : (expected_bearer_token : Str) → Handler → Handler
  auth_sso : (server_url audience : Str) (allowed_user_ids : List Str) → Handler → Handler

-- The store of manifests that all handlers share, once it was asked for: also an error stays.
abbrev pub Singleton : Type 0
Singleton = Option (Result CasPair)

module _ (env : Env) where
  abbrev pub storage_of_url : Url → Result CasPair
  storage_of_url url =
      if url.scheme == bytes "s3"
      then (do
        loaded ← env.load_aws_config url.host
        ok (record { bucket_name = trim_left b'/' url.path; region_id = url.host }))
      else err (bytes "unsupported scheme: " ++ url.scheme)

  unfoldable pub storage_from_config : Result CasPair
  storage_from_config =
      if is_empty env.turbocharger_store
      then err (bytes "ENV not specified: TURBOCHARGER_STORE")
      else env.parse_url env.turbocharger_store >>= storage_of_url

  abbrev new_file_store : Str → Result (Unit {0})
  new_file_store dir = wrap (λ e. bytes "turbocharger: " ++ e) (env.mkdir_all dir)

  -- newManifestHandler also makes the directories of its two caches.
  unfoldable pub new_manifest_handler_and_storages : Result CasPair
  unfolding storage_from_config
  new_manifest_handler_and_storages = do
    storages ← storage_from_config
    gzipped ← new_file_store (bytes "/var/cache/edgerouter/turbocharger/gzipped")
    uncompressed ← new_file_store (bytes "/var/cache/edgerouter/turbocharger/uncompressed")
    ok storages

  unfoldable pub get_manifest_handler_singleton : Singleton → Result CasPair × Singleton
  unfolding new_manifest_handler_and_storages
  get_manifest_handler_singleton none =
      (new_manifest_handler_and_storages, some new_manifest_handler_and_storages)
  get_manifest_handler_singleton (some result) = (result, some result)

  unfoldable pub wrap_with_middleware_if_config_available :
      Handler → Singleton → Result Handler × Singleton
  unfolding get_manifest_handler_singleton
  wrap_with_middleware_if_config_available inner s =
      if is_empty env.turbocharger_store
      then (ok inner, s)
      else and_then (get_manifest_handler_singleton s)
          (λ store s'. (ok (turbocharger_middleware inner store), s'))

  abbrev pub parse_each : List Str → Result (List Url)
  parse_each [] = ok []
  parse_each (s ∷ strs) = do url ← env.parse_url s; urls ← parse_each strs; ok (url ∷ urls)

  abbrev pub not_empty : List Url → Result (List Url)
  not_empty [] = err (bytes "empty origin list")
  not_empty (url ∷ urls) = ok (url ∷ urls)

  unfoldable pub parse_origin_urls : List Str → Result (List Url)
  parse_origin_urls strs = parse_each strs >>= not_empty

  -- The directory that maybeWrapWithCache creates.
  unfoldable pub maybe_wrap_with_cache : Str → Bool → Result (Option Str)
  maybe_wrap_with_cache app_id false = ok none
  maybe_wrap_with_cache app_id true = do
    created ←
        wrap (λ e. bytes "cachingreverseproxy: " ++ e)
          (env.mkdir_all (env.join_path (bytes "/var/cache/edgerouter") app_id))
    ok (some (env.join_path (bytes "/var/cache/edgerouter") app_id))

  unfoldable pub new_with_modify_response :
      Str → BackendOptsReverseProxy → Option Str → Result Handler
  unfolding parse_origin_urls maybe_wrap_with_cache
  new_with_modify_response app_id opts not_found_url = do
    urls ← wrap (λ e. bytes "reverseproxybackend: " ++ e) (parse_origin_urls opts.origins)
    location ← maybe_wrap_with_cache app_id opts.caching
    ok (
        reverse_proxy (record {
          origin_urls = urls;
          cache_location = location;
          opts = opts;
          not_found_url = not_found_url;
        }))

  unfoldable pub new_reverse_proxy :
      Str → BackendOptsReverseProxy → Singleton → Result Handler × Singleton
  unfolding new_with_modify_response wrap_with_middleware_if_config_available
  new_reverse_proxy app_id opts s =
      and_then (new_with_modify_response app_id opts none, s)
        wrap_with_middleware_if_config_available
