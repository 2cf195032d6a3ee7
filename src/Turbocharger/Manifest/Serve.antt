-- ===== src/Turbocharger/Manifest/Serve.antt =====
-- pkg/turbocharger/manifesthandler.go: ServeHTTPFromManifest.
use edgerouter.Base.{
  ℕ, Str, bytes, ◌==◌, Bool, true, false, ◌||◌, Option, none, some, Result, ok, err, panic,
  if◌then◌else◌,
}
use edgerouter.Base.Dict.{lookup}
use edgerouter.Turbocharger.Ids.{ObjectId, Encodings, etag_gzipped, etag_uncompressed}
use edgerouter.Turbocharger.Store.{not_exist, error_text, Cas}
use edgerouter.Turbocharger.Manifest.{
  FilePath, OptimizedManifest, FileRequest, Codecs, Reply, nothing, not_found_page, not_modified,
  internal_server_error,
}
use edgerouter.Turbocharger.Manifest.State.{
  Hydrated, HandlerState, Served, returned, out_of_attempts,
}
use edgerouter.Turbocharger.Manifest.Caches.{
  serve_from_cache, hydrate_cache_from_origin_and_serve_from_cache,
}
use edgerouter.Turbocharger.Manifest.Resolve.{resolve_manifest}

-- The file for a path, and the status: the page for what is not found, if there is one.
abbrev pub or_custom_page : Option FilePath → Option (FilePath × ℕ)
or_custom_page (some page) = some (page, 404)
or_custom_page none = none

abbrev pub or_file : Option FilePath → OptimizedManifest → Option (FilePath × ℕ)
or_file (some file) manifest = some (file, 200)
or_file none manifest = or_custom_page (lookup (bytes "/404.html") manifest)

unfoldable pub choose_file : OptimizedManifest → Str → Option (FilePath × ℕ)
choose_file manifest key = or_file (lookup key manifest) manifest

abbrev pub matches_etag : Encodings → FileRequest → FilePath → Bool
matches_etag enc r file =
    r.if_none_match == etag_uncompressed enc file.content_id
    || r.if_none_match == etag_gzipped enc file.content_id

module _ {O C : Type 0} (enc : Encodings) (codecs : Codecs) (origin : Cas O) (cache : Cas C)
    (wait_manifest : Str → HandlerState O C → HandlerState O C)
    (wait_file : Str → HandlerState O C → Hydrated × HandlerState O C) where
  abbrev pub after_cache :
      FilePath
      → ℕ
      → FileRequest
      → (Result Bool × Reply) × HandlerState O C
      → Served × HandlerState O C
  after_cache file status r ((ok true, reply), h) = (returned (ok tt) reply, h)
  after_cache file status r ((ok false, reply), h) =
      hydrate_cache_from_origin_and_serve_from_cache enc codecs origin cache wait_file file status r
        h
  after_cache file status r ((err message, reply), h) = (returned (err message) reply, h)
  after_cache file status r ((panic, reply), h) = (returned panic reply, h)

  abbrev pub serve_chosen :
      FileRequest → HandlerState O C → Option (FilePath × ℕ) → Served × HandlerState O C
  serve_chosen r h none = (returned (err (error_text not_exist)) not_found_page, h)
  serve_chosen r h (some (file, status)) =
      if matches_etag enc r file
      then (returned (ok tt) not_modified, h)
      else after_cache file status r (serve_from_cache enc codecs cache file status r h)

  abbrev pub serve_resolved :
      FileRequest → Option (Result OptimizedManifest) × HandlerState O C → Served × HandlerState O C
  serve_resolved r (none, h) = (out_of_attempts, h)
  serve_resolved r (some (ok manifest), h) = serve_chosen r h (choose_file manifest r.path)
  serve_resolved r (some (err message), h) =
      (returned (err message) (internal_server_error message), h)
  serve_resolved r (some panic, h) = (returned panic nothing, h)

  unfoldable pub serve_http_from_manifest :
      (attempts : ℕ) → ObjectId → FileRequest → HandlerState O C → Served × HandlerState O C
  unfolding resolve_manifest choose_file hydrate_cache_from_origin_and_serve_from_cache
  serve_http_from_manifest attempts id r h =
      serve_resolved r (resolve_manifest enc codecs origin cache wait_manifest attempts id h)
