-- ===== src/Turbocharger/Manifest/Resolve.antt =====
-- pkg/turbocharger/manifesthandler.go: finding a manifest in the memory, the cache or the origin.
-- `wait_manifest` is what all goroutines do to the state until the call of Lock returned and the lock
-- was released again.
use edgerouter.Base.{ℕ, suc, Str, bytes, ◌∷◌, Option, none, some, Result, ok, err, panic}
use edgerouter.Base.Dict.{lookup, insert}
use edgerouter.Locks.{MutexMap, Attempt, unlock_func, try_again, try_lock_internal, unlock}
use edgerouter.Turbocharger.Ids.{ObjectId, Encodings, id_string}
use edgerouter.Turbocharger.Store.{error_text, Got, found, failed, Inserted, Cas}
use edgerouter.Turbocharger.Manifest.{Manifest, OptimizedManifest, optimize_manifest, Codecs}
use edgerouter.Turbocharger.Manifest.State.{
  HandlerState, ManifestLookup, in_ram, to_download, already_downloading, log_unexpected_error,
}

abbrev pub as_some : {A B : Type 0} → A × B → Option A × B
as_some (a, b) = (some a, b)

module _ {O C : Type 0} where
  abbrev pub locked_for : Attempt × MutexMap → HandlerState O C → ManifestLookup × HandlerState O C
  locked_for (unlock_func key chan, n) h = (to_download key chan, record h { manifest_locks = n })
  locked_for (try_again chan, n) h = (already_downloading, record h { manifest_locks = n })

  abbrev pub log_insert : Result (Unit {0}) → HandlerState O C → HandlerState O C
  log_insert (ok u) h = h
  log_insert (err message) h = record h { log = bytes "cache manifest insert failed" ∷ h.log }
  log_insert panic h = h

  abbrev pub keep_manifest :
      ObjectId → Result Manifest × HandlerState O C → Result OptimizedManifest × HandlerState O C
  keep_manifest id (ok manifest, h) =
      let optimized = optimize_manifest manifest in
      (ok optimized, record h { cached_manifests = insert id optimized h.cached_manifests })
  keep_manifest id (err message, h) = (err message, h)
  keep_manifest id (panic, h) = (panic, h)

  abbrev pub unlock_manifest :
      Str
      → ℕ
      → Result OptimizedManifest × HandlerState O C
      → Result OptimizedManifest × HandlerState O C
  unlock_manifest key chan (result, h) = elim (unlock key chan h.manifest_locks) [
    | ok n ↦ (result, record h { manifest_locks = n })
    | err message ↦ (err message, h)
    | panic ↦ (panic, h)
  ]

module _ {O C : Type 0} (enc : Encodings) where
  abbrev pub looked_up :
      Option OptimizedManifest → ObjectId → HandlerState O C → ManifestLookup × HandlerState O C
  looked_up (some manifest) id h = (in_ram manifest, h)
  looked_up none id h = locked_for (try_lock_internal (id_string enc id) h.manifest_locks) h

  unfoldable pub look_up_manifest : ObjectId → HandlerState O C → ManifestLookup × HandlerState O C
  look_up_manifest id h = looked_up (lookup id h.cached_manifests) id h

module _ {O C : Type 0} (codecs : Codecs) (origin : Cas O) (cache : Cas C) where
  abbrev pub after_manifest_insert :
      Str → HandlerState O C → Inserted × C → Result Manifest × HandlerState O C
  after_manifest_insert buf h (inserted, c) =
      (codecs.decode_manifest buf, log_insert inserted.result (record h { uncompressed = c }))

  abbrev pub manifest_from_origin :
      ObjectId → HandlerState O C → Got × O → Result Manifest × HandlerState O C
  manifest_from_origin id h (failed e, o) = (err (error_text e), record h { manifests = o })
  manifest_from_origin id h (found buf, o) =
      after_manifest_insert buf (record h { manifests = o })
        (cache.insert_object id buf (bytes "application/json") h.uncompressed)

  abbrev pub manifest_from_cache :
      ObjectId → HandlerState O C → Got × C → Result Manifest × HandlerState O C
  manifest_from_cache id h (found buf, c) =
      (codecs.decode_manifest buf, record h { uncompressed = c })
  manifest_from_cache id h (failed e, c) =
      let h' =
        log_unexpected_error (bytes "read cached manifest failed") e
          (record h { uncompressed = c }) in
      manifest_from_origin id h' (origin.get_object id h'.manifests)

  -- The second closure of resolveManifest.
  unfoldable pub fetch_manifest : ObjectId → HandlerState O C → Result Manifest × HandlerState O C
  fetch_manifest id h = manifest_from_cache id h (cache.get_object id h.uncompressed)

module _ {O C : Type 0} (enc : Encodings) (codecs : Codecs) (origin : Cas O) (cache : Cas C)
    (wait_manifest : Str → HandlerState O C → HandlerState O C) where
  abbrev pub resolve_looked_up :
      ObjectId
      → (HandlerState O C → Option (Result OptimizedManifest) × HandlerState O C)
      → ManifestLookup × HandlerState O C
      → Option (Result OptimizedManifest) × HandlerState O C
  resolve_looked_up id retry (in_ram manifest, h) = (some (ok manifest), h)
  resolve_looked_up id retry (to_download key chan, h) =
      as_some
        (unlock_manifest key chan (keep_manifest id (fetch_manifest codecs origin cache id h)))
  resolve_looked_up id retry (already_downloading, h) = retry (wait_manifest (id_string enc id) h)

  -- none: the attempts are used up.
  unfoldable pub resolve_manifest :
      (attempts : ℕ)
      → ObjectId
      → HandlerState O C
      → Option (Result OptimizedManifest) × HandlerState O C
  unfolding look_up_manifest fetch_manifest
  resolve_manifest ℕ.zero id h = (none, h)
  resolve_manifest (suc attempts) id h =
      resolve_looked_up id (λ h'. resolve_manifest attempts id h') (look_up_manifest enc id h)
