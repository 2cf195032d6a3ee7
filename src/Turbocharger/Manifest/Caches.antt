-- ===== src/Turbocharger/Manifest/Caches.antt =====
-- pkg/turbocharger/manifesthandler.go: serving a file from the two caches, and filling these from the
-- origin. A goroutine that does not get the lock waits: `wait_file` is what all goroutines do to the
-- state until its own call of Lock returned and the lock was released again, or that the wait never
-- ends, as where the goroutine that holds the lock blocks for ever.
use edgerouter.Base.{
  ℕ, Str, bytes, Bool, true, false, ◌&&◌, ◌||◌, not, ◌>>=◌, Option, none, some, Result, ok, err,
  panic, if◌then◌else◌,
}
use edgerouter.Config.Validate.{is_empty}
use edgerouter.Locks.{MutexMap, Attempt, unlock_func, try_again, try_lock_internal, unlock}
use edgerouter.Turbocharger.Ids.{Encodings, id_string, etag_gzipped, etag_uncompressed}
use edgerouter.Turbocharger.Store.{error_text, BrokenRead, Got, found, failed, Inserted, Cas}
use edgerouter.Turbocharger.Manifest.{
  or_octet_stream, FilePath, ext, is_expected_to_compress_well, FileRequest, client_supports_gzip,
  Codecs, Reply, nothing, sent,
}
use edgerouter.Turbocharger.Manifest.State.{
  HandlerState, Served, returned, blocked, Hydrated, hydrated, hydration_blocked, log_read_error,
}

module _ (enc : Encodings) (codecs : Codecs) where
  abbrev pub reply_of : FilePath → ℕ → Option Str → Str → Str → Reply
  reply_of file status content_encoding etag body = sent (record {
    status = status;
    content_type = or_octet_stream (codecs.mime_type_by_extension (ext file.path));
    content_encoding = content_encoding;
    etag = etag;
    body = body;
  })

  abbrev pub send_decompressed :
      FilePath → ℕ → Result (Result (Unit {0}) × Str) → Result (Unit {0}) × Reply
  send_decompressed file status (ok (copied, body)) =
      (copied, reply_of file status none (etag_uncompressed enc file.content_id) body)
  send_decompressed file status (err message) = (err message, nothing)
  send_decompressed file status panic = (panic, nothing)

  unfoldable pub send_to_client :
      FilePath → ℕ → FileRequest → Str → Bool → Result (Unit {0}) × Reply
  send_to_client file status r body is_compressed =
      if is_compressed && client_supports_gzip r
      then (
        ok tt,
        reply_of file status (some (bytes "gzip")) (etag_gzipped enc file.content_id) body,
      )
      else if is_compressed
      then send_decompressed file status (codecs.gzip_reader body)
      else (ok tt, reply_of file status none (etag_uncompressed enc file.content_id) body)

module _ {O C : Type 0} where
  abbrev pub was_served :
      Result (Unit {0}) × Reply → HandlerState O C → (Result Bool × Reply) × HandlerState O C
  was_served (ok u, reply) h = ((ok true, reply), h)
  was_served (err message, reply) h = ((err message, reply), h)
  was_served (panic, reply) h = ((panic, reply), h)

module _ {O C : Type 0} (enc : Encodings) (codecs : Codecs) (cache : Cas C) where
  abbrev pub from_uncompressed :
      FilePath
      → ℕ
      → FileRequest
      → HandlerState O C
      → Got × C
      → (Result Bool × Reply) × HandlerState O C
  from_uncompressed file status r h (found body, c) =
      was_served (send_to_client enc codecs file status r body false)
        (record h { uncompressed = c })
  from_uncompressed file status r h (failed e, c) = (
    (ok false, nothing),
    log_read_error (bytes "read uncompressed cache failed") e (record h { uncompressed = c }),
  )

  abbrev pub from_gzipped :
      FilePath
      → ℕ
      → FileRequest
      → HandlerState O C
      → Got × C
      → (Result Bool × Reply) × HandlerState O C
  from_gzipped file status r h (found body, c) =
      was_served (send_to_client enc codecs file status r body true) (record h { gzipped = c })
  from_gzipped file status r h (failed e, c) =
      let h' = log_read_error (bytes "read gzipped cache failed") e (record h { gzipped = c }) in
      from_uncompressed file status r h' (cache.get_object file.content_id h'.uncompressed)

  -- The result says whether the file was in a cache.
  unfoldable pub serve_from_cache :
      FilePath → ℕ → FileRequest → HandlerState O C → (Result Bool × Reply) × HandlerState O C
  serve_from_cache file status r h =
      from_gzipped file status r h (cache.get_object file.content_id h.gzipped)

abbrev pub after_broken_gzip : (before error : Str) → Inserted → Hydrated
after_broken_gzip before error inserted =
    if inserted.consumed || not (is_empty before)
    then hydration_blocked
    else hydrated (inserted.result >>= (λ u. err error))

abbrev pub after_broken_insert : (error : Str) → Inserted → Hydrated
after_broken_insert error inserted =
    if inserted.consumed then hydrated (err error) else hydrated inserted.result

module _ {O C : Type 0} where
  -- The gzip writer ends when its pipe was read to the end, and never otherwise.
  abbrev pub after_gzip_insert : Inserted × C → HandlerState O C → Hydrated × HandlerState O C
  after_gzip_insert (inserted, c) h = (
    if inserted.consumed then hydrated inserted.result else hydration_blocked,
    record h { gzipped = c },
  )

  abbrev pub after_plain_insert : Inserted × C → HandlerState O C → Hydrated × HandlerState O C
  after_plain_insert (inserted, c) h = (hydrated inserted.result, record h { uncompressed = c })

  -- The deferred unlock; a goroutine that blocks keeps the lock.
  abbrev pub unlock_file : Str → ℕ → Hydrated × HandlerState O C → Hydrated × HandlerState O C
  unlock_file key chan (hydration_blocked, h) = (hydration_blocked, h)
  unlock_file key chan (hydrated result, h) = elim (unlock key chan h.file_locks) [
    | ok n ↦ (hydrated result, record h { file_locks = n })
    | err message ↦ (hydrated (err message), h)
    | panic ↦ (hydrated panic, h)
  ]

module _ {O C : Type 0} (enc : Encodings) (codecs : Codecs) (origin : Cas O) (cache : Cas C)
    (wait_file : Str → HandlerState O C → Hydrated × HandlerState O C) where
  -- Without a read error both goroutines come to the end of the content. With one, the gzip writer
  -- never closes its pipe: an insertion that reads it waits for ever, and one that does not read it
  -- leaves the writer waiting, unless nothing was written before the error. A reader that is inserted
  -- as it is gives its error to the insertion, which then leaves the cache as it was.
  abbrev pub insert_read :
      FilePath
      → HandlerState O C
      → (content : Str) → Option BrokenRead
      → Hydrated × HandlerState O C
  insert_read file h content none =
      if is_expected_to_compress_well file.path
      then after_gzip_insert
          (cache.insert_object file.content_id (codecs.gzip content) (bytes "dummy") h.gzipped) h
      else after_plain_insert
          (cache.insert_object file.content_id content (bytes "dummy") h.uncompressed) h
  insert_read file h content (some (before, error)) =
      if is_expected_to_compress_well file.path
      then (
        after_broken_gzip before error
            (cache.insert_object file.content_id (codecs.gzip before) (bytes "dummy") h.gzipped).0,
        h,
      )
      else (
        after_broken_insert error
            (cache.insert_object file.content_id before (bytes "dummy") h.uncompressed).0,
        h,
      )

  abbrev pub insert_into_cache : FilePath → HandlerState O C → Got × O → Hydrated × HandlerState O C
  insert_into_cache file h (failed e, o) = (hydrated (err (error_text e)), record h { files = o })
  insert_into_cache file h (found content, o) =
      insert_read file (record h { files = o }) content (origin.read_error file.content_id o)

  abbrev pub hydrate_locked :
      FilePath → HandlerState O C → Attempt × MutexMap → Hydrated × HandlerState O C
  hydrate_locked file h (try_again chan, n) =
      wait_file (id_string enc file.content_id) (record h { file_locks = n })
  hydrate_locked file h (unlock_func key chan, n) = unlock_file key chan (
      insert_into_cache file (record h { file_locks = n })
        (origin.get_object file.content_id h.files))

  -- The closure in hydrateCacheFromOriginAndServeFromCache.
  unfoldable pub hydrate_cache : FilePath → HandlerState O C → Hydrated × HandlerState O C
  hydrate_cache file h =
      hydrate_locked file h (try_lock_internal (id_string enc file.content_id) h.file_locks)

  abbrev pub after_hydration : (Result Bool × Reply) × HandlerState O C → Served × HandlerState O C
  after_hydration ((ok true, reply), h) = (returned (ok tt) reply, h)
  after_hydration ((ok false, reply), h) =
      (returned (err (bytes "cache hydration failed")) reply, h)
  after_hydration ((err message, reply), h) = (returned (err message) reply, h)
  after_hydration ((panic, reply), h) = (returned panic reply, h)

  abbrev pub serve_hydrated :
      FilePath → ℕ → FileRequest → Hydrated × HandlerState O C → Served × HandlerState O C
  serve_hydrated file status r (hydration_blocked, h) = (blocked, h)
  serve_hydrated file status r (hydrated (ok u), h) =
      after_hydration (serve_from_cache enc codecs cache file status r h)
  serve_hydrated file status r (hydrated (err message), h) = (returned (err message) nothing, h)
  serve_hydrated file status r (hydrated panic, h) = (returned panic nothing, h)

  unfoldable pub hydrate_cache_from_origin_and_serve_from_cache :
      FilePath → ℕ → FileRequest → HandlerState O C → Served × HandlerState O C
  unfolding hydrate_cache serve_from_cache
  hydrate_cache_from_origin_and_serve_from_cache file status r h =
      serve_hydrated file status r (hydrate_cache file h)
