-- ===== src/Turbocharger/Manifest/Available.antt =====
-- pkg/turbocharger/manifesthandler.go: what the origin has is served, and a call does not block.
use edgerouter.Base.{
  ℕ, suc, ◌≡◌, refl, sym, ap, subst, ◌⊎◌, inl, inr, Str, bytes, Bool, false, Option, none, some,
  Result, ok, Bool-cases, Option-cases,
}
use edgerouter.Base.Dict.{lookup, insert}
use edgerouter.Locks.{is_closed, MutexMap, Attempt, unlock_func, try_lock_internal, unlock}
use edgerouter.Turbocharger.Ids.{ObjectId, Encodings, id_string}
use edgerouter.Turbocharger.Store.{Cas, Got, found, failed}
use edgerouter.Turbocharger.Store.Contract.{IsStore, IsReliable}
use edgerouter.Turbocharger.Manifest.{
  FilePath, FileRequest, Codecs, Sent, Reply, sent, not_modified, is_expected_to_compress_well,
}
use edgerouter.Turbocharger.Manifest.State.{
  HandlerState, Served, returned, Hydrated, hydrated, hydration_blocked,
}
use edgerouter.Turbocharger.Manifest.Caches.{
  serve_from_cache, insert_read, insert_into_cache, unlock_file, hydrate_locked, hydrate_cache,
  after_hydration, serve_hydrated, hydrate_cache_from_origin_and_serve_from_cache,
}
use edgerouter.Turbocharger.Manifest.Serve.{matches_etag, after_cache, serve_chosen}
use edgerouter.Turbocharger.Manifest.Coherent.{IsGzip, IsCoherent}
use edgerouter.Turbocharger.Manifest.Bodies.{serve_from_cache-IsServed}
use edgerouter.Turbocharger.Manifest.Filled.{hydrate_cache-IsGood}
use edgerouter.Turbocharger.Manifest.Hits.{
  IsHit, IsMiss, serve_from_cache-IsHit, serve_from_cache-IsMiss,
}

-- Nobody holds the name, and the next channel is open.
abbrev pub IsFree : Str → MutexMap → Type 0
IsFree key n = (lookup key n.locks ≡ none) × (is_closed n.closed n.next_chan ≡ false)

-- Taking a free lock: the lock can be released.
abbrev pub IsTaken : Str → Attempt × MutexMap → Type 0
IsTaken key taken =
    (chan : ℕ) × (n : MutexMap) × (taken ≡ (unlock_func key chan, n))
    × (is_closed n.closed chan ≡ false)

pub try_lock-IsTaken :
    (key : Str) (n : MutexMap) → IsFree key n → IsTaken key (try_lock_internal key n)
unfolding try_lock_internal
try_lock-IsTaken key n (free, is_open) = (
  n.next_chan,
  record n { locks = insert key n.next_chan n.locks; next_chan = suc n.next_chan },
  rw free refl,
  is_open,
)

-- A call ends with a reply that is a file or "not modified".
abbrev pub IsReturned : Served → Type 0
IsReturned served =
    (reply : Reply) × (served ≡ returned (ok tt) reply)
    × ((reply ≡ not_modified) ⊎ ((s : Sent) × (reply ≡ sent s)))

module _ {O C : Type 0} (enc : Encodings) (codecs : Codecs) (origin : Cas O) (cache : Cas C)
    (origin_view : O → ObjectId → Option Str) (cache_view : C → ObjectId → Option Str)
    (origin_store : IsStore origin origin_view) (cache_store : IsStore cache cache_view)
    (origin_reliable : IsReliable origin origin_view) (cache_reliable : IsReliable cache cache_view)
    (gz : IsGzip codecs) (content : ObjectId → Str)
    (wait_manifest : Str → HandlerState O C → HandlerState O C)
    (wait_file : Str → HandlerState O C → Hydrated × HandlerState O C)
    (manifest_waits : (key : Str) (h : HandlerState O C)
      → IsCoherent codecs origin_view cache_view content h
      → IsCoherent codecs origin_view cache_view content (wait_manifest key h))
    (file_waits : (key : Str) (h : HandlerState O C)
      → IsCoherent codecs origin_view cache_view content h
      → IsCoherent codecs origin_view cache_view content (wait_file key h).1) where
  abbrev IsGood : HandlerState O C → Type 0
  IsGood h = IsCoherent codecs origin_view cache_view content h

  -- Filling the caches with a file that the origin has and that is in no cache.
  abbrev IsHydrated : FilePath → Hydrated × HandlerState O C → Type 0
  IsHydrated file out =
      (out.0 ≡ hydrated (ok tt))
      × (((b : Str) × (cache_view out.1.gzipped file.content_id ≡ some b))
          ⊎ ((b : Str) × (cache_view out.1.uncompressed file.content_id ≡ some b)))

  insert_into_cache-IsHydrated :
      (file : FilePath) (h : HandlerState O C) (got : Got) (o : O) (body : Str)
      → got ≡ found body
      → origin.read_error file.content_id o ≡ none
      → cache_view h.gzipped file.content_id ≡ none
      → IsHydrated file (insert_into_cache enc codecs origin cache wait_file file h (got, o))
        × ((insert_into_cache enc codecs origin cache wait_file file h (got, o)).1.file_locks
            ≡ h.file_locks)
  insert_into_cache-IsHydrated file h (failed error) o body e whole no_zip = cc
  insert_into_cache-IsHydrated file h (found b) o body e whole no_zip =
      elim (Bool-cases (is_expected_to_compress_well file.path)) [
        | inl f ↦
            let done =
              cache_reliable.insert_ok file.content_id (codecs.gzip b) (bytes "dummy") h.gzipped in
            rw (whole, f, insert_read)
              (
                (
                  rw
                      (
                        cache_reliable.insert_consumes file.content_id (codecs.gzip b)
                            (bytes "dummy") h.gzipped no_zip,
                        done,
                      )
                      refl,
                  inl (
                      cache_store.insert_done file.content_id (codecs.gzip b) (bytes "dummy")
                        h.gzipped done),
                ),
                refl,
              )
        | inr f ↦
            let done = cache_reliable.insert_ok file.content_id b (bytes "dummy") h.uncompressed in
            rw (whole, f, insert_read)
              (
                (
                  rw done refl,
                  inr (
                      cache_store.insert_done file.content_id b (bytes "dummy") h.uncompressed
                        done),
                ),
                refl,
              )
      ]

  unlock_file-IsHydrated :
      (file : FilePath) (key : Str) (chan : ℕ) (out : Hydrated × HandlerState O C) (n : MutexMap)
      → IsHydrated file out
      → out.1.file_locks ≡ n
      → is_closed n.closed chan ≡ false
      → IsHydrated file (unlock_file key chan out)
  unfolding unlock
  unlock_file-IsHydrated file key chan (hydrated result, h) n (e, there) same is_open =
      let is_open' : is_closed h.file_locks.closed chan ≡ false =
        subst (λ m. is_closed m.closed chan ≡ false) (sym same) is_open in
      rw (is_open', unlock_file) (e, there)
  unlock_file-IsHydrated file key chan (hydration_blocked, h) n (e, there) same is_open = cc

  hydrate_cache-IsHydrated :
      (file : FilePath) (h : HandlerState O C)
      → IsFree (id_string enc file.content_id) h.file_locks
      → origin_view h.files file.content_id ≡ some (content file.content_id)
      → cache_view h.gzipped file.content_id ≡ none
      → IsHydrated file (hydrate_cache enc codecs origin cache wait_file file h)
  unfolding hydrate_cache
  hydrate_cache-IsHydrated file h free there no_zip =
      let key = id_string enc file.content_id in
      let (chan, n, e, is_open) = try_lock-IsTaken key h.file_locks free in
      let (is, same) =
        insert_into_cache-IsHydrated file (record h { file_locks = n })
          (origin.get_object file.content_id h.files).0
          (origin.get_object file.content_id h.files).1 (content file.content_id)
          (origin_reliable.get_there file.content_id h.files (content file.content_id) there)
          (origin_reliable.read_whole file.content_id h.files (content file.content_id) there)
          no_zip in
      subst
        (λ locked. IsHydrated file (hydrate_locked enc codecs origin cache wait_file file h locked))
        (sym e)
        (unlock_file-IsHydrated file key chan
          (insert_into_cache enc codecs origin cache wait_file file (record h { file_locks = n })
            (origin.get_object file.content_id h.files))
          n is same is_open)

  after_hydration-IsReturned :
      (out : (Result Bool × Reply) × HandlerState O C)
      → IsHit out
      → IsReturned (after_hydration enc codecs origin cache wait_file out).0
  after_hydration-IsReturned (answer, h) (s, e) = (
    sent s,
    ap (λ a. (after_hydration enc codecs origin cache wait_file (a, h)).0) e,
    inr (s, refl),
  )

  serve_hydrated-IsReturned :
      (file : FilePath) (status : ℕ) (r : FileRequest) (out : Hydrated × HandlerState O C)
      → IsGood out.1
      → IsHydrated file out
      → IsReturned (serve_hydrated enc codecs origin cache wait_file file status r out).0
  serve_hydrated-IsReturned file status r (hydrated result, h) i (e, there) =
      let is : result ≡ ok tt = cc in
      rw is (
        after_hydration-IsReturned (serve_from_cache enc codecs cache file status r h) (
          serve_from_cache-IsHit enc codecs cache origin_view cache_view cache_store cache_reliable
            gz content file status r h i there))
  serve_hydrated-IsReturned file status r (hydration_blocked, h) i (e, there) = cc

  after_hit :
      (file : FilePath) (status : ℕ) (r : FileRequest)
      (out : (Result Bool × Reply) × HandlerState O C)
      → IsHit out
      → IsReturned (after_cache enc codecs origin cache wait_manifest wait_file file status r out).0
  after_hit file status r (answer, h) (s, e) = (
    sent s,
    ap (λ a. (after_cache enc codecs origin cache wait_manifest wait_file file status r (a, h)).0)
        e,
    inr (s, refl),
  )

  after_miss :
      (file : FilePath) (status : ℕ) (r : FileRequest) (before : HandlerState O C)
      (out : (Result Bool × Reply) × HandlerState O C)
      → IsGood out.1
      → IsMiss cache_view file before out
      → IsFree (id_string enc file.content_id) before.file_locks
      → origin_view before.files file.content_id ≡ some (content file.content_id)
      → IsReturned (after_cache enc codecs origin cache wait_manifest wait_file file status r out).0
  unfolding hydrate_cache_from_origin_and_serve_from_cache
  after_miss file status r before (answer, h) i miss free there =
      subst
        (λ a.
          IsReturned
            (after_cache enc codecs origin cache wait_manifest wait_file file status r (a, h)).0)
        (sym miss.answer)
        (serve_hydrated-IsReturned file status r
          (hydrate_cache enc codecs origin cache wait_file file h)
          (hydrate_cache-IsGood enc codecs origin cache origin_view cache_view origin_store
            cache_store gz content wait_file file_waits file h i)
          (hydrate_cache-IsHydrated file h
            (subst (IsFree (id_string enc file.content_id)) (sym miss.same_locks) free)
            (subst (λ o. origin_view o file.content_id ≡ some (content file.content_id))
              (sym miss.same_files) there)
            miss.not_gzipped))

  pub serve_chosen-IsReturned :
      (r : FileRequest) (h : HandlerState O C) (file : FilePath) (status : ℕ)
      → IsGood h
      → IsFree (id_string enc file.content_id) h.file_locks
      → origin_view h.files file.content_id ≡ some (content file.content_id)
      → IsReturned
          (serve_chosen enc codecs origin cache wait_manifest wait_file r h (some (file, status))).0
  serve_chosen-IsReturned r h file status i free there =
      elim (Bool-cases (matches_etag enc r file)) [
        | inl e ↦ rw e (not_modified, refl, inl refl)
        | inr e ↦ rw e (elim (Option-cases (cache_view h.gzipped file.content_id)) [
          | inr is ↦
              after_hit file status r (serve_from_cache enc codecs cache file status r h)
                (hit (inl is))
          | inl no_zip ↦ elim (Option-cases (cache_view h.uncompressed file.content_id)) [
            | inr is ↦
                after_hit file status r (serve_from_cache enc codecs cache file status r h)
                  (hit (inr is))
            | inl no_plain ↦
                after_miss file status r h (serve_from_cache enc codecs cache file status r h)
                  (serve_from_cache-IsServed enc codecs content file status r cache origin_view
                    cache_view cache_store gz h i).0
                  (serve_from_cache-IsMiss enc codecs cache origin_view cache_view cache_store
                    cache_reliable gz content file status r h no_zip no_plain)
                  free there
          ]
        ])
      ]
    where
      hit :
          ((b : Str) × (cache_view h.gzipped file.content_id ≡ some b))
            ⊎ ((b : Str) × (cache_view h.uncompressed file.content_id ≡ some b))
          → IsHit (serve_from_cache enc codecs cache file status r h)
      hit =
          serve_from_cache-IsHit enc codecs cache origin_view cache_view cache_store cache_reliable
            gz content file status r h i
