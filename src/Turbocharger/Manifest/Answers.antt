-- ===== src/Turbocharger/Manifest/Answers.antt =====
-- pkg/turbocharger/manifesthandler.go: every reply is the right one, whatever the caches hold already.
use edgerouter.Base.{
  ℕ, ◌≡◌, ◌≢◌, refl, sym, ap, subst, ◌⊎◌, inl, inr, Str, Bool, true, false, Option, none, some,
  Result, ok, err, panic, Bool-cases,
}
use edgerouter.Turbocharger.Ids.{ObjectId, Encodings}
use edgerouter.Turbocharger.Store.{Cas}
use edgerouter.Turbocharger.Store.Contract.{IsStore}
use edgerouter.Turbocharger.Manifest.{
  FilePath, Manifest, OptimizedManifest, optimize_manifest, FileRequest, Codecs, Sent, Reply,
  nothing, sent, not_found_page, not_modified, internal_server_error,
}
use edgerouter.Turbocharger.Manifest.State.{
  HandlerState, Served, returned, blocked, out_of_attempts, Hydrated, hydrated, hydration_blocked,
}
use edgerouter.Turbocharger.Manifest.Caches.{
  serve_from_cache, hydrate_cache, after_hydration, serve_hydrated,
  hydrate_cache_from_origin_and_serve_from_cache,
}
use edgerouter.Turbocharger.Manifest.Resolve.{resolve_manifest}
use edgerouter.Turbocharger.Manifest.Serve.{
  choose_file, matches_etag, after_cache, serve_chosen, serve_resolved, serve_http_from_manifest,
}
use edgerouter.Turbocharger.Manifest.Coherent.{IsGzip, IsCoherent}
use edgerouter.Turbocharger.Manifest.Bodies.{IsFile, serve_from_cache-IsServed}
use edgerouter.Turbocharger.Manifest.Filled.{hydrate_cache-IsGood}
use edgerouter.Turbocharger.Manifest.Resolved.{resolve_manifest-IsResolved}

module _ (enc : Encodings) (codecs : Codecs) (content : ObjectId → Str) where
  -- The manifest of the id has this choice for the request's path: a file, the page for what is not
  -- found, or neither.
  abbrev pub IsChosen : ObjectId → FileRequest → Option (FilePath × ℕ) → Type 0
  IsChosen id r choice =
      (m : Manifest) × (codecs.decode_manifest (content id) ≡ ok m)
      × (choose_file (optimize_manifest m) r.path ≡ choice)

  -- A reply with a body is the content of the chosen file. "Not modified" is for a client that names
  -- the chosen file, and "not found" for a manifest that has neither. Other errors send no file.
  abbrev pub IsReply : ObjectId → FileRequest → Result (Unit {0}) → Reply → Type 0
  IsReply id r result nothing = result ≢ ok tt
  IsReply id r result (internal_server_error message) = result ≡ err message
  IsReply id r result not_found_page = IsChosen id r none
  IsReply id r result not_modified =
      (file : FilePath) × (status : ℕ) × IsChosen id r (some (file, status))
      × (matches_etag enc r file ≡ true)
  IsReply id r result (sent s) =
      (file : FilePath) × (status : ℕ) × IsChosen id r (some (file, status))
      × (matches_etag enc r file ≡ false)
      × IsFile enc codecs content file status r s
      × (result ≡ ok tt)

  abbrev pub IsAnswer : ObjectId → FileRequest → Served → Type 0
  IsAnswer id r (returned result reply) = IsReply id r result reply
  IsAnswer id r blocked = Unit
  IsAnswer id r out_of_attempts = Unit

module _ {O C : Type 0} (enc : Encodings) (codecs : Codecs) (origin : Cas O) (cache : Cas C)
    (origin_view : O → ObjectId → Option Str) (cache_view : C → ObjectId → Option Str)
    (origin_store : IsStore origin origin_view) (cache_store : IsStore cache cache_view)
    (gz : IsGzip codecs) (content : ObjectId → Str)
    (wait_manifest : Str → HandlerState O C → HandlerState O C)
    (wait_file : Str → HandlerState O C → Hydrated × HandlerState O C)
    (manifest_waits : (key : Str) (h : HandlerState O C)
      → IsCoherent codecs origin_view cache_view content h
      → IsCoherent codecs origin_view cache_view content (wait_manifest key h))
    (file_waits : (key : Str) (h : HandlerState O C)
      → IsCoherent codecs origin_view cache_view content h
      → IsCoherent codecs origin_view cache_view content (wait_file key h).1) where
  abbrev IsGood : HandlerState O C → Type 0
  IsGood h = IsCoherent codecs origin_view cache_view content h

  abbrev IsRight : ObjectId → FileRequest → Served × HandlerState O C → Type 0
  IsRight id r (served, h) = IsGood h × IsAnswer enc codecs content id r served

  module _ (id : ObjectId) (r : FileRequest) (file : FilePath) (status : ℕ)
      (chosen : IsChosen enc codecs content id r (some (file, status)))
      (other : matches_etag enc r file ≡ false) where
    after_hydration-IsRight :
        (out : (Result Bool × Reply) × HandlerState O C)
        → IsGood out.1
        → ((s : Sent) × (out.0 ≡ (ok true, sent s)) × IsFile enc codecs content file status r s)
          ⊎ (out.0 ≡ (ok false, nothing))
        → IsRight id r (after_hydration enc codecs origin cache wait_file out)
    after_hydration-IsRight (answer, h) i (inl (s, e, is)) =
        subst (λ a. IsRight id r (after_hydration enc codecs origin cache wait_file (a, h))) (sym e)
          (i, (file, status, chosen, other, is, refl))
    after_hydration-IsRight (answer, h) i (inr e) =
        subst (λ a. IsRight id r (after_hydration enc codecs origin cache wait_file (a, h))) (sym e)
          (i, λ k. cc)

    serve_hydrated-IsRight :
        (out : Hydrated × HandlerState O C)
        → IsGood out.1
        → IsRight id r (serve_hydrated enc codecs origin cache wait_file file status r out)
    serve_hydrated-IsRight (hydration_blocked, h) i = (i, tt)
    serve_hydrated-IsRight (hydrated (ok u), h) i =
        let (j, answer) =
          serve_from_cache-IsServed enc codecs content file status r cache origin_view cache_view
            cache_store gz h i in
        after_hydration-IsRight (serve_from_cache enc codecs cache file status r h) j answer
    serve_hydrated-IsRight (hydrated (err message), h) i = (i, λ k. cc)
    serve_hydrated-IsRight (hydrated panic, h) i = (i, λ k. cc)

    after_cache-IsRight :
        (out : (Result Bool × Reply) × HandlerState O C)
        → IsGood out.1
        → ((s : Sent) × (out.0 ≡ (ok true, sent s)) × IsFile enc codecs content file status r s)
          ⊎ (out.0 ≡ (ok false, nothing))
        → IsRight id r
            (after_cache enc codecs origin cache wait_manifest wait_file file status r out)
    unfolding hydrate_cache_from_origin_and_serve_from_cache
    after_cache-IsRight (answer, h) i (inl (s, e, is)) =
        subst
          (λ a.
            IsRight id r
              (after_cache enc codecs origin cache wait_manifest wait_file file status r (a, h)))
          (sym e) (i, (file, status, chosen, other, is, refl))
    after_cache-IsRight (answer, h) i (inr e) =
        subst
          (λ a.
            IsRight id r
              (after_cache enc codecs origin cache wait_manifest wait_file file status r (a, h)))
          (sym e)
          (serve_hydrated-IsRight (hydrate_cache enc codecs origin cache wait_file file h) (
            hydrate_cache-IsGood enc codecs origin cache origin_view cache_view origin_store
              cache_store gz content wait_file file_waits file h i))

  serve_chosen-IsRight :
      (id : ObjectId) (r : FileRequest) (h : HandlerState O C) (choice : Option (FilePath × ℕ))
      → IsChosen enc codecs content id r choice
      → IsGood h
      → IsRight id r (serve_chosen enc codecs origin cache wait_manifest wait_file r h choice)
  serve_chosen-IsRight id r h none chosen i = (i, chosen)
  serve_chosen-IsRight id r h (some (file, status)) chosen i =
      elim (Bool-cases (matches_etag enc r file)) [
        | inl e ↦ rw e (i, (file, status, chosen, e))
        | inr e ↦
            let (j, answer) =
              serve_from_cache-IsServed enc codecs content file status r cache origin_view
                cache_view cache_store gz h i in
            rw e (
              after_cache-IsRight id r file status chosen e
                (serve_from_cache enc codecs cache file status r h) j answer)
      ]

  serve_resolved-IsRight :
      (id : ObjectId) (r : FileRequest) (out : Option (Result OptimizedManifest) × HandlerState O C)
      → IsGood out.1
      → ((o : OptimizedManifest)
          → out.0 ≡ some (ok o)
          → (m : Manifest) × (codecs.decode_manifest (content id) ≡ ok m)
            × (o ≡ optimize_manifest m))
      → IsRight id r (serve_resolved enc codecs origin cache wait_manifest wait_file r out)
  serve_resolved-IsRight id r (none, h) i is = (i, tt)
  serve_resolved-IsRight id r (some (ok o), h) i is =
      let (m, decoded, e) = is o refl in
      serve_chosen-IsRight id r h (choose_file o r.path)
        (m, decoded, ap (λ x. choose_file x r.path) (sym e)) i
  serve_resolved-IsRight id r (some (err message), h) i is = (i, refl)
  serve_resolved-IsRight id r (some panic, h) i is = (i, λ k. cc)

  -- If the origins and the caches hold, under each id, only the content of the id (the cache of
  -- compressed files in compressed form), and other goroutines keep it so, then after a call they do
  -- again, and the reply is right: a body that is sent is the content of the file that the manifest
  -- of the id names for the path, or of its page for what is not found, with that status, compressed
  -- only for a client that takes it; "not modified" answers a client that names that content, and "not
  -- found" a path for which the manifest has no file and no page.
  pub serve_http_from_manifest-IsRight :
      (attempts : ℕ) (id : ObjectId) (r : FileRequest) (h : HandlerState O C)
      → IsCoherent codecs origin_view cache_view content h
      → IsCoherent codecs origin_view cache_view content
          (serve_http_from_manifest enc codecs origin cache wait_manifest wait_file attempts id r
            h).1
        × IsAnswer enc codecs content id r
            (serve_http_from_manifest enc codecs origin cache wait_manifest wait_file attempts id r
              h).0
  unfolding serve_http_from_manifest
  serve_http_from_manifest-IsRight attempts id r h i =
      let (j, is) =
        resolve_manifest-IsResolved enc codecs origin cache origin_view cache_view origin_store
          cache_store gz content wait_manifest manifest_waits attempts id h i in
      serve_resolved-IsRight id r
        (resolve_manifest enc codecs origin cache wait_manifest attempts id h) j is
