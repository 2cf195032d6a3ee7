-- ===== src/Turbocharger/Manifest/Delivered.antt =====
-- pkg/turbocharger/manifesthandler.go: the files of the origin's manifests are delivered.
use edgerouter.Base.{
  ℕ, suc, ◌≡◌, sym, ap, ◌∙◌, subst, ◌⊎◌, inl, inr, Str, true, false, Option, none, some, Result, ok,
  ok-injective,
}
use edgerouter.Turbocharger.Ids.{ObjectId, Encodings, id_string}
use edgerouter.Turbocharger.Store.{Cas}
use edgerouter.Turbocharger.Store.Contract.{IsStore, IsReliable}
use edgerouter.Turbocharger.Manifest.{
  FilePath, Manifest, OptimizedManifest, optimize_manifest, FileRequest, Codecs, Sent, sent,
  not_modified,
}
use edgerouter.Turbocharger.Manifest.State.{Hydrated, HandlerState, Served, returned}
use edgerouter.Turbocharger.Manifest.Resolve.{resolve_manifest}
use edgerouter.Turbocharger.Manifest.Serve.{
  choose_file, matches_etag, serve_resolved, serve_http_from_manifest,
}
use edgerouter.Turbocharger.Manifest.Coherent.{IsGzip, IsCoherent}
use edgerouter.Turbocharger.Manifest.Bodies.{IsFile}
use edgerouter.Turbocharger.Manifest.Answers.{IsAnswer, serve_http_from_manifest-IsRight}
use edgerouter.Turbocharger.Manifest.Resolved.{resolve_manifest-IsResolved}
use edgerouter.Turbocharger.Manifest.Available.{IsFree, IsReturned, serve_chosen-IsReturned}
use edgerouter.Turbocharger.Manifest.Located.{IsFoundFrom, resolve_manifest-IsFoundFrom}

-- The call returned without an error: with "not modified" for a client that names the file's content,
-- and otherwise with the content.
abbrev pub IsDelivered :
    Encodings → Codecs → (ObjectId → Str) → FilePath → ℕ → FileRequest → Served → Type 0
IsDelivered enc codecs content file status r served =
    ((served ≡ returned (ok tt) not_modified) × (matches_etag enc r file ≡ true))
    ⊎ ((s : Sent) × (served ≡ returned (ok tt) (sent s))
        × (matches_etag enc r file ≡ false)
        × IsFile enc codecs content file status r s)

some-inj : {A : Type 0} {a b : A} → some a ≡ some b → a ≡ b
some-inj p = cc

module _ {O C : Type 0} (enc : Encodings) (codecs : Codecs) (origin : Cas O) (cache : Cas C)
    (origin_view : O → ObjectId → Option Str) (cache_view : C → ObjectId → Option Str)
    (origin_store : IsStore origin origin_view) (cache_store : IsStore cache cache_view)
    (origin_reliable : IsReliable origin origin_view) (cache_reliable : IsReliable cache cache_view)
    (gz : IsGzip codecs) (content : ObjectId → Str)
    (wait_manifest : Str → HandlerState O C → HandlerState O C)
    (wait_file : Str → HandlerState O C → Hydrated × HandlerState O C)
    (manifest_waits : (key : Str) (h : HandlerState O C)
      → IsCoherent codecs origin_view cache_view content h
      → IsCoherent codecs origin_view cache_view content (wait_manifest key h))
    (file_waits : (key : Str) (h : HandlerState O C)
      → IsCoherent codecs origin_view cache_view content h
      → IsCoherent codecs origin_view cache_view content (wait_file key h).1) where
  abbrev IsGood : HandlerState O C → Type 0
  IsGood h = IsCoherent codecs origin_view cache_view content h

  serve_http_from_manifest-IsReturned :
      (attempts : ℕ) (id : ObjectId) (r : FileRequest) (h : HandlerState O C) (m : Manifest)
      (file : FilePath) (status : ℕ)
      → IsCoherent codecs origin_view cache_view content h
      → codecs.decode_manifest (content id) ≡ ok m
      → choose_file (optimize_manifest m) r.path ≡ some (file, status)
      → origin_view h.manifests id ≡ some (content id)
      → origin_view h.files file.content_id ≡ some (content file.content_id)
      → IsFree (id_string enc id) h.manifest_locks
      → IsFree (id_string enc file.content_id) h.file_locks
      → IsReturned
          (serve_http_from_manifest enc codecs origin cache wait_manifest wait_file
            (suc attempts)
            id
            r
            h).0
  unfolding serve_http_from_manifest
  serve_http_from_manifest-IsReturned attempts id r h m file status i decoded chosen has_manifest
        has_file free free_file =
      resolved (resolve_manifest enc codecs origin cache wait_manifest (suc attempts) id h)
        (resolve_manifest-IsFoundFrom enc codecs origin cache origin_view cache_view cache_store
          origin_reliable content wait_manifest id m decoded attempts h i free has_manifest)
        (resolve_manifest-IsResolved enc codecs origin cache origin_view cache_view origin_store
          cache_store gz content wait_manifest manifest_waits (suc attempts) id h i).0
    where
      resolved :
          (out : Option (Result OptimizedManifest) × HandlerState O C)
          → IsFoundFrom enc codecs origin cache origin_view cache_view cache_store origin_reliable
              content wait_manifest id m decoded h out
          → IsGood out.1
          → IsReturned (serve_resolved enc codecs origin cache wait_manifest wait_file r out).0
      resolved (none, h') f j = let p = f.result in cc
      resolved (some result, h') f j =
          let same : result ≡ ok (optimize_manifest m) = let p = f.result in cc in
          rw (same, chosen)
            (serve_chosen-IsReturned enc codecs origin cache origin_view cache_view origin_store
              cache_store origin_reliable cache_reliable gz content wait_manifest wait_file
              manifest_waits file_waits r h' file status j
              (subst (IsFree (id_string enc file.content_id)) (sym f.same_locks) free_file)
              (subst (λ o. origin_view o file.content_id ≡ some (content file.content_id))
                (sym f.same_files) has_file))

  same_choice :
      (id : ObjectId) (r : FileRequest) (m m' : Manifest) (choice choice' : FilePath × ℕ)
      → codecs.decode_manifest (content id) ≡ ok m
      → choose_file (optimize_manifest m) r.path ≡ some choice
      → codecs.decode_manifest (content id) ≡ ok m'
      → choose_file (optimize_manifest m') r.path ≡ some choice'
      → choice' ≡ choice
  same_choice id r m m' choice choice' decoded chosen decoded' chosen' = some-inj (
      sym chosen'
      ∙ ap (λ n. choose_file (optimize_manifest n) r.path) (ok-injective (sym decoded' ∙ decoded))
      ∙ chosen)

  answer-IsDelivered :
      (id : ObjectId) (m : Manifest) (file : FilePath) (status : ℕ) (r : FileRequest)
      (served : Served)
      → codecs.decode_manifest (content id) ≡ ok m
      → choose_file (optimize_manifest m) r.path ≡ some (file, status)
      → IsReturned served
      → IsAnswer enc codecs content id r served
      → IsDelivered enc codecs content file status r served
  answer-IsDelivered id m file status r served decoded chosen (reply, e, inl same) answer =
      let done = e ∙ ap (λ q. returned (ok tt) q) same in
      let (file', status', (m', decoded', chosen'), matches) =
        subst (IsAnswer enc codecs content id r) done answer in
      let pair =
        same_choice id r m m' (file, status) (file', status') decoded chosen decoded' chosen' in
      inl (done, subst (λ p. matches_etag enc r p.0 ≡ true) pair matches)
  answer-IsDelivered id m file status r served decoded chosen (reply, e, inr (s, same)) answer =
      let done = e ∙ ap (λ q. returned (ok tt) q) same in
      let (file', status', (m', decoded', chosen'), other, is, _) =
        subst (IsAnswer enc codecs content id r) done answer in
      let pair =
        same_choice id r m m' (file, status) (file', status') decoded chosen decoded' chosen' in
      inr (
        s,
        done,
        subst (λ p. matches_etag enc r p.0 ≡ false) pair other,
        subst (λ p. IsFile enc codecs content p.0 p.1 r s) pair is,
      )

  -- If the stores do not fail and hold, under each id, only the content of the id (the cache of
  -- compressed files in compressed form), other goroutines keep it so, the origins have the manifest
  -- and the file that it names for the request's path (or its page for what is not found), and nobody
  -- holds the locks for the two, then the call returns without an error: with "not modified" if the
  -- client names the file's content, and otherwise with that content and status, compressed only for a
  -- client that takes it. It neither blocks nor fails, whichever of the two is cached already.
  pub serve_http_from_manifest-IsDelivered :
      (attempts : ℕ) (id : ObjectId) (r : FileRequest) (h : HandlerState O C) (m : Manifest)
      (file : FilePath) (status : ℕ)
      → IsCoherent codecs origin_view cache_view content h
      → codecs.decode_manifest (content id) ≡ ok m
      → choose_file (optimize_manifest m) r.path ≡ some (file, status)
      → origin_view h.manifests id ≡ some (content id)
      → origin_view h.files file.content_id ≡ some (content file.content_id)
      → IsFree (id_string enc id) h.manifest_locks
      → IsFree (id_string enc file.content_id) h.file_locks
      → IsDelivered enc codecs content file status r
          (serve_http_from_manifest enc codecs origin cache wait_manifest wait_file
            (suc attempts)
            id
            r
            h).0
  serve_http_from_manifest-IsDelivered attempts id r h m file status i decoded chosen has_manifest
        has_file free free_file =
      answer-IsDelivered id m file status r _ decoded chosen
        (serve_http_from_manifest-IsReturned attempts id r h m file status i decoded chosen
          has_manifest has_file free free_file)
        (serve_http_from_manifest-IsRight enc codecs origin cache origin_view cache_view
          origin_store cache_store gz content wait_manifest wait_file manifest_waits file_waits
          (suc attempts) id r h i).1
