-- ===== src/Turbocharger/Manifest/Fetched.antt =====
-- pkg/turbocharger/manifesthandler.go: a manifest that is fetched is the one under its id.
use edgerouter.Base.{◌≡◌, refl, sym, ap, ◌∙◌, subst, Str, Option, Result, ok, err, panic}
use edgerouter.Turbocharger.Ids.{ObjectId, Encodings}
use edgerouter.Turbocharger.Store.{
  Cas, Got, found, failed, ReadError, not_exist, wraps_not_exist, other_error,
}
use edgerouter.Turbocharger.Store.Contract.{IsStore}
use edgerouter.Turbocharger.Manifest.{Manifest, Codecs}
use edgerouter.Turbocharger.Manifest.State.{HandlerState, log_unexpected_error}
use edgerouter.Turbocharger.Manifest.Resolve.{
  log_insert, manifest_from_origin, manifest_from_cache, fetch_manifest,
}
use edgerouter.Turbocharger.Manifest.Coherent.{
  Holds, get_object-Holds, insert_object-Holds, found-is, IsGzip, IsCoherent, with_manifests,
  with_uncompressed,
}

module _ {O C : Type 0} (enc : Encodings) (codecs : Codecs) (origin : Cas O) (cache : Cas C)
    (origin_view : O → ObjectId → Option Str) (cache_view : C → ObjectId → Option Str)
    (origin_store : IsStore origin origin_view) (cache_store : IsStore cache cache_view)
    (gz : IsGzip codecs) (content : ObjectId → Str) where
  abbrev IsGood : HandlerState O C → Type 0
  IsGood h = IsCoherent codecs origin_view cache_view content h

  -- The state is coherent, and the manifest is the decoded content of the id.
  abbrev pub IsFetched : ObjectId → Result Manifest × HandlerState O C → Type 0
  IsFetched id (r, h) =
      IsGood h × ((m : Manifest) → r ≡ ok m → codecs.decode_manifest (content id) ≡ ok m)

  after_get_manifests :
      (id : ObjectId) (h : HandlerState O C) (got : Got) (o : O)
      → origin.get_object id h.manifests ≡ (got, o)
      → IsGood h
      → IsGood (record h { manifests = o })
  after_get_manifests id h got o e i = with_manifests codecs origin_view cache_view content h i o (
      subst (Holds origin_view content) (ap (λ p. p.1) e)
        (get_object-Holds origin origin_view origin_store content id h.manifests i.manifests))

  log_insert-IsGood :
      (r : Result (Unit {0})) (h : HandlerState O C) → IsGood h → IsGood (log_insert r h)
  log_insert-IsGood (ok u) h i = i
  log_insert-IsGood (err message) h i = i
  log_insert-IsGood panic h i = i

  manifest_from_origin-IsFetched :
      (id : ObjectId) (h : HandlerState O C) (got : Got) (o : O)
      → origin.get_object id h.manifests ≡ (got, o)
      → IsGood h
      → IsFetched id (manifest_from_origin codecs origin cache id h (got, o))
  manifest_from_origin-IsFetched id h (failed error) o e i =
      (after_get_manifests id h (failed error) o e i, λ m k. cc)
  manifest_from_origin-IsFetched id h (found buf) o e i =
      let is : buf ≡ content id =
        found-is origin origin_view origin_store content id h.manifests buf i.manifests
          (ap (λ p. p.0) e) in
      let i' = after_get_manifests id h (found buf) o e i in
      (
        log_insert-IsGood _ _ (
            with_uncompressed codecs origin_view cache_view content (record h { manifests = o }) i'
              _
              (insert_object-Holds cache cache_view cache_store content id _ _ h.uncompressed is
                i.uncompressed)),
        λ m k. ap codecs.decode_manifest (sym is) ∙ k,
      )

  log_unexpected_error-IsGood :
      (message : Str) (e : ReadError) (h : HandlerState O C)
      → IsGood h
      → IsGood (log_unexpected_error message e h)
  log_unexpected_error-IsGood message not_exist h i = i
  log_unexpected_error-IsGood message (wraps_not_exist reason) h i = i
  log_unexpected_error-IsGood message (other_error reason) h i = i

  manifest_from_cache-IsFetched :
      (id : ObjectId) (h : HandlerState O C) (got : Got) (c : C)
      → cache.get_object id h.uncompressed ≡ (got, c)
      → IsGood h
      → IsFetched id (manifest_from_cache codecs origin cache id h (got, c))
  manifest_from_cache-IsFetched id h got c e i = go got e
    where
      i' : IsGood (record h { uncompressed = c })
      i' = with_uncompressed codecs origin_view cache_view content h i c (
          subst (Holds cache_view content) (ap (λ p. p.1) e) (
            get_object-Holds cache cache_view cache_store content id h.uncompressed i.uncompressed))

      go :
          (g : Got)
          → cache.get_object id h.uncompressed ≡ (g, c)
          → IsFetched id (manifest_from_cache codecs origin cache id h (g, c))
      go (found buf) k =
          let is : buf ≡ content id =
            found-is cache cache_view cache_store content id h.uncompressed buf i.uncompressed
              (ap (λ p. p.0) k) in
          (i', λ m j. ap codecs.decode_manifest (sym is) ∙ j)
      go (failed error) k =
          manifest_from_origin-IsFetched id _ _ _ refl (log_unexpected_error-IsGood _ error _ i')

  pub fetch_manifest-IsFetched :
      (id : ObjectId) (h : HandlerState O C)
      → IsGood h
      → IsFetched id (fetch_manifest codecs origin cache id h)
  unfolding fetch_manifest
  fetch_manifest-IsFetched id h i = manifest_from_cache-IsFetched id h _ _ refl i
