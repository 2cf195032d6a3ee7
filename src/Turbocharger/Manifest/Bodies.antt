-- ===== src/Turbocharger/Manifest/Bodies.antt =====
-- pkg/turbocharger/manifesthandler.go: what is sent from the caches, and what the caches are filled with.
use edgerouter.Base.{
  ℕ, ◌≡◌, refl, sym, ap, subst, ◌⊎◌, inl, inr, Str, bytes, Bool, true, false, Option, none, some,
  Result, ok, Bool-cases,
}
use edgerouter.Turbocharger.Ids.{ObjectId, Encodings, etag_gzipped, etag_uncompressed}
use edgerouter.Turbocharger.Store.{
  Cas, Got, found, failed, ReadError, not_exist, wraps_not_exist, other_error,
}
use edgerouter.Turbocharger.Store.Contract.{IsStore}
use edgerouter.Turbocharger.Manifest.{
  or_octet_stream, FilePath, FileRequest, client_supports_gzip, Codecs, Sent, Reply, nothing, sent,
  ext,
}
use edgerouter.Turbocharger.Manifest.State.{HandlerState, log_read_error}
use edgerouter.Turbocharger.Manifest.Caches.{
  send_to_client, was_served, from_uncompressed, from_gzipped, serve_from_cache,
}
use edgerouter.Turbocharger.Manifest.Coherent.{
  Holds, get_object-Holds, found-is, IsGzip, IsCoherent, with_gzipped, with_uncompressed,
}

-- A reply with the content of a file: compressed only for a client that takes that.
pub record IsFile (enc : Encodings) (codecs : Codecs) (content : ObjectId → Str) (file : FilePath)
    (status : ℕ) (r : FileRequest) (s : Sent) : Type 0 where
  pub has_status : s.status ≡ status
  pub has_type : s.content_type ≡ or_octet_stream (codecs.mime_type_by_extension (ext file.path))
  pub has_body :
      ((s.content_encoding ≡ some (bytes "gzip"))
        × (client_supports_gzip r ≡ true)
        × (s.etag ≡ etag_gzipped enc file.content_id)
        × (s.body ≡ codecs.gzip (content file.content_id)))
      ⊎ ((s.content_encoding ≡ none)
          × (s.etag ≡ etag_uncompressed enc file.content_id)
          × (s.body ≡ content file.content_id))

module _ (enc : Encodings) (codecs : Codecs) (content : ObjectId → Str) (file : FilePath)
    (status : ℕ) (r : FileRequest) where
  abbrev pub IsSent : Result (Unit {0}) × Reply → Type 0
  IsSent answer =
      (s : Sent) × (answer ≡ (ok tt, sent s)) × IsFile enc codecs content file status r s

  pub plain-IsSent :
      (body : Str)
      → body ≡ content file.content_id
      → IsSent (send_to_client enc codecs file status r body false)
  unfolding send_to_client
  plain-IsSent body is =
      (_, refl, record { has_status = refl; has_type = refl; has_body = inr (refl, refl, is) })

  pub gzip-IsSent :
      IsGzip codecs
      → (body : Str) → body ≡ codecs.gzip (content file.content_id)
      → IsSent (send_to_client enc codecs file status r body true)
  unfolding send_to_client
  gzip-IsSent gz body is = elim (Bool-cases (client_supports_gzip r)) [
    | inl e ↦ (
      _,
      rw e refl,
      record { has_status = refl; has_type = refl; has_body = inl (refl, e, refl, is) },
    )
    | inr e ↦ (
      _,
      rw (e, is, gz (content file.content_id)) refl,
      record { has_status = refl; has_type = refl; has_body = inr (refl, refl, refl) },
    )
  ]

  module _ {O C : Type 0} (cache : Cas C) (origin_view : O → ObjectId → Option Str)
      (cache_view : C → ObjectId → Option Str) (store : IsStore cache cache_view)
      (gz : IsGzip codecs) where
    -- The state is coherent, and the answer is the file, or that the file is in no cache.
    abbrev pub IsServed : (Result Bool × Reply) × HandlerState O C → Type 0
    IsServed (answer, h) =
        IsCoherent codecs origin_view cache_view content h
        × (((s : Sent) × (answer ≡ (ok true, sent s)) × IsFile enc codecs content file status r s)
            ⊎ (answer ≡ (ok false, nothing)))

    was_served-IsServed :
        (answer : Result (Unit {0}) × Reply) (h : HandlerState O C)
        → IsCoherent codecs origin_view cache_view content h
        → IsSent answer
        → IsServed (was_served answer h)
    was_served-IsServed answer h i (s, is, file_sent) =
        subst (λ a. IsServed (was_served a h)) (sym is) (i, inl (s, refl, file_sent))

    log_read_error-IsCoherent :
        (message : Str) (e : ReadError) (h : HandlerState O C)
        → IsCoherent codecs origin_view cache_view content h
        → IsCoherent codecs origin_view cache_view content (log_read_error message e h)
    log_read_error-IsCoherent message not_exist h i = i
    log_read_error-IsCoherent message (wraps_not_exist reason) h i = i
    log_read_error-IsCoherent message (other_error reason) h i = i

    from_uncompressed-IsServed :
        (h : HandlerState O C) (got : Got) (c : C)
        → cache.get_object file.content_id h.uncompressed ≡ (got, c)
        → IsCoherent codecs origin_view cache_view content h
        → IsServed (from_uncompressed enc codecs cache file status r h (got, c))
    from_uncompressed-IsServed h (found body) c e i =
        was_served-IsServed _ _
          (with_uncompressed codecs origin_view cache_view content h i c (holds c e))
          (plain-IsSent body (
            found-is cache cache_view store content file.content_id h.uncompressed body
              i.uncompressed (ap (λ p. p.0) e)))
      where
        holds :
            (c : C)
            → cache.get_object file.content_id h.uncompressed ≡ (found body, c)
            → Holds cache_view content c
        holds c e = subst (Holds cache_view content) (ap (λ p. p.1) e) (
            get_object-Holds cache cache_view store content file.content_id h.uncompressed
              i.uncompressed)
    from_uncompressed-IsServed h (failed error) c e i = (
      log_read_error-IsCoherent _ error _ (
          with_uncompressed codecs origin_view cache_view content h i c (
            subst (Holds cache_view content) (ap (λ p. p.1) e) (
              get_object-Holds cache cache_view store content file.content_id h.uncompressed
                i.uncompressed))),
      inr refl,
    )

    from_gzipped-IsServed :
        (h : HandlerState O C) (got : Got) (c : C)
        → cache.get_object file.content_id h.gzipped ≡ (got, c)
        → IsCoherent codecs origin_view cache_view content h
        → IsServed (from_gzipped enc codecs cache file status r h (got, c))
    from_gzipped-IsServed h got c e i = go got e
      where
        zip : ObjectId → Str
        zip id = codecs.gzip (content id)

        i' : IsCoherent codecs origin_view cache_view content (record h { gzipped = c })
        i' = with_gzipped codecs origin_view cache_view content h i c (
            subst (Holds cache_view zip) (ap (λ p. p.1) e)
              (get_object-Holds cache cache_view store zip file.content_id h.gzipped i.gzipped))

        go :
            (g : Got)
            → cache.get_object file.content_id h.gzipped ≡ (g, c)
            → IsServed (from_gzipped enc codecs cache file status r h (g, c))
        go (found body) k = was_served-IsServed _ _ i' (
            gzip-IsSent gz body (
              found-is cache cache_view store zip file.content_id h.gzipped body i.gzipped
                (ap (λ p. p.0) k)))
        go (failed error) k =
            from_uncompressed-IsServed _ _ _ refl (log_read_error-IsCoherent _ error _ i')

    pub serve_from_cache-IsServed :
        (h : HandlerState O C)
        → IsCoherent codecs origin_view cache_view content h
        → IsServed (serve_from_cache enc codecs cache file status r h)
    unfolding serve_from_cache
    serve_from_cache-IsServed h i = from_gzipped-IsServed h _ _ refl i
