-- ===== src/Turbocharger/Manifest/Hits.antt =====
-- pkg/turbocharger/manifesthandler.go: a file that is in a cache is sent, and one that is in none is not.
use edgerouter.Base.{
  ℕ, ◌≡◌, refl, sym, ap, ◌∙◌, ◌⊎◌, inl, inr, Str, bytes, Bool, true, false, Option, none, some,
  Result, ok, ◌∷◌,
}
use edgerouter.Turbocharger.Ids.{ObjectId, Encodings}
use edgerouter.Turbocharger.Store.{
  Cas, Got, found, failed, ReadError, not_exist, wraps_not_exist, other_error,
}
use edgerouter.Turbocharger.Store.Contract.{IsStore, IsReliable}
use edgerouter.Turbocharger.Manifest.{FilePath, FileRequest, Codecs, Sent, Reply, nothing, sent}
use edgerouter.Turbocharger.Manifest.State.{HandlerState}
use edgerouter.Turbocharger.Manifest.Caches.{
  from_gzipped, from_uncompressed, was_served, serve_from_cache,
}
use edgerouter.Turbocharger.Manifest.Coherent.{found-is, IsGzip, IsCoherent}
use edgerouter.Turbocharger.Manifest.Bodies.{IsSent, plain-IsSent, gzip-IsSent}

abbrev pub IsHit : {S : Type 0} → (Result Bool × Reply) × S → Type 0
IsHit out = (s : Sent) × (out.0 ≡ (ok true, sent s))

-- Nothing was sent, and in the state the file is in no cache.
pub record IsMiss {O C : Type 0} (cache_view : C → ObjectId → Option Str) (file : FilePath)
    (before : HandlerState O C) (out : (Result Bool × Reply) × HandlerState O C) : Type 0 where
  pub answer : out.0 ≡ (ok false, nothing)
  pub same_files : out.1.files ≡ before.files
  pub same_locks : out.1.file_locks ≡ before.file_locks
  pub not_gzipped : cache_view out.1.gzipped file.content_id ≡ none
  pub not_uncompressed : cache_view out.1.uncompressed file.content_id ≡ none

module _ {O C : Type 0} (enc : Encodings) (codecs : Codecs) (cache : Cas C)
    (origin_view : O → ObjectId → Option Str) (cache_view : C → ObjectId → Option Str)
    (cache_store : IsStore cache cache_view) (cache_reliable : IsReliable cache cache_view)
    (gz : IsGzip codecs) (content : ObjectId → Str) (file : FilePath) (status : ℕ)
    (r : FileRequest) where
  abbrev IsGood : HandlerState O C → Type 0
  IsGood h = IsCoherent codecs origin_view cache_view content h

  was_served-IsHit :
      (answer : Result (Unit {0}) × Reply) (h : HandlerState O C)
      → IsSent enc codecs content file status r answer
      → IsHit (was_served answer h)
  was_served-IsHit answer h (s, e, is) = (s, ap (λ a. (was_served a h).0) e)

  uncompressed-IsHit :
      (h : HandlerState O C) (got : Got) (c : C) (body : Str)
      → got ≡ found body
      → body ≡ content file.content_id
      → IsHit (from_uncompressed enc codecs cache file status r h (got, c))
  uncompressed-IsHit h (found b) c body e is =
      let same : b ≡ body = cc in
      was_served-IsHit _ (record h { uncompressed = c })
        (plain-IsSent enc codecs content file status r b (same ∙ is))
  uncompressed-IsHit h (failed error) c body e is = cc

  gzipped-IsHit :
      (h : HandlerState O C) (got : Got) (c : C)
      → cache.get_object file.content_id h.gzipped ≡ (got, c)
      → IsGood h
      → ((b : Str) × (got ≡ found b))
        ⊎ ((b : Str) × (cache_view h.uncompressed file.content_id ≡ some b))
      → IsHit (from_gzipped enc codecs cache file status r h (got, c))
  gzipped-IsHit h (found b) c e i there =
      was_served-IsHit _ (record h { gzipped = c })
        (gzip-IsSent enc codecs content file status r gz b (
          found-is cache cache_view cache_store (λ id. codecs.gzip (content id)) file.content_id
            h.gzipped b i.gzipped (ap (λ p. p.0) e)))
  gzipped-IsHit h (failed error) c e i (inl (b, is)) = cc
  gzipped-IsHit h (failed error) c e i (inr (b, is)) = logged error
    where
      there : (cache.get_object file.content_id h.uncompressed).0 ≡ found b
      there = cache_reliable.get_there file.content_id h.uncompressed b is

      logged : (e : ReadError) → IsHit (from_gzipped enc codecs cache file status r h (failed e, c))
      logged not_exist =
          uncompressed-IsHit (record h { gzipped = c })
            (cache.get_object file.content_id h.uncompressed).0
            (cache.get_object file.content_id h.uncompressed).1 b there
            (i.uncompressed file.content_id b is)
      logged (wraps_not_exist m) =
          uncompressed-IsHit
            (record h { gzipped = c; log = bytes "read gzipped cache failed" ∷ h.log })
            (cache.get_object file.content_id h.uncompressed).0
            (cache.get_object file.content_id h.uncompressed).1 b there
            (i.uncompressed file.content_id b is)
      logged (other_error m) =
          uncompressed-IsHit
            (record h { gzipped = c; log = bytes "read gzipped cache failed" ∷ h.log })
            (cache.get_object file.content_id h.uncompressed).0
            (cache.get_object file.content_id h.uncompressed).1 b there
            (i.uncompressed file.content_id b is)

  pub serve_from_cache-IsHit :
      (h : HandlerState O C)
      → IsGood h
      → ((b : Str) × (cache_view h.gzipped file.content_id ≡ some b))
        ⊎ ((b : Str) × (cache_view h.uncompressed file.content_id ≡ some b))
      → IsHit (serve_from_cache enc codecs cache file status r h)
  unfolding serve_from_cache
  serve_from_cache-IsHit h i there = gzipped-IsHit h _ _ refl i (elim there [
    | inl (b, is) ↦ inl (b, cache_reliable.get_there file.content_id h.gzipped b is)
    | inr is ↦ inr is
  ])

  uncompressed-IsMiss :
      (before h : HandlerState O C) (got : Got) (c : C)
      → cache.get_object file.content_id h.uncompressed ≡ (got, c)
      → h.files ≡ before.files
      → h.file_locks ≡ before.file_locks
      → cache_view h.gzipped file.content_id ≡ none
      → cache_view h.uncompressed file.content_id ≡ none
      → IsMiss cache_view file before (from_uncompressed enc codecs cache file status r h (got, c))
  uncompressed-IsMiss before h (found b) c e files locks no_zip no_plain =
      let there = cache_store.get_found file.content_id h.uncompressed b (ap (λ p. p.0) e) in
      let clash : none ≡ some b = sym no_plain ∙ there in cc
  uncompressed-IsMiss before h (failed error) c e files locks no_zip no_plain = logged error
    where
      plain : cache_view c file.content_id ≡ none
      plain =
          ap (λ p. cache_view p.1 file.content_id) (sym e)
          ∙ cache_store.get_keeps file.content_id file.content_id h.uncompressed
          ∙ no_plain

      logged :
          (e : ReadError)
          → IsMiss cache_view file before
              (from_uncompressed enc codecs cache file status r h (failed e, c))
      logged not_exist = record {
        answer = refl;
        same_files = files;
        same_locks = locks;
        not_gzipped = no_zip;
        not_uncompressed = plain;
      }
      logged (wraps_not_exist m) = record {
        answer = refl;
        same_files = files;
        same_locks = locks;
        not_gzipped = no_zip;
        not_uncompressed = plain;
      }
      logged (other_error m) = record {
        answer = refl;
        same_files = files;
        same_locks = locks;
        not_gzipped = no_zip;
        not_uncompressed = plain;
      }

  gzipped-IsMiss :
      (h : HandlerState O C) (got : Got) (c : C)
      → cache.get_object file.content_id h.gzipped ≡ (got, c)
      → cache_view h.gzipped file.content_id ≡ none
      → cache_view h.uncompressed file.content_id ≡ none
      → IsMiss cache_view file h (from_gzipped enc codecs cache file status r h (got, c))
  gzipped-IsMiss h (found b) c e no_zip no_plain =
      let there = cache_store.get_found file.content_id h.gzipped b (ap (λ p. p.0) e) in
      let clash : none ≡ some b = sym no_zip ∙ there in cc
  gzipped-IsMiss h (failed error) c e no_zip no_plain = logged error
    where
      zip : cache_view c file.content_id ≡ none
      zip =
          ap (λ p. cache_view p.1 file.content_id) (sym e)
          ∙ cache_store.get_keeps file.content_id file.content_id h.gzipped
          ∙ no_zip

      logged :
          (e : ReadError)
          → IsMiss cache_view file h (from_gzipped enc codecs cache file status r h (failed e, c))
      logged not_exist =
          uncompressed-IsMiss h (record h { gzipped = c }) _ _ refl refl refl zip no_plain
      logged (wraps_not_exist m) =
          uncompressed-IsMiss h
            (record h { gzipped = c; log = bytes "read gzipped cache failed" ∷ h.log }) _ _ refl
            refl refl zip no_plain
      logged (other_error m) =
          uncompressed-IsMiss h
            (record h { gzipped = c; log = bytes "read gzipped cache failed" ∷ h.log }) _ _ refl
            refl refl zip no_plain

  pub serve_from_cache-IsMiss :
      (h : HandlerState O C)
      → cache_view h.gzipped file.content_id ≡ none
      → cache_view h.uncompressed file.content_id ≡ none
      → IsMiss cache_view file h (serve_from_cache enc codecs cache file status r h)
  unfolding serve_from_cache
  serve_from_cache-IsMiss h no_zip no_plain = gzipped-IsMiss h _ _ refl no_zip no_plain
