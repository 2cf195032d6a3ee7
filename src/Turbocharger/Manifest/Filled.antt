-- ===== src/Turbocharger/Manifest/Filled.antt =====
-- pkg/turbocharger/manifesthandler.go: filling the caches keeps them coherent.
use edgerouter.Base.{
  ℕ, ◌≡◌, refl, ap, subst, inl, inr, Str, Option, none, some, Result, ok, err, panic, Bool-cases,
}
use edgerouter.Locks.{MutexMap, Attempt, unlock_func, try_again, try_lock_internal, unlock}
use edgerouter.Turbocharger.Ids.{ObjectId, Encodings}
use edgerouter.Turbocharger.Store.{BrokenRead, Cas, Got, found, failed}
use edgerouter.Turbocharger.Store.Contract.{IsStore}
use edgerouter.Turbocharger.Manifest.{FilePath, Codecs, is_expected_to_compress_well}
use edgerouter.Turbocharger.Manifest.State.{HandlerState, Hydrated, hydrated, hydration_blocked}
use edgerouter.Turbocharger.Manifest.Caches.{
  insert_read, insert_into_cache, unlock_file, hydrate_locked, hydrate_cache,
}
use edgerouter.Turbocharger.Manifest.Coherent.{
  Holds, get_object-Holds, insert_object-Holds, found-is, IsGzip, IsCoherent, with_files,
  with_gzipped, with_uncompressed,
}

module _ {O C : Type 0} (enc : Encodings) (codecs : Codecs) (origin : Cas O) (cache : Cas C)
    (origin_view : O → ObjectId → Option Str) (cache_view : C → ObjectId → Option Str)
    (origin_store : IsStore origin origin_view) (cache_store : IsStore cache cache_view)
    (gz : IsGzip codecs) (content : ObjectId → Str) where
  abbrev IsGood : HandlerState O C → Type 0
  IsGood h = IsCoherent codecs origin_view cache_view content h

  after_get_files :
      (id : ObjectId) (h : HandlerState O C) (got : Got) (o : O)
      → origin.get_object id h.files ≡ (got, o)
      → IsGood h
      → IsGood (record h { files = o })
  after_get_files id h got o e i = with_files codecs origin_view cache_view content h i o (
      subst (Holds origin_view content) (ap (λ p. p.1) e)
        (get_object-Holds origin origin_view origin_store content id h.files i.files))

  insert_into_cache-IsGood :
      (file : FilePath) (h : HandlerState O C) (got : Got) (o : O)
      → origin.get_object file.content_id h.files ≡ (got, o)
      → IsGood h
      → (wait_file : Str → HandlerState O C → Hydrated × HandlerState O C)
      → IsGood (insert_into_cache enc codecs origin cache wait_file file h (got, o)).1
  insert_into_cache-IsGood file h (failed error) o e i wait_file =
      after_get_files file.content_id h (failed error) o e i
  insert_into_cache-IsGood file h (found body) o e i wait_file =
      let i' = after_get_files file.content_id h (found body) o e i in
      let is : body ≡ content file.content_id =
        found-is origin origin_view origin_store content file.content_id h.files body i.files
          (ap (λ p. p.0) e) in
      read (origin.read_error file.content_id o) i' is
    where
      read :
          (broken : Option BrokenRead)
          → IsGood (record h { files = o })
          → body ≡ content file.content_id
          → IsGood
              (insert_read enc codecs origin cache wait_file file
                (record h { files = o })
                body
                broken).1
      read (some (before, error)) i' is =
          elim (Bool-cases (is_expected_to_compress_well file.path)) [
            | inl f ↦ rw f i'
            | inr f ↦ rw f i'
          ]
      read none i' is = elim (Bool-cases (is_expected_to_compress_well file.path)) [
        | inl f ↦ rw f (
            with_gzipped codecs origin_view cache_view content (record h { files = o }) i' _
              (insert_object-Holds cache cache_view cache_store (λ id. codecs.gzip (content id))
                file.content_id _ _ h.gzipped (ap codecs.gzip is) i.gzipped))
        | inr f ↦ rw f (
            with_uncompressed codecs origin_view cache_view content (record h { files = o }) i' _
              (insert_object-Holds cache cache_view cache_store content file.content_id _ _
                h.uncompressed is i.uncompressed))
      ]

  unlock_file-IsGood :
      (key : Str) (chan : ℕ) (out : Hydrated × HandlerState O C)
      → IsGood out.1
      → IsGood (unlock_file key chan out).1
  unlock_file-IsGood key chan (hydration_blocked, h) i = i
  unlock_file-IsGood key chan (hydrated result, h) i = go (unlock key chan h.file_locks)
    where
      go :
          (m : Result MutexMap)
          → IsGood
              (elim m as (λ _. Hydrated × HandlerState O C) [
                | ok n ↦ (hydrated result, record h { file_locks = n })
                | err message ↦ (hydrated (err message), h)
                | panic ↦ (hydrated panic, h)
              ]).1
      go (ok n) = i
      go (err message) = i
      go panic = i

  hydrate_locked-IsGood :
      (wait_file : Str → HandlerState O C → Hydrated × HandlerState O C)
      → ((key : Str) (h : HandlerState O C) → IsGood h → IsGood (wait_file key h).1)
      → (file : FilePath) (h : HandlerState O C) (locked : Attempt × MutexMap) → IsGood h
      → IsGood (hydrate_locked enc codecs origin cache wait_file file h locked).1
  hydrate_locked-IsGood wait_file waits file h (try_again chan, n) i = waits _ _ i
  hydrate_locked-IsGood wait_file waits file h (unlock_func key chan, n) i =
      unlock_file-IsGood key chan
        (insert_into_cache enc codecs origin cache wait_file file (record h { file_locks = n })
          (origin.get_object file.content_id h.files))
        (insert_into_cache-IsGood file (record h { file_locks = n }) _ _ refl i wait_file)

  pub hydrate_cache-IsGood :
      (wait_file : Str → HandlerState O C → Hydrated × HandlerState O C)
      → ((key : Str) (h : HandlerState O C) → IsGood h → IsGood (wait_file key h).1)
      → (file : FilePath) (h : HandlerState O C) → IsGood h
      → IsGood (hydrate_cache enc codecs origin cache wait_file file h).1
  unfolding hydrate_cache
  hydrate_cache-IsGood wait_file waits file h i =
      hydrate_locked-IsGood wait_file waits file h (try_lock_internal _ h.file_locks) i
