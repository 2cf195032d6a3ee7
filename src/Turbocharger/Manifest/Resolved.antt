-- ===== src/Turbocharger/Manifest/Resolved.antt =====
-- pkg/turbocharger/manifesthandler.go: a manifest that is resolved is the one under its id.
use edgerouter.Base.{
  ℕ, suc, ◌≡◌, refl, sym, ap, Str, Option, none, some, Result, ok, err, panic, ok-injective,
}
use edgerouter.Base.Dict.{lookup}
use edgerouter.Locks.{MutexMap, Attempt, unlock_func, try_again, try_lock_internal, unlock}
use edgerouter.Turbocharger.Ids.{ObjectId, Encodings, id_string}
use edgerouter.Turbocharger.Store.{Cas}
use edgerouter.Turbocharger.Store.Contract.{IsStore}
use edgerouter.Turbocharger.Manifest.{Manifest, OptimizedManifest, optimize_manifest, Codecs}
use edgerouter.Turbocharger.Manifest.State.{
  HandlerState, ManifestLookup, in_ram, to_download, already_downloading,
}
use edgerouter.Turbocharger.Manifest.Resolve.{
  locked_for, looked_up, look_up_manifest, fetch_manifest, keep_manifest, unlock_manifest,
  resolve_looked_up, resolve_manifest, as_some,
}
use edgerouter.Turbocharger.Manifest.Coherent.{IsGzip, IsCoherent, with_ram, insert-IsDecoded}
use edgerouter.Turbocharger.Manifest.Fetched.{IsFetched, fetch_manifest-IsFetched}

module _ {O C : Type 0} (enc : Encodings) (codecs : Codecs) (origin : Cas O) (cache : Cas C)
    (origin_view : O → ObjectId → Option Str) (cache_view : C → ObjectId → Option Str)
    (origin_store : IsStore origin origin_view) (cache_store : IsStore cache cache_view)
    (gz : IsGzip codecs) (content : ObjectId → Str) where
  abbrev IsGood : HandlerState O C → Type 0
  IsGood h = IsCoherent codecs origin_view cache_view content h

  unlock_manifest-IsGood :
      (key : Str) (chan : ℕ) (out : Result OptimizedManifest × HandlerState O C)
      → IsGood out.1
      → IsGood (unlock_manifest key chan out).1
  unlock_manifest-IsGood key chan (result, h) i = go (unlock key chan h.manifest_locks)
    where
      go :
          (m : Result MutexMap)
          → IsGood
              (elim m as (λ _. Result OptimizedManifest × HandlerState O C) [
                | ok n ↦ (result, record h { manifest_locks = n })
                | err message ↦ (err message, h)
                | panic ↦ (panic, h)
              ]).1
      go (ok n) = i
      go (err message) = i
      go panic = i

  abbrev IsKept : ObjectId → Result OptimizedManifest × HandlerState O C → Type 0
  IsKept id (r, h) =
      IsGood h
      × ((o : OptimizedManifest)
          → r ≡ ok o
          → (m : Manifest) × (codecs.decode_manifest (content id) ≡ ok m)
            × (o ≡ optimize_manifest m))

  abbrev pub IsResolved : ObjectId → Option (Result OptimizedManifest) × HandlerState O C → Type 0
  IsResolved id (r, h) =
      IsGood h
      × ((o : OptimizedManifest)
          → r ≡ some (ok o)
          → (m : Manifest) × (codecs.decode_manifest (content id) ≡ ok m)
            × (o ≡ optimize_manifest m))

  keep_manifest-IsKept :
      (id : ObjectId) (out : Result Manifest × HandlerState O C)
      → IsFetched enc codecs origin cache origin_view cache_view origin_store cache_store gz content
          id out
      → IsKept id (keep_manifest id out)
  keep_manifest-IsKept id (ok m, h) (i, is) = (
    with_ram codecs origin_view cache_view content h i _
        (insert-IsDecoded codecs content id m h.cached_manifests (is m refl) i.ram),
    λ o k. (m, is m refl, sym (ok-injective k)),
  )
  keep_manifest-IsKept id (err message, h) (i, is) = (i, λ o k. cc)
  keep_manifest-IsKept id (panic, h) (i, is) = (i, λ o k. cc)

  unlock_manifest-ok :
      (key : Str) (chan : ℕ) (out : Result OptimizedManifest × HandlerState O C)
      (o : OptimizedManifest)
      → (unlock_manifest key chan out).0 ≡ ok o
      → out.0 ≡ ok o
  unlock_manifest-ok key chan (result, h) o e = go (unlock key chan h.manifest_locks) e
    where
      go :
          (m : Result MutexMap)
          → (elim m as (λ _. Result OptimizedManifest × HandlerState O C) [
            | ok n ↦ (result, record h { manifest_locks = n })
            | err message ↦ (err message, h)
            | panic ↦ (panic, h)
          ]).0
            ≡ ok o
          → result ≡ ok o
      go (ok n) k = k
      go (err message) k = cc
      go panic k = cc

  as_some-IsResolved :
      (id : ObjectId) (out : Result OptimizedManifest × HandlerState O C)
      → IsKept id out
      → IsResolved id (as_some out)
  as_some-IsResolved id (r, h) (i, is) = (i, λ o k. is o (some-inj k))
    where
      some-inj : {a b : Result OptimizedManifest} → some a ≡ some b → a ≡ b
      some-inj p = cc

  looked_up-IsGood :
      (found_manifest : Option OptimizedManifest) (id : ObjectId) (h : HandlerState O C)
      → IsGood h
      → IsGood (looked_up enc found_manifest id h).1
  looked_up-IsGood (some m) id h i = i
  looked_up-IsGood none id h i = locked (try_lock_internal (id_string enc id) h.manifest_locks)
    where
      locked : (a : Attempt × MutexMap) → IsGood (locked_for a h).1
      locked (unlock_func key chan, n) = i
      locked (try_again chan, n) = i

  looked_up-ram :
      (found_manifest : Option OptimizedManifest) (id : ObjectId) (h : HandlerState O C)
      (o : OptimizedManifest)
      → (looked_up enc found_manifest id h).0 ≡ in_ram o
      → found_manifest ≡ some o
  looked_up-ram (some m) id h o e = let p : m ≡ o = cc in ap some p
  looked_up-ram none id h o e = locked (try_lock_internal (id_string enc id) h.manifest_locks) e
    where
      locked : (a : Attempt × MutexMap) → (locked_for a h).0 ≡ in_ram o → none ≡ some o
      locked (unlock_func key chan, n) k = cc
      locked (try_again chan, n) k = cc

  module _ (wait_manifest : Str → HandlerState O C → HandlerState O C)
      (waits : (key : Str) (h : HandlerState O C) → IsGood h → IsGood (wait_manifest key h)) where
    resolve_looked_up-IsResolved :
        (id : ObjectId)
        (retry : HandlerState O C → Option (Result OptimizedManifest) × HandlerState O C)
        (result : ManifestLookup) (h : HandlerState O C)
        → ((h : HandlerState O C) → IsGood h → IsResolved id (retry h))
        → ((o : OptimizedManifest)
            → result ≡ in_ram o
            → (m : Manifest) × (codecs.decode_manifest (content id) ≡ ok m)
              × (o ≡ optimize_manifest m))
        → IsGood h
        → IsResolved id
            (resolve_looked_up enc codecs origin cache wait_manifest id retry (result, h))
    resolve_looked_up-IsResolved id retry (in_ram manifest) h again known i =
        (i, λ o k. known o (let p : manifest ≡ o = cc in ap in_ram p))
    resolve_looked_up-IsResolved id retry (to_download key chan) h again known i =
        let out = keep_manifest id (fetch_manifest codecs origin cache id h) in
        let kept = keep_manifest-IsKept id _ (
          fetch_manifest-IsFetched enc codecs origin cache origin_view cache_view origin_store
            cache_store gz content id h i) in
        as_some-IsResolved id (unlock_manifest key chan out) (
          unlock_manifest-IsGood key chan out kept.0,
          λ o k. kept.1 o (unlock_manifest-ok key chan out o k),
        )
    resolve_looked_up-IsResolved id retry already_downloading h again known i =
        again _ (waits _ h i)

    pub resolve_manifest-IsResolved :
        (attempts : ℕ) (id : ObjectId) (h : HandlerState O C)
        → IsGood h
        → IsResolved id (resolve_manifest enc codecs origin cache wait_manifest attempts id h)
    unfolding resolve_manifest look_up_manifest
    resolve_manifest-IsResolved ℕ.zero id h i = (i, λ o k. cc)
    resolve_manifest-IsResolved (suc attempts) id h i =
        resolve_looked_up-IsResolved id
          (λ h'. resolve_manifest enc codecs origin cache wait_manifest attempts id h')
          (look_up_manifest enc id h).0 (look_up_manifest enc id h).1
          (λ h' i'. resolve_manifest-IsResolved attempts id h' i')
          (λ o k. i.ram id o (looked_up-ram (lookup id h.cached_manifests) id h o k))
          (looked_up-IsGood (lookup id h.cached_manifests) id h i)
