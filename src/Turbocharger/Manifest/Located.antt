-- ===== src/Turbocharger/Manifest/Located.antt =====
-- pkg/turbocharger/manifesthandler.go: a manifest that the origin has is found.
use edgerouter.Base.{
  ℕ, suc, ◌≡◌, refl, sym, ap, ◌∙◌, subst, Str, bytes, false, Option, none, some, Result, ok, err,
  panic, ◌∷◌, ok-injective,
}
use edgerouter.Base.Dict.{lookup}
use edgerouter.Locks.{is_closed, MutexMap, unlock}
use edgerouter.Turbocharger.Ids.{ObjectId, Encodings, id_string}
use edgerouter.Turbocharger.Store.{
  Cas, Got, found, failed, ReadError, not_exist, wraps_not_exist, other_error,
}
use edgerouter.Turbocharger.Store.Contract.{IsStore, IsReliable}
use edgerouter.Turbocharger.Manifest.{Manifest, OptimizedManifest, optimize_manifest, Codecs}
use edgerouter.Turbocharger.Manifest.State.{HandlerState}
use edgerouter.Turbocharger.Manifest.Resolve.{
  locked_for, looked_up, look_up_manifest, log_insert, manifest_from_origin, manifest_from_cache,
  fetch_manifest, keep_manifest, unlock_manifest, resolve_looked_up, resolve_manifest, as_some,
}
use edgerouter.Turbocharger.Manifest.Coherent.{found-is, IsCoherent}
use edgerouter.Turbocharger.Manifest.Available.{IsFree, try_lock-IsTaken}

module _ {O C : Type 0} (enc : Encodings) (codecs : Codecs) (origin : Cas O) (cache : Cas C)
    (origin_view : O → ObjectId → Option Str) (cache_view : C → ObjectId → Option Str)
    (cache_store : IsStore cache cache_view) (origin_reliable : IsReliable origin origin_view)
    (content : ObjectId → Str) (wait_manifest : Str → HandlerState O C → HandlerState O C) where
  abbrev IsGood : HandlerState O C → Type 0
  IsGood h = IsCoherent codecs origin_view cache_view content h

  module _ (id : ObjectId) (m : Manifest)
      (decoded : codecs.decode_manifest (content id) ≡ ok m) where
    -- The manifest was found, and what serving a file needs is as before.
    record IsFetchedFrom (before : HandlerState O C) (n : MutexMap)
        (out : Result Manifest × HandlerState O C) : Type 0 where
      result : out.0 ≡ ok m
      same_files : out.1.files ≡ before.files
      same_locks : out.1.file_locks ≡ before.file_locks
      manifest_locks : out.1.manifest_locks ≡ n

    pub record IsFoundFrom (before : HandlerState O C)
        (out : Option (Result OptimizedManifest) × HandlerState O C) : Type 0 where
      pub result : out.0 ≡ some (ok (optimize_manifest m))
      pub same_files : out.1.files ≡ before.files
      pub same_locks : out.1.file_locks ≡ before.file_locks

    logged-IsFetchedFrom :
        (before h : HandlerState O C) (r : Result (Unit {0})) (buf : Str)
        → buf ≡ content id
        → h.files ≡ before.files
        → h.file_locks ≡ before.file_locks
        → IsFetchedFrom before h.manifest_locks (codecs.decode_manifest buf, log_insert r h)
    logged-IsFetchedFrom before h (ok u) buf e files locks = record {
      result = ap codecs.decode_manifest e ∙ decoded;
      same_files = files;
      same_locks = locks;
      manifest_locks = refl;
    }
    logged-IsFetchedFrom before h (err message) buf e files locks = record {
      result = ap codecs.decode_manifest e ∙ decoded;
      same_files = files;
      same_locks = locks;
      manifest_locks = refl;
    }
    logged-IsFetchedFrom before h panic buf e files locks = record {
      result = ap codecs.decode_manifest e ∙ decoded;
      same_files = files;
      same_locks = locks;
      manifest_locks = refl;
    }

    origin-IsFetchedFrom :
        (before h : HandlerState O C) (got : Got) (o : O)
        → got ≡ found (content id)
        → h.files ≡ before.files
        → h.file_locks ≡ before.file_locks
        → IsFetchedFrom before h.manifest_locks
            (manifest_from_origin codecs origin cache id h (got, o))
    origin-IsFetchedFrom before h (found buf) o e files locks =
        let is : buf ≡ content id = cc in
        logged-IsFetchedFrom before
          (record h {
            manifests = o;
            uncompressed = (cache.insert_object id buf (bytes "application/json") h.uncompressed).1;
          })
          (cache.insert_object id buf (bytes "application/json") h.uncompressed).0.result buf is
          files locks
    origin-IsFetchedFrom before h (failed error) o e files locks = cc

    cache-IsFetchedFrom :
        (before h : HandlerState O C) (got : Got) (c : C)
        → cache.get_object id h.uncompressed ≡ (got, c)
        → h.files ≡ before.files
        → h.file_locks ≡ before.file_locks
        → IsGood h
        → origin_view h.manifests id ≡ some (content id)
        → IsFetchedFrom before h.manifest_locks
            (manifest_from_cache codecs origin cache id h (got, c))
    cache-IsFetchedFrom before h (found buf) c e files locks i there =
        let is : buf ≡ content id =
          found-is cache cache_view cache_store content id h.uncompressed buf i.uncompressed
            (ap (λ p. p.0) e) in
        record {
          result = ap codecs.decode_manifest is ∙ decoded;
          same_files = files;
          same_locks = locks;
          manifest_locks = refl;
        }
    cache-IsFetchedFrom before h (failed error) c e files locks i there = logged error
      where
        got : (origin.get_object id h.manifests).0 ≡ found (content id)
        got = origin_reliable.get_there id h.manifests (content id) there

        logged :
            (e : ReadError)
            → IsFetchedFrom before h.manifest_locks
                (manifest_from_cache codecs origin cache id h (failed e, c))
        logged not_exist =
            origin-IsFetchedFrom before (record h { uncompressed = c })
              (origin.get_object id h.manifests).0 (origin.get_object id h.manifests).1 got files
              locks
        logged (wraps_not_exist reason) =
            origin-IsFetchedFrom before (record h { uncompressed = c })
              (origin.get_object id h.manifests).0 (origin.get_object id h.manifests).1 got files
              locks
        logged (other_error reason) =
            origin-IsFetchedFrom before
              (record h { uncompressed = c; log = bytes "read cached manifest failed" ∷ h.log })
              (origin.get_object id h.manifests).0 (origin.get_object id h.manifests).1 got files
              locks

    unlocked-IsFoundFrom :
        (before : HandlerState O C) (n : MutexMap) (key : Str) (chan : ℕ)
        (out : Result Manifest × HandlerState O C)
        → is_closed n.closed chan ≡ false
        → IsFetchedFrom before n out
        → IsFoundFrom before (as_some (unlock_manifest key chan (keep_manifest id out)))
    unfolding unlock
    unlocked-IsFoundFrom before n key chan (ok m', h) is_open f =
        let same : m' ≡ m = ok-injective f.result in
        let is_open' : is_closed h.manifest_locks.closed chan ≡ false =
          subst (λ l. is_closed l.closed chan ≡ false) (sym f.manifest_locks) is_open in
        rw (is_open', unlock_manifest)
          (record {
            result = ap (λ x. some (ok (optimize_manifest x))) same;
            same_files = f.same_files;
            same_locks = f.same_locks;
          })
    unlocked-IsFoundFrom before n key chan (err message, h) is_open f = let p = f.result in cc
    unlocked-IsFoundFrom before n key chan (panic, h) is_open f = let p = f.result in cc

    pub resolve_manifest-IsFoundFrom :
        (attempts : ℕ) (h : HandlerState O C)
        → IsGood h
        → IsFree (id_string enc id) h.manifest_locks
        → origin_view h.manifests id ≡ some (content id)
        → IsFoundFrom h (resolve_manifest enc codecs origin cache wait_manifest (suc attempts) id h)
    unfolding resolve_manifest look_up_manifest fetch_manifest
    resolve_manifest-IsFoundFrom attempts h i free there =
        go (lookup id h.cached_manifests) (λ o e. i.ram id o e)
      where
        retry : HandlerState O C → Option (Result OptimizedManifest) × HandlerState O C
        retry h' = resolve_manifest enc codecs origin cache wait_manifest attempts id h'

        go :
            (ram : Option OptimizedManifest)
            → ((o : OptimizedManifest)
                → ram ≡ some o
                → (m' : Manifest) × (codecs.decode_manifest (content id) ≡ ok m')
                  × (o ≡ optimize_manifest m'))
            → IsFoundFrom h (
                resolve_looked_up enc codecs origin cache wait_manifest id retry
                  (looked_up enc ram id h))
        go (some o) known =
            let (m', decoded', e) = known o refl in
            let same : m' ≡ m = ok-injective (sym decoded' ∙ decoded) in
            record {
              result = ap (λ x. some (ok x)) (e ∙ ap optimize_manifest same);
              same_files = refl;
              same_locks = refl;
            }
        go none known =
            let (chan, n, e, is_open) = try_lock-IsTaken (id_string enc id) h.manifest_locks free in
            subst
              (λ taken. IsFoundFrom h (
                resolve_looked_up enc codecs origin cache wait_manifest id
                  (λ h'. resolve_manifest enc codecs origin cache wait_manifest attempts id h')
                  (locked_for taken h)))
              (sym e)
              (unlocked-IsFoundFrom h n (id_string enc id) chan
                (fetch_manifest codecs origin cache id (record h { manifest_locks = n })) is_open
                (cache-IsFetchedFrom h (record h { manifest_locks = n })
                  (cache.get_object id h.uncompressed).0 (cache.get_object id h.uncompressed).1 refl
                  refl refl i there))
