-- ===== src/Turbocharger/Deployment/Served.antt =====
-- pkg/turbocharger: what was deployed is served, from the workers to the reply of the manifest handler.
use edgerouter.Base.{
  suc, ◌≡◌, ◌≢◌, refl, sym, ap, ◌∙◌, subst, inl, inr, Str, bytes, eq_refl, ne→eq-false, List, [],
  ◌∷◌, map, Option, some, Result, ok, err, panic, ok-injective, and_then-eq-ok, All, Any, Any-map,
  Any_imp, ℕ,
}
use edgerouter.Base.Dict.{lookup, insert, lookup-insert}
use edgerouter.Base.Sort.{SliceSort, Any-perm}
use edgerouter.Turbocharger.Ids.{ObjectId, Encodings, id_string}
use edgerouter.Turbocharger.Store.{Cas}
use edgerouter.Turbocharger.Store.Contract.{IsStore, IsReliable}
use edgerouter.Turbocharger.Manifest.{
  FilePath, Manifest, ManifestMetadata, OptimizedManifest, insert_files, optimize_manifest,
  FileRequest, Codecs,
}
use edgerouter.Turbocharger.Manifest.State.{Hydrated, HandlerState}
use edgerouter.Turbocharger.Manifest.Serve.{choose_file, serve_http_from_manifest}
use edgerouter.Turbocharger.Manifest.Coherent.{Holds, IsGzip, IsCoherent}
use edgerouter.Turbocharger.Manifest.Available.{IsFree}
use edgerouter.Turbocharger.Manifest.Delivered.{IsDelivered, serve_http_from_manifest-IsDelivered}
use edgerouter.Turbocharger.Deployment.{
  Deploying, start_deploying, Steps, FileToDeploy, ManifestWithId, path_lt, path_of,
  insert_manifest, finish_deployment,
}
use edgerouter.Turbocharger.Deployment.Same.{Steps-perm, Steps-deploy}
use edgerouter.Turbocharger.Deployment.Order.{HasDistinctPaths, HasDistinctPaths-perm}
use mathlib.Core.List.Permᴰ
use mathlib.Core.List.{Permᴰ}

insert_files-others :
    (p : Str) (xs : List FilePath) (d : OptimizedManifest)
    → All (λ y. y.path ≢ p) xs
    → lookup p (insert_files xs d) ≡ lookup p d
insert_files-others p [] d h = refl
insert_files-others p (x ∷ xs) d h =
    insert_files-others p xs (insert x.path x d) h.1
    ∙ lookup-insert x.path p x d
    ∙ rw (ne→eq-false x.path p h.0) refl

insert_files-lookup :
    (x : FilePath) (xs : List FilePath) (d : OptimizedManifest)
    → HasDistinctPaths xs
    → Any (λ y. y ≡ x) xs
    → lookup x.path (insert_files xs d) ≡ some x
insert_files-lookup x [] d u i = absurd i
insert_files-lookup x (y ∷ xs) d u (inl e) =
    subst (λ z. lookup z.path (insert_files xs (insert y.path y d)) ≡ some z) e
      (insert_files-others y.path xs (insert y.path y d) u.0
        ∙ lookup-insert y.path y.path y d
        ∙ rw (eq_refl y.path) refl)
insert_files-lookup x (y ∷ xs) d u (inr i) = insert_files-lookup x xs (insert y.path y d) u.1 i

-- A manifest with distinct paths has each of its files under its path.
pub choose_file-listed :
    (m : Manifest) (x : FilePath)
    → HasDistinctPaths m.files
    → Any (λ y. y ≡ x) m.files
    → choose_file (optimize_manifest m) x.path ≡ some (x, 200)
unfolding choose_file optimize_manifest
choose_file-listed m x u i = rw (insert_files-lookup x m.files [] u i) refl

-- What finishing a deployment leaves: the manifest, under the digest of its text.
record IsKept {O : Type 0} (sha256 : Str → ObjectId) (sorting : SliceSort path_lt)
    (marshal : Manifest → Result Str) (view : O → ObjectId → Option Str)
    (metadata : ManifestMetadata) (noted_files : List FilePath) (deployed : ManifestWithId) (s' : O)
    : Type 0 where
  text : Str
  written : marshal deployed.manifest ≡ ok text
  its_id : deployed.id ≡ sha256 text
  its_files : deployed.manifest.files ≡ sorting.sort noted_files
  there : (c : Str) × (view s' deployed.id ≡ some c)

finish_deployment-IsKept :
    {O : Type 0} (sha256 : Str → ObjectId) (sorting : SliceSort path_lt)
    (marshal : Manifest → Result Str) (origin : Cas O) (view : O → ObjectId → Option Str)
    → IsStore origin view
    → (metadata : ManifestMetadata) (noted_files : List FilePath) (s s' : O)
      (deployed : ManifestWithId)
    → finish_deployment sha256 sorting marshal origin metadata noted_files s ≡ (ok deployed, s')
    → IsKept sha256 sorting marshal view metadata noted_files deployed s'
unfolding finish_deployment
finish_deployment-IsKept sha256 sorting marshal origin view store metadata [] s s' deployed h =
    let p = ap (λ q. q.0) h in cc
finish_deployment-IsKept {O = O} sha256 sorting marshal origin view store metadata (x ∷ xs) s s'
      deployed h =
    marshalled (marshal manifest) refl h
  where
    manifest : Manifest
    manifest = record { metadata = metadata; files = sorting.sort (x ∷ xs) }

    marshalled :
        (r : Result Str)
        → marshal (record { metadata = metadata; files = sorting.sort (x ∷ xs) }) ≡ r
        → insert_manifest sha256 sorting marshal origin
            (record { metadata = metadata; files = sorting.sort (x ∷ xs) })
            r
            s
          ≡ (ok deployed, s')
        → IsKept sha256 sorting marshal view metadata (x ∷ xs) deployed s'
    marshalled (ok text) e k =
        let out = origin.insert_object (sha256 text) text (bytes "application/json") s in
        let (u, t, now, later) = and_then-eq-ok (out.0.result, out.1) _ k in
        let is : record {
          id = sha256 text;
          manifest = record { metadata = metadata; files = sorting.sort (x ∷ xs) };
        }
            ≡ deployed =
          ok-injective (ap (λ p. p.0) later) in
        let same : out.1 ≡ s' = ap (λ p. p.1) now ∙ ap (λ p. p.1) later in
        let (c, stored) =
          store.insert_done (sha256 text) text (bytes "application/json") s (ap (λ p. p.0) now) in
        record {
          text = text;
          written = ap (λ d. marshal d.manifest) (sym is) ∙ e;
          its_id = ap (λ d. d.id) (sym is);
          its_files = ap (λ d. d.manifest.files) (sym is);
          there = (
            c,
            ap (λ d. view s' d.id) (sym is) ∙ ap (λ q. view q (sha256 text)) (sym same) ∙ stored,
          );
        }
    marshalled (err message) e k = let p = ap (λ q. q.0) k in cc
    marshalled panic e k = let p = ap (λ q. q.0) k in cc

module _ {O C : Type 0} (enc : Encodings) (codecs : Codecs) (origin : Cas O) (cache : Cas C)
    (origin_view : O → ObjectId → Option Str) (cache_view : C → ObjectId → Option Str)
    (origin_store : IsStore origin origin_view) (cache_store : IsStore cache cache_view)
    (origin_reliable : IsReliable origin origin_view) (cache_reliable : IsReliable cache cache_view)
    (gz : IsGzip codecs) (content : ObjectId → Str)
    (wait_manifest : Str → HandlerState O C → HandlerState O C)
    (wait_file : Str → HandlerState O C → Hydrated × HandlerState O C)
    (manifest_waits : (key : Str) (h : HandlerState O C)
      → IsCoherent codecs origin_view cache_view content h
      → IsCoherent codecs origin_view cache_view content (wait_manifest key h))
    (file_waits : (key : Str) (h : HandlerState O C)
      → IsCoherent codecs origin_view cache_view content h
      → IsCoherent codecs origin_view cache_view content (wait_file key h).1) where
  -- After a complete run of the workers and the finish of the deployment, a handler over the stores
  -- that these left, with any coherent caches, serves each deployed file under its path: the call
  -- returns without an error, and its reply is the file's content with status 200 or "not modified".
  -- The digests name the contents and the text of the manifest, which decodes to the manifest; the
  -- stores do not fail; and nobody holds a lock.
  pub Steps-served :
      (sha256 : Str → ObjectId) (mime_type_by_extension : Str → Str) (sorting : SliceSort path_lt)
      (marshal : Manifest → Result Str) (metadata : ManifestMetadata) (source : List FileToDeploy)
      (s m₀ m₁ : O) (end : Deploying O) (deployed : ManifestWithId) (h : HandlerState O C)
      (file : FileToDeploy) (r : FileRequest) (attempts : ℕ)
      → HasDistinctPaths (map (path_of sha256) source)
      → All (λ f. content (sha256 f.content) ≡ f.content) source
      → Holds origin_view content s
      → Steps sha256 mime_type_by_extension origin (start_deploying source s) end
      → (end.source ≡ []) × (end.received ≡ []) × (end.uploaded ≡ [])
      → finish_deployment sha256 sorting marshal origin metadata end.files m₀ ≡ (ok deployed, m₁)
      → ((text : Str)
          → marshal deployed.manifest ≡ ok text
          → (content (sha256 text) ≡ text) × (codecs.decode_manifest text ≡ ok deployed.manifest))
      → (h.files ≡ end.store) × (h.manifests ≡ m₁)
      → IsCoherent codecs origin_view cache_view content h
      → ((key : Str) → IsFree key h.manifest_locks × IsFree key h.file_locks)
      → Any (λ f. f ≡ file) source
      → r.path ≡ file.path
      → IsDelivered enc codecs content
          (path_of sha256 file)
          200
          r
          (serve_http_from_manifest enc codecs origin cache wait_manifest wait_file
            (suc attempts)
            deployed.id
            r
            h).0
  Steps-served sha256 mime sorting marshal metadata source s m₀ m₁ end deployed h file r attempts
        distinct named holds steps complete finished readable (same_files, same_manifests) good free
        listed at =
      let kept =
        finish_deployment-IsKept sha256 sorting marshal origin origin_view origin_store metadata
          end.files m₀ m₁ deployed finished in
      let perm =
        Steps-perm sha256 mime origin origin_view origin_store content source s end steps
          complete in
      let x = path_of sha256 file in
      let sorted = Permᴰ.trans perm (Permᴰ.symm (sorting.sort_perm end.files)) in
      let is_listed : Any (λ y. y ≡ x) deployed.manifest.files =
        subst (Any (λ y. y ≡ x)) (sym kept.its_files) (
          Any-perm (λ y. y ≡ x) sorted
            (Any-map (path_of sha256) (λ y. y ≡ x) source
              (Any_imp _ _ source (λ f e. ap (path_of sha256) e) listed))) in
      let is_distinct : HasDistinctPaths deployed.manifest.files =
        subst HasDistinctPaths (sym kept.its_files) (HasDistinctPaths-perm sorted distinct) in
      let chosen : choose_file (optimize_manifest deployed.manifest) r.path ≡ some (x, 200) =
        ap (choose_file (optimize_manifest deployed.manifest)) at
        ∙ choose_file-listed deployed.manifest x is_distinct is_listed in
      let (names, decodes) = readable kept.text kept.written in
      let is_text : content deployed.id ≡ kept.text = ap content kept.its_id ∙ names in
      let decoded : codecs.decode_manifest (content deployed.id) ≡ ok deployed.manifest =
        ap codecs.decode_manifest is_text ∙ decodes in
      let (c, there) = kept.there in
      let there' : origin_view h.manifests deployed.id ≡ some c =
        ap (λ q. origin_view q deployed.id) same_manifests ∙ there in
      let has_manifest : origin_view h.manifests deployed.id ≡ some (content deployed.id) =
        there' ∙ ap some (good.manifests deployed.id c there') in
      let has_file : origin_view h.files x.content_id ≡ some (content x.content_id) =
        stored_file source
          (Steps-deploy sha256 mime origin origin_view content source s end origin_store distinct
            named holds steps complete).1
          named listed in
      serve_http_from_manifest-IsDelivered enc codecs origin cache origin_view cache_view
        origin_store cache_store origin_reliable cache_reliable gz content wait_manifest wait_file
        manifest_waits file_waits attempts deployed.id r h deployed.manifest x 200 good decoded
        chosen has_manifest has_file (free (id_string enc deployed.id)).0
        (free (id_string enc x.content_id)).1
    where
      stored_file :
          (l : List FileToDeploy)
          → All (λ f. origin_view end.store (sha256 f.content) ≡ some f.content) l
          → All (λ f. content (sha256 f.content) ≡ f.content) l
          → Any (λ f. f ≡ file) l
          → origin_view h.files (sha256 file.content) ≡ some (content (sha256 file.content))
      stored_file [] a n i = absurd i
      stored_file (f ∷ l) a n (inl e) =
          subst (λ g. origin_view h.files (sha256 g.content) ≡ some (content (sha256 g.content))) e
            (ap (λ q. origin_view q (sha256 f.content)) same_files ∙ a.0 ∙ ap some (sym n.0))
      stored_file (f ∷ l) a n (inr i) = stored_file l a.1 n.1 i
