-- ===== src/Turbocharger/Deployment/Same.antt =====
-- pkg/turbocharger/deployment.go: every run of the workers deploys the same, and all of it.
use edgerouter.Base.{
  ◌≡◌, refl, sym, ap, ◌∙◌, subst, inl, inr, Str, List, [], ◌∷◌, ◌++◌, map, append-nil, Option, some,
  Result, ok, All, Any,
}
use edgerouter.Base.Sort.{SliceSort, Any-perm}
use edgerouter.Turbocharger.Ids.{ObjectId}
use edgerouter.Turbocharger.Store.{Cas}
use edgerouter.Turbocharger.Store.Contract.{IsStore}
use edgerouter.Turbocharger.Manifest.{FilePath, Manifest, ManifestMetadata}
use edgerouter.Turbocharger.Manifest.Coherent.{Holds}
use edgerouter.Turbocharger.Deployment.{
  FileToDeploy, path_lt, Deploying, start_deploying, path_of, Steps, upload_all, insert_manifest,
  finish_deployment,
}
use edgerouter.Turbocharger.Deployment.Order.{HasDistinctPaths, sort-perm}
use mathlib.Core.List.Permᴰ
use mathlib.Core.List.{Permᴰ}
use edgerouter.Turbocharger.Deployment.Runs.{
  Steps-total, IsStored, Steps-IsStored, upload_all-paths,
}

-- Finishing depends on the noted files only up to their order.
finish_deployment-perm :
    (sha256 : Str → ObjectId) (sorting : SliceSort path_lt) (marshal : Manifest → Result Str)
    (xs ys : List FilePath)
    → Permᴰ xs ys
    → HasDistinctPaths xs
    → {M : Type 0} (manifests : Cas M) (metadata : ManifestMetadata) (m : M)
    → finish_deployment sha256 sorting marshal manifests metadata xs m
      ≡ finish_deployment sha256 sorting marshal manifests metadata ys m
unfolding finish_deployment
finish_deployment-perm sha256 sorting marshal [] [] p d manifests metadata m = refl
finish_deployment-perm sha256 sorting marshal [] (y ∷ ys) p d manifests metadata m =
    absurd (Any-perm (λ z. z ≡ y) (Permᴰ.symm p) (inl refl))
finish_deployment-perm sha256 sorting marshal (x ∷ xs) [] p d manifests metadata m =
    absurd (Any-perm (λ z. z ≡ x) p (inl refl))
finish_deployment-perm sha256 sorting marshal (x ∷ xs) (y ∷ ys) p d manifests metadata m =
    ap
      (λ l.
        let manifest : Manifest = record { metadata = metadata; files = l } in
        insert_manifest sha256 sorting marshal manifests manifest (marshal manifest) m)
      (sort-perm sorting (x ∷ xs) (y ∷ ys) p d)

stored_content :
    {S : Type 0} (view : S → ObjectId → Option Str) (content : ObjectId → Str) (s : S)
    (sha256 : Str → ObjectId) (file : FileToDeploy)
    → Holds view content s
    → content (sha256 file.content) ≡ file.content
    → (c : Str) × (view s (sha256 file.content) ≡ some c)
    → view s (sha256 file.content) ≡ some file.content
stored_content view content s sha256 file holds named (c, there) =
    there ∙ ap some (holds (sha256 file.content) c there ∙ named)

-- A complete run notes the files that it was given.
pub Steps-perm :
    {S : Type 0} (sha256 : Str → ObjectId) (mime_type_by_extension : Str → Str) (files : Cas S)
    (view : S → ObjectId → Option Str) (store : IsStore files view) (content : ObjectId → Str)
    (source : List FileToDeploy) (s : S) (end : Deploying S)
    → Steps sha256 mime_type_by_extension files (start_deploying source s) end
    → (end.source ≡ []) × (end.received ≡ []) × (end.uploaded ≡ [])
    → Permᴰ (map (path_of sha256) source) end.files
Steps-perm sha256 mime_type_by_extension files view store content source s end steps
      (no_source, no_received, no_uploaded) =
    subst (λ l. Permᴰ (map (path_of sha256) source) l)
      (ap
          (λ l.
            end.files
            ++ (l ++ (map (path_of sha256) end.received ++ map (path_of sha256) end.source)))
          no_uploaded
        ∙ ap (λ l. end.files ++ (map (path_of sha256) l ++ map (path_of sha256) end.source))
            no_received
        ∙ ap (λ l. end.files ++ map (path_of sha256) l) no_source
        ∙ append-nil end.files)
      (Steps-total sha256 mime_type_by_extension files view store content (start_deploying source s)
        end steps)

-- If the files have distinct paths, and the digests of their contents name these contents in a store
-- that holds only what its ids name, then every run of the three workers without an error that is
-- complete ends with the same manifest, and the same id of it, as deploying file after file would; and
-- at its end the store holds the content of each file under the id that the manifest has for it.
pub Steps-deploy :
    {S : Type 0} (sha256 : Str → ObjectId) (mime_type_by_extension : Str → Str) (files : Cas S)
    (view : S → ObjectId → Option Str) (content : ObjectId → Str) (source : List FileToDeploy)
    (s : S) (end : Deploying S)
    → IsStore files view
    → HasDistinctPaths (map (path_of sha256) source)
    → All (λ file. content (sha256 file.content) ≡ file.content) source
    → Holds view content s
    → Steps sha256 mime_type_by_extension files (start_deploying source s) end
    → (end.source ≡ []) × (end.received ≡ []) × (end.uploaded ≡ [])
    → ((sorting : SliceSort path_lt) (marshal : Manifest → Result Str) (noted_files : List FilePath)
          (s' : S)
        → upload_all sha256 mime_type_by_extension files [] source s ≡ (ok noted_files, s')
        → (M : Type 0) (manifests : Cas M) (metadata : ManifestMetadata) (m : M)
        → finish_deployment sha256 sorting marshal manifests metadata end.files m
          ≡ finish_deployment sha256 sorting marshal manifests metadata noted_files m)
      × All (λ file. view end.store (sha256 file.content) ≡ some file.content) source
Steps-deploy {S = S} sha256 mime_type_by_extension files view content source s end store distinct
      named holds steps (no_source, no_received, no_uploaded) =
    (
      λ sorting marshal noted_files s' in_order M manifests metadata m. sym (
          finish_deployment-perm sha256 sorting marshal noted_files end.files
            (subst (λ l. Permᴰ l end.files)
              (sym (
                upload_all-paths sha256 mime_type_by_extension files view store content [] source s
                  noted_files s' in_order))
              perm)
            (subst HasDistinctPaths
              (sym (
                upload_all-paths sha256 mime_type_by_extension files view store content [] source s
                  noted_files s' in_order))
              distinct)
            manifests metadata m),
      all source (λ p i. Any-perm (λ q. q ≡ p) perm i) named,
    )
  where
    perm : Permᴰ (map (path_of sha256) source) end.files
    perm =
        Steps-perm sha256 mime_type_by_extension files view store content source s end steps
          (no_source, no_received, no_uploaded)

    stored : IsStored sha256 mime_type_by_extension files view store content end
    stored =
        Steps-IsStored sha256 mime_type_by_extension files view store content
          (start_deploying source s) end steps
          (record {
            holds = holds;
            named_received = tt;
            named_source = named;
            there_uploaded = tt;
            there_files = tt;
          })

    pick :
        (p : FilePath) (l : List FilePath)
        → Any (λ q. q ≡ p) l
        → All (λ q. (c : Str) × (view end.store q.content_id ≡ some c)) l
        → (c : Str) × (view end.store p.content_id ≡ some c)
    pick p [] i h = absurd i
    pick p (q ∷ l) (inl e) h = subst (λ x. (c : Str) × (view end.store x.content_id ≡ some c)) e h.0
    pick p (q ∷ l) (inr i) h = pick p l i h.1

    all :
        (l : List FileToDeploy)
        → ((p : FilePath) → Any (λ q. q ≡ p) (map (path_of sha256) l) → Any (λ q. q ≡ p) end.files)
        → All (λ file. content (sha256 file.content) ≡ file.content) l
        → All (λ file. view end.store (sha256 file.content) ≡ some file.content) l
    all [] into h = tt
    all (file ∷ l) into h = (
      stored_content view content end.store sha256 file stored.holds h.0 (
          pick (path_of sha256 file) end.files (into (path_of sha256 file) (inl refl))
            stored.there_files),
      all l (λ p i. into p (inr i)) h.1,
    )
