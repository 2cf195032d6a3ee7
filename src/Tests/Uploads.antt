-- ===== src/Tests/Uploads.antt =====
-- Runs of pkg/turbocharger/deployment.go.
use edgerouter.Base.{
  ◌≡◌, refl, Str, bytes, ◌==◌, eq_iff, true, List, [], ◌∷◌, map, some, Result, ok, All, length,
  arith,
}
use edgerouter.Base.Dict.{lookup, insert}
use edgerouter.Base.Sort.{SliceSort, insertion, insertion_sort}
use edgerouter.Discovery.EventLog.{str_lt}
use edgerouter.Turbocharger.Ids.{ObjectId}
use edgerouter.Turbocharger.Store.{Cas, InMemoryStore, new_in_memory_store, in_memory_store}
use edgerouter.Turbocharger.Store.Contract.{in_memory_view, in_memory_store-IsStore}
use edgerouter.Turbocharger.Manifest.{FilePath, Manifest, ManifestMetadata}
use edgerouter.Turbocharger.Deployment.{
  FileToDeploy, path_lt, path_of, Deploying, start_deploying, Step, submitted, inserted, noted,
  Steps, done, next, upload_all, finish_deployment, deploy_in_order,
}
use edgerouter.Turbocharger.Deployment.Order.{HasDistinctPaths}
use edgerouter.Turbocharger.Deployment.Same.{Steps-deploy}
use edgerouter.Tests.Logs.{str_lt-asym, str_lt-chain}

-- A digest without collisions.
abbrev pub whole : Str → ObjectId
whole s = s

abbrev pub no_type : Str → Str
no_type e = []

abbrev pub page : FileToDeploy
page = record { path = bytes "/b.html"; content = bytes "page" }

abbrev pub image : FileToDeploy
image = record { path = bytes "/a.png"; content = bytes "image" }

abbrev pub two_files : List FileToDeploy
two_files = page ∷ image ∷ []

abbrev pub in_progress :
    List FileToDeploy
    → List FileToDeploy
    → List FilePath
    → List FilePath
    → InMemoryStore
    → Deploying InMemoryStore
in_progress source received uploaded noted_files s = record {
  source = source;
  received = received;
  uploaded = uploaded;
  files = noted_files;
  store = s;
}

abbrev pub image_stored : InMemoryStore
image_stored = record { files = (bytes "image", bytes "image") ∷ []; gets = 0; puts = 1 }

abbrev pub both_stored : InMemoryStore
both_stored = record {
  files = (bytes "image", bytes "image") ∷ (bytes "page", bytes "page") ∷ [];
  gets = 0;
  puts = 2;
}

abbrev pub page_path : FilePath
page_path = path_of whole page

abbrev pub image_path : FilePath
image_path = path_of whole image

abbrev pub both_noted : Deploying InMemoryStore
both_noted = in_progress [] [] [] (image_path ∷ page_path ∷ []) both_stored

abbrev pub UploadStep : Deploying InMemoryStore → Deploying InMemoryStore → Type 0
UploadStep = Step whole no_type in_memory_store

-- Both files are taken, and the second one is uploaded and noted first.
page_taken :
    UploadStep
      (start_deploying two_files new_in_memory_store)
      (in_progress (image ∷ []) (page ∷ []) [] [] new_in_memory_store)
page_taken =
    submitted {d = start_deploying two_files new_in_memory_store} page (image ∷ []) refl
      (omega arith)

image_taken :
    UploadStep
      (in_progress (image ∷ []) (page ∷ []) [] [] new_in_memory_store)
      (in_progress [] (image ∷ page ∷ []) [] [] new_in_memory_store)
image_taken =
    submitted {d = in_progress (image ∷ []) (page ∷ []) [] [] new_in_memory_store} image [] refl
      (omega arith)

image_uploaded :
    UploadStep
      (in_progress [] (image ∷ page ∷ []) [] [] new_in_memory_store)
      (in_progress [] (page ∷ []) (image_path ∷ []) [] image_stored)
unfolding in_memory_store insert
image_uploaded =
    inserted {d = in_progress [] (image ∷ page ∷ []) [] [] new_in_memory_store} [] (page ∷ []) image
      {s = image_stored} {result = record { result = ok tt; consumed = true }} refl refl refl

image_noted :
    UploadStep
      (in_progress [] (page ∷ []) (image_path ∷ []) [] image_stored)
      (in_progress [] (page ∷ []) [] (image_path ∷ []) image_stored)
image_noted =
    noted {d = in_progress [] (page ∷ []) (image_path ∷ []) [] image_stored} [] [] image_path refl

page_uploaded :
    UploadStep
      (in_progress [] (page ∷ []) [] (image_path ∷ []) image_stored)
      (in_progress [] [] (page_path ∷ []) (image_path ∷ []) both_stored)
unfolding in_memory_store insert ◌==◌ bytes
page_uploaded =
    inserted {d = in_progress [] (page ∷ []) [] (image_path ∷ []) image_stored} [] [] page
      {s = both_stored} {result = record { result = ok tt; consumed = true }} refl refl refl

page_noted :
    UploadStep (in_progress [] [] (page_path ∷ []) (image_path ∷ []) both_stored) both_noted
page_noted =
    noted {d = in_progress [] [] (page_path ∷ []) (image_path ∷ []) both_stored} [] [] page_path
      refl

pub whole_run :
    Steps whole no_type in_memory_store (start_deploying two_files new_in_memory_store) both_noted
whole_run = next page_taken (
    next image_taken
      (next image_uploaded (next image_noted (next page_uploaded (next page_noted done)))))

abbrev pub sort_paths : SliceSort path_lt
sort_paths =
    insertion path_lt (λ a b. str_lt-asym a.path b.path)
      (λ a b c. str_lt-chain a.path b.path c.path)

abbrev pub marshal_count : Manifest → Result Str
marshal_count manifest = ok (length manifest.files ∷ [])

abbrev pub metadata : ManifestMetadata
metadata = record { project = bytes "site"; deployed = 0 }

abbrev pub sorted_manifest : Manifest
sorted_manifest = record { metadata = metadata; files = image_path ∷ page_path ∷ [] }

deployed_sorted :
    (deploy_in_order whole sort_paths marshal_count no_type in_memory_store in_memory_store metadata
      two_files new_in_memory_store new_in_memory_store).0
    ≡ ok (record { id = 2 ∷ []; manifest = sorted_manifest })
unfolding deploy_in_order in_memory_store insertion_sort str_lt bytes
deployed_sorted = refl

pub distinct_paths : HasDistinctPaths (map (path_of whole) two_files)
unfolding bytes ◌==◌
distinct_paths = (((λ e. let t = (eq_iff image.path page.path).1 e in cc), tt), (tt, tt))

Steps-deploy_example :
    ((sorting : SliceSort path_lt) (marshal : Manifest → Result Str) (noted_files : List FilePath)
        (s' : InMemoryStore)
      → upload_all whole no_type in_memory_store [] two_files new_in_memory_store
        ≡ (ok noted_files, s')
      → (M : Type 0) (manifests : Cas M) (metadata : ManifestMetadata) (m : M)
      → finish_deployment whole sorting marshal manifests metadata (image_path ∷ page_path ∷ []) m
        ≡ finish_deployment whole sorting marshal manifests metadata noted_files m)
    × All (λ file. in_memory_view both_stored (whole file.content) ≡ some file.content) two_files
unfolding lookup
Steps-deploy_example =
    Steps-deploy whole no_type in_memory_store in_memory_view whole two_files new_in_memory_store
      both_noted in_memory_store-IsStore distinct_paths (refl, (refl, tt)) (λ id c h. cc) whole_run
      (refl, refl, refl)
