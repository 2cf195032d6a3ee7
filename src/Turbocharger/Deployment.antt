-- ===== src/Turbocharger/Deployment.antt =====
-- pkg/turbocharger/deployment.go with pkg/syncutil/concurrently.go: putting files and their manifest
-- into the stores. The three workers and the submitter are a step relation.
pub mod Order
pub mod Runs
pub mod Same
pub mod Served
use edgerouter.Base.{
  ℕ, ◌<◌, ◌+◌, ◌≡◌, Str, bytes, Bool, List, [], ◌∷◌, ◌++◌, map, length, Option, none, some, Result,
  ok, err, panic, and_then, ◌>>=◌,
}
use edgerouter.Base.Sort.{SliceSort}
use edgerouter.Discovery.EventLog.{str_lt}
use edgerouter.Turbocharger.Ids.{ObjectId}
use edgerouter.Turbocharger.Store.{Cas, Inserted}
use edgerouter.Turbocharger.Manifest.{FilePath, ManifestMetadata, Manifest, ext, or_octet_stream}

-- The content of a file is read at once when it is submitted.
pub record FileToDeploy : Type 0 where
  pub path : Str
  pub content : Str

pub record ManifestWithId : Type 0 where
  pub id : ObjectId
  pub manifest : Manifest

abbrev pub path_lt : FilePath → FilePath → Bool
path_lt a b = str_lt a.path b.path

-- What all goroutines share: what nextFile still returns, what the workers received, what they put
-- into the store and still have to note in the manifest, the manifest's files, and the store.
pub record Deploying (S : Type 0) : Type 0 where
  pub source : List FileToDeploy
  pub received : List FileToDeploy
  pub uploaded : List FilePath
  pub files : List FilePath
  pub store : S

abbrev pub start_deploying : {S : Type 0} → List FileToDeploy → S → Deploying S
start_deploying source s = record {
  source = source;
  received = [];
  uploaded = [];
  files = [];
  store = s;
}

-- `sha256` is the digest, which fills an id.
module _ (sha256 : Str → ObjectId) where
  abbrev pub calculate_content_id : Str → ObjectId
  calculate_content_id input = sha256 input

  abbrev pub path_of : FileToDeploy → FilePath
  path_of file = record { path = file.path; content_id = calculate_content_id file.content }

  module _ {S : Type 0} (mime_type_by_extension : Str → Str) (files : Cas S) where
    abbrev pub upload : FileToDeploy → S → Inserted × S
    upload file s =
        files.insert_object (calculate_content_id file.content) file.content
          (or_octet_stream (mime_type_by_extension (ext file.path))) s

    -- A worker takes the next file, uploads it and then notes it under the mutex. There are three
    -- workers, each with one file at a time. An error ends the deployment, so that it is no step.
    pub data Step : Deploying S → Deploying S → Type 0 where
      submitted :
          {d : Deploying S} (file : FileToDeploy) (rest : List FileToDeploy)
          → d.source ≡ file ∷ rest
          → length d.received + length d.uploaded < 3
          → Step d (record d { source = rest; received = file ∷ d.received })
      inserted :
          {d : Deploying S} (front back : List FileToDeploy) (file : FileToDeploy) {s : S}
          {result : Inserted}
          → d.received ≡ front ++ file ∷ back
          → upload file d.store ≡ (result, s)
          → result.result ≡ ok tt
          → Step d (record d {
            received = front ++ back;
            uploaded = path_of file ∷ d.uploaded;
            store = s;
          })
      noted :
          {d : Deploying S} (front back : List FilePath) (file : FilePath)
          → d.uploaded ≡ front ++ file ∷ back
          → Step d (record d { uploaded = front ++ back; files = d.files ++ file ∷ [] })

    pub data Steps : Deploying S → Deploying S → Type 0 where
      done : {d : Deploying S} → Steps d d
      next : {d e f : Deploying S} → Step d e → Steps e f → Steps d f

    -- The same with one worker: file after file.
    abbrev pub after_upload : Inserted × S → Result (Unit {0}) × S
    after_upload (result, s) = (result.result, s)

    unfoldable pub upload_all : List FilePath → List FileToDeploy → S → Result (List FilePath) × S
    upload_all noted_files [] s = (ok noted_files, s)
    upload_all noted_files (file ∷ rest) s =
        and_then (after_upload (upload file s))
          (λ _ s'. upload_all (noted_files ++ path_of file ∷ []) rest s')

  module _ (sorting : SliceSort path_lt) (marshal : Manifest → Result Str) where
    abbrev pub manifest_of : ManifestMetadata → List FilePath → Manifest
    manifest_of metadata noted_files = record {
      metadata = metadata;
      files = sorting.sort noted_files;
    }

    abbrev pub kept_manifest :
        {M : Type 0} → Manifest → ObjectId → Inserted × M → Result ManifestWithId × M
    kept_manifest manifest id (result, s) =
        and_then (result.result, s) (λ _ s'. (ok (record { id = id; manifest = manifest }), s'))

    abbrev pub insert_manifest :
        {M : Type 0} → Cas M → Manifest → Result Str → M → Result ManifestWithId × M
    insert_manifest manifests manifest (ok serialized) s =
        kept_manifest manifest (calculate_content_id serialized) (
          manifests.insert_object (calculate_content_id serialized) serialized
            (bytes "application/json") s)
    insert_manifest manifests manifest (err message) s = (err message, s)
    insert_manifest manifests manifest panic s = (panic, s)

    -- Deploy, from where the workers are done.
    unfoldable pub finish_deployment :
        {M : Type 0} → Cas M → ManifestMetadata → List FilePath → M → Result ManifestWithId × M
    finish_deployment manifests metadata [] s = (err (bytes "deployment doesn't have files"), s)
    finish_deployment manifests metadata (file ∷ more) s =
        let manifest = manifest_of metadata (file ∷ more) in
        insert_manifest manifests manifest (marshal manifest) s

    abbrev pub finish_uploaded :
        {S M : Type 0}
        → Cas M
        → ManifestMetadata
        → Result (List FilePath) × S
        → M
        → Result ManifestWithId × (S × M)
    finish_uploaded manifests metadata (ok noted_files, s) m =
        let (result, m') = finish_deployment manifests metadata noted_files m in (result, (s, m'))
    finish_uploaded manifests metadata (err message, s) m = (err message, (s, m))
    finish_uploaded manifests metadata (panic, s) m = (panic, (s, m))

    -- Deploy with one worker.
    unfoldable pub deploy_in_order :
        {S M : Type 0}
        → (Str → Str)
        → Cas S
        → Cas M
        → ManifestMetadata
        → List FileToDeploy
        → S
        → M
        → Result ManifestWithId × (S × M)
    unfolding upload_all finish_deployment
    deploy_in_order mime_type_by_extension files manifests metadata source s m =
        finish_uploaded manifests metadata (upload_all mime_type_by_extension files [] source s) m
