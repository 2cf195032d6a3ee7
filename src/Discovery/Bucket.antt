-- ===== src/Discovery/Bucket.antt =====
-- pkg/erdiscovery/s3discovery/s3discovery.go: the applications as objects of an S3 bucket, read again
-- only after a change.
pub mod Fresh
use edgerouter.Base.{
  ℕ, Str, bytes, ◌==◌, Bool, true, false, List, [], ◌∷◌, ◌++◌, Result, ok, err, panic, and_then,
  wrap, ◌>>=◌, if◌then◌else◌,
}
use edgerouter.Config.{Application}
use edgerouter.Discovery.Multi.{Reader}

-- What is read of a listed object.
pub record S3Object : Type 0 where
  pub key : Str
  pub etag : Str

-- The calls of the S3 client for the bucket, over the state `B` of the bucket. ListObjects gives the
-- first page of a listing.
pub record Bucket (B : Type 0) : Type 0 where
  pub list_objects : (prefix : Str) → B → Result (List S3Object) × B
  pub get_object : (key : Str) → B → Result Str × B
  pub put_object : (key content_type body : Str) → B → Result (Unit {0}) × B
  pub delete_object : (key : Str) → B → Result (Unit {0}) × B

-- The discovery; a hash that was never computed is empty.
pub record S3Discovery (B : Type 0) : Type 0 where
  pub cached_read : List Application
  pub cached_read_hash : Str
  pub bucket : B

abbrev pub new_s3_discovery : {B : Type 0} → B → S3Discovery B
new_s3_discovery b = record { cached_read = []; cached_read_hash = []; bucket = b }

abbrev pub discovery_file_path : Str → Str
discovery_file_path app_id = bytes "discovery/" ++ (app_id ++ bytes ".json")

-- What is written to the hash.
abbrev pub etag_lines : List S3Object → Str
etag_lines [] = []
etag_lines (object ∷ objects) = (object.etag ++ bytes "\n") ++ etag_lines objects

-- `fmt.Errorf("s3discovery: ...: %v", err)`
abbrev pub s3_error : {A S : Type 0} → Str → Result A × S → Result A × S
s3_error call (result, s) =
    (wrap (λ e. bytes "s3discovery: " ++ (call ++ (bytes ": " ++ e))) result, s)

-- `sha1` is the digest, `decode` the JSON decoder for an application without unknown fields, and
-- `marshal` json.MarshalIndent.
module _ {B : Type 0} (client : Bucket B) (sha1 : Str → Str) (decode : Str → Result Application)
    (marshal : Application → Result Str) where
  unfoldable pub read_objects : List Application → List S3Object → B → Result (List Application) × B
  read_objects apps [] b = (ok apps, b)
  read_objects apps (object ∷ objects) b = and_then (client.get_object object.key b) (λ body b'.
      and_then (decode body, b') (λ app b''. read_objects (apps ++ app ∷ []) objects b''))

  abbrev pub keep_read :
      S3Discovery B
      → Str
      → Result (List Application) × B
      → Result (List Application) × S3Discovery B
  keep_read d hash (ok apps, b) =
      (ok apps, record { cached_read = apps; cached_read_hash = hash; bucket = b })
  keep_read d hash (err message, b) = (err message, record d { bucket = b })
  keep_read d hash (panic, b) = (panic, record d { bucket = b })

  abbrev pub read_listed :
      S3Discovery B → Result (List S3Object) × B → Result (List Application) × S3Discovery B
  read_listed d (ok objects, b) =
      let hash = sha1 (etag_lines objects) in
      if d.cached_read_hash == hash
      then (ok d.cached_read, record d { bucket = b })
      else keep_read d hash (read_objects [] objects b)
  read_listed d (err message, b) = (err message, record d { bucket = b })
  read_listed d (panic, b) = (panic, record d { bucket = b })

  unfoldable pub read_bucket : Reader (S3Discovery B)
  unfolding read_objects
  read_bucket d =
      read_listed d
        (s3_error (bytes "ListObjects") (client.list_objects (bytes "discovery/") d.bucket))

  abbrev pub in_bucket : S3Discovery B → Result (Unit {0}) × B → Result (Unit {0}) × S3Discovery B
  in_bucket d (result, b) = (result, record d { bucket = b })

  unfoldable pub update_in_bucket : Application → S3Discovery B → Result (Unit {0}) × S3Discovery B
  update_in_bucket app d =
      and_then (marshal app, d)
        (λ buf d'. in_bucket d' (
          s3_error (bytes "PutObject") (
            client.put_object (discovery_file_path app.id) (bytes "application/json") buf
              d'.bucket)))

  unfoldable pub delete_from_bucket :
      Application → S3Discovery B → Result (Unit {0}) × S3Discovery B
  delete_from_bucket app d =
      in_bucket d (
        s3_error (bytes "DeleteObject")
          (client.delete_object (discovery_file_path app.id) d.bucket))
