-- ===== src/Tests/Sites.antt =====
-- Runs of pkg/turbocharger/manifesthandler.go and the stores below it.
use edgerouter.Base.{
  ◌≡◌, refl, Str, bytes, ◌==◌, contains, [], ◌∷◌, some, Result, ok, err, eqb, if◌then◌else◌, All,
}
use edgerouter.Base.Dict.{Dict, lookup, insert}
use edgerouter.Base.Dict.Keys.{lookup-All}
use edgerouter.Locks.{new_mutex_map, try_lock_internal, is_closed, unlock}
use edgerouter.Turbocharger.Ids.{ObjectId, id_string}
use edgerouter.Turbocharger.Store.{InMemoryStore, in_memory_store}
use edgerouter.Turbocharger.Store.Contract.{
  in_memory_view, in_memory_store-IsStore, in_memory_store-IsReliable,
}
use edgerouter.Turbocharger.Manifest.{
  FilePath, Manifest, optimize_manifest, is_expected_to_compress_well, FileRequest,
  client_supports_gzip, Codecs, Sent, sent,
}
use edgerouter.Turbocharger.Manifest.State.{HandlerState, Hydrated, hydrated, new_handler, returned}
use edgerouter.Turbocharger.Manifest.Caches.{send_to_client}
use edgerouter.Turbocharger.Manifest.Serve.{choose_file, serve_http_from_manifest}
use edgerouter.Turbocharger.Manifest.Coherent.{IsGzip, IsCoherent}
use edgerouter.Turbocharger.Manifest.Answers.{IsAnswer, serve_http_from_manifest-IsRight}
use edgerouter.Turbocharger.Manifest.Available.{IsFree}
use edgerouter.Turbocharger.Manifest.Delivered.{IsDelivered, serve_http_from_manifest-IsDelivered}
use edgerouter.Tests.Base64.{raw_url}
use edgerouter.Tests.Advertisements.{first_id, second_id}

abbrev pub script_path : FilePath
script_path = record { path = bytes "/a.js"; content_id = first_id }

abbrev pub site : Manifest
site = record {
  metadata = record { project = bytes "site"; deployed = 0 };
  files = script_path ∷ [];
}

abbrev pub unzip : Str → Result (Result (Unit {0}) × Str)
unzip [] = err (bytes "EOF")
unzip (c ∷ z) = if eqb c 31 then ok (ok tt, z) else err (bytes "gzip: invalid header")

abbrev pub simple_codecs : Codecs
simple_codecs = record {
  gzip = λ c. 31 ∷ c;
  gzip_reader = unzip;
  mime_type_by_extension = λ e. if e == bytes ".js" then bytes "text/javascript" else [];
  decode_manifest = λ s. if s == bytes "M" then ok site else err (bytes "DecodeManifest: EOF");
}

pub simple-IsGzip : IsGzip simple_codecs
simple-IsGzip c = refl

-- The content that each of the two ids names.
abbrev pub content_of : ObjectId → Str
content_of id = if id == first_id then bytes "hello" else bytes "M"

abbrev pub with_object : ObjectId → InMemoryStore
with_object id = record { files = (id, content_of id) ∷ []; gets = 0; puts = 0 }

abbrev pub no_objects : InMemoryStore
no_objects = record { files = []; gets = 0; puts = 0 }

abbrev pub SiteHandler : Type 0
SiteHandler = HandlerState InMemoryStore InMemoryStore

abbrev pub fresh_handler : SiteHandler
fresh_handler = new_handler (with_object first_id) (with_object second_id) no_objects no_objects

pub holds_one :
    (f : ObjectId → Str) (entries : Dict Str)
    → All (λ e. e.1 ≡ f e.0) entries
    → (id : ObjectId) (c : Str) → lookup id entries ≡ some c
    → c ≡ f id
holds_one f entries all id c h = lookup-All (λ e. e.1 ≡ f e.0) id c entries all h

fresh-IsCoherent : IsCoherent simple_codecs in_memory_view in_memory_view content_of fresh_handler
unfolding lookup
fresh-IsCoherent = record {
  files = holds_one content_of ((first_id, content_of first_id) ∷ []) (refl, tt);
  manifests = holds_one content_of ((second_id, content_of second_id) ∷ []) (refl, tt);
  gzipped = λ id c h. cc;
  uncompressed = λ id c h. cc;
  ram = λ id o h. cc;
}

abbrev pub get_script : FileRequest
get_script = record { path = bytes "/a.js"; if_none_match = []; accept_encoding = bytes "br, gzip" }

abbrev pub keep_waiting : Str → SiteHandler → SiteHandler
keep_waiting key h = h

abbrev pub keep_filling : Str → SiteHandler → Hydrated × SiteHandler
keep_filling key h = (hydrated (ok tt), h)

abbrev pub zipped_script : Sent
zipped_script = record {
  status = 200;
  content_type = bytes "text/javascript";
  content_encoding = some (bytes "gzip");
  etag = bytes "\"BwAAAAAAAAAAAAAAAAAAAAAAAAAAAAAAAAAAAAAAAAA-gz\"";
  body = 31 ∷ bytes "hello";
}

script_sent :
    (serve_http_from_manifest raw_url simple_codecs in_memory_store in_memory_store keep_waiting
      keep_filling 1 second_id get_script fresh_handler).0
    ≡ returned (ok tt) (sent zipped_script)
unfolding serve_http_from_manifest lookup try_lock_internal unlock is_closed in_memory_store ◌==◌
    bytes optimize_manifest insert is_expected_to_compress_well send_to_client client_supports_gzip
    contains edgerouter.Tests.Base64.encode
script_sent = refl

-- The next request needs neither origin.
second_request :
    let h =
      (serve_http_from_manifest raw_url simple_codecs in_memory_store in_memory_store keep_waiting
        keep_filling 1 second_id get_script fresh_handler).1 in
    let h' =
      (serve_http_from_manifest raw_url simple_codecs in_memory_store in_memory_store keep_waiting
        keep_filling 1 second_id get_script h).1 in
    (h'.files.gets ≡ 1) × (h'.manifests.gets ≡ 1)
unfolding serve_http_from_manifest lookup try_lock_internal unlock is_closed in_memory_store ◌==◌
    bytes optimize_manifest insert is_expected_to_compress_well send_to_client client_supports_gzip
    contains
second_request = (refl, refl)

serve_http_from_manifest-IsRight_example :
    IsCoherent simple_codecs in_memory_view in_memory_view content_of
      (serve_http_from_manifest raw_url simple_codecs in_memory_store in_memory_store keep_waiting
        keep_filling 1 second_id get_script fresh_handler).1
    × IsAnswer raw_url simple_codecs content_of second_id get_script
        (serve_http_from_manifest raw_url simple_codecs in_memory_store in_memory_store keep_waiting
          keep_filling 1 second_id get_script fresh_handler).0
serve_http_from_manifest-IsRight_example =
    serve_http_from_manifest-IsRight raw_url simple_codecs in_memory_store in_memory_store
      in_memory_view in_memory_view in_memory_store-IsStore in_memory_store-IsStore simple-IsGzip
      content_of keep_waiting keep_filling (λ key h i. i) (λ key h i. i) 1 second_id get_script
      fresh_handler fresh-IsCoherent

site_decoded : simple_codecs.decode_manifest (content_of second_id) ≡ ok site
unfolding ◌==◌ bytes
site_decoded = refl

script_chosen : choose_file (optimize_manifest site) get_script.path ≡ some (script_path, 200)
unfolding choose_file lookup optimize_manifest insert ◌==◌ bytes
script_chosen = refl

manifest_there : in_memory_view fresh_handler.manifests second_id ≡ some (content_of second_id)
unfolding lookup ◌==◌
manifest_there = refl

script_there : in_memory_view fresh_handler.files first_id ≡ some (content_of first_id)
unfolding lookup ◌==◌
script_there = refl

no_locks : (key : Str) → IsFree key new_mutex_map
unfolding lookup is_closed
no_locks key = (refl, refl)

serve_http_from_manifest-IsDelivered_example :
    IsDelivered raw_url simple_codecs content_of script_path 200 get_script
      (serve_http_from_manifest raw_url simple_codecs in_memory_store in_memory_store keep_waiting
        keep_filling 1 second_id get_script fresh_handler).0
serve_http_from_manifest-IsDelivered_example =
    serve_http_from_manifest-IsDelivered raw_url simple_codecs in_memory_store in_memory_store
      in_memory_view in_memory_view in_memory_store-IsStore in_memory_store-IsStore
      in_memory_store-IsReliable in_memory_store-IsReliable simple-IsGzip content_of keep_waiting
      keep_filling (λ key h i. i) (λ key h i. i) 0 second_id get_script fresh_handler site
      script_path 200 fresh-IsCoherent site_decoded script_chosen manifest_there script_there
      (no_locks (id_string raw_url second_id)) (no_locks (id_string raw_url first_id))
