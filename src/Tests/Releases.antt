-- ===== src/Tests/Releases.antt =====
-- A deployment of pkg/turbocharger/deployment.go that manifesthandler.go serves.
use edgerouter.Base.{◌≡◌, refl, Str, bytes, [], ◌∷◌, ok, inl}
use edgerouter.Base.Dict.{lookup, insert}
use edgerouter.Base.Sort.{insertion_sort}
use edgerouter.Discovery.EventLog.{str_lt}
use edgerouter.Locks.{new_mutex_map}
use edgerouter.Turbocharger.Store.{InMemoryStore, new_in_memory_store, in_memory_store}
use edgerouter.Turbocharger.Store.Contract.{
  in_memory_view, in_memory_store-IsStore, in_memory_store-IsReliable,
}
use edgerouter.Turbocharger.Manifest.{FileRequest, Codecs}
use edgerouter.Turbocharger.Manifest.State.{HandlerState, Hydrated, hydrated, new_handler}
use edgerouter.Turbocharger.Manifest.Serve.{serve_http_from_manifest}
use edgerouter.Turbocharger.Manifest.Coherent.{IsCoherent}
use edgerouter.Turbocharger.Manifest.Delivered.{IsDelivered}
use edgerouter.Turbocharger.Deployment.{ManifestWithId, finish_deployment}
use edgerouter.Turbocharger.Deployment.Served.{Steps-served}
use edgerouter.Tests.Base64.{raw_url}
use edgerouter.Tests.Sites.{simple_codecs, simple-IsGzip, holds_one, no_objects}
use edgerouter.Tests.Uploads.{
  whole, no_type, two_files, page, page_path, image_path, both_stored, both_noted, whole_run,
  sort_paths, marshal_count, metadata, sorted_manifest, distinct_paths,
}

abbrev site_codecs : Codecs
site_codecs = record simple_codecs { decode_manifest = λ s. ok sorted_manifest }

abbrev release : ManifestWithId
release = record { id = 2 ∷ []; manifest = sorted_manifest }

abbrev manifest_stored : InMemoryStore
manifest_stored = record { files = (2 ∷ [], 2 ∷ []) ∷ []; gets = 0; puts = 1 }

abbrev site_handler : HandlerState InMemoryStore InMemoryStore
site_handler = new_handler both_stored manifest_stored no_objects no_objects

abbrev keep_state :
    Str → HandlerState InMemoryStore InMemoryStore → HandlerState InMemoryStore InMemoryStore
keep_state key h = h

abbrev keep_filled :
    Str
    → HandlerState InMemoryStore InMemoryStore
    → Hydrated × HandlerState InMemoryStore InMemoryStore
keep_filled key h = (hydrated (ok tt), h)

abbrev get_page : FileRequest
get_page = record { path = bytes "/b.html"; if_none_match = []; accept_encoding = [] }

release_finished :
    finish_deployment whole sort_paths marshal_count in_memory_store metadata
      (image_path ∷ page_path ∷ [])
      new_in_memory_store
    ≡ (ok release, manifest_stored)
unfolding finish_deployment in_memory_store insertion_sort insert str_lt bytes
release_finished = refl

site-IsCoherent : IsCoherent site_codecs in_memory_view in_memory_view whole site_handler
unfolding lookup
site-IsCoherent = record {
  files = holds_one whole both_stored.files (refl, (refl, tt));
  manifests = holds_one whole manifest_stored.files (refl, tt);
  gzipped = λ id c h. cc;
  uncompressed = λ id c h. cc;
  ram = λ id o h. cc;
}

Steps-served_example :
    IsDelivered raw_url site_codecs whole page_path 200 get_page
      (serve_http_from_manifest raw_url site_codecs in_memory_store in_memory_store keep_state
        keep_filled 1
        (2 ∷ [])
        get_page
        site_handler).0
unfolding lookup edgerouter.Locks.is_closed
Steps-served_example =
    Steps-served raw_url site_codecs in_memory_store in_memory_store in_memory_view in_memory_view
      in_memory_store-IsStore in_memory_store-IsStore in_memory_store-IsReliable
      in_memory_store-IsReliable simple-IsGzip whole keep_state keep_filled (λ key h i. i)
      (λ key h i. i) whole no_type sort_paths marshal_count metadata two_files new_in_memory_store
      new_in_memory_store manifest_stored both_noted release site_handler page get_page 0
      distinct_paths (refl, (refl, tt)) (λ id c h. cc) whole_run (refl, refl, refl) release_finished
      (λ text e. (refl, refl)) (refl, refl) site-IsCoherent (λ key. ((refl, refl), (refl, refl)))
      (inl refl) refl
