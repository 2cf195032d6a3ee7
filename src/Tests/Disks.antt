-- ===== src/Tests/Disks.antt =====
-- Runs of the stores of pkg/turbocharger, and of the manifest handler over one on files.
use edgerouter.Base.{
  ◌≡◌, ◌≢◌, inl, refl, sym, ◌∙◌, Str, bytes, ◌==◌, eq_refl, ne→eq-false, Bool, true, false, [], ◌∷◌,
  Option, none, some, ok,
}
use edgerouter.Base.Dict.{Dict, lookup, insert, lookup-insert}
use edgerouter.Locks.{try_lock_internal}
use edgerouter.Turbocharger.Ids.{ObjectId}
use edgerouter.Turbocharger.Store.{
  found, got_of, InMemoryStore, in_memory_store, FileSystem, file_store, Cas, HeadAnswer, is_there,
  api_error, S3Client, s3_storage, not_read,
}
use edgerouter.Turbocharger.Store.Contract.{IsStore, IsFileSystem, in_memory_view}
use edgerouter.Turbocharger.Store.Remote.{IsS3, stores-IsStore}
use edgerouter.Turbocharger.Manifest.{is_expected_to_compress_well}
use edgerouter.Turbocharger.Manifest.State.{
  HandlerState, new_handler, Hydrated, hydrated, hydration_blocked,
}
use edgerouter.Turbocharger.Manifest.Caches.{hydrate_cache}
use edgerouter.Tests.Base64.{raw_url}
use edgerouter.Tests.Advertisements.{first_id, second_id}
use edgerouter.Tests.Sites.{simple_codecs, script_path, with_object}

-- A file system: the files by their paths.
abbrev pub is_some : Option Str → Bool
is_some none = false
is_some (some c) = true

abbrev pub disk : FileSystem (Dict Str)
disk = record {
  open_file = λ p s. (got_of (lookup p s), s);
  file_error = λ p s. none;
  exists = λ p s. (ok (is_some (lookup p s)), s);
  write_atomic = λ p c s. (record { result = ok tt; consumed = true }, insert p c s);
}

abbrev pub content_at : Dict Str → Str → Option Str
content_at s p = lookup p s

got-found : (o : Option Str) (c : Str) → got_of o ≡ found c → o ≡ some c
got-found none c h = cc
got-found (some b) c h = cc

is_some-true : (o : Option Str) → is_some o ≡ true → (c : Str) × (o ≡ some c)
is_some-true none h = cc
is_some-true (some c) h = (c, refl)

is_some-false : (o : Option Str) → is_some o ≡ false → o ≡ none
is_some-false none h = refl
is_some-false (some c) h = cc

insert-others : (p q c : Str) (s : Dict Str) → q ≢ p → lookup q (insert p c s) ≡ lookup q s
insert-others p q c s differs =
    lookup-insert p q c s ∙ rw (ne→eq-false p q (λ e. differs (sym e))) refl

insert-this : (p c : Str) (s : Dict Str) → lookup p (insert p c s) ≡ some c
insert-this p c s = lookup-insert p p c s ∙ rw (eq_refl p) refl

disk-IsFileSystem : IsFileSystem disk content_at
disk-IsFileSystem = record {
  open_keeps = λ p q s. refl;
  open_found = λ p s c h. got-found (lookup p s) c h;
  exists_keeps = λ p q s. refl;
  exists_true = λ p s h. is_some-true (lookup p s) (let e : is_some (lookup p s) ≡ true = cc in e);
  exists_false =
      λ p s h. is_some-false (lookup p s) (let e : is_some (lookup p s) ≡ false = cc in e);
  write_others = λ p q c s differs. insert-others p q c s differs;
  write_this = λ p c s. inl (insert-this p c s);
}

abbrev pub head_of : Option Str → HeadAnswer
head_of none = api_error (bytes "NotFound") (bytes "not found")
head_of (some c) = is_there

abbrev pub bucket : S3Client (Dict Str)
bucket = record {
  get = λ p s. (got_of (lookup p s), s);
  body_error = λ p s. none;
  head = λ p s. (head_of (lookup p s), s);
  put = λ p c t s. (ok tt, insert p c s);
}

head_of-there : (o : Option Str) → head_of o ≡ is_there → (c : Str) × (o ≡ some c)
head_of-there none h = cc
head_of-there (some c) h = (c, refl)

bucket-IsS3 : IsS3 bucket content_at
bucket-IsS3 = record {
  get_keeps = λ p q s. refl;
  get_found = λ p s c h. got-found (lookup p s) c h;
  head_keeps = λ p q s. refl;
  head_there = λ p s h. head_of-there (lookup p s) h;
  put_writes = λ p c t s. ((λ q differs. insert-others p q c s differs), inl (insert-this p c s));
}

abbrev pub same_path : ObjectId → Str
same_path id = id

stores-IsStore_example :
    IsStore in_memory_store in_memory_view
    × IsStore (file_store disk same_path) (λ s id. lookup id s)
    × IsStore (s3_storage bucket same_path) (λ s id. lookup id s)
    × ((id : ObjectId) (c t : Str) (s : Dict Str)
        → (disk.exists id s).0 ≡ ok true
        → ((file_store disk same_path).insert_object id c t s).0 ≡ not_read (ok tt))
stores-IsStore_example =
    stores-IsStore disk content_at bucket content_at same_path same_path disk-IsFileSystem
      bucket-IsS3 (λ a b e. e) (λ a b e. e)

-- A goroutine that missed the cache gets the lock only after another one has filled the cache.
abbrev pub late_handler : HandlerState InMemoryStore (Dict Str)
late_handler =
    new_handler (with_object first_id) (with_object second_id) ((first_id, 31 ∷ bytes "hello") ∷ [])
      []

abbrev pub keep_late :
    Str → HandlerState InMemoryStore (Dict Str) → Hydrated × HandlerState InMemoryStore (Dict Str)
keep_late key h = (hydrated (ok tt), h)

late_blocks :
    (hydrate_cache raw_url simple_codecs in_memory_store
      (file_store disk same_path)
      keep_late
      script_path
      late_handler).0
    ≡ hydration_blocked
unfolding hydrate_cache try_lock_internal lookup in_memory_store ◌==◌ is_expected_to_compress_well
    bytes file_store
late_blocks = refl

-- The origin's connection breaks while the file is compressed.
abbrev breaking : Cas InMemoryStore
breaking = record in_memory_store { read_error = λ id s. some (bytes "he", bytes "unexpected EOF") }

broken_blocks :
    (hydrate_cache raw_url simple_codecs breaking
      (file_store disk same_path)
      keep_late
      script_path
      (new_handler (with_object first_id) (with_object second_id) [] [])).0
    ≡ hydration_blocked
unfolding hydrate_cache try_lock_internal lookup in_memory_store ◌==◌ is_expected_to_compress_well
    bytes file_store
broken_blocks = refl
