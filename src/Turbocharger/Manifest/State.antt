-- ===== src/Turbocharger/Manifest/State.antt =====
-- pkg/turbocharger/manifesthandler.go: the state of the handler, and how its calls end.
use edgerouter.Base.{ℕ, Str, List, [], ◌∷◌, Result}
use edgerouter.Base.Dict.{Dict}
use edgerouter.Locks.{MutexMap, new_mutex_map}
use edgerouter.Turbocharger.Store.{ReadError, not_exist, wraps_not_exist, other_error}
use edgerouter.Turbocharger.Manifest.{OptimizedManifest, Reply}

-- ManifestHandler, with the states `O` of its two origins and `C` of its two caches.
pub record HandlerState (O C : Type 0) : Type 0 where
  pub files : O
  pub manifests : O
  pub gzipped : C
  pub uncompressed : C
  pub file_locks : MutexMap
  pub manifest_locks : MutexMap
  pub cached_manifests : Dict OptimizedManifest
  pub log : List Str

abbrev pub new_handler : {O C : Type 0} → O → O → C → C → HandlerState O C
new_handler files manifests gzipped uncompressed = record {
  files = files;
  manifests = manifests;
  gzipped = gzipped;
  uncompressed = uncompressed;
  file_locks = new_mutex_map;
  manifest_locks = new_mutex_map;
  cached_manifests = [];
  log = [];
}

-- How a call ends: it returns and wrote a reply, it blocks for ever, or the attempts that it was
-- given to resolve the manifest are used up.
pub data Served : Type 0 where
  returned : Result (Unit {0}) → Reply → Served
  blocked out_of_attempts : Served

-- How the hydration ends: writing to a pipe that nobody reads blocks.
pub data Hydrated : Type 0 where
  hydrated : Result (Unit {0}) → Hydrated
  hydration_blocked : Hydrated

-- The first closure of resolveManifest.
pub data ManifestLookup : Type 0 where
  in_ram : OptimizedManifest → ManifestLookup
  to_download : (key : Str) (chan : ℕ) → ManifestLookup
  already_downloading : ManifestLookup

module _ {O C : Type 0} where
  -- `err != fs.ErrNotExist`
  abbrev pub log_read_error : Str → ReadError → HandlerState O C → HandlerState O C
  log_read_error message not_exist h = h
  log_read_error message (wraps_not_exist reason) h = record h { log = message ∷ h.log }
  log_read_error message (other_error reason) h = record h { log = message ∷ h.log }

  -- `errors.Is(err, fs.ErrNotExist)`
  abbrev pub log_unexpected_error : Str → ReadError → HandlerState O C → HandlerState O C
  log_unexpected_error message not_exist h = h
  log_unexpected_error message (wraps_not_exist reason) h = h
  log_unexpected_error message (other_error reason) h = record h { log = message ∷ h.log }
