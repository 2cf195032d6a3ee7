-- ===== src/Turbocharger/Manifest/Blocking.antt =====
-- pkg/turbocharger/manifesthandler.go: when filling the caches does not end.
use edgerouter.Base.{ℕ, ◌≡◌, ◌⊎◌, Str, bytes, true, false, Option, none, some}
use edgerouter.Config.Validate.{is_empty}
use edgerouter.Locks.{MutexMap, unlock_func, try_again, try_lock_internal}
use edgerouter.Turbocharger.Ids.{Encodings, id_string}
use edgerouter.Turbocharger.Store.{BrokenRead, Inserted, Cas, found}
use edgerouter.Turbocharger.Manifest.{FilePath, Codecs, is_expected_to_compress_well}
use edgerouter.Turbocharger.Manifest.State.{HandlerState, Hydrated, hydration_blocked}

-- An inserted content that blocks its writer: the reader gives it whole and the insertion does not
-- read it to its end, or the reader fails and the insertion reads on or leaves written bytes unread.
abbrev pub IsUnread : (Str → Inserted) → Str → Option BrokenRead → Type 0
IsUnread insert body none = (insert body).consumed ≡ false
IsUnread insert body (some (before, error)) =
    ((insert before).consumed ≡ true) ⊎ (is_empty before ≡ false)

module _ {O C : Type 0} (enc : Encodings) (codecs : Codecs) (origin : Cas O) (cache : Cas C)
    (wait_file : Str → HandlerState O C → Hydrated × HandlerState O C) where
  abbrev zip_insert : FilePath → HandlerState O C → Str → Inserted
  zip_insert file h body =
      (cache.insert_object file.content_id (codecs.gzip body) (bytes "dummy") h.gzipped).0

  -- This goroutine gets the lock, the origin has the file, and the compressed insertion blocks; or
  -- another goroutine holds the lock, and the wait for it never ends.
  abbrev pub IsStuck : FilePath → HandlerState O C → Type 0
  IsStuck file h =
      ((chan : ℕ) × (n : MutexMap) × (body : Str) × (try_lock_internal
            (id_string enc file.content_id) h.file_locks
          ≡ (unlock_func (id_string enc file.content_id) chan, n))
        × ((origin.get_object file.content_id h.files).0 ≡ found body)
        × (is_expected_to_compress_well file.path ≡ true)
        × IsUnread (zip_insert file h) body
            (origin.read_error file.content_id (origin.get_object file.content_id h.files).1))
      ⊎ ((chan : ℕ) × (n : MutexMap) × (try_lock_internal (id_string enc file.content_id)
              h.file_locks
            ≡ (try_again chan, n))
          × ((wait_file (id_string enc file.content_id) (record h { file_locks = n })).0
              ≡ hydration_blocked))
