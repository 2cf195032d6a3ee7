-- ===== src/Commands.antt =====
-- cmd/edgerouter/discovery.go: changing the discovered applications from the command line. The
-- discovery service and the decoding of the standard input are parameters.
pub mod Laws
use edgerouter.Base.{
  Str, bytes, Bool, true, false, not, ◌&&◌, Option, none, some, Result, ok, err, panic, and_then,
  if◌then◌else◌,
}
use edgerouter.Config.{Application}
use edgerouter.Config.Validate.{validate}
use edgerouter.Config.Find.{find_application}
use edgerouter.Discovery.Multi.{Reader}

-- erdiscovery.ReaderWriter
pub record ReaderWriter (S : Type 0) : Type 0 where
  pub read_applications : Reader S
  pub update_application : Application → S → Result (Unit {0}) × S
  pub delete_application : Application → S → Result (Unit {0}) × S

abbrev pub is_found : Option Application → Bool
is_found none = false
is_found (some app) = true

module _ {S : Type 0} (service : ReaderWriter S) where
  abbrev pub delete_found : Option Application → S → Result (Unit {0}) × S
  delete_found none s = (err (bytes "app to delete not found"), s)
  delete_found (some app) s = service.delete_application app s

  unfoldable pub discovery_delete_application : Str → S → Result (Unit {0}) × S
  unfolding find_application
  discovery_delete_application app_id s =
      and_then (service.read_applications s)
        (λ apps s'. delete_found (find_application app_id apps) s')

  abbrev pub put_checked : Bool → Bool → Application → S → Result (Unit {0}) × S
  put_checked new_ok app_already_exists app s =
      if new_ok && app_already_exists
      then (err (bytes "want to create new App but it already exists"), s)
      else if not new_ok && not app_already_exists
      then (err (bytes "app doesn't exist. did you mean to create new with '--new'?"), s)
      else service.update_application app s

  -- `unmarshal` is jsonfile.Unmarshal.
  unfoldable pub discovery_put :
      {R : Type 0}
      → (Str → Result R)
      → (Str → Result Application)
      → Str
      → Bool
      → S
      → Result (Unit {0}) × S
  unfolding find_application
  discovery_put compile unmarshal content new_ok s =
      and_then (service.read_applications s) (λ existing_apps s₁.
        and_then (unmarshal content, s₁)
          (λ app s₂.
            and_then (validate compile app, s₂)
              (λ _ s₃.
                put_checked new_ok (is_found (find_application app.id existing_apps)) app s₃)))
