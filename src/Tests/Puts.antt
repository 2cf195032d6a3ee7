-- ===== src/Tests/Puts.antt =====
-- Runs of cmd/edgerouter/discovery.go.
use edgerouter.Base.{◌≡◌, refl, ◌↔◌, Str, bytes, ◌==◌, true, false, List, [], ◌∷◌, Result, ok, err}
use edgerouter.Config.{Application}
use edgerouter.Config.Validate.{validate}
use edgerouter.Commands.{ReaderWriter, discovery_put, discovery_delete_application}
use edgerouter.Commands.Laws.{IsExpected, discovery_put_iff}
use edgerouter.Tests.Sample.{compile_literal, api_app, shop_app}

-- A service whose state is its applications.
abbrev listed : ReaderWriter (List Application)
listed = record {
  read_applications = λ apps. (ok apps, apps);
  update_application = λ app apps. (ok tt, app ∷ apps);
  delete_application = λ app apps. (ok tt, []);
}

abbrev read_shop : Str → Result Application
read_shop content = ok shop_app

new_put :
    discovery_put listed compile_literal read_shop [] true (api_app ∷ [])
    ≡ (ok tt, shop_app ∷ api_app ∷ [])
unfolding discovery_put validate bytes ◌==◌
new_put = refl

old_refused :
    discovery_put listed compile_literal read_shop [] true (shop_app ∷ [])
    ≡ (err (bytes "want to create new App but it already exists"), shop_app ∷ [])
unfolding discovery_put validate bytes ◌==◌
old_refused = refl

missing_refused :
    discovery_put listed compile_literal read_shop [] false (api_app ∷ [])
    ≡ (err (bytes "app doesn't exist. did you mean to create new with '--new'?"), api_app ∷ [])
unfolding discovery_put validate bytes ◌==◌
missing_refused = refl

unknown_kept :
    discovery_delete_application listed (bytes "shop") (api_app ∷ [])
    ≡ (err (bytes "app to delete not found"), api_app ∷ [])
unfolding discovery_delete_application ◌==◌ bytes
unknown_kept = refl

discovery_put_iff_example :
    (discovery_put listed compile_literal read_shop [] true (api_app ∷ [])
      ≡ (ok tt, shop_app ∷ api_app ∷ []))
    ↔ ((apps : List Application) × (s₁ : List Application) × (app : Application)
        × (listed.read_applications (api_app ∷ []) ≡ (ok apps, s₁))
        × (read_shop [] ≡ ok app)
        × (validate compile_literal app ≡ ok tt)
        × IsExpected listed compile_literal read_shop true app.id apps
        × (listed.update_application app s₁ ≡ (ok tt, shop_app ∷ api_app ∷ [])))
discovery_put_iff_example =
    discovery_put_iff listed compile_literal read_shop [] true (api_app ∷ [])
      (shop_app ∷ api_app ∷ [])
