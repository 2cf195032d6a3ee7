-- ===== src/Tests/Configs.antt =====
-- Runs of the validation of pkg/erconfig/appconfig.go.
use edgerouter.Base.{◌≡◌, ◌≢◌, refl, ◌↔◌, bytes, [], ◌∷◌, ok, err, panic, All}
use edgerouter.Config.{BackendKind, Backend, backend, no_auth_v0, no_auth_sso, no_opts, Application}
use edgerouter.Config.Validate.{validate}
use edgerouter.Config.Validate.Blocks.{BackendIsValid, IsDangling}
use edgerouter.Config.Validate.Laws.{FrontendIsValid, validate_iff, validate-panic_iff}
use edgerouter.Config.Factories.{redirect_backend}
use edgerouter.Tests.Sample.{compile_literal, compile_literal-ne-panic, on_host}

abbrev redirecting : Backend → Application
redirecting b = record {
  id = bytes "r";
  frontends = on_host (bytes "a.fi") (bytes "/") ∷ [];
  app_backend = b;
}

-- A configuration `{"kind": "redirect"}` whose option block is missing.
abbrev dangling : Backend
dangling = backend BackendKind.redirect no_opts no_auth_v0 no_auth_sso

redirect_valid :
    validate compile_literal (redirecting (redirect_backend (bytes "https://b.fi/"))) ≡ ok tt
unfolding validate bytes redirect_backend
redirect_valid = refl

redirect_to_nothing :
    validate compile_literal (redirecting (redirect_backend []))
    ≡ err (bytes "'To' is required but not set")
unfolding validate bytes redirect_backend
redirect_to_nothing = refl

dangling_panics : validate compile_literal (redirecting dangling) ≡ panic
unfolding validate bytes
dangling_panics = refl

validate_iff_example :
    (validate compile_literal (redirecting (redirect_backend (bytes "https://b.fi/"))) ≡ ok tt) ↔ (
      (bytes "r" ≢ [])
      × ((on_host (bytes "a.fi") (bytes "/") ∷ []) ≢ [])
      × All
          (FrontendIsValid compile_literal compile_literal-ne-panic)
          (on_host (bytes "a.fi") (bytes "/") ∷ [])
      × BackendIsValid (redirect_backend (bytes "https://b.fi/")))
validate_iff_example =
    validate_iff compile_literal compile_literal-ne-panic
      (redirecting (redirect_backend (bytes "https://b.fi/")))

validate-panic_iff_example : (validate compile_literal (redirecting dangling) ≡ panic) ↔ (
    (bytes "r" ≢ [])
    × ((on_host (bytes "a.fi") (bytes "/") ∷ []) ≢ [])
    × All
        (FrontendIsValid compile_literal compile_literal-ne-panic)
        (on_host (bytes "a.fi") (bytes "/") ∷ [])
    × IsDangling dangling)
validate-panic_iff_example =
    validate-panic_iff compile_literal compile_literal-ne-panic (redirecting dangling)
