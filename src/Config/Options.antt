-- ===== src/Config/Options.antt =====
-- pkg/erconfig/appconfig.go, the frontend options builder. An option is a function on the options,
-- as in the source, which mutates them through a pointer.
use edgerouter.Base.{Str, bytes, Bool, true, false, List, [], ◌∷◌}

pub record FrontendOptions : Type 0 where
  pub path_prefix : Str
  pub strip_path_prefix : Bool
  pub allow_insecure_http : Bool

abbrev pub FrontendOpt : Type 0
FrontendOpt = FrontendOptions → FrontendOptions

unfoldable pub apply_options : FrontendOptions → List FrontendOpt → FrontendOptions
apply_options opts [] = opts
apply_options opts (fn ∷ fns) = apply_options (fn opts) fns

unfoldable pub get_frontend_options : List FrontendOpt → FrontendOptions
unfolding apply_options
get_frontend_options fns =
    apply_options
      (record { path_prefix = bytes "/"; strip_path_prefix = false; allow_insecure_http = false })
      fns

unfoldable pub allow_insecure_http : FrontendOpt
allow_insecure_http opts = record opts { allow_insecure_http = true }

unfoldable pub path_prefix : Str → FrontendOpt
path_prefix p opts = record opts { path_prefix = p }

unfoldable pub strip_path_prefix : FrontendOpt
strip_path_prefix opts = record opts { strip_path_prefix = true }
