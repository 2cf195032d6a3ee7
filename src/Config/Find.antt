-- ===== src/Config/Find.antt =====
-- pkg/erconfig/utils.go
use edgerouter.Base.{Str, ◌==◌, List, Option, find}
use edgerouter.Config.Types.{Application}

unfoldable pub find_application : Str → List Application → Option Application
find_application id apps = find (λ app. app.id == id) apps
