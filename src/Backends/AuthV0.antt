-- ===== src/Backends/AuthV0.antt =====
-- pkg/erbackend/authv0backend/authv0.go: authentication by a static token. The request's method
-- BasicAuth, of package net/http, is a parameter on the value of the Authorization header.
pub mod Laws
use edgerouter.Base.{
  ℕ, ◌≡◌, ◌≢◌, refl, sym, ap, subst, ◌↔◌, ◌⊎◌, inl, inr, Str, bytes, ◌==◌, eq_iff, eq_refl,
  has_prefix, Bool, true, false, not, ◌&&◌, List, [], ◌∷◌, ◌++◌, Option, none, some, drop, length,
  if◌then◌else◌, Bool-cases, Option-cases, arith,
}
use edgerouter.Base.Dict.{Dict, lookup, delete, lookup-delete}
use edgerouter.Config.Validate.{is_empty}
use edgerouter.Discovery.Service.{or_blank}

-- A request by its headers, the key of each in its canonical form. A header that is sent several
-- times is its first value, which is the one that Get reads.
abbrev pub Headers : Type 0
Headers = Dict Str

abbrev pub authorization : Str
authorization = bytes "Authorization"

-- What the middleware answers: the call of the authorized backend with the request's headers, or
-- the status 401 with the header that asks for credentials.
pub data Response : Type 0 where
  authorized_call : Headers → Response
  unauthorized : Response

-- `basic_auth` gives the user name and the password, if the header is of that scheme.
module _ (basic_auth : Str → Option (Str × Str)) where
  abbrev pub basic_token : Option (Str × Str) → Str
  basic_token none = []
  basic_token (some (username, password)) =
      if not (is_empty username) && not (username == bytes "x") then [] else password

  -- The closure `givenToken`.
  unfoldable pub given_token : Str → Str
  given_token header =
      if has_prefix header (bytes "Bearer ")
      then drop (length (bytes "Bearer ")) header
      else basic_token (basic_auth header)

  -- subtle.ConstantTimeCompare gives 1 exactly for equal contents.
  unfoldable pub authorize : Headers → Str → Bool
  unfolding given_token
  authorize headers expected_bearer_token =
      let header = or_blank (lookup authorization headers) in
      if is_empty header then false else given_token header == expected_bearer_token

  unfoldable pub serve_http : Str → Headers → Response
  unfolding authorize
  serve_http expected_bearer_token headers =
      if authorize headers expected_bearer_token
      then authorized_call (delete authorization headers)
      else unauthorized
