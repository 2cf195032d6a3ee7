-- ===== src/Backends/AuthV0/Laws.antt =====
-- pkg/erbackend/authv0backend/authv0.go: who gets through, and with which headers.
use edgerouter.Base.{
  ◌≡◌, ◌≢◌, refl, sym, ap, ◌∙◌, subst, ◌↔◌, ◌⊎◌, inl, inr, Str, bytes, ◌==◌, eq_iff, eq_refl,
  has_prefix, has_prefix-append, has_prefix-split, true, false, not, ◌&&◌, [], ◌∷◌, ◌++◌, Option,
  none, some, drop, length, if◌then◌else◌, Bool-cases, arith,
}
use edgerouter.Base.Dict.{lookup, delete, lookup-delete}
use edgerouter.Config.Validate.{is_empty, is_empty-true_iff}
use edgerouter.Discovery.Service.{or_blank}
use edgerouter.Backends.AuthV0.{
  Headers, authorization, authorized_call, unauthorized, basic_token, given_token, authorize,
  serve_http,
}

drop-append : (p s : Str) → drop (length p) (p ++ s) ≡ s
drop-append [] s = refl
drop-append (c ∷ p) s = drop-append p s

module _ (basic_auth : Str → Option (Str × Str)) where
  -- The value of the header carries the token: behind the word Bearer, or as the password of basic
  -- authentication without a user name or with the name x.
  abbrev pub Carries : Str → Str → Type 0
  Carries header token =
      (header ≡ bytes "Bearer " ++ token)
      ⊎ ((has_prefix header (bytes "Bearer ") ≡ false)
          × (username : Str) × (basic_auth header ≡ some (username, token))
          × ((username ≡ []) ⊎ (username ≡ bytes "x")))

  abbrev pub Presents : Headers → Str → Type 0
  Presents headers token =
      (header : Str) × (lookup authorization headers ≡ some header)
      × (header ≢ [])
      × Carries header token

  basic_token_iff :
      (token : Str) (given : Option (Str × Str))
      → token ≢ []
      → (basic_token basic_auth given ≡ token) ↔ (
          (username : Str) × (given ≡ some (username, token))
          × ((username ≡ []) ⊎ (username ≡ bytes "x")))
  basic_token_iff token none ne = ((λ h. absurd (ne (sym h))), (λ (u, h, k). cc))
  basic_token_iff token (some (u, p)) ne = (to, from)
    where
      to :
          (if not (is_empty u) && not (u == bytes "x") then [] else p) ≡ token
          → (username : Str) × (◌≡◌ {A = Option (Str × Str)} (some (u, p)) (some (username, token)))
            × ((username ≡ []) ⊎ (username ≡ bytes "x"))
      to h = elim (Bool-cases (is_empty u)) [
        | inl e ↦ (
          u,
          ap {B = Option (Str × Str)} (λ q. some (u, q)) (rw e at h),
          inl ((is_empty-true_iff u).0 e),
        )
        | inr e ↦ elim (Bool-cases (u == bytes "x")) [
          | inl f ↦ (
            u,
            ap {B = Option (Str × Str)} (λ q. some (u, q)) (rw (e, f) at h),
            inr ((eq_iff u (bytes "x")).0 f),
          )
          | inr f ↦ absurd (ne (sym (rw (e, f) at h)))
        ]
      ]

      from :
          ((username : Str) × (◌≡◌ {A = Option (Str × Str)} (some (u, p)) (some (username, token)))
            × ((username ≡ []) ⊎ (username ≡ bytes "x")))
          → (if not (is_empty u) && not (u == bytes "x") then [] else p) ≡ token
      from (v, h, inl k) =
          let same_u : u ≡ v = cc in
          let same_p : p ≡ token = cc in rw ((is_empty-true_iff u).1 (same_u ∙ k)) same_p
      from (v, h, inr k) =
          let same_u : u ≡ v = cc in
          let same_p : p ≡ token = cc in rw ((eq_iff u (bytes "x")).1 (same_u ∙ k)) (ground (arith))

  given_token_iff :
      (header token : Str)
      → token ≢ []
      → (given_token basic_auth header ≡ token) ↔ Carries header token
  unfolding given_token
  given_token_iff header token ne = elim (Bool-cases (has_prefix header (bytes "Bearer "))) [
    | inl e ↦ (
      λ h. inl (
          has_prefix-split header (bytes "Bearer ") e ∙ ap (λ t. bytes "Bearer " ++ t) (rw e at h)),
      elim [
        | inl k ↦ rw e (rw k (drop-append (bytes "Bearer ") token))
        | inr k ↦ let p = k.0 in cc
      ],
    )
    | inr e ↦ (
      λ h.
          let (u, g, k) = (basic_token_iff token (basic_auth header) ne).0 (rw e at h) in
          inr (e, u, g, k),
      elim [
        | inl k ↦ let p = has_prefix-append (bytes "Bearer ") token in cc
        | inr (n, u, g, k) ↦ rw e ((basic_token_iff token (basic_auth header) ne).1 (u, g, k))
      ],
    )
  ]

  authorize_iff :
      (headers : Headers) (token : Str)
      → token ≢ []
      → (authorize basic_auth headers token ≡ true) ↔ Presents headers token
  unfolding authorize
  authorize_iff headers token ne = go (lookup authorization headers) refl
    where
      go :
          (found : Option Str)
          → lookup authorization headers ≡ found
          → ((if is_empty (or_blank found)
                then false
                else given_token basic_auth (or_blank found) == token)
              ≡ true)
            ↔ ((header : Str) × (found ≡ some header) × (header ≢ []) × Carries header token)
      go none e = ((λ h. cc), (λ (h, k, ne, c). cc))
      go (some []) e = ((λ h. cc), (λ (h, k, n, c). absurd (n cc)))
      go (some (c ∷ s)) e = (
        λ h. (c ∷ s, refl, (λ q. cc), (given_token_iff (c ∷ s) token ne).0 ((eq_iff _ _).0 h)),
        λ (header, k, n, carries).
            let same : header ≡ c ∷ s = cc in
            (eq_iff _ _).1
              ((given_token_iff (c ∷ s) token ne).1 (subst (λ x. Carries x token) same carries)),
      )

  -- For an expected token that is not empty: the authorized backend is called exactly for the requests
  -- that present the token, and otherwise the answer is that the request is unauthorized. The backend
  -- never sees the header Authorization, and it sees every other header as it came.
  pub serve_http_iff :
      (headers : Headers) (token : Str)
      → token ≢ []
      → ((called : Headers)
          → (serve_http basic_auth token headers ≡ authorized_call called)
            ↔ (Presents headers token × (called ≡ delete authorization headers)))
        × ((¬ Presents headers token) → serve_http basic_auth token headers ≡ unauthorized)
        × (lookup authorization (delete authorization headers) ≡ none)
        × ((key : Str)
            → key ≢ authorization
            → lookup key (delete authorization headers) ≡ lookup key headers)
  unfolding serve_http
  serve_http_iff headers token ne = (
    λ called. elim (Bool-cases (authorize basic_auth headers token)) [
      | inl e ↦ (
        λ h. ((authorize_iff headers token ne).0 e, let k = rw e at h in cc),
        λ (p, same). rw (e, same) refl,
      )
      | inr e ↦ (
        λ h. let k = rw e at h in cc,
        λ (p, same). let t = (authorize_iff headers token ne).1 p in cc,
      )
    ],
    λ absent. elim (Bool-cases (authorize basic_auth headers token)) [
      | inl e ↦ absurd (absent ((authorize_iff headers token ne).0 e))
      | inr e ↦ rw e refl
    ],
    rw (lookup-delete authorization authorization headers, eq_refl authorization) refl,
    λ key differs.
        lookup-delete authorization key headers ∙ ground (arith, eq_iff authorization key),
  )
