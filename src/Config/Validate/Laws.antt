-- ===== src/Config/Validate/Laws.antt =====
-- What the validation of pkg/erconfig/appconfig.go accepts, and where it panics.
use edgerouter.Base.{
  Str, bytes, ◌≡◌, ◌≢◌, refl, ◌↔◌, ◌⊎◌, inl, inr, List, [], ◌∷◌, ◌++◌, Result, ok, err, panic,
  ◌>>=◌, ◌>>◌, wrap, All, arith,
}
use edgerouter.Config.Types.{FrontendKind, Frontend, Application}
use edgerouter.Config.Validate.{
  error_if_unset, is_empty, is_empty-false_iff, validate_backend, validate_frontend_kind,
  validate_frontend, validate_frontends, validate,
}
use edgerouter.Config.Validate.Blocks.{BackendIsValid, IsDangling, validate_backend_iff}

-- A step that gives nothing but success or failure, and what follows it.
then_iff :
    (context : Str → Str) (m rest : Result (Unit {0}))
    → (((wrap context m >> rest) ≡ ok tt) ↔ ((m ≡ ok tt) × (rest ≡ ok tt)))
      × (((wrap context m >> rest) ≡ panic) ↔ ((m ≡ panic) ⊎ ((m ≡ ok tt) × (rest ≡ panic))))
then_iff context (ok tt) rest = ground arith
then_iff context (err e) rest = ground arith
then_iff context panic rest = ground arith

seq_iff :
    (m rest : Result (Unit {0}))
    → (((m >> rest) ≡ ok tt) ↔ ((m ≡ ok tt) × (rest ≡ ok tt)))
      × (((m >> rest) ≡ panic) ↔ ((m ≡ panic) ⊎ ((m ≡ ok tt) × (rest ≡ panic))))
seq_iff (ok tt) rest = ground arith
seq_iff (err e) rest = ground arith
seq_iff panic rest = ground arith

unset_iff :
    {A : Type 0} (xs : List A) (name : Str) (rest : Result (Unit {0}))
    → (((error_if_unset (is_empty xs) name >> rest) ≡ ok tt) ↔ ((xs ≢ []) × (rest ≡ ok tt)))
      × (((error_if_unset (is_empty xs) name >> rest) ≡ panic) ↔ ((xs ≢ []) × (rest ≡ panic)))
unfolding error_if_unset
unset_iff [] name rest = ground arith
unset_iff (x ∷ xs) name rest = ground arith

-- `compile` is regexp.Compile, which returns an error for a bad expression.
module _ {Regexp : Type 0} (compile : Str → Result Regexp)
    (compile-ne-panic : (s : Str) → compile s ≢ panic) where
  abbrev pub FrontendKindIsValid : FrontendKind → Frontend → Type 0
  FrontendKindIsValid FrontendKind.hostname f = f.hostname ≢ []
  FrontendKindIsValid FrontendKind.hostname_regexp f =
      (f.hostname_regexp ≢ []) × (re : Regexp) × (compile f.hostname_regexp ≡ ok re)
  FrontendKindIsValid FrontendKind.path_prefix f = f.path_prefix ≢ []
  FrontendKindIsValid (FrontendKind.unknown k) f = ⊥

  abbrev pub FrontendIsValid : Frontend → Type 0
  FrontendIsValid f = FrontendKindIsValid f.kind f

  compiled_iff :
      (context : Str → Str) (r : Result Regexp)
      → r ≢ panic
      → (((wrap context r >>= λ re. ok (tt {0})) ≡ ok tt) ↔ ((re : Regexp) × (r ≡ ok re)))
        × ((wrap context r >>= λ re. ok (tt {0})) ≢ panic)
  compiled_iff context (ok re) ne = (((λ h. (re, refl)), (λ h. refl)), (λ h. cc))
  compiled_iff context (err e) ne = (((λ h. cc), (λ (re, h). cc)), (λ h. cc))
  compiled_iff context panic ne = absurd (ne refl)

  frontend_kind_iff :
      (k : FrontendKind) (f : Frontend)
      → ((validate_frontend_kind compile k f ≡ ok tt) ↔ FrontendKindIsValid k f)
        × (validate_frontend_kind compile k f ≢ panic)
  unfolding error_if_unset
  frontend_kind_iff FrontendKind.hostname f = ground (arith, is_empty-false_iff f.hostname)
  frontend_kind_iff FrontendKind.path_prefix f = ground (arith, is_empty-false_iff f.path_prefix)
  frontend_kind_iff (FrontendKind.unknown k) f = ground arith
  frontend_kind_iff FrontendKind.hostname_regexp f =
      let (valid, panics) =
        unset_iff f.hostname_regexp (bytes "HostnameRegexp")
          (wrap (λ e. bytes "HostnameRegexp: " ++ e) (compile f.hostname_regexp) >>= λ re. ok tt) in
      let (compiled, ne) =
        compiled_iff (λ e. bytes "HostnameRegexp: " ++ e) (compile f.hostname_regexp)
          (compile-ne-panic f.hostname_regexp) in
      (
        (
          (λ h. let (a, b) = valid.0 h in let (re, c) = compiled.0 b in (a, re, c)),
          (λ (a, re, c). valid.1 (a, compiled.1 (re, c))),
        ),
        (λ h. ne (panics.0 h).1),
      )

  frontends_iff :
      (app_id : Str) (fs : List Frontend)
      → ((validate_frontends compile app_id fs ≡ ok tt) ↔ All FrontendIsValid fs)
        × (validate_frontends compile app_id fs ≢ panic)
  unfolding validate_frontends validate_frontend
  frontends_iff app_id [] = ground arith
  frontends_iff app_id (f ∷ fs) =
      let (valid, panics) =
        then_iff (λ e. bytes "app " ++ (app_id ++ (bytes " frontend: " ++ e)))
          (validate_frontend_kind compile f.kind f) (validate_frontends compile app_id fs) in
      let (here, ne) = frontend_kind_iff f.kind f in
      let (there, ne') = frontends_iff app_id fs in
      (
        (
          (λ h. let (a, b) = valid.0 h in (here.0 a, there.0 b)),
          (λ (a, b). valid.1 (here.1 a, there.1 b)),
        ),
        (λ h. elim (panics.0 h) [ inl p ↦ ne p | inr (a, p) ↦ ne' p ]),
      )

  -- An application passes the validation exactly if it has an identifier and a frontend, each
  -- frontend has what its kind needs (an expression that compiles, for a hostname expression), and
  -- the option block that the backend's kind needs is there with its required fields set.
  pub validate_iff :
      (a : Application)
      → (validate compile a ≡ ok tt) ↔ (
          (a.id ≢ [])
          × (a.frontends ≢ [])
          × All FrontendIsValid a.frontends
          × BackendIsValid a.app_backend)
  unfolding validate
  validate_iff a =
      let checked = validate_frontends compile a.id a.frontends in
      let rest = validate_backend a.id a.app_backend in
      let (p, p') =
        (unset_iff a.id (bytes "Id")
          (error_if_unset (is_empty a.frontends) (bytes "Frontends") >> (checked >> rest))).0 in
      let (q, q') = (unset_iff a.frontends (bytes "Frontends") (checked >> rest)).0 in
      let (x, x') = (seq_iff checked rest).0 in
      let (f, f') = (frontends_iff a.id a.frontends).0 in
      let (b, b') = (validate_backend_iff a.id a.app_backend).0 in
      (
        (λ h.
            let (id, h₁) = p h in
            let (some_frontend, h₂) = q h₁ in
            let (h₃, h₄) = x h₂ in (id, some_frontend, f h₃, b h₄)),
        (λ (id, some_frontend, h₃, h₄). p' (id, q' (some_frontend, x' (f' h₃, b' h₄)))),
      )

  -- The validation panics exactly when all that is checked before the backend is as it should be,
  -- and the option block that the backend's kind needs is missing.
  pub validate-panic_iff :
      (a : Application)
      → (validate compile a ≡ panic) ↔ (
          (a.id ≢ [])
          × (a.frontends ≢ [])
          × All FrontendIsValid a.frontends
          × IsDangling a.app_backend)
  unfolding validate
  validate-panic_iff a =
      let checked = validate_frontends compile a.id a.frontends in
      let rest = validate_backend a.id a.app_backend in
      let (p, p') =
        (unset_iff a.id (bytes "Id")
          (error_if_unset (is_empty a.frontends) (bytes "Frontends") >> (checked >> rest))).1 in
      let (q, q') = (unset_iff a.frontends (bytes "Frontends") (checked >> rest)).1 in
      let (x, x') = (seq_iff checked rest).1 in
      let ((f, f'), ne) = frontends_iff a.id a.frontends in
      let (b, b') = (validate_backend_iff a.id a.app_backend).1 in
      (
        (λ h.
            let (id, h₁) = p h in
            let (some_frontend, h₂) = q h₁ in
            elim (x h₂) [
              | inl h₃ ↦ absurd (ne h₃)
              | inr (h₃, h₄) ↦ (id, some_frontend, f h₃, b h₄)
            ]),
        (λ (id, some_frontend, h₃, h₄). p' (id, q' (some_frontend, x' (inr (f' h₃, b' h₄))))),
      )
