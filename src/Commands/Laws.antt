-- ===== src/Commands/Laws.antt =====
-- cmd/edgerouter/discovery.go: when a command writes, and what.
use edgerouter.Base.{
  ◌≡◌, ◌≢◌, refl, sym, ap, ◌∙◌, subst, ◌↔◌, inl, inr, Str, ◌==◌, eq_iff, Bool, true, false, List,
  [], ◌∷◌, Result, ok, and_then-eq-ok, All, Any, Bool-cases,
}
use edgerouter.Config.{Application}
use edgerouter.Config.Validate.{validate}
use edgerouter.Config.Find.{find_application}
use edgerouter.Commands.{ReaderWriter, is_found, put_checked, discovery_put}

abbrev pub Exists : Str → List Application → Type 0
Exists id apps = Any (λ a. a.id ≡ id) apps

abbrev pub IsAbsent : Str → List Application → Type 0
IsAbsent id apps = All (λ a. a.id ≢ id) apps

find_application-Exists :
    (id : Str) (apps : List Application)
    → ((is_found (find_application id apps) ≡ true) ↔ Exists id apps)
      × ((is_found (find_application id apps) ≡ false) ↔ IsAbsent id apps)
unfolding find_application
find_application-Exists id [] = (((λ h. cc), (λ h. elim h [ ])), ((λ h. tt), (λ h. refl)))
find_application-Exists id (a ∷ apps) =
    let ((to, from), (to', from')) = find_application-Exists id apps in
    elim (Bool-cases (a.id == id)) [
      | inl e ↦
          let same = (eq_iff a.id id).0 e in
          rw e (((λ h. inl same), (λ h. refl)), ((λ h. cc), (λ h. absurd (h.0 same))))
      | inr e ↦
          let differs : a.id ≢ id = λ same. let t = (eq_iff a.id id).1 same in cc in
          rw e (
            ((λ h. inr (to h)), elim [ inl same ↦ absurd (differs same) | inr h ↦ from h ]),
            ((λ h. (differs, to' h)), (λ h. from' h.1)),
          )
    ]

module _ {S R : Type 0} (service : ReaderWriter S) (compile : Str → Result R)
    (unmarshal : Str → Result Application) where
  -- The flag `--new` says what the discovery says.
  abbrev pub IsExpected : Bool → Str → List Application → Type 0
  IsExpected true id apps = IsAbsent id apps
  IsExpected false id apps = Exists id apps

  put_checked_iff :
      (new_ok : Bool) (apps : List Application) (app : Application) (s s' : S)
      → (put_checked service new_ok (is_found (find_application app.id apps)) app s ≡ (ok tt, s'))
        ↔ (IsExpected new_ok app.id apps × (service.update_application app s ≡ (ok tt, s')))
  put_checked_iff true apps app s s' =
      let ((to, from), (to', from')) = find_application-Exists app.id apps in
      elim (Bool-cases (is_found (find_application app.id apps))) [
        | inl e ↦
            rw e ((λ h. let p = ap (λ q. q.0) h in cc), (λ (absent, h). let t = from' absent in cc))
        | inr e ↦ rw e ((λ h. (to' e, h)), (λ (absent, h). h))
      ]
  put_checked_iff false apps app s s' =
      let ((to, from), (to', from')) = find_application-Exists app.id apps in
      elim (Bool-cases (is_found (find_application app.id apps))) [
        | inl e ↦ rw e ((λ h. (to e, h)), (λ (there, h). h))
        | inr e ↦
            rw e ((λ h. let p = ap (λ q. q.0) h in cc), (λ (there, h). let t = from there in cc))
      ]

  -- A put succeeds exactly if the applications can be read, the input decodes to an application that
  -- passes the validation, it is absent where a new one is announced and exists otherwise, and its
  -- update succeeds; the state is then the one that the update leaves.
  pub discovery_put_iff :
      (content : Str) (new_ok : Bool) (s s' : S)
      → (discovery_put service compile unmarshal content new_ok s ≡ (ok tt, s')) ↔ (
          (apps : List Application) × (s₁ : S) × (app : Application) × (service.read_applications s
            ≡ (ok apps, s₁))
          × (unmarshal content ≡ ok app)
          × (validate compile app ≡ ok tt)
          × IsExpected new_ok app.id apps
          × (service.update_application app s₁ ≡ (ok tt, s')))
  unfolding discovery_put
  discovery_put_iff content new_ok s s' = (
    λ h.
        let (apps, s₁, read, h₁) = and_then-eq-ok (service.read_applications s) _ h in
        let (app, s₂, decoded, h₂) = and_then-eq-ok (unmarshal content, s₁) _ h₁ in
        let (u, s₃, valid, h₃) = and_then-eq-ok (validate compile app, s₂) _ h₂ in
        let same : s₃ ≡ s₁ = sym (ap (λ p. p.1) valid) ∙ sym (ap (λ p. p.1) decoded) in
        let (expected, updated) = (put_checked_iff new_ok apps app s₃ s').0 h₃ in
        (
          apps,
          s₁,
          app,
          read,
          ap (λ p. p.0) decoded,
          ap (λ p. p.0) valid,
          expected,
          subst (λ t. service.update_application app t ≡ (ok tt, s')) same updated,
        ),
    λ (apps, s₁, app, read, decoded, valid, expected, updated).
        rw (read, decoded, valid) ((put_checked_iff new_ok apps app s₁ s').1 (expected, updated)),
  )
