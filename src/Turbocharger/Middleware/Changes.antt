-- ===== src/Turbocharger/Middleware/Changes.antt =====
-- pkg/turbocharger/middleware.go: how an answer of the origin changes the middleware.
use edgerouter.Base.{
  ℕ, ◌≡◌, refl, sym, ap, ◌⊎◌, inl, inr, Str, List, ◌∷◌, Result, and_then, ok, err, panic, Any,
  Bool-cases, eqb,
}
use edgerouter.Config.Validate.{is_empty}
use edgerouter.Backends.Handlers.{Url}
use edgerouter.Turbocharger.Ids.{Encodings}
use edgerouter.Turbocharger.Header.{Subtree, equal, parse_tc_header}
use edgerouter.Turbocharger.Middleware.{
  TcRequest, Discovered, Slot, never_stored, stored_nil, stored, Middleware, detach_turbocharger,
  attach_discovered_subtree, compare_advertisement, reattach, PingAnswer, check_answer, ping_check,
  ping_and_detach, after_ping,
}
use edgerouter.Turbocharger.Middleware.Traffic.{with_header}

module _ {Q : Type 0} (enc : Encodings) (url_string : Url → Str)
    (new_request : Str → Result Q) where
  -- The subtree is the one of a header among these.
  abbrev pub IsAdvertised : List Str → Subtree → Type 0
  IsAdvertised headers s = Any (λ h. parse_tc_header enc h ≡ ok s) headers

  -- Nothing changed, or the subtree was detached, or one of these headers was attached.
  abbrev pub Change : List Str → Middleware → Middleware → Type 0
  Change headers t t' =
      (t' ≡ t)
      ⊎ (t' ≡ detach_turbocharger t)
      ⊎ ((s : Subtree) × (r : TcRequest) × (now : ℕ) × (t'
            ≡ (attach_discovered_subtree enc url_string s r now t).1)
          × IsAdvertised headers s)

  -- The header of the subtree is among these, and need not be the last one that came.
  pub compare-Change :
      (s : Subtree) (r : TcRequest) (now : ℕ) (slot : Slot) (t t' : Middleware)
      (u : Result (Unit {0})) (headers : List Str)
      → IsAdvertised headers s
      → compare_advertisement enc url_string s r now slot t ≡ (u, t')
      → Change headers t t'
  compare-Change s r now never_stored t t' u headers a h =
      inr (inr (s, r, now, sym (ap (λ p. p.1) h), a))
  compare-Change s r now stored_nil t t' u headers a h = inl (sym (ap (λ p. p.1) h))
  compare-Change s r now (stored d) t t' u headers a h =
      elim (Bool-cases (equal d.subtree_version s)) [
        | inl same ↦ inl (sym (ap (λ p. p.1) (rw same at h)))
        | inr differs ↦ inr (inl (sym (ap (λ p. p.1) (rw differs at h))))
      ]

  answer-Change :
      (answer : PingAnswer) (r : TcRequest) (now : ℕ) (t t' : Middleware) (more : List Str)
      → after_ping enc url_string new_request
          (check_answer enc url_string new_request answer r now t)
        ≡ (ok tt, t')
      → Change (answer.tc_header ∷ more) t t'
  answer-Change answer r now t t' more h = elim (Bool-cases (eqb answer.code 200)) [
    | inr e ↦ inr (inl (sym (ap (λ p. p.1) (rw e at h))))
    | inl e ↦ elim (Bool-cases (is_empty answer.tc_header)) [
      | inl f ↦ inr (inl (sym (ap (λ p. p.1) (rw (e, f) at h))))
      | inr f ↦ parsed (parse_tc_header enc answer.tc_header) refl (rw (e, f) at h)
    ]
  ]
    where
      parsed :
          (m : Result Subtree)
          → parse_tc_header enc answer.tc_header ≡ m
          → after_ping enc url_string new_request (reattach enc url_string new_request m r now t)
            ≡ (ok tt, t')
          → Change (answer.tc_header ∷ more) t t'
      parsed (ok s) e k = inr (inr (s, r, now, sym (ap (λ p. p.1) k), inl e))
      parsed (err message) e k = inr (inl (sym (ap (λ p. p.1) k)))
      parsed panic e k = let p = ap (λ q. q.0) k in cc

  pub ping-Change :
      (d : Discovered) (origin : Q → PingAnswer) (r : TcRequest) (now : ℕ) (t t' : Middleware)
      (more : List Str)
      → ping_and_detach enc url_string new_request d origin r now t ≡ (ok tt, t')
      → Change (with_header enc url_string new_request (new_request d.ping_url) origin more) t t'
  unfolding ping_and_detach ping_check
  ping-Change d origin r now t t' more h = sent (new_request d.ping_url) h
    where
      sent :
          (m : Result Q)
          → after_ping enc url_string new_request (
              and_then
                (m, t)
                (λ ping t₁. check_answer enc url_string new_request (origin ping) r now t₁))
            ≡ (ok tt, t')
          → Change (with_header enc url_string new_request m origin more) t t'
      sent (ok ping) k = answer-Change (origin ping) r now t t' more k
      sent (err message) k = inr (inl (sym (ap (λ p. p.1) k)))
      sent panic k = let p = ap (λ q. q.0) k in cc
